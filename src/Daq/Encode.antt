-- ===== src/Daq/Encode.antt =====
-- `build_parts_parallel`, `_fan_out` and `encoded_blob` of daq.py. `Bench` is what they take from the
-- LSST stack, from the pool of processes and from the system.
use donut_server.Prelude.{
  ℕ, ◌+◌, ◌*◌, ◌≡◌, Bool, true, false, not, Option, none, some, List, [], ◌∷◌, if◌then◌else◌, ltb,
  leb, eqb, ◌&&◌, length, lookup, put, In,
}
use donut_server.Bytes.{Bytes, Name, Codec, name_eq}
use donut_server.Exec.{Outcome, ok, raise, ◌>>=◌, ◌>>◌, pure, lift, on_ok}
use donut_server.Exec.Raise.{check, require}
use donut_server.Exec.Handlers.{catching, finally}
use donut_server.Protocol
use donut_server.Protocol.{header_size, descriptor_region_size, pack_blob}
use donut_server.Protocol.Parts.{img_suffix, meta_suffix, part_name}
use donut_server.Protocol.Framing.{Offsets, build_framing}
use donut_server.Daq
use donut_server.Daq.{Stack, RawSource, RawHandle, detector_name, expected_sensors}
use donut_server.Daq.Memory.{read}
use donut_server.Daq.Shared.{
  Fault, wrong_shape, serial_is_set, no_detectors, not_clamped, low_space, meta_too_long, pool_lost,
  workers_failed, Failure, unavailable, in_header, in_protocol, key_error, file_not_found,
  interrupted, is_exception, World, Step, create, export_view, keep_views, release_view, write,
  close, unlink, set_context,
}

-- (height, width)
abbrev pub Shape : Type 0
Shape = ℕ × ℕ

-- np.dtype(IMG_DTYPE).itemsize, of float32
abbrev pub item_size : ℕ
item_size = 4

abbrev pub same_shape : Shape → Shape → Bool
same_shape a c = eqb a.0 c.0 && eqb a.1 c.1

abbrev pub image_size : Shape → ℕ
image_size shape = shape.0 * shape.1 * item_size

-- `meta_allowance`
abbrev pub meta_allowance : ℕ
meta_allowance = expected_sensors * 4 * 1024 * 1024

-- one detector of a source, as the encoder knows it before the fork
pub record Sensor (k : Stack) : Type 0 where
  pub det_id : ℕ
  pub handle : RawHandle k
  pub name : Name
  pub shape : Shape

pub record Bench (k : Stack) : Type 0 where
  -- `_image_shape` of a detector's camera geometry
  pub image_shape : ℕ → Shape
  -- `_assemble_image`: the shape and the bytes of the array, as many as the shape has
  pub assemble : RawHandle k → Outcome Fault (Shape × Bytes)
  pub assembled_size :
      (h : RawHandle k) (shape : Shape) (pixels : Bytes)
      → assemble h ≡ ok (shape, pixels)
      → length pixels ≡ image_size shape
  -- encode_meta of `_build_stub`
  pub encode_stub : RawHandle k → Outcome Fault Bytes
  -- DONUT_SERVER_SERIAL_ENCODE, and `_assert_single_threaded_blas`
  pub serial_set : Bool
  pub clamped : Bool
  -- shm_free_bytes(), and whether a block can be made
  pub free_bytes : Option ℕ
  pub can_create : Bool
  -- whether the pool fails or does not return in time
  pub pool_fails : Bool
  -- whether a KeyboardInterrupt comes while the workers are waited for
  pub is_interrupted : Bool
  -- The order in which the workers write: each of them does, and nothing else.
  pub order : List (Sensor k) → List (Sensor k)
  pub order_all : (ss : List (Sensor k)) (s : Sensor k) → In s ss → In s (order ss)
  pub order_only : (ss : List (Sensor k)) (s : Sensor k) → In s (order ss) → In s ss
  -- load, and encode_exposure with the name of the exposure's detector
  pub load_encoded : RawHandle k → Outcome Failure (Name × (Bytes × Bytes))

module _ {A : Type 0} where
  -- sorted() of a dict's numbers
  unfoldable pub insert_id : ℕ × A → List (ℕ × A) → List (ℕ × A)
  insert_id e [] = e ∷ []
  insert_id e (f ∷ es) = if ltb f.0 e.0 then f ∷ insert_id e es else e ∷ f ∷ es

  unfoldable pub sort_ids : List (ℕ × A) → List (ℕ × A)
  unfolding insert_id
  sort_ids [] = []
  sort_ids (e ∷ es) = insert_id e (sort_ids es)

unfoldable pub of_protocol : {A : Type 0} → Protocol.Result A → Outcome Failure A
of_protocol (Protocol.ok a) = ok a
of_protocol (Protocol.err why) = raise (in_protocol why)

unfoldable pub of_header : {A : Type 0} → Outcome Daq.Error A → Outcome Failure A
of_header (ok a) = ok a
of_header (raise why) = raise (in_header why)

-- the dicts `sizes` and `offsets`, and the cursor
pub record Laid : Type 0 where
  pub sizes : List (Name × ℕ)
  pub offsets : Offsets
  pub cursor : ℕ

abbrev pub nothing_laid : Laid
nothing_laid = record { sizes = []; offsets = []; cursor = 0 }

-- one part at the cursor
unfoldable pub lay : Name → ℕ → Laid → Laid
lay part size laid = record {
  sizes = put part size laid.sizes;
  offsets = put part laid.cursor laid.offsets;
  cursor = laid.cursor + size;
}

-- free is not None and free < block_size
abbrev pub has_space : Option ℕ → ℕ → Bool
has_space none size = true
has_space (some free) size = not (ltb free size)

abbrev pub is_empty : {A : Type 0} → List A → Bool
is_empty [] = true
is_empty (a ∷ rest) = false

-- the metas, and the errors of the workers
abbrev pub or_failures : {A : Type 0} → List (ℕ × Fault) → A → Outcome Failure A
or_failures [] metas = ok metas
or_failures (f ∷ failures) metas = raise (unavailable (workers_failed (f ∷ failures)))

module _ (k : Stack) (b : Bench k) where
  unfoldable pub sensors_of : List (ℕ × RawHandle k) → Outcome Daq.Error (List (Sensor k))
  unfolding detector_name
  sensors_of [] = ok []
  sensors_of ((det_id, handle) ∷ handles) = on_ok (detector_name k handle.header) (λ name.
      on_ok (sensors_of handles) (λ rest. ok (
        record {
          det_id = det_id;
          handle = handle;
          name = name;
          shape = b.image_shape handle.detector_num;
        }
        ∷ rest)))

  -- the parts of the images, and after them those of the metas
  unfoldable pub lay_images : List (Sensor k) → Laid → Laid
  unfolding lay part_name
  lay_images [] laid = laid
  lay_images (s ∷ sensors) laid =
      lay_images sensors (lay (part_name s.name img_suffix) (image_size s.shape) laid)

  unfoldable pub lay_metas : List (Sensor k × Bytes) → Laid → Laid
  unfolding lay part_name
  lay_metas [] laid = laid
  lay_metas ((s, meta) ∷ metas) laid =
      lay_metas metas (lay (part_name s.name meta_suffix) (length meta) laid)

  -- the names for descriptor_region_size
  abbrev pub part_names : List (Sensor k) → List Name
  part_names [] = []
  part_names (s ∷ sensors) =
      part_name s.name img_suffix ∷ part_name s.name meta_suffix ∷ part_names sensors

  -- where a worker writes: the slot of its detector, whose part was laid
  unfoldable pub slot_start : ℕ → Offsets → Sensor k → ℕ
  unfolding part_name
  slot_start data_start offsets s = elim (lookup (part_name s.name img_suffix) offsets) [
    | none ↦ data_start
    | some at ↦ data_start + at
  ]

  -- `_encode_one`: what it assembles into its slot, and the meta that it returns
  unfoldable pub encode_one : Sensor k → Outcome Fault (Bytes × Bytes)
  encode_one s = on_ok (b.assemble s.handle) (λ assembled.
      if same_shape assembled.0 s.shape
      then on_ok (b.encode_stub s.handle) (λ meta. ok (assembled.1, meta))
      else raise wrong_shape)

  -- the writes of the workers; one that fails leaves a block that is not used
  unfoldable pub write_images : ℕ → Offsets → List (Sensor k) → Step (Unit {0})
  unfolding slot_start encode_one write pure ◌>>=◌
  write_images data_start offsets [] = pure tt
  write_images data_start offsets (s ∷ sensors) = elim (encode_one s) [
    | raise why ↦ write_images data_start offsets sensors
    | ok (pixels, meta) ↦ do
      write (slot_start data_start offsets s) pixels
      write_images data_start offsets sensors
  ]

  -- the loop over the results
  unfoldable pub gather_metas : List (Sensor k) → List (ℕ × Fault) × List (Sensor k × Bytes)
  unfolding encode_one
  gather_metas [] = ([], [])
  gather_metas (s ∷ sensors) =
      let (failures, metas) = gather_metas sensors in
      elim (encode_one s) [
        | raise why ↦ ((s.det_id, why) ∷ failures, metas)
        | ok (pixels, meta) ↦ (failures, (s, meta) ∷ metas)
      ]

  unfoldable pub fan_out : ℕ → Offsets → List (Sensor k) → Step (List (Sensor k × Bytes))
  unfolding write_images gather_metas lift ◌>>=◌
  fan_out data_start offsets sensors = do
    write_images data_start offsets (b.order sensors)
    lift (check (not b.is_interrupted) interrupted)
    lift (check (not b.pool_fails) (unavailable pool_lost))
    lift (or_failures (gather_metas sensors).0 (gather_metas sensors).1)

  -- the loop that writes the metas at their absolute offsets
  unfoldable pub write_metas : Offsets → List (Sensor k × Bytes) → Step (Unit {0})
  unfolding write lift pure ◌>>=◌ part_name
  write_metas absolute [] = pure tt
  write_metas absolute ((s, meta) ∷ metas) = do
    start ← lift (require (lookup (part_name s.name meta_suffix) absolute) key_error)
    write start meta
    write_metas absolute metas

  -- the framing and the metas, when the metas are known
  unfoldable pub frame : Codec → List (Sensor k × Bytes) → Laid → ℕ → Step ℕ
  unfolding of_protocol build_framing write_metas
  frame c metas whole block_size = do
    (framing, absolute, total) ←
        lift (of_protocol (build_framing c whole.sizes (some whole.offsets)))
    lift (check (leb total block_size) (unavailable meta_too_long))
    write 0 framing
    write_metas absolute metas
    pure total

  -- the block, once it is made
  unfoldable pub fill : Codec → List (Sensor k) → Laid → ℕ → ℕ → Step ℕ
  unfolding fan_out lay_metas frame
  fill c sensors laid data_start block_size = do
    set_context true
    metas ← fan_out data_start laid.offsets sensors
    export_view
    frame c metas (lay_metas metas laid) block_size

  -- the `except` clause: the view, the block and its name, and the exception again, if it is one
  unfoldable pub give_up : Failure → Step ℕ
  unfolding is_exception release_view close unlink lift ◌>>=◌
  give_up why =
      if is_exception why
      then (do release_view; close; unlink; lift (raise why))
      else lift (raise why)

  -- from the layout on: it returns the length of the blob, and the block stays with its one view
  unfoldable pub encode_sensors : Codec → List (Sensor k) → Step ℕ
  unfolding lay_images of_protocol fill give_up
  encode_sensors c sensors = do
    let laid = lay_images sensors nothing_laid
    descriptors ← lift (of_protocol (descriptor_region_size c (part_names sensors)))
    let block_size = header_size + descriptors + laid.cursor + meta_allowance
    lift (check (has_space b.free_bytes block_size) (unavailable low_space))
    create b.can_create block_size
    finally (catching (fill c sensors laid (header_size + descriptors) block_size) give_up)
        (set_context false)

  unfoldable pub build_parts_parallel : Codec → RawSource k.Degrees (RawHandle k) → Step ℕ
  unfolding sort_ids sensors_of of_header encode_sensors
  build_parts_parallel c source = do
    let handles = sort_ids source.handles
    lift (check (not b.serial_set) (unavailable serial_is_set))
    lift (check (not (is_empty handles)) (unavailable no_detectors))
    lift (check b.clamped (unavailable not_clamped))
    sensors ← lift (of_header (sensors_of handles))
    encode_sensors c sensors

  -- `client.build_raw_parts`
  unfoldable pub build_raw_parts :
      List (ℕ × RawHandle k) → List (Name × Bytes) → Outcome Failure (List (Name × Bytes))
  unfolding part_name
  build_raw_parts [] parts = ok parts
  build_raw_parts ((_, handle) ∷ handles) parts = on_ok (b.load_encoded handle) (λ r.
      build_raw_parts handles
        (put (part_name r.0 meta_suffix) r.1.1 (put (part_name r.0 img_suffix) r.1.0 parts)))

  -- view[:total]
  unfoldable pub body_of : ℕ → World → Bytes
  unfolding read
  body_of total w = elim w.mapping [ none ↦ [] | some m ↦ read m.cells 0 total ]

  -- `except FileNotFoundError: pass`
  abbrev ignore_missing : Failure → Step (Unit {0})
  ignore_missing file_not_found = pure tt
  ignore_missing why = lift (raise why)

  -- the `finally` of the context manager
  unfoldable pub release_all : Step (Unit {0})
  unfolding release_view close unlink catching lift pure ◌>>=◌
  release_all = do release_view; release_view; close; catching unlink ignore_missing

  -- `body` is the code of the caller's `with`, on the bytes of the blob: how it ends, and how many
  -- views of the blob it keeps when it ends.
  module _ {A : Type 0} (c : Codec) (body : Bytes → Outcome Failure A × ℕ) where
    unfoldable pub run_body : ℕ → Step A
    unfolding body_of keep_views
    run_body total w = let (r, kept) = body (body_of total w) in (r, keep_views kept w)

    -- the caller's `with` on the block that was built
    unfoldable pub with_block : ℕ → Step A
    unfolding export_view run_body release_all finally ◌>>=◌
    with_block total = do export_view; finally (run_body total) release_all

    unfoldable pub with_serial : List (ℕ × RawHandle k) → Step A
    unfolding build_raw_parts of_protocol sort_ids pack_blob lift ◌>>=◌
    with_serial handles = do
      parts ← lift (build_raw_parts (sort_ids handles) [])
      blob ← lift (of_protocol (pack_blob c parts))
      lift (body blob).0

    -- `encoded_blob`, whose caller runs `body` on the blob
    abbrev pub or_serial :
        List (ℕ × RawHandle k) → Outcome Failure ℕ × World → Outcome Failure A × World
    or_serial handles (ok total, w) = with_block total w
    or_serial handles (raise (unavailable why), w) = with_serial handles w
    or_serial handles (raise why, w) = (raise why, w)

    unfoldable pub encoded_blob : RawSource k.Degrees (RawHandle k) → Step A
    unfolding build_parts_parallel with_block with_serial
    encoded_blob source w = or_serial source.handles (build_parts_parallel c source w)
