-- ===== src/Daq/Encoded.antt =====
-- The block that `build_parts_parallel` of daq.py leaves is the blob that `pack_blob` of protocol.py packs.
use donut_server.Prelude.{
  ℕ, ◌+◌, ◌≡◌, refl, sym, ap, subst, ◌∙◌, Bool, true, false, not, Option, none, some, List, [], inl,
  inr, Bool-cases, if◌then◌else◌, arith, All, keys, Distinct,
}
use donut_server.Bytes.{Codec, name_eq}
use donut_server.Exec.{Outcome, ok, raise, lift, ok_inj, bind-eq-ok, lift-bind-eq-ok}
use donut_server.Exec.Raise.{check}
use donut_server.Exec.Handlers.{catching, finally, or_handle, after_all}
use donut_server.Protocol
use donut_server.Protocol.{◌>>=◌ as ◌>>>◌, header_size, raw_data, pack_blob, descriptor_region_size}
use donut_server.Protocol.Pinned.{descriptor_region_size-region}
use donut_server.Daq
use donut_server.Daq.{Stack, RawSource, RawHandle}
use donut_server.Daq.Memory.{Cells, read}
use donut_server.Daq.Shared.{
  Failure, is_exception, unavailable, serial_is_set, no_detectors, not_clamped, low_space, Mapping,
  World, clean, set_context, create, release_view, close, unlink,
}
use donut_server.Daq.Encode.{
  Sensor, Bench, nothing_laid, lay_images, part_names, sensors_of, sort_ids, fill, of_protocol,
  of_header, is_empty, has_space, meta_allowance, give_up, encode_sensors, build_parts_parallel,
  body_of,
}
use donut_server.Daq.Laid.{keys-sizes_of}
use donut_server.Daq.Wire.{IsEncoded}
use donut_server.Daq.Placed.{Holds}
use donut_server.Daq.Blob.{wire_parts}
use donut_server.Daq.Filled.{of_protocol-eq-ok, fill-Blob}

of_header-eq-ok : {A : Type 0} (r : Outcome Daq.Error A) {a : A} → of_header r ≡ ok a → ok a ≡ r
unfolding of_header
of_header-eq-ok (ok a) h = ap ok (ok_inj (sym h))
of_header-eq-ok (raise why) h = absurd (ground arith)

create-Holds :
    (allowed : Bool) (size : ℕ) (w : World)
    → create allowed size clean ≡ (ok tt, w)
    → Holds (λ i. 0) w
unfolding create
create-Holds true size w h =
    (record { size = size; cells = λ i. 0; views = 0 }, sym (ap (λ r. r.1.mapping) h), refl)
create-Holds false size w h = absurd (ground (arith, ap (λ r. r.0) h))

-- after the `except` clause there is an exception
give_up-raises :
    (k : Stack) (b : Bench k) (why : Failure) (w w' : World) (total : ℕ)
    → ¬ (give_up k b why w ≡ (ok total, w'))
unfolding give_up lift
give_up-raises k b why w w' total h = elim (Bool-cases (is_exception why)) [
  | inl caught ↦
      let h = rw (caught, if◌then◌else◌) at h in
      let (_, w₁, _, h₁) = bind-eq-ok release_view _ w w' h in
      let (_, w₂, _, h₂) = bind-eq-ok close _ w₁ w' h₁ in
      let (_, w₃, _, h₃) = bind-eq-ok unlink (λ _. lift (raise why)) w₂ w' h₂ in
      absurd (ground (arith, ap (λ r. r.0) h₃))
  | inr passed ↦ let h = rw (passed, if◌then◌else◌) at h in absurd (ground (arith, ap (λ r. r.0) h))
]

module _ (k : Stack) (b : Bench k) where
  -- the outcome of `fill` with its handlers
  settled-eq-ok :
      (r : Outcome Failure ℕ × World) (total : ℕ) (w' : World)
      → (let (o, t) = or_handle (give_up k b) r in after_all o (set_context false t))
        ≡ (ok total, w')
      → (r.0 ≡ ok total) × (w'.mapping ≡ r.1.mapping)
  unfolding set_context
  settled-eq-ok (ok n, t) total w' h = (ap (λ r. r.0) h, sym (ap (λ r. r.1.mapping) h))
  settled-eq-ok (raise why, t) total w' h =
      let e : (give_up k b why t).0 ≡ ok total = ap (λ r. r.0) h in
      absurd (
        give_up-raises k b why t (give_up k b why t).1 total
          (ap (λ o. (o, (give_up k b why t).1)) e))

  read-body_of :
      (cells : Cells) (total : ℕ) (t w : World)
      → Holds cells t
      → w.mapping ≡ t.mapping
      → read cells 0 total ≡ body_of k b total w
  unfolding body_of
  read-body_of cells total t w (m, at, same) e =
      ap (λ c. read c 0 total) (sym same)
      ∙ sym (
          ap (λ (o : Option Mapping). elim o [ none ↦ [] | some m ↦ read m.cells 0 total ])
            (e ∙ at))

  encode_sensors-Blob :
      (c : Codec) (sensors : List (Sensor k)) (total : ℕ) (w : World)
      → Distinct (keys (wire_parts k b sensors))
      → encode_sensors k b c sensors clean ≡ (ok total, w)
      → All (IsEncoded k b) sensors
        × (pack_blob c (wire_parts k b sensors) ≡ Protocol.ok (body_of k b total w))
  unfolding encode_sensors catching finally create
  encode_sensors-Blob c sensors total w distinct h =
      let laid = lay_images k b sensors nothing_laid in
      let (descriptors, sized, h₁) =
        lift-bind-eq-ok (of_protocol (descriptor_region_size c (part_names k b sensors))) _ clean w
          h in
      let block_size = header_size + descriptors + laid.cursor + meta_allowance in
      let (_, _, h₂) =
        lift-bind-eq-ok (check (has_space b.free_bytes block_size) (unavailable low_space)) _ clean
          w h₁ in
      let (_, w₁, created, h₃) = bind-eq-ok (create b.can_create block_size) _ clean w h₂ in
      let data_start = header_size + descriptors in
      let r = fill k b c sensors laid data_start block_size w₁ in
      let (filled, mapping) = settled-eq-ok r total w h₃ in
      let start =
        ap (λ n. header_size + n)
          (descriptor_region_size-region c (part_names k b sensors) descriptors
            (of_protocol-eq-ok (descriptor_region_size c (part_names k b sensors)) sized)) in
      let keys_distinct = subst Distinct (sym (keys-sizes_of (wire_parts k b sensors))) distinct in
      let (encoded, (cells, held, packed)) =
        fill-Blob k b c sensors keys_distinct data_start block_size total (λ i. 0) w₁ r.1 start
          (create-Holds b.can_create block_size w₁ created) (ap (λ o. (o, r.1)) filled) in
      (encoded, packed ∙ ap Protocol.ok (read-body_of cells total r.1 w held mapping))

  -- Where the parallel encoder returns, every sensor's file was assembled and its meta encoded, and
  -- the blob, as long as it says, is what `pack_blob` packs of the images and then the metas under
  -- their sensors' names, whatever the order in which the workers wrote, for names that differ.
  pub build_parts_parallel-pack_blob :
      (c : Codec) (source : RawSource k.Degrees (RawHandle k)) (sensors : List (Sensor k))
      (total : ℕ) (w : World)
      → sensors_of k b (sort_ids source.handles) ≡ ok sensors
      → Distinct (keys (wire_parts k b sensors))
      → build_parts_parallel k b c source clean ≡ (ok total, w)
      → All (IsEncoded k b) sensors
        × (pack_blob c (wire_parts k b sensors) ≡ Protocol.ok (body_of k b total w))
  unfolding build_parts_parallel
  build_parts_parallel-pack_blob c source sensors total w known distinct h =
      let handles = sort_ids source.handles in
      let (_, _, h₁) =
        lift-bind-eq-ok (check (not b.serial_set) (unavailable serial_is_set)) _ clean w h in
      let (_, _, h₂) =
        lift-bind-eq-ok (check (not (is_empty handles)) (unavailable no_detectors)) _ clean w h₁ in
      let (_, _, h₃) = lift-bind-eq-ok (check b.clamped (unavailable not_clamped)) _ clean w h₂ in
      let (found, read_off, h₄) =
        lift-bind-eq-ok (of_header (sensors_of k b handles)) _ clean w h₃ in
      let same : found ≡ sensors =
        ok_inj (of_header-eq-ok (sensors_of k b handles) read_off ∙ known) in
      encode_sensors-Blob c sensors total w distinct
        (subst (λ ss. encode_sensors k b c ss clean ≡ (ok total, w)) same h₄)
