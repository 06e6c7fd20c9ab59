-- ===== src/Daq/Released.antt =====
-- When the shared block of the encoder of daq.py is given back.
use donut_server.Prelude.{
  ℕ, zero, suc, ◌+◌, ◌≡◌, inl, inr, refl, ap, subst, Bool, true, false, not, Option, none, some,
  List, [], arith, Bool-cases, if◌then◌else◌,
}
use donut_server.Bytes.{Bytes, Codec, name_eq}
use donut_server.Exec.{Outcome, ok, raise, ◌>>=◌, lift, pure, After, Triple, Triple-bind}
use donut_server.Exec.Raise.{check}
use donut_server.Exec.Handlers.{catching, finally, or_handle, after_all}
use donut_server.Protocol.{header_size, descriptor_region_size, pack_blob}
use donut_server.Protocol
use donut_server.Daq
use donut_server.Daq.{Stack, RawSource, RawHandle}
use donut_server.Daq.Memory.{Cells}
use donut_server.Daq.Shared.{
  Failure, Reason, is_exception, unavailable, serial_is_set, no_detectors, not_clamped, low_space,
  Mapping, World, Step, clean, create, export_view, keep_views, buffer_error, release_view, close,
  unlink, set_context,
}
use donut_server.Daq.Encode.{
  sort_ids, is_empty, of_header, sensors_of, lay_images, nothing_laid, part_names, meta_allowance,
  has_space, Bench, fill, give_up, encode_sensors, build_parts_parallel, body_of, release_all,
  run_body, with_block, build_raw_parts, with_serial, or_serial, encoded_blob, of_protocol,
}
use donut_server.Daq.Kept.{Views, Held, world, fill-Views}

module _ (k : Stack) (b : Bench k) where
  -- `except`: the block goes, and the exception stays
  give_up_lem :
      (why : Failure) (m : Option Mapping) (l x : Bool)
      → is_exception why ≡ true
      → Held (world m l x)
      → give_up k b why (world m l x) ≡ (raise why, world none false x)
  unfolding give_up release_view close unlink ◌>>=◌ lift
  give_up_lem why none l x caught (inl v) = absurd v.0
  give_up_lem why none l x caught (inr v) = absurd v.0
  give_up_lem why (some m) l x caught (inl v) = ground (arith, caught, v.0, v.1)
  give_up_lem why (some m) l x caught (inr v) = ground (arith, caught, v.0, v.1)

  -- what is no Exception goes past it
  give_up_passed :
      (why : Failure) (w : World) → is_exception why ≡ false → give_up k b why w ≡ (raise why, w)
  unfolding give_up lift
  give_up_passed why w passed = rw (passed, if◌then◌else◌) refl

  abbrev IsClean : World → Type 0
  IsClean w = w ≡ clean

  -- what a successful encoding leaves: the block with its one view
  abbrev IsBuilt : ℕ → World → Type 0
  IsBuilt total w = Views 1 w × (w.context ≡ false)

  -- what an exception leaves: nothing, if `except Exception` catches it, and else the block's name
  abbrev pub LeftBy : Bool → World → Type 0
  LeftBy true w = w ≡ clean
  LeftBy false w = (w.linked ≡ true) × (w.context ≡ false)

  abbrev IsEnded : Outcome Failure ℕ × World → Type 0
  IsEnded (ok total, w) = IsBuilt total w
  IsEnded (raise why, w) = LeftBy (is_exception why) w

  Held-linked : (w : World) → Held w → w.linked ≡ true
  Held-linked w (inl v) = v.1
  Held-linked w (inr v) = v.1

  settled :
      (r : Outcome Failure ℕ × World)
      → After (λ _. Views 1) Held r
      → IsEnded (let (o, t) = or_handle (give_up k b) r in after_all o (set_context false t))
  unfolding set_context
  settled (ok total, w) v = (v, refl)
  settled (raise e, w) h = elim (Bool-cases (is_exception e)) [
    | inl caught ↦ rw (give_up_lem e w.mapping w.linked w.context caught h) (rw caught refl)
    | inr passed ↦ rw (give_up_passed e w passed) (rw passed (Held-linked w h, refl))
  ]

  lift-IsClean :
      {A : Type 0} (r : Outcome Failure A) → Triple IsClean (lift r) (λ _. IsClean) IsClean
  unfolding lift
  lift-IsClean (ok a) = record { run = λ w v. v }
  lift-IsClean (raise e) = record { run = λ w v. v }

  -- every failure of the outcome is an Exception
  abbrev Caught : {A : Type 0} → Outcome Failure A → Type 0
  Caught (ok a) = Unit {0}
  Caught (raise why) = is_exception why ≡ true

  check-Caught : (test : Bool) (why : Reason) → Caught (check test (unavailable why))
  unfolding is_exception
  check-Caught true why = tt
  check-Caught false why = refl

  of_header-Caught : {A : Type 0} (r : Outcome Daq.Error A) → Caught (of_header r)
  unfolding of_header is_exception
  of_header-Caught (ok a) = tt
  of_header-Caught (raise why) = refl

  of_protocol-Caught : {A : Type 0} (r : Protocol.Result A) → Caught (of_protocol r)
  unfolding of_protocol is_exception
  of_protocol-Caught (Protocol.ok a) = tt
  of_protocol-Caught (Protocol.err why) = refl

  -- a step before there is a block
  on_lift :
      {A : Type 0} (r : Outcome Failure A) (f : A → Step ℕ)
      → Caught r
      → ((a : A) → IsEnded (f a clean))
      → IsEnded ((lift r >>= f) clean)
  unfolding lift ◌>>=◌
  on_lift (ok a) f caught t = t a
  on_lift (raise e) f caught t = rw caught refl

  on_create :
      (allowed : Bool) (size : ℕ) (f : Unit {0} → Step ℕ)
      → ((w : World) → Views 0 w → IsEnded (f tt w))
      → IsEnded ((create allowed size >>= f) clean)
  unfolding create is_exception ◌>>=◌
  on_create true size f t = t _ (refl, refl)
  on_create false size f t = refl

  build_parts_parallel-IsEnded :
      (c : Codec) (source : RawSource k.Degrees (RawHandle k))
      → IsEnded (build_parts_parallel k b c source clean)
  unfolding build_parts_parallel encode_sensors catching finally
  build_parts_parallel-IsEnded c source =
      let handles = sort_ids source.handles in
      on_lift (check (not b.serial_set) _) _ (check-Caught _ serial_is_set) (λ _.
        on_lift (check (not (is_empty handles)) _) _ (check-Caught _ no_detectors) (λ _.
          on_lift (check b.clamped _) _ (check-Caught _ not_clamped) (λ _.
            on_lift (of_header (sensors_of k b handles)) _ (of_header-Caught _) (λ sensors.
              let laid = lay_images k b sensors nothing_laid in
              on_lift (of_protocol (descriptor_region_size c (part_names k b sensors))) _
                (of_protocol-Caught _)
                (λ descriptors.
                  let block_size = header_size + descriptors + laid.cursor + meta_allowance in
                  on_lift (check (has_space b.free_bytes block_size) _) _ (check-Caught _ low_space)
                    (λ _. on_create b.can_create block_size _ (λ w v.
                      settled (fill k b c sensors laid (header_size + descriptors) block_size w) (
                        (fill-Views k b c sensors laid (header_size + descriptors) block_size).run w
                          v))))))))

  module _ {A : Type 0} (c : Codec) (body : Bytes → Outcome Failure A × ℕ) where
    -- What the caller's `with` ends as on the block: as the body does, with nothing left of the block,
    -- if the body keeps no view of it; and else as close() does, and the block's name stays.
    abbrev pub IsGivenBack : Outcome Failure A × ℕ → Outcome Failure A × World → Type 0
    IsGivenBack (o, zero) (r, w) = (r ≡ o) × (w ≡ clean)
    IsGivenBack (o, suc kept) (r, w) =
        (r ≡ raise buffer_error) × (w.linked ≡ true) × (w.context ≡ false)

    with_one_view :
        (total size : ℕ) (cells : Cells) (o : Outcome Failure A) (kept : ℕ)
        → let w = world (some (record { size = size; cells = cells; views = 1 })) true false in
          body (body_of k b total w) ≡ (o, kept)
          → IsGivenBack (o, kept) (with_block k b c body total w)
    unfolding with_block run_body keep_views export_view finally body_of release_all release_view
        close unlink catching lift pure ◌>>=◌
    with_one_view total size cells o zero e = rw e (refl, refl)
    with_one_view total size cells o (suc kept) e = rw e (ground arith, ground arith, ground arith)

    with_block_lem :
        (total : ℕ) (m : Option Mapping) (l x : Bool)
        → IsBuilt total (world m l x)
        → IsGivenBack
            (body (body_of k b total (world m l x)))
            (with_block k b c body total (world m l x))
    with_block_lem total none l x v = absurd v.0.0
    with_block_lem total (some m) l x v =
        let one : Mapping = record { size = m.size; cells = m.cells; views = 1 } in
        let e : world (some one) true false ≡ world (some m) l x =
          ap
            (λ (r : ℕ × Bool × Bool).
              world (some (record { size = m.size; cells = m.cells; views = r.0 })) r.1 r.2)
            (ground (arith, v.0.0, v.0.1, v.1)) in
        let ran = body (body_of k b total (world (some one) true false)) in
        subst (λ w. IsGivenBack (body (body_of k b total w)) (with_block k b c body total w)) e
          (with_one_view total m.size m.cells ran.0 ran.1 refl)

    -- What the caller's `with` does after the encoder: what is said above on the block's bytes, or what
    -- the body does on the serial blob, with nothing left of the block, or the encoder's error.
    abbrev pub IsOutcome :
        List (ℕ × RawHandle k) → Outcome Failure ℕ × World → Outcome Failure A × World → Type 0
    IsOutcome handles (ok total, w) r = IsGivenBack (body (body_of k b total w)) r
    IsOutcome handles (raise (unavailable why), w) r =
        (r.0 ≡ (with_serial k b c body handles clean).0) × (r.1 ≡ clean)
    IsOutcome handles (raise why, w) r = (r.0 ≡ raise why) × LeftBy (is_exception why) r.1

    with_serial-IsClean :
        (handles : List (ℕ × RawHandle k))
        → Triple IsClean (with_serial k b c body handles) (λ _. IsClean) IsClean
    unfolding with_serial
    with_serial-IsClean handles =
        let parts = build_raw_parts k b (sort_ids handles) [] in
        Triple-bind (λ _. IsClean) (λ _. IsClean) (lift parts) _ (lift-IsClean parts)
          (λ ps.
            Triple-bind (λ _. IsClean) (λ _. IsClean) (lift (of_protocol (pack_blob c ps))) _
              (lift-IsClean (of_protocol (pack_blob c ps))) (λ blob. lift-IsClean (body blob).0))

    unchanged : (r : Outcome Failure A × World) → After (λ _. IsClean) IsClean r → r.1 ≡ clean
    unchanged (ok a, w) v = v
    unchanged (raise e, w) v = v

    or_serial-IsOutcome :
        (handles : List (ℕ × RawHandle k)) (r : Outcome Failure ℕ × World)
        → IsEnded r
        → IsOutcome handles r (or_serial k b c body handles r)
    unfolding is_exception
    or_serial-IsOutcome handles (ok total, w) v =
        with_block_lem total w.mapping w.linked w.context v
    or_serial-IsOutcome handles (raise (unavailable why), w) v = (
      ap (λ w. (with_serial k b c body handles w).0) v,
      unchanged (with_serial k b c body handles w) ((with_serial-IsClean handles).run w v),
    )
    or_serial-IsOutcome handles (raise why, w) v = (refl, v)

    -- Whatever the encoder, the workers and the caller's body do: where the parallel encoder returns
    -- and the body keeps no view of the blob, the caller's `with` ends as the body does on the block's
    -- bytes, and the block is closed and its name gone; if the body keeps a view, it ends with a
    -- BufferError, and the block's name stays. Where the parallel path is unavailable, it ends as the
    -- body does on the serial blob, with nothing left of the block. Otherwise it ends as the encoder
    -- failed, with nothing left of the block if that is an Exception, and with its name if it is an
    -- interrupt.
    pub encoded_blob-IsOutcome :
        (source : RawSource k.Degrees (RawHandle k))
        → IsOutcome source.handles
            (build_parts_parallel k b c source clean)
            (encoded_blob k b c body source clean)
    unfolding encoded_blob
    encoded_blob-IsOutcome source =
        or_serial-IsOutcome source.handles (build_parts_parallel k b c source clean)
          (build_parts_parallel-IsEnded c source)
