-- ===== src/Daq/Kept.antt =====
-- The block stays mapped and named while the encoder of daq.py fills it, until an exception.
use donut_server.Prelude.{
  ℕ, ◌+◌, ◌≤◌, lookup, ◌≡◌, ◌⊎◌, inl, inr, zero, suc, refl, sym, subst, Bool, true, not, Option,
  none, some, List, [], ◌∷◌, arith, Bool-cases, if◌then◌else◌, leb, length,
}
use donut_server.Bytes.{Bytes, Codec, name_eq}
use donut_server.Exec.{
  Outcome, ok, raise, ◌>>=◌, lift, pure, After, Triple, Triple-bind, Outcome-cases,
}
use donut_server.Exec.Raise.{check, require}
use donut_server.Protocol.Parts.{meta_suffix, part_name}
use donut_server.Protocol.Framing.{Offsets, build_framing}
use donut_server.Daq.{Stack}
use donut_server.Daq.Shared.{
  Failure, unavailable, pool_lost, meta_too_long, key_error, interrupted, Mapping, World, Step,
  export_view, write, set_context,
}
use donut_server.Daq.Encode.{
  Sensor, Bench, Laid, encode_one, write_images, fan_out, write_metas, frame, fill, slot_start,
  gather_metas, or_failures, lay_metas, of_protocol,
}

abbrev pub ViewsOf : ℕ → Option Mapping → Type 0
ViewsOf n none = ⊥
ViewsOf n (some m) = m.views ≡ n

-- the block is mapped with so many views, and its name is there
abbrev pub Views : ℕ → World → Type 0
Views n w = ViewsOf n w.mapping × (w.linked ≡ true)

-- as far as an exception may leave it
abbrev pub Held : World → Type 0
Held w = Views 0 w ⊎ Views 1 w

abbrev pub Keeps : {A : Type 0} → ℕ → Step A → Type 0
Keeps n m = Triple (Views n) m (λ _. Views n) Held

Held-of : (n : ℕ) (w : World) → n ≤ 1 → Views n w → Held w
Held-of zero w few v = inl v
Held-of (suc zero) w few v = inr v
Held-of (suc (suc n)) w few v = absurd (omega (arith, few))

abbrev pub world : Option Mapping → Bool → Bool → World
world m l x = record { mapping = m; linked = l; context = x }

module _ (n : ℕ) (few : n ≤ 1) where
  lift-Keeps : {A : Type 0} (r : Outcome Failure A) → Keeps n (lift r)
  unfolding lift
  lift-Keeps (ok a) = record { run = λ w v. v }
  lift-Keeps (raise e) = record { run = λ w v. Held-of n w few v }

  bind-Keeps :
      {A B : Type 0} (m : Step A) (f : A → Step B)
      → Keeps n m
      → ((a : A) → Keeps n (f a))
      → Keeps n (m >>= f)
  bind-Keeps m f t s = Triple-bind (λ _. Views n) (λ _. Views n) m f t s

  pure-Keeps : {A : Type 0} (a : A) → Keeps n (pure a)
  unfolding pure
  pure-Keeps a = record { run = λ w v. v }

  set_context-Keeps : (filled : Bool) → Keeps n (set_context filled)
  unfolding set_context
  set_context-Keeps filled = record { run = λ w v. v }

  -- a step that does the same to every mapping, seen at each
  by_mapping :
      {A : Type 0} (Q : A → World → Type 0) (step : Step A)
      → ((m : Mapping) (x : Bool) → m.views ≡ n → After Q Held (step (world (some m) true x)))
      → Triple (Views n) step Q Held
  by_mapping Q step at = record { run = λ w v. seen w.mapping w.linked w.context v }
    where
      seen :
          (m : Option Mapping) (l x : Bool)
          → Views n (world m l x)
          → After Q Held (step (world m l x))
      seen none l x v = absurd v.0
      seen (some m) l x v =
          subst (λ l. After Q Held (step (world (some m) l x))) (sym v.1) (at m x v.0)

  write-Keeps : (start : ℕ) (bs : Bytes) → Keeps n (write start bs)
  unfolding write
  write-Keeps start bs =
      by_mapping (λ _. Views n) (write start bs)
        (λ m x v. elim (Bool-cases (leb (start + length bs) m.size)) [
          | inl fits ↦ rw (fits, if◌then◌else◌) (v, refl)
          | inr past ↦ rw (past, if◌then◌else◌) (Held-of n (world (some m) true x) few (v, refl))
        ])

module _ (k : Stack) (b : Bench k) where
  write_images-Keeps :
      (data_start : ℕ) (offsets : Offsets) (sensors : List (Sensor k))
      → Keeps 0 (write_images k b data_start offsets sensors)
  unfolding write_images
  write_images-Keeps data_start offsets [] = pure-Keeps 0 (omega arith) tt
  write_images-Keeps data_start offsets (s ∷ sensors) = elim (Outcome-cases (encode_one k b s)) [
    | inl done ↦
        let ((pixels, meta), e) = done in
        rw (e, write_images)
          (bind-Keeps 0 (omega arith) _ _
            (write-Keeps 0 (omega arith) (slot_start k b data_start offsets s) pixels)
            (λ _. write_images-Keeps data_start offsets sensors))
    | inr failed ↦
        let (why, e) = failed in
        rw (e, write_images) (write_images-Keeps data_start offsets sensors)
  ]

  fan_out-Keeps :
      (data_start : ℕ) (offsets : Offsets) (sensors : List (Sensor k))
      → Keeps 0 (fan_out k b data_start offsets sensors)
  unfolding fan_out
  fan_out-Keeps data_start offsets sensors =
      bind-Keeps 0 (omega arith) (write_images k b data_start offsets (b.order sensors)) _
        (write_images-Keeps data_start offsets (b.order sensors))
        (λ _.
          bind-Keeps 0 (omega arith) (lift (check (not b.is_interrupted) interrupted)) _
            (lift-Keeps 0 (omega arith) (check (not b.is_interrupted) interrupted))
            (λ _.
              bind-Keeps 0 (omega arith) (lift (check (not b.pool_fails) (unavailable pool_lost))) _
                (lift-Keeps 0 (omega arith) (check (not b.pool_fails) (unavailable pool_lost)))
                (λ _.
                  lift-Keeps 0 (omega arith)
                    (or_failures (gather_metas k b sensors).0 (gather_metas k b sensors).1))))

  write_metas-Keeps :
      (absolute : Offsets) (metas : List (Sensor k × Bytes))
      → Keeps 1 (write_metas k b absolute metas)
  unfolding write_metas
  write_metas-Keeps absolute [] = pure-Keeps 1 (omega arith) tt
  write_metas-Keeps absolute ((s, meta) ∷ metas) =
      bind-Keeps 1 (omega arith) _ _
        (lift-Keeps 1 (omega arith)
          (require (lookup (part_name s.name meta_suffix) absolute) key_error))
        (λ start.
          bind-Keeps 1 (omega arith) _ _ (write-Keeps 1 (omega arith) start meta)
            (λ _. write_metas-Keeps absolute metas))

  export_view-Views : Triple (Views 0) export_view (λ _. Views 1) Held
  unfolding export_view
  export_view-Views =
      by_mapping 0 (omega arith) (λ _. Views 1) export_view (λ m x v. (omega (arith, v), refl))

  -- the framing and the metas keep the block
  frame-Keeps :
      (c : Codec) (metas : List (Sensor k × Bytes)) (whole : Laid) (block_size : ℕ)
      → Keeps 1 (frame k b c metas whole block_size)
  unfolding frame
  frame-Keeps c metas whole block_size =
      bind-Keeps 1 (omega arith)
        (lift (of_protocol (build_framing c whole.sizes (some whole.offsets)))) _
        (lift-Keeps 1 (omega arith)
          (of_protocol (build_framing c whole.sizes (some whole.offsets))))
        (λ r.
          bind-Keeps 1 (omega arith) (lift (check (leb r.2 block_size) (unavailable meta_too_long)))
            _ (lift-Keeps 1 (omega arith) (check (leb r.2 block_size) (unavailable meta_too_long)))
            (λ _.
              bind-Keeps 1 (omega arith) (write 0 r.0) _ (write-Keeps 1 (omega arith) 0 r.0) (λ _.
                bind-Keeps 1 (omega arith) (write_metas k b r.1 metas) _
                  (write_metas-Keeps r.1 metas) (λ _. pure-Keeps 1 (omega arith) r.2))))

  pub fill-Views :
      (c : Codec) (sensors : List (Sensor k)) (laid : Laid) (data_start block_size : ℕ)
      → Triple (Views 0) (fill k b c sensors laid data_start block_size) (λ _. Views 1) Held
  unfolding fill
  fill-Views c sensors laid data_start block_size =
      Triple-bind (λ _. Views 0) (λ _. Views 1) (set_context true) _
        (set_context-Keeps 0 (omega arith) true)
        (λ _.
          Triple-bind (λ _. Views 0) (λ _. Views 1) (fan_out k b data_start laid.offsets sensors) _
            (fan_out-Keeps data_start laid.offsets sensors)
            (λ metas.
              Triple-bind (λ _. Views 1) (λ _. Views 1) export_view _ export_view-Views
                (λ _. frame-Keeps c metas (lay_metas k b metas laid) block_size)))
