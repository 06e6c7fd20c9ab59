-- ===== src/Daq/Wire.antt =====
-- What the workers and the encoder of daq.py write into the block, range by range.
use donut_server.Prelude.{
  ℕ, ◌+◌, ◌≤◌, ◌≡◌, ◌⊎◌, inl, inr, refl, sym, ap, subst, ◌∙◌, true, List, [], ◌∷◌, arith, All, In,
  length, Bool-cases, if◌then◌else◌, map, All-In,
}
use donut_server.Bytes.{Bytes, Name, name_eq}
use donut_server.Exec.{Outcome, ok, raise, pure, ok_inj, bind-eq-ok, Outcome-cases, on_ok-eq-ok}
use donut_server.Protocol.Parts.{img_suffix, meta_suffix, part_name}
use donut_server.Protocol.Framing.{Offsets}
use donut_server.Daq.{Stack}
use donut_server.Daq.Memory.{Cells, overlay, read, read-overlay, read-overlay_apart}
use donut_server.Daq.Shared.{World, write, Fault}
use donut_server.Daq.Encode.{
  Sensor, Bench, Shape, image_size, same_shape, encode_one, write_images, gather_metas, slot_start,
}
use donut_server.Daq.Placed.{Holds, write-Holds, Placed}

-- the two parts of a sensor that was encoded
abbrev got_pixels : Outcome Fault (Bytes × Bytes) → Bytes
got_pixels (ok r) = r.0
got_pixels (raise why) = []

abbrev got_meta : Outcome Fault (Bytes × Bytes) → Bytes
got_meta (ok r) = r.1
got_meta (raise why) = []

got_both :
    (o : Outcome Fault (Bytes × Bytes)) (r : Bytes × Bytes)
    → o ≡ ok r
    → o ≡ ok (got_pixels o, got_meta o)
got_both (ok r') r h = refl
got_both (raise why) r h = absurd (ground arith)

same_shape_size : (a c : Shape) → same_shape a c ≡ true → image_size a ≡ image_size c
same_shape_size a c h = ground (arith, h)

module _ (k : Stack) (b : Bench k) where
  abbrev pub pixels_of : Sensor k → Bytes
  pixels_of s = got_pixels (encode_one k b s)

  abbrev pub meta_of : Sensor k → Bytes
  meta_of s = got_meta (encode_one k b s)

  abbrev pub IsEncoded : Sensor k → Type 0
  IsEncoded s = encode_one k b s ≡ ok (pixels_of s, meta_of s)

  abbrev pub img_parts : List (Sensor k) → List (Name × Bytes)
  img_parts [] = []
  img_parts (s ∷ ss) = (part_name s.name img_suffix, pixels_of s) ∷ img_parts ss

  abbrev pub meta_parts : List (Sensor k) → List (Name × Bytes)
  meta_parts [] = []
  meta_parts (s ∷ ss) = (part_name s.name meta_suffix, meta_of s) ∷ meta_parts ss

  pub length-pixels_of : (s : Sensor k) → IsEncoded s → length (pixels_of s) ≡ image_size s.shape
  unfolding encode_one
  length-pixels_of s e =
      let (r, assembled, h) = on_ok-eq-ok (b.assemble s.handle) _ e in
      elim (Bool-cases (same_shape r.0 s.shape)) [
        | inl same ↦
            let (meta, stub, done) =
              on_ok-eq-ok (b.encode_stub s.handle) _ (rw (same, if◌then◌else◌) at h) in
            ap (λ (p : Bytes × Bytes). length p.0) (sym (ok_inj done))
            ∙ b.assembled_size s.handle r.0 r.1 assembled
            ∙ same_shape_size r.0 s.shape same
        | inr other ↦ absurd (ground (arith, rw (other, if◌then◌else◌) at h))
      ]

  -- with no failure every sensor is encoded
  pub gather_metas-IsEncoded :
      (ss : List (Sensor k))
      → (gather_metas k b ss).0 ≡ []
      → All IsEncoded ss × ((gather_metas k b ss).1 ≡ map (λ s. (s, meta_of s)) ss)
  unfolding gather_metas
  gather_metas-IsEncoded [] h = (tt, refl)
  gather_metas-IsEncoded (s ∷ ss) h = elim (Outcome-cases (encode_one k b s)) [
    | inl done ↦
        let (r, e) = done in
        let rest = gather_metas k b ss in
        let shape : gather_metas k b (s ∷ ss) ≡ (rest.0, (s, r.1) ∷ rest.1) =
          rw (e, gather_metas) refl in
        let (all, metas) = gather_metas-IsEncoded ss (sym (ap (λ g. g.0) shape) ∙ h) in
        let meta : r.1 ≡ meta_of s = sym (ap got_meta e) in
        (
          (got_both (encode_one k b s) r e, all),
          ap (λ g. g.1) shape
              ∙ ap (λ m. (s, m) ∷ rest.1) meta
              ∙ ap (λ ms. (s, meta_of s) ∷ ms) metas,
        )
    | inr failed ↦ let (why, e) = failed in absurd (ground (arith, rw (e, gather_metas) at h))
  ]

  -- the writes of the workers
  unfoldable pub paint : ℕ → Offsets → List (Sensor k) → Cells → Cells
  paint data_start offsets [] cells = cells
  paint data_start offsets (s ∷ ss) cells =
      paint data_start offsets ss
        (overlay (slot_start k b data_start offsets s) (pixels_of s) cells)

  pub write_images-paint :
      (data_start : ℕ) (offsets : Offsets) (ss : List (Sensor k)) (cells : Cells) (w w' : World)
      → All IsEncoded ss
      → Holds cells w
      → write_images k b data_start offsets ss w ≡ (ok tt, w')
      → Holds (paint data_start offsets ss cells) w'
  unfolding write_images paint pure
  write_images-paint data_start offsets [] cells w w' all held h =
      subst (Holds cells) (ap (λ r. r.1) h) held
  write_images-paint data_start offsets (s ∷ ss) cells w w' all held h =
      let start = slot_start k b data_start offsets s in
      let (_, t, written, rest) =
        bind-eq-ok (write start (pixels_of s)) (λ _. write_images k b data_start offsets ss) w w'
          (rw (all.0, write_images) at h) in
      write_images-paint data_start offsets ss (overlay start (pixels_of s) cells) t w' all.1
        (write-Holds start (pixels_of s) cells w t held written) rest

  -- the slots stand one after another from a cursor
  abbrev pub Slots : ℕ → Offsets → List (Sensor k) → ℕ → Type 0
  Slots data_start offsets [] cursor = Unit {0}
  Slots data_start offsets (s ∷ ss) cursor =
      (slot_start k b data_start offsets s ≡ data_start + cursor)
      × Slots data_start offsets ss (cursor + image_size s.shape)

  module _ (data_start : ℕ) (offsets : Offsets) where
    unfoldable pub slot : Sensor k → ℕ
    slot s = slot_start k b data_start offsets s

    abbrev Apart : Sensor k → Sensor k → Type 0
    Apart s o = (slot s + image_size s.shape ≤ slot o) ⊎ (slot o + image_size o.shape ≤ slot s)

    Slots-after :
        (ss : List (Sensor k)) (cursor : ℕ) (s : Sensor k)
        → Slots data_start offsets ss cursor
        → In s ss
        → data_start + cursor ≤ slot s
    unfolding slot
    Slots-after [] cursor s t at = absurd at
    Slots-after (o ∷ ss) cursor s t (inl same) =
        subst (λ s. data_start + cursor ≤ slot s) same (omega (arith, t.0))
    Slots-after (o ∷ ss) cursor s t (inr later) =
        omega (arith, Slots-after ss (cursor + image_size o.shape) s t.1 later)

    Slots-Apart :
        (ss : List (Sensor k)) (cursor : ℕ) (s o : Sensor k)
        → Slots data_start offsets ss cursor
        → In s ss
        → In o ss
        → (s ≡ o) ⊎ Apart s o
    unfolding slot
    Slots-Apart [] cursor s o t at _ = absurd at
    Slots-Apart (x ∷ ss) cursor s o t (inl p) (inl q) = inl (sym p ∙ q)
    Slots-Apart (x ∷ ss) cursor s o t (inl p) (inr q) =
        let after = Slots-after ss (cursor + image_size x.shape) o t.1 q in
        inr (subst (λ s. Apart s o) p (inl (omega (arith, t.0, after))))
    Slots-Apart (x ∷ ss) cursor s o t (inr p) (inl q) =
        let after = Slots-after ss (cursor + image_size x.shape) s t.1 p in
        inr (subst (λ o. Apart s o) q (inr (omega (arith, t.0, after))))
    Slots-Apart (x ∷ ss) cursor s o t (inr p) (inr q) =
        Slots-Apart ss (cursor + image_size x.shape) s o t.1 p q

    -- one sensor's pixels, through the writes of others and of its own
    unfoldable pub IsPainted : Cells → Sensor k → Type 0
    IsPainted cells s = read cells (slot s) (length (pixels_of s)) ≡ pixels_of s

    overlay-IsPainted_same :
        (cells : Cells) (s o : Sensor k)
        → s ≡ o
        → IsPainted (overlay (slot o) (pixels_of o) cells) s
    unfolding IsPainted
    overlay-IsPainted_same cells s o same =
        subst
          (λ o.
            read (overlay (slot o) (pixels_of o) cells) (slot s) (length (pixels_of s))
            ≡ pixels_of s)
          same (read-overlay (slot s) (pixels_of s) cells)

    overlay-IsPainted :
        (cells : Cells) (s o : Sensor k)
        → IsEncoded s
        → IsEncoded o
        → (s ≡ o) ⊎ Apart s o
        → IsPainted cells s
        → IsPainted (overlay (slot o) (pixels_of o) cells) s
    unfolding IsPainted
    overlay-IsPainted cells s o es eo (inl same) painted = overlay-IsPainted_same cells s o same
    overlay-IsPainted cells s o es eo (inr apart) painted =
        read-overlay_apart (slot o) (pixels_of o) cells (slot s) (length (pixels_of s))
          (elim apart [
            | inl before ↦ inl (omega (arith, before, length-pixels_of s es))
            | inr after ↦ inr (omega (arith, after, length-pixels_of o eo))
          ])
        ∙ painted

    module _ (all : List (Sensor k)) (cursor : ℕ) (tiles : Slots data_start offsets all cursor)
        (encoded : All IsEncoded all) where
      -- whatever the order of the writes
      pub paint-IsPainted :
          (ss : List (Sensor k)) (cells : Cells) (s : Sensor k)
          → All (λ o. In o all) ss
          → In s all
          → In s ss ⊎ IsPainted cells s
          → IsPainted (paint data_start offsets ss cells) s
      unfolding paint slot
      paint-IsPainted [] cells s within here (inl none_left) = absurd none_left
      paint-IsPainted [] cells s within here (inr painted) = painted
      paint-IsPainted (o ∷ ss) cells s within here known =
          let apart = Slots-Apart all cursor s o tiles here within.0 in
          let es = All-In IsEncoded s all encoded here in
          let eo = All-In IsEncoded o all encoded within.0 in
          elim known [
            | inl (inl same) ↦
                paint-IsPainted ss (overlay (slot o) (pixels_of o) cells) s within.1 here
                  (inr (overlay-IsPainted_same cells s o (sym same)))
            | inl (inr later) ↦
                paint-IsPainted ss (overlay (slot o) (pixels_of o) cells) s within.1 here
                  (inl later)
            | inr painted ↦
                paint-IsPainted ss (overlay (slot o) (pixels_of o) cells) s within.1 here
                  (inr (overlay-IsPainted cells s o es eo apart painted))
          ]

      pub IsPainted-Placed :
          (cells : Cells) (ss : List (Sensor k)) (at : ℕ)
          → Slots data_start offsets ss at
          → All IsEncoded ss
          → All (IsPainted cells) ss
          → Placed cells (img_parts ss) (data_start + at)
      unfolding IsPainted slot
      IsPainted-Placed cells [] at t e p = tt
      IsPainted-Placed cells (s ∷ ss) at t e p =
          let next : data_start + (at + image_size s.shape)
              ≡ data_start + at + length (pixels_of s) =
            omega (arith, length-pixels_of s e.0) in
          (
            subst (λ n. read cells n (length (pixels_of s)) ≡ pixels_of s) t.0 p.0,
            subst (Placed cells (img_parts ss)) next
                (IsPainted-Placed cells ss (at + image_size s.shape) t.1 e.1 p.1),
          )
