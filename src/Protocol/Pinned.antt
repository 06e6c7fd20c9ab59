-- ===== src/Protocol/Pinned.antt =====
-- Offsets that are pinned where they would be without: `build_framing` does the same, and the region of
-- the descriptors is as long as `descriptor_region_size` says.
use donut_server.Prelude.{
  ℕ, ◌+◌, ◌≡◌, refl, sym, ap, ◌∙◌, subst, none, some, List, [], ◌∷◌, ◌++◌, length, lookup, put, ltb,
  arith, keys, Distinct, In, inl, inr, length-append, Bool-cases, ==_refl, if◌then◌else◌,
}
use donut_server.Bytes.{
  Bytes, Name, Codec, name_eq, list_eqb, list_eqb_iff, length-big_endian, big_endian,
}
use donut_server.Protocol.{
  ok, header_size, desc_fixed_size, pack_descriptor, descriptor_region_size,
}
use donut_server.Protocol.RoundTrip.{>>=-eq-ok, pack_descriptor-ok, length-pack_header}
use donut_server.Protocol.InPlace.{build_framing-ok}
use donut_server.Protocol.Framing.{
  Offsets, offset_of, assign_offsets, missing_names, covering_length, choose_offsets,
  absolute_offsets, frame_descriptors, build_framing, Tiles, assign_offsets-Tiles,
}

-- the bytes of all sizes
abbrev pub total_size : List (Name × ℕ) → ℕ
total_size [] = 0
total_size ((name, size) ∷ sizes) = size + total_size sizes

assign_offsets-total_size :
    (offsets : Offsets) (sizes : List (Name × ℕ)) (cursor : ℕ)
    → (assign_offsets offsets sizes cursor).1 ≡ cursor + total_size sizes
unfolding assign_offsets
assign_offsets-total_size offsets [] cursor = omega arith
assign_offsets-total_size offsets ((name, size) ∷ sizes) cursor =
    omega (arith, assign_offsets-total_size (put name cursor offsets) sizes (cursor + size))

missing_names-Tiles :
    (offsets : Offsets) (sizes : List (Name × ℕ)) (cursor : ℕ)
    → Tiles offsets sizes cursor
    → missing_names offsets sizes ≡ []
unfolding missing_names
missing_names-Tiles offsets [] cursor t = refl
missing_names-Tiles offsets ((name, size) ∷ sizes) cursor t =
    rw (t.0, missing_names) (missing_names-Tiles offsets sizes (cursor + size) t.1)

covering_length-Tiles :
    (offsets : Offsets) (first : Name × ℕ) (sizes : List (Name × ℕ)) (cursor : ℕ)
    → Tiles offsets (first ∷ sizes) cursor
    → covering_length offsets (first ∷ sizes) ≡ ok (cursor + total_size (first ∷ sizes))
unfolding covering_length offset_of
covering_length-Tiles offsets (name, size) [] cursor t = ground (arith, t.0)
covering_length-Tiles offsets (name, size) (next ∷ sizes) cursor t =
    ground (arith, t.0, covering_length-Tiles offsets next sizes (cursor + size) t.1)

Tiles-cons :
    (name : Name) (at : ℕ) (offsets : Offsets) (sizes : List (Name × ℕ)) (cursor : ℕ)
    → ¬ In name (keys sizes)
    → Tiles offsets sizes cursor
    → Tiles ((name, at) ∷ offsets) sizes cursor
unfolding lookup
Tiles-cons name at offsets [] cursor absent t = tt
Tiles-cons name at offsets ((n, size) ∷ sizes) cursor absent t = (
  elim (Bool-cases (list_eqb name n)) [
    | inl same ↦ absurd (absent (inl (sym ((list_eqb_iff name n).0 same))))
    | inr other ↦ rw (other, if◌then◌else◌) t.0
  ],
  Tiles-cons name at offsets sizes (cursor + size) (λ m. absent (inr m)) t.1,
)

-- the region of the descriptors
abbrev pub region : Codec → List Name → ℕ
region c [] = 0
region c (name ∷ names) = desc_fixed_size + length (c.encode name) + region c names

module _ (c : Codec) where
  pub descriptor_region_size-region :
      (names : List Name) (n : ℕ) → descriptor_region_size c names ≡ ok n → n ≡ region c names
  unfolding descriptor_region_size
  descriptor_region_size-region [] n h = ground arith
  descriptor_region_size-region (name ∷ names) n h = elim (Bool-cases (c.can_encode name)) [
    | inr lone ↦ absurd (ground (arith, lone, h))
    | inl text ↦ elim (Bool-cases (ltb 255 (length (c.encode name)))) [
      | inl long ↦ absurd (ground (arith, text, long, h))
      | inr fits ↦
          let (rest, found, done) =
            >>=-eq-ok (descriptor_region_size c names) _
              (rw (text, fits, descriptor_region_size) at h) in
          let sum : desc_fixed_size + length (c.encode name) + rest ≡ n = ground arith in
          omega (arith, sum, descriptor_region_size-region names rest found)
    ]
  ]

  length-frame_descriptors :
      (offsets : Offsets) (sizes : List (Name × ℕ)) (ds : Bytes)
      → frame_descriptors c offsets sizes ≡ ok ds
      → length ds ≡ region c (keys sizes)
  unfolding frame_descriptors
  length-frame_descriptors offsets [] ds h = ground arith
  length-frame_descriptors offsets ((name, size) ∷ sizes) ds h =
      let (at, found, h₁) = >>=-eq-ok (offset_of offsets name) _ h in
      let (d, hd, h₂) = >>=-eq-ok (pack_descriptor c (name, at, size)) _ h₁ in
      let (rest, hr, e) = >>=-eq-ok (frame_descriptors c offsets sizes) _ h₂ in
      let (shape, _, _, _, _) = pack_descriptor-ok c name at size d hd in
      let all : ds ≡ d ++ rest = ground arith in
      omega (
        arith,
        ap length all,
        ap length shape,
        length-append d rest,
        length-append (big_endian 8 at) (big_endian 8 size ++ c.encode name),
        length-append (big_endian 8 size) (c.encode name),
        length-big_endian 8 at,
        length-big_endian 8 size,
        length-frame_descriptors offsets sizes rest hr,
      )

  choose_offsets_pinned :
      (first : Name × ℕ) (sizes : List (Name × ℕ))
      → Distinct (keys (first ∷ sizes))
      → choose_offsets (first ∷ sizes) (some (assign_offsets [] (first ∷ sizes) 0).0)
        ≡ choose_offsets (first ∷ sizes) none
  unfolding choose_offsets
  choose_offsets_pinned first sizes d =
      let t = assign_offsets-Tiles [] (first ∷ sizes) 0 d in
      let offsets = (assign_offsets [] (first ∷ sizes) 0).0 in
      rw
        (
          missing_names-Tiles offsets (first ∷ sizes) 0 t,
          covering_length-Tiles offsets first sizes 0 t,
          choose_offsets,
        )
        (ap (λ n. ok (offsets, n)) (sym (assign_offsets-total_size [] (first ∷ sizes) 0)))

  -- Pinning each part where the one before it ends changes nothing.
  build_framing_pinned :
      (first : Name × ℕ) (sizes : List (Name × ℕ))
      → Distinct (keys (first ∷ sizes))
      → build_framing c (first ∷ sizes) (some (assign_offsets [] (first ∷ sizes) 0).0)
        ≡ build_framing c (first ∷ sizes) none
  unfolding build_framing
  build_framing_pinned first sizes d = rw (choose_offsets_pinned first sizes d, build_framing) refl

  pub build_framing_unpinned :
      (sizes : List (Name × ℕ)) (r : Bytes × Offsets × ℕ)
      → Distinct (keys sizes)
      → build_framing c sizes (some (assign_offsets [] sizes 0).0) ≡ ok r
      → build_framing c sizes none ≡ ok r
  unfolding build_framing choose_offsets missing_names covering_length
  build_framing_unpinned [] r d h = absurd (ground arith)
  build_framing_unpinned (first ∷ sizes) r d h = sym (build_framing_pinned first sizes d) ∙ h

  -- the absolute offsets of parts that tile, and the length of their framing
  absolute_offsets-Tiles :
      (start : ℕ) (offsets : Offsets) (sizes : List (Name × ℕ)) (cursor : ℕ) (absolute : Offsets)
      → Distinct (keys sizes)
      → Tiles offsets sizes cursor
      → absolute_offsets start offsets sizes ≡ ok absolute
      → Tiles absolute sizes (start + cursor)
  unfolding absolute_offsets offset_of lookup
  absolute_offsets-Tiles start offsets [] cursor absolute d t h = tt
  absolute_offsets-Tiles start offsets ((name, size) ∷ sizes) cursor absolute d t h =
      let (at, found, h₁) = >>=-eq-ok (offset_of offsets name) _ h in
      let (rest, hr, e) = >>=-eq-ok (absolute_offsets start offsets sizes) _ h₁ in
      let same : at ≡ cursor = ground (arith, t.0) in
      let shape : (name, start + cursor) ∷ rest ≡ absolute = ground (arith, same) in
      let next : start + cursor + size ≡ start + (cursor + size) = omega arith in
      subst (λ a. Tiles a ((name, size) ∷ sizes) (start + cursor)) shape
        (
          rw (==_refl ⦃e = name_eq⦄ name) refl,
          Tiles-cons name (start + cursor) rest sizes (start + cursor + size) d.0 (
              subst (λ n. Tiles rest sizes n) (sym next)
                (absolute_offsets-Tiles start offsets sizes (cursor + size) rest d.1 t.1 hr)),
        )

  -- What is known of a framing whose parts tile: its length, where they are and how long the blob is.
  pub build_framing-Tiles :
      (sizes : List (Name × ℕ)) (framing : Bytes) (absolute : Offsets) (total : ℕ)
      → Distinct (keys sizes)
      → build_framing c sizes none ≡ ok (framing, absolute, total)
      → (length framing ≡ header_size + region c (keys sizes))
        × Tiles absolute sizes (length framing)
        × (total ≡ length framing + total_size sizes)
  unfolding choose_offsets
  build_framing-Tiles sizes framing absolute total d h =
      let (offsets, long, header, ds, chosen, hds, hh, ha, shape, sum) =
        build_framing-ok c sizes none framing absolute total h in
      let size : length framing ≡ header_size + length ds =
        ap length shape
        ∙ omega
            (arith, length-append header ds, length-pack_header (length sizes) long header hh) in
      let same : assign_offsets [] sizes 0 ≡ (offsets, long) = ground (arith, chosen) in
      let tiles : Tiles offsets sizes 0 =
        subst (λ (r : Offsets × ℕ). Tiles r.0 sizes 0) same (assign_offsets-Tiles [] sizes 0 d) in
      let zero : header_size + length ds + 0 ≡ length framing = omega (arith, size) in
      (
        size ∙ ap (λ n. header_size + n) (length-frame_descriptors offsets sizes ds hds),
        subst (λ n. Tiles absolute sizes n) zero
            (absolute_offsets-Tiles (header_size + length ds) offsets sizes 0 absolute d tiles ha),
        omega (arith, sum, size, ap (λ r. r.1) same, assign_offsets-total_size [] sizes 0),
      )
