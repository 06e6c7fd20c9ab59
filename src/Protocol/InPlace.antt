-- ===== src/Protocol/InPlace.antt =====
-- `build_framing` against `pack_blob` and `parse_layout`: a producer that writes the framing and
-- then each part at the offset it was given has written a blob that parses to those places.
use donut_server.Prelude.{
  ℕ, suc, ◌+◌, ◌≤◌, ◌≡◌, refl, sym, ap, subst, ◌∙◌, Option, none, some, List, [], ◌∷◌, ◌++◌, length,
  drop, lookup, put, arith, keys, Distinct, inl, inr, length-append, append_assoc, All,
}
use donut_server.Bytes.{Bytes, Name, Codec, name_eq, of_bytes_single}
use donut_server.Protocol.{
  Result, ok, ◌>>=◌, header_size, desc_fixed_size, PartLayout, Entry, pack_header, pack_descriptor,
  pack_descriptors, raw_data, pack_blob, parse_entries, place_entries, parse_layout,
}
use donut_server.Protocol.RoundTrip.{
  >>=-eq-ok, Result-cases, pack_descriptor-ok, parse_descriptor, length-pack_header,
}
use donut_server.Protocol.Blob.{parse_layout-framed, drop_header}
use donut_server.Protocol.Framing.{
  Offsets, offset_of, assign_offsets, covering_length, choose_offsets, absolute_offsets,
  frame_descriptors, build_framing, sizes_of, Tiles, assign_offsets-Tiles, assign_offsets-end,
}

-- the offset of a name that is there
abbrev offset_or_zero : Option ℕ → ℕ
offset_or_zero none = 0
offset_or_zero (some at) = at

abbrev entries_of : Offsets → List (Name × ℕ) → List Entry
entries_of offsets [] = []
entries_of offsets ((name, size) ∷ sizes) =
    (name, offset_or_zero (lookup name offsets), size) ∷ entries_of offsets sizes

abbrev placed : ℕ → List Entry → List PartLayout
placed data_start [] = []
placed data_start ((name, at, size) ∷ entries) =
    record { name = name; offset = data_start + at; byte_count = size } ∷ placed data_start entries

-- the parts at the absolute offsets that `build_framing` returned
abbrev pub layout_at : Offsets → List (Name × ℕ) → List PartLayout
layout_at ((name, at) ∷ absolute) ((_, size) ∷ sizes) =
    record { name = name; offset = at; byte_count = size } ∷ layout_at absolute sizes
layout_at _ _ = []

layout_at-absolute_offsets :
    (data_start : ℕ) (offsets : Offsets) (sizes : List (Name × ℕ)) (absolute : Offsets)
    → absolute_offsets data_start offsets sizes ≡ ok absolute
    → layout_at absolute sizes ≡ placed data_start (entries_of offsets sizes)
unfolding absolute_offsets offset_of
layout_at-absolute_offsets data_start offsets [] [] h = refl
layout_at-absolute_offsets data_start offsets [] (a ∷ absolute) h = absurd (ground arith)
layout_at-absolute_offsets data_start offsets ((name, size) ∷ sizes) absolute h =
    let (at, found, h') = >>=-eq-ok (offset_of offsets name) _ h in
    let (rest, hr, e) = >>=-eq-ok (absolute_offsets data_start offsets sizes) _ h' in
    let shape : absolute ≡ (name, data_start + at) ∷ rest = ground arith in
    rw shape (ground (arith, layout_at-absolute_offsets data_start offsets sizes rest))

length-sizes_of : (parts : List (Name × Bytes)) → length (sizes_of parts) ≡ length parts
length-sizes_of [] = refl
length-sizes_of (p ∷ parts) = ap suc (length-sizes_of parts)

ok_triple :
    {A B C : Type 0} {a a' : A} {b b' : B} {n n' : C}
    → ◌≡◌ {A = Result (A × B × C)} (ok (a, b, n)) (ok (a', b', n'))
    → (a ≡ a') × (b ≡ b') × (n ≡ n')
ok_triple e = (cc, cc, cc)

-- every entry ends at or before the payload's end
abbrev Covered : ℕ → List Entry → Type 0
Covered payload_length entries = All (λ e. e.1 + e.2 ≤ payload_length) entries

covering_length-Covered :
    (offsets : Offsets) (sizes : List (Name × ℕ)) (m n : ℕ)
    → covering_length offsets sizes ≡ ok m
    → m ≤ n
    → Covered n (entries_of offsets sizes)
unfolding covering_length offset_of
covering_length-Covered offsets [] m n h le = tt
covering_length-Covered offsets ((name, size) ∷ []) m n h le = (ground arith, tt)
covering_length-Covered offsets ((name, size) ∷ next ∷ sizes) m n h le =
    let (at, found, h') = >>=-eq-ok (offset_of offsets name) _ h in
    let (rest, hr, e) = >>=-eq-ok (covering_length offsets (next ∷ sizes)) _ h' in
    (ground arith, covering_length-Covered offsets (next ∷ sizes) rest n hr (ground arith))

assign_offsets-le :
    (offsets : Offsets) (sizes : List (Name × ℕ)) (cursor : ℕ)
    → cursor ≤ (assign_offsets offsets sizes cursor).1
unfolding assign_offsets
assign_offsets-le offsets [] cursor = omega arith
assign_offsets-le offsets ((name, size) ∷ sizes) cursor =
    omega (arith, assign_offsets-le (put name cursor offsets) sizes (cursor + size))

Tiles-Covered :
    (offsets found : Offsets) (sizes : List (Name × ℕ)) (cursor end : ℕ)
    → Tiles offsets sizes cursor
    → (assign_offsets found sizes cursor).1 ≤ end
    → Covered end (entries_of offsets sizes)
unfolding assign_offsets
Tiles-Covered offsets found [] cursor end t h = tt
Tiles-Covered offsets found ((name, size) ∷ sizes) cursor end t h = (
  ground (arith, assign_offsets-le (put name cursor found) sizes (cursor + size)),
  Tiles-Covered offsets (put name cursor found) sizes (cursor + size) end t.1 h,
)

place_entries-placed :
    (data_start payload_length : ℕ) (entries : List Entry)
    → Covered payload_length entries
    → place_entries data_start (data_start + payload_length) entries
      ≡ ok (placed data_start entries)
unfolding place_entries
place_entries-placed data_start payload_length [] h = refl
place_entries-placed data_start payload_length ((name, at, size) ∷ entries) h =
    ground (arith, place_entries-placed data_start payload_length entries h.1)

-- Whichever way the offsets were chosen, the payload covers every part.
choose_offsets-Covered :
    (sizes : List (Name × ℕ)) (pinned : Option Offsets) (offsets : Offsets) (long : ℕ)
    → Distinct (keys sizes)
    → choose_offsets sizes pinned ≡ ok (offsets, long)
    → Covered long (entries_of offsets sizes)
unfolding choose_offsets
choose_offsets-Covered sizes none offsets long d h =
    Tiles-Covered offsets [] sizes 0 long
      (subst (λ o. Tiles o sizes 0) (ground arith) (assign_offsets-Tiles [] sizes 0 d))
      (ground arith)
choose_offsets-Covered sizes (some pins) offsets long d h =
    covering_length-Covered offsets sizes long long (ground arith) (omega arith)

module _ (c : Codec) where
  parse_entries-frame_descriptors :
      (offsets : Offsets) (sizes : List (Name × ℕ)) (pos : ℕ) (blob ds rest : Bytes)
      → frame_descriptors c offsets sizes ≡ ok ds
      → drop pos blob ≡ ds ++ rest
      → parse_entries c (length sizes) pos blob ≡ ok (entries_of offsets sizes, pos + length ds)
  unfolding parse_entries frame_descriptors offset_of
  parse_entries-frame_descriptors offsets [] pos blob ds rest h at = ground arith
  parse_entries-frame_descriptors offsets ((name, size) ∷ sizes) pos blob ds rest h at =
      let (off, found, h1) = >>=-eq-ok (offset_of offsets name) _ h in
      let (d, hd, h2) = >>=-eq-ok (pack_descriptor c (name, off, size)) _ h1 in
      let (ds', hs, e) = >>=-eq-ok (frame_descriptors c offsets sizes) _ h2 in
      let shape : ds ≡ d ++ ds' = ground arith in
      let known : offset_or_zero (lookup name offsets) ≡ off = ground arith in
      let (one, where_at, how_long, text, next, fits, dlen) =
        parse_descriptor c name off size pos blob d (ds' ++ rest) hd
          (at ∙ (rw (shape, append_assoc))) in
      let ih =
        parse_entries-frame_descriptors offsets sizes
          (pos + desc_fixed_size + length (c.encode name)) blob ds' rest hs next in
      let encoded = (pack_descriptor-ok c name off size d hd).4 in
      ground (
        arith,
        of_bytes_single (length (c.encode name)),
        c.decode-encode name encoded,
        length-append d ds',
      )

  framing_parses :
      (sizes : List (Name × ℕ)) (offsets absolute : Offsets) (long : ℕ) (header ds payload : Bytes)
      → frame_descriptors c offsets sizes ≡ ok ds
      → pack_header (length sizes) long ≡ ok header
      → absolute_offsets (header_size + length ds) offsets sizes ≡ ok absolute
      → Covered long (entries_of offsets sizes)
      → long ≤ length payload
      → parse_layout c ((header ++ ds) ++ payload) ≡ ok (layout_at absolute sizes)
  framing_parses sizes offsets absolute long header ds payload hds hh ha covered room =
      let start : ℕ = header_size + length ds in
      let blob : Bytes = (header ++ ds) ++ payload in
      let shape : blob ≡ header ++ (ds ++ payload) = append_assoc header ds payload in
      let at = drop_header c (length sizes) long header (ds ++ payload) blob hh shape in
      parse_layout-framed c (length sizes) long header ds payload blob (entries_of offsets sizes)
        (layout_at absolute sizes) hh shape
        (parse_entries-frame_descriptors offsets sizes header_size blob ds payload hds at) room
        (place_entries-placed start long (entries_of offsets sizes) covered
          ∙ ap ok (sym (layout_at-absolute_offsets start offsets sizes absolute ha)))

  -- the parts of a successful call
  pub build_framing-ok :
      (sizes : List (Name × ℕ)) (pinned : Option Offsets) (framing : Bytes) (absolute : Offsets)
      (total : ℕ)
      → build_framing c sizes pinned ≡ ok (framing, absolute, total)
      → (offsets : Offsets) × (long : ℕ) × (header : Bytes) × (ds : Bytes) × (choose_offsets sizes
            pinned
          ≡ ok (offsets, long))
        × (frame_descriptors c offsets sizes ≡ ok ds)
        × (pack_header (length sizes) long ≡ ok header)
        × (absolute_offsets (header_size + length ds) offsets sizes ≡ ok absolute)
        × (framing ≡ header ++ ds)
        × (total ≡ header_size + length ds + long)
  unfolding build_framing
  build_framing-ok sizes pinned framing absolute total h =
      let ((offsets, long), chosen, h1) = >>=-eq-ok (choose_offsets sizes pinned) _ h in
      let (ds, hds, h2) = >>=-eq-ok (frame_descriptors c offsets sizes) _ h1 in
      let (header, hh, h3) = >>=-eq-ok (pack_header (length sizes) long) _ h2 in
      let (found, ha, e) =
        >>=-eq-ok (absolute_offsets (header_size + length ds) offsets sizes) _ h3 in
      let (eh, ea, et) = ok_triple e in
      (offsets, long, header, ds, chosen, hds, hh, ha ∙ ap ok ea, sym eh, sym et)

  -- A blob that starts with the framing that `build_framing` returned for names that all differ,
  -- and that has the total size it returned, parses to each part at the absolute offset it
  -- returned.
  pub parse_layout-build_framing :
      (sizes : List (Name × ℕ)) (pinned : Option Offsets) (framing payload : Bytes)
      (absolute : Offsets) (total : ℕ)
      → Distinct (keys sizes)
      → build_framing c sizes pinned ≡ ok (framing, absolute, total)
      → length framing + length payload ≡ total
      → parse_layout c (framing ++ payload) ≡ ok (layout_at absolute sizes)
  parse_layout-build_framing sizes pinned framing payload absolute total distinct h size =
      let (offsets, long, header, ds, chosen, hds, hh, ha, shape, sum) =
        build_framing-ok sizes pinned framing absolute total h in
      let room : long ≤ length payload = omega (
        arith,
        ap length shape,
        length-append header ds,
        length-pack_header (length sizes) long header hh,
      ) in
      rw shape (
        framing_parses sizes offsets absolute long header ds payload hds hh ha
          (choose_offsets-Covered sizes pinned offsets long distinct chosen) room)

  frame_descriptors-Tiles :
      (parts : List (Name × Bytes)) (offsets : Offsets) (cursor : ℕ)
      → Tiles offsets (sizes_of parts) cursor
      → (pack_descriptors c parts cursor ≡ (
          frame_descriptors c offsets (sizes_of parts) >>= λ ds.
          ok (ds, cursor + length (raw_data parts))))
        × ((start : ℕ) → (a : Offsets) × (absolute_offsets start offsets (sizes_of parts) ≡ ok a))
  unfolding frame_descriptors pack_descriptors absolute_offsets offset_of
  frame_descriptors-Tiles [] offsets cursor t = (ground arith, λ start. ([], refl))
  frame_descriptors-Tiles ((name, payload) ∷ parts) offsets cursor t =
      let (same, placeable) = frame_descriptors-Tiles parts offsets (cursor + length payload) t.1 in
      (
        ground (arith, length-append payload (raw_data parts)),
        λ start. let (a, ha) = placeable start in ((name, start + cursor) ∷ a, ground arith),
      )

  -- Without pinned offsets and for names that all differ, the in-place framing followed by the
  -- parts is what `pack_blob` packs, errors included.
  pub pack_blob-eq-build_framing :
      (parts : List (Name × Bytes))
      → Distinct (keys (sizes_of parts))
      → pack_blob c parts
        ≡ (build_framing c (sizes_of parts) none >>= λ r. ok (r.0 ++ raw_data parts))
  unfolding pack_blob build_framing choose_offsets
  pack_blob-eq-build_framing parts d =
      let offsets : Offsets = (assign_offsets [] (sizes_of parts) 0).0 in
      let (same, placeable) =
        frame_descriptors-Tiles parts offsets 0 (assign_offsets-Tiles [] (sizes_of parts) 0 d) in
      let size = assign_offsets-end [] parts 0 in
      elim (Result-cases (frame_descriptors c offsets (sizes_of parts))) [
        | inl done ↦
            let (ds, hds) = done in
            let (a, ha) = placeable (header_size + length ds) in
            elim (Result-cases (pack_header (length parts) (0 + length (raw_data parts)))) [
              | inl packed ↦
                  let (header, hh) = packed in
                  ground (arith, length-sizes_of parts, append_assoc header ds (raw_data parts))
              | inr failed ↦ let (e, he) = failed in ground (arith, length-sizes_of parts)
            ]
        | inr failed ↦ let (e, he) = failed in ground arith
      ]
