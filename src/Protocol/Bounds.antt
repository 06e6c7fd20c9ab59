-- ===== src/Protocol/Bounds.antt =====
-- Bounds: where a parsed layout may point, and which parts can be packed at all.
use donut_server.Prelude.{
  ℕ, zero, suc, ◌+◌, ◌^◌, ◌≤◌, ◌<◌, ◌≡◌, refl, true, false, List, [], ◌∷◌, ◌++◌, ltb, if◌then◌else◌,
  length, take, arith, All, length-append, ◌↔◌, inl, inr,
}
use donut_server.Bytes.{Bytes, Name, Codec, of_bytes, slice, big_endian}
use donut_server.Protocol.{
  ok, magic, version, check, short_blob, header_size, desc_fixed_size, HeaderInfo, PartLayout,
  Entry, pack_uint, pack_header, parse_header, pack_descriptor, pack_descriptors, raw_data,
  pack_blob, parse_entries, place_entries, parse_layout,
}
use donut_server.Protocol.RoundTrip.{
  >>=-eq-ok, Result-cases, pack_descriptor-ok, pack_descriptors-ok, pack_header-ok,
  pack_descriptors-end,
}

-- the part lies between `low` and `high`
abbrev pub Within : ℕ → ℕ → PartLayout → Type 0
Within low high p = (low ≤ p.offset) × (p.offset + p.byte_count ≤ high)

place_entries-Within :
    (data_start payload_end : ℕ) (entries : List Entry) (layout : List PartLayout)
    → place_entries data_start payload_end entries ≡ ok layout
    → All (Within data_start payload_end) layout × (length layout ≡ length entries)
unfolding place_entries
place_entries-Within data_start payload_end [] [] h = (tt, refl)
place_entries-Within data_start payload_end [] (p ∷ layout) h = absurd (ground arith)
place_entries-Within data_start payload_end ((name, offset, size) ∷ entries) [] h =
    absurd (ground arith)
place_entries-Within data_start payload_end ((name, offset, size) ∷ entries) (p ∷ layout) h =
    let ih = place_entries-Within data_start payload_end entries layout (ground arith) in
    ((ground arith, ih.0), ground arith)

All-widen :
    {low high low' high' : ℕ} (layout : List PartLayout)
    → low' ≤ low
    → high ≤ high'
    → All (Within low high) layout
    → All (Within low' high') layout
All-widen [] hl hh h = tt
All-widen (p ∷ layout) hl hh h = ((omega arith, omega arith), All-widen layout hl hh h.1)

module _ (c : Codec) where
  parse_entries-bounds :
      (n pos : ℕ) (blob : Bytes) (entries : List Entry) (data_start : ℕ)
      → parse_entries c n pos blob ≡ ok (entries, data_start)
      → (length entries ≡ n) × (pos ≤ data_start)
  unfolding parse_entries
  parse_entries-bounds zero pos blob entries data_start h = ground arith
  parse_entries-bounds (suc n) pos blob entries data_start h =
      let fixed : Bytes = slice blob pos desc_fixed_size in
      let next : ℕ = pos + desc_fixed_size + of_bytes (take 1 fixed) in
      elim (Result-cases (parse_entries c n next blob)) [
        | inl done ↦
            let ((rest, end), e) = done in
            ground (arith, e, parse_entries-bounds n next blob rest end e)
        | inr failed ↦ ground arith
      ]

  pack_descriptor-total :
      (name : Name) (offset size : ℕ)
      → c.can_encode name ≡ true
      → length (c.encode name) ≤ 255
      → offset < 256 ^ 8
      → size < 256 ^ 8
      → (d : Bytes) × (pack_descriptor c (name, offset, size) ≡ ok d)
  unfolding pack_descriptor
  pack_descriptor-total name offset size he hn ho hs = (
    length (c.encode name) ∷ (big_endian 8 offset ++ (big_endian 8 size ++ c.encode name)),
    ground arith,
  )

  -- the name can be encoded, in one length byte
  abbrev pub IsShort : Name × Bytes → Type 0
  IsShort p = (c.can_encode p.0 ≡ true) × (length (c.encode p.0) ≤ 255)

  -- The part list can be packed: short names, and a count and a payload that fit their fields.
  abbrev pub Packable : List (Name × Bytes) → Type 0
  Packable parts =
      All IsShort parts × (length parts < 256 ^ 2) × (length (raw_data parts) < 256 ^ 8)

  pack_descriptors-total :
      (parts : List (Name × Bytes)) (offset : ℕ)
      → All IsShort parts
      → offset + length (raw_data parts) < 256 ^ 8
      → (ds : Bytes) × (pack_descriptors c parts offset ≡ ok (ds, offset + length (raw_data parts)))
  unfolding pack_descriptors
  pack_descriptors-total [] offset hn h = ([], ground arith)
  pack_descriptors-total ((name, payload) ∷ parts) offset hn h =
      let sizes = length-append payload (raw_data parts) in
      let (d, hd) =
        pack_descriptor-total name offset (length payload) hn.0.0 hn.0.1 (omega (arith, sizes))
          (omega (arith, sizes)) in
      let (ds, hds) =
        pack_descriptors-total parts (offset + length payload) hn.1 (omega (arith, sizes)) in
      (d ++ ds, ground (arith, sizes))

  names-IsShort_of_pack :
      (parts : List (Name × Bytes)) (offset : ℕ) (ds : Bytes) (end : ℕ)
      → pack_descriptors c parts offset ≡ ok (ds, end)
      → All IsShort parts
  names-IsShort_of_pack [] offset ds end h = tt
  names-IsShort_of_pack ((name, payload) ∷ parts) offset ds end h =
      let (d, ds', hd, hs, e) = pack_descriptors-ok c name payload parts offset ds end h in
      (
        (
          (pack_descriptor-ok c name offset (length payload) d hd).4,
          omega (arith, (pack_descriptor-ok c name offset (length payload) d hd).1),
        ),
        names-IsShort_of_pack parts (offset + length payload) ds' end hs,
      )

  -- `pack_blob` returns a blob exactly when every name can be encoded, in at most 255 bytes, there are
  -- fewer than 2^16 parts and the payload has fewer than 2^64 bytes.
  pub pack_blob_iff :
      (parts : List (Name × Bytes))
      → ((blob : Bytes) × (pack_blob c parts ≡ ok blob)) ↔ Packable parts
  unfolding pack_blob pack_header pack_uint
  pack_blob_iff parts = (
    (λ (blob, h).
        let ((ds, end), packed, h') = >>=-eq-ok (pack_descriptors c parts 0) _ h in
        let (header, hh, e) = >>=-eq-ok (pack_header (length parts) end) _ h' in
        let (shape, hc, hp) = pack_header-ok (length parts) end header hh in
        (
          names-IsShort_of_pack parts 0 ds end packed,
          hc,
          omega (arith, pack_descriptors-end c parts 0 ds end packed),
        )),
    λ (names, count, size).
        let (ds, packed) = pack_descriptors-total parts 0 names (omega arith) in
        (
          (magic
                ++ (big_endian 2 version
                    ++ (big_endian 2 (length parts) ++ big_endian 8 (0 + length (raw_data parts)))))
              ++ (ds ++ raw_data parts),
          rw packed (ground arith),
        ),
  )

  -- Every part that `parse_layout` returns lies behind the header and inside the blob, and there
  -- are as many parts as the header says.
  pub parse_layout-Within :
      (blob : Bytes) (layout : List PartLayout)
      → parse_layout c blob ≡ ok layout
      → All (Within header_size (length blob)) layout
        × ((info : HeaderInfo) × (parse_header (take header_size blob) ≡ ok info)
            × (length layout ≡ info.part_count))
  unfolding parse_layout
  parse_layout-Within blob layout h =
      let (info, hi, h1) = >>=-eq-ok (parse_header (take header_size blob)) _ h in
      let ((entries, data_start), he, h2) =
        >>=-eq-ok (parse_entries c info.part_count header_size blob) _ h1 in
      let (_, fits, placed) =
        >>=-eq-ok
          (check (if ltb (length blob) (data_start + info.payload_length) then false else true)
            short_blob)
          _ h2 in
      let (inside, same) =
        place_entries-Within data_start (data_start + info.payload_length) entries layout placed in
      let (count, start) =
        parse_entries-bounds info.part_count header_size blob entries data_start he in
      (All-widen layout start (ground arith) inside, (info, hi, omega arith))
