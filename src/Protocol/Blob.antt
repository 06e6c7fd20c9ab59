-- ===== src/Protocol/Blob.antt =====
-- The whole blob of protocol.py: `pack_blob` with `parse_layout` and `unpack_blob`.
use donut_server.Prelude.{
  ℕ, ◌+◌, ◌≤◌, ◌≡◌, refl, sym, ap, subst, ◌∙◌, List, [], ◌∷◌, ◌++◌, length, take, drop, put, arith,
  append-nil, append_assoc, length-append, Distinct, keys, drop-append_length, take-append_length,
  put_absent, Fresh, Fresh-nil, Fresh-put,
}
use donut_server.Bytes.{Bytes, Name, Codec, name_eq, slice, drop-add}
use donut_server.Protocol.{
  ok, version, header_size, PartLayout, Entry, pack_header, parse_header, pack_descriptors,
  raw_data, pack_blob, parse_entries, place_entries, parse_layout, collect_parts, unpack_blob,
}
use donut_server.Protocol.RoundTrip.{
  >>=-eq-ok, parse_header-pack_header, length-pack_header, entries_from, pack_descriptors-end,
  parse_entries-pack_descriptors,
}

-- the parts one after another from `start`, in absolute offsets
abbrev pub layout_from : List (Name × Bytes) → ℕ → List PartLayout
layout_from [] start = []
layout_from ((name, payload) ∷ parts) start =
    record { name = name; offset = start; byte_count = length payload }
    ∷ layout_from parts (start + length payload)

place_entries-entries_from :
    (c : Codec) (parts : List (Name × Bytes)) (data_start offset payload_end : ℕ)
    → data_start + offset + length (raw_data parts) ≤ payload_end
    → place_entries data_start payload_end (entries_from c parts offset)
      ≡ ok (layout_from parts (data_start + offset))
unfolding place_entries
place_entries-entries_from c [] data_start offset payload_end h = refl
place_entries-entries_from c ((name, payload) ∷ parts) data_start offset payload_end h =
    let n : ℕ = length payload in
    let sizes = length-append payload (raw_data parts) in
    let same : data_start + (offset + n) ≡ data_start + offset + n = omega arith in
    let ih : place_entries data_start payload_end (entries_from c parts (offset + n))
        ≡ ok (layout_from parts (data_start + (offset + n))) =
      place_entries-entries_from c parts data_start (offset + n) payload_end
        (omega (arith, sizes)) in
    ground (arith, sizes, ih, ap (layout_from parts) same)

collect_parts-layout_from :
    (parts found : List (Name × Bytes)) (start : ℕ) (blob rest : Bytes)
    → drop start blob ≡ raw_data parts ++ rest
    → Distinct (keys parts)
    → Fresh found parts
    → collect_parts blob found (layout_from parts start) ≡ found ++ parts
unfolding collect_parts slice
collect_parts-layout_from [] found start blob rest at d fresh = sym (append-nil found)
collect_parts-layout_from ((name, payload) ∷ parts) found start blob rest at d fresh =
    let here : drop start blob ≡ payload ++ (raw_data parts ++ rest) =
      at ∙ append_assoc payload (raw_data parts) rest in
    let next : drop (start + length payload) blob ≡ raw_data parts ++ rest =
      rw (drop-add, here) (drop-append_length payload (raw_data parts ++ rest)) in
    let cut : take (length payload) (drop start blob) ≡ payload =
      rw here (take-append_length payload (raw_data parts ++ rest)) in
    let ih =
      collect_parts-layout_from parts (put name payload found) (start + length payload) blob rest
        next d.1 (Fresh-put name payload found parts d.0 fresh.1) in
    ap (λ v. collect_parts blob (put name v found) (layout_from parts (start + length payload))) cut
    ∙ ih
    ∙ rw (put_absent name payload found fresh.0, append_assoc)

module _ (c : Codec) where
  -- A blob that is a header, the descriptors it counts and a payload as long as it says.
  pub parse_layout-framed :
      (count payload : ℕ) (header ds raw blob : Bytes) (entries : List Entry)
      (layout : List PartLayout)
      → pack_header count payload ≡ ok header
      → blob ≡ header ++ (ds ++ raw)
      → parse_entries c count header_size blob ≡ ok (entries, header_size + length ds)
      → payload ≤ length raw
      → place_entries (header_size + length ds) (header_size + length ds + payload) entries
        ≡ ok layout
      → parse_layout c blob ≡ ok layout
  unfolding parse_layout
  parse_layout-framed count payload header ds raw blob entries layout hh shape read fits placed =
      let size : length blob ≡ header_size + length ds + length raw = rw shape (
        omega (
          arith,
          length-pack_header count payload header hh,
          length-append header (ds ++ raw),
          length-append ds raw,
        )) in
      let parsed : parse_header (take header_size blob)
          ≡ ok (record { version_found = version; part_count = count; payload_length = payload }) =
        rw shape (parse_header-pack_header count payload header (ds ++ raw) hh) in
      rw (parsed, read) (ground arith)

  pub drop_header :
      (count payload : ℕ) (header body blob : Bytes)
      → pack_header count payload ≡ ok header
      → blob ≡ header ++ body
      → drop header_size blob ≡ body
  drop_header count payload header body blob hh shape =
      subst (λ n. drop n blob ≡ body) (length-pack_header count payload header hh)
        (rw shape (drop-append_length header body))

  -- The layout of a packed blob: each part where the one before it ends, the last at the end.
  parse_layout-pack_blob :
      (parts : List (Name × Bytes)) (blob : Bytes)
      → pack_blob c parts ≡ ok blob
      → (start : ℕ) × (parse_layout c blob ≡ ok (layout_from parts start))
        × (drop start blob ≡ raw_data parts)
  unfolding pack_blob
  parse_layout-pack_blob parts blob h =
      let ((ds, end), packed, h') = >>=-eq-ok (pack_descriptors c parts 0) _ h in
      let (header, hh, e) = >>=-eq-ok (pack_header (length parts) end) _ h' in
      let raw : Bytes = raw_data parts in
      let start : ℕ = header_size + length ds in
      let shape : blob ≡ header ++ (ds ++ raw) = ground arith in
      let at = drop_header (length parts) end header (ds ++ raw) blob hh shape in
      let size : end ≡ 0 + length raw = pack_descriptors-end c parts 0 ds end packed in
      let first : start + 0 ≡ start = omega arith in
      let placed : place_entries start (start + end) (entries_from c parts 0)
          ≡ ok (layout_from parts start) =
        place_entries-entries_from c parts start 0 (start + end) (omega (arith, size))
        ∙ ap (λ s. ok (layout_from parts s)) first in
      (
        start,
        parse_layout-framed (length parts) end header ds raw blob (entries_from c parts 0)
            (layout_from parts start) hh shape
            (parse_entries-pack_descriptors c parts 0 header_size blob ds raw end packed at)
            (omega (arith, size)) placed,
        rw (drop-add, at) (drop-append_length ds raw),
      )

  -- Unpacking a blob that `pack_blob` returned gives back its parts, in their order, for part
  -- names that all differ.
  pub unpack_blob-pack_blob :
      (parts : List (Name × Bytes)) (blob : Bytes)
      → Distinct (keys parts)
      → pack_blob c parts ≡ ok blob
      → unpack_blob c blob ≡ ok parts
  unfolding unpack_blob
  unpack_blob-pack_blob parts blob d h =
      let (start, parsed, at) = parse_layout-pack_blob parts blob h in
      rw parsed (
        ap ok (
          collect_parts-layout_from parts [] start blob [] (rw append-nil at) d
            (Fresh-nil Bytes parts)))
