-- ===== src/Examples/Blobs.antt =====
-- A blob of two parts and the theorems of protocol.py on it. The codec takes each code point to one
-- byte.
use donut_server.Prelude.{
  ◌≡◌, refl, true, none, some, List, [], ◌∷◌, ◌++◌, length, take, Distinct, keys, All, lookup, put,
  arith, ◌↔◌,
}
use donut_server.Bytes.{Bytes, Name, Codec, of_bytes, slice, big_endian, list_eqb}
use donut_server.Protocol.{
  ok, ◌>>=◌, header_size, HeaderInfo, PartLayout, pack_uint, pack_header, parse_header,
  pack_descriptor, pack_descriptors, raw_data, pack_blob, parse_entries, place_entries,
  parse_layout, unpack_blob,
}
use donut_server.Protocol.Blob.{unpack_blob-pack_blob}
use donut_server.Protocol.Bounds.{Within, Packable, parse_layout-Within, pack_blob_iff}
use donut_server.Protocol.Framing.{
  choose_offsets, assign_offsets, frame_descriptors, absolute_offsets, offset_of, build_framing,
  sizes_of,
}
use donut_server.Protocol.InPlace.{
  layout_at, parse_layout-build_framing, pack_blob-eq-build_framing,
}
use donut_server.Protocol.Parts.{parts_for, split_parts, split_parts-parts_for}

abbrev pub plain : Codec
plain = record {
  can_encode = λ n. true;
  encode = λ n. n;
  decode = λ b. some b;
  decode-encode = λ n h. refl;
}

abbrev two_parts : List (Name × Bytes)
two_parts = ((97 ∷ []), (1 ∷ 2 ∷ [])) ∷ ((98 ∷ []), (3 ∷ [])) ∷ []

-- the header, the two descriptors, and the payloads
abbrev framing_bytes : Bytes
framing_bytes =
    68 ∷ 87 ∷ 70 ∷ 83 ∷ 0 ∷ 2 ∷ 0 ∷ 2 ∷ 0 ∷ 0 ∷ 0 ∷ 0 ∷ 0 ∷ 0 ∷ 0 ∷ 3 ∷ 1 ∷ 0 ∷ 0 ∷ 0 ∷ 0 ∷ 0 ∷ 0
    ∷ 0 ∷ 0 ∷ 0 ∷ 0 ∷ 0 ∷ 0 ∷ 0 ∷ 0 ∷ 0 ∷ 2 ∷ 97 ∷ 1 ∷ 0 ∷ 0 ∷ 0 ∷ 0 ∷ 0 ∷ 0 ∷ 0 ∷ 2 ∷ 0 ∷ 0 ∷ 0 ∷ 0
    ∷ 0 ∷ 0 ∷ 0 ∷ 1 ∷ 98 ∷ []

abbrev blob_bytes : Bytes
blob_bytes = framing_bytes ++ 1 ∷ 2 ∷ 3 ∷ []

abbrev two_places : List PartLayout
two_places =
    record { name = 97 ∷ []; offset = 52; byte_count = 2 }
    ∷ record { name = 98 ∷ []; offset = 54; byte_count = 1 }
    ∷ []

packed : pack_blob plain two_parts ≡ ok blob_bytes
unfolding pack_blob pack_header pack_uint pack_descriptors pack_descriptor raw_data big_endian
packed = refl

parsed : parse_layout plain blob_bytes ≡ ok two_places
unfolding parse_layout parse_header parse_entries place_entries slice of_bytes list_eqb
parsed = refl

-- two names differ
apart : Distinct (keys two_parts)
apart = ground arith

unpack_blob-pack_blob_example : unpack_blob plain blob_bytes ≡ ok two_parts
unpack_blob-pack_blob_example = unpack_blob-pack_blob plain two_parts blob_bytes apart packed

parse_layout-Within_example :
    All (Within header_size (length blob_bytes)) two_places
    × ((info : HeaderInfo) × (parse_header (take header_size blob_bytes) ≡ ok info)
        × (length two_places ≡ info.part_count))
parse_layout-Within_example = parse_layout-Within plain blob_bytes two_places parsed

pack_blob_iff_example :
    ((blob : Bytes) × (pack_blob plain two_parts ≡ ok blob)) ↔ Packable plain two_parts
pack_blob_iff_example = pack_blob_iff plain two_parts

framed :
    build_framing plain (sizes_of two_parts) none
    ≡ ok (framing_bytes, ((97 ∷ []), 52) ∷ ((98 ∷ []), 54) ∷ [], 55)
unfolding build_framing choose_offsets assign_offsets frame_descriptors absolute_offsets offset_of
    pack_header pack_uint pack_descriptor big_endian list_eqb lookup put
framed = refl

sizes_apart : Distinct (keys (sizes_of two_parts))
sizes_apart = ground arith

parse_layout-build_framing_example :
    parse_layout plain (framing_bytes ++ 7 ∷ 8 ∷ 9 ∷ [])
    ≡ ok (layout_at (((97 ∷ []), 52) ∷ ((98 ∷ []), 54) ∷ []) (sizes_of two_parts))
parse_layout-build_framing_example =
    parse_layout-build_framing plain (sizes_of two_parts) none framing_bytes (7 ∷ 8 ∷ 9 ∷ [])
      (((97 ∷ []), 52) ∷ ((98 ∷ []), 54) ∷ []) 55 sizes_apart framed refl

pack_blob-eq-build_framing_example :
    pack_blob plain two_parts
    ≡ (build_framing plain (sizes_of two_parts) none >>= λ r. ok (r.0 ++ raw_data two_parts))
pack_blob-eq-build_framing_example = pack_blob-eq-build_framing plain two_parts sizes_apart

abbrev two_sensors : List (Name × (Bytes × Bytes))
two_sensors = ((82 ∷ []), ((1 ∷ []), (2 ∷ []))) ∷ ((83 ∷ []), ((3 ∷ []), (4 ∷ 5 ∷ []))) ∷ []

split_parts-parts_for_example : split_parts (parts_for two_sensors) ≡ ok two_sensors
split_parts-parts_for_example = split_parts-parts_for two_sensors (ground arith)
