-- ===== src/Serve/Decoded.antt =====
-- The pixels of a push from the producer's blob, through the shared block, to the exposures of
-- coordinator.py.
use donut_server.Prelude.{
  ℕ, zero, suc, ◌+◌, ◌≤◌, ◌≡◌, refl, ap, ◌∙◌, List, [], ◌∷◌, ◌++◌, arith, length, take, drop, keys,
  Distinct, All, put,
}
use donut_server.Bytes.{Bytes, Name, Codec, slice, name_eq}
use donut_server.Protocol as Wire
use donut_server.Protocol.{
  PartLayout, collect_parts, pack_blob, parse_layout, unpack_blob, header_size,
}
use donut_server.Protocol.Parts.{parts_for, split_parts-parts_for}
use donut_server.Protocol.Blob.{unpack_blob-pack_blob}
use donut_server.Protocol.Bounds.{Within, parse_layout-Within}
use donut_server.Exec.{on_ok}
use donut_server.Coordinator.{Library}
use donut_server.Serve.{Science, of_result, decode_all, reconstruct_exposures}

-- what lies within the first bytes is read from them alone
pub take-drop-append :
    (xs ys : Bytes) (start count : ℕ)
    → start + count ≤ length xs
    → take count (drop start (xs ++ ys)) ≡ take count (drop start xs)
take-drop-append xs ys zero zero h = refl
take-drop-append [] ys zero (suc count) h = absurd (omega arith)
take-drop-append (x ∷ xs) ys zero (suc count) h =
    ap (◌∷◌ x) (take-drop-append xs ys zero count (omega arith))
take-drop-append [] ys (suc start) count h = absurd (omega arith)
take-drop-append (x ∷ xs) ys (suc start) count h = take-drop-append xs ys start count (omega arith)

collect_parts-append :
    (layout : List PartLayout) (found : List (Name × Bytes)) (low : ℕ) (blob rest : Bytes)
    → All (Within low (length blob)) layout
    → collect_parts (blob ++ rest) found layout ≡ collect_parts blob found layout
unfolding collect_parts slice
collect_parts-append [] found low blob rest h = refl
collect_parts-append (part ∷ layout) found low blob rest h =
    ap (λ v. collect_parts (blob ++ rest) (put part.name v found) layout)
      (take-drop-append blob rest part.offset part.byte_count h.0.1)
    ∙ collect_parts-append layout _ low blob rest h.1

unpacked :
    (c : Codec) (parts : List (Name × Bytes)) (blob : Bytes) (layout : List PartLayout)
    → Distinct (keys parts)
    → pack_blob c parts ≡ Wire.ok blob
    → parse_layout c blob ≡ Wire.ok layout
    → collect_parts blob [] layout ≡ parts
unfolding unpack_blob
unpacked c parts blob layout d packed parsed =
    let whole : unpack_blob c blob ≡ Wire.ok parts = unpack_blob-pack_blob c parts blob d packed in
    ground (arith, whole, parsed)

module _ (l : Library) (s : Science l) (c : Codec) where
  -- The sensors of a blob that a producer packed come out of the shared block, at the layout that its
  -- framing has, as they would decode one by one, whatever the block holds after the blob. Names
  -- differ, also with their suffixes.
  pub reconstruct_exposures-pack_blob :
      (sensors : List (Name × (Bytes × Bytes))) (blob rest : Bytes) (layout : List PartLayout)
      → Distinct (keys sensors)
      → Distinct (keys (parts_for sensors))
      → pack_blob c (parts_for sensors) ≡ Wire.ok blob
      → parse_layout c blob ≡ Wire.ok layout
      → reconstruct_exposures l s (blob ++ rest) layout ≡ decode_all l s sensors
  unfolding reconstruct_exposures of_result
  reconstruct_exposures-pack_blob sensors blob rest layout d d' packed parsed =
      let found : collect_parts (blob ++ rest) [] layout ≡ parts_for sensors =
        collect_parts-append layout [] header_size blob rest
          (parse_layout-Within c blob layout parsed).0
        ∙ unpacked c (parts_for sensors) blob layout d' packed parsed in
      rw (found, split_parts-parts_for sensors d, of_result, on_ok) refl
