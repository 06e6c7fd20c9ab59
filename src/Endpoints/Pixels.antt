-- ===== src/Endpoints/Pixels.antt =====
-- A push of server.py from the producer's blob to the coordinator's exposures: protocol.py, the chunks
-- of the body, the shared block and `reconstruct_exposures` of coordinator.py together.
use donut_server.Prelude.{
  ℕ, ◌+◌, ◌≤◌, ◌≡◌, refl, sym, ap, ap₂, ◌∙◌, inl, inr, List, [], ◌++◌, arith, if◌then◌else◌, length,
  take, take_shorter, drop, length-append, append-nil, take-append_length, length-drop, le→ltb,
  keys, Distinct,
}
use donut_server.Bytes.{Bytes, Name, Codec, drop-add}
use donut_server.Protocol as Wire
use donut_server.Protocol.{
  PartLayout, HeaderInfo, header_size, parse_header, parse_layout, pack_blob,
}
use donut_server.Protocol.Parts.{parts_for}
use donut_server.Endpoints.Receive.{received, max_push_bytes, lay_out, receive}
use donut_server.Endpoints.Chunks.{join, receive_header-append, receive_rest-append}
use donut_server.Coordinator.{Library}
use donut_server.Serve.{Science, decode_all, reconstruct_exposures}
use donut_server.Serve.Decoded.{take-drop-append, reconstruct_exposures-pack_blob}

parse_header-length :
    (b : Bytes) (info : HeaderInfo) → parse_header b ≡ Wire.ok info → header_size ≤ length b
unfolding parse_header
parse_header-length b info h = ground arith

module _ (c : Codec) where
  -- a body that fits, with its header and its layout
  receive-join :
      (view : Bytes) (chunks : List Bytes) (info : HeaderInfo) (layout : List PartLayout)
      → length (join chunks) ≤ length view
      → parse_header (take header_size (join chunks)) ≡ Wire.ok info
      → info.payload_length ≤ max_push_bytes
      → parse_layout c (join chunks) ≡ Wire.ok layout
      → receive c view chunks ≡ received layout (join chunks ++ drop (length (join chunks)) view)
  unfolding receive lay_out
  receive-join view chunks info layout fits header small parsed =
      let (taken, rest, e, split, stop) = receive_header-append chunks [] view fits in
      let long : header_size ≤ length (join chunks) = omega (
        arith,
        parse_header-length (take header_size (join chunks)) info header,
        take_shorter header_size (join chunks),
      ) in
      let enough : header_size ≤ length taken = elim stop [
        | inl none_left ↦ omega (
          arith,
          long,
          ap length (split ∙ ap (λ r. taken ++ join r) none_left ∙ append-nil taken),
        )
        | inr l ↦ l
      ] in
      let tail = drop (length taken) view in
      let size = length-append taken (join rest) in
      let same_size : length (join chunks) ≡ length taken + length (join rest) =
        ap length split ∙ size in
      let seen : take header_size (taken ++ tail) ≡ take header_size (join chunks) =
        take-drop-append taken tail 0 header_size enough
        ∙ sym (take-drop-append taken (join rest) 0 header_size enough)
        ∙ ap (take header_size) (sym split) in
      let head : parse_header (take header_size (taken ++ tail)) ≡ Wire.ok info =
        ap parse_header seen ∙ header in
      let more =
        receive_rest-append rest taken tail
          (omega (arith, length-drop (length taken) view, same_size)) in
      let block : (taken ++ join rest) ++ drop (length (join rest)) tail
          ≡ join chunks ++ drop (length (join chunks)) view =
        rw (same_size, drop-add (length taken) (length (join rest)) view, split) refl in
      rw
        (
          e,
          receive,
          le→ltb (length taken) header_size enough,
          if◌then◌else◌,
          head,
          le→ltb max_push_bytes info.payload_length small,
          more,
        )
        (ap₂ (lay_out c) block (ap length (sym split))
          ∙ rw
              (take-append_length (join chunks) (drop (length (join chunks)) view), lay_out, parsed)
              refl)

module _ (l : Library) (s : Science l) (c : Codec) where
  -- When the body of a push is, in whatever chunks, a blob that a producer packed of its sensors, that
  -- fits into the flight's block and whose header's length is not too large, the reception ends with a
  -- layout and a block from which the coordinator gets the exposures that the sensors decode to, one
  -- by one. The sensors' names differ, also with the suffixes of their parts.
  pub receive-reconstruct_exposures :
      (sensors : List (Name × (Bytes × Bytes))) (view : Bytes) (chunks : List Bytes)
      (info : HeaderInfo) (layout : List PartLayout)
      → Distinct (keys sensors)
      → Distinct (keys (parts_for sensors))
      → pack_blob c (parts_for sensors) ≡ Wire.ok (join chunks)
      → length (join chunks) ≤ length view
      → parse_header (take header_size (join chunks)) ≡ Wire.ok info
      → info.payload_length ≤ max_push_bytes
      → parse_layout c (join chunks) ≡ Wire.ok layout
      → (block : Bytes) × (receive c view chunks ≡ received layout block)
        × (length block ≡ length view)
        × (reconstruct_exposures l s block layout ≡ decode_all l s sensors)
  receive-reconstruct_exposures sensors view chunks info layout d d' packed fits header small
        parsed =
      let n : ℕ = length (join chunks) in
      (
        join chunks ++ drop n view,
        receive-join c view chunks info layout fits header small parsed,
        omega (arith, length-append (join chunks) (drop n view), length-drop n view),
        reconstruct_exposures-pack_blob l s c sensors (join chunks) (drop n view) layout d d' packed
            parsed,
      )
