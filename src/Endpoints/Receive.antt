-- ===== src/Endpoints/Receive.antt =====
-- The body of a push in server.py, `_receive_and_dispatch` up to the layout: chunks that are copied
-- into the flight's shared block, one behind the other.
use donut_server.Prelude.{
  ℕ, ◌+◌, ◌*◌, Bool, true, false, Option, none, some, List, [], ◌∷◌, ◌++◌, if◌then◌else◌, ltb, leb,
  length, take, drop,
}
use donut_server.Bytes.{Bytes, Codec}
use donut_server.Protocol as Wire
use donut_server.Protocol.{PartLayout, header_size, parse_header, parse_layout, is_protocol_error}

-- MAX_PUSH_BYTES
abbrev pub max_push_bytes : ℕ
max_push_bytes = 512 * 1024 * 1024

-- How the reception ends. Before the job is RECEIVING: refused, for its size or not. Then: for its
-- size, or by an exception that nothing catches, with the job left RECEIVING; for its layout; or with
-- the layout, and what the block holds.
pub data Reception : Type 0 where
  refused_early : Bool → Reception
  stranded : Bool → Reception
  bad_layout : Wire.Error → Reception
  received : List PartLayout → Bytes → Reception

-- `absorb`; `none` is the 413
unfoldable pub absorb : Bytes → ℕ → Bytes → Option (Bytes × ℕ)
absorb view at chunk =
    let end = at + length chunk in
    if ltb (length view) end then none else some (take at view ++ (chunk ++ drop end view), end)

-- the loop that stops behind the header, with the chunks that it leaves
unfoldable pub receive_header : Bytes → ℕ → List Bytes → Option (Bytes × ℕ × List Bytes)
unfolding absorb
receive_header view at [] = some (view, at, [])
receive_header view at (chunk ∷ chunks) = elim (absorb view at chunk) [
  | none ↦ none
  | some r ↦ if leb header_size r.1 then some (r.0, r.1, chunks) else receive_header r.0 r.1 chunks
]

-- the loop over what is left
unfoldable pub receive_rest : Bytes → ℕ → List Bytes → Option (Bytes × ℕ)
unfolding absorb
receive_rest view at [] = some (view, at)
receive_rest view at (chunk ∷ chunks) = elim (absorb view at chunk) [
  | none ↦ none
  | some r ↦ receive_rest r.0 r.1 chunks
]

unfoldable pub lay_out : Codec → Bytes → ℕ → Reception
lay_out c view at = elim (parse_layout c (take at view)) [
  | Wire.ok layout ↦ received layout view
  | Wire.err why ↦ if is_protocol_error why then bad_layout why else stranded false
]

unfoldable pub receive : Codec → Bytes → List Bytes → Reception
unfolding receive_header receive_rest lay_out
receive c view chunks = elim (receive_header view 0 chunks) [
  | none ↦ refused_early true
  | some r ↦
      if ltb r.1 header_size
      then refused_early false
      else elim (parse_header (take header_size r.0)) [
        | Wire.err why ↦ refused_early false
        | Wire.ok header ↦
            if ltb max_push_bytes header.payload_length
            then refused_early true
            else elim (receive_rest r.0 r.1 r.2) [
              | none ↦ stranded true
              | some q ↦ lay_out c q.0 q.1
            ]
      ]
]
