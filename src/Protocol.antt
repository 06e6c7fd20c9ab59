-- ===== src/Protocol.antt =====
-- protocol.py (python/lsst/ts/donut_server/protocol.py): the framing of a push, packed and parsed.
-- The children prove the round trip, the bounds of a parsed layout and the in-place framing.
pub mod RoundTrip
pub mod Blob
pub mod Framing
pub mod InPlace
pub mod Pinned
pub mod Parts
pub mod Bounds
use donut_server.Prelude.{
  ℕ, zero, suc, ◌+◌, ◌^◌, ◌≡◌, Bool, true, false, not, Option, none, some, List, [], ◌∷◌, ◌++◌, map,
  ltb, if◌then◌else◌, length, take, drop, Eq, ◌==◌, eqb, lookup, put, max,
}
use donut_server.Bytes.{Bytes, Name, Codec, name_eq, list_eqb, slice, big_endian, of_bytes}

-- The reasons of `ProtocolError`, and the other exceptions that the code lets out.
pub data Error : Type 0 where
  short_header bad_magic bad_version truncated_descriptor short_blob past_payload : Error
  name_too_long no_offset no_suffix missing_part : Error
  struct_error unicode_error value_error key_error : Error

-- `except protocol.ProtocolError` catches these.
unfoldable pub is_protocol_error : Error → Bool
is_protocol_error struct_error = false
is_protocol_error unicode_error = false
is_protocol_error value_error = false
is_protocol_error key_error = false
is_protocol_error _ = true

pub data Result {ℓ} (A : Type ℓ) : Type ℓ where
  err : Error → Result A
  ok : A → Result A

module _ {ℓ κ} {A : Type ℓ} {B : Type κ} where
  infixl 5 ◌>>=◌
  abbrev pub ◌>>=◌ : Result A → (A → Result B) → Result B
  err why >>= next = err why
  ok a >>= next = next a

module _ {ℓ} {B : Type ℓ} where
  infixl 5 ◌>>◌
  abbrev pub ◌>>◌ : Result (Unit {0}) → Result B → Result B
  test >> rest = test >>= λ _. rest

-- if not test: raise error
abbrev pub check : Bool → Error → Result (Unit {0})
check true e = ok tt
check false e = err e

-- b"DWFS"
abbrev pub magic : Bytes
magic = 0x44 ∷ 0x57 ∷ 0x46 ∷ 0x53 ∷ []

abbrev pub version : ℕ
version = 2

-- ">4sHHQ" and ">BQQ"
abbrev pub header_size : ℕ
header_size = 16

abbrev pub desc_fixed_size : ℕ
desc_fixed_size = 17

pub record HeaderInfo : Type 0 where
  pub version_found : ℕ
  pub part_count : ℕ
  pub payload_length : ℕ

pub record PartLayout : Type 0 where
  pub name : Name
  pub offset : ℕ
  pub byte_count : ℕ

-- one descriptor as it stands on the wire: its name, its offset in the payload, its size
abbrev pub Entry : Type 0
Entry = Name × ℕ × ℕ

-- one unsigned field of struct.pack, which raises struct.error on a number that does not fit
unfoldable pub pack_uint : ℕ → ℕ → Result Bytes
pack_uint width n = if ltb n (256 ^ width) then ok (big_endian width n) else err struct_error

unfoldable pub pack_header : ℕ → ℕ → Result Bytes
unfolding pack_uint
pack_header part_count payload_length = do
  count ← pack_uint 2 part_count
  payload ← pack_uint 8 payload_length
  ok (magic ++ (big_endian 2 version ++ (count ++ payload)))

unfoldable pub parse_header : Bytes → Result HeaderInfo
parse_header prefix =
    let found = of_bytes (slice prefix 4 2) in
    if ltb (length prefix) header_size
    then err short_header
    else if list_eqb (take 4 prefix) magic
    then (if eqb found version
        then ok (record {
          version_found = found;
          part_count = of_bytes (slice prefix 6 2);
          payload_length = of_bytes (slice prefix 8 8);
        })
        else err bad_version)
    else err bad_magic

-- b"".join(parts[name] for name in names)
abbrev pub raw_data : List (Name × Bytes) → Bytes
raw_data [] = []
raw_data ((name, payload) ∷ parts) = payload ++ raw_data parts

-- the loop that makes the offsets absolute
unfoldable pub place_entries : ℕ → ℕ → List Entry → Result (List PartLayout)
place_entries data_start payload_end [] = ok []
place_entries data_start payload_end ((name, offset, size) ∷ entries) =
    let rest = place_entries data_start payload_end entries in
    if ltb payload_end (data_start + offset + size) then err past_payload else do
      layout ← rest
      ok (record { name = name; offset = data_start + offset; byte_count = size } ∷ layout)

-- the dict comprehension of `unpack_blob`
unfoldable pub collect_parts : Bytes → List (Name × Bytes) → List PartLayout → List (Name × Bytes)
collect_parts blob found [] = found
collect_parts blob found (part ∷ layout) =
    collect_parts blob (put part.name (slice blob part.offset part.byte_count) found) layout

module _ (c : Codec) where
  -- the body of the loops of `pack_blob` and `build_framing`: one descriptor
  unfoldable pub pack_descriptor : Entry → Result Bytes
  unfolding pack_uint
  pack_descriptor (name, offset, size) =
      let name_bytes = c.encode name in
      if not (c.can_encode name)
      then err unicode_error
      else if ltb 255 (length name_bytes)
      then err name_too_long
      else do
        at ← pack_uint 8 offset
        count ← pack_uint 8 size
        ok (length name_bytes ∷ (at ++ (count ++ name_bytes)))

  unfoldable pub descriptor_region_size : List Name → Result ℕ
  descriptor_region_size [] = ok 0
  descriptor_region_size (name ∷ names) =
      let name_bytes = c.encode name in
      let rest = descriptor_region_size names in
      if not (c.can_encode name)
      then err unicode_error
      else if ltb 255 (length name_bytes)
      then err name_too_long
      else do total ← rest; ok (desc_fixed_size + length name_bytes + total)

  -- the loop of `pack_blob`; it returns `raw_offset` after the last part too
  unfoldable pub pack_descriptors : List (Name × Bytes) → ℕ → Result (Bytes × ℕ)
  pack_descriptors [] raw_offset = ok ([], raw_offset)
  pack_descriptors ((name, payload) ∷ parts) raw_offset = do
    descriptor ← pack_descriptor (name, raw_offset, length payload)
    (descriptors, end) ← pack_descriptors parts (raw_offset + length payload)
    ok (descriptor ++ descriptors, end)

  unfoldable pub pack_blob : List (Name × Bytes) → Result Bytes
  pack_blob parts = do
    (descriptors, payload_length) ← pack_descriptors parts 0
    header ← pack_header (length parts) payload_length
    ok (header ++ (descriptors ++ raw_data parts))

  -- the descriptor loop of `parse_layout`, with the position after the last one
  unfoldable pub parse_entries : ℕ → ℕ → Bytes → Result (List Entry × ℕ)
  parse_entries zero pos blob = ok ([], pos)
  parse_entries (suc n) pos blob =
      let fixed = slice blob pos desc_fixed_size in
      let name_len = of_bytes (take 1 fixed) in
      let next = pos + desc_fixed_size + name_len in
      let rest = parse_entries n next blob in
      if ltb (length blob) (pos + desc_fixed_size)
      then err truncated_descriptor
      else elim (c.decode (slice blob (pos + desc_fixed_size) name_len)) [
        | none ↦ err unicode_error
        | some name ↦ do
          (entries, data_start) ← rest
          ok ((name, of_bytes (slice fixed 1 8), of_bytes (slice fixed 9 8)) ∷ entries, data_start)
      ]

  unfoldable pub parse_layout : Bytes → Result (List PartLayout)
  parse_layout blob = do
    info ← parse_header (take header_size blob)
    (entries, data_start) ← parse_entries info.part_count header_size blob
    check (if ltb (length blob) (data_start + info.payload_length) then false else true) short_blob
    place_entries data_start (data_start + info.payload_length) entries

  unfoldable pub unpack_blob : Bytes → Result (List (Name × Bytes))
  unpack_blob blob = do layout ← parse_layout blob; ok (collect_parts blob [] layout)
