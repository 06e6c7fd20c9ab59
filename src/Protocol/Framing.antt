-- ===== src/Protocol/Framing.antt =====
-- `build_framing` and `descriptor_region_size` of protocol.py: the prefix for a producer that
-- writes each part in place.
use donut_server.Prelude.{
  ℕ, ◌+◌, ◌≡◌, refl, ◌∙◌, Option, none, some, List, [], ◌∷◌, ◌++◌, length, lookup, put, max, arith,
  keys, Distinct, In, inl, inr, lookup-put, Bool-cases, length-append, ==_refl,
}
use donut_server.Bytes.{Bytes, Name, Codec, name_eq, list_eqb, list_eqb_iff}
use donut_server.Protocol.{
  Result, ok, err, ◌>>=◌, key_error, value_error, no_offset, header_size, pack_header,
  pack_descriptor, raw_data,
}

abbrev pub Offsets : Type 0
Offsets = List (Name × ℕ)

-- offsets[name]
unfoldable pub offset_of : Offsets → Name → Result ℕ
offset_of offsets name = elim (lookup name offsets) [ none ↦ err key_error | some at ↦ ok at ]

-- the loop for `offsets is None`, and the cursor after it
unfoldable pub assign_offsets : Offsets → List (Name × ℕ) → ℕ → Offsets × ℕ
assign_offsets offsets [] cursor = (offsets, cursor)
assign_offsets offsets ((name, size) ∷ sizes) cursor =
    assign_offsets (put name cursor offsets) sizes (cursor + size)

-- missing = [name for name in names if name not in offsets]
unfoldable pub missing_names : Offsets → List (Name × ℕ) → List Name
missing_names offsets [] = []
missing_names offsets ((name, size) ∷ sizes) = elim (lookup name offsets) [
  | none ↦ name ∷ missing_names offsets sizes
  | some _ ↦ missing_names offsets sizes
]

-- max(offsets[name] + sizes[name] for name in names), which fails with no names
unfoldable pub covering_length : Offsets → List (Name × ℕ) → Result ℕ
covering_length offsets [] = err value_error
covering_length offsets ((name, size) ∷ []) = do at ← offset_of offsets name; ok (at + size)
covering_length offsets ((name, size) ∷ next ∷ sizes) = do
  at ← offset_of offsets name
  rest ← covering_length offsets (next ∷ sizes)
  ok (max (at + size) rest)

-- the offsets to use and the payload's length
unfoldable pub choose_offsets : List (Name × ℕ) → Option Offsets → Result (Offsets × ℕ)
choose_offsets sizes none = ok (assign_offsets [] sizes 0)
choose_offsets sizes (some offsets) = elim (missing_names offsets sizes) [
  | [] ↦ do payload_length ← covering_length offsets sizes; ok (offsets, payload_length)
  | _ ∷ _ ↦ err no_offset
]

-- {name: data_start + offsets[name] for name in names}
unfoldable pub absolute_offsets : ℕ → Offsets → List (Name × ℕ) → Result Offsets
absolute_offsets data_start offsets [] = ok []
absolute_offsets data_start offsets ((name, size) ∷ sizes) = do
  at ← offset_of offsets name
  rest ← absolute_offsets data_start offsets sizes
  ok ((name, data_start + at) ∷ rest)

module _ (c : Codec) where
  -- the descriptor loop of `build_framing`
  unfoldable pub frame_descriptors : Offsets → List (Name × ℕ) → Result Bytes
  frame_descriptors offsets [] = ok []
  frame_descriptors offsets ((name, size) ∷ sizes) = do
    at ← offset_of offsets name
    descriptor ← pack_descriptor c (name, at, size)
    descriptors ← frame_descriptors offsets sizes
    ok (descriptor ++ descriptors)

  -- the framing, the absolute offsets and the size of the whole blob
  unfoldable pub build_framing : List (Name × ℕ) → Option Offsets → Result (Bytes × Offsets × ℕ)
  build_framing sizes pinned = do
    (offsets, payload_length) ← choose_offsets sizes pinned
    descriptors ← frame_descriptors offsets sizes
    header ← pack_header (length sizes) payload_length
    let data_start = header_size + length descriptors
    absolute ← absolute_offsets data_start offsets sizes
    ok (header ++ descriptors, absolute, data_start + payload_length)

-- the sizes of the parts, as the mapping that `build_framing` takes
abbrev pub sizes_of : List (Name × Bytes) → List (Name × ℕ)
sizes_of [] = []
sizes_of ((name, payload) ∷ parts) = (name, length payload) ∷ sizes_of parts

-- the offsets hold `cursor` for the first name, the end of its part for the second, and so on
abbrev pub Tiles : Offsets → List (Name × ℕ) → ℕ → Type 0
Tiles offsets [] cursor = Unit
Tiles offsets ((name, size) ∷ sizes) cursor =
    (lookup name offsets ≡ some cursor) × Tiles offsets sizes (cursor + size)

lookup-assign_offsets :
    (name : Name) (offsets : Offsets) (sizes : List (Name × ℕ)) (cursor : ℕ)
    → ¬ In name (keys sizes)
    → lookup name (assign_offsets offsets sizes cursor).0 ≡ lookup name offsets
unfolding assign_offsets
lookup-assign_offsets name offsets [] cursor absent = refl
lookup-assign_offsets name offsets ((n, size) ∷ sizes) cursor absent =
    lookup-assign_offsets name (put n cursor offsets) sizes (cursor + size) (λ m. absent (inr m))
    ∙ rw lookup-put (elim (Bool-cases (list_eqb n name)) [
      | inl same ↦ absurd (absent (inl ((list_eqb_iff n name).0 same)))
      | inr other ↦ rw other
    ])

pub assign_offsets-Tiles :
    (offsets : Offsets) (sizes : List (Name × ℕ)) (cursor : ℕ)
    → Distinct (keys sizes)
    → Tiles (assign_offsets offsets sizes cursor).0 sizes cursor
unfolding assign_offsets
assign_offsets-Tiles offsets [] cursor d = tt
assign_offsets-Tiles offsets ((name, size) ∷ sizes) cursor d = (
  lookup-assign_offsets name (put name cursor offsets) sizes (cursor + size) d.0
      ∙ rw (lookup-put, ==_refl ⦃e = name_eq⦄ name),
  assign_offsets-Tiles (put name cursor offsets) sizes (cursor + size) d.1,
)

pub assign_offsets-end :
    (offsets : Offsets) (parts : List (Name × Bytes)) (cursor : ℕ)
    → (assign_offsets offsets (sizes_of parts) cursor).1 ≡ cursor + length (raw_data parts)
unfolding assign_offsets
assign_offsets-end offsets [] cursor = omega arith
assign_offsets-end offsets ((name, payload) ∷ parts) cursor = omega (
  arith,
  assign_offsets-end (put name cursor offsets) parts (cursor + length payload),
  length-append payload (raw_data parts),
)
