-- ===== src/Protocol/RoundTrip.antt =====
-- What `pack_blob` writes, `parse_layout` and `unpack_blob` read back.
use donut_server.Prelude.{
  ℕ, ◌+◌, ◌^◌, ◌≤◌, ◌<◌, ◌≡◌, refl, ap, ◌∙◌, true, List, [], ◌∷◌, ◌++◌, length, take, drop, arith,
  append_assoc, length-append, length-drop, drop-append_length, take-append_length, ◌⊎◌, inl, inr,
}
use donut_server.Bytes.{
  Bytes, Name, Codec, name_eq, list_eqb, slice, big_endian, of_bytes, of_bytes-big_endian, drop-add,
  of_bytes_single,
}
use donut_server.Protocol.{
  Error, Result, ok, err, ◌>>=◌, magic, version, header_size, desc_fixed_size, Entry, pack_header,
  parse_header, pack_descriptor, pack_descriptors, raw_data, parse_entries,
}

module _ {ℓ κ} {A : Type ℓ} {B : Type κ} where
  pub >>=-eq-ok :
      (step : Result A) (next : A → Result B) {b : B}
      → (step >>= next) ≡ ok b
      → (a : A) × (step ≡ ok a) × (next a ≡ ok b)
  >>=-eq-ok (err why) next h = cc
  >>=-eq-ok (ok a) next h = (a, refl, h)

module _ {ℓ} {A : Type ℓ} where
  pub Result-cases :
      (step : Result A) → ((a : A) × (step ≡ ok a)) ⊎ ((why : Error) × (step ≡ err why))
  Result-cases (err why) = inr (why, refl)
  Result-cases (ok a) = inl (a, refl)

pub pack_header-ok :
    (count payload : ℕ) (header : Bytes)
    → pack_header count payload ≡ ok header
    → (header ≡ magic ++ (big_endian 2 version ++ (big_endian 2 count ++ big_endian 8 payload)))
      × (count < 256 ^ 2)
      × (payload < 256 ^ 8)
unfolding pack_header
pack_header-ok count payload header h = ground arith

parse_header_fields :
    (count payload : ℕ) (rest : Bytes)
    → count < 256 ^ 2
    → payload < 256 ^ 8
    → parse_header (
        take header_size (
          (magic ++ (big_endian 2 version ++ (big_endian 2 count ++ big_endian 8 payload)))
          ++ rest))
      ≡ ok (record { version_found = version; part_count = count; payload_length = payload })
unfolding parse_header slice big_endian list_eqb of_bytes
parse_header_fields count payload rest hc hp = λ i. ok (record {
  version_found = version;
  part_count = of_bytes-big_endian 2 count hc i;
  payload_length = of_bytes-big_endian 8 payload hp i;
})

-- A header that was packed parses to its fields, whatever follows it.
pub parse_header-pack_header :
    (count payload : ℕ) (header rest : Bytes)
    → pack_header count payload ≡ ok header
    → parse_header (take header_size (header ++ rest))
      ≡ ok (record { version_found = version; part_count = count; payload_length = payload })
parse_header-pack_header count payload header rest h =
    let (shape, hc, hp) = pack_header-ok count payload header h in
    rw shape (parse_header_fields count payload rest hc hp)

pub length-pack_header :
    (count payload : ℕ) (header : Bytes)
    → pack_header count payload ≡ ok header
    → length header ≡ header_size
unfolding big_endian
length-pack_header count payload header h = rw (pack_header-ok count payload header h).0

module _ (c : Codec) where
  -- the shape of a packed descriptor
  pub pack_descriptor-ok :
      (name : Name) (offset size : ℕ) (d : Bytes)
      → pack_descriptor c (name, offset, size) ≡ ok d
      → (d ≡ length (c.encode name) ∷ (big_endian 8 offset ++ (big_endian 8 size ++ c.encode name)))
        × (length (c.encode name) < 256)
        × (offset < 256 ^ 8)
        × (size < 256 ^ 8)
        × (c.can_encode name ≡ true)
  unfolding pack_descriptor
  pack_descriptor-ok name offset size d h = ground arith

  -- the entries that the loop of `pack_blob` writes, and the size of the payload
  abbrev pub entries_from : List (Name × Bytes) → ℕ → List Entry
  entries_from [] offset = []
  entries_from ((name, payload) ∷ parts) offset =
      (name, offset, length payload) ∷ entries_from parts (offset + length payload)

  -- One descriptor at `pos`: the fixed part, the name, and what follows.
  pub parse_descriptor :
      (name : Name) (offset size pos : ℕ) (blob d rest : Bytes)
      → pack_descriptor c (name, offset, size) ≡ ok d
      → drop pos blob ≡ d ++ rest
      → (take 1 (slice blob pos desc_fixed_size) ≡ length (c.encode name) ∷ [])
        × (of_bytes (slice (slice blob pos desc_fixed_size) 1 8) ≡ offset)
        × (of_bytes (slice (slice blob pos desc_fixed_size) 9 8) ≡ size)
        × (slice blob (pos + desc_fixed_size) (length (c.encode name)) ≡ c.encode name)
        × (drop (pos + desc_fixed_size + length (c.encode name)) blob ≡ rest)
        × (pos + desc_fixed_size + length (c.encode name) ≤ length blob)
        × (length d ≡ desc_fixed_size + length (c.encode name))
  unfolding slice big_endian
  parse_descriptor name offset size pos blob d rest h at =
      let (shape, hn, ho, hs, _) = pack_descriptor-ok name offset size d h in
      let n : Bytes = c.encode name in
      let p : drop pos blob
          ≡ (length n ∷ (big_endian 8 offset ++ (big_endian 8 size ++ n))) ++ rest =
        rw shape at at in
      let q : drop (pos + desc_fixed_size) blob ≡ n ++ rest = rw (drop-add, p) in
      let r : drop (pos + desc_fixed_size + length n) blob ≡ rest =
        rw (drop-add (pos + desc_fixed_size), q) (drop-append_length n rest) in
      (
        rw p,
        rw p (of_bytes-big_endian 8 offset ho),
        rw p (of_bytes-big_endian 8 size hs),
        rw q (take-append_length n rest),
        r,
        omega (arith, ap length p, length-drop pos blob, length-append n rest),
        rw shape (omega arith),
      )

  -- the parts of a successful run of the packing loop
  pub pack_descriptors-ok :
      (name : Name) (payload : Bytes) (parts : List (Name × Bytes)) (offset : ℕ) (ds : Bytes)
      (end : ℕ)
      → pack_descriptors c ((name, payload) ∷ parts) offset ≡ ok (ds, end)
      → (d : Bytes) × (ds' : Bytes) × (pack_descriptor c (name, offset, length payload) ≡ ok d)
        × (pack_descriptors c parts (offset + length payload) ≡ ok (ds', end))
        × (ds ≡ d ++ ds')
  unfolding pack_descriptors
  pack_descriptors-ok name payload parts offset ds end h =
      let (d, hd, h') = >>=-eq-ok (pack_descriptor c (name, offset, length payload)) _ h in
      let (r, hr, h'') = >>=-eq-ok (pack_descriptors c parts (offset + length payload)) _ h' in
      (d, r.0, hd, ground arith, ground arith)

  pub pack_descriptors-end :
      (parts : List (Name × Bytes)) (offset : ℕ) (ds : Bytes) (end : ℕ)
      → pack_descriptors c parts offset ≡ ok (ds, end)
      → end ≡ offset + length (raw_data parts)
  unfolding pack_descriptors
  pack_descriptors-end [] offset ds end h = ground arith
  pack_descriptors-end ((name, payload) ∷ parts) offset ds end h =
      let (d, ds', hd, hs, e) = pack_descriptors-ok name payload parts offset ds end h in
      omega (
        arith,
        pack_descriptors-end parts (offset + length payload) ds' end hs,
        length-append payload (raw_data parts),
      )

  -- The descriptors that were packed parse to their names, offsets and sizes.
  pub parse_entries-pack_descriptors :
      (parts : List (Name × Bytes)) (offset pos : ℕ) (blob ds rest : Bytes) (end : ℕ)
      → pack_descriptors c parts offset ≡ ok (ds, end)
      → drop pos blob ≡ ds ++ rest
      → parse_entries c (length parts) pos blob ≡ ok (entries_from parts offset, pos + length ds)
  unfolding parse_entries pack_descriptors
  parse_entries-pack_descriptors [] offset pos blob ds rest end h at = ground arith
  parse_entries-pack_descriptors ((name, payload) ∷ parts) offset pos blob ds rest end h at =
      let (d, ds', hd, hs, e) = pack_descriptors-ok name payload parts offset ds end h in
      let (len, off, size, text, next, fits, dlen) =
        parse_descriptor name offset (length payload) pos blob d (ds' ++ rest) hd
          (at ∙ (rw (e, append_assoc))) in
      let ih =
        parse_entries-pack_descriptors parts (offset + length payload)
          (pos + desc_fixed_size + length (c.encode name)) blob ds' rest end hs next in
      let encoded = (pack_descriptor-ok name offset (length payload) d hd).4 in
      ground (
        arith,
        of_bytes_single (length (c.encode name)),
        c.decode-encode name encoded,
        length-append d ds',
      )
