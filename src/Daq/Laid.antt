-- ===== src/Daq/Laid.antt =====
-- Where the encoder of daq.py lays parts, against the offsets of protocol.py.
use donut_server.Prelude.{
  ℕ, ◌+◌, ◌≡◌, refl, sym, ap, subst, ◌∙◌, inl, inr, List, [], ◌∷◌, ◌++◌, arith, In, length,
  length-append, keys, Distinct, put_absent, append-nil, append_assoc, Fresh, Fresh-put,
}
use donut_server.Bytes.{Bytes, Name, Codec, name_eq}
use donut_server.Protocol.{raw_data}
use donut_server.Protocol.Framing.{Offsets, Tiles, sizes_of, assign_offsets}
use donut_server.Protocol.Pinned.{total_size, region}
use donut_server.Daq.Encode.{Laid, lay}

-- parts laid one after another
unfoldable pub lay_all : List (Name × ℕ) → Laid → Laid
lay_all [] laid = laid
lay_all ((part, size) ∷ parts) laid = lay_all parts (lay part size laid)

pub lay_all-append :
    (xs ys : List (Name × ℕ)) (laid : Laid) → lay_all (xs ++ ys) laid ≡ lay_all ys (lay_all xs laid)
unfolding lay_all
lay_all-append [] ys laid = refl
lay_all-append ((part, size) ∷ xs) ys laid = lay_all-append xs ys (lay part size laid)

-- the offsets are those that `build_framing` would choose, and the sizes are the parts' own
pub lay_all_offsets :
    (xs : List (Name × ℕ)) (laid : Laid)
    → (lay_all xs laid).offsets ≡ (assign_offsets laid.offsets xs laid.cursor).0
unfolding lay_all lay assign_offsets
lay_all_offsets [] laid = refl
lay_all_offsets ((part, size) ∷ xs) laid = lay_all_offsets xs (lay part size laid)

pub lay_all_sizes :
    (xs : List (Name × ℕ)) (laid : Laid)
    → Distinct (keys xs)
    → Fresh laid.sizes xs
    → (lay_all xs laid).sizes ≡ laid.sizes ++ xs
unfolding lay_all lay
lay_all_sizes [] laid d fresh = sym (append-nil laid.sizes)
lay_all_sizes ((part, size) ∷ xs) laid d fresh =
    lay_all_sizes xs (lay part size laid) d.1 (Fresh-put part size laid.sizes xs d.0 fresh.1)
    ∙ ap (λ s. s ++ xs) (put_absent part size laid.sizes fresh.0)
    ∙ append_assoc laid.sizes ((part, size) ∷ []) xs

pub sizes_of-append :
    (xs ys : List (Name × Bytes)) → sizes_of (xs ++ ys) ≡ sizes_of xs ++ sizes_of ys
sizes_of-append [] ys = refl
sizes_of-append ((name, bs) ∷ xs) ys = ap (λ s. (name, length bs) ∷ s) (sizes_of-append xs ys)

pub total_size-sizes_of :
    (xs : List (Name × Bytes)) → total_size (sizes_of xs) ≡ length (raw_data xs)
total_size-sizes_of [] = refl
total_size-sizes_of ((name, bs) ∷ xs) =
    omega (arith, total_size-sizes_of xs, length-append bs (raw_data xs))

pub region_append :
    (c : Codec) (xs ys : List (Name × Bytes))
    → region c (keys (sizes_of (xs ++ ys)))
      ≡ region c (keys (sizes_of xs)) + region c (keys (sizes_of ys))
region_append c [] ys = omega arith
region_append c ((name, bs) ∷ xs) ys = omega (arith, region_append c xs ys)

pub keys-sizes_of : (xs : List (Name × Bytes)) → keys (sizes_of xs) ≡ keys xs
keys-sizes_of [] = refl
keys-sizes_of ((name, bs) ∷ xs) = ap (λ ns. name ∷ ns) (keys-sizes_of xs)

pub Tiles-split :
    (offsets : Offsets) (xs ys : List (Name × ℕ)) (cursor : ℕ)
    → Tiles offsets (xs ++ ys) cursor
    → Tiles offsets ys (cursor + total_size xs)
Tiles-split offsets [] ys cursor t =
    let e : cursor ≡ cursor + 0 = omega arith in subst (Tiles offsets ys) e t
Tiles-split offsets ((name, size) ∷ xs) ys cursor t =
    let e : cursor + size + total_size xs ≡ cursor + (size + total_size xs) = omega arith in
    subst (Tiles offsets ys) e (Tiles-split offsets xs ys (cursor + size) t.1)

In-left :
    (name : Name) (xs ys : List (Name × Bytes))
    → In name (keys (sizes_of xs))
    → In name (keys (sizes_of (xs ++ ys)))
In-left name [] ys at = absurd at
In-left name ((n, bs) ∷ xs) ys (inl same) = inl same
In-left name ((n, bs) ∷ xs) ys (inr later) = inr (In-left name xs ys later)

pub Distinct-left :
    (xs ys : List (Name × Bytes))
    → Distinct (keys (sizes_of (xs ++ ys)))
    → Distinct (keys (sizes_of xs))
Distinct-left [] ys d = tt
Distinct-left ((n, bs) ∷ xs) ys d = ((λ at. d.0 (In-left n xs ys at)), Distinct-left xs ys d.1)
