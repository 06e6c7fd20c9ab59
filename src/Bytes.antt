-- ===== src/Bytes.antt =====
-- Python byte strings as lists of numbers: slices, `struct`'s big-endian integers, and the UTF-8
-- codec, which belongs to Python and enters as a parameter.
use donut_server.Prelude.{
  ℕ, zero, suc, ◌+◌, ◌*◌, ◌/◌, ◌%◌, ◌^◌, ◌<◌, ◌≡◌, refl, sym, Bool, true, false, ◌&&◌, ◌||◌, ◌↔◌,
  Option, some, List, [], ◌∷◌, ◌++◌, arith, eqb, ltb, if◌then◌else◌, Eq, take, drop, length,
  length-append, drop-nil,
}
use native.Mathlib.Nat.{pow-suc, zero-add, suc-add}

abbrev pub Bytes : Type 0
Bytes = List ℕ

-- A `str`, as its code points.
abbrev pub Name : Type 0
Name = List ℕ

-- str.encode("utf-8"), which raises on text that it cannot encode, such as a lone surrogate, and
-- bytes.decode("utf-8"), which fails on malformed input; decoding inverts encoding. What `encode` is on
-- text that cannot be encoded is not read.
pub record Codec : Type 0 where
  pub can_encode : Name → Bool
  pub encode : Name → Bytes
  pub decode : Bytes → Option Name
  pub decode-encode : (n : Name) → can_encode n ≡ true → decode (encode n) ≡ some n

unfoldable pub list_eqb : List ℕ → List ℕ → Bool
list_eqb [] [] = true
list_eqb (x ∷ xs) (y ∷ ys) = eqb x y && list_eqb xs ys
list_eqb _ _ = false

pub list_eqb_iff : (xs ys : List ℕ) → (list_eqb xs ys ≡ true) ↔ (xs ≡ ys)
unfolding list_eqb
list_eqb_iff [] [] = ground arith
list_eqb_iff [] (y ∷ ys) = ground arith
list_eqb_iff (x ∷ xs) [] = ground arith
list_eqb_iff (x ∷ xs) (y ∷ ys) = ground (arith, list_eqb_iff xs ys)

instance abbrev pub name_eq : Eq Name
name_eq = record { equal = list_eqb; equal_iff = list_eqb_iff }

-- sorted() of names goes by code points
unfoldable pub name_ltb : Name → Name → Bool
name_ltb [] [] = false
name_ltb [] (d ∷ n) = true
name_ltb (c ∷ m) [] = false
name_ltb (c ∷ m) (d ∷ n) = ltb c d || (eqb c d && name_ltb m n)

module _ {A : Type 0} where
  unfoldable pub insert_name : Name × A → List (Name × A) → List (Name × A)
  insert_name e [] = e ∷ []
  insert_name e (f ∷ es) = if name_ltb f.0 e.0 then f ∷ insert_name e es else e ∷ f ∷ es

  unfoldable pub sort_names : List (Name × A) → List (Name × A)
  unfolding insert_name
  sort_names [] = []
  sort_names (e ∷ es) = insert_name e (sort_names es)

-- blob[start : start + count]
unfoldable pub slice : Bytes → ℕ → ℕ → Bytes
slice blob start count = take count (drop start blob)

-- struct.pack of one unsigned field of `width` bytes, for a number that fits
unfoldable pub big_endian : ℕ → ℕ → Bytes
big_endian zero n = []
big_endian (suc width) n = big_endian width (n / 256) ++ (n % 256) ∷ []

unfoldable pub of_bytes_from : ℕ → Bytes → ℕ
of_bytes_from acc [] = acc
of_bytes_from acc (b ∷ bs) = of_bytes_from (acc * 256 + b) bs

-- struct.unpack of one unsigned field
unfoldable pub of_bytes : Bytes → ℕ
unfolding of_bytes_from
of_bytes bs = of_bytes_from 0 bs

of_bytes_from-append :
    (acc : ℕ) (xs ys : Bytes)
    → of_bytes_from acc (xs ++ ys) ≡ of_bytes_from (of_bytes_from acc xs) ys
unfolding of_bytes_from
of_bytes_from-append acc [] ys = refl
of_bytes_from-append acc (x ∷ xs) ys = of_bytes_from-append (acc * 256 + x) xs ys

-- Unpacking a packed field gives the number back.
pub of_bytes-big_endian : (width n : ℕ) → n < 256 ^ width → of_bytes (big_endian width n) ≡ n
unfolding of_bytes of_bytes_from big_endian
of_bytes-big_endian zero n h = omega arith
of_bytes-big_endian (suc width) n h = omega (
  arith,
  of_bytes_from-append 0 (big_endian width (n / 256)) ((n % 256) ∷ []),
  of_bytes-big_endian width (n / 256) (grind (arith, pow-suc)),
  pow-suc,
)

pub of_bytes_single : (b : ℕ) → of_bytes (b ∷ []) ≡ b
unfolding of_bytes
of_bytes_single b = omega arith

pub length-big_endian : (width n : ℕ) → length (big_endian width n) ≡ width
unfolding big_endian
length-big_endian zero n = refl
length-big_endian (suc width) n = omega (
  arith,
  length-append (big_endian width (n / 256)) ((n % 256) ∷ []),
  length-big_endian width (n / 256),
)

pub drop-add {ℓ} : {A : Type ℓ} (m n : ℕ) (xs : List A) → drop (m + n) xs ≡ drop n (drop m xs)
drop-add zero n xs = rw zero-add
drop-add (suc m) n [] = rw suc-add (sym (drop-nil n))
drop-add (suc m) n (x ∷ xs) = rw suc-add (drop-add m n xs)
