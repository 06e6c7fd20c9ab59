-- ===== src/Daq/Memory.antt =====
-- A block of shared memory as its size and what each of its bytes is, so that a large block that is
-- hardly written stays small; reading and writing ranges of it.
use donut_server.Prelude.{
  ℕ, zero, suc, ◌+◌, ◌-◌, ◌≤◌, ◌<◌, ◌≡◌, refl, ap, ap₂, sym, ◌∙◌, ◌⊎◌, inl, inr, ◌&&◌, [], ◌∷◌,
  ◌++◌, if◌then◌else◌, leb, ltb, arith, length, le→leb, lt→ltb,
}
use donut_server.Bytes.{Bytes}

abbrev pub Cells : Type 0
Cells = ℕ → ℕ

-- bytes[i], and 0 past the end
unfoldable pub byte_at : Bytes → ℕ → ℕ
byte_at [] i = 0
byte_at (b ∷ bs) zero = b
byte_at (b ∷ bs) (suc i) = byte_at bs i

-- view[start : start + len(bs)] = bs
unfoldable pub overlay : ℕ → Bytes → Cells → Cells
unfolding byte_at
overlay start bs cells i =
    if leb start i && ltb i (start + length bs) then byte_at bs (i - start) else cells i

-- view[start : start + count]
unfoldable pub read : Cells → ℕ → ℕ → Bytes
read cells start zero = []
read cells start (suc count) = cells start ∷ read cells (start + 1) count

pub read-add :
    (cells : Cells) (start m n : ℕ)
    → read cells start (m + n) ≡ read cells start m ++ read cells (start + m) n
unfolding read
read-add cells start zero n = ap₂ (read cells) (omega arith) (omega arith)
read-add cells start (suc m) n =
    let first : suc m + n ≡ suc (m + n) = omega arith in
    let next : start + 1 + m ≡ start + suc m = omega arith in
    ap (read cells start) first
    ∙ ap (◌∷◌ (cells start)) (read-add cells (start + 1) m n)
    ∙ ap (λ s. cells start ∷ (read cells (start + 1) m ++ read cells s n)) next

-- what agrees on a range reads alike
read_ext :
    (c d : Cells) (start count : ℕ)
    → ((i : ℕ) → start ≤ i → i < start + count → c i ≡ d i)
    → read c start count ≡ read d start count
unfolding read
read_ext c d start zero h = refl
read_ext c d start (suc count) h =
    ap₂ ◌∷◌ (h start (omega arith) (omega arith))
      (read_ext c d (start + 1) count (λ i l u. h i (omega arith) (omega arith)))

-- A write leaves the ranges that it does not meet.
pub read-overlay_apart :
    (start : ℕ) (bs : Bytes) (cells : Cells) (s n : ℕ)
    → (s + n ≤ start) ⊎ (start + length bs ≤ s)
    → read (overlay start bs cells) s n ≡ read cells s n
unfolding overlay
read-overlay_apart start bs cells s n (inl before) =
    read_ext (overlay start bs cells) cells s n (λ i l u. ground (arith, before))
read-overlay_apart start bs cells s n (inr after) =
    read_ext (overlay start bs cells) cells s n (λ i l u. ground (arith, after))

read_bytes :
    (cells : Cells) (bs : Bytes) (start : ℕ)
    → ((j : ℕ) → j < length bs → cells (start + j) ≡ byte_at bs j)
    → read cells start (length bs) ≡ bs
unfolding read byte_at
read_bytes cells [] start h = refl
read_bytes cells (b ∷ bs) start h =
    let first : start + 0 ≡ start = omega arith in
    let next : (j : ℕ) → start + 1 + j ≡ start + suc j = λ j. omega arith in
    ap₂ ◌∷◌ (ap cells (sym first) ∙ h 0 (omega arith))
      (read_bytes cells bs (start + 1) (λ j l. ap cells (next j) ∙ h (suc j) (omega (arith, l))))

-- What was written is read back.
pub read-overlay :
    (start : ℕ) (bs : Bytes) (cells : Cells) → read (overlay start bs cells) start (length bs) ≡ bs
unfolding overlay
read-overlay start bs cells = read_bytes (overlay start bs cells) bs start (λ j l.
    let there : (start + j) - start ≡ j = omega arith in
    rw
      (
        le→leb start (start + j) (omega arith),
        lt→ltb (start + j) (start + length bs) (omega (arith, l)),
        if◌then◌else◌,
        there,
      )
      refl)
