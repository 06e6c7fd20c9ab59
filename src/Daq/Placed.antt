-- ===== src/Daq/Placed.antt =====
-- What a block of the encoder of daq.py holds, and the parts that stand in it.
use donut_server.Prelude.{
  ℕ, ◌+◌, ◌≤◌, ◌≡◌, inl, inr, refl, sym, ap, subst, ◌∙◌, some, List, [], ◌∷◌, ◌++◌, arith, length,
  leb, Bool-cases, if◌then◌else◌, length-append,
}
use donut_server.Bytes.{Bytes, Name, name_eq}
use donut_server.Exec.{ok}
use donut_server.Protocol.{raw_data}
use donut_server.Daq.Memory.{Cells, overlay, read, read-add}
use donut_server.Daq.Shared.{Mapping, World, write}

-- the mapped block holds these cells
abbrev pub Holds : Cells → World → Type 0
Holds cells w = (m : Mapping) × (w.mapping ≡ some m) × (m.cells ≡ cells)

pub write-Holds :
    (start : ℕ) (bs : Bytes) (cells : Cells) (w w' : World)
    → Holds cells w
    → write start bs w ≡ (ok tt, w')
    → Holds (overlay start bs cells) w'
unfolding write
write-Holds start bs cells w w' (m, at, same) h =
    elim (Bool-cases (leb (start + length bs) m.size)) [
      | inl fits ↦
          let done = rw (at, fits, if◌then◌else◌) at h in
          let m' : Mapping = record m { cells = overlay start bs m.cells } in
          (m', sym (ap (λ r. r.1.mapping) done), ap (overlay start bs) same)
      | inr past ↦ absurd (ground (arith, ap (λ r. r.0) (rw (at, past, if◌then◌else◌) at h)))
    ]

-- the parts stand one after another from `start`
abbrev pub Placed : Cells → List (Name × Bytes) → ℕ → Type 0
Placed cells [] start = Unit {0}
Placed cells ((name, bs) ∷ parts) start =
    (read cells start (length bs) ≡ bs) × Placed cells parts (start + length bs)

pub read-Placed :
    (cells : Cells) (parts : List (Name × Bytes)) (start : ℕ)
    → Placed cells parts start
    → read cells start (length (raw_data parts)) ≡ raw_data parts
unfolding read
read-Placed cells [] start p = refl
read-Placed cells ((name, bs) ∷ parts) start p =
    ap (read cells start) (length-append bs (raw_data parts))
    ∙ read-add cells start (length bs) (length (raw_data parts))
    ∙ ap (λ b. b ++ read cells (start + length bs) (length (raw_data parts))) p.0
    ∙ ap (λ r. bs ++ r) (read-Placed cells parts (start + length bs) p.1)

pub Placed-append :
    (cells : Cells) (parts parts' : List (Name × Bytes)) (start : ℕ)
    → Placed cells parts start
    → Placed cells parts' (start + length (raw_data parts))
    → Placed cells (parts ++ parts') start
Placed-append cells [] parts' start p q =
    let e : start + 0 ≡ start = omega arith in subst (Placed cells parts') e q
Placed-append cells ((name, bs) ∷ parts) parts' start p q =
    let e : start + length (bs ++ raw_data parts) ≡ start + length bs + length (raw_data parts) =
      omega (arith, length-append bs (raw_data parts)) in
    (
      p.0,
      Placed-append cells parts parts' (start + length bs) p.1 (subst (Placed cells parts') e q),
    )

-- what does not change where the parts stand leaves them
pub Placed-kept :
    (c d : Cells) (parts : List (Name × Bytes)) (start : ℕ)
    → ((s n : ℕ) → start ≤ s → s + n ≤ start + length (raw_data parts) → read d s n ≡ read c s n)
    → Placed c parts start
    → Placed d parts start
Placed-kept c d [] start kept p = tt
Placed-kept c d ((name, bs) ∷ parts) start kept p =
    let sum = length-append bs (raw_data parts) in
    (
      kept start (length bs) (omega arith) (omega (arith, sum)) ∙ p.0,
      Placed-kept c d parts (start + length bs)
          (λ s n l u. kept s n (omega (arith, l)) (omega (arith, u, sum))) p.1,
    )
