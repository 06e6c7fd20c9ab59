-- ===== src/Logs/Slices.antt =====
-- The bounds of logtail.py's slices.
use donut_server.Prelude.{
  ℕ, zero, suc, ◌+◌, ◌≤◌, ◌≡◌, inl, inr, some, [], ◌∷◌, arith, if◌then◌else◌, eqb, length, take,
  take_shorter, drop, Bool-cases, Option-cases,
}
use donut_server.Bytes.{Bytes}
use donut_server.Logs.{find_in, find, rfind, line_from, line_start, slice_end, job_slice}

-- a later end has its line's start no earlier, and not behind itself
line_from-bounds :
    (bytes : Bytes) (at best : ℕ)
    → best ≤ at
    → (best ≤ line_from at best bytes) × (line_from at best bytes ≤ at + length bytes)
unfolding line_from
line_from-bounds [] at best h = (omega arith, omega arith)
line_from-bounds (b ∷ bytes) at best h = elim (Bool-cases (eqb b 10)) [
  | inl newline ↦
      let ih = line_from-bounds bytes (at + 1) (at + 1) (omega arith) in
      rw (newline, line_from, if◌then◌else◌) (omega (arith, ih.0), omega (arith, ih.1))
  | inr other ↦
      let ih = line_from-bounds bytes (at + 1) best (omega arith) in
      rw (other, line_from, if◌then◌else◌) (omega (arith, ih.0), omega (arith, ih.1))
]

line_from-take :
    (bytes : Bytes) (i e at best : ℕ)
    → best ≤ at
    → i ≤ e
    → line_from at best (take i bytes) ≤ line_from at best (take e bytes)
unfolding line_from
line_from-take bytes zero e at best h le = (line_from-bounds (take e bytes) at best h).0
line_from-take bytes (suc i) zero at best h le = absurd (omega arith)
line_from-take [] (suc i) (suc e) at best h le = omega arith
line_from-take (b ∷ bytes) (suc i) (suc e) at best h le = elim (Bool-cases (eqb b 10)) [
  | inl newline ↦
      rw (newline, line_from, if◌then◌else◌)
        (line_from-take bytes i e (at + 1) (at + 1) (omega arith) (omega arith))
  | inr other ↦
      rw (other, line_from, if◌then◌else◌)
        (line_from-take bytes i e (at + 1) best (omega arith) (omega arith))
]

line_start-le : (bytes : Bytes) (end : ℕ) → line_start bytes end ≤ length bytes
unfolding line_start
line_start-le bytes end =
    omega (arith, (line_from-bounds (take end bytes) 0 0 (omega arith)).1, take_shorter end bytes)

find_in-le : (needle bytes : Bytes) (at e : ℕ) → find_in needle bytes at ≡ some e → at ≤ e
unfolding find_in
find_in-le needle [] at e h = absurd (ground arith)
find_in-le needle (b ∷ bytes) at e h = ground (arith, find_in-le needle bytes (at + 1) e)

slice_end-bounds :
    (bytes suffix restart : Bytes) (i after : ℕ)
    → i ≤ after
    → (line_start bytes i ≤ slice_end bytes (find suffix bytes after) (find restart bytes after))
      × (slice_end bytes (find suffix bytes after) (find restart bytes after) ≤ length bytes)
unfolding find line_start
slice_end-bounds bytes suffix restart i after h =
    elim (Option-cases (find_in suffix (drop after bytes) after)) [
      | inr (e, found) ↦
          let later = find_in-le suffix (drop after bytes) after e found in
          rw found (line_from-take bytes i e 0 0 (omega arith) (omega arith), line_start-le bytes e)
      | inl missing ↦ elim (Option-cases (find_in restart (drop after bytes) after)) [
        | inr (e, found) ↦
            let later = find_in-le restart (drop after bytes) after e found in
            rw (missing, found)
              (line_from-take bytes i e 0 0 (omega arith) (omega arith), line_start-le bytes e)
        | inl gone ↦ rw (missing, gone) (line_start-le bytes i, omega arith)
      ]
    ]

-- The slice of a job lies within the bytes that were searched, and has at most `most` bytes.
pub job_slice-Within :
    (most : ℕ) (needle suffix restart bytes : Bytes) (begin end : ℕ)
    → job_slice most needle suffix restart bytes ≡ some (begin, end)
    → (begin ≤ end) × (end ≤ length bytes) × (end ≤ begin + most)
unfolding job_slice
job_slice-Within most needle suffix restart bytes begin end h =
    elim (Option-cases (rfind needle bytes)) [
      | inl missing ↦ absurd (ground (arith, h, missing))
      | inr (i, found) ↦
          let bounds = slice_end-bounds bytes suffix restart i (i + length needle) (omega arith) in
          ground (arith, h, found, bounds.0, bounds.1)
    ]
