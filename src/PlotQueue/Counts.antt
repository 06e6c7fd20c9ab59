-- ===== src/PlotQueue/Counts.antt =====
-- How often a job stands in the queue's lists and is being drawn.
use donut_server.Prelude.{
  ℕ, zero, suc, ◌+◌, ◌<◌, ◌≡◌, refl, Bool, true, false, some, List, [], ◌∷◌, ltb, eqb,
  if◌then◌else◌, get_elem?, arith, inl, inr, map, lookup, nat_eq, replicate, Bool-cases,
}
use donut_server.PlotQueue.{JobId, member, values}
use donut_server.PlotQueue.Schedule.{Phase, running, parked, sleeping, sending, set_phase, woken}

unfoldable pub count : JobId → List JobId → ℕ
count j [] = 0
count j (i ∷ is) = if eqb i j then suc (count j is) else count j is

-- 1 for a flight in `send_command` for the job
abbrev pub draws : JobId → Phase → ℕ
draws j (sending i) = if eqb i j then 1 else 0
draws j _ = 0

unfoldable pub in_hand : JobId → List Phase → ℕ
in_hand j [] = 0
in_hand j (p ∷ ps) = draws j p + in_hand j ps

abbrev pub is_parked : Phase → Bool
is_parked parked = true
is_parked _ = false

unfoldable pub all_parked : List Phase → Bool
all_parked [] = true
all_parked (parked ∷ ps) = all_parked ps
all_parked (_ ∷ ps) = false

pub member-count : (j : JobId) (xs : List JobId) → member j xs ≡ ltb 0 (count j xs)
unfolding member count
member-count j [] = ground arith
member-count j (i ∷ is) = ground (arith, member-count j is)

-- Changing one flight's phase changes the number of flights that draw the job by that flight.
pub in_hand-set_phase :
    (j : JobId) (ps : List Phase) (i : ℕ) (old new : Phase)
    → get_elem? ps i ≡ some old
    → in_hand j (set_phase ps i new) + draws j old ≡ in_hand j ps + draws j new
unfolding in_hand
in_hand-set_phase j [] i old new h = absurd (cc)
in_hand-set_phase j (p ∷ ps) zero old new h = let same : p ≡ old = cc in rw same (omega arith)
in_hand-set_phase j (p ∷ ps) (suc i) old new h = omega (arith, in_hand-set_phase j ps i old new h)

pub in_hand-woken : (j : JobId) (ps : List Phase) → in_hand j (map woken ps) ≡ in_hand j ps
unfolding in_hand
in_hand-woken j [] = refl
in_hand-woken j (p ∷ ps) = ground (arith, in_hand-woken j ps)

pub in_hand-replicate : (j : JobId) (n : ℕ) → in_hand j (replicate n running) ≡ 0
unfolding in_hand
in_hand-replicate j zero = refl
in_hand-replicate j (suc n) = omega (arith, in_hand-replicate j n)

-- A job that is being drawn is drawn by some flight.
pub drawer_of :
    (j : JobId) (ps : List Phase) → 0 < in_hand j ps → (i : ℕ) × (get_elem? ps i ≡ some (sending j))
unfolding in_hand
drawer_of j [] h = absurd (omega arith)
drawer_of j (sending k ∷ ps) h = elim (Bool-cases (eqb k j)) [
  | inl same ↦ (zero, ground arith)
  | inr other ↦ let (i, at) = drawer_of j ps (ground arith) in (suc i, at)
]
drawer_of j (running ∷ ps) h = let (i, at) = drawer_of j ps (omega arith) in (suc i, at)
drawer_of j (parked ∷ ps) h = let (i, at) = drawer_of j ps (omega arith) in (suc i, at)
drawer_of j (sleeping ∷ ps) h = let (i, at) = drawer_of j ps (omega arith) in (suc i, at)

pub member-values :
    (i : ℕ) (j : JobId) (d : List (ℕ × JobId)) → lookup i d ≡ some j → member j (values d) ≡ true
unfolding lookup member
member-values i j [] h = absurd (cc)
member-values i j ((k, x) ∷ d) h = ground (arith, member-values i j d)
