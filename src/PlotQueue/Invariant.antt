-- ===== src/PlotQueue/Invariant.antt =====
-- What holds of the plot queue between any two steps of any schedule.
use donut_server.Prelude.{
  ℕ, zero, suc, ◌+◌, ◌≤◌, ◌<◌, ◌≡◌, refl, ap, sym, subst, ◌∙◌, true, false, some, List, [], ◌∷◌,
  eqb, get_elem?, arith, ◌⊎◌, inl, inr, map, lookup, erase, nat_eq, length, All, length-erase-le,
  Bool-cases, replicate, ◌≢◌,
}
use native.Mathlib.Decide.{dec_lt}
use donut_server.PlotQueue.{JobId, error_cap, max_retries, init, member, add, values, enqueue}
use donut_server.PlotQueue.Schedule.{
  Phase, running, parked, sleeping, sending, State, start, set_phase, woken, wake_all, submit,
}
use donut_server.PlotQueue.Counts.{
  count, in_hand, all_parked, member-count, in_hand-woken, in_hand-replicate, drawer_of,
  member-values,
}

abbrev pub Fewer : JobId × ℕ → Type 0
Fewer e = e.1 < max_retries

-- The set beside the stack agrees with it; a job is at most once waiting or in a flight's hands;
-- a flight's job is marked as drawing; the errors and the retries stay within their bounds.
pub record IsSound (s : State) : Type 0 where
  pub agree : (j : JobId) → member j s.queue.queued ≡ member j s.queue.stack
  pub once : (j : JobId) → count j s.queue.stack + in_hand j s.phases ≤ 1
  pub marked :
      (i : ℕ) (j : JobId)
      → get_elem? s.phases i ≡ some (sending j)
      → lookup i s.queue.drawing ≡ some j
  pub errors_bounded : length s.queue.errors ≤ error_cap
  pub retries_bounded : All Fewer s.queue.retries
  pub flights : length s.phases ≡ s.queue.n_flights
  pub awake : all_parked s.phases ≡ true → s.queue.stack ≡ []

length-replicate : (n : ℕ) (p : Phase) → length (replicate n p) ≡ n
length-replicate zero p = refl
length-replicate (suc n) p = ap suc (length-replicate n p)

no_sending : (n i : ℕ) (j : JobId) → get_elem? (replicate n running) i ≢ some (sending j)
no_sending zero i j e = cc
no_sending (suc n) zero j e = ground arith
no_sending (suc n) (suc i) j e = no_sending n i j e

pub start-IsSound : (n : ℕ) → IsSound (start n)
unfolding start init
start-IsSound n = record {
  agree = λ j. refl;
  once = λ j. unfold count in omega (arith, in_hand-replicate j n);
  marked = λ i j e. absurd (no_sending n i j e);
  errors_bounded = omega arith;
  retries_bounded = tt;
  flights = length-replicate n running;
  awake = λ _. refl;
}

length-woken : (ps : List Phase) → length (map woken ps) ≡ length ps
length-woken [] = refl
length-woken (p ∷ ps) = ap suc (length-woken ps)

-- once woken, no flight is parked
woken-awake : (ps : List Phase) → 0 < length ps → all_parked (map woken ps) ≡ false
unfolding all_parked
woken-awake [] h = absurd (omega arith)
woken-awake (running ∷ ps) h = refl
woken-awake (parked ∷ ps) h = refl
woken-awake (sleeping ∷ ps) h = refl
woken-awake (sending j ∷ ps) h = refl

sending-woken :
    (ps : List Phase) (i : ℕ) (j : JobId)
    → get_elem? (map woken ps) i ≡ some (sending j)
    → get_elem? ps i ≡ some (sending j)
sending-woken [] i j h = h
sending-woken (p ∷ ps) zero j h = ground arith
sending-woken (p ∷ ps) (suc i) j h = sending-woken ps i j h

-- a job that is neither queued nor marked as drawing is nowhere
nowhere :
    (s : State) (j : JobId)
    → IsSound s
    → member j s.queue.queued ≡ false
    → member j (values s.queue.drawing) ≡ false
    → (count j s.queue.stack ≡ 0) × (in_hand j s.phases ≡ 0)
nowhere s j v free idle = (
  ground (arith, v.agree j, member-count j s.queue.stack),
  elim (dec_lt 0 (in_hand j s.phases)) [
    | yes busy ↦
        let (i, at) = drawer_of j s.phases busy in
        absurd (ground (arith, v.marked i j at, member-values i j s.queue.drawing))
    | no calm ↦ omega arith
  ],
)

-- the state after an accepted job
abbrev accepted : JobId → State → State
accepted j s = record {
  queue = record s.queue {
    queued = add j s.queue.queued;
    stack = j ∷ s.queue.stack;
    errors = erase j s.queue.errors;
    wake = true;
  };
  phases = map woken s.phases;
}

submit-cases :
    (j : JobId) (s : State)
    → (submit j s ≡ s)
      ⊎ ((submit j s ≡ accepted j s)
          × (0 < s.queue.n_flights)
          × (member j s.queue.queued ≡ false)
          × (member j (values s.queue.drawing) ≡ false))
unfolding submit enqueue wake_all
submit-cases j s = elim (Bool-cases (eqb s.queue.n_flights 0)) [
  | inl closed ↦ inl (rw closed)
  | inr manned ↦ elim (Bool-cases (member j s.queue.queued)) [
    | inl waiting ↦ inl (rw (manned, waiting))
    | inr free ↦ elim (Bool-cases (member j (values s.queue.drawing))) [
      | inl busy ↦ inl (rw (manned, free, busy))
      | inr idle ↦ inr (rw (manned, free, idle), ground arith, free, idle)
    ]
  ]
]

accepted-IsSound :
    (j : JobId) (s : State)
    → IsSound s
    → 0 < s.queue.n_flights
    → member j s.queue.queued ≡ false
    → member j (values s.queue.drawing) ≡ false
    → IsSound (accepted j s)
unfolding add member count
accepted-IsSound j s v manned free idle =
    let (not_stacked, not_drawn) = nowhere s j v free idle in
    record {
      agree = λ i. ground (arith, v.agree i);
      once = λ i. ground (arith, v.once i, in_hand-woken i s.phases);
      marked = λ i k e. v.marked i k (sending-woken s.phases i k e);
      errors_bounded = omega (arith, length-erase-le j s.queue.errors, v.errors_bounded);
      retries_bounded = v.retries_bounded;
      flights = length-woken s.phases ∙ v.flights;
      awake = λ h. absurd (ground (arith, woken-awake s.phases, v.flights));
    }

pub submit-IsSound : (j : JobId) (s : State) → IsSound s → IsSound (submit j s)
submit-IsSound j s v = elim (submit-cases j s) [
  | inl same ↦ subst IsSound (sym same) v
  | inr taken ↦
      let (shape, manned, free, idle) = taken in
      subst IsSound (sym shape) (accepted-IsSound j s v manned free idle)
]

pub length-set_phase : (ps : List Phase) (i : ℕ) (p : Phase) → length (set_phase ps i p) ≡ length ps
length-set_phase [] i p = refl
length-set_phase (x ∷ ps) zero p = refl
length-set_phase (x ∷ ps) (suc i) p = ap suc (length-set_phase ps i p)

-- a phase after a change is the new one at its index, and an old one elsewhere
pub sending-set_phase :
    (ps : List Phase) (i k : ℕ) (p : Phase) (j : JobId)
    → get_elem? (set_phase ps i p) k ≡ some (sending j)
    → ((i ≡ k) × (p ≡ sending j)) ⊎ ((eqb i k ≡ false) × (get_elem? ps k ≡ some (sending j)))
sending-set_phase [] i k p j h = absurd (cc)
sending-set_phase (x ∷ ps) zero zero p j h = ground arith
sending-set_phase (x ∷ ps) zero (suc k) p j h = ground arith
sending-set_phase (x ∷ ps) (suc i) zero p j h = ground arith
sending-set_phase (x ∷ ps) (suc i) (suc k) p j h = ground (arith, sending-set_phase ps i k p j)

-- a flight that is not parked keeps the flights from being all parked
pub set_phase-awake :
    (ps : List Phase) (i : ℕ) (old p : Phase)
    → get_elem? ps i ≡ some old
    → p ≢ parked
    → all_parked (set_phase ps i p) ≡ false
unfolding all_parked
set_phase-awake [] i old p h ne = absurd (cc)
set_phase-awake (x ∷ ps) zero old parked h ne = absurd (ne refl)
set_phase-awake (x ∷ ps) zero old running h ne = refl
set_phase-awake (x ∷ ps) zero old sleeping h ne = refl
set_phase-awake (x ∷ ps) zero old (sending j) h ne = refl
set_phase-awake (running ∷ ps) (suc i) old p h ne = refl
set_phase-awake (sleeping ∷ ps) (suc i) old p h ne = refl
set_phase-awake (sending j ∷ ps) (suc i) old p h ne = refl
set_phase-awake (parked ∷ ps) (suc i) old p h ne = set_phase-awake ps i old p h ne
