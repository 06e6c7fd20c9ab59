-- ===== src/Trigger/Halting.antt =====
-- The ends of trigger.py's poll: it always ends by its deadline, and a directory that stops changing
-- in time is returned.
use donut_server.Prelude.{
  ℕ, ◌+◌, ◌-◌, ◌≤◌, ◌<◌, ◌≡◌, refl, ap, ◌⊎◌, inl, inr, Bool, true, false, none, some, List, [], ◌∷◌,
  ◌++◌, arith, le→leb, if◌then◌else◌, eqb, ◌||◌, length, All,
}
use donut_server.Bytes.{Name}
use donut_server.Trigger.{
  expected_sensors, Poll, Wait, Verdict, complete, timed_out, bad_argument, poll_once, same_items,
  completion, unpolled, turn, or_end, wait_loop, wait_for_exposure,
}
use donut_server.Trigger.Turns.{
  matched, carried, Turned, returns, gives_up, settles, restarts, turn-Turned,
}

-- The clock of the turns: `time.monotonic` does not go back, and a turn, with the sleep before it,
-- takes some time.
abbrev pub Ticks : ℕ → List Poll → Type 0
Ticks now [] = Unit {0}
Ticks now (poll ∷ polls) =
    (now ≤ poll.polled_at)
    × (poll.polled_at ≤ poll.checked_at)
    × (now < poll.checked_at)
    × Ticks poll.checked_at polls

-- the loop has returned or raised
abbrev pub HasEnded : Verdict → Type 0
HasEnded v = ((at : ℕ) × (v ≡ complete at)) ⊎ ((n : ℕ) × (v ≡ timed_out n)) ⊎ (v ≡ bad_argument)

module _ (settle_time deadline : ℕ) where
  or_end-HasEnded :
      (w : Wait) (poll : Poll) (polls : List Poll) (v : Verdict)
      → Turned settle_time deadline w poll v
      → ((next : Wait)
          → poll.checked_at < deadline
          → HasEnded (wait_loop settle_time deadline next polls))
      → HasEnded (or_end v (λ next. wait_loop settle_time deadline next polls))
  or_end-HasEnded w poll polls _ (returns match long) loop = inl (completion w, refl)
  or_end-HasEnded w poll polls _ (gives_up past) loop =
      inr (inl (length (poll_once poll.files), refl))
  or_end-HasEnded w poll polls _ (settles match short going) loop = loop _ going
  or_end-HasEnded w poll polls _ (restarts other going) loop = loop _ going

  wait_loop-HasEnded :
      (polls : List Poll) (w : Wait) (now : ℕ)
      → Ticks now polls
      → now ≤ deadline
      → deadline < now + length polls
      → HasEnded (wait_loop settle_time deadline w polls)
  unfolding wait_loop
  wait_loop-HasEnded [] w now ticks h long = absurd (omega arith)
  wait_loop-HasEnded (poll ∷ polls) w now ticks h long =
      or_end-HasEnded w poll polls (turn settle_time deadline w poll)
        (turn-Turned settle_time deadline w poll)
        (λ next going.
          wait_loop-HasEnded polls next poll.checked_at ticks.3 (omega arith)
            (omega (arith, ticks.2)))

if-HasEnded : (b : Bool) (v : Verdict) → HasEnded v → HasEnded (if b then bad_argument else v)
if-HasEnded true v h = inr (inr refl)
if-HasEnded false v h = h

-- Where each turn takes time, the wait has ended after as many turns as its timeout has ticks, and
-- one more, whatever the files do.
pub wait_for_exposure-HasEnded :
    (now timeout interval settle_time : ℕ) (polls : List Poll)
    → Ticks now polls
    → timeout < length polls
    → HasEnded (wait_for_exposure now timeout interval settle_time polls)
unfolding wait_for_exposure
wait_for_exposure-HasEnded now timeout interval settle_time polls ticks long =
    let ended =
      wait_loop-HasEnded settle_time (now + timeout) polls (unpolled now) now ticks (omega arith)
        (omega arith) in
    if-HasEnded (eqb settle_time 0 || eqb interval 0) _ ended

-- each poll finds all sensors, as the one before it did
abbrev pub Steady : List (Name × ℕ) → List Poll → Type 0
Steady found [] = Unit {0}
Steady found (poll ∷ polls) =
    (length (poll_once poll.files) ≡ expected_sensors)
    × (same_items (poll_once poll.files) found ≡ true)
    × Steady (poll_once poll.files) polls

abbrev pub Before : ℕ → List Poll → Type 0
Before deadline polls = All (λ p. p.checked_at < deadline) polls

HasCompleted : Verdict → Type 0
HasCompleted v = (at : ℕ) × (v ≡ complete at)

module _ (settle_time deadline : ℕ) where
  matched-true :
      (w : Wait) (poll : Poll) (found : List (Name × ℕ))
      → w.previous ≡ some found
      → length (poll_once poll.files) ≡ expected_sensors
      → same_items (poll_once poll.files) found ≡ true
      → matched w poll ≡ true
  matched-true w poll found same all h = ground (arith, same)

  turn-complete :
      (w : Wait) (poll : Poll)
      → matched w poll ≡ true
      → settle_time ≤ poll.polled_at - completion w
      → turn settle_time deadline w poll ≡ complete (completion w)
  unfolding turn
  turn-complete w poll match long =
      rw (match, if◌then◌else◌, le→leb settle_time (poll.polled_at - completion w) long) refl

  -- a turn before the deadline, and the turns after it
  or_end-HasCompleted :
      (w : Wait) (poll : Poll) (polls : List Poll) (v : Verdict)
      → Turned settle_time deadline w poll v
      → poll.checked_at < deadline
      → (matched w poll ≡ true
          → HasCompleted
              (wait_loop settle_time deadline (carried poll (some (completion w))) polls))
      → (matched w poll ≡ false
          → HasCompleted (wait_loop settle_time deadline (carried poll none) polls))
      → HasCompleted (or_end v (λ next. wait_loop settle_time deadline next polls))
  unfolding HasCompleted
  or_end-HasCompleted w poll polls _ (returns match long) early k m = (completion w, refl)
  or_end-HasCompleted w poll polls _ (gives_up past) early k m = absurd (omega arith)
  or_end-HasCompleted w poll polls _ (settles match short going) early k m = k match
  or_end-HasCompleted w poll polls _ (restarts other going) early k m = m other

  -- the turns from one that has carried `found` on
  window-HasCompleted :
      (window : List Poll) (w : Wait) (found : List (Name × ℕ)) (last : Poll) (after : List Poll)
      → w.previous ≡ some found
      → Steady found (window ++ last ∷ [])
      → Before deadline window
      → settle_time ≤ last.polled_at - completion w
      → HasCompleted (wait_loop settle_time deadline w (window ++ last ∷ after))
  unfolding wait_loop HasCompleted
  window-HasCompleted [] w found last after same steady before long =
      let done = turn-complete w last (matched-true w last found same steady.0 steady.1) long in
      (completion w, ap (λ v. or_end v (λ next. wait_loop settle_time deadline next after)) done)
  window-HasCompleted (poll ∷ window) w found last after same steady before long =
      let match = matched-true w poll found same steady.0 steady.1 in
      or_end-HasCompleted w poll (window ++ last ∷ after) (turn settle_time deadline w poll)
        (turn-Turned settle_time deadline w poll) before.0
        (λ m.
          window-HasCompleted window (carried poll (some (completion w))) (poll_once poll.files)
            last after refl steady.2 before.1 long)
        (λ other. absurd (ground (arith, match, other)))

  -- from any state whose completion is not later than the first turn of the steady ones
  polls-HasCompleted :
      (earlier : List Poll) (w : Wait) (now : ℕ) (first : Poll) (window : List Poll) (last : Poll)
      (after : List Poll)
      → Ticks now (earlier ++ first ∷ (window ++ last ∷ after))
      → completion w ≤ now
      → Before deadline (earlier ++ first ∷ window)
      → Steady (poll_once first.files) (window ++ last ∷ [])
      → settle_time ≤ last.polled_at - first.polled_at
      → HasCompleted
          (wait_loop settle_time deadline w (earlier ++ first ∷ (window ++ last ∷ after)))
  unfolding wait_loop
  polls-HasCompleted [] w now first window last after ticks past before steady long =
      or_end-HasCompleted w first (window ++ last ∷ after) (turn settle_time deadline w first)
        (turn-Turned settle_time deadline w first) before.0
        (λ m.
          window-HasCompleted window (carried first (some (completion w))) (poll_once first.files)
            last after refl steady before.1 (omega (arith, ticks.0)))
        (λ m.
          window-HasCompleted window (carried first none) (poll_once first.files) last after refl
            steady before.1 long)
  polls-HasCompleted (poll ∷ earlier) w now first window last after ticks past before steady long =
      or_end-HasCompleted w poll (earlier ++ first ∷ (window ++ last ∷ after))
        (turn settle_time deadline w poll) (turn-Turned settle_time deadline w poll) before.0
        (λ m.
          polls-HasCompleted earlier (carried poll (some (completion w))) poll.checked_at first
            window last after ticks.3 (omega (arith, ticks.0, ticks.1)) before.1 steady long)
        (λ m.
          polls-HasCompleted earlier (carried poll none) poll.checked_at first window last after
            ticks.3 ticks.1 before.1 steady long)

-- A directory that stops changing is returned: where, from one poll on, every poll finds all eight
-- sensors with the sizes of the one before it, and a later poll is made `settle_time` or more after
-- that one, with no deadline checked as passed before it, the wait completes, whatever the polls
-- before and after saw. The clock does not go back, and the durations are positive.
pub wait_for_exposure-completes :
    (now timeout interval settle_time : ℕ) (earlier : List Poll) (first : Poll) (window : List Poll)
    (last : Poll) (after : List Poll)
    → 0 < interval
    → 0 < settle_time
    → Ticks now (earlier ++ first ∷ (window ++ last ∷ after))
    → Before (now + timeout) (earlier ++ first ∷ window)
    → Steady (poll_once first.files) (window ++ last ∷ [])
    → settle_time ≤ last.polled_at - first.polled_at
    → (at : ℕ) × (wait_for_exposure now timeout interval settle_time
          (earlier ++ first ∷ (window ++ last ∷ after))
        ≡ complete at)
unfolding wait_for_exposure HasCompleted
wait_for_exposure-completes now timeout interval settle_time earlier first window last after hi hs
      ticks before steady long =
    let (at, done) =
      polls-HasCompleted settle_time (now + timeout) earlier (unpolled now) now first window last
        after ticks (omega arith) before steady long in
    (at, ground (arith, done))
