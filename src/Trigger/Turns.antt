-- ===== src/Trigger/Turns.antt =====
-- The four ways that a turn of trigger.py's poll can go.
use donut_server.Prelude.{
  ℕ, ◌-◌, ◌≤◌, ◌<◌, ◌≡◌, inl, inr, Bool, true, false, ◌&&◌, Option, none, some, arith,
  if◌then◌else◌, eqb, leb, length, Bool-cases,
}
use donut_server.Trigger.{
  expected_sensors, Poll, Wait, Verdict, polling, complete, timed_out, poll_once, completion,
  same_previous, go_on, turn,
}

abbrev pub matched : Wait → Poll → Bool
matched w poll =
    eqb (length (poll_once poll.files)) expected_sensors
    && same_previous (poll_once poll.files) w.previous

-- what the loop carries on
abbrev pub carried : Poll → Option ℕ → Wait
carried poll at = record {
  previous = some (poll_once poll.files);
  previous_at = poll.polled_at;
  complete_at = at;
}

module _ (settle_time deadline : ℕ) where
  pub data Turned (w : Wait) (poll : Poll) : Verdict → Type 0 where
    returns :
        matched w poll ≡ true
        → settle_time ≤ poll.polled_at - completion w
        → Turned w poll (complete (completion w))
    gives_up :
        deadline ≤ poll.checked_at → Turned w poll (timed_out (length (poll_once poll.files)))
    settles :
        matched w poll ≡ true
        → poll.polled_at - completion w < settle_time
        → poll.checked_at < deadline
        → Turned w poll (polling (carried poll (some (completion w))))
    restarts :
        matched w poll ≡ false
        → poll.checked_at < deadline
        → Turned w poll (polling (carried poll none))

  go_on-Turned :
      (w : Wait) (poll : Poll) (at : Option ℕ)
      → (poll.checked_at < deadline → Turned w poll (polling (carried poll at)))
      → Turned w poll (go_on deadline poll (poll_once poll.files) at)
  unfolding go_on
  go_on-Turned w poll at t = elim (Bool-cases (leb deadline poll.checked_at)) [
    | inl past ↦ rw (past, if◌then◌else◌) (gives_up (ground arith))
    | inr going ↦ rw (going, if◌then◌else◌) (t (ground arith))
  ]

  pub turn-Turned : (w : Wait) (poll : Poll) → Turned w poll (turn settle_time deadline w poll)
  unfolding turn
  turn-Turned w poll = elim (Bool-cases (matched w poll)) [
    | inl same ↦ elim (Bool-cases (leb settle_time (poll.polled_at - completion w))) [
      | inl long ↦ rw (same, if◌then◌else◌, long) (returns same (ground arith))
      | inr short ↦
          rw (same, if◌then◌else◌, short)
            (go_on-Turned w poll (some (completion w)) (settles same (ground arith)))
    ]
    | inr other ↦ rw (other, if◌then◌else◌) (go_on-Turned w poll none (restarts other))
  ]
