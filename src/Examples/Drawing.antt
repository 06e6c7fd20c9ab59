-- ===== src/Examples/Drawing.antt =====
-- The drawing queue with one flight: a job is submitted, taken, and finds no usable child.
use donut_server.Prelude.{◌≡◌, refl, true, false, none, some, [], ◌∷◌, get_elem?, lookup, nat_eq}
use donut_server.PlotQueue.{
  PlotQueue, init, member, add, enqueue, take_job, take_from, gave_up, max_retries, error_of,
  tries_of, unusable,
}
use donut_server.PlotQueue.Schedule.{
  running, sending, State, start, wake_all, submit, begin, turn, settle, request, loop, reply,
  Reach, fresh, next,
}
use donut_server.PlotQueue.Invariant.{IsSound}
use donut_server.PlotQueue.Steps.{Reach-IsSound}
use donut_server.PlotQueue.Retries.{fail_turns, fail_turns_max}

abbrev one_queued : PlotQueue
one_queued = record {
  n_flights = 1;
  stack = 5 ∷ 4 ∷ [];
  queued = 4 ∷ 5 ∷ [];
  drawing = [];
  errors = [];
  retries = [];
  wake = true;
}

abbrev submitted : State
submitted = submit 5 (start 1)

abbrev taken : State
taken = turn 0 submitted

has_running : get_elem? submitted.phases 0 ≡ some running
unfolding submit start enqueue wake_all init member
has_running = refl

has_sending : get_elem? taken.phases 0 ≡ some (sending 5)
unfolding turn submit start enqueue wake_all init take_job take_from begin member add
has_sending = refl

reached : Reach 1 (settle 0 5 (unusable "restarting") taken)
reached =
    next (next (next fresh (request 5)) (loop 0 has_running))
      (reply 0 5 (unusable "restarting") tt has_sending)

Reach-IsSound_example : IsSound (settle 0 5 (unusable "restarting") taken)
Reach-IsSound_example = Reach-IsSound reached

accepted : (enqueue one_queued 6).1 ≡ true
unfolding enqueue member
accepted = refl

is_queued : member 5 one_queued.queued ≡ true
unfolding member
is_queued = refl

never_tried : lookup 5 one_queued.retries ≡ none
unfolding lookup
never_tried = refl

fail_turns_max_example :
    (((fail_turns 5 5 "degraded" one_queued).stack ≡ 5 ∷ 4 ∷ [])
      × (member 5 (fail_turns 5 5 "degraded" one_queued).queued ≡ true)
      × (tries_of (lookup 5 (fail_turns 5 5 "degraded" one_queued).retries) ≡ 5))
    × ((error_of (fail_turns max_retries 5 "degraded" one_queued) 5
          ≡ some (gave_up max_retries "degraded"))
        × ((fail_turns max_retries 5 "degraded" one_queued).stack ≡ 4 ∷ [])
        × (member 5 (fail_turns max_retries 5 "degraded" one_queued).queued ≡ false)
        × (lookup 5 (fail_turns max_retries 5 "degraded" one_queued).retries ≡ none))
fail_turns_max_example = fail_turns_max 5 "degraded" (4 ∷ []) one_queued refl is_queued never_tried
