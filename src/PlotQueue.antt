-- ===== src/PlotQueue.antt =====
-- `PlotQueue` of server.py (python/lsst/ts/donut_server/server.py): the jobs waiting to be drawn,
-- newest first, and the bookkeeping of the drain loops. A job id is a token that is only compared.
-- The children: Schedule has the drain loops as steps of a schedule, the others the proofs.
pub mod Schedule
pub mod Counts
pub mod Invariant
pub mod Taken
pub mod Steps
pub mod Retries
use Prim.Native.String.{String}
use donut_server.Prelude.{
  ℕ, zero, suc, ◌+◌, Bool, true, false, ◌||◌, Option, none, some, List, [], ◌∷◌, map, ltb, leb, eqb,
  if◌then◌else◌, length, lookup, erase, put, evict, nat_eq,
}

abbrev pub JobId : Type 0
JobId = ℕ

-- PLOT_ERROR_CAP and PLOT_MAX_RETRIES
abbrev pub error_cap : ℕ
error_cap = 256

abbrev pub max_retries : ℕ
max_retries = 6

-- what `_errors` holds for a job: the reply's message or its default, the message of an attempt
-- too many, or that of another exception
pub data PlotError : Type 0 where
  plotting_failed : PlotError
  reported raised : String → PlotError
  gave_up : ℕ → String → PlotError

-- The head of `stack` is the end of the Python list, which `append` and `pop` use. `queued` is the
-- set beside it; the others are dicts. `wake` is the flag of the event.
pub record PlotQueue : Type 0 where
  pub n_flights : ℕ
  pub stack : List JobId
  pub queued : List JobId
  pub drawing : List (ℕ × JobId)
  pub errors : List (JobId × PlotError)
  pub retries : List (JobId × ℕ)
  pub wake : Bool

unfoldable pub init : ℕ → PlotQueue
init n = record {
  n_flights = n;
  stack = [];
  queued = [];
  drawing = [];
  errors = [];
  retries = [];
  wake = false;
}

unfoldable pub member : ℕ → List ℕ → Bool
member j [] = false
member j (i ∷ is) = eqb i j || member j is

-- set.add and set.discard
unfoldable pub add : ℕ → List ℕ → List ℕ
unfolding member
add j s = if member j s then s else j ∷ s

unfoldable pub discard : ℕ → List ℕ → List ℕ
discard j [] = []
discard j (i ∷ is) = let rest = discard j is in if eqb i j then rest else i ∷ rest

-- self._drawing.values()
abbrev pub values : List (ℕ × JobId) → List JobId
values d = map (λ e. e.1) d

pub data Place : Type 0 where
  is_drawing is_queued : Place

unfoldable pub state_of : PlotQueue → JobId → Option Place
state_of q j =
    if member j (values q.drawing)
    then some is_drawing
    else if member j q.queued
    then some is_queued
    else none

unfoldable pub error_of : PlotQueue → JobId → Option PlotError
error_of q j = lookup j q.errors

unfoldable pub record_error : JobId → PlotError → PlotQueue → PlotQueue
record_error j message q = record q { errors = evict error_cap (put j message (erase j q.errors)) }

unfoldable pub enqueue : PlotQueue → JobId → PlotQueue × Bool
enqueue q j =
    if eqb q.n_flights 0
    then (q, false)
    else if member j q.queued || member j (values q.drawing)
    then (q, false)
    else (
      record q {
        queued = add j q.queued;
        stack = j ∷ q.stack;
        errors = erase j q.errors;
        wake = true;
      },
      true,
    )

-- the loop of `_take`: the job, the stack and the set that are left
unfoldable pub take_from : List JobId → List JobId → Option JobId × List JobId × List JobId
take_from [] queued = (none, [], queued)
take_from (j ∷ stack) queued =
    let rest = take_from stack queued in
    if member j queued then (some j, stack, discard j queued) else rest

unfoldable pub take_job : PlotQueue → Option JobId × PlotQueue
take_job q =
    let (job, stack, queued) = take_from q.stack q.queued in
    (job, record q { stack = stack; queued = queued })

-- How `flight.send_command` ends in `_drain`: a reply with ok or with an error, a cancellation, a
-- lost or unavailable child, or another exception.
pub data Outcome : Type 0 where
  drawn : Outcome
  refused : Option String → Outcome
  cancelled : Outcome
  unusable failed : String → Outcome

abbrev pub refusal : Option String → PlotError
refusal none = plotting_failed
refusal (some text) = reported text

-- self._retries.get(job_id, 0)
abbrev pub tries_of : Option ℕ → ℕ
tries_of none = 0
tries_of (some n) = n

-- what `_drain` puts back without waking anyone
unfoldable pub put_back : JobId → PlotQueue → PlotQueue
put_back j q = record q { queued = add j q.queued; stack = j ∷ q.stack }

-- The `try` of `_drain` after `send_command`, up to the `finally` and to the sleep of the branch
-- for an unusable flight.
unfoldable pub handle : JobId → Outcome → PlotQueue → PlotQueue
unfolding record_error put_back
handle j drawn q = record q { retries = erase j q.retries }
handle j (refused text) q = record_error j (refusal text) (record q { retries = erase j q.retries })
handle j cancelled q = put_back j q
handle j (unusable text) q =
    let tries = tries_of (lookup j q.retries) + 1 in
    let given_up = record_error j (gave_up tries text) (record q { retries = erase j q.retries }) in
    let again = put_back j (record q { retries = put j tries q.retries }) in
    if leb max_retries tries then given_up else record again { errors = erase j again.errors }
handle j (failed text) q = record_error j (raised text) (record q { retries = erase j q.retries })

-- the `finally`
unfoldable pub drop_drawing : ℕ → PlotQueue → PlotQueue
drop_drawing index q = record q { drawing = erase index q.drawing }
