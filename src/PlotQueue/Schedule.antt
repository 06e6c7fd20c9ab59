-- ===== src/PlotQueue/Schedule.antt =====
-- The drain loops of the plot flights over their one queue, as steps of a schedule. asyncio runs
-- one task at a time, so a step is what a task does between two awaits.
use donut_server.Prelude.{
  ℕ, zero, suc, Bool, true, false, Option, none, some, List, [], ◌∷◌, map, put, nat_eq, get_elem?,
  replicate, ◌≡◌,
}
use donut_server.PlotQueue.{
  JobId, PlotQueue, init, Outcome, unusable, cancelled, enqueue, take_job, handle, drop_drawing,
}

-- Where a flight's `_drain` is: at the top of its loop, parked on `_wake.wait()`, in `send_command`
-- for a job, in the sleep after an unusable flight.
pub data Phase : Type 0 where
  running parked sleeping : Phase
  sending : JobId → Phase

pub record State : Type 0 where
  pub queue : PlotQueue
  -- one for each flight, by its index
  pub phases : List Phase

unfoldable pub start : ℕ → State
start n = record { queue = init n; phases = replicate n running }

abbrev pub set_phase : List Phase → ℕ → Phase → List Phase
set_phase [] i p = []
set_phase (x ∷ xs) zero p = p ∷ xs
set_phase (x ∷ xs) (suc i) p = x ∷ set_phase xs i p

-- `Event.set()` lets every waiter go on, even if the flag is cleared before it runs.
abbrev pub woken : Phase → Phase
woken parked = running
woken p = p

unfoldable pub wake_all : Bool → List Phase → List Phase
wake_all true ps = map woken ps
wake_all false ps = ps

-- a call of `enqueue` by a request handler
unfoldable pub submit : JobId → State → State
submit j s =
    let (q, accepted) = enqueue s.queue j in
    record { queue = q; phases = wake_all accepted s.phases }

-- The top of the loop. A flight that finds nothing clears the event, looks at the stack again and
-- parks only if that is empty.
unfoldable pub park : ℕ → PlotQueue → List Phase → State
park i q ps = elim q.stack [
  | [] ↦ record { queue = record q { wake = false }; phases = set_phase ps i parked }
  | j ∷ rest ↦ record { queue = record q { wake = false }; phases = ps }
]

unfoldable pub begin : ℕ → Option JobId → PlotQueue → List Phase → State
begin i none q ps = park i q ps
begin i (some j) q ps = record {
  queue = record q { drawing = put i j q.drawing };
  phases = set_phase ps i (sending j);
}

unfoldable pub turn : ℕ → State → State
turn i s = let (job, q) = take_job s.queue in begin i job q s.phases

-- the outcome of the command; an unusable flight keeps its `_drawing` entry while it sleeps
unfoldable pub settle : ℕ → JobId → Outcome → State → State
settle i j (unusable text) s = record {
  queue = handle j (unusable text) s.queue;
  phases = set_phase s.phases i sleeping;
}
settle i j outcome s = record {
  queue = drop_drawing i (handle j outcome s.queue);
  phases = set_phase s.phases i running;
}

-- the end of the sleep
unfoldable pub rouse : ℕ → State → State
rouse i s = record { queue = drop_drawing i s.queue; phases = set_phase s.phases i running }

abbrev pub IsReply : Outcome → Type 0
IsReply cancelled = ⊥
IsReply _ = Unit {0}

-- What may happen next, until the loops are cancelled at shutdown.
pub data Step (s : State) : State → Type 0 where
  request : (j : JobId) → Step s (submit j s)
  loop : (i : ℕ) → get_elem? s.phases i ≡ some running → Step s (turn i s)
  reply :
      (i : ℕ) (j : JobId) (o : Outcome)
      → IsReply o
      → get_elem? s.phases i ≡ some (sending j)
      → Step s (settle i j o s)
  slept : (i : ℕ) → get_elem? s.phases i ≡ some sleeping → Step s (rouse i s)

-- The states that a schedule reaches from a fresh queue of `n` flights.
pub data Reach (n : ℕ) : State → Type 0 where
  fresh : Reach n (start n)
  next : {s t : State} → Reach n s → Step s t → Reach n t
