-- ===== src/Flights.antt =====
-- `FlightPool` of server.py (python/lsst/ts/donut_server/server.py): which of the coordinator
-- processes serves a prepare, which one a push, and which jobs a lost process fails. A job id is a
-- token that is only compared; a prepare's command is a type with an equality; times are ticks.
-- The children: Select is about the choice of a flight, Losses about the jobs and the
-- routes, Verdict about the pool's one state.
pub mod Select
pub mod Losses
pub mod Verdict
use Prim.Native.String.{String}
use donut_server.Prelude.{
  ℕ, zero, suc, ◌+◌, ◌-◌, Bool, true, false, ◌&&◌, ◌||◌, not, Option, none, some, List, [], ◌∷◌,
  ltb, leb, eqb, if◌then◌else◌, Eq, ◌==◌, nat_eq, lookup, put, keep_if, get_elem?,
}

-- `CoordState`
pub data CoordState : Type 0 where
  starting ready restarting degraded stopping : CoordState

-- `JobState`
pub data JobState : Type 0 where
  prepared receiving computing done error : JobState

-- what `_fail_jobs` writes into a record
pub data JobError : Type 0 where
  lost_during : JobState → String → JobError
  other_error : String → JobError

pub record JobRecord : Type 0 where
  pub state : JobState
  pub error_text : Option JobError

-- the fields of `Coord` that the pool reads
pub record Coord (Command : Type 0) : Type 0 where
  pub index : ℕ
  pub state : CoordState
  pub primed_args : Option Command
  pub in_flight : ℕ
  pub locked : Bool

-- JOBS
abbrev pub Jobs : Type 0
Jobs = List (ℕ × JobRecord)

abbrev pub is_ready : CoordState → Bool
is_ready ready = true
is_ready starting = false
is_ready restarting = false
is_ready degraded = false
is_ready stopping = false

-- record.state in (RECEIVING, COMPUTING)
abbrev pub is_mid_flight : JobState → Bool
is_mid_flight receiving = true
is_mid_flight computing = true
is_mid_flight prepared = false
is_mid_flight done = false
is_mid_flight error = false

unfoldable pub same_index : Option ℕ → ℕ → Bool
same_index none index = false
same_index (some i) index = eqb i index

module _ (by_job : List (ℕ × ℕ)) (index : ℕ) (reason : String) where
  -- one record of `_fail_jobs`
  unfoldable pub fail_job : ℕ → JobRecord → JobRecord
  unfolding same_index
  fail_job job record_ =
      if same_index (lookup job by_job) index && is_mid_flight record_.state
      then record { state = error; error_text = some (lost_during record_.state reason) }
      else record_

  unfoldable pub fail_jobs : Jobs → Jobs
  unfolding fail_job
  fail_jobs [] = []
  fail_jobs ((job, record_) ∷ jobs) = (job, fail_job job record_) ∷ fail_jobs jobs

-- `_last_used[i]`, for an index of the pool
unfoldable pub used_at : List ℕ → ℕ → ℕ
used_at [] i = 0
used_at (t ∷ times) zero = t
used_at (t ∷ times) (suc i) = used_at times i

unfoldable pub set_used : ℕ → ℕ → List ℕ → List ℕ
set_used i now [] = []
set_used zero now (t ∷ times) = now ∷ times
set_used (suc i) now (t ∷ times) = t ∷ set_used i now times

-- The pool's own state: the routing table and the time of the last use of each flight.
pub record Routes : Type 0 where
  pub by_job : List (ℕ × ℕ)
  pub last_used : List ℕ

abbrev pub is_degraded : CoordState → Bool
is_degraded degraded = true
is_degraded starting = false
is_degraded ready = false
is_degraded restarting = false
is_degraded stopping = false

abbrev pub is_stopping : CoordState → Bool
is_stopping stopping = true
is_stopping starting = false
is_stopping ready = false
is_stopping restarting = false
is_stopping degraded = false

abbrev pub is_restarting : CoordState → Bool
is_restarting restarting = true
is_restarting starting = false
is_restarting ready = false
is_restarting degraded = false
is_restarting stopping = false

-- `queue_depth`, and the two ends of `queued`, on the list of counts
unfoldable pub queue_depth : List ℕ → ℕ → ℕ
queue_depth [] i = 0
queue_depth (n ∷ counts) zero = n
queue_depth (n ∷ counts) (suc i) = queue_depth counts i

unfoldable pub enter_queue : ℕ → List ℕ → List ℕ
enter_queue i [] = []
enter_queue zero (n ∷ counts) = (n + 1) ∷ counts
enter_queue (suc i) (n ∷ counts) = n ∷ enter_queue i counts

unfoldable pub leave_queue : ℕ → List ℕ → List ℕ
leave_queue i [] = []
leave_queue zero (n ∷ counts) = (n - 1) ∷ counts
leave_queue (suc i) (n ∷ counts) = n ∷ leave_queue i counts

unfoldable pub flight_of : ℕ → Routes → Option ℕ
flight_of job r = lookup job r.by_job

module _ {Command : Type 0} where
  unfoldable pub busy : Coord Command → Bool
  busy coord = ltb 0 coord.in_flight || coord.locked

  -- `min` keeps the first of equal ones
  unfoldable pub oldest : List ℕ → Coord Command → List (Coord Command) → Coord Command
  unfolding used_at
  oldest last_used best [] = best
  oldest last_used best (c ∷ coords) =
      if ltb (used_at last_used c.index) (used_at last_used best.index)
      then oldest last_used c coords
      else oldest last_used best coords

  -- `_lru`; `none` is `min` of an empty sequence
  unfoldable pub lru : List ℕ → List (Coord Command) → Option (Coord Command)
  unfolding oldest
  lru last_used [] = none
  lru last_used (c ∷ coords) = some (oldest last_used c coords)

  module _ ⦃e : Eq Command⦄ where
    unfoldable pub primed_with : Command → Option Command → Bool
    primed_with command none = false
    primed_with command (some args) = args == command

    unfoldable pub first_primed : Command → List (Coord Command) → Option (Coord Command)
    unfolding primed_with
    first_primed command [] = none
    first_primed command (c ∷ coords) =
        if primed_with command c.primed_args then some c else first_primed command coords

    -- idle or self.flights
    abbrev pub or_all : List (Coord Command) → List (Coord Command) → List (Coord Command)
    or_all [] all = all
    or_all (c ∷ idle) all = c ∷ idle

    unfoldable pub select : List ℕ → List (Coord Command) → Command → Option (Coord Command)
    unfolding busy lru first_primed
    select last_used flights command =
        let ready_ones = keep_if (λ c. is_ready c.state) flights in
        elim (first_primed command ready_ones) [
          | some c ↦ some c
          | none ↦ lru last_used (or_all (keep_if (λ c. not (busy c)) ready_ones) flights)
        ]

  unfoldable pub route : ℕ → Coord Command → ℕ → Routes → Routes
  unfolding set_used
  route job coord now r = record {
    by_job = put job coord.index r.by_job;
    last_used = set_used coord.index now r.last_used;
  }

  -- the fallback of `for_push`
  unfoldable pub invent : ℕ → Option (Coord Command) → Routes → Option (Coord Command) × Routes
  invent job none r = (none, r)
  invent job (some coord) r = (some coord, record r { by_job = put job coord.index r.by_job })

  -- `none` is an IndexError or the `min` of an empty pool
  unfoldable pub for_push : List (Coord Command) → ℕ → Routes → Option (Coord Command) × Routes
  unfolding lru invent
  for_push flights job r = elim (lookup job r.by_job) [
    | none ↦ invent job (lru r.last_used flights) r
    | some index ↦ (get_elem? flights index, r)
  ]

  unfoldable pub holds_state : (CoordState → Bool) → List (Coord Command) → Bool
  holds_state p [] = false
  holds_state p (c ∷ coords) = p c.state || holds_state p coords

  -- `state`
  unfoldable pub pool_state : List (Coord Command) → CoordState
  unfolding holds_state
  pool_state flights =
      if holds_state is_ready flights
      then ready
      else (if holds_state is_degraded flights
          then degraded
          else (if holds_state is_stopping flights
              then stopping
              else (if holds_state is_restarting flights then restarting else starting)))
