-- ===== src/Endpoints/Interleaved.antt =====
-- The handlers of server.py interleaved at their awaits, over JOBS and SUBMITTED: each step is what one
-- of them does between two awaits. `started` has the jobs whose guard an ingest or a push has passed;
-- as in the code, the guard is not looked at again later. `given` is not in the code: it has the key,
-- or none, with which the coordinator answered the prepare of each job.
use Prim.Native.String.{String}
use donut_server.Prelude.{ℕ, ◌≡◌, Option, none, some, List, [], ◌∷◌, nat_eq, lookup, put, In}
use donut_server.Bytes.{Bytes}
use donut_server.Exec.{ok}
use donut_server.PlotQueue.{PlotQueue}
use donut_server.Flights.{receiving, computing, fail_job}
use donut_server.Endpoints.{
  Answer, answered, refused, lost, note_visit, Job, Front, with_state, with_error, set_job,
  prepare_replied, startable, finish,
}

module _ (Key Result : Type 0) where
  pub record Handlers : Type 0 where
    pub front : Front Key Result
    pub started : List ℕ
    pub given : List (ℕ × Option Key)

  -- JOBS and SUBMITTED are empty at first
  abbrev pub idle : PlotQueue → Handlers
  idle plots = record {
    front = record { jobs = []; submitted = []; plots = plots };
    started = [];
    given = [];
  }

  abbrev pub note_given : ℕ → Answer (Option Key) → List (ℕ × Option Key) → List (ℕ × Option Key)
  note_given id (answered key) given = put id key given
  note_given id (refused why operator) given = given
  note_given id (lost why) given = given

  -- the end of a prepare
  abbrev pub end_prepare : ℕ → Answer (Option Key) → Handlers → Handlers
  end_prepare id answer h = record h {
    front = (prepare_replied Key Result id answer h.front).1;
    given = note_given id answer h.given;
  }

  -- `_fail_jobs`, for the flight at `index`
  unfoldable pub lose :
      List (ℕ × ℕ) → ℕ → String → List (ℕ × Job Key Result) → List (ℕ × Job Key Result)
  lose by_job index reason [] = []
  lose by_job index reason ((id, job) ∷ jobs) =
      (id, record job { base = fail_job by_job index reason id job.base })
      ∷ lose by_job index reason jobs

  abbrev pub with_front : Front Key Result → Handlers → Handlers
  with_front f h = record h { front = f }

  abbrev pub end_submit_prepare : Option ℕ → ℕ → Answer (Option Key) → Handlers → Handlers
  end_submit_prepare visit id (answered key) h =
      let k = end_prepare id (answered key) h in
      with_front (note_visit Key Result visit id k.front) k
  end_submit_prepare visit id (refused why operator) h = end_prepare id (refused why operator) h
  end_submit_prepare visit id (lost why) h = end_prepare id (lost why) h

  pub data Step (h : Handlers) : Handlers → Type 0 where
    -- the end of a prepare, with a fresh id
    prepares :
        (id : ℕ) (answer : Answer (Option Key))
        → lookup id h.front.jobs ≡ none
        → Step h (end_prepare id answer h)
    -- The end of the prepare of a `submit`, which goes on with no await to note the visit, unless the
    -- prepare raised.
    submits :
        (visit : Option ℕ) (id : ℕ) (answer : Answer (Option Key))
        → lookup id h.front.jobs ≡ none
        → Step h (end_submit_prepare visit id answer h)
    -- an ingest or a push passes its guard
    starts :
        (id : ℕ) (workers : Option ℕ) (job : Job Key Result)
        → startable Key Result id workers h.front ≡ ok job
        → Step h (record h { started = id ∷ h.started })
    -- the header of a push has arrived
    receives :
        (id : ℕ) (job : Job Key Result)
        → In id h.started
        → lookup id h.front.jobs ≡ some job
        → Step h
            (with_front (set_job Key Result id (with_state Key Result receiving job) h.front) h)
    -- its layout is bad
    rejects :
        (id : ℕ) (job : Job Key Result) (why : String)
        → In id h.started
        → lookup id h.front.jobs ≡ some job
        → Step h (with_front (set_job Key Result id (with_error Key Result why job) h.front) h)
    -- the command is sent
    sends :
        (id : ℕ) (job : Job Key Result)
        → In id h.started
        → lookup id h.front.jobs ≡ some job
        → Step h
            (with_front (set_job Key Result id (with_state Key Result computing job) h.front) h)
    -- the coordinator has answered, or is lost
    finishes :
        (id : ℕ) (job : Job Key Result) (answer : Answer (Result × Option Bytes))
        → In id h.started
        → lookup id h.front.jobs ≡ some job
        → Step h (with_front (finish Key Result id job answer h.front).1 h)
    -- the pool fails the jobs of a lost process
    loses :
        (by_job : List (ℕ × ℕ)) (index : ℕ) (reason : String)
        → Step h (with_front (record (h.front) { jobs = lose by_job index reason h.front.jobs }) h)

  pub data Reach (plots : PlotQueue) : Handlers → Type 0 where
    first : Reach plots (idle plots)
    next : {h k : Handlers} → Reach plots h → Step h k → Reach plots k
