-- ===== src/Endpoints.antt =====
-- The handlers of server.py (python/lsst/ts/donut_server/server.py) that change JOBS and SUBMITTED:
-- prepare, submit, ingest and push, each as what it does before and after its await of the
-- coordinator. Answers of the coordinator, and the bytes of a body, are arguments.
pub mod Receive
pub mod Chunks
pub mod Pixels
pub mod Outcomes
pub mod Submit
pub mod Once
pub mod Interleaved
pub mod Kept
pub mod Lost
pub mod Reached
use Prim.Native.String.{String}
use donut_server.Prelude.{
  ℕ, ◌+◌, ◌≡◌, Bool, true, false, ◌&&◌, ◌||◌, not, Option, none, some, List, [], ◌∷◌, if◌then◌else◌,
  ltb, eqb, nat_eq, lookup, put,
}
use donut_server.Bytes.{Bytes, Name, Codec, list_eqb}
use donut_server.Exec.{Outcome, ok, raise}
use donut_server.Protocol as Wire
use donut_server.Protocol.{PartLayout}
use donut_server.PlotQueue.{PlotQueue, enqueue}
use donut_server.Flights.{
  JobState, prepared, receiving, computing, done, error, JobRecord, other_error,
}
use Receive.{Reception, refused_early, stranded, bad_layout, received}

-- what the handlers refuse with
pub data Problem : Type 0 where
  bad_request unknown_job : Problem
  wrong_state : JobState → Problem
  too_large : Problem
  bad_blob : Wire.Error → Problem
  task_failed : String → Problem
  coordinator_lost : String → Problem
  submitted_as : ℕ → Problem
  internal : Problem

unfoldable pub status_of : Problem → ℕ
status_of bad_request = 400
status_of unknown_job = 404
status_of (wrong_state state) = 409
status_of too_large = 413
status_of (bad_blob why) = 400
status_of (task_failed why) = 500
status_of (coordinator_lost why) = 503
status_of (submitted_as job) = 409
status_of internal = 500

-- What `send_command` returns, an answer that is ok or not, or raises. The flag is whether the kind of
-- an error is one of an operator's.
pub data Answer (R : Type 0) : Type 0 where
  answered : R → Answer R
  refused : String → Bool → Answer R
  lost : String → Answer R

-- DARK, BIAS and FLAT, and CWFS, ACQ, SCIENCE and OBJECT
abbrev pub skip_imgtypes : List Name
skip_imgtypes =
    (b'D' ∷ b'A' ∷ b'R' ∷ b'K' ∷ [])
    ∷ (b'B' ∷ b'I' ∷ b'A' ∷ b'S' ∷ [])
    ∷ (b'F' ∷ b'L' ∷ b'A' ∷ b'T' ∷ [])
    ∷ []

abbrev pub expected_imgtypes : List Name
expected_imgtypes =
    (b'C' ∷ b'W' ∷ b'F' ∷ b'S' ∷ [])
    ∷ (b'A' ∷ b'C' ∷ b'Q' ∷ [])
    ∷ (b'S' ∷ b'C' ∷ b'I' ∷ b'E' ∷ b'N' ∷ b'C' ∷ b'E' ∷ [])
    ∷ (b'O' ∷ b'B' ∷ b'J' ∷ b'E' ∷ b'C' ∷ b'T' ∷ [])
    ∷ []

unfoldable pub among : Name → List Name → Bool
among name [] = false
among name (n ∷ names) = list_eqb n name || among name names

-- num_workers is not None and num_workers < 1
abbrev pub bad_workers : Option ℕ → Bool
bad_workers none = false
bad_workers (some n) = ltb n 1

-- what the resolve of a directory found
pub record Exposure : Type 0 where
  pub visit : Option ℕ
  pub imgtype : Name

-- the members of a submit's body that are flags
pub record Flags : Type 0 where
  pub any_imgtype : Bool
  pub resubmit : Bool
  pub dry_run : Bool

-- `Result` is a coordinator's result without its table.
module _ (Key Result : Type 0) where
  -- `JobRecord`, the part that the pool reads and the rest
  pub record Job : Type 0 where
    pub base : JobRecord
    pub prepared_key : Option Key
    pub table_parquet : Option Bytes
    pub result : Option Result

  -- JOBS, SUBMITTED and the plot pool's queue
  pub record Front : Type 0 where
    pub jobs : List (ℕ × Job)
    pub submitted : List (ℕ × ℕ)
    pub plots : PlotQueue

  pub data Response : Type 0 where
    -- with the job's id and its state
    job_in : ℕ → JobState → Response
    -- with whether the reply has a note on the image type
    submitted_job : ℕ → Bool → Response
    dry_run_of skipped : Exposure → Response

  abbrev pub Reply : Type 0
  Reply = Outcome Problem Response

  abbrev pub with_state : JobState → Job → Job
  with_state state job = record job { base = record job.base { state = state } }

  abbrev pub with_error : String → Job → Job
  with_error why job = record job {
    base = record { state = error; error_text = some (other_error why) };
  }

  unfoldable pub set_job : ℕ → Job → Front → Front
  set_job id job f = record f { jobs = put id job f.jobs }

  -- `SUBMITTED[visit] = job_id`, where there is a visit
  abbrev pub note_visit : Option ℕ → ℕ → Front → Front
  note_visit none id f = f
  note_visit (some visit) id f = record f { submitted = put visit id f.submitted }

  -- The end of `prepare`, for a fresh id. The key is the reply's, or none if it has none.
  unfoldable pub prepare_replied : ℕ → Answer (Option Key) → Front → Reply × Front
  unfolding set_job
  prepare_replied id (answered key) f = (
    ok (job_in id prepared),
    set_job id
        (record {
          base = record { state = prepared; error_text = none };
          prepared_key = key;
          table_parquet = none;
          result = none;
        })
        f,
  )
  prepare_replied id (refused why operator) f = (
    raise (if operator then bad_request else task_failed why),
    set_job id
        (record {
          base = record { state = error; error_text = some (other_error why) };
          prepared_key = none;
          table_parquet = none;
          result = none;
        })
        f,
  )
  prepare_replied id (lost why) f = (raise (coordinator_lost why), f)

  abbrev pub if_prepared : JobState → Bool → Job → Outcome Problem Job
  if_prepared prepared bad job = if bad then raise bad_request else ok job
  if_prepared receiving bad job = raise (wrong_state receiving)
  if_prepared computing bad job = raise (wrong_state computing)
  if_prepared done bad job = raise (wrong_state done)
  if_prepared error bad job = raise (wrong_state error)

  -- the guards that `ingest` and `push` share
  unfoldable pub startable : ℕ → Option ℕ → Front → Outcome Problem Job
  startable id workers f = elim (lookup id f.jobs) [
    | none ↦ raise unknown_job
    | some job ↦ if_prepared job.base.state (bad_workers workers) job
  ]

  -- a refusal changes nothing
  abbrev pub or_refuse : Outcome Problem Job → Front → (Job → Reply × Front) → Reply × Front
  or_refuse (raise why) f k = (raise why, f)
  or_refuse (ok job) f k = k job

  -- What both do with the coordinator's answer.
  unfoldable pub finish : ℕ → Job → Answer (Result × Option Bytes) → Front → Reply × Front
  unfolding set_job
  finish id job (answered r) f = (
    ok (job_in id done),
    record f {
      jobs =
          put id (record (with_state done job) { table_parquet = r.1; result = some r.0 }) f.jobs;
      plots = (enqueue f.plots id).0;
    },
  )
  finish id job (refused why operator) f =
      (raise (task_failed why), set_job id (with_error why job) f)
  finish id job (lost why) f = (raise (coordinator_lost why), set_job id (with_error why job) f)

  -- `ingest`, of a body whose directory passes its tests or not
  unfoldable pub ingest :
      ℕ → Option ℕ → Bool → Answer (Result × Option Bytes) → Front → Reply × Front
  unfolding startable finish
  ingest id workers directory_ok answer f = or_refuse (startable id workers f) f (λ job.
      if directory_ok
      then finish id (with_state computing job) answer (set_job id (with_state computing job) f)
      else (raise bad_request, f))

  -- The rest of a push, after its body. The message of a bad layout stands for the exception's text.
  unfoldable pub push_received :
      ℕ → Job → Reception → Answer (Result × Option Bytes) → Front → Reply × Front
  unfolding finish
  push_received id job (refused_early true) answer f = (raise too_large, f)
  push_received id job (refused_early false) answer f = (raise bad_request, f)
  push_received id job (stranded true) answer f =
      (raise too_large, set_job id (with_state receiving job) f)
  push_received id job (stranded false) answer f =
      (raise internal, set_job id (with_state receiving job) f)
  push_received id job (bad_layout why) answer f =
      (raise (bad_blob why), set_job id (with_error "bad layout" job) f)
  push_received id job (received layout view) answer f =
      finish id (with_state computing job) answer (set_job id (with_state computing job) f)

  -- `push`, on the flight's shared block
  unfoldable pub push :
      Codec
      → ℕ
      → Option ℕ
      → Bytes
      → List Bytes
      → Answer (Result × Option Bytes)
      → Front
      → Reply × Front
  unfolding startable push_received Receive.receive
  push c id workers view chunks answer f =
      or_refuse (startable id workers f) f
        (λ job. push_received id job (Receive.receive c view chunks) answer f)
