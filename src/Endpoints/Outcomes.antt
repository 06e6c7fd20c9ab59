-- ===== src/Endpoints/Outcomes.antt =====
-- What a push and an ingest of server.py leave of their job, with what they answer.
use donut_server.Prelude.{
  ℕ, ◌≡◌, true, false, Option, none, some, List, arith, nat_eq, lookup, put, lookup-put, ==_refl,
}
use donut_server.Bytes.{Bytes, Codec}
use donut_server.Exec.{Outcome, ok, raise}
use donut_server.Flights.{JobState, receiving, computing, done, error}
use donut_server.Endpoints.{
  Problem, Answer, answered, refused, lost, Job, Front, job_in, Reply, with_state, set_job,
  startable, or_refuse, finish, push_received, push,
}
use donut_server.Endpoints.Receive.{
  Reception, refused_early, stranded, bad_layout, received, receive,
}

module _ (Key Result : Type 0) where
  -- the state of a job's record
  abbrev pub state_in : ℕ → List (ℕ × Job Key Result) → Option JobState
  state_in id jobs = elim (lookup id jobs) [ none ↦ none | some job ↦ some job.base.state ]

  -- The answer is the job's, and it is DONE; or it is a refusal, and the job is in error; or it is a
  -- refusal of a body on the way, and the job stays in RECEIVING; or it is a refusal and nothing
  -- changed.
  pub data Settled (id : ℕ) (f : Front Key Result)
      : Reply Key Result → Front Key Result → Type 0 where
    finished :
        (f' : Front Key Result)
        → state_in id f'.jobs ≡ some done
        → Settled id f (ok (job_in id done)) f'
    failed :
        (why : Problem) (f' : Front Key Result)
        → state_in id f'.jobs ≡ some error
        → Settled id f (raise why) f'
    left_receiving :
        (why : Problem) (f' : Front Key Result)
        → state_in id f'.jobs ≡ some receiving
        → Settled id f (raise why) f'
    unchanged : (why : Problem) → Settled id f (raise why) f

  state_in-put :
      (id : ℕ) (job : Job Key Result) (jobs : List (ℕ × Job Key Result))
      → state_in id (put id job jobs) ≡ some job.base.state
  state_in-put id job jobs = ground (arith, lookup-put id id job jobs, ==_refl ⦃e = nat_eq⦄ id)

  finish-Settled :
      (id : ℕ) (job : Job Key Result) (answer : Answer (Result × Option Bytes))
      (f g : Front Key Result)
      → Settled id g (finish Key Result id job answer f).0 (finish Key Result id job answer f).1
  unfolding finish set_job
  finish-Settled id job (answered r) f g = finished _ (state_in-put id _ f.jobs)
  finish-Settled id job (refused why operator) f g = failed _ _ (state_in-put id _ f.jobs)
  finish-Settled id job (lost why) f g = failed _ _ (state_in-put id _ f.jobs)

  push_received-Settled :
      (id : ℕ) (job : Job Key Result) (r : Reception) (answer : Answer (Result × Option Bytes))
      (f : Front Key Result)
      → Settled id f
          (push_received Key Result id job r answer f).0
          (push_received Key Result id job r answer f).1
  unfolding push_received set_job
  push_received-Settled id job (refused_early true) answer f = unchanged _
  push_received-Settled id job (refused_early false) answer f = unchanged _
  push_received-Settled id job (stranded true) answer f =
      left_receiving _ _ (state_in-put id _ f.jobs)
  push_received-Settled id job (stranded false) answer f =
      left_receiving _ _ (state_in-put id _ f.jobs)
  push_received-Settled id job (bad_layout why) answer f = failed _ _ (state_in-put id _ f.jobs)
  push_received-Settled id job (received layout view) answer f =
      finish-Settled id (with_state Key Result computing job) answer
        (set_job Key Result id (with_state Key Result computing job) f) f

  startable-Settled :
      (id : ℕ) (f : Front Key Result) (r : Outcome Problem (Job Key Result))
      (k : Job Key Result → Reply Key Result × Front Key Result)
      → ((job : Job Key Result) → Settled id f (k job).0 (k job).1)
      → Settled id f (or_refuse Key Result r f k).0 (or_refuse Key Result r f k).1
  startable-Settled id f (raise why) k h = unchanged why
  startable-Settled id f (ok job) k h = h job

  pub push-Settled :
      (c : Codec) (id : ℕ) (workers : Option ℕ) (view : Bytes) (chunks : List Bytes)
      (answer : Answer (Result × Option Bytes)) (f : Front Key Result)
      → Settled id f
          (push Key Result c id workers view chunks answer f).0
          (push Key Result c id workers view chunks answer f).1
  unfolding push
  push-Settled c id workers view chunks answer f =
      startable-Settled id f (startable Key Result id workers f)
        (λ job. push_received Key Result id job (receive c view chunks) answer f)
        (λ job. push_received-Settled id job (receive c view chunks) answer f)
