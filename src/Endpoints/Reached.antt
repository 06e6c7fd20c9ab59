-- ===== src/Endpoints/Reached.antt =====
-- The states that the interleaved handlers of server.py reach.
use donut_server.Prelude.{
  ℕ, ◌≡◌, refl, ap, ◌∙◌, inl, inr, Bool, true, false, Option, none, some, ◌∷◌, arith, nat_eq,
  lookup, put, lookup-put, ==_refl, All-put, lookup-All, subst, Option-cases,
}
use donut_server.Bytes.{Bytes}
use donut_server.Exec.{ok}
use donut_server.PlotQueue.{PlotQueue}
use donut_server.Flights.{JobState, prepared, receiving, computing, done, error}
use donut_server.Endpoints.{
  Answer, answered, refused, lost, Job, Front, with_state, with_error, set_job, prepare_replied,
  if_prepared, bad_workers, startable, finish, note_visit,
}
use donut_server.Endpoints.Interleaved.{
  Handlers, Step, prepares, submits, starts, receives, rejects, sends, finishes, loses, Reach,
  first, next, with_front, end_prepare, end_submit_prepare,
}
use donut_server.Endpoints.Kept.{
  WasGiven, IsBacked, Prepared, IsKept, put-IsKept, given-IsKept, key_of,
}
use donut_server.Endpoints.Lost.{lost-IsKept}

module _ (Key Result : Type 0) where
  if_prepared-ok :
      (state : JobState) (bad : Bool) (j job : Job Key Result)
      → if_prepared Key Result state bad j ≡ ok job
      → (state ≡ prepared) × (j ≡ job)
  if_prepared-ok prepared true j job h = absurd (ground arith)
  if_prepared-ok prepared false j job h = (refl, cc)
  if_prepared-ok receiving bad j job h = absurd (ground arith)
  if_prepared-ok computing bad j job h = absurd (ground arith)
  if_prepared-ok done bad j job h = absurd (ground arith)
  if_prepared-ok error bad j job h = absurd (ground arith)

  startable-ok :
      (id : ℕ) (workers : Option ℕ) (f : Front Key Result) (job : Job Key Result)
      → startable Key Result id workers f ≡ ok job
      → (lookup id f.jobs ≡ some job) × (job.base.state ≡ prepared)
  unfolding startable
  startable-ok id workers f job h = elim (Option-cases (lookup id f.jobs)) [
    | inl missing ↦ absurd (ground (arith, h, missing))
    | inr (j, at) ↦
        let went : if_prepared Key Result j.base.state (bad_workers workers) j ≡ ok job =
          ground (arith, h, at) in
        let (state, same) = if_prepared-ok j.base.state (bad_workers workers) j job went in
        (at ∙ ap some same, subst (λ x. x.base.state ≡ prepared) same state)
  ]

  started-IsKept :
      (h : Handlers Key Result) (id : ℕ) (workers : Option ℕ) (job : Job Key Result)
      → IsKept Key Result h
      → startable Key Result id workers h.front ≡ ok job
      → IsKept Key Result (record h { started = id ∷ h.started })
  started-IsKept h id workers job kept ok_job =
      let (at, state) = startable-ok id workers h.front job ok_job in
      let b = lookup-All (IsBacked Key Result h.given) id job h.front.jobs kept.jobs_backed at in
      let key : WasGiven Key Result h.given id job.prepared_key = elim b.keyed [
        | inl failed ↦ absurd (ground (arith, state, failed))
        | inr k ↦ k
      ] in
      record {
        jobs_backed = kept.jobs_backed;
        started_prepared = ((job, at, key), kept.started_prepared);
        submitted_prepared = kept.submitted_prepared;
      }

  finish-IsKept :
      (h : Handlers Key Result) (id : ℕ) (job : Job Key Result)
      (answer : Answer (Result × Option Bytes))
      → IsKept Key Result h
      → WasGiven Key Result h.given id job.prepared_key
      → IsKept Key Result (with_front Key Result (finish Key Result id job answer h.front).1 h)
  unfolding finish set_job
  finish-IsKept h id job (answered r) kept key =
      put-IsKept Key Result h _ id
        (record (with_state Key Result done job) { table_parquet = r.1; result = some r.0 }) kept
        refl refl (record { backed = inr (r.0, refl); keyed = inr key }) (inl key)
  finish-IsKept h id job (refused why operator) kept key =
      put-IsKept Key Result h _ id (with_error Key Result why job) kept refl refl
        (record { backed = inl refl; keyed = inl refl }) (inl key)
  finish-IsKept h id job (lost why) kept key =
      put-IsKept Key Result h _ id (with_error Key Result why job) kept refl refl
        (record { backed = inl refl; keyed = inl refl }) (inl key)

  end_prepare-IsKept :
      (h : Handlers Key Result) (id : ℕ) (answer : Answer (Option Key))
      → IsKept Key Result h
      → lookup id h.front.jobs ≡ none
      → IsKept Key Result (end_prepare Key Result id answer h)
  unfolding prepare_replied set_job
  end_prepare-IsKept h id (answered key) kept fresh =
      let given : lookup id (put id key h.given) ≡ some key =
        ground (arith, lookup-put id id key h.given, ==_refl ⦃e = nat_eq⦄ id) in
      put-IsKept Key Result (record h { given = put id key h.given }) _ id _
        (given-IsKept Key Result h id key fresh kept) refl refl
        (record { backed = inl refl; keyed = inr given }) (inr fresh)
  end_prepare-IsKept h id (refused why operator) kept fresh =
      put-IsKept Key Result h _ id _ kept refl refl (record { backed = inl refl; keyed = inl refl })
        (inr fresh)
  end_prepare-IsKept h id (lost why) kept fresh = kept

  -- the record that the prepare leaves
  abbrev prepared_job : Option Key → Job Key Result
  prepared_job key = record {
    base = record { state = prepared; error_text = none };
    prepared_key = key;
    table_parquet = none;
    result = none;
  }

  end_prepare-Prepared :
      (h : Handlers Key Result) (id : ℕ) (key : Option Key)
      → let k = end_prepare Key Result id (answered key) h in
        Prepared Key Result k.front.jobs k.given id
  unfolding prepare_replied set_job
  end_prepare-Prepared h id key = (
    prepared_job key,
    ground (arith, lookup-put id id (prepared_job key) h.front.jobs, ==_refl ⦃e = nat_eq⦄ id),
    ground (arith, lookup-put id id key h.given, ==_refl ⦃e = nat_eq⦄ id),
  )

  note_visit-IsKept :
      (h : Handlers Key Result) (visit : Option ℕ) (id : ℕ)
      → IsKept Key Result h
      → Prepared Key Result h.front.jobs h.given id
      → IsKept Key Result (with_front Key Result (note_visit Key Result visit id h.front) h)
  note_visit-IsKept h none id kept job = kept
  note_visit-IsKept h (some visit) id kept job = record {
    jobs_backed = kept.jobs_backed;
    started_prepared = kept.started_prepared;
    submitted_prepared =
        All-put (λ e. Prepared Key Result h.front.jobs h.given e.1) visit id h.front.submitted
          kept.submitted_prepared job;
  }

  end_submit_prepare-IsKept :
      (h : Handlers Key Result) (visit : Option ℕ) (id : ℕ) (answer : Answer (Option Key))
      → IsKept Key Result h
      → lookup id h.front.jobs ≡ none
      → IsKept Key Result (end_submit_prepare Key Result visit id answer h)
  end_submit_prepare-IsKept h visit id (answered key) kept fresh =
      note_visit-IsKept (end_prepare Key Result id (answered key) h) visit id
        (end_prepare-IsKept h id (answered key) kept fresh) (end_prepare-Prepared h id key)
  end_submit_prepare-IsKept h visit id (refused why operator) kept fresh =
      end_prepare-IsKept h id (refused why operator) kept fresh
  end_submit_prepare-IsKept h visit id (lost why) kept fresh =
      end_prepare-IsKept h id (lost why) kept fresh

  Step-IsKept :
      (h k : Handlers Key Result) → Step Key Result h k → IsKept Key Result h → IsKept Key Result k
  unfolding set_job
  Step-IsKept h _ (prepares id answer fresh) kept = end_prepare-IsKept h id answer kept fresh
  Step-IsKept h _ (submits visit id answer fresh) kept =
      end_submit_prepare-IsKept h visit id answer kept fresh
  Step-IsKept h _ (starts id workers job ok_job) kept = started-IsKept h id workers job kept ok_job
  Step-IsKept h _ (receives id job started at) kept =
      let key = key_of Key Result h id job kept started at in
      put-IsKept Key Result h _ id (with_state Key Result receiving job) kept refl refl
        (record { backed = inl refl; keyed = inr key }) (inl key)
  Step-IsKept h _ (rejects id job why started at) kept =
      put-IsKept Key Result h _ id (with_error Key Result why job) kept refl refl
        (record { backed = inl refl; keyed = inl refl })
        (inl (key_of Key Result h id job kept started at))
  Step-IsKept h _ (sends id job started at) kept =
      let key = key_of Key Result h id job kept started at in
      put-IsKept Key Result h _ id (with_state Key Result computing job) kept refl refl
        (record { backed = inl refl; keyed = inr key }) (inl key)
  Step-IsKept h _ (finishes id job answer started at) kept =
      finish-IsKept h id job answer kept (key_of Key Result h id job kept started at)
  Step-IsKept h _ (loses by_job index reason) kept =
      lost-IsKept Key Result h by_job index reason kept

  -- In every state that interleaved handlers and losses of processes reach from empty JOBS and
  -- SUBMITTED, a job that is DONE has its result, one that is not in error has the key, or none, with
  -- which its prepare was answered, and so has every job whose ingest or push has started and every
  -- job that SUBMITTED has for a visit, and these have a record in JOBS.
  pub Reach-IsKept :
      (plots : PlotQueue) (h : Handlers Key Result) → Reach Key Result plots h → IsKept Key Result h
  Reach-IsKept plots _ first = record {
    jobs_backed = tt;
    started_prepared = tt;
    submitted_prepared = tt;
  }
  Reach-IsKept plots k (next {h = h} r step) = Step-IsKept h k step (Reach-IsKept plots h r)
