-- ===== src/Endpoints/Lost.antt =====
-- JOBS of server.py after the loss of a process, `_fail_jobs`.
use Prim.Native.String.{String}
use donut_server.Prelude.{
  ℕ, ◌≡◌, refl, sym, ap, ap₂, ◌⊎◌, inl, inr, true, false, Option, some, List, [], ◌∷◌, arith,
  nat_eq, lookup, All, All-map, subst, Bool-cases, ◌==◌, eqb_iff, ◌&&◌, if◌then◌else◌,
}
use donut_server.Flights.{error, JobRecord, same_index, fail_job, is_mid_flight}
use donut_server.Endpoints.{Job}
use donut_server.Endpoints.Interleaved.{Handlers, lose, with_front}
use donut_server.Endpoints.Kept.{is_done, is_error, HasResult, WasGiven, IsBacked, Prepared, IsKept}

module _ (Key Result : Type 0) where
  lookup-lose :
      (by_job : List (ℕ × ℕ)) (index : ℕ) (reason : String) (jobs : List (ℕ × Job Key Result))
      (id : ℕ) (job : Job Key Result)
      → lookup id jobs ≡ some job
      → lookup id (lose Key Result by_job index reason jobs)
        ≡ some (record job { base = fail_job by_job index reason id job.base })
  unfolding lookup lose
  lookup-lose by_job index reason [] id job h = absurd (ground arith)
  lookup-lose by_job index reason ((i, j) ∷ jobs) id job h = elim (Bool-cases (i == id)) [
    | inl same ↦
        let p : i ≡ id = (eqb_iff i id).0 same in
        let q : j ≡ job = ground arith in
        rw (same, if◌then◌else◌)
          (ap₂ {A = ℕ} {B = Job Key Result}
            (λ i j. some (record j { base = fail_job by_job index reason i j.base })) p q)
    | inr differ ↦ ground (arith, differ, lookup-lose by_job index reason jobs id job)
  ]

  fail_job-cases :
      (by_job : List (ℕ × ℕ)) (index : ℕ) (reason : String) (id : ℕ) (r : JobRecord)
      → (fail_job by_job index reason id r ≡ r)
        ⊎ ((fail_job by_job index reason id r).state ≡ error)
  unfolding fail_job
  fail_job-cases by_job index reason id r =
      elim (Bool-cases (same_index (lookup id by_job) index && is_mid_flight r.state)) [
        | inl hit ↦ inr (rw (hit, if◌then◌else◌) refl)
        | inr spared ↦ inl (rw (spared, if◌then◌else◌) refl)
      ]

  base-IsBacked :
      (given : List (ℕ × Option Key)) (id : ℕ) (j : Job Key Result) (base : JobRecord)
      → (base ≡ j.base) ⊎ (base.state ≡ error)
      → IsBacked Key Result given (id, j)
      → IsBacked Key Result given (id, record j { base = base })
  base-IsBacked given id j base (inl same) b = record {
    backed = subst (λ r. (is_done r.state ≡ false) ⊎ HasResult Key Result j) (sym same) b.backed;
    keyed =
        subst (λ r. (is_error r.state ≡ true) ⊎ WasGiven Key Result given id j.prepared_key)
          (sym same) b.keyed;
  }
  base-IsBacked given id j base (inr failed) b = record {
    backed = inl (ap is_done failed);
    keyed = inl (ap is_error failed);
  }

  lose-IsBacked :
      (given : List (ℕ × Option Key)) (by_job : List (ℕ × ℕ)) (index : ℕ) (reason : String)
      (jobs : List (ℕ × Job Key Result))
      → All (IsBacked Key Result given) jobs
      → All (IsBacked Key Result given) (lose Key Result by_job index reason jobs)
  unfolding lose
  lose-IsBacked given by_job index reason [] h = tt
  lose-IsBacked given by_job index reason ((i, j) ∷ jobs) h = (
    base-IsBacked given i j (fail_job by_job index reason i j.base)
        (fail_job-cases by_job index reason i j.base) h.0,
    lose-IsBacked given by_job index reason jobs h.1,
  )

  pub lost-IsKept :
      (h : Handlers Key Result) (by_job : List (ℕ × ℕ)) (index : ℕ) (reason : String)
      → IsKept Key Result h
      → IsKept Key Result (
          with_front Key Result
            (record (h.front) { jobs = lose Key Result by_job index reason h.front.jobs })
            h)
  lost-IsKept h by_job index reason kept = record {
    jobs_backed = lose-IsBacked h.given by_job index reason h.front.jobs kept.jobs_backed;
    started_prepared =
        All-map (Prepared Key Result h.front.jobs h.given)
          (Prepared Key Result (lose Key Result by_job index reason h.front.jobs) h.given) h.started
          (λ id k. (_, lookup-lose by_job index reason h.front.jobs id k.0 k.1, k.2))
          kept.started_prepared;
    submitted_prepared =
        All-map (λ e. Prepared Key Result h.front.jobs h.given e.1)
          (λ e. Prepared Key Result (lose Key Result by_job index reason h.front.jobs) h.given e.1)
          h.front.submitted
          (λ e k. (_, lookup-lose by_job index reason h.front.jobs e.1 k.0 k.1, k.2))
          kept.submitted_prepared;
  }
