-- ===== src/Endpoints/Kept.antt =====
-- What holds of JOBS and SUBMITTED of server.py however its handlers interleave.
use donut_server.Prelude.{
  ℕ, ◌≡◌, sym, ◌⊎◌, inl, inr, Bool, true, false, Option, none, some, List, [], ◌∷◌, arith, nat_eq,
  lookup, put, In, All, All-map, All-In, All-put, lookup-put, subst, Bool-cases, ◌==◌, eqb_iff,
}
use donut_server.Flights.{JobState, prepared, receiving, computing, done, error}
use donut_server.Endpoints.{Job, Front}
use donut_server.Endpoints.Interleaved.{Handlers, with_front}

abbrev pub is_done : JobState → Bool
is_done done = true
is_done prepared = false
is_done receiving = false
is_done computing = false
is_done error = false

abbrev pub is_error : JobState → Bool
is_error error = true
is_error prepared = false
is_error receiving = false
is_error computing = false
is_error done = false

module _ (Key Result : Type 0) where
  abbrev pub HasResult : Job Key Result → Type 0
  HasResult job = (r : Result) × (job.result ≡ some r)

  -- the coordinator answered the prepare of the job with this key, or with none
  abbrev pub WasGiven : List (ℕ × Option Key) → ℕ → Option Key → Type 0
  WasGiven given id key = lookup id given ≡ some key

  -- A job that is DONE has its result, and one that is not in error has the key that its prepare was
  -- answered with.
  pub record IsBacked (given : List (ℕ × Option Key)) (e : ℕ × Job Key Result) : Type 0 where
    pub backed : (is_done e.1.base.state ≡ false) ⊎ HasResult e.1
    pub keyed : (is_error e.1.base.state ≡ true) ⊎ WasGiven given e.0 e.1.prepared_key

  -- there is a record of the job, with the key that its prepare was answered with
  abbrev pub Prepared : List (ℕ × Job Key Result) → List (ℕ × Option Key) → ℕ → Type 0
  Prepared jobs given id =
      (job : Job Key Result) × (lookup id jobs ≡ some job) × WasGiven given id job.prepared_key

  pub record IsKept (h : Handlers Key Result) : Type 0 where
    pub jobs_backed : All (IsBacked h.given) h.front.jobs
    pub started_prepared : All (Prepared h.front.jobs h.given) h.started
    pub submitted_prepared : All (λ e. Prepared h.front.jobs h.given e.1) h.front.submitted

  Prepared-put :
      (id : ℕ) (job : Job Key Result) (jobs : List (ℕ × Job Key Result))
      (given : List (ℕ × Option Key)) (other : ℕ)
      → WasGiven given id job.prepared_key ⊎ (lookup id jobs ≡ none)
      → Prepared jobs given other
      → Prepared (put id job jobs) given other
  Prepared-put id job jobs given other k (j, at, key) = elim (Bool-cases (id == other)) [
    | inl same ↦
        let e : id ≡ other = (eqb_iff id other).0 same in
        elim k [
          | inl has ↦ (
            job,
            ground (arith, same, lookup-put id other job jobs),
            subst (λ i. WasGiven given i job.prepared_key) e has,
          )
          | inr fresh ↦
              let gone : lookup other jobs ≡ none = subst (λ i. lookup i jobs ≡ none) e fresh in
              absurd (ground (arith, gone, at))
        ]
    | inr differ ↦ (j, ground (arith, differ, at, lookup-put id other job jobs), key)
  ]

  -- a record that is replaced by one with the key that its prepare was answered with
  pub put-IsKept :
      (h : Handlers Key Result) (f : Front Key Result) (id : ℕ) (job : Job Key Result)
      → IsKept h
      → f.jobs ≡ put id job h.front.jobs
      → f.submitted ≡ h.front.submitted
      → IsBacked h.given (id, job)
      → WasGiven h.given id job.prepared_key ⊎ (lookup id h.front.jobs ≡ none)
      → IsKept (with_front Key Result f h)
  put-IsKept h f id job kept same_jobs same_submitted b k = record {
    jobs_backed =
        subst (All (IsBacked h.given)) (sym same_jobs)
          (All-put (IsBacked h.given) id job h.front.jobs kept.jobs_backed b);
    started_prepared =
        subst (λ jobs. All (Prepared jobs h.given) h.started) (sym same_jobs)
          (All-map (Prepared h.front.jobs h.given) (Prepared (put id job h.front.jobs) h.given)
            h.started (λ other. Prepared-put id job h.front.jobs h.given other k)
            kept.started_prepared);
    submitted_prepared =
        subst (λ jobs. All (λ e. Prepared jobs h.given e.1) f.submitted) (sym same_jobs)
          (subst (All (λ e. Prepared (put id job h.front.jobs) h.given e.1)) (sym same_submitted) (
            All-map (λ e. Prepared h.front.jobs h.given e.1)
              (λ e. Prepared (put id job h.front.jobs) h.given e.1) h.front.submitted
              (λ e. Prepared-put id job h.front.jobs h.given e.1 k) kept.submitted_prepared));
  }

  WasGiven-put :
      (id : ℕ) (key : Option Key) (given : List (ℕ × Option Key)) (other : ℕ) (old : Option Key)
      → (id == other) ≡ false
      → WasGiven given other old
      → WasGiven (put id key given) other old
  WasGiven-put id key given other old differ at =
      ground (arith, differ, at, lookup-put id other key given)

  Prepared-given :
      (id : ℕ) (key : Option Key) (jobs : List (ℕ × Job Key Result)) (given : List (ℕ × Option Key))
      (other : ℕ)
      → lookup id jobs ≡ none
      → Prepared jobs given other
      → Prepared jobs (put id key given) other
  Prepared-given id key jobs given other fresh (j, at, old) = elim (Bool-cases (id == other)) [
    | inl same ↦
        let e : id ≡ other = (eqb_iff id other).0 same in
        let gone : lookup other jobs ≡ none = subst (λ i. lookup i jobs ≡ none) e fresh in
        absurd (ground (arith, gone, at))
    | inr differ ↦ (j, at, WasGiven-put id key given other j.prepared_key differ old)
  ]

  given-IsBacked :
      (id : ℕ) (key : Option Key) (given : List (ℕ × Option Key)) (jobs : List (ℕ × Job Key Result))
      → lookup id jobs ≡ none
      → All (IsBacked given) jobs
      → All (IsBacked (put id key given)) jobs
  unfolding lookup
  given-IsBacked id key given [] fresh h = tt
  given-IsBacked id key given ((i, j) ∷ jobs) fresh h =
      let differ : (id == i) ≡ false = ground (arith, eqb_iff id i, eqb_iff i id) in
      (
        record {
          backed = h.0.backed;
          keyed = elim h.0.keyed [
            | inl failed ↦ inl failed
            | inr old ↦ inr (WasGiven-put id key given i j.prepared_key differ old)
          ];
        },
        given-IsBacked id key given jobs (ground (arith, fresh)) h.1,
      )

  -- the answer to a fresh job's prepare changes nothing for the others
  pub given-IsKept :
      (h : Handlers Key Result) (id : ℕ) (key : Option Key)
      → lookup id h.front.jobs ≡ none
      → IsKept h
      → IsKept (record h { given = put id key h.given })
  given-IsKept h id key fresh kept = record {
    jobs_backed = given-IsBacked id key h.given h.front.jobs fresh kept.jobs_backed;
    started_prepared =
        All-map (Prepared h.front.jobs h.given) (Prepared h.front.jobs (put id key h.given))
          h.started (λ other. Prepared-given id key h.front.jobs h.given other fresh)
          kept.started_prepared;
    submitted_prepared =
        All-map (λ e. Prepared h.front.jobs h.given e.1)
          (λ e. Prepared h.front.jobs (put id key h.given) e.1) h.front.submitted
          (λ e. Prepared-given id key h.front.jobs h.given e.1 fresh) kept.submitted_prepared;
  }

  pub key_of :
      (h : Handlers Key Result) (id : ℕ) (job : Job Key Result)
      → IsKept h
      → In id h.started
      → lookup id h.front.jobs ≡ some job
      → WasGiven h.given id job.prepared_key
  key_of h id job kept started at =
      let (j, found, key) =
        All-In (Prepared h.front.jobs h.given) id h.started kept.started_prepared started in
      let same : j ≡ job = cc in subst (λ j. WasGiven h.given id j.prepared_key) same key
