-- ===== src/Flights/Losses.antt =====
-- The jobs that a lost process fails (`_fail_jobs`), the routing table (`route`, `for_push`,
-- `flight_of`).
use Prim.Native.String.{String}
use donut_server.Prelude.{
  ℕ, zero, suc, ◌≡◌, ◌≢◌, refl, sym, subst, true, false, ◌↔◌, Option, none, some, List, [], ◌∷◌,
  ◌==◌, lookup, put, get_elem?, All, In, All-In, arith, inl, inr, ◌⊎◌, Bool-cases, Option-cases,
  lookup-put, nat_eq, ==_refl,
}
use donut_server.Flights.{
  enter_queue, leave_queue, error, JobRecord, Jobs, Coord, lost_during, is_mid_flight, same_index,
  fail_job, fail_jobs, lru, Routes, route, invent, for_push, flight_of,
}
use donut_server.Flights.Select.{lru-Least}

module _ (by_job : List (ℕ × ℕ)) (index : ℕ) (reason : String) where
  -- a record before and after a loss
  abbrev pub IsFailedIfHere : ℕ → JobRecord → JobRecord → Type 0
  IsFailedIfHere job r r' =
      ((lookup job by_job ≡ some index)
        × (is_mid_flight r.state ≡ true)
        × (r'.state ≡ error)
        × (r'.error_text ≡ some (lost_during r.state reason)))
      ⊎ (((lookup job by_job ≢ some index) ⊎ (is_mid_flight r.state ≡ false)) × (r' ≡ r))

  same_index_iff : (o : Option ℕ) → (same_index o index ≡ true) ↔ (o ≡ some index)
  unfolding same_index
  same_index_iff none = ground arith
  same_index_iff (some i) = ground (arith, nat_eq.equal_iff i index)

  fail_job-IsFailedIfHere :
      (job : ℕ) (r : JobRecord) → IsFailedIfHere job r (fail_job by_job index reason job r)
  unfolding fail_job
  fail_job-IsFailedIfHere job r = elim (Bool-cases (same_index (lookup job by_job) index)) [
    | inl here ↦ elim (Bool-cases (is_mid_flight r.state)) [
      | inl busy ↦
          rw (here, busy) (inl ((same_index_iff (lookup job by_job)).0 here, refl, refl, refl))
      | inr calm ↦ rw (here, calm) (inr (inr refl, refl))
    ]
    | inr elsewhere ↦ rw elsewhere (
        inr (
          inl (λ h. absurd (ground (arith, (same_index_iff (lookup job by_job)).1 h, elsewhere))),
          refl,
        ))
  ]

  -- The loss of a flight's process keeps every job, and changes the record of a job just if the job
  -- is routed to that flight and was receiving or computing, which then has failed, with its old
  -- state and the reason in the message.
  pub lookup-fail_jobs :
      (job : ℕ) (jobs : Jobs) (r : JobRecord)
      → lookup job jobs ≡ some r
      → (r' : JobRecord) × (lookup job (fail_jobs by_job index reason jobs) ≡ some r')
        × IsFailedIfHere job r r'
  unfolding fail_jobs lookup
  lookup-fail_jobs job [] r h = absurd (ground arith)
  lookup-fail_jobs job ((j, s) ∷ jobs) r h = elim (Bool-cases (j == job)) [
    | inl same ↦
        let p : j ≡ job = (nat_eq.equal_iff j job).0 same in
        let q : s ≡ r = ground arith in
        (
          fail_job by_job index reason j s,
          ground arith,
          subst (λ i. IsFailedIfHere i r (fail_job by_job index reason j s)) p
              (subst (λ x. IsFailedIfHere j x (fail_job by_job index reason j s)) q
                (fail_job-IsFailedIfHere j s)),
        )
    | inr other ↦
        let (r', e, why) = lookup-fail_jobs job jobs r (ground arith) in (r', ground arith, why)
  ]

-- After a prepare is routed to a flight of the pool, the job's push goes to that flight, and
-- another job's route has not changed.
pub for_push-route :
    {Command : Type 0} (flights : List (Coord Command)) (job other : ℕ) (c : Coord Command)
    (now : ℕ) (r : Routes)
    → get_elem? flights c.index ≡ some c
    → job ≢ other
    → ((for_push flights job (route job c now r)).0 ≡ some c)
      × (flight_of job (route job c now r) ≡ some c.index)
      × (flight_of other (route job c now r) ≡ flight_of other r)
unfolding for_push route flight_of
for_push-route flights job other c now r at h =
    let there : lookup job (put job c.index r.by_job) ≡ some c.index =
      ground (arith, lookup-put job job c.index r.by_job, ==_refl job) in
    (
      rw (there, for_push) at,
      there,
      rw (lookup-put job other c.index r.by_job) (elim (Bool-cases (job == other)) [
        | inl same ↦ absurd (h ((nat_eq.equal_iff job other).0 same))
        | inr different ↦ rw different refl
      ]),
    )

lru-In :
    {Command : Type 0} (last_used : List ℕ) (flights : List (Coord Command)) (d : Coord Command)
    → lru last_used flights ≡ some d
    → In d flights
unfolding lru
lru-In last_used [] d h = absurd (ground arith)
lru-In last_used (c ∷ flights) d h =
    let (found, e, _, at) = lru-Least last_used c flights in
    subst (λ x. In x (c ∷ flights)) (ground (arith, e, h)) at

-- A second push of a job goes where the first went, whether or not the job was routed before.
for_push-for_push :
    {Command : Type 0} (flights : List (Coord Command)) (job : ℕ) (c : Coord Command) (r : Routes)
    → All (λ d. get_elem? flights d.index ≡ some d) flights
    → (for_push flights job r).0 ≡ some c
    → (for_push flights job (for_push flights job r).1).0 ≡ some c
unfolding for_push
for_push-for_push flights job c r placed first = elim (Option-cases (lookup job r.by_job)) [
  | inl unrouted ↦ elim (Option-cases (lru r.last_used flights)) [
    | inl empty ↦ absurd (ground arith)
    | inr found ↦
        let (d, e) = found in
        let s : d ≡ c = ground (arith, unrouted, e) in
        let at : get_elem? flights c.index ≡ some c =
          All-In (λ d. get_elem? flights d.index ≡ some d) c flights placed
            (subst (λ x. In x flights) s (lru-In r.last_used flights d e)) in
        let there : lookup job (put job c.index r.by_job) ≡ some c.index =
          ground (arith, lookup-put job job c.index r.by_job, ==_refl job) in
        let routed : (for_push flights job r).1 ≡ record r { by_job = put job c.index r.by_job } =
          rw (unrouted, e, s, for_push, invent) refl in
        subst (λ q. (for_push flights job q).0 ≡ some c) (sym routed) (rw (there, for_push) at)
  ]
  | inr routed ↦
      let (i, e) = routed in
      subst (λ s. (for_push flights job s).0 ≡ some c) (ground (arith, e)) first
]

-- A caller that has left the queue of its flight has left no trace, in any order of the others that
-- came in the meantime.
leave_queue-enter_queue :
    (i j : ℕ) (counts : List ℕ)
    → (leave_queue i (enter_queue i counts) ≡ counts)
      × (leave_queue i (enter_queue j (enter_queue i counts)) ≡ enter_queue j counts)
unfolding enter_queue leave_queue
leave_queue-enter_queue i j [] = (refl, refl)
leave_queue-enter_queue zero zero (n ∷ counts) = ground arith
leave_queue-enter_queue zero (suc j) (n ∷ counts) = ground arith
leave_queue-enter_queue (suc i) zero (n ∷ counts) =
    let (a, b) = leave_queue-enter_queue i zero counts in ground (arith, a, b)
leave_queue-enter_queue (suc i) (suc j) (n ∷ counts) =
    let (a, b) = leave_queue-enter_queue i j counts in ground (arith, a, b)
