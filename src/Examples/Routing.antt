-- ===== src/Examples/Routing.antt =====
-- A pool of two flights, one of them ready with a command and one degraded.
use donut_server.Prelude.{
  ℕ, true, false, arith, ◌≡◌, ◌≢◌, refl, none, some, [], ◌∷◌, lookup, In, nat_eq,
}
use donut_server.Flights.{
  ready, degraded, computing, done, JobRecord, Jobs, Coord, fail_jobs, Routes, route, for_push,
  flight_of, lru, oldest, used_at, invent, select, pool_state,
}
use donut_server.Flights.Select.{IsChosen, select-IsChosen}
use donut_server.Flights.Losses.{IsFailedIfHere, lookup-fail_jobs, for_push-route}
use donut_server.Flights.Verdict.{IsVerdict, pool_state-IsVerdict}

abbrev first : Coord ℕ
first = record { index = 0; state = degraded; primed_args = some 8; in_flight = 0; locked = false }

abbrev second : Coord ℕ
second = record { index = 1; state = ready; primed_args = some 8; in_flight = 1; locked = true }

abbrev unrouted : Routes
unrouted = record { by_job = []; last_used = 20 ∷ 10 ∷ [] }

select-IsChosen_example :
    (c : Coord ℕ) × (select (20 ∷ 10 ∷ []) (first ∷ second ∷ []) 8 ≡ some c)
    × In c (first ∷ second ∷ [])
    × IsChosen 8 (20 ∷ 10 ∷ []) (first ∷ second ∷ []) c
select-IsChosen_example = select-IsChosen 8 (20 ∷ 10 ∷ []) first (second ∷ [])

abbrev two_jobs : Jobs
two_jobs =
    (5, record { state = done; error_text = none })
    ∷ (6, record { state = computing; error_text = none })
    ∷ []

held : lookup 6 two_jobs ≡ some (record { state = computing; error_text = none })
unfolding lookup
held = refl

lookup-fail_jobs_example :
    (r : JobRecord) × (lookup 6 (fail_jobs ((6, 1) ∷ []) 1 "killed" two_jobs) ≡ some r)
    × IsFailedIfHere ((6, 1) ∷ []) 1 "killed" 6 (record { state = computing; error_text = none }) r
lookup-fail_jobs_example =
    lookup-fail_jobs ((6, 1) ∷ []) 1 "killed" 6 two_jobs
      (record { state = computing; error_text = none }) held

distinct : ◌≢◌ {A = ℕ} 6 7
distinct = ground arith

for_push-route_example :
    ((for_push (first ∷ second ∷ []) 6 (route 6 second 30 unrouted)).0 ≡ some second)
    × (flight_of 6 (route 6 second 30 unrouted) ≡ some 1)
    × (flight_of 7 (route 6 second 30 unrouted) ≡ flight_of 7 unrouted)
for_push-route_example = for_push-route (first ∷ second ∷ []) 6 7 second 30 unrouted refl distinct

invented : (for_push (first ∷ second ∷ []) 6 unrouted).0 ≡ some second
unfolding for_push lookup lru oldest used_at invent
invented = refl

pool_state-IsVerdict_example : IsVerdict (pool_state (first ∷ second ∷ [])) (first ∷ second ∷ [])
pool_state-IsVerdict_example = pool_state-IsVerdict first (second ∷ [])
