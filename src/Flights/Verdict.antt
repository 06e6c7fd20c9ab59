-- ===== src/Flights/Verdict.antt =====
-- The verdict on the pool, `FlightPool.state`.
use donut_server.Prelude.{
  ℕ, ◌≤◌, ◌≡◌, refl, Bool, true, false, List, [], ◌∷◌, All, In, All-map, All-In, subst, arith, inl,
  inr, Bool-cases,
}
use donut_server.Flights.{
  CoordState, starting, ready, restarting, degraded, stopping, Coord, is_ready, holds_state,
  is_degraded, is_stopping, is_restarting, pool_state,
}

-- the order in which a verdict is looked for
abbrev pub rank : CoordState → ℕ
rank ready = 0
rank degraded = 1
rank stopping = 2
rank restarting = 3
rank starting = 4

only_state :
    (t : CoordState)
    → (is_ready t ≡ true → t ≡ ready)
      × (is_degraded t ≡ true → t ≡ degraded)
      × (is_stopping t ≡ true → t ≡ stopping)
      × (is_restarting t ≡ true → t ≡ restarting)
only_state ready = ground arith
only_state degraded = ground arith
only_state stopping = ground arith
only_state restarting = ground arith
only_state starting = ground arith

rank_above :
    (t : CoordState)
    → (is_ready t ≡ false → 1 ≤ rank t)
      × (is_ready t ≡ false → is_degraded t ≡ false → 2 ≤ rank t)
      × (is_ready t ≡ false → is_degraded t ≡ false → is_stopping t ≡ false → 3 ≤ rank t)
      × (is_ready t ≡ false
          → is_degraded t ≡ false
          → is_stopping t ≡ false
          → is_restarting t ≡ false
          → (4 ≤ rank t) × (t ≡ starting))
rank_above ready = ground arith
rank_above degraded = ground arith
rank_above stopping = ground arith
rank_above restarting = ground arith
rank_above starting = ground arith

module _ {Command : Type 0} where
  holds_state-false :
      (p : CoordState → Bool) (flights : List (Coord Command))
      → holds_state p flights ≡ false
      → All (λ c. p c.state ≡ false) flights
  unfolding holds_state
  holds_state-false p [] h = tt
  holds_state-false p (c ∷ flights) h = ground (arith, holds_state-false p flights)

  holds_state-true :
      (p : CoordState → Bool) (flights : List (Coord Command))
      → holds_state p flights ≡ true
      → (c : Coord Command) × In c flights × (p c.state ≡ true)
  unfolding holds_state
  holds_state-true p [] h = absurd (ground arith)
  holds_state-true p (c ∷ flights) h = elim (Bool-cases (p c.state)) [
    | inl here ↦ (c, inl refl, here)
    | inr not_here ↦ let (d, at, e) = holds_state-true p flights (ground arith) in (d, inr at, e)
  ]

  -- a flight that is in the state, and no flight is in one that is looked for before
  abbrev pub IsVerdict : CoordState → List (Coord Command) → Type 0
  IsVerdict s flights =
      ((c : Coord Command) × In c flights × (c.state ≡ s))
      × All (λ d. rank s ≤ rank d.state) flights

  verdict :
      (p : CoordState → Bool) (s : CoordState) (flights : List (Coord Command))
      → holds_state p flights ≡ true
      → ((t : CoordState) → p t ≡ true → t ≡ s)
      → All (λ d. rank s ≤ rank d.state) flights
      → IsVerdict s flights
  verdict p s flights h only least =
      let (c, at, e) = holds_state-true p flights h in ((c, at, only c.state e), least)

  All-zero : (flights : List (Coord Command)) → All (λ d. 0 ≤ rank d.state) flights
  All-zero [] = tt
  All-zero (d ∷ flights) = (omega arith, All-zero flights)

  least_degraded :
      (flights : List (Coord Command))
      → All (λ d. is_ready d.state ≡ false) flights
      → All (λ d. 1 ≤ rank d.state) flights
  least_degraded flights r = All-map _ _ flights (λ d h. (rank_above d.state).0 h) r

  least_stopping :
      (flights : List (Coord Command))
      → All (λ d. is_ready d.state ≡ false) flights
      → All (λ d. is_degraded d.state ≡ false) flights
      → All (λ d. 2 ≤ rank d.state) flights
  least_stopping [] r d = tt
  least_stopping (c ∷ flights) r d =
      ((rank_above c.state).1 r.0 d.0, least_stopping flights r.1 d.1)

  least_restarting :
      (flights : List (Coord Command))
      → All (λ d. is_ready d.state ≡ false) flights
      → All (λ d. is_degraded d.state ≡ false) flights
      → All (λ d. is_stopping d.state ≡ false) flights
      → All (λ d. 3 ≤ rank d.state) flights
  least_restarting [] r d s = tt
  least_restarting (c ∷ flights) r d s =
      ((rank_above c.state).2 r.0 d.0 s.0, least_restarting flights r.1 d.1 s.1)

  least_starting :
      (flights : List (Coord Command))
      → All (λ d. is_ready d.state ≡ false) flights
      → All (λ d. is_degraded d.state ≡ false) flights
      → All (λ d. is_stopping d.state ≡ false) flights
      → All (λ d. is_restarting d.state ≡ false) flights
      → All (λ d. (4 ≤ rank d.state) × (d.state ≡ starting)) flights
  least_starting [] r d s t = tt
  least_starting (c ∷ flights) r d s t =
      ((rank_above c.state).3 r.0 d.0 s.0 t.0, least_starting flights r.1 d.1 s.1 t.1)

  holds_state-IsVerdict :
      (flights : List (Coord Command)) (c : Coord Command)
      → In c flights
      → IsVerdict (pool_state flights) flights
  unfolding pool_state
  holds_state-IsVerdict flights c at = elim (Bool-cases (holds_state is_ready flights)) [
    | inl up ↦
        subst (λ s. IsVerdict s flights) (ground (arith, up))
          (verdict is_ready ready flights up (λ t. (only_state t).0) (All-zero flights))
    | inr not_up ↦
        let r = holds_state-false is_ready flights not_up in
        elim (Bool-cases (holds_state is_degraded flights)) [
          | inl down ↦
              subst (λ s. IsVerdict s flights) (ground (arith, not_up, down))
                (verdict is_degraded degraded flights down (λ t. (only_state t).1)
                  (least_degraded flights r))
          | inr not_down ↦
              let d = holds_state-false is_degraded flights not_down in
              elim (Bool-cases (holds_state is_stopping flights)) [
                | inl halting ↦
                    subst (λ s. IsVerdict s flights) (ground (arith, not_up, not_down, halting))
                      (verdict is_stopping stopping flights halting (λ t. (only_state t).2)
                        (least_stopping flights r d))
                | inr not_halting ↦
                    let s = holds_state-false is_stopping flights not_halting in
                    elim (Bool-cases (holds_state is_restarting flights)) [
                      | inl again ↦
                          subst (λ s. IsVerdict s flights)
                            (ground (arith, not_up, not_down, not_halting, again))
                            (verdict is_restarting restarting flights again (λ t. (only_state t).3)
                              (least_restarting flights r d s))
                      | inr not_again ↦
                          let t = holds_state-false is_restarting flights not_again in
                          let all = least_starting flights r d s t in
                          subst (λ s. IsVerdict s flights)
                            (ground (arith, not_up, not_down, not_halting, not_again))
                            (
                              (c, at, (All-In _ c flights all at).1),
                              All-map _ _ flights (λ d h. h.0) all,
                            )
                    ]
              ]
        ]
  ]

  -- The verdict on a pool with flights is the state of one of them, and no flight is in a state
  -- that stands before it in the order ready, degraded, stopping, restarting, starting.
  pub pool_state-IsVerdict :
      (c : Coord Command) (flights : List (Coord Command))
      → IsVerdict (pool_state (c ∷ flights)) (c ∷ flights)
  pool_state-IsVerdict c flights = holds_state-IsVerdict (c ∷ flights) c (inl refl)
