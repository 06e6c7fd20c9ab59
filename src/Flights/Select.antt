-- ===== src/Flights/Select.antt =====
-- The choice of `FlightPool.select` and `_lru`.
use donut_server.Prelude.{
  ℕ, ◌≤◌, ◌≡◌, refl, Bool, true, false, not, none, some, List, [], ◌∷◌, ltb, Eq, keep_if, All, In,
  arith, subst, sym, ap, All-map, inl, inr, ◌⊎◌, Bool-cases, Option-cases,
}
use donut_server.Flights.{
  Coord, is_ready, busy, used_at, oldest, lru, primed_with, first_primed, or_all, select,
}

or_of : {Q : Type 0} (b : Bool) → (b ≡ true → Q) → (b ≡ false) ⊎ Q
or_of true h = inr (h refl)
or_of false h = inl refl

module _ {A : Type 0} (p : A → Bool) where
  In-keep_if : (a : A) (xs : List A) → In a (keep_if p xs) → In a xs × (p a ≡ true)
  In-keep_if a [] h = absurd h
  In-keep_if a (x ∷ xs) h = elim (Bool-cases (p x)) [
    | inl kept ↦ ground (arith, In-keep_if a xs)
    | inr dropped ↦ ground (arith, In-keep_if a xs)
  ]

  All-keep_if :
      (P : A → Type 0) (xs : List A) → All P (keep_if p xs) → All (λ a. p a ≡ true → P a) xs
  All-keep_if P [] h = tt
  All-keep_if P (x ∷ xs) h = elim (Bool-cases (p x)) [
    | inl kept ↦ ground (arith, All-keep_if P xs)
    | inr dropped ↦ ground (arith, All-keep_if P xs)
  ]

module _ {Command : Type 0} where
  -- no flight of the list was used before `c`
  abbrev pub Least : List ℕ → Coord Command → List (Coord Command) → Type 0
  Least last_used c coords = All (λ d. used_at last_used c.index ≤ used_at last_used d.index) coords

  oldest-Least :
      (last_used : List ℕ) (best : Coord Command) (coords : List (Coord Command))
      → Least last_used (oldest last_used best coords) (best ∷ coords)
        × In (oldest last_used best coords) (best ∷ coords)
  unfolding oldest
  oldest-Least last_used best [] = ((omega arith, tt), inl refl)
  oldest-Least last_used best (c ∷ coords) =
      elim (Bool-cases (ltb (used_at last_used c.index) (used_at last_used best.index))) [
        | inl older ↦
            let e : oldest last_used best (c ∷ coords) ≡ oldest last_used c coords = ground arith in
            let (least, at) = oldest-Least last_used c coords in
            subst (λ r. Least last_used r (best ∷ c ∷ coords) × In r (best ∷ c ∷ coords)) (sym e)
              ((ground (arith, older, least.0), least), inr at)
        | inr newer ↦
            let e : oldest last_used best (c ∷ coords) ≡ oldest last_used best coords =
              ground arith in
            let (least, at) = oldest-Least last_used best coords in
            subst (λ r. Least last_used r (best ∷ c ∷ coords) × In r (best ∷ c ∷ coords)) (sym e)
              (
                (least.0, (ground (arith, newer, least.0), least.1)),
                elim at [ inl first ↦ inl first | inr later ↦ inr (inr later) ],
              )
      ]

  pub lru-Least :
      (last_used : List ℕ) (c : Coord Command) (coords : List (Coord Command))
      → (found : Coord Command) × (lru last_used (c ∷ coords) ≡ some found)
        × Least last_used found (c ∷ coords)
        × In found (c ∷ coords)
  unfolding lru
  lru-Least last_used c coords =
      let (least, at) = oldest-Least last_used c coords in
      (oldest last_used c coords, refl, least, at)

  module _ ⦃e : Eq Command⦄ (command : Command) where
    -- A ready flight that has just this command.
    abbrev pub IsPrimed : Coord Command → Type 0
    IsPrimed c = (is_ready c.state ≡ true) × (primed_with command c.primed_args ≡ true)

    first_primed-none :
        (coords : List (Coord Command))
        → first_primed command coords ≡ none
        → All (λ c. primed_with command c.primed_args ≡ false) coords
    unfolding first_primed
    first_primed-none [] h = tt
    first_primed-none (c ∷ coords) h = elim (Bool-cases (primed_with command c.primed_args)) [
      | inl primed ↦ absurd (ground arith)
      | inr other ↦ (other, first_primed-none coords (ground arith))
    ]

    first_primed-some :
        (coords : List (Coord Command)) (c : Coord Command)
        → first_primed command coords ≡ some c
        → In c coords × (primed_with command c.primed_args ≡ true)
    unfolding first_primed
    first_primed-some [] c h = absurd (ground arith)
    first_primed-some (d ∷ coords) c h = elim (Bool-cases (primed_with command d.primed_args)) [
      | inl primed ↦
          let s : d ≡ c = ground arith in
          (inl s, subst (λ x. primed_with command x.primed_args ≡ true) s primed)
      | inr other ↦ let (at, primed) = first_primed-some coords c (ground arith) in (inr at, primed)
    ]

    -- why `select` may answer with `c`
    abbrev pub IsChosen : List ℕ → List (Coord Command) → Coord Command → Type 0
    IsChosen last_used flights c =
        IsPrimed c
        ⊎ (All (λ d. (is_ready d.state ≡ false) ⊎ (primed_with command d.primed_args ≡ false))
              flights
            × ((is_ready c.state ≡ true)
                  × (busy c ≡ false)
                  × All
                      (λ d.
                        (is_ready d.state ≡ false)
                        ⊎ ((busy d ≡ true)
                            ⊎ (used_at last_used c.index ≤ used_at last_used d.index)))
                      flights
                ⊎ (All (λ d. (is_ready d.state ≡ false) ⊎ (busy d ≡ true)) flights
                    × Least last_used c flights)))

    abbrev ready_flights : List (Coord Command) → List (Coord Command)
    ready_flights flights = keep_if (λ c. is_ready c.state) flights

    -- what holds of the flights that are ready and not busy
    All-idle :
        (P : Coord Command → Type 0) (flights idle : List (Coord Command))
        → keep_if (λ c. not (busy c)) (ready_flights flights) ≡ idle
        → All P idle
        → All (λ d. is_ready d.state ≡ true → not (busy d) ≡ true → P d) flights
    All-idle P flights idle e h =
        All-keep_if (λ c. is_ready c.state) (λ d. not (busy d) ≡ true → P d) flights
          (All-keep_if (λ c. not (busy c)) P (ready_flights flights) (subst (All P) (sym e) h))

    In-idle :
        (c : Coord Command) (flights idle : List (Coord Command))
        → keep_if (λ c. not (busy c)) (ready_flights flights) ≡ idle
        → In c idle
        → In c flights × (is_ready c.state ≡ true) × (not (busy c) ≡ true)
    In-idle c flights idle e at =
        let (a, free) =
          In-keep_if (λ c. not (busy c)) c (ready_flights flights) (subst (In c) (sym e) at) in
        let (b, is_up) = In-keep_if (λ c. is_ready c.state) c flights a in (b, is_up, free)

    fallback-IsChosen :
        (last_used : List ℕ) (d : Coord Command) (flights idle : List (Coord Command))
        → keep_if (λ c. not (busy c)) (ready_flights (d ∷ flights)) ≡ idle
        → All
            (λ d. (is_ready d.state ≡ false) ⊎ (primed_with command d.primed_args ≡ false))
            (d ∷ flights)
        → (c : Coord Command) × (lru last_used (or_all idle (d ∷ flights)) ≡ some c)
          × In c (d ∷ flights)
          × IsChosen last_used (d ∷ flights) c
    fallback-IsChosen last_used d flights [] none_idle unprimed =
        let (c, e, least, at) = lru-Least last_used d flights in
        (
          c,
          e,
          at,
          inr (
            unprimed,
            inr (
              All-map (λ d. is_ready d.state ≡ true → not (busy d) ≡ true → ⊥) _ (d ∷ flights)
                  (λ c h. or_of (is_ready c.state) (λ up. elim (Bool-cases (busy c)) [
                    | inl working ↦ working
                    | inr free ↦ absurd (h up (ap not free))
                  ]))
                  (All-idle (λ _. ⊥) (d ∷ flights) [] none_idle tt),
              least,
            ),
          ),
        )
    fallback-IsChosen last_used d flights (i ∷ idle) some_idle unprimed =
        let (c, e, least, at) = lru-Least last_used i idle in
        let (there, up, free) = In-idle c (d ∷ flights) (i ∷ idle) some_idle at in
        (
          c,
          e,
          there,
          inr (
            unprimed,
            inl (
              up,
              ground (arith, free),
              All-map
                  (λ d.
                    is_ready d.state ≡ true
                    → not (busy d) ≡ true
                    → used_at last_used c.index ≤ used_at last_used d.index)
                  _ (d ∷ flights)
                  (λ x h. or_of (is_ready x.state) (λ up. elim (Bool-cases (busy x)) [
                    | inl working ↦ inl working
                    | inr free ↦ inr (h up (ap not free))
                  ]))
                  (All-idle _ (d ∷ flights) (i ∷ idle) some_idle least),
            ),
          ),
        )

    -- In a pool with flights, `select` answers with one of them: a ready one that has just this
    -- command; or, when there is none, a ready and idle one, of these the one longest not used;
    -- or, when all the ready ones are busy, of all the one longest not used.
    pub select-IsChosen :
        (last_used : List ℕ) (d : Coord Command) (flights : List (Coord Command))
        → (c : Coord Command) × (select last_used (d ∷ flights) command ≡ some c)
          × In c (d ∷ flights)
          × IsChosen last_used (d ∷ flights) c
    unfolding select
    select-IsChosen last_used d flights =
        elim (Option-cases (first_primed command (ready_flights (d ∷ flights)))) [
          | inl unprimed ↦
              let (c, e, at, why) = fallback-IsChosen last_used d flights _ refl (
                All-map (λ x. is_ready x.state ≡ true → primed_with command x.primed_args ≡ false) _
                  (d ∷ flights) (λ x h. or_of (is_ready x.state) h)
                  (All-keep_if (λ c. is_ready c.state) _ (d ∷ flights)
                    (first_primed-none (ready_flights (d ∷ flights)) unprimed))) in
              (c, rw (unprimed, select) e, at, why)
          | inr found ↦
              let (c, e) = found in
              let (a, primed) = first_primed-some (ready_flights (d ∷ flights)) c e in
              let (at, up) = In-keep_if (λ c. is_ready c.state) c (d ∷ flights) a in
              (c, rw (e, select) refl, at, inl (up, primed))
        ]
