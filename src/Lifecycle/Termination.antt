-- ===== src/Lifecycle/Termination.antt =====
-- The turns of the loop of `Coord._bring_up`, counted.
use donut_server.Prelude.{
  ℕ, zero, suc, ◌+◌, ◌*◌, ◌≤◌, ◌<◌, ◌≡◌, refl, Bool, true, false, Option, none, some, leb,
  if◌then◌else◌, arith, inl, inr, ◌⊎◌, subst, sym, Bool-cases,
}
use donut_server.Flights.{ready, degraded, is_stopping}
use donut_server.Lifecycle.{
  prepare_kind, Attempt, lost, fatal, hello, Reply, replied_ok, replied_error, no_process, died,
  Coord, is_prepare, up, note_loss, note_prepared, replayed, reprime, give_up, greeted,
  bring_up_turn, bring_up,
}

module _ {Command : Type 0} where
  -- The loop has an outcome: shutdown, or a child that is ready, or the end of the attempts, and
  -- then those who wait for the start are awake.
  abbrev pub IsSettled : Coord Command → Type 0
  IsSettled c =
      (is_stopping c.state ≡ true)
      ⊎ (((c.state ≡ ready) ⊎ (c.state ≡ degraded)) × (c.ready_event ≡ true))

  -- one more attempt has failed, or a replay has killed the child
  abbrev IsRetried : Coord Command → Coord Command → Type 0
  IsRetried c c' =
      (c'.max_attempts ≡ c.max_attempts)
      × (c.restart_attempts < c.max_attempts)
      × ((((c'.restart_attempts ≡ c.restart_attempts + 1)
            × (c'.loss_provoked_by ≡ c.loss_provoked_by)))
          ⊎ ((is_prepare c.loss_provoked_by ≡ false)
              × (c'.restart_attempts ≡ 0)
              × (c'.loss_provoked_by ≡ some prepare_kind)))

  abbrev IsTurn : Coord Command → Coord Command × Bool → Type 0
  IsTurn c turn = ((turn.1 ≡ true) × IsSettled turn.0) ⊎ ((turn.1 ≡ false) × IsRetried c turn.0)

  replayed-IsTurn :
      (command : Command) (r : Reply) (c d : Coord Command)
      → c.restart_attempts < c.max_attempts
      → is_prepare c.loss_provoked_by ≡ false
      → d.max_attempts ≡ c.max_attempts
      → d.restart_attempts ≡ 0
      → IsTurn c (replayed command r d)
  unfolding replayed up note_prepared note_loss
  replayed-IsTurn command (replied_ok dump) c d few calm same none_yet =
      inl (refl, inr (inl refl, refl))
  replayed-IsTurn command (replied_error text) c d few calm same none_yet =
      inl (refl, inr (inl refl, refl))
  replayed-IsTurn command (no_process text) c d few calm same none_yet =
      inl (refl, inr (inl refl, refl))
  replayed-IsTurn command (died text) c d few calm same none_yet =
      inr (refl, (same, few, inr (calm, none_yet, refl)))

  reprime-IsTurn :
      (args : Option Command) (r : Reply) (c : Coord Command)
      → c.restart_attempts < c.max_attempts
      → IsTurn c (
          reprime args r (record c {
            restart_attempts = 0;
            spawns = c.spawns + 1;
            generation = c.generation + 1;
          }))
  unfolding reprime up
  reprime-IsTurn none r c few = inl (refl, inr (inl refl, refl))
  reprime-IsTurn (some command) r c few = elim (Bool-cases (is_prepare c.loss_provoked_by)) [
    | inl killer ↦ rw (killer, if◌then◌else◌) (inl (refl, inr (inl refl, refl)))
    | inr calm ↦
        let d : Coord Command = record c {
          restart_attempts = 0;
          spawns = c.spawns + 1;
          generation = c.generation + 1;
        } in
        let e : reprime (some command) r d
            ≡ replayed command r (record d { reprime_error = none }) =
          rw (calm, if◌then◌else◌) refl in
        subst (IsTurn c) (sym e)
          (replayed-IsTurn command r c (record d { reprime_error = none }) few calm refl refl)
  ]

  greeted-IsTurn :
      (a : Attempt) (c : Coord Command)
      → c.restart_attempts < c.max_attempts
      → IsTurn c (
          greeted a (record c { restart_attempts = c.restart_attempts + 1; spawns = c.spawns + 1 }))
  unfolding greeted note_loss
  greeted-IsTurn (lost text) c few = inr (refl, (refl, few, inl (refl, refl)))
  greeted-IsTurn (fatal text) c few = inl (refl, inr (inr refl, refl))
  greeted-IsTurn (hello r) c few = reprime-IsTurn c.primed_args r c few

  bring_up_turn-IsTurn : (a : Attempt) (c : Coord Command) → IsTurn c (bring_up_turn a c)
  unfolding bring_up_turn give_up
  bring_up_turn-IsTurn a c = elim (Bool-cases (is_stopping c.state)) [
    | inl halting ↦ rw (halting, if◌then◌else◌) (inl (refl, inl halting))
    | inr going ↦ elim (Bool-cases (leb c.max_attempts c.restart_attempts)) [
      | inl spent ↦ rw (going, spent, if◌then◌else◌) (inl (refl, inr (inr refl, refl)))
      | inr few ↦ rw (going, few, if◌then◌else◌) (greeted-IsTurn a c (ground (arith, few)))
    ]
  ]

  -- after a replay was fatal, no replay follows, and each turn counts
  bring_up-after :
      (n : ℕ) (attempts : ℕ → Attempt) (c : Coord Command)
      → is_prepare c.loss_provoked_by ≡ true
      → c.max_attempts + 1 ≤ n + c.restart_attempts
      → c.restart_attempts ≤ c.max_attempts
      → (c' : Coord Command) × (bring_up n attempts c ≡ some c') × IsSettled c'
  unfolding bring_up
  bring_up-after zero attempts c killer fuel few = absurd (omega (arith, fuel, few))
  bring_up-after (suc n) attempts c killer fuel few = elim (bring_up_turn-IsTurn (attempts 0) c) [
    | inl over ↦ ((bring_up_turn (attempts 0) c).0, rw (over.0, if◌then◌else◌) refl, over.1)
    | inr again ↦ elim again.1.2 [
      | inl counted ↦
          let (c', e, settled) =
            bring_up-after n (λ i. attempts (suc i)) (bring_up_turn (attempts 0) c).0
              (rw (counted.1) killer) (omega (arith, fuel, counted.0, again.1.0))
              (omega (arith, few, counted.0, again.1.0, again.1.1)) in
          (c', rw (again.0, if◌then◌else◌) e, settled)
      | inr replay ↦ absurd (ground (arith, killer, replay.0))
    ]
  ]

  pub bring_up-IsSettled :
      (n : ℕ) (attempts : ℕ → Attempt) (c : Coord Command)
      → 2 * c.max_attempts + 2 ≤ n + c.restart_attempts
      → c.restart_attempts ≤ c.max_attempts
      → (c' : Coord Command) × (bring_up n attempts c ≡ some c') × IsSettled c'
  unfolding bring_up
  bring_up-IsSettled zero attempts c fuel few = absurd (omega (arith, fuel, few))
  bring_up-IsSettled (suc n) attempts c fuel few = elim (bring_up_turn-IsTurn (attempts 0) c) [
    | inl over ↦ ((bring_up_turn (attempts 0) c).0, rw (over.0, if◌then◌else◌) refl, over.1)
    | inr again ↦
        let next = (bring_up_turn (attempts 0) c).0 in
        elim again.1.2 [
          | inl counted ↦
              let (c', e, settled) =
                bring_up-IsSettled n (λ i. attempts (suc i)) next
                  (omega (arith, fuel, counted.0, again.1.0))
                  (omega (arith, few, counted.0, again.1.0, again.1.1)) in
              (c', rw (again.0, if◌then◌else◌) e, settled)
          | inr replay ↦
              let (c', e, settled) =
                bring_up-after n (λ i. attempts (suc i)) next (rw (replay.2) refl)
                  (omega (arith, fuel, replay.1, again.1.0, again.1.1))
                  (omega (arith, replay.1, again.1.0)) in
              (c', rw (again.0, if◌then◌else◌) e, settled)
        ]
  ]
