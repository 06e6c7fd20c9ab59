-- ===== src/Lifecycle/Reached.antt =====
-- The states that bring-up turns, commands and restarts of `Coord` reach, and what holds of them.
use Prim.Native.String.{String}
use donut_server.Prelude.{
  ℕ, ◌+◌, ◌≤◌, ◌<◌, ◌≡◌, refl, false, Option, none, some, leb, eqb, if◌then◌else◌, arith, inl, inr,
  ◌⊎◌, Bool-cases,
}
use donut_server.Flights.{ready, is_stopping, is_degraded, is_restarting, is_ready}
use donut_server.Lifecycle.{
  Kind, prepare_kind, other_kind, Attempt, lost, fatal, hello, Reply, replied_ok, replied_error,
  no_process, died, ConfigSnapshot, Coord, init, is_prepare, up, note_loss, note_prepared, replayed,
  reprime, give_up, greeted, bring_up_turn, start_restart, request_restart, Exchange, answered,
  refused, child_lost, send_command,
}

-- The snapshot is of a child that has said hello: the hellos are numbered from 1, and 0 is the
-- generation before the first.
abbrev IsPast : Option ConfigSnapshot → ℕ → Type 0
IsPast none generation = Unit {0}
IsPast (some s) generation = (1 ≤ s.generation) × (s.generation ≤ generation)

IsPast-later : (s : Option ConfigSnapshot) (n : ℕ) → IsPast s n → IsPast s (n + 1)
IsPast-later none n h = tt
IsPast-later (some s) n h = (h.0, omega (arith, h.1))

module _ {Command : Type 0} where
  -- The snapshot is of a child that said hello, every hello and every attempt since was a spawned
  -- child, the attempts keep to their limit, no one is told to go on during a restart, and a
  -- coordinator that is ready has had a hello.
  abbrev pub IsConsistent : Coord Command → Type 0
  IsConsistent c =
      IsPast c.config_snapshot c.generation
      × (c.generation + c.restart_attempts ≤ c.spawns)
      × (c.restart_attempts ≤ c.max_attempts)
      × ((c.ready_event ≡ false) ⊎ (is_restarting c.state ≡ false))
      × ((is_ready c.state ≡ false) ⊎ (1 ≤ c.generation))

  -- what may happen to a coordinator
  pub data Step (c : Coord Command) : Coord Command → Type 0 where
    turn : (a : Attempt) → Step c (bring_up_turn a c).0
    request : (text : String) (in_flight : ℕ) → Step c (request_restart text in_flight c)
    command :
        (kind : Kind) (args : Command) (x : Exchange)
        → c.state ≡ ready
        → Step c (send_command kind args x c)

  -- the states that a coordinator with this limit of attempts reaches
  pub data Reach (max : ℕ) : Coord Command → Type 0 where
    fresh : Reach max (init max)
    next : {c d : Coord Command} → Reach max c → Step c d → Reach max d

  note_prepared-IsConsistent :
      (args : Command) (dump : Option String) (c : Coord Command)
      → IsConsistent c
      → 1 ≤ c.generation
      → IsConsistent (note_prepared args dump c)
  unfolding note_prepared
  note_prepared-IsConsistent args none c v met = v
  note_prepared-IsConsistent args (some dump) c v met = ((met, omega arith), v.1, v.2, v.3, v.4)

  replayed-IsConsistent :
      (args : Command) (r : Reply) (c : Coord Command)
      → IsConsistent c
      → 1 ≤ c.generation
      → IsConsistent (replayed args r c).0
  unfolding replayed up note_loss
  replayed-IsConsistent args (replied_ok none) c v met = (v.0, v.1, v.2, inr refl, inr met)
  replayed-IsConsistent args (replied_ok (some dump)) c v met =
      let w = note_prepared-IsConsistent args (some dump) c v met in
      (w.0, w.1, w.2, inr refl, inr met)
  replayed-IsConsistent args (replied_error text) c v met = (v.0, v.1, v.2, inr refl, inr met)
  replayed-IsConsistent args (no_process text) c v met = (v.0, v.1, v.2, inr refl, inr met)
  replayed-IsConsistent args (died text) c v met = v

  reprime-IsConsistent :
      (args : Option Command) (r : Reply) (c : Coord Command)
      → IsConsistent c
      → 1 ≤ c.generation
      → IsConsistent (reprime args r c).0
  unfolding reprime up
  reprime-IsConsistent none r c v met = (v.0, v.1, v.2, inr refl, inr met)
  reprime-IsConsistent (some args) r c v met = elim (Bool-cases (is_prepare c.loss_provoked_by)) [
    | inl killer ↦ rw (killer, if◌then◌else◌) (v.0, v.1, v.2, inr refl, inr met)
    | inr calm ↦
        rw (calm, if◌then◌else◌)
          (replayed-IsConsistent args r (record c { reprime_error = none }) v met)
  ]

  greeted-IsConsistent :
      (a : Attempt) (c : Coord Command)
      → IsConsistent c
      → c.restart_attempts < c.max_attempts
      → IsConsistent
          (greeted a
            (record c { restart_attempts = c.restart_attempts + 1; spawns = c.spawns + 1 })).0
  unfolding greeted note_loss
  greeted-IsConsistent (lost text) c v few = (v.0, omega (arith, v.1), omega (arith, few), v.3, v.4)
  greeted-IsConsistent (fatal text) c v few =
      (v.0, omega (arith, v.1), omega (arith, few), inr refl, inl refl)
  greeted-IsConsistent (hello r) c v few =
      reprime-IsConsistent c.primed_args r _
        (
          IsPast-later c.config_snapshot c.generation v.0,
          omega (arith, v.1),
          omega arith,
          v.3,
          inr (omega arith),
        )
        (omega arith)

  bring_up_turn-IsConsistent :
      (a : Attempt) (c : Coord Command) → IsConsistent c → IsConsistent (bring_up_turn a c).0
  unfolding bring_up_turn give_up
  bring_up_turn-IsConsistent a c v = elim (Bool-cases (is_stopping c.state)) [
    | inl halting ↦ rw (halting, if◌then◌else◌) v
    | inr going ↦ elim (Bool-cases (leb c.max_attempts c.restart_attempts)) [
      | inl spent ↦ rw (going, spent, if◌then◌else◌) (v.0, v.1, v.2, inr refl, inl refl)
      | inr few ↦ rw (going, few, if◌then◌else◌) (greeted-IsConsistent a c v (ground (arith, few)))
    ]
  ]

  start_restart-IsConsistent : (c : Coord Command) → IsConsistent c → IsConsistent (start_restart c)
  unfolding start_restart
  start_restart-IsConsistent c v = elim (Bool-cases (is_stopping c.state)) [
    | inl halting ↦ rw (halting, if◌then◌else◌) v
    | inr going ↦ rw (going, if◌then◌else◌) (v.0, v.1, v.2, inl refl, inl refl)
  ]

  request_restart-IsConsistent :
      (text : String) (in_flight : ℕ) (c : Coord Command)
      → IsConsistent c
      → IsConsistent (request_restart text in_flight c)
  unfolding request_restart note_loss
  request_restart-IsConsistent text in_flight c v = elim (Bool-cases (is_degraded c.state)) [
    | inl down ↦
        rw (down, if◌then◌else◌)
          (start_restart-IsConsistent _ (v.0, omega (arith, v.1), omega arith, v.3, v.4))
    | inr other ↦ elim (Bool-cases (eqb in_flight 0)) [
      | inl idle ↦
          rw (other, idle, if◌then◌else◌) (start_restart-IsConsistent (note_loss text none c) v)
      | inr busy ↦ rw (other, busy, if◌then◌else◌) v
    ]
  ]

  send_command-IsConsistent :
      (kind : Kind) (args : Command) (x : Exchange) (c : Coord Command)
      → IsConsistent c
      → c.state ≡ ready
      → IsConsistent (send_command kind args x c)
  unfolding send_command note_loss
  send_command-IsConsistent prepare_kind args (answered dump) c v up =
      let met : 1 ≤ c.generation = elim v.4 [
        | inl idle ↦ absurd (ground (arith, idle, up))
        | inr met ↦ met
      ] in
      note_prepared-IsConsistent args dump c v met
  send_command-IsConsistent other_kind args (answered dump) c v up = v
  send_command-IsConsistent prepare_kind args refused c v up = v
  send_command-IsConsistent other_kind args refused c v up = v
  send_command-IsConsistent prepare_kind args (child_lost text) c v up =
      start_restart-IsConsistent (note_loss text (some prepare_kind) c) v
  send_command-IsConsistent other_kind args (child_lost text) c v up =
      start_restart-IsConsistent (note_loss text (some other_kind) c) v

  Step-IsConsistent : {c d : Coord Command} → Step c d → IsConsistent c → IsConsistent d
  Step-IsConsistent {c} (turn a) v = bring_up_turn-IsConsistent a c v
  Step-IsConsistent {c} (request text in_flight) v = request_restart-IsConsistent text in_flight c v
  Step-IsConsistent {c} (command kind args x up) v = send_command-IsConsistent kind args x c v up

  -- In every state that turns of the bring-up, requests for a restart and commands reach, the
  -- snapshot's generation is that of a hello, from the first to the last, every hello and every
  -- attempt since was a spawned child, the attempts keep to their limit, those who wait are not told
  -- to go on during a restart, and a coordinator that is ready has had a hello.
  pub Reach-IsConsistent : {max : ℕ} {c : Coord Command} → Reach max c → IsConsistent c
  unfolding init
  Reach-IsConsistent fresh = (tt, omega arith, omega arith, inl refl, inl refl)
  Reach-IsConsistent (next r s) = Step-IsConsistent s (Reach-IsConsistent r)
