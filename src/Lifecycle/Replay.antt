-- ===== src/Lifecycle/Replay.antt =====
-- What follows a prepare that killed its child, in `_reprime` of server.py.
use Prim.Native.String.{String}
use donut_server.Prelude.{
  ◌≡◌, refl, true, Option, none, some, List, [], ◌∷◌, if◌then◌else◌, leb, inl, inr, Bool-cases,
}
use donut_server.Flights.{is_stopping}
use donut_server.Lifecycle.{
  prepare_kind, lost, hello, Reply, Coord, child_lost, is_prepare, note_loss, reprime, give_up,
  greeted, bring_up_turn, start_restart, send_command,
}

module _ {Command : Type 0} where
  -- turns whose children are lost before their hello
  unfoldable pub lost_turns : List String → Coord Command → Coord Command
  lost_turns [] c = c
  lost_turns (text ∷ texts) c = lost_turns texts (bring_up_turn (lost text) c).0

  IsKilled : Coord Command → Type 0
  IsKilled c = is_prepare c.loss_provoked_by ≡ true

  lost_turn-IsKilled :
      (text : String) (c : Coord Command) → IsKilled c → IsKilled (bring_up_turn (lost text) c).0
  unfolding IsKilled bring_up_turn give_up greeted note_loss
  lost_turn-IsKilled text c k = elim (Bool-cases (is_stopping c.state)) [
    | inl halting ↦ rw (halting, if◌then◌else◌) k
    | inr going ↦ elim (Bool-cases (leb c.max_attempts c.restart_attempts)) [
      | inl spent ↦ rw (going, spent, if◌then◌else◌) k
      | inr few ↦ rw (going, few, if◌then◌else◌) k
    ]
  ]

  lost_turns-IsKilled :
      (texts : List String) (c : Coord Command) → IsKilled c → IsKilled (lost_turns texts c)
  unfolding lost_turns
  lost_turns-IsKilled [] c k = k
  lost_turns-IsKilled (text ∷ texts) c k =
      lost_turns-IsKilled texts (bring_up_turn (lost text) c).0 (lost_turn-IsKilled text c k)

  send_command-IsKilled :
      (args : Command) (text : String) (c : Coord Command)
      → IsKilled (send_command prepare_kind args (child_lost text) c)
  unfolding IsKilled send_command start_restart note_loss
  send_command-IsKilled args text c = elim (Bool-cases (is_stopping c.state)) [
    | inl halting ↦ rw (halting, if◌then◌else◌) refl
    | inr going ↦ rw (going, if◌then◌else◌) refl
  ]

  reprime_same :
      (args : Option Command) (r s : Reply) (c : Coord Command)
      → IsKilled c
      → reprime args r c ≡ reprime args s c
  unfolding reprime IsKilled
  reprime_same none r s c k = refl
  reprime_same (some args) r s c k = rw (k, if◌then◌else◌) refl

  turn_same :
      (r s : Reply) (c : Coord Command)
      → IsKilled c
      → bring_up_turn (hello r) c ≡ bring_up_turn (hello s) c
  unfolding bring_up_turn greeted IsKilled
  turn_same r s c k = elim (Bool-cases (is_stopping c.state)) [
    | inl halting ↦ rw (halting, if◌then◌else◌) refl
    | inr going ↦ elim (Bool-cases (leb c.max_attempts c.restart_attempts)) [
      | inl spent ↦ rw (going, spent, if◌then◌else◌) refl
      | inr few ↦ rw (going, few, if◌then◌else◌) (reprime_same c.primed_args r s _ k)
    ]
  ]

  -- After a prepare lost its child, and after any number of children that were lost before their
  -- hello, the turn with the first child that says hello does not depend on what that child would
  -- answer to a replay.
  pub lost_turns-send_command :
      (args : Command) (text : String) (texts : List String) (r s : Reply) (c : Coord Command)
      → let down = lost_turns texts (send_command prepare_kind args (child_lost text) c) in
        bring_up_turn (hello r) down ≡ bring_up_turn (hello s) down
  lost_turns-send_command args text texts r s c =
      turn_same r s _ (lost_turns-IsKilled texts _ (send_command-IsKilled args text c))
