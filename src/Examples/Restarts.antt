-- ===== src/Examples/Restarts.antt =====
-- A coordinator whose first child is lost before its hello, with three attempts at most.
use donut_server.Prelude.{ℕ, zero, suc, ◌+◌, ◌*◌, ◌≤◌, ◌≡◌, refl, some, [], ◌∷◌, arith}
use donut_server.Flights.{ready}
use donut_server.Lifecycle.{
  prepare_kind, Attempt, lost, hello, replied_ok, died, Coord, init, up, greeted, reprime,
  note_loss, bring_up_turn, bring_up, child_lost, answered, send_command,
}
use donut_server.Lifecycle.Termination.{IsSettled, bring_up-IsSettled}
use donut_server.Lifecycle.Reached.{
  IsConsistent, turn, command, Reach, fresh, next, Reach-IsConsistent,
}
use donut_server.Lifecycle.Replay.{lost_turns, lost_turns-send_command}

abbrev second_time : ℕ → Attempt
second_time zero = lost "no reply within 60s"
second_time (suc n) = hello (died "killed")

few_turns :
    2 * (init {Command = ℕ} 3).max_attempts + 2 ≤ 8 + (init {Command = ℕ} 3).restart_attempts
unfolding init
few_turns = omega arith

few_attempts : (init {Command = ℕ} 3).restart_attempts ≤ (init {Command = ℕ} 3).max_attempts
unfolding init
few_attempts = omega arith

bring_up-IsSettled_example :
    (c : Coord ℕ) × (bring_up 8 second_time (init 3) ≡ some c) × IsSettled c
bring_up-IsSettled_example = bring_up-IsSettled 8 second_time (init 3) few_turns few_attempts

abbrev started : Coord ℕ
started =
    (bring_up_turn (hello (replied_ok (some "dump"))) (bring_up_turn (lost "gone") (init 3)).0).0

started_ready : started.state ≡ ready
unfolding bring_up_turn greeted reprime note_loss up init
started_ready = refl

reached : Reach 3 (send_command prepare_kind 5 (answered (some "config")) started)
reached =
    next (next (next fresh (turn (lost "gone"))) (turn (hello (replied_ok (some "dump")))))
      (command prepare_kind 5 (answered (some "config")) started_ready)

Reach-IsConsistent_example :
    IsConsistent (send_command prepare_kind 5 (answered (some "config")) started)
Reach-IsConsistent_example = Reach-IsConsistent reached

lost_turns-send_command_example :
    bring_up_turn
      (hello (died "killed again"))
      (lost_turns ("gone" ∷ []) (send_command prepare_kind 5 (child_lost "killed") started))
    ≡ bring_up_turn
        (hello (replied_ok (some "dump")))
        (lost_turns ("gone" ∷ []) (send_command prepare_kind 5 (child_lost "killed") started))
lost_turns-send_command_example =
    lost_turns-send_command 5 "killed" ("gone" ∷ []) (died "killed again")
      (replied_ok (some "dump")) started
