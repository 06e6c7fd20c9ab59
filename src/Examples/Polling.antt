-- ===== src/Examples/Polling.antt =====
-- An exposure whose eight files are there from the second poll on.
use donut_server.Prelude.{
  ℕ, ◌+◌, ◌≡◌, refl, true, some, List, [], ◌∷◌, ◌++◌, lookup, put, arith, nat_eq,
}
use donut_server.Bytes.{name_eq, list_eqb}
use donut_server.Trigger.{
  File, Poll, complete, poll_once, note_file, poll_files, sensor_of, sensor_in, is_digit, has_items,
  same_items, go_on, turn, wait_loop, wait_for_exposure,
}
use donut_server.Trigger.Settled.{IsSettled, wait_for_exposure-IsSettled}
use donut_server.Trigger.Halting.{
  HasEnded, Ticks, Steady, Before, wait_for_exposure-HasEnded, wait_for_exposure-completes,
}

-- x_Rab_SWc.fits, complete
abbrev file : ℕ → ℕ → ℕ → File
file a b c = record {
  name =
      b'x' ∷ b'_' ∷ b'R' ∷ a ∷ b ∷ b'_' ∷ b'S' ∷ b'W' ∷ c ∷ b'.' ∷ b'f' ∷ b'i' ∷ b't' ∷ b's' ∷ [];
  has_sidecar = true;
  size = some 95;
}

abbrev all_files : List File
all_files =
    file b'0' b'0' b'0'
    ∷ file b'0' b'0' b'1'
    ∷ file b'0' b'4' b'0'
    ∷ file b'0' b'4' b'1'
    ∷ file b'4' b'0' b'0'
    ∷ file b'4' b'0' b'1'
    ∷ file b'4' b'4' b'0'
    ∷ file b'4' b'4' b'1'
    ∷ []

abbrev poll : ℕ → List File → Poll
poll at files = record { polled_at = at; files = files; checked_at = at + 1 }

abbrev first_poll : Poll
first_poll = poll 2 all_files

abbrev window : List Poll
window = poll 4 all_files ∷ []

abbrev last_poll : Poll
last_poll = poll 7 all_files

abbrev polls : List Poll
polls = poll 0 [] ∷ first_poll ∷ poll 4 all_files ∷ last_poll ∷ []

waited : wait_for_exposure 0 90 1 5 polls ≡ complete 2
unfolding wait_for_exposure wait_loop turn go_on poll_once poll_files note_file sensor_of sensor_in
    is_digit has_items same_items lookup put list_eqb
waited = refl

wait_for_exposure-IsSettled_example : IsSettled (b'R' ∷ []) 5 2 polls
wait_for_exposure-IsSettled_example =
    wait_for_exposure-IsSettled (b'R' ∷ []) 0 90 1 5 2 polls waited

ticks : Ticks 0 polls
ticks = ground arith

wait_for_exposure-HasEnded_example : HasEnded (wait_for_exposure 0 3 1 5 polls)
wait_for_exposure-HasEnded_example = wait_for_exposure-HasEnded 0 3 1 5 polls ticks (omega arith)

steady : Steady (poll_once first_poll.files) (window ++ last_poll ∷ [])
unfolding poll_once poll_files note_file sensor_of sensor_in is_digit has_items same_items lookup
    put list_eqb
steady = (refl, refl, (refl, refl, tt))

early : Before 90 (poll 0 [] ∷ first_poll ∷ window)
early = ground arith

wait_for_exposure-completes_example : (at : ℕ) × (wait_for_exposure 0 90 1 5 polls ≡ complete at)
wait_for_exposure-completes_example =
    wait_for_exposure-completes 0 90 1 5 (poll 0 [] ∷ []) first_poll window last_poll []
      (omega arith) (omega arith) ticks early steady (omega arith)
