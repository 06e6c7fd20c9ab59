-- ===== src/Lifecycle.antt =====
-- The lifecycle of one coordinator process, `Coord` of server.py
-- (python/lsst/ts/donut_server/server.py): bring-up and its retries, the replay of the last prepare,
-- losses, restarts and commands. What the child does is an argument of each operation, and one turn
-- of the loop of `_bring_up` is taken with no other coroutine in between. Termination is about that
-- loop, Reached about every state that the operations reach,
-- Replay about a prepare that killed its child, Usable about the guard of a command.
pub mod Termination
pub mod Reached
pub mod Replay
pub mod Usable
use Prim.Native.String.{String}
use donut_server.Prelude.{
  ℕ, zero, suc, ◌+◌, Bool, true, false, Option, none, some, leb, eqb, if◌then◌else◌,
}
use donut_server.Flights.{
  CoordState, starting, ready, restarting, degraded, stopping, is_degraded, is_stopping,
}

-- the `cmd` of a command; only "prepare" is looked for
pub data Kind : Type 0 where
  prepare_kind other_kind : Kind

pub data Reason : Type 0 where
  -- so many consecutive attempts failed, and the reason of the last loss, if there was one
  attempts_failed : ℕ → Option String → Reason
  misconfigured : String → Reason

pub record Loss : Type 0 where
  pub reason : String
  pub provoked_by : Option Kind
  pub at_generation : ℕ

-- what the new child answers to a replayed prepare; `none` is a reply with no `config_dump`
pub data Reply : Type 0 where
  replied_ok : Option String → Reply
  replied_error no_process died : String → Reply

-- what a new child does: it is lost before its hello, it reports a fatal configuration, or it says
-- hello and answers a replay
pub data Attempt : Type 0 where
  lost fatal : String → Attempt
  hello : Reply → Attempt

-- A dump and the generation of the child that gave it.
pub record ConfigSnapshot : Type 0 where
  pub dump : String
  pub generation : ℕ

pub record Coord (Command : Type 0) : Type 0 where
  pub max_attempts : ℕ
  pub state : CoordState
  pub ready_event : Bool
  -- whether `_restart_task` is set
  pub restart_task : Bool
  pub restart_attempts : ℕ
  pub spawns : ℕ
  pub generation : ℕ
  pub last_loss : Option Loss
  pub loss_provoked_by : Option Kind
  pub degraded_reason : Option Reason
  pub fatal_reason : Option String
  pub primed_args : Option Command
  pub reprime_error : Option String
  pub config_snapshot : Option ConfigSnapshot

abbrev pub is_prepare : Option Kind → Bool
is_prepare (some prepare_kind) = true
is_prepare (some other_kind) = false
is_prepare none = false

abbrev pub loss_text : Option Loss → Option String
loss_text none = none
loss_text (some loss) = some loss.reason

abbrev snapshot : Option String → ℕ → Option ConfigSnapshot → Option ConfigSnapshot
snapshot none generation old = old
snapshot (some dump) generation old = some (record { dump = dump; generation = generation })

-- what comes of the exchange in `send_command`: a reply, with `ok` and the dump or without `ok`, or
-- the loss of the child
pub data Exchange : Type 0 where
  answered : Option String → Exchange
  refused : Exchange
  child_lost : String → Exchange

-- what `_ensure_usable` finds: a usable child, or the message of `CoordinatorUnavailable`
pub data Usability : Type 0 where
  usable still_starting : Usability
  is_down : Option Reason → Usability
  is_in : CoordState → Usability

-- the tests on the state, with what follows for one that is starting
abbrev pub state_check : CoordState → Option Reason → Usability → Usability
state_check ready reason wait = usable
state_check degraded reason wait = is_down reason
state_check restarting reason wait = is_in restarting
state_check stopping reason wait = is_in stopping
state_check starting reason wait = wait

module _ {Command : Type 0} where
  unfoldable pub init : ℕ → Coord Command
  init max = record {
    max_attempts = max;
    state = starting;
    ready_event = false;
    restart_task = false;
    restart_attempts = 0;
    spawns = 0;
    generation = 0;
    last_loss = none;
    loss_provoked_by = none;
    degraded_reason = none;
    fatal_reason = none;
    primed_args = none;
    reprime_error = none;
    config_snapshot = none;
  }

  unfoldable pub note_loss : String → Option Kind → Coord Command → Coord Command
  note_loss text kind c = record c {
    last_loss = some (record { reason = text; provoked_by = kind; at_generation = c.generation });
    loss_provoked_by = kind;
  }

  unfoldable pub note_prepared : Command → Option String → Coord Command → Coord Command
  note_prepared command dump c = record c {
    primed_args = some command;
    config_snapshot = snapshot dump c.generation c.config_snapshot;
  }

  -- the end of a turn that brought a child up
  unfoldable pub up : Coord Command → Coord Command
  up c = record c { loss_provoked_by = none; state = ready; ready_event = true }

  -- `_reprime` after the guard, and what follows it; the Boolean says that the loop has returned
  unfoldable pub replayed : Command → Reply → Coord Command → Coord Command × Bool
  unfolding up note_prepared note_loss
  replayed command (replied_ok dump) c = (up (note_prepared command dump c), true)
  replayed command (replied_error text) c =
      (up (record c { primed_args = none; reprime_error = some text }), true)
  replayed command (no_process text) c = (up (record c { reprime_error = some text }), true)
  replayed command (died text) c = (note_loss text (some prepare_kind) c, false)

  unfoldable pub reprime : Option Command → Reply → Coord Command → Coord Command × Bool
  unfolding replayed up
  reprime none r c = (up c, true)
  reprime (some command) r c =
      if is_prepare c.loss_provoked_by
      then (up c, true)
      else replayed command r (record c { reprime_error = none })

  unfoldable pub give_up : Coord Command → Coord Command
  give_up c = record c {
    degraded_reason = some (attempts_failed c.restart_attempts (loss_text c.last_loss));
    state = degraded;
    ready_event = true;
  }

  -- the handshake with a spawned child
  unfoldable pub greeted : Attempt → Coord Command → Coord Command × Bool
  unfolding note_loss reprime
  greeted (lost text) c = (note_loss text c.loss_provoked_by c, false)
  greeted (fatal text) c = (
    record c {
      fatal_reason = some text;
      degraded_reason = some (misconfigured text);
      state = degraded;
      ready_event = true;
    },
    true,
  )
  greeted (hello r) c =
      reprime c.primed_args r (record c { generation = c.generation + 1; restart_attempts = 0 })

  -- one turn of the loop of `_bring_up`
  unfoldable pub bring_up_turn : Attempt → Coord Command → Coord Command × Bool
  unfolding give_up greeted
  bring_up_turn a c =
      if is_stopping c.state
      then (c, true)
      else (if leb c.max_attempts c.restart_attempts
          then (give_up c, true)
          else greeted a
              (record c { restart_attempts = c.restart_attempts + 1; spawns = c.spawns + 1 }))

  -- The loop, for what the child does at each turn; `none` is no fuel left.
  unfoldable pub bring_up : ℕ → (ℕ → Attempt) → Coord Command → Option (Coord Command)
  unfolding bring_up_turn
  bring_up zero attempts c = none
  bring_up (suc n) attempts c =
      let rest = bring_up n (λ i. attempts (suc i)) (bring_up_turn (attempts 0) c).0 in
      if (bring_up_turn (attempts 0) c).1 then some (bring_up_turn (attempts 0) c).0 else rest

  unfoldable pub start_restart : Coord Command → Coord Command
  start_restart c =
      if is_stopping c.state
      then c
      else record c { state = restarting; ready_event = false; restart_task = true }

  -- `request_restart` with the number of exchanges in flight, but for the signal to the child
  unfoldable pub request_restart : String → ℕ → Coord Command → Coord Command
  unfolding start_restart note_loss
  request_restart text in_flight c =
      if is_degraded c.state
      then start_restart
          (record c { restart_attempts = 0; degraded_reason = none; fatal_reason = none })
      else (if eqb in_flight 0 then start_restart (note_loss text none c) else c)

  -- `_ensure_usable`. A start is waited for; `after` is the coordinator then, or nothing after the
  -- time is up.
  abbrev pub after_wait : Option (Coord Command) → Usability
  after_wait none = still_starting
  after_wait (some d) = state_check d.state d.degraded_reason (is_in starting)

  unfoldable pub ensure_usable : Option (Coord Command) → Coord Command → Usability
  ensure_usable after c = state_check c.state c.degraded_reason (after_wait after)

  -- `send_command` of a usable coordinator
  unfoldable pub send_command : Kind → Command → Exchange → Coord Command → Coord Command
  unfolding note_prepared note_loss start_restart
  send_command prepare_kind command (answered dump) c = note_prepared command dump c
  send_command other_kind command (answered dump) c = c
  send_command kind command refused c = c
  send_command kind command (child_lost text) c = start_restart (note_loss text (some kind) c)
