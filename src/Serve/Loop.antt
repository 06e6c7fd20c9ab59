-- ===== src/Serve/Loop.antt =====
-- The command loop of coordinator.py, `coordinator_main` after its hello: each command is answered
-- once, and the deferred work of a job is done after its reply.
use Prim.Native.String.{String}
use donut_server.Prelude.{ℕ, Option, none, some, List, [], ◌∷◌}
use donut_server.Bytes.{Bytes, Name}
use donut_server.Exec.{Outcome, ok, raise, ◌>>=◌, ◌>>◌, pure}
use donut_server.Protocol.{PartLayout}
use donut_server.Coordinator as Prepare
use donut_server.Coordinator.{
  Error, config_override, calib_time, Library, Globals, Prepared, ensure_prepared,
  ensure_prepared_for_push,
}
use donut_server.Coordinator.Key.{PrepareKey}
use donut_server.Serve.{Science}
use donut_server.Serve.Jobs.{
  Source, Outside, Process, JobResult, Serving, on_globals, run_push, run_ingest, run_deferred,
}

-- a command of the Pipe; a push's has the shared block as it is then
pub data Command (Coordinate : Type 0) : Type 0 where
  shutdown : Command Coordinate
  prepare : Prepare.Command Coordinate → Command Coordinate
  push : Name → Option PrepareKey → Bytes → List PartLayout → Option ℕ → Command Coordinate
  resolve : Name → Command Coordinate
  ingest : Name → Option PrepareKey → Name → Option ℕ → Command Coordinate
  unknown : Command Coordinate

-- the tag of an error of a prepare
pub data Kind : Type 0 where
  config_override_kind calib_time_kind : Kind

unfoldable pub kind_of : Error → Option Kind
kind_of (config_override message) = some config_override_kind
kind_of (calib_time message) = some calib_time_kind
kind_of _ = none

module _ (l : Library) (s : Science l) (o : Outside l s) where
  pub data Reply : Type 0 where
    done : Reply
    -- with the config dump
    prepared : Prepared l → String → Reply
    pushed : JobResult l s → Reply
    ingested : JobResult l s → Source → Reply
    resolved : Source → Reply
    prepare_failed : Error → Option Kind → Reply
    failed : Error → Reply
    unknown_command : Reply

  -- `ensure_prepared_for_push` when the job has a key
  unfoldable pub for_job : Option PrepareKey → Serving l s (Unit {0})
  unfolding on_globals ◌>>=◌ pure
  for_job none = pure tt
  for_job (some key) = do entry ← on_globals l s (ensure_prepared_for_push l key); pure tt

  unfoldable pub push_job :
      Name → Option PrepareKey → Bytes → List PartLayout → Option ℕ → Serving l s (JobResult l s)
  unfolding for_job run_push
  push_job job_id key view layout workers = do
    for_job key
    run_push l s o job_id view layout workers

  unfoldable pub ingest_job :
      Name → Option PrepareKey → Name → Option ℕ → Serving l s (JobResult l s × Source)
  unfolding for_job run_ingest
  ingest_job job_id key directory workers = do
    for_job key
    run_ingest l s o job_id directory workers

  abbrev pub prepare_reply : Outcome Error (Prepared l) → Globals l → Reply
  prepare_reply (ok p) g = prepared p g.mirror.task_dump
  prepare_reply (raise e) g = prepare_failed e (kind_of e)

  abbrev pub push_reply : Outcome Error (JobResult l s) → Reply
  push_reply (ok r) = pushed r
  push_reply (raise e) = failed e

  abbrev pub ingest_reply : Outcome Error (JobResult l s × Source) → Reply
  ingest_reply (ok r) = ingested r.0 r.1
  ingest_reply (raise e) = failed e

  abbrev pub resolve_reply : Outcome Error Source → Reply
  resolve_reply (ok r) = resolved r
  resolve_reply (raise e) = failed e

  -- One command: its reply, and the state before the next `recv`.
  unfoldable pub handle : Command l.Coordinate → Process l s → Reply × Process l s
  unfolding push_job ingest_job on_globals run_deferred
  handle shutdown p = (done, p)
  handle (prepare command) p =
      let (r, p') = on_globals l s (ensure_prepared l command) p in (prepare_reply r p'.globals, p')
  handle (push job_id key view layout workers) p =
      let (r, p') = push_job job_id key view layout workers p in
      (push_reply r, run_deferred l s o p')
  handle (resolve directory) p = (resolve_reply (o.resolve directory), p)
  handle (ingest job_id key directory workers) p =
      let (r, p') = ingest_job job_id key directory workers p in
      (ingest_reply r, run_deferred l s o p')
  handle unknown p = (unknown_command, p)

  -- The loop, over the commands that arrive: it ends after a shutdown, or at the end of the Pipe.
  unfoldable pub serve : List (Command l.Coordinate) → Process l s → List Reply × Process l s
  unfolding handle
  serve [] p = ([], p)
  serve (shutdown ∷ commands) p = (done ∷ [], p)
  serve (command ∷ commands) p =
      let (reply, p') = handle command p in
      let (replies, p'') = serve commands p' in (reply ∷ replies, p'')
