-- ===== src/Serve/Replies.antt =====
-- The command loop of coordinator.py: what each command leaves for the next one.
use donut_server.Prelude.{
  ℕ, suc, ◌≡◌, ◌≢◌, refl, ap, Option, none, some, List, [], ◌∷◌, arith, length,
}
use donut_server.Bytes.{Bytes, Name}
use donut_server.Exec.{
  Outcome, ok, raise, Exec, ◌>>=◌, pure, lift, gets, modify, After, Triple, Triple-bind,
}
use donut_server.Protocol.{PartLayout}
use donut_server.Coordinator.{
  Error, Library, Mirror, Globals, ensure_prepared, ensure_prepared_for_push,
}
use donut_server.Coordinator.Key.{PrepareKey}
use donut_server.Coordinator.Kept.{IsSound, Keeps}
use donut_server.Coordinator.Live.{ensure_prepared-IsLive, ensure_prepared_for_push-IsLive}
use donut_server.Serve.{Science}
use donut_server.Serve.Files.{Disk}
use donut_server.Serve.Jobs.{
  Outside, Process, Deferred, JobResult, on_globals, defer, run_job, run_push, run_ingest,
  run_deferred, write_deferred,
}
use donut_server.Serve.Loop.{
  Command, shutdown, prepare, push, resolve, ingest, unknown, Reply, failed, push_reply,
  ingest_reply, for_job, push_job, ingest_job, handle, serve,
}

module _ (l : Library) (s : Science l) (o : Outside l s) where
  -- Between two commands: sound caches, and no deferred work.
  pub record IsIdle (disk : Disk) (p : Process l s) : Type 0 where
    pub sound : IsSound l p.globals
    pub none_deferred : p.deferred ≡ none
    pub same_disk : p.disk ≡ disk

  module _ (disk : Disk) where
    abbrev Idles : {A : Type 0} → Exec (Process l s) Error A → Type 0
    Idles action = Triple (IsIdle disk) action (λ _. IsIdle disk) (IsIdle disk)

    After-Idle :
        {A : Type 0} {Q : A → Globals l → Type 0} {R : Globals l → Type 0} (p : Process l s)
        (x : Outcome Error A × Globals l)
        → ((a : A) (g : Globals l) → Q a g → IsSound l g)
        → ((g : Globals l) → R g → IsSound l g)
        → IsIdle disk p
        → After Q R x
        → After {S = Process l s} (λ _. IsIdle disk) (IsIdle disk) (x.0, record p { globals = x.1 })
    After-Idle p (ok a, g) q r idle h = record {
      sound = q a g h;
      none_deferred = idle.none_deferred;
      same_disk = idle.same_disk;
    }
    After-Idle p (raise e, g) q r idle h = record {
      sound = r g h;
      none_deferred = idle.none_deferred;
      same_disk = idle.same_disk;
    }

    lift-Idles : {A : Type 0} (r : Outcome Error A) → Idles (lift r)
    unfolding lift
    lift-Idles (ok a) = record { run = λ p h. h }
    lift-Idles (raise e) = record { run = λ p h. h }

    for_job-Idles : (key : Option PrepareKey) → Idles (for_job l s o key)
    unfolding for_job on_globals pure
    for_job-Idles none = record { run = λ p h. h }
    for_job-Idles (some key) =
        Triple-bind (λ _. IsIdle disk) _ _ _
          (record {
            run = λ p h.
                After-Idle p (ensure_prepared_for_push l key p.globals) (λ a g q. q.0)
                  (λ g r. r.sound) h (ensure_prepared_for_push-IsLive l key p.globals h.sound);
          })
          (λ entry. record { run = λ p h. h })

    -- A job that fails leaves the files as they were and nothing deferred.
    abbrev Ends : {A : Type 0} → Exec (Process l s) Error A → Type 0
    Ends action = Triple (IsIdle disk) action (λ _ p. IsSound l p.globals) (IsIdle disk)

    gets-Idles : {A : Type 0} (f : Process l s → A) → Idles (gets f)
    unfolding gets
    gets-Idles f = record { run = λ p h. h }

    defer-Ends : (d : Deferred l s) (r : JobResult l s) → Ends (defer l s d >>= λ _. pure r)
    unfolding defer modify pure ◌>>=◌
    defer-Ends d r = record { run = λ p h. h.sound }

    run_job-Ends :
        (job_id : Name) (exposures : List (Name × s.Exposure)) (workers : Option ℕ)
        → Ends (run_job l s o job_id exposures workers)
    unfolding run_job
    run_job-Ends job_id exposures workers =
        Triple-bind (λ _. IsIdle disk) _ _ _ (gets-Idles _)
          (λ m.
            Triple-bind (λ _. IsIdle disk) _ _ _ (lift-Idles _)
              (λ outputs.
                Triple-bind (λ _. IsIdle disk) _ _ _ (lift-Idles _)
                  (λ result. defer-Ends _ result)))

    push_job-Ends :
        (job_id : Name) (key : Option PrepareKey) (view : Bytes) (layout : List PartLayout)
        (workers : Option ℕ)
        → Ends (push_job l s o job_id key view layout workers)
    unfolding push_job run_push
    push_job-Ends job_id key view layout workers =
        Triple-bind (λ _. IsIdle disk) _ _ _ (for_job-Idles key)
          (λ _.
            Triple-bind (λ _. IsIdle disk) _ _ _ (lift-Idles _)
              (λ exposures. run_job-Ends job_id exposures workers))

    ingest_job-Ends :
        (job_id : Name) (key : Option PrepareKey) (directory : Name) (workers : Option ℕ)
        → Ends (ingest_job l s o job_id key directory workers)
    unfolding ingest_job run_ingest pure
    ingest_job-Ends job_id key directory workers =
        Triple-bind (λ _. IsIdle disk) _ _ _ (for_job-Idles key)
          (λ _.
            Triple-bind (λ _. IsIdle disk) _ _ _ (lift-Idles _)
              (λ r.
                Triple-bind (λ _ p. IsSound l p.globals) _ _ _ (run_job-Ends job_id r.1 workers)
                  (λ result. record { run = λ p h. h })))

  After-IsSound :
      {A : Type 0} (disk : Disk) (x : Outcome Error A × Process l s)
      → After (λ _ p. IsSound l p.globals) (IsIdle disk) x
      → IsSound l x.1.globals
  After-IsSound disk (ok a, p) h = h
  After-IsSound disk (raise e, p) h = h.sound

  -- the deferred work after a job that is answered by `reply`
  After-disk :
      {A : Type 0} (reply : Outcome Error A → Reply l s o) (disk : Disk) (e : Error)
      (x : Outcome Error A × Process l s)
      → ((a : A) → reply (ok a) ≢ failed e)
      → After (λ _ p. IsSound l p.globals) (IsIdle disk) x
      → reply x.0 ≡ failed e
      → write_deferred l s o x.1.deferred x.1.disk ≡ disk
  unfolding write_deferred
  After-disk reply disk e (ok a, p) apart h failure = absurd (apart a failure)
  After-disk reply disk e (raise why, p) apart h failure =
      rw (h.none_deferred, write_deferred) h.same_disk

  After-on_globals :
      {A : Type 0} {Q : A → Globals l → Type 0} (m : Mirror l) (x : Outcome Error A × Globals l)
      → ((a : A) (g : Globals l) → Q a g → IsSound l g)
      → After Q (Keeps l m) x
      → IsSound l x.1
  After-on_globals m (ok a, g) q h = q a g h
  After-on_globals m (raise e, g) q h = h.sound

  idle : (p : Process l s) → IsSound l p.globals → p.deferred ≡ none → IsIdle p.disk p
  idle p sound none_deferred = record {
    sound = sound;
    none_deferred = none_deferred;
    same_disk = refl;
  }

  handle-IsIdle :
      (command : Command l.Coordinate) (p : Process l s)
      → IsSound l p.globals
      → p.deferred ≡ none
      → IsIdle (handle l s o command p).1.disk (handle l s o command p).1
  unfolding handle run_deferred on_globals
  handle-IsIdle shutdown p sound d = idle p sound d
  handle-IsIdle (prepare command) p sound d =
      idle _
        (After-on_globals p.globals.mirror (ensure_prepared l command p.globals) (λ a g q. q.0)
          (ensure_prepared-IsLive l command p.globals sound))
        d
  handle-IsIdle (push job_id key view layout workers) p sound d =
      idle _
        (After-IsSound p.disk _
          ((push_job-Ends p.disk job_id key view layout workers).run p (idle p sound d)))
        refl
  handle-IsIdle (resolve directory) p sound d = idle p sound d
  handle-IsIdle (ingest job_id key directory workers) p sound d =
      idle _
        (After-IsSound p.disk _
          ((ingest_job-Ends p.disk job_id key directory workers).run p (idle p sound d)))
        refl
  handle-IsIdle unknown p sound d = idle p sound d

  pub handle-failed :
      (command : Command l.Coordinate) (p : Process l s) (e : Error)
      → IsSound l p.globals
      → p.deferred ≡ none
      → (handle l s o command p).0 ≡ failed e
      → (handle l s o command p).1.disk ≡ p.disk
  unfolding handle on_globals run_deferred
  handle-failed shutdown p e sound d h = refl
  handle-failed (prepare command) p e sound d h = refl
  handle-failed (push job_id key view layout workers) p e sound d h =
      After-disk (push_reply l s o) p.disk e (push_job l s o job_id key view layout workers p)
        (λ r same. ground (arith, same))
        ((push_job-Ends p.disk job_id key view layout workers).run p (idle p sound d)) h
  handle-failed (resolve directory) p e sound d h = refl
  handle-failed (ingest job_id key directory workers) p e sound d h =
      After-disk (ingest_reply l s o) p.disk e (ingest_job l s o job_id key directory workers p)
        (λ r same. ground (arith, same))
        ((ingest_job-Ends p.disk job_id key directory workers).run p (idle p sound d)) h
  handle-failed unknown p e sound d h = refl

  -- the commands up to the first shutdown, with it
  abbrev pub answered : {C : Type 0} → List (Command C) → ℕ
  answered [] = 0
  answered (shutdown ∷ commands) = 1
  answered (command ∷ commands) = suc (answered commands)

  -- From sound caches with nothing deferred, the loop answers every command up to a shutdown once,
  -- and leaves sound caches and nothing deferred, whatever fails.
  pub serve-IsIdle :
      (commands : List (Command l.Coordinate)) (p : Process l s)
      → IsSound l p.globals
      → p.deferred ≡ none
      → (length (serve l s o commands p).0 ≡ answered commands)
        × IsSound l (serve l s o commands p).1.globals
        × ((serve l s o commands p).1.deferred ≡ none)
  unfolding serve
  serve-IsIdle [] p sound d = (refl, sound, d)
  serve-IsIdle (shutdown ∷ commands) p sound d = (refl, sound, d)
  serve-IsIdle (command ∷ commands) p sound d =
      let idle = handle-IsIdle command p sound d in
      let rest = serve-IsIdle commands (handle l s o command p).1 idle.sound idle.none_deferred in
      (ap suc rest.0, rest.1, rest.2)
