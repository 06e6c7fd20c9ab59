-- ===== src/Coordinator/Built.antt =====
-- What `_build_entry` of coordinator.py returns, besides what it keeps.
use donut_server.Prelude.{ℕ, ◌≡◌, refl, sym, subst, Option, none, some, List, [], arith, inl, inr}
use donut_server.Exec.{
  Outcome, ok, raise, Exec, ◌>>=◌, pure, lift, gets, Triple, Triple-bind, Outcome-cases,
}
use donut_server.Refcat.{Cache, Store, Timing, empty_store, load_from, load_and_reshard, total_rows}
use donut_server.Refcat.Cached.{IsFaithful, ensure-Holds, ensure-IsFaithful}
use donut_server.Coordinator.{
  Error, Command, Library, Mirror, Globals, prepare_key, ensured, ensure_refcat, build_entry,
}
use donut_server.Coordinator.Key.{PrepareKey, override_key}
use donut_server.Coordinator.Kept.{IsBuilt, Keeps, Stays, Stays-lift, keep_shards-Stays}

module _ (l : Library) (m : Mirror l) where
  -- a return's value has a property that does not speak of the state
  abbrev pub Gives : {A : Type 0} → Exec (Globals l) Error A → (A → Type 0) → Type 0
  Gives action Q = Triple (Keeps l m) action (λ a g. Keeps l m g × Q a) (Keeps l m)

  Gives-bind :
      {A B : Type 0} (action : Exec (Globals l) Error A) (f : A → Exec (Globals l) Error B)
      (Q : B → Type 0)
      → Stays l m action
      → ((a : A) → Gives (f a) Q)
      → Gives (action >>= f) Q
  Gives-bind action f Q t k = Triple-bind (λ _. Keeps l m) (λ a g. Keeps l m g × Q a) action f t k

  Gives-from :
      {A B : Type 0} (action : Exec (Globals l) Error A) (f : A → Exec (Globals l) Error B)
      (P : A → Type 0) (Q : B → Type 0)
      → Gives action P
      → ((a : A) → P a → Gives (f a) Q)
      → Gives (action >>= f) Q
  Gives-from action f P Q t k =
      Triple-bind (λ a g. Keeps l m g × P a) (λ a g. Keeps l m g × Q a) action f t
        (λ a. record { run = λ g h. (k a h.1).run g h.0 })

  Gives-pure : {A : Type 0} (a : A) (Q : A → Type 0) → Q a → Gives (pure a) Q
  unfolding pure
  Gives-pure a Q q = record { run = λ g h. (h, q) }

  pub Gives-lift : {A : Type 0} (r : Outcome Error A) → Gives (lift r) (λ a. r ≡ ok a)
  unfolding lift
  Gives-lift (ok a) = record { run = λ g h. (h, refl) }
  Gives-lift (raise e) = record { run = λ g h. h }

  pub Gives-gets :
      {A : Type 0} (f : Globals l → A) (Q : A → Type 0)
      → ((g : Globals l) → Keeps l m g → Q (f g))
      → Gives (gets f) Q
  unfolding gets
  Gives-gets f Q k = record { run = λ g h. (h, k g h) }

  -- `ensure` from a store that stands for its ids gives one that stands for the command's ids
  abbrev pub StandsFor : List ℕ → Store l.Catalog → Type 0
  StandsFor ids store =
      (store.shard_ids ≡ ids)
      × (load_and_reshard l.reshard_one ids ≡ some store.shards)
      × (store.n_rows ≡ total_rows l.rows store.shards)

  abbrev Read : List ℕ → Option (Timing × Store l.Catalog) × Cache l.Catalog → Type 0
  Read ids r =
      ((t : Timing) (store : Store l.Catalog) → r.0 ≡ some (t, store) → StandsFor ids store)
      × IsFaithful l.reshard_one r.1

  ensured-Gives :
      (ids : List ℕ) (r : Option (Timing × Store l.Catalog))
      → ((t : Timing) (store : Store l.Catalog) → r ≡ some (t, store) → StandsFor ids store)
      → Gives (lift (ensured l r)) (λ a. StandsFor ids a.1)
  unfolding ensured lift
  ensured-Gives ids none k = record { run = λ g h. h }
  ensured-Gives ids (some (t, store)) k = record { run = λ g h. (h, k t store refl) }

  pub ensure_refcat-Gives :
      (command : Command l.Coordinate) (ids held : List ℕ) (store : Store l.Catalog)
      → l.shard_ids command.boresight_ra command.boresight_dec ≡ ok ids
      → StandsFor held store
      → Gives (ensure_refcat l command store) (λ a. StandsFor ids a.1)
  unfolding ensure_refcat
  ensure_refcat-Gives command ids held store same stands =
      Gives-from _ _ (λ found. l.shard_ids command.boresight_ra command.boresight_dec ≡ ok found) _
        (Gives-lift _)
        (λ found e.
          let p : found ≡ ids = ground (arith, e, same) in
          Gives-from _ _ (Read ids) _
            (Gives-gets _ (Read ids) (λ g h. (
              λ t store' r.
                  subst (λ i. StandsFor i store') p
                    (let (a, b, c, _) =
                        ensure-Holds l.reshard_one l.rows found store g.shard_cache t store'
                          h.sound.faithful
                          (subst (λ i. load_and_reshard l.reshard_one i ≡ some store.shards)
                            (sym stands.0) stands.1)
                          stands.2 r in
                      (a, b, c)),
              ensure-IsFaithful l.reshard_one l.rows found store g.shard_cache h.sound.faithful,
            )))
            (λ r read.
              Gives-bind _ _ _ (keep_shards-Stays l m r.1 read.1)
                (λ _. ensured-Gives ids r.0 read.0)))

  pub prepare_key-parts :
      (key : PrepareKey) (command : Command l.Coordinate)
      → prepare_key l command ≡ ok key
      → (l.shard_ids command.boresight_ra command.boresight_dec ≡ ok key.refcat)
        × (override_key command.config_overrides ≡ key.task)
  unfolding prepare_key
  prepare_key-parts key command same =
      elim (Outcome-cases (l.shard_ids command.boresight_ra command.boresight_dec)) [
        | inl found ↦ let (ids, e) = found in ground (arith, e, same)
        | inr failed ↦ let (x, e) = failed in absurd (ground (arith, e, same))
      ]

  pub build_entry-Gives :
      (key : PrepareKey) (command : Command l.Coordinate)
      → prepare_key l command ≡ ok key
      → Gives (build_entry l key command) (λ a. IsBuilt l key a.0)
  unfolding build_entry empty_store load_and_reshard load_from total_rows
  build_entry-Gives key command same =
      let (ids, task) = prepare_key-parts key command same in
      Gives-from _ _ (λ t. l.build_task (override_key command.config_overrides) ≡ ok t) _
        (Gives-lift _)
        (λ t built. Gives-bind _ _ _ (Stays-lift l m _) (λ _.
          Gives-from _ _ (λ a. StandsFor key.refcat a.1) _
            (ensure_refcat-Gives command key.refcat [] (empty_store l.Catalog) ids
              (refl, refl, refl))
            (λ r stands. Gives-pure _ _ (record {
              same_key = refl;
              same_task = subst (λ k. l.build_task k ≡ ok t) task built;
              same_refcat = stands.0;
              same_shards = stands.1;
              counted = stands.2;
            }))))
