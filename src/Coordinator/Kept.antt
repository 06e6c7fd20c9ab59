-- ===== src/Coordinator/Kept.antt =====
-- The caches of coordinator.py under `_ensure_calib` and `_build_entry`.
use donut_server.Prelude.{
  ◌≤◌, ◌≡◌, Option, none, some, length, put, All, arith, length-evict-le, length-move_to_end-le,
}
use donut_server.Exec.{
  Outcome, ok, raise, Exec, ◌>>=◌, pure, lift, gets, modify, Triple, Triple-bind,
}
use donut_server.Refcat.{Cache, load_and_reshard, total_rows}
use donut_server.Refcat.Cached.{IsFaithful}
use donut_server.Coordinator.{
  Error, Command, CalibIds, Library, PreparedEntry, Mirror, Globals, prepare_key, detector_or_load,
  ensure_detector_calibs, filtered_or_load, ensure_filter_calibs, ensure_calib, fill_slot,
  touch_filter, insert_filter, keep_shards, prepared_cache_cap, calib_cache_cap,
}
use donut_server.Coordinator.Key.{PrepareKey}

module _ (l : Library) where
  -- a cached entry stands for its key
  pub record IsBuilt (key : PrepareKey) (entry : PreparedEntry l) : Type 0 where
    pub same_key : entry.key ≡ key
    pub same_task : l.build_task key.task ≡ ok (entry.task, entry.task_dump)
    pub same_refcat : entry.refcat_store.shard_ids ≡ key.refcat
    pub same_shards : load_and_reshard l.reshard_one key.refcat ≡ some entry.refcat_store.shards
    pub counted : entry.refcat_store.n_rows ≡ total_rows l.rows entry.refcat_store.shards

  pub record IsSound (g : Globals l) : Type 0 where
    pub built : All (λ e. IsBuilt e.0 e.1) g.prepared_cache
    pub known : All (λ e. prepare_key l e.1 ≡ ok e.0) g.prepare_commands
    pub few_entries : length g.prepared_cache ≤ prepared_cache_cap
    pub few_filters : length g.filter_calib_cache ≤ calib_cache_cap
    pub faithful : IsFaithful l.reshard_one g.shard_cache

  -- sound caches, and a given mirror
  pub record Keeps (m : Mirror l) (g : Globals l) : Type 0 where
    pub sound : IsSound g
    pub same_mirror : g.mirror ≡ m

  abbrev pub Stays : {A : Type 0} → Mirror l → Exec (Globals l) Error A → Type 0
  Stays m action = Triple (Keeps m) action (λ _. Keeps m) (Keeps m)

  module _ (m : Mirror l) where
    Stays-bind :
        {A B : Type 0} (action : Exec (Globals l) Error A) (f : A → Exec (Globals l) Error B)
        → Stays m action
        → ((a : A) → Stays m (f a))
        → Stays m (action >>= f)
    Stays-bind action f t k = Triple-bind (λ _. Keeps m) (λ _. Keeps m) action f t k

    pub Stays-lift : {A : Type 0} (r : Outcome Error A) → Stays m (lift r)
    unfolding lift
    Stays-lift (ok a) = record { run = λ s h. h }
    Stays-lift (raise e) = record { run = λ s h. h }

    Stays-pure : {A : Type 0} (a : A) → Stays m (pure a)
    unfolding pure
    Stays-pure a = record { run = λ s h. h }

    Stays-gets : {A : Type 0} (f : Globals l → A) → Stays m (gets f)
    unfolding gets
    Stays-gets f = record { run = λ s h. h }

    fill_slot-Stays :
        (wanted : l.DetectorId) (detector : l.DetectorCalibs)
        → Stays m (fill_slot l wanted detector)
    unfolding fill_slot modify
    fill_slot-Stays wanted detector = record {
      run = λ g h. record {
        sound = record {
          built = h.sound.built;
          known = h.sound.known;
          few_entries = h.sound.few_entries;
          faithful = h.sound.faithful;
          few_filters = h.sound.few_filters;
        };
        same_mirror = h.same_mirror;
      };
    }

    touch_filter-Stays : (filter : l.FilterId) → Stays m (touch_filter l filter)
    unfolding touch_filter modify
    touch_filter-Stays filter = record {
      run = λ g h. record {
        sound = record {
          built = h.sound.built;
          known = h.sound.known;
          few_entries = h.sound.few_entries;
          faithful = h.sound.faithful;
          few_filters = omega (
            arith,
            h.sound.few_filters,
            length-move_to_end-le ⦃e = l.filter_id_eq⦄ filter g.filter_calib_cache,
          );
        };
        same_mirror = h.same_mirror;
      };
    }

    insert_filter-Stays :
        (filter : l.FilterId) (filtered : l.FilterCalibs)
        → Stays m (insert_filter l filter filtered)
    unfolding insert_filter modify
    insert_filter-Stays filter filtered = record {
      run = λ g h. record {
        sound = record {
          built = h.sound.built;
          known = h.sound.known;
          few_entries = h.sound.few_entries;
          faithful = h.sound.faithful;
          few_filters =
              length-evict-le calib_cache_cap
                (put ⦃e = l.filter_id_eq⦄ filter filtered g.filter_calib_cache);
        };
        same_mirror = h.same_mirror;
      };
    }

    detector_or_load-Stays :
        (ids : CalibIds l.DetectorId l.FilterId) (hit : Option l.DetectorCalibs)
        → Stays m (detector_or_load l ids hit)
    unfolding detector_or_load
    detector_or_load-Stays ids (some detector) = Stays-pure _
    detector_or_load-Stays ids none =
        Stays-bind _ _ (Stays-lift _)
          (λ detector. Stays-bind _ _ (fill_slot-Stays _ _) (λ _. Stays-pure _))

    filtered_or_load-Stays :
        (ids : CalibIds l.DetectorId l.FilterId) (detector : l.DetectorCalibs)
        (hit : Option l.FilterCalibs)
        → Stays m (filtered_or_load l ids detector hit)
    unfolding filtered_or_load
    filtered_or_load-Stays ids detector (some filtered) =
        Stays-bind _ _ (touch_filter-Stays _) (λ _. Stays-pure _)
    filtered_or_load-Stays ids detector none =
        Stays-bind _ _ (Stays-lift _)
          (λ filtered. Stays-bind _ _ (insert_filter-Stays _ _) (λ _. Stays-pure _))

    pub ensure_calib-Stays : (command : Command l.Coordinate) → Stays m (ensure_calib l command)
    unfolding ensure_calib ensure_detector_calibs ensure_filter_calibs
    ensure_calib-Stays command = Stays-bind _ _ (Stays-lift _) (λ ids.
        Stays-bind _ _ (Stays-bind _ _ (Stays-gets _) (λ hit. detector_or_load-Stays ids hit)) (λ d.
          Stays-bind _ _ (Stays-bind _ _ (Stays-gets _) (λ hit. filtered_or_load-Stays ids d.0 hit))
            (λ f. Stays-pure _)))

    pub keep_shards-Stays :
        (cache : Cache l.Catalog) → IsFaithful l.reshard_one cache → Stays m (keep_shards l cache)
    unfolding keep_shards modify
    keep_shards-Stays cache v = record {
      run = λ g h. record {
        sound = record {
          built = h.sound.built;
          known = h.sound.known;
          few_entries = h.sound.few_entries;
          few_filters = h.sound.few_filters;
          faithful = v;
        };
        same_mirror = h.same_mirror;
      };
    }
