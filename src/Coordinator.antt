-- ===== src/Coordinator.antt =====
-- coordinator.py (python/lsst/ts/donut_server/coordinator.py): what a `/prepare` loads, the caches
-- that keep it, and the switch of the live configuration. The task's construction, the calib backend
-- and the geometry go through LSST libraries and are fields of `Library`.
pub mod Key
pub mod Kept
pub mod Built
pub mod Activated
pub mod Live
use Prim.Native.String.{String}
use donut_server.Prelude.{
  ℕ, zero, suc, ◌+◌, ◌≡◌, Bool, true, false, ◌&&◌, Option, none, some, List, [], ◌∷◌, map,
  if◌then◌else◌, length, Eq, ◌==◌, lookup, put, evict, move_to_end, nat_eq,
}
use donut_server.Exec.{Outcome, ok, raise, Exec, ◌>>=◌, ◌>>◌, pure, lift, gets, modify, continue}
use donut_server.Protocol
use donut_server.Refcat.{Children, Cache, Store, Timing, empty_store, ensure}
use Key.{Override, OverrideKey, PrepareKey, override_key, key_eq}

-- PREPARED_CACHE_CAP and CALIB_CACHE_CAP
abbrev pub prepared_cache_cap : ℕ
prepared_cache_cap = 3

abbrev pub calib_cache_cap : ℕ
calib_cache_cap = 2

-- `ConfigOverrideError`, `CalibTimeError`, and the others, by their messages
pub data Error : Type 0 where
  config_override calib_time other : String → Error
  never_prepared no_task unread_shard : Error
  -- what `run_job` and its callees raise
  no_exposures wrong_filter no_calibs many_visits not_covered no_key : Error
  in_protocol : Protocol.Error → Error

-- `CalibIds`: a backend's answer to what a command means
pub record CalibIds (DetectorId FilterId : Type 0) : Type 0 where
  pub detector : DetectorId
  pub filtered : FilterId

pub record Command (Coordinate : Type 0) : Type 0 where
  pub config_overrides : Option (List Override)
  pub physical_filter : String
  pub boresight_ra : Coordinate
  pub boresight_dec : Coordinate
  pub calib_time : String

-- The functions that go through LSST libraries and files, and what they answer: the sky geometry, the
-- reads of a catalog, the construction of a task, and the calib backends.
pub record Library : Type 1 where
  pub Coordinate : Type 0
  pub Task : Type 0
  pub Catalog : Type 0
  pub DetectorId : Type 0
  pub FilterId : Type 0
  pub DetectorCalibs : Type 0
  pub FilterCalibs : Type 0
  pub detector_id_eq : Eq DetectorId
  pub filter_id_eq : Eq FilterId
  -- refcat_store.shard_ids_for_pointing, as a sorted list
  pub shard_ids : Coordinate → Coordinate → Outcome Error (List ℕ)
  -- refcat_store._reshard_one, and len of a catalog
  pub reshard_one : ℕ → Option (Children Catalog)
  pub rows : Catalog → ℕ
  -- build_task, which reads of an override what `override_key` keeps
  pub build_task : List OverrideKey → Outcome Error (Task × String)
  -- stamp_dir and os.makedirs
  pub make_stamp_dir : Outcome Error (Unit {0})
  -- the methods of the calib backend
  pub resolve : Command Coordinate → Outcome Error (CalibIds DetectorId FilterId)
  pub load_detector : CalibIds DetectorId FilterId → Outcome Error DetectorCalibs
  pub load_filter : CalibIds DetectorId FilterId → DetectorCalibs → Outcome Error FilterCalibs

module _ (l : Library) where
  open l use {
    Coordinate, Task, Catalog, DetectorId, FilterId, DetectorCalibs, FilterCalibs, detector_id_eq,
    filter_id_eq, shard_ids, reshard_one, rows, build_task, make_stamp_dir, resolve, load_detector,
    load_filter,
  }

  pub record PreparedEntry : Type 0 where
    pub key : PrepareKey
    pub task : Task
    pub task_dump : String
    pub refcat_store : Store Catalog

  pub record CalibSet : Type 0 where
    pub detector : DetectorCalibs
    pub filtered : FilterCalibs

  -- The mirror globals, which `run_job` reads: `_ACTIVE_KEY`, `_TASK`, `_TASK_DUMP`, `_CALIB_STORE`
  -- (empty or filled) and `_REFCAT_STORE`.
  pub record Mirror : Type 0 where
    pub active_key : Option PrepareKey
    pub task : Option Task
    pub task_dump : String
    pub calib_store : Option CalibSet
    pub refcat_store : Store Catalog

  -- The other globals of the module, and `_SHARD_CACHE`.
  pub record Globals : Type 0 where
    pub prepared_cache : List (PrepareKey × PreparedEntry)
    pub prepare_commands : List (PrepareKey × Command Coordinate)
    pub detector_calib_cache : Option (DetectorId × DetectorCalibs)
    pub filter_calib_cache : List (FilterId × FilterCalibs)
    pub shard_cache : Cache Catalog
    pub mirror : Mirror

  unfoldable pub fresh_globals : Globals
  fresh_globals = record {
    prepared_cache = [];
    prepare_commands = [];
    detector_calib_cache = none;
    filter_calib_cache = [];
    shard_cache = [];
    mirror = record {
      active_key = none;
      task = none;
      task_dump = "";
      calib_store = none;
      refcat_store = empty_store Catalog;
    };
  }

  abbrev pub Action : Type 0 → Type 0
  Action A = Exec Globals Error A

  unfoldable pub prepare_key : Command Coordinate → Outcome Error PrepareKey
  prepare_key command = elim (shard_ids command.boresight_ra command.boresight_dec) [
    | raise e ↦ raise e
    | ok ids ↦ ok (record {
      task = override_key command.config_overrides;
      physical_filter = command.physical_filter;
      refcat = ids;
      calib_time = command.calib_time;
    })
  ]

  -- the hit test of `_ensure_detector_calibs`
  unfoldable pub slot_hit :
      Option (DetectorId × DetectorCalibs) → DetectorId → Option DetectorCalibs
  slot_hit none wanted = none
  slot_hit (some (held, detector)) wanted =
      if detector_id_eq.equal held wanted then some detector else none

  unfoldable pub fill_slot : DetectorId → DetectorCalibs → Action (Unit {0})
  fill_slot wanted detector =
      modify (λ g. record g { detector_calib_cache = some (wanted, detector) })

  unfoldable pub detector_or_load :
      CalibIds DetectorId FilterId → Option DetectorCalibs → Action (DetectorCalibs × Bool)
  unfolding fill_slot
  detector_or_load ids (some detector) = pure (detector, true)
  detector_or_load ids none = do
    detector ← lift (load_detector ids)
    fill_slot ids.detector detector
    pure (detector, false)

  unfoldable pub ensure_detector_calibs :
      CalibIds DetectorId FilterId → Action (DetectorCalibs × Bool)
  unfolding slot_hit detector_or_load
  ensure_detector_calibs ids = do
    hit ← gets (λ g. slot_hit g.detector_calib_cache ids.detector)
    detector_or_load ids hit

  unfoldable pub touch_filter : FilterId → Action (Unit {0})
  touch_filter filter = modify (λ g. record g {
    filter_calib_cache = move_to_end ⦃e = filter_id_eq⦄ filter g.filter_calib_cache;
  })

  -- the insertion and the eviction after a load
  unfoldable pub insert_filter : FilterId → FilterCalibs → Action (Unit {0})
  insert_filter filter filtered = modify (λ g. record g {
    filter_calib_cache =
        evict calib_cache_cap (put ⦃e = filter_id_eq⦄ filter filtered g.filter_calib_cache);
  })

  unfoldable pub filtered_or_load :
      CalibIds DetectorId FilterId
      → DetectorCalibs
      → Option FilterCalibs
      → Action (FilterCalibs × Bool)
  unfolding touch_filter insert_filter
  filtered_or_load ids detector (some filtered) = do
    touch_filter ids.filtered
    pure (filtered, true)
  filtered_or_load ids detector none = do
    filtered ← lift (load_filter ids detector)
    insert_filter ids.filtered filtered
    pure (filtered, false)

  unfoldable pub ensure_filter_calibs :
      CalibIds DetectorId FilterId → DetectorCalibs → Action (FilterCalibs × Bool)
  unfolding filtered_or_load
  ensure_filter_calibs ids detector = do
    hit ← gets (λ g. lookup ⦃e = filter_id_eq⦄ ids.filtered g.filter_calib_cache)
    filtered_or_load ids detector hit

  -- with the two `reused` flags of the timings
  unfoldable pub ensure_calib : Command Coordinate → Action (CalibSet × (Bool × Bool))
  unfolding ensure_detector_calibs ensure_filter_calibs
  ensure_calib command = do
    ids ← lift (resolve command)
    d ← ensure_detector_calibs ids
    f ← ensure_filter_calibs ids d.0
    pure (record { detector = d.0; filtered = f.0 }, (d.1, f.1))

  abbrev pub mirror_of : PreparedEntry → CalibSet → Mirror
  mirror_of entry calib = record {
    active_key = some entry.key;
    task = some entry.task;
    task_dump = entry.task_dump;
    calib_store = some calib;
    refcat_store = entry.refcat_store;
  }

  unfoldable pub activate_entry : PreparedEntry → Command Coordinate → Action (Bool × Bool)
  unfolding ensure_calib
  activate_entry entry command = do
    calib ← ensure_calib command
    modify (λ g. record g { mirror = mirror_of entry calib.0 })
    pure calib.1

  unfoldable pub ensured : Option (Timing × Store Catalog) → Outcome Error (Timing × Store Catalog)
  ensured none = raise unread_shard
  ensured (some r) = ok r

  unfoldable pub keep_shards : Cache Catalog → Action (Unit {0})
  keep_shards cache = modify (λ g. record g { shard_cache = cache })

  -- `store.ensure(ra, dec)`
  unfoldable pub ensure_refcat :
      Command Coordinate → Store Catalog → Action (Timing × Store Catalog)
  unfolding ensured keep_shards
  ensure_refcat command store = do
    ids ← lift (shard_ids command.boresight_ra command.boresight_dec)
    r ← gets (λ g. ensure reshard_one rows ids store g.shard_cache)
    keep_shards r.1
    lift (ensured r.0)

  unfoldable pub build_entry : PrepareKey → Command Coordinate → Action (PreparedEntry × Timing)
  unfolding ensure_refcat
  build_entry key command = do
    t ← lift (build_task (override_key command.config_overrides))
    _ ← lift make_stamp_dir
    r ← ensure_refcat command (empty_store Catalog)
    pure (record { key = key; task = t.0; task_dump = t.1; refcat_store = r.1 }, r.0)

  -- `_PREPARED_CACHE[key] = entry`, then `_evict_lru`
  unfoldable pub insert_entry : PrepareKey → PreparedEntry → Action (Unit {0})
  insert_entry key entry =
      modify (λ g. record g {
        prepared_cache = evict prepared_cache_cap (put key entry g.prepared_cache);
      })

  unfoldable pub touch_entry : PrepareKey → Action (Unit {0})
  touch_entry key = modify (λ g. record g { prepared_cache = move_to_end key g.prepared_cache })

  -- the cached entry after its own store has changed
  unfoldable pub restored :
      PrepareKey
      → PreparedEntry
      → List (PrepareKey × PreparedEntry)
      → List (PrepareKey × PreparedEntry)
  restored key entry [] = []
  restored key entry ((k, e) ∷ cache) =
      (k, if k == key then entry else e) ∷ restored key entry cache

  unfoldable pub restore_entry : PrepareKey → PreparedEntry → Action (Unit {0})
  unfolding restored
  restore_entry key entry =
      modify (λ g. record g { prepared_cache = restored key entry g.prepared_cache })

  -- what `ensure_prepared` returns, but for the elapsed times
  pub record Prepared : Type 0 where
    pub key : PrepareKey
    pub task_reused : Bool
    pub refcat : Timing
    pub calib_reused : Bool × Bool

  unfoldable pub note_command : PrepareKey → Command Coordinate → Action (Unit {0})
  note_command key command =
      modify (λ g. record g { prepare_commands = put key command g.prepare_commands })

  -- The miss branch. The entry and its command are in the caches before the activation.
  unfoldable pub prepare_fresh : PrepareKey → Command Coordinate → Action Prepared
  unfolding build_entry note_command insert_entry activate_entry
  prepare_fresh key command = do
    built ← build_entry key command
    note_command key command
    insert_entry key built.0
    calib ← activate_entry built.0 command
    pure (record { key = key; task_reused = false; refcat = built.1; calib_reused = calib })

  -- The hit branch. `ensure` changes the cached entry's own store.
  unfoldable pub prepare_cached : PrepareKey → PreparedEntry → Command Coordinate → Action Prepared
  unfolding touch_entry ensure_refcat restore_entry activate_entry
  prepare_cached key entry command = do
    touch_entry key
    r ← ensure_refcat command entry.refcat_store
    restore_entry key (record entry { refcat_store = r.1 })
    calib ← activate_entry (record entry { refcat_store = r.1 }) command
    pure (record { key = key; task_reused = true; refcat = r.0; calib_reused = calib })

  unfoldable pub prepare_entry :
      PrepareKey → Option PreparedEntry → Command Coordinate → Action Prepared
  unfolding prepare_fresh prepare_cached
  prepare_entry key none command = prepare_fresh key command
  prepare_entry key (some entry) command = prepare_cached key entry command

  unfoldable pub ensure_prepared : Command Coordinate → Action Prepared
  unfolding prepare_key prepare_entry
  ensure_prepared command = do
    key ← lift (prepare_key command)
    hit ← gets (λ g. lookup key g.prepared_cache)
    prepare_entry key hit command

  unfoldable pub push_entry :
      PrepareKey → Option PreparedEntry → Command Coordinate → Action PreparedEntry
  unfolding build_entry insert_entry activate_entry touch_entry
  push_entry key (some entry) command = do
    touch_entry key
    _ ← activate_entry entry command
    pure entry
  push_entry key none command = do
    built ← build_entry key command
    insert_entry key built.0
    _ ← activate_entry built.0 command
    pure built.0

  unfoldable pub push_command : PrepareKey → Option (Command Coordinate) → Action PreparedEntry
  unfolding push_entry
  push_command key none = lift (raise never_prepared)
  push_command key (some command) = do
    hit ← gets (λ g. lookup key g.prepared_cache)
    push_entry key hit command

  unfoldable pub ensure_prepared_for_push : PrepareKey → Action PreparedEntry
  unfolding push_command
  ensure_prepared_for_push key = do
    command ← gets (λ g. lookup key g.prepare_commands)
    push_command key command

  unfoldable pub task_or_raise : Option Task → Outcome Error Task
  task_or_raise none = raise no_task
  task_or_raise (some task) = ok task

  unfoldable pub require_task : Action Task
  unfolding task_or_raise
  require_task = do task ← gets (λ g. g.mirror.task); lift (task_or_raise task)
