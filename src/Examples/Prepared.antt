-- ===== src/Examples/Prepared.antt =====
-- A coordinator whose outer libraries are toys: a catalog is its number of rows, a task and its dump
-- are always the same, and the ids of calibs are fixed.
use donut_server.Prelude.{ℕ, ◌≡◌, none, some, [], ◌∷◌, lookup, put, evict, arith, nat_eq}
use donut_server.Bytes.{list_eqb}
use donut_server.Exec.{ok, ◌>>=◌, pure, lift, gets, modify, After}
use donut_server.Refcat.{empty_store, ensure, ensure_shards, ensure_loop, update, total_rows}
use donut_server.Coordinator.{
  Command, Library, Globals, fresh_globals, prepare_key, slot_hit, fill_slot, detector_or_load,
  ensure_detector_calibs, insert_filter, filtered_or_load, ensure_filter_calibs, ensure_calib,
  activate_entry, ensured, keep_shards, ensure_refcat, build_entry, insert_entry, note_command,
  prepare_fresh, prepare_entry, ensure_prepared, ensure_prepared_for_push,
}
use donut_server.Coordinator.Key.{PrepareKey, override_key, key_eq}
use donut_server.Coordinator.Kept.{IsBuilt, IsSound, Keeps}
use donut_server.Coordinator.Activated.{IsLive}
use donut_server.Coordinator.Live.{ensure_prepared-IsLive, ensure_prepared_for_push-IsLive}

abbrev pub toy : Library
toy = record {
  Coordinate = ℕ;
  Task = ℕ;
  Catalog = ℕ;
  DetectorId = ℕ;
  FilterId = ℕ;
  DetectorCalibs = ℕ;
  FilterCalibs = ℕ;
  detector_id_eq = nat_eq;
  filter_id_eq = nat_eq;
  shard_ids = λ ra dec. ok (ra ∷ dec ∷ []);
  reshard_one = λ i. some ((i, i) ∷ []);
  rows = λ c. c;
  build_task = λ spec. ok (1, "config");
  make_stamp_dir = ok tt;
  resolve = λ command. ok (record { detector = 3; filtered = 4 });
  load_detector = λ ids. ok 30;
  load_filter = λ ids detector. ok 40;
}

abbrev pub pointing : Command ℕ
pointing = record {
  config_overrides = none;
  physical_filter = "r_57";
  boresight_ra = 7;
  boresight_dec = 9;
  calib_time = "2026-01-01";
}

abbrev pub pointing_key : PrepareKey
pointing_key = record {
  task = [];
  physical_filter = "r_57";
  refcat = 7 ∷ 9 ∷ [];
  calib_time = "2026-01-01";
}

fresh-IsSound : IsSound toy (fresh_globals toy)
unfolding fresh_globals
fresh-IsSound = record {
  built = tt;
  known = tt;
  few_entries = omega arith;
  few_filters = omega arith;
  faithful = tt;
}

ensure_prepared-IsLive_example :
    After
      (λ p g. IsSound toy g × IsLive toy p.key g.mirror × (prepare_key toy pointing ≡ ok p.key))
      (Keeps toy (fresh_globals toy).mirror)
      (ensure_prepared toy pointing (fresh_globals toy))
ensure_prepared-IsLive_example =
    ensure_prepared-IsLive toy pointing (fresh_globals toy) fresh-IsSound

-- the state after a prepare
abbrev pub prepared : Globals toy
prepared = (ensure_prepared toy pointing (fresh_globals toy)).1

pub prepared-IsSound : IsSound toy prepared
unfolding ensure_prepared prepare_key override_key prepare_entry prepare_fresh build_entry
    ensure_refcat ensured keep_shards note_command insert_entry activate_entry ensure_calib
    ensure_detector_calibs slot_hit detector_or_load fill_slot ensure_filter_calibs filtered_or_load
    insert_filter fresh_globals empty_store ensure ensure_shards ensure_loop update total_rows
    lookup put evict list_eqb ◌>>=◌ pure lift gets modify
prepared-IsSound = (ensure_prepared-IsLive toy pointing (fresh_globals toy) fresh-IsSound).0

ensure_prepared_for_push-IsLive_example :
    After
      (λ entry g. IsSound toy g × IsLive toy pointing_key g.mirror × IsBuilt toy pointing_key entry)
      (Keeps toy prepared.mirror)
      (ensure_prepared_for_push toy pointing_key prepared)
ensure_prepared_for_push-IsLive_example =
    ensure_prepared_for_push-IsLive toy pointing_key prepared prepared-IsSound
