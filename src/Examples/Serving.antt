-- ===== src/Examples/Serving.antt =====
-- The coordinator's jobs on the toy libraries: an exposure, a table and the outputs of a run are
-- numbers, and one sensor has calibs.
use donut_server.Prelude.{
  ℕ, ◌≡◌, ◌≢◌, true, if◌then◌else◌, refl, none, some, List, [], ◌∷◌, length, lookup, put, erase,
  evict, move_to_end, arith, nat_eq,
}
use donut_server.Bytes.{Bytes, Name, name_eq, list_eqb, slice, sort_names, name_ltb, insert_name}
use donut_server.Exec.{ok, ◌>>=◌, pure, lift, gets, modify}
use donut_server.Protocol.{PartLayout, collect_parts}
use donut_server.Coordinator.{CalibSet, no_exposures}
use donut_server.Coordinator.Kept.{IsSound}
use donut_server.Serve.{
  raws, ptc, linearizer, crosstalk, flat, exposure_object, calib_object, catalog_object,
  of_detector, of_shard, Science, reconstruct_exposures, bundle_for, Bundle,
}
use donut_server.Serve.Files.{written, tmp_path, stamp_path}
use donut_server.Serve.Jobs.{Outside, Process, JobResult, Source, Deferred}
use donut_server.Serve.Loop.{
  Command, push, resolve, unknown, shutdown, failed, push_job, ingest_job, handle, serve,
}
use donut_server.Serve.Matched.{IsAnswered, push_job-IsAnswered, ingest_job-IsAnswered}
use donut_server.Serve.Replies.{handle-failed, serve-IsIdle}
use donut_server.Serve.Atomic.{Whole, written-Whole}
use donut_server.Serve.Inputs.{raws_of, catalogs_of, bundle_for-reads}
use donut_server.Coordinator.{
  ensure_prepared, prepare_key, prepare_entry, prepare_fresh, build_entry, ensure_refcat, ensured,
  keep_shards, note_command, insert_entry, activate_entry, ensure_calib, ensure_detector_calibs,
  slot_hit, detector_or_load, fill_slot, ensure_filter_calibs, filtered_or_load, touch_filter,
  insert_filter, fresh_globals, ensure_prepared_for_push, push_command, push_entry, touch_entry,
  task_or_raise,
}
use donut_server.Coordinator.Key.{override_key, key_eqb, task_eqb}
use donut_server.Refcat.{
  Store, empty_store, ensure, ensure_shards, ensure_loop, update, total_rows, uncovered, member,
}
use donut_server.Serve.{
  of_result, decode_all, first_exposure, find, all_calibs, same_visit, single_visit, shard_inputs,
  detector_inputs, all_inputs, cores_for,
}
use donut_server.Serve.Jobs.{
  on_globals, matching_calib, result_of, defer, outputs_for, run_job, run_push, run_ingest,
}
use donut_server.Serve.Loop.{for_job}
use donut_server.Serve.Summary.{count_rows, note_groups, count_true, summarize}
use donut_server.Protocol.Parts.{
  part_name, ends_with, without_suffix, found_for, group_parts, pair_parts, split_parts,
}
use donut_server.Examples.Prepared.{toy, pointing_key, prepared, prepared-IsSound}

abbrev job : Name
job = b'j' ∷ []

abbrev sensor : Name
sensor = b'a' ∷ []

abbrev pub toy_science : Science toy
toy_science = record {
  Exposure = ℕ;
  Calib = ℕ;
  Outputs = ℕ;
  Table = ℕ;
  decode_exposure = λ img meta. ok (length img);
  filter_of = λ e. "r_57";
  visit_of = λ e. 5;
  shards_of = λ es. 7 ∷ [];
  calib_filter = λ f. "r_57";
  ptc_by_name = λ d. (sensor, 1) ∷ [];
  linearizer_by_name = λ d. (sensor, 2) ∷ [];
  crosstalk_by_name = λ d. (sensor, 3) ∷ [];
  flat_by_name = λ f. (sensor, 4) ∷ [];
  intrinsic_zernikes_by_name = λ f. [];
  corner_results = λ o. o;
  slim = λ t. t;
  selection_of = λ o kind. some o;
  to_parquet = λ t. ok (t ∷ []);
  rows_of = λ t. [];
}

abbrev source : Source
source = record { visit = 5; physical_filter = "r_57"; imgtype = "CWFS"; detectors = sensor ∷ [] }

-- whose writes fail on every path but a job's stamps
abbrev outside : Outside toy toy_science
outside = record {
  run_quantum = λ task bundle. ok bundle.visit;
  resolve = λ directory. ok source;
  ingested = λ directory workers. ok (source, (sensor, 6) ∷ []);
  default_workers = 8;
  plotting = true;
  fault = λ path. if list_eqb path (stamp_path job) then none else some 1;
}

abbrev idle : Process toy toy_science
idle = record { globals = prepared; deferred = none; disk = [] }

-- a shared block with the two parts of the sensor, and more
abbrev block : Bytes
block = 1 ∷ 2 ∷ 3 ∷ 9 ∷ []

abbrev layout : List PartLayout
layout =
    record { name = b'a' ∷ b':' ∷ b'i' ∷ b'm' ∷ b'g' ∷ []; offset = 0; byte_count = 2 }
    ∷ record { name = b'a' ∷ b':' ∷ b'm' ∷ b'e' ∷ b't' ∷ b'a' ∷ []; offset = 2; byte_count = 1 }
    ∷ []

abbrev result : JobResult toy toy_science
result = record {
  parquet = 5 ∷ [];
  summary = record {
    n_rows = 0;
    n_detectors = 0;
    rows_per_detector = [];
    n_groups = 0;
    n_groups_succeeded = 0;
  };
}

abbrev after_push : Process toy toy_science
after_push = (push_job toy toy_science outside job (some pointing_key) block layout none idle).1

pushed :
    push_job toy toy_science outside job (some pointing_key) block layout none idle
    ≡ (ok result, after_push)
unfolding ensure_prepared prepare_key override_key prepare_entry prepare_fresh build_entry
    ensure_refcat ensured keep_shards note_command insert_entry activate_entry ensure_calib
    ensure_detector_calibs slot_hit detector_or_load fill_slot ensure_filter_calibs filtered_or_load
    touch_filter insert_filter fresh_globals ensure_prepared_for_push push_command push_entry
    touch_entry task_or_raise empty_store ensure ensure_shards ensure_loop update total_rows
    uncovered member key_eqb task_eqb lookup put evict move_to_end erase list_eqb ◌>>=◌ pure lift
    gets modify slice name_ltb insert_name sort_names of_result decode_all reconstruct_exposures
    first_exposure find all_calibs same_visit single_visit shard_inputs detector_inputs all_inputs
    cores_for bundle_for on_globals matching_calib result_of defer outputs_for run_job run_push
    run_ingest for_job push_job ingest_job count_rows note_groups count_true summarize collect_parts
    part_name ends_with without_suffix found_for group_parts pair_parts split_parts
pushed = refl

push_job-IsAnswered_example :
    (exposures : List (Name × ℕ)) × (reconstruct_exposures toy toy_science block layout
      ≡ ok exposures)
    × IsAnswered toy toy_science outside pointing_key exposures result
push_job-IsAnswered_example =
    push_job-IsAnswered toy toy_science outside job pointing_key block layout none idle after_push
      result prepared-IsSound pushed

abbrev after_ingest : Process toy toy_science
after_ingest = (ingest_job toy toy_science outside job (some pointing_key) job none idle).1

ingested :
    ingest_job toy toy_science outside job (some pointing_key) job none idle
    ≡ (ok (result, source), after_ingest)
unfolding ensure_prepared prepare_key override_key prepare_entry prepare_fresh build_entry
    ensure_refcat ensured keep_shards note_command insert_entry activate_entry ensure_calib
    ensure_detector_calibs slot_hit detector_or_load fill_slot ensure_filter_calibs filtered_or_load
    touch_filter insert_filter fresh_globals ensure_prepared_for_push push_command push_entry
    touch_entry task_or_raise empty_store ensure ensure_shards ensure_loop update total_rows
    uncovered member key_eqb task_eqb lookup put evict move_to_end erase list_eqb ◌>>=◌ pure lift
    gets modify slice name_ltb insert_name sort_names of_result decode_all reconstruct_exposures
    first_exposure find all_calibs same_visit single_visit shard_inputs detector_inputs all_inputs
    cores_for bundle_for on_globals matching_calib result_of defer outputs_for run_job run_push
    run_ingest for_job push_job ingest_job count_rows note_groups count_true summarize collect_parts
    part_name ends_with without_suffix found_for group_parts pair_parts split_parts
ingested = refl

ingest_job-IsAnswered_example :
    (exposures : List (Name × ℕ)) × (outside.ingested job none ≡ ok (source, exposures))
    × IsAnswered toy toy_science outside pointing_key exposures result
ingest_job-IsAnswered_example =
    ingest_job-IsAnswered toy toy_science outside job pointing_key job none idle after_ingest
      (result, source) prepared-IsSound ingested

-- a push without parts fails
failed_push :
    (handle toy toy_science outside (push job none block [] none) idle).0 ≡ failed no_exposures
unfolding handle push_job for_job run_push run_job reconstruct_exposures decode_all of_result
    collect_parts split_parts group_parts pair_parts outputs_for first_exposure ◌>>=◌ pure lift gets
failed_push = refl

handle-failed_example :
    (handle toy toy_science outside (push job none block [] none) idle).1.disk ≡ []
handle-failed_example =
    handle-failed toy toy_science outside (push job none block [] none) idle no_exposures
      prepared-IsSound refl failed_push

abbrev commands : List (Command ℕ)
commands = push job none block [] none ∷ resolve job ∷ shutdown ∷ unknown ∷ []

serve-IsIdle_example :
    (length (serve toy toy_science outside commands idle).0 ≡ 3)
    × IsSound toy (serve toy toy_science outside commands idle).1.globals
    × ((serve toy toy_science outside commands idle).1.deferred ≡ none)
serve-IsIdle_example = serve-IsIdle toy toy_science outside commands idle prepared-IsSound refl

apart : job ≢ tmp_path job
unfolding tmp_path
apart e = ground arith

written-Whole_example :
    Whole job
      (7 ∷ 8 ∷ [])
      job
      ((job, 1 ∷ []) ∷ [])
      (written (some 2) job (7 ∷ 8 ∷ []) ((job, 1 ∷ []) ∷ []))
written-Whole_example = written-Whole (some 2) job job (7 ∷ 8 ∷ []) ((job, 1 ∷ []) ∷ []) apart

abbrev deferred : Deferred toy toy_science
deferred = record { job_id = job; table = 5; selection = λ kind. some 6 }

unhurt : outside.fault (stamp_path job) ≡ none
unfolding stamp_path list_eqb
unhurt = refl

abbrev store : Store ℕ
store = record { shard_ids = 7 ∷ 9 ∷ []; shards = (7, 7) ∷ (9, 9) ∷ []; n_rows = 16 }

abbrev calibs : CalibSet toy
calibs = record { detector = 30; filtered = 40 }

abbrev bundle : Bundle toy toy_science
bundle = record {
  inputs =
      of_shard 7 (catalog_object 7)
      ∷ of_shard 9 (catalog_object 9)
      ∷ of_detector raws sensor (exposure_object 6)
      ∷ of_detector ptc sensor (calib_object 1)
      ∷ of_detector linearizer sensor (calib_object 2)
      ∷ of_detector crosstalk sensor (calib_object 3)
      ∷ of_detector flat sensor (calib_object 4)
      ∷ [];
  visit = 5;
  cores = 8;
}

bundled : bundle_for toy toy_science 8 (some 1) store ((sensor, 6) ∷ []) calibs (some 0) ≡ ok bundle
unfolding bundle_for task_or_raise all_calibs single_visit same_visit uncovered member all_inputs
    detector_inputs find lookup list_eqb sort_names insert_name name_ltb shard_inputs cores_for
bundled = refl

bundle_for-reads_example :
    (raws_of toy toy_science bundle.inputs ≡ sort_names ((sensor, 6) ∷ []))
    × (catalogs_of toy toy_science bundle.inputs ≡ (7, 7) ∷ (9, 9) ∷ [])
    × (length bundle.inputs ≡ 7)
unfolding lookup
bundle_for-reads_example =
    bundle_for-reads toy toy_science 8 (some 1) store ((sensor, 6) ∷ []) calibs (some 0) bundle
      bundled
