-- ===== src/Serve/Jobs.antt =====
-- A job of coordinator.py from its exposures to its result and its files: `run_job`, `run_push`,
-- `run_ingest`, and `_run_deferred` after the reply. `Outside` holds what these call in other
-- libraries, and in daq.py and replay.py.
use Prim.Native.String.{String}
use text.Mathlib.Text.{◌==◌ as str_eq}
use donut_server.Prelude.{ℕ, Bool, true, false, Option, none, some, List, [], ◌∷◌, if◌then◌else◌}
use donut_server.Bytes.{Bytes, Name}
use donut_server.Exec.{Outcome, ok, raise, Exec, ◌>>=◌, ◌>>◌, pure, lift, gets, modify, on_ok}
use donut_server.Protocol.{PartLayout}
use donut_server.Coordinator.{
  Error, wrong_filter, Library, CalibSet, Mirror, Globals, task_or_raise,
}
use donut_server.Serve.{
  Science, PlotTable, detector_images, selection_overlays, Bundle, first_exposure, bundle_for,
  reconstruct_exposures,
}
use donut_server.Serve.Files.{Disk, written, stamp_path, selection_path}
use donut_server.Serve.Summary.{Summary, summarize}

-- What the headers of an exposure's directory give: `resolve_exposure` and the source of an ingest.
pub record Source : Type 0 where
  pub visit : ℕ
  pub physical_filter : String
  pub imgtype : String
  pub detectors : List Name

pub record Outside (l : Library) (s : Science l) : Type 0 where
  -- task.runQuantum, through the butler
  pub run_quantum : l.Task → Bundle l s → Outcome Error s.Outputs
  -- replay.resolve, and daq.ingested_exposures with the headers that replay substitutes
  pub resolve : Name → Outcome Error Source
  pub ingested : Name → Option ℕ → Outcome Error (Source × List (Name × s.Exposure))
  -- NUM_WORKERS, and plotting_enabled()
  pub default_workers : ℕ
  pub plotting : Bool
  -- after how many of its actions the write of a path fails
  pub fault : Name → Option ℕ

-- the kind of a selection table, in its file's name
abbrev pub kind_name : PlotTable → Name
kind_name detector_images =
    b'd' ∷ b'e' ∷ b't' ∷ b'e' ∷ b'c' ∷ b't' ∷ b'o' ∷ b'r' ∷ b'_' ∷ b'i' ∷ b'm' ∷ b'a' ∷ b'g' ∷ b'e'
    ∷ b's' ∷ []
kind_name selection_overlays =
    b's' ∷ b'e' ∷ b'l' ∷ b'e' ∷ b'c' ∷ b't' ∷ b'i' ∷ b'o' ∷ b'n' ∷ b'_' ∷ b'o' ∷ b'v' ∷ b'e' ∷ b'r'
    ∷ b'l' ∷ b'a' ∷ b'y' ∷ b's' ∷ []

module _ (l : Library) (s : Science l) where
  open s use {Exposure, Table}

  -- `_DEFERRED` when it is filled
  pub record Deferred : Type 0 where
    pub job_id : Name
    pub table : Table
    pub selection : PlotTable → Option Table

  -- The module's state, and the files of stamp_dir().
  pub record Process : Type 0 where
    pub globals : Globals l
    pub deferred : Option Deferred
    pub disk : Disk

  -- what a job answers, but for the elapsed times
  pub record JobResult : Type 0 where
    pub parquet : Bytes
    pub summary : Summary

  abbrev pub Serving : Type 0 → Type 0
  Serving A = Exec Process Error A

  -- the code above, which works on the globals
  unfoldable pub on_globals : {A : Type 0} → Exec (Globals l) Error A → Serving A
  on_globals action p = let (r, g) = action p.globals in (r, record p { globals = g })

  -- The filter cross-check, and _CALIB_STORE["calib"].
  unfoldable pub matching_calib : String → Option (CalibSet l) → Outcome Error (CalibSet l)
  matching_calib physical_filter none = raise wrong_filter
  matching_calib physical_filter (some calib) =
      if str_eq (s.calib_filter calib.filtered) physical_filter
      then ok calib
      else raise wrong_filter

  -- The selection tables are read only when something will read their files.
  abbrev pub selection_for : Bool → s.Outputs → PlotTable → Option Table
  selection_for true outputs name = s.selection_of outputs name
  selection_for false outputs name = none

  unfoldable pub result_of : Table → Outcome Error JobResult
  result_of table =
      on_ok (s.to_parquet table)
        (λ bytes. ok (record { parquet = bytes; summary = summarize (s.rows_of table) }))

  unfoldable pub defer : Deferred → Serving (Unit {0})
  defer d = modify (λ p. record p { deferred = some d })

  module _ (o : Outside l s) where
    -- From the filter check to the quantum's outputs, on the live configuration.
    unfoldable pub outputs_for :
        Mirror l → List (Name × Exposure) → Option ℕ → Outcome Error s.Outputs
    unfolding matching_calib task_or_raise
    outputs_for m exposures workers = on_ok (first_exposure l s exposures) (λ first.
        on_ok (matching_calib (s.filter_of first) m.calib_store) (λ calib.
          on_ok (bundle_for l s o.default_workers m.task m.refcat_store exposures calib workers)
            (λ bundle. on_ok (task_or_raise l m.task) (λ task. o.run_quantum task bundle))))

    unfoldable pub run_job : Name → List (Name × Exposure) → Option ℕ → Serving JobResult
    unfolding outputs_for result_of defer
    run_job job_id exposures workers = do
      m ← gets (λ p. p.globals.mirror)
      outputs ← lift (outputs_for m exposures workers)
      result ← lift (result_of (s.slim (s.corner_results outputs)))
      defer (record {
        job_id = job_id;
        table = s.corner_results outputs;
        selection = selection_for o.plotting outputs;
      })
      pure result

    -- `view` is the shared block
    unfoldable pub run_push : Name → Bytes → List PartLayout → Option ℕ → Serving JobResult
    unfolding run_job
    run_push job_id view layout workers = do
      exposures ← lift (reconstruct_exposures l s view layout)
      run_job job_id exposures workers

    -- with the `imgtype` and the `visit` of the result
    unfoldable pub run_ingest : Name → Name → Option ℕ → Serving (JobResult × Source)
    unfolding run_job
    run_ingest job_id directory workers = do
      r ← lift (o.ingested directory workers)
      result ← run_job job_id r.1 workers
      pure (result, r.0)

    -- `_write_parquet`, whose failure is logged and swallowed
    unfoldable pub write_parquet : Name → Table → Disk → Disk
    write_parquet final table disk = elim (s.to_parquet table) [
      | ok payload ↦ written (o.fault final) final payload disk
      | raise e ↦ disk
    ]

    -- one turn of the loop over PLOT_TABLES
    unfoldable pub write_selection : Deferred → PlotTable → Disk → Disk
    unfolding write_parquet
    write_selection d name disk = elim (d.selection name) [
      | none ↦ disk
      | some subtable ↦ write_parquet (selection_path d.job_id (kind_name name)) subtable disk
    ]

    unfoldable pub write_deferred : Option Deferred → Disk → Disk
    unfolding write_parquet write_selection
    write_deferred none disk = disk
    write_deferred (some d) disk =
        write_selection d selection_overlays
          (write_selection d detector_images (write_parquet (stamp_path d.job_id) d.table disk))

    unfoldable pub run_deferred : Process → Process
    unfolding write_deferred
    run_deferred p = record p { deferred = none; disk = write_deferred p.deferred p.disk }
