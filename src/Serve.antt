-- ===== src/Serve.antt =====
-- The jobs of coordinator.py (python/lsst/ts/donut_server/coordinator.py): the exposures out of the
-- shared block, the guards of `run_job`, and the inputs of the task's quantum. The task, the codec of
-- an exposure, the calibs' contents and the sky geometry go through LSST libraries: `Science`.
pub mod Files
pub mod Summary
pub mod Jobs
pub mod Loop
pub mod Atomic
pub mod Deferred
pub mod Matched
pub mod Replies
pub mod Inputs
pub mod Calibs
pub mod Decoded
pub mod Counted
use Prim.Native.String.{String}
use text.Mathlib.Text.{◌==◌ as str_eq}
use donut_server.Prelude.{
  ℕ, zero, suc, ◌+◌, ◌≡◌, Bool, true, false, ◌&&◌, ◌||◌, not, Option, none, some, List, [], ◌∷◌,
  ◌++◌, map, if◌then◌else◌, eqb, ltb, keep_if, lookup, length,
}
use donut_server.Bytes.{Bytes, Name, name_eq, sort_names}
use donut_server.Exec.{Outcome, ok, raise, Exec, ◌>>=◌, ◌>>◌, pure, lift, gets, modify, on_ok}
use donut_server.Protocol
use donut_server.Protocol.{PartLayout, Result, collect_parts}
use donut_server.Protocol.Parts.{split_parts}
use donut_server.Refcat.{Store, uncovered}
use donut_server.Coordinator.{
  Error, other, no_task, no_exposures, wrong_filter, no_calibs, many_visits, not_covered, no_key,
  in_protocol, Library, CalibSet, Mirror, Globals, task_or_raise,
}

-- the names of PLOT_TABLES
pub data PlotTable : Type 0 where
  detector_images selection_overlays : PlotTable

pub record Row : Type 0 where
  pub det_name : Name
  pub group_id : Name
  pub group_fit_success : Bool

pub record Science (l : Library) : Type 1 where
  pub Exposure : Type 0
  pub Calib : Type 0
  pub Outputs : Type 0
  pub Table : Type 0
  -- exposure_codec.decode_exposure, of the two parts of a sensor
  pub decode_exposure : Bytes → Bytes → Outcome Error Exposure
  -- getFilter().physicalLabel, getVisitInfo().id, and the shards that an exposure's sky needs
  pub filter_of : Exposure → String
  pub visit_of : Exposure → ℕ
  pub shards_of : List (Name × Exposure) → List ℕ
  -- the dicts of a CalibSet
  pub calib_filter : l.FilterCalibs → String
  pub ptc_by_name : l.DetectorCalibs → List (Name × Calib)
  pub linearizer_by_name : l.DetectorCalibs → List (Name × Calib)
  pub crosstalk_by_name : l.DetectorCalibs → List (Name × Calib)
  pub flat_by_name : l.FilterCalibs → List (Name × Calib)
  pub intrinsic_zernikes_by_name : l.FilterCalibs → List (Name × Calib)
  -- cornerResults without its image columns, and the selection tables with their kinds
  pub corner_results : Outputs → Table
  pub slim : Table → Table
  pub selection_of : Outputs → PlotTable → Option Table
  pub to_parquet : Table → Outcome Error Bytes
  -- what _summarize reads of a row: det_name, group_id stripped, group_fit_success
  pub rows_of : Table → List Row

-- the connections of the task
pub data Connection : Type 0 where
  ref_cat raws ptc linearizer crosstalk flat intrinsic_zernikes : Connection

unfoldable pub of_result : {A : Type 0} → Result A → Outcome Error A
of_result (Protocol.ok a) = ok a
of_result (Protocol.err why) = raise (in_protocol why)

abbrev pub guard : Bool → Error → Outcome Error (Unit {0})
guard true why = ok tt
guard false why = raise why

abbrev pub is_empty : {A : Type 0} → List A → Bool
is_empty [] = true
is_empty (a ∷ rest) = false

module _ (l : Library) (s : Science l) where
  open l use {Task, Catalog}
  open s use {
    Exposure, Calib, decode_exposure, filter_of, visit_of, shards_of, calib_filter, ptc_by_name,
    linearizer_by_name, crosstalk_by_name, flat_by_name, intrinsic_zernikes_by_name,
  }

  pub data Object : Type 0 where
    exposure_object : Exposure → Object
    calib_object : Calib → Object
    catalog_object : Catalog → Object

  -- One dataset for the quantum: its connection, and the detector or the shard that it is of.
  pub data Input : Type 0 where
    of_detector : Connection → Name → Object → Input
    of_shard : ℕ → Object → Input

  -- `QuantumBundle`, as what it was made of
  pub record Bundle : Type 0 where
    pub inputs : List Input
    pub visit : ℕ
    pub cores : ℕ

  -- the decoding loop of `reconstruct_exposures`
  unfoldable pub decode_all : List (Name × (Bytes × Bytes)) → Outcome Error (List (Name × Exposure))
  decode_all [] = ok []
  decode_all ((sensor, (img, meta)) ∷ sensors) =
      on_ok (decode_exposure img meta)
        (λ exposure. on_ok (decode_all sensors) (λ rest. ok ((sensor, exposure) ∷ rest)))

  -- `view` is the shared block
  unfoldable pub reconstruct_exposures :
      Bytes → List PartLayout → Outcome Error (List (Name × Exposure))
  unfolding decode_all of_result
  reconstruct_exposures view layout =
      on_ok (of_result (split_parts (collect_parts view [] layout))) decode_all

  -- next(iter(exposures.values()))
  unfoldable pub first_exposure : List (Name × Exposure) → Outcome Error Exposure
  first_exposure [] = raise no_exposures
  first_exposure ((name, exposure) ∷ exposures) = ok exposure

  -- d[name]
  unfoldable pub find : List (Name × Calib) → Name → Outcome Error Calib
  find calibs name = elim (lookup name calibs) [ none ↦ raise no_key | some c ↦ ok c ]

  abbrev pub has_calibs : List (Name × Calib) → Name → Bool
  has_calibs calibs name = elim (lookup name calibs) [ none ↦ false | some c ↦ true ]

  -- not (set(exposures) - set(calib.ptc_by_name))
  unfoldable pub all_calibs : List (Name × Calib) → List (Name × Exposure) → Bool
  all_calibs calibs [] = true
  all_calibs calibs ((name, exposure) ∷ exposures) =
      has_calibs calibs name && all_calibs calibs exposures

  -- the visit ids are all the first one's
  unfoldable pub same_visit : ℕ → List (Name × Exposure) → Bool
  same_visit visit [] = true
  same_visit visit ((name, exposure) ∷ exposures) =
      eqb (visit_of exposure) visit && same_visit visit exposures

  -- visit_ids.pop(), of a set of one
  unfoldable pub single_visit : List (Name × Exposure) → Outcome Error ℕ
  unfolding same_visit
  single_visit [] = raise many_visits
  single_visit ((name, exposure) ∷ exposures) =
      on_ok (guard (same_visit (visit_of exposure) exposures) many_visits)
        (λ _. ok (visit_of exposure))

  unfoldable pub shard_inputs : List (ℕ × Catalog) → List Input
  shard_inputs [] = []
  shard_inputs ((i, catalog) ∷ shards) = of_shard i (catalog_object catalog) ∷ shard_inputs shards

  -- a detector with no file for its intrinsic Zernikes contributes none
  abbrev pub intrinsic_input : Name → Option Calib → List Input
  intrinsic_input name none = []
  intrinsic_input name (some c) = of_detector intrinsic_zernikes name (calib_object c) ∷ []

  -- `entries` of one detector
  unfoldable pub detector_inputs : CalibSet l → Name → Exposure → Outcome Error (List Input)
  unfolding find
  detector_inputs calib name exposure = on_ok (find (ptc_by_name calib.detector) name) (λ p.
      on_ok (find (linearizer_by_name calib.detector) name) (λ n.
        on_ok (find (crosstalk_by_name calib.detector) name) (λ x.
          on_ok (find (flat_by_name calib.filtered) name) (λ f. ok (
            of_detector raws name (exposure_object exposure)
            ∷ of_detector ptc name (calib_object p)
            ∷ of_detector linearizer name (calib_object n)
            ∷ of_detector crosstalk name (calib_object x)
            ∷ of_detector flat name (calib_object f)
            ∷ intrinsic_input name (lookup name (intrinsic_zernikes_by_name calib.filtered)))))))

  unfoldable pub all_inputs : CalibSet l → List (Name × Exposure) → Outcome Error (List Input)
  unfolding detector_inputs
  all_inputs calib [] = ok []
  all_inputs calib ((name, exposure) ∷ exposures) =
      on_ok (detector_inputs calib name exposure)
        (λ entries. on_ok (all_inputs calib exposures) (λ rest. ok (entries ++ rest)))

  -- num_workers or NUM_WORKERS
  unfoldable pub cores_for : ℕ → Option ℕ → ℕ
  cores_for default none = default
  cores_for default (some n) = if eqb n 0 then default else n

  -- the shards of the reference catalog, then the detectors' entries
  abbrev pub bundle_of : Store Catalog → ℕ → ℕ → List Input → Bundle
  bundle_of store cores visit entries = record {
    inputs = shard_inputs store.shards ++ entries;
    visit = visit;
    cores = cores;
  }

  -- The guards and the inputs, for the live task and the live reference catalog.
  unfoldable pub bundle_for :
      ℕ
      → Option Task
      → Store Catalog
      → List (Name × Exposure)
      → CalibSet l
      → Option ℕ
      → Outcome Error Bundle
  unfolding all_calibs single_visit shard_inputs all_inputs sort_names cores_for
  bundle_for default live store exposures calib workers = on_ok (task_or_raise l live) (λ _.
      on_ok (guard (all_calibs (ptc_by_name calib.detector) exposures) no_calibs) (λ _.
        on_ok (single_visit exposures) (λ visit.
          on_ok (guard (is_empty (uncovered (shards_of exposures) store)) not_covered) (λ _.
            on_ok (all_inputs calib (sort_names exposures))
              (λ entries. ok (bundle_of store (cores_for default workers) visit entries))))))
