-- ===== src/Serve/Matched.antt =====
-- What a job's reply of coordinator.py says of the task, the calibs and the catalogs that it ran on.
use Prim.Native.String.{String}
use text.Mathlib.Text.{◌==◌ as str_eq}
use donut_server.Prelude.{
  ℕ, ◌+◌, ◌*◌, ◌≡◌, refl, ap, ◌∙◌, Bool, true, false, Option, some, List, [], ◌∷◌, arith, subst,
  length, All,
}
use donut_server.Bytes.{Bytes, Name, sort_names}
use donut_server.Exec.{
  Outcome, ok, ok_inj, ◌>>=◌, pure, lift, gets, modify, on_ok, on_ok-eq-ok, bind-eq-ok,
  lift-bind-eq-ok, After-eq-ok,
}
use donut_server.Protocol.{PartLayout}
use donut_server.Refcat.{Store, uncovered}
use donut_server.Coordinator.{
  Error, not_covered, Library, CalibSet, Mirror, PreparedEntry, mirror_of, ensure_prepared_for_push,
  task_or_raise,
}
use donut_server.Coordinator.Key.{PrepareKey}
use donut_server.Coordinator.Kept.{IsBuilt, IsSound}
use donut_server.Coordinator.Activated.{IsLive}
use donut_server.Coordinator.Live.{ensure_prepared_for_push-IsLive}
use donut_server.Serve.{
  Science, Bundle, guard, is_empty, all_calibs, all_inputs, bundle_of, cores_for, first_exposure,
  single_visit, reconstruct_exposures, bundle_for, shard_inputs,
}
use donut_server.Serve.Inputs.{raws_of, catalogs_of, intrinsics, bundle_for-reads}
use donut_server.Serve.Calibs.{HasInputs, all_inputs-HasInputs, All-HasInputs-append}
use donut_server.Serve.Jobs.{
  Outside, Process, JobResult, Source, on_globals, matching_calib, outputs_for, result_of, defer,
  run_job, run_push, run_ingest,
}
use donut_server.Serve.Loop.{for_job, push_job, ingest_job}

module _ (l : Library) (s : Science l) (o : Outside l s) where
  -- The run's outputs are of the task on a bundle of just the exposures, of the calibs of their
  -- detectors and of the catalogs, and these fit. The task and the catalogs are of an entry built for
  -- `key`. With the count, the bundle has no other inputs.
  pub record IsMatched (key : PrepareKey) (exposures : List (Name × s.Exposure))
      (outputs : s.Outputs) : Type 0 where
    pub entry : PreparedEntry l
    pub calib : CalibSet l
    pub first : s.Exposure
    pub bundle : Bundle l s
    pub built : IsBuilt l key entry
    pub is_first : first_exposure l s exposures ≡ ok first
    pub same_filter : str_eq (s.calib_filter calib.filtered) (s.filter_of first) ≡ true
    pub all_present : all_calibs l s (s.ptc_by_name calib.detector) exposures ≡ true
    pub one_visit : single_visit l s exposures ≡ ok bundle.visit
    pub covered : uncovered (s.shards_of exposures) entry.refcat_store ≡ []
    pub raws_read : raws_of l s bundle.inputs ≡ sort_names exposures
    pub catalogs_read : catalogs_of l s bundle.inputs ≡ entry.refcat_store.shards
    pub inputs_read : All (HasInputs l s calib bundle.inputs) (sort_names exposures)
    pub no_others :
        length bundle.inputs
        ≡ length entry.refcat_store.shards
          + (5 * length exposures
              + intrinsics l s (s.intrinsic_zernikes_by_name calib.filtered) exposures)
    pub ran : o.run_quantum entry.task bundle ≡ ok outputs

  guard-true : (b : Bool) (why : Error) {u : Unit {0}} → guard b why ≡ ok u → b ≡ true
  guard-true true why h = refl
  guard-true false why h = ground arith

  is_empty-true : {A : Type 0} (xs : List A) → is_empty xs ≡ true → xs ≡ []
  is_empty-true [] h = refl
  is_empty-true (x ∷ xs) h = ground arith

  matching_calib-same :
      (wanted : String) (store : CalibSet l) (calib : CalibSet l)
      → matching_calib l s wanted (some store) ≡ ok calib
      → (calib ≡ store) × (str_eq (s.calib_filter store.filtered) wanted ≡ true)
  unfolding matching_calib
  matching_calib-same wanted store calib h = ground arith

  abbrev visit_in : Outcome Error (Bundle l s) → Outcome Error ℕ
  visit_in r = on_ok r (λ b. ok b.visit)

  bundle_for-parts :
      (default : ℕ) (task : l.Task) (store : Store l.Catalog) (exposures : List (Name × s.Exposure))
      (calib : CalibSet l) (workers : Option ℕ) (bundle : Bundle l s)
      → bundle_for l s default (some task) store exposures calib workers ≡ ok bundle
      → (all_calibs l s (s.ptc_by_name calib.detector) exposures ≡ true)
        × (single_visit l s exposures ≡ ok bundle.visit)
        × (uncovered (s.shards_of exposures) store ≡ [])
        × All (HasInputs l s calib bundle.inputs) (sort_names exposures)
  unfolding bundle_for task_or_raise
  bundle_for-parts default task store exposures calib workers bundle h =
      let (u, present, h₁) = on_ok-eq-ok _ _ h in
      let (visit, one, h₂) = on_ok-eq-ok _ _ h₁ in
      let (v, covered, h₃) = on_ok-eq-ok _ _ h₂ in
      let (inputs, all, made) =
        on_ok-eq-ok (all_inputs l s calib (sort_names exposures))
          (λ entries. ok (bundle_of l s store (cores_for l s default workers) visit entries)) h₃ in
      (
        guard-true _ _ present,
        one ∙ ap visit_in made,
        is_empty-true _ (guard-true _ not_covered covered),
        subst (λ b. All (HasInputs l s calib b.inputs) (sort_names exposures)) (ok_inj made)
            (All-HasInputs-append l s calib (shard_inputs l s store.shards) inputs
              (sort_names exposures)
              (all_inputs-HasInputs l s calib (sort_names exposures) inputs all)),
      )

  mirror_of-IsMatched :
      (key : PrepareKey) (entry : PreparedEntry l) (calib : CalibSet l)
      (exposures : List (Name × s.Exposure)) (workers : Option ℕ) (outputs : s.Outputs)
      → IsBuilt l key entry
      → outputs_for l s o (mirror_of l entry calib) exposures workers ≡ ok outputs
      → IsMatched key exposures outputs
  unfolding outputs_for task_or_raise
  mirror_of-IsMatched key entry calib exposures workers outputs built h =
      let (first, is_first, h₁) = on_ok-eq-ok _ _ h in
      let (found, match, h₂) = on_ok-eq-ok _ _ h₁ in
      let (bundle, bundled, ran) = on_ok-eq-ok _ (λ b. o.run_quantum entry.task b) h₂ in
      let (same, same_filter) = matching_calib-same _ calib found match in
      let made =
        subst
          (λ c.
            bundle_for l s o.default_workers (some entry.task) entry.refcat_store exposures c
              workers
            ≡ ok bundle)
          same bundled in
      let parts =
        bundle_for-parts o.default_workers entry.task entry.refcat_store exposures calib workers
          bundle made in
      let reads =
        bundle_for-reads l s o.default_workers (some entry.task) entry.refcat_store exposures calib
          workers bundle made in
      record {
        entry = entry;
        calib = calib;
        first = first;
        bundle = bundle;
        built = built;
        is_first = is_first;
        same_filter = same_filter;
        all_present = parts.0;
        one_visit = parts.1;
        covered = parts.2;
        raws_read = reads.0;
        catalogs_read = reads.1;
        inputs_read = parts.3;
        no_others = reads.2;
        ran = ran;
      }

  outputs_for-IsMatched :
      (key : PrepareKey) (m : Mirror l) (exposures : List (Name × s.Exposure)) (workers : Option ℕ)
      (outputs : s.Outputs)
      → IsLive l key m
      → outputs_for l s o m exposures workers ≡ ok outputs
      → IsMatched key exposures outputs
  outputs_for-IsMatched key m exposures workers outputs live h =
      mirror_of-IsMatched key live.entry live.calib exposures workers outputs live.built
        (subst (λ m. outputs_for l s o m exposures workers ≡ ok outputs) live.same h)

  -- The result of a job is of outputs whose task, calibs and catalogs fit its exposures.
  pub record IsAnswered (key : PrepareKey) (exposures : List (Name × s.Exposure))
      (r : JobResult l s) : Type 0 where
    pub outputs : s.Outputs
    pub matched : IsMatched key exposures outputs
    pub result : result_of l s (s.slim (s.corner_results outputs)) ≡ ok r

  run_job-IsAnswered :
      (key : PrepareKey) (job_id : Name) (exposures : List (Name × s.Exposure)) (workers : Option ℕ)
      (p p' : Process l s) (r : JobResult l s)
      → IsLive l key p.globals.mirror
      → run_job l s o job_id exposures workers p ≡ (ok r, p')
      → IsAnswered key exposures r
  unfolding run_job defer ◌>>=◌ lift gets modify pure
  run_job-IsAnswered key job_id exposures workers p p' r live h =
      let (outputs, run, h₁) =
        lift-bind-eq-ok (outputs_for l s o p.globals.mirror exposures workers) _ p p' h in
      let (result, made, h₂) =
        lift-bind-eq-ok (result_of l s (s.slim (s.corner_results outputs))) _ p p' h₁ in
      record {
        outputs = outputs;
        matched = outputs_for-IsMatched key p.globals.mirror exposures workers outputs live run;
        result = made ∙ ap (λ x. x.0) h₂;
      }

  for_job-IsLive :
      (key : PrepareKey) (p p' : Process l s) (u : Unit {0})
      → IsSound l p.globals
      → for_job l s o (some key) p ≡ (ok u, p')
      → IsLive l key p'.globals.mirror
  unfolding for_job on_globals pure
  for_job-IsLive key p p' u sound h =
      let (entry, t, e, k) =
        bind-eq-ok (on_globals l s (ensure_prepared_for_push l key)) _ p p' h in
      let live =
        (After-eq-ok _ _ (ensure_prepared_for_push l key p.globals) entry
          (ensure_prepared_for_push-IsLive l key p.globals sound) (ap (λ x. x.0) e)).1 in
      let left : t ≡ p' = ap (λ x. x.1) k in
      let right : (on_globals l s (ensure_prepared_for_push l key) p).1 ≡ t = ap (λ x. x.1) e in
      subst (λ q. IsLive l key q.globals.mirror) (right ∙ left) live

  -- A push with a key that is answered has run the task of an entry built for its key on just these
  -- inputs: the exposures out of the shared block, which are of one visit, the catalogs of that entry,
  -- whose shards cover the exposures, and, of calibs for the filter of the first exposure, those of
  -- each exposure's detector. Its answer is made of that run's outputs.
  pub push_job-IsAnswered :
      (job_id : Name) (key : PrepareKey) (view : Bytes) (layout : List PartLayout)
      (workers : Option ℕ) (p p' : Process l s) (r : JobResult l s)
      → IsSound l p.globals
      → push_job l s o job_id (some key) view layout workers p ≡ (ok r, p')
      → (exposures : List (Name × s.Exposure)) × (reconstruct_exposures l s view layout
          ≡ ok exposures)
        × IsAnswered key exposures r
  unfolding push_job run_push
  push_job-IsAnswered job_id key view layout workers p p' r sound h =
      let (u, t, e, k) = bind-eq-ok (for_job l s o (some key)) _ p p' h in
      let (exposures, read, ran) =
        lift-bind-eq-ok (reconstruct_exposures l s view layout) _ t p' k in
      (
        exposures,
        read,
        run_job-IsAnswered key job_id exposures workers t p' r (for_job-IsLive key p t u sound e)
            ran,
      )

  -- An ingest with a key that is answered has run the task of an entry built for its key on just the
  -- exposures assembled from its directory, the catalogs of that entry and the calibs of their
  -- detectors, which fit as for a push; its answer is made of that run's outputs, with the
  -- directory's source.
  pub ingest_job-IsAnswered :
      (job_id : Name) (key : PrepareKey) (directory : Name) (workers : Option ℕ)
      (p p' : Process l s) (r : JobResult l s × Source)
      → IsSound l p.globals
      → ingest_job l s o job_id (some key) directory workers p ≡ (ok r, p')
      → (exposures : List (Name × s.Exposure)) × (o.ingested directory workers
          ≡ ok (r.1, exposures))
        × IsAnswered key exposures r.0
  unfolding ingest_job run_ingest pure
  ingest_job-IsAnswered job_id key directory workers p p' r sound h =
      let (u, t, e, k) = bind-eq-ok (for_job l s o (some key)) _ p p' h in
      let (found, read, k₁) = lift-bind-eq-ok (o.ingested directory workers) _ t p' k in
      let (result, t₁, ran, k₂) = bind-eq-ok (run_job l s o job_id found.1 workers) _ t p' k₁ in
      let outcome : ok (result, found.0) ≡ ok r = ap (λ x. x.0) k₂ in
      let same : (result, found.0) ≡ r = cc in
      (
        found.1,
        read ∙ ap (λ x. ok (x.1, found.1)) same,
        subst (λ x. IsAnswered key found.1 x.0) same
            (run_job-IsAnswered key job_id found.1 workers t t₁ result
              (for_job-IsLive key p t u sound e) ran),
      )
