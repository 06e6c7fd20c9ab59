-- ===== src/Serve/Inputs.antt =====
-- What `build_quantum_context` of coordinator.py gives the task to read.
use donut_server.Prelude.{
  ℕ, suc, ◌+◌, ◌*◌, ◌≡◌, refl, ap, ◌∙◌, Option, none, some, List, [], ◌∷◌, ◌++◌, arith, length,
  lookup, length-append, append-nil, inl, inr, if◌then◌else◌, Bool-cases, subst,
}
use donut_server.Bytes.{Name, name_eq, name_ltb, insert_name, sort_names}
use donut_server.Exec.{ok, on_ok-eq-ok, ok_inj}
use donut_server.Refcat.{Store, uncovered}
use donut_server.Coordinator.{no_calibs, not_covered, Library, CalibSet, task_or_raise}
use donut_server.Serve.{
  Science, guard, is_empty, all_calibs, raws, ptc, linearizer, crosstalk, flat, exposure_object,
  calib_object, catalog_object, Input, of_detector, of_shard, Bundle, find, intrinsic_input,
  shard_inputs, detector_inputs, all_inputs, bundle_of, bundle_for, cores_for, single_visit,
}

module _ (l : Library) (s : Science l) where
  -- the exposures among the inputs, and the catalogs, in order
  abbrev pub raws_of : List (Input l s) → List (Name × s.Exposure)
  raws_of [] = []
  raws_of (of_detector raws name (exposure_object e) ∷ inputs) = (name, e) ∷ raws_of inputs
  raws_of (input ∷ inputs) = raws_of inputs

  abbrev pub catalogs_of : List (Input l s) → List (ℕ × l.Catalog)
  catalogs_of [] = []
  catalogs_of (of_shard i (catalog_object c) ∷ inputs) = (i, c) ∷ catalogs_of inputs
  catalogs_of (input ∷ inputs) = catalogs_of inputs

  -- how many of the detectors have a file for their intrinsic Zernikes
  abbrev pub intrinsics : List (Name × s.Calib) → List (Name × s.Exposure) → ℕ
  intrinsics calibs [] = 0
  intrinsics calibs ((name, e) ∷ exposures) =
      length (intrinsic_input l s name (lookup name calibs)) + intrinsics calibs exposures

  -- what the entries of a list of exposures have in them
  abbrev Holds : CalibSet l → List (Name × s.Exposure) → List (Input l s) → Type 0
  Holds calib exposures inputs =
      (raws_of inputs ≡ exposures)
      × (catalogs_of inputs ≡ [])
      × (length inputs
          ≡ 5 * length exposures
            + intrinsics (s.intrinsic_zernikes_by_name calib.filtered) exposures)

  intrinsic_input-append :
      (name : Name) (c : Option s.Calib) (inputs : List (Input l s))
      → (raws_of (intrinsic_input l s name c ++ inputs) ≡ raws_of inputs)
        × (catalogs_of (intrinsic_input l s name c ++ inputs) ≡ catalogs_of inputs)
  intrinsic_input-append name none inputs = (refl, refl)
  intrinsic_input-append name (some c) inputs = (refl, refl)

  detector_inputs-append :
      (calib : CalibSet l) (name : Name) (e : s.Exposure) (entries rest : List (Input l s))
      (exposures : List (Name × s.Exposure))
      → detector_inputs l s calib name e ≡ ok entries
      → Holds calib exposures rest
      → Holds calib ((name, e) ∷ exposures) (entries ++ rest)
  unfolding detector_inputs
  detector_inputs-append calib name e entries rest exposures h held =
      let (p, _, h₁) = on_ok-eq-ok (find l s (s.ptc_by_name calib.detector) name) _ h in
      let (n, _, h₂) = on_ok-eq-ok (find l s (s.linearizer_by_name calib.detector) name) _ h₁ in
      let (x, _, h₃) = on_ok-eq-ok (find l s (s.crosstalk_by_name calib.detector) name) _ h₂ in
      let (f, _, h₄) = on_ok-eq-ok (find l s (s.flat_by_name calib.filtered) name) _ h₃ in
      let optional =
        intrinsic_input l s name (lookup name (s.intrinsic_zernikes_by_name calib.filtered)) in
      let both =
        intrinsic_input-append name (lookup name (s.intrinsic_zernikes_by_name calib.filtered))
          rest in
      let same : of_detector raws name (exposure_object e)
            ∷ of_detector ptc name (calib_object p)
            ∷ of_detector linearizer name (calib_object n)
            ∷ of_detector crosstalk name (calib_object x)
            ∷ of_detector flat name (calib_object f)
            ∷ optional
          ≡ entries =
        cc in
      subst (λ entries. Holds calib ((name, e) ∷ exposures) (entries ++ rest)) same
        (
          ap (◌∷◌ (name, e)) (both.0 ∙ held.0),
          both.1 ∙ held.1,
          omega (arith, length-append optional rest, held.2),
        )

  all_inputs-Holds :
      (calib : CalibSet l) (exposures : List (Name × s.Exposure)) (inputs : List (Input l s))
      → all_inputs l s calib exposures ≡ ok inputs
      → Holds calib exposures inputs
  unfolding all_inputs
  all_inputs-Holds calib [] inputs h =
      let same : [] ≡ inputs = cc in subst (Holds calib []) same (refl, refl, refl)
  all_inputs-Holds calib ((name, e) ∷ exposures) inputs h =
      let (entries, made, h₁) = on_ok-eq-ok (detector_inputs l s calib name e) _ h in
      let (rest, others, h₂) = on_ok-eq-ok (all_inputs l s calib exposures) _ h₁ in
      let same : entries ++ rest ≡ inputs = cc in
      subst (Holds calib ((name, e) ∷ exposures)) same (
        detector_inputs-append calib name e entries rest exposures made
          (all_inputs-Holds calib exposures rest others))

  shard_inputs-append :
      (shards : List (ℕ × l.Catalog)) (entries : List (Input l s))
      → (raws_of (shard_inputs l s shards ++ entries) ≡ raws_of entries)
        × (catalogs_of (shard_inputs l s shards ++ entries) ≡ shards ++ catalogs_of entries)
        × (length (shard_inputs l s shards ++ entries) ≡ length shards + length entries)
  unfolding shard_inputs
  shard_inputs-append [] entries = (refl, refl, omega arith)
  shard_inputs-append ((i, c) ∷ shards) entries =
      let rest = shard_inputs-append shards entries in
      (rest.0, ap (◌∷◌ (i, c)) rest.1, omega (arith, rest.2))

  intrinsics-insert_name :
      (calibs : List (Name × s.Calib)) (e : Name × s.Exposure) (es : List (Name × s.Exposure))
      → (intrinsics calibs (insert_name e es) ≡ intrinsics calibs (e ∷ es))
        × (length (insert_name e es) ≡ suc (length es))
  unfolding insert_name
  intrinsics-insert_name calibs e [] = (refl, refl)
  intrinsics-insert_name calibs e (f ∷ es) = elim (Bool-cases (name_ltb f.0 e.0)) [
    | inl before ↦
        let rest = intrinsics-insert_name calibs e es in
        rw (before, if◌then◌else◌) (omega (arith, rest.0), omega (arith, rest.1))
    | inr after ↦ rw (after, if◌then◌else◌) (refl, refl)
  ]

  intrinsics-sort_names :
      (calibs : List (Name × s.Calib)) (es : List (Name × s.Exposure))
      → (intrinsics calibs (sort_names es) ≡ intrinsics calibs es)
        × (length (sort_names es) ≡ length es)
  unfolding sort_names
  intrinsics-sort_names calibs [] = (refl, refl)
  intrinsics-sort_names calibs (e ∷ es) =
      let rest = intrinsics-sort_names calibs es in
      let step = intrinsics-insert_name calibs e (sort_names es) in
      (omega (arith, step.0, rest.0), omega (arith, step.1, rest.1))

  -- The inputs of a bundle that is made: its raws are the exposures, sorted by their names, its
  -- catalogs are the store's shards in the store's order, and there are five datasets for each
  -- detector, one more for each with a file for its intrinsic Zernikes, and one for each shard.
  pub bundle_for-reads :
      (default : ℕ) (live : Option l.Task) (store : Store l.Catalog)
      (exposures : List (Name × s.Exposure)) (calib : CalibSet l) (workers : Option ℕ)
      (bundle : Bundle l s)
      → bundle_for l s default live store exposures calib workers ≡ ok bundle
      → (raws_of bundle.inputs ≡ sort_names exposures)
        × (catalogs_of bundle.inputs ≡ store.shards)
        × (length bundle.inputs
            ≡ length store.shards
              + (5 * length exposures
                  + intrinsics (s.intrinsic_zernikes_by_name calib.filtered) exposures))
  unfolding bundle_for
  bundle_for-reads default live store exposures calib workers bundle h =
      let (t, _, h₀) = on_ok-eq-ok (task_or_raise l live) _ h in
      let (u, _, h₁) =
        on_ok-eq-ok (guard (all_calibs l s (s.ptc_by_name calib.detector) exposures) no_calibs) _
          h₀ in
      let (visit, _, h₂) = on_ok-eq-ok (single_visit l s exposures) _ h₁ in
      let (v, _, h₃) =
        on_ok-eq-ok (guard (is_empty (uncovered (s.shards_of exposures) store)) not_covered) _ h₂ in
      let (entries, all, made) =
        on_ok-eq-ok (all_inputs l s calib (sort_names exposures))
          (λ entries. ok (bundle_of l s store (cores_for l s default workers) visit entries)) h₃ in
      let held = all_inputs-Holds calib (sort_names exposures) entries all in
      let parts = shard_inputs-append store.shards entries in
      let sorted = intrinsics-sort_names (s.intrinsic_zernikes_by_name calib.filtered) exposures in
      let same : bundle_of l s store (cores_for l s default workers) visit entries ≡ bundle =
        ok_inj made in
      subst
        (λ b.
          (raws_of b.inputs ≡ sort_names exposures)
          × (catalogs_of b.inputs ≡ store.shards)
          × (length b.inputs
              ≡ length store.shards
                + (5 * length exposures
                    + intrinsics (s.intrinsic_zernikes_by_name calib.filtered) exposures)))
        same
        (
          parts.0 ∙ held.0,
          parts.1 ∙ (ap (λ x. store.shards ++ x) held.1 ∙ append-nil store.shards),
          omega (arith, parts.2, held.2, sorted.0, sorted.1),
        )
