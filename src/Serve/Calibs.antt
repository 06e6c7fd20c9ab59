-- ===== src/Serve/Calibs.antt =====
-- The calibs that `build_quantum_context` of coordinator.py gives the task for each detector.
use donut_server.Prelude.{
  ◌≡◌, refl, ◌⊎◌, inl, inr, Option, none, some, List, [], ◌∷◌, ◌++◌, arith, lookup, subst, All,
  All-map, In, In-append_left, In-append_right,
}
use donut_server.Bytes.{Name, name_eq}
use donut_server.Exec.{ok, on_ok-eq-ok}
use donut_server.Coordinator.{Library, CalibSet}
use donut_server.Serve.{
  Science, Connection, raws, ptc, linearizer, crosstalk, flat, intrinsic_zernikes, exposure_object,
  calib_object, Input, of_detector, find, intrinsic_input, detector_inputs, all_inputs,
}

module _ (l : Library) (s : Science l) where
  -- the dict has a calib for the detector, and it is among the inputs
  abbrev pub HasCalib : Connection → List (Name × s.Calib) → List (Input l s) → Name → Type 0
  HasCalib connection calibs inputs name =
      (c : s.Calib) × (lookup name calibs ≡ some c)
      × In (of_detector connection name (calib_object c)) inputs

  -- The exposure and the calibs of its detector are among the inputs; for the intrinsic Zernikes
  -- only where there is a file of them.
  abbrev pub HasInputs : CalibSet l → List (Input l s) → Name × s.Exposure → Type 0
  HasInputs calib inputs e =
      In (of_detector raws e.0 (exposure_object e.1)) inputs
      × HasCalib ptc (s.ptc_by_name calib.detector) inputs e.0
      × HasCalib linearizer (s.linearizer_by_name calib.detector) inputs e.0
      × HasCalib crosstalk (s.crosstalk_by_name calib.detector) inputs e.0
      × HasCalib flat (s.flat_by_name calib.filtered) inputs e.0
      × ((lookup e.0 (s.intrinsic_zernikes_by_name calib.filtered) ≡ none)
          ⊎ HasCalib intrinsic_zernikes (s.intrinsic_zernikes_by_name calib.filtered) inputs e.0)

  -- inputs that are added take none away
  HasInputs-more :
      (calib : CalibSet l) (inputs more : List (Input l s))
      → ((i : Input l s) → In i inputs → In i more)
      → (e : Name × s.Exposure) → HasInputs calib inputs e
      → HasInputs calib more e
  HasInputs-more calib inputs more wider e h = (
    wider _ h.0,
    (h.1.0, h.1.1, wider _ h.1.2),
    (h.2.0, h.2.1, wider _ h.2.2),
    (h.3.0, h.3.1, wider _ h.3.2),
    (h.4.0, h.4.1, wider _ h.4.2),
    elim h.5 [ inl missing ↦ inl missing | inr found ↦ inr (found.0, found.1, wider _ found.2) ],
  )

  find-ok :
      (calibs : List (Name × s.Calib)) (name : Name) (c : s.Calib)
      → find l s calibs name ≡ ok c
      → lookup name calibs ≡ some c
  unfolding find
  find-ok calibs name c h = ground arith

  intrinsic_input-HasCalib :
      (calibs : List (Name × s.Calib)) (name : Name) (found : Option s.Calib)
      → lookup name calibs ≡ found
      → (lookup name calibs ≡ none)
        ⊎ HasCalib intrinsic_zernikes calibs (intrinsic_input l s name found) name
  intrinsic_input-HasCalib calibs name none h = inl h
  intrinsic_input-HasCalib calibs name (some c) h = inr (c, h, inl refl)

  detector_inputs-HasInputs :
      (calib : CalibSet l) (name : Name) (e : s.Exposure) (entries : List (Input l s))
      → detector_inputs l s calib name e ≡ ok entries
      → HasInputs calib entries (name, e)
  unfolding detector_inputs
  detector_inputs-HasInputs calib name e entries h =
      let (p, hp, h₁) = on_ok-eq-ok (find l s (s.ptc_by_name calib.detector) name) _ h in
      let (n, hn, h₂) = on_ok-eq-ok (find l s (s.linearizer_by_name calib.detector) name) _ h₁ in
      let (x, hx, h₃) = on_ok-eq-ok (find l s (s.crosstalk_by_name calib.detector) name) _ h₂ in
      let (f, hf, h₄) = on_ok-eq-ok (find l s (s.flat_by_name calib.filtered) name) _ h₃ in
      let optional =
        intrinsic_input l s name (lookup name (s.intrinsic_zernikes_by_name calib.filtered)) in
      let same : of_detector raws name (exposure_object e)
            ∷ of_detector ptc name (calib_object p)
            ∷ of_detector linearizer name (calib_object n)
            ∷ of_detector crosstalk name (calib_object x)
            ∷ of_detector flat name (calib_object f)
            ∷ optional
          ≡ entries =
        cc in
      subst (λ entries. HasInputs calib entries (name, e)) same
        (
          inl refl,
          (p, find-ok (s.ptc_by_name calib.detector) name p hp, inr (inl refl)),
          (n, find-ok (s.linearizer_by_name calib.detector) name n hn, inr (inr (inl refl))),
          (x, find-ok (s.crosstalk_by_name calib.detector) name x hx, inr (inr (inr (inl refl)))),
          (f, find-ok (s.flat_by_name calib.filtered) name f hf, inr (inr (inr (inr (inl refl))))),
          elim (intrinsic_input-HasCalib (s.intrinsic_zernikes_by_name calib.filtered) name _
              refl) [
                | inl missing ↦ inl missing
                | inr found ↦ inr (found.0, found.1, inr (inr (inr (inr (inr found.2)))))
              ],
        )

  pub all_inputs-HasInputs :
      (calib : CalibSet l) (exposures : List (Name × s.Exposure)) (inputs : List (Input l s))
      → all_inputs l s calib exposures ≡ ok inputs
      → All (HasInputs calib inputs) exposures
  unfolding all_inputs
  all_inputs-HasInputs calib [] inputs h = tt
  all_inputs-HasInputs calib ((name, e) ∷ exposures) inputs h =
      let (entries, made, h₁) = on_ok-eq-ok (detector_inputs l s calib name e) _ h in
      let (rest, others, h₂) = on_ok-eq-ok (all_inputs l s calib exposures) _ h₁ in
      let same : entries ++ rest ≡ inputs = cc in
      subst (λ inputs. All (HasInputs calib inputs) ((name, e) ∷ exposures)) same
        (
          HasInputs-more calib entries (entries ++ rest) (λ i. In-append_left i entries rest)
              (name, e) (detector_inputs-HasInputs calib name e entries made),
          All-map (HasInputs calib rest) (HasInputs calib (entries ++ rest)) exposures
              (HasInputs-more calib rest (entries ++ rest) (λ i. In-append_right i entries rest))
              (all_inputs-HasInputs calib exposures rest others),
        )

  pub All-HasInputs-append :
      (calib : CalibSet l) (before inputs : List (Input l s)) (exposures : List (Name × s.Exposure))
      → All (HasInputs calib inputs) exposures
      → All (HasInputs calib (before ++ inputs)) exposures
  All-HasInputs-append calib before inputs exposures h =
      All-map (HasInputs calib inputs) (HasInputs calib (before ++ inputs)) exposures
        (HasInputs-more calib inputs (before ++ inputs) (λ i. In-append_right i before inputs)) h
