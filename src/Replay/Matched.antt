-- ===== src/Replay/Matched.antt =====
-- The headers of a resolved source: the files' own, or those of the exposure that they replay.
use donut_server.Prelude.{
  ℕ, ◌≡◌, ◌<◌, refl, sym, ap, subst, ◌∙◌, inl, inr, ◌⊎◌, Bool, Option, none, some, List, [], ◌∷◌,
  arith, All, All-map, All-put, lookup-All, In, length, lookup, put, Option-cases, eqb, eqb_iff,
}
use donut_server.Bytes.{Name, name_eq}
use donut_server.Exec.{ok, pure, ok_inj, bind-eq-ok, lift-bind-eq-ok}
use donut_server.Exec.Raise.{check, >>=-eq-ok, check-eq-ok, require-eq-ok}
use donut_server.Daq.{
  Stack, RawSource, RawHandle, detector_name, header_for, sw_paths, expected_sensors, no_directory,
  wrong_count, no_substitute,
}
use donut_server.Daq.Resolved.{IsSensor, IsResolved, resolve_exposure_dir-IsResolved, All-In_self}
use donut_server.Replay.{read_emuimage, read_headers, read_live_headers, replay_headers}
use donut_server.Replay.Marker.{HasMarker, read_emuimage_iff}
use donut_server.Replay.Substitute.{
  Env, set_to, Line, say, chosen_exposure, report_headers, substitute, substituted_headers, resolve,
  pinned, names_original,
}

module _ (k : Stack) where
  -- a header under the name that it gives itself, read from one of the files
  pub record IsNamed (P : Name → Type 0) (h : Name × k.Header) : Type 0 where
    pub path : Name
    pub there : P path
    pub read : k.read_header path ≡ ok h.1
    pub named : detector_name k h.1 ≡ ok h.0

  read_headers-IsNamed :
      (P : Name → Type 0) (paths : List Name) (d d' : List (Name × k.Header))
      → All P paths
      → All (IsNamed P) d
      → read_headers k paths d ≡ ok d'
      → All (IsNamed P) d'
  unfolding read_headers
  read_headers-IsNamed P [] d d' here all h = subst (All (IsNamed P)) (ok_inj h) all
  read_headers-IsNamed P (path ∷ paths) d d' here all h =
      let (header, read, h₁) = >>=-eq-ok (k.read_header path) _ h in
      let (name, named, h₂) = >>=-eq-ok (detector_name k header) _ h₁ in
      let new : IsNamed P (name, header) = record {
        path = path;
        there = here.0;
        read = read;
        named = named;
      } in
      elim (Option-cases (lookup name d)) [
        | inr twice_there ↦ let (v, at) = twice_there in absurd (ground (arith, at, h₂))
        | inl absent ↦
            read_headers-IsNamed P paths (put name header d) d' here.1
              (All-put (IsNamed P) name header d all new) (rw absent at h₂)
      ]

  -- the parts of a successful `replay_headers`
  replay_headers-IsNamed :
      (replay_dir exposure : Name) (headers : List (Name × k.Header))
      → replay_headers k replay_dir exposure ≡ ok headers
      → (paths : List Name) × (sw_paths k (k.join replay_dir exposure) ≡ ok paths)
        × All (IsNamed (λ path. In path paths)) headers
        × (length headers ≡ expected_sensors)
  unfolding replay_headers
  replay_headers-IsNamed replay_dir exposure headers h =
      let directory = k.join replay_dir exposure in
      let (is_dir, h₁) = check-eq-ok (k.is_dir directory) (no_directory directory) _ h in
      let (paths, listing, h₂) = >>=-eq-ok (sw_paths k directory) _ h₁ in
      let (found, read, h₃) = >>=-eq-ok (read_headers k paths []) _ h₂ in
      let (count, same) =
        check-eq-ok (eqb (length found) expected_sensors) (wrong_count (length found)) _ h₃ in
      let all =
        read_headers-IsNamed (λ path. In path paths) paths [] found (All-In_self paths) tt read in
      (
        paths,
        listing,
        subst (All (IsNamed (λ path. In path paths))) (ok_inj same) all,
        ap length (sym (ok_inj same)) ∙ (eqb_iff (length found) expected_sensors).0 count,
      )

  -- The exposure that was chosen: the pinned one, or the one that all live headers have as marker.
  abbrev pub IsChosen : Env → List (Name × k.Header) → Name → Type 0
  IsChosen env live exposure =
      (set_to env.replay_obsid ≡ some exposure)
      ⊎ ((set_to env.replay_obsid ≡ none) × (0 < length exposure) × All (HasMarker k exposure) live)

  chosen_exposure-IsChosen :
      (report : Bool) (pin : Option Name) (live : List (Name × k.Header))
      (out out' : List (Line k.Value)) (exposure : Name)
      → chosen_exposure k report pin live out ≡ (ok exposure, out')
      → (pin ≡ some exposure)
        ⊎ ((pin ≡ none) × (0 < length exposure) × All (HasMarker k exposure) live)
  unfolding chosen_exposure pure
  chosen_exposure-IsChosen report (some name) live out out' exposure h =
      let (_, t, said, done) =
        bind-eq-ok (say k report (pinned name ∷ [])) (λ _. pure name) out out' h in
      inl (ap some (ok_inj (ap (λ r. r.0) done)))
  chosen_exposure-IsChosen report none live out out' exposure h =
      let (name, read, h₁) = lift-bind-eq-ok (read_emuimage k live) _ out out' h in
      let (_, t, said, done) =
        bind-eq-ok (say k report (names_original name ∷ [])) (λ _. pure name) out out' h₁ in
      let same : name ≡ exposure = ok_inj (ap (λ r. r.0) done) in
      let found = (read_emuimage_iff k live exposure).0 (read ∙ ap ok same) in
      inr (refl, found.1, found.2)

  -- The header of one sensor where the exposure is a replay of `original`: the one that a file of
  -- the original's directory gives for the detector that the sensor's own file names.
  pub record IsReplayed (original : Name) (e : ℕ × RawHandle k) : Type 0 where
    pub live : k.Header
    pub name : Name
    pub paths : List Name
    pub path : Name
    pub read : k.read_header e.1.path ≡ ok live
    pub named : detector_name k live ≡ ok name
    pub listed : (sw_paths k original ≡ ok paths) × In path paths
    pub loaded : k.read_header path ≡ ok e.1.header
    pub matched : detector_name k e.1.header ≡ ok name

  -- where every header comes from, as DONUT_SERVER_REPLAY_DIR is set
  abbrev pub AreFrom : Env → Option Name → Name → List (ℕ × RawHandle k) → Type 0
  AreFrom env none directory handles = All (λ e. k.read_header e.1.path ≡ ok e.1.header) handles
  AreFrom env (some replay_dir) directory handles =
      (exposure : Name) × (paths : List Name) × (live : List (Name × k.Header)) × (sw_paths k
          directory
        ≡ ok paths)
      × (read_live_headers k paths ≡ ok live)
      × IsChosen env live exposure
      × All (IsReplayed (k.join replay_dir exposure)) handles

  module _ (directory : Name) (source : RawSource k.Degrees (RawHandle k)) where
    own_header :
        (e : ℕ × RawHandle k)
        → IsSensor k none directory source e
        → k.read_header e.1.path ≡ ok e.1.header
    unfolding header_for
    own_header e r = r.read ∙ r.chosen

    IsSensor-IsReplayed :
        (headers : List (Name × k.Header)) (original : Name) (paths : List Name)
        → sw_paths k original ≡ ok paths
        → All (IsNamed (λ path. In path paths)) headers
        → (e : ℕ × RawHandle k) → IsSensor k (some headers) directory source e
        → IsReplayed original e
    unfolding header_for
    IsSensor-IsReplayed headers original paths listing all e r =
        let at = require-eq-ok (lookup r.name headers) (no_substitute r.name) r.chosen in
        let found = lookup-All (IsNamed (λ path. In path paths)) r.name e.1.header headers all at in
        record {
          live = r.live;
          name = r.name;
          paths = paths;
          path = found.path;
          read = r.read;
          named = r.named;
          listed = (listing, found.there);
          loaded = found.read;
          matched = found.named;
        }

    -- the parts of a substitution that returned
    substitute-eq-ok :
        (env : Env) (replay_dir : Name) (report : Bool) (out out' : List (Line k.Value))
        (headers : List (Name × k.Header))
        → substitute k env replay_dir directory report out ≡ (ok headers, out')
        → (paths : List Name) × (live : List (Name × k.Header)) × (exposure : Name) × (sw_paths k
              directory
            ≡ ok paths)
          × (read_live_headers k paths ≡ ok live)
          × IsChosen env live exposure
          × (replay_headers k replay_dir exposure ≡ ok headers)
    unfolding substitute pure
    substitute-eq-ok env replay_dir report out out' headers h =
        let (_, is_dir, h₁) =
          lift-bind-eq-ok (check (k.is_dir replay_dir) (no_directory replay_dir)) _ out out' h in
        let (paths, listing, h₂) = lift-bind-eq-ok (sw_paths k directory) _ out out' h₁ in
        let (live, read, h₃) = lift-bind-eq-ok (read_live_headers k paths) _ out out' h₂ in
        let (exposure, t, chosen, h₄) =
          bind-eq-ok (chosen_exposure k report (set_to env.replay_obsid) live) _ out out' h₃ in
        let (found, loaded, h₅) =
          lift-bind-eq-ok (replay_headers k replay_dir exposure) _ t out' h₄ in
        let (_, u, reported, done) =
          bind-eq-ok (report_headers k report live found) (λ _. pure found) t out' h₅ in
        (
          paths,
          live,
          exposure,
          listing,
          read,
          chosen_exposure-IsChosen report (set_to env.replay_obsid) live out t exposure chosen,
          loaded ∙ ap ok (ok_inj (ap (λ r. r.0) done)),
        )

  module _ (env : Env) (directory : Name) (report : Bool) (out t : List (Line k.Value))
      (source : RawSource k.Degrees (RawHandle k)) where
    substituted_headers-AreFrom :
        (headers : Option (List (Name × k.Header)))
        → substituted_headers k env directory report out ≡ (ok headers, t)
        → IsResolved k headers directory source
        → AreFrom env (set_to env.replay_dir) directory source.handles
    unfolding substituted_headers pure
    substituted_headers-AreFrom headers h resolved = elim (Option-cases (set_to env.replay_dir)) [
      | inl unset ↦
          let none_used : none ≡ headers =
            ok_inj (ap (λ r. r.0) (rw (unset, substituted_headers) at h)) in
          subst (λ d. AreFrom env d directory source.handles) (sym unset)
            (All-map _ _ source.handles (own_header directory source)
              (subst (λ hs. IsResolved k hs directory source) (sym none_used) resolved).sensors)
      | inr used ↦
          let (replay_dir, e) = used in
          let (found, u, substituted, done) =
            bind-eq-ok (substitute k env replay_dir directory report) (λ hs. pure (some hs)) out t
              (rw (e, substituted_headers) at h) in
          let same : some found ≡ headers = ok_inj (ap (λ r. r.0) done) in
          let (paths, live, exposure, listing, read, chosen, loaded) =
            substitute-eq-ok directory source env replay_dir report out u found substituted in
          let (originals, original_listing, named, _) =
            replay_headers-IsNamed replay_dir exposure found loaded in
          let sensors =
            (subst (λ hs. IsResolved k hs directory source) (sym same) resolved).sensors in
          subst (λ d. AreFrom env d directory source.handles) (sym e)
            (
              exposure,
              paths,
              live,
              listing,
              read,
              chosen,
              All-map _ _ source.handles
                  (IsSensor-IsReplayed directory source found (k.join replay_dir exposure) originals
                    original_listing named)
                  sensors,
            )
    ]

  -- Where a directory resolves, each header of the source is its own file's if no replay directory is
  -- set; otherwise there is an exposure, pinned or the marker of all the live headers, and each
  -- header is the one that a file of that exposure's directory gives for the detector that the
  -- sensor's own file names. The source has eight sensors, as without a replay.
  pub resolve-AreFrom :
      (env : Env) (directory : Name) (report : Bool) (out out' : List (Line k.Value))
      (source : RawSource k.Degrees (RawHandle k)) (imgtype : Name)
      → resolve k env directory report out ≡ (ok (source, imgtype), out')
      → AreFrom env (set_to env.replay_dir) directory source.handles
        × ((headers : Option (List (Name × k.Header))) × IsResolved k headers directory source)
  unfolding resolve substituted_headers
  resolve-AreFrom env directory report out out' source imgtype h =
      let (headers, t, substituted, h₁) =
        bind-eq-ok (substituted_headers k env directory report) _ out out' h in
      let resolved =
        resolve_exposure_dir-IsResolved k headers directory source imgtype (ap (λ r. r.0) h₁) in
      (
        substituted_headers-AreFrom env directory report out t source headers substituted resolved,
        (headers, resolved),
      )
