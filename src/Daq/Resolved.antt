-- ===== src/Daq/Resolved.antt =====
-- What `resolve_exposure_dir` of daq.py checks of a directory before it gives a source.
use donut_server.Prelude.{
  ℕ, ◌≡◌, refl, ap, subst, sym, ◌∙◌, true, Option, List, [], ◌∷◌, arith, inl, inr, All, All-map,
  All-put, In, In-append_left, In-append_right, Distinct, keys, Distinct-put, length, Bool-cases,
  Eq, ◌==◌, nat_eq, eqb, eqb_iff, if◌then◌else◌,
}
use donut_server.Bytes.{Name, name_eq}
use donut_server.Exec.{ok, ok_inj}
use donut_server.Exec.Raise.{require, >>=-eq-ok, check-eq-ok}
use donut_server.Daq.{
  Stack, RawSource, RawHandle, Tally, no_tally, add, member, detector_name, header_for, read_sensor,
  read_sensors, source_of, sw_paths, resolve_exposure_dir, the_only, sorted, check_known_filter,
  known_filters, expected_sensors, Error, many_filters, many_exposures, wrong_count, unknown_filter,
  no_pointing,
}

module _ {A : Type 0} ⦃e : Eq A⦄ where
  member_iff : (a : A) (xs : List A) → member a xs ≡ true → In a xs
  unfolding member
  member_iff a [] h = absurd (ground arith)
  member_iff a (x ∷ xs) h = elim (Bool-cases (x == a)) [
    | inl same ↦ inl ((e.equal_iff x a).0 same)
    | inr other ↦ inr (member_iff a xs (rw (other, if◌then◌else◌) at h))
  ]

  In-add : (a : A) (xs : List A) → In a (add a xs)
  unfolding add
  In-add a xs = elim (Bool-cases (member a xs)) [
    | inl there ↦ rw (there, if◌then◌else◌) (member_iff a xs there)
    | inr absent ↦ rw (absent, if◌then◌else◌) (In-append_right a xs (a ∷ []) (inl refl))
  ]

  In-add_old : (a b : A) (xs : List A) → In b xs → In b (add a xs)
  unfolding add
  In-add_old a b xs h = elim (Bool-cases (member a xs)) [
    | inl there ↦ rw (there, if◌then◌else◌) h
    | inr absent ↦ rw (absent, if◌then◌else◌) (In-append_left b xs (a ∷ []) h)
  ]

pub the_only-eq-ok :
    {A : Type 0} (xs : List A) (why : Error) {a : A} → the_only xs why ≡ ok a → xs ≡ a ∷ []
the_only-eq-ok [] why h = absurd (ground arith)
the_only-eq-ok (a ∷ []) why h = ground arith
the_only-eq-ok (a ∷ b ∷ rest) why h = absurd (ground arith)

pub In-single : {A : Type 0} (a b : A) → In a (b ∷ []) → a ≡ b
In-single a b (inl same) = sym same
In-single a b (inr none_left) = absurd none_left

pub All-In_self : {A : Type 0} (xs : List A) → All (λ a. In a xs) xs
All-In_self [] = tt
All-In_self (x ∷ xs) = (inl refl, All-map _ _ xs (λ a at. inr at) (All-In_self xs))

-- what holds of one file's sensor, where `P` says which files there are
module _ (k : Stack) (headers : Option (List (Name × k.Header))) where
  pub record IsRead (P : Name → Type 0) (filters : List Name) (ids : List ℕ) (e : ℕ × RawHandle k)
      : Type 0 where
    pub live : k.Header
    pub name : Name
    pub live_info : k.Info
    pub info : k.Info
    pub there : P e.1.path
    pub read : k.read_header e.1.path ≡ ok live
    pub named : detector_name k live ≡ ok name
    pub known : k.obs_info live ≡ ok live_info
    pub numbered : (k.detector_num live_info ≡ e.0) × (e.1.detector_num ≡ e.0)
    pub chosen : header_for k headers name live ≡ ok e.1.header
    pub described : k.obs_info e.1.header ≡ ok info
    pub filtered : In (k.physical_filter info) filters
    pub exposed : In (k.exposure_id info) ids

  IsRead-later :
      (P : Name → Type 0) (filters : List Name) (ids : List ℕ) (f : Name) (i : ℕ)
      (e : ℕ × RawHandle k)
      → IsRead P filters ids e
      → IsRead P (add f filters) (add i ids) e
  IsRead-later P filters ids f i e r = record {
    live = r.live;
    name = r.name;
    live_info = r.live_info;
    info = r.info;
    there = r.there;
    read = r.read;
    named = r.named;
    known = r.known;
    numbered = r.numbered;
    chosen = r.chosen;
    described = r.described;
    filtered = In-add_old f (k.physical_filter r.info) filters r.filtered;
    exposed = In-add_old i (k.exposure_id r.info) ids r.exposed;
  }

  abbrev AllRead : (Name → Type 0) → Tally k → Type 0
  AllRead P t = All (IsRead P t.filters t.exposure_ids) t.handles × Distinct (keys t.handles)

  read_sensor-AllRead :
      (P : Name → Type 0) (path : Name) (t t' : Tally k)
      → P path
      → read_sensor k headers path t ≡ ok t'
      → AllRead P t
      → AllRead P t'
  unfolding read_sensor
  read_sensor-AllRead P path t t' here h all =
      let (live, read, h₁) = >>=-eq-ok (k.read_header path) _ h in
      let (name, named, h₂) = >>=-eq-ok (detector_name k live) _ h₁ in
      let (live_info, known, h₃) = >>=-eq-ok (k.obs_info live) _ h₂ in
      let (header, chosen, h₄) = >>=-eq-ok (header_for k headers name live) _ h₃ in
      let (info, described, h₅) = >>=-eq-ok (k.obs_info header) _ h₄ in
      let (pointing, _, h₆) = >>=-eq-ok (require (k.tracking_radec info) (no_pointing path)) _ h₅ in
      let (middle, _, done) = >>=-eq-ok (k.midpoint info) _ h₆ in
      let e : ℕ × RawHandle k = (
        k.detector_num live_info,
        record { path = path; header = header; detector_num = k.detector_num live_info },
      ) in
      let f : Name = k.physical_filter info in
      let i : ℕ = k.exposure_id info in
      let new : IsRead P (add f t.filters) (add i t.exposure_ids) e = record {
        live = live;
        name = name;
        live_info = live_info;
        info = info;
        there = here;
        read = read;
        named = named;
        known = known;
        numbered = (refl, refl);
        chosen = chosen;
        described = described;
        filtered = In-add f t.filters;
        exposed = In-add i t.exposure_ids;
      } in
      subst (AllRead P) (ok_inj done) (
        All-put (IsRead P (add f t.filters) (add i t.exposure_ids)) e.0 e.1 t.handles
            (All-map _ _ t.handles (IsRead-later P t.filters t.exposure_ids f i) all.0) new,
        Distinct-put e.0 e.1 t.handles all.1,
      )

  read_sensors-AllRead :
      (P : Name → Type 0) (paths : List Name) (t t' : Tally k)
      → All P paths
      → read_sensors k headers paths t ≡ ok t'
      → AllRead P t
      → AllRead P t'
  unfolding read_sensors
  read_sensors-AllRead P [] t t' here h all = subst (AllRead P) (ok_inj h) all
  read_sensors-AllRead P (path ∷ paths) t t' here h all =
      let (next, first, rest) = >>=-eq-ok (read_sensor k headers path t) _ h in
      read_sensors-AllRead P paths next t' here.1 rest
        (read_sensor-AllRead P path t next here.0 first all)

  -- One sensor of a source: its file is one that the directory has, the file's own header says which
  -- detector it is, and its header is the one to use for that detector's name. The filter and the
  -- exposure that this header gives are the source's.
  pub record IsSensor (directory : Name) (source : RawSource k.Degrees (RawHandle k))
      (e : ℕ × RawHandle k) : Type 0 where
    pub paths : List Name
    pub listed : (sw_paths k directory ≡ ok paths) × In e.1.path paths
    pub live : k.Header
    pub name : Name
    pub live_info : k.Info
    pub info : k.Info
    pub read : k.read_header e.1.path ≡ ok live
    pub named : detector_name k live ≡ ok name
    pub known : k.obs_info live ≡ ok live_info
    pub numbered : (k.detector_num live_info ≡ e.0) × (e.1.detector_num ≡ e.0)
    pub chosen : header_for k headers name live ≡ ok e.1.header
    pub described : k.obs_info e.1.header ≡ ok info
    pub filtered : k.physical_filter info ≡ source.physical_filter
    pub exposed : k.exposure_id info ≡ source.visit

  pub record IsResolved (directory : Name) (source : RawSource k.Degrees (RawHandle k))
      : Type 0 where
    pub counted : length source.handles ≡ expected_sensors
    pub distinct : Distinct (keys source.handles)
    pub known : In source.physical_filter known_filters
    pub sensors : All (IsSensor directory source) source.handles

  IsRead-IsSensor :
      (directory : Name) (source : RawSource k.Degrees (RawHandle k)) (paths : List Name)
      → sw_paths k directory ≡ ok paths
      → (e : ℕ × RawHandle k)
      → IsRead (λ path. In path paths) (source.physical_filter ∷ []) (source.visit ∷ []) e
      → IsSensor directory source e
  IsRead-IsSensor directory source paths listing e r = record {
    paths = paths;
    listed = (listing, r.there);
    live = r.live;
    name = r.name;
    live_info = r.live_info;
    info = r.info;
    read = r.read;
    named = r.named;
    known = r.known;
    numbered = r.numbered;
    chosen = r.chosen;
    described = r.described;
    filtered = In-single (k.physical_filter r.info) source.physical_filter r.filtered;
    exposed = In-single (k.exposure_id r.info) source.visit r.exposed;
  }

  -- the checks of a source that was made
  source_of-eq-ok :
      (t : Tally k) (source : RawSource k.Degrees (RawHandle k)) (imgtype : Name)
      → source_of k t ≡ ok (source, imgtype)
      → (t.filters ≡ source.physical_filter ∷ [])
        × (t.exposure_ids ≡ source.visit ∷ [])
        × (length t.handles ≡ expected_sensors)
        × In source.physical_filter known_filters
        × (t.handles ≡ source.handles)
  unfolding source_of check_known_filter
  source_of-eq-ok t source imgtype h =
      let (f, one_filter, h₁) =
        >>=-eq-ok (the_only t.filters (many_filters (sorted t.filters))) _ h in
      let (visit, one_visit, h₂) =
        >>=-eq-ok (the_only t.exposure_ids (many_exposures t.exposure_ids)) _ h₁ in
      let (count, h₃) =
        check-eq-ok (eqb (length t.handles) expected_sensors) (wrong_count (length t.handles)) _
          h₂ in
      let (f', is_known, done) = >>=-eq-ok (check_known_filter f) _ h₃ in
      let (among, same) = check-eq-ok (member f known_filters) (unknown_filter f) _ is_known in
      let made = ok_inj done in
      let same_filter : f ≡ source.physical_filter =
        ok_inj same ∙ ap (λ r. r.0.physical_filter) made in
      (
        the_only-eq-ok t.filters _ one_filter ∙ ap (λ n. n ∷ []) same_filter,
        the_only-eq-ok t.exposure_ids _ one_visit ∙ ap (λ r. r.0.visit ∷ []) made,
        (eqb_iff (length t.handles) expected_sensors).0 count,
        subst (λ n. In n known_filters) same_filter (member_iff f known_filters among),
        ap (λ r. r.0.handles) made,
      )

  -- Where a directory resolves, its source has eight sensors with different numbers, of one exposure
  -- and one filter that is known, and each of them is that of a file of the directory, under the
  -- number that the file's own header gives and with the header for the detector that it names.
  pub resolve_exposure_dir-IsResolved :
      (directory : Name) (source : RawSource k.Degrees (RawHandle k)) (imgtype : Name)
      → resolve_exposure_dir k directory headers ≡ ok (source, imgtype)
      → IsResolved directory source
  unfolding resolve_exposure_dir
  resolve_exposure_dir-IsResolved directory source imgtype h =
      let (paths, listing, h₁) = >>=-eq-ok (sw_paths k directory) _ h in
      let (t, read, h₂) = >>=-eq-ok (read_sensors k headers paths (no_tally k)) _ h₁ in
      let (filters, ids, count, among, same) = source_of-eq-ok t source imgtype h₂ in
      let (all, distinct) =
        read_sensors-AllRead (λ path. In path paths) paths (no_tally k) t (All-In_self paths) read
          (tt, tt) in
      let sensors : All
          (IsRead (λ path. In path paths) (source.physical_filter ∷ []) (source.visit ∷ []))
          source.handles =
        subst (λ fs. All (IsRead (λ path. In path paths) fs (source.visit ∷ [])) source.handles)
          filters
          (subst (λ is. All (IsRead (λ path. In path paths) t.filters is) source.handles) ids
            (subst (λ hs. All (IsRead (λ path. In path paths) t.filters t.exposure_ids) hs) same
              all)) in
      record {
        counted = ap length (sym same) ∙ count;
        distinct = subst (λ hs. Distinct (keys hs)) same distinct;
        known = among;
        sensors =
            All-map _ _ source.handles (IsRead-IsSensor directory source paths listing) sensors;
      }
