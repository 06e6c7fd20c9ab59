-- ===== src/Replay/Marker.antt =====
-- Which exposure `read_emuimage` of replay.py finds, against all headers at once.
use donut_server.Prelude.{
  ℕ, suc, ◌+◌, ◌<◌, ◌≡◌, refl, ap, subst, sym, ◌∙◌, ◌↔◌, ◌⊎◌, inl, inr, List, [], ◌∷◌, ◌++◌, arith,
  All, length, put, Bool-cases, if◌then◌else◌, In, keys, ◌==◌, ==_refl, All-map,
}
use donut_server.Bytes.{Name, name_eq, name_ltb, insert_name, sort_names}
use donut_server.Exec.{ok}
use donut_server.Daq.{Stack}
use donut_server.Daq.Resolved.{the_only-eq-ok, In-single}
use donut_server.Replay.{
  marker_of, names_under, note_marker, gather_markers, only_marker, read_emuimage,
}

module _ {A : Type 0} (P : Name × A → Type 0) where
  All-insert_name_iff :
      (e : Name × A) (es : List (Name × A)) → All P (insert_name e es) ↔ (P e × All P es)
  unfolding insert_name
  All-insert_name_iff e [] = ((λ h. (h.0, tt)), (λ h. (h.0, tt)))
  All-insert_name_iff e (f ∷ es) = elim (Bool-cases (name_ltb f.0 e.0)) [
    | inl before ↦
        rw (before, if◌then◌else◌)
          (
            (λ h. let (p, rest) = (All-insert_name_iff e es).0 h.1 in (p, (h.0, rest))),
            (λ h. (h.1.0, (All-insert_name_iff e es).1 (h.0, h.1.1))),
          )
    | inr after ↦ rw (after, if◌then◌else◌) ((λ h. h), (λ h. h))
  ]

  -- sorting keeps what holds of all, both ways
  All-sort_names_iff : (es : List (Name × A)) → All P (sort_names es) ↔ All P es
  unfolding sort_names
  All-sort_names_iff [] = ((λ h. h), (λ h. h))
  All-sort_names_iff (e ∷ es) = (
    (λ h.
        let (p, rest) = (All-insert_name_iff e (sort_names es)).0 h in
        (p, (All-sort_names_iff es).0 rest)),
    (λ h. (All-insert_name_iff e (sort_names es)).1 (h.0, (All-sort_names_iff es).1 h.1)),
  )

module _ {A : Type 0} where
  length-insert_name :
      (e : Name × A) (es : List (Name × A)) → length (insert_name e es) ≡ suc (length es)
  unfolding insert_name
  length-insert_name e [] = refl
  length-insert_name e (f ∷ es) = ground (arith, length-insert_name e es)

  length-sort_names : (es : List (Name × A)) → length (sort_names es) ≡ length es
  unfolding sort_names
  length-sort_names [] = refl
  length-sort_names (e ∷ es) = length-insert_name e (sort_names es) ∙ ap suc (length-sort_names es)

module _ {V : Type 0} where
  In-keys-put_self : (n : Name) (v : V) (d : List (Name × V)) → In n (keys (put n v d))
  unfolding put
  In-keys-put_self n v [] = inl refl
  In-keys-put_self n v ((i, w) ∷ d) = elim (Bool-cases (i == n)) [
    | inl same ↦ rw (same, if◌then◌else◌) (inl ((name_eq.equal_iff i n).0 same))
    | inr other ↦ rw (other, if◌then◌else◌) (inr (In-keys-put_self n v d))
  ]

  In-keys-put_old :
      (n m : Name) (v : V) (d : List (Name × V)) → In m (keys d) → In m (keys (put n v d))
  unfolding put
  In-keys-put_old n m v [] h = absurd h
  In-keys-put_old n m v ((i, w) ∷ d) h = elim (Bool-cases (i == n)) [
    | inl same ↦ rw (same, if◌then◌else◌) h
    | inr other ↦
        rw (other, if◌then◌else◌)
          (elim h [ inl first ↦ inl first | inr later ↦ inr (In-keys-put_old n m v d later) ])
  ]

module _ (k : Stack) where
  abbrev pub HasMarker : Name → Name × k.Header → Type 0
  HasMarker e h = marker_of k h.1 ≡ e

  IsMarked : List Name → Name × k.Header → Type 0
  IsMarked names h = (0 < length (marker_of k h.1)) × In (marker_of k h.1) names

  append-ne-nil : {A : Type 0} (xs : List A) (a : A) → ¬ (xs ++ a ∷ [] ≡ [])
  append-ne-nil [] a h = absurd (ground arith)
  append-ne-nil (x ∷ xs) a h = absurd (ground arith)

  note_marker-kept :
      (marker name : Name) (missing : List Name) (values : List (Name × List Name))
      → (note_marker marker name missing values).0 ≡ []
      → (missing ≡ [])
        × (0 < length marker)
        × In marker (keys (note_marker marker name missing values).1)
        × ((n : Name) → In n (keys values) → In n (keys (note_marker marker name missing values).1))
  unfolding note_marker
  note_marker-kept [] name missing values h = absurd (append-ne-nil missing name h)
  note_marker-kept (c ∷ rest) name missing values h = (
    h,
    omega arith,
    In-keys-put_self (c ∷ rest) (names_under (c ∷ rest) values ++ name ∷ []) values,
    λ n at. In-keys-put_old (c ∷ rest) n (names_under (c ∷ rest) values ++ name ∷ []) values at,
  )

  -- what the loop leaves without a missing sensor
  gather_markers-IsMarked :
      (headers : List (Name × k.Header)) (missing : List Name) (values : List (Name × List Name))
      → (gather_markers k headers missing values).0 ≡ []
      → (missing ≡ [])
        × All (IsMarked (keys (gather_markers k headers missing values).1)) headers
        × ((n : Name)
            → In n (keys values)
            → In n (keys (gather_markers k headers missing values).1))
  unfolding gather_markers IsMarked
  gather_markers-IsMarked [] missing values h = (h, tt, λ n at. at)
  gather_markers-IsMarked ((name, header) ∷ headers) missing values h =
      let noted = note_marker (marker_of k header) name missing values in
      let (none_missed, marked, later) = gather_markers-IsMarked headers noted.0 noted.1 h in
      let (none_before, filled, here, kept) =
        note_marker-kept (marker_of k header) name missing values none_missed in
      (
        none_before,
        ((filled, later (marker_of k header) here), marked),
        λ n at. later n (kept n at),
      )

  -- the dict of one marker
  abbrev OnlyKey : Name → List (Name × List Name) → Type 0
  OnlyKey e values = (names : List Name) × (values ≡ (e, names) ∷ [])

  note_marker-OnlyKey :
      (c : ℕ) (rest name : Name) (values : List (Name × List Name))
      → (values ≡ []) ⊎ OnlyKey (c ∷ rest) values
      → ((note_marker (c ∷ rest) name [] values).0 ≡ [])
        × OnlyKey (c ∷ rest) (note_marker (c ∷ rest) name [] values).1
  unfolding note_marker put
  note_marker-OnlyKey c rest name values (inl empty) = rw empty (refl, (_, refl))
  note_marker-OnlyKey c rest name values (inr one) =
      let (names, e) = one in
      rw (e, ==_refl ⦃e = name_eq⦄ (c ∷ rest), if◌then◌else◌) (refl, (_, refl))

  gather_markers-OnlyKey :
      (c : ℕ) (rest : Name) (headers : List (Name × k.Header)) (values : List (Name × List Name))
      → All (HasMarker (c ∷ rest)) headers
      → (values ≡ []) ⊎ OnlyKey (c ∷ rest) values
      → (0 < length headers + length values)
      → ((gather_markers k headers [] values).0 ≡ [])
        × OnlyKey (c ∷ rest) (gather_markers k headers [] values).1
  unfolding gather_markers
  gather_markers-OnlyKey c rest [] values all (inl empty) some_there =
      absurd (ground (arith, empty))
  gather_markers-OnlyKey c rest [] values all (inr one) some_there = (refl, one)
  gather_markers-OnlyKey c rest ((name, header) ∷ headers) values all only some_there =
      let (none_missed, one) = note_marker-OnlyKey c rest name values only in
      subst
        (λ (r : List Name × List (Name × List Name)).
          ((gather_markers k headers r.0 r.1).0 ≡ [])
          × OnlyKey (c ∷ rest) (gather_markers k headers r.0 r.1).1)
        (ap (λ m. note_marker m name [] values) (sym all.0))
        (gather_markers-OnlyKey c rest headers (note_marker (c ∷ rest) name [] values).1 all.1
          (inr one) (let (names, e) = one in ground (arith, e)))

  only_marker-eq-ok :
      (missing : List Name) (values : List (Name × List Name)) (e : Name)
      → only_marker missing values ≡ ok e
      → (missing ≡ []) × (keys values ≡ e ∷ [])
  unfolding only_marker
  only_marker-eq-ok (name ∷ missing) values e h = absurd (ground arith)
  only_marker-eq-ok [] values e h = (refl, the_only-eq-ok (keys values) _ h)

  IsMarked-HasMarker :
      (e : Name) (names : List Name) (h : Name × k.Header)
      → names ≡ e ∷ []
      → IsMarked names h
      → HasMarker e h × (0 < length e)
  unfolding IsMarked
  IsMarked-HasMarker e names h one m =
      let same = In-single (marker_of k h.1) e (subst (In (marker_of k h.1)) one m.1) in
      (same, subst (λ n. 0 < length n) same m.0)

  some_filled :
      (e : Name) (headers : List (Name × k.Header))
      → All (λ h. HasMarker e h × (0 < length e)) headers
      → 0 < length headers
      → 0 < length e
  some_filled e [] all some_there = absurd (omega arith)
  some_filled e (h ∷ headers) all some_there = all.0.1

  gather_nil :
      (headers : List (Name × k.Header)) (e : Name)
      → keys (gather_markers k headers [] []).1 ≡ e ∷ []
      → 0 < length headers
  unfolding gather_markers
  gather_nil [] e h = absurd (ground arith)
  gather_nil (h ∷ headers) e eq = omega arith

  read_emuimage_found :
      (headers : List (Name × k.Header)) (e : Name)
      → 0 < length e
      → (0 < length headers) × (0 < length e) × All (HasMarker e) headers
      → read_emuimage k headers ≡ ok e
  unfolding read_emuimage only_marker
  read_emuimage_found headers [] filled h = absurd (omega arith)
  read_emuimage_found headers (c ∷ rest) filled h =
      let sorted = sort_names headers in
      let (none_missed, (names, one)) =
        gather_markers-OnlyKey c rest sorted []
          ((All-sort_names_iff (HasMarker (c ∷ rest)) headers).1 h.2) (inl refl)
          (omega (arith, h.0, length-sort_names headers)) in
      rw (none_missed, one) refl

  -- An exposure is read off the headers exactly when there are headers, and every one of them has it
  -- as its marker, which is not empty.
  pub read_emuimage_iff :
      (headers : List (Name × k.Header)) (e : Name)
      → (read_emuimage k headers ≡ ok e)
        ↔ ((0 < length headers) × (0 < length e) × All (HasMarker e) headers)
  unfolding read_emuimage
  read_emuimage_iff headers e = (
    (λ h.
        let sorted = sort_names headers in
        let noted = gather_markers k sorted [] [] in
        let (none_missed, one) = only_marker-eq-ok noted.0 noted.1 e h in
        let (_, marked, _) = gather_markers-IsMarked sorted [] [] none_missed in
        let there = gather_nil sorted e one in
        let all = All-map _ _ sorted (λ h m. IsMarked-HasMarker e (keys noted.1) h one m) marked in
        (
          omega (arith, there, length-sort_names headers),
          some_filled e sorted all there,
          (All-sort_names_iff (HasMarker e) headers).0 (All-map _ _ sorted (λ h m. m.0) all),
        )),
    (λ h. read_emuimage_found headers e h.1 h),
  )
