-- ===== src/Serve/Counted.antt =====
-- The numbers of `_summarize` of coordinator.py against the table's rows.
use donut_server.Prelude.{
  ℕ, ◌+◌, ◌≤◌, ◌≡◌, refl, Bool, true, false, List, [], ◌∷◌, arith, if◌then◌else◌, length, lookup,
  put, length-put-le, Bool-cases, inl, inr, ◌==◌,
}
use donut_server.Bytes.{Name, name_eq, name_ltb, insert_name, sort_names}
use donut_server.Serve.{Row}
use donut_server.Serve.Summary.{count_or_zero, count_rows, note_groups, count_true, summarize}

-- sum() of a dict's values
abbrev pub total : List (Name × ℕ) → ℕ
total [] = 0
total ((name, n) ∷ counts) = n + total counts

total-put :
    (name : Name) (d : List (Name × ℕ))
    → total (put name (count_or_zero (lookup name d) + 1) d) ≡ total d + 1
unfolding put lookup
total-put name [] = refl
total-put name ((other, n) ∷ d) = elim (Bool-cases (other == name)) [
  | inl same ↦ ground (arith, same)
  | inr differ ↦ ground (arith, differ, total-put name d)
]

total-count_rows :
    (rows : List Row) (d : List (Name × ℕ))
    → (total (count_rows rows d) ≡ total d + length rows)
      × (length (count_rows rows d) ≤ length d + length rows)
unfolding count_rows
total-count_rows [] d = (omega arith, omega arith)
total-count_rows (row ∷ rows) d =
    let next = put row.det_name (count_or_zero (lookup row.det_name d) + 1) d in
    let rest = total-count_rows rows next in
    let grown = length-put-le row.det_name (count_or_zero (lookup row.det_name d) + 1) d in
    (omega (arith, rest.0, total-put row.det_name d), omega (arith, rest.1, grown))

total-insert_name : (e : Name × ℕ) (d : List (Name × ℕ)) → total (insert_name e d) ≡ e.1 + total d
unfolding insert_name
total-insert_name e [] = refl
total-insert_name e (f ∷ d) = elim (Bool-cases (name_ltb f.0 e.0)) [
  | inl before ↦ rw (before, if◌then◌else◌) (omega (arith, total-insert_name e d))
  | inr after ↦ rw (after, if◌then◌else◌) refl
]

total-sort_names : (d : List (Name × ℕ)) → total (sort_names d) ≡ total d
unfolding sort_names
total-sort_names [] = refl
total-sort_names (e ∷ d) = omega (arith, total-insert_name e (sort_names d), total-sort_names d)

length-note_groups-le :
    (rows : List Row) (groups : List (Name × Bool))
    → length (note_groups rows groups) ≤ length groups + length rows
unfolding note_groups
length-note_groups-le [] groups = omega arith
length-note_groups-le (row ∷ rows) groups = ground (
  arith,
  length-note_groups-le rows groups,
  length-note_groups-le rows (put row.group_id row.group_fit_success groups),
  length-put-le row.group_id row.group_fit_success groups,
)

count_true-le : (groups : List (Name × Bool)) → count_true groups ≤ length groups
unfolding count_true
count_true-le [] = omega arith
count_true-le ((name, true) ∷ groups) = omega (arith, count_true-le groups)
count_true-le ((name, false) ∷ groups) = omega (arith, count_true-le groups)

-- The counts per detector sum up to the number of rows, and there are at most as many detectors, and
-- at most as many groups, as rows; at most all of the groups succeeded.
summarize-counts :
    (rows : List Row)
    → (total (summarize rows).rows_per_detector ≡ (summarize rows).n_rows)
      × ((summarize rows).n_detectors ≤ (summarize rows).n_rows)
      × ((summarize rows).n_groups_succeeded ≤ (summarize rows).n_groups)
      × ((summarize rows).n_groups ≤ (summarize rows).n_rows)
unfolding summarize
summarize-counts rows =
    let counted = total-count_rows rows [] in
    (
      omega (arith, total-sort_names (count_rows rows []), counted.0),
      omega (arith, counted.1),
      count_true-le (note_groups rows []),
      omega (arith, length-note_groups-le rows []),
    )
