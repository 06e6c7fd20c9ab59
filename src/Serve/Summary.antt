-- ===== src/Serve/Summary.antt =====
-- `_summarize` of coordinator.py: the digest of a job's result table.
use donut_server.Prelude.{
  ℕ, ◌+◌, Bool, Option, none, some, List, [], ◌∷◌, if◌then◌else◌, length, lookup, put,
}
use donut_server.Bytes.{Name, name_eq, sort_names}
use donut_server.Serve.{Row}

pub record Summary : Type 0 where
  pub n_rows : ℕ
  pub n_detectors : ℕ
  pub rows_per_detector : List (Name × ℕ)
  pub n_groups : ℕ
  pub n_groups_succeeded : ℕ

-- per_detector.get(name, 0)
abbrev pub count_or_zero : Option ℕ → ℕ
count_or_zero none = 0
count_or_zero (some n) = n

-- the loop over det_names
unfoldable pub count_rows : List Row → List (Name × ℕ) → List (Name × ℕ)
count_rows [] per_detector = per_detector
count_rows (row ∷ rows) per_detector =
    count_rows rows
      (put row.det_name (count_or_zero (lookup row.det_name per_detector) + 1) per_detector)

-- The loop over the groups: a row without a group is skipped, and the last row of a group decides.
unfoldable pub note_groups : List Row → List (Name × Bool) → List (Name × Bool)
note_groups [] groups = groups
note_groups (row ∷ rows) groups =
    let grouped = note_groups rows (put row.group_id row.group_fit_success groups) in
    let ungrouped = note_groups rows groups in
    elim row.group_id [ [] ↦ ungrouped | c ∷ cs ↦ grouped ]

-- sum() of a dict's Boolean values
unfoldable pub count_true : List (Name × Bool) → ℕ
count_true [] = 0
count_true ((name, b) ∷ groups) = (if b then 1 else 0) + count_true groups

unfoldable pub summarize : List Row → Summary
unfolding count_rows note_groups count_true sort_names
summarize rows =
    let per_detector = count_rows rows [] in
    let groups = note_groups rows [] in
    record {
      n_rows = length rows;
      n_detectors = length per_detector;
      rows_per_detector = sort_names per_detector;
      n_groups = length groups;
      n_groups_succeeded = count_true groups;
    }
