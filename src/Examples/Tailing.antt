-- ===== src/Examples/Tailing.antt =====
-- A log of four lines, with the marker of a job in the second and the next one's in the last.
use donut_server.Prelude.{◌+◌, ◌≤◌, ◌≡◌, refl, some, [], ◌∷◌, length}
use donut_server.Bytes.{Bytes, list_eqb}
use donut_server.Logs.{
  starts_with, find_in, find, rfind_in, rfind, line_from, line_start, job_slice,
}
use donut_server.Logs.Slices.{job_slice-Within}

abbrev log : Bytes
log = 5 ∷ 10 ∷ 1 ∷ 2 ∷ 10 ∷ 6 ∷ 10 ∷ 7 ∷ 2 ∷ 10 ∷ []

sliced : job_slice 3 (1 ∷ 2 ∷ []) (2 ∷ []) (9 ∷ []) log ≡ some (2, 5)
unfolding job_slice rfind rfind_in find find_in starts_with line_start line_from list_eqb
sliced = refl

job_slice-Within_example : (2 ≤ 5) × (5 ≤ length log) × (5 ≤ 2 + 3)
job_slice-Within_example = job_slice-Within 3 (1 ∷ 2 ∷ []) (2 ∷ []) (9 ∷ []) log 2 5 sliced
