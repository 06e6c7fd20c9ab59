-- ===== src/Endpoints/Submit.antt =====
-- `submit` of server.py: resolve, then prepare and ingest, once for a visit. `upper` is str.upper.
use donut_server.Prelude.{
  ℕ, Bool, true, false, ◌&&◌, ◌||◌, not, Option, none, some, List, if◌then◌else◌, nat_eq, lookup,
}
use donut_server.Bytes.{Bytes, Name}
use donut_server.Exec.{ok, raise}
use donut_server.Endpoints.{
  bad_request, coordinator_lost, submitted_as, Answer, answered, refused, lost, among,
  skip_imgtypes, expected_imgtypes, bad_workers, Exposure, Flags, Front, job_in, submitted_job,
  dry_run_of, skipped, Reply, prepare_replied, ingest, note_visit,
}

module _ (Key Result : Type 0) (upper : Name → Name) where
  -- `SUBMITTED.get(visit)`, unless there is no visit or a resubmit is asked for
  unfoldable pub previous_of : Option ℕ → Bool → List (ℕ × ℕ) → Option ℕ
  previous_of none resubmit submitted = none
  previous_of (some visit) true submitted = none
  previous_of (some visit) false submitted = lookup visit submitted

  abbrev pub with_note : Bool → Reply Key Result → Reply Key Result
  with_note note (ok (job_in id state)) = ok (submitted_job id note)
  with_note note (ok r) = ok r
  with_note note (raise why) = raise why

  -- the prepare's reply, then the ingest
  unfoldable pub submit_prepared :
      ℕ
      → Option ℕ
      → Exposure
      → Answer (Result × Option Bytes)
      → Reply Key Result × Front Key Result
      → Reply Key Result × Front Key Result
  submit_prepared id workers found ingested (raise why, f) = (raise why, f)
  submit_prepared id workers found ingested (ok r, f) =
      let (reply, f') =
        ingest Key Result id workers true ingested (note_visit Key Result found.visit id f) in
      (with_note (not (among (upper found.imgtype) expected_imgtypes)) reply, f')

  -- after the resolve, for a fresh id
  unfoldable pub submit_found :
      ℕ
      → Option ℕ
      → Flags
      → Exposure
      → Answer (Option Key)
      → Answer (Result × Option Bytes)
      → Front Key Result
      → Reply Key Result × Front Key Result
  unfolding submit_prepared previous_of
  submit_found id workers flags found key ingested f =
      if flags.dry_run
      then (ok (dry_run_of found), f)
      else if not flags.any_imgtype && among (upper found.imgtype) skip_imgtypes
      then (ok (skipped found), f)
      else elim (previous_of found.visit flags.resubmit f.submitted) [
        | some job ↦ (raise (submitted_as job), f)
        | none ↦ submit_prepared id workers found ingested (prepare_replied Key Result id key f)
      ]

  -- `submit`, of a body whose directory and overrides pass their tests or not
  unfoldable pub submit :
      ℕ
      → Option ℕ
      → Bool
      → Flags
      → Answer Exposure
      → Answer (Option Key)
      → Answer (Result × Option Bytes)
      → Front Key Result
      → Reply Key Result × Front Key Result
  unfolding submit_found
  submit id workers body_ok flags resolved key ingested f =
      if not body_ok || bad_workers workers then (raise bad_request, f) else elim resolved [
        | answered found ↦ submit_found id workers flags found key ingested f
        | refused why operator ↦ (raise bad_request, f)
        | lost why ↦ (raise (coordinator_lost why), f)
      ]
