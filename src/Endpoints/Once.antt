-- ===== src/Endpoints/Once.antt =====
-- The guard of server.py's submit against a hook that fires twice.
use donut_server.Prelude.{
  ℕ, ◌≡◌, refl, true, false, not, ◌&&◌, ◌==◌, Option, none, some, arith, if◌then◌else◌, nat_eq,
  lookup, put, lookup-put, ==_refl, Bool-cases, inl, inr,
}
use donut_server.Bytes.{Bytes, Name}
use donut_server.Exec.{raise}
use donut_server.Endpoints.{
  submitted_as, Answer, answered, refused, lost, among, skip_imgtypes, bad_workers, Exposure, Flags,
  Front, prepare_replied, finish, set_job, note_visit,
}
use donut_server.Endpoints.Submit.{previous_of, submit_found, submit}
use donut_server.Endpoints.Interleaved.{
  Handlers, Step, prepares, submits, starts, receives, rejects, sends, finishes, loses, end_prepare,
  end_submit_prepare,
}

module _ (Key Result : Type 0) where
  -- what happens, in order, from one state to another
  pub data Steps (h : Handlers Key Result) : Handlers Key Result → Type 0 where
    stay : Steps h h
    go : {k m : Handlers Key Result} → Steps h k → Step Key Result k m → Steps h m

  -- SUBMITTED has a job for the visit
  abbrev pub IsNoted : ℕ → Front Key Result → Type 0
  IsNoted visit f = (job : ℕ) × (lookup visit f.submitted ≡ some job)

  put-IsNoted :
      (visit other id : ℕ) (f : Front Key Result)
      → IsNoted visit f
      → IsNoted visit (record f { submitted = put other id f.submitted })
  put-IsNoted visit other id f (job, at) = elim (Bool-cases (other == visit)) [
    | inl same ↦ (id, ground (arith, same, lookup-put other visit id f.submitted))
    | inr differ ↦ (job, ground (arith, differ, at, lookup-put other visit id f.submitted))
  ]

  note_visit-IsNoted :
      (visit : ℕ) (found : Option ℕ) (id : ℕ) (f : Front Key Result)
      → IsNoted visit f
      → IsNoted visit (note_visit Key Result found id f)
  note_visit-IsNoted visit none id f noted = noted
  note_visit-IsNoted visit (some other) id f noted = put-IsNoted visit other id f noted

  end_prepare-IsNoted :
      (visit id : ℕ) (answer : Answer (Option Key)) (h : Handlers Key Result)
      → IsNoted visit h.front
      → IsNoted visit (end_prepare Key Result id answer h).front
  unfolding prepare_replied set_job
  end_prepare-IsNoted visit id (answered key) h noted = noted
  end_prepare-IsNoted visit id (refused why operator) h noted = noted
  end_prepare-IsNoted visit id (lost why) h noted = noted

  -- no step takes a visit out of SUBMITTED
  Step-IsNoted :
      (visit : ℕ) (h k : Handlers Key Result)
      → Step Key Result h k
      → IsNoted visit h.front
      → IsNoted visit k.front
  unfolding set_job finish
  Step-IsNoted visit h _ (prepares id answer fresh) noted =
      end_prepare-IsNoted visit id answer h noted
  Step-IsNoted visit h _ (submits found id (answered key) fresh) noted =
      note_visit-IsNoted visit found id (end_prepare Key Result id (answered key) h).front
        (end_prepare-IsNoted visit id (answered key) h noted)
  Step-IsNoted visit h _ (submits found id (refused why operator) fresh) noted =
      end_prepare-IsNoted visit id (refused why operator) h noted
  Step-IsNoted visit h _ (submits found id (lost why) fresh) noted =
      end_prepare-IsNoted visit id (lost why) h noted
  Step-IsNoted visit h _ (starts id workers job ok_job) noted = noted
  Step-IsNoted visit h _ (receives id job started at) noted = noted
  Step-IsNoted visit h _ (rejects id job why started at) noted = noted
  Step-IsNoted visit h _ (sends id job started at) noted = noted
  Step-IsNoted visit h _ (finishes id job (answered r) started at) noted = noted
  Step-IsNoted visit h _ (finishes id job (refused why operator) started at) noted = noted
  Step-IsNoted visit h _ (finishes id job (lost why) started at) noted = noted
  Step-IsNoted visit h _ (loses by_job index reason) noted = noted

  Steps-IsNoted :
      (visit : ℕ) (h k : Handlers Key Result)
      → Steps h k
      → IsNoted visit h.front
      → IsNoted visit k.front
  Steps-IsNoted visit h _ stay noted = noted
  Steps-IsNoted visit h m (go {k = k} before step) noted =
      Step-IsNoted visit k m step (Steps-IsNoted visit h k before noted)

  end_submit_prepare-IsNoted :
      (visit id : ℕ) (key : Option Key) (h : Handlers Key Result)
      → IsNoted visit (end_submit_prepare Key Result (some visit) id (answered key) h).front
  unfolding prepare_replied set_job
  end_submit_prepare-IsNoted visit id key h =
      (id, ground (arith, lookup-put visit visit id h.front.submitted, ==_refl ⦃e = nat_eq⦄ visit))

  module _ (upper : Name → Name) where
    -- a submit that gets to its guard, and finds a job there
    submit-guard :
        (id : ℕ) (workers : Option ℕ) (flags : Flags) (found : Exposure) (key : Answer (Option Key))
        (ingested : Answer (Result × Option Bytes)) (f : Front Key Result) (job : ℕ)
        → bad_workers workers ≡ false
        → flags.dry_run ≡ false
        → (not flags.any_imgtype && among (upper found.imgtype) skip_imgtypes) ≡ false
        → previous_of Key Result upper found.visit flags.resubmit f.submitted ≡ some job
        → submit Key Result upper id workers true flags (answered found) key ingested f
          ≡ (raise (submitted_as job), f)
    unfolding submit submit_found
    submit-guard id workers flags found key ingested f job w d fits e =
        rw (w, submit, submit_found, if◌then◌else◌, d, fits, e) refl

    -- Once the prepare of a submit of a visit has been answered, and whatever the handlers do after
    -- that, a submit of the visit without a resubmit is refused with the job that SUBMITTED has for the
    -- visit, and changes nothing, if it gets to the guard: it asks for no dry run, its number of
    -- workers passes, its directory resolves to the visit, and its image type is none that is skipped,
    -- or it allows any.
    pub submit-submit :
        (h k : Handlers Key Result) (first second visit : ℕ) (workers : Option ℕ) (again : Flags)
        (found : Exposure) (key : Option Key) (key' : Answer (Option Key))
        (ingested : Answer (Result × Option Bytes))
        → Steps (end_submit_prepare Key Result (some visit) first (answered key) h) k
        → bad_workers workers ≡ false
        → found.visit ≡ some visit
        → again.dry_run ≡ false
        → again.resubmit ≡ false
        → (not again.any_imgtype && among (upper found.imgtype) skip_imgtypes) ≡ false
        → (job : ℕ) × (lookup visit k.front.submitted ≡ some job)
          × (submit Key Result upper second workers true again
                (answered found)
                key'
                ingested
                k.front
              ≡ (raise (submitted_as job), k.front))
    unfolding previous_of
    submit-submit h k first second visit workers again found key key' ingested steps w v d r fits =
        let (job, at) =
          Steps-IsNoted visit _ k steps (end_submit_prepare-IsNoted visit first key h) in
        (
          job,
          at,
          submit-guard second workers again found key' ingested k.front job w d fits
              (rw (v, r, previous_of) at),
        )
