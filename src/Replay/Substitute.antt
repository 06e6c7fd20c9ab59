-- ===== src/Replay/Substitute.antt =====
-- `substituted_headers` and `resolve` of replay.py, with the lines of their report, which are data:
-- their values without their padding.
use donut_server.Prelude.{
  Bool, true, false, Option, none, some, List, [], ◌∷◌, ◌++◌, if◌then◌else◌, lookup, not,
}
use donut_server.Bytes.{Name, name_eq, list_eqb}
use donut_server.Exec.{Exec, ◌>>=◌, ◌>>◌, pure, lift, modify}
use donut_server.Exec.Raise.{check, require}
use donut_server.Daq.{
  Card, emuimage, obsid, filter, ra, dec, date_beg, focusz, Error, no_directory, no_sensor, Stack,
  RawSource, RawHandle, sw_paths, resolve_exposure_dir,
}
use donut_server.Replay.{read_emuimage, read_live_headers, replay_headers}

-- "R00_SW0"
abbrev pub trigger_sensor : Name
trigger_sensor = b'R' ∷ b'0' ∷ b'0' ∷ b'_' ∷ b'S' ∷ b'W' ∷ b'0' ∷ []

-- "<absent>"
abbrev pub absent_word : Name
absent_word = b'<' ∷ b'a' ∷ b'b' ∷ b's' ∷ b'e' ∷ b'n' ∷ b't' ∷ b'>' ∷ []

-- DONUT_SERVER_REPLAY_DIR and DONUT_SERVER_REPLAY_OBSID
pub record Env : Type 0 where
  pub replay_dir : Option Name
  pub replay_obsid : Option Name

-- A variable that is set and not empty.
unfoldable pub set_to : Option Name → Option Name
set_to none = none
set_to (some []) = none
set_to (some (c ∷ name)) = some (c ∷ name)

-- the lines that `report` gets; the flags are MISMATCH and the star
pub data Line (Value : Type 0) : Type 0 where
  pinned : Name → Line Value
  names_original : Name → Line Value
  loaded : Value → Value → Bool → Line Value
  heading : Line Value
  changed : Card → Value → Value → Bool → Line Value

module _ (k : Stack) where
  open k use {Header, Value, Degrees}

  -- `_card`, of a header that may be the empty dict
  unfoldable pub card_or_absent : Option Header → Card → Value
  card_or_absent none key = k.of_text absent_word
  card_or_absent (some header) key = elim (k.card header key) [
    | none ↦ k.of_text absent_word
    | some value ↦ if k.is_none value then k.of_text absent_word else value
  ]

  -- a row of the report's table
  unfoldable pub change : Option Header → Header → Card → Line Value
  unfolding card_or_absent
  change live substituted key =
      let before = card_or_absent live key in
      let after = card_or_absent (some substituted) key in
      changed key before after (not (k.same before after))

  unfoldable pub substitution_report : Option Header → Header → List (Line Value)
  unfolding change card_or_absent
  substitution_report live substituted =
      let marker = card_or_absent live emuimage in
      let original = card_or_absent (some substituted) obsid in
      loaded marker original (not (list_eqb (k.text marker) (k.text original)))
      ∷ heading
      ∷ change live substituted obsid
      ∷ change live substituted filter
      ∷ change live substituted ra
      ∷ change live substituted dec
      ∷ change live substituted date_beg
      ∷ change live substituted focusz
      ∷ []

  abbrev pub Reporting : Type 0 → Type 0
  Reporting A = Exec (List (Line Value)) Error A

  -- report(line), where the caller passed a `report`
  unfoldable pub say : Bool → List (Line Value) → Reporting (Unit {0})
  unfolding modify pure
  say true lines = modify (λ out. out ++ lines)
  say false lines = pure tt

  -- which exposure to load
  unfoldable pub chosen_exposure : Bool → Option Name → List (Name × Header) → Reporting Name
  unfolding say read_emuimage ◌>>=◌ lift pure
  chosen_exposure report (some name) live = do say report (pinned name ∷ []); pure name
  chosen_exposure report none live = do
    name ← lift (read_emuimage k live)
    say report (names_original name ∷ [])
    pure name

  -- the report at the end, which looks up the trigger sensor
  unfoldable pub report_headers :
      Bool → List (Name × Header) → List (Name × Header) → Reporting (Unit {0})
  unfolding say substitution_report ◌>>=◌ lift pure
  report_headers false live headers = pure tt
  report_headers true live headers = do
    substituted ← lift (require (lookup trigger_sensor headers) (no_sensor trigger_sensor))
    say true (substitution_report (lookup trigger_sensor live) substituted)

  unfoldable pub substitute : Env → Name → Name → Bool → Reporting (List (Name × Header))
  unfolding chosen_exposure report_headers replay_headers read_live_headers ◌>>=◌ lift pure sw_paths
  substitute env replay_dir directory report = do
    lift (check (k.is_dir replay_dir) (no_directory replay_dir))
    paths ← lift (sw_paths k directory)
    live ← lift (read_live_headers k paths)
    exposure ← chosen_exposure report (set_to env.replay_obsid) live
    headers ← lift (replay_headers k replay_dir exposure)
    report_headers report live headers
    pure headers

  -- `report` says whether the caller passed one
  unfoldable pub substituted_headers : Env → Name → Bool → Reporting (Option (List (Name × Header)))
  unfolding substitute set_to ◌>>=◌ pure
  substituted_headers env directory report = elim (set_to env.replay_dir) [
    | none ↦ pure none
    | some replay_dir ↦ do headers ← substitute env replay_dir directory report; pure (some headers)
  ]

  unfoldable pub resolve : Env → Name → Bool → Reporting (RawSource Degrees (RawHandle k) × Name)
  unfolding substituted_headers resolve_exposure_dir ◌>>=◌ lift
  resolve env directory report = do
    headers ← substituted_headers env directory report
    lift (resolve_exposure_dir k directory headers)
