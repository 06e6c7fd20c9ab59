-- ===== src/Replay.antt =====
-- replay.py (python/lsst/ts/donut_server/replay.py): which exposure a replay is of, and the headers
-- that replace those of its files. Substitute has the substitution itself with its report.
pub mod Marker
pub mod Substitute
pub mod Matched
use donut_server.Prelude.{
  ℕ, ◌≡◌, Bool, true, false, Option, none, some, List, [], ◌∷◌, ◌++◌, if◌then◌else◌, eqb, length,
  lookup, put, map, not,
}
use donut_server.Bytes.{Name, name_eq, list_eqb, sort_names}
use donut_server.Exec.{Outcome, ok, raise}
use donut_server.Exec.Raise.{◌>>=◌, ◌>>◌, check}
use donut_server.Daq.{
  emuimage, Error, no_directory, twice, no_marker, many_markers, wrong_count, Stack, detector_name,
  sw_paths, the_only, expected_sensors,
}

unfoldable pub names_under : Name → List (Name × List Name) → List Name
names_under value values = elim (lookup value values) [ none ↦ [] | some names ↦ names ]

-- one sensor's marker
unfoldable pub note_marker :
    Name → Name → List Name → List (Name × List Name) → List Name × List (Name × List Name)
unfolding names_under
note_marker [] name missing values = (missing ++ name ∷ [], values)
note_marker (c ∷ rest) name missing values =
    (missing, put (c ∷ rest) (names_under (c ∷ rest) values ++ name ∷ []) values)

-- the checks after the loop
unfoldable pub only_marker : List Name → List (Name × List Name) → Outcome Error Name
only_marker (name ∷ missing) values = raise (no_marker (name ∷ missing))
only_marker [] values = the_only (map (λ v. v.0) values) (many_markers (sort_names values))

module _ (k : Stack) where
  open k use {Header, Value, Degrees}

  -- the marker of one header, empty where it is absent or undefined
  unfoldable pub marker_of : Header → Name
  marker_of header = elim (k.card header emuimage) [
    | none ↦ []
    | some value ↦ if k.is_none value then [] else k.strip (k.text value)
  ]

  -- the loop of `read_emuimage`: the sensors without a marker, and those of each marker
  unfoldable pub gather_markers :
      List (Name × Header)
      → List Name
      → List (Name × List Name)
      → List Name × List (Name × List Name)
  unfolding marker_of note_marker
  gather_markers [] missing values = (missing, values)
  gather_markers ((name, header) ∷ headers) missing values =
      let (missing', values') = note_marker (marker_of header) name missing values in
      gather_markers headers missing' values'

  unfoldable pub read_emuimage : List (Name × Header) → Outcome Error Name
  unfolding gather_markers only_marker sort_names
  read_emuimage headers =
      let (missing, values) = gather_markers (sort_names headers) [] [] in
      only_marker missing values

  -- the loop of `read_live_headers` and of `replay_headers`
  unfoldable pub read_headers :
      List Name → List (Name × Header) → Outcome Error (List (Name × Header))
  unfolding detector_name
  read_headers [] headers = ok headers
  read_headers (path ∷ paths) headers = do
    header ← k.read_header path
    name ← detector_name k header
    elim (lookup name headers) [
      | some _ ↦ raise (twice name)
      | none ↦ read_headers paths (put name header headers)
    ]

  unfoldable pub read_live_headers : List Name → Outcome Error (List (Name × Header))
  unfolding read_headers
  read_live_headers paths = read_headers paths []

  unfoldable pub replay_headers : Name → Name → Outcome Error (List (Name × Header))
  unfolding read_headers
  replay_headers replay_dir exposure = do
    let directory = k.join replay_dir exposure
    check (k.is_dir directory) (no_directory directory)
    paths ← sw_paths k directory
    headers ← read_headers paths []
    check (eqb (length headers) expected_sensors) (wrong_count (length headers))
    ok headers
