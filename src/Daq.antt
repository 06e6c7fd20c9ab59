-- ===== src/Daq.antt =====
-- daq.py (python/lsst/ts/donut_server/daq.py): a directory of corner-sensor files, resolved from its
-- headers to a source of raws. The file system and what the LSST stack reads from a header are the
-- record `Stack`, of which nothing is assumed.
pub mod Resolved
pub mod Memory
pub mod Shared
pub mod Encode
pub mod Laid
pub mod Wire
pub mod Blob
pub mod Encoded
pub mod Placed
pub mod Filled
pub mod Kept
pub mod Released
use donut_server.Prelude.{
  ℕ, ◌≡◌, Bool, true, false, Option, none, some, List, [], ◌∷◌, ◌++◌, if◌then◌else◌, eqb, keys,
  length, lookup, put, map, Eq, nat_eq, ◌==◌,
}
use donut_server.Bytes.{Name, name_eq, name_ltb, sort_names}
use donut_server.Exec.{Outcome, ok, raise}
use donut_server.Exec.Raise.{◌>>=◌, ◌>>◌, check, require}

-- the cards of a header that the code reads by name
pub data Card : Type 0 where
  raftbay ccdslot emuimage obsid filter ra dec date_beg focusz : Card

-- the RuntimeErrors of daq.py, client.py and replay.py, and what the stack raises
pub data Error : Type 0 where
  no_card : Card → Error
  only_compressed no_files : Name → Error
  no_substitute no_pointing : Name → Error
  many_filters : List Name → Error
  many_exposures : List ℕ → Error
  wrong_count : ℕ → Error
  unknown_filter : Name → Error
  no_directory twice : Name → Error
  no_marker : List Name → Error
  many_markers : List (Name × List Name) → Error
  no_sensor : Name → Error
  of_stack : ℕ → Error

pub record Stack : Type 1 where
  pub Header : Type 0
  pub Value : Type 0
  pub Degrees : Type 0
  -- header[card], where the card is there; and `is None`, `==`, str() and str.strip() of a value
  pub card : Header → Card → Option Value
  pub is_none : Value → Bool
  pub same : Value → Value → Bool
  pub text : Value → Name
  pub strip : Name → Name
  -- a str as a value
  pub of_text : Name → Value
  -- ObservationInfo of a header, or what it raises
  pub Info : Type 0
  pub obs_info : Header → Outcome Error Info
  pub detector_num : Info → ℕ
  -- str(physical_filter), int(exposure_id) and str(observation_type)
  pub physical_filter : Info → Name
  pub exposure_id : Info → ℕ
  pub observation_type : Info → Name
  pub tracking_radec : Info → Option (Degrees × Degrees)
  -- (begin + (end - begin) / 2).tai.isot
  pub midpoint : Info → Outcome Error Name
  -- glob.glob of SW_PATTERN in a directory, and of SW_PATTERN + ".fz"
  pub glob_sw : Name → List Name
  pub glob_compressed : Name → List Name
  pub is_dir : Name → Bool
  -- os.path.join
  pub join : Name → Name → Name
  -- `read_header`: the primary header with the translator's fixes
  pub read_header : Name → Outcome Error Header

abbrev pub expected_sensors : ℕ
expected_sensors = 8

-- KNOWN_PHYSICAL_FILTERS: u_24, g_6, r_57, i_39, z_20 and y_10
abbrev pub known_filters : List Name
known_filters =
    (b'u' ∷ b'_' ∷ b'2' ∷ b'4' ∷ [])
    ∷ (b'g' ∷ b'_' ∷ b'6' ∷ [])
    ∷ (b'r' ∷ b'_' ∷ b'5' ∷ b'7' ∷ [])
    ∷ (b'i' ∷ b'_' ∷ b'3' ∷ b'9' ∷ [])
    ∷ (b'z' ∷ b'_' ∷ b'2' ∷ b'0' ∷ [])
    ∷ (b'y' ∷ b'_' ∷ b'1' ∷ b'0' ∷ [])
    ∷ []

module _ {A : Type 0} ⦃e : Eq A⦄ where
  -- `in`, and the `add` of a set that is kept as the list of its elements
  unfoldable pub member : A → List A → Bool
  member a [] = false
  member a (x ∷ xs) = if x == a then true else member a xs

  unfoldable pub add : A → List A → List A
  unfolding member
  add a xs = if member a xs then xs else xs ++ a ∷ []

-- sorted() of names
unfoldable pub sorted : List Name → List Name
unfolding sort_names
sorted names = keys (sort_names (map (λ name. (name, tt {0})) names))

unfoldable pub check_known_filter : Name → Outcome Error Name
unfolding member
check_known_filter name = check (member name known_filters) (unknown_filter name) >> ok name

-- one exposure's raws, located but not read; `A` is what `load` takes
pub record RawSource (Degrees A : Type 0) : Type 0 where
  pub visit : ℕ
  pub physical_filter : Name
  pub handles : List (ℕ × A)
  pub boresight : Option (Degrees × Degrees)
  pub calib_time : Option Name

-- min() of names
unfoldable pub least : Name → List Name → Name
least name [] = name
least name (n ∷ names) = least (if name_ltb n name then n else name) names

-- "/".join(names)
unfoldable pub joined : List Name → Name
joined [] = []
joined (name ∷ []) = name
joined (name ∷ next ∷ names) = name ++ b'/' ∷ joined (next ∷ names)

-- the single element of a set
abbrev pub the_only : {A : Type 0} → List A → Error → Outcome Error A
the_only (a ∷ []) why = ok a
the_only [] why = raise why
the_only (a ∷ b ∷ rest) why = raise why

abbrev pub first_of : {A : Type 0} → List A → Option A
first_of [] = none
first_of (a ∷ rest) = some a

abbrev pub least_of : List Name → Option Name
least_of [] = none
least_of (name ∷ names) = some (least name names)

module _ (k : Stack) where
  open k use {Header, Value, Degrees, Info}

  -- One sensor's file, with the header to assemble it under.
  pub record RawHandle : Type 0 where
    pub path : Name
    pub header : Header
    pub detector_num : ℕ

  -- f"{raft}_{slot}"
  unfoldable pub detector_name : Header → Outcome Error Name
  detector_name header = do
    raft ← require (k.card header raftbay) (no_card raftbay)
    slot ← require (k.card header ccdslot) (no_card ccdslot)
    ok (k.text raft ++ b'_' ∷ k.text slot)

  abbrev pub no_paths : List Name → Name → Outcome Error (List Name)
  no_paths [] directory = raise (no_files directory)
  no_paths (_ ∷ _) directory = raise (only_compressed directory)

  abbrev pub or_no_paths : List Name → Name → Outcome Error (List Name)
  or_no_paths [] directory = no_paths (k.glob_compressed directory) directory
  or_no_paths (path ∷ paths) directory = ok (path ∷ paths)

  unfoldable pub sw_paths : Name → Outcome Error (List Name)
  unfolding sorted
  sw_paths directory = or_no_paths (sorted (k.glob_sw directory)) directory

  -- the variables of the loop of `resolve_exposure_dir`; the sets are lists in order of arrival
  pub record Tally : Type 0 where
    pub handles : List (ℕ × RawHandle)
    pub filters : List Name
    pub exposure_ids : List ℕ
    pub image_types : List Name
    pub pointings : List (Degrees × Degrees)
    pub midpoints : List Name

  abbrev pub no_tally : Tally
  no_tally = record {
    handles = [];
    filters = [];
    exposure_ids = [];
    image_types = [];
    pointings = [];
    midpoints = [];
  }

  -- the substitute for a detector, or the header on disk
  unfoldable pub header_for : Option (List (Name × Header)) → Name → Header → Outcome Error Header
  header_for none name live = ok live
  header_for (some headers) name live = require (lookup name headers) (no_substitute name)

  -- the body of the loop
  unfoldable pub read_sensor : Option (List (Name × Header)) → Name → Tally → Outcome Error Tally
  unfolding detector_name header_for add
  read_sensor headers path t = do
    live ← k.read_header path
    name ← detector_name live
    live_info ← k.obs_info live
    header ← header_for headers name live
    info ← k.obs_info header
    pointing ← require (k.tracking_radec info) (no_pointing path)
    middle ← k.midpoint info
    let num = k.detector_num live_info
    ok (record {
      handles = put num (record { path = path; header = header; detector_num = num }) t.handles;
      filters = add (k.physical_filter info) t.filters;
      exposure_ids = add (k.exposure_id info) t.exposure_ids;
      image_types = add (k.observation_type info) t.image_types;
      pointings = t.pointings ++ pointing ∷ [];
      midpoints = t.midpoints ++ middle ∷ [];
    })

  unfoldable pub read_sensors :
      Option (List (Name × Header)) → List Name → Tally → Outcome Error Tally
  unfolding read_sensor
  read_sensors headers [] t = ok t
  read_sensors headers (path ∷ paths) t = do
    next ← read_sensor headers path t
    read_sensors headers paths next

  -- the checks after the loop, and the source
  unfoldable pub source_of : Tally → Outcome Error (RawSource Degrees RawHandle × Name)
  unfolding check_known_filter least joined sorted
  source_of t = do
    name ← the_only t.filters (many_filters (sorted t.filters))
    visit ← the_only t.exposure_ids (many_exposures t.exposure_ids)
    check (eqb (length t.handles) expected_sensors) (wrong_count (length t.handles))
    known ← check_known_filter name
    ok (
      record {
        visit = visit;
        physical_filter = known;
        handles = t.handles;
        boresight = first_of t.pointings;
        calib_time = least_of t.midpoints;
      },
      joined (sorted t.image_types),
    )

  unfoldable pub resolve_exposure_dir :
      Name → Option (List (Name × Header)) → Outcome Error (RawSource Degrees RawHandle × Name)
  unfolding sw_paths read_sensors source_of
  resolve_exposure_dir directory headers = do
    paths ← sw_paths directory
    t ← read_sensors headers paths no_tally
    source_of t
