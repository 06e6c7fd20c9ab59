-- ===== src/Trigger.antt =====
-- trigger.py (python/lsst/ts/donut_server/trigger.py): the poll for an exposure's files, and what the
-- notifier sends and answers. The directory and the clock are what each turn of the loop reads.
pub mod Turns
pub mod Settled
pub mod Halting
pub mod Notifier
use donut_server.Prelude.{
  ℕ, zero, suc, ◌+◌, ◌-◌, ◌≡◌, Bool, true, false, ◌&&◌, ◌||◌, Option, none, some, List, [], ◌∷◌,
  if◌then◌else◌, eqb, ltb, leb, length, lookup, put, take, drop,
}
use donut_server.Bytes.{Name, name_eq, list_eqb}

abbrev pub expected_sensors : ℕ
expected_sensors = 8

-- A file that `glob` finds, by its basename: whether its sidecar exists, and its size, which `stat`
-- may no longer have.
pub record File : Type 0 where
  pub name : Name
  pub has_sidecar : Bool
  pub size : Option ℕ

-- `\d` on ASCII names
unfoldable pub is_digit : ℕ → Bool
is_digit c = leb 48 c && leb c 57

-- _SENSOR_RE at the end of a name
unfoldable pub sensor_in : Name → Option Name
unfolding is_digit list_eqb
sensor_in (u ∷ r ∷ d₁ ∷ d₂ ∷ v ∷ s ∷ w ∷ d₃ ∷ rest) =
    if list_eqb (u ∷ r ∷ v ∷ s ∷ w ∷ rest)
        (b'_' ∷ b'R' ∷ b'_' ∷ b'S' ∷ b'W' ∷ b'.' ∷ b'f' ∷ b'i' ∷ b't' ∷ b's' ∷ [])
      && is_digit d₁
      && is_digit d₂
      && is_digit d₃
    then some (r ∷ d₁ ∷ d₂ ∷ v ∷ s ∷ w ∷ d₃ ∷ [])
    else none
sensor_in _ = none

unfoldable pub sensor_of : Name → Name
unfolding sensor_in
sensor_of name = elim (sensor_in (drop (length name - 13) name)) [ none ↦ name | some s ↦ s ]

-- what one file adds: nothing without its sidecar, or when it has vanished
unfoldable pub note_file : File → List (Name × ℕ) → List (Name × ℕ)
unfolding sensor_of
note_file f found =
    if f.has_sidecar
    then elim f.size [ none ↦ found | some size ↦ put (sensor_of f.name) size found ]
    else found

unfoldable pub poll_files : List File → List (Name × ℕ) → List (Name × ℕ)
unfolding note_file
poll_files [] found = found
poll_files (f ∷ files) found = poll_files files (note_file f found)

unfoldable pub poll_once : List File → List (Name × ℕ)
unfolding poll_files
poll_once files = poll_files files []

-- == of dicts
unfoldable pub has_items : List (Name × ℕ) → List (Name × ℕ) → Bool
has_items [] d = true
has_items ((name, size) ∷ items) d =
    (elim (lookup name d) [ none ↦ false | some n ↦ eqb n size ]) && has_items items d

unfoldable pub same_items : List (Name × ℕ) → List (Name × ℕ) → Bool
unfolding has_items
same_items d e = has_items d e && has_items e d

-- One turn of the loop: the clock at its start, the files that it sees, and the clock at its end.
pub record Poll : Type 0 where
  pub polled_at : ℕ
  pub files : List File
  pub checked_at : ℕ

-- the variables that the loop carries
pub record Wait : Type 0 where
  pub previous : Option (List (Name × ℕ))
  pub previous_at : ℕ
  pub complete_at : Option ℕ

pub data Verdict : Type 0 where
  -- the loop sleeps, and goes on
  polling : Wait → Verdict
  complete : ℕ → Verdict
  -- with the number of sensors of the message
  timed_out : ℕ → Verdict
  -- ValueError
  bad_argument : Verdict

-- `complete_at` after the first match
abbrev pub completion : Wait → ℕ
completion w = elim w.complete_at [ none ↦ w.previous_at | some at ↦ at ]

-- `found == previous`, where there is a previous one
abbrev pub same_previous : List (Name × ℕ) → Option (List (Name × ℕ)) → Bool
same_previous found none = false
same_previous found (some previous) = same_items found previous

-- the end of a turn that does not return
unfoldable pub go_on : ℕ → Poll → List (Name × ℕ) → Option ℕ → Verdict
go_on deadline poll found at =
    if leb deadline poll.checked_at
    then timed_out (length found)
    else polling (record { previous = some found; previous_at = poll.polled_at; complete_at = at })

unfoldable pub turn : ℕ → ℕ → Wait → Poll → Verdict
unfolding go_on
turn settle_time deadline w poll =
    let found = poll_once poll.files in
    if eqb (length found) expected_sensors && same_previous found w.previous
    then if leb settle_time (poll.polled_at - completion w)
      then complete (completion w)
      else go_on deadline poll found (some (completion w))
    else go_on deadline poll found none

-- `return` and `raise` end the loop
abbrev pub or_end : Verdict → (Wait → Verdict) → Verdict
or_end (polling next) loop = loop next
or_end (complete at) loop = complete at
or_end (timed_out n) loop = timed_out n
or_end bad_argument loop = bad_argument

-- The loop, over the turns as they come.
unfoldable pub wait_loop : ℕ → ℕ → Wait → List Poll → Verdict
unfolding turn
wait_loop settle_time deadline w [] = polling w
wait_loop settle_time deadline w (poll ∷ polls) =
    or_end (turn settle_time deadline w poll) (λ next. wait_loop settle_time deadline next polls)

-- the variables before the loop
abbrev pub unpolled : ℕ → Wait
unpolled now = record { previous = none; previous_at = now; complete_at = none }

-- `wait_for_exposure`, entered at `now`
unfoldable pub wait_for_exposure : ℕ → ℕ → ℕ → ℕ → List Poll → Verdict
unfolding wait_loop
wait_for_exposure now timeout interval settle_time polls =
    let waited = wait_loop settle_time (now + timeout) (unpolled now) polls in
    if eqb settle_time 0 || eqb interval 0 then bad_argument else waited
