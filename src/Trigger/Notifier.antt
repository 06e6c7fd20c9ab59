-- ===== src/Trigger/Notifier.antt =====
-- The notifier of trigger.py, `run_notifier` and `main`: the request that it makes of an exposure, and
-- the exit status. Whether the host is loopback, and whether the directory exists, are arguments.
use donut_server.Prelude.{
  ℕ, Bool, true, false, ◌&&◌, ◌||◌, not, Option, none, some, List, [], ◌∷◌, ◌++◌, if◌then◌else◌,
  eqb, ltb,
}
use donut_server.Bytes.{Name}
use donut_server.Trigger.{Verdict, polling, complete, timed_out, bad_argument}

-- the arguments of the command line; a float is in ticks, and a negative one counts as 0
pub record Args : Type 0 where
  pub directory : Name
  pub token : Name
  pub timeout : ℕ
  pub poll_interval : ℕ
  pub settle_time : ℕ
  pub num_workers : Option ℕ
  pub detach : Bool
  pub config_overrides : List Name
  pub any_imgtype : Bool
  pub dry_run : Bool
  pub resubmit : Bool

-- the members of the body, but for the values that are true
pub data Member : Type 0 where
  directory_member : Name → Member
  overrides_member : List Name → Member
  any_imgtype_member dry_run_member resubmit_member : Member

abbrev pub when : Bool → Member → List Member
when true m = m ∷ []
when false m = []

abbrev pub is_given : List Name → Bool
is_given [] = false
is_given (n ∷ names) = true

-- `payload`
unfoldable pub payload : Args → List Member
payload a =
    directory_member a.directory
    ∷ (when (is_given a.config_overrides) (overrides_member a.config_overrides)
        ++ (when a.any_imgtype any_imgtype_member
            ++ (when a.dry_run dry_run_member ++ when a.resubmit resubmit_member)))

-- what the request meets
pub data Met : Type 0 where
  http_error : ℕ → Met
  unreachable : Met
  -- of a job, a dry run, or a frame that is skipped
  accepted : Met

-- after the wait
unfoldable pub notified : Met → ℕ
notified (http_error code) = if eqb code 409 then 0 else 1
notified unreachable = 1
notified accepted = 0

-- How the process ends: a status, the parser's usage error, an exception, or not yet.
pub data Exit : Type 0 where
  status : ℕ → Exit
  usage uncaught waiting : Exit

unfoldable pub run_notifier : Verdict → Met → Exit
unfolding notified
run_notifier (complete at) met = status (notified met)
run_notifier (timed_out n) met = status 1
run_notifier bad_argument met = uncaught
run_notifier (polling w) met = waiting

abbrev pub too_few : Option ℕ → Bool
too_few none = false
too_few (some n) = ltb n 1

abbrev pub no_token : Name → Bool
no_token [] = true
no_token (c ∷ token) = false

-- `detached` is whether the process is the detached child already
unfoldable pub main : Args → Bool → Bool → Bool → Verdict → Met → Exit
unfolding run_notifier
main a is_directory detached loopback verdict met =
    if eqb a.timeout 0 || eqb a.poll_interval 0 || eqb a.settle_time 0 || too_few a.num_workers
    then usage
    else if not is_directory
    then usage
    else if a.detach && not detached
    then status 0
    else if no_token a.token && not loopback
    then usage
    else run_notifier verdict met
