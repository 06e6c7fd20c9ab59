-- ===== src/Coordinator/Key.antt =====
-- `override_key` and `PrepareKey` of coordinator.py: what two prepares must share to share an entry.
use Prim.Native.String.{String}
use text.Mathlib.Text.{◌==◌ as str_eq}
use text.Mathlib.TextEquality.{eq_iff}
use donut_server.Prelude.{
  ℕ, ◌≡◌, Bool, true, false, ◌&&◌, ◌↔◌, Option, none, some, List, [], ◌∷◌, if◌then◌else◌, Eq, arith,
}
use donut_server.Bytes.{list_eqb, list_eqb_iff}

-- An entry of `config_overrides`, after the front end's validation.
pub data Override : Type 0 where
  value : String → String → Override
  python : Option String → String → Override

pub data OverrideKey : Type 0 where
  value_key : String → String → OverrideKey
  python_key : String → String → OverrideKey

-- entry.get("name") or "<override>"
unfoldable pub name_or_default : Option String → String
name_or_default none = "<override>"
name_or_default (some name) = if str_eq name "" then "<override>" else name

unfoldable pub override_keys : List Override → List OverrideKey
unfolding name_or_default
override_keys [] = []
override_keys (value field text ∷ spec) = value_key field text ∷ override_keys spec
override_keys (python name text ∷ spec) =
    python_key (name_or_default name) text ∷ override_keys spec

-- None and [] both give ()
unfoldable pub override_key : Option (List Override) → List OverrideKey
unfolding override_keys
override_key none = []
override_key (some spec) = override_keys spec

pub record PrepareKey : Type 0 where
  pub task : List OverrideKey
  pub physical_filter : String
  -- a frozenset of ids, as their sorted list
  pub refcat : List ℕ
  pub calib_time : String

entry_eqb : OverrideKey → OverrideKey → Bool
entry_eqb (value_key f v) (value_key g w) = str_eq f g && str_eq v w
entry_eqb (python_key f v) (python_key g w) = str_eq f g && str_eq v w
entry_eqb _ _ = false

entry_eqb_iff : (a b : OverrideKey) → (entry_eqb a b ≡ true) ↔ (a ≡ b)
unfolding entry_eqb
entry_eqb_iff (value_key f v) (value_key g w) = ground (arith, eq_iff f g, eq_iff v w)
entry_eqb_iff (python_key f v) (python_key g w) = ground (arith, eq_iff f g, eq_iff v w)
entry_eqb_iff (value_key f v) (python_key g w) = ground arith
entry_eqb_iff (python_key f v) (value_key g w) = ground arith

unfoldable pub task_eqb : List OverrideKey → List OverrideKey → Bool
unfolding entry_eqb
task_eqb [] [] = true
task_eqb (a ∷ xs) (b ∷ ys) = entry_eqb a b && task_eqb xs ys
task_eqb _ _ = false

task_eqb_iff : (xs ys : List OverrideKey) → (task_eqb xs ys ≡ true) ↔ (xs ≡ ys)
unfolding task_eqb
task_eqb_iff [] [] = ground arith
task_eqb_iff [] (b ∷ ys) = ground arith
task_eqb_iff (a ∷ xs) [] = ground arith
task_eqb_iff (a ∷ xs) (b ∷ ys) = ground (arith, entry_eqb_iff a b, task_eqb_iff xs ys)

-- tuple equality of two keys
unfoldable pub key_eqb : PrepareKey → PrepareKey → Bool
key_eqb a b =
    task_eqb a.task b.task
    && (str_eq a.physical_filter b.physical_filter
        && (list_eqb a.refcat b.refcat && str_eq a.calib_time b.calib_time))

pub key_eqb_iff : (a b : PrepareKey) → (key_eqb a b ≡ true) ↔ (a ≡ b)
unfolding key_eqb
key_eqb_iff a b = ground (
  arith,
  task_eqb_iff a.task b.task,
  eq_iff a.physical_filter b.physical_filter,
  list_eqb_iff a.refcat b.refcat,
  eq_iff a.calib_time b.calib_time,
)

instance abbrev pub key_eq : Eq PrepareKey
key_eq = record { equal = key_eqb; equal_iff = key_eqb_iff }
