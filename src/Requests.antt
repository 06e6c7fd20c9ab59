-- ===== src/Requests.antt =====
-- What server.py (python/lsst/ts/donut_server/server.py) asks of a request: check_auth,
-- require_local and _required_str, and the shape of `config_overrides`, _parse_overrides. Text is a list of code
-- points. Parameters: the UTF-8 codec, `str.strip` as a test for blank text, and, for access, whether
-- the peer is on this machine.
pub mod Overrides
use donut_server.Prelude.{
  ℕ, ◌+◌, ◌*◌, Bool, true, false, not, Option, none, some, List, [], ◌∷◌, ◌++◌, ltb, if◌then◌else◌,
  length,
}
use donut_server.Bytes.{Name, Codec, list_eqb}

-- the refusals, by their status and their reason
pub data Refusal : Type 0 where
  unauthorized no_token not_local missing_text : Refusal
  not_a_list too_many too_long : Refusal
  not_an_object bad_kind bad_field bad_value bad_text bad_name text_too_long : ℕ → Refusal
  -- no refusal of the code's own: the exception of str.encode
  cannot_encode : Refusal

pub data Checked (A : Type 0) : Type 0 where
  refuse : Refusal → Checked A
  accept : A → Checked A

-- "Bearer "
abbrev pub bearer : Name
bearer = 66 ∷ 101 ∷ 97 ∷ 114 ∷ 101 ∷ 114 ∷ 32 ∷ []

abbrev same_header : Option Name → Name → Bool
same_header none wanted = false
same_header (some header) wanted = list_eqb header wanted

-- `token` is the environment's, which counts as missing when it is empty
abbrev token_check : Option Name → Option Name → Checked (Unit {0})
token_check none header = refuse no_token
token_check (some []) header = refuse no_token
token_check (some (t ∷ oken)) header =
    if same_header header (bearer ++ t ∷ oken) then accept tt else refuse unauthorized

unfoldable pub check_auth : Bool → Option Name → Option Name → Checked (Unit {0})
check_auth loopback token header = if loopback then accept tt else token_check token header

unfoldable pub require_local : Bool → Checked (Unit {0})
require_local loopback = if loopback then accept tt else refuse not_local

-- MAX_OVERRIDES, MAX_OVERRIDE_TEXT_BYTES and MAX_OVERRIDE_TOTAL_BYTES
abbrev pub max_overrides : ℕ
max_overrides = 64

abbrev pub max_text_bytes : ℕ
max_text_bytes = 256 * 1024

abbrev pub max_total_bytes : ℕ
max_total_bytes = 1024 * 1024

-- A member of a JSON object: missing or null, a string, or something else.
pub data Member : Type 0 where
  absent : Member
  text : Name → Member
  not_text : Member

pub record Fields : Type 0 where
  pub kind : Member
  pub field : Member
  pub value : Member
  pub body : Member
  pub name : Member

pub data Item : Type 0 where
  object : Fields → Item
  not_object : Item

-- body.get("config_overrides")
pub data Spec : Type 0 where
  no_spec : Spec
  items : List Item → Spec
  not_list : Spec

-- a normalized entry
pub data Override : Type 0 where
  value_override python_override : Name → Name → Override

-- "value", "python" and "<override>"
abbrev pub value_word : Name
value_word = 118 ∷ 97 ∷ 108 ∷ 117 ∷ 101 ∷ []

abbrev pub python_word : Name
python_word = 112 ∷ 121 ∷ 116 ∷ 104 ∷ 111 ∷ 110 ∷ []

abbrev pub default_name : Name
default_name = 60 ∷ 111 ∷ 118 ∷ 101 ∷ 114 ∷ 114 ∷ 105 ∷ 100 ∷ 101 ∷ 62 ∷ []

module _ (c : Codec) (blank : Name → Bool) where
  -- `_required_str`
  unfoldable pub required_str : Member → Checked Name
  required_str (text value) = if blank value then refuse missing_text else accept value
  required_str absent = refuse missing_text
  required_str not_text = refuse missing_text

  -- what an entry adds to the total
  unfoldable pub size : Override → ℕ
  size (value_override field value) = length field + length value
  size (python_override name body) = length (c.encode body)

  abbrev pub named : Name → Name
  named [] = default_name
  named (n ∷ ame) = n ∷ ame

  abbrev pub parse_field : ℕ → Name → Member → Checked Override
  parse_field i field (text value) =
      if blank field then refuse (bad_field i) else accept (value_override field value)
  parse_field i field absent = if blank field then refuse (bad_field i) else refuse (bad_value i)
  parse_field i field not_text = if blank field then refuse (bad_field i) else refuse (bad_value i)

  abbrev pub parse_value : ℕ → Member → Member → Checked Override
  parse_value i (text field) value = parse_field i field value
  parse_value i absent value = refuse (bad_field i)
  parse_value i not_text value = refuse (bad_field i)

  abbrev pub bounded_text : ℕ → Name → Name → Checked Override
  bounded_text i name body =
      if not (c.can_encode body)
      then refuse cannot_encode
      else if ltb max_text_bytes (length (c.encode body))
      then refuse (text_too_long i)
      else accept (python_override name body)

  abbrev pub parse_python : ℕ → Member → Member → Checked Override
  parse_python i (text body) absent = bounded_text i default_name body
  parse_python i (text body) (text name) = bounded_text i (named name) body
  parse_python i (text body) not_text = refuse (bad_name i)
  parse_python i absent name = refuse (bad_text i)
  parse_python i not_text name = refuse (bad_text i)

  abbrev pub parse_kind : ℕ → Name → Fields → Checked Override
  parse_kind i kind f =
      if list_eqb kind value_word
      then parse_value i f.field f.value
      else (if list_eqb kind python_word then parse_python i f.body f.name else refuse (bad_kind i))

  -- one entry of the list
  unfoldable pub parse_item : ℕ → Item → Checked Override
  parse_item i not_object = refuse (not_an_object i)
  parse_item i (object f) = elim f.kind [
    | absent ↦ refuse (bad_kind i)
    | not_text ↦ refuse (bad_kind i)
    | text kind ↦ parse_kind i kind f
  ]

  abbrev pub prepend : Override → Checked (List Override) → Checked (List Override)
  prepend o (refuse why) = refuse why
  prepend o (accept out) = accept (o ∷ out)

  -- the loop, with the index and the total so far
  unfoldable pub parse_items : ℕ → ℕ → List Item → Checked (List Override)
  unfolding parse_item size
  parse_items i total [] = accept []
  parse_items i total (item ∷ rest) = elim (parse_item i item) [
    | refuse why ↦ refuse why
    | accept o ↦
        if ltb max_total_bytes (total + size o)
        then refuse too_long
        else prepend o (parse_items (i + 1) (total + size o) rest)
  ]

  unfoldable pub parse_overrides : Spec → Checked (List Override)
  unfolding parse_items
  parse_overrides no_spec = accept []
  parse_overrides not_list = refuse not_a_list
  parse_overrides (items spec) =
      if ltb max_overrides (length spec) then refuse too_many else parse_items 0 0 spec
