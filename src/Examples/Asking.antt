-- ===== src/Examples/Asking.antt =====
-- A request with one override of each kind, whose texts take one byte for each code point.
use donut_server.Prelude.{
  ℕ, ◌≤◌, ◌≡◌, refl, Bool, false, none, some, List, [], ◌∷◌, ◌++◌, length, map, All, ◌↔◌, ◌⊎◌, true,
}
use donut_server.Bytes.{Name, Codec, list_eqb}
use donut_server.Requests.{
  accept, bearer, check_auth, absent, text, Item, object, items, Override, value_override,
  python_override, value_word, python_word, default_name, size, parse_item, parse_items,
  parse_overrides, max_overrides, max_total_bytes,
}
use donut_server.Requests.Overrides.{
  check_auth_iff, IsValid, sizes, item_of, parse_overrides-IsValid, parse_overrides-map,
}

abbrev ascii : Codec
ascii = record {
  can_encode = λ n. true;
  encode = λ n. n;
  decode = λ b. some b;
  decode-encode = λ n h. refl;
}

abbrev never_blank : Name → Bool
never_blank n = false

abbrev two_items : List Item
two_items =
    object (record {
      kind = text value_word;
      field = text (102 ∷ []);
      value = text (50 ∷ []);
      body = absent;
      name = absent;
    })
    ∷ object (record {
      kind = text python_word;
      field = absent;
      value = absent;
      body = text (120 ∷ []);
      name = absent;
    })
    ∷ []

abbrev two_overrides : List Override
two_overrides = value_override (102 ∷ []) (50 ∷ []) ∷ python_override default_name (120 ∷ []) ∷ []

parsed_both : parse_overrides ascii never_blank (items two_items) ≡ accept two_overrides
unfolding parse_overrides parse_items parse_item size list_eqb
parsed_both = refl

parse_overrides-IsValid_example :
    All (IsValid ascii never_blank) two_overrides
    × (length two_overrides ≡ length two_items)
    × (length two_overrides ≤ max_overrides)
    × (sizes ascii never_blank two_overrides ≤ max_total_bytes)
parse_overrides-IsValid_example =
    parse_overrides-IsValid ascii never_blank two_items two_overrides parsed_both

parse_overrides-map_example :
    parse_overrides ascii never_blank (items (map (item_of ascii never_blank) two_overrides))
    ≡ accept two_overrides
parse_overrides-map_example =
    parse_overrides-map ascii never_blank two_items two_overrides parsed_both

check_auth_iff_example : (check_auth false (some (120 ∷ [])) none ≡ accept tt) ↔ (
    (false ≡ true)
    ⊎ ((t : ℕ) × (rest : Name) × (some (120 ∷ []) ≡ some (t ∷ rest))
        × (none ≡ some (bearer ++ t ∷ rest))))
check_auth_iff_example = check_auth_iff false (some (120 ∷ [])) none
