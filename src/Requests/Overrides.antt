-- ===== src/Requests/Overrides.antt =====
-- What check_auth lets in, and what _parse_overrides accepts.
use donut_server.Prelude.{
  ℕ, suc, ◌+◌, ◌≤◌, ◌≡◌, refl, ap, subst, Bool, true, false, Option, none, some, List, [], ◌∷◌,
  ◌++◌, map, ltb, if◌then◌else◌, length, All, ◌↔◌, ◌⊎◌, inl, inr, arith, Bool-cases,
}
use donut_server.Bytes.{Name, Codec, list_eqb, list_eqb_iff}
use donut_server.Requests.{
  Refusal, bad_kind, Checked, refuse, accept, bearer, check_auth, max_overrides, max_text_bytes,
  max_total_bytes, Member, absent, text, not_text, Fields, Item, object, not_object, items,
  Override, value_override, python_override, value_word, python_word, default_name, size, named,
  parse_value, bounded_text, parse_python, parse_kind, parse_item, parse_items, parse_overrides,
}

Checked-cases :
    {A : Type 0} (r : Checked A) → ((a : A) × (r ≡ accept a)) ⊎ ((why : Refusal) × (r ≡ refuse why))
Checked-cases (refuse why) = inr (why, refl)
Checked-cases (accept a) = inl (a, refl)

length-map : {A B : Type 0} (f : A → B) (xs : List A) → length (map f xs) ≡ length xs
length-map f [] = refl
length-map f (x ∷ xs) = ap suc (length-map f xs)

-- A request passes exactly when it comes from this machine, or the server has a token that is not
-- empty and the header is the word Bearer, a space and that token.
pub check_auth_iff :
    (loopback : Bool) (token header : Option Name)
    → (check_auth loopback token header ≡ accept tt) ↔ (
        (loopback ≡ true)
        ⊎ ((t : ℕ) × (rest : Name) × (token ≡ some (t ∷ rest))
            × (header ≡ some (bearer ++ t ∷ rest))))
unfolding check_auth
check_auth_iff true token header = (λ h. inl refl, λ h. refl)
check_auth_iff false none header = ground arith
check_auth_iff false (some []) header = ground arith
check_auth_iff false (some (t ∷ rest)) none = ground arith
check_auth_iff false (some (t ∷ rest)) (some header) =
    elim (Bool-cases (list_eqb header (bearer ++ t ∷ rest))) [
      | inl same ↦ (
        (λ h. inr (t, rest, refl, ap some ((list_eqb_iff header (bearer ++ t ∷ rest)).0 same))),
        (λ h. rw (same, if◌then◌else◌) refl),
      )
      | inr other ↦ (
        (λ h. absurd (ground (arith, other, h))),
        (λ h. elim h [
          | inl not_false ↦ absurd (ground arith)
          | inr found ↦
              let (u, us, e, same) = found in
              absurd (ground (arith, e, same, other, (list_eqb_iff header (bearer ++ t ∷ rest)).1))
        ]),
      )
    ]

module _ (c : Codec) (blank : Name → Bool) where
  abbrev pub IsValid : Override → Type 0
  IsValid (value_override field value) = blank field ≡ false
  IsValid (python_override name body) =
      (named c blank name ≡ name)
      × (length (c.encode body) ≤ max_text_bytes)
      × (c.can_encode body ≡ true)

  abbrev pub sizes : List Override → ℕ
  sizes [] = 0
  sizes (o ∷ out) = size c blank o + sizes out

  bounded_text-IsValid :
      (i : ℕ) (name body : Name) (o : Override)
      → named c blank name ≡ name
      → bounded_text c blank i name body ≡ accept o
      → IsValid o
  bounded_text-IsValid i name body o full h = elim (Bool-cases (c.can_encode body)) [
    | inr lone ↦ absurd (ground (arith, lone, h))
    | inl encoded ↦ elim (Bool-cases (ltb max_text_bytes (length (c.encode body)))) [
      | inl long ↦ absurd (ground (arith, encoded, long, h))
      | inr short ↦
          let e : python_override name body ≡ o = ground (arith, encoded, short, h) in
          subst IsValid e (full, ground (arith, short), encoded)
    ]
  ]

  named_twice : (name : Name) → named c blank (named c blank name) ≡ named c blank name
  named_twice [] = refl
  named_twice (n ∷ ame) = refl

  parse_python-IsValid :
      (i : ℕ) (body name : Member) (o : Override)
      → parse_python c blank i body name ≡ accept o
      → IsValid o
  parse_python-IsValid i (text body) absent o h = bounded_text-IsValid i default_name body o refl h
  parse_python-IsValid i (text body) (text name) o h =
      bounded_text-IsValid i (named c blank name) body o (named_twice name) h
  parse_python-IsValid i (text body) not_text o h = absurd (ground arith)
  parse_python-IsValid i absent name o h = absurd (ground arith)
  parse_python-IsValid i not_text name o h = absurd (ground arith)

  parse_value-IsValid :
      (i : ℕ) (field value : Member) (o : Override)
      → parse_value c blank i field value ≡ accept o
      → IsValid o
  parse_value-IsValid i (text field) (text value) o h = elim (Bool-cases (blank field)) [
    | inl empty ↦ absurd (ground (arith, empty, h))
    | inr full ↦
        let e : value_override field value ≡ o = ground (arith, full, h) in subst IsValid e full
  ]
  parse_value-IsValid i (text field) absent o h = absurd (ground arith)
  parse_value-IsValid i (text field) not_text o h = absurd (ground arith)
  parse_value-IsValid i absent value o h = absurd (ground arith)
  parse_value-IsValid i not_text value o h = absurd (ground arith)

  parse_kind-IsValid :
      (i : ℕ) (kind : Name) (f : Fields) (o : Override)
      → parse_kind c blank i kind f ≡ accept o
      → IsValid o
  parse_kind-IsValid i kind f o h = elim (Bool-cases (list_eqb kind value_word)) [
    | inl is_value ↦ parse_value-IsValid i f.field f.value o (rw (is_value, if◌then◌else◌) at h)
    | inr other ↦ elim (Bool-cases (list_eqb kind python_word)) [
      | inl is_python ↦
          parse_python-IsValid i f.body f.name o (rw (other, is_python, if◌then◌else◌) at h)
      | inr unknown ↦ absurd (ground (arith, other, unknown, h))
    ]
  ]

  parse_item-IsValid :
      (i : ℕ) (item : Item) (o : Override) → parse_item c blank i item ≡ accept o → IsValid o
  unfolding parse_item
  parse_item-IsValid i not_object o h = absurd (ground arith)
  parse_item-IsValid i (object f) o h = of_kind f.kind h
    where
      of_kind :
          (kind : Member)
          → elim kind [
            | absent ↦ refuse (bad_kind i)
            | not_text ↦ refuse (bad_kind i)
            | text word ↦ parse_kind c blank i word f
          ]
            ≡ accept o
          → IsValid o
      of_kind absent e = absurd (ground arith)
      of_kind not_text e = absurd (ground arith)
      of_kind (text word) e = parse_kind-IsValid i word f o e

  parse_items-IsValid :
      (spec : List Item) (i total : ℕ) (out : List Override)
      → parse_items c blank i total spec ≡ accept out
      → total ≤ max_total_bytes
      → All IsValid out × (length out ≡ length spec) × (total + sizes out ≤ max_total_bytes)
  unfolding parse_items
  parse_items-IsValid [] i total [] h few = (tt, refl, omega (arith, few))
  parse_items-IsValid [] i total (o ∷ out) h few = absurd (ground arith)
  parse_items-IsValid (item ∷ rest) i total out h few =
      elim (Checked-cases (parse_item c blank i item)) [
        | inr refused ↦ let (why, e) = refused in absurd (ground (arith, e, h))
        | inl parsed ↦
            let (o, e) = parsed in
            elim (Bool-cases (ltb max_total_bytes (total + size c blank o))) [
              | inl long ↦ absurd (ground (arith, e, long, h))
              | inr short ↦
                  elim (Checked-cases (parse_items c blank (i + 1) (total + size c blank o) rest)) [
                    | inr refused ↦
                        let (why, r) = refused in absurd (ground (arith, e, short, r, h))
                    | inl done ↦
                        let (out', r) = done in
                        let same : o ∷ out' ≡ out = ground (arith, e, short, r, h) in
                        let (valid, long, sum) =
                          parse_items-IsValid rest (i + 1) (total + size c blank o) out' r
                            (ground (arith, short)) in
                        subst
                          (λ q.
                            All IsValid q
                            × (length q ≡ length (item ∷ rest))
                            × (total + sizes q ≤ max_total_bytes))
                          same
                          ((parse_item-IsValid i item o e, valid), ap suc long, omega (arith, sum))
                  ]
            ]
      ]

  -- the entry of a request that says just what a normalized one does
  abbrev pub item_of : Override → Item
  item_of (value_override field value) = object (record {
    kind = text value_word;
    field = text field;
    value = text value;
    body = absent;
    name = absent;
  })
  item_of (python_override name body) = object (record {
    kind = text python_word;
    field = absent;
    value = absent;
    body = text body;
    name = text name;
  })

  parse_item-item_of :
      (i : ℕ) (o : Override) → IsValid o → parse_item c blank i (item_of o) ≡ accept o
  unfolding parse_item list_eqb
  parse_item-item_of i (value_override field value) v = rw (v, if◌then◌else◌) refl
  parse_item-item_of i (python_override name body) v =
      let short : ltb max_text_bytes (length (c.encode body)) ≡ false = ground (arith, v.1) in
      rw (v.0, v.2, short, if◌then◌else◌) refl

  parse_items-item_of :
      (out : List Override) (i total : ℕ)
      → All IsValid out
      → total + sizes out ≤ max_total_bytes
      → parse_items c blank i total (map item_of out) ≡ accept out
  unfolding parse_items
  parse_items-item_of [] i total v few = refl
  parse_items-item_of (o ∷ out) i total v few =
      let short : ltb max_total_bytes (total + size c blank o) ≡ false = ground (arith, few) in
      let later =
        parse_items-item_of out (i + 1) (total + size c blank o) v.1 (omega (arith, few)) in
      ground (arith, parse_item-item_of i o v.0, short, later)

  -- Of an accepted list each entry is valid, there is one for each entry of the request, and their
  -- number and their total, as the code counts it, keep to the limits: it counts the characters of a
  -- value's field and text, and the bytes of a python text.
  pub parse_overrides-IsValid :
      (spec : List Item) (out : List Override)
      → parse_overrides c blank (items spec) ≡ accept out
      → All IsValid out
        × (length out ≡ length spec)
        × (length out ≤ max_overrides)
        × (sizes out ≤ max_total_bytes)
  unfolding parse_overrides
  parse_overrides-IsValid spec out h = elim (Bool-cases (ltb max_overrides (length spec))) [
    | inl many ↦ absurd (ground (arith, many, h))
    | inr few ↦
        let (valid, long, sum) =
          parse_items-IsValid spec 0 0 out (rw (few, if◌then◌else◌) at h) (omega arith) in
        (valid, long, ground (arith, few, long), omega (arith, sum))
  ]

  -- A list that was accepted is accepted again, sent as it was normalized, and gives itself.
  pub parse_overrides-map :
      (spec : List Item) (out : List Override)
      → parse_overrides c blank (items spec) ≡ accept out
      → parse_overrides c blank (items (map item_of out)) ≡ accept out
  unfolding parse_overrides
  parse_overrides-map spec out h =
      let (valid, _, few, sum) = parse_overrides-IsValid spec out h in
      let short : ltb max_overrides (length (map item_of out)) ≡ false =
        ground (arith, few, length-map item_of out) in
      rw (short, if◌then◌else◌) (parse_items-item_of out 0 0 valid (omega (arith, sum)))
