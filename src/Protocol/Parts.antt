-- ===== src/Protocol/Parts.antt =====
-- `part_name` and `split_parts` of protocol.py: two parts for a sensor, `:img` and `:meta`.
use donut_server.Prelude.{
  ◌+◌, ◌-◌, ◌≡◌, refl, sym, ap, ◌∙◌, Bool, true, false, Option, none, some, List, [], ◌∷◌, ◌++◌,
  ltb, if◌then◌else◌, length, take, drop, lookup, put, arith, keys, Distinct, lookup-put,
  put_absent, length-append, take-append_length, drop-append_length, ==_refl, Fresh, Fresh-put,
  Fresh-nil, put-put, append-nil, append_assoc,
}
use donut_server.Bytes.{Bytes, Name, name_eq, list_eqb, drop-add}
use donut_server.Protocol.{Result, ok, err, ◌>>=◌, no_suffix, missing_part}

-- ":img" and ":meta"
abbrev pub img_suffix : Name
img_suffix = b':' ∷ b'i' ∷ b'm' ∷ b'g' ∷ []

abbrev pub meta_suffix : Name
meta_suffix = b':' ∷ b'm' ∷ b'e' ∷ b't' ∷ b'a' ∷ []

unfoldable pub part_name : Name → Name → Name
part_name sensor suffix = sensor ++ suffix

-- name.endswith(suffix)
unfoldable pub ends_with : Name → Name → Bool
ends_with name suffix =
    if ltb (length name) (length suffix)
    then false
    else list_eqb (drop (length name - length suffix) name) suffix

-- name[: -len(suffix)]
unfoldable pub without_suffix : Name → Name → Name
without_suffix name suffix = take (length name - length suffix) name

-- What was found for one sensor: the dict under its name in `grouped`.
pub record Found : Type 0 where
  pub img : Option Bytes
  pub meta : Option Bytes

abbrev pub nothing_found : Found
nothing_found = record { img = none; meta = none }

-- grouped.setdefault(sensor, {})
unfoldable pub found_for : Name → List (Name × Found) → Found
found_for sensor grouped = elim (lookup sensor grouped) [ none ↦ nothing_found | some f ↦ f ]

-- the first loop
unfoldable pub group_parts :
    List (Name × Bytes) → List (Name × Found) → Result (List (Name × Found))
group_parts [] grouped = ok grouped
group_parts ((name, payload) ∷ parts) grouped =
    let img_of = without_suffix name img_suffix in
    let meta_of = without_suffix name meta_suffix in
    let with_img =
      group_parts parts
        (put img_of (record (found_for img_of grouped) { img = some payload }) grouped) in
    let with_meta =
      group_parts parts
        (put meta_of (record (found_for meta_of grouped) { meta = some payload }) grouped) in
    if ends_with name img_suffix
    then with_img
    else if ends_with name meta_suffix
    then with_meta
    else err no_suffix

both_parts : Found → Result (Bytes × Bytes)
both_parts f = elim f.img [
  | none ↦ err missing_part
  | some i ↦ elim f.meta [ none ↦ err missing_part | some m ↦ ok (i, m) ]
]

-- the second loop
unfoldable pub pair_parts : List (Name × Found) → Result (List (Name × (Bytes × Bytes)))
unfolding both_parts
pair_parts [] = ok []
pair_parts ((sensor, f) ∷ grouped) = do
  pair ← both_parts f
  rest ← pair_parts grouped
  ok ((sensor, pair) ∷ rest)

unfoldable pub split_parts : List (Name × Bytes) → Result (List (Name × (Bytes × Bytes)))
split_parts parts = do grouped ← group_parts parts []; pair_parts grouped

-- the parts that a producer packs for its sensors
abbrev pub parts_for : List (Name × (Bytes × Bytes)) → List (Name × Bytes)
parts_for [] = []
parts_for ((sensor, (img, meta)) ∷ sensors) =
    (part_name sensor img_suffix, img) ∷ (part_name sensor meta_suffix, meta) ∷ parts_for sensors

ends_with-append : (name suffix : Name) → ends_with (name ++ suffix) suffix ≡ true
unfolding ends_with
ends_with-append name suffix =
    let n : length (name ++ suffix) - length suffix ≡ length name =
      omega (arith, length-append name suffix) in
    let long = length-append name suffix in
    rw (n, drop-append_length name suffix, ==_refl ⦃e = name_eq⦄ suffix) (ground arith)

without_suffix-append : (name suffix : Name) → without_suffix (name ++ suffix) suffix ≡ name
unfolding without_suffix
without_suffix-append name suffix =
    let n : length (name ++ suffix) - length suffix ≡ length name =
      omega (arith, length-append name suffix) in
    rw n (take-append_length name suffix)

-- a name that ends in ":meta" does not end in ":img"
meta_no_img : (sensor : Name) → ends_with (sensor ++ meta_suffix) img_suffix ≡ false
unfolding ends_with list_eqb
meta_no_img sensor =
    let n : length (sensor ++ meta_suffix) - 4 ≡ length sensor + 1 =
      omega (arith, length-append sensor meta_suffix) in
    let long = length-append sensor meta_suffix in
    let tail : drop (length sensor + 1) (sensor ++ meta_suffix) ≡ b'm' ∷ b'e' ∷ b't' ∷ b'a' ∷ [] =
      drop-add (length sensor) 1 (sensor ++ meta_suffix)
      ∙ ap (drop 1) (drop-append_length sensor meta_suffix) in
    rw (n, tail) (ground arith)

-- what the first loop holds after the sensors
abbrev grouped_of : List (Name × (Bytes × Bytes)) → List (Name × Found)
grouped_of [] = []
grouped_of ((sensor, (i, m)) ∷ sensors) =
    (sensor, record { img = some i; meta = some m }) ∷ grouped_of sensors

group_parts-parts_for :
    (sensors : List (Name × (Bytes × Bytes))) (grouped : List (Name × Found))
    → Distinct (keys sensors)
    → Fresh grouped sensors
    → group_parts (parts_for sensors) grouped ≡ ok (grouped ++ grouped_of sensors)
unfolding group_parts part_name found_for
group_parts-parts_for [] grouped d fresh = ap ok (sym (append-nil grouped))
group_parts-parts_for ((sensor, (i, m)) ∷ sensors) grouped d fresh =
    let half : Found = record { img = some i; meta = none } in
    let both : Found = record { img = some i; meta = some m } in
    let found_first : found_for sensor grouped ≡ nothing_found = ground arith in
    let found_second : found_for sensor (put sensor half grouped) ≡ half =
      rw (found_for, lookup-put, ==_refl ⦃e = name_eq⦄ sensor) in
    let ih =
      group_parts-parts_for sensors (put sensor both grouped) d.1
        (Fresh-put sensor both grouped sensors d.0 fresh.1) in
    rw
      (
        ends_with-append sensor img_suffix,
        meta_no_img sensor,
        ends_with-append sensor meta_suffix,
        without_suffix-append sensor img_suffix,
        without_suffix-append sensor meta_suffix,
      )
      (rw (found_first, found_second, put-put)
        (ih
          ∙ ap (λ g. ok (g ++ grouped_of sensors)) (put_absent sensor both grouped fresh.0)
          ∙ ap ok (append_assoc grouped ((sensor, both) ∷ []) (grouped_of sensors))))

pair_parts-grouped_of :
    (sensors : List (Name × (Bytes × Bytes))) → pair_parts (grouped_of sensors) ≡ ok sensors
unfolding pair_parts
pair_parts-grouped_of [] = refl
pair_parts-grouped_of ((sensor, (i, m)) ∷ sensors) = rw (pair_parts-grouped_of sensors)

-- Splitting the parts of distinct sensors gives each sensor its two payloads, in order.
pub split_parts-parts_for :
    (sensors : List (Name × (Bytes × Bytes)))
    → Distinct (keys sensors)
    → split_parts (parts_for sensors) ≡ ok sensors
unfolding split_parts
split_parts-parts_for sensors d =
    rw (group_parts-parts_for sensors [] d (Fresh-nil Found sensors))
      (pair_parts-grouped_of sensors)
