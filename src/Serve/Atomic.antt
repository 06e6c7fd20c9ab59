-- ===== src/Serve/Atomic.antt =====
-- The writes of coordinator.py and a process that is killed in one of them: what the paths name.
use donut_server.Prelude.{
  ℕ, zero, suc, ◌<◌, ◌≡◌, refl, sym, ap, ◌∙◌, ◌≢◌, ◌⊎◌, inl, inr, Option, none, some, List, [], ◌∷◌,
  ◌++◌, map, arith, take, length, lookup, put, erase, lookup-put, lookup-erase, ◌==◌, ==_refl,
  append_assoc, length-append, subst, false, append-nil, Bool-cases,
}
use donut_server.Bytes.{Bytes, Name, name_eq, list_eqb_iff}
use donut_server.Serve.Files.{
  Disk, Act, append, replace, tmp_path, content, act, perform, write_acts, written,
}

-- A path names what it named, or it is the write's and names the whole payload.
abbrev pub Whole : Name → Bytes → Name → Disk → Disk → Type 0
Whole final payload path before after =
    (lookup path after ≡ lookup path before) ⊎ ((path ≡ final) × (lookup path after ≡ some payload))

-- the acts after the creation
abbrev rest_acts : Name → Bytes → List Act
rest_acts final payload =
    map (append (tmp_path final)) payload ++ replace (tmp_path final) final ∷ []

take-nil : (n : ℕ) → take {A = Act} n [] ≡ []
take-nil zero = refl
take-nil (suc n) = refl

put-apart :
    (k j : Name) (v : Bytes) (d : Disk) → (k == j) ≡ false → lookup j (put k v d) ≡ lookup j d
put-apart k j v d h = ground (arith, lookup-put k j v d)

-- one more byte of the temporary file
appended :
    (tmp : Name) (b : ℕ) (acc : Bytes) (disk : Disk)
    → lookup tmp disk ≡ some acc
    → lookup tmp (act (append tmp b) disk) ≡ some (acc ++ b ∷ [])
unfolding act content
appended tmp b acc disk h =
    let held : content tmp disk ≡ acc = ground (arith, h) in
    ground
      (arith, held, lookup-put tmp tmp (content tmp disk ++ b ∷ []) disk, ==_refl ⦃e = name_eq⦄ tmp)

-- os.replace of a temporary file with the contents `acc`
replaced-Whole :
    (final path : Name) (acc : Bytes) (disk : Disk)
    → (tmp_path final == path) ≡ false
    → lookup (tmp_path final) disk ≡ some acc
    → Whole final acc path disk (act (replace (tmp_path final) final) disk)
unfolding act content
replaced-Whole final path acc disk apart h =
    let gone = erase (tmp_path final) disk in
    let kept : lookup path gone ≡ lookup path disk =
      ground (arith, lookup-erase (tmp_path final) path disk) in
    let held : content (tmp_path final) disk ≡ acc = ground (arith, h) in
    subst (λ c. Whole final acc path disk (put final c gone)) (sym held)
      (elim (Bool-cases (final == path)) [
        | inl same ↦
            let e : path ≡ final = sym ((list_eqb_iff final path).0 same) in
            inr (e, ground (arith, same, lookup-put final path acc gone))
        | inr other ↦ inl (put-apart final path acc gone other ∙ kept)
      ])

-- what they leave, from the contents `acc` of the temporary file
take-rest_acts-Whole :
    (final path : Name) (payload acc : Bytes) (stop : ℕ) (disk : Disk)
    → (tmp_path final == path) ≡ false
    → lookup (tmp_path final) disk ≡ some acc
    → Whole final (acc ++ payload) path disk (perform (take stop (rest_acts final payload)) disk)
unfolding perform act content
take-rest_acts-Whole final path payload acc zero disk apart h = inl refl
take-rest_acts-Whole final path [] acc (suc stop) disk apart h =
    rw (take-nil stop, append-nil acc) (replaced-Whole final path acc disk apart h)
take-rest_acts-Whole final path (b ∷ payload) acc (suc stop) disk apart h =
    let tmp = tmp_path final in
    let kept : lookup path (put tmp (content tmp disk ++ b ∷ []) disk) ≡ lookup path disk =
      put-apart tmp path (content tmp disk ++ b ∷ []) disk apart in
    let ih =
      take-rest_acts-Whole final path payload (acc ++ b ∷ []) stop _ apart
        (appended tmp b acc disk h) in
    elim ih [
      | inl same ↦ inl (same ∙ kept)
      | inr (e, whole) ↦ inr (e, whole ∙ ap some (append_assoc acc (b ∷ []) payload))
    ]

take-length : (acts : List Act) → take (length acts) acts ≡ acts
take-length [] = refl
take-length (a ∷ acts) = ap (◌∷◌ a) (take-length acts)

apart-false : (final path : Name) → path ≢ tmp_path final → (tmp_path final == path) ≡ false
apart-false final path other = elim (Bool-cases (tmp_path final == path)) [
  | inl same ↦ absurd (other (sym ((list_eqb_iff (tmp_path final) path).0 same)))
  | inr differ ↦ differ
]

take-write_acts-Whole :
    (stop : ℕ) (final path : Name) (payload : Bytes) (disk : Disk)
    → (tmp_path final == path) ≡ false
    → Whole final payload path disk (perform (take stop (write_acts final payload)) disk)
unfolding write_acts perform act
take-write_acts-Whole zero final path payload disk apart = inl refl
take-write_acts-Whole (suc stop) final path payload disk apart =
    let tmp = tmp_path final in
    let created : lookup tmp (put tmp [] disk) ≡ some [] =
      ground (arith, lookup-put tmp tmp [] disk, ==_refl ⦃e = name_eq⦄ tmp) in
    elim (take-rest_acts-Whole final path payload [] stop (put tmp [] disk) apart created) [
      | inl same ↦ inl (same ∙ put-apart tmp path [] disk apart)
      | inr whole ↦ inr whole
    ]

-- Whenever a write stops, and however much of it was done, every path but the temporary one names
-- what it named before, or it is the write's own path and names the whole payload.
pub written-Whole :
    (stop : Option ℕ) (final path : Name) (payload : Bytes) (disk : Disk)
    → path ≢ tmp_path final
    → Whole final payload path disk (written stop final payload disk)
unfolding written
written-Whole none final path payload disk other =
    subst (λ acts. Whole final payload path disk (perform acts disk))
      (take-length (write_acts final payload))
      (take-write_acts-Whole (length (write_acts final payload)) final path payload disk
        (apart-false final path other))
written-Whole (some stop) final path payload disk other =
    take-write_acts-Whole stop final path payload disk (apart-false final path other)

perform-rest_acts :
    (final : Name) (payload acc : Bytes) (disk : Disk)
    → lookup (tmp_path final) disk ≡ some acc
    → lookup final (perform (rest_acts final payload) disk) ≡ some (acc ++ payload)
unfolding perform act content
perform-rest_acts final [] acc disk h =
    let held : content (tmp_path final) disk ≡ acc = ground (arith, h) in
    let gone = erase (tmp_path final) disk in
    let put_there =
      subst (λ c. lookup final (put final c gone) ≡ some acc) (sym held)
        (ground (arith, lookup-put final final acc gone, ==_refl ⦃e = name_eq⦄ final)) in
    rw (append-nil acc) put_there
perform-rest_acts final (b ∷ payload) acc disk h =
    perform-rest_acts final payload (acc ++ b ∷ []) _ (appended (tmp_path final) b acc disk h)
    ∙ ap some (append_assoc acc (b ∷ []) payload)

-- a write that is not cut short
pub written_complete :
    (final : Name) (payload : Bytes) (disk : Disk)
    → lookup final (written none final payload disk) ≡ some payload
unfolding written write_acts perform act
written_complete final payload disk =
    let tmp = tmp_path final in
    perform-rest_acts final payload [] (put tmp [] disk)
      (ground (arith, lookup-put tmp tmp [] disk, ==_refl ⦃e = name_eq⦄ tmp))

-- paths of other lengths than the write's
pub written_elsewhere :
    (stop : Option ℕ) (final path : Name) (payload : Bytes) (disk : Disk)
    → length path < length final
    → lookup path (written stop final payload disk) ≡ lookup path disk
unfolding tmp_path
written_elsewhere stop final path payload disk short =
    let longer = length-append final (b'.' ∷ b't' ∷ b'm' ∷ b'p' ∷ []) in
    elim (written-Whole stop final path payload disk
      (λ e. absurd (omega (arith, ap length e, longer)))) [
        | inl same ↦ same
        | inr (e, whole) ↦ absurd (omega (arith, ap length e))
      ]
