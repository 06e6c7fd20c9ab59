-- ===== src/Prelude/Dict.antt =====
-- Python's `dict` and `OrderedDict`: an association list in insertion order, the oldest first.
use Prim.Native.Nat.{ℕ, suc, ◌+◌, ◌≤◌}
use mathlib.Core.Path.{◌≡◌, refl, sym, subst}
use mathlib.Core.Logic.{inl, inr}
use mathlib.Core.List.{List, [], ◌∷◌, ◌++◌, map}
use mathlib.Core.Option.{Option, none, some}
use native.Mathlib.Omega.{arith}
use donut_server.Prelude.Tests.{Eq, ◌==◌, if◌then◌else◌, ltb, ==_refl, Bool-cases, Option-cases}
use donut_server.Prelude.Lists.{length, length-append}
use donut_server.Prelude.Predicates.{All, All-append}

module _ {ℓ κ} {K : Type ℓ} {V : Type κ} where
  abbrev pub keys : List (K × V) → List K
  keys d = map (λ e. e.0) d

  -- while len(d) > cap: d.popitem(last=False)
  unfoldable pub evict : ℕ → List (K × V) → List (K × V)
  evict size [] = []
  evict size (e ∷ d) = let rest = evict size d in if ltb size (length (e ∷ d)) then rest else e ∷ d

  pub length-evict-le : (size : ℕ) (d : List (K × V)) → length (evict size d) ≤ size
  unfolding evict
  length-evict-le size [] = omega arith
  length-evict-le size (e ∷ d) = ground (arith, length-evict-le size d)

  pub evict_small : (size : ℕ) (d : List (K × V)) → length d ≤ size → evict size d ≡ d
  unfolding evict
  evict_small size [] h = refl
  evict_small size (e ∷ d) h = ground arith

  pub All-evict {μ} :
      (P : K × V → Type μ) (size : ℕ) (d : List (K × V)) → All P d → All P (evict size d)
  unfolding evict
  All-evict P size [] h = h
  All-evict P size (e ∷ d) h = elim (Bool-cases (ltb size (length (e ∷ d)))) [
    | inl over ↦ rw over (All-evict P size d h.1)
    | inr fits ↦ rw fits h
  ]

module _ {ℓ κ} {K : Type ℓ} {V : Type κ} ⦃e : Eq K⦄ where
  -- d.get(k)
  unfoldable pub lookup : K → List (K × V) → Option V
  lookup k [] = none
  lookup k ((j, v) ∷ d) = if j == k then some v else lookup k d

  -- d.pop(k, None)
  unfoldable pub erase : K → List (K × V) → List (K × V)
  erase k [] = []
  erase k ((j, v) ∷ d) = let rest = erase k d in if j == k then rest else (j, v) ∷ rest

  -- d[k] = v: a known key keeps its place, a new one goes to the end
  unfoldable pub put : K → V → List (K × V) → List (K × V)
  put k v [] = (k, v) ∷ []
  put k v ((j, w) ∷ d) = if j == k then (j, v) ∷ d else (j, w) ∷ put k v d

  -- d.move_to_end(k), for a key that is there
  abbrev move_found : Option V → K → List (K × V) → List (K × V)
  move_found none k d = d
  move_found (some v) k d = erase k d ++ (k, v) ∷ []

  unfoldable pub move_to_end : K → List (K × V) → List (K × V)
  move_to_end k d = move_found (lookup k d) k d

  pub lookup-erase :
      (k j : K) (d : List (K × V)) → lookup j (erase k d) ≡ (if k == j then none else lookup j d)
  unfolding lookup erase
  lookup-erase k j [] = ground arith
  lookup-erase k j ((i, v) ∷ d) =
      ground (arith, lookup-erase k j d, e.equal_iff i k, e.equal_iff i j, e.equal_iff k j)

  pub lookup-put :
      (k j : K) (v : V) (d : List (K × V))
      → lookup j (put k v d) ≡ (if k == j then some v else lookup j d)
  unfolding lookup put
  lookup-put k j v [] = refl
  lookup-put k j v ((i, w) ∷ d) =
      ground (arith, lookup-put k j v d, e.equal_iff i k, e.equal_iff i j, e.equal_iff k j)

  pub lookup-append :
      (j : K) (c d : List (K × V))
      → lookup j (c ++ d) ≡ elim (lookup j c) [ none ↦ lookup j d | some v ↦ some v ]
  unfolding lookup
  lookup-append j [] d = refl
  lookup-append j ((i, v) ∷ c) d = ground (arith, lookup-append j c d)

  pub lookup-move_to_end : (k j : K) (d : List (K × V)) → lookup j (move_to_end k d) ≡ lookup j d
  unfolding move_to_end lookup
  lookup-move_to_end k j d = elim (Option-cases (lookup k d)) [
    | inl absent ↦ rw (absent, move_found)
    | inr found ↦
        let (v, at) = found in
        ground (
          arith,
          at,
          lookup-erase k j d,
          lookup-append j (erase k d) ((k, v) ∷ []),
          e.equal_iff k j,
        )
  ]

  -- Eviction down to a positive size never drops the entry that was put last.
  pub lookup-evict_last :
      (size : ℕ) (k : K) (v : V) (d : List (K × V))
      → lookup k d ≡ none
      → lookup k (evict (suc size) (d ++ (k, v) ∷ [])) ≡ some v
  unfolding lookup evict
  lookup-evict_last size k v [] h = ground (arith, ==_refl k)
  lookup-evict_last size k v ((j, w) ∷ d) h =
      ground
        (arith, lookup-evict_last size k v d, ==_refl k, lookup-append k ((j, w) ∷ d) ((k, v) ∷ []))

  pub put_absent :
      (k : K) (v : V) (d : List (K × V)) → lookup k d ≡ none → put k v d ≡ d ++ (k, v) ∷ []
  unfolding lookup put
  put_absent k v [] h = refl
  put_absent k v ((j, w) ∷ d) h = ground (arith, put_absent k v d)

  pub erase_absent : (k : K) (d : List (K × V)) → lookup k d ≡ none → erase k d ≡ d
  unfolding lookup erase
  erase_absent k [] h = refl
  erase_absent k ((j, v) ∷ d) h = ground (arith, erase_absent k d)

  pub length-erase-le : (k : K) (d : List (K × V)) → length (erase k d) ≤ length d
  unfolding erase
  length-erase-le k [] = omega arith
  length-erase-le k ((j, v) ∷ d) = ground (arith, length-erase-le k d)

  erase-present-le :
      (k : K) (v : V) (d : List (K × V)) → lookup k d ≡ some v → length (erase k d) + 1 ≤ length d
  unfolding erase lookup
  erase-present-le k v [] h = ground arith
  erase-present-le k v ((j, w) ∷ d) h = elim (Bool-cases (j == k)) [
    | inl same ↦ rw (same, if◌then◌else◌) (omega (arith, length-erase-le k d))
    | inr other ↦ rw (other, if◌then◌else◌) (omega (arith, erase-present-le k v d (ground arith)))
  ]

  pub length-put-le : (k : K) (v : V) (d : List (K × V)) → length (put k v d) ≤ length d + 1
  unfolding put
  length-put-le k v [] = omega arith
  length-put-le k v ((j, w) ∷ d) = ground (arith, length-put-le k v d)

  pub length-move_to_end-le : (k : K) (d : List (K × V)) → length (move_to_end k d) ≤ length d
  unfolding move_to_end
  length-move_to_end-le k d = elim (Option-cases (lookup k d)) [
    | inl absent ↦ rw (absent, move_found) (omega arith)
    | inr found ↦
        let (v, at) = found in
        rw (at, move_found)
          (omega (arith, length-append (erase k d) ((k, v) ∷ []), erase-present-le k v d at))
  ]

  -- What holds of every entry holds of the one that a lookup finds.
  pub lookup-All {μ} :
      (P : K × V → Type μ) (k : K) (v : V) (d : List (K × V))
      → All P d
      → lookup k d ≡ some v
      → P (k, v)
  unfolding lookup
  lookup-All P k v [] h at = absurd (cc)
  lookup-All P k v ((j, w) ∷ d) h at = elim (Bool-cases (j == k)) [
    | inl same ↦
        let p : ◌≡◌ {A = K × V} (j, w) (k, v) = ground (arith, e.equal_iff j k) in subst P p h.0
    | inr other ↦ lookup-All P k v d h.1 (rw other at at)
  ]

  pub All-erase {μ} : (P : K × V → Type μ) (k : K) (d : List (K × V)) → All P d → All P (erase k d)
  unfolding erase
  All-erase P k [] h = h
  All-erase P k ((j, w) ∷ d) h = elim (Bool-cases (j == k)) [
    | inl same ↦ rw same (All-erase P k d h.1)
    | inr other ↦ rw other (h.0, All-erase P k d h.1)
  ]

  pub All-put {μ} :
      (P : K × V → Type μ) (k : K) (v : V) (d : List (K × V))
      → All P d
      → P (k, v)
      → All P (put k v d)
  unfolding put
  All-put P k v [] h p = (p, tt)
  All-put P k v ((j, w) ∷ d) h p = elim (Bool-cases (j == k)) [
    | inl same ↦ rw same (subst (λ i. P (i, v)) (sym ((e.equal_iff j k).0 same)) p, h.1)
    | inr other ↦ rw other (h.0, All-put P k v d h.1 p)
  ]

  pub All-move_to_end {μ} :
      (P : K × V → Type μ) (k : K) (d : List (K × V)) → All P d → All P (move_to_end k d)
  unfolding move_to_end
  All-move_to_end P k d h = elim (Option-cases (lookup k d)) [
    | inl absent ↦ rw (absent, move_found) h
    | inr found ↦
        let (v, at) = found in
        rw (at, move_found)
          (All-append P (erase k d) ((k, v) ∷ []) (All-erase P k d h) (lookup-All P k v d h at, tt))
  ]
