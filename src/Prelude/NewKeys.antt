-- ===== src/Prelude/NewKeys.antt =====
-- Keys that a dictionary does not hold yet.
use mathlib.Core.Path.{◌≡◌, refl, sym}
use mathlib.Core.Logic.{◌⊎◌, inl, inr}
use mathlib.Core.List.{List, [], ◌∷◌}
use mathlib.Core.Option.{none}
use native.Mathlib.Omega.{arith}
use donut_server.Prelude.Tests.{if◌then◌else◌, Eq, ◌==◌, Bool-cases, ==_refl}
use donut_server.Prelude.Predicates.{All, In, Distinct}
use donut_server.Prelude.Dict.{lookup, put, keys, lookup-put}

module _ {K V W : Type 0} ⦃e : Eq K⦄ where
  -- no key of the second list is a key of the first
  abbrev pub Fresh : List (K × V) → List (K × W) → Type 0
  Fresh found parts = All (λ p. lookup p.0 found ≡ none) parts

  pub Fresh-put :
      (k : K) (v : V) (found : List (K × V)) (parts : List (K × W))
      → ¬ In k (keys parts)
      → Fresh found parts
      → Fresh (put k v found) parts
  Fresh-put k v found [] absent fresh = tt
  Fresh-put k v found (p ∷ parts) absent fresh = (
    rw lookup-put (elim (Bool-cases (k == p.0)) [
      | inl same ↦ absurd (absent (inl (sym ((e.equal_iff k p.0).0 same))))
      | inr other ↦ rw other fresh.0
    ]),
    Fresh-put k v found parts (λ m. absent (inr m)) fresh.1,
  )

module _ {K V : Type 0} ⦃e : Eq K⦄ where
  -- the second of two assignments to one key is the one that counts
  pub put-put : (k : K) (v w : V) (d : List (K × V)) → put k v (put k w d) ≡ put k v d
  unfolding put
  put-put k v w [] = ground (arith, ==_refl k)
  put-put k v w ((j, x) ∷ d) = ground (arith, put-put k v w d)

module _ {K W : Type 0} ⦃e : Eq K⦄ where
  pub Fresh-nil : (V : Type 0) (parts : List (K × W)) → Fresh {V = V} [] parts
  unfolding lookup
  Fresh-nil V [] = tt
  Fresh-nil V (p ∷ parts) = (refl, Fresh-nil V parts)

module _ {K V : Type 0} ⦃e : Eq K⦄ where
  In-keys-put :
      (k j : K) (v : V) (d : List (K × V)) → In j (keys (put k v d)) → (k ≡ j) ⊎ In j (keys d)
  unfolding put
  In-keys-put k j v [] (inl same) = inl same
  In-keys-put k j v [] (inr none_left) = absurd none_left
  In-keys-put k j v ((i, w) ∷ d) h = elim (Bool-cases (i == k)) [
    | inl same ↦ inr (rw (same, if◌then◌else◌) at h)
    | inr other ↦ elim (rw (other, if◌then◌else◌) at h) [
      | inl first ↦ inr (inl first)
      | inr later ↦ elim (In-keys-put k j v d later) [ inl new ↦ inl new | inr old ↦ inr (inr old) ]
    ]
  ]

  -- a dict has each key once
  pub Distinct-put :
      (k : K) (v : V) (d : List (K × V)) → Distinct (keys d) → Distinct (keys (put k v d))
  unfolding put
  Distinct-put k v [] h = ((λ m. m), tt)
  Distinct-put k v ((i, w) ∷ d) h = elim (Bool-cases (i == k)) [
    | inl same ↦ rw (same, if◌then◌else◌) h
    | inr other ↦
        rw (other, if◌then◌else◌)
          (
            (λ m. elim (In-keys-put k i v d m) [
              | inl new ↦ absurd (ground (arith, other, (e.equal_iff i k).1 (sym new)))
              | inr old ↦ h.0 old
            ]),
            Distinct-put k v d h.1,
          )
  ]
