-- ===== src/Exec.antt =====
-- Code that changes module state and may raise: what was changed before a raise stays changed. The
-- triples say what holds after a return and after a raise.
pub mod Raise
pub mod Handlers
use donut_server.Prelude.{◌≡◌, refl, ap, subst, ◌⊎◌, inl, inr}

pub data Outcome (E A : Type 0) : Type 0 where
  ok : A → Outcome E A
  raise : E → Outcome E A

abbrev pub Exec : Type 0 → Type 0 → Type 0 → Type 0
Exec S E A = S → Outcome E A × S

module _ {S E A B : Type 0} where
  abbrev pub continue : Outcome E A → (A → Exec S E B) → Exec S E B
  continue (ok a) f s = f a s
  continue (raise e) f s = (raise e, s)

  infixl 5 ◌>>=◌ ◌>>◌
  unfoldable pub ◌>>=◌ : Exec S E A → (A → Exec S E B) → Exec S E B
  ◌>>=◌ m f s = let (r, s') = m s in continue r f s'

  abbrev pub ◌>>◌ : Exec S E A → Exec S E B → Exec S E B
  m >> n = m >>= λ _. n

module _ {S E A : Type 0} where
  unfoldable pub pure : A → Exec S E A
  pure a s = (ok a, s)

  unfoldable pub lift : Outcome E A → Exec S E A
  lift r s = (r, s)

  unfoldable pub gets : (S → A) → Exec S E A
  gets f s = (ok (f s), s)

module _ {S E : Type 0} where
  unfoldable pub modify : (S → S) → Exec S E (Unit {0})
  modify f s = (ok tt, f s)

-- what holds of the result and of the state after a call
abbrev pub After : {S E A : Type 0} → (A → S → Type 0) → (S → Type 0) → Outcome E A × S → Type 0
After Q R (ok a, s) = Q a s
After Q R (raise e, s) = R s

-- From a state with `P`, a return leaves `Q`, and a raise leaves `R`.
pub record Triple {S E A : Type 0} (P : S → Type 0) (m : Exec S E A) (Q : A → S → Type 0)
    (R : S → Type 0) : Type 0 where
  pub run : (s : S) → P s → After Q R (m s)

module _ {S E A : Type 0} {R : S → Type 0} where
  After-continue :
      {B : Type 0} (Q : A → S → Type 0) (Q' : B → S → Type 0) (f : A → Exec S E B) (r : Outcome E A)
      (s : S)
      → ((a : A) → Triple (Q a) (f a) Q' R)
      → After Q R (r, s)
      → After Q' R (continue r f s)
  After-continue Q Q' f (ok a) s k h = (k a).run s h
  After-continue Q Q' f (raise e) s k h = h

module _ {S E A : Type 0} {P R : S → Type 0} where
  pub Triple-bind :
      {B : Type 0} (Q : A → S → Type 0) (Q' : B → S → Type 0) (m : Exec S E A) (f : A → Exec S E B)
      → Triple P m Q R
      → ((a : A) → Triple (Q a) (f a) Q' R)
      → Triple P (m >>= f) Q' R
  unfolding ◌>>=◌
  Triple-bind Q Q' m f t k = record {
    run = λ s h. After-continue Q Q' f (m s).0 (m s).1 k (t.run s h);
  }

pub ok_inj : {E A : Type 0} {a b : A} → ◌≡◌ {A = Outcome E A} (ok a) (ok b) → a ≡ b
ok_inj h = cc

pub Outcome-cases :
    {E A : Type 0} (r : Outcome E A) → ((a : A) × (r ≡ ok a)) ⊎ ((e : E) × (r ≡ raise e))
Outcome-cases (ok a) = inl (a, refl)
Outcome-cases (raise e) = inr (e, refl)

module _ {S E A : Type 0} (R : S → Type 0) (Q Q' : A → S → Type 0) where
  After-weaken :
      (r : Outcome E A) (s : S) → ((a : A) → Q a s → Q' a s) → After Q R (r, s) → After Q' R (r, s)
  After-weaken (ok a) s k h = k a h
  After-weaken (raise e) s k h = h

  pub Triple-weaken :
      (P : S → Type 0) (m : Exec S E A)
      → Triple P m Q R
      → ((a : A) (s : S) → Q a s → Q' a s)
      → Triple P m Q' R
  Triple-weaken P m t k = record {
    run = λ s h. After-weaken (m s).0 (m s).1 (λ a. k a (m s).1) (t.run s h);
  }

module _ {E A B : Type 0} where
  -- a step of code that raises and changes nothing
  abbrev pub on_ok : Outcome E A → (A → Outcome E B) → Outcome E B
  on_ok (raise e) f = raise e
  on_ok (ok a) f = f a

  pub on_ok-eq-ok :
      (r : Outcome E A) (f : A → Outcome E B) {b : B}
      → on_ok r f ≡ ok b
      → (a : A) × (r ≡ ok a) × (f a ≡ ok b)
  on_ok-eq-ok (raise e) f h = cc
  on_ok-eq-ok (ok a) f h = (a, refl, h)

module _ {S E A B : Type 0} where
  continue-eq-ok :
      (r : Outcome E A) (f : A → Exec S E B) (s s' : S) {b : B}
      → continue r f s ≡ (ok b, s')
      → (a : A) × (r ≡ ok a) × (f a s ≡ (ok b, s'))
  continue-eq-ok (ok a) f s s' h = (a, refl, h)
  continue-eq-ok (raise e) f s s' h = cc

  -- the steps of a call that returned
  pub bind-eq-ok :
      (m : Exec S E A) (f : A → Exec S E B) (s s' : S) {b : B}
      → (m >>= f) s ≡ (ok b, s')
      → (a : A) × (t : S) × (m s ≡ (ok a, t)) × (f a t ≡ (ok b, s'))
  unfolding ◌>>=◌
  bind-eq-ok m f s s' h =
      let (a, e, k) = continue-eq-ok (m s).0 f (m s).1 s' h in
      (a, (m s).1, ap (λ r. (r, (m s).1)) e, k)

  pub lift-bind-eq-ok :
      (r : Outcome E A) (f : A → Exec S E B) (s s' : S) {b : B}
      → (lift r >>= f) s ≡ (ok b, s')
      → (a : A) × (r ≡ ok a) × (f a s ≡ (ok b, s'))
  unfolding ◌>>=◌ lift
  lift-bind-eq-ok r f s s' h = continue-eq-ok r f s s' h

module _ {S E A : Type 0} where
  pub After-eq-ok :
      (Q : A → S → Type 0) (R : S → Type 0) (x : Outcome E A × S) (a : A)
      → After Q R x
      → x.0 ≡ ok a
      → Q a x.1
  After-eq-ok Q R (r, s) a h e = subst (λ r. After Q R (r, s)) e h
