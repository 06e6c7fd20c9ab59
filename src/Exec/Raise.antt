-- ===== src/Exec/Raise.antt =====
-- Code that may raise and changes no module state: a `do` block over Outcome, and its inversions.
use donut_server.Prelude.{◌≡◌, refl, Bool, true, false, Option, none, some, arith}
use donut_server.Exec.{Outcome, ok, raise, on_ok, on_ok-eq-ok}

module _ {E A B : Type 0} where
  infixl 5 ◌>>=◌
  abbrev pub ◌>>=◌ : Outcome E A → (A → Outcome E B) → Outcome E B
  r >>= f = on_ok r f

  pub >>=-eq-ok :
      (r : Outcome E A) (f : A → Outcome E B) {b : B}
      → (r >>= f) ≡ ok b
      → (a : A) × (r ≡ ok a) × (f a ≡ ok b)
  >>=-eq-ok r f h = on_ok-eq-ok r f h

module _ {E : Type 0} where
  -- if not test: raise error
  abbrev pub check : Bool → E → Outcome E (Unit {0})
  check true why = ok tt
  check false why = raise why

module _ {E A : Type 0} where
  infixl 5 ◌>>◌
  abbrev pub ◌>>◌ : Outcome E (Unit {0}) → Outcome E A → Outcome E A
  r >> s = r >>= λ _. s

  -- what is there, or the error
  abbrev pub require : Option A → E → Outcome E A
  require none why = raise why
  require (some a) why = ok a

  pub check-eq-ok :
      (test : Bool) (why : E) (s : Outcome E A) {a : A}
      → (check test why >> s) ≡ ok a
      → (test ≡ true) × (s ≡ ok a)
  check-eq-ok true why s h = (refl, h)
  check-eq-ok false why s h = absurd (ground arith)

  pub require-eq-ok : (o : Option A) (why : E) {a : A} → require o why ≡ ok a → o ≡ some a
  require-eq-ok none why h = absurd (ground arith)
  require-eq-ok (some a) why h = ground arith
