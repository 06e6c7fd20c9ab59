-- ===== src/Exec/Handlers.antt =====
-- try, except and finally of code that changes module state.
use donut_server.Exec.{Outcome, ok, raise, Exec}

module _ {S E A : Type 0} where
  -- except: handler(error); what was changed before stays changed
  abbrev pub or_handle : (E → Exec S E A) → Outcome E A × S → Outcome E A × S
  or_handle handler (ok a, s) = (ok a, s)
  or_handle handler (raise e, s) = handler e s

  unfoldable pub catching : Exec S E A → (E → Exec S E A) → Exec S E A
  catching m handler s = or_handle handler (m s)

  -- what `finally` leaves: an error of its own replaces the outcome
  abbrev pub after_all : Outcome E A → Outcome E (Unit {0}) × S → Outcome E A × S
  after_all r (ok _, s) = (r, s)
  after_all r (raise e, s) = (raise e, s)

  unfoldable pub finally : Exec S E A → Exec S E (Unit {0}) → Exec S E A
  finally m cleanup s = let (r, t) = m s in after_all r (cleanup t)
