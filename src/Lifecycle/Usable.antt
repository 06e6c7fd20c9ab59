-- ===== src/Lifecycle/Usable.antt =====
-- Which coordinators `Coord._ensure_usable` lets a command through to.
use donut_server.Prelude.{◌≡◌, Option, none, some, ◌↔◌, ◌⊎◌, inl, inr, arith, refl, subst}
use donut_server.Flights.{CoordState, starting, ready, restarting, degraded, stopping}
use donut_server.Lifecycle.{
  Coord, Reason, Usability, usable, is_in, state_check, after_wait, ensure_usable,
}

state_check_iff :
    (s : CoordState) (reason : Option Reason) (wait : Usability)
    → (state_check s reason wait ≡ usable) ↔ ((s ≡ ready) ⊎ ((s ≡ starting) × (wait ≡ usable)))
state_check_iff ready reason wait = (λ h. inl refl, λ h. refl)
state_check_iff degraded reason wait = ground arith
state_check_iff restarting reason wait = ground arith
state_check_iff stopping reason wait = ground arith
state_check_iff starting reason wait = ground arith

module _ {Command : Type 0} where
  after_wait_iff :
      (after : Option (Coord Command))
      → (after_wait after ≡ usable) ↔ ((d : Coord Command) × (after ≡ some d) × (d.state ≡ ready))
  after_wait_iff none = ((λ h. absurd (ground arith)), (λ (d, e, up). absurd (ground (arith, e))))
  after_wait_iff (some d) =
      let tests = state_check_iff d.state d.degraded_reason (is_in starting) in
      (
        (λ h. elim (tests.0 h) [
          | inl up ↦ (d, refl, up)
          | inr waits ↦ absurd (ground (arith, waits.1))
        ]),
        (λ (x, e, up).
            let same : x ≡ d = ground (arith, e) in
            tests.1 (inl (subst (λ q. q.state ≡ ready) same up))),
      )

  -- A command is let through exactly when the coordinator is ready, or was starting and is ready
  -- after the wait.
  ensure_usable_iff :
      (after : Option (Coord Command)) (c : Coord Command)
      → (ensure_usable after c ≡ usable) ↔ (
          (c.state ≡ ready)
          ⊎ ((c.state ≡ starting) × (d : Coord Command) × (after ≡ some d) × (d.state ≡ ready)))
  unfolding ensure_usable
  ensure_usable_iff after c =
      let tests = state_check_iff c.state c.degraded_reason (after_wait after) in
      (
        (λ h. elim (tests.0 h) [
          | inl up ↦ inl up
          | inr waits ↦ let (d, e, up) = (after_wait_iff after).0 waits.1 in inr (waits.0, d, e, up)
        ]),
        (λ h. elim h [
          | inl up ↦ tests.1 (inl up)
          | inr waits ↦
              let (s, d, e, up) = waits in tests.1 (inr (s, (after_wait_iff after).1 (d, e, up)))
        ]),
      )
