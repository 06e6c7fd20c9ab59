-- ===== src/Coordinator/Live.antt =====
-- The two entry points of coordinator.py that change the live configuration, `ensure_prepared` and
-- `ensure_prepared_for_push`.
use donut_server.Prelude.{
  ◌≡◌, refl, Option, none, some, lookup, lookup-All, subst, sym, inl, inr, Option-cases,
}
use donut_server.Exec.{ok, lift, gets, After, Triple, Triple-bind, Triple-weaken}
use donut_server.Coordinator.{
  Command, Library, PreparedEntry, Mirror, Globals, Prepared, prepare_key, prepare_entry,
  ensure_prepared, push_entry, push_command, ensure_prepared_for_push,
}
use donut_server.Coordinator.Key.{PrepareKey, key_eq}
use donut_server.Coordinator.Kept.{IsBuilt, IsSound, Keeps}
use donut_server.Coordinator.Built.{Gives, Gives-lift, Gives-gets, build_entry-Gives}
use donut_server.Coordinator.Activated.{
  IsLive, Switches, insert_entry-Stays, touch_entry-Stays, activate_entry-pure, Switches-bind,
  Switches-from, prepare_fresh-Switches, prepare_cached-Switches,
}

module _ (l : Library) where
  module _ (m : Mirror l) where
    Held : PrepareKey → Option (PreparedEntry l) → Type 0
    Held key none = Unit {0}
    Held key (some entry) = IsBuilt l key entry

    gets-Held : (key : PrepareKey) → Gives l m (gets (λ g. lookup key g.prepared_cache)) (Held key)
    unfolding Held
    gets-Held key = Gives-gets l m _ (Held key) (λ g h.
        elim (Option-cases (lookup key g.prepared_cache)) [
          | inl missing ↦ subst (Held key) (sym missing) tt
          | inr found ↦
              let (entry, e) = found in
              subst (Held key) (sym e)
                (lookup-All (λ e. IsBuilt l e.0 e.1) key entry g.prepared_cache h.sound.built e)
        ])

    prepare_entry-Switches :
        (key : PrepareKey) (hit : Option (PreparedEntry l)) (command : Command l.Coordinate)
        → prepare_key l command ≡ ok key
        → Held key hit
        → Switches l m key (prepare_entry l key hit command) (λ p. p.key ≡ key)
    unfolding prepare_entry Held
    prepare_entry-Switches key none command same h = prepare_fresh-Switches l m key command same
    prepare_entry-Switches key (some entry) command same h =
        prepare_cached-Switches l m key entry command same h

    push_entry-Switches :
        (key : PrepareKey) (hit : Option (PreparedEntry l)) (command : Command l.Coordinate)
        → prepare_key l command ≡ ok key
        → Held key hit
        → Switches l m key (push_entry l key hit command) (λ entry. IsBuilt l key entry)
    unfolding push_entry Held
    push_entry-Switches key (some entry) command same h =
        Switches-bind l m key _ _ _ (touch_entry-Stays l m key)
          (λ _. activate_entry-pure l m key entry command _ _ h (λ c. h))
    push_entry-Switches key none command same h =
        Switches-from l m key _ _ (λ a. IsBuilt l key a.0) _
          (build_entry-Gives l m key command same)
          (λ b is_built.
            Switches-bind l m key _ _ _ (insert_entry-Stays l m key b.0 is_built)
              (λ _. activate_entry-pure l m key b.0 command _ _ is_built (λ c. is_built)))

    Known : PrepareKey → Option (Command l.Coordinate) → Type 0
    Known key none = Unit {0}
    Known key (some command) = prepare_key l command ≡ ok key

    gets-Known :
        (key : PrepareKey) → Gives l m (gets (λ g. lookup key g.prepare_commands)) (Known key)
    unfolding Known
    gets-Known key = Gives-gets l m _ (Known key) (λ g h.
        elim (Option-cases (lookup key g.prepare_commands)) [
          | inl missing ↦ subst (Known key) (sym missing) tt
          | inr found ↦
              let (command, e) = found in
              subst (Known key) (sym e) (
                lookup-All (λ e. prepare_key l e.1 ≡ ok e.0) key command g.prepare_commands
                  h.sound.known e)
        ])

    push_command-Switches :
        (key : PrepareKey) (command : Option (Command l.Coordinate))
        → Known key command
        → Switches l m key (push_command l key command) (λ entry. IsBuilt l key entry)
    unfolding push_command Known lift
    push_command-Switches key none k = record { run = λ g h. h }
    push_command-Switches key (some command) k =
        Switches-from l m key _ _ (Held key) _ (gets-Held key)
          (λ hit h. push_entry-Switches key hit command k h)

    abbrev Prepares : Command l.Coordinate → Prepared l → Globals l → Type 0
    Prepares command p g =
        IsSound l g × IsLive l p.key g.mirror × (prepare_key l command ≡ ok p.key)

    prepare_entry-Prepares :
        (key : PrepareKey) (hit : Option (PreparedEntry l)) (command : Command l.Coordinate)
        → prepare_key l command ≡ ok key
        → Held key hit
        → Triple (Keeps l m) (prepare_entry l key hit command) (Prepares command) (Keeps l m)
    prepare_entry-Prepares key hit command same h =
        Triple-weaken _ (λ p g. IsSound l g × IsLive l key g.mirror × (p.key ≡ key)) _ _ _
          (prepare_entry-Switches key hit command same h)
          (λ p g q. (
            q.0,
            subst (λ k. IsLive l k g.mirror) (sym q.2) q.1,
            subst (λ k. prepare_key l command ≡ ok k) (sym q.2) same,
          ))

    ensure_prepared-Prepares :
        (command : Command l.Coordinate)
        → Triple (Keeps l m) (ensure_prepared l command) (Prepares command) (Keeps l m)
    unfolding ensure_prepared
    ensure_prepared-Prepares command =
        Triple-bind (λ key g. Keeps l m g × (prepare_key l command ≡ ok key)) _ _ _
          (Gives-lift l m _)
          (λ key. record {
            run = λ g h.
                (Triple-bind (λ hit g'. Keeps l m g' × Held key hit) (Prepares command) _ _
                    (gets-Held key)
                    (λ hit. record {
                      run = λ g' h'. (prepare_entry-Prepares key hit command h.1 h'.1).run g' h'.0;
                    })).run
                  g h.0;
          })

  -- From sound caches, a prepare that returns has returned its command's key, and leaves live an
  -- entry built for that key and a calib set; one that raises leaves the mirror globals as they
  -- were. The caches are sound after both.
  pub ensure_prepared-IsLive :
      (command : Command l.Coordinate) (g : Globals l)
      → IsSound l g
      → After
          (λ p g'. IsSound l g' × IsLive l p.key g'.mirror × (prepare_key l command ≡ ok p.key))
          (Keeps l g.mirror)
          (ensure_prepared l command g)
  ensure_prepared-IsLive command g sound =
      (ensure_prepared-Prepares g.mirror command).run g
        (record { sound = sound; same_mirror = refl })

  -- From sound caches, a push's call that returns leaves live an entry built for the key it was
  -- given and a calib set, and returns an entry built for that key; one that raises leaves the
  -- mirror globals as they were. The caches are sound after both.
  pub ensure_prepared_for_push-IsLive :
      (key : PrepareKey) (g : Globals l)
      → IsSound l g
      → After
          (λ entry g'. IsSound l g' × IsLive l key g'.mirror × IsBuilt l key entry)
          (Keeps l g.mirror)
          (ensure_prepared_for_push l key g)
  unfolding ensure_prepared_for_push
  ensure_prepared_for_push-IsLive key g sound =
      (Switches-from l g.mirror key _ _ (Known g.mirror key) _ (gets-Known g.mirror key)
          (λ command k. push_command-Switches g.mirror key command k)).run
        g (record { sound = sound; same_mirror = refl })
