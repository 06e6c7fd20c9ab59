-- ===== src/Coordinator/Activated.antt =====
-- `_activate_entry`, `ensure_prepared` and `ensure_prepared_for_push` of coordinator.py: which
-- configuration is live after a call.
use donut_server.Prelude.{
  ◌≡◌, refl, Bool, Bool-cases, inl, inr, if◌then◌else◌, List, [], ◌∷◌, length, ◌==◌, put, All,
  arith, length-evict-le, length-move_to_end-le, All-put, All-evict, All-move_to_end, subst, sym,
}
use donut_server.Exec.{ok, Exec, ◌>>=◌, pure, modify, Triple, Triple-bind}
use donut_server.Coordinator.{
  Error, Command, Library, PreparedEntry, CalibSet, Mirror, Globals, prepare_key, mirror_of,
  activate_entry, insert_entry, touch_entry, restored, restore_entry, note_command, prepare_fresh,
  prepare_cached, prepared_cache_cap,
}
use donut_server.Coordinator.Key.{PrepareKey, key_eq}
use donut_server.Coordinator.Kept.{IsBuilt, IsSound, Keeps, Stays, ensure_calib-Stays}
use donut_server.Coordinator.Built.{
  Gives, StandsFor, ensure_refcat-Gives, build_entry-Gives, prepare_key-parts,
}

module _ (l : Library) where
  -- The mirror holds what an entry for `key` holds, and a calib set.
  pub record IsLive (key : PrepareKey) (m : Mirror l) : Type 0 where
    pub entry : PreparedEntry l
    pub calib : CalibSet l
    pub built : IsBuilt l key entry
    pub same : m ≡ mirror_of l entry calib

  module _ (m : Mirror l) where
    pub insert_entry-Stays :
        (key : PrepareKey) (entry : PreparedEntry l)
        → IsBuilt l key entry
        → Stays l m (insert_entry l key entry)
    unfolding insert_entry modify
    insert_entry-Stays key entry b = record {
      run = λ g h. record {
        sound = record {
          built =
              All-evict (λ e. IsBuilt l e.0 e.1) prepared_cache_cap (put key entry g.prepared_cache)
                (All-put (λ e. IsBuilt l e.0 e.1) key entry g.prepared_cache h.sound.built b);
          known = h.sound.known;
          few_entries = length-evict-le prepared_cache_cap (put key entry g.prepared_cache);
          few_filters = h.sound.few_filters;
          faithful = h.sound.faithful;
        };
        same_mirror = h.same_mirror;
      };
    }

    note_command-Stays :
        (key : PrepareKey) (command : Command l.Coordinate)
        → prepare_key l command ≡ ok key
        → Stays l m (note_command l key command)
    unfolding note_command modify
    note_command-Stays key command same = record {
      run = λ g h. record {
        sound = record {
          built = h.sound.built;
          known =
              All-put (λ e. prepare_key l e.1 ≡ ok e.0) key command g.prepare_commands h.sound.known
                same;
          few_entries = h.sound.few_entries;
          few_filters = h.sound.few_filters;
          faithful = h.sound.faithful;
        };
        same_mirror = h.same_mirror;
      };
    }

    pub touch_entry-Stays : (key : PrepareKey) → Stays l m (touch_entry l key)
    unfolding touch_entry modify
    touch_entry-Stays key = record {
      run = λ g h. record {
        sound = record {
          built = All-move_to_end (λ e. IsBuilt l e.0 e.1) key g.prepared_cache h.sound.built;
          known = h.sound.known;
          few_entries =
              omega (arith, h.sound.few_entries, length-move_to_end-le key g.prepared_cache);
          few_filters = h.sound.few_filters;
          faithful = h.sound.faithful;
        };
        same_mirror = h.same_mirror;
      };
    }

    length-restored :
        (key : PrepareKey) (entry : PreparedEntry l) (d : List (PrepareKey × PreparedEntry l))
        → length (restored l key entry d) ≡ length d
    unfolding restored
    length-restored key entry [] = refl
    length-restored key entry (e ∷ d) = omega (arith, length-restored key entry d)

    restored-IsBuilt :
        (key : PrepareKey) (entry : PreparedEntry l) (d : List (PrepareKey × PreparedEntry l))
        → IsBuilt l key entry
        → All (λ e. IsBuilt l e.0 e.1) d
        → All (λ e. IsBuilt l e.0 e.1) (restored l key entry d)
    unfolding restored
    restored-IsBuilt key entry [] b h = tt
    restored-IsBuilt key entry ((k, e) ∷ d) b h = (
      elim (Bool-cases (k == key)) [
        | inl same ↦
            rw (same, if◌then◌else◌)
              (subst (λ j. IsBuilt l j entry) (sym ((key_eq.equal_iff k key).0 same)) b)
        | inr other ↦ rw (other, if◌then◌else◌) h.0
      ],
      restored-IsBuilt key entry d b h.1,
    )

    restore_entry-Stays :
        (key : PrepareKey) (entry : PreparedEntry l)
        → IsBuilt l key entry
        → Stays l m (restore_entry l key entry)
    unfolding restore_entry modify
    restore_entry-Stays key entry b = record {
      run = λ g h. record {
        sound = record {
          built = restored-IsBuilt key entry g.prepared_cache b h.sound.built;
          known = h.sound.known;
          few_entries =
              omega (arith, h.sound.few_entries, length-restored key entry g.prepared_cache);
          few_filters = h.sound.few_filters;
          faithful = h.sound.faithful;
        };
        same_mirror = h.same_mirror;
      };
    }

    -- a return switches the mirror, a raise leaves it
    abbrev pub Switches :
        {A : Type 0} → PrepareKey → Exec (Globals l) Error A → (A → Type 0) → Type 0
    Switches key action Q =
        Triple (Keeps l m) action (λ a g. IsSound l g × IsLive key g.mirror × Q a) (Keeps l m)

    activate_entry-Switches :
        (key : PrepareKey) (entry : PreparedEntry l) (command : Command l.Coordinate)
        → IsBuilt l key entry
        → Switches key (activate_entry l entry command) (λ _. Unit {0})
    unfolding activate_entry ◌>>=◌ modify pure
    activate_entry-Switches key entry command b =
        Triple-bind (λ _. Keeps l m) _ _ _ (ensure_calib-Stays l m command)
          (λ calib. record {
            run = λ g h. (
              record {
                built = h.sound.built;
                known = h.sound.known;
                few_entries = h.sound.few_entries;
                few_filters = h.sound.few_filters;
                faithful = h.sound.faithful;
              },
              record { entry = entry; calib = calib.0; built = b; same = refl },
              tt,
            );
          })

    -- an activation, then a returned value
    pub activate_entry-pure :
        {A : Type 0} (key : PrepareKey) (entry : PreparedEntry l) (command : Command l.Coordinate)
        (f : Bool × Bool → A) (Q : A → Type 0)
        → IsBuilt l key entry
        → ((c : Bool × Bool) → Q (f c))
        → Switches key (activate_entry l entry command >>= λ c. pure (f c)) Q
    unfolding pure
    activate_entry-pure key entry command f Q b q =
        Triple-bind (λ _ g. IsSound l g × IsLive key g.mirror × Unit {0}) _ _ _
          (activate_entry-Switches key entry command b)
          (λ c. record { run = λ g h. (h.0, h.1, q c) })

    pub Switches-bind :
        {A B : Type 0} (key : PrepareKey) (action : Exec (Globals l) Error A)
        (f : A → Exec (Globals l) Error B) (Q : B → Type 0)
        → Stays l m action
        → ((a : A) → Switches key (f a) Q)
        → Switches key (action >>= f) Q
    Switches-bind key action f Q t k = Triple-bind (λ _. Keeps l m) _ _ _ t k

    pub Switches-from :
        {A B : Type 0} (key : PrepareKey) (action : Exec (Globals l) Error A)
        (f : A → Exec (Globals l) Error B) (P : A → Type 0) (Q : B → Type 0)
        → Gives l m action P
        → ((a : A) → P a → Switches key (f a) Q)
        → Switches key (action >>= f) Q
    Switches-from key action f P Q t k =
        Triple-bind (λ a g. Keeps l m g × P a) _ _ _ t
          (λ a. record { run = λ g h. (k a h.1).run g h.0 })

    pub prepare_fresh-Switches :
        (key : PrepareKey) (command : Command l.Coordinate)
        → prepare_key l command ≡ ok key
        → Switches key (prepare_fresh l key command) (λ p. p.key ≡ key)
    unfolding prepare_fresh
    prepare_fresh-Switches key command same =
        Switches-from key _ _ (λ a. IsBuilt l key a.0) _ (build_entry-Gives l m key command same)
          (λ b is_built. Switches-bind key _ _ _ (note_command-Stays key command same) (λ _.
            Switches-bind key _ _ _ (insert_entry-Stays key b.0 is_built)
              (λ _. activate_entry-pure key b.0 command _ _ is_built (λ c. refl))))

    pub prepare_cached-Switches :
        (key : PrepareKey) (entry : PreparedEntry l) (command : Command l.Coordinate)
        → prepare_key l command ≡ ok key
        → IsBuilt l key entry
        → Switches key (prepare_cached l key entry command) (λ p. p.key ≡ key)
    unfolding prepare_cached
    prepare_cached-Switches key entry command same b =
        let (ids, task) = prepare_key-parts l m key command same in
        Switches-bind key _ _ _ (touch_entry-Stays key) (λ _.
          Switches-from key _ _ (λ a. StandsFor l m key.refcat a.1) _
            (ensure_refcat-Gives l m command key.refcat key.refcat entry.refcat_store ids
              (b.same_refcat, b.same_shards, b.counted))
            (λ r stands.
              let b' : IsBuilt l key (record entry { refcat_store = r.1 }) = record {
                same_key = b.same_key;
                same_task = b.same_task;
                same_refcat = stands.0;
                same_shards = stands.1;
                counted = stands.2;
              } in
              Switches-bind key _ _ _
                (restore_entry-Stays key (record entry { refcat_store = r.1 }) b')
                (λ _. activate_entry-pure key _ command _ _ b' (λ c. refl))))
