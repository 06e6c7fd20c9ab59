-- ===== src/Trigger/Settled.antt =====
-- The safety of trigger.py's poll: an exposure that it calls complete was seen unchanged for the
-- settle time.
use donut_server.Prelude.{
  ℕ, ◌+◌, ◌-◌, ◌≤◌, ◌≡◌, refl, sym, ap, ◌∙◌, ◌⊎◌, inl, inr, true, Option, none, some, List, [], ◌∷◌,
  ◌++◌, arith, length, lookup, All, Option-cases, subst,
}
use donut_server.Bytes.{Name, name_eq, list_eqb_iff}
use donut_server.Trigger.Turns.{matched, Turned, returns, gives_up, settles, restarts, turn-Turned}
use donut_server.Trigger.{
  expected_sensors, Poll, Wait, Verdict, complete, poll_once, has_items, same_items, completion,
  same_previous, unpolled, turn, or_end, wait_loop, wait_for_exposure,
}

has_items-lookup :
    (items d : List (Name × ℕ)) (name : Name) (size : ℕ)
    → has_items items d ≡ true
    → lookup name items ≡ some size
    → lookup name d ≡ some size
unfolding has_items lookup
has_items-lookup [] d name size h at = absurd (ground arith)
has_items-lookup ((other, n) ∷ items) d name size h at =
    ground (arith, has_items-lookup items d name size, list_eqb_iff other name)

same_items-lookup :
    (d e : List (Name × ℕ)) (name : Name) → same_items d e ≡ true → lookup name d ≡ lookup name e
unfolding same_items
same_items-lookup d e name h = elim (Option-cases (lookup name d)) [
  | inl absent ↦ elim (Option-cases (lookup name e)) [
    | inl missing ↦ absent ∙ sym missing
    | inr (n, there) ↦ ground (arith, has_items-lookup e d name n, there, absent, h)
  ]
  | inr (n, at) ↦ at ∙ sym (has_items-lookup d e name n (ground (arith, h)) at)
]

abbrev seen : Name → Poll → Option ℕ
seen sensor p = lookup sensor (poll_once p.files)

module _ (sensor : Name) (settle_time : ℕ) where
  -- Among the polls, one at the time `at` and a later one that found all sensors, `settle_time` after
  -- it or more; every poll between them saw the sensor as the later one did.
  pub record IsSettled (at : ℕ) (polls : List Poll) : Type 0 where
    pub before : List Poll
    pub first : Poll
    pub window : List Poll
    pub last : Poll
    pub after : List Poll
    pub split : polls ≡ before ++ first ∷ (window ++ last ∷ after)
    pub since : first.polled_at ≡ at
    pub all_sensors : length (poll_once last.files) ≡ expected_sensors
    pub unchanged : All (λ p. seen sensor p ≡ seen sensor last) (first ∷ window)
    pub long_enough : settle_time ≤ last.polled_at - at

  -- The same, where the first poll is the one that the loop carries.
  record IsReached (w : Wait) (at : ℕ) (polls : List Poll) : Type 0 where
    found : List (Name × ℕ)
    window : List Poll
    last : Poll
    after : List Poll
    split : polls ≡ window ++ last ∷ after
    carried : w.previous ≡ some found
    since : completion w ≡ at
    all_sensors : length (poll_once last.files) ≡ expected_sensors
    same : lookup sensor found ≡ seen sensor last
    unchanged : All (λ p. seen sensor p ≡ seen sensor last) window
    long_enough : settle_time ≤ last.polled_at - at

  later :
      (at : ℕ) (poll : Poll) (polls : List Poll) → IsSettled at polls → IsSettled at (poll ∷ polls)
  later at poll polls h = record {
    before = poll ∷ h.before;
    first = h.first;
    window = h.window;
    last = h.last;
    after = h.after;
    split = ap (◌∷◌ poll) h.split;
    since = h.since;
    all_sensors = h.all_sensors;
    unchanged = h.unchanged;
    long_enough = h.long_enough;
  }

  same_previous-lookup :
      (found : List (Name × ℕ)) (previous : Option (List (Name × ℕ)))
      → same_previous found previous ≡ true
      → (d : List (Name × ℕ)) × (previous ≡ some d) × (lookup sensor d ≡ lookup sensor found)
  same_previous-lookup found none h = absurd (ground arith)
  same_previous-lookup found (some d) h = (d, refl, sym (same_items-lookup found d sensor h))

  module _ (deadline : ℕ) where
    matched-same :
        (w : Wait) (poll : Poll)
        → matched w poll ≡ true
        → same_previous (poll_once poll.files) w.previous ≡ true
    matched-same w poll h = ground arith

    matched-all :
        (w : Wait) (poll : Poll)
        → matched w poll ≡ true
        → length (poll_once poll.files) ≡ expected_sensors
    matched-all w poll h = ground arith

    carried-lookup :
        (d : List (Name × ℕ)) {found : List (Name × ℕ)} {n : Option ℕ}
        → some d ≡ some found
        → lookup sensor found ≡ n
        → lookup sensor d ≡ n
    carried-lookup d e h = cc

    IsFound : Wait → ℕ → List Poll → Type 0
    IsFound w at polls = IsReached w at polls ⊎ IsSettled at polls

    or_end-IsFound :
        (w : Wait) (poll : Poll) (polls : List Poll) (at : ℕ) (v : Verdict)
        → Turned settle_time deadline w poll v
        → ((next : Wait)
            → wait_loop settle_time deadline next polls ≡ complete at
            → IsFound next at polls)
        → or_end v (λ next. wait_loop settle_time deadline next polls) ≡ complete at
        → IsFound w at (poll ∷ polls)
    unfolding IsFound
    or_end-IsFound w poll polls at _ (returns match long) loop h =
        let e : completion w ≡ at = cc in
        let (d, carried, same) =
          same_previous-lookup (poll_once poll.files) w.previous (matched-same w poll match) in
        inl (record {
          found = d;
          window = [];
          last = poll;
          after = polls;
          split = refl;
          carried = carried;
          since = e;
          all_sensors = matched-all w poll match;
          same = same;
          unchanged = tt;
          long_enough = subst (λ at. settle_time ≤ poll.polled_at - at) e long;
        })
    or_end-IsFound w poll polls at _ (gives_up past) loop h = absurd (ground arith)
    or_end-IsFound w poll polls at _ (settles match short going) loop h =
        let (d, carried, same) =
          same_previous-lookup (poll_once poll.files) w.previous (matched-same w poll match) in
        elim (loop _ h) [
          | inr settled ↦ inr (later at poll polls settled)
          | inl r ↦
              let here : seen sensor poll ≡ seen sensor r.last =
                carried-lookup _ r.carried r.same in
              inl (record {
                found = d;
                window = poll ∷ r.window;
                last = r.last;
                after = r.after;
                split = ap (◌∷◌ poll) r.split;
                carried = carried;
                since = r.since;
                all_sensors = r.all_sensors;
                same = same ∙ here;
                unchanged = (here, r.unchanged);
                long_enough = r.long_enough;
              })
        ]
    or_end-IsFound w poll polls at _ (restarts other going) loop h = elim (loop _ h) [
      | inr settled ↦ inr (later at poll polls settled)
      | inl r ↦ inr (record {
        before = [];
        first = poll;
        window = r.window;
        last = r.last;
        after = r.after;
        split = ap (◌∷◌ poll) r.split;
        since = r.since;
        all_sensors = r.all_sensors;
        unchanged = (carried-lookup _ r.carried r.same, r.unchanged);
        long_enough = r.long_enough;
      })
    ]

    wait_loop-IsFound :
        (polls : List Poll) (w : Wait) (at : ℕ)
        → wait_loop settle_time deadline w polls ≡ complete at
        → IsFound w at polls
    unfolding wait_loop
    wait_loop-IsFound [] w at h = absurd (ground arith)
    wait_loop-IsFound (poll ∷ polls) w at h =
        or_end-IsFound w poll polls at (turn settle_time deadline w poll)
          (turn-Turned settle_time deadline w poll) (λ next. wait_loop-IsFound polls next at) h

-- When the wait returns, with the time that it gives for the exposure's completion, a poll was made at
-- that time, and a later one, `settle_time` or more after it, that found all eight sensors; and every
-- poll between them, the first with it, saw the same size of a sensor's file as the last one.
pub wait_for_exposure-IsSettled :
    (sensor : Name) (now timeout interval settle_time at : ℕ) (polls : List Poll)
    → wait_for_exposure now timeout interval settle_time polls ≡ complete at
    → IsSettled sensor settle_time at polls
unfolding wait_for_exposure IsFound
wait_for_exposure-IsSettled sensor now timeout interval settle_time at polls h =
    let waited : wait_loop settle_time (now + timeout) (unpolled now) polls ≡ complete at =
      ground (arith, h) in
    elim (wait_loop-IsFound sensor settle_time (now + timeout) polls (unpolled now) at waited) [
      | inl r ↦ absurd (ground (arith, r.carried))
      | inr settled ↦ settled
    ]
