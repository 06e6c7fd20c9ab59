-- ===== src/PlotQueue/Steps.antt =====
-- Every step of a flight keeps the plot queue sound.
use donut_server.Prelude.{
  ℕ, ◌+◌, ◌≤◌, ◌<◌, ◌≡◌, ◌≢◌, refl, ap, sym, subst, ◌∙◌, false, some, List, [], ◌∷◌, leb, eqb,
  get_elem?, arith, ◌⊎◌, inl, inr, lookup, erase, put, nat_eq, length, All, All-erase, All-put,
  length-evict-le, length-erase-le, lookup-erase, lookup-put, Bool-cases,
}
use donut_server.PlotQueue.{
  JobId, PlotQueue, PlotError, error_cap, max_retries, member, add, discard, Outcome, drawn,
  refused, cancelled, unusable, failed, handle, drop_drawing, tries_of,
}
use donut_server.PlotQueue.Schedule.{
  Phase, running, parked, sleeping, sending, State, set_phase, turn, park, begin, settle, rouse,
  IsReply, Step, request, loop, reply, slept, Reach, fresh, next,
}
use donut_server.PlotQueue.Counts.{count, draws, in_hand-set_phase}
use donut_server.PlotQueue.Invariant.{
  Fewer, IsSound, start-IsSound, submit-IsSound, length-set_phase, sending-set_phase,
  set_phase-awake,
}
use donut_server.PlotQueue.Taken.{
  member_head, take_job-empty, take_job-head, member-discard, left_of_head,
}

-- What a step of flight `i` must show of its new queue and phase.
record Keeps (s : State) (i : ℕ) (old new : Phase) (q : PlotQueue) : Type 0 where
  at : get_elem? s.phases i ≡ some old
  agree : (j : JobId) → member j q.queued ≡ member j q.stack
  once : (j : JobId) → count j q.stack + draws j new ≤ count j s.queue.stack + draws j old
  own : (j : JobId) → new ≡ sending j → lookup i q.drawing ≡ some j
  others : (k : ℕ) → eqb i k ≡ false → lookup k q.drawing ≡ lookup k s.queue.drawing
  errors_bounded : length q.errors ≤ error_cap
  retries_bounded : All Fewer q.retries
  flights : q.n_flights ≡ s.queue.n_flights
  awake : (new ≢ parked) ⊎ (q.stack ≡ [])

Keeps-IsSound :
    (s : State) (i : ℕ) (old new : Phase) (q : PlotQueue)
    → IsSound s
    → Keeps s i old new q
    → IsSound (record { queue = q; phases = set_phase s.phases i new })
Keeps-IsSound s i old new q v k = record {
  agree = k.agree;
  once = λ j. omega (arith, k.once j, v.once j, in_hand-set_phase j s.phases i old new k.at);
  marked = λ n j e. elim (sending-set_phase s.phases i n new j e) [
    | inl here ↦ subst (λ m. lookup m q.drawing ≡ some j) here.0 (k.own j here.1)
    | inr there ↦ k.others n there.0 ∙ v.marked n j there.1
  ];
  errors_bounded = k.errors_bounded;
  retries_bounded = k.retries_bounded;
  flights = length-set_phase s.phases i new ∙ v.flights ∙ sym k.flights;
  awake = λ h. elim k.awake [
    | inl busy ↦ absurd (cc (set_phase-awake s.phases i old new k.at busy))
    | inr empty ↦ empty
  ];
}

rouse-IsSound :
    (i : ℕ) (s : State) → get_elem? s.phases i ≡ some sleeping → IsSound s → IsSound (rouse i s)
unfolding rouse drop_drawing
rouse-IsSound i s at v = Keeps-IsSound s i sleeping running _ v (record {
  at = at;
  agree = v.agree;
  once = λ j. omega arith;
  own = λ j e. absurd (cc);
  others = λ k h. rw lookup-erase (ground arith);
  errors_bounded = v.errors_bounded;
  retries_bounded = v.retries_bounded;
  flights = refl;
  awake = inl (λ e. cc);
})

turn-head-IsSound :
    (i : ℕ) (s : State) (j : JobId) (rest : List JobId)
    → s.queue.stack ≡ j ∷ rest
    → get_elem? s.phases i ≡ some running
    → IsSound s
    → IsSound (
        begin i
          (some j)
          (record s.queue { stack = rest; queued = discard j s.queue.queued })
          s.phases)
unfolding begin
turn-head-IsSound i s j rest h at v = Keeps-IsSound s i running (sending j) _ v (record {
  at = at;
  agree = λ k. rw member-discard (left_of_head k s j rest h v);
  once = λ k. rw h (unfold count in ground arith);
  own = λ k e. rw lookup-put (ground arith);
  others = λ k o. rw lookup-put (ground arith);
  errors_bounded = v.errors_bounded;
  retries_bounded = v.retries_bounded;
  flights = refl;
  awake = inl (λ e. cc);
})

turn_empty :
    (i : ℕ) (s : State)
    → s.queue.stack ≡ []
    → turn i s
      ≡ record { queue = record s.queue { wake = false }; phases = set_phase s.phases i parked }
unfolding turn begin park
turn_empty i s h = ap (λ r. begin i r.0 r.1 s.phases) (take_job-empty s.queue h) ∙ ground arith

park-IsSound :
    (i : ℕ) (s : State)
    → s.queue.stack ≡ []
    → get_elem? s.phases i ≡ some running
    → IsSound s
    → IsSound
        (record { queue = record s.queue { wake = false }; phases = set_phase s.phases i parked })
park-IsSound i s h at v = Keeps-IsSound s i running parked _ v (record {
  at = at;
  agree = v.agree;
  once = λ j. omega arith;
  own = λ j e. absurd (cc);
  others = λ k o. refl;
  errors_bounded = v.errors_bounded;
  retries_bounded = v.retries_bounded;
  flights = refl;
  awake = inr h;
})

turn_head :
    (i : ℕ) (s : State) (j : JobId) (rest : List JobId)
    → s.queue.stack ≡ j ∷ rest
    → IsSound s
    → turn i s
      ≡ begin i
          (some j)
          (record s.queue { stack = rest; queued = discard j s.queue.queued })
          s.phases
unfolding turn
turn_head i s j rest h v =
    ap (λ r. begin i r.0 r.1 s.phases)
      (take_job-head s.queue j rest h (v.agree j ∙ ap (member j) h ∙ member_head j rest))

List-cases : (xs : List JobId) → (xs ≡ []) ⊎ ((j : JobId) × (rest : List JobId) × (xs ≡ j ∷ rest))
List-cases [] = inl refl
List-cases (j ∷ rest) = inr (j, rest, refl)

turn-IsSound :
    (i : ℕ) (s : State) → get_elem? s.phases i ≡ some running → IsSound s → IsSound (turn i s)
turn-IsSound i s at v = elim (List-cases s.queue.stack) [
  | inl h ↦ subst IsSound (sym (turn_empty i s h)) (park-IsSound i s h at v)
  | inr found ↦
      let (j, rest, h) = found in
      subst IsSound (sym (turn_head i s j rest h v)) (turn-head-IsSound i s j rest h at v)
]

add-agree :
    (j k : JobId) (q : PlotQueue)
    → member k q.queued ≡ member k q.stack
    → member k (add j q.queued) ≡ member k (j ∷ q.stack)
unfolding add member
add-agree j k q h = ground arith

-- A reply that ends the job: it leaves the flight, and the stack stays.
finish-IsSound :
    (i : ℕ) (j : JobId) (s : State) (errors : List (JobId × PlotError))
    → get_elem? s.phases i ≡ some (sending j)
    → length errors ≤ error_cap
    → IsSound s
    → (new : Phase) → (drawing : List (ℕ × JobId))
    → ((k : ℕ) → eqb i k ≡ false → lookup k drawing ≡ lookup k s.queue.drawing)
    → ((k : JobId) → draws k new ≡ 0)
    → ((k : JobId) → new ≢ sending k)
    → new ≢ parked
    → IsSound (record {
      queue = record s.queue {
        errors = errors;
        retries = erase j s.queue.retries;
        drawing = drawing;
      };
      phases = set_phase s.phases i new;
    })
finish-IsSound i j s errors at bound v new drawing others idle free busy =
    Keeps-IsSound s i (sending j) new _ v (record {
      at = at;
      agree = v.agree;
      once = λ k. omega (arith, idle k);
      own = λ k e. absurd (free k e);
      others = others;
      errors_bounded = bound;
      retries_bounded = All-erase Fewer j s.queue.retries v.retries_bounded;
      flights = refl;
      awake = inl busy;
    })

-- A job that is put back for another try.
again-IsSound :
    (i : ℕ) (j : JobId) (s : State) (tries : ℕ)
    → get_elem? s.phases i ≡ some (sending j)
    → tries < max_retries
    → IsSound s
    → IsSound (record {
      queue = record s.queue {
        queued = add j s.queue.queued;
        stack = j ∷ s.queue.stack;
        errors = erase j s.queue.errors;
        retries = put j tries s.queue.retries;
      };
      phases = set_phase s.phases i sleeping;
    })
again-IsSound i j s tries at few v = Keeps-IsSound s i (sending j) sleeping _ v (record {
  at = at;
  agree = λ k. add-agree j k s.queue (v.agree k);
  once = λ k. unfold count in ground arith;
  own = λ k e. absurd (cc);
  others = λ k o. refl;
  errors_bounded = omega (arith, length-erase-le j s.queue.errors, v.errors_bounded);
  retries_bounded = All-put Fewer j tries s.queue.retries v.retries_bounded few;
  flights = refl;
  awake = inl (λ e. cc);
})

settle-IsSound :
    (i : ℕ) (j : JobId) (o : Outcome) (s : State)
    → IsReply o
    → get_elem? s.phases i ≡ some (sending j)
    → IsSound s
    → IsSound (settle i j o s)
unfolding settle handle drop_drawing
settle-IsSound i j drawn s r at v =
    finish-IsSound i j s s.queue.errors at v.errors_bounded v running (erase i s.queue.drawing)
      (λ k o. rw lookup-erase (ground arith)) (λ k. refl) (λ k e. cc) (λ e. cc)
settle-IsSound i j (refused text) s r at v =
    finish-IsSound i j s _ at (length-evict-le error_cap _) v running (erase i s.queue.drawing)
      (λ k o. rw lookup-erase (ground arith)) (λ k. refl) (λ k e. cc) (λ e. cc)
settle-IsSound i j cancelled s r at v = absurd r
settle-IsSound i j (failed text) s r at v =
    finish-IsSound i j s _ at (length-evict-le error_cap _) v running (erase i s.queue.drawing)
      (λ k o. rw lookup-erase (ground arith)) (λ k. refl) (λ k e. cc) (λ e. cc)
settle-IsSound i j (unusable text) s r at v =
    elim (Bool-cases (leb max_retries (tries_of (lookup j s.queue.retries) + 1))) [
      | inl spent ↦ rw spent (
          finish-IsSound i j s _ at (length-evict-le error_cap _) v sleeping s.queue.drawing
            (λ k o. refl) (λ k. refl) (λ k e. cc) (λ e. cc))
      | inr left ↦ rw left (again-IsSound i j s _ at (ground arith) v)
    ]

Step-IsSound : {s t : State} → Step s t → IsSound s → IsSound t
Step-IsSound {s} (request j) v = submit-IsSound j s v
Step-IsSound {s} (loop i at) v = turn-IsSound i s at v
Step-IsSound {s} (reply i j o r at) v = settle-IsSound i j o s r at v
Step-IsSound {s} (slept i at) v = rouse-IsSound i s at v

-- In every state that a schedule of the drain loops reaches, until shutdown, the set of queued jobs
-- is that of the stack, a job stands at most once in the stack or in the hands of one flight, the
-- job of every flight is marked as drawing, at most 256 errors are held, every held count of
-- retries is below the limit, and no job waits while every flight is parked.
pub Reach-IsSound : {n : ℕ} {s : State} → Reach n s → IsSound s
Reach-IsSound {n} fresh = start-IsSound n
Reach-IsSound (next r st) = Step-IsSound st (Reach-IsSound r)
