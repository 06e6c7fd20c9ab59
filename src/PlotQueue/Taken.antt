-- ===== src/PlotQueue/Taken.antt =====
-- What `_take` of the plot queue gives, and what it leaves in the set of the queued.
use donut_server.Prelude.{
  ◌+◌, ◌≤◌, ◌≡◌, ap, subst, ◌∙◌, true, false, none, some, List, [], ◌∷◌, eqb, if◌then◌else◌, arith,
  nat_eq,
}
use donut_server.PlotQueue.{JobId, PlotQueue, member, discard, take_from, take_job}
use donut_server.PlotQueue.Schedule.{State}
use donut_server.PlotQueue.Counts.{count, in_hand, member-count}
use donut_server.PlotQueue.Invariant.{IsSound}

-- `_take` on a sound queue: the head of the stack, with no second look.
pub take_job-empty : (q : PlotQueue) → q.stack ≡ [] → take_job q ≡ (none, q)
unfolding take_job take_from
take_job-empty q h = ground arith

pub take_job-head :
    (q : PlotQueue) (j : JobId) (rest : List JobId)
    → q.stack ≡ j ∷ rest
    → member j q.queued ≡ true
    → take_job q ≡ (some j, record q { stack = rest; queued = discard j q.queued })
unfolding take_job take_from
take_job-head q j rest h known = rw (h, take_from, known)

pub member-discard :
    (i j : JobId) (xs : List JobId)
    → member j (discard i xs) ≡ (if eqb i j then false else member j xs)
unfolding member discard
member-discard i j [] = ground arith
member-discard i j (x ∷ xs) = ground (arith, member-discard i j xs)

pub member_head : (j : JobId) (rest : List JobId) → member j (j ∷ rest) ≡ true
unfolding member
member_head j rest = ground arith

-- in the set without the head are the jobs of the rest of the stack
pub left_of_head :
    (k : JobId) (s : State) (j : JobId) (rest : List JobId)
    → s.queue.stack ≡ j ∷ rest
    → IsSound s
    → (if eqb j k then false else member k s.queue.queued) ≡ member k rest
unfolding member count
left_of_head k s j rest h v =
    let all : member k s.queue.queued ≡ member k (j ∷ rest) = v.agree k ∙ ap (member k) h in
    let few : count k (j ∷ rest) + in_hand k s.phases ≤ 1 =
      subst (λ xs. count k xs + in_hand k s.phases ≤ 1) h (v.once k) in
    ground (arith, member-count k rest)
