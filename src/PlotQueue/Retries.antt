-- ===== src/PlotQueue/Retries.antt =====
-- The order in which jobs are taken, and how often a job is tried on a flight with no usable child.
use Prim.Native.String.{String}
use donut_server.Prelude.{
  ℕ, zero, suc, ◌<◌, ◌≡◌, refl, true, false, none, some, List, ◌∷◌, leb, arith, lookup, erase,
  nat_eq, lookup-erase, lookup-put, lookup-evict_last, put_absent, ==_refl,
}
use donut_server.PlotQueue.{
  JobId, PlotQueue, PlotError, max_retries, member, add, discard, unusable, enqueue, take_job,
  take_from, handle, record_error, tries_of, gave_up, error_of,
}
use native.Mathlib.Numerals.{add-one}
use donut_server.PlotQueue.Taken.{take_job-head, member-discard}

member-add_self : (j : JobId) (s : List JobId) → member j (add j s) ≡ true
unfolding add member
member-add_self j s = ground arith

-- A job that was just accepted is the next one taken, and what was queued before is left.
take_job-enqueue :
    (q : PlotQueue) (j : JobId)
    → (enqueue q j).1 ≡ true
    → ((take_job (enqueue q j).0).0 ≡ some j) × ((take_job (enqueue q j).0).1.stack ≡ q.stack)
unfolding enqueue take_job take_from
take_job-enqueue q j h = ground (arith, member-add_self j q.queued)

-- An error that is recorded is the one that is read, whatever was evicted for it.
error_of-record_error :
    (j : JobId) (e : PlotError) (q : PlotQueue) → error_of (record_error j e q) j ≡ some e
unfolding error_of record_error
error_of-record_error j e q =
    let gone : lookup j (erase j q.errors) ≡ none = rw (lookup-erase, ==_refl j) in
    rw (put_absent j e (erase j q.errors) gone) (lookup-evict_last 255 j e (erase j q.errors) gone)

-- One flight takes the newest job and finds no usable child, `n` times over.
unfoldable pub fail_turns : ℕ → JobId → String → PlotQueue → PlotQueue
fail_turns zero j text q = q
fail_turns (suc n) j text q = handle j (unusable text) (take_job (fail_turns n j text q)).1

-- the newest job is `j`, with `n` attempts behind it
record Tried (n : ℕ) (j : JobId) (rest : List JobId) (q : PlotQueue) : Type 0 where
  top : q.stack ≡ j ∷ rest
  known : member j q.queued ≡ true
  tries : tries_of (lookup j q.retries) ≡ n

Tried-next :
    (n : ℕ) (j : JobId) (text : String) (rest : List JobId) (q : PlotQueue)
    → suc n < max_retries
    → Tried n j rest q
    → Tried (suc n) j rest (handle j (unusable text) (take_job q).1)
unfolding handle
Tried-next n j text rest q few t =
    let left : leb max_retries (suc n) ≡ false = ground arith in
    rw (take_job-head q j rest t.top t.known) (
      rw (t.tries, add-one, left)
        (record {
          top = refl;
          known = member-add_self j (discard j q.queued);
          tries = rw (lookup-put, ==_refl j);
        }))

fail_turns-Tried :
    (n : ℕ) (j : JobId) (text : String) (rest : List JobId) (q : PlotQueue)
    → n < max_retries
    → Tried 0 j rest q
    → Tried n j rest (fail_turns n j text q)
unfolding fail_turns
fail_turns-Tried zero j text rest q few t = t
fail_turns-Tried (suc n) j text rest q few t =
    Tried-next n j text rest (fail_turns n j text q) few
      (fail_turns-Tried n j text rest q (omega arith) t)

Tried-last :
    (j : JobId) (text : String) (rest : List JobId) (q : PlotQueue)
    → Tried 5 j rest q
    → let last = handle j (unusable text) (take_job q).1 in
      (error_of last j ≡ some (gave_up max_retries text))
      × (last.stack ≡ rest)
      × (member j last.queued ≡ false)
      × (lookup j last.retries ≡ none)
unfolding handle
Tried-last j text rest q t = rw (take_job-head q j rest t.top t.known) (
    rw t.tries (
      error_of-record_error j (gave_up max_retries text) _,
      refl,
      rw (member-discard j j q.queued) (ground arith),
      rw (lookup-erase, ==_refl j),
    ))

-- A job that was never tried is put back five times, and dropped at its sixth turn on flights with
-- no usable child: after five turns it is the newest job of the queue with five attempts counted, and
-- after six it has left the queue, its error says that six attempts were made, and its count is
-- forgotten.
pub fail_turns_max :
    (j : JobId) (text : String) (rest : List JobId) (q : PlotQueue)
    → q.stack ≡ j ∷ rest
    → member j q.queued ≡ true
    → lookup j q.retries ≡ none
    → let fifth = fail_turns 5 j text q in
      let last = fail_turns max_retries j text q in
      ((fifth.stack ≡ j ∷ rest)
        × (member j fifth.queued ≡ true)
        × (tries_of (lookup j fifth.retries) ≡ 5))
      × ((error_of last j ≡ some (gave_up max_retries text))
          × (last.stack ≡ rest)
          × (member j last.queued ≡ false)
          × (lookup j last.retries ≡ none))
unfolding fail_turns
fail_turns_max j text rest q top known never =
    let t =
      fail_turns-Tried 5 j text rest q (omega arith)
        (record { top = top; known = known; tries = rw never }) in
    ((t.top, t.known, t.tries), Tried-last j text rest (fail_turns 5 j text q) t)
