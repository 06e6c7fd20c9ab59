-- ===== src/Daq/Shared.antt =====
-- The shared block of the encoder of daq.py: how it is made, exported, closed and unlinked, with what
-- Python refuses, and _WORKER_CONTEXT, which is filled or empty.
use donut_server.Prelude.{
  ℕ, ◌+◌, ◌-◌, Bool, true, false, Option, none, some, List, if◌then◌else◌, eqb, leb, length,
}
use donut_server.Bytes.{Bytes}
use donut_server.Exec.{Outcome, ok, raise, Exec}
use donut_server.Daq
use donut_server.Daq.Memory.{Cells, overlay}
use donut_server.Protocol

-- what a worker returns in place of its meta
pub data Fault : Type 0 where
  wrong_shape : Fault
  of_stack : ℕ → Fault

-- the messages of ParallelEncodeUnavailable
pub data Reason : Type 0 where
  serial_is_set no_detectors not_clamped low_space cannot_create meta_too_long : Reason
  -- of the pool: a worker that did not return, or the pool itself
  pool_lost : Reason
  -- the detectors whose workers gave an error
  workers_failed : List (ℕ × Fault) → Reason

pub data Failure : Type 0 where
  unavailable : Reason → Failure
  in_header : Daq.Error → Failure
  in_protocol : Protocol.Error → Failure
  -- what Python raises
  buffer_error value_error key_error file_not_found : Failure
  -- what the stack raises, or the caller's body
  of_body : ℕ → Failure
  -- KeyboardInterrupt, which is no Exception
  interrupted : Failure

-- what `except Exception` catches
unfoldable pub is_exception : Failure → Bool
is_exception interrupted = false
is_exception _ = true

-- the mapping of a block into this process, with the number of its exported views
pub record Mapping : Type 0 where
  pub size : ℕ
  pub cells : Cells
  pub views : ℕ

pub record World : Type 0 where
  pub mapping : Option Mapping
  -- whether the block's name is there
  pub linked : Bool
  -- whether _WORKER_CONTEXT is filled
  pub context : Bool

abbrev pub Step : Type 0 → Type 0
Step A = Exec World Failure A

abbrev pub clean : World
clean = record { mapping = none; linked = false; context = false }

-- SharedMemory(create=True, size=size), of zeros, where the system allows it
unfoldable pub create : Bool → ℕ → Step (Unit {0})
create allowed size w =
    if allowed
    then (
      ok tt,
      record w {
        mapping = some (record { size = size; cells = λ i. 0; views = 0 });
        linked = true;
      },
    )
    else (raise (unavailable cannot_create), w)

abbrev on_mapping :
    {A : Type 0}
    → Option Mapping
    → (Mapping → Outcome Failure A × Mapping)
    → World
    → Outcome Failure A × World
on_mapping none f w = (raise value_error, w)
on_mapping (some m) f w = let (r, m') = f m in (r, record w { mapping = some m' })

-- memoryview(block.buf), and a slice of it, which is a view of its own
unfoldable pub export_view : Step (Unit {0})
export_view w = on_mapping w.mapping (λ m. (ok tt, record m { views = m.views + 1 })) w

-- the views of the block, slices of one that was handed out, that code keeps when it ends
unfoldable pub keep_views : ℕ → World → World
keep_views kept w = elim w.mapping [
  | none ↦ w
  | some m ↦ record w { mapping = some (record m { views = m.views + kept }) }
]

-- view.release(), of a view that may not have been made
unfoldable pub release_view : Step (Unit {0})
release_view w = on_mapping w.mapping (λ m. (ok tt, record m { views = m.views - 1 })) w

-- view[start : start + len(bs)] = bs
unfoldable pub write : ℕ → Bytes → Step (Unit {0})
unfolding overlay
write start bs w =
    on_mapping w.mapping
      (λ m.
        if leb (start + length bs) m.size
        then (ok tt, record m { cells = overlay start bs m.cells })
        else (raise value_error, m))
      w

-- block.close(), which does nothing the second time
abbrev close_mapping : Option Mapping → World → Outcome Failure (Unit {0}) × World
close_mapping none w = (ok tt, w)
close_mapping (some m) w =
    if eqb m.views 0 then (ok tt, record w { mapping = none }) else (raise buffer_error, w)

unfoldable pub close : Step (Unit {0})
close w = close_mapping w.mapping w

-- block.unlink()
unfoldable pub unlink : Step (Unit {0})
unlink w = if w.linked then (ok tt, record w { linked = false }) else (raise file_not_found, w)

unfoldable pub set_context : Bool → Step (Unit {0})
set_context filled w = (ok tt, record w { context = filled })
