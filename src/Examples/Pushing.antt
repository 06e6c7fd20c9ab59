-- ===== src/Examples/Pushing.antt =====
-- A push of one sensor, in three chunks, and a hook that fires twice.
use donut_server.Prelude.{
  ℕ, ◌≡◌, refl, true, false, not, ◌&&◌, none, some, Option, List, [], ◌∷◌, lookup, arith, nat_eq,
  length, take, put, Distinct, inl, keys, replicate,
}
use donut_server.Bytes.{Bytes, Name, list_eqb, slice, of_bytes, big_endian}
use donut_server.Exec.{raise}
use donut_server.Protocol as Wire
use donut_server.Protocol.{
  HeaderInfo, PartLayout, header_size, pack_uint, pack_header, parse_header, pack_descriptor,
  pack_descriptors, pack_blob, parse_entries, place_entries, parse_layout,
}
use donut_server.Protocol.Parts.{part_name, parts_for}
use donut_server.Serve.{decode_all, reconstruct_exposures}
use donut_server.Flights.{JobState, prepared, computing}
use donut_server.PlotQueue.{init}
use donut_server.Endpoints.{
  Answer, Job, answered, prepare_replied, set_job, with_state, startable, finish, Exposure, Flags,
  Front, push, submitted_as, among, skip_imgtypes,
}
use donut_server.Endpoints.Receive.{received, receive}
use donut_server.Endpoints.Chunks.{join}
use donut_server.Endpoints.Pixels.{receive-reconstruct_exposures}
use donut_server.Endpoints.Outcomes.{Settled, push-Settled}
use donut_server.Endpoints.Interleaved.{
  Handlers, idle, with_front, end_submit_prepare, Reach, first, next, submits, starts, sends,
  finishes,
}
use donut_server.Endpoints.Kept.{IsKept}
use donut_server.Endpoints.Reached.{Reach-IsKept}
use donut_server.Endpoints.Submit.{submit}
use donut_server.Endpoints.Once.{Steps, stay, go, submit-submit}
use donut_server.Examples.Blobs.{plain}
use donut_server.Examples.Prepared.{toy}
use donut_server.Examples.Serving.{toy_science}

abbrev sensors : List (Name × (Bytes × Bytes))
sensors = ((b'a' ∷ []), ((1 ∷ 2 ∷ []), (3 ∷ []))) ∷ []

-- the framing of the blob of the sensor's parts, in two pieces
abbrev head : Bytes
head = 68 ∷ 87 ∷ 70 ∷ 83 ∷ 0 ∷ 2 ∷ 0 ∷ 2 ∷ 0 ∷ 0 ∷ []

abbrev descriptors : Bytes
descriptors =
    0 ∷ 0 ∷ 0 ∷ 0 ∷ 0 ∷ 3 ∷ 5 ∷ 0 ∷ 0 ∷ 0 ∷ 0 ∷ 0 ∷ 0 ∷ 0 ∷ 0 ∷ 0 ∷ 0 ∷ 0 ∷ 0 ∷ 0 ∷ 0 ∷ 0 ∷ 2 ∷ 97
    ∷ 58 ∷ 105 ∷ 109 ∷ 103 ∷ 6 ∷ 0 ∷ 0 ∷ 0 ∷ 0 ∷ 0 ∷ 0 ∷ 0 ∷ 2 ∷ 0 ∷ 0 ∷ 0 ∷ 0 ∷ 0 ∷ 0 ∷ 0 ∷ 1 ∷ 97
    ∷ 58 ∷ 109 ∷ 101 ∷ 116 ∷ 97 ∷ []

abbrev chunks : List Bytes
chunks = head ∷ descriptors ∷ (1 ∷ 2 ∷ 3 ∷ []) ∷ []

-- what the block holds from the push before
abbrev old_block : Bytes
old_block = replicate 80 9

abbrev info : HeaderInfo
info = record { version_found = 2; part_count = 2; payload_length = 3 }

abbrev layout : List PartLayout
layout =
    record { name = b'a' ∷ b':' ∷ b'i' ∷ b'm' ∷ b'g' ∷ []; offset = 61; byte_count = 2 }
    ∷ record { name = b'a' ∷ b':' ∷ b'm' ∷ b'e' ∷ b't' ∷ b'a' ∷ []; offset = 63; byte_count = 1 }
    ∷ []

packed : pack_blob plain (parts_for sensors) ≡ Wire.ok (join chunks)
unfolding pack_blob pack_header pack_uint pack_descriptors pack_descriptor part_name big_endian
packed = refl

header : parse_header (take header_size (join chunks)) ≡ Wire.ok info
unfolding parse_header slice of_bytes list_eqb
header = refl

parsed : parse_layout plain (join chunks) ≡ Wire.ok layout
unfolding parse_layout parse_header parse_entries place_entries slice of_bytes list_eqb
parsed = refl

parts_apart : Distinct (keys (parts_for sensors))
unfolding part_name
parts_apart = ground arith

receive-reconstruct_exposures_example :
    (block : Bytes) × (receive plain old_block chunks ≡ received layout block)
    × (length block ≡ 80)
    × (reconstruct_exposures toy toy_science block layout ≡ decode_all toy toy_science sensors)
receive-reconstruct_exposures_example =
    receive-reconstruct_exposures toy toy_science plain sensors old_block chunks info layout
      (ground arith) parts_apart packed (omega arith) header (omega arith) parsed

abbrev front : Front ℕ ℕ
front = record {
  jobs =
      (
        3,
        record {
          base = record { state = prepared; error_text = none };
          prepared_key = some 1;
          table_parquet = none;
          result = none;
        },
      )
      ∷ [];
  submitted = [];
  plots = init 1;
}

abbrev finished : Answer (ℕ × Option Bytes)
finished = answered (5, some (7 ∷ []))

push-Settled_example :
    Settled ℕ ℕ 3 front
      (push ℕ ℕ plain 3 none old_block chunks finished front).0
      (push ℕ ℕ plain 3 none old_block chunks finished front).1
push-Settled_example = push-Settled ℕ ℕ plain 3 none old_block chunks finished front

abbrev upper : Name → Name
upper name = name

abbrev found : Exposure
found = record { visit = some 12; imgtype = b'A' ∷ b'C' ∷ b'Q' ∷ [] }

abbrev flags : Flags
flags = record { any_imgtype = false; resubmit = false; dry_run = false }

-- a job that is prepared, started, sent and finished
abbrev job_of : JobState → Option ℕ → Option Bytes → Job ℕ ℕ
job_of state result table = record {
  base = record { state = state; error_text = none };
  prepared_key = some 1;
  table_parquet = table;
  result = result;
}

abbrev start : Handlers ℕ ℕ
start = idle ℕ ℕ (init 1)

abbrev after_prepare : Handlers ℕ ℕ
after_prepare = end_submit_prepare ℕ ℕ (some 12) 3 (answered (some 1)) start

abbrev after_start : Handlers ℕ ℕ
after_start = record after_prepare { started = 3 ∷ [] }

abbrev after_send : Handlers ℕ ℕ
after_send =
    with_front ℕ ℕ
      (set_job ℕ ℕ 3 (with_state ℕ ℕ computing (job_of prepared none none)) after_start.front)
      after_start

abbrev after_finish : Handlers ℕ ℕ
after_finish =
    with_front ℕ ℕ (finish ℕ ℕ 3 (job_of computing none none) finished after_send.front).1
      after_send

reached : Reach ℕ ℕ (init 1) after_finish
unfolding prepare_replied set_job startable lookup put
reached =
    next
      (next
        (next (next first (submits (some 12) 3 (answered (some 1)) refl))
          (starts 3 none (job_of prepared none none) refl))
        (sends 3 (job_of prepared none none) (inl refl) refl))
      (finishes 3 (job_of computing none none) finished (inl refl) refl)

Reach-IsKept_example : IsKept ℕ ℕ after_finish
Reach-IsKept_example = Reach-IsKept ℕ ℕ (init 1) after_finish reached

-- the second submit of the visit comes when the first one's job is done
since_prepare : Steps ℕ ℕ after_prepare after_finish
unfolding prepare_replied set_job startable lookup put
since_prepare =
    go
      (go (go stay (starts 3 none (job_of prepared none none) refl))
        (sends 3 (job_of prepared none none) (inl refl) refl))
      (finishes 3 (job_of computing none none) finished (inl refl) refl)

not_skipped : (not (flags.any_imgtype) && among (upper found.imgtype) skip_imgtypes) ≡ false
unfolding among list_eqb
not_skipped = refl

submit-submit_example :
    (job : ℕ) × (lookup 12 after_finish.front.submitted ≡ some job)
    × (submit ℕ ℕ upper 6 none true flags
          (answered found)
          (answered none)
          finished
          (after_finish.front)
        ≡ (raise (submitted_as job), after_finish.front))
submit-submit_example =
    submit-submit ℕ ℕ upper start after_finish 3 6 12 none flags found (some 1) (answered none)
      finished since_prepare refl refl refl refl not_skipped
