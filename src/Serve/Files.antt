-- ===== src/Serve/Files.antt =====
-- The atomic writes of coordinator.py: `_write_parquet`, and the paths of what it writes. A write is
-- the list of its actions on the disk, so that a process killed between two of them is a prefix.
use donut_server.Prelude.{ℕ, Option, none, some, List, [], ◌∷◌, ◌++◌, map, take, lookup, put, erase}
use donut_server.Bytes.{Bytes, Name, name_eq}

-- what each path holds
abbrev pub Disk : Type 0
Disk = List (Name × Bytes)

-- f"{final}.tmp"
unfoldable pub tmp_path : Name → Name
tmp_path final = final ++ b'.' ∷ b't' ∷ b'm' ∷ b'p' ∷ []

-- open(path, "wb"), the write of one byte, and os.replace
pub data Act : Type 0 where
  create : Name → Act
  append : Name → ℕ → Act
  replace : Name → Name → Act

-- what a path holds, or nothing
unfoldable pub content : Name → Disk → Bytes
content path disk = elim (lookup path disk) [ none ↦ [] | some bytes ↦ bytes ]

unfoldable pub act : Act → Disk → Disk
unfolding content
act (create path) disk = put path [] disk
act (append path byte) disk = put path (content path disk ++ byte ∷ []) disk
act (replace source target) disk = put target (content source disk) (erase source disk)

unfoldable pub perform : List Act → Disk → Disk
unfolding act
perform [] disk = disk
perform (a ∷ acts) disk = perform acts (act a disk)

-- `_write_parquet`, of a serialized table
unfoldable pub write_acts : Name → Bytes → List Act
unfolding tmp_path
write_acts final payload =
    create (tmp_path final)
    ∷ (map (append (tmp_path final)) payload ++ replace (tmp_path final) final ∷ [])

-- The disk after a write that fails, or is killed, after `stop` actions.
unfoldable pub written : Option ℕ → Name → Bytes → Disk → Disk
unfolding write_acts perform
written none final payload disk = perform (write_acts final payload) disk
written (some stop) final payload disk = perform (take stop (write_acts final payload)) disk

-- f"{job_id}.parquet" and f"{job_id}.{kind}.parquet"
unfoldable pub stamp_path : Name → Name
stamp_path job = job ++ b'.' ∷ b'p' ∷ b'a' ∷ b'r' ∷ b'q' ∷ b'u' ∷ b'e' ∷ b't' ∷ []

unfoldable pub selection_path : Name → Name → Name
selection_path job kind =
    job ++ b'.' ∷ (kind ++ b'.' ∷ b'p' ∷ b'a' ∷ b'r' ∷ b'q' ∷ b'u' ∷ b'e' ∷ b't' ∷ [])
