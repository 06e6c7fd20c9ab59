-- ===== src/Logs.antt =====
-- logtail.py (python/lsst/ts/donut_server/logtail.py): which bytes of the coordinator's log the pages
-- show. A log is its bytes; whether the file exists, and the text without its escapes, are left out.
pub mod Slices
use donut_server.Prelude.{
  ℕ, zero, suc, ◌+◌, ◌-◌, ◌*◌, ◌≡◌, Bool, true, false, Option, none, some, List, [], ◌∷◌,
  if◌then◌else◌, ltb, eqb, length, take, drop, min, max,
}
use donut_server.Bytes.{Bytes, list_eqb}

-- `_read_tail`: the start, and the bytes from there
unfoldable pub read_tail : ℕ → Bytes → ℕ × Bytes
read_tail n log = (length log - n, drop (length log - n) log)

-- what follows the first line break, or nothing
unfoldable pub after_line : Bytes → Bytes
after_line [] = []
after_line (b ∷ bytes) = if eqb b 10 then bytes else after_line bytes

-- `tail`, between its limits: whether the log is cut, and the bytes shown
unfoldable pub tail : ℕ → ℕ → ℕ → Bytes → Bool × Bytes
unfolding read_tail after_line
tail least most n log =
    let (start, bytes) = read_tail (max least (min most n)) log in
    if ltb 0 start then (true, after_line bytes) else (false, bytes)

unfoldable pub starts_with : Bytes → Bytes → Bool
starts_with needle bytes = list_eqb (take (length needle) bytes) needle

unfoldable pub find_in : Bytes → Bytes → ℕ → Option ℕ
unfolding starts_with
find_in needle [] at = none
find_in needle (b ∷ bytes) at =
    if starts_with needle (b ∷ bytes) then some at else find_in needle bytes (at + 1)

-- data.find(needle, start), of a needle that is not empty
unfoldable pub find : Bytes → Bytes → ℕ → Option ℕ
unfolding find_in
find needle bytes start = find_in needle (drop start bytes) start

unfoldable pub rfind_in : Bytes → Bytes → ℕ → Option ℕ → Option ℕ
unfolding starts_with
rfind_in needle [] at best = best
rfind_in needle (b ∷ bytes) at best =
    rfind_in needle bytes (at + 1) (if starts_with needle (b ∷ bytes) then some at else best)

-- data.rfind(needle)
unfoldable pub rfind : Bytes → Bytes → Option ℕ
unfolding rfind_in
rfind needle bytes = rfind_in needle bytes 0 none

unfoldable pub line_from : ℕ → ℕ → Bytes → ℕ
line_from at best [] = best
line_from at best (b ∷ bytes) = line_from (at + 1) (if eqb b 10 then at + 1 else best) bytes

-- data.rfind(b"\n", 0, end) + 1
unfoldable pub line_start : Bytes → ℕ → ℕ
unfolding line_from
line_start bytes end = line_from 0 0 (take end bytes)

-- the end of the slice before its limit, from the two searches
abbrev pub slice_end : Bytes → Option ℕ → Option ℕ → ℕ
slice_end bytes (some end) restart = line_start bytes end
slice_end bytes none (some end) = line_start bytes end
slice_end bytes none none = length bytes

-- `job_slice`, of the bytes searched: where the job's lines begin and end
unfoldable pub job_slice : ℕ → Bytes → Bytes → Bytes → Bytes → Option (ℕ × ℕ)
unfolding rfind find line_start
job_slice most needle suffix restart bytes = elim (rfind needle bytes) [
  | none ↦ none
  | some i ↦
      let begin = line_start bytes i in
      let after = i + length needle in
      let end = slice_end bytes (find suffix bytes after) (find restart bytes after) in
      some (begin, if ltb most (end - begin) then begin + most else end)
]
