-- ===== src/Metrics/Memory.antt =====
-- metrics.rs: what `/proc/self/status` says of the memory. The text of that file is an argument.
use geomqtt.Base.{
  ℕ, ◌*◌, ◌%◌, ◌^◌, List, [], ◌∷◌, Option, none, some, ◌>>=◌, ◌==◌, ◌&&◌, if◌then◌else◌, Text, lit,
  text_eq, split_once, first_word, split, parse_uint, u64_max,
}

pub record ProcMem : Type 0 where
  pub rss : ℕ
  pub vsize : ℕ
  pub hwm : ℕ

-- The key of a line and its number of bytes, which wraps around.
unfoldable pub parse_status_kb : Text → Option (Text × ℕ)
parse_status_kb line = do
  (key, rest) ← split_once line b':'
  n ← first_word rest
  kb ← parse_uint u64_max n
  some (key, (kb * 1024) % 2 ^ 64)

-- `match key`
unfoldable pub set_key : Text → ℕ → ProcMem → ProcMem
set_key key bytes mem =
    if text_eq key (lit "VmRSS")
    then record mem { rss = bytes }
    else if text_eq key (lit "VmSize")
    then record mem { vsize = bytes }
    else if text_eq key (lit "VmHWM")
    then record mem { hwm = bytes }
    else mem

unfoldable pub read_line : Text → ProcMem → ProcMem
read_line line mem = elim (parse_status_kb line) [
  | none ↦ mem
  | some (key, bytes) ↦ set_key key bytes mem
]

unfoldable pub read_lines : List Text → ProcMem → ProcMem
read_lines [] mem = mem
read_lines (line ∷ rest) mem = read_lines rest (read_line line mem)

-- None if the file is not there, or says nothing of the memory.
unfoldable pub read_proc_self_status : Option Text → Option ProcMem
read_proc_self_status raw = do
  text ← raw
  -- `lines` also drops a `\r` at the end of a line, which is a space to `first_word`
  let mem = read_lines (split text b'\n') (record { rss = 0; vsize = 0; hwm = 0 })
  if mem.rss == 0 && mem.vsize == 0 && mem.hwm == 0 then none else some mem
