-- ===== src/Machine/Memory.antt =====
-- `ReadMem` and `WriteMem` of NachOS-4.0/code/machine/translate.cc, on a little-endian host, where
-- WordToHost and its kin change nothing.
pub mod RoundTrip
pub mod Sound
pub mod Frame
use cs107_nach_os.Common.{
  ℕ, zero, suc, ◌+◌, ◌-◌, ◌*◌, ◌/◌, ◌%◌, ◌^◌, ◌≡◌, Bool, true, false, Option, none, some, Outcome,
  ok, aborted, ◌>>=◌, ◌==◌, if◌then◌else◌, ltb,
}
use cs107_nach_os.Machine.{Machine, Handler, raise_exception, write}
use cs107_nach_os.Machine.Translate.{Translated, fault, physical, translate}

-- A `char` as an int.
unfoldable pub char_to_int : ℕ → ℕ
char_to_int b = if ltb b 128 then b else b + (2 ^ 32 - 256)

-- The value of `size` bytes at a physical address.
pub load : (ℕ → ℕ) → ℕ → ℕ → Outcome ℕ
load memory p size =
    if size == 1
    then ok (char_to_int (memory p))
    else if size == 2
    then ok (memory p + memory (p + 1) * 2 ^ 8)
    else if size == 4
    then ok (memory p + memory (p + 1) * 2 ^ 8 + memory (p + 2) * 2 ^ 16 + memory (p + 3) * 2 ^ 24)
    else aborted

pub store : (ℕ → ℕ) → ℕ → ℕ → ℕ → Outcome (ℕ → ℕ)
store memory p size value =
    let m1 = write memory p (value % 2 ^ 8) in
    let m2 = write m1 (p + 1) (value / 2 ^ 8 % 2 ^ 8) in
    let m3 = write m2 (p + 2) (value / 2 ^ 16 % 2 ^ 8) in
    let m4 = write m3 (p + 3) (value / 2 ^ 24 % 2 ^ 8) in
    if size == 1 then ok m1 else if size == 2 then ok m2 else if size == 4 then ok m4 else aborted

-- `none` is FALSE: an exception was raised.
pub read_mem : Handler → Machine → ℕ → ℕ → Outcome (Option ℕ × Machine)
read_mem handler m addr size = do
  (t, m') ← translate m addr size false
  elim t [
    | fault e ↦ do m'' ← raise_exception handler m' e addr; ok (none, m'')
    | physical p ↦ do v ← load m'.main_memory p size; ok (some v, m')
  ]

pub write_mem : Handler → Machine → ℕ → ℕ → ℕ → Outcome (Bool × Machine)
write_mem handler m addr size value = do
  (t, m') ← translate m addr size true
  elim t [
    | fault e ↦ do m'' ← raise_exception handler m' e addr; ok (false, m'')
    | physical p ↦ do
      memory ← store m'.main_memory p size value
      ok (true, record m' { main_memory = memory })
  ]
