-- ===== src/Syscall/Text.antt =====
-- User2System, System2User, SysReadString and SysPrintString of
-- NachOS-4.0/code/userprog/ksyscall.h. A buffer is the list of its bytes.
pub mod Frame
use cs107_nach_os.Common.{
  ℕ, zero, suc, ◌+◌, ◌-◌, ◌%◌, ◌^◌, ◌||◌, none, some, List, [], ◌∷◌, ◌++◌, Outcome, ok, aborted,
  ◌>>=◌, ◌==◌, if◌then◌else◌, length, replicate,
}
use cs107_nach_os.Common.Words.{add32, is_negative}
use cs107_nach_os.Machine.{Machine, Handler, no_exception}
use cs107_nach_os.Machine.Memory.{char_to_int, read_mem, write_mem}
use cs107_nach_os.Host.{minus_one}

-- ExceptionHandler for the faults of the kernel's own accesses: SysHalt does not come back. No
-- access raises SyscallException.
pub fault_handler : Handler
fault_handler no_exception m = ok m
fault_handler _ m = aborted

-- The loop of User2System, with n bytes left; the rest of the buffer and the byte behind it are 0.
pub copy_in : ℕ → ℕ → Machine → Outcome (List ℕ × Machine)
copy_in zero addr m = ok (0 ∷ [], m)
copy_in (suc n) addr m = read_mem fault_handler m addr 1 >>= λ (v, m'). elim v [
  | none ↦ aborted
  | some one_char ↦
      if one_char == 0
      then ok (replicate (n + 2) 0, m')
      else (copy_in n (add32 addr 1) m' >>= λ (bytes, m''). ok (one_char % 2 ^ 8 ∷ bytes, m''))
]

-- No array has a negative size.
pub user_to_system : ℕ → ℕ → Machine → Outcome (List ℕ × Machine)
user_to_system virt_addr limit m =
    if limit == minus_one
    then ok ([], m)
    else if is_negative limit
    then aborted
    else copy_in limit virt_addr m

-- The loop of System2User, with n bytes left: the number of bytes that it writes.
pub copy_out : ℕ → ℕ → List ℕ → Machine → Outcome (ℕ × Machine)
copy_out zero addr buffer m = ok (0, m)
copy_out (suc n) addr [] m = aborted
copy_out (suc n) addr (c ∷ cs) m =
    write_mem fault_handler m addr 1 (char_to_int c) >>= λ (written, m').
    if c == 0 then ok (1, m') else (copy_out n (add32 addr 1) cs m' >>= λ (i, m''). ok (i + 1, m''))

pub system_to_user : ℕ → ℕ → List ℕ → Machine → Outcome (ℕ × Machine)
system_to_user virt_addr len buffer m =
    if is_negative len then ok (minus_one, m) else copy_out len virt_addr buffer m

-- `do ch = GetChar(); while (ch == EOF);`
pub skip_eof : List ℕ → Outcome (ℕ × List ℕ)
skip_eof [] = aborted
skip_eof (c ∷ cs) = let rest = skip_eof cs in if c == 255 then rest else ok (c, cs)

-- The loop of SysReadString, with n bytes left.
pub read_line : ℕ → List ℕ → Outcome (List ℕ × List ℕ)
read_line zero input = ok ([], input)
read_line (suc n) input = skip_eof input >>= λ (c, cs).
    if (c == 1) || (c == 10)
    then ok ([], cs)
    else (read_line n cs >>= λ (line, rest). ok (c ∷ line, rest))

-- The new buffer, of len + 1 bytes, and the input that is left.
pub read_string : List ℕ → ℕ → List ℕ → Outcome (List ℕ × List ℕ)
read_string buffer len input =
    if is_negative len || (len == 0)
    then ok (buffer, input)
    else (read_line len input >>= λ (line, rest).
        ok (line ++ replicate (len + 1 - length line) 0, rest))

-- The characters before the first 0, which PrintString displays.
pub c_string : List ℕ → List ℕ
c_string [] = []
c_string (c ∷ cs) = if c == 0 then [] else c ∷ c_string cs
