-- ===== src/Syscall/Handler.antt =====
-- ExceptionHandler of NachOS-4.0/code/userprog/exception.cc.
pub mod Frame
pub mod Progress
use cs107_nach_os.Common.{
  ℕ, ◌+◌, ◌%◌, ◌^◌, Bool, true, false, List, [], ◌∷◌, ◌++◌, Outcome, ok, aborted, ◌>>=◌, ◌==◌,
  if◌then◌else◌,
}
use cs107_nach_os.Common.Words.{add32, is_negative}
use cs107_nach_os.Machine.{
  Machine, ExceptionType, no_exception, syscall_exception, set_register, pc_reg, next_pc_reg,
  prev_pc_reg,
}
use cs107_nach_os.Machine.Memory.{char_to_int}
use cs107_nach_os.Host.{Host}
use cs107_nach_os.Syscall.{Kernel}
use cs107_nach_os.Syscall.Number.{get_char, read_num, print_num}
use cs107_nach_os.Syscall.Text.{user_to_system, system_to_user, read_string, c_string}
use cs107_nach_os.Syscall.Files.{
  answer, sys_create_file, sys_open, sys_close, sys_read, sys_write, sys_seek, sys_remove,
}

-- The codes of the calls that the kernel handles, from userprog/syscall.h.
pub data Call : Type 0 where
  halt create remove open_call read write seek close : Call
  add read_num_call print_num_call read_char print_char random_num read_string_call print_string :
      Call
  unexpected : Call

pub call_of : ℕ → Call
call_of n =
    if n == 0
    then Call.halt
    else if n == 4
    then Call.create
    else if n == 5
    then Call.remove
    else if n == 6
    then Call.open_call
    else if n == 7
    then Call.read
    else if n == 8
    then Call.write
    else if n == 9
    then Call.seek
    else if n == 10
    then Call.close
    else if n == 42
    then Call.add
    else if n == 43
    then Call.read_num_call
    else if n == 44
    then Call.print_num_call
    else if n == 45
    then Call.read_char
    else if n == 46
    then Call.print_char
    else if n == 47
    then Call.random_num
    else if n == 48
    then Call.read_string_call
    else if n == 49
    then Call.print_string
    else Call.unexpected

abbrev pub max_file_length : ℕ
max_file_length = 32

pub increase_pc : Machine → Machine
increase_pc m =
    let m1 = set_register m prev_pc_reg (m.registers pc_reg) in
    let m2 = set_register m1 pc_reg (add32 (m1.registers pc_reg) 4) in
    set_register m2 next_pc_reg (add32 (m2.registers pc_reg) 4)

module _ (h : Host) where
  abbrev done : Kernel h → Kernel h
  done k = record k { machine = increase_pc k.machine }

  abbrev with_machine : Kernel h → Machine → Kernel h
  with_machine k m = record k { machine = m }

  -- The string at the address in register 4, as the C functions see it.
  name_from : ℕ → Kernel h → Outcome (List ℕ × Kernel h)
  name_from limit k = user_to_system (k.machine.registers 4) limit k.machine >>= λ (buffer, m).
      ok (c_string buffer, with_machine k m)

  -- `new char[size]`, of no negative size.
  with_buffer : ℕ → Outcome (Kernel h) → Outcome (Kernel h)
  with_buffer size body = if is_negative size then aborted else body

  handle_console : Call → Kernel h → Outcome (Kernel h)
  unfolding name_from
  handle_console Call.add k =
      ok (answer h (add32 (k.machine.registers 4) (k.machine.registers 5)) k)
  handle_console Call.read_num_call k =
      read_num k.typed >>= λ (num, rest). ok (answer h num (record k { typed = rest }))
  handle_console Call.print_num_call k = print_num (k.machine.registers 4) >>= λ shown.
      ok (record k { displayed = k.displayed ++ shown })
  handle_console Call.random_num k =
      let (n, s) = h.random k.files.host in
      ok (answer h (n % 2 ^ 32) (record k { files = record k.files { host = s } }))
  handle_console Call.read_char k = get_char k.typed >>= λ (c, rest).
      ok (answer h (char_to_int (c % 2 ^ 8)) (record k { typed = rest }))
  handle_console Call.print_char k =
      ok (record k { displayed = k.displayed ++ k.machine.registers 4 % 2 ^ 8 ∷ [] })
  handle_console Call.read_string_call k =
      let vir_addr = k.machine.registers 4 in
      let len = k.machine.registers 5 in
      user_to_system vir_addr len k.machine >>= λ (buffer, m).
      read_string buffer len k.typed >>= λ (buffer', rest).
      system_to_user vir_addr len buffer' m >>= λ (i, m').
      ok (with_machine (record k { typed = rest }) m')
  handle_console Call.print_string k =
      name_from 255 k >>= λ (shown, k'). ok (record k' { displayed = k'.displayed ++ shown })
  handle_console _ k = aborted

  handle_files : Call → Kernel h → Outcome (Kernel h)
  unfolding name_from with_buffer
  handle_files Call.create k =
      name_from max_file_length k >>= λ (filename, k'). sys_create_file h filename k'
  handle_files Call.open_call k =
      let type = k.machine.registers 5 in
      name_from max_file_length k >>= λ (filename, k'). sys_open h filename type k'
  handle_files Call.close k =
      sys_close h (k.machine.registers 4) k >>= λ (res, k'). ok (answer h res k')
  handle_files Call.read k =
      let size = k.machine.registers 5 in
      with_buffer size (sys_read h (k.machine.registers 4) size (k.machine.registers 6) k)
  handle_files Call.write k =
      let size = k.machine.registers 5 in
      with_buffer size (sys_write h (k.machine.registers 4) size (k.machine.registers 6) k)
  handle_files Call.seek k = sys_seek h (k.machine.registers 4) (k.machine.registers 5) k
  handle_files Call.remove k = name_from (max_file_length + 1) k >>= λ (filename, k').
      let (res, k'') = sys_remove h filename k' in ok (answer h res k'')
  handle_files _ k = aborted

  abbrev is_file_call : Call → Bool
  is_file_call Call.create = true
  is_file_call Call.open_call = true
  is_file_call Call.close = true
  is_file_call Call.read = true
  is_file_call Call.write = true
  is_file_call Call.seek = true
  is_file_call Call.remove = true
  is_file_call _ = false

  -- Every call that comes back increases the program counter last.
  pub system_call : Call → Kernel h → Outcome (Kernel h)
  unfolding handle_console handle_files
  system_call c k =
      (if is_file_call c then handle_files c k else handle_console c k) >>= λ k'. ok (done k')

  -- SysHalt does not come back, nor does ASSERTNOTREACHED.
  pub exception_handler : ExceptionType → Kernel h → Outcome (Kernel h)
  exception_handler no_exception k = ok k
  exception_handler syscall_exception k = system_call (call_of (k.machine.registers 2)) k
  exception_handler _ k = aborted
