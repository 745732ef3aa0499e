-- ===== src/Machine.antt =====
-- NachOS-4.0/code/machine/machine.{h,cc}: the simulated MIPS machine. The children follow
-- translate.cc (Translate, Memory) and mipssim.cc (Instruction, Multiply, Execute).
pub mod Instruction
pub mod Multiply
pub mod Translate
pub mod Memory
pub mod Execute
pub mod Sound
mod Tests
use cs107_nach_os.Common.{
  ℕ, ◌*◌, ◌≡◌, Bool, true, false, Option, none, some, List, Outcome, ok, aborted, ◌>>=◌, ◌==◌,
  if◌then◌else◌,
}

abbrev pub page_size : ℕ
page_size = 128

abbrev pub num_phys_pages : ℕ
num_phys_pages = 128

abbrev pub memory_size : ℕ
memory_size = num_phys_pages * page_size

-- `num_exception_types` only counts the others.
pub data ExceptionType : Type 0 where
  no_exception syscall_exception page_fault_exception read_only_exception : ExceptionType
  bus_error_exception address_error_exception overflow_exception : ExceptionType
  illegal_instr_exception num_exception_types : ExceptionType

-- Numbers of the registers beyond the 32 general ones.
abbrev pub stack_reg : ℕ
stack_reg = 29

abbrev pub ret_addr_reg : ℕ
ret_addr_reg = 31

abbrev pub hi_reg : ℕ
hi_reg = 32

abbrev pub lo_reg : ℕ
lo_reg = 33

abbrev pub pc_reg : ℕ
pc_reg = 34

abbrev pub next_pc_reg : ℕ
next_pc_reg = 35

abbrev pub prev_pc_reg : ℕ
prev_pc_reg = 36

abbrev pub load_reg : ℕ
load_reg = 37

abbrev pub load_value_reg : ℕ
load_value_reg = 38

abbrev pub bad_vaddr_reg : ℕ
bad_vaddr_reg = 39

abbrev pub num_total_regs : ℕ
num_total_regs = 40

-- machine/translate.h
pub record TranslationEntry : Type 0 where
  pub virtual_page : ℕ
  pub physical_page : ℕ
  pub valid : Bool
  pub read_only : Bool
  pub use_bit : Bool
  pub dirty : Bool

-- machine/interrupt.h
pub data MachineStatus : Type 0 where
  idle_mode system_mode user_mode : MachineStatus

-- The registers, by number, and the bytes of the memory, by address. A pointer that may be NULL is
-- an Option. `status` is the one that the interrupt hardware keeps.
pub record Machine : Type 0 where
  pub registers : ℕ → ℕ
  pub main_memory : ℕ → ℕ
  pub tlb : Option (List TranslationEntry)
  pub page_table : Option (List TranslationEntry)
  pub page_table_size : ℕ
  pub status : MachineStatus

-- `array[i] = v`
abbrev pub write {ℓ} : {A : Type ℓ} → (ℕ → A) → ℕ → A → ℕ → A
write f i v j = if i == j then v else f j

abbrev pub set_register : Machine → ℕ → ℕ → Machine
set_register m i v = record m { registers = write m.registers i v }

-- Finish the load in progress, start the next one; register 0 stays 0.
unfoldable pub delayed_load : Machine → ℕ → ℕ → Machine
delayed_load m next_reg next_value =
    let r1 = write m.registers (m.registers load_reg) (m.registers load_value_reg) in
    let r2 = write r1 load_reg next_reg in
    let r3 = write r2 load_value_reg next_value in record m { registers = write r3 0 0 }

-- The kernel's entry for traps: ExceptionHandler of userprog/exception.cc. It changes the machine,
-- or does not come back.
abbrev pub Handler : Type 0
Handler = ExceptionType → Machine → Outcome Machine

unfoldable pub raise_exception : Handler → Machine → ExceptionType → ℕ → Outcome Machine
unfolding delayed_load
raise_exception handler m which bad_vaddr = do
  let m1 = delayed_load (set_register m bad_vaddr_reg bad_vaddr) 0 0
  m2 ← handler which (record m1 { status = system_mode })
  ok (record m2 { status = user_mode })
