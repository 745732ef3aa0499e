-- ===== src/AddrSpace.antt =====
-- NachOS-4.0/code/userprog/addrspace.{h,cc}: the page table of a user program; Load is a module
-- of its own.
pub mod Agreement
pub mod Load
mod Tests
use cs107_nach_os.Common.{
  ℕ, zero, suc, ◌+◌, ◌*◌, ◌/◌, ◌%◌, ◌^◌, Bool, true, false, not, ◌&&◌, Option, none, some, List, [],
  ◌∷◌, Outcome, ok, aborted, ◌>>=◌, ◌>>◌, assert, ltb, leb, if◌then◌else◌, set,
}
use cs107_nach_os.Common.Words.{sub32, is_negative}
use cs107_nach_os.Machine.{
  Machine, TranslationEntry, page_size, num_phys_pages, memory_size, num_total_regs, pc_reg,
  next_pc_reg, stack_reg, set_register, address_error_exception, read_only_exception,
  bus_error_exception,
}
use cs107_nach_os.Machine.Translate.{Translated, fault, physical, entry_at}

pub record AddrSpace : Type 0 where
  pub page_table : List TranslationEntry
  pub num_pages : ℕ

-- The entries that the constructor makes, from i on.
pub entries_from : ℕ → ℕ → List TranslationEntry
entries_from zero i = []
entries_from (suc n) i =
    record {
      virtual_page = i;
      physical_page = i;
      valid = true;
      read_only = false;
      use_bit = false;
      dirty = false;
    }
    ∷ entries_from n (i + 1)

pub restore_state : AddrSpace → Machine → Machine
restore_state space m = record m {
  page_table = some space.page_table;
  page_table_size = space.num_pages;
}

pub clear_registers : ℕ → ℕ → Machine → Machine
clear_registers zero i m = m
clear_registers (suc n) i m = clear_registers n (i + 1) (set_register m i 0)

pub init_registers : AddrSpace → Machine → Machine
init_registers space m =
    let cleared = clear_registers num_total_regs 0 m in
    let started = set_register (set_register cleared pc_reg 0) next_pc_reg 4 in
    set_register started stack_reg (sub32 (space.num_pages * page_size % 2 ^ 32) 16)

-- The part after the entry is found, with the entry as it is left. `pfn` is an int, so that the test
-- of the frame lets a negative one through.
pub use_page : TranslationEntry → ℕ → Bool → Outcome (Translated × TranslationEntry)
use_page pte offset writing =
    let paddr = (pte.physical_page * page_size + offset) % 2 ^ 32 in
    let used = record pte { use_bit = true; dirty = if writing then true else pte.dirty } in
    if writing && pte.read_only
    then ok (fault read_only_exception, pte)
    else if not (is_negative pte.physical_page) && leb num_phys_pages pte.physical_page
    then ok (fault bus_error_exception, pte)
    else (assert (ltb paddr memory_size) >> ok (physical paddr, used))

pub translate_space : AddrSpace → ℕ → Bool → Outcome (Translated × AddrSpace)
translate_space space vaddr writing =
    let vpn = vaddr / page_size in
    if leb space.num_pages vpn
    then ok (fault address_error_exception, space)
    else (entry_at space.page_table vpn >>= λ pte.
        use_page pte (vaddr % page_size) writing >>= λ (t, pte').
        ok (t, record space { page_table = set space.page_table vpn pte' }))
