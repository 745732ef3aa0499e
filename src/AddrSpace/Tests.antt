-- ===== src/AddrSpace/Tests.antt =====
-- A program of ten pages, and the machine that runs it.
use cs107_nach_os.Common.{◌≡◌, refl, inr, true, none, arith, ok}
use cs107_nach_os.Machine.{Machine, user_mode, num_phys_pages, pc_reg, next_pc_reg, stack_reg}
use cs107_nach_os.Machine.Translate.{physical, translate}
use cs107_nach_os.AddrSpace.{
  AddrSpace, entries_from, restore_state, translate_space, init_registers, clear_registers,
}
use cs107_nach_os.AddrSpace.Agreement.{translations_agree}

abbrev space : AddrSpace
space = record { page_table = entries_from num_phys_pages 0; num_pages = 10 }

abbrev machine : Machine
machine = record {
  registers = λ r. 77;
  main_memory = λ a. 0;
  tlb = none;
  page_table = none;
  page_table_size = 0;
  status = user_mode;
}

-- The stack begins 16 bytes below the end of the pages.
init_registers_runs :
    ((init_registers space machine).registers stack_reg ≡ 1264)
    × ((init_registers space machine).registers pc_reg ≡ 0)
    × ((init_registers space machine).registers next_pc_reg ≡ 4)
    × ((init_registers space machine).registers 5 ≡ 0)
unfolding init_registers clear_registers
init_registers_runs = (refl, refl, refl, refl)

translations_agree_example :
    (space' : AddrSpace) × (translate_space space 1000 true ≡ ok (physical 1000, space'))
    × (translate (restore_state space machine) 1000 4 true
        ≡ ok (physical 1000, restore_state space' machine))
translations_agree_example =
    translations_agree space machine 1000 4 true refl (omega arith) refl (inr (inr refl)) refl
      (omega arith)
