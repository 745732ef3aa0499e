-- ===== src/Machine/Execute/Branch/Sound.antt =====
-- The branches and jumps keep registers at words.
use cs107_nach_os.Common.{ℕ, Bool, arith}
use cs107_nach_os.Common.WordBounds.{bit_and-IsWord, bit_or-IsWord}
use cs107_nach_os.Machine.{Machine, ret_addr_reg}
use cs107_nach_os.Machine.Sound.{IsSound, Always-if, set_register-IsSound}
use cs107_nach_os.Machine.Instruction.{Instruction}
use cs107_nach_os.Machine.Execute.Ending.Sound.{
  IsSoundFlow, IsSoundCase, go_on-IsSound, jump-IsSound,
}
use cs107_nach_os.Machine.Execute.Branch.{
  branch_if, link, execute_beq, execute_bgez, execute_bgezal, execute_bgtz, execute_blez,
  execute_bltz, execute_bltzal, execute_bne, execute_j, execute_jal, execute_jalr, execute_jr,
}

module _ (i : Instruction) where
  branch_if-IsSound : (m : Machine) (taken : Bool) → IsSound m → IsSoundCase (branch_if i m taken)
  unfolding branch_if
  branch_if-IsSound m taken s =
      Always-if IsSoundFlow taken _ _ (jump-IsSound m _ s (omega arith)) (go_on-IsSound m m s)

  link-IsSound : (m : Machine) (reg : ℕ) → IsSound m → IsSound (link i m reg)
  link-IsSound m reg s = set_register-IsSound m reg _ s (omega arith)

  pub execute_beq-IsSound : (m : Machine) → IsSound m → IsSoundCase (execute_beq i m)
  unfolding execute_beq
  execute_beq-IsSound m s = branch_if-IsSound m _ s

  pub execute_bne-IsSound : (m : Machine) → IsSound m → IsSoundCase (execute_bne i m)
  unfolding execute_bne
  execute_bne-IsSound m s = branch_if-IsSound m _ s

  pub execute_bgez-IsSound : (m : Machine) → IsSound m → IsSoundCase (execute_bgez i m)
  unfolding execute_bgez
  execute_bgez-IsSound m s = branch_if-IsSound m _ s

  pub execute_bgtz-IsSound : (m : Machine) → IsSound m → IsSoundCase (execute_bgtz i m)
  unfolding execute_bgtz
  execute_bgtz-IsSound m s = branch_if-IsSound m _ s

  pub execute_blez-IsSound : (m : Machine) → IsSound m → IsSoundCase (execute_blez i m)
  unfolding execute_blez
  execute_blez-IsSound m s = branch_if-IsSound m _ s

  pub execute_bltz-IsSound : (m : Machine) → IsSound m → IsSoundCase (execute_bltz i m)
  unfolding execute_bltz
  execute_bltz-IsSound m s = branch_if-IsSound m _ s

  pub execute_j-IsSound : (m : Machine) → IsSound m → IsSoundCase (execute_j i m)
  unfolding execute_j
  execute_j-IsSound m s =
      jump-IsSound m _ s (bit_or-IsWord _ _ (bit_and-IsWord _ _ (omega arith)) (omega arith))

  pub execute_jr-IsSound : (m : Machine) → IsSound m → IsSoundCase (execute_jr i m)
  unfolding execute_jr
  execute_jr-IsSound m s = jump-IsSound m _ s (s.words i.rs)

  pub execute_bgezal-IsSound : (m : Machine) → IsSound m → IsSoundCase (execute_bgezal i m)
  unfolding execute_bgezal
  execute_bgezal-IsSound m s =
      execute_bgez-IsSound (link i m ret_addr_reg) (link-IsSound m ret_addr_reg s)

  pub execute_bltzal-IsSound : (m : Machine) → IsSound m → IsSoundCase (execute_bltzal i m)
  unfolding execute_bltzal
  execute_bltzal-IsSound m s =
      execute_bltz-IsSound (link i m ret_addr_reg) (link-IsSound m ret_addr_reg s)

  pub execute_jal-IsSound : (m : Machine) → IsSound m → IsSoundCase (execute_jal i m)
  unfolding execute_jal
  execute_jal-IsSound m s =
      execute_j-IsSound (link i m ret_addr_reg) (link-IsSound m ret_addr_reg s)

  pub execute_jalr-IsSound : (m : Machine) → IsSound m → IsSoundCase (execute_jalr i m)
  unfolding execute_jalr
  execute_jalr-IsSound m s = execute_jr-IsSound (link i m i.rd) (link-IsSound m i.rd s)
