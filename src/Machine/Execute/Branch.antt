-- ===== src/Machine/Execute/Branch.antt =====
-- The branches and jumps of `OneInstruction`. Their targets take effect after the next instruction.
pub mod Sound
use cs107_nach_os.Common.{ℕ, Bool, not, ◌&&◌, ◌||◌, bit_and, bit_or, Outcome, ◌==◌, if◌then◌else◌}
use cs107_nach_os.Common.Words.{add32, shl32, is_negative}
use cs107_nach_os.Machine.{Machine, set_register, next_pc_reg, ret_addr_reg}
use cs107_nach_os.Machine.Instruction.{Instruction}
use cs107_nach_os.Machine.Execute.Ending.{Flow, go_on, jump, pc_after, sign_set}

-- IndexToAddr
abbrev pub index_to_addr : ℕ → ℕ
index_to_addr x = shl32 x 2

module _ (i : Instruction) where
  -- `if (taken) pcAfter = …`
  branch_if : Machine → Bool → Outcome Flow
  branch_if m taken =
      if taken then jump m (add32 (m.registers next_pc_reg) (index_to_addr i.extra)) else go_on m m

  -- `registers[R31] = registers[NextPCReg] + 4`
  abbrev link : Machine → ℕ → Machine
  link m reg = set_register m reg (add32 (m.registers next_pc_reg) 4)

  pub execute_beq : Machine → Outcome Flow
  unfolding branch_if
  execute_beq m = branch_if m (m.registers i.rs == m.registers i.rt)

  pub execute_bne : Machine → Outcome Flow
  unfolding branch_if
  execute_bne m = branch_if m (not (m.registers i.rs == m.registers i.rt))

  pub execute_bgez : Machine → Outcome Flow
  unfolding branch_if
  execute_bgez m = branch_if m (not (sign_set (m.registers i.rs)))

  -- Falls through to OP_BGEZ.
  pub execute_bgezal : Machine → Outcome Flow
  unfolding execute_bgez
  execute_bgezal m = execute_bgez (link m ret_addr_reg)

  pub execute_bgtz : Machine → Outcome Flow
  unfolding branch_if
  execute_bgtz m = let a = m.registers i.rs in branch_if m (not (is_negative a) && not (a == 0))

  pub execute_blez : Machine → Outcome Flow
  unfolding branch_if
  execute_blez m = let a = m.registers i.rs in branch_if m (is_negative a || (a == 0))

  pub execute_bltz : Machine → Outcome Flow
  unfolding branch_if
  execute_bltz m = branch_if m (sign_set (m.registers i.rs))

  -- Falls through to OP_BLTZ.
  pub execute_bltzal : Machine → Outcome Flow
  unfolding execute_bltz
  execute_bltzal m = execute_bltz (link m ret_addr_reg)

  pub execute_j : Machine → Outcome Flow
  execute_j m = jump m (bit_or (bit_and (pc_after m) 0xf0000000) (index_to_addr i.extra))

  -- Falls through to OP_J.
  pub execute_jal : Machine → Outcome Flow
  unfolding execute_j
  execute_jal m = execute_j (link m ret_addr_reg)

  pub execute_jr : Machine → Outcome Flow
  execute_jr m = jump m (m.registers i.rs)

  -- Falls through to OP_JR.
  pub execute_jalr : Machine → Outcome Flow
  unfolding execute_jr
  execute_jalr m = execute_jr (link m i.rd)
