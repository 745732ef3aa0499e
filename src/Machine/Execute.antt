-- ===== src/Machine/Execute.antt =====
-- `OneInstruction` of NachOS-4.0/code/machine/mipssim.cc, as compiled with SIM_FIX.
pub mod Ending
pub mod Integer
pub mod Branch
pub mod Transfer
pub mod Sound
use cs107_nach_os.Common.{ℕ, Option, none, some, true, false, Outcome, ok, aborted, ◌>>=◌}
use cs107_nach_os.Machine.{
  Machine, Handler, syscall_exception, illegal_instr_exception, delayed_load, write, pc_reg,
  next_pc_reg, prev_pc_reg,
}
use cs107_nach_os.Machine.Instruction.{Op, Instruction, decode}
use cs107_nach_os.Machine.Memory.{read_mem}
use Ending.{Flow, Effect, finished, returned, trap}
use Integer.{
  execute_add, execute_addi, execute_sub, execute_mult, execute_addiu, execute_addu, execute_and,
  execute_andi, execute_div, execute_divu, execute_lui, execute_mfhi, execute_mflo, execute_mthi,
  execute_mtlo, execute_nor, execute_or, execute_ori, execute_sll, execute_sllv, execute_slt,
  execute_slti, execute_sltiu, execute_sltu, execute_sra, execute_srav, execute_srl, execute_srlv,
  execute_subu, execute_xor, execute_xori,
}
use Branch.{
  execute_beq, execute_bgez, execute_bgezal, execute_bgtz, execute_blez, execute_bltz,
  execute_bltzal, execute_bne, execute_j, execute_jal, execute_jalr, execute_jr,
}
use Transfer.{
  execute_lw, execute_lwl, execute_lwr, execute_sb, execute_sh, execute_sw, execute_swl,
  execute_swr, execute_lb, execute_lh,
}

-- The switch. The last case is its default, an assertion that fails.
pub execute_case : Handler → Op → Instruction → Machine → Outcome Flow
execute_case handler Op.add i m = execute_add handler i m
execute_case handler Op.addi i m = execute_addi handler i m
execute_case handler Op.addiu i m = execute_addiu i m
execute_case handler Op.addu i m = execute_addu i m
execute_case handler Op.and i m = execute_and i m
execute_case handler Op.andi i m = execute_andi i m
execute_case handler Op.beq i m = execute_beq i m
execute_case handler Op.bgez i m = execute_bgez i m
execute_case handler Op.bgezal i m = execute_bgezal i m
execute_case handler Op.bgtz i m = execute_bgtz i m
execute_case handler Op.blez i m = execute_blez i m
execute_case handler Op.bltz i m = execute_bltz i m
execute_case handler Op.bltzal i m = execute_bltzal i m
execute_case handler Op.bne i m = execute_bne i m
execute_case handler Op.div i m = execute_div i m
execute_case handler Op.divu i m = execute_divu i m
execute_case handler Op.j i m = execute_j i m
execute_case handler Op.jal i m = execute_jal i m
execute_case handler Op.jalr i m = execute_jalr i m
execute_case handler Op.jr i m = execute_jr i m
execute_case handler Op.lb i m = execute_lb handler i m true
execute_case handler Op.lbu i m = execute_lb handler i m false
execute_case handler Op.lh i m = execute_lh handler i m true
execute_case handler Op.lhu i m = execute_lh handler i m false
execute_case handler Op.lui i m = execute_lui i m
execute_case handler Op.lw i m = execute_lw handler i m
execute_case handler Op.lwl i m = execute_lwl handler i m
execute_case handler Op.lwr i m = execute_lwr handler i m
execute_case handler Op.mfhi i m = execute_mfhi i m
execute_case handler Op.mflo i m = execute_mflo i m
execute_case handler Op.mthi i m = execute_mthi i m
execute_case handler Op.mtlo i m = execute_mtlo i m
execute_case handler Op.mult i m = execute_mult i m true
execute_case handler Op.multu i m = execute_mult i m false
execute_case handler Op.nor i m = execute_nor i m
execute_case handler Op.or i m = execute_or i m
execute_case handler Op.ori i m = execute_ori i m
execute_case handler Op.rfe i m = aborted
execute_case handler Op.sb i m = execute_sb handler i m
execute_case handler Op.sh i m = execute_sh handler i m
execute_case handler Op.sll i m = execute_sll i m
execute_case handler Op.sllv i m = execute_sllv i m
execute_case handler Op.slt i m = execute_slt i m
execute_case handler Op.slti i m = execute_slti i m
execute_case handler Op.sltiu i m = execute_sltiu i m
execute_case handler Op.sltu i m = execute_sltu i m
execute_case handler Op.sra i m = execute_sra i m
execute_case handler Op.srav i m = execute_srav i m
execute_case handler Op.srl i m = execute_srl i m
execute_case handler Op.srlv i m = execute_srlv i m
execute_case handler Op.sub i m = execute_sub handler i m
execute_case handler Op.subu i m = execute_subu i m
execute_case handler Op.sw i m = execute_sw handler i m
execute_case handler Op.swl i m = execute_swl handler i m
execute_case handler Op.swr i m = execute_swr handler i m
execute_case handler Op.xor i m = execute_xor i m
execute_case handler Op.xori i m = execute_xori i m
execute_case handler Op.syscall i m = trap handler m syscall_exception 0
execute_case handler Op.unimp i m = trap handler m illegal_instr_exception 0
execute_case handler Op.res i m = trap handler m illegal_instr_exception 0
execute_case handler Op.special i m = aborted
execute_case handler Op.bcond i m = aborted

-- After the switch: the delayed load, and the program counters.
pub retire : Effect → Machine
retire e =
    let m = delayed_load e.machine e.next_load_reg e.next_load_value in
    let r1 = write m.registers prev_pc_reg (m.registers pc_reg) in
    let r2 = write r1 pc_reg (m.registers next_pc_reg) in
    record m { registers = write r2 next_pc_reg e.pc_after }

pub leave : Flow → Machine
leave (finished e) = retire e
leave (returned m) = m

pub one_instruction : Handler → Machine → Outcome Machine
one_instruction handler m = do
  (raw, m') ← read_mem handler m (m.registers pc_reg) 4
  elim raw [
    | none ↦ ok m'
    | some value ↦ do let i = decode value; f ← execute_case handler i.op_code i m'; ok (leave f)
  ]
