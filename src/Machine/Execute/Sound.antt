-- ===== src/Machine/Execute/Sound.antt =====
-- Every instruction keeps registers at words, register 0 at 0 and the memory at bytes.
use cs107_nach_os.Common.{ℕ, true, false, Option, none, some, Outcome, ok, ◌>>=◌, arith}
use cs107_nach_os.Common.Words.{IsWord}
use cs107_nach_os.Machine.{
  Machine, Handler, syscall_exception, illegal_instr_exception, delayed_load, pc_reg,
}
use cs107_nach_os.Machine.Sound.{
  IsSound, IsSettled, KeepsSettled, Always, Always-bind, delayed_load-IsSettled,
}
use cs107_nach_os.Machine.Instruction.{Op, Instruction, decode}
use cs107_nach_os.Machine.Instruction.Fields.{decode_bounds}
use cs107_nach_os.Machine.Memory.{read_mem}
use cs107_nach_os.Machine.Memory.Sound.{IsRead, got, read_mem-IsRead}
use cs107_nach_os.Machine.Execute.Ending.{Effect, Flow, finished, returned}
use cs107_nach_os.Machine.Execute.Ending.Sound.{
  IsSoundEffect, IsSoundFlow, IsSoundCase, trap-IsSound,
}
use cs107_nach_os.Machine.Execute.Integer.Sound.{
  execute_add-IsSound, execute_addi-IsSound, execute_addiu-IsSound, execute_addu-IsSound,
  execute_and-IsSound, execute_andi-IsSound, execute_div-IsSound, execute_divu-IsSound,
  execute_lui-IsSound, execute_mfhi-IsSound, execute_mflo-IsSound, execute_mthi-IsSound,
  execute_mtlo-IsSound, execute_nor-IsSound, execute_or-IsSound, execute_ori-IsSound,
  execute_sll-IsSound, execute_sllv-IsSound, execute_slt-IsSound, execute_slti-IsSound,
  execute_sltiu-IsSound, execute_sltu-IsSound, execute_sra-IsSound, execute_srav-IsSound,
  execute_srl-IsSound, execute_srlv-IsSound, execute_sub-IsSound, execute_subu-IsSound,
  execute_xor-IsSound, execute_xori-IsSound, execute_mult-IsSound,
}
use cs107_nach_os.Machine.Execute.Branch.Sound.{
  execute_beq-IsSound, execute_bgez-IsSound, execute_bgezal-IsSound, execute_bgtz-IsSound,
  execute_blez-IsSound, execute_bltz-IsSound, execute_bltzal-IsSound, execute_bne-IsSound,
  execute_j-IsSound, execute_jal-IsSound, execute_jalr-IsSound, execute_jr-IsSound,
}
use cs107_nach_os.Machine.Execute.Transfer.Sound.{
  execute_lw-IsSound, execute_lwl-IsSound, execute_lwr-IsSound, execute_sb-IsSound,
  execute_sh-IsSound, execute_sw-IsSound, execute_swl-IsSound, execute_swr-IsSound,
  execute_lb-IsSound, execute_lh-IsSound,
}
use cs107_nach_os.Machine.Execute.{execute_case, retire, leave, one_instruction}

module _ (handler : Handler) (keeps : KeepsSettled handler) where
  execute_case-IsSound :
      (o : Op) (i : Instruction) (m : Machine)
      → IsSound m
      → IsWord i.rt
      → IsWord i.extra
      → IsSoundCase (execute_case handler o i m)
  unfolding execute_case
  execute_case-IsSound Op.add i m s r e = execute_add-IsSound i m s e handler keeps
  execute_case-IsSound Op.addi i m s r e = execute_addi-IsSound i m s e handler keeps
  execute_case-IsSound Op.addiu i m s r e = execute_addiu-IsSound i m s e
  execute_case-IsSound Op.addu i m s r e = execute_addu-IsSound i m s e
  execute_case-IsSound Op.and i m s r e = execute_and-IsSound i m s e
  execute_case-IsSound Op.andi i m s r e = execute_andi-IsSound i m s e
  execute_case-IsSound Op.div i m s r e = execute_div-IsSound i m s e
  execute_case-IsSound Op.divu i m s r e = execute_divu-IsSound i m s e
  execute_case-IsSound Op.lui i m s r e = execute_lui-IsSound i m s e
  execute_case-IsSound Op.mfhi i m s r e = execute_mfhi-IsSound i m s e
  execute_case-IsSound Op.mflo i m s r e = execute_mflo-IsSound i m s e
  execute_case-IsSound Op.mthi i m s r e = execute_mthi-IsSound i m s e
  execute_case-IsSound Op.mtlo i m s r e = execute_mtlo-IsSound i m s e
  execute_case-IsSound Op.nor i m s r e = execute_nor-IsSound i m s e
  execute_case-IsSound Op.or i m s r e = execute_or-IsSound i m s e
  execute_case-IsSound Op.ori i m s r e = execute_ori-IsSound i m s e
  execute_case-IsSound Op.sll i m s r e = execute_sll-IsSound i m s e
  execute_case-IsSound Op.sllv i m s r e = execute_sllv-IsSound i m s e
  execute_case-IsSound Op.slt i m s r e = execute_slt-IsSound i m s e
  execute_case-IsSound Op.slti i m s r e = execute_slti-IsSound i m s e
  execute_case-IsSound Op.sltiu i m s r e = execute_sltiu-IsSound i m s e
  execute_case-IsSound Op.sltu i m s r e = execute_sltu-IsSound i m s e
  execute_case-IsSound Op.sra i m s r e = execute_sra-IsSound i m s e
  execute_case-IsSound Op.srav i m s r e = execute_srav-IsSound i m s e
  execute_case-IsSound Op.srl i m s r e = execute_srl-IsSound i m s e
  execute_case-IsSound Op.srlv i m s r e = execute_srlv-IsSound i m s e
  execute_case-IsSound Op.sub i m s r e = execute_sub-IsSound i m s e handler keeps
  execute_case-IsSound Op.subu i m s r e = execute_subu-IsSound i m s e
  execute_case-IsSound Op.xor i m s r e = execute_xor-IsSound i m s e
  execute_case-IsSound Op.xori i m s r e = execute_xori-IsSound i m s e
  execute_case-IsSound Op.mult i m s r e = execute_mult-IsSound i m s e true
  execute_case-IsSound Op.multu i m s r e = execute_mult-IsSound i m s e false
  execute_case-IsSound Op.beq i m s r e = execute_beq-IsSound i m s
  execute_case-IsSound Op.bgez i m s r e = execute_bgez-IsSound i m s
  execute_case-IsSound Op.bgezal i m s r e = execute_bgezal-IsSound i m s
  execute_case-IsSound Op.bgtz i m s r e = execute_bgtz-IsSound i m s
  execute_case-IsSound Op.blez i m s r e = execute_blez-IsSound i m s
  execute_case-IsSound Op.bltz i m s r e = execute_bltz-IsSound i m s
  execute_case-IsSound Op.bltzal i m s r e = execute_bltzal-IsSound i m s
  execute_case-IsSound Op.bne i m s r e = execute_bne-IsSound i m s
  execute_case-IsSound Op.j i m s r e = execute_j-IsSound i m s
  execute_case-IsSound Op.jal i m s r e = execute_jal-IsSound i m s
  execute_case-IsSound Op.jalr i m s r e = execute_jalr-IsSound i m s
  execute_case-IsSound Op.jr i m s r e = execute_jr-IsSound i m s
  execute_case-IsSound Op.lw i m s r e = execute_lw-IsSound handler keeps i m s r
  execute_case-IsSound Op.lwl i m s r e = execute_lwl-IsSound handler keeps i m s r
  execute_case-IsSound Op.lwr i m s r e = execute_lwr-IsSound handler keeps i m s r
  execute_case-IsSound Op.sb i m s r e = execute_sb-IsSound handler keeps i m s
  execute_case-IsSound Op.sh i m s r e = execute_sh-IsSound handler keeps i m s
  execute_case-IsSound Op.sw i m s r e = execute_sw-IsSound handler keeps i m s
  execute_case-IsSound Op.swl i m s r e = execute_swl-IsSound handler keeps i m s
  execute_case-IsSound Op.swr i m s r e = execute_swr-IsSound handler keeps i m s
  execute_case-IsSound Op.lb i m s r e = execute_lb-IsSound handler keeps i m s r true
  execute_case-IsSound Op.lbu i m s r e = execute_lb-IsSound handler keeps i m s r false
  execute_case-IsSound Op.lh i m s r e = execute_lh-IsSound handler keeps i m s r true
  execute_case-IsSound Op.lhu i m s r e = execute_lh-IsSound handler keeps i m s r false
  execute_case-IsSound Op.rfe i m s r e = tt
  execute_case-IsSound Op.special i m s r e = tt
  execute_case-IsSound Op.bcond i m s r e = tt
  execute_case-IsSound Op.syscall i m s r e =
      trap-IsSound m handler syscall_exception 0 keeps s (omega arith)
  execute_case-IsSound Op.unimp i m s r e =
      trap-IsSound m handler illegal_instr_exception 0 keeps s (omega arith)
  execute_case-IsSound Op.res i m s r e =
      trap-IsSound m handler illegal_instr_exception 0 keeps s (omega arith)

  -- The delayed load writes register 0 last, and the program counters are other registers.
  retire-IsSettled : (e : Effect) → IsSoundEffect e → IsSettled (retire e)
  unfolding retire
  retire-IsSettled e s =
      let d =
        delayed_load-IsSettled e.machine e.next_load_reg e.next_load_value s.machine s.reg
          s.value in
      let m = delayed_load e.machine e.next_load_reg e.next_load_value in
      record {
        sound = record {
          words = λ r. ground (arith, d.sound.words r, d.sound.words 34, d.sound.words 35, s.pc);
          bytes = d.sound.bytes;
        };
        zero_reg = d.zero_reg;
      }

  leave-IsSettled : (f : Flow) → IsSoundFlow f → IsSettled (leave f)
  unfolding leave
  leave-IsSettled (finished e) s = retire-IsSettled e s
  leave-IsSettled (returned m) s = s

  -- When OneInstruction comes back, whichever instruction it fetched and also after a trap, every
  -- register holds a word, register 0 is 0 and the memory holds bytes, if this was so before and
  -- the kernel's handler keeps it so.
  pub one_instruction-IsSettled :
      (m : Machine) → IsSettled m → Always IsSettled (one_instruction handler m)
  unfolding one_instruction
  one_instruction-IsSettled m s =
      Always-bind IsRead IsSettled (read_mem handler m (m.registers pc_reg) 4) _
        (read_mem-IsRead handler keeps m s.sound (m.registers pc_reg) 4 (s.sound.words pc_reg))
        (λ r k. go r k)
    where
      go :
          (r : Option ℕ × Machine)
          → IsRead r
          → Always IsSettled (elim r.0 as (λ _. Outcome Machine) [
            | none ↦ ok r.1
            | some value ↦ do
              let i = decode value
              f ← execute_case handler i.op_code i r.1
              ok (leave f)
          ])
      go r (got v m' w k) =
          let i = decode v in
          let (rs, rt, rd, extra) = decode_bounds v in
          Always-bind IsSoundFlow IsSettled _ _
            (execute_case-IsSound i.op_code i m' k (omega arith) extra) leave-IsSettled
      go r (IsRead.trapped m' k) = k
