-- ===== src/Machine/Execute/Integer.antt =====
-- The cases of `OneInstruction` that compute with integers.
pub mod Overflow
pub mod Shifts
pub mod Sound
use cs107_nach_os.Common.{
  ℕ, ◌+◌, ◌-◌, ◌*◌, ◌/◌, ◌%◌, ◌^◌, ◌≡◌, Bool, true, false, not, ◌&&◌, ◌||◌, bit_and, bit_or,
  bit_xor, ltb, Outcome, ok, aborted, ◌==◌, if◌then◌else◌,
}
use cs107_nach_os.Common.Words.{add32, sub32, not32, shl32, sra32, slt, div32, rem32}
use cs107_nach_os.Machine.{Machine, Handler, overflow_exception, set_register, hi_reg, lo_reg}
use cs107_nach_os.Machine.Instruction.{Instruction}
use cs107_nach_os.Machine.Multiply.{mult}
use cs107_nach_os.Machine.Execute.Ending.{Flow, go_on, put, trap, sign_set}

module _ (handler : Handler) (i : Instruction) (m : Machine) where
  pub execute_add : Outcome Flow
  execute_add =
      let a = m.registers i.rs in
      let b = m.registers i.rt in
      let sum = add32 a b in
      if not (sign_set (bit_xor a b)) && sign_set (bit_xor a sum)
      then trap handler m overflow_exception 0
      else put m i.rd sum

  pub execute_addi : Outcome Flow
  execute_addi =
      let a = m.registers i.rs in
      let sum = add32 a i.extra in
      if not (sign_set (bit_xor a i.extra)) && sign_set (bit_xor i.extra sum)
      then trap handler m overflow_exception 0
      else put m i.rt sum

  pub execute_sub : Outcome Flow
  execute_sub =
      let a = m.registers i.rs in
      let b = m.registers i.rt in
      let diff = sub32 a b in
      if sign_set (bit_xor a b) && sign_set (bit_xor a diff)
      then trap handler m overflow_exception 0
      else put m i.rd diff

module _ (i : Instruction) (m : Machine) where
  pub execute_addiu : Outcome Flow
  execute_addiu = put m i.rt (add32 (m.registers i.rs) i.extra)

  pub execute_addu : Outcome Flow
  execute_addu = put m i.rd (add32 (m.registers i.rs) (m.registers i.rt))

  pub execute_subu : Outcome Flow
  execute_subu = put m i.rd (sub32 (m.registers i.rs) (m.registers i.rt))

  pub execute_and : Outcome Flow
  execute_and = put m i.rd (bit_and (m.registers i.rs) (m.registers i.rt))

  pub execute_andi : Outcome Flow
  execute_andi = put m i.rt (bit_and (m.registers i.rs) (bit_and i.extra 0xffff))

  pub execute_nor : Outcome Flow
  execute_nor = put m i.rd (not32 (bit_or (m.registers i.rs) (m.registers i.rt)))

  pub execute_or : Outcome Flow
  execute_or = put m i.rd (bit_or (m.registers i.rs) (m.registers i.rt))

  pub execute_ori : Outcome Flow
  execute_ori = put m i.rt (bit_or (m.registers i.rs) (bit_and i.extra 0xffff))

  pub execute_xor : Outcome Flow
  execute_xor = put m i.rd (bit_xor (m.registers i.rs) (m.registers i.rt))

  pub execute_xori : Outcome Flow
  execute_xori = put m i.rt (bit_xor (m.registers i.rs) (bit_and i.extra 0xffff))

  pub execute_lui : Outcome Flow
  execute_lui = put m i.rt (shl32 i.extra 16)

  abbrev hi_lo : ℕ × ℕ → Machine
  hi_lo (hi, lo) = set_register (set_register m hi_reg hi) lo_reg lo

  -- The host traps where the quotient does not fit an int.
  pub execute_div : Outcome Flow
  execute_div =
      let a = m.registers i.rs in
      let b = m.registers i.rt in
      if b == 0
      then go_on m (hi_lo (0, 0))
      else if (a == 2 ^ 31) && (b == 2 ^ 32 - 1)
      then aborted
      else go_on m (hi_lo (rem32 a b, div32 a b))

  pub execute_divu : Outcome Flow
  execute_divu =
      let a = m.registers i.rs in
      let b = m.registers i.rt in
      if b == 0 then go_on m (hi_lo (0, 0)) else go_on m (hi_lo (a % b, a / b))

  pub execute_mult : Bool → Outcome Flow
  execute_mult signed_arith =
      go_on m (hi_lo (mult (m.registers i.rs) (m.registers i.rt) signed_arith))

  pub execute_mfhi : Outcome Flow
  execute_mfhi = put m i.rd (m.registers hi_reg)

  pub execute_mflo : Outcome Flow
  execute_mflo = put m i.rd (m.registers lo_reg)

  pub execute_mthi : Outcome Flow
  execute_mthi = put m hi_reg (m.registers i.rs)

  pub execute_mtlo : Outcome Flow
  execute_mtlo = put m lo_reg (m.registers i.rs)

  abbrev shift_amount : ℕ
  shift_amount = bit_and (m.registers i.rs) 0x1f

  pub execute_sll : Outcome Flow
  execute_sll = put m i.rd (shl32 (m.registers i.rt) i.extra)

  pub execute_sllv : Outcome Flow
  execute_sllv = put m i.rd (shl32 (m.registers i.rt) shift_amount)

  pub execute_sra : Outcome Flow
  execute_sra = put m i.rd (sra32 (m.registers i.rt) i.extra)

  pub execute_srav : Outcome Flow
  execute_srav = put m i.rd (sra32 (m.registers i.rt) shift_amount)

  -- `tmp` is an int, so `>>=` copies its sign bit.
  pub execute_srl : Outcome Flow
  execute_srl = let tmp = m.registers i.rt in put m i.rd (sra32 tmp i.extra)

  pub execute_srlv : Outcome Flow
  execute_srlv = let tmp = m.registers i.rt in put m i.rd (sra32 tmp shift_amount)

  pub execute_slt : Outcome Flow
  execute_slt = put m i.rd (if slt (m.registers i.rs) (m.registers i.rt) then 1 else 0)

  pub execute_slti : Outcome Flow
  execute_slti = put m i.rt (if slt (m.registers i.rs) i.extra then 1 else 0)

  pub execute_sltiu : Outcome Flow
  execute_sltiu = put m i.rt (if ltb (m.registers i.rs) i.extra then 1 else 0)

  pub execute_sltu : Outcome Flow
  execute_sltu = put m i.rd (if ltb (m.registers i.rs) (m.registers i.rt) then 1 else 0)
