-- ===== src/Machine/Execute/Integer/Sound.antt =====
-- The integer cases keep registers at words.
use cs107_nach_os.Common.{ℕ, ◌-◌, ◌^◌, Bool, not, ◌&&◌, bit_xor, ◌==◌, arith}
use native.Mathlib.Nat.{div-le_self, mod-le}
use cs107_nach_os.Common.Words.{IsWord, add32, sub32}
use cs107_nach_os.Common.WordBounds.{
  sra32-IsWord, bit_and-IsWord, bit_or-IsWord, bit_xor-IsWord, div32-IsWord, rem32-IsWord,
}
use cs107_nach_os.Machine.Execute.Ending.{go_on, sign_set}
use cs107_nach_os.Machine.{Machine, Handler, set_register, overflow_exception, hi_reg, lo_reg}
use cs107_nach_os.Machine.Sound.{IsSound, KeepsSettled, Always-if, set_register-IsSound}
use cs107_nach_os.Machine.Instruction.{Instruction}
use cs107_nach_os.Machine.Multiply.Words.{mult-AreWords}
use cs107_nach_os.Machine.Execute.Ending.Sound.{
  IsSoundFlow, IsSoundCase, go_on-IsSound, put-IsSound, trap-IsSound,
}
use cs107_nach_os.Machine.Execute.Integer.{
  execute_add, execute_addi, execute_sub, execute_mult, execute_addiu, execute_addu, execute_and,
  execute_andi, execute_div, execute_divu, execute_lui, execute_mfhi, execute_mflo, execute_mthi,
  execute_mtlo, execute_nor, execute_or, execute_ori, execute_sll, execute_sllv, execute_slt,
  execute_slti, execute_sltiu, execute_sltu, execute_sra, execute_srav, execute_srl, execute_srlv,
  execute_subu, execute_xor, execute_xori,
}

module _ (i : Instruction) (m : Machine) (s : IsSound m) (extra : IsWord i.extra) where
  abbrev rs_word : IsWord (m.registers i.rs)
  rs_word = s.words i.rs

  abbrev rt_word : IsWord (m.registers i.rt)
  rt_word = s.words i.rt

  module _ (handler : Handler) (keeps : KeepsSettled handler) where
    pub execute_add-IsSound : IsSoundCase (execute_add handler i m)
    unfolding execute_add
    execute_add-IsSound =
        Always-if IsSoundFlow
          (not (sign_set (bit_xor (m.registers i.rs) (m.registers i.rt)))
            && sign_set (bit_xor (m.registers i.rs) (add32 (m.registers i.rs) (m.registers i.rt))))
          _ _ (trap-IsSound m handler overflow_exception 0 keeps s (omega arith))
          (put-IsSound m i.rd (add32 (m.registers i.rs) (m.registers i.rt)) s (omega arith))

    pub execute_addi-IsSound : IsSoundCase (execute_addi handler i m)
    unfolding execute_addi
    execute_addi-IsSound =
        Always-if IsSoundFlow
          (not (sign_set (bit_xor (m.registers i.rs) i.extra))
            && sign_set (bit_xor i.extra (add32 (m.registers i.rs) i.extra)))
          _ _ (trap-IsSound m handler overflow_exception 0 keeps s (omega arith))
          (put-IsSound m i.rt (add32 (m.registers i.rs) i.extra) s (omega arith))

    pub execute_sub-IsSound : IsSoundCase (execute_sub handler i m)
    unfolding execute_sub
    execute_sub-IsSound =
        Always-if IsSoundFlow
          (sign_set (bit_xor (m.registers i.rs) (m.registers i.rt))
            && sign_set (bit_xor (m.registers i.rs) (sub32 (m.registers i.rs) (m.registers i.rt))))
          _ _ (trap-IsSound m handler overflow_exception 0 keeps s (omega arith))
          (put-IsSound m i.rd (sub32 (m.registers i.rs) (m.registers i.rt)) s (omega arith))

  pub execute_addiu-IsSound : IsSoundCase (execute_addiu i m)
  unfolding execute_addiu
  execute_addiu-IsSound = put-IsSound m i.rt _ s (omega arith)

  pub execute_addu-IsSound : IsSoundCase (execute_addu i m)
  unfolding execute_addu
  execute_addu-IsSound = put-IsSound m i.rd _ s (omega arith)

  pub execute_subu-IsSound : IsSoundCase (execute_subu i m)
  unfolding execute_subu
  execute_subu-IsSound = put-IsSound m i.rd _ s (omega arith)

  pub execute_and-IsSound : IsSoundCase (execute_and i m)
  unfolding execute_and
  execute_and-IsSound = put-IsSound m i.rd _ s (bit_and-IsWord _ _ rs_word)

  pub execute_andi-IsSound : IsSoundCase (execute_andi i m)
  unfolding execute_andi
  execute_andi-IsSound = put-IsSound m i.rt _ s (bit_and-IsWord _ _ rs_word)

  pub execute_nor-IsSound : IsSoundCase (execute_nor i m)
  unfolding execute_nor
  execute_nor-IsSound = put-IsSound m i.rd _ s (omega arith)

  pub execute_or-IsSound : IsSoundCase (execute_or i m)
  unfolding execute_or
  execute_or-IsSound = put-IsSound m i.rd _ s (bit_or-IsWord _ _ rs_word rt_word)

  pub execute_ori-IsSound : IsSoundCase (execute_ori i m)
  unfolding execute_ori
  execute_ori-IsSound =
      put-IsSound m i.rt _ s (bit_or-IsWord _ _ rs_word (bit_and-IsWord _ _ extra))

  pub execute_xor-IsSound : IsSoundCase (execute_xor i m)
  unfolding execute_xor
  execute_xor-IsSound = put-IsSound m i.rd _ s (bit_xor-IsWord _ _ rs_word rt_word)

  pub execute_xori-IsSound : IsSoundCase (execute_xori i m)
  unfolding execute_xori
  execute_xori-IsSound =
      put-IsSound m i.rt _ s (bit_xor-IsWord _ _ rs_word (bit_and-IsWord _ _ extra))

  pub execute_lui-IsSound : IsSoundCase (execute_lui i m)
  unfolding execute_lui
  execute_lui-IsSound = put-IsSound m i.rt _ s (omega arith)

  pub execute_mfhi-IsSound : IsSoundCase (execute_mfhi i m)
  unfolding execute_mfhi
  execute_mfhi-IsSound = put-IsSound m i.rd _ s (s.words hi_reg)

  pub execute_mflo-IsSound : IsSoundCase (execute_mflo i m)
  unfolding execute_mflo
  execute_mflo-IsSound = put-IsSound m i.rd _ s (s.words lo_reg)

  pub execute_sll-IsSound : IsSoundCase (execute_sll i m)
  unfolding execute_sll
  execute_sll-IsSound = put-IsSound m i.rd _ s (omega arith)

  pub execute_sllv-IsSound : IsSoundCase (execute_sllv i m)
  unfolding execute_sllv
  execute_sllv-IsSound = put-IsSound m i.rd _ s (omega arith)

  pub execute_sra-IsSound : IsSoundCase (execute_sra i m)
  unfolding execute_sra
  execute_sra-IsSound = put-IsSound m i.rd _ s (sra32-IsWord _ _ rt_word)

  pub execute_srav-IsSound : IsSoundCase (execute_srav i m)
  unfolding execute_srav
  execute_srav-IsSound = put-IsSound m i.rd _ s (sra32-IsWord _ _ rt_word)

  pub execute_srl-IsSound : IsSoundCase (execute_srl i m)
  unfolding execute_srl
  execute_srl-IsSound = put-IsSound m i.rd _ s (sra32-IsWord _ _ rt_word)

  pub execute_srlv-IsSound : IsSoundCase (execute_srlv i m)
  unfolding execute_srlv
  execute_srlv-IsSound = put-IsSound m i.rd _ s (sra32-IsWord _ _ rt_word)

  pub execute_slt-IsSound : IsSoundCase (execute_slt i m)
  unfolding execute_slt
  execute_slt-IsSound = put-IsSound m i.rd _ s (ground arith)

  pub execute_slti-IsSound : IsSoundCase (execute_slti i m)
  unfolding execute_slti
  execute_slti-IsSound = put-IsSound m i.rt _ s (ground arith)

  pub execute_sltiu-IsSound : IsSoundCase (execute_sltiu i m)
  unfolding execute_sltiu
  execute_sltiu-IsSound = put-IsSound m i.rt _ s (ground arith)

  pub execute_sltu-IsSound : IsSoundCase (execute_sltu i m)
  unfolding execute_sltu
  execute_sltu-IsSound = put-IsSound m i.rd _ s (ground arith)

  pub execute_mthi-IsSound : IsSoundCase (execute_mthi i m)
  unfolding execute_mthi
  execute_mthi-IsSound = put-IsSound m hi_reg _ s rs_word

  pub execute_mtlo-IsSound : IsSoundCase (execute_mtlo i m)
  unfolding execute_mtlo
  execute_mtlo-IsSound = put-IsSound m lo_reg _ s rs_word

  -- A double register of words.
  hi_lo-IsSound :
      (hi lo : ℕ)
      → IsWord hi
      → IsWord lo
      → IsSoundCase (go_on m (set_register (set_register m hi_reg hi) lo_reg lo))
  hi_lo-IsSound hi lo h l =
      go_on-IsSound m _ (set_register-IsSound _ lo_reg lo (set_register-IsSound m hi_reg hi s h) l)

  pub execute_div-IsSound : IsSoundCase (execute_div i m)
  unfolding execute_div
  execute_div-IsSound =
      Always-if IsSoundFlow (m.registers i.rt == 0) _ _
        (hi_lo-IsSound 0 0 (omega arith) (omega arith))
        (Always-if IsSoundFlow ((m.registers i.rs == 2 ^ 31) && (m.registers i.rt == 2 ^ 32 - 1)) _
          _ tt
          (hi_lo-IsSound _ _ (rem32-IsWord (m.registers i.rs) (m.registers i.rt) rs_word)
            (div32-IsWord (m.registers i.rs) (m.registers i.rt))))

  pub execute_divu-IsSound : IsSoundCase (execute_divu i m)
  unfolding execute_divu
  execute_divu-IsSound =
      Always-if IsSoundFlow (m.registers i.rt == 0) _ _
        (hi_lo-IsSound 0 0 (omega arith) (omega arith))
        (hi_lo-IsSound _ _ (omega (arith, rs_word, mod-le (m.registers i.rs) (m.registers i.rt)))
          (omega (arith, rs_word, div-le_self (m.registers i.rs) (m.registers i.rt))))

  pub execute_mult-IsSound : (signed : Bool) → IsSoundCase (execute_mult i m signed)
  unfolding execute_mult
  execute_mult-IsSound signed =
      let (h, l) = mult-AreWords (m.registers i.rs) (m.registers i.rt) signed rs_word rt_word in
      hi_lo-IsSound _ _ h l
