-- ===== src/Machine/Execute/Integer/Overflow.antt =====
-- The tests for overflow in the cases of ADD and SUB of `OneInstruction`: a trap just where the
-- result does not fit an int.
use cs107_nach_os.Common.{
  ℕ, ◌-◌, ◌^◌, ◌≡◌, refl, inl, inr, true, false, not, ◌&&◌, bit_xor, Outcome, if◌then◌else◌, arith,
  Bool-cases,
}
use cs107_nach_os.Common.Bits.{bit_and-pow_div, bit_xor-and-pow}
use cs107_nach_os.Common.Int.{ℤ, pos, negsuc, ◌+ℤ◌, ◌-ℤ◌, ◌≤ℤ◌}
use cs107_nach_os.Common.Words.{IsWord, add32, sub32, to_ℤ, is_negative}
use cs107_nach_os.Machine.{Machine, Handler, overflow_exception}
use cs107_nach_os.Machine.Instruction.{Instruction}
use cs107_nach_os.Machine.Execute.Ending.{Flow, put, trap, sign_set}
use cs107_nach_os.Machine.Execute.Integer.{execute_add, execute_sub}

-- The integers of an int.
abbrev pub FitsInt : ℤ → Type 0
FitsInt z = (negsuc (2 ^ 31 - 1) ≤ℤ z) × (z ≤ℤ pos (2 ^ 31 - 1))

sign_set-is_negative : (a : ℕ) → IsWord a → sign_set a ≡ is_negative a
sign_set-is_negative a p = ground (arith, bit_and-pow_div 31 a)

-- The exclusive or has the sign bit where the signs differ.
sign_set-xor :
    (a b : ℕ)
    → IsWord a
    → IsWord b
    → sign_set (bit_xor a b) ≡ (if is_negative a then not (is_negative b) else is_negative b)
sign_set-xor a b p q = ground (arith, bit_xor-and-pow 31 a b)

-- A sum that fits is exact; one that does not has the sign that neither summand has.
add32-exact :
    (a b : ℕ)
    → IsWord a
    → IsWord b
    → FitsInt (to_ℤ a +ℤ to_ℤ b)
    → to_ℤ (add32 a b) ≡ to_ℤ a +ℤ to_ℤ b
unfolding ◌+ℤ◌
add32-exact a b p q h = ground arith

add32_sign :
    (a b : ℕ)
    → IsWord a
    → IsWord b
    → not (if is_negative a then not (is_negative b) else is_negative b)
        && (if is_negative a then not (is_negative (add32 a b)) else is_negative (add32 a b))
      ≡ false
    → FitsInt (to_ℤ a +ℤ to_ℤ b)
unfolding ◌+ℤ◌
add32_sign a b p q h = ground arith

add32_wraps :
    (a b : ℕ)
    → IsWord a
    → IsWord b
    → not (if is_negative a then not (is_negative b) else is_negative b)
        && (if is_negative a then not (is_negative (add32 a b)) else is_negative (add32 a b))
      ≡ true
    → ¬ FitsInt (to_ℤ a +ℤ to_ℤ b)
unfolding ◌+ℤ◌
add32_wraps a b p q h = ground arith

sub32-exact :
    (a b : ℕ)
    → IsWord a
    → IsWord b
    → FitsInt (to_ℤ a -ℤ to_ℤ b)
    → to_ℤ (sub32 a b) ≡ to_ℤ a -ℤ to_ℤ b
unfolding ◌-ℤ◌
sub32-exact a b p q h = ground arith

sub32_sign :
    (a b : ℕ)
    → IsWord a
    → IsWord b
    → (if is_negative a then not (is_negative b) else is_negative b)
        && (if is_negative a then not (is_negative (sub32 a b)) else is_negative (sub32 a b))
      ≡ false
    → FitsInt (to_ℤ a -ℤ to_ℤ b)
unfolding ◌-ℤ◌
sub32_sign a b p q h = ground arith

sub32_wraps :
    (a b : ℕ)
    → IsWord a
    → IsWord b
    → (if is_negative a then not (is_negative b) else is_negative b)
        && (if is_negative a then not (is_negative (sub32 a b)) else is_negative (sub32 a b))
      ≡ true
    → ¬ FitsInt (to_ℤ a -ℤ to_ℤ b)
unfolding ◌-ℤ◌
sub32_wraps a b p q h = ground arith

-- What an instruction that checks for overflow does, with exact result z, 32-bit result w.
pub data Checked (handler : Handler) (m : Machine) (reg : ℕ) (z : ℤ) (w : ℕ) (r : Outcome Flow)
    : Type 0 where
  exact : FitsInt z → to_ℤ w ≡ z → r ≡ put m reg w → Checked handler m reg z w r
  overflows : ¬ FitsInt z → r ≡ trap handler m overflow_exception 0 → Checked handler m reg z w r

module _ (handler : Handler) (i : Instruction) (m : Machine)
    (word : (k : ℕ) → IsWord (m.registers k)) where
  abbrev pub source : ℕ
  source = m.registers i.rs

  abbrev pub target : ℕ
  target = m.registers i.rt

  -- ADD on word registers writes the exact sum of the two integers when it fits an int, and
  -- otherwise raises OverflowException.
  pub execute_add-Checked :
      Checked handler m i.rd
        (to_ℤ source +ℤ to_ℤ target)
        (add32 source target)
        (execute_add handler i m)
  unfolding execute_add
  execute_add-Checked =
      let x = sign_set-xor source target (word i.rs) (word i.rt) in
      let y = sign_set-xor source (add32 source target) (word i.rs) (omega arith) in
      elim (Bool-cases (
        not (sign_set (bit_xor source target))
        && sign_set (bit_xor source (add32 source target)))) [
          | inl wrapped ↦
              overflows (add32_wraps source target (word i.rs) (word i.rt) (rw (← x, ← y) wrapped))
                (rw wrapped refl)
          | inr good ↦
              let fits = add32_sign source target (word i.rs) (word i.rt) (rw (← x, ← y) good) in
              exact fits (add32-exact source target (word i.rs) (word i.rt) fits) (rw good refl)
        ]

  -- SUB on word registers writes the exact difference of the two integers when it fits an int, and
  -- otherwise raises OverflowException.
  execute_sub-Checked :
      Checked handler m i.rd
        (to_ℤ source -ℤ to_ℤ target)
        (sub32 source target)
        (execute_sub handler i m)
  unfolding execute_sub
  execute_sub-Checked =
      let x = sign_set-xor source target (word i.rs) (word i.rt) in
      let y = sign_set-xor source (sub32 source target) (word i.rs) (omega arith) in
      elim (Bool-cases
        (sign_set (bit_xor source target) && sign_set (bit_xor source (sub32 source target)))) [
          | inl wrapped ↦
              overflows (sub32_wraps source target (word i.rs) (word i.rt) (rw (← x, ← y) wrapped))
                (rw wrapped refl)
          | inr good ↦
              let fits = sub32_sign source target (word i.rs) (word i.rt) (rw (← x, ← y) good) in
              exact fits (sub32-exact source target (word i.rs) (word i.rt) fits) (rw good refl)
        ]
