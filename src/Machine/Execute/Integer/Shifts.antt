-- ===== src/Machine/Execute/Integer/Shifts.antt =====
-- The shifts and the division of `OneInstruction`.
use native.Mathlib.Nat.{div-mul-le_self, div-le_self, mod-le, div-add-mod'}
use cs107_nach_os.Common.{
  ℕ, ◌-◌, ◌*◌, ◌/◌, ◌%◌, ◌^◌, ◌≤◌, ◌<◌, ◌≡◌, ◌≢◌, ◌∙◌, refl, ap, inl, inr, Bool, true, false, not,
  ◌&&◌, Outcome, ok, aborted, ◌==◌, if◌then◌else◌, arith, Bool-cases, zero, suc,
}
use cs107_nach_os.Common.Bits.{pow-lt-pow}
use cs107_nach_os.Common.Int.{◌+ℤ◌, ◌*ℤ◌}
use cs107_nach_os.Common.Words.{
  IsWord, with_sign, with_sign-mul, with_sign-add, to_ℤ-magnitude, neg32, to_ℤ, is_negative, sra32,
  srl32, div32, rem32, magnitude,
}
use cs107_nach_os.Machine.{Machine, hi_reg, lo_reg}
use cs107_nach_os.Machine.Instruction.{Instruction}
use cs107_nach_os.Machine.Execute.Ending.{Flow, finished, returned, put}
use cs107_nach_os.Machine.Execute.Integer.{execute_srl, execute_sra, execute_div}

-- What a case leaves in a register, if it ends.
abbrev pub left_in : ℕ → Outcome Flow → ℕ
left_in reg (ok (finished e)) = e.machine.registers reg
left_in reg (ok (returned m)) = 0
left_in reg aborted = 0

sra32-ne-srl32 : (a k : ℕ) → is_negative a ≡ true → 0 < k → sra32 a k ≢ srl32 a k
sra32-ne-srl32 a zero n h = elim h [ ]
sra32-ne-srl32 a (suc k) n h =
    rw n (λ e. absurd (omega (arith, pow-lt-pow (32 - suc k) 32 (omega arith))))

module _ (i : Instruction) (m : Machine) where
  -- SRL is right on the numbers that are not negative.
  pub execute_srl_nonneg :
      is_negative (m.registers i.rt) ≡ false
      → execute_srl i m ≡ put m i.rd (srl32 (m.registers i.rt) i.extra)
  unfolding execute_srl
  execute_srl_nonneg h = rw h refl

  -- On every register with the top bit set and every shift of 1 to 31 places, SRL leaves another
  -- number than the logical shift: it does what SRA does.
  pub execute_srl_negative :
      is_negative (m.registers i.rt) ≡ true
      → 0 < i.extra
      → i.extra < 32
      → (left_in i.rd (execute_srl i m) ≢ srl32 (m.registers i.rt) i.extra)
        × (execute_srl i m ≡ execute_sra i m)
  unfolding execute_srl execute_sra
  execute_srl_negative h p q =
      (λ e. sra32-ne-srl32 (m.registers i.rt) i.extra h p (ground arith), refl)

-- A quotient of magnitudes reaches 2 ^ 31 only for a divisor of magnitude 1.
quotient_small : (x y : ℕ) → x ≤ 2 ^ 31 → 2 ≤ y → x / y < 2 ^ 31
quotient_small x y p q =
    let le : x / y * y ≤ x = div-mul-le_self x y in
    let half : x / y * 2 ≤ x / y * y = grind arith in omega arith

quotient-le : (x y : ℕ) → x ≤ 2 ^ 31 → x / y ≤ 2 ^ 31
quotient-le x y p = omega (arith, div-le_self x y)

-- A magnitude with its sign is the int that stands for it.
to_ℤ-neg32 : (x : ℕ) → x ≤ 2 ^ 31 → to_ℤ (neg32 x) ≡ with_sign true x
to_ℤ-neg32 x h = ground arith

to_ℤ-mod : (x : ℕ) → x < 2 ^ 31 → to_ℤ (x % 2 ^ 32) ≡ with_sign false x
to_ℤ-mod x h = ground arith

same_quotient :
    (a b : ℕ)
    → IsWord a
    → IsWord b
    → b ≢ 0
    → (a == 2 ^ 31) && (b == 2 ^ 32 - 1) ≡ false
    → to_ℤ (div32 a b)
      ≡ with_sign
          (if is_negative b then not (is_negative a) else is_negative a)
          (magnitude a / magnitude b)
same_quotient a b p q h n = elim (Bool-cases (is_negative a)) [
  | inl na ↦ elim (Bool-cases (is_negative b)) [
    | inl nb ↦
        rw (na, nb)
          (to_ℤ-mod _ (
            ground (
              arith,
              quotient_small (2 ^ 32 - a) (2 ^ 32 - b),
              div-le_self (2 ^ 32 - a) (2 ^ 32 - b),
            )))
    | inr nb ↦ rw (na, nb) (to_ℤ-neg32 _ (quotient-le (2 ^ 32 - a) b (ground arith)))
  ]
  | inr na ↦ elim (Bool-cases (is_negative b)) [
    | inl nb ↦ rw (na, nb) (to_ℤ-neg32 _ (quotient-le a (2 ^ 32 - b) (ground arith)))
    | inr nb ↦ rw (na, nb) (to_ℤ-mod _ (ground (arith, div-le_self a b)))
  ]
]

same_remainder :
    (a b : ℕ)
    → IsWord a
    → IsWord b
    → b ≢ 0
    → to_ℤ (rem32 a b) ≡ with_sign (is_negative a) (magnitude a % magnitude b)
same_remainder a b p q h = elim (Bool-cases (is_negative a)) [
  | inl na ↦ rw na (to_ℤ-neg32 _ (ground (arith, mod-le (2 ^ 32 - a) (magnitude b))))
  | inr na ↦ rw na (ground (arith, mod-le a (magnitude b)))
]

same_sign :
    (s t : Bool) → (if t then not (if t then not s else s) else (if t then not s else s)) ≡ s
same_sign true true = refl
same_sign true false = refl
same_sign false true = refl
same_sign false false = refl

-- The quotient and the remainder that DIV leaves make up the dividend again.
pub div_rem :
    (a b : ℕ)
    → IsWord a
    → IsWord b
    → b ≢ 0
    → (a == 2 ^ 31) && (b == 2 ^ 32 - 1) ≡ false
    → to_ℤ (div32 a b) *ℤ to_ℤ b +ℤ to_ℤ (rem32 a b) ≡ to_ℤ a
div_rem a b p q h n =
    rw (same_quotient a b p q h n, to_ℤ-magnitude b q, same_remainder a b p q h, to_ℤ-magnitude a p)
      (rw (with_sign-mul _ (is_negative b) (magnitude a / magnitude b) (magnitude b)) (
        rw (same_sign (is_negative a) (is_negative b)) (
          with_sign-add (is_negative a) _ _
          ∙ ap (with_sign (is_negative a)) (div-add-mod' (magnitude a) (magnitude b)))))

-- DIV on word registers with a divisor that is not 0, other than the least int by -1, leaves a
-- quotient in LO and a remainder in HI that make up the dividend: quotient * divisor + remainder =
-- dividend, over the integers.
execute_div_exact :
    (i : Instruction) (m : Machine)
    → IsWord (m.registers i.rs)
    → IsWord (m.registers i.rt)
    → m.registers i.rt ≢ 0
    → (m.registers i.rs == 2 ^ 31) && (m.registers i.rt == 2 ^ 32 - 1) ≡ false
    → to_ℤ (left_in lo_reg (execute_div i m)) *ℤ to_ℤ (m.registers i.rt)
        +ℤ to_ℤ (left_in hi_reg (execute_div i m))
      ≡ to_ℤ (m.registers i.rs)
unfolding execute_div
execute_div_exact i m p q h n =
    let e : (m.registers i.rt == 0) ≡ false = ground arith in
    rw (e, n) (div_rem (m.registers i.rs) (m.registers i.rt) p q h n)
