-- ===== src/Machine/Multiply/Exact.antt =====
-- The double word that `Mult` leaves is the product.
use native.Mathlib.Nat.{mod-eq_of_lt}
use cs107_nach_os.Common.{
  ℕ, zero, suc, ◌+◌, ◌-◌, ◌*◌, ◌%◌, ◌^◌, ◌≤◌, ◌<◌, ◌≡◌, refl, sym, ap, ◌∙◌, Bool, true, false, ◌==◌,
  if◌then◌else◌, arith, not, ◌||◌, inl, inr, Bool-cases, leb,
}
use cs107_nach_os.Common.Int.{ℤ, pos, negsuc, ◌*ℤ◌}
use cs107_nach_os.Common.Words.{
  with_sign, with_sign-mul, to_ℤ-magnitude, magnitude-le, IsWord, to_ℤ, magnitude, is_negative,
}
use cs107_nach_os.Machine.Multiply.{
  Loop, add_shifted, shift, rounds, negate_double, unsigned_product, mult,
}
use cs107_nach_os.Machine.Multiply.Rounds.{
  double, IsWords, bits_read, bits_read-mod, rounds-double, add_shifted-IsWords, shift-IsWords,
}

rounds-IsWords : (n : ℕ) (s : Loop) → IsWords s → IsWords (rounds n s)
unfolding rounds
rounds-IsWords zero s v = v
rounds-IsWords (suc n) s v = ground (
  arith,
  add_shifted-IsWords s v,
  rounds-IsWords n (shift s) (shift-IsWords s v),
  rounds-IsWords n (shift (add_shifted s))
      (shift-IsWords (add_shifted s) (add_shifted-IsWords s v)),
)

abbrev initial : ℕ → ℕ → Loop
initial a b = record { a = a; b_lo = b; b_hi = 0; lo = 0; hi = 0 }

initial-IsWords : (a b : ℕ) → IsWord a → IsWord b → IsWords (initial a b)
initial-IsWords a b p q = omega arith

mul-lt : (a b : ℕ) → IsWord a → IsWord b → a * b < 2 ^ 64
mul-lt a b p q = grind arith

pub unsigned_product-eq-mul :
    (a b : ℕ)
    → IsWord a
    → IsWord b
    → double (unsigned_product a b).0 (unsigned_product a b).1 ≡ a * b
unfolding unsigned_product
unsigned_product-eq-mul a b p q =
    let all_bits : bits_read 32 a ≡ a = bits_read-mod 32 a (omega arith) p ∙ mod-eq_of_lt p in
    let e : 0 * 2 ^ 32 + 0 + (0 * 2 ^ 32 + b) * bits_read 32 a ≡ a * b =
      rw all_bits (omega arith) in
    rounds-double 32 (initial a b) (omega arith) (initial-IsWords a b p q)
    ∙ ap (λ (t : ℕ). t % 2 ^ 64) e
    ∙ mod-eq_of_lt (mul-lt a b p q)

unsigned_product-IsWord :
    (a b : ℕ)
    → IsWord a
    → IsWord b
    → IsWord (unsigned_product a b).0 × IsWord (unsigned_product a b).1
unfolding unsigned_product
unsigned_product-IsWord a b p q =
    let v = rounds-IsWords 32 (initial a b) (initial-IsWords a b p q) in (v.hi, v.lo)

negate_double-double :
    (hi lo : ℕ)
    → IsWord hi
    → IsWord lo
    → double (negate_double (hi, lo)).0 (negate_double (hi, lo)).1
      ≡ (2 ^ 64 - double hi lo) % 2 ^ 64
unfolding negate_double
negate_double-double hi lo p q = ground arith

-- The integer that a signed double word stands for.
abbrev pub double_to_ℤ : ℕ → ℤ
double_to_ℤ w = if leb (2 ^ 63) w then negsuc (2 ^ 64 - w - 1) else pos w

small_product : (x y : ℕ) → x ≤ 2 ^ 31 → y ≤ 2 ^ 31 → x * y ≤ 2 ^ 62
small_product x y p q = grind arith

-- The end of `Mult`, on the magnitudes.
signed_part : (negative : Bool) (x y : ℕ) → ℕ × ℕ
signed_part negative x y = let p = unsigned_product x y in if negative then negate_double p else p

signed_part-with_sign :
    (negative : Bool) (x y : ℕ)
    → x ≤ 2 ^ 31
    → y ≤ 2 ^ 31
    → double_to_ℤ (double (signed_part negative x y).0 (signed_part negative x y).1)
      ≡ with_sign negative (x * y)
unfolding signed_part
signed_part-with_sign false x y p q =
    rw (unsigned_product-eq-mul x y (omega arith) (omega arith))
      (ground (arith, small_product x y p q))
signed_part-with_sign true x y p q =
    let (hi, lo) = unsigned_product x y in
    let (wh, wl) = unsigned_product-IsWord x y (omega arith) (omega arith) in
    rw
      (
        negate_double-double (unsigned_product x y).0 (unsigned_product x y).1 wh wl,
        unsigned_product-eq-mul x y (omega arith) (omega arith),
      )
      (ground (arith, small_product x y p q))

mult-signed_part :
    (a b : ℕ)
    → IsWord a
    → IsWord b
    → (a == 0) || (b == 0) ≡ false
    → mult a b true
      ≡ signed_part
          (if is_negative b then not (is_negative a) else is_negative a)
          (magnitude a)
          (magnitude b)
unfolding mult signed_part
mult-signed_part a b p q h = ground arith

zero_product : (a b : ℕ) → (a == 0) || (b == 0) ≡ true → 0 ≡ a * b
zero_product a b h = elim (Bool-cases (a == 0)) [
  | inl e ↦ let e' : a ≡ 0 = ground arith in rw e' (omega arith)
  | inr e ↦ let e' : b ≡ 0 = ground arith in rw e' (omega arith)
]

mult_zero :
    (a b : ℕ)
    → (a == 0) || (b == 0) ≡ true
    → (mult a b true ≡ (0, 0)) × (magnitude a * magnitude b ≡ 0)
unfolding mult
mult_zero a b h = (
  rw h refl,
  elim (Bool-cases (a == 0)) [
    | inl e ↦ let e' : magnitude a ≡ 0 = ground arith in rw e' (omega arith)
    | inr e ↦ let e' : magnitude b ≡ 0 = ground arith in rw e' (omega arith)
  ],
)

with_sign-zero : (s : Bool) → with_sign s 0 ≡ pos 0
with_sign-zero true = refl
with_sign-zero false = refl

mult-with_sign :
    (a b : ℕ)
    → IsWord a
    → IsWord b
    → double_to_ℤ (double (mult a b true).0 (mult a b true).1)
      ≡ with_sign
          (if is_negative b then not (is_negative a) else is_negative a)
          (magnitude a * magnitude b)
mult-with_sign a b p q = elim (Bool-cases ((a == 0) || (b == 0))) [
  | inl z ↦ let (e, f) = mult_zero a b z in rw (e, f) (sym (with_sign-zero _))
  | inr n ↦
      rw (mult-signed_part a b p q n)
        (signed_part-with_sign _ (magnitude a) (magnitude b) (magnitude-le a p) (magnitude-le b q))
]

-- MULT: on two words, the double word that the shift-and-add loop of Mult leaves in HI and LO is
-- the exact product of the two signed integers.
pub mult_signed :
    (a b : ℕ)
    → IsWord a
    → IsWord b
    → double_to_ℤ (double (mult a b true).0 (mult a b true).1) ≡ to_ℤ a *ℤ to_ℤ b
mult_signed a b p q =
    rw (to_ℤ-magnitude a p, to_ℤ-magnitude b q)
      (mult-with_sign a b p q
        ∙ sym (with_sign-mul (is_negative a) (is_negative b) (magnitude a) (magnitude b)))

-- MULTU: on two words, the double word in HI and LO is their exact product.
mult_unsigned :
    (a b : ℕ) → IsWord a → IsWord b → double (mult a b false).0 (mult a b false).1 ≡ a * b
unfolding mult
mult_unsigned a b p q = elim (Bool-cases ((a == 0) || (b == 0))) [
  | inl z ↦ rw z (zero_product a b z)
  | inr n ↦ rw n (unsigned_product-eq-mul a b p q)
]
