-- ===== src/Common/Words.antt =====
-- 32-bit words: `int` and `unsigned int` of the code. Both are the bit pattern, a number below
-- 2 ^ 32; arithmetic wraps, as gcc compiles it for a 32-bit host.
use cs107_nach_os.Common.{
  ℕ, ◌+◌, ◌-◌, ◌*◌, ◌/◌, ◌%◌, ◌^◌, ◌<◌, ◌≤◌, ◌≡◌, Bool, true, false, not, leb, if◌then◌else◌, arith,
}
use cs107_nach_os.Common.Int.{sub_ℕ, ◌+ℤ◌, ◌*ℤ◌, ℤ, pos, negsuc, ltb_ℤ}

abbrev pub word_mod : ℕ
word_mod = 2 ^ 32

abbrev pub IsWord : ℕ → Type 0
IsWord w = w < 2 ^ 32

abbrev pub add32 : ℕ → ℕ → ℕ
add32 a b = (a + b) % 2 ^ 32

abbrev pub sub32 : ℕ → ℕ → ℕ
sub32 a b = (a + 2 ^ 32 - b) % 2 ^ 32

-- `~a`.
abbrev pub not32 : ℕ → ℕ
not32 a = 2 ^ 32 - 1 - a

-- `a << k`.
abbrev pub shl32 : ℕ → ℕ → ℕ
shl32 a k = a * 2 ^ k % 2 ^ 32

-- `a < 0` of an int.
abbrev pub is_negative : ℕ → Bool
is_negative a = leb (2 ^ 31) a

-- `a >> k` of an int copies the sign bit; of an unsigned int it does not.
abbrev pub sra32 : ℕ → ℕ → ℕ
sra32 a k = if is_negative a then a / 2 ^ k + (2 ^ 32 - 2 ^ (32 - k)) else a / 2 ^ k

abbrev pub srl32 : ℕ → ℕ → ℕ
srl32 a k = a / 2 ^ k

-- The integer that an int stands for.
abbrev pub to_ℤ : ℕ → ℤ
to_ℤ a = if is_negative a then negsuc (2 ^ 32 - a - 1) else pos a

-- `a < b` of ints.
abbrev pub slt : ℕ → ℕ → Bool
slt a b = ltb_ℤ (to_ℤ a) (to_ℤ b)

-- `-a`, and the magnitude of an int.
abbrev pub neg32 : ℕ → ℕ
neg32 a = (2 ^ 32 - a) % 2 ^ 32

abbrev pub magnitude : ℕ → ℕ
magnitude a = if is_negative a then 2 ^ 32 - a else a

-- `a / b` and `a % b` of ints round towards zero; the remainder has the sign of a.
abbrev same_sign : ℕ → ℕ → Bool
same_sign a b = if is_negative a then is_negative b else not (is_negative b)

abbrev pub div32 : ℕ → ℕ → ℕ
div32 a b = let q = magnitude a / magnitude b in if same_sign a b then q % 2 ^ 32 else neg32 q

abbrev pub rem32 : ℕ → ℕ → ℕ
rem32 a b = let r = magnitude a % magnitude b in if is_negative a then neg32 r else r

-- A magnitude with its sign.
abbrev pub with_sign : Bool → ℕ → ℤ
with_sign negative n = if negative then sub_ℕ 0 n else pos n

pub with_sign-mul :
    (s t : Bool) (x y : ℕ)
    → with_sign s x *ℤ with_sign t y ≡ with_sign (if t then not s else s) (x * y)
unfolding ◌*ℤ◌
with_sign-mul false false x y = ground arith
with_sign-mul false true x y = ground arith
with_sign-mul true false x y = ground arith
with_sign-mul true true x y = ground arith

pub to_ℤ-magnitude : (a : ℕ) → IsWord a → to_ℤ a ≡ with_sign (is_negative a) (magnitude a)
to_ℤ-magnitude a p = ground arith

pub magnitude-le : (a : ℕ) → IsWord a → magnitude a ≤ 2 ^ 31
magnitude-le a p = ground arith

pub with_sign-add : (s : Bool) (x y : ℕ) → with_sign s x +ℤ with_sign s y ≡ with_sign s (x + y)
unfolding ◌+ℤ◌
with_sign-add false x y = ground arith
with_sign-add true x y = ground arith
