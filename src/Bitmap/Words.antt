-- ===== src/Bitmap/Words.antt =====
-- One word: what setting or clearing a bit does to each of its bits.
use native.Mathlib.Decide.{ℕ_discrete}
use cs107_nach_os.Common.{
  ℕ, ◌-◌, ◌^◌, ◌<◌, ◌≡◌, ◌≢◌, true, false, bit_and, arith, ◌==◌, if◌then◌else◌,
}
use cs107_nach_os.Common.Bits.{
  digit, digit-zero, digit-le-one, digit-bit_and, digit-bit_or, digit-pow_self, digit-pow_ne,
  bit_and-pow, digit-complement, bit_or-lt, bit_and-le, pow_pos, pow-lt-pow,
}
use cs107_nach_os.Bitmap.{test_word, mark_word, clear_word}

-- The test reads a binary digit.
test_word-digit : (w k : ℕ) → test_word w k ≡ (digit k w == 1)
unfolding test_word
test_word-digit w k = elim (ℕ_discrete (digit k w) 0) [
  | yes e ↦ ground (arith, bit_and-pow k w, e)
  | no n ↦
      let e : digit k w ≡ 1 = omega (arith, digit-le-one k w) in
      let e2 : bit_and w (2 ^ k) ≡ 2 ^ k = rw (bit_and-pow k w, e) (omega arith) in
      ground (arith, e2, e, pow_pos k)
]

digit-mark_self : (w k : ℕ) → digit k (mark_word w k) ≡ 1
unfolding mark_word
digit-mark_self w k = omega (arith, digit-bit_or k w (2 ^ k), digit-pow_self k, digit-le-one k w)

digit-mark_ne : (w j k : ℕ) → k ≢ j → digit k (mark_word w j) ≡ digit k w
unfolding mark_word
digit-mark_ne w j k h = omega (arith, digit-bit_or k w (2 ^ j), digit-pow_ne k j h)

digit-clear_self : (w k : ℕ) → k < 32 → digit k (clear_word w k) ≡ 0
unfolding clear_word
digit-clear_self w k h = omega (
  arith,
  digit-bit_and k w (2 ^ 32 - 1 - 2 ^ k),
  digit-complement k 32 (2 ^ k) h (pow-lt-pow k 32 h),
  digit-pow_self k,
)

digit-clear_ne : (w j k : ℕ) → j < 32 → k < 32 → k ≢ j → digit k (clear_word w j) ≡ digit k w
unfolding clear_word
digit-clear_ne w j k h l n = omega (
  arith,
  digit-bit_and k w (2 ^ 32 - 1 - 2 ^ j),
  digit-complement k 32 (2 ^ j) l (pow-lt-pow j 32 h),
  digit-pow_ne k j n,
  digit-le-one k w,
)

pub test_word-mark :
    (w j k : ℕ) → test_word (mark_word w j) k ≡ (if j == k then true else test_word w k)
test_word-mark w j k = elim (ℕ_discrete k j) [
  | yes e ↦ rw e (ground (arith, test_word-digit (mark_word w j) j, digit-mark_self w j))
  | no n ↦
      ground (arith, test_word-digit (mark_word w j) k, test_word-digit w k, digit-mark_ne w j k n)
]

pub test_word-clear :
    (w j k : ℕ)
    → j < 32
    → k < 32
    → test_word (clear_word w j) k ≡ (if j == k then false else test_word w k)
test_word-clear w j k h l = elim (ℕ_discrete k j) [
  | yes e ↦ rw e (ground (arith, test_word-digit (clear_word w j) j, digit-clear_self w j h))
  | no n ↦
      ground
        (arith, test_word-digit (clear_word w j) k, test_word-digit w k, digit-clear_ne w j k h l n)
]

pub test_word-zero : (k : ℕ) → test_word 0 k ≡ false
test_word-zero k = ground (arith, test_word-digit 0 k, digit-zero k)

pub mark_word-lt : (w j : ℕ) → j < 32 → w < 2 ^ 32 → mark_word w j < 2 ^ 32
unfolding mark_word
mark_word-lt w j h l = bit_or-lt 32 w (2 ^ j) l (pow-lt-pow j 32 h)

pub clear_word-lt : (w j : ℕ) → w < 2 ^ 32 → clear_word w j < 2 ^ 32
unfolding clear_word
clear_word-lt w j l = omega (arith, bit_and-le 32 w (2 ^ 32 - 1 - 2 ^ j) l)
