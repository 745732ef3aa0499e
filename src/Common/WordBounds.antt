-- ===== src/Common/WordBounds.antt =====
-- The operations on words give words.
use native.Mathlib.Nat.{pow-suc, div-div-eq-div-mul, pow-succ', mod-le, div-le_self}
use cs107_nach_os.Common.{ℕ, zero, suc, ◌-◌, ◌/◌, ◌^◌, ◌<◌, ◌≡◌, bit_and, bit_or, bit_xor, arith}
use cs107_nach_os.Common.Bits.{pow_pos, bit_or-lt, bit_and-le, bit_xor-lt}
use cs107_nach_os.Common.Words.{IsWord, sra32, magnitude, div32, rem32}

div-pow-lt : (k n a : ℕ) → a < 2 ^ n → a / 2 ^ k < 2 ^ (n - k)
div-pow-lt zero n a h =
    let e : n - 0 ≡ n = omega arith in rw e (omega (arith, h, div-le_self a (2 ^ 0)))
div-pow-lt (suc k) zero a h =
    let nothing : a ≡ 0 = omega arith in
    rw nothing (omega (arith, div-le_self 0 (2 ^ suc k), pow_pos (0 - suc k)))
div-pow-lt (suc k) (suc n) a h =
    let half = div-pow-lt k n (a / 2) (omega (arith, pow-suc 2 n)) in
    let e : suc n - suc k ≡ n - k = omega arith in
    rw (pow-succ' 2 k, e) (omega (arith, half, div-div-eq-div-mul a 2 (2 ^ k)))

pub sra32-IsWord : (a k : ℕ) → IsWord a → IsWord (sra32 a k)
sra32-IsWord a k h = ground (arith, div-pow-lt k 32 a h, div-le_self a (2 ^ k))

pub bit_and-IsWord : (a b : ℕ) → IsWord a → IsWord (bit_and a b)
bit_and-IsWord a b h = omega (arith, bit_and-le 32 a b h)

pub bit_or-IsWord : (a b : ℕ) → IsWord a → IsWord b → IsWord (bit_or a b)
bit_or-IsWord a b = bit_or-lt 32 a b

pub bit_xor-IsWord : (a b : ℕ) → IsWord a → IsWord b → IsWord (bit_xor a b)
bit_xor-IsWord a b = bit_xor-lt 32 a b

pub div32-IsWord : (a b : ℕ) → IsWord (div32 a b)
div32-IsWord a b = ground arith

pub rem32-IsWord : (a b : ℕ) → IsWord a → IsWord (rem32 a b)
rem32-IsWord a b h = ground (arith, mod-le (magnitude a) (magnitude b))
