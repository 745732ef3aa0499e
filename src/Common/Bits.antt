-- ===== src/Common/Bits.antt =====
-- The digits of a number in base two, and what `|`, `&`, `^`, `~` and a shifted 1 do to them.
use Prim.Native.Nat.{
  ℕ, zero, suc, ◌+◌, ◌-◌, ◌*◌, ◌/◌, ◌%◌, ◌^◌, ◌≤◌, ◌<◌, min, max, bit_and, bit_or, bit_xor, digits,
  differ, bit_and-bitwise, bit_or-bitwise, bit_xor-bitwise,
}
use mathlib.Core.Path.{◌≡◌, refl, ◌∙◌, ap, sym}
use mathlib.Core.Logic.{◌≢◌}
use native.Mathlib.Nat.{
  pow-suc, div-add-mod, mod-lt, mod-eq_of_lt, add-mul-mod_self_left, le_refl, mul-one,
  div-div-eq-div-mul, pow-succ', div-lt_iff_lt-mul,
}
use native.Mathlib.Omega.{arith}

-- Bit k of w.
abbrev pub digit : ℕ → ℕ → ℕ
digit zero w = w % 2
digit (suc k) w = digit k (w / 2)

-- A bitwise operation is given by its table `op` and by what it makes of 0 on the left.
module _ (on_zero : ℕ → ℕ) (op : ℕ → ℕ → ℕ) where
  -- Fuel beyond the number itself changes nothing.
  digits_more : (n a b : ℕ) → a ≤ n → digits on_zero op (suc n) a b ≡ digits on_zero op n a b
  digits_more zero zero b p = refl
  digits_more zero (suc a) b p = elim p [ ]
  digits_more (suc n) zero b p = refl
  digits_more (suc n) (suc a) b p =
      let less = digits_more n (suc a / 2) (b / 2) (omega arith) in rw less refl

  digits_enough :
      (k m n a b : ℕ) → m ≡ n + k → a ≤ n → digits on_zero op m a b ≡ digits on_zero op n a b
  digits_enough zero m n a b e p = let same : m ≡ n = omega arith in rw same refl
  digits_enough (suc k) m n a b e p =
      let more : m ≡ suc (n + k) = omega arith in
      rw more (digits_more (n + k) a b (omega arith) ∙ digits_enough k (n + k) n a b refl p)

  digits_step :
      (a b : ℕ)
      → digits on_zero op (suc a) (suc a) b
        ≡ digits on_zero op (suc a / 2) (suc a / 2) (b / 2) * 2 + op (suc a % 2) (b % 2)
  digits_step a b =
      let h = suc a / 2 in
      omega (arith, digits_enough (a - h) a h h (b / 2) (omega arith) (omega arith))

bit_and_step : (a b : ℕ) → bit_and a b ≡ bit_and (a / 2) (b / 2) * 2 + min (a % 2) (b % 2)
bit_and_step zero b = omega (arith, bit_and-bitwise 0 b, bit_and-bitwise 0 (b / 2))
bit_and_step (suc a) b = omega (
  arith,
  bit_and-bitwise (suc a) b,
  bit_and-bitwise (suc a / 2) (b / 2),
  digits_step (λ b. zero) min a b,
)

bit_or_step : (a b : ℕ) → bit_or a b ≡ bit_or (a / 2) (b / 2) * 2 + max (a % 2) (b % 2)
bit_or_step zero b = omega (arith, bit_or-bitwise 0 b, bit_or-bitwise 0 (b / 2))
bit_or_step (suc a) b = omega (
  arith,
  bit_or-bitwise (suc a) b,
  bit_or-bitwise (suc a / 2) (b / 2),
  digits_step (λ b. b) max a b,
)

bit_xor_step : (a b : ℕ) → bit_xor a b ≡ bit_xor (a / 2) (b / 2) * 2 + differ (a % 2) (b % 2)
bit_xor_step zero b = omega (arith, bit_xor-bitwise 0 b, bit_xor-bitwise 0 (b / 2))
bit_xor_step (suc a) b = omega (
  arith,
  bit_xor-bitwise (suc a) b,
  bit_xor-bitwise (suc a / 2) (b / 2),
  digits_step (λ b. b) differ a b,
)

pub pow_pos : (n : ℕ) → 0 < 2 ^ n
pow_pos zero = omega arith
pow_pos (suc n) = omega (arith, pow-suc 2 n, pow_pos n)

pub digit-le-one : (k a : ℕ) → digit k a ≤ 1
digit-le-one zero a = omega arith
digit-le-one (suc k) a = digit-le-one k (a / 2)

pub digit-bit_and : (k a b : ℕ) → digit k (bit_and a b) ≡ min (digit k a) (digit k b)
digit-bit_and zero a b = omega (arith, bit_and_step a b)
digit-bit_and (suc k) a b =
    let half : bit_and a b / 2 ≡ bit_and (a / 2) (b / 2) = omega (arith, bit_and_step a b) in
    rw half (digit-bit_and k (a / 2) (b / 2))

pub digit-bit_or : (k a b : ℕ) → digit k (bit_or a b) ≡ max (digit k a) (digit k b)
digit-bit_or zero a b = omega (arith, bit_or_step a b)
digit-bit_or (suc k) a b =
    let half : bit_or a b / 2 ≡ bit_or (a / 2) (b / 2) = omega (arith, bit_or_step a b) in
    rw half (digit-bit_or k (a / 2) (b / 2))

pub digit-zero : (k : ℕ) → digit k 0 ≡ 0
digit-zero zero = refl
digit-zero (suc k) = digit-zero k

pub digit-pow_self : (k : ℕ) → digit k (2 ^ k) ≡ 1
digit-pow_self zero = refl
digit-pow_self (suc k) =
    let half : 2 ^ suc k / 2 ≡ 2 ^ k = omega (arith, pow-suc 2 k) in rw half (digit-pow_self k)

pub digit-pow_ne : (k j : ℕ) → k ≢ j → digit k (2 ^ j) ≡ 0
digit-pow_ne zero zero h = absurd (h refl)
digit-pow_ne zero (suc j) h = omega (arith, pow-suc 2 j)
digit-pow_ne (suc k) zero h = digit-zero k
digit-pow_ne (suc k) (suc j) h =
    let half : 2 ^ suc j / 2 ≡ 2 ^ j = omega (arith, pow-suc 2 j) in
    rw half (digit-pow_ne k j (omega arith))

-- `~a` in a word of n bits.
pub digit-complement : (k n a : ℕ) → k < n → a < 2 ^ n → digit k (2 ^ n - 1 - a) + digit k a ≡ 1
digit-complement k zero a h l = absurd (omega arith)
digit-complement zero (suc n) a h l = omega (arith, pow-suc 2 n)
digit-complement (suc k) (suc n) a h l =
    let half : (2 ^ suc n - 1 - a) / 2 ≡ 2 ^ n - 1 - a / 2 = omega (arith, pow-suc 2 n) in
    rw half (digit-complement k n (a / 2) (omega arith) (omega (arith, pow-suc 2 n)))

small_and-zero : (n a : ℕ) → a ≤ n → bit_and a 0 ≡ 0
small_and-zero zero a h = let none : a ≡ 0 = omega arith in rw none refl
small_and-zero (suc n) a h = omega (arith, small_and-zero n (a / 2) (omega arith), bit_and_step a 0)

pub bit_and-zero : (a : ℕ) → bit_and a 0 ≡ 0
bit_and-zero a = small_and-zero a a (omega arith)

-- A mask of one bit reads that bit.
pub bit_and-pow : (k a : ℕ) → bit_and a (2 ^ k) ≡ digit k a * 2 ^ k
bit_and-pow zero a = omega (arith, bit_and_step a 1, bit_and-zero (a / 2))
bit_and-pow (suc k) a =
    let half : 2 ^ suc k / 2 ≡ 2 ^ k = omega (arith, pow-suc 2 k) in
    let step : bit_and a (2 ^ suc k) ≡ bit_and (a / 2) (2 ^ suc k / 2) * 2 =
      omega (arith, bit_and_step a (2 ^ suc k), pow-suc 2 k) in
    step ∙ rw half (rw (bit_and-pow k (a / 2)) (rw (pow-suc 2 k) (omega arith)))

pub low_bits_suc : (a p : ℕ) → 0 < p → a / 2 % p * 2 + a % 2 ≡ a % (p * 2)
low_bits_suc a p h =
    let q = a / 2 / p in
    let r = a / 2 % p in
    let split : a ≡ r * 2 + a % 2 + p * 2 * q =
      omega (arith, ap (λ (t : ℕ). t * 2) (div-add-mod (a / 2) p)) in
    let small : r * 2 + a % 2 < p * 2 = omega (arith, mod-lt (a / 2) h) in
    sym (
      ap (λ (t : ℕ). t % (p * 2)) split
      ∙ add-mul-mod_self_left (r * 2 + a % 2) (p * 2) q
      ∙ mod-eq_of_lt small)

-- A mask of n ones keeps the low n bits.
pub bit_and-ones : (n a : ℕ) → bit_and a (2 ^ n - 1) ≡ a % 2 ^ n
bit_and-ones zero a = omega (arith, bit_and-zero a)
bit_and-ones (suc n) a =
    let half : (2 ^ suc n - 1) / 2 ≡ 2 ^ n - 1 = omega (arith, pow-suc 2 n, pow_pos n) in
    let step : bit_and a (2 ^ suc n - 1) ≡ bit_and (a / 2) ((2 ^ suc n - 1) / 2) * 2 + a % 2 =
      omega (arith, bit_and_step a (2 ^ suc n - 1), pow-suc 2 n, pow_pos n) in
    step
    ∙ rw half (rw (bit_and-ones n (a / 2)) (rw (pow-suc 2 n) (low_bits_suc a (2 ^ n) (pow_pos n))))

bit_or_zero_of_lt : (a b : ℕ) → a < 1 → b < 1 → bit_or a b ≡ 0
bit_or_zero_of_lt zero zero p q = refl
bit_or_zero_of_lt zero (suc b) p q = absurd (omega arith)
bit_or_zero_of_lt (suc a) b p q = absurd (omega arith)

-- So does a mask of n ones and a zero, but for the lowest bit.
pub bit_and-ones_zero : (n a : ℕ) → bit_and a ((2 ^ n - 1) * 2) ≡ a / 2 % 2 ^ n * 2
bit_and-ones_zero n a =
    let half : (2 ^ n - 1) * 2 / 2 ≡ 2 ^ n - 1 = omega arith in
    let rest : bit_and (a / 2) ((2 ^ n - 1) * 2 / 2) ≡ a / 2 % 2 ^ n =
      rw half (bit_and-ones n (a / 2)) in
    omega (arith, bit_and_step a ((2 ^ n - 1) * 2), rest)

pub bit_or-lt : (n a b : ℕ) → a < 2 ^ n → b < 2 ^ n → bit_or a b < 2 ^ n
bit_or-lt zero a b p q = omega (arith, bit_or_zero_of_lt a b p q)
bit_or-lt (suc n) a b p q = omega (
  arith,
  bit_or_step a b,
  pow-suc 2 n,
  bit_or-lt n (a / 2) (b / 2) (omega (arith, pow-suc 2 n)) (omega (arith, pow-suc 2 n)),
)

pub bit_and-le : (n a b : ℕ) → a < 2 ^ n → bit_and a b ≤ a
bit_and-le zero zero b p = omega (arith, bit_and-bitwise 0 b)
bit_and-le zero (suc a) b p = absurd (omega arith)
bit_and-le (suc n) a b p =
    omega (arith, bit_and_step a b, bit_and-le n (a / 2) (b / 2) (omega (arith, pow-suc 2 n)))

differ_bits : (x y : ℕ) → x ≤ 1 → y ≤ 1 → differ x y ≡ (x + y) % 2
differ_bits zero y p q = omega arith
differ_bits (suc zero) zero p q = refl
differ_bits (suc zero) (suc zero) p q = refl
differ_bits (suc zero) (suc (suc y)) p q = absurd (omega arith)
differ_bits (suc (suc x)) y p q = absurd (omega arith)

pub bit_xor-lt : (n a b : ℕ) → a < 2 ^ n → b < 2 ^ n → bit_xor a b < 2 ^ n
bit_xor-lt zero a b p q =
    let e : a ≡ 0 = omega arith in let f : b ≡ 0 = omega arith in rw (e, f) (omega arith)
bit_xor-lt (suc n) a b p q = omega (
  arith,
  bit_xor_step a b,
  differ_bits (a % 2) (b % 2) (omega arith) (omega arith),
  bit_xor-lt n (a / 2) (b / 2) (omega (arith, pow-suc 2 n)) (omega (arith, pow-suc 2 n)),
  pow-suc 2 n,
)

pub digit-bit_xor : (k a b : ℕ) → digit k (bit_xor a b) ≡ (digit k a + digit k b) % 2
digit-bit_xor zero a b =
    omega (arith, bit_xor_step a b, differ_bits (a % 2) (b % 2) (omega arith) (omega arith))
digit-bit_xor (suc k) a b =
    let half : bit_xor a b / 2 ≡ bit_xor (a / 2) (b / 2) =
      omega (arith, bit_xor_step a b, differ_bits (a % 2) (b % 2) (omega arith) (omega arith)) in
    rw half (digit-bit_xor k (a / 2) (b / 2))

pub pow-lt-pow : (j n : ℕ) → j < n → 2 ^ j < 2 ^ n
pow-lt-pow j zero h = elim h [ ]
pow-lt-pow zero (suc n) h = omega (arith, pow-suc 2 n, pow_pos n)
pow-lt-pow (suc j) (suc n) h = omega (arith, pow-suc 2 j, pow-suc 2 n, pow-lt-pow j n (omega arith))

bit_or-zero_fuel : (n a : ℕ) → a ≤ n → bit_or a 0 ≡ a
bit_or-zero_fuel n zero h = refl
bit_or-zero_fuel zero (suc a) h = absurd (omega arith)
bit_or-zero_fuel (suc n) (suc a) h =
    omega (arith, bit_or_step (suc a) 0, bit_or-zero_fuel n (suc a / 2) (omega arith))

-- Where no two ones meet, `|` adds.
pub bit_or-disjoint : (k a b : ℕ) → b < 2 ^ k → bit_or (a * 2 ^ k) b ≡ a * 2 ^ k + b
bit_or-disjoint zero a zero h = rw mul-one (bit_or-zero_fuel a a (le_refl a) ∙ omega arith)
bit_or-disjoint zero a (suc b) h = absurd (omega arith)
bit_or-disjoint (suc k) a b h =
    let double : a * 2 ^ suc k ≡ a * 2 ^ k * 2 = rw (pow-suc 2 k) (omega arith) in
    let half : a * 2 ^ suc k / 2 ≡ a * 2 ^ k = omega (arith, double) in
    let rest : bit_or (a * 2 ^ suc k / 2) (b / 2) ≡ a * 2 ^ k + b / 2 =
      rw half (bit_or-disjoint k a (b / 2) (omega (arith, pow-suc 2 k))) in
    omega (arith, bit_or_step (a * 2 ^ suc k) b, double, rest)

pub digit-div : (k a : ℕ) → digit k a ≡ a / 2 ^ k % 2
digit-div zero a = omega arith
digit-div (suc k) a =
    digit-div k (a / 2)
    ∙ ap (λ (t : ℕ). t % 2)
        (div-div-eq-div-mul a 2 (2 ^ k) ∙ ap (λ (t : ℕ). a / t) (sym (pow-succ' 2 k)))

-- The mask of the top bit of a word of n + 1 bits.
pub bit_and-top : (n a : ℕ) → a < 2 ^ suc n → bit_and a (2 ^ n) ≡ a / 2 ^ n * 2 ^ n
bit_and-top n a h =
    bit_and-pow n a
    ∙ ap (λ (t : ℕ). t * 2 ^ n)
        (digit-div n a
          ∙ mod-eq_of_lt ((div-lt_iff_lt-mul (pow_pos n)).1 (omega (arith, pow-suc 2 n, h))))

bit_or_comm_fuel : (n a b : ℕ) → a ≤ n → b ≤ n → bit_or a b ≡ bit_or b a
bit_or_comm_fuel zero zero zero p q = refl
bit_or_comm_fuel zero (suc a) b p q = absurd (omega arith)
bit_or_comm_fuel zero zero (suc b) p q = absurd (omega arith)
bit_or_comm_fuel (suc n) a b p q = omega (
  arith,
  bit_or_step a b,
  bit_or_step b a,
  bit_or_comm_fuel n (a / 2) (b / 2) (omega arith) (omega arith),
)

pub bit_or_comm : (a b : ℕ) → bit_or a b ≡ bit_or b a
bit_or_comm a b = bit_or_comm_fuel (a + b) a b (omega arith) (omega arith)

pub bit_and-pow_div : (k a : ℕ) → bit_and a (2 ^ k) ≡ a / 2 ^ k % 2 * 2 ^ k
bit_and-pow_div k a = bit_and-pow k a ∙ ap (λ (t : ℕ). t * 2 ^ k) (digit-div k a)

pub bit_xor-and-pow :
    (k a b : ℕ) → bit_and (bit_xor a b) (2 ^ k) ≡ (a / 2 ^ k % 2 + b / 2 ^ k % 2) % 2 * 2 ^ k
bit_xor-and-pow k a b =
    bit_and-pow k (bit_xor a b)
    ∙ ap (λ (t : ℕ). t * 2 ^ k) (digit-bit_xor k a b ∙ rw (digit-div k a, digit-div k b) refl)
