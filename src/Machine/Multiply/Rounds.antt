-- ===== src/Machine/Multiply/Rounds.antt =====
-- The loop of `Mult` adds b times the bits of a that it reads.
use native.Mathlib.Nat.{pow-suc, div-add-mod, mod-add-mod, add-mul-mod_self_left}
use cs107_nach_os.Common.{
  ℕ, zero, suc, ◌+◌, ◌*◌, ◌/◌, ◌%◌, ◌^◌, ◌≤◌, ◌≡◌, ◌≢◌, refl, sym, ap, ◌∙◌, bit_and, bit_or, ◌==◌,
  arith, inl, inr, Bool-cases,
}
use cs107_nach_os.Common.Bits.{
  bit_and-ones, bit_and-ones_zero, bit_and-top, bit_or-disjoint, low_bits_suc, pow_pos,
}
use cs107_nach_os.Common.Words.{IsWord, shl32, sra32, is_negative}
use cs107_nach_os.Machine.Multiply.{Loop, add_shifted, shift, rounds}

-- The number of the double word.
abbrev pub double : ℕ → ℕ → ℕ
double hi lo = hi * 2 ^ 32 + lo

pub record IsWords (s : Loop) : Type 0 where
  pub a : IsWord s.a
  pub b_lo : IsWord s.b_lo
  pub b_hi : IsWord s.b_hi
  pub lo : IsWord s.lo
  pub hi : IsWord s.hi

pub add_shifted-IsWords : (s : Loop) → IsWords s → IsWords (add_shifted s)
unfolding add_shifted
add_shifted-IsWords s v = ground arith

add_shifted-double :
    (s : Loop)
    → IsWords s
    → double (add_shifted s).hi (add_shifted s).lo
      ≡ (double s.hi s.lo + double s.b_hi s.b_lo) % 2 ^ 64
unfolding add_shifted
add_shifted-double s v = ground arith

carry_bit : (b : ℕ) → bit_or (shl32 b 1) 1 ≡ shl32 b 1 + 1
carry_bit b =
    let e : shl32 b 1 ≡ b * 2 % 2 ^ 32 / 2 * 2 ^ 1 = omega arith in
    rw e (bit_or-disjoint 1 (b * 2 % 2 ^ 32 / 2) 1 (omega arith))

pub shift-IsWords : (s : Loop) → IsWords s → IsWords (shift s)
unfolding shift
shift-IsWords s v = ground (arith, carry_bit s.b_hi)

shift-double :
    (s : Loop)
    → IsWords s
    → double (shift s).b_hi (shift s).b_lo ≡ (2 * double s.b_hi s.b_lo) % 2 ^ 64
unfolding shift
shift-double s v = ground (arith, carry_bit s.b_hi, bit_and-top 31 s.b_lo v.b_lo)

-- The bits that n rounds read off `a`, whose right shift copies the sign.
pub bits_read : ℕ → ℕ → ℕ
bits_read zero a = 0
bits_read (suc n) a = a % 2 + 2 * bits_read n (sra32 a 1)

add-pow-mod : (k n x : ℕ) → n ≤ k → (x + 2 ^ k) % 2 ^ n ≡ x % 2 ^ n
add-pow-mod k zero x h = omega arith
add-pow-mod zero (suc n) x h = elim h [ ]
add-pow-mod (suc k) (suc n) x h =
    let half : (x + 2 ^ suc k) / 2 ≡ x / 2 + 2 ^ k = omega (arith, pow-suc 2 k) in
    let rest : (x + 2 ^ suc k) / 2 % 2 ^ n ≡ x / 2 % 2 ^ n =
      rw half (add-pow-mod k n (x / 2) (omega arith)) in
    rw (pow-suc 2 n) (
      omega (
        arith,
        rest,
        low_bits_suc (x + 2 ^ suc k) (2 ^ n) (pow_pos n),
        low_bits_suc x (2 ^ n) (pow_pos n),
        pow-suc 2 k,
      ))

sra-mod : (n a : ℕ) → n ≤ 31 → IsWord a → sra32 a 1 % 2 ^ n ≡ a / 2 % 2 ^ n
sra-mod n a h w = elim (Bool-cases (is_negative a)) [
  | inl e ↦ rw e (add-pow-mod 31 n (a / 2) h)
  | inr e ↦ rw e refl
]

pub bits_read-mod : (n a : ℕ) → n ≤ 32 → IsWord a → bits_read n a ≡ a % 2 ^ n
unfolding bits_read
bits_read-mod zero a h w = omega arith
bits_read-mod (suc n) a h w =
    let rest : bits_read n (sra32 a 1) ≡ a / 2 % 2 ^ n =
      bits_read-mod n (sra32 a 1) (omega arith) (ground arith) ∙ sra-mod n a (omega arith) w in
    rw (pow-suc 2 n) (omega (arith, rest, low_bits_suc a (2 ^ n) (pow_pos n)))

-- A factor may be reduced under a sum.
add-mod-mul : (x y r m : ℕ) → (x + y % m * r) % m ≡ (x + y * r) % m
add-mod-mul x y r m =
    let e : x + y * r ≡ x + y % m * r + m * (y / m * r) =
      omega (arith, ap (λ (t : ℕ). t * r) (div-add-mod y m)) in
    rw e (sym (add-mul-mod_self_left (x + y % m * r) m (y / m * r)))

bits_read-zero : (n : ℕ) → bits_read n 0 ≡ 0
unfolding bits_read
bits_read-zero zero = refl
bits_read-zero (suc n) = omega (arith, bits_read-zero n)

-- One round, as an equation between numbers.
round_step :
    (v b odd r v' b' : ℕ)
    → v' ≡ (v + odd * b) % 2 ^ 64
    → b' ≡ (2 * b) % 2 ^ 64
    → (v' + b' * r) % 2 ^ 64 ≡ (v + b * (odd + 2 * r)) % 2 ^ 64
round_step v b odd r v' b' p q =
    let e : v + odd * b + 2 * b * r ≡ v + b * (odd + 2 * r) = omega arith in
    rw (p, q)
      (add-mod-mul ((v + odd * b) % 2 ^ 64) (2 * b) r (2 ^ 64)
        ∙ mod-add-mod (v + odd * b) (2 ^ 64) (2 * b * r)
        ∙ ap (λ (t : ℕ). t % 2 ^ 64) e)

module _ (s : Loop) (v : IsWords s) (r : ℕ) where
  abbrev whole : ℕ
  whole = (double s.hi s.lo + double s.b_hi s.b_lo * (s.a % 2 + 2 * r)) % 2 ^ 64

  even_round :
      s.a % 2 ≡ 0
      → (double (shift s).hi (shift s).lo + double (shift s).b_hi (shift s).b_lo * r) % 2 ^ 64
        ≡ whole
  even_round e =
      round_step (double s.hi s.lo) (double s.b_hi s.b_lo) (s.a % 2) r _ _ kept (shift-double s v)
    where
      kept :
          double (shift s).hi (shift s).lo
          ≡ (double s.hi s.lo + s.a % 2 * double s.b_hi s.b_lo) % 2 ^ 64
      kept = rw e (unfold shift in omega (arith, v.hi, v.lo))

  odd_round :
      s.a % 2 ≡ 1
      → let t = shift (add_shifted s) in
        (double t.hi t.lo + double t.b_hi t.b_lo * r) % 2 ^ 64 ≡ whole
  unfolding add_shifted
  odd_round e =
      round_step (double s.hi s.lo) (double s.b_hi s.b_lo) (s.a % 2) r _ _ added
        (shift-double (add_shifted s) (add_shifted-IsWords s v))
    where
      added :
          double (shift (add_shifted s)).hi (shift (add_shifted s)).lo
          ≡ (double s.hi s.lo + s.a % 2 * double s.b_hi s.b_lo) % 2 ^ 64
      added = rw e (unfold shift in omega (arith, add_shifted-double s v))

  last_round : s.a ≡ 1 → r ≡ 0 → double (add_shifted s).hi (add_shifted s).lo ≡ whole
  last_round e z =
      let one : s.a % 2 + 2 * r ≡ 1 = omega arith in rw one (omega (arith, add_shifted-double s v))

parity : (a : ℕ) → bit_and a 1 ≡ a % 2
parity a = bit_and-ones 1 a

last_bit : (a : ℕ) → IsWord a → bit_and a 1 ≢ 0 → bit_and a 0xfffffffe ≡ 0 → a ≡ 1
last_bit a w odd last = omega (arith, parity a, bit_and-ones_zero 31 a)

pub rounds-double :
    (n : ℕ) (s : Loop)
    → n ≤ 32
    → IsWords s
    → double (rounds n s).hi (rounds n s).lo
      ≡ (double s.hi s.lo + double s.b_hi s.b_lo * bits_read n s.a) % 2 ^ 64
unfolding rounds bits_read shift add_shifted
rounds-double zero s h v = omega (arith, v.hi, v.lo)
rounds-double (suc n) s h v = elim (Bool-cases (bit_and s.a 1 == 0)) [
  | inl even ↦ rw even (
      rw (rounds-double n (shift s) (omega arith) (shift-IsWords s v))
        (even_round s v (bits_read n (sra32 s.a 1)) (ground (arith, parity s.a))))
  | inr odd ↦ elim (Bool-cases (bit_and s.a 0xfffffffe == 0)) [
    | inl last ↦
        let one : s.a ≡ 1 = last_bit s.a v.a (ground arith) (ground arith) in
        let none_left : bits_read n (sra32 s.a 1) ≡ 0 =
          ap (λ (t : ℕ). bits_read n (sra32 t 1)) one ∙ bits_read-zero n in
        rw (odd, last) (last_round s v (bits_read n (sra32 s.a 1)) one none_left)
    | inr more ↦
        rw (odd, more)
          (rw
            (rounds-double n (shift (add_shifted s)) (omega arith)
              (shift-IsWords (add_shifted s) (add_shifted-IsWords s v)))
            (odd_round s v (bits_read n (sra32 s.a 1)) (ground (arith, parity s.a))))
  ]
]
