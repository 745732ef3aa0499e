-- ===== src/Machine/Multiply.antt =====
-- `Mult` of NachOS-4.0/code/machine/mipssim.cc: shift and add, a bit of `a` at a time.
pub mod Rounds
pub mod Exact
pub mod Words
use cs107_nach_os.Common.{
  ℕ, zero, suc, ◌+◌, ◌-◌, ◌*◌, ◌^◌, ◌≡◌, Bool, true, false, not, ◌&&◌, ◌||◌, bit_and, bit_or, ◌==◌,
  ltb, if◌then◌else◌,
}
use cs107_nach_os.Common.Words.{add32, shl32, sra32, not32, neg32, is_negative}

-- The variables of the loop.
pub record Loop : Type 0 where
  pub a : ℕ
  pub b_lo : ℕ
  pub b_hi : ℕ
  pub lo : ℕ
  pub hi : ℕ

-- The body of `if (a & 1)`, but for the break.
pub add_shifted : Loop → Loop
add_shifted s =
    let lo' = add32 s.lo s.b_lo in
    let carried = if ltb lo' s.b_lo then add32 s.hi 1 else s.hi in
    record s { lo = lo'; hi = add32 carried s.b_hi }

-- The rest of the round.
pub shift : Loop → Loop
shift s =
    let b_hi' = shl32 s.b_hi 1 in
    record s {
      b_hi = if bit_and s.b_lo 0x80000000 == 0 then b_hi' else bit_or b_hi' 1;
      b_lo = shl32 s.b_lo 1;
      a = sra32 s.a 1;
    }

-- n rounds are left.
pub rounds : ℕ → Loop → Loop
rounds zero s = s
rounds (suc n) s =
    let s' = if bit_and s.a 1 == 0 then s else add_shifted s in
    let rest = rounds n (shift s') in
    if not (bit_and s.a 1 == 0) && (bit_and s.a 0xfffffffe == 0) then s' else rest

-- The two's complement of the double word (hi, lo).
pub negate_double : ℕ × ℕ → ℕ × ℕ
negate_double (hi, lo) =
    let hi' = not32 hi in
    let lo' = add32 (not32 lo) 1 in if lo' == 0 then (add32 hi' 1, lo') else (hi', lo')

-- The unsigned product, as (hi, lo).
pub unsigned_product : ℕ → ℕ → ℕ × ℕ
unsigned_product a b =
    let s = rounds 32 (record { a = a; b_lo = b; b_hi = 0; lo = 0; hi = 0 }) in (s.hi, s.lo)

-- *hiPtr and *loPtr.
pub mult : ℕ → ℕ → Bool → ℕ × ℕ
mult a b signed_arith =
    let flip_a = signed_arith && is_negative a in
    let flip_b = signed_arith && is_negative b in
    let a' = if flip_a then neg32 a else a in
    let b' = if flip_b then neg32 b else b in
    let negative = if flip_b then not flip_a else flip_a in
    let p = unsigned_product a' b' in
    if (a == 0) || (b == 0) then (0, 0) else if negative then negate_double p else p
