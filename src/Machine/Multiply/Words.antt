-- ===== src/Machine/Multiply/Words.antt =====
-- Mult leaves words.
use cs107_nach_os.Common.{
  ℕ, zero, suc, Bool, true, false, ◌&&◌, ◌||◌, bit_and, ◌==◌, if◌then◌else◌, arith,
}
use cs107_nach_os.Common.Words.{IsWord, add32, not32, neg32, is_negative}
use cs107_nach_os.Machine.Multiply.{
  Loop, add_shifted, rounds, negate_double, unsigned_product, mult,
}
use cs107_nach_os.Machine.Multiply.Rounds.{IsWords, add_shifted-IsWords, shift-IsWords}

if-any {ℓ κ} :
    {A : Type ℓ} (P : A → Type κ) (c : Bool) (x y : A) → P x → P y → P (if c then x else y)
if-any P true x y p q = p
if-any P false x y p q = q

rounds-IsWords : (n : ℕ) (s : Loop) → IsWords s → IsWords (rounds n s)
unfolding rounds
rounds-IsWords zero s w = w
rounds-IsWords (suc n) s w =
    let added = if-any IsWords (bit_and s.a 1 == 0) s (add_shifted s) w (add_shifted-IsWords s w) in
    if-any IsWords _ _ _ added (rounds-IsWords n _ (shift-IsWords _ added))

abbrev pub AreWords : ℕ × ℕ → Type 0
AreWords p = IsWord p.0 × IsWord p.1

unsigned_product-AreWords : (a b : ℕ) → IsWord a → IsWord b → AreWords (unsigned_product a b)
unfolding unsigned_product
unsigned_product-AreWords a b p q =
    let w =
      rounds-IsWords 32 (record { a = a; b_lo = b; b_hi = 0; lo = 0; hi = 0 })
        (record { a = p; b_lo = q; b_hi = omega arith; lo = omega arith; hi = omega arith }) in
    (w.hi, w.lo)

negate_double-AreWords : (p : ℕ × ℕ) → AreWords p → AreWords (negate_double p)
unfolding negate_double
negate_double-AreWords (hi, lo) (h, l) =
    if-any AreWords (add32 (not32 lo) 1 == 0) (add32 (not32 hi) 1, add32 (not32 lo) 1)
      (not32 hi, add32 (not32 lo) 1) (omega arith, omega arith) (omega arith, omega arith)

pub mult-AreWords :
    (a b : ℕ) (signed_arith : Bool) → IsWord a → IsWord b → AreWords (mult a b signed_arith)
unfolding mult
mult-AreWords a b signed_arith p q =
    let a' = if-any IsWord (signed_arith && is_negative a) (neg32 a) a (omega arith) p in
    let b' = if-any IsWord (signed_arith && is_negative b) (neg32 b) b (omega arith) q in
    let product = unsigned_product-AreWords _ _ a' b' in
    if-any AreWords ((a == 0) || (b == 0)) _ _ (omega arith, omega arith)
      (if-any AreWords _ _ _ (negate_double-AreWords _ product) product)
