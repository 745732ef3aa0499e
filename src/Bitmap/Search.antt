-- ===== src/Bitmap/Search.antt =====
-- The constructor, FindAndSet and NumClear, against the bits as a function.
use native.Mathlib.Numerals.{unary_clauses}
use native.Mathlib.Decide.{dec_lt}
use cs107_nach_os.Common.{
  ℕ, zero, suc, ◌+◌, ◌/◌, ◌%◌, ◌^◌, ◌≤◌, ◌<◌, ◌≡◌, refl, ◌∙◌, Bool, true, false, Option, none, some,
  arith, ok, ◌>>=◌, ◌==◌, if◌then◌else◌, get_elem?, replicate, Bool-cases, lt→ltb, All-replicate,
  length-replicate, inl, inr,
}
use cs107_nach_os.Bitmap.Words.{test_word-zero}
use cs107_nach_os.Bitmap.Single.{Sets, test-bit, mark-Sets, clear-Sets}
use cs107_nach_os.Bitmap.{
  Bitmap, IsValid, bit, test_word, clear_from, create, find_and_set, find_and_set_from, num_clear,
  num_clear_from, div_round_up, bits_in_word,
}

-- How many of f 0, …, f (n - 1) are false.
unfoldable pub count_clear : (ℕ → Bool) → ℕ → ℕ
count_clear f zero = 0
count_clear f (suc n) = count_clear f n + (if f n then 0 else 1)

pub count_clear-le : (f : ℕ → Bool) (n : ℕ) → count_clear f n ≤ n
unfolding count_clear
count_clear-le f zero = omega arith
count_clear-le f (suc n) = ground (arith, count_clear-le f n)

-- With one bit more set, one fewer is clear.
module _ (f g : ℕ → Bool) (k : ℕ) (fresh : f k ≡ false)
    (only : (j : ℕ) → g j ≡ (if k == j then true else f j)) where
  count_above : (n : ℕ) → n ≤ k → count_clear g n ≡ count_clear f n
  unfolding count_clear
  count_above zero h = refl
  count_above (suc n) h = ground (arith, count_above n, only n)

  pub count_clear-set : (n : ℕ) → k < n → count_clear f n ≡ count_clear g n + 1
  unfolding count_clear
  count_clear-set zero h = elim h [ ]
  count_clear-set (suc n) h = elim (dec_lt k n) [
    | yes p ↦ ground (arith, count_clear-set n p, only n)
    | no q ↦
        let e : k ≡ n = omega arith in
        let e' : f n ≡ false = rw (← e) fresh in
        ground (arith, count_above n (omega arith), only n, e')
  ]

counted :
    (f : ℕ → Bool) (i : ℕ)
    → (if f i then count_clear f i else count_clear f i + 1) ≡ count_clear f (i + 1)
unfolding count_clear
counted f i = simp unary_clauses (ground arith)

num_clear_from-count :
    (b : Bitmap) (n i j : ℕ)
    → IsValid b
    → j ≡ b.num_bits
    → i + n ≡ j
    → num_clear_from n i (count_clear (bit b) i) b ≡ ok (count_clear (bit b) j)
unfolding num_clear_from
num_clear_from-count b zero i j v e h = let e' : i ≡ j = omega arith in rw (← e') refl
num_clear_from-count b (suc n) i j v e h =
    rw (test-bit b i v (omega arith), ◌>>=◌)
      (rw (counted (bit b) i) (num_clear_from-count b n (i + 1) j v e (omega arith)))

-- NumClear of a valid bitmap is the number of bits that are false.
pub num_clear-count_clear :
    (b : Bitmap) → IsValid b → num_clear b ≡ ok (count_clear (bit b) b.num_bits)
unfolding num_clear count_clear
num_clear-count_clear b v = num_clear_from-count b b.num_bits 0 b.num_bits v refl (omega arith)

-- What FindAndSet returns: -1 with all bits set, or the first clear bit, set by now.
pub data Found (b : Bitmap) (r : Option ℕ × Bitmap) : Type 0 where
  full : ((j : ℕ) → j < b.num_bits → bit b j ≡ true) → r ≡ (none, b) → Found b r
  first :
      (k : ℕ) (b' : Bitmap)
      → k < b.num_bits
      → bit b k ≡ false
      → ((j : ℕ) → j < k → bit b j ≡ true)
      → Sets b k true b'
      → r ≡ (some k, b')
      → Found b r

-- A fact about all numbers below i and about i.
extend_below :
    (f : ℕ → Bool) (i : ℕ)
    → ((j : ℕ) → j < i → f j ≡ true)
    → f i ≡ true
    → (j : ℕ) → j < i + 1
    → f j ≡ true
extend_below f i below here j h = elim (dec_lt j i) [
  | yes p ↦ below j p
  | no q ↦ let e : j ≡ i = omega arith in rw e here
]

find_and_set_from-Found :
    (n i : ℕ) (b : Bitmap)
    → IsValid b
    → i + n ≡ b.num_bits
    → ((j : ℕ) → j < i → bit b j ≡ true)
    → (r : Option ℕ × Bitmap) × (find_and_set_from n i b ≡ ok r) × Found b r
unfolding find_and_set_from
find_and_set_from-Found zero i b v e seen =
    ((none, b), refl, full (λ j h. seen j (omega arith)) refl)
find_and_set_from-Found (suc n) i b v e seen = elim (Bool-cases (bit b i)) [
  | inl used ↦
      let (r, run, found) =
        find_and_set_from-Found n (i + 1) b v (omega arith) (extend_below (bit b) i seen used) in
      (r, rw (test-bit b i v (omega arith), used) run, found)
  | inr unused ↦
      let (b', run, sets) = mark-Sets b i v (omega arith) in
      (
        (some i, b'),
        rw (test-bit b i v (omega arith), unused, run) refl,
        first i b' (omega arith) unused seen sets refl,
      )
]

-- FindAndSet on a valid bitmap always ends without a failed assertion; it returns -1 and changes
-- nothing exactly when all bits are set, and otherwise the least clear bit, which it sets, changing
-- no other bit.
pub find_and_set-Found :
    (b : Bitmap) → IsValid b → (r : Option ℕ × Bitmap) × (find_and_set b ≡ ok r) × Found b r
unfolding find_and_set
find_and_set-Found b v = find_and_set_from-Found b.num_bits 0 b v (omega arith) (λ j h. elim h [ ])

clear_from-clears :
    (n i : ℕ) (b : Bitmap)
    → IsValid b
    → i + n ≡ b.num_bits
    → ((j : ℕ) → bit b j ≡ false)
    → (b' : Bitmap) × (clear_from n i b ≡ ok b')
      × IsValid b'
      × (b'.num_bits ≡ b.num_bits)
      × ((j : ℕ) → bit b' j ≡ false)
unfolding clear_from
clear_from-clears zero i b v e none_set = (b, refl, v, refl, none_set)
clear_from-clears (suc n) i b v e none_set =
    let (c, run, sets) = clear-Sets b i v (omega arith) in
    let (b', rest, valid, size, clean) =
      clear_from-clears n (i + 1) c sets.valid (omega (arith, sets.same_size))
        (λ j. ground (arith, sets.bits j, none_set j)) in
    (b', rw run rest, valid, size ∙ sets.same_size, clean)

blank : ℕ → Bitmap
blank n = record {
  num_bits = n;
  num_words = div_round_up n bits_in_word;
  map = replicate (div_round_up n bits_in_word) 0;
}

blank-IsValid : (n : ℕ) → IsValid (blank n)
unfolding blank
blank-IsValid n = record {
  words = refl;
  stored = length-replicate (div_round_up n 32) 0;
  small = All-replicate (λ w. w < 2 ^ 32) (div_round_up n 32) 0 (omega arith);
}

bit-blank : (n j : ℕ) → bit (blank n) j ≡ false
unfolding blank bit
bit-blank n j = go (div_round_up n 32) (j / 32)
  where
    go :
        (m i : ℕ)
        → elim (get_elem? {A = ℕ} (replicate m 0) i) as (λ _. Bool) [
          | none ↦ false
          | some w ↦ test_word w (j % 32)
        ]
          ≡ false
    go zero i = refl
    go (suc m) zero = test_word-zero (j % 32)
    go (suc m) (suc i) = go m i

-- The constructor, for a positive number of items, gives a valid bitmap of that size with every
-- bit clear.
pub create-clear :
    (n : ℕ)
    → 0 < n
    → (b : Bitmap) × (create n ≡ ok b) × IsValid b × (b.num_bits ≡ n) × ((j : ℕ) → bit b j ≡ false)
unfolding create blank
create-clear n h =
    let (b, run, valid, size, clean) =
      clear_from-clears n 0 (blank n) (blank-IsValid n) (omega arith) (bit-blank n) in
    (b, rw (lt→ltb 0 n h) run, valid, size, clean)
