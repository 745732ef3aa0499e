-- ===== src/Bitmap.antt =====
-- NachOS-4.0/code/lib/bitmap.cc: an array of bits in an array of 32-bit words.
pub mod Words
pub mod Single
pub mod Search
mod Tests
use cs107_nach_os.Common.{
  ℕ, zero, suc, ◌+◌, ◌-◌, ◌*◌, ◌/◌, ◌%◌, ◌^◌, ◌<◌, ◌≡◌, Bool, true, false, not, Option, none, some,
  List, bit_and, bit_or, Outcome, ok, aborted, ◌>>=◌, ◌>>◌, assert, ltb, ◌==◌, if◌then◌else◌,
  get_elem?, set, length, replicate, All,
}

abbrev pub bits_in_word : ℕ
bits_in_word = 32

-- The macro of lib/utility.h, for a positive s.
unfoldable pub div_round_up : ℕ → ℕ → ℕ
div_round_up n s = n / s + (if ltb 0 (n % s) then 1 else 0)

pub record Bitmap : Type 0 where
  pub num_bits : ℕ
  pub num_words : ℕ
  pub map : List ℕ

-- An access outside of the array is a fault.
abbrev pub word_at : List ℕ → ℕ → Outcome ℕ
word_at ws i = elim (get_elem? ws i) [ none ↦ aborted | some w ↦ ok w ]

-- `w & (1 << k)`, as a condition; `w | (1 << k)`; `w & ~(1 << k)`.
unfoldable pub test_word : ℕ → ℕ → Bool
test_word w k = not (bit_and w (2 ^ k) == 0)

pub mark_word : ℕ → ℕ → ℕ
mark_word w k = bit_or w (2 ^ k)

pub clear_word : ℕ → ℕ → ℕ
clear_word w k = bit_and w (2 ^ 32 - 1 - 2 ^ k)

pub test : Bitmap → ℕ → Outcome Bool
test b which = do
  assert (ltb which b.num_bits)
  w ← word_at b.map (which / bits_in_word)
  ok (test_word w (which % bits_in_word))

pub mark : Bitmap → ℕ → Outcome Bitmap
mark b which = do
  assert (ltb which b.num_bits)
  w ← word_at b.map (which / bits_in_word)
  let b' = record b { map = set b.map (which / bits_in_word) (mark_word w (which % bits_in_word)) }
  t ← test b' which
  assert t
  ok b'

pub clear : Bitmap → ℕ → Outcome Bitmap
clear b which = do
  assert (ltb which b.num_bits)
  w ← word_at b.map (which / bits_in_word)
  let b' = record b { map = set b.map (which / bits_in_word) (clear_word w (which % bits_in_word)) }
  t ← test b' which
  assert (not t)
  ok b'

-- `for (i = i; i < i + n; i++) Clear(i);`
pub clear_from : ℕ → ℕ → Bitmap → Outcome Bitmap
clear_from zero i b = ok b
clear_from (suc n) i b = clear b i >>= clear_from n (i + 1)

-- The constructor.
pub create : ℕ → Outcome Bitmap
create num_items = do
  assert (ltb 0 num_items)
  let num_words = div_round_up num_items bits_in_word
  clear_from num_items 0
      (record { num_bits = num_items; num_words = num_words; map = replicate num_words 0 })

-- The search from bit i on, with n bits left.
pub find_and_set_from : ℕ → ℕ → Bitmap → Outcome (Option ℕ × Bitmap)
find_and_set_from zero i b = ok (none, b)
find_and_set_from (suc n) i b =
    let rest = find_and_set_from n (i + 1) b in
    let take = mark b i >>= λ b'. ok (some i, b') in test b i >>= λ t. if t then rest else take

-- `none` is -1.
pub find_and_set : Bitmap → Outcome (Option ℕ × Bitmap)
find_and_set b = find_and_set_from b.num_bits 0 b

pub num_clear_from : ℕ → ℕ → ℕ → Bitmap → Outcome ℕ
num_clear_from zero i count b = ok count
num_clear_from (suc n) i count b =
    test b i >>= λ t. num_clear_from n (i + 1) (if t then count else count + 1) b

pub num_clear : Bitmap → Outcome ℕ
num_clear b = num_clear_from b.num_bits 0 0 b

-- The bits as a function of their number.
unfoldable pub bit : Bitmap → ℕ → Bool
bit b k = elim (get_elem? b.map (k / bits_in_word)) [
  | none ↦ false
  | some w ↦ test_word w (k % bits_in_word)
]

-- Every bit has a word, and words have 32 bits.
pub record IsValid (b : Bitmap) : Type 0 where
  pub words : b.num_words ≡ div_round_up b.num_bits bits_in_word
  pub stored : length b.map ≡ b.num_words
  pub small : All (λ w. w < 2 ^ 32) b.map
