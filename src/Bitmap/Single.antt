-- ===== src/Bitmap/Single.antt =====
-- Test, Mark and Clear on a valid bitmap: they never fail inside of it, and change one bit.
use native.Mathlib.Decide.{ℕ_discrete}
use cs107_nach_os.Common.{
  ℕ, ◌/◌, ◌%◌, ◌^◌, ◌≤◌, ◌<◌, ◌≡◌, refl, ◌∙◌, Bool, true, false, some, arith, ok, aborted, ◌==◌,
  if◌then◌else◌, get_elem?, set, All-get_elem?, All-set, get_elem?-some, get_elem?-set_self,
  get_elem?-set_ne, length-set,
}
use cs107_nach_os.Bitmap.Words.{test_word-mark, test_word-clear, mark_word-lt, clear_word-lt}
use cs107_nach_os.Bitmap.{
  Bitmap, IsValid, bit, test, mark, clear, div_round_up, test_word, mark_word, clear_word,
}

-- b' is b with bit k set to v, and is valid.
pub record Sets (b : Bitmap) (k : ℕ) (v : Bool) (b' : Bitmap) : Type 0 where
  pub valid : IsValid b'
  pub same_size : b'.num_bits ≡ b.num_bits
  pub bits : (j : ℕ) → bit b' j ≡ (if k == j then v else bit b j)

pub div-lt-div_round_up : (k n : ℕ) → k < n → k / 32 < div_round_up n 32
unfolding div_round_up
div-lt-div_round_up k n h = ground arith

module _ (b : Bitmap) (k : ℕ) (v : IsValid b) (h : k < b.num_bits) where
  pub stored_word : (w : ℕ) × (get_elem? b.map (k / 32) ≡ some w)
  stored_word =
      get_elem?-some b.map (k / 32)
        (omega (arith, v.stored, v.words, div-lt-div_round_up k b.num_bits h))

  stored_word-lt : (w : ℕ) → get_elem? b.map (k / 32) ≡ some w → w < 2 ^ 32
  stored_word-lt w e = All-get_elem? (λ w. w < 2 ^ 32) b.map (k / 32) v.small e

  -- Test reads the bit.
  pub test-bit : test b k ≡ ok (bit b k)
  unfolding test bit
  test-bit = let (w, e) = stored_word in ground (arith, e)

  -- A new value for the word of bit k that changes only that bit.
  module _ (w w' : ℕ) (x : Bool) (e : get_elem? b.map (k / 32) ≡ some w) (small : w' < 2 ^ 32)
      (only : (j : ℕ) → j < 32 → test_word w' j ≡ (if k % 32 == j then x else test_word w j)) where
    changed : Bitmap
    changed = record b { map = set b.map (k / 32) w' }

    changed_self : get_elem? (set b.map (k / 32) w') (k / 32) ≡ some w'
    changed_self =
        get_elem?-set_self b.map (k / 32) w'
          (omega (arith, v.stored, v.words, div-lt-div_round_up k b.num_bits h))

    bit-changed : (j : ℕ) → bit changed j ≡ (if k == j then x else bit b j)
    unfolding bit changed
    bit-changed j = elim (ℕ_discrete (k / 32) (j / 32)) [
      | yes p ↦ ground (arith, changed_self, only (j % 32) (omega arith), e, p)
      | no n ↦ ground (arith, get_elem?-set_ne b.map {i = k / 32} {j = j / 32} w' n)
    ]

    changed-Sets : Sets b k x changed
    unfolding changed
    changed-Sets = record {
      valid = record {
        words = v.words;
        stored = length-set b.map (k / 32) w' ∙ v.stored;
        small = All-set (λ w. w < 2 ^ 32) b.map (k / 32) w' v.small small;
      };
      same_size = refl;
      bits = bit-changed;
    }

    test-changed : test changed k ≡ ok x
    unfolding test changed
    test-changed = ground (arith, changed_self, only (k % 32) (omega arith))

module _ (b : Bitmap) (k : ℕ) (v : IsValid b) (h : k < b.num_bits) where
  -- Mark of a bit inside a valid bitmap succeeds, sets that bit, keeps all others and leaves the
  -- bitmap valid.
  pub mark-Sets : (b' : Bitmap) × (mark b k ≡ ok b') × Sets b k true b'
  unfolding mark changed
  mark-Sets =
      let (w, e) = stored_word b k v h in
      let w' = mark_word w (k % 32) in
      let small : w' < 2 ^ 32 =
        mark_word-lt w (k % 32) (omega arith) (stored_word-lt b k v h w e) in
      let only : (j : ℕ) → j < 32 → test_word w' j ≡ (if k % 32 == j then true else test_word w j) =
        λ j _. test_word-mark w (k % 32) j in
      (
        changed b k v h w w' true e small only,
        ground (arith, e, test-changed b k v h w w' true e small only),
        changed-Sets b k v h w w' true e small only,
      )

  -- Clear of a bit inside a valid bitmap succeeds, resets that bit, keeps all others and leaves the
  -- bitmap valid.
  pub clear-Sets : (b' : Bitmap) × (clear b k ≡ ok b') × Sets b k false b'
  unfolding clear changed
  clear-Sets =
      let (w, e) = stored_word b k v h in
      let w' = clear_word w (k % 32) in
      let small : w' < 2 ^ 32 = clear_word-lt w (k % 32) (stored_word-lt b k v h w e) in
      let only : (j : ℕ)
          → j < 32
          → test_word w' j ≡ (if k % 32 == j then false else test_word w j) =
        λ j l. test_word-clear w (k % 32) j (omega arith) l in
      (
        changed b k v h w w' false e small only,
        ground (arith, e, test-changed b k v h w w' false e small only),
        changed-Sets b k v h w w' false e small only,
      )

-- For a bit at or beyond the number of bits, Test, Mark and Clear fail their assertion.
out_of_range :
    (b : Bitmap) (k : ℕ)
    → b.num_bits ≤ k
    → (test b k ≡ aborted) × (mark b k ≡ aborted) × (clear b k ≡ aborted)
unfolding test mark clear
out_of_range b k h = ground arith
