-- ===== src/Bitmap/Tests.antt =====
-- A bitmap of 40 bits in two words, of which 0, 1 and 33 are set.
use cs107_nach_os.Common.{ℕ, ◌≡◌, refl, Option, some, [], ◌∷◌, arith, ok}
use cs107_nach_os.Bitmap.Search.{Found, find_and_set-Found}
use cs107_nach_os.Bitmap.{
  Bitmap, IsValid, test, mark, clear, create, find_and_set, find_and_set_from, clear_from,
  div_round_up, test_word, mark_word, clear_word,
}

abbrev sample : Bitmap
sample = record { num_bits = 40; num_words = 2; map = 3 ∷ 2 ∷ [] }

sample-IsValid : IsValid sample
unfolding div_round_up
sample-IsValid = record { words = refl; stored = refl; small = omega arith }

find_and_set_runs : find_and_set sample ≡ ok (some 2, record sample { map = 7 ∷ 2 ∷ [] })
unfolding find_and_set find_and_set_from test mark test_word mark_word
find_and_set_runs = refl

create_runs : create 33 ≡ ok (record { num_bits = 33; num_words = 2; map = 0 ∷ 0 ∷ [] })
unfolding create clear_from clear test div_round_up clear_word test_word
create_runs = refl

find_and_set-Found_example : (r : Option ℕ × Bitmap) × (find_and_set sample ≡ ok r) × Found sample r
find_and_set-Found_example = find_and_set-Found sample sample-IsValid
