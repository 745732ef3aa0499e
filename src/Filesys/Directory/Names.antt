-- ===== src/Filesys/Directory/Names.antt =====
-- Comparing and copying names of at most nine characters.
use cs107_nach_os.Common.{ℕ, zero, suc, ◌≤◌, ◌≡◌, refl, true, List, [], ◌∷◌, arith, length, ap}
use cs107_nach_os.Filesys.Directory.{same_chars, copy_chars}

pub same_chars_sym : (n : ℕ) (a b : List ℕ) → same_chars n a b ≡ same_chars n b a
unfolding same_chars
same_chars_sym zero a b = refl
same_chars_sym (suc n) [] [] = refl
same_chars_sym (suc n) [] (y ∷ ys) = refl
same_chars_sym (suc n) (x ∷ xs) [] = refl
same_chars_sym (suc n) (x ∷ xs) (y ∷ ys) = let rest = same_chars_sym n xs ys in ground (arith, rest)

-- Names that agree compare with others alike.
pub same_chars_trans :
    (n : ℕ) (a b c : List ℕ) → same_chars n a b ≡ true → same_chars n a c ≡ same_chars n b c
unfolding same_chars
same_chars_trans zero a b c h = refl
same_chars_trans (suc n) [] [] c h = refl
same_chars_trans (suc n) [] (y ∷ ys) [] h = ground arith
same_chars_trans (suc n) [] (y ∷ ys) (z ∷ zs) h = ground arith
same_chars_trans (suc n) (x ∷ xs) [] [] h = ground arith
same_chars_trans (suc n) (x ∷ xs) [] (z ∷ zs) h = ground arith
same_chars_trans (suc n) (x ∷ xs) (y ∷ ys) [] h = ground arith
same_chars_trans (suc n) (x ∷ xs) (y ∷ ys) (z ∷ zs) h = ground (arith, same_chars_trans n xs ys zs)

-- A copy agrees with the name when the array has room for it.
pub same_chars-copy :
    (n : ℕ) (to name : List ℕ) → n ≤ length to → same_chars n (copy_chars n to name) name ≡ true
unfolding same_chars copy_chars
same_chars-copy zero to name h = refl
same_chars-copy (suc n) [] name h = elim h [ ]
same_chars-copy (suc n) (t ∷ ts) [] h = refl
same_chars-copy (suc n) (t ∷ ts) (zero ∷ cs) h = refl
same_chars-copy (suc n) (t ∷ ts) (suc c ∷ cs) h =
    let rest = same_chars-copy n ts cs (omega arith) in ground (arith, rest)

pub length-copy : (n : ℕ) (to name : List ℕ) → length (copy_chars n to name) ≡ length to
unfolding copy_chars
length-copy zero to name = refl
length-copy (suc n) [] name = refl
length-copy (suc n) (t ∷ ts) [] = ap suc (length-copy n ts [])
length-copy (suc n) (t ∷ ts) (zero ∷ cs) = ap suc (length-copy n ts [])
length-copy (suc n) (t ∷ ts) (suc c ∷ cs) = ap suc (length-copy n ts cs)
