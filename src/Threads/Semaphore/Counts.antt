-- ===== src/Threads/Semaphore/Counts.antt =====
-- How often a thread stands in a queue, and how many threads of the ready list are inside P.
use cs107_nach_os.Common.{
  ℕ, ◌+◌, ◌≡◌, refl, Bool, false, List, [], ◌∷◌, ◌++◌, ok, ◌==◌, if◌then◌else◌, arith,
}
use cs107_nach_os.Threads.{is_in, append}

abbrev pub one_if : Bool → ℕ
one_if b = if b then 1 else 0

abbrev pub count : ℕ → List ℕ → ℕ
count t [] = 0
count t (x ∷ xs) = one_if (x == t) + count t xs

abbrev pub woken : (ℕ → Bool) → List ℕ → ℕ
woken in_p [] = 0
woken in_p (t ∷ ts) = one_if (in_p t) + woken in_p ts

pub count-snoc : (t x : ℕ) (xs : List ℕ) → count t (xs ++ x ∷ []) ≡ count t xs + one_if (x == t)
count-snoc t x [] = omega arith
count-snoc t x (y ∷ xs) = omega (arith, count-snoc t x xs)

pub woken-snoc :
    (in_p : ℕ → Bool) (x : ℕ) (xs : List ℕ)
    → woken in_p (xs ++ x ∷ []) ≡ woken in_p xs + one_if (in_p x)
woken-snoc in_p x [] = omega arith
woken-snoc in_p x (y ∷ xs) = omega (arith, woken-snoc in_p x xs)

-- A thread outside of the list may be marked.
pub woken-mark :
    (in_p : ℕ → Bool) (c : ℕ) (b : Bool) (xs : List ℕ)
    → count c xs ≡ 0
    → woken (λ i. if c == i then b else in_p i) xs ≡ woken in_p xs
woken-mark in_p c b [] h = refl
woken-mark in_p c b (y ∷ xs) h = ground (arith, woken-mark in_p c b xs)

pub is_in-count : (t : ℕ) (xs : List ℕ) → count t xs ≡ 0 → is_in t xs ≡ false
is_in-count t [] h = refl
is_in-count t (y ∷ xs) h = ground (arith, is_in-count t xs)

pub append_new : (t : ℕ) (xs : List ℕ) → count t xs ≡ 0 → append t xs ≡ ok (xs ++ t ∷ [])
append_new t xs h = rw (is_in-count t xs h) refl
