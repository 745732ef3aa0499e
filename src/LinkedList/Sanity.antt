-- ===== src/LinkedList/Sanity.antt =====
-- SanityCheck, and the object that a sequence of items makes.
use cs107_nach_os.Common.{
  ℕ, zero, suc, ◌+◌, ◌≤◌, ◌≡◌, ◌≢◌, refl, sym, ap, ◌∙◌, Bool, true, false, Option, none, some, List,
  [], ◌∷◌, ok, ◌>>=◌, arith, length, All, ◌==◌, leb, ◌<◌,
}
use cs107_nach_os.LinkedList.{
  LinkedList, Heap, element_at, pointed, update, same_pointer, walk_to_last, assert_last,
  sanity_check,
}
use cs107_nach_os.LinkedList.Chains.{Chain, last_address, Chain-update, All-last}
use cs107_nach_os.LinkedList.Queue.{Holds}

-- The elements of a sequence, one behind the other from address i on.
unfoldable pub pointer : ℕ → List ℕ → Option ℕ
pointer i [] = none
pointer i (x ∷ xs) = some i

unfoldable pub elements_from : ℕ → List ℕ → Heap
unfolding pointer
elements_from i [] = λ a. none
elements_from i (x ∷ xs) =
    update (elements_from (i + 1) xs) i (some (record { item = x; next = pointer (i + 1) xs }))

unfoldable pub last_from : ℕ → List ℕ → Option ℕ
last_from i [] = none
last_from i (x ∷ []) = some i
last_from i (x ∷ y ∷ xs) = last_from (i + 1) (y ∷ xs)

-- A List object with these items.
unfoldable pub of_items : List ℕ → LinkedList
unfolding pointer elements_from last_from
of_items xs = record {
  heap = elements_from 0 xs;
  top = length xs;
  first = pointer 0 xs;
  last = last_from 0 xs;
  num_in_list = length xs;
}

same_pointer_refl : (p : Option ℕ) → same_pointer p p ≡ true
same_pointer_refl none = refl
same_pointer_refl (some a) = ground arith

-- The last element points to NULL.
last_points :
    (heap : Heap) (p : Option ℕ) (c : ℕ × ℕ) (cells : List (ℕ × ℕ))
    → Chain heap p (c ∷ cells)
    → (z y : ℕ) × (last_address (c ∷ cells) ≡ some z)
      × (heap z ≡ some (record { item = y; next = none }))
last_points heap p (a, x) [] (here, q, stored, once, chain) =
    (a, x, refl, stored ∙ ap (λ n. some (record { item = x; next = n })) chain)
last_points heap p (a, x) (d ∷ cells) (here, q, stored, once, chain) =
    last_points heap q d cells chain

walk_to_last-Chain :
    (l : LinkedList) (fuel : ℕ) (p : Option ℕ) (c : ℕ × ℕ) (cells : List (ℕ × ℕ)) (found : ℕ)
    → length cells ≤ fuel
    → found + length cells ≡ l.num_in_list
    → l.last ≡ last_address (c ∷ cells)
    → Chain l.heap p (c ∷ cells)
    → walk_to_last fuel l p found ≡ ok l.num_in_list
unfolding walk_to_last
walk_to_last-Chain l zero p (a, x) [] found short sum ends (here, q, stored, once, chain) =
    rw (here, ends) (ground (arith, sum))
walk_to_last-Chain l (suc fuel) p (a, x) [] found short sum ends (here, q, stored, once, chain) =
    rw (here, ends) (ground (arith, sum))
walk_to_last-Chain l zero p (a, x) (d ∷ cells) found short sum ends chain = elim short [ ]
walk_to_last-Chain l (suc fuel) p (a, x) (d ∷ cells) found short sum ends
      (here, q, stored, once, chain) =
    let (z, y, last, there) = last_points l.heap q d cells chain in
    let apart = All-last a (d ∷ cells) z once last in
    let rest =
      walk_to_last-Chain l fuel q d cells (found + 1) (omega (arith, short)) (omega (arith, sum))
        ends chain in
    let more : same_pointer (some a) l.last ≡ false = rw (ends ∙ last) (ground (arith, apart)) in
    let fits : leb (found + 1) l.num_in_list ≡ true = ground (arith, sum) in
    rw (here, more, fits, ◌>>=◌, element_at, stored) rest

assert_last-Chain :
    (l : LinkedList) (p : Option ℕ) (c : ℕ × ℕ) (cells : List (ℕ × ℕ)) (counted : Bool)
    → counted ≡ true
    → l.last ≡ last_address (c ∷ cells)
    → Chain l.heap p (c ∷ cells)
    → assert_last l counted ≡ ok tt
unfolding assert_last
assert_last-Chain l p c cells counted right ends chain =
    let (z, y, last, there) = last_points l.heap p c cells chain in
    rw (ends ∙ last, ◌>>=◌, pointed, element_at, there, right) refl

-- SanityCheck of an object that holds a sequence of cells passes: its loop ends at the last
-- element, and none of its assertions fails.
pub sanity_check-Holds :
    (l : LinkedList) (cells : List (ℕ × ℕ)) → Holds l cells → sanity_check l ≡ ok tt
unfolding sanity_check
sanity_check-Holds l [] h = rw (h.chain, h.ends, h.count) refl
sanity_check-Holds l ((a, x) ∷ []) h =
    let checked =
      assert_last-Chain l l.first (a, x) [] (l.num_in_list == 1) (ground (arith, h.count)) h.ends
        h.chain in
    let one : same_pointer l.first l.last ≡ true =
      rw (h.chain.0, h.ends) (same_pointer_refl (some a)) in
    let here : same_pointer l.first none ≡ false = rw h.chain.0 refl in rw (here, one) checked
sanity_check-Holds l ((a, x) ∷ d ∷ cells) h =
    let (here, q, stored, once, chain) = h.chain in
    let (z, y, last, there) = last_points l.heap q d cells chain in
    let apart = All-last a (d ∷ cells) z once last in
    let more : same_pointer l.first l.last ≡ false =
      rw (here, h.ends ∙ last) (ground (arith, apart)) in
    let some_first : same_pointer l.first none ≡ false = rw here refl in
    let walked =
      walk_to_last-Chain l l.num_in_list l.first (a, x) (d ∷ cells) 1 (omega (arith, h.count))
        (omega (arith, h.count)) h.ends h.chain in
    let counted : (l.num_in_list == l.num_in_list) ≡ true = ground arith in
    rw (some_first, more, walked, counted)
      (assert_last-Chain l l.first (a, x) (d ∷ cells) true refl h.ends h.chain)

cells_from : ℕ → List ℕ → List (ℕ × ℕ)
cells_from i [] = []
cells_from i (x ∷ xs) = (i, x) ∷ cells_from (i + 1) xs

cells_from-apart : (i j : ℕ) (xs : List ℕ) → i < j → All (λ (c : ℕ × ℕ). i ≢ c.0) (cells_from j xs)
unfolding cells_from
cells_from-apart i j [] l = tt
cells_from-apart i j (x ∷ xs) l =
    ((λ e. absurd (omega (arith, l, e))), cells_from-apart i (j + 1) xs (omega (arith, l)))

cells_from-allocated :
    (i top : ℕ) (xs : List ℕ)
    → i + length xs ≤ top
    → All (λ (c : ℕ × ℕ). c.0 < top) (cells_from i xs)
unfolding cells_from
cells_from-allocated i top [] l = tt
cells_from-allocated i top (x ∷ xs) l =
    (omega (arith, l), cells_from-allocated (i + 1) top xs (omega (arith, l)))

cells_from-Chain :
    (i : ℕ) (xs : List ℕ) → Chain (elements_from i xs) (pointer i xs) (cells_from i xs)
unfolding cells_from elements_from pointer
cells_from-Chain i [] = refl
cells_from-Chain i (x ∷ xs) =
    let apart = cells_from-apart i (i + 1) xs (omega arith) in
    (
      refl,
      pointer (i + 1) xs,
      ground arith,
      apart,
      Chain-update (elements_from (i + 1) xs) (pointer (i + 1) xs) (cells_from (i + 1) xs) i _ apart
          (cells_from-Chain (i + 1) xs),
    )

cells_from-last : (i : ℕ) (xs : List ℕ) → last_from i xs ≡ last_address (cells_from i xs)
unfolding cells_from last_from
cells_from-last i [] = refl
cells_from-last i (x ∷ []) = refl
cells_from-last i (x ∷ y ∷ xs) = cells_from-last (i + 1) (y ∷ xs)

length-cells_from : (i : ℕ) (xs : List ℕ) → length (cells_from i xs) ≡ length xs
unfolding cells_from
length-cells_from i [] = refl
length-cells_from i (x ∷ xs) = ap suc (length-cells_from (i + 1) xs)

of_items-Holds : (xs : List ℕ) → Holds (of_items xs) (cells_from 0 xs)
unfolding of_items
of_items-Holds xs = record {
  chain = cells_from-Chain 0 xs;
  ends = cells_from-last 0 xs;
  count = sym (length-cells_from 0 xs);
  allocated = cells_from-allocated 0 (length xs) xs (omega arith);
}

pub sanity_check-of_items : (xs : List ℕ) → sanity_check (of_items xs) ≡ ok tt
sanity_check-of_items xs = sanity_check-Holds (of_items xs) (cells_from 0 xs) (of_items-Holds xs)
