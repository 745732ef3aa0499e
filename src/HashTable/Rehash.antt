-- ===== src/HashTable/Rehash.antt =====
-- ReHash moves every item to a bucket of the new table and keeps the map from keys to items.
use native.Mathlib.Nat.{mod-lt}
use mathlib.Core.Path.{subst}
use cs107_nach_os.Common.{
  ℕ, zero, suc, ◌+◌, ◌-◌, ◌%◌, ◌<◌, ◌≤◌, ◌≡◌, refl, sym, ◌∙◌, ap, true, false, Option, none, some,
  List, [], ◌∷◌, ok, ltb, ◌==◌, if◌then◌else◌, length, arith, inl, inr, Bool-cases, Option-cases,
}
use cs107_nach_os.LinkedList.Sanity.{sanity_check-of_items}
use cs107_nach_os.HashTable.{
  hash_value, find_in_bucket, move_items, move_buckets, check_items, check_buckets,
}
use cs107_nach_os.HashTable.Buckets.{
  bucket, total, AreDistinct, look, AllAt, IsPlaced, put_item_lem,
}

abbrev pub or_else : Option ℕ → Option ℕ → Option ℕ
or_else none o = o
or_else (some x) o = some x

step : (i j : ℕ) → i + suc j ≡ i + 1 + j
step i j = omega arith

pub or_else-none : (o : Option ℕ) → or_else o none ≡ o
or_else-none none = refl
or_else-none (some x) = refl

module _ (get_key hash : ℕ → ℕ) where
  abbrev pub found_in : ℕ → List ℕ → Option ℕ
  found_in = find_in_bucket get_key hash

  -- The bucket that ReHash takes first has the item.
  abbrev pub look_all : ℕ → List (List ℕ) → Option ℕ
  look_all k [] = none
  look_all k (b ∷ bs) = or_else (found_in k b) (look_all k bs)

  find_head : (x : ℕ) (xs : List ℕ) → found_in (get_key x) (x ∷ xs) ≡ some x
  unfolding find_in_bucket
  find_head x xs = ground arith

  pub find_cons :
      (k x : ℕ) (xs : List ℕ)
      → found_in k (x ∷ xs) ≡ (if k == get_key x then some x else found_in k xs)
  unfolding find_in_bucket
  find_cons k x xs = refl

  -- The keys of a list are new in the buckets.
  abbrev pub AreNew : ℕ → List (List ℕ) → (ℕ → Option ℕ) → Type 0
  AreNew n bs f = (k y : ℕ) → f k ≡ some y → look get_key hash n bs k ≡ none

  still_new :
      (n x : ℕ) (xs : List ℕ) (bs bs1 : List (List ℕ))
      → found_in (get_key x) xs ≡ none
      → ((k : ℕ)
          → look get_key hash n bs1 k
            ≡ (if k == get_key x then some x else look get_key hash n bs k))
      → AreNew n bs (λ k. found_in k (x ∷ xs))
      → AreNew n bs1 (λ k. found_in k xs)
  still_new n x xs bs bs1 fresh look1 new k y e = elim (Bool-cases (k == get_key x)) [
    | inl f ↦
        let same : k ≡ get_key x = ground arith in
        let gone : found_in k xs ≡ none = ap (λ t. found_in t xs) same ∙ fresh in
        absurd (let c = sym gone ∙ e in cc)
    | inr f ↦ look1 k ∙ rw f (new k y (find_cons k x xs ∙ rw f e))
  ]

  move_items_lem :
      (n : ℕ) (xs : List ℕ) (bs : List (List ℕ))
      → IsPlaced get_key hash n bs
      → AreDistinct get_key hash xs
      → AreNew n bs (λ k. found_in k xs)
      → (bs' : List (List ℕ)) × (move_items get_key hash n xs bs ≡ ok bs')
        × IsPlaced get_key hash n bs'
        × ((k : ℕ) → look get_key hash n bs' k ≡ or_else (found_in k xs) (look get_key hash n bs k))
        × (total bs' ≡ total bs + length xs)
  unfolding move_items find_in_bucket
  move_items_lem n [] bs p d new = (bs, refl, p, λ k. refl, omega arith)
  move_items_lem n (x ∷ xs) bs p (fresh, d) new =
      let (bs1, run1, p1, look1, total1) =
        put_item_lem get_key hash n bs p x (new (get_key x) x (find_head x xs)) in
      let (bs2, run2, p2, look2, total2) =
        move_items_lem n xs bs1 p1 d (still_new n x xs bs bs1 fresh look1 new) in
      (
        bs2,
        rw run1 run2,
        p2,
        λ k. look2 k ∙ elim (Bool-cases (k == get_key x)) [
          | inl e ↦
              let same : k ≡ get_key x = ground arith in
              let gone : found_in k xs ≡ none = ap (λ t. found_in t xs) same ∙ fresh in
              rw (gone, e) (look1 k ∙ rw e refl)
          | inr e ↦ rw e (ap (or_else (found_in k xs)) (look1 k ∙ rw e refl))
        ],
        omega (arith, total1, total2),
      )

  -- The buckets have no key in common.
  abbrev pub AreApart : List (List ℕ) → Type 0
  AreApart [] = Unit {0}
  AreApart (b ∷ bs) =
      AreDistinct get_key hash b
      × ((k y : ℕ) → look_all k bs ≡ some y → found_in k b ≡ none)
      × AreApart bs

  pub move_buckets_lem :
      (n : ℕ) (old bs : List (List ℕ))
      → IsPlaced get_key hash n bs
      → AreApart old
      → AreNew n bs (λ k. look_all k old)
      → (bs' : List (List ℕ)) × (move_buckets get_key hash n old bs ≡ ok bs')
        × IsPlaced get_key hash n bs'
        × ((k : ℕ)
            → look get_key hash n bs' k ≡ or_else (look_all k old) (look get_key hash n bs k))
        × (total bs' ≡ total bs + total old)
  unfolding move_buckets total
  move_buckets_lem n [] bs p a new = (bs, refl, p, λ k. refl, omega arith)
  move_buckets_lem n (b ∷ old) bs p (d, others, a) new =
      let (bs1, run1, p1, look1, total1) =
        move_items_lem n b bs p d
          (λ k y e. new k y (ap (λ (o : Option ℕ). or_else o (look_all k old)) e)) in
      let (bs2, run2, p2, look2, total2) = move_buckets_lem n old bs1 p1 a (λ k y e.
        look1 k
        ∙ ap (λ (o : Option ℕ). or_else o (look get_key hash n bs k)) (others k y e)
        ∙ new k y (ap (λ (o : Option ℕ). or_else o (look_all k old)) (others k y e) ∙ e)) in
      (
        bs2,
        rw run1 run2,
        p2,
        λ k.
            look2 k
            ∙ ap (or_else (look_all k old)) (look1 k)
            ∙ elim (Option-cases (look_all k old)) [
              | inl e ↦
                  rw (e, or_else)
                    (ap (λ o. or_else o (look get_key hash n bs k))
                      (sym (or_else-none (found_in k b))))
              | inr (y, e) ↦ rw (e, others k y e) refl
            ],
        omega (arith, total1, total2),
      )

  -- In a table where every item is where it hashes to, only one bucket can have a key.
  not_here :
      (m i k : ℕ) (b : List ℕ)
      → AllAt get_key hash m i b
      → (hash k % m == i) ≡ false
      → found_in k b ≡ none
  unfolding find_in_bucket
  not_here m i k [] a e = refl
  not_here m i k (x ∷ b) (f, a) e = elim (Bool-cases (k == get_key x)) [
    | inl g ↦
        let same : k ≡ get_key x = ground arith in
        let hashes : hash k % m ≡ i = ap (λ t. hash t % m) same ∙ f in
        absurd (ground (arith, e, hashes))
    | inr g ↦ rw g (not_here m i k b a e)
  ]

  not_later :
      (m i k : ℕ) (bs : List (List ℕ))
      → ((j : ℕ) → j < length bs → AllAt get_key hash m (i + j) (bucket bs j))
      → hash k % m < i
      → look_all k bs ≡ none
  not_later m i k [] fits l = refl
  not_later m i k (b ∷ bs) fits l =
      let zero_add : i + 0 ≡ i = omega arith in
      rw (not_here m (i + 0) k b (fits zero (omega arith)) (ground (arith, l))) (
        not_later m (i + 1) k bs
          (λ j o.
            subst (λ t. AllAt get_key hash m t (bucket bs j)) (step i j)
              (fits (suc j) (omega (arith, o))))
          (omega (arith, l)))

  pub look_all_lem :
      (m i k : ℕ) (bs : List (List ℕ))
      → ((j : ℕ) → j < length bs → AllAt get_key hash m (i + j) (bucket bs j))
      → i ≤ hash k % m
      → look_all k bs ≡ found_in k (bucket bs (hash k % m - i))
  unfolding find_in_bucket
  look_all_lem m i k [] fits l = refl
  look_all_lem m i k (b ∷ bs) fits l =
      let later : (j : ℕ) → j < length bs → AllAt get_key hash m (i + 1 + j) (bucket bs j) = λ j o.
        subst (λ t. AllAt get_key hash m t (bucket bs j)) (step i j)
          (fits (suc j) (omega (arith, o))) in
      elim (Bool-cases (hash k % m == i)) [
        | inl e ↦
            let here : hash k % m - i ≡ 0 = ground arith in
            rw (here, not_later m (i + 1) k bs later (ground arith)) (or_else-none (found_in k b))
        | inr e ↦
            let next : hash k % m - i ≡ suc (hash k % m - (i + 1)) = ground (arith, e, l) in
            let zero_add : i + 0 ≡ i = omega arith in
            rw (next, not_here m (i + 0) k b (fits zero (omega arith)) (rw zero_add e))
              (look_all_lem m (i + 1) k bs later (ground (arith, e, l)))
      ]

  pub fits-AreApart :
      (m i : ℕ) (bs : List (List ℕ))
      → ((j : ℕ) → j < length bs → AllAt get_key hash m (i + j) (bucket bs j))
      → ((j : ℕ) → AreDistinct get_key hash (bucket bs j))
      → AreApart bs
  fits-AreApart m i [] fits d = tt
  fits-AreApart m i (b ∷ bs) fits d =
      let later : (j : ℕ) → j < length bs → AllAt get_key hash m (i + 1 + j) (bucket bs j) = λ j o.
        subst (λ t. AllAt get_key hash m t (bucket bs j)) (step i j)
          (fits (suc j) (omega (arith, o))) in
      (
        d zero,
        λ k y e. elim (Bool-cases (hash k % m == i + 0)) [
          | inl f ↦ absurd (let c = sym (not_later m (i + 1) k bs later (ground arith)) ∙ e in cc)
          | inr f ↦ not_here m (i + 0) k b (fits zero (omega arith)) f
        ],
        fits-AreApart m (i + 1) bs later (λ j. d (suc j)),
      )

  module _ (n : ℕ) (positive : 0 < n) where
    pub hash_value_positive : (k : ℕ) → hash_value get_key hash n k ≡ ok (hash k % n)
    hash_value_positive k =
        let some_bucket : (n == 0) ≡ false = ground (arith, positive) in
        let inside : ltb (hash k % n) n ≡ true = ground (arith, mod-lt (hash k) positive) in
        rw (some_bucket, inside) refl

    check_items_lem :
        (i : ℕ) (b : List ℕ)
        → AllAt get_key hash n i b
        → check_items get_key hash n i b ≡ ok (length b)
    unfolding check_items
    check_items_lem i [] a = refl
    check_items_lem i (x ∷ b) (e, a) =
        let here : (i == hash (get_key x) % n) ≡ true = ground (arith, e) in
        rw (hash_value_positive (get_key x), here, check_items_lem i b a) refl

    pub check_buckets_lem :
        (i : ℕ) (bs : List (List ℕ))
        → ((j : ℕ) → j < length bs → AllAt get_key hash n (i + j) (bucket bs j))
        → check_buckets get_key hash n i bs ≡ ok (total bs)
    unfolding check_buckets total
    check_buckets_lem i [] fits = refl
    check_buckets_lem i (b ∷ bs) fits =
        let zero_add : i + 0 ≡ i = omega arith in
        let first =
          check_items_lem i b
            (subst (λ t. AllAt get_key hash n t b) zero_add (fits zero (omega arith))) in
        let rest = check_buckets_lem (i + 1) bs (λ j o.
          subst (λ t. AllAt get_key hash n t (bucket bs j)) (step i j)
            (fits (suc j) (omega (arith, o)))) in
        rw (sanity_check-of_items b, first, rest) refl
