-- ===== src/HashTable/Buckets.antt =====
-- The buckets as a map from keys to items, and one item put into its bucket.
use cs107_nach_os.Common.{
  ℕ, zero, suc, ◌+◌, ◌%◌, ◌<◌, ◌≡◌, refl, sym, ◌∙◌, ap, true, false, Option, none, some, List, [],
  ◌∷◌, ◌++◌, ok, ltb, ◌==◌, if◌then◌else◌, get_elem?, get_or, set, length, All, arith, inl, inr,
  Bool-cases, length-set,
}
use native.Mathlib.Nat.{mod-lt}
use mathlib.Core.Path.{subst}
use cs107_nach_os.Threads.{is_in}
use cs107_nach_os.HashTable.{hash_value, find_in_bucket, put_item, bucket_at}

abbrev pub bucket : List (List ℕ) → ℕ → List ℕ
bucket bs i = get_or bs i []

unfoldable pub total : List (List ℕ) → ℕ
total [] = 0
total (b ∷ bs) = length b + total bs

pub get_elem?-bucket :
    (bs : List (List ℕ)) (i : ℕ) → i < length bs → get_elem? bs i ≡ some (bucket bs i)
get_elem?-bucket [] i l = absurd (omega (arith, l))
get_elem?-bucket (b ∷ bs) zero l = refl
get_elem?-bucket (b ∷ bs) (suc i) l = get_elem?-bucket bs i (omega (arith, l))

pub bucket-set :
    (bs : List (List ℕ)) (i j : ℕ) (b : List ℕ)
    → i < length bs
    → bucket (set bs i b) j ≡ (if i == j then b else bucket bs j)
bucket-set [] i j b l = absurd (omega (arith, l))
bucket-set (c ∷ bs) zero zero b l = refl
bucket-set (c ∷ bs) zero (suc j) b l = ground arith
bucket-set (c ∷ bs) (suc i) zero b l = ground arith
bucket-set (c ∷ bs) (suc i) (suc j) b l = ground (arith, bucket-set bs i j b (omega (arith, l)))

pub total-set :
    (bs : List (List ℕ)) (i : ℕ) (b : List ℕ)
    → i < length bs
    → total (set bs i b) + length (bucket bs i) ≡ total bs + length b
unfolding total
total-set [] i b l = absurd (omega (arith, l))
total-set (c ∷ bs) zero b l = omega arith
total-set (c ∷ bs) (suc i) b l = omega (arith, total-set bs i b (omega (arith, l)))

length-snoc : (xs : List ℕ) (x : ℕ) → length (xs ++ x ∷ []) ≡ length xs + 1
length-snoc [] x = refl
length-snoc (y ∷ xs) x = omega (arith, length-snoc xs x)

module _ (get_key hash : ℕ → ℕ) where
  -- No two items with the same key.
  abbrev pub AreDistinct : List ℕ → Type 0
  AreDistinct [] = Unit {0}
  AreDistinct (x ∷ xs) = (find_in_bucket get_key hash (get_key x) xs ≡ none) × AreDistinct xs

  -- The item with a key, in the bucket that the key hashes to.
  abbrev pub look : ℕ → List (List ℕ) → ℕ → Option ℕ
  look n bs k = find_in_bucket get_key hash k (bucket bs (hash k % n))

  abbrev pub AllAt : ℕ → ℕ → List ℕ → Type 0
  AllAt n i xs = All (λ x. hash (get_key x) % n ≡ i) xs

  -- n buckets, every item in the bucket that its key hashes to, and no key twice.
  pub record IsPlaced (n : ℕ) (bs : List (List ℕ)) : Type 0 where
    pub positive : 0 < n
    pub size : length bs ≡ n
    pub fits : (i : ℕ) → i < n → AllAt n i (bucket bs i)
    pub distinct : (i : ℕ) → AreDistinct (bucket bs i)

  pub find_tail :
      (k y : ℕ) (xs : List ℕ)
      → find_in_bucket get_key hash k (y ∷ xs) ≡ none
      → ((k == get_key y) ≡ false) × (find_in_bucket get_key hash k xs ≡ none)
  unfolding find_in_bucket
  find_tail k y xs e = elim (Bool-cases (k == get_key y)) [
    | inl f ↦ absurd (let c = rw f at e in cc)
    | inr f ↦ (f, rw f at e)
  ]

  find-snoc :
      (k x : ℕ) (xs : List ℕ)
      → find_in_bucket get_key hash (get_key x) xs ≡ none
      → find_in_bucket get_key hash k (xs ++ x ∷ [])
        ≡ (if k == get_key x then some x else find_in_bucket get_key hash k xs)
  unfolding find_in_bucket
  find-snoc k x [] e = refl
  find-snoc k x (y ∷ xs) e =
      let (f, e') = find_tail (get_key x) y xs e in
      let rest = find-snoc k x xs e' in ground (arith, f, rest)

  pub not_in :
      (x : ℕ) (xs : List ℕ) → find_in_bucket get_key hash (get_key x) xs ≡ none → is_in x xs ≡ false
  unfolding find_in_bucket
  not_in x [] e = refl
  not_in x (y ∷ xs) e =
      let (f, e') = find_tail (get_key x) y xs e in
      elim (Bool-cases (y == x)) [
        | inl g ↦
            let same : y ≡ x = ground arith in
            let key_same = ap get_key same in absurd (ground (arith, f, key_same))
        | inr g ↦ ground (arith, g, not_in x xs e')
      ]

  distinct-snoc :
      (x : ℕ) (xs : List ℕ)
      → find_in_bucket get_key hash (get_key x) xs ≡ none
      → AreDistinct xs
      → AreDistinct (xs ++ x ∷ [])
  unfolding find_in_bucket
  distinct-snoc x [] e d = (refl, tt)
  distinct-snoc x (y ∷ xs) e (f, d) =
      let (g, e') = find_tail (get_key x) y xs e in
      (find-snoc (get_key y) x xs e' ∙ ground (arith, g, f), distinct-snoc x xs e' d)

  all-snoc :
      (n i x : ℕ) (xs : List ℕ) → AllAt n i xs → hash (get_key x) % n ≡ i → AllAt n i (xs ++ x ∷ [])
  all-snoc n i x [] a e = (e, tt)
  all-snoc n i x (y ∷ xs) (f, a) e = (f, all-snoc n i x xs a e)

  pub other_key :
      (n : ℕ) (bs : List (List ℕ)) (x k : ℕ)
      → (hash (get_key x) % n == hash k % n) ≡ false
      → look n bs k ≡ (if k == get_key x then some x else look n bs k)
  other_key n bs x k e = elim (Bool-cases (k == get_key x)) [
    | inl f ↦
        let same : k ≡ get_key x = ground arith in
        let hashes = ap (λ t. hash t % n) same in absurd (ground (arith, e, hashes))
    | inr f ↦ rw f refl
  ]

  module _ (n : ℕ) (bs : List (List ℕ)) (p : IsPlaced n bs) where
    pub hash_value_lem : (k : ℕ) → hash_value get_key hash n k ≡ ok (hash k % n)
    hash_value_lem k =
        let some_bucket : (n == 0) ≡ false = ground (arith, p.positive) in
        let inside : ltb (hash k % n) n ≡ true = ground (arith, mod-lt (hash k) p.positive) in
        rw (some_bucket, inside) refl

    pub bucket_at_lem : (k : ℕ) → bucket_at bs (hash k % n) ≡ ok (bucket bs (hash k % n))
    bucket_at_lem k =
        rw
          (
            bucket_at,
            get_elem?-bucket bs (hash k % n) (omega (arith, p.size, mod-lt (hash k) p.positive)),
          )
          refl

    -- An item with a new key goes to its bucket.
    pub put_item_lem :
        (x : ℕ)
        → look n bs (get_key x) ≡ none
        → (bs' : List (List ℕ)) × (put_item get_key hash n x bs ≡ ok bs')
          × IsPlaced n bs'
          × ((k : ℕ) → look n bs' k ≡ (if k == get_key x then some x else look n bs k))
          × (total bs' ≡ total bs + 1)
    unfolding put_item
    put_item_lem x new =
        let i = hash (get_key x) % n in
        let b = bucket bs i in
        let at : i < length bs = omega (arith, p.size, mod-lt (hash (get_key x)) p.positive) in
        let absent = not_in x b new in
        (
          set bs i (b ++ x ∷ []),
          rw (hash_value_lem (get_key x), bucket_at_lem (get_key x), absent) refl,
          record {
            positive = p.positive;
            size = length-set bs i (b ++ x ∷ []) ∙ p.size;
            fits = λ j l. elim (Bool-cases (i == j)) [
              | inl e ↦
                  let same : i ≡ j = ground arith in
                  let now : bucket (set bs i (b ++ x ∷ [])) j ≡ b ++ x ∷ [] =
                    bucket-set bs i j (b ++ x ∷ []) at ∙ rw e refl in
                  subst (AllAt n j) (sym now) (
                    subst (λ t. AllAt n t (b ++ x ∷ [])) same
                      (all-snoc n i x b (p.fits i (mod-lt (hash (get_key x)) p.positive)) refl))
              | inr e ↦
                  let now : bucket (set bs i (b ++ x ∷ [])) j ≡ bucket bs j =
                    bucket-set bs i j (b ++ x ∷ []) at ∙ rw e refl in
                  subst (AllAt n j) (sym now) (p.fits j l)
            ];
            distinct = λ j.
                subst AreDistinct (sym (bucket-set bs i j (b ++ x ∷ []) at))
                  (elim (Bool-cases (i == j)) [
                    | inl e ↦ rw e (distinct-snoc x b new (p.distinct i))
                    | inr e ↦ rw e (p.distinct j)
                  ]);
          },
          λ k.
              ap (find_in_bucket get_key hash k) (bucket-set bs i (hash k % n) (b ++ x ∷ []) at)
              ∙ elim (Bool-cases (i == hash k % n)) [
                | inl e ↦
                    let same : i ≡ hash k % n = ground arith in
                    rw e (
                      find-snoc k x b new
                      ∙ ap
                          (λ t.
                            if k == get_key x
                            then some x
                            else find_in_bucket get_key hash k (bucket bs t))
                          same)
                | inr e ↦ rw e (other_key n bs x k e)
              ],
          omega (arith, total-set bs i (b ++ x ∷ []) at, length-snoc b x),
        )
