-- ===== src/HashTable/Removal.antt =====
-- Remove takes one item out of its bucket.
use native.Mathlib.Nat.{mod-lt}
use mathlib.Core.Path.{subst}
use cs107_nach_os.Common.{
  ℕ, ◌+◌, ◌-◌, ◌%◌, ◌<◌, ◌≡◌, refl, sym, ◌∙◌, ap, true, false, none, some, List, [], ◌∷◌, ok, ◌>>=◌,
  ◌==◌, if◌then◌else◌, set, length, All, arith, inl, inr, Bool-cases, length-set,
}
use cs107_nach_os.HashTable.{HashTable, hash_value, find_in_bucket}
use cs107_nach_os.HashTable.Buckets.{bucket, AreDistinct, AllAt, hash_value_lem}
use cs107_nach_os.HashTable.{find, bucket_at}
use cs107_nach_os.HashTable.Buckets.{bucket_at_lem}
use cs107_nach_os.HashTable.Rehash.{found_in}
use cs107_nach_os.Threads.{is_in}
use cs107_nach_os.HashTable.{remove, delete_item}
use cs107_nach_os.HashTable.Buckets.{bucket-set, total-set, not_in}
use cs107_nach_os.HashTable.Table.{IsTable, look_table, find_lem, ok_injective}

some_injective : {a b : ℕ} → some a ≡ some b → a ≡ b
some_injective e = cc

module _ (get_key hash : ℕ → ℕ) where
  found-key :
      (k x : ℕ) (xs : List ℕ)
      → found_in get_key hash k xs ≡ some x
      → (k ≡ get_key x) × (is_in x xs ≡ true)
  unfolding find_in_bucket
  found-key k x [] e = absurd (let c = e in cc)
  found-key k x (y ∷ xs) e = elim (Bool-cases (k == get_key y)) [
    | inl f ↦
        let same : y ≡ x = some_injective (rw f at e) in
        let key : k ≡ get_key y = ground arith in (key ∙ ap get_key same, ground (arith, same))
    | inr f ↦ let (key, there) = found-key k x xs (rw f at e) in (key, ground (arith, there))
  ]

  delete-same :
      (x : ℕ) (xs : List ℕ)
      → AreDistinct get_key hash xs
      → is_in x xs ≡ true
      → (j : ℕ)
      → found_in get_key hash j (delete_item x xs)
        ≡ (if j == get_key x then none else found_in get_key hash j xs)
  unfolding find_in_bucket delete_item
  delete-same x [] d e j = absurd (let c = e in cc)
  delete-same x (y ∷ xs) (f, d) e j = elim (Bool-cases (x == y)) [
    | inl g ↦
        let same : x ≡ y = ground arith in
        let keys = ap get_key same in
        elim (Bool-cases (j == get_key x)) [
          | inl h ↦
              let here : j ≡ get_key y = ground (arith, keys) in
              rw (g, h) (ap (λ t. found_in get_key hash t xs) here ∙ f)
          | inr h ↦
              let other : (j == get_key y) ≡ false = ground (arith, h, keys) in
              rw (g, h, other) refl
        ]
    | inr g ↦
        let later : is_in x xs ≡ true = ground (arith, e, g) in
        let rest = delete-same x xs d later j in
        elim (Bool-cases (j == get_key y)) [
          | inl h ↦ elim (Bool-cases (j == get_key x)) [
            | inl u ↦
                let keys : get_key x ≡ get_key y = ground (arith, h, u) in
                let none_there =
                  not_in get_key hash x xs (ap (λ t. found_in get_key hash t xs) keys ∙ f) in
                absurd (let c = sym none_there ∙ later in cc)
            | inr u ↦ rw (g, find_in_bucket, h, u) refl
          ]
          | inr h ↦ rw (g, find_in_bucket, h) rest
        ]
  ]

  delete-All :
      (n i x : ℕ) (xs : List ℕ)
      → AllAt get_key hash n i xs
      → AllAt get_key hash n i (delete_item x xs)
  unfolding delete_item
  delete-All n i x [] a = tt
  delete-All n i x (y ∷ xs) (f, a) = elim (Bool-cases (x == y)) [
    | inl e ↦ rw (e, All) a
    | inr e ↦ rw (e, All) (f, delete-All n i x xs a)
  ]

  delete-keep :
      (k x : ℕ) (xs : List ℕ)
      → found_in get_key hash k xs ≡ none
      → found_in get_key hash k (delete_item x xs) ≡ none
  unfolding find_in_bucket delete_item
  delete-keep k x [] e = refl
  delete-keep k x (y ∷ xs) e = elim (Bool-cases (k == get_key y)) [
    | inl f ↦ absurd (let c = rw f at e in cc)
    | inr f ↦ ground (arith, f, rw f at e, delete-keep k x xs (rw f at e))
  ]

  delete-distinct :
      (x : ℕ) (xs : List ℕ)
      → AreDistinct get_key hash xs
      → AreDistinct get_key hash (delete_item x xs)
  unfolding delete_item
  delete-distinct x [] d = tt
  delete-distinct x (y ∷ xs) (f, d) = elim (Bool-cases (x == y)) [
    | inl e ↦ rw (e, AreDistinct) d
    | inr e ↦ rw (e, AreDistinct) (delete-keep (get_key y) x xs f, delete-distinct x xs d)
  ]

  length-delete :
      (x : ℕ) (xs : List ℕ) → is_in x xs ≡ true → length (delete_item x xs) + 1 ≡ length xs
  unfolding delete_item
  length-delete x [] e = absurd (let c = e in cc)
  length-delete x (y ∷ xs) e = elim (Bool-cases (x == y)) [
    | inl f ↦ rw f (omega arith)
    | inr f ↦ rw f (omega (arith, length-delete x xs (ground (arith, e, f))))
  ]

  other_bucket : (n j k : ℕ) → (hash k % n == hash j % n) ≡ false → (j == k) ≡ false
  other_bucket n j k e = elim (Bool-cases (j == k)) [
    | inl f ↦
        let same : j ≡ k = ground arith in
        let hashes = ap (λ t. hash t % n) same in absurd (ground (arith, e, hashes))
    | inr f ↦ f
  ]

  remove_step :
      (k x i : ℕ) (t : HashTable) (b : List ℕ)
      → hash_value get_key hash t.num_buckets k ≡ ok i
      → bucket_at t.buckets i ≡ ok b
      → found_in get_key hash k b ≡ some x
      → is_in x b ≡ true
      → is_in x (delete_item x b) ≡ false
      → find get_key hash k
          (record t { buckets = set t.buckets i (delete_item x b); num_items = t.num_items - 1 })
        ≡ ok none
      → remove get_key hash k t
        ≡ ok (
          x,
          record t { buckets = set t.buckets i (delete_item x b); num_items = t.num_items - 1 },
        )
  unfolding remove
  remove_step k x i t b e f g h m j = rw (e, f, ◌>>=◌, g, h, m, j) refl

  -- In a table where every item is in the bucket that its key hashes to, no key stands twice and
  -- the items are counted, Remove of a key that is found succeeds, its assertions included, and
  -- returns the item; the table is such a one again, the key is no longer found, and Find gives for
  -- every other key what it gave before.
  pub remove-IsTable :
      (k x : ℕ) (t : HashTable)
      → IsTable get_key hash t
      → find get_key hash k t ≡ ok (some x)
      → (t' : HashTable) × (remove get_key hash k t ≡ ok (x, t'))
        × IsTable get_key hash t'
        × ((j : ℕ) → find get_key hash j t' ≡ (if j == k then ok none else find get_key hash j t))
  remove-IsTable k x t w there =
      let p = w.placed in
      let i = hash k % t.num_buckets in
      let b = bucket t.buckets i in
      let inside : i < t.num_buckets = mod-lt (hash k) p.positive in
      let at : i < length t.buckets = omega (arith, p.size, inside) in
      let found : found_in get_key hash k b ≡ some x =
        ok_injective (sym (find_lem get_key hash t w k) ∙ there) in
      let (key, member) = found-key k x b found in
      let t' : HashTable = record t {
        buckets = set t.buckets i (delete_item x b);
        num_items = t.num_items - 1;
      } in
      let w' : IsTable get_key hash t' = record {
        placed = record {
          positive = p.positive;
          size = length-set t.buckets i (delete_item x b) ∙ p.size;
          fits = λ j l.
              subst (AllAt get_key hash t.num_buckets j)
                (sym (bucket-set t.buckets i j (delete_item x b) at))
                (elim (Bool-cases (i == j)) [
                  | inl e ↦
                      let same : i ≡ j = ground arith in
                      rw e (
                        subst (λ u. AllAt get_key hash t.num_buckets u (delete_item x b)) same
                          (delete-All t.num_buckets i x b (p.fits i inside)))
                  | inr e ↦ rw e (p.fits j l)
                ]);
          distinct = λ j.
              subst (AreDistinct get_key hash) (sym (bucket-set t.buckets i j (delete_item x b) at))
                (elim (Bool-cases (i == j)) [
                  | inl e ↦ rw e (delete-distinct x b (p.distinct i))
                  | inr e ↦ rw e (p.distinct j)
                ]);
        };
        count =
            omega (
              arith,
              w.count,
              total-set t.buckets i (delete_item x b) at,
              length-delete x b member,
            );
      } in
      let looks : (j : ℕ)
          → look_table get_key hash t' j ≡ (if j == k then none else look_table get_key hash t j) =
        λ j.
          ap (found_in get_key hash j)
            (bucket-set t.buckets i (hash j % t.num_buckets) (delete_item x b) at)
          ∙ elim (Bool-cases (i == hash j % t.num_buckets)) [
            | inl e ↦
                let same : i ≡ hash j % t.num_buckets = ground arith in
                rw e (
                  delete-same x b (p.distinct i) member j
                  ∙ ap (λ u. if j == u then none else found_in get_key hash j b) (sym key)
                  ∙ ap (λ u. if j == k then none else found_in get_key hash j (bucket t.buckets u))
                      same)
            | inr e ↦ rw (e, other_bucket t.num_buckets j k e) refl
          ] in
      let itself : (k == k) ≡ true = ground arith in
      let key_itself : (get_key x == get_key x) ≡ true = ground arith in
      let gone : is_in x (delete_item x b) ≡ false =
        not_in get_key hash x (delete_item x b)
          (delete-same x b (p.distinct i) member (get_key x) ∙ rw key_itself refl) in
      (
        t',
        remove_step k x i t b (hash_value_lem get_key hash t.num_buckets t.buckets p k)
            (bucket_at_lem get_key hash t.num_buckets t.buckets p k) found member gone
            (find_lem get_key hash t' w' k ∙ ap ok (looks k ∙ rw itself refl)),
        w',
        λ j. find_lem get_key hash t' w' j ∙ ap ok (looks j) ∙ elim (Bool-cases (j == k)) [
          | inl e ↦ rw e refl
          | inr e ↦ rw e (sym (find_lem get_key hash t w j))
        ],
      )
