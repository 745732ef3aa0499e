-- ===== src/HashTable/Table.antt =====
-- The table as a map from keys to items: Find, ReHash and Insert.
use mathlib.Core.Path.{subst}
use cs107_nach_os.Common.{
  ℕ, zero, suc, ◌+◌, ◌*◌, ◌/◌, ◌%◌, ◌<◌, ◌≡◌, refl, sym, ◌∙◌, ap, true, Option, none, some, List,
  [], ok, leb, ◌==◌, if◌then◌else◌, length, replicate, arith, inl, inr, Bool-cases,
  length-replicate,
}
use cs107_nach_os.HashTable.{HashTable, find_in_bucket, put_item, sanity_check, re_hash}
use cs107_nach_os.HashTable.Buckets.{
  bucket, total, AreDistinct, look, AllAt, IsPlaced, put_item_lem, hash_value_lem,
}
use cs107_nach_os.HashTable.{find, insert}
use cs107_nach_os.HashTable.Buckets.{bucket_at_lem}
use cs107_nach_os.HashTable.Rehash.{
  or_else, or_else-none, look_all, found_in, move_buckets_lem, look_all_lem, fits-AreApart,
  check_buckets_lem,
}

pub ok_injective : {a b : Option ℕ} → ok a ≡ ok b → a ≡ b
ok_injective e = cc

zero_add : (j : ℕ) → j ≡ 0 + j
zero_add j = omega arith

bucket-empty : (n i : ℕ) → bucket (replicate n []) i ≡ []
bucket-empty zero i = refl
bucket-empty (suc n) zero = refl
bucket-empty (suc n) (suc i) = bucket-empty n i

total-empty : (n : ℕ) → total (replicate n []) ≡ 0
unfolding total
total-empty zero = refl
total-empty (suc n) = omega (arith, total-empty n)

from_zero :
    (get_key hash : ℕ → ℕ) (n : ℕ) (bs : List (List ℕ))
    → IsPlaced get_key hash n bs
    → (j : ℕ) → j < length bs
    → AllAt get_key hash n (0 + j) (bucket bs j)
from_zero get_key hash n bs p j l =
    subst (λ t. AllAt get_key hash n t (bucket bs j)) (zero_add j)
      (p.fits j (omega (arith, l, p.size)))

module _ (get_key hash : ℕ → ℕ) where
  -- Placed items, as many as the table counts.
  pub record IsTable (t : HashTable) : Type 0 where
    pub placed : IsPlaced get_key hash t.num_buckets t.buckets
    pub count : t.num_items ≡ total t.buckets

  pub empty-IsPlaced : (n : ℕ) → 0 < n → IsPlaced get_key hash n (replicate n [])
  empty-IsPlaced n l = record {
    positive = l;
    size = length-replicate n [];
    fits = λ i o. subst (AllAt get_key hash n i) (sym (bucket-empty n i)) tt;
    distinct = λ i. subst (AreDistinct get_key hash) (sym (bucket-empty n i)) tt;
  }

  sanity_check_lem : (t : HashTable) → IsTable t → sanity_check get_key hash t ≡ ok t
  unfolding sanity_check
  sanity_check_lem t w =
      let found =
        check_buckets_lem get_key hash t.num_buckets w.placed.positive 0 t.buckets
          (from_zero get_key hash t.num_buckets t.buckets w.placed) in
      let all : (t.num_items == total t.buckets) ≡ true = ground (arith, w.count) in
      rw (found, all) refl

  look-empty : (n k : ℕ) → look get_key hash n (replicate n []) k ≡ none
  unfolding find_in_bucket
  look-empty n k = ap (found_in get_key hash k) (bucket-empty n (hash k % n))

  abbrev pub look_table : HashTable → ℕ → Option ℕ
  look_table t k = look get_key hash t.num_buckets t.buckets k

  pub find_lem : (t : HashTable) → IsTable t → (k : ℕ) → find get_key hash k t ≡ ok (look_table t k)
  unfolding find
  find_lem t w k =
      rw
        (
          hash_value_lem get_key hash t.num_buckets t.buckets w.placed k,
          bucket_at_lem get_key hash t.num_buckets t.buckets w.placed k,
        )
        refl

  re_hash_lem :
      (t : HashTable)
      → IsTable t
      → (t' : HashTable) × (re_hash get_key hash t ≡ ok t')
        × IsTable t'
        × ((k : ℕ) → look_table t' k ≡ look_table t k)
  unfolding re_hash
  re_hash_lem t w =
      let p = w.placed in
      let n = t.num_buckets * 4 in
      let start = from_zero get_key hash t.num_buckets t.buckets p in
      let (bs, run, placed, looks, sum) =
        move_buckets_lem get_key hash n t.buckets (replicate n [])
          (empty-IsPlaced n (omega (arith, p.positive)))
          (fits-AreApart get_key hash t.num_buckets 0 t.buckets start p.distinct)
          (λ k y e. look-empty n k) in
      let t' : HashTable = record t { buckets = bs; num_buckets = n } in
      let w' : IsTable t' = record {
        placed = placed;
        count = omega (arith, w.count, sum, total-empty n);
      } in
      (
        t',
        rw (sanity_check_lem t w, run) (sanity_check_lem t' w'),
        w',
        λ k.
            looks k
            ∙ ap (or_else (look_all get_key hash k t.buckets)) (look-empty n k)
            ∙ or_else-none (look_all get_key hash k t.buckets)
            ∙ look_all_lem get_key hash t.num_buckets 0 k t.buckets start (omega arith)
            ∙ ap (λ j. found_in get_key hash k (bucket t.buckets j)) (omega arith),
      )

  grow_lem :
      (t : HashTable)
      → IsTable t
      → (t' : HashTable) × ((if leb 3 (t.num_items / t.num_buckets)
            then re_hash get_key hash t
            else ok t)
          ≡ ok t')
        × IsTable t'
        × ((k : ℕ) → look_table t' k ≡ look_table t k)
  grow_lem t w = elim (Bool-cases (leb 3 (t.num_items / t.num_buckets))) [
    | inl e ↦ let (t', run, w', same) = re_hash_lem t w in (t', rw e run, w', same)
    | inr e ↦ (t, rw e refl, w, λ k. refl)
  ]

  insert_step :
      (x : ℕ) (t t1 : HashTable) (bs : List (List ℕ))
      → find get_key hash (get_key x) t ≡ ok none
      → (if leb 3 (t.num_items / t.num_buckets) then re_hash get_key hash t else ok t) ≡ ok t1
      → put_item get_key hash t1.num_buckets x t1.buckets ≡ ok bs
      → find get_key hash (get_key x) (record t1 { buckets = bs; num_items = t1.num_items + 1 })
        ≡ ok (some x)
      → insert get_key hash x t ≡ ok (record t1 { buckets = bs; num_items = t1.num_items + 1 })
  unfolding insert
  insert_step x t t1 bs e f g h = rw (e, f, g, h) refl

  -- In a table where every item is in the bucket that its key hashes to, no key stands twice and
  -- the items are counted, Insert of an item with a new key succeeds, all assertions of Insert,
  -- ReHash and SanityCheck included, whether or not the table grows; the table is such a one again,
  -- Find gives the item for its key, and for every other key what it gave before.
  pub insert-IsTable :
      (x : ℕ) (t : HashTable)
      → IsTable t
      → find get_key hash (get_key x) t ≡ ok none
      → (t' : HashTable) × (insert get_key hash x t ≡ ok t')
        × IsTable t'
        × ((k : ℕ)
            → find get_key hash k t'
              ≡ (if k == get_key x then ok (some x) else find get_key hash k t))
  insert-IsTable x t w new =
      let (t1, run1, w1, same) = grow_lem t w in
      let missing : look_table t (get_key x) ≡ none =
        ok_injective (sym (find_lem t w (get_key x)) ∙ new) in
      let (bs, run2, placed, looks, sum) =
        put_item_lem get_key hash t1.num_buckets t1.buckets w1.placed x
          (same (get_key x) ∙ missing) in
      let t2 : HashTable = record t1 { buckets = bs; num_items = t1.num_items + 1 } in
      let w2 : IsTable t2 = record { placed = placed; count = omega (arith, w1.count, sum) } in
      let itself : (get_key x == get_key x) ≡ true = ground arith in
      let after : find get_key hash (get_key x) t2 ≡ ok (some x) =
        find_lem t2 w2 (get_key x) ∙ ap ok (looks (get_key x) ∙ rw itself refl) in
      (
        t2,
        insert_step x t t1 bs new run1 run2 after,
        w2,
        λ k. find_lem t2 w2 k ∙ ap ok (looks k) ∙ elim (Bool-cases (k == get_key x)) [
          | inl e ↦ rw e refl
          | inr e ↦ rw e (ap ok (same k) ∙ sym (find_lem t w k))
        ],
      )
