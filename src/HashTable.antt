-- ===== src/HashTable.antt =====
-- NachOS-4.0/code/lib/hash.{h,cc}: a table of items with different keys, which grows. An item is a
-- number, a bucket is the sequence of its items, and a List object with these where SanityCheck looks
-- at its pointers; the two functions that the table is made with are parameters.

pub mod Buckets
pub mod Rehash
pub mod Table
pub mod Removal
mod Tests
use cs107_nach_os.Common.{
  ℕ, suc, ◌+◌, ◌-◌, ◌*◌, ◌/◌, ◌%◌, Bool, true, false, not, Option, none, some, List, [], ◌∷◌,
  Outcome, ok, aborted, ◌>>=◌, ◌>>◌, assert, ltb, leb, ◌==◌, if◌then◌else◌, get_elem?, set,
  replicate,
}
use cs107_nach_os.LinkedList
use cs107_nach_os.LinkedList.Sanity.{of_items}
use cs107_nach_os.Threads.{append, is_in}

abbrev pub initial_buckets : ℕ
initial_buckets = 4

abbrev pub resize_ratio : ℕ
resize_ratio = 3

abbrev pub increase_size_by : ℕ
increase_size_by = 4

pub record HashTable : Type 0 where
  pub buckets : List (List ℕ)
  pub num_buckets : ℕ
  pub num_items : ℕ

-- An access outside of the array is a fault.
abbrev pub bucket_at : List (List ℕ) → ℕ → Outcome (List ℕ)
bucket_at bs i = elim (get_elem? bs i) [ none ↦ aborted | some b ↦ ok b ]

abbrev pub new_table : HashTable
new_table = record {
  buckets = replicate initial_buckets [];
  num_buckets = initial_buckets;
  num_items = 0;
}

-- List::Remove on the sequence of items: the first one that is equal.
unfoldable pub delete_item : ℕ → List ℕ → List ℕ
delete_item x [] = []
delete_item x (y ∷ ys) = let rest = delete_item x ys in if x == y then ys else y ∷ rest

module _ (get_key hash : ℕ → ℕ) where
  -- A remainder by 0 traps.
  abbrev pub hash_value : ℕ → ℕ → Outcome ℕ
  hash_value num_buckets key =
      if num_buckets == 0
      then aborted
      else assert (ltb (hash key % num_buckets) num_buckets) >> ok (hash key % num_buckets)

  -- The loop of FindInBucket; `none` is FALSE.
  unfoldable pub find_in_bucket : ℕ → List ℕ → Option ℕ
  find_in_bucket key [] = none
  find_in_bucket key (x ∷ xs) =
      let rest = find_in_bucket key xs in if key == get_key x then some x else rest

  unfoldable pub find : ℕ → HashTable → Outcome (Option ℕ)
  find key t = do
    i ← hash_value t.num_buckets key
    b ← bucket_at t.buckets i
    ok (find_in_bucket key b)

  abbrev pub is_found : Option ℕ → Bool
  is_found none = false
  is_found (some x) = true

  -- `buckets[HashValue(key)]->Append(item)`, for an array of n buckets.
  unfoldable pub put_item : ℕ → ℕ → List (List ℕ) → Outcome (List (List ℕ))
  put_item n x bs = do
    i ← hash_value n (get_key x)
    b ← bucket_at bs i
    b' ← append x b
    ok (set bs i b')

  -- The inner loop of ReHash, and the outer one.
  unfoldable pub move_items : ℕ → List ℕ → List (List ℕ) → Outcome (List (List ℕ))
  move_items n [] bs = ok bs
  move_items n (x ∷ xs) bs = put_item n x bs >>= λ bs'. move_items n xs bs'

  unfoldable pub move_buckets : ℕ → List (List ℕ) → List (List ℕ) → Outcome (List (List ℕ))
  move_buckets n [] bs = ok bs
  move_buckets n (b ∷ old) bs = move_items n b bs >>= λ bs'. move_buckets n old bs'

  -- The loops of SanityCheck over the items of bucket i and over the buckets from i on: the items
  -- found, all of them where they hash to.
  unfoldable pub check_items : ℕ → ℕ → List ℕ → Outcome ℕ
  check_items n i [] = ok 0
  check_items n i (x ∷ xs) = do
    j ← hash_value n (get_key x)
    assert (i == j)
    found ← check_items n i xs
    ok (suc found)

  unfoldable pub check_buckets : ℕ → ℕ → List (List ℕ) → Outcome ℕ
  check_buckets n i [] = ok 0
  check_buckets n i (b ∷ bs) = do
    LinkedList.sanity_check (of_items b)
    here ← check_items n i b
    found ← check_buckets n (i + 1) bs
    ok (here + found)

  unfoldable pub sanity_check : HashTable → Outcome HashTable
  sanity_check t = do
    found ← check_buckets t.num_buckets 0 t.buckets
    assert (t.num_items == found)
    ok t

  unfoldable pub re_hash : HashTable → Outcome HashTable
  re_hash t = do
    old ← sanity_check t
    let n = t.num_buckets * increase_size_by
    bs ← move_buckets n t.buckets (replicate n [])
    sanity_check (record t { buckets = bs; num_buckets = n })

  -- `!IsInTable(key)` and the growth, the append, and `IsInTable(key)`.
  unfoldable pub insert : ℕ → HashTable → Outcome HashTable
  insert x t = do
    before ← find (get_key x) t
    assert (not (is_found before))
    t1 ← if leb resize_ratio (t.num_items / t.num_buckets) then re_hash t else ok t
    bs ← put_item t1.num_buckets x t1.buckets
    let t2 = record t1 { buckets = bs; num_items = t1.num_items + 1 }
    after ← find (get_key x) t2
    assert (is_found after)
    ok t2

  -- The item and the table.
  unfoldable pub remove : ℕ → HashTable → Outcome (ℕ × HashTable)
  remove key t = do
    i ← hash_value t.num_buckets key
    b ← bucket_at t.buckets i
    elim (find_in_bucket key b) [
      | none ↦ aborted
      | some x ↦ do
        assert (is_in x b)
        assert (not (is_in x (delete_item x b)))
        let t' = record t {
          buckets = set t.buckets i (delete_item x b);
          num_items = t.num_items - 1;
        }
        after ← find key t'
        assert (not (is_found after))
        ok (x, t')
    ]
