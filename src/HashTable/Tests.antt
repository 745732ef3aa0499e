-- ===== src/HashTable/Tests.antt =====
-- A table of the numbers 5 to 16 under themselves, with a hash that is the key.
use cs107_nach_os.Common.{
  ℕ, ◌≡◌, refl, none, some, Option, List, [], ◌∷◌, Outcome, ok, ◌>>=◌, ◌==◌, if◌then◌else◌, arith,
}
use cs107_nach_os.HashTable.{
  HashTable, new_table, find, insert, remove, find_in_bucket, put_item, move_items, move_buckets,
  check_items, check_buckets, sanity_check, re_hash,
}
use cs107_nach_os.LinkedList
use cs107_nach_os.LinkedList.{walk_to_last, assert_last}
use cs107_nach_os.LinkedList.Sanity.{of_items, pointer, elements_from, last_from}
use cs107_nach_os.HashTable.Buckets.{total}
use cs107_nach_os.HashTable.Table.{IsTable, insert-IsTable, empty-IsPlaced}
use cs107_nach_os.HashTable.Removal.{remove-IsTable}

abbrev same : ℕ → ℕ
same k = k

abbrev insert_all : List ℕ → HashTable → Outcome HashTable
insert_all [] t = ok t
insert_all (x ∷ xs) t = insert same same x t >>= λ t'. insert_all xs t'

abbrev twelve : List ℕ
twelve = 5 ∷ 6 ∷ 7 ∷ 8 ∷ 9 ∷ 10 ∷ 11 ∷ 12 ∷ 13 ∷ 14 ∷ 15 ∷ 16 ∷ []

abbrev summary : HashTable → Outcome (ℕ × Option ℕ)
summary t = find same same 21 t >>= λ o. ok (t.num_buckets, o)

-- The thirteenth item makes the table grow.
grown : (insert_all twelve new_table >>= insert same same 21 >>= summary) ≡ ok (16, some 21)
unfolding insert find find_in_bucket put_item move_items move_buckets check_items check_buckets
    sanity_check re_hash LinkedList.sanity_check walk_to_last assert_last of_items pointer
    elements_from last_from
grown = refl

new_table-IsTable : IsTable same same new_table
unfolding total
new_table-IsTable = record { placed = empty-IsPlaced same same 4 (omega arith); count = refl }

nothing_yet : find same same 21 new_table ≡ ok none
unfolding find find_in_bucket
nothing_yet = refl

insert-IsTable_example :
    (t' : HashTable) × (insert same same 21 new_table ≡ ok t')
    × IsTable same same t'
    × ((k : ℕ)
        → find same same k t' ≡ (if k == 21 then ok (some 21) else find same same k new_table))
insert-IsTable_example = insert-IsTable same same 21 new_table new_table-IsTable nothing_yet

abbrev with_one :
    (t' : HashTable) × (insert same same 21 new_table ≡ ok t')
    × IsTable same same t'
    × ((k : ℕ)
        → find same same k t' ≡ (if k == 21 then ok (some 21) else find same same k new_table))
with_one = insert-IsTable same same 21 new_table new_table-IsTable nothing_yet

found_now : find same same 21 with_one.0 ≡ ok (some 21)
found_now = with_one.3 21

remove-IsTable_example :
    (t' : HashTable) × (remove same same 21 with_one.0 ≡ ok (21, t'))
    × IsTable same same t'
    × ((j : ℕ) → find same same j t' ≡ (if j == 21 then ok none else find same same j with_one.0))
remove-IsTable_example = remove-IsTable same same 21 21 with_one.0 with_one.2 found_now
