-- ===== src/Filesys/Directory/Tests.antt =====
-- A directory of three entries with one in use.
use cs107_nach_os.Common.{
  ℕ, ◌≡◌, refl, Bool, true, false, not, ◌&&◌, none, some, List, [], ◌∷◌, arith, length, replicate,
  if◌then◌else◌,
}
use cs107_nach_os.Filesys.Directory.{
  Directory, find, find_index, add, add_entry, remove, same_chars, copy_chars,
}
use cs107_nach_os.Filesys.Directory.Lookup.{
  AreDistinct, lookup, all_used, same_name, add-find, remove-find,
}

-- "a" is in sector 7.
abbrev sample : Directory
sample = record {
  table =
      record { in_use = false; sector = 0; name = replicate 10 0 }
      ∷ record { in_use = true; sector = 7; name = 97 ∷ replicate 9 0 }
      ∷ record { in_use = false; sector = 0; name = replicate 10 0 }
      ∷ [];
}

sample_distinct : AreDistinct sample.table
unfolding lookup
sample_distinct = (
  omega arith,
  (λ h. absurd (let e = h in cc)),
  (omega arith, (λ h. refl), (omega arith, (λ h. refl), tt)),
)

-- Adding "b" at sector 9.
add_runs : find (98 ∷ []) (add (98 ∷ []) 9 sample).1 ≡ some 9
unfolding find add find_index add_entry same_chars copy_chars
add_runs = refl

add-find_example :
    let (added, d') = add (98 ∷ []) 9 sample in
    AreDistinct d'.table
    × (length d'.table ≡ length sample.table)
    × (added ≡ elim (find (98 ∷ []) sample) as (λ _. Bool) [
      | none ↦ not (all_used sample.table)
      | some _ ↦ false
    ])
    × (added ≡ false → d' ≡ sample)
    × ((other : List ℕ)
        → find other d'
          ≡ (if added && same_name (98 ∷ []) other then some 9 else find other sample))
add-find_example = add-find (98 ∷ []) 9 sample sample_distinct

remove-find_example :
    let (removed, d') = remove (97 ∷ []) sample in
    AreDistinct d'.table
    × (length d'.table ≡ length sample.table)
    × (removed ≡ elim (find (97 ∷ []) sample) as (λ _. Bool) [ none ↦ false | some _ ↦ true ])
    × (removed ≡ false → d' ≡ sample)
    × ((other : List ℕ)
        → find other d'
          ≡ (if removed && same_name (97 ∷ []) other then none else find other sample))
remove-find_example = remove-find (97 ∷ []) sample sample_distinct
