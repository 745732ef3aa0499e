-- ===== src/Filesys/Directory.antt =====
-- NachOS-4.0/code/filesys/directory.{h,cc}: the table of names, in memory.
pub mod Names
pub mod Lookup
mod Tests
use cs107_nach_os.Common.{
  ℕ, zero, suc, ◌+◌, Bool, true, false, not, ◌&&◌, ◌||◌, Option, none, some, List, [], ◌∷◌, ◌==◌,
  if◌then◌else◌, get_elem?, set, replicate,
}

abbrev pub file_name_max_len : ℕ
file_name_max_len = 9

-- `name` is the array of file_name_max_len + 1 characters.
pub record DirectoryEntry : Type 0 where
  pub in_use : Bool
  pub sector : ℕ
  pub name : List ℕ

-- tableSize is the length of the table.
pub record Directory : Type 0 where
  pub table : List DirectoryEntry

-- `!strncmp(a, b, n)`. A string may end with its list: what follows is the 0 at its end.
unfoldable pub same_chars : ℕ → List ℕ → List ℕ → Bool
same_chars zero a b = true
same_chars (suc n) [] [] = true
same_chars (suc n) [] (y ∷ ys) = y == 0
same_chars (suc n) (x ∷ xs) [] = x == 0
same_chars (suc n) (x ∷ xs) (y ∷ ys) = (x == y) && ((x == 0) || same_chars n xs ys)

-- `strncpy(to, from, n)`: it fills up with 0 after the end of `from`.
pub copy_chars : ℕ → List ℕ → List ℕ → List ℕ
copy_chars zero to from = to
copy_chars (suc n) [] from = []
copy_chars (suc n) (t ∷ ts) [] = 0 ∷ copy_chars n ts []
copy_chars (suc n) (t ∷ ts) (zero ∷ cs) = 0 ∷ copy_chars n ts []
copy_chars (suc n) (t ∷ ts) (suc c ∷ cs) = suc c ∷ copy_chars n ts cs

-- The test of FindIndex.
abbrev pub is_entry_of : List ℕ → DirectoryEntry → Bool
is_entry_of name e = e.in_use && same_chars file_name_max_len e.name name

-- The position counts from the entry that the list begins with; `none` is -1.
unfoldable pub find_index : List ℕ → List DirectoryEntry → Option ℕ
find_index name [] = none
find_index name (e ∷ es) =
    let rest : Option ℕ = elim (find_index name es) [ none ↦ none | some i ↦ some (i + 1) ] in
    if is_entry_of name e then some 0 else rest

pub find : List ℕ → Directory → Option ℕ
find name d = elim (find_index name d.table) [
  | none ↦ none
  | some i ↦ elim (get_elem? d.table i) [ none ↦ none | some e ↦ some e.sector ]
]

-- The loop of Add: the first entry that is not in use.
unfoldable pub add_entry : List ℕ → ℕ → List DirectoryEntry → Bool × List DirectoryEntry
add_entry name new_sector [] = (false, [])
add_entry name new_sector (e ∷ es) =
    let (added, es') = add_entry name new_sector es in
    if not e.in_use
    then (
      true,
      record { in_use = true; sector = new_sector; name = copy_chars file_name_max_len e.name name }
          ∷ es,
    )
    else (added, e ∷ es')

unfoldable pub add : List ℕ → ℕ → Directory → Bool × Directory
add name new_sector d = elim (find_index name d.table) [
  | some i ↦ (false, d)
  | none ↦ let (added, es) = add_entry name new_sector d.table in (added, record { table = es })
]

-- `table[i].inUse = FALSE`
unfoldable pub release : List DirectoryEntry → ℕ → List DirectoryEntry
release [] i = []
release (e ∷ es) zero = record e { in_use = false } ∷ es
release (e ∷ es) (suc i) = e ∷ release es i

unfoldable pub remove : List ℕ → Directory → Bool × Directory
remove name d = elim (find_index name d.table) [
  | none ↦ (false, d)
  | some i ↦ (true, record { table = release d.table i })
]
