-- ===== src/Filesys/Directory/Lookup.antt =====
-- The directory as a map from names, as far as they are compared, to sectors.
use native.Mathlib.Numerals.{unary_clauses}
use cs107_nach_os.Common.{
  ℕ, suc, ◌+◌, ◌≤◌, ◌≡◌, ◌⊎◌, refl, ◌∙◌, sym, ap, inl, inr, Bool, true, false, not, ◌&&◌, Option,
  none, some, List, [], ◌∷◌, if◌then◌else◌, get_elem?, length, arith, Bool-cases, Option-cases,
}
use cs107_nach_os.Filesys.Directory.Names.{
  same_chars_sym, same_chars_trans, same_chars-copy, length-copy,
}
use cs107_nach_os.Filesys.Directory.{
  Directory, DirectoryEntry, file_name_max_len, same_chars, copy_chars, is_entry_of, find_index,
  find, add_entry, add, release, remove,
}

-- Names that the directory takes for the same.
abbrev pub same_name : List ℕ → List ℕ → Bool
same_name = same_chars file_name_max_len

-- The sector of the first entry in use with that name.
unfoldable pub lookup : List ℕ → List DirectoryEntry → Option ℕ
lookup name [] = none
lookup name (e ∷ es) = if is_entry_of name e then some e.sector else lookup name es

-- Every name fills its array, and no two entries in use have the same.
abbrev pub AreDistinct : List DirectoryEntry → Type 0
AreDistinct [] = Unit {0}
AreDistinct (e ∷ es) =
    (file_name_max_len ≤ length e.name)
    × (e.in_use ≡ true → lookup e.name es ≡ none)
    × AreDistinct es

index-lookup :
    (name : List ℕ) (es : List DirectoryEntry)
    → elim (find_index name es) as (λ _. Option ℕ) [
      | none ↦ none
      | some i ↦ elim (get_elem? es i) as (λ _. Option ℕ) [ none ↦ none | some e ↦ some e.sector ]
    ]
      ≡ lookup name es
unfolding find_index lookup
index-lookup name [] = refl
index-lookup name (e ∷ es) =
    let rest = index-lookup name es in
    elim (Bool-cases (is_entry_of name e)) [
      | inl hit ↦ rw hit refl
      | inr miss ↦ elim (Option-cases (find_index name es)) [
        | inl e0 ↦ rw (miss, e0) (rw e0 at rest)
        | inr (i, e1) ↦ rw (miss, e1) (simp unary_clauses (rw e1 at rest))
      ]
    ]

-- Find is that lookup.
pub find-lookup : (name : List ℕ) (d : Directory) → find name d ≡ lookup name d.table
unfolding find
find-lookup name d = index-lookup name d.table

lookup-index_none :
    (name : List ℕ) (es : List DirectoryEntry) → find_index name es ≡ none → lookup name es ≡ none
lookup-index_none name es h = sym (index-lookup name es) ∙ rw h refl

-- Names that are the same find the same.
lookup-same_name :
    (a b : List ℕ) (es : List DirectoryEntry) → same_name a b ≡ true → lookup a es ≡ lookup b es
unfolding lookup
lookup-same_name a b [] h = refl
lookup-same_name a b (e ∷ es) h =
    let rest = lookup-same_name a b es h in
    let swap : same_name e.name a ≡ same_name e.name b =
      same_chars_sym 9 e.name a ∙ same_chars_trans 9 a b e.name h ∙ same_chars_sym 9 b e.name in
    rw (swap, rest) refl

-- An entry in use keeps a name from the rest of a table where that name is missing.
missing_here :
    (name : List ℕ) (e : DirectoryEntry) (es : List DirectoryEntry)
    → lookup name (e ∷ es) ≡ none
    → (is_entry_of name e ≡ false) × (lookup name es ≡ none)
unfolding lookup
missing_here name e es h = elim (Bool-cases (is_entry_of name e)) [
  | inl hit ↦ absurd (let e' = rw hit at h in cc)
  | inr miss ↦ (miss, rw miss at h)
]

-- What Add does to a table where the name is missing.
add_entry-lookup :
    (name : List ℕ) (s : ℕ) (es : List DirectoryEntry)
    → AreDistinct es
    → lookup name es ≡ none
    → let (added, es') = add_entry name s es in
      AreDistinct es'
      × (length es' ≡ length es)
      × ((other : List ℕ)
          → lookup other es' ≡ (if added && same_name name other then some s else lookup other es))
unfolding add_entry lookup
add_entry-lookup name s [] d h = (tt, refl, λ other. refl)
add_entry-lookup name s (e ∷ es) (room, apart, d) h =
    let (here, rest) = missing_here name e es h in
    let (d', size, looks) = add_entry-lookup name s es d rest in
    elim (Bool-cases e.in_use) [
      | inr unused ↦ rw unused (
        (
          omega (arith, room, length-copy 9 e.name name),
          λ _. lookup-same_name _ name es (same_chars-copy 9 e.name name room) ∙ rest,
          d,
        ),
        refl,
        λ other.
            let same : same_name (copy_chars 9 e.name name) other ≡ same_name name other =
              same_chars_trans 9 _ name other (same_chars-copy 9 e.name name room) in
            rw same refl,
      )
      | inl used ↦
          let differs : same_name e.name name ≡ false = rw used at here in
          rw used (
            (
              room,
              λ _.
                  looks e.name
                  ∙ rw (same_chars_sym 9 name e.name ∙ differs) (ground (arith, apart used)),
              d',
            ),
            ap suc size,
            λ other. ground (
              arith,
              looks other,
              same_chars_sym 9 name other,
              same_chars_trans 9 e.name other name,
              differs,
            ),
          )
    ]

abbrev pub all_used : List DirectoryEntry → Bool
all_used [] = true
all_used (e ∷ es) = e.in_use && all_used es

add_entry_full :
    (name : List ℕ) (s : ℕ) (es : List DirectoryEntry)
    → ((add_entry name s es).0 ≡ not (all_used es))
      × (all_used es ≡ true → (add_entry name s es).1 ≡ es)
unfolding add_entry
add_entry_full name s [] = (refl, λ _. refl)
add_entry_full name s (e ∷ es) =
    let (r, k) = add_entry_full name s es in
    elim (Bool-cases e.in_use) [
      | inl used ↦ rw used (r, λ h. rw (k h) refl)
      | inr unused ↦ rw unused (refl, λ h. absurd (let e' = h in cc))
    ]

-- FindIndex and the lookup find a name, or both do not.
index_cases :
    (name : List ℕ) (es : List DirectoryEntry)
    → ((find_index name es ≡ none) × (lookup name es ≡ none))
      ⊎ ((i s : ℕ) × (find_index name es ≡ some i) × (lookup name es ≡ some s))
unfolding find_index lookup
index_cases name [] = inl (refl, refl)
index_cases name (e ∷ es) = elim (Bool-cases (is_entry_of name e)) [
  | inl hit ↦ inr (0, e.sector, rw hit refl, rw hit refl)
  | inr miss ↦ elim (index_cases name es) [
    | inl (p, q) ↦ inl (rw (miss, p) refl, rw (miss, q) refl)
    | inr (i, s, p, q) ↦ inr (i + 1, s, rw (miss, p) refl, rw (miss, q) refl)
  ]
]

module _ (name : List ℕ) (d : Directory) where
  add_present : (s i : ℕ) → find_index name d.table ≡ some i → add name s d ≡ (false, d)
  unfolding add
  add_present s i h = rw (add, h) refl

  add_missing :
      (s : ℕ)
      → find_index name d.table ≡ none
      → add name s d
        ≡ ((add_entry name s d.table).0, record { table = (add_entry name s d.table).1 })
  unfolding add
  add_missing s h = rw (add, h) refl

  remove_present :
      (i : ℕ)
      → find_index name d.table ≡ some i
      → remove name d ≡ (true, record { table = release d.table i })
  unfolding remove
  remove_present i h = rw (remove, h) refl

  remove_missing : find_index name d.table ≡ none → remove name d ≡ (false, d)
  unfolding remove
  remove_missing h = rw (remove, h) refl

-- Add on a table of distinct names, every entry with room for nine characters, is an insertion: it
-- answers FALSE exactly when the name is found or all entries are in use, and then changes nothing;
-- otherwise Find gives the new sector for the name and what it gave before for every other name;
-- names stay distinct.
pub add-find :
    (name : List ℕ) (s : ℕ) (d : Directory)
    → AreDistinct d.table
    → let (added, d') = add name s d in
      AreDistinct d'.table
      × (length d'.table ≡ length d.table)
      × (added
          ≡ elim (find name d) as (λ _. Bool) [ none ↦ not (all_used d.table) | some _ ↦ false ])
      × (added ≡ false → d' ≡ d)
      × ((other : List ℕ)
          → find other d' ≡ (if added && same_name name other then some s else find other d))
add-find name s d a = elim (index_cases name d.table) [
  | inr (i, t, found, there) ↦
      rw (add_present name d s i found)
        (a, refl, rw (find-lookup name d, there) refl, λ _. refl, λ other. refl)
  | inl (free, gone) ↦
      let (a', size, looks) = add_entry-lookup name s d.table a gone in
      let (r, k) = add_entry_full name s d.table in
      rw (add_missing name d s free) (
        a',
        size,
        rw (find-lookup name d, gone) r,
        λ h. rw (k (ground (arith, r, h))) refl,
        λ other. rw (find-lookup other _, find-lookup other d) (looks other),
      )
]

release-lookup :
    (name : List ℕ) (i : ℕ) (es : List DirectoryEntry)
    → AreDistinct es
    → find_index name es ≡ some i
    → AreDistinct (release es i)
      × (length (release es i) ≡ length es)
      × ((other : List ℕ)
          → lookup other (release es i) ≡ (if same_name name other then none else lookup other es))
unfolding release lookup find_index
release-lookup name i [] a h = absurd (let e' = h in cc)
release-lookup name i (e ∷ es) (room, apart, a) h = elim (Bool-cases (is_entry_of name e)) [
  | inl hit ↦
      let h' = rw hit at h in
      let at_once : i ≡ 0 = cc in
      let here : e.in_use ≡ true = ground arith in
      let same : same_name e.name name ≡ true = ground arith in
      rw at_once (
        (room, λ f. absurd (let e' = f in cc), a),
        refl,
        λ other. elim (Bool-cases (same_name name other)) [
          | inl equal ↦ rw equal (
              lookup-same_name other e.name es
                (same_chars_sym 9 other e.name ∙ same_chars_trans 9 e.name name other same ∙ equal)
              ∙ apart here)
          | inr differs ↦
              let other_name : same_name e.name other ≡ false =
                same_chars_trans 9 e.name name other same ∙ differs in
              rw (differs, here, other_name) refl
        ],
      )
  | inr miss ↦ elim (index_cases name es) [
    | inl (p, q) ↦ let h' = rw (miss, p) at h in absurd cc
    | inr (j, s, p, q) ↦
        let h' = rw (miss, p) at h in
        let next : i ≡ j + 1 = cc in
        let later : i ≡ suc j = omega (arith, next) in
        let (a', size, looks) = release-lookup name j es a p in
        rw later (
          (room, λ u. looks e.name ∙ ground (arith, apart u), a'),
          ap suc size,
          λ other. ground (
            arith,
            looks other,
            same_chars_sym 9 e.name name,
            same_chars_trans 9 name other e.name,
            same_chars_sym 9 other e.name,
            miss,
          ),
        )
  ]
]

-- Remove on a table of distinct names is a deletion: it answers FALSE exactly when the name is not
-- found, and then changes nothing; otherwise Find no longer finds the name and gives what it gave
-- before for every other name; names stay distinct.
pub remove-find :
    (name : List ℕ) (d : Directory)
    → AreDistinct d.table
    → let (removed, d') = remove name d in
      AreDistinct d'.table
      × (length d'.table ≡ length d.table)
      × (removed ≡ elim (find name d) as (λ _. Bool) [ none ↦ false | some _ ↦ true ])
      × (removed ≡ false → d' ≡ d)
      × ((other : List ℕ)
          → find other d' ≡ (if removed && same_name name other then none else find other d))
remove-find name d a = elim (index_cases name d.table) [
  | inl (free, gone) ↦
      rw (remove_missing name d free)
        (a, refl, rw (find-lookup name d, gone) refl, λ _. refl, λ other. refl)
  | inr (i, t, found, there) ↦
      let (a', size, looks) = release-lookup name i d.table a found in
      rw (remove_present name d i found) (
        a',
        size,
        rw (find-lookup name d, there) refl,
        λ h. absurd (let e' = h in cc),
        λ other. rw (find-lookup other _, find-lookup other d) (looks other),
      )
]
