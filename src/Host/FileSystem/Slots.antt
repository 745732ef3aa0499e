-- ===== src/Host/FileSystem/Slots.antt =====
-- FindFreeSlot finds the first free slot.
use cs107_nach_os.Common.{
  ℕ, zero, suc, ◌+◌, ◌≤◌, ◌<◌, ◌≡◌, ◌≢◌, refl, ap, ◌∙◌, ◌⊎◌, inl, inr, Option, none, some, List, [],
  ◌∷◌, length, Outcome, ok, aborted, get_elem?, arith,
}
use cs107_nach_os.Machine.Sound.{Always, Always-then, Always-map, Always-option}
use cs107_nach_os.Host.{Host}
use cs107_nach_os.Host.OpenFile.{OpenFile}
use cs107_nach_os.Host.FileSystem.{
  FileSystem, max_file_open, descriptor, open_typed, free_from, find_free_slot,
}

abbrev Slots : Type 0
Slots = List (Option OpenFile)

-- Of the slots from i to below `end`: the first free one, or none where all of them are taken.
pub data Searched (openf : Slots) (i end : ℕ) : Option ℕ → Type 0 where
  full : ((j : ℕ) → i ≤ j → j < end → get_elem? openf j ≢ some none) → Searched openf i end none
  found :
      (j : ℕ)
      → i ≤ j
      → j < end
      → get_elem? openf j ≡ some none
      → ((l : ℕ) → i ≤ l → l < j → get_elem? openf l ≢ some none)
      → Searched openf i end (some j)

taken_not_free :
    {slots : Option (Option OpenFile)} {f : OpenFile} → slots ≡ some (some f) → slots ≢ some none
taken_not_free e e' = ground arith

next_or_more : (i j : ℕ) → i ≤ j → (i ≡ j) ⊎ (i + 1 ≤ j)
next_or_more i j p = ground arith

taken_or_more :
    (openf : Slots) (i end : ℕ) (f : OpenFile)
    → get_elem? openf i ≡ some (some f)
    → ((j : ℕ) → i + 1 ≤ j → j < end → get_elem? openf j ≢ some none)
    → (j : ℕ) → i ≤ j
    → j < end
    → get_elem? openf j ≢ some none
taken_or_more openf i end f e h j p q = elim (next_or_more i j p) [
  | inl same ↦ λ free. taken_not_free e (ap (get_elem? openf) same ∙ free)
  | inr more ↦ h j more q
]

skip :
    (openf : Slots) (i end : ℕ) (f : OpenFile) (o : Option ℕ)
    → get_elem? openf i ≡ some (some f)
    → Searched openf (i + 1) end o
    → Searched openf i end o
skip openf i end f none e (full h) = full (taken_or_more openf i end f e h)
skip openf i end f (some j) e (found _ p q free h) =
    found j (omega arith) q free (taken_or_more openf i j f e h)

get_elem?-inside {ℓ} :
    {A : Type ℓ} (xs : List A) (i : ℕ) → i < length xs → (x : A) × (get_elem? xs i ≡ some x)
get_elem?-inside [] i inside = elim inside [ ]
get_elem?-inside (x ∷ xs) zero inside = (x, refl)
get_elem?-inside (x ∷ xs) (suc i) inside = get_elem?-inside xs i (omega (arith, inside))

module _ (h : Host) where
  free_from-Searched :
      (n i end : ℕ) (openf : Slots)
      → i + n ≡ end
      → Always (Searched openf i end) (free_from h n i openf)
  unfolding free_from
  free_from-Searched zero i end openf b = full (λ j p q. omega arith)
  free_from-Searched (suc n) i end openf b =
      elim (get_elem? openf i)
          as (λ o.
            get_elem? openf i ≡ o
            → Always (Searched openf i end) (elim o as (λ _. Outcome (Option ℕ)) [
              | none ↦ aborted
              | some slot ↦ elim slot [ none ↦ ok (some i) | some f ↦ free_from h n (i + 1) openf ]
            ])) [
              | none ↦ λ e. tt
              | some none ↦ λ e. found i (omega arith) (omega arith) e (λ l a b. omega arith)
              | some (some f) ↦ λ e.
                  Always-map (Searched openf (i + 1) end) (Searched openf i end) _
                    (λ o s. skip openf i end f o e s)
                    (free_from-Searched n (i + 1) end openf (omega arith))
            ]
        refl

  -- FindFreeSlot, where it reads nothing outside of the table, gives the first free slot from 2 to
  -- 14, or -1 exactly when all of these are taken.
  pub find_free_slot-Searched :
      (fs : FileSystem h) → Always (Searched fs.openf 2 max_file_open) (find_free_slot h fs)
  unfolding find_free_slot
  find_free_slot-Searched fs = free_from-Searched 13 2 15 fs.openf refl

  free_from-ends :
      (n i : ℕ) (openf : Slots)
      → i + n ≤ length openf
      → (o : Option ℕ) × (free_from h n i openf ≡ ok o)
  unfolding free_from
  free_from-ends zero i openf inside = (none, refl)
  free_from-ends (suc n) i openf inside =
      let (slot, there) = get_elem?-inside openf i (omega (arith, inside)) in
      let (o, run) = free_from-ends n (i + 1) openf (omega (arith, inside)) in next slot there o run
    where
      next :
          (slot : Option OpenFile)
          → get_elem? openf i ≡ some slot
          → (o : Option ℕ) → free_from h n (i + 1) openf ≡ ok o
          → (o : Option ℕ) × (free_from h (suc n) i openf ≡ ok o)
      next none there o run = (some i, rw (free_from, there) refl)
      next (some f) there o run = (o, rw (free_from, there) run)

  find_free_slot-ends :
      (fs : FileSystem h) → length fs.openf ≡ 15 → (o : Option ℕ) × (find_free_slot h fs ≡ ok o)
  unfolding find_free_slot
  find_free_slot-ends fs size = free_from-ends 13 2 fs.openf (omega (arith, size))

  -- In a table of fifteen slots with a free one, from 2 on, FindFreeSlot gives the first.
  pub find_free_slot-found :
      (fs : FileSystem h) (i : ℕ)
      → length fs.openf ≡ 15
      → 2 ≤ i
      → i < 15
      → get_elem? fs.openf i ≡ some none
      → (j : ℕ) × (find_free_slot h fs ≡ ok (some j)) × Searched fs.openf 2 15 (some j)
  find_free_slot-found fs i size low high free =
      let (o, run) = find_free_slot-ends fs size in
      search o run (rw run at (find_free_slot-Searched fs))
    where
      search :
          (o : Option ℕ)
          → find_free_slot h fs ≡ ok o
          → Searched fs.openf 2 15 o
          → (j : ℕ) × (find_free_slot h fs ≡ ok (some j)) × Searched fs.openf 2 15 (some j)
      search none run (full none_free) = absurd (none_free i low high free)
      search (some j) run searched = (j, run, searched)

  -- Opening a file leaves the table to its caller.
  pub open_typed-openf :
      (name : List ℕ) (type : ℕ) (fs : FileSystem h)
      → Always (λ r. r.1.openf ≡ fs.openf) (open_typed h name type fs)
  unfolding open_typed
  open_typed-openf name type fs =
      Always-then (λ (r : Option OpenFile × FileSystem h). r.1.openf ≡ fs.openf)
        (descriptor h name type fs.host) _
        (λ r.
          Always-option (λ (q : Option OpenFile × FileSystem h). q.1.openf ≡ fs.openf) r.0 _ _ refl
            (λ fd. refl))
