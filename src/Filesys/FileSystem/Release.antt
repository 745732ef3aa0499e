-- ===== src/Filesys/FileSystem/Release.antt =====
-- What Remove does to the table and to the map in memory.
use mathlib.Core.Path.{subst}
use native.Mathlib.Decide.{dec_lt}
use cs107_nach_os.Common.{
  ℕ, zero, suc, ◌+◌, ◌<◌, ◌≤◌, ◌≡◌, ◌≢◌, refl, sym, ◌∙◌, ap, Bool, true, false, not, ◌&&◌, ◌||◌,
  ◌==◌, some, List, [], ◌∷◌, arith, All, ok, inl, inr, Bool-cases, Option-cases, get_elem?,
}
use cs107_nach_os.Bitmap.{Bitmap, IsValid, bit}
use cs107_nach_os.Filesys.Header.{FileHeader, deallocate}
use cs107_nach_os.Filesys.Header.Allocation.{is_block, owns, AreFresh, deallocate_from-restores}
use cs107_nach_os.Filesys.Directory.{Directory, DirectoryEntry, remove, release, find_index}
use cs107_nach_os.Filesys.OpenFile.Blocks.{IsStored, block, get_elem?-get_or}
use cs107_nach_os.Filesys.Layout.Ints.{IsEntry}

release-IsEntry : (es : List DirectoryEntry) (i : ℕ) → All IsEntry es → All IsEntry (release es i)
unfolding release
release-IsEntry [] i a = tt
release-IsEntry (e ∷ es) zero (v, a) = (v, a)
release-IsEntry (e ∷ es) (suc i) (v, a) = (v, release-IsEntry es i a)

pub remove-IsEntry :
    (name : List ℕ) (d : Directory) → All IsEntry d.table → All IsEntry ((remove name d).1.table)
unfolding remove
remove-IsEntry name d a = elim (Option-cases (find_index name d.table)) [
  | inl e ↦ rw (e, All) a
  | inr (i, e) ↦ rw (e, All) (release-IsEntry d.table i a)
]

module _ (h : FileHeader) (w : IsStored h) where
  at_block : (k : ℕ) → k < h.num_sectors → get_elem? h.data_sectors k ≡ some (block h k)
  at_block k l = get_elem?-get_or h.data_sectors k (omega (arith, l, w.table))

  pub owns_none :
      (n i s : ℕ)
      → i + n ≤ h.num_sectors
      → ((k : ℕ) → i ≤ k → k < h.num_sectors → block h k ≢ s)
      → owns h n i s ≡ false
  owns_none zero i s l no_block = refl
  owns_none (suc n) i s l no_block = elim (Bool-cases (block h i == s)) [
    | inl e ↦ absurd (no_block i (omega arith) (omega (arith, l)) (ground (arith, e)))
    | inr e ↦
        let here : is_block h i s ≡ false = ground (arith, at_block i (omega (arith, l)), e) in
        ground (
          arith,
          here,
          owns_none n (i + 1) s (omega (arith, l)) (λ k m. no_block k (omega (arith, m))),
        )
  ]

  -- The blocks of a stored header are fresh over a map without them.
  stored-AreFresh :
      (taken : ℕ → Bool) (n i : ℕ)
      → i + n ≤ h.num_sectors
      → ((k : ℕ) → k < h.num_sectors → taken (block h k) ≡ false)
      → AreFresh h taken 1024 n i
  stored-AreFresh taken zero i l clear_all = tt
  stored-AreFresh taken (suc n) i l clear_all =
      let within : i < h.num_sectors = omega (arith, l) in
      (
        block h i,
        at_block i within,
        w.on_disk i within,
        clear_all i within,
        owns_none n (i + 1) (block h i) (omega (arith, l))
            (λ k m o e. let same = w.apart k i o within e in omega (arith, same, m)),
        stored-AreFresh taken n (i + 1) (omega (arith, l)) clear_all,
      )

  owns_some :
      (n i k : ℕ) → i ≤ k → k < i + n → i + n ≤ h.num_sectors → owns h n i (block h k) ≡ true
  owns_some zero i k l m o = absurd (omega (arith, l, m))
  owns_some (suc n) i k l m o = elim (dec_lt i k) [
    | yes p ↦
        ground
          (arith, owns_some n (i + 1) k (omega (arith, p)) (omega (arith, m)) (omega (arith, o)))
    | no p ↦
        let at : i ≡ k = omega arith in
        let here : is_block h i (block h k) ≡ true =
          ground (arith, at_block i (omega (arith, o)), ap (block h) at) in
        ground (arith, here)
  ]

  -- Who owns a sector has it among the blocks.
  pub owns_taken :
      (taken : ℕ → Bool) (n i j : ℕ)
      → i + n ≤ h.num_sectors
      → ((k : ℕ) → k < h.num_sectors → taken (block h k) ≡ true)
      → owns h n i j ≡ true
      → taken j ≡ true
  owns_taken taken zero i j l all e = absurd (let e' = e in cc)
  owns_taken taken (suc n) i j l all e = elim (Bool-cases (block h i == j)) [
    | inl f ↦
        let same : block h i ≡ j = ground arith in
        subst (λ x. taken x ≡ true) same (all i (omega (arith, l)))
    | inr f ↦
        owns_taken taken n (i + 1) j (omega (arith, l)) all
          (ground (arith, e, f, at_block i (omega (arith, l))))
  ]

  -- Deallocate clears the blocks, which were set, and no other bit.
  pub deallocate-IsStored :
      (b : Bitmap)
      → IsValid b
      → b.num_bits ≡ 1024
      → ((k : ℕ) → k < h.num_sectors → bit b (block h k) ≡ true)
      → (b' : Bitmap) × (deallocate h b ≡ ok b')
        × IsValid b'
        × (b'.num_bits ≡ 1024)
        × ((j : ℕ) → bit b' j ≡ (bit b j && not (owns h h.num_sectors 0 j)))
  unfolding deallocate
  deallocate-IsStored b v size all =
      let taken : ℕ → Bool = λ j. bit b j && not (owns h h.num_sectors 0 j) in
      let fresh = stored-AreFresh taken h.num_sectors 0 (omega arith) (λ k l.
        ground
          (arith, owns_some h.num_sectors 0 k (omega arith) (omega (arith, l)) (omega arith))) in
      let bits : (j : ℕ) → bit b j ≡ owns h h.num_sectors 0 j || taken j = λ j.
        elim (Bool-cases (owns h h.num_sectors 0 j)) [
          | inl e ↦ rw e (owns_taken (bit b) h.num_sectors 0 j (omega arith) all e)
          | inr e ↦ ground (arith, e)
        ] in
      let (b', run, valid, same_size, same) =
        deallocate_from-restores h.num_sectors 0 h taken b v
          (subst (λ n. AreFresh h taken n h.num_sectors 0) (sym size) fresh) bits in
      (b', run, valid, same_size ∙ size, same)
