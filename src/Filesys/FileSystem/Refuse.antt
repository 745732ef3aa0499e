-- ===== src/Filesys/FileSystem/Refuse.antt =====
-- When Create answers FALSE.
use cs107_nach_os.Common.{
  ℕ, ◌-◌, ◌^◌, ◌<◌, ◌≤◌, ◌≡◌, ◌⊎◌, refl, ◌∙◌, ap, true, false, ◌==◌, none, some, List, arith, ok,
  inl, inr, Bool-cases,
}
use cs107_nach_os.Bitmap.{Bitmap, bit, div_round_up, find_and_set}
use cs107_nach_os.Bitmap.Search.{count_clear, count_clear-set, full, first, find_and_set-Found}
use cs107_nach_os.Filesys.Header.{FileHeader, allocate}
use cs107_nach_os.Filesys.Header.Allocation.{allocate_full}
use cs107_nach_os.Filesys.Directory.{Directory, find, add}
use cs107_nach_os.Filesys.Directory.Lookup.{add-find, all_used}
use cs107_nach_os.Filesys.Layout.{header_at}
use cs107_nach_os.Filesys.FileSystem.{FileSystem, create_at, create_file}
use cs107_nach_os.Filesys.Layout.{fetch_directory, fetch_map, new_directory}
use cs107_nach_os.Filesys.FileSystem.Mounted.{
  IsMounted, fetch_directory-IsMounted, fetch_map-IsMounted,
}

-- The name is there, the table has no room, or the map has none.
abbrev pub IsRefused : List ℕ → ℕ → Bitmap → Directory → Type 0
IsRefused name size b d =
    ((s : ℕ) × (find name d ≡ some s) × (s < 2 ^ 32 - 1))
    ⊎ ((find name d ≡ none)
        × ((all_used d.table ≡ true) ⊎ (count_clear (bit b) 1024 ≤ div_round_up size 128)))

module _ (fresh : ℕ → ℕ) (fs : FileSystem) (name : List ℕ) (size : ℕ) (disk : ℕ → ℕ) (d : Directory)
    (fetched : fetch_directory fresh fs.directory_file (new_directory fresh 10) disk ≡ ok d) where
  present :
      (s : ℕ)
      → find name d ≡ some s
      → s < 2 ^ 32 - 1
      → create_file fresh fs name size disk ≡ ok (false, disk)
  unfolding create_file
  present s e l =
      let real : (s == 2 ^ 32 - 1) ≡ false = ground (arith, l) in rw (fetched, e, real) refl

  module _ (missing : find name d ≡ none) (b b1 : Bitmap)
      (mapped : fetch_map fresh fs.free_map_file 1024 disk ≡ ok b) where
    no_sector :
        find_and_set b ≡ ok (none, b1) → create_file fresh fs name size disk ≡ ok (false, disk)
    unfolding create_file create_at
    no_sector e = rw (fetched, missing, mapped, e) refl

    no_entry :
        (s : ℕ)
        → find_and_set b ≡ ok (some s, b1)
        → (add name s d).0 ≡ false
        → create_file fresh fs name size disk ≡ ok (false, disk)
    unfolding create_file create_at
    no_entry s e f = rw (fetched, missing, mapped, e, f) refl

    no_room :
        (s : ℕ) (h : FileHeader) (b2 : Bitmap)
        → find_and_set b ≡ ok (some s, b1)
        → (add name s d).0 ≡ true
        → allocate (header_at fresh) b1 size ≡ ok (false, h, b2)
        → create_file fresh fs name size disk ≡ ok (false, disk)
    unfolding create_file create_at
    no_room s h b2 e f g = rw (fetched, missing, mapped, e, f, g) refl

-- Create on a mounted disk answers FALSE and leaves the whole disk as it was when the name is found
-- at a sector other than -1, or when it is not found and all entries are in use or there are not
-- more clear sectors than blocks.
pub create_file_refused :
    (fresh : ℕ → ℕ) (fs : FileSystem) (b : Bitmap) (d : Directory) (disk : ℕ → ℕ)
    → IsMounted fresh fs b d disk
    → (name : List ℕ) (size : ℕ) → IsRefused name size b d
    → create_file fresh fs name size disk ≡ ok (false, disk)
create_file_refused fresh fs b d disk m name size (inl (s, e, l)) =
    present fresh fs name size disk d (fetch_directory-IsMounted fresh fs b d disk m) s e l
create_file_refused fresh fs b d disk m name size (inr (new, why)) =
    let fetched = fetch_directory-IsMounted fresh fs b d disk m in
    let mapped = fetch_map-IsMounted fresh fs b d disk m in
    let (found, run, result) = find_and_set-Found b m.valid in
    elim result [
      | full all e ↦ no_sector fresh fs name size disk d fetched new b b mapped (run ∙ ap ok e)
      | first s b1 l c before sets e ↦
          let (distinct, same_length, added, kept, names) = add-find name s d m.distinct in
          elim (Bool-cases (all_used d.table)) [
            | inl used ↦
                no_entry fresh fs name size disk d fetched new b b1 mapped s (run ∙ ap ok e)
                  (added ∙ rw (new, used) refl)
            | inr unused ↦
                let fewer =
                  count_clear-set (bit b) (bit b1) s c sets.bits 1024 (omega (arith, l, m.size)) in
                let size1 : b1.num_bits ≡ 1024 = sets.same_size ∙ m.size in
                let few : count_clear (bit b) 1024 ≤ div_round_up size 128 = elim why [
                  | inl used ↦ absurd (let u = used in let v = unused in cc)
                  | inr few ↦ few
                ] in
                no_room fresh fs name size disk d fetched new b b1 mapped s
                  (record (header_at fresh) {
                    num_bytes = size;
                    num_sectors = div_round_up size 128;
                  })
                  b1 (run ∙ ap ok e) (added ∙ rw (new, unused) refl)
                  (allocate_full (header_at fresh) b1 sets.valid size
                    (omega (arith, fewer, few, ap (count_clear (bit b1)) size1)))
          ]
    ]
