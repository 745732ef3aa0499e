-- ===== src/Filesys/FileSystem/Remove.antt =====
-- Remove takes one file away, gives its sectors back and leaves the other files as they are.
use cs107_nach_os.Common.{
  ℕ, ◌+◌, ◌-◌, ◌*◌, ◌^◌, ◌<◌, ◌≡◌, ◌≢◌, refl, sym, ◌∙◌, true, false, not, ◌&&◌, ◌==◌, none, some,
  List, if◌then◌else◌, arith, ok, ◌>>=◌,
}
use cs107_nach_os.Bitmap.{Bitmap, bit, clear}
use cs107_nach_os.Bitmap.Single.{clear-Sets}
use cs107_nach_os.Filesys.Header.{FileHeader, deallocate}
use cs107_nach_os.Filesys.Header.Allocation.{owns}
use cs107_nach_os.Filesys.Directory.{Directory, find, remove}
use cs107_nach_os.Filesys.Directory.Lookup.{remove-find, same_name}
use cs107_nach_os.Filesys.OpenFile.Blocks.{block}
use cs107_nach_os.Filesys.Layout.{
  fetch_header, fetch_map, store_map, fetch_directory, store_directory, new_directory,
}
use cs107_nach_os.Filesys.Layout.Objects.{HasMap-keep, store_map_lem, store_directory_lem}
use cs107_nach_os.Filesys.FileSystem.{FileSystem, remove_at, remove_file}
use cs107_nach_os.Filesys.FileSystem.Mounted.{
  IsOff, IsMounted, IsFile, num_words-IsValid, fetch_directory-IsMounted, fetch_map-IsMounted,
  content_same,
}
use cs107_nach_os.Filesys.FileSystem.Release.{remove-IsEntry, deallocate-IsStored, owns_none}

-- What Remove has done to the map, the directory and the disk.
pub record Removes (fresh : ℕ → ℕ) (fs : FileSystem) (b : Bitmap) (d : Directory) (disk : ℕ → ℕ)
    (name : List ℕ) (s : ℕ) (h : FileHeader) (b' : Bitmap) (d' : Directory) (disk' : ℕ → ℕ)
    : Type 0 where
  pub mounted : IsMounted fresh fs b' d' disk'
  pub names :
      (other : List ℕ) → find other d' ≡ (if same_name name other then none else find other d)
  pub bits : (j : ℕ) → bit b' j ≡ (bit b j && not (owns h h.num_sectors 0 j) && not (s == j))
  pub others :
      (t r : ℕ)
      → r < 128
      → IsOff fs.free_map_file.hdr t
      → IsOff fs.directory_file.hdr t
      → disk' (t * 128 + r) ≡ disk (t * 128 + r)

module _ (fresh : ℕ → ℕ) (fs : FileSystem) (name : List ℕ) where
  remove_step :
      (b b1 b2 : Bitmap) (d : Directory) (disk disk1 disk2 : ℕ → ℕ) (s : ℕ) (h : FileHeader)
      → fetch_directory fresh fs.directory_file (new_directory fresh 10) disk ≡ ok d
      → find name d ≡ some s
      → s < 1024
      → fetch_header fresh s disk ≡ ok h
      → fetch_map fresh fs.free_map_file 1024 disk ≡ ok b
      → deallocate h b ≡ ok b1
      → clear b1 s ≡ ok b2
      → store_map fresh fs.free_map_file b2 disk ≡ ok disk1
      → store_directory fresh fs.directory_file ((remove name d).1) disk1 ≡ ok disk2
      → remove_file fresh fs name disk ≡ ok (true, disk2)
  unfolding remove_file remove_at
  remove_step b b1 b2 d disk disk1 disk2 s h e f l g i j k m n =
      let real : (s == 2 ^ 32 - 1) ≡ false = ground (arith, l) in
      rw (e, ◌>>=◌, f, real, g, i, j, k, m, n) refl

module _ (fresh : ℕ → ℕ) (fs : FileSystem) (b : Bitmap) (d : Directory) (disk : ℕ → ℕ)
    (m : IsMounted fresh fs b d disk) (name : List ℕ) (s : ℕ) (h : FileHeader)
    (file : IsFile fresh fs b d disk name s h) where
  -- Remove on a mounted disk of a name that leads to a header whose own sectors are set and off
  -- those of the map and the directory answers TRUE without a failed assertion, and leaves a
  -- mounted disk: the map has exactly the sectors of that file cleared, the directory has one name
  -- less, and no sector outside of the map and the directory has changed.
  pub remove_file-Removes :
      (disk' : ℕ → ℕ) × (b' : Bitmap) × (d' : Directory) × (remove_file fresh fs name disk
        ≡ ok (true, disk'))
      × Removes fresh fs b d disk name s h b' d' disk'
  remove_file-Removes =
      let d' = (remove name d).1 in
      let (distinct, same_length, removed, kept, names) = remove-find name d m.distinct in
      let gone : (remove name d).0 ≡ true = removed ∙ rw file.found refl in
      let (b1, run1, v1, size1, bits1) =
        deallocate-IsStored h file.stored b m.valid m.size file.blocks_taken in
      let (b2, run2, sets) = clear-Sets b1 s v1 (omega (arith, size1, file.on_disk)) in
      let size2 : b2.num_bits ≡ 1024 = sets.same_size ∙ size1 in
      let keep : (t : ℕ) → bit b t ≡ true → IsOff h t → s ≢ t → bit b2 t ≡ true = λ t u o e.
        let none_owns =
          owns_none h file.stored h.num_sectors 0 t (omega arith) (λ k l k'. o k k') in
        ground (arith, sets.bits t, bits1 t, u, none_owns, e) in
      let (disk1, run3, has_map, off1) =
        store_map_lem fresh fs.free_map_file m.map_stored b2 disk sets.valid
          (omega (arith, num_words-IsValid b2 sets.valid size2, m.map_room)) in
      let (disk2, run4, has_dir, off2) =
        store_directory_lem fresh fs.directory_file m.directory_stored d' disk1
          (remove-IsEntry name d m.are_entries)
          (omega (arith, same_length, m.entries, m.directory_room)) in
      (
        disk2,
        b2,
        d',
        remove_step fresh fs name b b1 b2 d disk disk1 disk2 s h
            (fetch_directory-IsMounted fresh fs b d disk m) file.found file.on_disk file.fetched
            (fetch_map-IsMounted fresh fs b d disk m) run1 run2 run3 run4,
        record {
          mounted = record {
            map_stored = m.map_stored;
            map_room = m.map_room;
            directory_stored = m.directory_stored;
            directory_room = m.directory_room;
            valid = sets.valid;
            size = size2;
            has_map =
                HasMap-keep fresh fs.free_map_file m.map_stored b2 disk1 disk2
                  (omega (arith, num_words-IsValid b2 sets.valid size2, m.map_room))
                  (content_same fs.free_map_file.hdr disk1 disk2 m.map_stored (λ q r l o.
                    off2 (block fs.free_map_file.hdr q) r o (λ p k e. m.apart p k q l (sym e))))
                  has_map;
            entries = same_length ∙ m.entries;
            are_entries = remove-IsEntry name d m.are_entries;
            distinct = distinct;
            has_directory = has_dir;
            map_taken = λ q l.
                keep (block fs.free_map_file.hdr q) (m.map_taken q l)
                  (λ p k e. file.blocks_off_map p k q l (sym e)) (λ e. file.off_map q l (sym e));
            directory_taken = λ q l.
                keep (block fs.directory_file.hdr q) (m.directory_taken q l)
                  (λ p k e. file.blocks_off_directory p k q l (sym e))
                  (λ e. file.off_directory q l (sym e));
            apart = m.apart;
          };
          names = λ other. names other ∙ rw gone refl;
          bits = λ j. ground (arith, sets.bits j, bits1 j);
          others = λ t r l o o'. off2 t r l o' ∙ off1 t r l o;
        },
      )
