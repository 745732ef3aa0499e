-- ===== src/Filesys/FileSystem/Create.antt =====
-- Create adds one file and leaves the other files as they are.
use cs107_nach_os.Common.{
  ℕ, zero, suc, ◌+◌, ◌*◌, ◌<◌, ◌≤◌, ◌≡◌, ◌≢◌, refl, ◌∙◌, ap, true, false, ◌||◌, ◌==◌, none, some,
  List, [], ◌∷◌, if◌then◌else◌, arith, ok,
}
use cs107_nach_os.Bitmap.{Bitmap, bit, div_round_up, find_and_set}
use cs107_nach_os.Bitmap.Search.{count_clear, count_clear-set, full, first, find_and_set-Found}
use cs107_nach_os.Filesys.Header.{FileHeader, allocate}
use cs107_nach_os.Filesys.Header.Allocation.{owns, count_clear-full}
use cs107_nach_os.Filesys.Directory.{Directory, find, add}
use cs107_nach_os.Filesys.Directory.Lookup.{add-find, all_used, same_name}
use cs107_nach_os.Filesys.OpenFile.Blocks.{block}
use cs107_nach_os.Filesys.Layout.{header_at}
use cs107_nach_os.Filesys.FileSystem.{FileSystem, flush, create_at, create_file}
use cs107_nach_os.Filesys.Directory.{same_chars}
use cs107_nach_os.Filesys.Layout.{fetch_directory, fetch_map, new_directory}
use cs107_nach_os.Filesys.FileSystem.Flush.{add-IsEntry, flush_lem, taken_off}
use cs107_nach_os.Filesys.FileSystem.Mounted.{
  IsOff, IsMounted, IsFile, fetch_directory-IsMounted, fetch_map-IsMounted,
}
use cs107_nach_os.Filesys.FileSystem.NewHeader.{AreBytes, fetch_stored, allocate-IsNew}

same_name_refl : (n : ℕ) (a : List ℕ) → same_chars n a a ≡ true
unfolding same_chars
same_name_refl zero a = refl
same_name_refl (suc n) [] = refl
same_name_refl (suc n) (x ∷ xs) = ground (arith, same_name_refl n xs)

module _ (fresh : ℕ → ℕ) (fs : FileSystem) (name : List ℕ) where
  create_step :
      (b b1 b2 : Bitmap) (d d' : Directory) (disk : ℕ → ℕ) (s size : ℕ) (h : FileHeader)
      → fetch_directory fresh fs.directory_file (new_directory fresh 10) disk ≡ ok d
      → find name d ≡ none
      → fetch_map fresh fs.free_map_file 1024 disk ≡ ok b
      → find_and_set b ≡ ok (some s, b1)
      → add name s d ≡ (true, d')
      → allocate (header_at fresh) b1 size ≡ ok (true, h, b2)
      → create_file fresh fs name size disk ≡ flush fresh fs s h d' b2 disk
  unfolding create_file create_at
  create_step b b1 b2 d d' disk s size h e f g i j k = rw (e, f, g, i, j, k) refl

-- A bit that is clear once bit s has been set.
clear_before :
    (b b1 : Bitmap) (s j : ℕ)
    → bit b1 j ≡ (if s == j then true else bit b j)
    → bit b1 j ≡ false
    → (bit b j ≡ false) × (j ≢ s)
clear_before b b1 s j e unset = (
  ground (arith, e, unset),
  λ same. let here : (s == j) ≡ true = ground (arith, same) in ground (arith, e, unset, here),
)

-- A file whose blocks are set in a map is off a clear sector.
off_clear :
    (b : Bitmap) (s : ℕ) (g : FileHeader)
    → bit b s ≡ false
    → ((q : ℕ) → q < g.num_sectors → bit b (block g q) ≡ true)
    → IsOff g s
off_clear b s g c all q l e = let used = all q l in let same = ap (bit b) e in cc

-- What Create has done: the new file at sector s with header h, the map and the directory.
pub record Adds (fresh : ℕ → ℕ) (fs : FileSystem) (b : Bitmap) (d : Directory) (disk : ℕ → ℕ)
    (name : List ℕ) (size : ℕ) (s : ℕ) (h : FileHeader) (b' : Bitmap) (d' : Directory)
    (disk' : ℕ → ℕ) : Type 0 where
  pub mounted : IsMounted fresh fs b' d' disk'
  pub table : d' ≡ (add name s d).1
  pub room : count_clear (bit b') 1024 + 1 + div_round_up size 128 ≡ count_clear (bit b) 1024
  pub names :
      (other : List ℕ) → find other d' ≡ (if same_name name other then some s else find other d)
  pub file : IsFile fresh fs b' d' disk' name s h
  pub bytes : h.num_bytes ≡ size
  pub was_clear : (s < 1024) × (bit b s ≡ false)
  pub blocks_clear : (q : ℕ) → q < h.num_sectors → (bit b (block h q) ≡ false) × (block h q ≢ s)
  pub taken : (j : ℕ) → bit b' j ≡ owns h h.num_sectors 0 j || (s == j) || bit b j
  pub others :
      (t r : ℕ)
      → r < 128
      → bit b t ≡ true
      → IsOff fs.free_map_file.hdr t
      → IsOff fs.directory_file.hdr t
      → disk' (t * 128 + r) ≡ disk (t * 128 + r)

module _ (fresh : ℕ → ℕ) (w : AreBytes fresh) (fs : FileSystem) (b : Bitmap) (d : Directory)
    (disk : ℕ → ℕ) (m : IsMounted fresh fs b d disk) (name : List ℕ) (size : ℕ) where
  -- Where new memory holds bytes, Create on a mounted disk, for a name that is not found and at
  -- most 30 blocks, with a free entry and more clear sectors than blocks, answers TRUE and leaves a
  -- mounted disk: the name leads to a sector that was clear, with a header of that size on it,
  -- whose different blocks were clear; the map has exactly these sectors set in addition, the
  -- directory has one name more, and no sector that was set has changed, except those of the map
  -- and the directory.
  pub create_file-Adds :
      find name d ≡ none
      → all_used d.table ≡ false
      → div_round_up size 128 ≤ 30
      → div_round_up size 128 < count_clear (bit b) 1024
      → (disk' : ℕ → ℕ) × (s : ℕ) × (h : FileHeader) × (b' : Bitmap) × (d' : Directory)
        × (create_file fresh fs name size disk ≡ ok (true, disk'))
        × Adds fresh fs b d disk name size s h b' d' disk'
  create_file-Adds new free fits room =
      let (found, run, result) = find_and_set-Found b m.valid in
      elim result [
        | full all e ↦ absurd (
            omega (
              arith,
              room,
              count_clear-full (bit b) 1024 (λ j l. all j (omega (arith, l, m.size))),
            ))
        | first s b1 l c before sets e ↦
            let fewer =
              count_clear-set (bit b) (bit b1) s c sets.bits 1024 (omega (arith, l, m.size)) in
            let size1 : b1.num_bits ≡ 1024 = sets.same_size ∙ m.size in
            let (h, b2, run2, fresh_file) =
              allocate-IsNew fresh b1 size w sets.valid size1 fits (omega (arith, fewer, room)) in
            let (distinct, same_length, added, kept, names) = add-find name s d m.distinct in
            let d' = (add name s d).1 in
            let yes_added : (add name s d).0 ≡ true = added ∙ rw (new, free) refl in
            let more : (j : ℕ) → bit b j ≡ true → bit b2 j ≡ true =
              λ j t. ground (arith, fresh_file.bits j, sets.bits j, t) in
            let (disk', run3, mounted, at, others) =
              flush_lem fresh fs b b2 d d' disk m s h (omega (arith, l, m.size), c) fresh_file.valid
                (fresh_file.same_size ∙ size1) more (same_length ∙ m.entries)
                (add-IsEntry name s d (omega (arith, l, m.size)) m.are_entries) distinct in
            let found_now : find name d' ≡ some s =
              names name ∙ rw (yes_added, same_name_refl 9 name) refl in
            (
              disk',
              s,
              h,
              b2,
              d',
              create_step fresh fs name b b1 b2 d d' disk s size h
                    (fetch_directory-IsMounted fresh fs b d disk m) new
                    (fetch_map-IsMounted fresh fs b d disk m) (run ∙ ap ok e)
                    (λ i. (yes_added i, d')) run2
                  ∙ run3,
              record {
                mounted = mounted;
                table = refl;
                room = omega (arith, fewer, fresh_file.room);
                names = λ other. names other ∙ rw yes_added refl;
                file = record {
                  found = found_now;
                  on_disk = omega (arith, l, m.size);
                  fetched =
                      fetch_stored fresh h s disk' (omega (arith, l, m.size)) fresh_file.is_header
                        at;
                  stored = fresh_file.stored;
                  taken = ground (arith, fresh_file.bits s, sets.bits s);
                  blocks_taken = fresh_file.set_now;
                  own = λ q o.
                      (clear_before b b1 s (block h q) (sets.bits (block h q))
                        (fresh_file.all_clear q o)).1;
                  off_map = off_clear b s fs.free_map_file.hdr c m.map_taken;
                  off_directory = off_clear b s fs.directory_file.hdr c m.directory_taken;
                  blocks_off_map = λ q o.
                      off_clear b (block h q) fs.free_map_file.hdr
                        (clear_before b b1 s (block h q) (sets.bits (block h q))
                          (fresh_file.all_clear q o)).0
                        m.map_taken;
                  blocks_off_directory = λ q o.
                      off_clear b (block h q) fs.directory_file.hdr
                        (clear_before b b1 s (block h q) (sets.bits (block h q))
                          (fresh_file.all_clear q o)).0
                        m.directory_taken;
                };
                bytes = fresh_file.bytes;
                was_clear = (omega (arith, l, m.size), c);
                blocks_clear = λ q o.
                    clear_before b b1 s (block h q) (sets.bits (block h q))
                      (fresh_file.all_clear q o);
                taken = λ j. ground (arith, fresh_file.bits j, sets.bits j);
                others = λ t r o u a z.
                    others t r o
                      (taken_off fresh fs b b2 d d' disk m s (omega (arith, l, m.size), c) t u) a z;
              },
            )
      ]
