-- ===== src/Filesys/FileSystem/Format.antt =====
-- A disk that was formatted holds an empty directory and the map of its sectors.
use cs107_nach_os.Common.{
  ℕ, zero, suc, ◌+◌, ◌*◌, ◌<◌, ◌≡◌, refl, sym, ◌∙◌, ap, Bool, true, false, none, List, length,
  arith, ok, replicate, All-replicate,
}
use cs107_nach_os.Bitmap.{Bitmap, IsValid, bit, div_round_up, create, mark}
use cs107_nach_os.Bitmap.Single.{mark-Sets}
use cs107_nach_os.Bitmap.Search.{count_clear, count_clear-set, create-clear}
use cs107_nach_os.Filesys.Header.{FileHeader, allocate}
use cs107_nach_os.Filesys.Directory.{DirectoryEntry, find}
use cs107_nach_os.Filesys.Directory.Lookup.{AreDistinct, lookup, find-lookup}
use cs107_nach_os.Filesys.OpenFile.{OpenFile}
use cs107_nach_os.Filesys.OpenFile.Blocks.{block}
use cs107_nach_os.Filesys.Layout.{
  header_at, header_byte, store_header, store_map, store_directory, open_file, new_directory,
  chars_at, int_at,
}
use cs107_nach_os.Filesys.Layout.Ints.{IsEntry}
use cs107_nach_os.Filesys.Layout.Headers.{IsHeader, store_header_lem}
use cs107_nach_os.Filesys.Layout.Objects.{HasMap-keep, store_map_lem, store_directory_lem}
use cs107_nach_os.Filesys.FileSystem.{FileSystem, format_disk}
use cs107_nach_os.Filesys.FileSystem.NewHeader.{
  AreBytes, fetch_stored, open_fetched, IsNew, allocate-IsNew,
}
use cs107_nach_os.Filesys.FileSystem.Booted.{IsBooted}
use cs107_nach_os.Filesys.FileSystem.Mounted.{IsOff, IsMounted, num_words-IsValid, content_same}

count_clear-all : (f : ℕ → Bool) (n : ℕ) → ((j : ℕ) → f j ≡ false) → count_clear f n ≡ n
unfolding count_clear
count_clear-all f zero h = refl
count_clear-all f (suc n) h = ground (arith, count_clear-all f n h, h n)

length-chars_at : (buf : ℕ → ℕ) (n a : ℕ) → length (chars_at buf n a) ≡ n
unfolding chars_at
length-chars_at buf zero a = refl
length-chars_at buf (suc n) a = ap suc (length-chars_at buf n (a + 1))

blank_entry : (ℕ → ℕ) → DirectoryEntry
blank_entry fresh = record { in_use = false; sector = int_at fresh 4; name = chars_at fresh 10 8 }

blank-IsEntry : (fresh : ℕ → ℕ) → AreBytes fresh → IsEntry (blank_entry fresh)
unfolding blank_entry int_at
blank-IsEntry fresh w = (omega (arith, w 4, w 5, w 6, w 7), length-chars_at fresh 10 8)

blank-AreDistinct : (fresh : ℕ → ℕ) (n : ℕ) → AreDistinct (replicate n (blank_entry fresh))
unfolding blank_entry
blank-AreDistinct fresh zero = tt
blank-AreDistinct fresh (suc n) =
    (omega (arith, length-chars_at fresh 10 8), λ e. cc, blank-AreDistinct fresh n)

blank-lookup :
    (fresh : ℕ → ℕ) (name : List ℕ) (n : ℕ) → lookup name (replicate n (blank_entry fresh)) ≡ none
unfolding blank_entry lookup
blank-lookup fresh name zero = refl
blank-lookup fresh name (suc n) = blank-lookup fresh name n

-- The map with the sectors of both headers set.
reserved :
    (b0 b1 b : Bitmap) × (create 1024 ≡ ok b0)
    × (mark b0 0 ≡ ok b1)
    × (mark b1 1 ≡ ok b)
    × IsValid b
    × (b.num_bits ≡ 1024)
    × (bit b 0 ≡ true)
    × (bit b 1 ≡ true)
    × (count_clear (bit b) 1024 ≡ 1022)
reserved =
    let (b0, made, v0, size0, clear) = create-clear 1024 (omega arith) in
    let (b1, run1, sets1) = mark-Sets b0 0 v0 (omega (arith, size0)) in
    let (b2, run2, sets2) = mark-Sets b1 1 sets1.valid (omega (arith, size0, sets1.same_size)) in
    let all = count_clear-all (bit b0) 1024 clear in
    let one = count_clear-set (bit b0) (bit b1) 0 (clear 0) sets1.bits 1024 (omega arith) in
    let two =
      count_clear-set (bit b1) (bit b2) 1 (ground (arith, sets1.bits 1, clear 1)) sets2.bits 1024
        (omega arith) in
    (
      b0,
      b1,
      b2,
      made,
      run1,
      run2,
      sets2.valid,
      sets2.same_size ∙ sets1.same_size ∙ size0,
      ground (arith, sets2.bits 0, sets1.bits 0),
      ground (arith, sets2.bits 1),
      omega (arith, all, one, two),
    )

blocks : (div_round_up 128 128 ≡ 1) × (div_round_up 200 128 ≡ 2)
unfolding div_round_up
blocks = (refl, refl)

-- The blocks of a new file are off a sector that was taken.
off_taken :
    (b b' : Bitmap) (size : ℕ) (h : FileHeader) (t : ℕ)
    → IsNew b size h b'
    → bit b t ≡ true
    → IsOff h t
off_taken b b' size h t n u q l e = let free = n.all_clear q l in let same = ap (bit b) e in cc

stay_taken :
    (b b' : Bitmap) (size : ℕ) (h : FileHeader) (t : ℕ)
    → IsNew b size h b'
    → bit b t ≡ true
    → bit b' t ≡ true
stay_taken b b' size h t n u = ground (arith, n.bits t, u)

open_stored :
    (fresh : ℕ → ℕ) (h : FileHeader) (s : ℕ) (disk : ℕ → ℕ)
    → s < 1024
    → IsHeader h
    → ((r : ℕ) → r < 128 → disk (s * 128 + r) ≡ header_byte h r)
    → open_file fresh s disk ≡ ok (record { hdr = h; seek_position = 0 })
open_stored fresh h s disk l w bytes =
    open_fetched fresh h s disk (fetch_stored fresh h s disk l w bytes)

format_disk_step :
    (fresh disk disk1 disk2 disk3 disk4 : ℕ → ℕ) (b0 b1 b2 b3 b4 : Bitmap) (h h' : FileHeader)
    (f f' : OpenFile)
    → create 1024 ≡ ok b0
    → mark b0 0 ≡ ok b1
    → mark b1 1 ≡ ok b2
    → allocate (header_at fresh) b2 128 ≡ ok (true, h, b3)
    → allocate (header_at fresh) b3 200 ≡ ok (true, h', b4)
    → store_header h 0 disk ≡ ok disk1
    → store_header h' 1 disk1 ≡ ok disk2
    → open_file fresh 0 disk2 ≡ ok f
    → open_file fresh 1 disk2 ≡ ok f'
    → store_map fresh f b4 disk2 ≡ ok disk3
    → store_directory fresh f' (new_directory fresh 10) disk3 ≡ ok disk4
    → format_disk fresh disk ≡ ok (record { free_map_file = f; directory_file = f' }, disk4)
unfolding format_disk
format_disk_step fresh disk disk1 disk2 disk3 disk4 b0 b1 b2 b3 b4 h h' f f' e0 e1 e2 e3 e4 e5 e6 e7
      e8 e9 e10 =
    rw (e0, e1, e2, e3, e4, e5, e6, e7, e8, e9, e10) refl

-- Formatting a disk, up to the two files of the console.
pub format_disk-IsMounted :
    (fresh : ℕ → ℕ)
    → AreBytes fresh
    → (disk : ℕ → ℕ)
    → (fs : FileSystem) × (b : Bitmap) × (disk' : ℕ → ℕ) × (format_disk fresh disk ≡ ok (fs, disk'))
      × IsMounted fresh fs b (new_directory fresh 10) disk'
      × IsBooted fresh fs b disk'
      × ((name : List ℕ) → find name (new_directory fresh 10) ≡ none)
      × (count_clear (bit b) 1024 ≡ 1019)
unfolding blank_entry
format_disk-IsMounted fresh w disk =
    let d = new_directory fresh 10 in
    let (b0, b1, b2, made, run1, run2, v, size, first, second, clear) = reserved in
    let (h, b3, run3, map_new) =
      allocate-IsNew fresh b2 128 w v size (omega (arith, blocks.0))
        (omega (arith, blocks.0, clear)) in
    let (h', b4, run4, dir_new) =
      allocate-IsNew fresh b3 200 w map_new.valid (map_new.same_size ∙ size)
        (omega (arith, blocks.1)) (omega (arith, blocks, clear, map_new.room)) in
    let num : b4.num_bits ≡ 1024 = dir_new.same_size ∙ map_new.same_size ∙ size in
    let file : OpenFile = record { hdr = h; seek_position = 0 } in
    let file' : OpenFile = record { hdr = h'; seek_position = 0 } in
    let (disk1, run5, bytes5) = store_header_lem h 0 disk (omega arith) in
    let (disk2, run6, bytes6) = store_header_lem h' 1 disk1 (omega arith) in
    let at0 : (r : ℕ) → r < 128 → disk2 (0 * 128 + r) ≡ header_byte h r =
      λ r l. bytes6 0 r l ∙ bytes5 0 r l in
    let at1 : (r : ℕ) → r < 128 → disk2 (1 * 128 + r) ≡ header_byte h' r = λ r l. bytes6 1 r l in
    let (disk3, run9, has_map, off9) =
      store_map_lem fresh file map_new.stored b4 disk2 dir_new.valid
        (omega (arith, map_new.bytes, num_words-IsValid b4 dir_new.valid num)) in
    let (disk4, run10, has_dir, off10) =
      store_directory_lem fresh file' dir_new.stored d disk3
        (All-replicate IsEntry 10 (blank_entry fresh) (blank-IsEntry fresh w))
        (omega (arith, dir_new.bytes)) in
    let apart : (q : ℕ) → q < h.num_sectors → IsOff h' (block h q) =
      λ q l. off_taken b3 b4 200 h' (block h q) dir_new (map_new.set_now q l) in
    let reserve : (t : ℕ) → bit b2 t ≡ true → (bit b4 t ≡ true) × IsOff h t × IsOff h' t = λ t u.
      let v = stay_taken b2 b3 128 h t map_new u in
      (
        stay_taken b3 b4 200 h' t dir_new v,
        off_taken b2 b3 128 h t map_new u,
        off_taken b3 b4 200 h' t dir_new v,
      ) in
    let keep : (t : ℕ)
        → bit b2 t ≡ true
        → (r : ℕ) → r < 128
        → disk4 (t * 128 + r) ≡ disk2 (t * 128 + r) =
      λ t u r l.
        off10 t r l (off_taken b3 b4 200 h' t dir_new (stay_taken b2 b3 128 h t map_new u))
        ∙ off9 t r l (off_taken b2 b3 128 h t map_new u) in
    (
      record { free_map_file = file; directory_file = file' },
      b4,
      disk4,
      format_disk_step fresh disk disk1 disk2 disk3 disk4 b0 b1 b2 b3 b4 h h' file file' made run1
          run2 run3 run4 run5 run6 (open_stored fresh h 0 disk2 (omega arith) map_new.is_header at0)
          (open_stored fresh h' 1 disk2 (omega arith) dir_new.is_header at1) run9 run10,
      record {
        map_stored = map_new.stored;
        map_room = omega (arith, map_new.bytes);
        directory_stored = dir_new.stored;
        directory_room = omega (arith, dir_new.bytes);
        valid = dir_new.valid;
        size = num;
        has_map =
            HasMap-keep fresh file map_new.stored b4 disk3 disk4
              (omega (arith, map_new.bytes, num_words-IsValid b4 dir_new.valid num))
              (content_same h disk3 disk4 map_new.stored
                (λ q r l o. off10 (block h q) r o (apart q l)))
              has_map;
        entries = refl;
        are_entries = All-replicate IsEntry 10 (blank_entry fresh) (blank-IsEntry fresh w);
        distinct = blank-AreDistinct fresh 10;
        has_directory = has_dir;
        map_taken = λ q l. stay_taken b3 b4 200 h' (block h q) dir_new (map_new.set_now q l);
        directory_taken = dir_new.set_now;
        apart = λ q l p o e. apart p o q l (sym e);
      },
      record {
        map_opens =
            open_stored fresh h 0 disk4 (omega arith) map_new.is_header
              (λ r l. keep 0 first r l ∙ at0 r l);
        directory_opens =
            open_stored fresh h' 1 disk4 (omega arith) dir_new.is_header
              (λ r l. keep 1 second r l ∙ at1 r l);
        map_header = reserve 0 first;
        directory_header = reserve 1 second;
      },
      λ name. find-lookup name d ∙ blank-lookup fresh name 10,
      omega (arith, clear, map_new.room, dir_new.room, blocks),
    )
