-- ===== src/Filesys/Layout/Objects.antt =====
-- The map of free sectors and the directory, written to their files and read from them.
use cs107_nach_os.Common.{
  ℕ, zero, suc, ◌+◌, ◌-◌, ◌*◌, ◌^◌, ◌<◌, ◌≤◌, ◌≡◌, ◌≢◌, refl, sym, ◌∙◌, ap, List, [], ◌∷◌, length,
  arith, All, ok,
}
use cs107_nach_os.Bitmap.{Bitmap, IsValid, div_round_up}
use cs107_nach_os.Bitmap.Search.{create-clear}
use cs107_nach_os.Filesys.Header.{FileHeader}
use cs107_nach_os.Filesys.Directory.{Directory}
use cs107_nach_os.Filesys.OpenFile.{OpenFile, read_at, write_at}
use cs107_nach_os.Filesys.OpenFile.Blocks.{IsStored, block}
use cs107_nach_os.Filesys.OpenFile.ReadAt.{content, amount, read_at_lem}
use cs107_nach_os.Filesys.OpenFile.WriteAt.{write_at_lem}
use cs107_nach_os.Filesys.Layout.{
  ints_at, ints_byte, entries_at, entries_byte, fetch_map, store_map, fetch_directory,
  store_directory,
}
use cs107_nach_os.Filesys.Layout.Ints.{
  AreSame, AreInts, IsEntry, ints_at-AreSame, entries_at-AreSame, ints_at-ints_byte,
  entries_at-entries_byte,
}

-- The disks agree outside of the sectors of a file.
abbrev pub AgreeOff : FileHeader → (ℕ → ℕ) → (ℕ → ℕ) → Type 0
AgreeOff h disk disk' =
    (s r : ℕ)
    → r < 128
    → ((q : ℕ) → q < h.num_sectors → block h q ≢ s)
    → disk' (s * 128 + r) ≡ disk (s * 128 + r)

pub All-get_or : (xs : List ℕ) → All (λ w. w < 2 ^ 32) xs → AreInts xs
All-get_or [] a i l = omega (arith, l)
All-get_or (x ∷ xs) (b, a) zero l = b
All-get_or (x ∷ xs) (b, a) (suc i) l = All-get_or xs a i (omega (arith, l))

module _ (fresh : ℕ → ℕ) (file : OpenFile) (w : IsStored file.hdr) where
  read_start :
      (disk into : ℕ → ℕ) (n : ℕ)
      → n ≤ file.hdr.num_bytes
      → (into' : ℕ → ℕ) × (read_at fresh file.hdr disk into n 0 ≡ ok (n, into'))
        × AreSame into' 0 (content file.hdr disk) 0 n
  read_start disk into n l =
      let all : amount file.hdr n 0 ≡ n = ground (arith, l) in
      let (into', run, bytes) =
        read_at_lem file.hdr w fresh disk into n 0 (omega (arith, l, w.room, w.short)) in
      (
        into',
        run ∙ ap (λ (a : ℕ). ok (a, into')) all,
        λ k m. bytes (0 + k) ∙ ground (arith, all, m, ap (content file.hdr disk) (at k)),
      )
    where
      at : (k : ℕ) → 0 + (0 + k) ≡ 0 + k
      at k = omega arith

  write_start :
      (disk from : ℕ → ℕ) (n : ℕ)
      → n ≤ file.hdr.num_bytes
      → (disk' : ℕ → ℕ) × (write_at fresh file.hdr from n 0 disk ≡ ok (n, disk'))
        × AreSame (content file.hdr disk') 0 from 0 n
        × AgreeOff file.hdr disk disk'
  write_start disk from n l =
      let all : amount file.hdr n 0 ≡ n = ground (arith, l) in
      let (disk', run, bytes, others) =
        write_at_lem file.hdr w fresh disk from n 0 (omega (arith, l, w.room, w.short)) in
      (
        disk',
        run ∙ ap (λ (a : ℕ). ok (a, disk')) all,
        λ k m. bytes (0 + k) (omega (arith, m, l)) ∙ ground (arith, all, m, ap from (at k)),
        others,
      )
    where
      at : (k : ℕ) → 0 + k - 0 ≡ 0 + k
      at k = omega arith

  -- The file holds the map; the table.
  abbrev pub HasMap : Bitmap → (ℕ → ℕ) → Type 0
  HasMap b disk = ints_at (content file.hdr disk) b.num_words 0 ≡ b.map

  abbrev pub HasDirectory : Directory → (ℕ → ℕ) → Type 0
  HasDirectory d disk = entries_at (content file.hdr disk) (length d.table) 0 ≡ d.table

  pub store_map_lem :
      (b : Bitmap) (disk : ℕ → ℕ)
      → IsValid b
      → b.num_words * 4 ≤ file.hdr.num_bytes
      → (disk' : ℕ → ℕ) × (store_map fresh file b disk ≡ ok disk')
        × HasMap b disk'
        × AgreeOff file.hdr disk disk'
  unfolding store_map
  store_map_lem b disk v l =
      let (disk', run, same, others) = write_start disk (ints_byte b.map) (b.num_words * 4) l in
      (
        disk',
        rw run refl,
        ints_at-AreSame (content file.hdr disk') (ints_byte b.map) b.num_words 0 0 same
            ∙ ap (λ k. ints_at (ints_byte b.map) k 0) (sym v.stored)
            ∙ ints_at-ints_byte b.map (All-get_or b.map v.small),
        others,
      )

  pub store_directory_lem :
      (d : Directory) (disk : ℕ → ℕ)
      → All IsEntry d.table
      → length d.table * 20 ≤ file.hdr.num_bytes
      → (disk' : ℕ → ℕ) × (store_directory fresh file d disk ≡ ok disk')
        × HasDirectory d disk'
        × AgreeOff file.hdr disk disk'
  unfolding store_directory
  store_directory_lem d disk v l =
      let (disk', run, same, others) =
        write_start disk (entries_byte fresh d.table) (length d.table * 20) l in
      (
        disk',
        rw run refl,
        entries_at-AreSame (content file.hdr disk') (entries_byte fresh d.table) (length d.table) 0
              0 same
            ∙ entries_at-entries_byte fresh d.table v,
        others,
      )

  pub fetch_directory_lem :
      (old d : Directory) (disk : ℕ → ℕ)
      → length old.table ≡ length d.table
      → length d.table * 20 ≤ file.hdr.num_bytes
      → HasDirectory d disk
      → fetch_directory fresh file old disk ≡ ok d
  unfolding fetch_directory
  fetch_directory_lem old d disk e l stored =
      let (into, run, same) =
        read_start disk (entries_byte fresh old.table) (length old.table * 20)
          (omega (arith, e, l)) in
      let table : entries_at into (length old.table) 0 ≡ d.table =
        entries_at-AreSame into (content file.hdr disk) (length old.table) 0 0 same
        ∙ ap (λ k. entries_at (content file.hdr disk) k 0) e
        ∙ stored in
      rw run (λ i. ok (record { table = table i }))

  pub fetch_map_lem :
      (b : Bitmap) (disk : ℕ → ℕ)
      → IsValid b
      → 0 < b.num_bits
      → b.num_words * 4 ≤ file.hdr.num_bytes
      → HasMap b disk
      → fetch_map fresh file b.num_bits disk ≡ ok b
  unfolding fetch_map
  fetch_map_lem b disk v l m stored =
      let (b0, made, valid, size, clear) = create-clear b.num_bits l in
      let words : b0.num_words ≡ b.num_words =
        valid.words ∙ ap (λ k. div_round_up k 32) size ∙ sym v.words in
      let (into, run, same) =
        read_start disk (ints_byte b0.map) (b0.num_words * 4) (omega (arith, words, m)) in
      let map : ints_at into b0.num_words 0 ≡ b.map =
        ints_at-AreSame into (content file.hdr disk) b0.num_words 0 0 same
        ∙ ap (λ k. ints_at (content file.hdr disk) k 0) words
        ∙ stored in
      rw (made, run) (λ i. ok (record { num_bits = size i; num_words = words i; map = map i }))

  -- Both are the same on a disk with the same content of the file.
  pub HasMap-keep :
      (b : Bitmap) (disk disk' : ℕ → ℕ)
      → b.num_words * 4 ≤ file.hdr.num_bytes
      → ((x : ℕ) → x < file.hdr.num_bytes → content file.hdr disk' x ≡ content file.hdr disk x)
      → HasMap b disk
      → HasMap b disk'
  HasMap-keep b disk disk' l same stored =
      ints_at-AreSame (content file.hdr disk') (content file.hdr disk) b.num_words 0 0
        (λ k m. same (0 + k) (omega (arith, l, m)))
      ∙ stored

  pub HasDirectory-keep :
      (d : Directory) (disk disk' : ℕ → ℕ)
      → length d.table * 20 ≤ file.hdr.num_bytes
      → ((x : ℕ) → x < file.hdr.num_bytes → content file.hdr disk' x ≡ content file.hdr disk x)
      → HasDirectory d disk
      → HasDirectory d disk'
  HasDirectory-keep d disk disk' l same stored =
      entries_at-AreSame (content file.hdr disk') (content file.hdr disk) (length d.table) 0 0
        (λ k m. same (0 + k) (omega (arith, l, m)))
      ∙ stored
