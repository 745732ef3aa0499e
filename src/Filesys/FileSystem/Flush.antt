-- ===== src/Filesys/FileSystem/Flush.antt =====
-- The last steps of Create: the new header, the directory and the map go to the disk.
use cs107_nach_os.Common.{
  ℕ, ◌+◌, ◌*◌, ◌^◌, ◌<◌, ◌≡◌, refl, ◌∙◌, ap, true, false, ◌==◌, List, [], ◌∷◌, length, arith, All,
  ok, inl, inr, Bool-cases, Option-cases,
}
use cs107_nach_os.Bitmap.{Bitmap, IsValid, bit}
use cs107_nach_os.Filesys.Header.{FileHeader}
use cs107_nach_os.Filesys.Directory.{Directory, DirectoryEntry, add, add_entry, find_index}
use cs107_nach_os.Filesys.Directory.Names.{length-copy}
use cs107_nach_os.Filesys.Directory.Lookup.{AreDistinct}
use cs107_nach_os.Filesys.OpenFile.Blocks.{block}
use cs107_nach_os.Filesys.Layout.{header_byte}
use cs107_nach_os.Filesys.Layout.Ints.{IsEntry}
use cs107_nach_os.Filesys.Layout.Headers.{store_header_lem}
use cs107_nach_os.Filesys.Layout.Objects.{HasDirectory-keep, store_map_lem, store_directory_lem}
use cs107_nach_os.Filesys.FileSystem.{FileSystem, flush}
use cs107_nach_os.Filesys.FileSystem.Mounted.{IsOff, IsMounted, num_words-IsValid, content_same}

add_entry-IsEntry :
    (name : List ℕ) (s : ℕ) (es : List DirectoryEntry)
    → s < 2 ^ 32
    → All IsEntry es
    → All IsEntry ((add_entry name s es).1)
unfolding add_entry
add_entry-IsEntry name s [] l a = tt
add_entry-IsEntry name s (e ∷ es) l (v, a) = elim (Bool-cases e.in_use) [
  | inl used ↦ rw used (v, add_entry-IsEntry name s es l a)
  | inr unused ↦ rw unused ((l, length-copy 9 e.name name ∙ v.1), a)
]

pub add-IsEntry :
    (name : List ℕ) (s : ℕ) (d : Directory)
    → s < 2 ^ 32
    → All IsEntry d.table
    → All IsEntry ((add name s d).1.table)
unfolding add
add-IsEntry name s d l a = elim (Option-cases (find_index name d.table)) [
  | inl e ↦ rw (e, All) (add_entry-IsEntry name s d.table l a)
  | inr (i, e) ↦ rw (e, All) a
]

-- The disk that Create leaves, where the three steps that write to it succeed.
module _ (fresh : ℕ → ℕ) (fs : FileSystem) (b b' : Bitmap) (d d' : Directory) (disk : ℕ → ℕ)
    (m : IsMounted fresh fs b d disk) where
  -- The sector is on the disk and clear in the old map.
  abbrev pub IsClear : ℕ → Type 0
  IsClear s = (s < 1024) × (bit b s ≡ false)

  pub taken_off : (s : ℕ) → IsClear s → (t : ℕ) → bit b t ≡ true → (s == t) ≡ false
  taken_off s (l, c) t u = elim (Bool-cases (s == t)) [
    | inl e ↦ let same : s ≡ t = ground arith in let c' = ap (bit b) same in cc
    | inr e ↦ e
  ]

  clash : (s : ℕ) → IsClear s → (t : ℕ) → t ≡ s → bit b t ≡ true → ⊥
  clash s (l, c) t e u = let same = ap (bit b) e in let c' = c in cc

  pub flush_lem :
      (s : ℕ) (h : FileHeader)
      → IsClear s
      → IsValid b'
      → b'.num_bits ≡ 1024
      → ((j : ℕ) → bit b j ≡ true → bit b' j ≡ true)
      → (length d'.table ≡ 10)
      → All IsEntry d'.table
      → AreDistinct d'.table
      → (disk' : ℕ → ℕ) × (flush fresh fs s h d' b' disk ≡ ok (true, disk'))
        × IsMounted fresh fs b' d' disk'
        × ((r : ℕ) → r < 128 → disk' (s * 128 + r) ≡ header_byte h r)
        × ((t r : ℕ)
            → r < 128
            → (s == t) ≡ false
            → IsOff fs.free_map_file.hdr t
            → IsOff fs.directory_file.hdr t
            → disk' (t * 128 + r) ≡ disk (t * 128 + r))
  unfolding flush
  flush_lem s h c v size more entries ise distinct =
      let (disk1, run1, bytes1) = store_header_lem h s disk c.0 in
      let (disk2, run2, has2, off2) =
        store_directory_lem fresh fs.directory_file m.directory_stored d' disk1 ise
          (omega (arith, entries, m.directory_room)) in
      let (disk3, run3, has3, off3) =
        store_map_lem fresh fs.free_map_file m.map_stored b' disk2 v
          (omega (arith, num_words-IsValid b' v size, m.map_room)) in
      let map_off : IsOff fs.free_map_file.hdr s =
        λ q l e. clash s c (block fs.free_map_file.hdr q) e (m.map_taken q l) in
      let dir_off : IsOff fs.directory_file.hdr s =
        λ q l e. clash s c (block fs.directory_file.hdr q) e (m.directory_taken q l) in
      (
        disk3,
        rw (run1, run2, run3) refl,
        record {
          map_stored = m.map_stored;
          map_room = m.map_room;
          directory_stored = m.directory_stored;
          directory_room = m.directory_room;
          valid = v;
          size = size;
          has_map = has3;
          entries = entries;
          are_entries = ise;
          distinct = distinct;
          has_directory =
              HasDirectory-keep fresh fs.directory_file m.directory_stored d' disk2 disk3
                (omega (arith, entries, m.directory_room))
                (content_same fs.directory_file.hdr disk2 disk3 m.directory_stored
                  (λ q r l o. off3 (block fs.directory_file.hdr q) r o (m.apart q l)))
                has2;
          map_taken = λ q l. more (block fs.free_map_file.hdr q) (m.map_taken q l);
          directory_taken = λ q l. more (block fs.directory_file.hdr q) (m.directory_taken q l);
          apart = m.apart;
        },
        λ r l. off3 s r l map_off ∙ off2 s r l dir_off ∙ bytes1 s r l ∙ ground arith,
        λ t r l o a e. off3 t r l a ∙ off2 t r l e ∙ bytes1 t r l ∙ rw o refl,
      )
