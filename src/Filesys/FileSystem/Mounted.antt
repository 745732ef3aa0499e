-- ===== src/Filesys/FileSystem/Mounted.antt =====
-- The files of the file system on the disk, with the map and the directory that they hold.
use cs107_nach_os.Common.{
  ℕ, ◌+◌, ◌*◌, ◌/◌, ◌%◌, ◌<◌, ◌≤◌, ◌≡◌, ◌≢◌, refl, sym, ◌∙◌, ap, true, some, List, length, arith,
  All, ok,
}
use cs107_nach_os.Bitmap.{Bitmap, IsValid, bit, div_round_up}
use cs107_nach_os.Filesys.Header.{FileHeader}
use cs107_nach_os.Filesys.Directory.{Directory, find}
use cs107_nach_os.Filesys.Directory.Lookup.{AreDistinct}
use cs107_nach_os.Filesys.OpenFile.Blocks.{IsStored, block}
use cs107_nach_os.Filesys.OpenFile.ReadAt.{content}
use cs107_nach_os.Filesys.Layout.{fetch_header, fetch_map, fetch_directory, new_directory}
use cs107_nach_os.Filesys.Layout.Ints.{IsEntry}
use cs107_nach_os.Filesys.Layout.Objects.{HasMap, HasDirectory, fetch_map_lem, fetch_directory_lem}
use cs107_nach_os.Filesys.FileSystem.{FileSystem}

-- Sector t belongs to no block of the file.
abbrev pub IsOff : FileHeader → ℕ → Type 0
IsOff h t = (q : ℕ) → q < h.num_sectors → block h q ≢ t

thirty_two : div_round_up 1024 32 ≡ 32
unfolding div_round_up
thirty_two = refl

pub num_words-IsValid : (b : Bitmap) → IsValid b → b.num_bits ≡ 1024 → b.num_words ≡ 32
num_words-IsValid b v size = v.words ∙ ap (λ n. div_round_up n 32) size ∙ thirty_two

module _ (fresh : ℕ → ℕ) where
  -- Map b and directory d are on the disk, and the sectors of both files are set in b.
  pub record IsMounted (fs : FileSystem) (b : Bitmap) (d : Directory) (disk : ℕ → ℕ) : Type 0 where
    pub map_stored : IsStored fs.free_map_file.hdr
    pub map_room : 128 ≤ fs.free_map_file.hdr.num_bytes
    pub directory_stored : IsStored fs.directory_file.hdr
    pub directory_room : 200 ≤ fs.directory_file.hdr.num_bytes
    pub valid : IsValid b
    pub size : b.num_bits ≡ 1024
    pub has_map : HasMap fresh fs.free_map_file map_stored b disk
    pub entries : length d.table ≡ 10
    pub are_entries : All IsEntry d.table
    pub distinct : AreDistinct d.table
    pub has_directory : HasDirectory fresh fs.directory_file directory_stored d disk
    pub map_taken :
        (q : ℕ) → q < fs.free_map_file.hdr.num_sectors → bit b (block fs.free_map_file.hdr q) ≡ true
    pub directory_taken :
        (q : ℕ)
        → q < fs.directory_file.hdr.num_sectors
        → bit b (block fs.directory_file.hdr q) ≡ true
    pub apart :
        (q : ℕ)
        → q < fs.directory_file.hdr.num_sectors
        → IsOff fs.free_map_file.hdr (block fs.directory_file.hdr q)

  module _ (fs : FileSystem) (b : Bitmap) (d : Directory) (disk : ℕ → ℕ)
      (m : IsMounted fs b d disk) where
    pub fetch_directory-IsMounted :
        fetch_directory fresh fs.directory_file (new_directory fresh 10) disk ≡ ok d
    fetch_directory-IsMounted =
        fetch_directory_lem fresh fs.directory_file m.directory_stored (new_directory fresh 10) d
          disk (sym m.entries) (omega (arith, m.entries, m.directory_room)) m.has_directory

    pub fetch_map-IsMounted : fetch_map fresh fs.free_map_file 1024 disk ≡ ok b
    fetch_map-IsMounted =
        ap (λ n. fetch_map fresh fs.free_map_file n disk) (sym m.size)
        ∙ fetch_map_lem fresh fs.free_map_file m.map_stored b disk m.valid (omega (arith, m.size))
            (omega (arith, num_words-IsValid b m.valid m.size, m.map_room)) m.has_map

-- A file of the directory: its header lies in sector s, and its sectors are its own.
pub record IsFile (fresh : ℕ → ℕ) (fs : FileSystem) (b : Bitmap) (d : Directory) (disk : ℕ → ℕ)
    (name : List ℕ) (s : ℕ) (h : FileHeader) : Type 0 where
  pub found : find name d ≡ some s
  pub on_disk : s < 1024
  pub fetched : fetch_header fresh s disk ≡ ok h
  pub stored : IsStored h
  pub taken : bit b s ≡ true
  pub blocks_taken : (q : ℕ) → q < h.num_sectors → bit b (block h q) ≡ true
  pub own : IsOff h s
  pub off_map : IsOff fs.free_map_file.hdr s
  pub off_directory : IsOff fs.directory_file.hdr s
  pub blocks_off_map : (q : ℕ) → q < h.num_sectors → IsOff fs.free_map_file.hdr (block h q)
  pub blocks_off_directory : (q : ℕ) → q < h.num_sectors → IsOff fs.directory_file.hdr (block h q)

-- A file has the same bytes on a disk that agrees on its sectors.
pub content_same :
    (h : FileHeader) (disk disk' : ℕ → ℕ)
    → IsStored h
    → ((q r : ℕ)
        → q < h.num_sectors
        → r < 128
        → disk' (block h q * 128 + r) ≡ disk (block h q * 128 + r))
    → (x : ℕ) → x < h.num_bytes
    → content h disk' x ≡ content h disk x
content_same h disk disk' w same x l =
    same (x / 128) (x % 128) (omega (arith, l, w.room)) (omega arith)
