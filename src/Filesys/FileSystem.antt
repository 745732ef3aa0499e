-- ===== src/Filesys/FileSystem.antt =====
-- The class FileSystem of NachOS-4.0/code/filesys/filesys.cc, without FILESYS_STUB.
pub mod Fresh
pub mod NewHeader
pub mod Mounted
pub mod Flush
pub mod Create
pub mod Booted
pub mod Format
pub mod Start
pub mod Release
pub mod Remove
pub mod Files
pub mod Refuse
pub mod RoundTrip
mod Tests
use cs107_nach_os.Common.{
  ℕ, zero, suc, ◌+◌, ◌-◌, ◌*◌, ◌/◌, ◌^◌, Bool, true, false, not, Option, none, some, List, [], ◌∷◌,
  Outcome, ok, aborted, ◌>>=◌, ◌>>◌, assert, ◌==◌, ltb, if◌then◌else◌, get_elem?, set, length,
  replicate,
}
use cs107_nach_os.Common.Words.{is_negative}
use cs107_nach_os.Bitmap.{Bitmap, create, mark, clear, find_and_set}
use cs107_nach_os.Filesys.Header.{FileHeader, allocate, deallocate}
use cs107_nach_os.Filesys.Directory.{Directory, find, add, remove}
use cs107_nach_os.Host.FileSystem.{max_file_open, stdin_name, stdout_name}
use cs107_nach_os.Filesys.Disk.{num_disk_sectors}
use cs107_nach_os.Filesys.OpenFile.{OpenFile}
use cs107_nach_os.Filesys.Layout.{
  header_at, store_header, open_file, fetch_header, fetch_map, store_map, new_directory,
  fetch_directory, store_directory, entry_size,
}

abbrev pub num_dir_entries : ℕ
num_dir_entries = 10

abbrev pub free_map_sector : ℕ
free_map_sector = 0

abbrev pub directory_sector : ℕ
directory_sector = 1

abbrev pub free_map_file_size : ℕ
free_map_file_size = num_disk_sectors / 8

abbrev pub directory_file_size : ℕ
directory_file_size = entry_size * num_dir_entries

pub record FileSystem : Type 0 where
  pub free_map_file : OpenFile
  pub directory_file : OpenFile

-- `openf`, each file with its type.
abbrev pub OpenFiles : Type 0
OpenFiles = List (Option (OpenFile × ℕ))

-- The loop of FindFreeSlot from i on, with n slots left; `none` is -1.
unfoldable pub free_slot_from : ℕ → ℕ → OpenFiles → Outcome (Option ℕ)
free_slot_from zero i openf = ok none
free_slot_from (suc n) i openf =
    let rest = free_slot_from n (i + 1) openf in
    elim (get_elem? openf i) [
      | none ↦ aborted
      | some slot ↦ elim slot [ none ↦ ok (some i) | some f ↦ rest ]
    ]

unfoldable pub free_slot : OpenFiles → Outcome (Option ℕ)
free_slot openf = free_slot_from (max_file_open - 2) 2 openf

-- `sector == -1`
abbrev pub is_missing : Option ℕ → Bool
is_missing none = true
is_missing (some s) = s == 2 ^ 32 - 1

module _ (fresh : ℕ → ℕ) where
  -- Every answer of Create comes with the disk. The last of its steps: all changes go to the disk.
  pub flush : FileSystem → ℕ → FileHeader → Directory → Bitmap → (ℕ → ℕ) → Outcome (Bool × (ℕ → ℕ))
  flush fs sector hdr directory free_map disk = do
    disk1 ← store_header hdr sector disk
    disk2 ← store_directory fresh fs.directory_file directory disk1
    disk3 ← store_map fresh fs.free_map_file free_map disk2
    ok (true, disk3)

  -- What Create does with the sector that FindAndSet found.
  pub create_at :
      FileSystem → List ℕ → ℕ → Directory → Bitmap → Option ℕ → (ℕ → ℕ) → Outcome (Bool × (ℕ → ℕ))
  unfolding flush
  create_at fs name initial_size directory free_map none disk = ok (false, disk)
  create_at fs name initial_size directory free_map (some sector) disk =
      let (added, directory') = add name sector directory in
      if not added
      then ok (false, disk)
      else allocate (header_at fresh) free_map initial_size >>= λ (allocated, hdr, free_map').
          if not allocated then ok (false, disk) else flush fs sector hdr directory' free_map' disk

  -- For a size that is not negative.
  pub create_file : FileSystem → List ℕ → ℕ → (ℕ → ℕ) → Outcome (Bool × (ℕ → ℕ))
  unfolding create_at
  create_file fs name initial_size disk =
      fetch_directory fresh fs.directory_file (new_directory fresh num_dir_entries) disk
      >>= λ directory.
          if not (is_missing (find name directory))
          then ok (false, disk)
          else fetch_map fresh fs.free_map_file num_disk_sectors disk >>= λ free_map.
              find_and_set free_map >>= λ (found, free_map').
              create_at fs name initial_size directory free_map' found disk

  -- The file, `none` for NULL.
  pub open_name : FileSystem → List ℕ → (ℕ → ℕ) → Outcome (Option OpenFile)
  open_name fs name disk =
      fetch_directory fresh fs.directory_file (new_directory fresh num_dir_entries) disk
      >>= λ directory. elim (find name directory) [
        | none ↦ ok none
        | some sector ↦
            if is_negative sector
            then ok none
            else open_file fresh sector disk >>= λ file. ok (some file)
      ]

  -- Remove of a name that was found at a sector.
  pub remove_at : FileSystem → List ℕ → Directory → ℕ → (ℕ → ℕ) → Outcome (Bool × (ℕ → ℕ))
  remove_at fs name directory sector disk = do
    hdr ← fetch_header fresh sector disk
    free_map ← fetch_map fresh fs.free_map_file num_disk_sectors disk
    free_map' ← deallocate hdr free_map
    free_map'' ← clear free_map' sector
    disk1 ← store_map fresh fs.free_map_file free_map'' disk
    disk2 ← store_directory fresh fs.directory_file ((remove name directory).1) disk1
    ok (true, disk2)

  pub remove_file : FileSystem → List ℕ → (ℕ → ℕ) → Outcome (Bool × (ℕ → ℕ))
  unfolding remove_at
  remove_file fs name disk =
      fetch_directory fresh fs.directory_file (new_directory fresh num_dir_entries) disk
      >>= λ directory. elim (find name directory) [
        | none ↦ ok (false, disk)
        | some sector ↦
            if sector == 2 ^ 32 - 1
            then ok (false, disk)
            else remove_at fs name directory sector disk
      ]

  -- The constructor's part for `format`: the files and the disk.
  pub format_disk : (ℕ → ℕ) → Outcome (FileSystem × (ℕ → ℕ))
  format_disk disk = do
    b0 ← create num_disk_sectors
    b1 ← mark b0 free_map_sector
    b2 ← mark b1 directory_sector
    (map_fits, map_hdr, b3) ← allocate (header_at fresh) b2 free_map_file_size
    assert map_fits
    (directory_fits, dir_hdr, b4) ← allocate (header_at fresh) b3 directory_file_size
    assert directory_fits
    disk1 ← store_header map_hdr free_map_sector disk
    disk2 ← store_header dir_hdr directory_sector disk1
    map_file ← open_file fresh free_map_sector disk2
    dir_file ← open_file fresh directory_sector disk2
    disk3 ← store_map fresh map_file b4 disk2
    disk4 ← store_directory fresh dir_file (new_directory fresh num_dir_entries) disk3
    ok (record { free_map_file = map_file; directory_file = dir_file }, disk4)

  -- Its part without `format`.
  pub open_files : (ℕ → ℕ) → Outcome FileSystem
  open_files disk = do
    map_file ← open_file fresh free_map_sector disk
    dir_file ← open_file fresh directory_sector disk
    ok (record { free_map_file = map_file; directory_file = dir_file })

  -- Open with a type. The table changes where the name is found; else the free slot, which is NULL,
  -- is the answer.
  pub open_slot :
      FileSystem → List ℕ → ℕ → OpenFiles → (ℕ → ℕ) → Outcome (Option (OpenFile × ℕ) × OpenFiles)
  open_slot fs name type openf disk = do
    slot ← free_slot openf
    file ← open_name fs name disk
    elim slot [
      | none ↦ aborted
      | some j ↦ elim file [
        | none ↦ ok (none, openf)
        | some f ↦ ok (some (f, type), set openf j (some (f, type)))
      ]
    ]

  -- The end of the constructor: the table of open files, the two Opens, and the two Creates, whose
  -- answers are not looked at.
  pub open_console : FileSystem → (ℕ → ℕ) → Outcome (OpenFiles × (ℕ → ℕ))
  unfolding open_slot
  open_console fs disk = do
    (input, openf1) ← open_slot fs stdin_name 2 (replicate 15 none) disk
    (output, openf2) ← open_slot fs stdout_name 3 (set openf1 0 input) disk
    (_, disk1) ← create_file fs stdin_name 0 disk
    (_, disk2) ← create_file fs stdout_name 0 disk1
    ok (set openf2 1 output, disk2)

  -- The constructor: the files, the table of open files, the disk.
  pub construct : Bool → (ℕ → ℕ) → Outcome (FileSystem × OpenFiles × (ℕ → ℕ))
  unfolding format_disk open_files open_console
  construct format disk =
      (if format then format_disk disk else (open_files disk >>= λ fs. ok (fs, disk)))
      >>= λ (fs, disk1). open_console fs disk1 >>= λ (openf, disk2). ok (fs, openf, disk2)
