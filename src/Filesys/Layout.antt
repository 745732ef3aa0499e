-- ===== src/Filesys/Layout.antt =====
-- How the bytes of an object lie in memory and on the disk, on the little-endian 32-bit host that
-- the code is compiled for: FetchFrom and WriteBack of NachOS-4.0/code/filesys/filehdr.cc,
-- pbitmap.cc and directory.cc.
pub mod Ints
pub mod Headers
pub mod Objects
use cs107_nach_os.Common.{
  ℕ, zero, suc, ◌+◌, ◌-◌, ◌*◌, ◌/◌, ◌%◌, false, not, ◌&&◌, List, [], ◌∷◌, Outcome, ok, ◌>>=◌, ◌==◌,
  leb, ltb, if◌then◌else◌, get_or, length, replicate,
}
use cs107_nach_os.Bitmap.{Bitmap, create}
use cs107_nach_os.Filesys.Header.{FileHeader, num_direct}
use cs107_nach_os.Filesys.Directory.{Directory, DirectoryEntry, file_name_max_len}
use cs107_nach_os.Filesys.Disk.{read_sector, write_sector}
use cs107_nach_os.Filesys.OpenFile.{OpenFile, read_at, write_at}

-- An int, its byte k, and an array of n of them, at an index of a buffer.
unfoldable pub int_at : (ℕ → ℕ) → ℕ → ℕ
int_at buf a = buf a + 256 * buf (a + 1) + 65536 * buf (a + 2) + 16777216 * buf (a + 3)

unfoldable pub int_byte : ℕ → ℕ → ℕ
int_byte w k =
    if k == 0
    then w % 256
    else if k == 1
    then w / 256 % 256
    else if k == 2
    then w / 65536 % 256
    else w / 16777216 % 256

unfoldable pub ints_at : (ℕ → ℕ) → ℕ → ℕ → List ℕ
ints_at buf zero a = []
ints_at buf (suc n) a = int_at buf a ∷ ints_at buf n (a + 4)

abbrev pub ints_byte : List ℕ → ℕ → ℕ
ints_byte xs a = int_byte (get_or xs (a / 4) 0) (a % 4)

-- A FileHeader: numBytes, numSectors, dataSectors.
abbrev pub header_at : (ℕ → ℕ) → FileHeader
header_at buf = record {
  num_bytes = int_at buf 0;
  num_sectors = int_at buf 4;
  data_sectors = ints_at buf num_direct 8;
}

abbrev pub header_byte : FileHeader → ℕ → ℕ
header_byte h = ints_byte (h.num_bytes ∷ h.num_sectors ∷ h.data_sectors)

-- `fresh` is what a new object has in memory.
unfoldable pub fetch_header : (ℕ → ℕ) → ℕ → (ℕ → ℕ) → Outcome FileHeader
fetch_header fresh sector disk = read_sector sector disk fresh 0 >>= λ this. ok (header_at this)

pub store_header : FileHeader → ℕ → (ℕ → ℕ) → Outcome (ℕ → ℕ)
store_header h sector disk = write_sector sector (header_byte h) 0 disk

-- The constructor of OpenFile.
unfoldable pub open_file : (ℕ → ℕ) → ℕ → (ℕ → ℕ) → Outcome OpenFile
unfolding fetch_header
open_file fresh sector disk =
    fetch_header fresh sector disk >>= λ h. ok (record { hdr = h; seek_position = 0 })

-- The constructor of PersistentBitmap from a file, and its FetchFrom.
pub fetch_map : (ℕ → ℕ) → OpenFile → ℕ → (ℕ → ℕ) → Outcome Bitmap
fetch_map fresh file num_items disk = do
  b ← create num_items
  (n, into) ← read_at fresh file.hdr disk (ints_byte b.map) (b.num_words * 4) 0
  ok (record b { map = ints_at into b.num_words 0 })

pub store_map : (ℕ → ℕ) → OpenFile → Bitmap → (ℕ → ℕ) → Outcome (ℕ → ℕ)
store_map fresh file b disk = do
  (n, disk') ← write_at fresh file.hdr (ints_byte b.map) (b.num_words * 4) 0 disk
  ok disk'

-- A DirectoryEntry: inUse at 0, sector at 4, name at 8, 20 bytes with what fills it up.
abbrev pub entry_size : ℕ
entry_size = 20

unfoldable pub chars_at : (ℕ → ℕ) → ℕ → ℕ → List ℕ
chars_at buf zero a = []
chars_at buf (suc n) a = buf a ∷ chars_at buf n (a + 1)

abbrev pub directory_entry_at : (ℕ → ℕ) → ℕ → DirectoryEntry
directory_entry_at buf a = record {
  in_use = not (buf a == 0);
  sector = int_at buf (a + 4);
  name = chars_at buf (file_name_max_len + 1) (a + 8);
}

-- `fresh` gives the bytes that no member occupies.
unfoldable pub entry_byte : (ℕ → ℕ) → DirectoryEntry → ℕ → ℕ
entry_byte fresh e k =
    if k == 0
    then (if e.in_use then 1 else 0)
    else if leb 4 k && ltb k 8
    then int_byte e.sector (k - 4)
    else if leb 8 k && ltb k 18
    then get_or e.name (k - 8) 0
    else fresh k

unfoldable pub entries_at : (ℕ → ℕ) → ℕ → ℕ → List DirectoryEntry
entries_at buf zero a = []
entries_at buf (suc n) a = directory_entry_at buf a ∷ entries_at buf n (a + entry_size)

unfoldable pub entries_byte : (ℕ → ℕ) → List DirectoryEntry → ℕ → ℕ
unfolding entry_byte
entries_byte fresh [] a = fresh a
entries_byte fresh (e ∷ es) a =
    if ltb a entry_size then entry_byte fresh e a else entries_byte fresh es (a - entry_size)

-- The constructor: only inUse is set.
abbrev pub new_directory : (ℕ → ℕ) → ℕ → Directory
new_directory fresh size =
    let blank : DirectoryEntry = record {
      in_use = false;
      sector = int_at fresh 4;
      name = chars_at fresh (file_name_max_len + 1) 8;
    } in
    record { table = replicate size blank }

pub fetch_directory : (ℕ → ℕ) → OpenFile → Directory → (ℕ → ℕ) → Outcome Directory
fetch_directory fresh file d disk = do
  (n, into) ←
      read_at fresh file.hdr disk (entries_byte fresh d.table) (length d.table * entry_size) 0
  ok (record { table = entries_at into (length d.table) 0 })

pub store_directory : (ℕ → ℕ) → OpenFile → Directory → (ℕ → ℕ) → Outcome (ℕ → ℕ)
store_directory fresh file d disk = do
  (n, disk') ←
      write_at fresh file.hdr (entries_byte fresh d.table) (length d.table * entry_size) 0 disk
  ok disk'
