-- ===== src/Filesys/OpenFile.antt =====
-- The class OpenFile of NachOS-4.0/code/filesys/openfile.{h,cc}, without FILESYS_STUB: a file is
-- the bytes in the sectors that its header names.
pub mod Blocks
pub mod ReadAt
pub mod Edges
pub mod WriteAt
mod Tests
use cs107_nach_os.Common.{
  ℕ, zero, suc, ◌+◌, ◌-◌, ◌*◌, ◌/◌, Bool, not, ◌&&◌, ◌||◌, Outcome, ok, aborted, ◌>>=◌, ◌==◌, leb,
  ltb, if◌then◌else◌,
}
use cs107_nach_os.Common.Words.{add32, sub32, is_negative, slt}
use cs107_nach_os.Filesys.Header.{FileHeader, sector_size, byte_to_sector, file_length}
use cs107_nach_os.Filesys.Disk.{read_sector, write_sector}

-- The loop of ReadAt from block i on, with n blocks left.
pub read_blocks : ℕ → ℕ → ℕ → FileHeader → (ℕ → ℕ) → (ℕ → ℕ) → Outcome (ℕ → ℕ)
read_blocks zero i first_sector h disk buf = ok buf
read_blocks (suc n) i first_sector h disk buf = do
  s ← byte_to_sector h (i * sector_size)
  buf' ← read_sector s disk buf ((i - first_sector) * sector_size)
  read_blocks n (i + 1) first_sector h disk buf'

-- `numBytes <= 0 || position >= fileLength`
abbrev pub is_void : FileHeader → ℕ → ℕ → Bool
is_void h num_bytes position =
    is_negative num_bytes || (num_bytes == 0) || not (slt position (file_length h))

abbrev pub clip : FileHeader → ℕ → ℕ → ℕ
clip h num_bytes position =
    if slt (file_length h) (add32 position num_bytes)
    then sub32 (file_length h) position
    else num_bytes

abbrev pub last_sector : ℕ → ℕ → ℕ
last_sector num_bytes position = (position + num_bytes - 1) / sector_size

-- The first num_bytes of `into` come from `from`.
abbrev pub copy : ℕ → (ℕ → ℕ) → (ℕ → ℕ) → ℕ → ℕ
copy num_bytes from into k = if ltb k num_bytes then from k else into k

-- The number of bytes, and `into` behind it. `fresh` is what `new char[]` gives. A negative
-- position reaches before an array.
pub read_at : (ℕ → ℕ) → FileHeader → (ℕ → ℕ) → (ℕ → ℕ) → ℕ → ℕ → Outcome (ℕ × (ℕ → ℕ))
unfolding read_blocks
read_at fresh h disk into num_bytes position =
    if is_void h num_bytes position
    then ok (0, into)
    else if is_negative position
    then aborted
    else (let n = clip h num_bytes position in
        let first = position / sector_size in
        let last = last_sector n position in
        read_blocks (1 + last - first) first first h disk fresh >>= λ buf.
        ok (n, copy n (λ k. buf (position - first * sector_size + k)) into))

-- ReadAt into the buffer at an index.
pub read_part : (ℕ → ℕ) → FileHeader → (ℕ → ℕ) → (ℕ → ℕ) → ℕ → ℕ → ℕ → Outcome (ℕ → ℕ)
unfolding read_at
read_part fresh h disk buf start num_bytes position =
    read_at fresh h disk (λ k. buf (start + k)) num_bytes position >>= λ (n, into).
    ok (λ a. if leb start a then into (a - start) else buf a)

-- The loop of WriteAt.
pub write_blocks : ℕ → ℕ → ℕ → FileHeader → (ℕ → ℕ) → (ℕ → ℕ) → Outcome (ℕ → ℕ)
write_blocks zero i first_sector h buf disk = ok disk
write_blocks (suc n) i first_sector h buf disk = do
  s ← byte_to_sector h (i * sector_size)
  disk' ← write_sector s buf ((i - first_sector) * sector_size) disk
  write_blocks n (i + 1) first_sector h buf disk'

-- The first and the last sector, where they are written in part.
pub read_edges : (ℕ → ℕ) → FileHeader → (ℕ → ℕ) → ℕ → ℕ → Outcome (ℕ → ℕ)
unfolding read_part
read_edges fresh h disk n position =
    let first = position / sector_size in
    let last = last_sector n position in
    let first_aligned = position == first * sector_size in
    let last_aligned = position + n == (last + 1) * sector_size in
    (if not first_aligned
      then read_part fresh h disk fresh 0 sector_size (first * sector_size)
      else ok fresh)
    >>= λ buf.
        if not last_aligned && (not (first == last) || first_aligned)
        then read_part fresh h disk buf ((last - first) * sector_size) sector_size
            (last * sector_size)
        else ok buf

-- The number of bytes, and the disk behind it.
pub write_at : (ℕ → ℕ) → FileHeader → (ℕ → ℕ) → ℕ → ℕ → (ℕ → ℕ) → Outcome (ℕ × (ℕ → ℕ))
unfolding read_edges write_blocks
write_at fresh h from num_bytes position disk =
    if is_void h num_bytes position
    then ok (0, disk)
    else if is_negative position
    then aborted
    else (let n = clip h num_bytes position in
        let first = position / sector_size in
        let last = last_sector n position in
        let start = position - first * sector_size in
        read_edges fresh h disk n position >>= λ buf.
        write_blocks (1 + last - first) first first h
          (λ a. if leb start a && ltb a (start + n) then from (a - start) else buf a) disk
        >>= λ disk'. ok (n, disk'))

pub record OpenFile : Type 0 where
  pub hdr : FileHeader
  pub seek_position : ℕ

abbrev pub seek : OpenFile → ℕ → OpenFile
seek file position = record file { seek_position = position }

-- The number of bytes, the file and the buffer.
pub read : (ℕ → ℕ) → OpenFile → (ℕ → ℕ) → (ℕ → ℕ) → ℕ → Outcome (ℕ × OpenFile × (ℕ → ℕ))
unfolding read_at
read fresh file disk into num_bytes =
    read_at fresh file.hdr disk into num_bytes file.seek_position >>= λ (n, into').
    ok (n, record file { seek_position = add32 file.seek_position n }, into')

-- The number of bytes, the file and the disk.
pub write : (ℕ → ℕ) → OpenFile → (ℕ → ℕ) → ℕ → (ℕ → ℕ) → Outcome (ℕ × OpenFile × (ℕ → ℕ))
unfolding write_at
write fresh file into num_bytes disk =
    write_at fresh file.hdr into num_bytes file.seek_position disk >>= λ (n, disk').
    ok (n, record file { seek_position = add32 file.seek_position n }, disk')
