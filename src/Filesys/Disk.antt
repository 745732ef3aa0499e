-- ===== src/Filesys/Disk.antt =====
-- NachOS-4.0/code/machine/disk.{h,cc} and NachOS-4.0/code/filesys/synchdisk.cc: the bytes of the
-- disk, in the order of its sectors, and the transfer of one sector. A buffer is a function from
-- indices to bytes.
use cs107_nach_os.Common.{
  ℕ, ◌+◌, ◌-◌, ◌*◌, ◌&&◌, Outcome, ok, ◌>>◌, assert, ltb, leb, if◌then◌else◌,
}
use cs107_nach_os.Filesys.Header.{sector_size}

abbrev pub num_disk_sectors : ℕ
num_disk_sectors = 32 * 32

-- A sector at `start`.
abbrev pub put_bytes : (ℕ → ℕ) → ℕ → (ℕ → ℕ) → ℕ → ℕ
put_bytes f start g a = if leb start a && ltb a (start + sector_size) then g (a - start) else f a

-- Into the buffer at index `start`.
abbrev pub read_sector : ℕ → (ℕ → ℕ) → (ℕ → ℕ) → ℕ → Outcome (ℕ → ℕ)
read_sector s disk buf start =
    assert (ltb s num_disk_sectors) >> ok (put_bytes buf start (λ k. disk (s * sector_size + k)))

-- From the buffer at index `start`; the disk that results.
abbrev pub write_sector : ℕ → (ℕ → ℕ) → ℕ → (ℕ → ℕ) → Outcome (ℕ → ℕ)
write_sector s buf start disk =
    assert (ltb s num_disk_sectors) >> ok (put_bytes disk (s * sector_size) (λ k. buf (start + k)))
