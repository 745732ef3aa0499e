-- ===== src/Filesys/Header.antt =====
-- NachOS-4.0/code/filesys/filehdr.{h,cc}: the file header, over the bitmap of free sectors.
pub mod Allocation
use cs107_nach_os.Common.{
  ℕ, zero, suc, ◌+◌, ◌-◌, ◌*◌, ◌/◌, Bool, true, false, Option, none, some, List, Outcome, ok,
  aborted, ◌>>=◌, ◌>>◌, assert, ltb, if◌then◌else◌, get_elem?, set, length,
}
use cs107_nach_os.Bitmap.{Bitmap, div_round_up, find_and_set, num_clear, test, clear}

-- machine/disk.h
abbrev pub sector_size : ℕ
sector_size = 128

abbrev pub num_direct : ℕ
num_direct = (sector_size - 2 * 4) / 4

-- `data_sectors` has num_direct elements.
pub record FileHeader : Type 0 where
  pub num_bytes : ℕ
  pub num_sectors : ℕ
  pub data_sectors : List ℕ

-- An access outside of dataSectors is a fault.
pub set_sector : FileHeader → ℕ → ℕ → Outcome FileHeader
set_sector h i s =
    if ltb i (length h.data_sectors)
    then ok (record h { data_sectors = set h.data_sectors i s })
    else aborted

abbrev pub sector_at : FileHeader → ℕ → Outcome ℕ
sector_at h i = elim (get_elem? h.data_sectors i) [ none ↦ aborted | some s ↦ ok s ]

-- The loop of Allocate from block i on, with n blocks left.
pub allocate_from : ℕ → ℕ → FileHeader → Bitmap → Outcome (FileHeader × Bitmap)
unfolding set_sector
allocate_from zero i h b = ok (h, b)
allocate_from (suc n) i h b = find_and_set b >>= λ (found, b'). elim found [
  | none ↦ aborted
  | some s ↦ set_sector h i s >>= λ h'. allocate_from n (i + 1) h' b'
]

-- The answer, the header and the map of free sectors.
pub allocate : FileHeader → Bitmap → ℕ → Outcome (Bool × FileHeader × Bitmap)
allocate h free_map file_size =
    let needed = div_round_up file_size sector_size in
    let h' = record h { num_bytes = file_size; num_sectors = needed } in
    num_clear free_map >>= λ free.
    if ltb free needed
    then ok (false, h', free_map)
    else (allocate_from needed 0 h' free_map >>= λ (h'', b). ok (true, h'', b))

pub deallocate_from : ℕ → ℕ → FileHeader → Bitmap → Outcome Bitmap
deallocate_from zero i h b = ok b
deallocate_from (suc n) i h b = do
  s ← sector_at h i
  marked ← test b s
  assert marked
  b' ← clear b s
  deallocate_from n (i + 1) h b'

unfoldable pub deallocate : FileHeader → Bitmap → Outcome Bitmap
deallocate h free_map = deallocate_from h.num_sectors 0 h free_map

unfoldable pub byte_to_sector : FileHeader → ℕ → Outcome ℕ
byte_to_sector h offset = sector_at h (offset / sector_size)

unfoldable pub file_length : FileHeader → ℕ
file_length h = h.num_bytes
