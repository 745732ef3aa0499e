-- ===== src/Filesys/Latency.antt =====
-- The class Disk of NachOS-4.0/code/machine/disk.{h,cc} as a device: how long a request takes.
-- Times are ints, with their wrap-around, and stats->totalTicks is `now`; the number of a sector is
-- not negative.
pub mod Arrival
mod Tests
use cs107_nach_os.Common.{
  ℕ, ◌+◌, ◌-◌, ◌*◌, ◌/◌, ◌%◌, Bool, true, false, not, ◌&&◌, Outcome, ok, ◌>>=◌, ◌>>◌, assert, ltb,
  ◌==◌, if◌then◌else◌,
}
use cs107_nach_os.Common.Words.{add32, sub32, slt, div32, rem32}
use cs107_nach_os.Filesys.Disk.{num_disk_sectors, read_sector, write_sector}

abbrev pub sectors_per_track : ℕ
sectors_per_track = 32

-- machine/stats.h
abbrev pub rotation_time : ℕ
rotation_time = 500

abbrev pub seek_time : ℕ
seek_time = 500

pub record Disk : Type 0 where
  pub active : Bool
  pub last_sector : ℕ
  pub buffer_init : ℕ
  pub num_disk_reads : ℕ
  pub num_disk_writes : ℕ

abbrev pub distance : ℕ → ℕ → ℕ
distance a b = a - b + (b - a)

-- The time to the track, and from there to the next sector boundary.
unfoldable pub time_to_seek : ℕ → ℕ → Disk → ℕ × ℕ
time_to_seek now new_sector k =
    let seek =
      distance (new_sector / sectors_per_track) (k.last_sector / sectors_per_track) * seek_time in
    let over = rem32 (add32 now seek) rotation_time in
    (seek, if slt 0 over then rotation_time - over else 0)

-- `to` is the number of a sector, `from` an int.
unfoldable pub modulo_diff : ℕ → ℕ → ℕ
modulo_diff to from =
    sub32 (to % sectors_per_track + sectors_per_track) (rem32 from sectors_per_track)
    % sectors_per_track

-- Whether the track buffer has the sector.
unfoldable pub in_buffer : ℕ → ℕ → Disk → Bool
in_buffer time_after new_sector k =
    slt (modulo_diff new_sector (div32 k.buffer_init rotation_time))
      (div32 (sub32 time_after k.buffer_init) rotation_time)

unfoldable pub compute_latency : ℕ → ℕ → Bool → Disk → ℕ
unfolding time_to_seek in_buffer modulo_diff
compute_latency now new_sector writing k =
    let (seek, rotation) = time_to_seek now new_sector k in
    let time_after = add32 now (seek + rotation) in
    if not writing && (seek == 0) && in_buffer time_after new_sector k
    then rotation_time
    else seek
      + (rotation + modulo_diff new_sector (div32 time_after rotation_time) * rotation_time)
      + rotation_time

pub update_last : ℕ → ℕ → Disk → Disk
unfolding time_to_seek
update_last now new_sector k =
    let (seek, rotate) = time_to_seek now new_sector k in
    record k {
      buffer_init = if seek == 0 then k.buffer_init else add32 now (seek + rotate);
      last_sector = new_sector;
    }

-- The assertions, the transfer, and what Schedule is told: the device, the buffer, the ticks.
pub read_request : ℕ → ℕ → (ℕ → ℕ) → (ℕ → ℕ) → Disk → Outcome (Disk × (ℕ → ℕ) × ℕ)
unfolding compute_latency update_last
read_request now sector_number disk buf k = do
  let ticks = compute_latency now sector_number false k
  assert (not k.active)
  buf' ← read_sector sector_number disk buf 0
  let k' = update_last now sector_number (record k { active = true })
  ok (record k' { num_disk_reads = add32 k'.num_disk_reads 1 }, buf', ticks)

-- The device, the bytes of the disk, the ticks.
pub write_request : ℕ → ℕ → (ℕ → ℕ) → (ℕ → ℕ) → Disk → Outcome (Disk × (ℕ → ℕ) × ℕ)
unfolding compute_latency update_last
write_request now sector_number buf disk k = do
  let ticks = compute_latency now sector_number true k
  assert (not k.active)
  disk' ← write_sector sector_number buf 0 disk
  let k' = update_last now sector_number (record k { active = true })
  ok (record k' { num_disk_writes = add32 k'.num_disk_writes 1 }, disk', ticks)

-- CallBack.
abbrev pub end_request : Disk → Disk
end_request k = record k { active = false }
