-- ===== src/Filesys/Latency/Arrival.antt =====
-- A request ends when the sector has passed under the head.
use cs107_nach_os.Common.{ℕ, ◌+◌, ◌/◌, ◌%◌, ◌≡◌}

-- The disk turns by one sector in 500 ticks, from sector to sector of a track.
abbrev pub HasPassed : ℕ → ℕ → Type 0
HasPassed time sector = (time % 500 ≡ 0) × (time / 500 % 32 ≡ (sector + 1) % 32)
