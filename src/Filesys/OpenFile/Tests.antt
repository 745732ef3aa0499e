-- ===== src/Filesys/OpenFile/Tests.antt =====
-- A file of 300 bytes in sectors 5, 9 and 7.
use cs107_nach_os.Common.{
  ℕ, zero, suc, ◌+◌, ◌-◌, ◌*◌, ◌<◌, ◌≡◌, ◌≢◌, refl, ◌&&◌, ◌∷◌, ok, leb, ltb, if◌then◌else◌,
  replicate, arith,
}
use cs107_nach_os.Filesys.Header.{FileHeader}
use cs107_nach_os.Filesys.OpenFile.{read_at, write_at}
use cs107_nach_os.Filesys.OpenFile.Blocks.{block, IsStored}
use cs107_nach_os.Filesys.OpenFile.ReadAt.{content, amount, read_at_lem}
use cs107_nach_os.Filesys.OpenFile.WriteAt.{write_at_lem, read_at-write_at}

abbrev file : FileHeader
file = record { num_bytes = 300; num_sectors = 3; data_sectors = 5 ∷ 9 ∷ 7 ∷ replicate 27 0 }

file_on_disk : (i : ℕ) → i < 3 → block file i < 1024
file_on_disk zero l = omega arith
file_on_disk (suc zero) l = omega arith
file_on_disk (suc (suc zero)) l = omega arith
file_on_disk (suc (suc (suc i))) l = absurd (omega (arith, l))

file_apart : (i j : ℕ) → i < 3 → j < 3 → block file i ≡ block file j → i ≡ j
file_apart zero zero l m e = refl
file_apart zero (suc zero) l m e = absurd (omega (arith, e))
file_apart zero (suc (suc zero)) l m e = absurd (omega (arith, e))
file_apart (suc zero) zero l m e = absurd (omega (arith, e))
file_apart (suc zero) (suc zero) l m e = refl
file_apart (suc zero) (suc (suc zero)) l m e = absurd (omega (arith, e))
file_apart (suc (suc zero)) zero l m e = absurd (omega (arith, e))
file_apart (suc (suc zero)) (suc zero) l m e = absurd (omega (arith, e))
file_apart (suc (suc zero)) (suc (suc zero)) l m e = refl
file_apart (suc (suc (suc i))) j l m e = absurd (omega (arith, l))
file_apart zero (suc (suc (suc j))) l m e = absurd (omega (arith, m))
file_apart (suc zero) (suc (suc (suc j))) l m e = absurd (omega (arith, m))
file_apart (suc (suc zero)) (suc (suc (suc j))) l m e = absurd (omega (arith, m))

file-IsStored : IsStored file
file-IsStored = record {
  room = omega arith;
  table = omega arith;
  short = omega arith;
  on_disk = file_on_disk;
  apart = file_apart;
}

abbrev zeros : ℕ → ℕ
zeros k = 0

-- Byte k of the disk.
abbrev numbered : ℕ → ℕ
numbered k = k

content_runs :
    (content file numbered 0 ≡ 640)
    × (content file numbered 130 ≡ 1154)
    × (amount file 100 250 ≡ 50)
content_runs = (refl, refl, refl)

read_at_lem_example :
    (into' : ℕ → ℕ) × (read_at zeros file numbered zeros 100 250 ≡ ok (amount file 100 250, into'))
    × ((k : ℕ)
        → into' k
          ≡ (if ltb k (amount file 100 250) then content file numbered (250 + k) else zeros k))
read_at_lem_example = read_at_lem file file-IsStored zeros numbered zeros 100 250 (omega arith)

write_at_lem_example :
    (disk' : ℕ → ℕ) × (write_at zeros file zeros 100 120 numbered ≡ ok (amount file 100 120, disk'))
    × ((x : ℕ)
        → x < file.num_bytes
        → content file disk' x ≡ (
            if leb 120 x && ltb x (120 + amount file 100 120)
            then zeros (x - 120)
            else content file numbered x))
    × ((s r : ℕ)
        → r < 128
        → ((q : ℕ) → q < file.num_sectors → block file q ≢ s)
        → disk' (s * 128 + r) ≡ numbered (s * 128 + r))
write_at_lem_example = write_at_lem file file-IsStored zeros numbered zeros 100 120 (omega arith)

read_at-write_at_example :
    (disk' into' : ℕ → ℕ) × (write_at zeros file numbered 20 120 zeros ≡ ok (20, disk'))
    × (read_at zeros file disk' zeros 20 120 ≡ ok (20, into'))
    × ((k : ℕ) → k < 20 → into' k ≡ numbered k)
read_at-write_at_example =
    read_at-write_at file file-IsStored zeros zeros numbered zeros 20 120 (omega arith)
