-- ===== src/AddrSpace/Load/Tests.antt =====
-- A program of 40 bytes of code and 20 bytes of data, in a file of one sector.
use cs107_nach_os.Common.{
  ℕ, zero, suc, ◌-◌, ◌<◌, ◌≡◌, refl, true, List, [], ◌∷◌, ok, get_or, replicate, arith, ltb,
  if◌then◌else◌,
}
use cs107_nach_os.Bitmap.{div_round_up}
use cs107_nach_os.AddrSpace.{AddrSpace}
use cs107_nach_os.Filesys.Header.{FileHeader}
use cs107_nach_os.Filesys.OpenFile.Blocks.{IsStored, block}
use cs107_nach_os.Filesys.OpenFile.ReadAt.{content}
use cs107_nach_os.Filesys.Layout.{int_at}
use cs107_nach_os.AddrSpace.Load.{noff_at, pages_of, load_file}
use cs107_nach_os.AddrSpace.Load.Placed.{IsProgram, loaded, load_file_lem}

abbrev program : FileHeader
program = record { num_bytes = 128; num_sectors = 1; data_sectors = 5 ∷ replicate 29 0 }

program_on_disk : (i : ℕ) → i < 1 → block program i < 1024
program_on_disk zero l = omega arith
program_on_disk (suc i) l = absurd (omega (arith, l))

program-IsStored : IsStored program
program-IsStored = record {
  room = omega arith;
  table = omega arith;
  short = omega arith;
  on_disk = program_on_disk;
  apart = λ i j l m e. omega (arith, l, m);
}

-- The magic number, and address, place in the file and size of the segments.
abbrev image : List ℕ
image =
    0xad ∷ 0xdf ∷ 0xba ∷ 0 ∷ 0 ∷ 0 ∷ 0 ∷ 0 ∷ 52 ∷ 0 ∷ 0 ∷ 0 ∷ 40 ∷ 0 ∷ 0 ∷ 0 ∷ 0 ∷ 1 ∷ 0 ∷ 0 ∷ 92
    ∷ 0 ∷ 0 ∷ 0 ∷ 20 ∷ []

-- Sector 5 begins with the image, and every other byte is 0 up to the code.
abbrev disk : ℕ → ℕ
disk k = if ltb k 692 then get_or image (k - 640) 0 else 7

abbrev zeros : ℕ → ℕ
zeros k = 0

abbrev space : AddrSpace
space = record { page_table = []; num_pages = 0 }

nine_pages : pages_of (noff_at (content program disk)) ≡ 9
unfolding int_at div_round_up
nine_pages = refl

program-IsProgram : IsProgram program (noff_at (content program disk))
unfolding int_at
program-IsProgram = record {
  magic = refl;
  pages = omega (arith, nine_pages);
  code_fits = (omega arith, omega arith);
  init_fits = (omega arith, omega arith);
  readonly_fits = (omega arith, omega arith);
}

placed_runs :
    (loaded program disk (noff_at (content program disk)) zeros 39 ≡ 7)
    × (loaded program disk (noff_at (content program disk)) zeros 40 ≡ 0)
    × (loaded program disk (noff_at (content program disk)) zeros 256 ≡ 7)
unfolding int_at
placed_runs = (refl, refl, refl)

load_file_lem_example :
    (memory' : ℕ → ℕ) × (load_file zeros
        (record { hdr = program; seek_position = 0 })
        disk
        space
        zeros
      ≡ ok (true, memory', record space { num_pages = pages_of (noff_at (content program disk)) }))
    × ((a : ℕ) → memory' a ≡ loaded program disk (noff_at (content program disk)) zeros a)
load_file_lem_example =
    load_file_lem zeros program program-IsStored disk space zeros (omega arith) program-IsProgram
