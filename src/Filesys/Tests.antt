-- ===== src/Filesys/Tests.antt =====
-- A map of 40 sectors with two in use, and a blank header.
use cs107_nach_os.Common.{◌≡◌, refl, true, [], ◌∷◌, arith, ok, aborted, length, replicate}
use cs107_nach_os.Bitmap.{Bitmap, IsValid, bit, div_round_up, test_word}
use cs107_nach_os.Bitmap.Search.{count_clear}
use cs107_nach_os.Filesys.Header.{FileHeader, allocate}
use cs107_nach_os.Filesys.Header.Allocation.{IsAllocated, allocate-IsAllocated, allocate_overrun}

abbrev free_map : Bitmap
free_map = record { num_bits = 40; num_words = 2; map = 5 ∷ 0 ∷ [] }

free_map-IsValid : IsValid free_map
unfolding div_round_up
free_map-IsValid = record { words = refl; stored = refl; small = omega arith }

free_map_room : count_clear (bit free_map) 40 ≡ 38
unfolding count_clear bit test_word
free_map_room = refl

blank_header : FileHeader
blank_header = record { num_bytes = 0; num_sectors = 0; data_sectors = replicate 30 0 }

blank_table : length blank_header.data_sectors ≡ 30
unfolding blank_header
blank_table = refl

blocks : (div_round_up 300 128 ≡ 3) × (div_round_up 4000 128 ≡ 32) × (div_round_up 6000 128 ≡ 47)
unfolding div_round_up
blocks = (refl, refl, refl)

allocate-IsAllocated_example :
    (h' : FileHeader) × (b' : Bitmap) × (allocate blank_header free_map 300 ≡ ok (true, h', b'))
    × (h'.num_bytes ≡ 300)
    × (h'.num_sectors ≡ div_round_up 300 128)
    × (length h'.data_sectors ≡ length blank_header.data_sectors)
    × IsAllocated free_map (div_round_up 300 128) 0 h' b'
allocate-IsAllocated_example =
    allocate-IsAllocated blank_header free_map free_map-IsValid 300
      (omega (arith, free_map_room, blocks.0)) (omega (arith, blank_table, blocks.0))

-- A file of 4000 bytes needs 32 blocks, and a header holds 30.
allocate_overrun_example : allocate blank_header free_map 4000 ≡ aborted
allocate_overrun_example =
    allocate_overrun blank_header free_map free_map-IsValid 4000
      (omega (arith, free_map_room, blocks.1)) (omega (arith, blank_table, blocks.1))
