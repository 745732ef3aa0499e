-- ===== src/Filesys/FileSystem/NewHeader.antt =====
-- The header of a new file, on the way from Allocate to the disk and back.
use cs107_nach_os.Common.{
  ℕ, zero, suc, ◌+◌, ◌*◌, ◌^◌, ◌<◌, ◌≤◌, ◌≡◌, refl, sym, ◌∙◌, ap, true, false, ◌||◌, ◌∷◌, length,
  arith, All, ok,
}
use cs107_nach_os.Bitmap.{Bitmap, IsValid, bit, div_round_up}
use cs107_nach_os.Bitmap.Search.{count_clear}
use cs107_nach_os.Filesys.Header.{FileHeader, allocate}
use cs107_nach_os.Filesys.Header.Allocation.{owns, allocate_room}
use cs107_nach_os.Filesys.OpenFile.Blocks.{IsStored, block}
use cs107_nach_os.Filesys.Layout.{header_at, header_byte}
use cs107_nach_os.Filesys.Layout.Headers.{IsHeader}
use cs107_nach_os.Filesys.Layout.{ints_at, int_at, open_file, fetch_header}
use cs107_nach_os.Filesys.Layout.Headers.{
  fetch_header_lem, header_at-header_byte, header_at-AreSame,
}
use cs107_nach_os.Filesys.Layout.Objects.{All-get_or}
use cs107_nach_os.Filesys.FileSystem.Fresh.{AreFresh-IsStored, AreFresh-block, owns_block}

-- The bytes of memory are bytes.
abbrev pub AreBytes : (ℕ → ℕ) → Type 0
AreBytes fresh = (k : ℕ) → fresh k < 256

ints_at-small :
    (fresh : ℕ → ℕ)
    → AreBytes fresh
    → (n a : ℕ) → (length (ints_at fresh n a) ≡ n) × All (λ w. w < 2 ^ 32) (ints_at fresh n a)
unfolding ints_at int_at
ints_at-small fresh w zero a = (refl, tt)
ints_at-small fresh w (suc n) a =
    let (l, rest) = ints_at-small fresh w n (a + 4) in
    (ap suc l, (omega (arith, w a, w (a + 1), w (a + 2), w (a + 3)), rest))

round_up_le : (n : ℕ) → n ≤ div_round_up n 128 * 128
unfolding div_round_up
round_up_le n = ground arith

-- A header whose sector has its bytes is fetched, and the file is opened.
pub fetch_stored :
    (fresh : ℕ → ℕ) (h : FileHeader) (s : ℕ) (disk : ℕ → ℕ)
    → s < 1024
    → IsHeader h
    → ((r : ℕ) → r < 128 → disk (s * 128 + r) ≡ header_byte h r)
    → fetch_header fresh s disk ≡ ok h
fetch_stored fresh h s disk l w bytes =
    let same =
      header_at-AreSame (λ k. disk (s * 128 + k)) (header_byte h)
        (λ k m. bytes (0 + k) (omega (arith, m))) in
    fetch_header_lem fresh s disk l ∙ ap ok (same ∙ header_at-header_byte h w)

pub open_fetched :
    (fresh : ℕ → ℕ) (h : FileHeader) (s : ℕ) (disk : ℕ → ℕ)
    → fetch_header fresh s disk ≡ ok h
    → open_file fresh s disk ≡ ok (record { hdr = h; seek_position = 0 })
unfolding open_file
open_fetched fresh h s disk e = rw e refl

-- Two disks with the same sector.
pub fetch_same :
    (fresh disk disk' : ℕ → ℕ) (s : ℕ)
    → s < 1024
    → ((r : ℕ) → r < 128 → disk' (s * 128 + r) ≡ disk (s * 128 + r))
    → fetch_header fresh s disk' ≡ fetch_header fresh s disk
fetch_same fresh disk disk' s l bytes =
    fetch_header_lem fresh s disk' l
    ∙ ap ok (
        header_at-AreSame (λ k. disk' (s * 128 + k)) (λ k. disk (s * 128 + k))
          (λ k m. bytes (0 + k) (omega (arith, m))))
    ∙ sym (fetch_header_lem fresh s disk l)

pub open_same :
    (fresh disk disk' : ℕ → ℕ) (s : ℕ)
    → s < 1024
    → ((r : ℕ) → r < 128 → disk' (s * 128 + r) ≡ disk (s * 128 + r))
    → open_file fresh s disk' ≡ open_file fresh s disk
unfolding open_file
open_same fresh disk disk' s l bytes = rw (fetch_same fresh disk disk' s l bytes) refl

-- A new header of so many bytes over map b, and the map behind it.
pub record IsNew (b : Bitmap) (size : ℕ) (h : FileHeader) (b' : Bitmap) : Type 0 where
  pub is_header : IsHeader h
  pub stored : IsStored h
  pub bytes : h.num_bytes ≡ size
  pub sectors : h.num_sectors ≡ div_round_up size 128
  pub valid : IsValid b'
  pub same_size : b'.num_bits ≡ b.num_bits
  pub bits : (j : ℕ) → bit b' j ≡ owns h h.num_sectors 0 j || bit b j
  pub room : count_clear (bit b') 1024 + div_round_up size 128 ≡ count_clear (bit b) 1024
  pub all_clear : (q : ℕ) → q < h.num_sectors → bit b (block h q) ≡ false
  pub set_now : (q : ℕ) → q < h.num_sectors → bit b' (block h q) ≡ true

pub allocate-IsNew :
    (fresh : ℕ → ℕ) (b : Bitmap) (size : ℕ)
    → AreBytes fresh
    → IsValid b
    → b.num_bits ≡ 1024
    → div_round_up size 128 ≤ 30
    → div_round_up size 128 ≤ count_clear (bit b) 1024
    → (h : FileHeader) × (b' : Bitmap) × (allocate (header_at fresh) b size ≡ ok (true, h, b'))
      × IsNew b size h b'
allocate-IsNew fresh b size w v num fits room =
    let blank_ints = (ints_at-small fresh w 30 8).1 in
    let table : length ((header_at fresh).data_sectors) ≡ 30 = (ints_at-small fresh w 30 8).0 in
    let (h, b', run, bytes, sectors, same_length, done, ints) =
      allocate_room (header_at fresh) b v size (omega (arith, ap (count_clear (bit b)) num, room))
        (omega (arith, table, fits)) in
    let within : (q : ℕ) → q < h.num_sectors → q < 0 + div_round_up size 128 =
      λ q l. omega (arith, l, sectors) in
    let facts = λ (q : ℕ) (l : q < h.num_sectors).
      AreFresh-block h (bit b) b.num_bits (div_round_up size 128) 0 q done.fresh (omega arith)
        (within q l) in
    let bits : (j : ℕ) → bit b' j ≡ owns h h.num_sectors 0 j || bit b j =
      λ j. done.bits j ∙ ap (λ (n : ℕ). owns h n 0 j || bit b j) (sym sectors) in
    (
      h,
      b',
      run,
      record {
        is_header = (
          same_length ∙ table,
          All-get_or (h.num_bytes ∷ h.num_sectors ∷ h.data_sectors) (
            omega (arith, bytes, fits, round_up_le size),
            (omega (arith, sectors, fits), ints (omega (arith, num)) blank_ints),
          ),
        );
        stored =
            AreFresh-IsStored h (bit b) b.num_bits (div_round_up size 128) done.fresh
              (omega (arith, num)) fits sectors (same_length ∙ table)
              (omega (arith, bytes, round_up_le size));
        bytes = bytes;
        sectors = sectors;
        valid = done.valid;
        same_size = done.same_size;
        bits = bits;
        room =
            ap (λ (n : ℕ). count_clear (bit b') n + div_round_up size 128) (sym num)
            ∙ done.room
            ∙ ap (count_clear (bit b)) num;
        all_clear = λ q l. (facts q l).2;
        set_now = λ q l.
            let mine =
              owns_block h (bit b) b.num_bits h.num_sectors 0 q (block h q) (omega arith)
                (omega (arith, l)) (facts q l).0 in
            bits (block h q) ∙ rw mine refl;
      },
    )
