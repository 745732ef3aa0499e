-- ===== src/Filesys/OpenFile/Blocks.antt =====
-- The bytes of a file, and the loops over its blocks.
use cs107_nach_os.Common.{
  ℕ, zero, suc, ◌+◌, ◌-◌, ◌*◌, ◌/◌, ◌≤◌, ◌<◌, ◌≡◌, refl, ap, ◌&&◌, Bool, true, false, some, List,
  ok, leb, ltb, if◌then◌else◌, arith, ◌==◌, ◌≢◌, inl, inr, Bool-cases, get_or, get_elem?, length,
  [], ◌∷◌,
}
use cs107_nach_os.Filesys.Header.{FileHeader, sector_at, byte_to_sector}
use cs107_nach_os.Filesys.Disk.{put_bytes}
use cs107_nach_os.Filesys.OpenFile.{read_blocks, write_blocks}

-- The sector of a block.
abbrev pub block : FileHeader → ℕ → ℕ
block h i = get_or h.data_sectors i 0

-- A header whose blocks are different sectors of the disk, with room for its bytes.
pub record IsStored (h : FileHeader) : Type 0 where
  pub room : h.num_bytes ≤ h.num_sectors * 128
  pub table : h.num_sectors ≤ length h.data_sectors
  pub short : h.num_sectors ≤ 30
  pub on_disk : (i : ℕ) → i < h.num_sectors → block h i < 1024
  pub apart : (i j : ℕ) → i < h.num_sectors → j < h.num_sectors → block h i ≡ block h j → i ≡ j

-- Byte r of block q.
abbrev pub byte : FileHeader → (ℕ → ℕ) → ℕ → ℕ → ℕ
byte h disk q r = disk (block h q * 128 + r)

pub get_elem?-get_or : (xs : List ℕ) (i : ℕ) → i < length xs → get_elem? xs i ≡ some (get_or xs i 0)
get_elem?-get_or [] i l = absurd (omega (arith, l))
get_elem?-get_or (x ∷ xs) zero l = refl
get_elem?-get_or (x ∷ xs) (suc i) l = get_elem?-get_or xs i (omega (arith, l))

-- A sector that was placed, seen from a byte of sector t.
pub put_bytes-sector :
    (f : ℕ → ℕ) (s t r : ℕ) (g : ℕ → ℕ)
    → r < 128
    → put_bytes f (s * 128) g (t * 128 + r) ≡ (if s == t then g r else f (t * 128 + r))
put_bytes-sector f s t r g l = elim (Bool-cases (s == t)) [
  | inl e ↦
      let same : s ≡ t = ground arith in
      let back : t * 128 + r - s * 128 ≡ r = omega (arith, same) in
      ground (arith, same, l, ap g back)
  | inr e ↦ ground (arith, e, l)
]

module _ (h : FileHeader) (w : IsStored h) where
  byte_to_sector-block : (i : ℕ) → i < h.num_sectors → byte_to_sector h (i * 128) ≡ ok (block h i)
  unfolding byte_to_sector
  byte_to_sector-block i l =
      let here : i * 128 / 128 ≡ i = omega arith in
      rw (here, sector_at, get_elem?-get_or h.data_sectors i (omega (arith, l, w.table))) refl

  -- Whether a block is among the n blocks from i on.
  abbrev is_among : ℕ → ℕ → ℕ → Bool
  is_among n i q = leb i q && ltb q (i + n)

  pub read_blocks-byte :
      (n i first_sector : ℕ) (disk buf : ℕ → ℕ)
      → first_sector ≤ i
      → i + n ≤ h.num_sectors
      → (buf' : ℕ → ℕ) × (read_blocks n i first_sector h disk buf ≡ ok buf')
        × ((q r : ℕ)
            → r < 128
            → first_sector ≤ q
            → buf' ((q - first_sector) * 128 + r)
              ≡ (if is_among n i q then byte h disk q r else buf ((q - first_sector) * 128 + r)))
  unfolding read_blocks
  read_blocks-byte zero i first disk buf l m = (buf, refl, λ q r b c. ground arith)
  read_blocks-byte (suc n) i first disk buf l m =
      let ok_sector : ltb (block h i) 1024 ≡ true =
        ground (arith, w.on_disk i (omega (arith, m))) in
      let buf1 = put_bytes buf ((i - first) * 128) (λ k. disk (block h i * 128 + k)) in
      let (buf', run, bytes) =
        read_blocks-byte n (i + 1) first disk buf1 (omega (arith, l)) (omega (arith, m)) in
      (
        buf',
        rw (byte_to_sector-block i (omega (arith, m)), ok_sector) run,
        λ q r b c.
            let here =
              put_bytes-sector buf (i - first) (q - first) r (λ k. disk (block h i * 128 + k)) b in
            ground (arith, bytes q r b c, here, l, c),
      )

  write_step :
      (i q r n first : ℕ) (buf disk disk' : ℕ → ℕ)
      → disk' (block h q * 128 + r) ≡ (
          if is_among n (i + 1) q
          then buf ((q - first) * 128 + r)
          else put_bytes disk
              (block h i * 128)
              (λ k. buf ((i - first) * 128 + k))
              (block h q * 128 + r))
      → put_bytes disk (block h i * 128) (λ k. buf ((i - first) * 128 + k)) (block h q * 128 + r)
        ≡ (if block h i == block h q then buf ((i - first) * 128 + r) else byte h disk q r)
      → first ≤ i
      → (block h i ≡ block h q → i ≡ q)
      → disk' (block h q * 128 + r)
        ≡ (if is_among (suc n) i q then buf ((q - first) * 128 + r) else byte h disk q r)
  write_step i q r n first buf disk disk' last here l same = elim (Bool-cases (i == q)) [
    | inl e ↦
        let eq : i ≡ q = ground arith in
        let on : (block h i == block h q) ≡ true = ground (arith, ap (block h) eq) in
        ground (arith, last, here, on, eq, l, ap (λ (x : ℕ). buf ((x - first) * 128 + r)) eq)
    | inr e ↦
        let off : (block h i == block h q) ≡ false = ground (arith, same, e) in
        ground (arith, last, here, off, e)
  ]

  pub write_blocks-byte :
      (n i first_sector : ℕ) (buf disk : ℕ → ℕ)
      → first_sector ≤ i
      → i + n ≤ h.num_sectors
      → (disk' : ℕ → ℕ) × (write_blocks n i first_sector h buf disk ≡ ok disk')
        × ((q r : ℕ)
            → r < 128
            → q < h.num_sectors
            → byte h disk' q r
              ≡ (if is_among n i q then buf ((q - first_sector) * 128 + r) else byte h disk q r))
        × ((s r : ℕ)
            → r < 128
            → ((q : ℕ) → q < h.num_sectors → block h q ≢ s)
            → disk' (s * 128 + r) ≡ disk (s * 128 + r))
  unfolding write_blocks
  write_blocks-byte zero i first buf disk l m =
      (disk, refl, λ q r b c. ground arith, λ s r b c. refl)
  write_blocks-byte (suc n) i first buf disk l m =
      let ok_sector : ltb (block h i) 1024 ≡ true =
        ground (arith, w.on_disk i (omega (arith, m))) in
      let source : ℕ → ℕ = λ k. buf ((i - first) * 128 + k) in
      let disk1 = put_bytes disk (block h i * 128) source in
      let (disk', run, bytes, others) =
        write_blocks-byte n (i + 1) first buf disk1 (omega (arith, l)) (omega (arith, m)) in
      (
        disk',
        rw (byte_to_sector-block i (omega (arith, m)), ok_sector) run,
        λ q r b c.
            let here = put_bytes-sector disk (block h i) (block h q) r source b in
            write_step i q r n first buf disk disk' (bytes q r b c) here l
              (w.apart i q (omega (arith, m)) c),
        λ s r b c.
            let here = put_bytes-sector disk (block h i) s r source b in
            ground (arith, others s r b c, here, c i (omega (arith, m))),
      )
