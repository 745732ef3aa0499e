-- ===== src/Filesys/OpenFile/WriteAt.antt =====
-- WriteAt changes a range of the file's bytes and no other byte of a file or of another sector.
use cs107_nach_os.Common.{
  ℕ, ◌+◌, ◌-◌, ◌*◌, ◌/◌, ◌%◌, ◌^◌, ◌≤◌, ◌<◌, ◌≡◌, refl, ◌∙◌, ap, ◌&&◌, ◌||◌, false, ok, ◌⊎◌, leb,
  ltb, if◌then◌else◌, arith, ◌==◌, ◌≢◌, inl, inr, Bool-cases,
}
use cs107_nach_os.Common.Words.{is_negative}
use cs107_nach_os.Filesys.Header.{FileHeader}
use cs107_nach_os.Filesys.OpenFile.{
  write_blocks, is_void, clip, last_sector, read_at, read_edges, write_at,
}
use cs107_nach_os.Filesys.OpenFile.Blocks.{block, IsStored, write_blocks-byte}
use cs107_nach_os.Filesys.OpenFile.ReadAt.{content, amount, read_at_lem, is_void_lem, clip_lem}
use cs107_nach_os.Filesys.OpenFile.Edges.{HasEdges, read_edges_lem}

module _ (h : FileHeader) (w : IsStored h) (fresh disk : ℕ → ℕ) where
  -- The buffer that is written back.
  abbrev merged : (ℕ → ℕ) → (ℕ → ℕ) → ℕ → ℕ → ℕ → ℕ
  merged from buf n p a =
      let start = p - p / 128 * 128 in
      if leb start a && ltb a (start + n) then from (a - start) else buf a

  write_at_step :
      (from buf disk' : ℕ → ℕ) (n p a : ℕ)
      → is_void h n p ≡ false
      → is_negative p ≡ false
      → clip h n p ≡ a
      → read_edges fresh h disk a p ≡ ok buf
      → write_blocks
          (1 + last_sector a p - p / 128)
          (p / 128)
          (p / 128)
          h
          (merged from buf a p)
          disk
        ≡ ok disk'
      → write_at fresh h from n p disk ≡ ok (a, disk')
  unfolding write_at
  write_at_step from buf disk' n p a e f g r t = rw (e, f, g, r, t) refl

  -- Byte x of the file, where the range is n bytes at p.
  written_byte :
      (from buf : ℕ → ℕ) (n p x b : ℕ)
      → 0 < n
      → HasEdges h w fresh disk n p buf
      → x < h.num_bytes
      → b ≡ (
          if leb (p / 128) (x / 128) && ltb (x / 128) (p / 128 + (1 + last_sector n p - p / 128))
          then merged from buf n p ((x / 128 - p / 128) * 128 + x % 128)
          else content h disk x)
      → b ≡ (if leb p x && ltb x (p + n) then from (x - p) else content h disk x)
  written_byte from buf n p x b l edges m e = elim (Bool-cases (leb p x && ltb x (p + n))) [
    | inl f ↦
        let at : (x / 128 - p / 128) * 128 + x % 128 - (p - p / 128 * 128) ≡ x - p =
          ground (arith, f) in
        ground (arith, e, f, l, ap from at)
    | inr f ↦
        elim (Bool-cases
          (leb (p / 128) (x / 128) && ltb (x / 128) (p / 128 + (1 + last_sector n p - p / 128)))) [
            | inl g ↦
                let a = (x / 128 - p / 128) * 128 + x % 128 in
                let at : p / 128 * 128 + a ≡ x = ground (arith, g) in
                let side : (a < p - p / 128 * 128) ⊎ (p - p / 128 * 128 + n ≤ a) =
                  elim (Bool-cases (leb p x)) [
                    | inl t ↦ inr (ground (arith, t, f, g))
                    | inr t ↦ inl (ground (arith, t, g))
                  ] in
                let out : (leb (p - p / 128 * 128) a && ltb a (p - p / 128 * 128 + n)) ≡ false =
                  ground (arith, f, at) in
                let kept : buf a ≡ content h disk (p / 128 * 128 + a) =
                  edges a side (ground (arith, g, l)) (omega (arith, at, m)) in
                e ∙ rw (g, out, f) (kept ∙ ap (content h disk) at)
            | inr g ↦ ground (arith, e, f, g)
          ]
  ]

  -- WriteAt on a file whose header names different sectors of the disk, with room for its bytes, at
  -- a position and for a number of bytes whose sum fits an int, succeeds and returns how many of
  -- the bytes lie in the file; exactly those bytes of the file have changed, to what was written,
  -- also where sectors are written in part, and no sector outside of the file has changed.
  pub write_at_lem :
      (from : ℕ → ℕ) (n p : ℕ)
      → p + n < 2 ^ 31
      → (disk' : ℕ → ℕ) × (write_at fresh h from n p disk ≡ ok (amount h n p, disk'))
        × ((x : ℕ)
            → x < h.num_bytes
            → content h disk' x
              ≡ (if leb p x && ltb x (p + amount h n p) then from (x - p) else content h disk x))
        × ((s r : ℕ)
            → r < 128
            → ((q : ℕ) → q < h.num_sectors → block h q ≢ s)
            → disk' (s * 128 + r) ≡ disk (s * 128 + r))
  unfolding write_at
  write_at_lem from n p l = elim (Bool-cases ((n == 0) || leb h.num_bytes p)) [
    | inl e ↦
        let none : amount h n p ≡ 0 = ground (arith, e) in
        (
          disk,
          rw (is_void_lem h w n p l, e, none) refl,
          λ x m. ground (arith, none),
          λ s r b c. refl,
        )
    | inr e ↦
        let some : 0 < amount h n p = ground (arith, e) in
        let inside : p < h.num_bytes = ground (arith, e) in
        let within : p + amount h n p ≤ h.num_bytes = ground (arith, e) in
        let a = amount h n p in
        let (buf, run, edges) = read_edges_lem h w fresh disk a p some within in
        let (disk', run', bytes, others) =
          write_blocks-byte h w (1 + last_sector a p - p / 128) (p / 128) (p / 128)
            (merged from buf a p) disk (omega arith) (omega (arith, w.room, within, some)) in
        (
          disk',
          write_at_step from buf disk' n p a (is_void_lem h w n p l ∙ e) (ground (arith, l))
              (clip_lem h w n p l inside) run run',
          λ x m.
              written_byte from buf a p x (content h disk' x) some edges m
                (bytes (x / 128) (x % 128) (omega arith) (omega (arith, m, w.room))),
          others,
        )
  ]

-- On a file whose header names different sectors of the disk, with room for its bytes, bytes that
-- are written at a position inside of the file are read back from there, all of them.
pub read_at-write_at :
    (h : FileHeader)
    → IsStored h
    → (fresh disk from into : ℕ → ℕ) (n p : ℕ) → p + n ≤ h.num_bytes
    → (disk' into' : ℕ → ℕ) × (write_at fresh h from n p disk ≡ ok (n, disk'))
      × (read_at fresh h disk' into n p ≡ ok (n, into'))
      × ((k : ℕ) → k < n → into' k ≡ from k)
read_at-write_at h w fresh disk from into n p l =
    let short : p + n < 2 ^ 31 = omega (arith, l, w.room, w.short) in
    let all : amount h n p ≡ n = ground (arith, l) in
    let (disk', run, bytes, others) = write_at_lem h w fresh disk from n p short in
    let (into', run', bytes') = read_at_lem h w fresh disk' into n p short in
    (
      disk',
      into',
      run ∙ ap (λ (a : ℕ). ok (a, disk')) all,
      run' ∙ ap (λ (a : ℕ). ok (a, into')) all,
      λ k m.
          let at : p + k - p ≡ k = omega arith in
          ground (arith, bytes (p + k) (omega (arith, m, l)), bytes' k, all, m, ap from at),
    )
