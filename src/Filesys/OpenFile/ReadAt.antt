-- ===== src/Filesys/OpenFile/ReadAt.antt =====
-- ReadAt gives a range of the file's bytes.
use cs107_nach_os.Common.{
  ℕ, ◌+◌, ◌-◌, ◌*◌, ◌/◌, ◌%◌, ◌^◌, ◌≤◌, ◌<◌, ◌≡◌, refl, ◌∙◌, ap, ◌&&◌, ◌||◌, false, ok, leb, ltb,
  if◌then◌else◌, arith, ◌==◌, inl, inr, Bool-cases,
}
use cs107_nach_os.Common.Words.{is_negative}
use cs107_nach_os.Filesys.Header.{FileHeader, file_length}
use cs107_nach_os.Filesys.OpenFile.{
  read_blocks, is_void, clip, last_sector, copy, read_at, read_part,
}
use cs107_nach_os.Filesys.OpenFile.Blocks.{byte, IsStored, read_blocks-byte}

-- The byte at position p of the file.
abbrev pub content : FileHeader → (ℕ → ℕ) → ℕ → ℕ
content h disk p = byte h disk (p / 128) (p % 128)

-- How many of the bytes asked for are in the file.
abbrev pub amount : FileHeader → ℕ → ℕ → ℕ
amount h num_bytes position =
    if leb (position + num_bytes) h.num_bytes then num_bytes else h.num_bytes - position

module _ (h : FileHeader) (w : IsStored h) where
  pub is_void_lem : (n p : ℕ) → p + n < 2 ^ 31 → is_void h n p ≡ ((n == 0) || leb h.num_bytes p)
  unfolding file_length
  is_void_lem n p l = ground (arith, l, w.room, w.short)

  pub clip_lem : (n p : ℕ) → p + n < 2 ^ 31 → p < h.num_bytes → clip h n p ≡ amount h n p
  unfolding file_length
  clip_lem n p l m = ground (arith, l, m, w.room, w.short)

  module _ (fresh disk : ℕ → ℕ) where
    read_at_step :
        (into buf : ℕ → ℕ) (n p a : ℕ)
        → is_void h n p ≡ false
        → is_negative p ≡ false
        → clip h n p ≡ a
        → read_blocks (1 + last_sector a p - p / 128) (p / 128) (p / 128) h disk fresh ≡ ok buf
        → read_at fresh h disk into n p ≡ ok (a, copy a (λ k. buf (p - p / 128 * 128 + k)) into)
    unfolding read_at
    read_at_step into buf n p a e f g r = rw (e, f, g, r) refl

    -- ReadAt on a file whose header names different sectors of the disk, with room for its bytes,
    -- at a position and for a number of bytes whose sum fits an int, succeeds and returns how many
    -- of the bytes asked for lie in the file; those bytes of the file stand in the buffer, and the
    -- rest of the buffer is unchanged.
    pub read_at_lem :
        (into : ℕ → ℕ) (n p : ℕ)
        → p + n < 2 ^ 31
        → (into' : ℕ → ℕ) × (read_at fresh h disk into n p ≡ ok (amount h n p, into'))
          × ((k : ℕ) → into' k ≡ (if ltb k (amount h n p) then content h disk (p + k) else into k))
    unfolding read_at
    read_at_lem into n p l = elim (Bool-cases ((n == 0) || leb h.num_bytes p)) [
      | inl e ↦
          let none : amount h n p ≡ 0 = ground (arith, e) in
          (into, rw (is_void_lem n p l, e, none) refl, λ k. ground (arith, none))
      | inr e ↦
          let some : 0 < amount h n p = ground (arith, e) in
          let inside : p < h.num_bytes = ground (arith, e) in
          let within : p + amount h n p ≤ h.num_bytes = ground (arith, e) in
          let a = amount h n p in
          let (buf, run, bytes) =
            read_blocks-byte h w (1 + last_sector a p - p / 128) (p / 128) (p / 128) disk fresh
              (omega arith) (omega (arith, w.room, within, some)) in
          (
            copy a (λ k. buf (p - p / 128 * 128 + k)) into,
            read_at_step into buf n p a (is_void_lem n p l ∙ e) (ground (arith, l))
                (clip_lem n p l inside) run,
            λ k.
                let q = (p + k) / 128 in
                let r = (p + k) % 128 in
                let at : p - p / 128 * 128 + k ≡ (q - p / 128) * 128 + r = omega arith in
                let near : r < 128 = omega arith in
                let after : p / 128 ≤ q = omega arith in
                ground (arith, bytes q r near after, ap buf at),
          )
    ]

    pub read_part_lem :
        (buf : ℕ → ℕ) (start n p : ℕ)
        → p + n < 2 ^ 31
        → (buf' : ℕ → ℕ) × (read_part fresh h disk buf start n p ≡ ok buf')
          × ((a : ℕ)
              → buf' a ≡ (
                  if leb start a && ltb (a - start) (amount h n p)
                  then content h disk (p + (a - start))
                  else buf a))
    unfolding read_part
    read_part_lem buf start n p l =
        let (into, run, bytes) = read_at_lem (λ k. buf (start + k)) n p l in
        (
          λ a. if leb start a then into (a - start) else buf a,
          rw run refl,
          λ a. elim (Bool-cases (leb start a)) [
            | inl e ↦
                let back : start + (a - start) ≡ a = ground (arith, e) in
                ground (arith, e, bytes (a - start), ap buf back)
            | inr e ↦ ground (arith, e)
          ],
        )
