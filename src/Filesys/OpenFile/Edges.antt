-- ===== src/Filesys/OpenFile/Edges.antt =====
-- The first and the last sector of a range that WriteAt reads before it writes them.
use cs107_nach_os.Common.{
  ℕ, ◌+◌, ◌-◌, ◌*◌, ◌/◌, ◌≤◌, ◌<◌, ◌≡◌, refl, ◌∙◌, ap, ◌&&◌, ◌||◌, not, true, false, ok, ◌⊎◌, leb,
  ltb, if◌then◌else◌, arith, ◌==◌, inl, inr, Bool-cases,
}
use cs107_nach_os.Filesys.Header.{FileHeader}
use cs107_nach_os.Filesys.OpenFile.{last_sector, read_edges}
use cs107_nach_os.Filesys.OpenFile.Blocks.{IsStored}
use cs107_nach_os.Filesys.OpenFile.ReadAt.{content, amount, read_part_lem}

module _ (h : FileHeader) (w : IsStored h) (fresh disk : ℕ → ℕ) where
  -- The buffer has the file's bytes before and behind the range, in the first and the last sector.
  abbrev pub HasEdges : ℕ → ℕ → (ℕ → ℕ) → Type 0
  HasEdges n p buf =
      (a : ℕ)
      → (a < p - p / 128 * 128) ⊎ (p - p / 128 * 128 + n ≤ a)
      → a < (last_sector n p + 1 - p / 128) * 128
      → p / 128 * 128 + a < h.num_bytes
      → buf a ≡ content h disk (p / 128 * 128 + a)

  shift_back :
      (n p a : ℕ)
      → 0 < n
      → (last_sector n p - p / 128) * 128 ≤ a
      → content h disk (last_sector n p * 128 + (a - (last_sector n p - p / 128) * 128))
        ≡ content h disk (p / 128 * 128 + a)
  shift_back n p a l m = ap (content h disk) (omega (arith, l, m))

  tail_bytes :
      (n p a : ℕ) (buf buf' : ℕ → ℕ)
      → 0 < n
      → buf' a ≡ (
          if leb ((last_sector n p - p / 128) * 128) a
            && ltb (a - (last_sector n p - p / 128) * 128) (amount h 128 (last_sector n p * 128))
          then content h disk (last_sector n p * 128 + (a - (last_sector n p - p / 128) * 128))
          else buf a)
      → (last_sector n p - p / 128) * 128 ≤ a
      → a < (last_sector n p + 1 - p / 128) * 128
      → p / 128 * 128 + a < h.num_bytes
      → buf' a ≡ content h disk (p / 128 * 128 + a)
  tail_bytes n p a buf buf' l e b c d =
      let inside : (leb ((last_sector n p - p / 128) * 128) a
            && ltb (a - (last_sector n p - p / 128) * 128) (amount h 128 (last_sector n p * 128)))
          ≡ true =
        ground (arith, b, c, d, l) in
      e ∙ rw inside (shift_back n p a l b)

  head_bytes :
      (p a : ℕ) (buf buf' : ℕ → ℕ)
      → buf' a ≡ (
          if leb 0 a && ltb (a - 0) (amount h 128 (p / 128 * 128))
          then content h disk (p / 128 * 128 + (a - 0))
          else buf a)
      → a < 128
      → p / 128 * 128 + a < h.num_bytes
      → buf' a ≡ content h disk (p / 128 * 128 + a)
  head_bytes p a buf buf' e b c =
      let inside : (leb 0 a && ltb (a - 0) (amount h 128 (p / 128 * 128))) ≡ true =
        ground (arith, b, c) in
      let back : a - 0 ≡ a = omega arith in
      e ∙ rw inside (ap (λ (x : ℕ). content h disk (p / 128 * 128 + x)) back)

  -- What is outside of the range lies in the first sector, if the range ends with its last.
  last_early :
      (n p a : ℕ)
      → 0 < n
      → (p + n == (last_sector n p + 1) * 128) ≡ true
      → (a < p - p / 128 * 128) ⊎ (p - p / 128 * 128 + n ≤ a)
      → a < (last_sector n p + 1 - p / 128) * 128
      → a < 128
  last_early n p a l e b c = ground (arith, e, b, c, l)

  middle :
      (n p a : ℕ)
      → 0 < n
      → leb ((last_sector n p - p / 128) * 128) a ≡ false
      → (a < p - p / 128 * 128) ⊎ (p - p / 128 * 128 + n ≤ a)
      → a < 128
  middle n p a l e b = ground (arith, e, b, l)

  pub read_edges_lem :
      (n p : ℕ)
      → 0 < n
      → p + n ≤ h.num_bytes
      → (buf : ℕ → ℕ) × (read_edges fresh h disk n p ≡ ok buf) × HasEdges n p buf
  unfolding read_edges
  read_edges_lem n p l m =
      let first = p / 128 in
      let last = last_sector n p in
      let (buf1, run1, bytes1) =
        read_part_lem h w fresh disk fresh 0 128 (first * 128)
          (omega (arith, m, w.room, w.short)) in
      elim (Bool-cases (p == first * 128)) [
        | inl e ↦
            let (buf2, run2, bytes2) =
              read_part_lem h w fresh disk fresh ((last - first) * 128) 128 (last * 128)
                (omega (arith, m, l, w.room, w.short)) in
            elim (Bool-cases (p + n == (last + 1) * 128)) [
              | inl f ↦ (fresh, rw (e, f) refl, λ a b c d. ground (arith, e, f, b, c))
              | inr f ↦
                  let either : (not (first == last) || true) ≡ true = ground arith in
                  (
                    buf2,
                    rw (e, f, either) run2,
                    λ a b c d. tail_bytes n p a fresh buf2 l (bytes2 a) (ground (arith, e, b)) c d,
                  )
            ]
        | inr e ↦ elim (Bool-cases (p + n == (last + 1) * 128)) [
          | inl f ↦ (
            buf1,
            rw (e, run1, f) refl,
            λ a b c d. head_bytes p a fresh buf1 (bytes1 a) (last_early n p a l f b c) d,
          )
          | inr f ↦ elim (Bool-cases (first == last)) [
            | inl g ↦ (
              buf1,
              rw (e, run1, f, g) refl,
              λ a b c d. head_bytes p a fresh buf1 (bytes1 a) (ground (arith, g, c)) d,
            )
            | inr g ↦
                let (buf2, run2, bytes2) =
                  read_part_lem h w fresh disk buf1 ((last - first) * 128) 128 (last * 128)
                    (omega (arith, m, l, w.room, w.short)) in
                (
                  buf2,
                  rw (e, run1, f, g) run2,
                  λ a b c d. elim (Bool-cases (leb ((last - first) * 128) a)) [
                    | inl t ↦ tail_bytes n p a buf1 buf2 l (bytes2 a) (ground (arith, t)) c d
                    | inr t ↦
                        let same : buf2 a ≡ buf1 a = ground (arith, t, bytes2 a) in
                        same ∙ head_bytes p a fresh buf1 (bytes1 a) (middle n p a l t b) d
                  ],
                )
          ]
        ]
      ]
