-- ===== src/Filesys/Layout/Headers.antt =====
-- A file header, written to its sector and read from it.
use cs107_nach_os.Common.{
  ℕ, suc, ◌+◌, ◌-◌, ◌*◌, ◌<◌, ◌≡◌, refl, sym, ◌∙◌, ap, true, List, [], ◌∷◌, ◌==◌, ltb,
  if◌then◌else◌, length, arith, ok,
}
use cs107_nach_os.Filesys.Header.{FileHeader}
use cs107_nach_os.Filesys.Disk.{put_bytes}
use cs107_nach_os.Filesys.OpenFile.Blocks.{put_bytes-sector}
use cs107_nach_os.Filesys.Layout.{
  ints_at, ints_byte, header_at, header_byte, fetch_header, store_header,
}
use cs107_nach_os.Filesys.Layout.Ints.{AreSame, AreInts, ints_at-AreSame, ints_at-ints_byte}

-- A table of 30 sectors, and ints.
abbrev pub IsHeader : FileHeader → Type 0
IsHeader h = (length h.data_sectors ≡ 30) × AreInts (h.num_bytes ∷ h.num_sectors ∷ h.data_sectors)

abbrev from_ints : List ℕ → FileHeader
from_ints [] = record { num_bytes = 0; num_sectors = 0; data_sectors = [] }
from_ints (a ∷ []) = record { num_bytes = 0; num_sectors = 0; data_sectors = [] }
from_ints (a ∷ b ∷ xs) = record { num_bytes = a; num_sectors = b; data_sectors = xs }

pub header_at-header_byte : (h : FileHeader) → IsHeader h → header_at (header_byte h) ≡ h
unfolding ints_at
header_at-header_byte h (n, w) =
    let xs = h.num_bytes ∷ h.num_sectors ∷ h.data_sectors in
    ap (λ m. from_ints (ints_at (ints_byte xs) (suc (suc m)) 0)) (sym n)
    ∙ ap from_ints (ints_at-ints_byte xs w)

pub header_at-AreSame : (f g : ℕ → ℕ) → AreSame f 0 g 0 128 → header_at f ≡ header_at g
unfolding ints_at
header_at-AreSame f g same = ap from_ints (ints_at-AreSame f g 32 0 0 same)

pub fetch_header_lem :
    (fresh : ℕ → ℕ) (s : ℕ) (disk : ℕ → ℕ)
    → s < 1024
    → fetch_header fresh s disk ≡ ok (header_at (λ k. disk (s * 128 + k)))
unfolding fetch_header
fetch_header_lem fresh s disk l =
    let on : ltb s 1024 ≡ true = ground (arith, l) in
    let same =
      header_at-AreSame (put_bytes fresh 0 (λ k. disk (s * 128 + k))) (λ k. disk (s * 128 + k))
        (λ k m.
          let at : 0 + k - 0 ≡ 0 + k = omega arith in
          ground (arith, m, ap (λ (x : ℕ). disk (s * 128 + x)) at)) in
    rw on (ap ok same)

zero_add : (n : ℕ) → 0 + n ≡ n
zero_add n = omega arith

pub store_header_lem :
    (h : FileHeader) (s : ℕ) (disk : ℕ → ℕ)
    → s < 1024
    → (disk' : ℕ → ℕ) × (store_header h s disk ≡ ok disk')
      × ((t r : ℕ)
          → r < 128
          → disk' (t * 128 + r) ≡ (if s == t then header_byte h r else disk (t * 128 + r)))
unfolding store_header
store_header_lem h s disk l =
    let on : ltb s 1024 ≡ true = ground (arith, l) in
    (
      put_bytes disk (s * 128) (λ k. header_byte h (0 + k)),
      rw on refl,
      λ t r m.
          put_bytes-sector disk s t r (λ k. header_byte h (0 + k)) m
          ∙ ap (λ (x : ℕ). if s == t then header_byte h x else disk (t * 128 + r)) (zero_add r),
    )
