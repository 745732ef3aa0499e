-- ===== src/Filesys/FileSystem/Fresh.antt =====
-- A header that Allocate has filled names different sectors of the disk.
use native.Mathlib.Decide.{dec_lt}
use cs107_nach_os.Common.{
  ℕ, zero, suc, ◌+◌, ◌*◌, ◌<◌, ◌≤◌, ◌≡◌, ◌≢◌, sym, ◌∙◌, ap, Bool, true, false, some, List, [], ◌∷◌,
  get_or, get_elem?, length, arith,
}
use cs107_nach_os.Filesys.Header.{FileHeader}
use cs107_nach_os.Filesys.Header.Allocation.{is_block, owns, AreFresh}
use cs107_nach_os.Filesys.OpenFile.Blocks.{block, IsStored}

get_elem?-some : (xs : List ℕ) (i s : ℕ) → get_elem? xs i ≡ some s → get_or xs i 0 ≡ s
get_elem?-some [] i s e = absurd (let e' = e in cc)
get_elem?-some (x ∷ xs) zero s e = cc
get_elem?-some (x ∷ xs) (suc i) s e = get_elem?-some xs i s e

module _ (h : FileHeader) (taken : ℕ → Bool) (size : ℕ) where
  pub owns_block :
      (n i k s : ℕ) → i ≤ k → k < i + n → get_elem? h.data_sectors k ≡ some s → owns h n i s ≡ true
  owns_block zero i k s l m e = absurd (omega (arith, l, m))
  owns_block (suc n) i k s l m e = elim (dec_lt i k) [
    | yes p ↦ ground (arith, owns_block n (i + 1) k s (omega (arith, p)) (omega (arith, m)) e)
    | no p ↦
        let at : i ≡ k = omega arith in
        let here : is_block h i s ≡ true = ground (arith, ap (get_elem? h.data_sectors) at ∙ e) in
        ground (arith, here)
  ]

  pub AreFresh-block :
      (n i k : ℕ)
      → AreFresh h taken size n i
      → i ≤ k
      → k < i + n
      → (get_elem? h.data_sectors k ≡ some (block h k))
        × (block h k < size)
        × (taken (block h k) ≡ false)
  AreFresh-block zero i k a l m = absurd (omega (arith, l, m))
  AreFresh-block (suc n) i k (s, e, b, t, o, a) l m = elim (dec_lt i k) [
    | yes p ↦ AreFresh-block n (i + 1) k a (omega (arith, p)) (omega (arith, m))
    | no p ↦
        let at : i ≡ k = omega arith in
        let here : block h k ≡ s = rw at at (get_elem?-some h.data_sectors i s e) in
        (rw at at e ∙ ap some (sym here), rw here b, rw here t)
  ]

  AreFresh-apart :
      (n i j k : ℕ) → AreFresh h taken size n i → i ≤ j → j < k → k < i + n → block h j ≢ block h k
  AreFresh-apart zero i j k a l m o e = omega (arith, l, m, o)
  AreFresh-apart (suc n) i j k (s, g, b, t, w, a) l m o e = elim (dec_lt i j) [
    | yes p ↦ AreFresh-apart n (i + 1) j k a (omega (arith, p)) m (omega (arith, o)) e
    | no p ↦
        let at : i ≡ j = omega arith in
        let here : block h j ≡ s = rw at at (get_elem?-some h.data_sectors i s g) in
        let (there, b', t') =
          AreFresh-block n (i + 1) k a (omega (arith, l, m)) (omega (arith, o)) in
        let used =
          owns_block n (i + 1) k s (omega (arith, l, m)) (omega (arith, o))
            (there ∙ ap some (sym e ∙ here)) in
        let clash = used in let none = w in cc
  ]

  pub AreFresh-IsStored :
      (n : ℕ)
      → AreFresh h taken size n 0
      → size ≤ 1024
      → n ≤ 30
      → h.num_sectors ≡ n
      → length h.data_sectors ≡ 30
      → h.num_bytes ≤ n * 128
      → IsStored h
  AreFresh-IsStored n a l m e t r = record {
    room = omega (arith, r, e);
    table = omega (arith, e, t, m);
    short = omega (arith, e, m);
    on_disk = λ i o.
        let (there, b, c) = AreFresh-block n 0 i a (omega arith) (omega (arith, o, e)) in
        omega (arith, b, l);
    apart = λ i j o o' same. elim (dec_lt i j) [
      | yes p ↦ absurd (AreFresh-apart n 0 i j a (omega arith) p (omega (arith, o', e)) same)
      | no p ↦ elim (dec_lt j i) [
        | yes q ↦ absurd (AreFresh-apart n 0 j i a (omega arith) q (omega (arith, o, e)) (sym same))
        | no q ↦ omega arith
      ]
    ];
  }
