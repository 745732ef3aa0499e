-- ===== src/Filesys/Layout/Ints.antt =====
-- Arrays of ints, of characters and of directory entries in a buffer: what depends on the buffer,
-- and the way from an array to its bytes and back.
use cs107_nach_os.Common.{
  ℕ, zero, suc, ◌+◌, ◌-◌, ◌*◌, ◌/◌, ◌%◌, ◌^◌, ◌<◌, ◌≤◌, ◌≡◌, refl, sym, ◌∙◌, ap, not, List, [], ◌∷◌,
  ◌==◌, get_or, length, arith, All,
}
use cs107_nach_os.Filesys.Directory.{DirectoryEntry}
use cs107_nach_os.Filesys.Layout.{
  int_at, int_byte, ints_at, ints_byte, chars_at, directory_entry_at, entry_byte, entries_at,
  entries_byte,
}

-- Two buffers with the same n bytes, each from an index on.
abbrev pub AreSame : (ℕ → ℕ) → ℕ → (ℕ → ℕ) → ℕ → ℕ → Type 0
AreSame f a g b n = (k : ℕ) → k < n → f (a + k) ≡ g (b + k)

skip : (f g : ℕ → ℕ) (a b m n : ℕ) → AreSame f a g b n → m ≤ n → AreSame f (a + m) g (b + m) (n - m)
skip f g a b m n same l k j =
    let e : a + m + k ≡ a + (m + k) = omega arith in
    let e' : b + m + k ≡ b + (m + k) = omega arith in
    ap f e ∙ same (m + k) (omega (arith, l, j)) ∙ ap g (omega arith)

cons_same : {A : Type 0} → {x y : A} → {xs ys : List A} → x ≡ y → xs ≡ ys → x ∷ xs ≡ y ∷ ys
cons_same p q = cc

pub int_at-AreSame : (f g : ℕ → ℕ) (a b : ℕ) → AreSame f a g b 4 → int_at f a ≡ int_at g b
unfolding int_at
int_at-AreSame f g a b same =
    let at : f a ≡ g b = ap f (omega arith) ∙ same 0 (omega arith) ∙ ap g (omega arith) in
    omega (arith, at, same 1 (omega arith), same 2 (omega arith), same 3 (omega arith))

pub ints_at-AreSame :
    (f g : ℕ → ℕ) (n a b : ℕ) → AreSame f a g b (n * 4) → ints_at f n a ≡ ints_at g n b
unfolding ints_at
ints_at-AreSame f g zero a b same = refl
ints_at-AreSame f g (suc n) a b same =
    cons_same (int_at-AreSame f g a b (λ k l. same k (omega (arith, l)))) (
      ints_at-AreSame f g n (a + 4) (b + 4)
        (λ k l. skip f g a b 4 (suc n * 4) same (omega arith) k (omega (arith, l))))

chars_at-AreSame : (f g : ℕ → ℕ) (n a b : ℕ) → AreSame f a g b n → chars_at f n a ≡ chars_at g n b
unfolding chars_at
chars_at-AreSame f g zero a b same = refl
chars_at-AreSame f g (suc n) a b same =
    cons_same (ap f (omega arith) ∙ same 0 (omega arith) ∙ ap g (omega arith)) (
      chars_at-AreSame f g n (a + 1) (b + 1)
        (λ k l. skip f g a b 1 (suc n) same (omega arith) k (omega (arith, l))))

directory_entry_at-AreSame :
    (f g : ℕ → ℕ) (a b : ℕ) → AreSame f a g b 20 → directory_entry_at f a ≡ directory_entry_at g b
directory_entry_at-AreSame f g a b same =
    let at : f a ≡ g b = ap f (omega arith) ∙ same 0 (omega arith) ∙ ap g (omega arith) in
    let sector =
      int_at-AreSame f g (a + 4) (b + 4)
        (λ k l. skip f g a b 4 20 same (omega arith) k (omega (arith, l))) in
    let name =
      chars_at-AreSame f g 10 (a + 8) (b + 8)
        (λ k l. skip f g a b 8 20 same (omega arith) k (omega (arith, l))) in
    rw (at, sector, name) refl

pub entries_at-AreSame :
    (f g : ℕ → ℕ) (n a b : ℕ) → AreSame f a g b (n * 20) → entries_at f n a ≡ entries_at g n b
unfolding entries_at
entries_at-AreSame f g zero a b same = refl
entries_at-AreSame f g (suc n) a b same =
    cons_same (directory_entry_at-AreSame f g a b (λ k l. same k (omega (arith, l)))) (
      entries_at-AreSame f g n (a + 20) (b + 20)
        (λ k l. skip f g a b 20 (suc n * 20) same (omega arith) k (omega (arith, l))))

-- The elements are ints.
abbrev pub AreInts : List ℕ → Type 0
AreInts xs = (i : ℕ) → i < length xs → get_or xs i 0 < 2 ^ 32

int_at-int_byte : (f : ℕ → ℕ) (a w : ℕ) → w < 2 ^ 32 → AreSame f a (int_byte w) 0 4 → int_at f a ≡ w
unfolding int_at int_byte
int_at-int_byte f a w l same =
    let at : f a ≡ int_byte w 0 = ap f (omega arith) ∙ same 0 (omega arith) in
    omega (arith, l, at, same 1 (omega arith), same 2 (omega arith), same 3 (omega arith))

pub ints_at-ints_byte : (xs : List ℕ) → AreInts xs → ints_at (ints_byte xs) (length xs) 0 ≡ xs
unfolding ints_at
ints_at-ints_byte [] w = refl
ints_at-ints_byte (x ∷ xs) w =
    cons_same
      (int_at-int_byte (ints_byte (x ∷ xs)) 0 x (w 0 (omega arith)) (λ k l.
        let q : (0 + k) / 4 ≡ 0 = omega (arith, l) in
        let r : (0 + k) % 4 ≡ 0 + k = omega (arith, l) in rw (q, r) refl))
      (ints_at-AreSame (ints_byte (x ∷ xs)) (ints_byte xs) (length xs) 4 0 (λ k l.
          let q : (4 + k) / 4 ≡ suc ((0 + k) / 4) = omega arith in
          let r : (4 + k) % 4 ≡ (0 + k) % 4 = omega arith in rw (q, r) refl)
        ∙ ints_at-ints_byte xs (λ i l. w (suc i) (omega (arith, l))))

chars_at-get_or :
    (f : ℕ → ℕ) (xs : List ℕ) (a : ℕ)
    → ((k : ℕ) → k < length xs → f (a + k) ≡ get_or xs k 0)
    → chars_at f (length xs) a ≡ xs
unfolding chars_at
chars_at-get_or f [] a same = refl
chars_at-get_or f (x ∷ xs) a same =
    cons_same (ap f (omega arith) ∙ same 0 (omega arith))
      (chars_at-get_or f xs (a + 1) (λ k l. ap f (omega arith) ∙ same (suc k) (omega (arith, l))))

-- The sector is an int, and the name fills its array.
abbrev pub IsEntry : DirectoryEntry → Type 0
IsEntry e = (e.sector < 2 ^ 32) × (length e.name ≡ 10)

directory_entry_at-entry_byte :
    (fresh : ℕ → ℕ) (e : DirectoryEntry) → IsEntry e → directory_entry_at (entry_byte fresh e) 0 ≡ e
unfolding entry_byte
directory_entry_at-entry_byte fresh e (w, n) =
    let at : (k : ℕ) → 0 + 4 + k - 4 ≡ 0 + k = λ k. omega arith in
    let at' : (k : ℕ) → 0 + 8 + k - 8 ≡ k = λ k. omega arith in
    let used : not (entry_byte fresh e 0 == 0) ≡ e.in_use = ground arith in
    let sector : int_at (entry_byte fresh e) (0 + 4) ≡ e.sector =
      int_at-int_byte (entry_byte fresh e) (0 + 4) e.sector w
        (λ k l. ground (arith, l, ap (int_byte e.sector) (at k))) in
    let name : chars_at (entry_byte fresh e) 10 (0 + 8) ≡ e.name =
      ap (λ m. chars_at (entry_byte fresh e) m (0 + 8)) (sym n)
      ∙ chars_at-get_or (entry_byte fresh e) e.name (0 + 8)
          (λ k l. ground (arith, l, n, ap (λ x. get_or e.name x 0) (at' k))) in
    λ i. record { in_use = used i; sector = sector i; name = name i }

pub entries_at-entries_byte :
    (fresh : ℕ → ℕ) (es : List DirectoryEntry)
    → All IsEntry es
    → entries_at (entries_byte fresh es) (length es) 0 ≡ es
unfolding entries_at entries_byte
entries_at-entries_byte fresh [] w = refl
entries_at-entries_byte fresh (e ∷ es) (v, w) =
    let at : (k : ℕ) → 20 + k - 20 ≡ 0 + k = λ k. omega arith in
    cons_same
      (directory_entry_at-AreSame (entries_byte fresh (e ∷ es)) (entry_byte fresh e) 0 0
          (λ k l. ground (arith, l))
        ∙ directory_entry_at-entry_byte fresh e v)
      (entries_at-AreSame (entries_byte fresh (e ∷ es)) (entries_byte fresh es) (length es) 20 0
          (λ k l. ground (arith, ap (entries_byte fresh es) (at k)))
        ∙ entries_at-entries_byte fresh es w)
