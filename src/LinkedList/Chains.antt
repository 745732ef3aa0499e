-- ===== src/LinkedList/Chains.antt =====
-- The elements that a pointer leads to, as a list of addresses and items.
use cs107_nach_os.Common.{
  ℕ, zero, suc, ◌≤◌, ◌≡◌, ◌≢◌, refl, sym, Bool, false, ◌||◌, Option, none, some, List, [], ◌∷◌,
  ◌++◌, ok, ◌==◌, arith, length, All,
}
use cs107_nach_os.LinkedList.{ListElement, Heap, update, in_list_from}

-- p leads to these cells, in this order and at different addresses.
abbrev pub Chain : Heap → Option ℕ → List (ℕ × ℕ) → Type 0
Chain heap p [] = p ≡ none
Chain heap p ((a, x) ∷ cells) =
    (p ≡ some a)
    × (q : Option ℕ) × (heap a ≡ some (record { item = x; next = q }))
    × All (λ c. a ≢ c.0) cells
    × Chain heap q cells

abbrev pub has_item : ℕ → List (ℕ × ℕ) → Bool
has_item item [] = false
has_item item (c ∷ cells) = (item == c.1) || has_item item cells

abbrev pub last_address : List (ℕ × ℕ) → Option ℕ
last_address [] = none
last_address ((a, x) ∷ []) = some a
last_address (c ∷ c' ∷ cells) = last_address (c' ∷ cells)

-- A write elsewhere.
pub Chain-update :
    (heap : Heap) (p : Option ℕ) (cells : List (ℕ × ℕ)) (a : ℕ) (e : Option ListElement)
    → All (λ c. a ≢ c.0) cells
    → Chain heap p cells
    → Chain (update heap a e) p cells
Chain-update heap p [] a e apart chain = chain
Chain-update heap p ((b, x) ∷ cells) a e (differs, apart) (here, q, stored, once, chain) =
    (here, q, ground (arith, stored, differs), once, Chain-update heap q cells a e apart chain)

pub All-last :
    (c : ℕ) (cells : List (ℕ × ℕ)) (a : ℕ)
    → All (λ d. c ≢ d.0) cells
    → last_address cells ≡ some a
    → c ≢ a
All-last c [] a apart e = absurd cc
All-last c ((d, x) ∷ []) a (differs, apart) e = λ same. differs cc
All-last c (d ∷ d' ∷ cells) a (differs, apart) e = All-last c (d' ∷ cells) a apart e

pub All-snoc {ℓ κ} :
    {A : Type ℓ} (P : A → Type κ) (xs : List A) (x : A) → All P xs → P x → All P (xs ++ x ∷ [])
All-snoc P [] x h p = (p, tt)
All-snoc P (y ∷ xs) x (q, h) p = (q, All-snoc P xs x h p)

-- An element behind the last one.
pub Chain-append :
    (heap : Heap) (p : Option ℕ) (cells : List (ℕ × ℕ)) (a b x y : ℕ) (q : Option ℕ)
    → last_address cells ≡ some a
    → heap a ≡ some (record { item = y; next = q })
    → All (λ c. b ≢ c.0) cells
    → heap b ≡ some (record { item = x; next = none })
    → Chain heap p cells
    → Chain (update heap a (some (record { item = y; next = some b }))) p (cells ++ (b, x) ∷ [])
Chain-append heap p [] a b x y q e stored fresh new chain = absurd cc
Chain-append heap p ((c, z) ∷ []) a b x y q e stored (differs, fresh) new
      (here, r, s, once, chain) =
    let same : c ≡ a = cc in
    let same_item : z ≡ y = cc in
    (
      here,
      some b,
      ground (arith, same, same_item),
      ((λ f. differs (sym f)), tt),
      (refl, none, ground (arith, same, differs, new), tt, refl),
    )
Chain-append heap p ((c, z) ∷ d ∷ cells) a b x y q e stored (differs, fresh) new
      (here, r, s, once, chain) =
    let apart = All-last c (d ∷ cells) a once e in
    (
      here,
      r,
      ground (arith, s, apart),
      All-snoc (λ d. c ≢ d.0) (d ∷ cells) (b, x) once (λ f. differs (sym f)),
      Chain-append heap r (d ∷ cells) a b x y q e stored fresh new chain,
    )

-- IsInList on a chain.
pub in_list_from-has_item :
    (fuel : ℕ) (heap : Heap) (p : Option ℕ) (cells : List (ℕ × ℕ)) (item : ℕ)
    → length cells ≤ fuel
    → Chain heap p cells
    → in_list_from fuel heap p item ≡ ok (has_item item cells)
unfolding in_list_from
in_list_from-has_item fuel heap p [] item h chain = rw chain refl
in_list_from-has_item zero heap p (c ∷ cells) item h chain = elim h [ ]
in_list_from-has_item (suc fuel) heap p ((a, x) ∷ cells) item h (here, q, stored, once, chain) =
    let rest = in_list_from-has_item fuel heap q cells item (omega arith) chain in
    rw here (ground (arith, stored, rest))
