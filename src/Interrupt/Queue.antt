-- ===== src/Interrupt/Queue.antt =====
-- The queue of pending interrupts stays in order of time.
use cs107_nach_os.Common.{
  ℕ, ◌+◌, ◌^◌, ◌≤◌, ◌<◌, ◌≡◌, List, [], ◌∷◌, if◌then◌else◌, arith, All, leb, ltb, inl, inr,
  Bool-cases,
}
use cs107_nach_os.Common.Words.{slt}
use cs107_nach_os.Interrupt.{PendingInterrupt, is_before, insert}

pub slt-small : (a b : ℕ) → a < 2 ^ 31 → b < 2 ^ 31 → slt a b ≡ ltb a b
slt-small a b p q = ground (arith, p, q)

abbrev pub Sorted : List PendingInterrupt → Type 0
Sorted [] = Unit
Sorted (x ∷ xs) = All (λ y. x.when ≤ y.when) xs × Sorted xs

abbrev pub AreSmall : List PendingInterrupt → Type 0
AreSmall = All (λ y. y.when < 2 ^ 31)

-- How many interrupts are due at a time.
abbrev pub due : ℕ → List PendingInterrupt → ℕ
due now [] = 0
due now (x ∷ xs) = (if leb x.when now then 1 else 0) + due now xs

pub All-insert {κ} :
    (P : PendingInterrupt → Type κ) (x : PendingInterrupt) (ys : List PendingInterrupt)
    → P x
    → All P ys
    → All P (insert x ys)
unfolding insert
All-insert P x [] p h = (p, tt)
All-insert P x (y ∷ ys) p (q, h) = elim (Bool-cases (is_before x y)) [
  | inl e ↦ rw e (p, (q, h))
  | inr e ↦ rw e (q, All-insert P x ys p h)
]

pub All-le :
    (a b : ℕ) (ys : List PendingInterrupt)
    → a ≤ b
    → All (λ y. b ≤ y.when) ys
    → All (λ y. a ≤ y.when) ys
All-le a b [] h k = tt
All-le a b (y ∷ ys) h (p, k) = (omega (arith, p, h), All-le a b ys h k)

pub All-lt :
    (a b : ℕ) (ys : List PendingInterrupt)
    → a < b
    → All (λ y. b ≤ y.when) ys
    → All (λ y. a < y.when) ys
All-lt a b [] h k = tt
All-lt a b (y ∷ ys) h (p, k) = (omega (arith, p, h), All-lt a b ys h k)

pub insert-Sorted :
    (x : PendingInterrupt) (ys : List PendingInterrupt)
    → x.when < 2 ^ 31
    → AreSmall ys
    → Sorted ys
    → Sorted (insert x ys)
unfolding insert
insert-Sorted x [] p h s = (tt, tt)
insert-Sorted x (y ∷ ys) p (q, h) (l, s) =
    let same = slt-small x.when y.when p q in
    elim (Bool-cases (is_before x y)) [
      | inl e ↦
          let less : x.when ≤ y.when = ground (arith, same, e) in
          rw e ((less, All-le x.when y.when ys less l), (l, s))
      | inr e ↦
          let more : y.when ≤ x.when = ground (arith, same, e) in
          rw e (All-insert (λ z. y.when ≤ z.when) x ys more l, insert-Sorted x ys p h s)
    ]

pub due-insert :
    (now : ℕ) (x : PendingInterrupt) (ys : List PendingInterrupt)
    → now < x.when
    → due now (insert x ys) ≡ due now ys
unfolding insert
due-insert now x [] h = ground (arith, h)
due-insert now x (y ∷ ys) h = elim (Bool-cases (is_before x y)) [
  | inl e ↦ rw e (ground (arith, h))
  | inr e ↦ rw e (omega (arith, due-insert now x ys h))
]
