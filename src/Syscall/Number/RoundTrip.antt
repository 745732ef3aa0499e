-- ===== src/Syscall/Number/RoundTrip.antt =====
-- SysReadNum gives the number that a numeral stands for, and SysPrintNum prints the numeral of a
-- magnitude.
use native.Mathlib.Nat.{pow-suc}
use cs107_nach_os.Common.{
  ℕ, zero, suc, ◌+◌, ◌*◌, ◌/◌, ◌%◌, ◌^◌, ◌≤◌, ◌<◌, ◌≡◌, refl, ◌∙◌, sym, ap, inl, inr, Bool, true,
  false, ltb, leb, List, [], ◌∷◌, ◌++◌, ok, ◌==◌, if◌then◌else◌, arith, All, Bool-cases, List-cases,
  ◌≢◌,
}
use cs107_nach_os.Common.Words.{IsWord, is_negative, neg32, div32, rem32, magnitude}
use cs107_nach_os.Syscall.Number.{
  is_blank, is_digit, next_num, skip_blanks, read_digits, to_int, read_rest, read_num,
  collect_digits, put_digits, print_num,
}

-- The value of digits after a number that has been read so far.
abbrev pub decimal : ℕ → List ℕ → ℕ
decimal num [] = num
decimal num (d ∷ ds) = decimal (num * 10 + d) ds

abbrev pub AreDigits : List ℕ → Type 0
AreDigits = All (λ d. d < 10)

-- The characters of digits.
abbrev pub numeral : List ℕ → List ℕ
numeral [] = []
numeral (d ∷ ds) = (48 + d) ∷ numeral ds

decimal-le : (num : ℕ) (ds : List ℕ) → num ≤ decimal num ds
decimal-le num [] = omega arith
decimal-le num (d ∷ ds) = omega (arith, decimal-le (num * 10 + d) ds)

next_num-digit : (num d : ℕ) → d < 10 → num * 10 + d < 2 ^ 64 → next_num num (48 + d) ≡ num * 10 + d
next_num-digit num d h l = ground arith

-- Reading digits up to a blank.
read_digits-decimal :
    (ds : List ℕ) (d num blank : ℕ) (rest : List ℕ)
    → AreDigits ds
    → d < 10
    → is_blank blank ≡ true
    → decimal num (d ∷ ds) < 2 ^ 64
    → read_digits (48 + d) num true (numeral ds ++ blank ∷ rest)
      ≡ ok (decimal num (d ∷ ds), true, rest)
unfolding read_digits
read_digits-decimal [] d num blank rest a h b l =
    let e = next_num-digit num d h l in rw (e, b) (ground arith)
read_digits-decimal (c ∷ ds) d num blank rest (g, a) h b l =
    let small = decimal-le (num * 10 + d) (c ∷ ds) in
    let e = next_num-digit num d h (omega arith) in
    let digit : is_digit (48 + c) ≡ true = ground arith in
    let no_blank : is_blank (48 + c) ≡ false = ground arith in
    rw (e, digit, no_blank) (read_digits-decimal ds c (num * 10 + d) blank rest a g b l)

-- The int for a sign and a magnitude, or 0 where none is.
abbrev pub int_or_zero : Bool → ℕ → ℕ
int_or_zero negative n =
    if negative then if leb n (2 ^ 31) then neg32 n else 0 else if ltb n (2 ^ 31) then n else 0

to_int-int_or_zero :
    (negative : Bool) (n : ℕ) → n < 2 ^ 63 → to_int negative n true ≡ int_or_zero negative n
unfolding to_int
to_int-int_or_zero true n h = ground arith
to_int-int_or_zero false n h = ground arith

read_rest-numeral :
    (negative : Bool) (d : ℕ) (ds : List ℕ) (blank : ℕ) (rest : List ℕ)
    → AreDigits (d ∷ ds)
    → is_blank blank ≡ true
    → decimal 0 (d ∷ ds) < 2 ^ 63
    → read_rest negative (48 + d) (numeral ds ++ blank ∷ rest)
      ≡ ok (int_or_zero negative (decimal 0 (d ∷ ds)), rest)
unfolding read_rest
read_rest-numeral negative d ds blank rest (g, a) b l =
    let run = read_digits-decimal ds d 0 blank rest a g b (omega arith) in
    let digit : is_digit (48 + d) ≡ true = ground arith in
    rw (digit, run, to_int-int_or_zero negative _ l) refl

abbrev pub AreBlanks : List ℕ → Type 0
AreBlanks = All (λ c. is_blank c ≡ true)

skip_blanks-numeral :
    (blanks : List ℕ) (c : ℕ) (cs : List ℕ)
    → AreBlanks blanks
    → is_blank c ≡ false
    → skip_blanks (blanks ++ c ∷ cs) ≡ ok (c, cs)
unfolding skip_blanks
skip_blanks-numeral [] c cs a h = rw h refl
skip_blanks-numeral (b ∷ blanks) c cs (e, a) h = rw e (skip_blanks-numeral blanks c cs a h)

-- "-" or nothing.
abbrev pub sign : Bool → List ℕ
sign negative = if negative then 45 ∷ [] else []

read_num_unsigned :
    (input : List ℕ) (c : ℕ) (cs : List ℕ)
    → skip_blanks input ≡ ok (c, cs)
    → (c == 45) ≡ false
    → read_num input ≡ read_rest false c cs
unfolding read_num
read_num_unsigned input c cs h e = rw (h, e) refl

-- SysReadNum of blanks, an optional minus, decimal digits that stand for less than 2 ^ 63, and a
-- blank gives the int that they stand for, or 0 where it fits no int, and leaves the input behind
-- that blank.
pub read_num-numeral :
    (blanks : List ℕ) (negative : Bool) (d : ℕ) (ds : List ℕ) (blank : ℕ) (rest : List ℕ)
    → AreBlanks blanks
    → AreDigits (d ∷ ds)
    → is_blank blank ≡ true
    → decimal 0 (d ∷ ds) < 2 ^ 63
    → read_num (blanks ++ (sign negative ++ (numeral (d ∷ ds) ++ blank ∷ rest)))
      ≡ ok (int_or_zero negative (decimal 0 (d ∷ ds)), rest)
unfolding read_num
read_num-numeral blanks true d ds blank rest s a b l =
    let no_blank : is_blank (48 + d) ≡ false = let g = a.0 in ground arith in
    rw (skip_blanks-numeral blanks 45 ((48 + d) ∷ numeral ds ++ blank ∷ rest) s refl, no_blank)
      (read_rest-numeral true d ds blank rest a b l)
read_num-numeral blanks false d ds blank rest s a b l =
    let no_blank : is_blank (48 + d) ≡ false = let g = a.0 in ground arith in
    read_num_unsigned _ (48 + d) (numeral ds ++ blank ∷ rest)
      (skip_blanks-numeral blanks (48 + d) (numeral ds ++ blank ∷ rest) s no_blank) (ground arith)
    ∙ read_rest-numeral false d ds blank rest a b l

-- The digits that PrintNum collects, the first one first.
abbrev forwards : List ℕ → List ℕ
forwards [] = []
forwards (d ∷ ds) = forwards ds ++ d ∷ []

decimal-snoc :
    (num : ℕ) (ds : List ℕ) (d : ℕ) → decimal num (ds ++ d ∷ []) ≡ decimal num ds * 10 + d
decimal-snoc num [] d = refl
decimal-snoc num (c ∷ ds) d = decimal-snoc (num * 10 + c) ds d

numeral-snoc : (ds : List ℕ) (d : ℕ) → numeral (ds ++ d ∷ []) ≡ numeral ds ++ (48 + d) ∷ []
numeral-snoc [] d = refl
numeral-snoc (c ∷ ds) d = ap (λ t. (48 + c) ∷ t) (numeral-snoc ds d)

All-snoc {ℓ κ} :
    {A : Type ℓ} (P : A → Type κ) (xs : List A) (x : A) → All P xs → P x → All P (xs ++ x ∷ [])
All-snoc P [] x h p = (p, tt)
All-snoc P (y ∷ xs) x (q, h) p = (q, All-snoc P xs x h p)

div32-small : (v : ℕ) → v < 2 ^ 31 → (div32 v 10 ≡ v / 10) × (rem32 v 10 % 2 ^ 8 ≡ v % 10)
div32-small v h = ground arith

collect_step :
    (room v : ℕ) (ds : List ℕ)
    → (v == 0) ≡ false
    → collect_digits room (div32 v 10) ≡ ok ds
    → collect_digits (suc room) v ≡ ok ((rem32 v 10 % 2 ^ 8) ∷ ds)
unfolding collect_digits
collect_step room v ds h run = rw (h, run) refl

-- With room for its digits the loop ends, and the digits are those of the number.
collect_digits-decimal :
    (room v : ℕ)
    → v < 10 ^ room
    → v < 2 ^ 31
    → (ds : List ℕ) × (collect_digits room v ≡ ok ds)
      × AreDigits (forwards ds)
      × (decimal 0 (forwards ds) ≡ v)
      × (put_digits ds ≡ numeral (forwards ds))
unfolding collect_digits put_digits
collect_digits-decimal zero v h l =
    let nothing : v ≡ 0 = omega arith in ([], rw nothing refl, tt, sym nothing, refl)
collect_digits-decimal (suc room) v h l = elim (Bool-cases (v == 0)) [
  | inl none_left ↦ ([], rw none_left refl, tt, ground arith, refl)
  | inr some_left ↦
      let (quotient, remainder) = div32-small v l in
      let (ds, run, digits, value, shown) =
        collect_digits-decimal room (v / 10) (omega (arith, pow-suc 10 room)) (omega arith) in
      let char : (48 + v % 10) % 2 ^ 8 ≡ 48 + v % 10 = omega arith in
      (
        (v % 10) ∷ ds,
        collect_step room v ds some_left (ap (collect_digits room) quotient ∙ run)
            ∙ ap (λ t. ok (t ∷ ds)) remainder,
        All-snoc _ (forwards ds) (v % 10) digits (omega arith),
        decimal-snoc 0 (forwards ds) (v % 10) ∙ omega (arith, value),
        rw (shown, char) (sym (numeral-snoc (forwards ds) (v % 10))),
      )
]

-- The numeral of a number that is not 0 begins with a digit.
forwards-cons :
    (ds : List ℕ) → 0 < decimal 0 (forwards ds) → (c : ℕ) × (cs : List ℕ) × (forwards ds ≡ c ∷ cs)
forwards-cons ds h = elim (List-cases (forwards ds)) [
  | inl e ↦ absurd (omega (arith, rw e at h))
  | inr (c, cs, e) ↦ (c, cs, e)
]

print_step :
    (w v : ℕ) (ds : List ℕ)
    → (w == 0) ≡ false
    → (if is_negative w then neg32 w else w) ≡ v
    → collect_digits 10 v ≡ ok ds
    → print_num w ≡ ok (put_digits ds)
unfolding print_num
print_step w v ds h e run = rw (h, e, run) refl

-- SysPrintNum of every int but the least one displays the decimal digits of its magnitude.
pub print_num-numeral :
    (w : ℕ)
    → IsWord w
    → w ≢ 2 ^ 31
    → (d : ℕ) × (ds : List ℕ) × (print_num w ≡ ok (numeral (d ∷ ds)))
      × AreDigits (d ∷ ds)
      × (decimal 0 (d ∷ ds) ≡ magnitude w)
unfolding print_num
print_num-numeral w p n = elim (Bool-cases (w == 0)) [
  | inl zero_word ↦ let e : w ≡ 0 = ground arith in (0, [], rw e refl, (omega arith, tt), rw e refl)
  | inr other ↦
      let same : (if is_negative w then neg32 w else w) ≡ magnitude w = ground arith in
      let (ds, run, digits, value, shown) =
        collect_digits-decimal 10 (magnitude w) (ground arith) (ground arith) in
      let positive : 0 < magnitude w = ground arith in
      let (c, cs, e) = forwards-cons ds (omega (arith, value, positive)) in
      (
        c,
        cs,
        print_step w (magnitude w) ds other same run ∙ ap ok (shown ∙ ap numeral e),
        rw e at digits,
        ap (decimal 0) (sym e) ∙ value,
      )
]

-- For every int but the least one, what SysPrintNum displays, followed by a newline, is read by
-- SysReadNum as the magnitude of that int: the minus sign is lost.
pub read_num-print_num :
    (w : ℕ) (rest : List ℕ)
    → IsWord w
    → w ≢ 2 ^ 31
    → (cs : List ℕ) × (print_num w ≡ ok cs) × (read_num (cs ++ 10 ∷ rest) ≡ ok (magnitude w, rest))
read_num-print_num w rest p n =
    let (d, ds, run, digits, value) = print_num-numeral w p n in
    let small : magnitude w < 2 ^ 31 = ground arith in
    let fits : int_or_zero false (decimal 0 (d ∷ ds)) ≡ magnitude w =
      rw value (ground (arith, small)) in
    (
      numeral (d ∷ ds),
      run,
      read_num-numeral [] false d ds 10 rest tt digits refl (omega (arith, value, small))
          ∙ ap (λ t. ok (t, rest)) fits,
    )
