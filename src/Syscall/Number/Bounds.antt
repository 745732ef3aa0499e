-- ===== src/Syscall/Number/Bounds.antt =====
-- SysReadNum gives an int on every input, and SysPrintNum ends within its array on every int.
use cs107_nach_os.Common.{
  ℕ, ◌^◌, ◌≡◌, refl, inl, inr, Bool, true, false, List, ◌∷◌, ok, ◌==◌, Bool-cases, arith,
}
use cs107_nach_os.Common.Words.{IsWord}
use cs107_nach_os.Machine.Sound.{Always, Always-then, Always-if}
use cs107_nach_os.Syscall.Number.{
  is_blank, is_digit, skip_blanks, get_char, read_digits, to_int, read_rest, read_num,
  collect_digits, print_num,
}
use cs107_nach_os.Syscall.Number.RoundTrip.{print_num-numeral, numeral}

abbrev Number : ℕ × List ℕ → Type 0
Number r = IsWord r.0

to_int-IsWord :
    (negative : Bool) (num : ℕ) (is_integer : Bool) → IsWord (to_int negative num is_integer)
unfolding to_int
to_int-IsWord negative num is_integer = ground arith

read_rest-IsWord :
    (negative : Bool) (buffer : ℕ) (input : List ℕ)
    → Always Number (read_rest negative buffer input)
unfolding read_rest
read_rest-IsWord negative buffer input =
    Always-then Number (read_digits buffer 0 (is_digit buffer) input) _
      (λ (num, is_integer, rest). to_int-IsWord negative num is_integer)

pub read_num-IsWord : (input : List ℕ) → Always (λ r. IsWord r.0) (read_num input)
unfolding read_num
read_num-IsWord input = Always-then Number (skip_blanks input) _ (λ (buffer, cs).
    Always-if Number (buffer == 45) _ _
      (Always-then Number (get_char cs) _
        (λ (c, cs'). Always-if Number (is_blank c) _ _ (omega arith) (read_rest-IsWord true c cs')))
      (read_rest-IsWord false buffer cs))

smallest_ends : (cs : List ℕ) × (print_num (2 ^ 31) ≡ ok cs)
unfolding print_num collect_digits
smallest_ends = (_, refl)

-- SysPrintNum of every int ends, and writes no digit behind its array of ten.
pub print_num-ends : (w : ℕ) → IsWord w → (cs : List ℕ) × (print_num w ≡ ok cs)
print_num-ends w p = elim (Bool-cases (w == 2 ^ 31)) [
  | inl smallest ↦ let e : w ≡ 2 ^ 31 = ground arith in rw e smallest_ends
  | inr other ↦
      let (d, ds, run, digits, value) = print_num-numeral w p (ground arith) in
      (numeral (d ∷ ds), run)
]
