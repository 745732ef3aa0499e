-- ===== src/Syscall/Number.antt =====
-- SysReadNum and SysPrintNum of NachOS-4.0/code/userprog/ksyscall.h. Characters are bytes.
pub mod RoundTrip
pub mod Bounds
use cs107_nach_os.Common.{
  ℕ, zero, suc, ◌+◌, ◌-◌, ◌*◌, ◌%◌, ◌^◌, Bool, true, false, not, ◌&&◌, ◌||◌, ltb, leb, List, [],
  ◌∷◌, ◌++◌, Outcome, ok, aborted, ◌>>=◌, ◌==◌, if◌then◌else◌,
}
use cs107_nach_os.Common.Words.{is_negative, neg32, div32, rem32}

abbrev pub is_blank : ℕ → Bool
is_blank c = (c == 32) || (c == 10)

abbrev pub is_digit : ℕ → Bool
is_digit c = leb 48 c && leb c 57

-- A char as a long long, and `num * 10 + (buffer - '0')`, which wraps.
abbrev pub char_to_long : ℕ → ℕ
char_to_long c = if ltb c 128 then c else c + (2 ^ 64 - 256)

abbrev pub next_num : ℕ → ℕ → ℕ
next_num num c = (num * 10 + (char_to_long c + (2 ^ 64 - 48))) % 2 ^ 64

-- `do buffer = GetChar(); while (…)`: the first character that is no blank, and what follows it. At
-- the end of the input GetChar waits for ever.
pub skip_blanks : List ℕ → Outcome (ℕ × List ℕ)
skip_blanks [] = aborted
skip_blanks (c ∷ cs) = let rest = skip_blanks cs in if is_blank c then rest else ok (c, cs)

abbrev pub get_char : List ℕ → Outcome (ℕ × List ℕ)
get_char [] = aborted
get_char (c ∷ cs) = ok (c, cs)

-- The second loop, with its variables `buffer`, `num` and `isInteger`.
pub read_digits : ℕ → ℕ → Bool → List ℕ → Outcome (ℕ × Bool × List ℕ)
read_digits buffer num is_integer [] = aborted
read_digits buffer num is_integer (c ∷ cs) =
    let num' = next_num num buffer in
    let is_integer' = is_integer && (is_digit c || is_blank c) in
    let rest = read_digits c num' is_integer' cs in
    if is_blank c then ok (num', is_integer', cs) else rest

-- The end of SysReadNum: what is no integer, or fits no int, becomes 0.
pub to_int : Bool → ℕ → Bool → ℕ
to_int is_negative num is_integer =
    let value = if is_negative then (2 ^ 64 - num) % 2 ^ 64 else num in
    if not is_integer
    then 0
    else if leb (2 ^ 31) value && ltb value (2 ^ 64 - 2 ^ 31)
    then 0
    else value % 2 ^ 32

pub read_rest : Bool → ℕ → List ℕ → Outcome (ℕ × List ℕ)
read_rest is_negative buffer input = do
  (num, is_integer, rest) ← read_digits buffer 0 (is_digit buffer) input
  ok (to_int is_negative num is_integer, rest)

-- The number, and the input that is left.
pub read_num : List ℕ → Outcome (ℕ × List ℕ)
read_num input = skip_blanks input >>= λ (buffer, cs).
    if buffer == 45
    then (get_char cs >>= λ (c, cs'). if is_blank c then ok (0, cs') else read_rest true c cs')
    else read_rest false buffer cs

-- `while (num != 0)`, with `room` elements of arr left: the digits, the last first.
pub collect_digits : ℕ → ℕ → Outcome (List ℕ)
collect_digits zero num = if num == 0 then ok [] else aborted
collect_digits (suc room) num =
    let rest = collect_digits room (div32 num 10) in
    if num == 0 then ok [] else (rest >>= λ ds. ok (rem32 num 10 % 2 ^ 8 ∷ ds))

-- The last loop prints them from the end of arr on.
pub put_digits : List ℕ → List ℕ
put_digits [] = []
put_digits (d ∷ ds) = put_digits ds ++ ((48 + d) % 2 ^ 8) ∷ []

-- What is displayed.
pub print_num : ℕ → Outcome (List ℕ)
print_num num =
    if num == 0
    then ok (48 ∷ [])
    else (collect_digits 10 (if is_negative num then neg32 num else num) >>= λ ds.
        ok (put_digits ds))
