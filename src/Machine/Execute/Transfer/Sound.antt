-- ===== src/Machine/Execute/Transfer/Sound.antt =====
-- The loads and stores keep registers at words and the memory at bytes.
use cs107_nach_os.Common.{
  ℕ, ◌*◌, ◌%◌, ◌^◌, Bool, true, false, not, Option, none, some, bit_and, bit_or, Outcome, ok, ◌==◌,
  if◌then◌else◌, arith,
}
use cs107_nach_os.Common.Words.{IsWord}
use cs107_nach_os.Common.WordBounds.{sra32-IsWord, bit_and-IsWord, bit_or-IsWord}
use cs107_nach_os.Machine.{Machine, Handler, address_error_exception, load_value_reg}
use cs107_nach_os.Machine.Sound.{IsSound, KeepsSettled, Always-bind, Always-if}
use cs107_nach_os.Machine.Instruction.{Instruction}
use cs107_nach_os.Machine.Memory.{read_mem, write_mem}
use cs107_nach_os.Machine.Memory.Sound.{
  IsRead, got, IsWritten, stored, read_mem-IsRead, write_mem-IsWritten,
}
use cs107_nach_os.Machine.Execute.Ending.{Flow, returned, go_on}
use cs107_nach_os.Machine.Execute.Ending.Sound.{
  IsSoundFlow, IsSoundCase, go_on-IsSound, start_load-IsSound, trap-IsSound,
}
use cs107_nach_os.Machine.Execute.Transfer.{
  load_byte_value, load_half_value, lwl_value, lwr_value, address, reading, writing, pending,
  execute_lw, execute_lwl, execute_lwr, execute_sb, execute_sh, execute_sw, execute_swl,
  execute_swr, execute_lb, execute_lh,
}

if-IsWord : (c : Bool) (x y : ℕ) → IsWord x → IsWord y → IsWord (if c then x else y)
if-IsWord true x y p q = p
if-IsWord false x y p q = q

merged : (a b c d : ℕ) → IsWord a → IsWord c → IsWord (bit_or (bit_and a b) (bit_and c d))
merged a b c d p q = bit_or-IsWord _ _ (bit_and-IsWord a b p) (bit_and-IsWord c d q)

load_byte_value-IsWord : (signed : Bool) (v : ℕ) → IsWord v → IsWord (load_byte_value signed v)
unfolding load_byte_value
load_byte_value-IsWord signed v h =
    let low = bit_and-IsWord v 0xff h in
    if-IsWord _ _ _ (if-IsWord signed _ _ (bit_or-IsWord v 0xffffff00 h (omega arith)) low) low

load_half_value-IsWord : (signed : Bool) (v : ℕ) → IsWord v → IsWord (load_half_value signed v)
unfolding load_half_value
load_half_value-IsWord signed v h =
    let low = bit_and-IsWord v 0xffff h in
    if-IsWord _ _ _ (if-IsWord signed _ _ (bit_or-IsWord v 0xffff0000 h (omega arith)) low) low

lwl_value-IsWord : (k old v : ℕ) → IsWord old → IsWord v → IsWord (lwl_value k old v)
unfolding lwl_value
lwl_value-IsWord k old v p q = if-IsWord (k == 0) _ _ q (
    if-IsWord (k == 1) _ _
      (bit_or-IsWord _ (v * 2 ^ 8 % 2 ^ 32) (bit_and-IsWord old 0xff p) (omega arith))
      (if-IsWord (k == 2) _ _
        (bit_or-IsWord _ (v * 2 ^ 16 % 2 ^ 32) (bit_and-IsWord old 0xffff p) (omega arith))
        (bit_or-IsWord _ (v * 2 ^ 24 % 2 ^ 32) (bit_and-IsWord old 0xffffff p) (omega arith))))

lwr_value-IsWord : (k old v : ℕ) → IsWord old → IsWord v → IsWord (lwr_value k old v)
unfolding lwr_value
lwr_value-IsWord k old v p q = if-IsWord (k == 0) _ _ (merged _ _ _ _ p (sra32-IsWord v 24 q)) (
    if-IsWord (k == 1) _ _ (merged _ _ _ _ p (sra32-IsWord v 16 q))
      (if-IsWord (k == 2) _ _ (merged _ _ _ _ p (sra32-IsWord v 8 q)) q))

module _ (handler : Handler) (keeps : KeepsSettled handler) (i : Instruction) (m : Machine)
    (s : IsSound m) where
  address_word : IsWord (address handler i m)
  address_word = omega arith

  reading-IsSound :
      (addr size : ℕ) (next : ℕ → Machine → Outcome Flow)
      → IsWord addr
      → ((v : ℕ) (m' : Machine) → IsWord v → IsSound m' → IsSoundCase (next v m'))
      → IsSoundCase (reading handler i m addr size next)
  reading-IsSound addr size next a h =
      Always-bind IsRead IsSoundFlow (read_mem handler m addr size) _
        (read_mem-IsRead handler keeps m s addr size a) (λ r k. go r k)
    where
      go :
          (r : Option ℕ × Machine)
          → IsRead r
          → IsSoundCase
              (elim r.0 as (λ _. Outcome Flow) [ none ↦ ok (returned r.1) | some v ↦ next v r.1 ])
      go r (got v m' w k) = h v m' w k
      go r (IsRead.trapped m' k) = k

  writing-IsSound :
      (m1 : Machine) (addr size value : ℕ)
      → IsSound m1
      → IsWord addr
      → IsSoundCase (writing handler i m m1 addr size value)
  writing-IsSound m1 addr size value s1 a =
      Always-bind IsWritten IsSoundFlow (write_mem handler m1 addr size value) _
        (write_mem-IsWritten handler keeps m1 s1 addr size value a) (λ r k. go r k)
    where
      go :
          (r : Bool × Machine)
          → IsWritten r
          → IsSoundCase (if r.0 then go_on m r.1 else ok (returned r.1))
      go r (stored m' k) = go_on-IsSound m m' k
      go r (IsWritten.trapped m' k) = k

  module _ (rt_word : IsWord i.rt) where
    pub execute_lb-IsSound : (signed : Bool) → IsSoundCase (execute_lb handler i m signed)
    unfolding execute_lb
    execute_lb-IsSound signed =
        reading-IsSound _ 1 _ address_word
          λ v m' w k. start_load-IsSound m m' i.rt _ k rt_word (load_byte_value-IsWord signed v w)

    pub execute_lh-IsSound : (signed : Bool) → IsSoundCase (execute_lh handler i m signed)
    unfolding execute_lh
    execute_lh-IsSound signed =
        Always-if IsSoundFlow (not (bit_and (address handler i m) 0x1 == 0)) _ _
          (trap-IsSound m handler address_error_exception _ keeps s address_word)
          (reading-IsSound _ 2 _ address_word λ v m' w k.
            start_load-IsSound m m' i.rt _ k rt_word (load_half_value-IsWord signed v w))

    pub execute_lw-IsSound : IsSoundCase (execute_lw handler i m)
    unfolding execute_lw
    execute_lw-IsSound =
        Always-if IsSoundFlow (not (bit_and (address handler i m) 0x3 == 0)) _ _
          (trap-IsSound m handler address_error_exception _ keeps s address_word)
          (reading-IsSound _ 4 _ address_word
            λ v m' w k. start_load-IsSound m m' i.rt v k rt_word w)

    pending-IsWord : (m' : Machine) → IsSound m' → IsWord (pending handler i m m')
    pending-IsWord m' k = if-IsWord _ _ _ (k.words load_value_reg) (k.words i.rt)

    pub execute_lwl-IsSound : IsSoundCase (execute_lwl handler i m)
    unfolding execute_lwl
    execute_lwl-IsSound = reading-IsSound _ 4 _ (omega arith) λ v m' w k.
        start_load-IsSound m m' i.rt _ k rt_word (lwl_value-IsWord _ _ v (pending-IsWord m' k) w)

    pub execute_lwr-IsSound : IsSoundCase (execute_lwr handler i m)
    unfolding execute_lwr
    execute_lwr-IsSound = reading-IsSound _ 4 _ (omega arith) λ v m' w k.
        start_load-IsSound m m' i.rt _ k rt_word (lwr_value-IsWord _ _ v (pending-IsWord m' k) w)

  pub execute_sb-IsSound : IsSoundCase (execute_sb handler i m)
  unfolding execute_sb
  execute_sb-IsSound = writing-IsSound m _ 1 _ s address_word

  pub execute_sh-IsSound : IsSoundCase (execute_sh handler i m)
  unfolding execute_sh
  execute_sh-IsSound = writing-IsSound m _ 2 _ s address_word

  pub execute_sw-IsSound : IsSoundCase (execute_sw handler i m)
  unfolding execute_sw
  execute_sw-IsSound = writing-IsSound m _ 4 _ s address_word

  pub execute_swl-IsSound : IsSoundCase (execute_swl handler i m)
  unfolding execute_swl
  execute_swl-IsSound =
      reading-IsSound _ 4 _ (omega arith) λ v m' w k. writing-IsSound m' _ 4 _ k (omega arith)

  pub execute_swr-IsSound : IsSoundCase (execute_swr handler i m)
  unfolding execute_swr
  execute_swr-IsSound =
      reading-IsSound _ 4 _ (omega arith) λ v m' w k. writing-IsSound m' _ 4 _ k (omega arith)
