-- ===== src/Syscall/Text/Frame.antt =====
-- What the system calls leave of the machine: the loops of ksyscall.h between user and system.
use cs107_nach_os.Common.{
  ℕ, zero, suc, ◌+◌, ◌%◌, ◌^◌, ◌≡◌, ◌≢◌, refl, ap, Bool, Option, none, some, List, [], ◌∷◌, ok,
  aborted, ◌>>=◌, ◌==◌, if◌then◌else◌, replicate, arith,
}
use cs107_nach_os.Common.Words.{IsWord, add32, is_negative}
use cs107_nach_os.Machine.{
  Machine, no_exception, syscall_exception, page_fault_exception, read_only_exception,
  bus_error_exception, address_error_exception, overflow_exception, illegal_instr_exception,
  num_exception_types, set_register,
}
use cs107_nach_os.Machine.Sound.{Always, Always-bind, Always-if}
use cs107_nach_os.Machine.Memory.Frame.{
  Untouched, HaltsOnFault, read_mem-Untouched, write_mem-Untouched,
}
use cs107_nach_os.Machine.Memory.{char_to_int, read_mem, write_mem}
use cs107_nach_os.Machine.Memory.Sound.{AreBytes}
use cs107_nach_os.Host.{minus_one}
use cs107_nach_os.Syscall.Text.{fault_handler, copy_in, user_to_system, copy_out, system_to_user}

-- All registers but the one of results are as before, and that one holds a word and the memory
-- bytes if they did before.
pub record Follows (m m' : Machine) : Type 0 where
  pub others : (r : ℕ) → r ≢ 2 → m'.registers r ≡ m.registers r
  pub result : IsWord (m.registers 2) → IsWord (m'.registers 2)
  pub bytes : AreBytes m.main_memory → AreBytes m'.main_memory

pub Follows-refl : (m : Machine) → Follows m m
Follows-refl m = record { others = λ r h. refl; result = λ w. w; bytes = λ b. b }

pub Follows-trans : {m m' m'' : Machine} → Follows m m' → Follows m' m'' → Follows m m''
Follows-trans f g = record {
  others = λ r h. rw (g.others r h) (f.others r h);
  result = λ w. g.result (f.result w);
  bytes = λ b. g.bytes (f.bytes b);
}

same : {m m' : Machine} → Untouched m m' → Follows m m'
same u = record {
  others = λ i h. ap (λ f. f i) (u.registers);
  result = λ w. rw (u.registers) w;
  bytes = u.bytes;
}

pub answer-Follows : (m : Machine) (v : ℕ) → IsWord v → Follows m (set_register m 2 v)
answer-Follows m v w = record { others = λ r h. ground (arith, h); result = λ _. w; bytes = λ b. b }

fault_handler-HaltsOnFault : HaltsOnFault fault_handler
unfolding fault_handler
fault_handler-HaltsOnFault no_exception m h = absurd (h refl)
fault_handler-HaltsOnFault syscall_exception m h = refl
fault_handler-HaltsOnFault page_fault_exception m h = refl
fault_handler-HaltsOnFault read_only_exception m h = refl
fault_handler-HaltsOnFault bus_error_exception m h = refl
fault_handler-HaltsOnFault address_error_exception m h = refl
fault_handler-HaltsOnFault overflow_exception m h = refl
fault_handler-HaltsOnFault illegal_instr_exception m h = refl
fault_handler-HaltsOnFault num_exception_types m h = refl

abbrev Copied : Machine → List ℕ × Machine → Type 0
Copied m r = Follows m r.1

copy_in-Follows : (n addr : ℕ) (m : Machine) → Always (Copied m) (copy_in n addr m)
unfolding copy_in
copy_in-Follows zero addr m = Follows-refl m
copy_in-Follows (suc n) addr m =
    Always-bind (λ (r : Option ℕ × Machine). Untouched m r.1) (Copied m)
      (read_mem fault_handler m addr 1) _
      (read_mem-Untouched fault_handler fault_handler-HaltsOnFault m addr 1)
      (λ r k. go r.0 r.1 (same k) (copy_in-Follows n (add32 addr 1) r.1))
  where
    go :
        (v : Option ℕ) (m' : Machine)
        → Follows m m'
        → Always (Copied m') (copy_in n (add32 addr 1) m')
        → Always (Copied m) (elim v [
          | none ↦ aborted
          | some one_char ↦
              if one_char == 0
              then ok (replicate (n + 2) 0, m')
              else (copy_in n (add32 addr 1) m' >>= λ (bytes, m'').
                  ok (one_char % 2 ^ 8 ∷ bytes, m''))
        ])
    go none m' f h = tt
    go (some v) m' f h =
        Always-if (Copied m) (v == 0) _ _ f
          (Always-bind (Copied m') (Copied m) _ _ h (λ r g. Follows-trans f g))

pub user_to_system-Follows :
    (virt_addr limit : ℕ) (m : Machine)
    → Always (λ r. Follows m r.1) (user_to_system virt_addr limit m)
unfolding user_to_system
user_to_system-Follows virt_addr limit m =
    Always-if (Copied m) (limit == minus_one) _ _ (Follows-refl m)
      (Always-if (Copied m) (is_negative limit) _ _ tt (copy_in-Follows limit virt_addr m))

abbrev Stored : Machine → ℕ × Machine → Type 0
Stored m r = Follows m r.1

copy_out-Follows :
    (n addr : ℕ) (buffer : List ℕ) (m : Machine) → Always (Stored m) (copy_out n addr buffer m)
unfolding copy_out
copy_out-Follows zero addr buffer m = Follows-refl m
copy_out-Follows (suc n) addr [] m = tt
copy_out-Follows (suc n) addr (c ∷ cs) m =
    Always-bind (λ (r : Bool × Machine). Untouched m r.1) (Stored m)
      (write_mem fault_handler m addr 1 (char_to_int c)) _
      (write_mem-Untouched fault_handler fault_handler-HaltsOnFault m addr 1 (char_to_int c))
      (λ r k. Always-if (Stored m) (c == 0) _ _ (same k) (
        Always-bind (Stored r.1) (Stored m) _ _ (copy_out-Follows n (add32 addr 1) cs r.1)
          (λ q g. Follows-trans (same k) g)))

pub system_to_user-Follows :
    (virt_addr len : ℕ) (buffer : List ℕ) (m : Machine)
    → Always (λ r. Follows m r.1) (system_to_user virt_addr len buffer m)
unfolding system_to_user
system_to_user-Follows virt_addr len buffer m =
    Always-if (Stored m) (is_negative len) _ _ (Follows-refl m)
      (copy_out-Follows len virt_addr buffer m)
