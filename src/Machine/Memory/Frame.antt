-- ===== src/Machine/Memory/Frame.antt =====
-- Accesses to the memory where no fault comes back: the registers stay as they are.
use cs107_nach_os.Common.{
  ℕ, ◌≡◌, ◌≢◌, Bool, true, false, Option, none, some, Outcome, ok, aborted, ◌>>=◌,
}
use cs107_nach_os.Machine.{Machine, Handler, ExceptionType, no_exception, raise_exception}
use cs107_nach_os.Machine.Sound.{Always, Always-bind, Always-then}
use cs107_nach_os.Machine.Translate.{Translated, fault, physical, translate}
use cs107_nach_os.Machine.Translate.Frame.{Kept, translate-Kept}
use cs107_nach_os.Machine.Memory.{load, store, read_mem, write_mem}
use cs107_nach_os.Machine.Memory.Sound.{AreBytes, store-AreBytes}

pub record Untouched (m m' : Machine) : Type 0 where
  pub registers : m'.registers ≡ m.registers
  pub bytes : AreBytes m.main_memory → AreBytes m'.main_memory

-- The kernel halts on every fault.
abbrev pub HaltsOnFault : Handler → Type 0
HaltsOnFault handler = (e : ExceptionType) (m : Machine) → e ≢ no_exception → handler e m ≡ aborted

module _ (handler : Handler) (halts : HaltsOnFault handler) (m : Machine) where
  fault_aborts :
      {A : Type 0} (P : A → Type 0) (m' : Machine) (e : ExceptionType) (addr : ℕ)
      (f : Machine → Outcome A)
      → e ≢ no_exception
      → Always P (raise_exception handler m' e addr >>= f)
  unfolding raise_exception
  fault_aborts P m' e addr f h = rw (halts e _ h) tt

  abbrev ReadKept : Option ℕ × Machine → Type 0
  ReadKept r = Untouched m r.1

  abbrev WriteKept : Bool × Machine → Type 0
  WriteKept r = Untouched m r.1

  pub read_mem-Untouched :
      (addr size : ℕ) → Always (λ r. Untouched m r.1) (read_mem handler m addr size)
  unfolding read_mem
  read_mem-Untouched addr size =
      Always-bind (Kept m) ReadKept (translate m addr size false) _
        (translate-Kept m addr size false) (λ r k. go r.0 r.1 k)
    where
      go :
          (t : Translated) (m' : Machine)
          → Kept m (t, m')
          → Always ReadKept (elim t as (λ _. Outcome (Option ℕ × Machine)) [
            | fault e ↦ do m'' ← raise_exception handler m' e addr; ok (none, m'')
            | physical p ↦ do v ← load m'.main_memory p size; ok (some v, m')
          ])
      go (fault e) m' k = fault_aborts ReadKept m' e addr _ k.raised
      go (physical p) m' k =
          Always-then ReadKept (load m'.main_memory p size) _
            (λ v. record { registers = k.registers; bytes = λ b. rw (k.memory) b })

  pub write_mem-Untouched :
      (addr size value : ℕ) → Always (λ r. Untouched m r.1) (write_mem handler m addr size value)
  unfolding write_mem
  write_mem-Untouched addr size value =
      Always-bind (Kept m) WriteKept (translate m addr size true) _
        (translate-Kept m addr size true) (λ r k. go r.0 r.1 k)
    where
      go :
          (t : Translated) (m' : Machine)
          → Kept m (t, m')
          → Always WriteKept (elim t as (λ _. Outcome (Bool × Machine)) [
            | fault e ↦ do m'' ← raise_exception handler m' e addr; ok (false, m'')
            | physical p ↦ do
              memory ← store m'.main_memory p size value
              ok (true, record m' { main_memory = memory })
          ])
      go (fault e) m' k = fault_aborts WriteKept m' e addr _ k.raised
      go (physical p) m' k =
          elim (store m'.main_memory p size value)
              as (λ o.
                (AreBytes m'.main_memory → Always AreBytes o)
                → Always WriteKept
                    (o >>= λ memory. ok (true, record m' { main_memory = memory }))) [
                      | ok memory ↦
                          λ f. record { registers = k.registers; bytes = λ b. f (rw (k.memory) b) }
                      | aborted ↦ λ f. tt
                    ]
            (store-AreBytes m'.main_memory p size value)
