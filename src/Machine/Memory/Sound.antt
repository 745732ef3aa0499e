-- ===== src/Machine/Memory/Sound.antt =====
-- Reads and writes of the memory keep registers at words and the memory at bytes.
use cs107_nach_os.Common.{
  ℕ, ◌+◌, ◌/◌, ◌%◌, ◌^◌, ◌<◌, Bool, true, false, Option, none, some, Outcome, ok, ◌>>=◌, ◌==◌,
  arith,
}
use cs107_nach_os.Common.Words.{IsWord}
use cs107_nach_os.Machine.{Machine, Handler, write, raise_exception}
use cs107_nach_os.Machine.Sound.{
  IsSound, IsSettled, KeepsSettled, Always, Always-bind, Always-if, raise_exception-IsSettled,
}
use cs107_nach_os.Machine.Translate.{Translated, fault, physical, translate}
use cs107_nach_os.Machine.Translate.Frame.{translate-IsSound}
use cs107_nach_os.Machine.Memory.{char_to_int, load, store, read_mem, write_mem}

abbrev pub AreBytes : (ℕ → ℕ) → Type 0
AreBytes f = (a : ℕ) → f a < 2 ^ 8

pub load-IsWord : (f : ℕ → ℕ) (p size : ℕ) → AreBytes f → Always IsWord (load f p size)
unfolding load char_to_int
load-IsWord f p size b =
    let b0 = b p in
    let b1 = b (p + 1) in
    let b2 = b (p + 2) in
    let b3 = b (p + 3) in
    Always-if IsWord (size == 1) _ _ (ground (arith, b0)) (
      Always-if IsWord (size == 2) _ _ (omega (arith, b0, b1))
        (Always-if IsWord (size == 4) _ _ (omega (arith, b0, b1, b2, b3)) tt))

write-AreBytes : (f : ℕ → ℕ) (p v : ℕ) → AreBytes f → v < 2 ^ 8 → AreBytes (write f p v)
write-AreBytes f p v b h = λ a. ground (arith, b a, h)

pub store-AreBytes :
    (f : ℕ → ℕ) (p size value : ℕ) → AreBytes f → Always AreBytes (store f p size value)
unfolding store
store-AreBytes f p size value b =
    let m1 = write-AreBytes f p (value % 2 ^ 8) b (omega arith) in
    let m2 = write-AreBytes _ (p + 1) (value / 2 ^ 8 % 2 ^ 8) m1 (omega arith) in
    let m3 = write-AreBytes _ (p + 2) (value / 2 ^ 16 % 2 ^ 8) m2 (omega arith) in
    let m4 = write-AreBytes _ (p + 3) (value / 2 ^ 24 % 2 ^ 8) m3 (omega arith) in
    Always-if AreBytes (size == 1) _ _ m1
      (Always-if AreBytes (size == 2) _ _ m2 (Always-if AreBytes (size == 4) _ _ m4 tt))

-- After a read: the value is a word; where there is none, the kernel has run.
pub data IsRead : Option ℕ × Machine → Type 0 where
  got : (v : ℕ) (m : Machine) → IsWord v → IsSound m → IsRead (some v, m)
  trapped : (m : Machine) → IsSettled m → IsRead (none, m)

pub data IsWritten : Bool × Machine → Type 0 where
  stored : (m : Machine) → IsSound m → IsWritten (true, m)
  trapped : (m : Machine) → IsSettled m → IsWritten (false, m)

module _ (handler : Handler) (keeps : KeepsSettled handler) (m : Machine) (s : IsSound m) where
  pub read_mem-IsRead : (addr size : ℕ) → IsWord addr → Always IsRead (read_mem handler m addr size)
  unfolding read_mem
  read_mem-IsRead addr size w =
      Always-bind (λ (r : Translated × Machine). IsSound r.1) IsRead (translate m addr size false) _
        (translate-IsSound m s addr size false) (λ r k. go r.0 r.1 k)
    where
      go :
          (t : Translated) (m' : Machine)
          → IsSound m'
          → Always IsRead (elim t as (λ _. Outcome (Option ℕ × Machine)) [
            | fault e ↦ do m'' ← raise_exception handler m' e addr; ok (none, m'')
            | physical p ↦ do v ← load m'.main_memory p size; ok (some v, m')
          ])
      go (fault e) m' k =
          Always-bind IsSettled IsRead _ _ (raise_exception-IsSettled handler m' e addr keeps k w)
            (λ m'' f. IsRead.trapped m'' f)
      go (physical p) m' k =
          Always-bind IsWord IsRead _ _ (load-IsWord m'.main_memory p size k.bytes)
            (λ v f. got v m' f k)

  pub write_mem-IsWritten :
      (addr size value : ℕ) → IsWord addr → Always IsWritten (write_mem handler m addr size value)
  unfolding write_mem
  write_mem-IsWritten addr size value w =
      Always-bind (λ (r : Translated × Machine). IsSound r.1) IsWritten (translate m addr size true)
        _ (translate-IsSound m s addr size true) (λ r k. go r.0 r.1 k)
    where
      go :
          (t : Translated) (m' : Machine)
          → IsSound m'
          → Always IsWritten (elim t as (λ _. Outcome (Bool × Machine)) [
            | fault e ↦ do m'' ← raise_exception handler m' e addr; ok (false, m'')
            | physical p ↦ do
              memory ← store m'.main_memory p size value
              ok (true, record m' { main_memory = memory })
          ])
      go (fault e) m' k =
          Always-bind IsSettled IsWritten _ _
            (raise_exception-IsSettled handler m' e addr keeps k w)
            (λ m'' f. IsWritten.trapped m'' f)
      go (physical p) m' k =
          Always-bind AreBytes IsWritten _ _ (store-AreBytes m'.main_memory p size value k.bytes)
            (λ g f. stored _ (record { words = k.words; bytes = f }))
