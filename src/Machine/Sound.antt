-- ===== src/Machine/Sound.antt =====
-- What the machine keeps to between two instructions, and that a trap into the kernel does.
use cs107_nach_os.Common.{
  ℕ, ◌^◌, ◌<◌, ◌≡◌, refl, Bool, true, false, Option, none, some, Outcome, ok, aborted, ◌>>=◌, ◌>>◌,
  if◌then◌else◌, arith,
}
use cs107_nach_os.Common.Words.{IsWord}
use cs107_nach_os.Machine.{
  Machine, ExceptionType, Handler, set_register, delayed_load, raise_exception,
}

-- Registers hold words, and the memory holds bytes.
pub record IsSound (m : Machine) : Type 0 where
  pub words : (r : ℕ) → IsWord (m.registers r)
  pub bytes : (a : ℕ) → m.main_memory a < 2 ^ 8

-- Register 0 is 0 as well.
pub record IsSettled (m : Machine) : Type 0 where
  pub sound : IsSound m
  pub zero_reg : m.registers 0 ≡ 0

-- If the code comes back, then with a result that satisfies P.
abbrev pub Always : {A : Type 0} → (A → Type 0) → Outcome A → Type 0
Always P (ok a) = P a
Always P aborted = Unit {0}

pub Always-bind :
    {A B : Type 0} (P : A → Type 0) (Q : B → Type 0) (r : Outcome A) (f : A → Outcome B)
    → Always P r
    → ((a : A) → P a → Always Q (f a))
    → Always Q (r >>= f)
Always-bind P Q (ok a) f p h = h a p
Always-bind P Q aborted f p h = tt

pub Always-then :
    {A B : Type 0} (Q : B → Type 0) (r : Outcome A) (f : A → Outcome B)
    → ((a : A) → Always Q (f a))
    → Always Q (r >>= f)
Always-then Q (ok a) f h = h a
Always-then Q aborted f h = tt

pub Always-next :
    {B : Type 0} (Q : B → Type 0) (r : Outcome (Unit {0})) (q : Outcome B)
    → Always Q q
    → Always Q (r >> q)
Always-next Q (ok a) q h = h
Always-next Q aborted q h = tt

pub Always-map :
    {A : Type 0} (P Q : A → Type 0) (r : Outcome A)
    → ((a : A) → P a → Q a)
    → Always P r
    → Always Q r
Always-map P Q (ok a) f p = f a p
Always-map P Q aborted f p = tt

pub Always-option :
    {A B : Type 0} (P : B → Type 0) (o : Option A) (r : Outcome B) (f : A → Outcome B)
    → Always P r
    → ((a : A) → Always P (f a))
    → Always P (elim o [ none ↦ r | some a ↦ f a ])
Always-option P none r f p h = p
Always-option P (some a) r f p h = h a

pub Always-if :
    {A : Type 0} (P : A → Type 0) (c : Bool) (r q : Outcome A)
    → Always P r
    → Always P q
    → Always P (if c then r else q)
Always-if P true r q p h = p
Always-if P false r q p h = h

-- The kernel keeps to it too.
abbrev pub KeepsSettled : Handler → Type 0
KeepsSettled handler =
    (e : ExceptionType) (m : Machine) → IsSettled m → Always IsSettled (handler e m)

pub set_register-IsSound :
    (m : Machine) (i v : ℕ) → IsSound m → IsWord v → IsSound (set_register m i v)
set_register-IsSound m i v s w = record {
  words = λ r. ground (arith, s.words r, w);
  bytes = s.bytes;
}

-- A delayed load leaves register 0 at 0.
pub delayed_load-IsSettled :
    (m : Machine) (reg v : ℕ) → IsSound m → IsWord reg → IsWord v → IsSettled (delayed_load m reg v)
unfolding delayed_load
delayed_load-IsSettled m reg v s p q = record {
  sound = record { words = λ r. ground (arith, s.words r, s.words 38, p, q); bytes = s.bytes };
  zero_reg = refl;
}

pub raise_exception-IsSettled :
    (handler : Handler) (m : Machine) (e : ExceptionType) (addr : ℕ)
    → KeepsSettled handler
    → IsSound m
    → IsWord addr
    → Always IsSettled (raise_exception handler m e addr)
unfolding raise_exception
raise_exception-IsSettled handler m e addr keeps s w =
    let d =
      delayed_load-IsSettled (set_register m 39 addr) 0 0 (set_register-IsSound m 39 addr s w)
        (omega arith) (omega arith) in
    Always-bind IsSettled IsSettled _ _
      (keeps e _ (record {
        sound = record { words = d.sound.words; bytes = d.sound.bytes };
        zero_reg = d.zero_reg;
      }))
      (λ m2 k. record {
        sound = record { words = k.sound.words; bytes = k.sound.bytes };
        zero_reg = k.zero_reg;
      })
