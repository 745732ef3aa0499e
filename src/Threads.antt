-- ===== src/Threads.antt =====
-- NachOS-4.0/code/threads: the scheduler and the threads that it switches between. Threads are
-- numbers. A List<Thread *> is the sequence of its items, which is what LinkedList shows of lists.
pub mod Semaphore
pub mod Lock
use cs107_nach_os.Common.{
  ℕ, Bool, true, false, not, ◌||◌, Option, none, some, List, [], ◌∷◌, ◌++◌, Outcome, ok, ◌>>=◌,
  ◌>>◌, assert, ◌==◌, if◌then◌else◌,
}

pub data IntStatus : Type 0 where
  int_off int_on : IntStatus

pub data ThreadStatus : Type 0 where
  just_created running ready blocked : ThreadStatus

abbrev pub is_off : IntStatus → Bool
is_off int_off = true
is_off int_on = false

-- The kernel's scheduler, its current thread, the level of interrupts and the status of each thread.
pub record Kernel : Type 0 where
  pub current : ℕ
  pub level : IntStatus
  pub ready_list : List ℕ
  pub to_be_destroyed : Option ℕ
  pub status : ℕ → ThreadStatus

-- List::IsInList, List::Append and List::RemoveFront.
abbrev pub is_in : ℕ → List ℕ → Bool
is_in t [] = false
is_in t (x ∷ xs) = (x == t) || is_in t xs

abbrev pub append : ℕ → List ℕ → Outcome (List ℕ)
append t ts = assert (not (is_in t ts)) >> ok (ts ++ t ∷ [])

abbrev pub set_status : ℕ → ThreadStatus → Kernel → Kernel
set_status t st k = record k { status = λ i. if t == i then st else k.status i }

abbrev pub ready_to_run : ℕ → Kernel → Outcome Kernel
ready_to_run t k =
    assert (is_off k.level)
    >> (append t k.ready_list >>= λ l. ok (record (set_status t ready k) { ready_list = l }))

abbrev pub find_next_to_run : Kernel → Outcome (Option ℕ × Kernel)
find_next_to_run k =
    assert (is_off k.level)
    >> elim k.ready_list [ [] ↦ ok (none, k) | t ∷ ts ↦ ok (some t, record k { ready_list = ts }) ]

-- With the assertion of the destructor of Thread.
abbrev pub check_to_be_destroyed : Kernel → Outcome Kernel
check_to_be_destroyed k = elim k.to_be_destroyed [
  | none ↦ ok k
  | some t ↦ assert (not (t == k.current)) >> ok (record k { to_be_destroyed = none })
]

abbrev is_none : Option ℕ → Bool
is_none none = true
is_none (some t) = false

-- `toBeDestroyed = oldThread`
abbrev pub mark_finished : Bool → Kernel → Outcome Kernel
mark_finished finishing k =
    if finishing
    then assert (is_none k.to_be_destroyed) >> ok (record k { to_be_destroyed = some k.current })
    else ok k

-- Run up to SWITCH, and then what nextThread does behind its own SWITCH. The registers of user
-- programs and the end of the stack are left out.
abbrev pub run : ℕ → Bool → Kernel → Outcome Kernel
run next_thread finishing k =
    assert (is_off k.level)
    >> (mark_finished finishing k >>= λ k'.
        check_to_be_destroyed
          (set_status next_thread running (record k' { current = next_thread })))
