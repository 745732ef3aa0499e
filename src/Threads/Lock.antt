-- ===== src/Threads/Lock.antt =====
-- The class Lock of NachOS-4.0/code/threads/synch.{h,cc}, over a semaphore.
pub mod Exclusion
mod Tests
use cs107_nach_os.Common.{
  ℕ, Bool, false, Option, none, some, List, [], ◌∷◌, Outcome, ok, ◌>>=◌, ◌>>◌, assert, ◌==◌,
  if◌then◌else◌,
}
use cs107_nach_os.Threads.Semaphore.{System, p, p_loop, v}

-- A lock with where its users stand: `entered` behind the P of Acquire, `holding` behind Acquire,
-- and `leaving` before the V of Release.
pub record Lock : Type 0 where
  pub semaphore : System
  pub lock_holder : Option ℕ
  pub entered : List ℕ
  pub holding : List ℕ
  pub leaving : List ℕ

abbrev pub me : Lock → ℕ
me l = l.semaphore.kernel.current

abbrev pub erase : ℕ → List ℕ → List ℕ
erase t [] = []
erase t (x ∷ xs) = if x == t then xs else x ∷ erase t xs

-- P either returns in this step or sleeps.
abbrev pub mark_entered : System → System → Lock → Lock
mark_entered before after l =
    let entered' = if before.value == 0 then l.entered else before.kernel.current ∷ l.entered in
    record l { semaphore = after; entered = entered' }

pub acquire_start : Lock → Outcome Lock
acquire_start l = p l.semaphore >>= λ s. ok (mark_entered l.semaphore s l)

pub acquire_again : Lock → Outcome Lock
acquire_again l = p_loop l.semaphore >>= λ s. ok (mark_entered l.semaphore s l)

-- `lockHolder = kernel->currentThread`
pub acquire_end : Lock → Lock
acquire_end l = record l {
  lock_holder = some (me l);
  entered = erase (me l) l.entered;
  holding = me l ∷ l.holding;
}

abbrev pub is_held_by_current_thread : Lock → Bool
is_held_by_current_thread l = elim l.lock_holder [ none ↦ false | some t ↦ t == me l ]

-- The assertion of Release, and `lockHolder = NULL`.
pub release_start : Lock → Outcome Lock
release_start l =
    assert (is_held_by_current_thread l)
    >> ok (record l {
      lock_holder = none;
      holding = erase (me l) l.holding;
      leaving = me l ∷ l.leaving;
    })

pub release_end : Lock → Outcome Lock
release_end l =
    v l.semaphore >>= λ s. ok (record l { semaphore = s; leaving = erase (me l) l.leaving })
