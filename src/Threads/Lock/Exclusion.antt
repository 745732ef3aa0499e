-- ===== src/Threads/Lock/Exclusion.antt =====
-- At most one thread is between the P of Acquire and the V of Release.
use cs107_nach_os.Common.{ℕ, ◌+◌, ◌≡◌, true, some, length, Outcome, ok, ◌>>=◌}
use cs107_nach_os.Threads.{is_in}
use cs107_nach_os.Threads.Semaphore.Invariant.{IsValid}
use cs107_nach_os.Threads.Semaphore.Steps.{Event, wait, again, Enabled, perform}
use cs107_nach_os.Threads.Semaphore.Runs.{passes, raises}
use cs107_nach_os.Threads.Lock.{
  Lock, me, acquire_start, acquire_again, acquire_end, release_start, release_end,
}

-- What a thread does with the lock, and what else happens.
pub data LockEvent : Type 0 where
  begin_acquire retry_acquire end_acquire begin_release end_release : LockEvent
  elsewhere : Event → LockEvent

abbrev pub Allowed : LockEvent → Lock → Type 0
Allowed begin_acquire l = Enabled wait l.semaphore
Allowed retry_acquire l = Enabled again l.semaphore
Allowed end_acquire l = is_in (me l) l.entered ≡ true
Allowed begin_release l = is_in (me l) l.holding ≡ true
Allowed end_release l = is_in (me l) l.leaving ≡ true
Allowed (elsewhere e) l = Enabled e l.semaphore × (passes e l.semaphore ≡ 0) × (raises e ≡ 0)

pub perform_lock : LockEvent → Lock → Outcome Lock
perform_lock begin_acquire l = acquire_start l
perform_lock retry_acquire l = acquire_again l
perform_lock end_acquire l = ok (acquire_end l)
perform_lock begin_release l = release_start l
perform_lock end_release l = release_end l
perform_lock (elsewhere e) l = perform e l.semaphore >>= λ s. ok (record l { semaphore = s })

pub record IsExclusive (l : Lock) : Type 0 where
  pub valid : IsValid l.semaphore
  -- One thread is inside, or the semaphore lets one in.
  pub one : l.semaphore.value + length l.entered + length l.holding + length l.leaving ≡ 1
  pub owner : (t : ℕ) → is_in t l.holding ≡ true → l.lock_holder ≡ some t
