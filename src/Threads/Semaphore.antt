-- ===== src/Threads/Semaphore.antt =====
-- The class Semaphore of NachOS-4.0/code/threads/synch.{h,cc}, and the operations of Thread in
-- thread.cc that give up the processor, over the threads of Threads.
pub mod Counts
pub mod Invariant
pub mod Sleep
pub mod Steps
pub mod Runs
mod Tests
use cs107_nach_os.Common.{
  ℕ, ◌+◌, ◌-◌, ◌%◌, ◌^◌, Bool, true, false, none, some, List, [], ◌∷◌, Outcome, ok, ◌>>=◌, ◌>>◌,
  assert, ◌==◌, if◌then◌else◌,
}
use cs107_nach_os.Threads.{
  Kernel, IntStatus, int_off, int_on, is_off, blocked, set_status, append, ready_to_run,
  find_next_to_run, run,
}

-- Whether a thread runs, or the kernel idles in the loop of Sleep(finishing) of the current thread.
pub data Phase : Type 0 where
  on_cpu : Phase
  idling : Bool → Phase

-- A semaphore with the threads that use it: its value is an int, which wraps in V; `in_p` holds of a thread that has slept in P and will
-- go on in its loop.
pub record System : Type 0 where
  pub kernel : Kernel
  pub phase : Phase
  pub value : ℕ
  pub queue : List ℕ
  pub in_p : ℕ → Bool

abbrev pub set_level : IntStatus → System → System
set_level l s = record s { kernel = record s.kernel { level = l } }

abbrev pub mark_in_p : Bool → System → System
mark_in_p b s = record s { in_p = λ i. if s.kernel.current == i then b else s.in_p i }

-- What a thread does once it has the processor again: the loop of P, or the end of Yield or of
-- Begin, where interrupts are enabled.
abbrev pub come_back : System → System
come_back s = set_level (if s.in_p s.kernel.current then s.kernel.level else int_on) s

abbrev pub switch_to : ℕ → Bool → System → Outcome System
switch_to next_thread finishing s = run next_thread finishing s.kernel >>= λ k.
    ok (come_back (record s { kernel = k; phase = on_cpu }))

-- One round of the loop of Sleep.
pub sleep_loop : Bool → System → Outcome System
sleep_loop finishing s = find_next_to_run s.kernel >>= λ (next, k). elim next [
  | none ↦ ok (record s { phase = idling finishing })
  | some next_thread ↦ switch_to next_thread finishing (record s { kernel = k })
]

pub sleep : Bool → System → Outcome System
unfolding sleep_loop
sleep finishing s =
    assert (is_off s.kernel.level)
    >> sleep_loop finishing (record s { kernel = set_status s.kernel.current blocked s.kernel })

-- One round of the loop of P, and what follows it. P is called with interrupts on, and that is the
-- old level that it sets again.
pub p_loop : System → Outcome System
unfolding sleep
p_loop s =
    if s.value == 0
    then (append s.kernel.current s.queue >>= λ q.
        sleep false (mark_in_p true (record s { queue = q })))
    else ok (set_level int_on (mark_in_p false (record s { value = s.value - 1 })))

pub p : System → Outcome System
unfolding p_loop
p s = p_loop (set_level int_off s)

pub v : System → Outcome System
v s =
    let old_level = s.kernel.level in
    let s1 = set_level int_off s in
    let raised : System → System =
      λ s2. set_level old_level (record s2 { value = (s2.value + 1) % 2 ^ 32 }) in
    elim s1.queue [
      | [] ↦ ok (raised s1)
      | t ∷ ts ↦
          ready_to_run t s1.kernel >>= λ k. ok (raised (record s1 { kernel = k; queue = ts }))
    ]

pub yield : System → Outcome System
yield s = find_next_to_run (record s.kernel { level = int_off }) >>= λ (next, k). elim next [
  | none ↦ ok s
  | some next_thread ↦
      ready_to_run k.current k >>= λ k'. switch_to next_thread false (record s { kernel = k' })
]

pub finish : System → Outcome System
unfolding sleep
finish s = sleep true (set_level int_off s)

-- Of a new thread t.
pub fork : ℕ → System → Outcome System
fork t s =
    let old_level = s.kernel.level in
    ready_to_run t (record s.kernel { level = int_off }) >>= λ k.
    ok (set_level old_level (record s { kernel = k }))
