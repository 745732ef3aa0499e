-- ===== src/Threads/Semaphore/Invariant.antt =====
-- What holds between two steps of the threads, and that no step breaks it or fails an assertion.
use cs107_nach_os.Common.{
  ℕ, ◌+◌, ◌%◌, ◌^◌, ◌≤◌, ◌<◌, ◌≡◌, length, not, ◌&&◌, refl, ap, Bool, true, false, none, List, [],
  ◌∷◌, ◌++◌, ok, ◌==◌, if◌then◌else◌, arith,
}
use cs107_nach_os.Threads.{int_off, int_on, running, ready, blocked, set_status}
use cs107_nach_os.Threads.Semaphore.{Phase, on_cpu, idling, System, v}
use cs107_nach_os.Threads.Semaphore.Counts.{
  one_if, count, woken, count-snoc, woken-snoc, append_new,
}

-- The current thread has its own place: it runs, or it idles and has finished.
abbrev pub apart : Phase → Bool
apart on_cpu = true
apart (idling finishing) = finishing

abbrev pub is_on_cpu : Phase → Bool
is_on_cpu on_cpu = true
is_on_cpu (idling finishing) = false

-- The threads that V has woken and that will look at the value again.
abbrev pub pending : System → ℕ
pending s =
    woken s.in_p s.kernel.ready_list
    + (if is_on_cpu s.phase then one_if (s.in_p s.kernel.current) else 0)

pub record IsValid (s : System) : Type 0 where
  -- Nobody is in two places.
  pub once :
      (t : ℕ)
      → count t s.kernel.ready_list
          + count t s.queue
          + (if apart s.phase then one_if (s.kernel.current == t) else 0)
        ≤ 1
  pub asleep : (t : ℕ) → 0 < count t s.queue → s.in_p t ≡ true
  -- No wakeup is lost: while threads sleep, every unit of the value has a woken thread.
  pub enough : 0 < length s.queue → s.value ≤ pending s
  -- Interrupts are off while the kernel idles and inside P, and else on.
  pub level :
      s.kernel.level
      ≡ (if is_on_cpu s.phase && not (s.in_p s.kernel.current) then int_on else int_off)
  pub no_wreck : s.kernel.to_be_destroyed ≡ none
  pub status_ready : (t : ℕ) → 0 < count t s.kernel.ready_list → s.kernel.status t ≡ ready
  pub status_blocked : (t : ℕ) → 0 < count t s.queue → s.kernel.status t ≡ blocked
  pub status_running : is_on_cpu s.phase ≡ true → s.kernel.status s.kernel.current ≡ running

pub on_cpu-apart : (ph : Phase) → is_on_cpu ph ≡ true → apart ph ≡ true
on_cpu-apart on_cpu e = refl
on_cpu-apart (idling f) e = absurd (ground arith)

-- The state in which V leaves a queue with t in front.
abbrev after_v : System → ℕ → List ℕ → System
after_v s t ts = record s {
  kernel = record (set_status t ready s.kernel) { ready_list = s.kernel.ready_list ++ t ∷ [] };
  value = (s.value + 1) % 2 ^ 32;
  queue = ts;
}

v_of :
    (s : System) (q : List ℕ)
    → IsValid (record s { queue = q })
    → (s' : System) × (v (record s { queue = q }) ≡ ok s') × IsValid s'
unfolding v
v_of s [] i = (
  _,
  refl,
  record {
    once = i.once;
    asleep = i.asleep;
    enough = λ l. absurd (omega (arith, l));
    level = i.level;
    no_wreck = i.no_wreck;
    status_ready = i.status_ready;
    status_blocked = i.status_blocked;
    status_running = i.status_running;
  },
)
v_of s (t ∷ ts) i =
    let free : count t s.kernel.ready_list ≡ 0 = ground (arith, i.once t) in
    let b = i.asleep t (ground arith) in
    let fresh = append_new t s.kernel.ready_list free in
    (
      after_v s t ts,
      rw fresh refl,
      record {
        once = λ j. ground (arith, i.once j, count-snoc j t s.kernel.ready_list);
        asleep = λ j l. i.asleep j (omega (arith, l));
        enough = λ l.
            omega
              (arith, i.enough (omega arith), woken-snoc s.in_p t s.kernel.ready_list, ap one_if b);
        level = i.level;
        no_wreck = i.no_wreck;
        status_ready =
            λ j l. ground (arith, i.status_ready j, count-snoc j t s.kernel.ready_list, l);
        status_blocked = λ j l. ground (arith, i.status_blocked j, i.once j, l);
        status_running = λ e.
            ground (arith, i.status_running e, i.once s.kernel.current, on_cpu-apart s.phase e);
      },
    )

-- V from a thread or from an interrupt.
pub v-IsValid : (s : System) → IsValid s → (s' : System) × (v s ≡ ok s') × IsValid s'
v-IsValid s i = v_of s s.queue i
