-- ===== src/Threads/Semaphore/Sleep.antt =====
-- Giving up the processor keeps the threads in order.
use cs107_nach_os.Common.{
  ℕ, ◌-◌, ◌<◌, ◌≡◌, refl, ap, ◌∙◌, Bool, true, false, none, List, [], ◌∷◌, ◌++◌, ok, ◌==◌,
  if◌then◌else◌, arith, inl, inr, Bool-cases,
}
use cs107_nach_os.Threads.{Kernel, int_off, int_on, is_off, running, blocked, set_status, run}
use cs107_nach_os.Threads.Semaphore.{
  on_cpu, idling, System, set_level, mark_in_p, sleep_loop, sleep, p_loop,
}
use cs107_nach_os.Threads.Semaphore.Counts.{count, count-snoc, woken-mark, append_new}
use cs107_nach_os.Threads.Semaphore.Invariant.{apart, is_on_cpu, IsValid}

run_next :
    (next_thread : ℕ) (finishing : Bool) (k : Kernel)
    → is_off k.level ≡ true
    → k.to_be_destroyed ≡ none
    → (finishing ≡ true → (k.current == next_thread) ≡ false)
    → run next_thread finishing k
      ≡ ok (
          set_status next_thread running
            (record k { current = next_thread; to_be_destroyed = none }))
run_next t true k off clean other = rw (off, clean, other refl) refl
run_next t false k off clean other = rw (off, clean) refl

-- The state in which a switch to t leaves a system with the rest ts of the ready list.
abbrev after_switch : System → ℕ → List ℕ → System
after_switch s t ts = record s {
  kernel = record (set_status t running s.kernel) {
    current = t;
    ready_list = ts;
    level = if s.in_p t then s.kernel.level else int_on;
    to_be_destroyed = none;
  };
  phase = on_cpu;
}

abbrev with_ready : List ℕ → System → System
with_ready r s = record s { kernel = record s.kernel { ready_list = r } }

sleep_loop_of :
    (finishing : Bool) (s : System) (r : List ℕ)
    → IsValid (with_ready r (record s { phase = idling finishing }))
    → (s' : System) × (sleep_loop finishing (with_ready r s) ≡ ok s') × IsValid s'
unfolding sleep_loop
sleep_loop_of f s [] i =
    (record (with_ready [] s) { phase = idling f }, rw (ap is_off i.level) refl, i)
sleep_loop_of f s (t ∷ ts) i =
    let next =
      run_next t f (record s.kernel { ready_list = ts }) (ap is_off i.level) i.no_wreck
        (λ e. ground (arith, i.once t, e)) in
    (
      after_switch s t ts,
      rw (ap is_off i.level, next) refl,
      record {
        once = λ j. ground (arith, i.once j);
        asleep = i.asleep;
        enough = λ l. omega (arith, i.enough l);
        level = ground (arith, i.level);
        no_wreck = refl;
        status_ready = λ j l. ground (arith, i.once j, i.status_ready j, l);
        status_blocked = λ j l. ground (arith, i.once j, i.status_blocked j, l);
        status_running = λ e. ground arith;
      },
    )

-- One round of the loop of Sleep, in which the kernel idles or goes to a thread that is ready.
pub sleep_loop-IsValid :
    (finishing : Bool) (s : System)
    → IsValid (record s { phase = idling finishing })
    → (s' : System) × (sleep_loop finishing s ≡ ok s') × IsValid s'
sleep_loop-IsValid f s i = sleep_loop_of f s s.kernel.ready_list i

sleep_step :
    (finishing : Bool) (s : System)
    → is_off s.kernel.level ≡ true
    → sleep finishing s
      ≡ sleep_loop finishing (record s { kernel = set_status s.kernel.current blocked s.kernel })
unfolding sleep
sleep_step f s off = rw off refl

-- Where the current thread is in no ready list.
pub sleep-IsValid :
    (finishing : Bool) (s : System)
    → is_off s.kernel.level ≡ true
    → IsValid (record s {
      phase = idling finishing;
      kernel = set_status s.kernel.current blocked s.kernel;
    })
    → (s' : System) × (sleep finishing s ≡ ok s') × IsValid s'
sleep-IsValid f s off i =
    let (s', e, i') =
      sleep_loop-IsValid f (record s { kernel = set_status s.kernel.current blocked s.kernel }) i in
    (s', sleep_step f s off ∙ e, i')

-- The queue of P with the current thread behind it.
abbrev parked : System → System
parked s = mark_in_p true (record s { queue = s.queue ++ s.kernel.current ∷ [] })

parked-IsValid :
    (s : System)
    → IsValid s
    → s.phase ≡ on_cpu
    → s.value ≡ 0
    → IsValid (record (parked s) {
      phase = idling false;
      kernel = set_status s.kernel.current blocked (record s.kernel { level = int_off });
    })
parked-IsValid s i cpu none_left =
    let c = s.kernel.current in
    let here : apart s.phase ≡ true = ap apart cpu in
    record {
      once = λ j. ground (arith, i.once j, count-snoc j c s.queue, here);
      asleep = λ j l. ground (arith, i.asleep j, count-snoc j c s.queue, l);
      enough = λ l. omega (arith, none_left);
      level = refl;
      no_wreck = i.no_wreck;
      status_ready = λ j l. ground (arith, i.once j, i.status_ready j, here, l);
      status_blocked = λ j l. ground (arith, i.status_blocked j, count-snoc j c s.queue, l);
      status_running = λ e. ground arith;
    }

p_sleeps :
    (s : System)
    → s.value ≡ 0
    → count s.kernel.current s.queue ≡ 0
    → p_loop s ≡ sleep false (parked s)
unfolding p_loop
p_sleeps s none_left new = rw (none_left, append_new s.kernel.current s.queue new) refl

-- The state in which P returns.
abbrev pub taken : System → System
taken s = set_level int_on (mark_in_p false (record s { value = s.value - 1 }))

pub p_takes : (s : System) → 0 < s.value → p_loop s ≡ ok (taken s)
unfolding p_loop
p_takes s some_left = let other : (s.value == 0) ≡ false = ground arith in rw other refl

taken-IsValid : (s : System) → IsValid s → s.phase ≡ on_cpu → 0 < s.value → IsValid (taken s)
taken-IsValid s i cpu some_left =
    let c = s.kernel.current in
    let here : apart s.phase ≡ true = ap apart cpu in
    let on : is_on_cpu s.phase ≡ true = ap is_on_cpu cpu in
    let same = woken-mark s.in_p c false s.kernel.ready_list (ground (arith, i.once c, here)) in
    record {
      once = i.once;
      asleep = λ j l. ground (arith, i.asleep j, i.once j, here, l);
      enough = λ l. ground (arith, i.enough l, same, on);
      level = ground (arith, on);
      no_wreck = i.no_wreck;
      status_ready = i.status_ready;
      status_blocked = i.status_blocked;
      status_running = i.status_running;
    }

-- The loop of P, with interrupts off: the current thread returns and the value is one less, or
-- the value is 0 and the thread sleeps at the end of the queue.
pub p_loop-IsValid :
    (s : System)
    → IsValid s
    → s.phase ≡ on_cpu
    → (s' : System) × (p_loop (set_level int_off s) ≡ ok s') × IsValid s'
p_loop-IsValid s i cpu = elim (Bool-cases (s.value == 0)) [
  | inl e ↦
      let none_left : s.value ≡ 0 = ground arith in
      let here : apart s.phase ≡ true = ap apart cpu in
      let (s', run, i') =
        sleep-IsValid false (parked (set_level int_off s)) refl
          (parked-IsValid s i cpu none_left) in
      (
        s',
        p_sleeps (set_level int_off s) none_left (ground (arith, i.once s.kernel.current, here))
            ∙ run,
        i',
      )
  | inr e ↦
      let some_left : 0 < s.value = ground arith in
      (taken s, p_takes (set_level int_off s) some_left, taken-IsValid s i cpu some_left)
]
