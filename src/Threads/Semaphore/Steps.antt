-- ===== src/Threads/Semaphore/Steps.antt =====
-- The steps of the threads around a semaphore: each of them succeeds where it may be taken.
use mathlib.Core.Path.{subst}
use cs107_nach_os.Common.{
  ℕ, ◌+◌, ◌≡◌, refl, ap, ◌∙◌, Bool, true, false, List, [], ◌∷◌, ◌++◌, Outcome, ok, ◌==◌, arith,
}
use cs107_nach_os.Threads.{int_off, ready, set_status, run}
use cs107_nach_os.Threads.Semaphore.{
  Phase, on_cpu, idling, System, set_level, sleep_loop, p_loop, p, v, yield, finish, fork,
}
use cs107_nach_os.Threads.Semaphore.Counts.{one_if, count, count-snoc, woken-snoc, append_new}
use cs107_nach_os.Threads.Semaphore.Invariant.{apart, is_on_cpu, IsValid, v-IsValid}
use cs107_nach_os.Threads.Semaphore.Sleep.{sleep_loop-IsValid, sleep-IsValid, p_loop-IsValid}

-- What can happen next. `again` is the loop of P in a thread that slept there, `idle` a round of
-- the loop of Sleep, and `raise` a V of the current thread or of an interrupt handler.
pub data Event : Type 0 where
  wait again raise give_up idle end_thread : Event
  start_thread : ℕ → Event

-- When it can: a thread runs its own code, it runs in the loop of P, or the kernel idles.
abbrev pub Enabled : Event → System → Type 0
Enabled wait s = (s.phase ≡ on_cpu) × (s.in_p s.kernel.current ≡ false)
Enabled again s = (s.phase ≡ on_cpu) × (s.in_p s.kernel.current ≡ true)
Enabled raise s = Unit {0}
Enabled give_up s = (s.phase ≡ on_cpu) × (s.in_p s.kernel.current ≡ false)
Enabled idle s = (finishing : Bool) × (s.phase ≡ idling finishing)
Enabled end_thread s = (s.phase ≡ on_cpu) × (s.in_p s.kernel.current ≡ false)
Enabled (start_thread t) s =
    (s.phase ≡ on_cpu)
    × (s.in_p s.kernel.current ≡ false)
    × (count t s.kernel.ready_list + count t s.queue + one_if (s.kernel.current == t) ≡ 0)

abbrev pub sleep_on : Phase → System → Outcome System
sleep_on on_cpu s = ok s
sleep_on (idling finishing) s = sleep_loop finishing s

unfoldable pub perform : Event → System → Outcome System
perform wait s = p s
perform again s = p_loop s
perform raise s = v s
perform give_up s = yield s
perform idle s = sleep_on s.phase s
perform end_thread s = finish s
perform (start_thread t) s = fork t s

abbrev Succeeds : Outcome System → Type 0
Succeeds r = (s' : System) × (r ≡ ok s') × IsValid s'

p-IsValid : (s : System) → IsValid s → s.phase ≡ on_cpu → Succeeds (p s)
unfolding p
p-IsValid s i cpu = p_loop-IsValid s i cpu

again-IsValid :
    (s : System)
    → IsValid s
    → s.phase ≡ on_cpu
    → s.in_p s.kernel.current ≡ true
    → Succeeds (p_loop s)
again-IsValid s i cpu inside =
    let on : is_on_cpu s.phase ≡ true = ap is_on_cpu cpu in
    let off : s.kernel.level ≡ int_off = ground (arith, i.level, on) in
    let (s', run, i') = p_loop-IsValid s i cpu in
    (s', ap (λ l. p_loop (set_level l s)) off ∙ run, i')

-- The current thread goes to the end of the ready list.
abbrev yielded : System → List ℕ → System
yielded s r = record s {
  kernel = record (set_status s.kernel.current ready s.kernel) {
    ready_list = r ++ s.kernel.current ∷ [];
    level = int_off;
  };
}

yielded-IsValid :
    (s : System)
    → IsValid s
    → s.phase ≡ on_cpu
    → IsValid (record (yielded s s.kernel.ready_list) { phase = idling false })
yielded-IsValid s i cpu =
    let c = s.kernel.current in
    let here : apart s.phase ≡ true = ap apart cpu in
    let on : is_on_cpu s.phase ≡ true = ap is_on_cpu cpu in
    record {
      once = λ j. ground (arith, i.once j, count-snoc j c s.kernel.ready_list, here);
      asleep = i.asleep;
      enough = λ l. ground (arith, i.enough l, woken-snoc s.in_p c s.kernel.ready_list, on);
      level = refl;
      no_wreck = i.no_wreck;
      status_ready = λ j l. ground (arith, i.status_ready j, count-snoc j c s.kernel.ready_list, l);
      status_blocked = λ j l. ground (arith, i.status_blocked j, i.once j, here, l);
      status_running = λ e. ground arith;
    }

with_ready : List ℕ → System → System
with_ready r s = record s { kernel = record s.kernel { ready_list = r } }

-- Yield with another thread ready is a round of the loop of Sleep behind it.
yield_step :
    (s : System) (t : ℕ) (ts : List ℕ)
    → count s.kernel.current ts ≡ 0
    → yield (record s { kernel = record s.kernel { ready_list = t ∷ ts } })
      ≡ sleep_loop false (yielded s (t ∷ ts))
unfolding yield sleep_loop
yield_step s t ts new = rw (append_new s.kernel.current ts new) refl

yield_of :
    (s : System) (r : List ℕ)
    → IsValid (record s { kernel = record s.kernel { ready_list = r } })
    → s.phase ≡ on_cpu
    → Succeeds (yield (record s { kernel = record s.kernel { ready_list = r } }))
unfolding yield
yield_of s [] i cpu = (_, refl, i)
yield_of s (t ∷ ts) i cpu =
    let here : apart s.phase ≡ true = ap apart cpu in
    let (s', run, i') = sleep_loop-IsValid false (yielded s (t ∷ ts)) (yielded-IsValid _ i cpu) in
    (s', yield_step s t ts (ground (arith, i.once s.kernel.current, here)) ∙ run, i')

finish-IsValid :
    (s : System)
    → IsValid s
    → s.phase ≡ on_cpu
    → s.in_p s.kernel.current ≡ false
    → Succeeds (finish s)
unfolding finish
finish-IsValid s i cpu outside =
    let here : apart s.phase ≡ true = ap apart cpu in
    let on : is_on_cpu s.phase ≡ true = ap is_on_cpu cpu in
    sleep-IsValid true (set_level int_off s) refl (record {
      once = λ j. ground (arith, i.once j, here);
      asleep = i.asleep;
      enough = λ l. ground (arith, i.enough l, on, outside);
      level = refl;
      no_wreck = i.no_wreck;
      status_ready = λ j l. ground (arith, i.status_ready j, i.once j, here, l);
      status_blocked = λ j l. ground (arith, i.status_blocked j, l);
      status_running = λ e. ground arith;
    })

abbrev forked : ℕ → System → System
forked t s = record s {
  kernel = record (set_status t ready s.kernel) { ready_list = s.kernel.ready_list ++ t ∷ [] };
}

fork-IsValid :
    (t : ℕ) (s : System)
    → IsValid s
    → s.phase ≡ on_cpu
    → count t s.kernel.ready_list + count t s.queue + one_if (s.kernel.current == t) ≡ 0
    → Succeeds (fork t s)
unfolding fork
fork-IsValid t s i cpu new =
    let fresh = append_new t s.kernel.ready_list (omega (arith, new)) in
    (
      forked t s,
      rw fresh refl,
      record {
        once = λ j. ground (arith, i.once j, count-snoc j t s.kernel.ready_list, new);
        asleep = i.asleep;
        enough = λ l. omega (arith, i.enough l, woken-snoc s.in_p t s.kernel.ready_list);
        level = i.level;
        no_wreck = i.no_wreck;
        status_ready =
            λ j l. ground (arith, i.status_ready j, count-snoc j t s.kernel.ready_list, l);
        status_blocked = λ j l. ground (arith, i.status_blocked j, new, l);
        status_running = λ e. ground (arith, i.status_running e, new);
      },
    )

-- In a valid state, every step that the threads around a semaphore can take (P from its start or
-- from its loop, V, Yield, Finish, Fork of a new thread, a round of the loop of Sleep) succeeds,
-- its assertions included, and leaves a valid state: no thread stands in two places, statuses agree
-- with the queues, interrupts are off inside P and while idle, and, while threads sleep, the value
-- is at most the number of woken threads.
pub perform-IsValid :
    (e : Event) (s : System)
    → IsValid s
    → Enabled e s
    → (s' : System) × (perform e s ≡ ok s') × IsValid s'
unfolding perform
perform-IsValid wait s i (cpu, outside) = p-IsValid s i cpu
perform-IsValid again s i (cpu, inside) = again-IsValid s i cpu inside
perform-IsValid raise s i h = v-IsValid s i
perform-IsValid give_up s i (cpu, outside) = yield_of s s.kernel.ready_list i cpu
perform-IsValid idle s i (f, idles) =
    let (s', run, i') =
      sleep_loop-IsValid f s (subst (λ ph. IsValid (record s { phase = ph })) idles i) in
    (s', ap (λ ph. sleep_on ph s) idles ∙ run, i')
perform-IsValid end_thread s i (cpu, outside) = finish-IsValid s i cpu outside
perform-IsValid (start_thread t) s i (cpu, outside, new) = fork-IsValid t s i cpu new
