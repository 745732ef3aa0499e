-- ===== src/Threads/Semaphore/Runs.antt =====
-- What holds after every sequence of steps from a new semaphore.
use cs107_nach_os.Common.{
  ℕ, ◌+◌, ◌%◌, ◌^◌, ◌<◌, ◌≡◌, not, refl, Bool, true, false, Option, none, some, List, [], ◌∷◌,
  Outcome, ok, ◌>>=◌, assert, ◌==◌, arith, inl, inr, Bool-cases,
}
use cs107_nach_os.Threads.{
  Kernel, int_off, is_off, blocked, set_status, append, find_next_to_run, ready_to_run, run,
}
use cs107_nach_os.Threads.Semaphore.{
  Phase, on_cpu, idling, System, set_level, mark_in_p, switch_to, sleep_loop, sleep, p_loop, p, v,
  yield, finish, fork,
}
use cs107_nach_os.Threads.Semaphore.Counts.{one_if}
use cs107_nach_os.Threads.Semaphore.Sleep.{p_takes}
use cs107_nach_os.Threads.Semaphore.Steps.{
  Event, wait, again, raise, give_up, idle, end_thread, start_thread, Enabled, sleep_on, perform,
}
use cs107_nach_os.Machine.Sound.{Always, Always-then, Always-next, Always-map}

-- Whether P returns in a step, and whether it is a V.
abbrev pub passes : Event → System → ℕ
passes wait s = one_if (not (s.value == 0))
passes again s = one_if (not (s.value == 0))
passes _ s = 0

abbrev pub raises : Event → ℕ
raises raise = 1
raises _ = 0

abbrev Keeps : System → System → Type 0
Keeps s s' = s'.value ≡ s.value

switch_to-value : (t : ℕ) (f : Bool) (s : System) → Always (Keeps s) (switch_to t f s)
switch_to-value t f s = Always-then (Keeps s) (run t f s.kernel) _ (λ k. refl)

sleep_loop-value : (f : Bool) (s : System) → Always (Keeps s) (sleep_loop f s)
unfolding sleep_loop
sleep_loop-value f s = Always-then (Keeps s) (find_next_to_run s.kernel) _ (λ r. go r.0 r.1)
  where
    go :
        (next : Option ℕ) (k : Kernel)
        → Always (Keeps s) (elim next as (λ _. Outcome System) [
          | none ↦ ok (record s { phase = idling f })
          | some t ↦ switch_to t f (record s { kernel = k })
        ])
    go none k = refl
    go (some t) k = switch_to-value t f (record s { kernel = k })

sleep-value : (f : Bool) (s : System) → Always (Keeps s) (sleep f s)
unfolding sleep
sleep-value f s =
    Always-next (Keeps s) (assert (is_off s.kernel.level)) _
      (sleep_loop-value f (record s { kernel = set_status s.kernel.current blocked s.kernel }))

p_waits :
    (s : System)
    → s.value ≡ 0
    → p_loop s ≡ (
        append s.kernel.current s.queue >>= λ q.
        sleep false (mark_in_p true (record s { queue = q })))
unfolding p_loop
p_waits s none_left = rw none_left refl

-- The value goes down by one exactly where P returns.
abbrev Passed : System → System → Type 0
Passed s s' = s'.value + one_if (not (s.value == 0)) ≡ s.value

p_loop-value : (s : System) → Always (Passed s) (p_loop s)
p_loop-value s = elim (Bool-cases (s.value == 0)) [
  | inl e ↦ rw (p_waits s (ground arith)) (
      Always-map (Keeps s) (Passed s) _ (λ s' k. ground (arith, k, e))
        (Always-then (Keeps s) (append s.kernel.current s.queue) _
          (λ q. sleep-value false (mark_in_p true (record s { queue = q })))))
  | inr e ↦ rw (p_takes s (ground arith)) (ground (arith, e))
]

yield-value : (s : System) → Always (Keeps s) (yield s)
unfolding yield
yield-value s =
    Always-then (Keeps s) (find_next_to_run (record s.kernel { level = int_off })) _
      (λ r. go r.0 r.1)
  where
    go :
        (next : Option ℕ) (k : Kernel)
        → Always (Keeps s) (elim next as (λ _. Outcome System) [
          | none ↦ ok s
          | some t ↦ ready_to_run k.current k >>= λ k'. switch_to t false (record s { kernel = k' })
        ])
    go none k = refl
    go (some t) k =
        Always-then (Keeps s) (ready_to_run k.current k) _
          (λ k'. switch_to-value t false (record s { kernel = k' }))

v_of-value :
    (s : System) (q : List ℕ)
    → Always (λ s'. s'.value ≡ (s.value + 1) % 2 ^ 32) (v (record s { queue = q }))
unfolding v
v_of-value s [] = refl
v_of-value s (t ∷ ts) =
    Always-then (λ s'. s'.value ≡ (s.value + 1) % 2 ^ 32)
      (ready_to_run t (record s.kernel { level = int_off })) _ (λ k. refl)

-- The value after a V, an int that wraps, or before P takes from it.
abbrev pub raised_value : Event → System → ℕ
raised_value raise s = (s.value + 1) % 2 ^ 32
raised_value _ s = s.value

abbrev pub Counted : Event → System → System → Type 0
Counted e s s' = s'.value + passes e s ≡ raised_value e s

pub raised_value-small :
    (e : Event) (s : System) → s.value + raises e < 2 ^ 31 → raised_value e s ≡ s.value + raises e
raised_value-small raise s small = omega (arith, small)
raised_value-small _ s small = omega arith

still :
    (e : Event) (s : System) (r : Outcome System)
    → passes e s ≡ 0
    → raised_value e s ≡ s.value
    → Always (Keeps s) r
    → Always (Counted e s) r
still e s r a b = Always-map (Keeps s) (Counted e s) r (λ s' k. omega (arith, a, b, k))

-- What a step does to the value.
pub perform-value : (e : Event) (s : System) → Always (Counted e s) (perform e s)
unfolding perform p finish fork
perform-value wait s =
    Always-map (Passed s) (Counted wait s) _ (λ s' k. omega (arith, k))
      (p_loop-value (set_level int_off s))
perform-value again s =
    Always-map (Passed s) (Counted again s) _ (λ s' k. omega (arith, k)) (p_loop-value s)
perform-value raise s =
    Always-map (λ s'. s'.value ≡ (s.value + 1) % 2 ^ 32) (Counted raise s) _
      (λ s' k. omega (arith, k)) (v_of-value s s.queue)
perform-value give_up s = still give_up s _ refl refl (yield-value s)
perform-value idle s = still idle s _ refl refl (idles s.phase)
  where
    idles : (ph : Phase) → Always (Keeps s) (sleep_on ph s)
    idles on_cpu = refl
    idles (idling f) = sleep_loop-value f s
perform-value end_thread s = still end_thread s _ refl refl (sleep-value true (set_level int_off s))
perform-value (start_thread t) s =
    still (start_thread t) s _ refl refl
      (Always-then (Keeps s) (ready_to_run t (record s.kernel { level = int_off })) _ (λ k. refl))

-- The system after some steps, in which P has returned `passed` times and V has been called
-- `raised` times.
pub data Run (s : System) : System → ℕ → ℕ → Type 0 where
  start : Run s s 0 0
  step :
      {t u : System} {passed raised : ℕ}
      → Run s t passed raised
      → (e : Event) → Enabled e t
      → perform e t ≡ ok u
      → Run s u (passed + passes e t) (raised + raises e)

pub always-ok : {A : Type 0} (P : A → Type 0) {r : Outcome A} {a : A} → r ≡ ok a → Always P r → P a
always-ok P e h = rw e at h
