-- ===== src/Interrupt/Due.antt =====
-- The handlers of the interrupts that are due come to an end.
use cs107_nach_os.Common.{
  ℕ, zero, suc, ◌+◌, ◌^◌, ◌≤◌, ◌<◌, ◌≡◌, refl, ap, ◌∙◌, Bool, true, false, List, [], ◌∷◌, Outcome,
  ok, ◌>>◌, assert, if◌then◌else◌, arith, All, inl, inr, Bool-cases,
}
use cs107_nach_os.Common.Words.{add32, slt}
use cs107_nach_os.Interrupt.{
  PendingInterrupt, Devices, Interrupt, insert, schedule, yield_on_return, schedule_all, call_back,
  is_due, run_handlers,
}
use cs107_nach_os.Interrupt.Queue.{
  Sorted, AreSmall, due, slt-small, All-insert, All-lt, insert-Sorted, due-insert,
}

assert-true : {A : Type 0} (b : Bool) (q : Outcome A) → b ≡ true → (assert b >> q) ≡ q
assert-true b q e = rw e refl

module _ (d : Devices) where
  pub record IsTimely (i : Interrupt d) : Type 0 where
    pub sorted : Sorted i.pending
    pub small : AreSmall i.pending

  -- What a device asks for lies in the future, by at most `bound`.
  abbrev pub AsksWithin : ℕ → Type 0
  AsksWithin bound =
      (device : ℕ) (s : d.State) → All (λ r. (1 ≤ r.1) × (r.1 ≤ bound)) (d.call_back device s).1

  -- Handlers leave the time, the level and the interrupts that are due as they are.
  pub record Handled (i i' : Interrupt d) : Type 0 where
    pub timely : IsTimely i'
    pub same_time : i'.total_ticks ≡ i.total_ticks
    pub same_due : due i.total_ticks i'.pending ≡ due i.total_ticks i.pending
    pub same_handler : i'.in_handler ≡ i.in_handler
    pub same_level : i'.level ≡ i.level

  schedule_all-Handled :
      (bound : ℕ) (rs : List (ℕ × ℕ)) (i : Interrupt d)
      → i.total_ticks + bound < 2 ^ 31
      → All (λ r. (1 ≤ r.1) × (r.1 ≤ bound)) rs
      → IsTimely i
      → (i' : Interrupt d) × (schedule_all d rs i ≡ ok i') × Handled i i'
  unfolding schedule_all schedule
  schedule_all-Handled bound [] i l h t = (
    i,
    refl,
    record {
      timely = t;
      same_time = refl;
      same_due = refl;
      same_handler = refl;
      same_level = refl;
    },
  )
  schedule_all-Handled bound ((to_call, from_now) ∷ rs) i l ((p, q), h) t =
      let to_occur : PendingInterrupt = record {
        device = to_call;
        when = add32 i.total_ticks from_now;
      } in
      let later : slt 0 from_now ≡ true = ground (arith, p, q, l) in
      let future : i.total_ticks < add32 i.total_ticks from_now = omega (arith, p, q, l) in
      let small : add32 i.total_ticks from_now < 2 ^ 31 = omega (arith, p, q, l) in
      let i1 = record i { pending = insert to_occur i.pending } in
      let t1 : IsTimely i1 = record {
        sorted = insert-Sorted to_occur i.pending small t.small t.sorted;
        small = All-insert (λ y. y.when < 2 ^ 31) to_occur i.pending small t.small;
      } in
      let (i', run, k) = schedule_all-Handled bound rs i1 l h t1 in
      (
        i',
        rw later run,
        record {
          timely = k.timely;
          same_time = k.same_time;
          same_due = k.same_due ∙ due-insert i.total_ticks to_occur i.pending future;
          same_handler = k.same_handler;
          same_level = k.same_level;
        },
      )

  yields_step :
      (yields : Bool) (i : Interrupt d)
      → i.in_handler ≡ true
      → (if yields then yield_on_return d i else ok i)
        ≡ ok (record i { yield_on_return = if yields then true else i.yield_on_return })
  unfolding yield_on_return
  yields_step true i inside = assert-true i.in_handler _ inside
  yields_step false i inside = refl

  call_back_step :
      (device : ℕ) (i i1 : Interrupt d)
      → schedule_all d
          (d.call_back device i.devices).1
          (record i { devices = (d.call_back device i.devices).0 })
        ≡ ok i1
      → call_back d device i
        ≡ (if (d.call_back device i.devices).2 then yield_on_return d i1 else ok i1)
  unfolding call_back
  call_back_step device i i1 run = rw run refl

  call_back-Handled :
      (bound device : ℕ) (i : Interrupt d)
      → i.total_ticks + bound < 2 ^ 31
      → AsksWithin bound
      → i.in_handler ≡ true
      → IsTimely i
      → (i' : Interrupt d) × (call_back d device i ≡ ok i') × Handled i i'
  call_back-Handled bound device i l asks inside t =
      let (s, requests, yields) = d.call_back device i.devices in
      let (i1, run, k) =
        schedule_all-Handled bound requests (record i { devices = s }) l (asks device i.devices)
          (record { sorted = t.sorted; small = t.small }) in
      (
        record i1 { yield_on_return = if yields then true else i1.yield_on_return },
        call_back_step device i i1 run ∙ yields_step yields i1 (k.same_handler ∙ inside),
        record {
          timely = record { sorted = k.timely.sorted; small = k.timely.small };
          same_time = k.same_time;
          same_due = k.same_due;
          same_handler = k.same_handler;
          same_level = k.same_level;
        },
      )

  -- After the loop: nothing is due, and the time is the same.
  pub record Fired (i i' : Interrupt d) : Type 0 where
    pub timely : IsTimely i'
    pub same_time : i'.total_ticks ≡ i.total_ticks
    pub none_due : due i'.total_ticks i'.pending ≡ 0
    pub same_handler : i'.in_handler ≡ i.in_handler
    pub same_level : i'.level ≡ i.level

  none_due-later :
      (now : ℕ) (xs : List PendingInterrupt) → All (λ y. now < y.when) xs → due now xs ≡ 0
  none_due-later now [] h = refl
  none_due-later now (x ∷ xs) (p, h) = ground (arith, p, none_due-later now xs h)

  pub not_due :
      (i : Interrupt d) (xs : List PendingInterrupt)
      → is_due d i xs ≡ false
      → i.total_ticks < 2 ^ 31
      → AreSmall xs
      → Sorted xs
      → due i.total_ticks xs ≡ 0
  not_due i [] e l h s = refl
  not_due i (x ∷ xs) e l (q, h) (p, s) =
      let same = slt-small i.total_ticks x.when l q in
      let later : i.total_ticks < x.when = ground (arith, same, e) in
      let rest = none_due-later i.total_ticks xs (All-lt i.total_ticks x.when xs later p) in
      ground (arith, later, rest)

  loop_ends :
      (n : ℕ) (i : Interrupt d) (next : PendingInterrupt) (rest : List PendingInterrupt)
      (i1 : Interrupt d)
      → call_back d next.device (record i { pending = rest }) ≡ ok i1
      → is_due d i1 i1.pending ≡ false
      → run_handlers d (suc n) (record i { pending = next ∷ rest }) ≡ ok i1
  unfolding run_handlers
  loop_ends n i next rest i1 run e = rw (run, e) refl

  loop_goes_on :
      (n : ℕ) (i : Interrupt d) (next : PendingInterrupt) (rest : List PendingInterrupt)
      (i1 : Interrupt d)
      → call_back d next.device (record i { pending = rest }) ≡ ok i1
      → is_due d i1 i1.pending ≡ true
      → run_handlers d (suc n) (record i { pending = next ∷ rest }) ≡ run_handlers d n i1
  unfolding run_handlers
  loop_goes_on n i next rest i1 run e = rw (run, e) refl

  due_front :
      (i : Interrupt d) (next : PendingInterrupt) (rest : List PendingInterrupt)
      → i.total_ticks < 2 ^ 31
      → next.when < 2 ^ 31
      → is_due d i (next ∷ rest) ≡ true
      → due i.total_ticks (next ∷ rest) ≡ suc (due i.total_ticks rest)
  due_front i next rest l q e =
      let same = slt-small i.total_ticks next.when l q in ground (arith, same, e)

  -- Fuel for the interrupts that are due is enough: no handler adds one.
  pub run_of :
      (bound n : ℕ) (i : Interrupt d) (xs : List PendingInterrupt)
      → i.total_ticks + bound < 2 ^ 31
      → AsksWithin bound
      → i.in_handler ≡ true
      → AreSmall xs
      → Sorted xs
      → is_due d i xs ≡ true
      → due i.total_ticks xs ≤ n
      → (i' : Interrupt d) × (run_handlers d n (record i { pending = xs }) ≡ ok i') × Fired i i'
  run_of bound n i [] l asks inside h s e f = absurd (ground (arith, e))
  run_of bound zero i (next ∷ rest) l asks inside (q, h) s e f =
      absurd (omega (arith, f, due_front i next rest (omega (arith, l)) q e))
  run_of bound (suc n) i (next ∷ rest) l asks inside (q, h) (p, s) e f =
      let front = due_front i next rest (omega (arith, l)) q e in
      let (i1, run, k) =
        call_back-Handled bound next.device (record i { pending = rest }) l asks inside
          (record { sorted = s; small = h }) in
      let l1 : i1.total_ticks + bound < 2 ^ 31 = omega (arith, l, k.same_time) in
      elim (Bool-cases (is_due d i1 i1.pending)) [
        | inl again ↦
            let same : due i1.total_ticks i1.pending ≡ due i.total_ticks rest =
              ap (λ t. due t i1.pending) k.same_time ∙ k.same_due in
            let (i', run', k') =
              run_of bound n i1 i1.pending l1 asks (k.same_handler ∙ inside) k.timely.small
                k.timely.sorted again (omega (arith, same, front, f)) in
            (
              i',
              loop_goes_on n i next rest i1 run again ∙ run',
              record {
                timely = k'.timely;
                same_time = k'.same_time ∙ k.same_time;
                none_due = k'.none_due;
                same_handler = k'.same_handler ∙ k.same_handler;
                same_level = k'.same_level ∙ k.same_level;
              },
            )
        | inr over ↦ (
          i1,
          loop_ends n i next rest i1 run over,
          record {
            timely = k.timely;
            same_time = k.same_time;
            none_due =
                not_due i1 i1.pending over (omega (arith, l1)) k.timely.small k.timely.sorted;
            same_handler = k.same_handler;
            same_level = k.same_level;
          },
        )
      ]
