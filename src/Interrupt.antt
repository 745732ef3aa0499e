-- ===== src/Interrupt.antt =====
-- NachOS-4.0/code/machine/interrupt.{h,cc}: simulated time and the interrupts that will occur, with
-- SortedList::Insert of NachOS-4.0/code/lib/list.cc on the sequence of items.
pub mod Queue
pub mod Due
pub mod Check
mod Tests
use cs107_nach_os.Common.{
  ℕ, zero, suc, Bool, true, false, not, ◌||◌, List, [], ◌∷◌, Outcome, ok, aborted, ◌>>=◌, ◌>>◌,
  assert, if◌then◌else◌,
}
use cs107_nach_os.Common.Words.{add32, sub32, slt}
use cs107_nach_os.Machine.{MachineStatus, system_mode, idle_mode}
use cs107_nach_os.Threads.{IntStatus, int_off, int_on, is_off}

-- The object to call is the number of a device.
pub record PendingInterrupt : Type 0 where
  pub device : ℕ
  pub when : ℕ

-- The devices: what CallBack of one does to their state, the calls of Schedule that it makes (the
-- device and fromNow), and whether it calls YieldOnReturn.
pub record Devices : Type 1 where
  pub State : Type 0
  pub call_back : ℕ → State → State × List (ℕ × ℕ) × Bool

module _ (d : Devices) where
  pub record Interrupt : Type 0 where
    pub level : IntStatus
    pub pending : List PendingInterrupt
    pub in_handler : Bool
    pub yield_on_return : Bool
    pub status : MachineStatus
    pub total_ticks : ℕ
    pub idle_ticks : ℕ
    pub system_ticks : ℕ
    pub user_ticks : ℕ
    pub devices : d.State

-- PendingCompare is below 0.
abbrev pub is_before : PendingInterrupt → PendingInterrupt → Bool
is_before x y = slt x.when y.when

-- The item is new, so that the assertions of Insert hold.
pub insert : PendingInterrupt → List PendingInterrupt → List PendingInterrupt
insert x [] = x ∷ []
insert x (y ∷ ys) = let rest = insert x ys in if is_before x y then x ∷ y ∷ ys else y ∷ rest

abbrev system_tick : ℕ
system_tick = 10

abbrev user_tick : ℕ
user_tick = 1

abbrev is_system : MachineStatus → Bool
is_system system_mode = true
is_system _ = false

module _ (d : Devices) where
  pub schedule : ℕ → ℕ → Interrupt d → Outcome (Interrupt d)
  unfolding insert
  schedule to_call from_now i =
      let to_occur : PendingInterrupt = record {
        device = to_call;
        when = add32 i.total_ticks from_now;
      } in
      assert (slt 0 from_now) >> ok (record i { pending = insert to_occur i.pending })

  pub yield_on_return : Interrupt d → Outcome (Interrupt d)
  yield_on_return i = assert i.in_handler >> ok (record i { yield_on_return = true })

  pub schedule_all : List (ℕ × ℕ) → Interrupt d → Outcome (Interrupt d)
  unfolding schedule
  schedule_all [] i = ok i
  schedule_all ((to_call, from_now) ∷ rs) i =
      schedule to_call from_now i >>= λ i'. schedule_all rs i'

  pub call_back : ℕ → Interrupt d → Outcome (Interrupt d)
  unfolding schedule_all yield_on_return
  call_back device i =
      let (s, requests, yields) = d.call_back device i.devices in
      schedule_all requests (record i { devices = s }) >>= λ i'.
      if yields then yield_on_return i' else ok i'

  abbrev pub is_due : Interrupt d → List PendingInterrupt → Bool
  is_due i [] = false
  is_due i (next ∷ rest) = not (slt i.total_ticks next.when)

  -- The loop of CheckIfDue, with fuel.
  pub run_handlers : ℕ → Interrupt d → Outcome (Interrupt d)
  unfolding call_back
  run_handlers zero i = aborted
  run_handlers (suc n) i = elim i.pending [
    | [] ↦ aborted
    | next ∷ rest ↦ call_back next.device (record i { pending = rest }) >>= λ i'.
        let more = run_handlers n i' in if is_due i' i'.pending then more else ok i'
  ]

  -- What follows the test for an empty queue. The delayed load of the machine is left out.
  pub fire : ℕ → Interrupt d → Outcome (Bool × Interrupt d)
  unfolding run_handlers
  fire fuel i = run_handlers fuel (record i { in_handler = true }) >>= λ i'.
      ok (true, record i' { in_handler = false })

  pub check_if_due : ℕ → Bool → Interrupt d → Outcome (Bool × Interrupt d)
  unfolding fire
  check_if_due fuel advance_clock i = assert (is_off i.level) >> elim i.pending [
    | [] ↦ ok (false, i)
    | next ∷ rest ↦
        if slt i.total_ticks next.when
        then if advance_clock
          then fire fuel (record i {
            idle_ticks = add32 i.idle_ticks (sub32 next.when i.total_ticks);
            total_ticks = next.when;
          })
          else ok (false, i)
        else fire fuel i
  ]

  abbrev tick : Interrupt d → Interrupt d
  tick i =
      if is_system i.status
      then record i {
        total_ticks = add32 i.total_ticks system_tick;
        system_ticks = add32 i.system_ticks system_tick;
      }
      else record i {
        total_ticks = add32 i.total_ticks user_tick;
        user_ticks = add32 i.user_ticks user_tick;
      }

  -- The Boolean tells whether the current thread yields behind it.
  pub one_tick : ℕ → Interrupt d → Outcome (Bool × Interrupt d)
  unfolding check_if_due
  one_tick fuel i = check_if_due fuel false (record (tick i) { level = int_off }) >>= λ (fired, i').
      ok (i'.yield_on_return, record i' { level = int_on; yield_on_return = false })

  pub set_level : ℕ → IntStatus → Interrupt d → Outcome (Bool × Interrupt d)
  unfolding one_tick
  set_level fuel now i =
      let i' = record i { level = now } in
      assert (is_off now || not i.in_handler)
      >> (if not (is_off now)
          then if is_off i.level then one_tick fuel i' else ok (false, i')
          else ok (false, i'))

  -- Halt does not come back.
  pub idle : ℕ → Interrupt d → Outcome (Interrupt d)
  unfolding check_if_due
  idle fuel i = check_if_due fuel true (record i { status = idle_mode }) >>= λ (fired, i').
      if fired then ok (record i' { status = system_mode }) else aborted
