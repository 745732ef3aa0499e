-- ===== src/Interrupt/Check.antt =====
-- CheckIfDue ends, and then no interrupt is due.
use cs107_nach_os.Common.{ℕ, ◌+◌, ◌^◌, ◌≤◌, ◌<◌, ◌≡◌, Bool, true, false, ok, All, length}
use cs107_nach_os.Threads.{is_off}
use cs107_nach_os.Interrupt.{Devices, Interrupt, check_if_due}
use cs107_nach_os.Interrupt.Queue.{Sorted, due}
use cs107_nach_os.Interrupt.Due.{IsTimely}

module _ (d : Devices) where
  -- After CheckIfDue: the queue is in order, nothing in it is due, and time has not gone back.
  pub record Checked (i i' : Interrupt d) : Type 0 where
    pub timely : IsTimely d i'
    pub none_due : due i'.total_ticks i'.pending ≡ 0
    pub later : i.total_ticks ≤ i'.total_ticks
    pub outside : i'.in_handler ≡ false
    pub same_level : i'.level ≡ i.level

  -- Where the queue is, what the time is, and what the devices ask for: no time overflows an int.
  pub record IsQuiet (bound : ℕ) (i : Interrupt d) : Type 0 where
    pub off : is_off i.level ≡ true
    pub outside : i.in_handler ≡ false
    pub sorted : Sorted i.pending
    pub far : All (λ y. y.when + bound < 2 ^ 31) i.pending
    pub now : i.total_ticks + bound < 2 ^ 31

  -- Whether handlers ran, and the state behind them.
  abbrev Ends : ℕ → Bool → Interrupt d → Type 0
  Ends fuel advance_clock i =
      (fired : Bool) × (i' : Interrupt d) × (check_if_due d fuel advance_clock i ≡ ok (fired, i'))
      × Checked i i'
      × (advance_clock ≡ true → 0 < length i.pending → fired ≡ true)
