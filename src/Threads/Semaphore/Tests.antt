-- ===== src/Threads/Semaphore/Tests.antt =====
-- Three threads around a semaphore.
use cs107_nach_os.Common.{◌≡◌, refl, true, false, none, [], ◌∷◌, ok, ◌==◌, if◌then◌else◌, arith}
use cs107_nach_os.Threads.{Kernel, int_on, just_created, running, ready, blocked}
use cs107_nach_os.Threads.Semaphore.{on_cpu, System}
use cs107_nach_os.Threads.Semaphore.Invariant.{IsValid}
use cs107_nach_os.Threads.Semaphore.Steps.{wait, perform, perform-IsValid}

-- Thread 1 runs, thread 2 is ready.
abbrev kernel : Kernel
kernel = record {
  current = 1;
  level = int_on;
  ready_list = 2 ∷ [];
  to_be_destroyed = none;
  status = λ t. if t == 1 then running else if t == 2 then ready else just_created;
}

abbrev system : System
system = record { kernel = kernel; phase = on_cpu; value = 0; queue = []; in_p = λ t. false }

system-IsValid : IsValid system
system-IsValid = record {
  once = λ t. ground arith;
  asleep = λ t l. absurd (omega (arith, l));
  enough = λ l. omega arith;
  level = refl;
  no_wreck = refl;
  status_ready = λ t l. ground (arith, l);
  status_blocked = λ t l. absurd (omega (arith, l));
  status_running = λ e. refl;
}

-- Thread 1 goes to sleep in P and thread 2 gets the processor.
perform-IsValid_example : (s' : System) × (perform wait system ≡ ok s') × IsValid s'
perform-IsValid_example = perform-IsValid wait system system-IsValid (refl, refl)

abbrev asleep : System
asleep = record system {
  kernel = record kernel {
    current = 2;
    ready_list = [];
    status = λ t. if 2 == t then running else if 1 == t then blocked else kernel.status t;
  };
  queue = 1 ∷ [];
  in_p = λ t. if 1 == t then true else false;
}
