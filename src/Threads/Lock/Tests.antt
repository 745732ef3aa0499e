-- ===== src/Threads/Lock/Tests.antt =====
-- Two threads around a free lock.
use cs107_nach_os.Common.{false, none, [], ◌∷◌, ◌==◌, if◌then◌else◌}
use cs107_nach_os.Threads.{int_on, just_created, running, ready}
use cs107_nach_os.Threads.Semaphore.{on_cpu, System}
use cs107_nach_os.Threads.Lock.{Lock}

-- Thread 1 runs, thread 2 is ready.
abbrev system : System
system = record {
  kernel = record {
    current = 1;
    level = int_on;
    ready_list = 2 ∷ [];
    to_be_destroyed = none;
    status = λ t. if t == 1 then running else if t == 2 then ready else just_created;
  };
  phase = on_cpu;
  value = 1;
  queue = [];
  in_p = λ t. false;
}

abbrev free_lock : Lock
free_lock = record {
  semaphore = system;
  lock_holder = none;
  entered = [];
  holding = [];
  leaving = [];
}
