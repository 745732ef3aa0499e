-- ===== src/Interrupt/Tests.antt =====
-- Two pending interrupts, the first of them due, and a device that asks for another one 100 ticks
-- later.
use cs107_nach_os.Common.{ℕ, ◌+◌, true, false, [], ◌∷◌}
use cs107_nach_os.Machine.{system_mode}
use cs107_nach_os.Threads.{int_off}
use cs107_nach_os.Interrupt.{Devices, Interrupt}

-- A timer that counts its interrupts.
abbrev timer : Devices
timer = record { State = ℕ; call_back = λ device s. (s + 1, (device, 100) ∷ [], true) }

abbrev interrupt : Interrupt timer
interrupt = record {
  level = int_off;
  pending = (record { device = 0; when = 40 }) ∷ (record { device = 1; when = 90 }) ∷ [];
  in_handler = false;
  yield_on_return = false;
  status = system_mode;
  total_ticks = 50;
  idle_ticks = 0;
  system_ticks = 50;
  user_ticks = 0;
  devices = 0;
}
