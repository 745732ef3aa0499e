-- ===== src/Syscall/Handler/Frame.antt =====
-- What a system call leaves of the machine.
use cs107_nach_os.Common.{
  ℕ, ◌+◌, ◌%◌, ◌^◌, ◌<◌, ◌≡◌, ◌≢◌, ◌∙◌, inl, inr, Bool-cases, ◌==◌, List, Outcome, ◌>>=◌,
  if◌then◌else◌, arith,
}
use cs107_nach_os.Common.Words.{IsWord, add32, is_negative}
use cs107_nach_os.Machine.{
  Machine, ExceptionType, no_exception, syscall_exception, pc_reg, next_pc_reg, prev_pc_reg,
}
use cs107_nach_os.Machine.Sound.{IsSettled, Always, Always-bind, Always-then, Always-if, Always-map}
use cs107_nach_os.Machine.Memory.{char_to_int}
use cs107_nach_os.Host.{Host}
use cs107_nach_os.Syscall.{Kernel}
use cs107_nach_os.Syscall.Number.{get_char, read_num, print_num}
use cs107_nach_os.Syscall.Number.Bounds.{read_num-IsWord}
use cs107_nach_os.Syscall.Text.{user_to_system, system_to_user, read_string}
use cs107_nach_os.Syscall.Text.Frame.{
  Follows, Follows-refl, Follows-trans, answer-Follows, user_to_system-Follows,
  system_to_user-Follows,
}
use cs107_nach_os.Syscall.Files.{answer, sys_close, sys_remove}
use cs107_nach_os.Syscall.Files.Frame.{
  sys_create_file-Follow, sys_open-Follow, sys_close-Follow, sys_read-Follow, sys_write-Follow,
  sys_seek-Follow, sys_remove-Follow,
}
use cs107_nach_os.Syscall.Handler.{
  Call, call_of, increase_pc, max_file_length, name_from, with_buffer, handle_console, handle_files,
  is_file_call, done, system_call, exception_handler,
}

char_to_int-IsWord : (c : ℕ) → c < 2 ^ 8 → IsWord (char_to_int c)
unfolding char_to_int
char_to_int-IsWord c b = ground (arith, b)

module _ (h : Host) where
  abbrev Follow : Kernel h → Kernel h → Type 0
  Follow k k' = Follows k.machine k'.machine

  reply : (k : Kernel h) (v : ℕ) → IsWord v → Follows k.machine (answer h v k).machine
  reply k v w = answer-Follows k.machine v w

  name_from-Follow : (limit : ℕ) (k : Kernel h) → Always (λ r. Follow k r.1) (name_from h limit k)
  unfolding name_from
  name_from-Follow limit k =
      Always-bind (λ (r : List ℕ × Machine). Follows k.machine r.1)
        (λ (r : List ℕ × Kernel h). Follow k r.1)
        (user_to_system (k.machine.registers 4) limit k.machine) _
        (user_to_system-Follows (k.machine.registers 4) limit k.machine) (λ r g. g)

  -- A call on the name of a file.
  named :
      (limit : ℕ) (k : Kernel h) (body : List ℕ × Kernel h → Outcome (Kernel h))
      → ((r : List ℕ × Kernel h) → Always (Follow r.1) (body r))
      → Always (Follow k) (name_from h limit k >>= body)
  named limit k body b =
      Always-bind (λ (r : List ℕ × Kernel h). Follow k r.1) (Follow k) (name_from h limit k) body
        (name_from-Follow limit k)
        (λ r g. Always-map (Follow r.1) (Follow k) _ (λ k' g'. Follows-trans g g') (b r))

  handle_files-Follow :
      (c : Call) (k : Kernel h)
      → ((r : ℕ) → IsWord (k.machine.registers r))
      → Always (Follow k) (handle_files h c k)
  unfolding handle_files with_buffer
  handle_files-Follow Call.create k w =
      named max_file_length k _ (λ (filename, k'). sys_create_file-Follow h filename k')
  handle_files-Follow Call.open_call k w =
      named max_file_length k _
        (λ (filename, k'). sys_open-Follow h filename (k.machine.registers 5) k')
  handle_files-Follow Call.close k w =
      Always-bind (λ (r : ℕ × Kernel h). IsWord r.0 × Follow k r.1) (Follow k)
        (sys_close h (k.machine.registers 4) k) _ (sys_close-Follow h (k.machine.registers 4) k)
        (λ r g. Follows-trans g.1 (reply r.1 r.0 g.0))
  handle_files-Follow Call.read k w =
      Always-if (Follow k) (is_negative (k.machine.registers 5)) _ _ tt (
        sys_read-Follow h (k.machine.registers 4) (k.machine.registers 5) (k.machine.registers 6) k)
  handle_files-Follow Call.write k w =
      Always-if (Follow k) (is_negative (k.machine.registers 5)) _ _ tt (
        sys_write-Follow h (k.machine.registers 4) (k.machine.registers 5) (k.machine.registers 6)
          k)
  handle_files-Follow Call.seek k w =
      sys_seek-Follow h (k.machine.registers 4) (k.machine.registers 5) k (w 4)
  handle_files-Follow Call.remove k w = named (max_file_length + 1) k _ (λ (filename, k').
      let g = sys_remove-Follow h filename k' in
      Follows-trans g.1 (reply (sys_remove h filename k').1 (sys_remove h filename k').0 g.0))
  handle_files-Follow _ k w = tt

  handle_console-Follow :
      (c : Call) (k : Kernel h)
      → ((r : ℕ) → IsWord (k.machine.registers r))
      → Always (Follow k) (handle_console h c k)
  unfolding handle_console
  handle_console-Follow Call.add k w = reply k _ (omega arith)
  handle_console-Follow Call.read_num_call k w =
      Always-bind (λ (r : ℕ × List ℕ). IsWord r.0) (Follow k) (read_num k.typed) _
        (read_num-IsWord k.typed) (λ r v. reply k r.0 v)
  handle_console-Follow Call.print_num_call k w =
      Always-then (Follow k) (print_num (k.machine.registers 4)) _ (λ shown. Follows-refl k.machine)
  handle_console-Follow Call.random_num k w = reply k _ (omega arith)
  handle_console-Follow Call.read_char k w =
      Always-then (Follow k) (get_char k.typed) _
        (λ (c, rest). reply k _ (char_to_int-IsWord (c % 2 ^ 8) (omega arith)))
  handle_console-Follow Call.print_char k w = Follows-refl k.machine
  handle_console-Follow Call.read_string_call k w =
      let vir_addr = k.machine.registers 4 in
      let len = k.machine.registers 5 in
      Always-bind (λ (r : List ℕ × Machine). Follows k.machine r.1) (Follow k)
        (user_to_system vir_addr len k.machine) _ (user_to_system-Follows vir_addr len k.machine)
        (λ (buffer, m) g.
          Always-then (Follow k) (read_string buffer len k.typed) _ (λ (buffer', rest).
            Always-bind (λ (r : ℕ × Machine). Follows m r.1) (Follow k)
              (system_to_user vir_addr len buffer' m) _
              (system_to_user-Follows vir_addr len buffer' m) (λ r g'. Follows-trans g g')))
  handle_console-Follow Call.print_string k w =
      named 255 k _ (λ (shown, k'). Follows-refl k'.machine)
  handle_console-Follow _ k w = tt

  Follows-words : (m m' : Machine) → Follows m m' → IsSettled m → (r : ℕ) → IsWord (m'.registers r)
  Follows-words m m' f s r = elim (Bool-cases (r == 2)) [
    | inl e ↦ let same : r ≡ 2 = ground arith in rw same (f.result (s.sound.words 2))
    | inr e ↦ rw (f.others r (ground arith)) (s.sound.words r)
  ]

  -- What increase_pc does to a machine that a call has followed.
  pub record Advanced (m m' : Machine) : Type 0 where
    pub prev : m'.registers prev_pc_reg ≡ m.registers pc_reg
    pub now : m'.registers pc_reg ≡ add32 (m.registers pc_reg) 4
    pub then_ : m'.registers next_pc_reg ≡ add32 (add32 (m.registers pc_reg) 4) 4
    pub others :
        (r : ℕ)
        → r ≢ 2
        → r ≢ pc_reg
        → r ≢ next_pc_reg
        → r ≢ prev_pc_reg
        → m'.registers r ≡ m.registers r

  increase_pc-Advanced : (m m' : Machine) → Follows m m' → Advanced m (increase_pc m')
  unfolding increase_pc
  increase_pc-Advanced m m' f = record {
    prev = ground (arith, f.others 34);
    now = ground (arith, f.others 34);
    then_ = ground (arith, f.others 34);
    others = λ r a b c d. ground (arith, f.others r a, b, c, d);
  }

  increase_pc-IsSettled : (m m' : Machine) → Follows m m' → IsSettled m → IsSettled (increase_pc m')
  unfolding increase_pc
  increase_pc-IsSettled m m' f s =
      let w = Follows-words m m' f s in
      record {
        sound = record { words = λ r. ground (arith, w r, w 34); bytes = f.bytes s.sound.bytes };
        zero_reg = f.others 0 (ground arith) ∙ s.zero_reg;
      }

  system_call-Follow :
      (c : Call) (k : Kernel h) (P : Kernel h → Type 0)
      → ((r : ℕ) → IsWord (k.machine.registers r))
      → ((k' : Kernel h) → Follow k k' → P (done h k'))
      → Always P (system_call h c k)
  unfolding system_call
  system_call-Follow c k P w f =
      Always-bind (Follow k) P
        (if is_file_call h c then handle_files h c k else handle_console h c k) _
        (Always-if (Follow k) (is_file_call h c) _ _ (handle_files-Follow c k w)
          (handle_console-Follow c k w))
        (λ k' g. f k' g)

  -- Every system call that comes back, on a machine between two instructions and whatever files and
  -- input there are, leaves PrevPC at the syscall instruction, PC at the one behind it and NextPC
  -- at the one behind that, and every other register but that of the result as it was.
  pub system_call-Advanced :
      (c : Call) (k : Kernel h)
      → IsSettled k.machine
      → Always (λ k'. Advanced k.machine k'.machine) (system_call h c k)
  system_call-Advanced c k s =
      system_call-Follow c k (λ k'. Advanced k.machine k'.machine) s.sound.words
        (λ k' g. increase_pc-Advanced k.machine k'.machine g)

  pub exception_handler-IsSettled :
      (e : ExceptionType) (k : Kernel h)
      → IsSettled k.machine
      → Always (λ k'. IsSettled k'.machine) (exception_handler h e k)
  unfolding exception_handler
  exception_handler-IsSettled no_exception k s = s
  exception_handler-IsSettled syscall_exception k s =
      system_call-Follow (call_of (k.machine.registers 2)) k (λ k'. IsSettled k'.machine)
        s.sound.words (λ k' g. increase_pc-IsSettled k.machine k'.machine g s)
  exception_handler-IsSettled _ k s = tt
