-- ===== src/Syscall/Files.antt =====
-- The system calls on files of NachOS-4.0/code/userprog/ksyscall.h. What is printed for the operator
-- of the simulation is left out.
pub mod Frame
pub mod Bounds
pub mod RoundTrip
use cs107_nach_os.Common.{
  ℕ, ◌-◌, ◌^◌, ◌||◌, Option, none, some, List, ◌++◌, Outcome, ok, aborted, ◌>>=◌, ◌==◌, ltb, leb,
  if◌then◌else◌, length, get_elem?, set, take,
}
use cs107_nach_os.Common.Words.{sub32, is_negative, slt}
use cs107_nach_os.Machine.{set_register}
use cs107_nach_os.Host.{Host, minus_one, close}
use cs107_nach_os.Host.OpenFile.{OpenFile, read, write, file_size, get_current_pos, seek}
use cs107_nach_os.Host.FileSystem.{max_file_open, create, open_typed, find_free_slot, remove}
use cs107_nach_os.Syscall.{Kernel}
use cs107_nach_os.Syscall.Text.{user_to_system, system_to_user, c_string}

-- Register 2 has the result of a call.
abbrev pub result_reg : ℕ
result_reg = 2

module _ (h : Host) where
  abbrev pub answer : ℕ → Kernel h → Kernel h
  answer value k = record k { machine = set_register k.machine result_reg value }

  -- openf[id]; a read outside of the array is a fault.
  abbrev pub slot_at : Kernel h → ℕ → Outcome (Option OpenFile)
  slot_at k id = elim (get_elem? k.files.openf id) [ none ↦ aborted | some slot ↦ ok slot ]

  abbrev pub put_slot : Kernel h → ℕ → Option OpenFile → h.State → Kernel h
  put_slot k id slot s = record k {
    files = record k.files { openf = set k.files.openf id slot; host = s };
  }

  pub sys_create_file : List ℕ → Kernel h → Outcome (Kernel h)
  sys_create_file filename k =
      if length filename == 0
      then ok (answer minus_one k)
      else (create h filename k.files >>= λ (created, fs).
          ok (answer (if created then 0 else minus_one) (record k { files = fs })))

  pub sys_open : List ℕ → ℕ → Kernel h → Outcome (Kernel h)
  sys_open filename type k = find_free_slot h k.files >>= λ free. elim free [
    | none ↦ ok (answer minus_one k)
    | some free_slot ↦
        if type == 2
        then ok (answer 0 k)
        else if type == 3
        then ok (answer 1 k)
        else if (type == 0) || (type == 1)
        then (open_typed h filename type k.files >>= λ (file, fs). elim file [
          | none ↦ ok (record k { files = fs })
          | some f ↦
              ok (answer free_slot (put_slot (record k { files = fs }) free_slot (some f) fs.host))
        ])
        else ok k
  ]

  pub sys_close : ℕ → Kernel h → Outcome (ℕ × Kernel h)
  sys_close id k =
      if leb id 14
      then (slot_at k id >>= λ slot. elim slot [
        | none ↦ ok (minus_one, k)
        | some f ↦ do s ← close h f.file k.files.host; ok (0, put_slot k id none s)
      ])
      else ok (minus_one, k)

  -- After the checks of SysRead. RLineBlock of the console's input is never made, so a read of
  -- type 2 faults.
  pub read_open : ℕ → ℕ → ℕ → OpenFile → Kernel h → Outcome (Kernel h)
  read_open virt_addr charcount id f k =
      let (cur_pos, f1, s1) = get_current_pos h f k.files.host in
      if f.type == 2
      then aborted
      else (read h f1 charcount s1 >>= λ (num_read, buffer, f2, s2).
          if is_negative num_read || (num_read == 0)
          then ok (answer (2 ^ 32 - 2) (put_slot k id (some f2) s2))
          else (let (new_pos, f3, s3) = get_current_pos h f2 s2 in
              let k1 = answer (sub32 new_pos cur_pos) (put_slot k id (some f3) s3) in
              system_to_user virt_addr (sub32 new_pos cur_pos) buffer k1.machine >>= λ (i, m).
              ok (record k1 { machine = m })))

  pub sys_read : ℕ → ℕ → ℕ → Kernel h → Outcome (Kernel h)
  sys_read virt_addr charcount id k =
      if is_negative id || ltb id 2 || ltb max_file_open id
      then ok (answer minus_one k)
      else (slot_at k id >>= λ slot. elim slot [
        | none ↦ ok (answer minus_one k)
        | some f ↦
            if f.type == 3 then ok (answer minus_one k) else read_open virt_addr charcount id f k
      ])

  pub write_open : ℕ → ℕ → ℕ → OpenFile → Kernel h → Outcome (Kernel h)
  write_open virt_addr charcount id f k =
      let (cur_pos, f1, s1) = get_current_pos h f k.files.host in
      user_to_system virt_addr charcount k.machine >>= λ (buffer, m).
      let k1 = record (put_slot k id (some f1) s1) { machine = m } in
      if f.type == 0
      then (write h f1 (take charcount buffer) s1 >>= λ (num_written, f2, s2).
          if is_negative num_written || (num_written == 0)
          then ok (put_slot k1 id (some f2) s2)
          else (let (new_pos, f3, s3) = get_current_pos h f2 s2 in
              ok (answer (sub32 new_pos cur_pos) (put_slot k1 id (some f3) s3))))
      else if f.type == 3
      then ok (
          answer (sub32 (length (c_string buffer)) 1)
            (record k1 { displayed = k1.displayed ++ c_string buffer }))
      else ok k1

  pub sys_write : ℕ → ℕ → ℕ → Kernel h → Outcome (Kernel h)
  sys_write virt_addr charcount id k =
      if is_negative id || ltb id 2 || ltb (max_file_open - 1) id
      then ok (answer minus_one k)
      else (slot_at k id >>= λ slot. elim slot [
        | none ↦ ok (answer minus_one k)
        | some f ↦
            if (f.type == 1) || (f.type == 2)
            then ok (answer minus_one k)
            else write_open virt_addr charcount id f k
      ])

  -- `pos > Length() || pos < 0`, and what follows.
  pub seek_open : ℕ → ℕ → OpenFile → Kernel h → Outcome (Kernel h)
  seek_open pos id f k = file_size h f k.files.host >>= λ (size, s1).
      if slt size pos || is_negative pos
      then ok (answer minus_one (put_slot k id (some f) s1))
      else (seek h f pos s1 >>= λ (offset, f1, s2). ok (answer pos (put_slot k id (some f1) s2)))

  -- The test for the console comes after that for the bounds, and is never met.
  pub sys_seek : ℕ → ℕ → Kernel h → Outcome (Kernel h)
  sys_seek pos id k =
      if is_negative id || ltb id 2 || ltb max_file_open id
      then ok (answer minus_one k)
      else (slot_at k id >>= λ slot. elim slot [
        | none ↦ ok (answer minus_one k)
        | some f ↦
            if (id == 0) || (id == 1)
            then ok (answer minus_one k)
            else if pos == minus_one
            then (file_size h f k.files.host >>= λ (size, s).
                seek_open size id f (put_slot k id (some f) s))
            else seek_open pos id f k
      ])

  pub sys_remove : List ℕ → Kernel h → ℕ × Kernel h
  sys_remove filename k =
      let (removed, fs) = remove h filename k.files in
      (if removed then 1 else 0, record k { files = fs })
