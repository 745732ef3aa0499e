-- ===== src/Syscall/Files/Frame.antt =====
-- What the calls on files leave of the machine, and that their result is a word.
use cs107_nach_os.Common.{
  ℕ, ◌-◌, ◌%◌, ◌^◌, ◌||◌, Option, none, some, List, length, take, Outcome, ok, ◌>>=◌, ◌==◌, ltb,
  leb, if◌then◌else◌, arith,
}
use cs107_nach_os.Common.Words.{IsWord, sub32, is_negative, slt}
use cs107_nach_os.Machine.{Machine}
use cs107_nach_os.Machine.Sound.{Always, Always-bind, Always-then, Always-if, Always-option}
use cs107_nach_os.Host.{Host, minus_one, lseek, close}
use cs107_nach_os.Host.OpenFile.{OpenFile, read, write, file_size, get_current_pos, seek}
use cs107_nach_os.Host.FileSystem.{FileSystem, max_file_open, create, open_typed, find_free_slot}
use cs107_nach_os.Host.FileSystem.Slots.{Searched, found, find_free_slot-Searched}
use cs107_nach_os.Syscall.{Kernel}
use cs107_nach_os.Syscall.Text.{user_to_system, system_to_user, c_string}
use cs107_nach_os.Syscall.Text.Frame.{
  Follows, Follows-refl, Follows-trans, answer-Follows, user_to_system-Follows,
  system_to_user-Follows,
}
use cs107_nach_os.Syscall.Files.{
  answer, slot_at, put_slot, sys_create_file, sys_open, sys_close, read_open, sys_read, write_open,
  sys_write, seek_open, sys_seek, sys_remove,
}

module _ (h : Host) where
  abbrev pub Follow : Kernel h → Kernel h → Type 0
  Follow k k' = Follows k.machine k'.machine

  reply : (k : Kernel h) (v : ℕ) → IsWord v → Follows k.machine (answer h v k).machine
  reply k v w = answer-Follows k.machine v w

  refused : (k : Kernel h) → Follow k (answer h minus_one k)
  refused k = reply k minus_one (omega arith)

  pub sys_create_file-Follow :
      (filename : List ℕ) (k : Kernel h) → Always (Follow k) (sys_create_file h filename k)
  unfolding sys_create_file
  sys_create_file-Follow filename k = Always-if (Follow k) (length filename == 0) _ _ (refused k) (
      Always-then (Follow k) (create h filename k.files) _
        (λ r. reply k (if r.0 then 0 else minus_one) (ground arith)))

  placed :
      (free_slot : ℕ) (k : Kernel h) (r : Option OpenFile × FileSystem h)
      → IsWord free_slot
      → Always (Follow k) (elim r.0 as (λ _. Outcome (Kernel h)) [
        | none ↦ ok (record k { files = r.1 })
        | some f ↦
            ok (
              answer h free_slot
                (put_slot h (record k { files = r.1 }) free_slot (some f) r.1.host))
      ])
  placed free_slot k (none, fs) w = Follows-refl k.machine
  placed free_slot k (some f, fs) w = reply k free_slot w

  pub sys_open-Follow :
      (filename : List ℕ) (type : ℕ) (k : Kernel h) → Always (Follow k) (sys_open h filename type k)
  unfolding sys_open
  sys_open-Follow filename type k =
      Always-bind (Searched k.files.openf 2 max_file_open) (Follow k) (find_free_slot h k.files) _
        (find_free_slot-Searched h k.files) (λ o s. go o s)
    where
      go :
          (free : Option ℕ)
          → Searched k.files.openf 2 max_file_open free
          → Always (Follow k) (elim free as (λ _. Outcome (Kernel h)) [
            | none ↦ ok (answer h minus_one k)
            | some free_slot ↦
                if type == 2
                then ok (answer h 0 k)
                else if type == 3
                then ok (answer h 1 k)
                else if (type == 0) || (type == 1)
                then (open_typed h filename type k.files >>= λ (file, fs). elim file [
                  | none ↦ ok (record k { files = fs })
                  | some f ↦ ok (
                      answer h free_slot
                        (put_slot h (record k { files = fs }) free_slot (some f) fs.host))
                ])
                else ok k
          ])
      go none s = refused k
      go (some j) (found _ p q free least) =
          Always-if (Follow k) (type == 2) _ _ (reply k 0 (omega arith)) (
            Always-if (Follow k) (type == 3) _ _ (reply k 1 (omega arith)) (
              Always-if (Follow k) ((type == 0) || (type == 1)) _ _
                (Always-then (Follow k) (open_typed h filename type k.files) _
                  (λ r. placed j k r (omega (arith, q))))
                (Follows-refl k.machine)))

  -- The result of Close is given back by the handler.
  pub sys_close-Follow :
      (id : ℕ) (k : Kernel h) → Always (λ r. IsWord r.0 × Follow k r.1) (sys_close h id k)
  unfolding sys_close
  sys_close-Follow id k =
      let P : ℕ × Kernel h → Type 0 = λ r. IsWord r.0 × Follow k r.1 in
      Always-if P (leb id 14) _ _
        (Always-then P (slot_at h k id) _ (λ slot.
          Always-option P slot _ _ (omega arith, Follows-refl k.machine)
            (λ f.
              Always-then P (close h f.file k.files.host) _
                (λ s. (omega arith, Follows-refl k.machine)))))
        (omega arith, Follows-refl k.machine)

  moved : (k : Kernel h) (new_pos cur_pos : ℕ) → Follow k (answer h (sub32 new_pos cur_pos) k)
  moved k new_pos cur_pos = reply k (sub32 new_pos cur_pos) (omega arith)

  read_open-Follow :
      (virt_addr charcount id : ℕ) (f : OpenFile) (k : Kernel h)
      → Always (Follow k) (read_open h virt_addr charcount id f k)
  unfolding read_open
  read_open-Follow virt_addr charcount id f k =
      let (cur_pos, f1, s1) = get_current_pos h f k.files.host in
      Always-if (Follow k) (f.type == 2) _ _ tt (
        Always-then (Follow k) (read h f1 charcount s1) _ (λ (num_read, buffer, f2, s2).
          Always-if (Follow k) (is_negative num_read || (num_read == 0)) _ _
            (reply k (2 ^ 32 - 2) (omega arith))
            (let (new_pos, f3, s3) = get_current_pos h f2 s2 in
              let k1 = answer h (sub32 new_pos cur_pos) (put_slot h k id (some f3) s3) in
              Always-bind (λ (r : ℕ × Machine). Follows k1.machine r.1) (Follow k)
                (system_to_user virt_addr (sub32 new_pos cur_pos) buffer k1.machine) _
                (system_to_user-Follows virt_addr (sub32 new_pos cur_pos) buffer k1.machine)
                (λ r g. Follows-trans (moved k new_pos cur_pos) g))))

  pub sys_read-Follow :
      (virt_addr charcount id : ℕ) (k : Kernel h)
      → Always (Follow k) (sys_read h virt_addr charcount id k)
  unfolding sys_read
  sys_read-Follow virt_addr charcount id k =
      Always-if (Follow k) (is_negative id || ltb id 2 || ltb max_file_open id) _ _ (refused k) (
        Always-then (Follow k) (slot_at h k id) _ (λ slot.
          Always-option (Follow k) slot _ _ (refused k) (λ f.
            Always-if (Follow k) (f.type == 3) _ _ (refused k)
              (read_open-Follow virt_addr charcount id f k))))

  write_open-Follow :
      (virt_addr charcount id : ℕ) (f : OpenFile) (k : Kernel h)
      → Always (Follow k) (write_open h virt_addr charcount id f k)
  unfolding write_open
  write_open-Follow virt_addr charcount id f k =
      let (cur_pos, f1, s1) = get_current_pos h f k.files.host in
      Always-bind (λ (r : List ℕ × Machine). Follows k.machine r.1) (Follow k)
        (user_to_system virt_addr charcount k.machine) _
        (user_to_system-Follows virt_addr charcount k.machine)
        (λ (buffer, m) g.
          let k1 = record (put_slot h k id (some f1) s1) { machine = m } in
          Always-if (Follow k) (f.type == 0) _ _
            (Always-then (Follow k) (write h f1 (take charcount buffer) s1) _
              (λ (num_written, f2, s2).
                Always-if (Follow k) (is_negative num_written || (num_written == 0)) _ _ g (
                  let (new_pos, f3, s3) = get_current_pos h f2 s2 in
                  Follows-trans g (moved k1 new_pos cur_pos))))
            (Always-if (Follow k) (f.type == 3) _ _
              (Follows-trans g (moved k1 (length (c_string buffer)) 1)) g))

  pub sys_write-Follow :
      (virt_addr charcount id : ℕ) (k : Kernel h)
      → Always (Follow k) (sys_write h virt_addr charcount id k)
  unfolding sys_write
  sys_write-Follow virt_addr charcount id k =
      Always-if (Follow k) (is_negative id || ltb id 2 || ltb (max_file_open - 1) id) _ _
        (refused k)
        (Always-then (Follow k) (slot_at h k id) _ (λ slot.
          Always-option (Follow k) slot _ _ (refused k) (λ f.
            Always-if (Follow k) ((f.type == 1) || (f.type == 2)) _ _ (refused k)
              (write_open-Follow virt_addr charcount id f k))))

  file_size-IsWord : (f : OpenFile) (s : h.State) → Always (λ r. IsWord r.0) (file_size h f s)
  unfolding file_size
  file_size-IsWord f s =
      Always-then (λ (r : ℕ × h.State). IsWord r.0) (lseek h f.file 0 2 s) _
        (λ s1. tell-IsWord (h.lseek_call f.file 0 1 s1))
    where
      tell-IsWord :
          (r : Option ℕ × h.State)
          → IsWord (elim r.0 as (λ _. ℕ) [ none ↦ minus_one | some n ↦ n % 2 ^ 32 ])
      tell-IsWord (none, s') = omega arith
      tell-IsWord (some n, s') = omega arith

  seek_open-Follow :
      (pos id : ℕ) (f : OpenFile) (k : Kernel h)
      → IsWord pos
      → Always (Follow k) (seek_open h pos id f k)
  unfolding seek_open
  seek_open-Follow pos id f k w =
      Always-then (Follow k) (file_size h f k.files.host) _ (λ (size, s1).
        Always-if (Follow k) (slt size pos || is_negative pos) _ _ (refused k)
          (Always-then (Follow k) (seek h f pos s1) _ (λ r. reply k pos w)))

  pub sys_seek-Follow :
      (pos id : ℕ) (k : Kernel h) → IsWord pos → Always (Follow k) (sys_seek h pos id k)
  unfolding sys_seek
  sys_seek-Follow pos id k w =
      Always-if (Follow k) (is_negative id || ltb id 2 || ltb max_file_open id) _ _ (refused k) (
        Always-then (Follow k) (slot_at h k id) _ (λ slot.
          Always-option (Follow k) slot _ _ (refused k) (λ f.
            Always-if (Follow k) ((id == 0) || (id == 1)) _ _ (refused k) (
              Always-if (Follow k) (pos == minus_one) _ _
                (Always-bind (λ (r : ℕ × h.State). IsWord r.0) (Follow k)
                  (file_size h f k.files.host) _ (file_size-IsWord f k.files.host)
                  (λ r v. seek_open-Follow r.0 id f (put_slot h k id (some f) r.1) v))
                (seek_open-Follow pos id f k w)))))

  pub sys_remove-Follow :
      (filename : List ℕ) (k : Kernel h)
      → IsWord (sys_remove h filename k).0 × Follow k (sys_remove h filename k).1
  unfolding sys_remove
  sys_remove-Follow filename k = (ground arith, Follows-refl k.machine)
