-- ===== src/Syscall/Files/Bounds.antt =====
-- The test for the bounds of the table of open files in SysRead, SysWrite and SysSeek.
use cs107_nach_os.Common.{
  ℕ, zero, suc, ◌≤◌, ◌≡◌, refl, none, List, [], ◌∷◌, get_elem?, length, ok, aborted, arith,
}
use cs107_nach_os.Host.{Host, minus_one}
use cs107_nach_os.Host.FileSystem.{max_file_open}
use cs107_nach_os.Syscall.{Kernel}
use cs107_nach_os.Syscall.Files.{answer, slot_at, sys_read, sys_write, sys_seek}

get_elem?-past {ℓ} : {A : Type ℓ} (xs : List A) (i : ℕ) → length xs ≤ i → get_elem? xs i ≡ none
get_elem?-past [] i h = refl
get_elem?-past (x ∷ xs) zero h = absurd (omega arith)
get_elem?-past (x ∷ xs) (suc i) h = get_elem?-past xs i (omega arith)

module _ (h : Host) where
  slot_past : (k : Kernel h) → length k.files.openf ≡ max_file_open → slot_at h k 15 ≡ aborted
  slot_past k e = rw (get_elem?-past k.files.openf 15 (omega (arith, e)), slot_at) refl

  -- With a table of 15 open files, SysRead and SysSeek of the file 15 read behind the table, while
  -- SysWrite of it answers -1 and changes nothing else.
  pub past_the_table :
      (virt_addr charcount pos : ℕ) (k : Kernel h)
      → length k.files.openf ≡ max_file_open
      → (sys_read h virt_addr charcount max_file_open k ≡ aborted)
        × (sys_seek h pos max_file_open k ≡ aborted)
        × (sys_write h virt_addr charcount max_file_open k ≡ ok (answer h minus_one k))
  unfolding sys_read sys_write sys_seek
  past_the_table virt_addr charcount pos k e =
      let fault = slot_past k e in (rw fault refl, rw fault refl, refl)
