-- ===== src/Host/FileSystem.antt =====
-- The class FileSystem of NachOS-4.0/code/filesys/filesys.h, as compiled with FILESYS_STUB.
pub mod Slots
use cs107_nach_os.Common.{
  ℕ, zero, suc, ◌+◌, ◌-◌, Bool, true, not, ◌||◌, Option, none, some, List, [], ◌∷◌, Outcome, ok,
  aborted, ◌>>=◌, ◌==◌, ltb, length, if◌then◌else◌, get_elem?, set, replicate,
}
use cs107_nach_os.Host.{Host, open_for_write, open_for_read_write, open_for_read, close, unlink}
use cs107_nach_os.Host.OpenFile.{OpenFile}

abbrev pub max_file_open : ℕ
max_file_open = 15

module _ (h : Host) where
  -- The table of open files, and the state of the host.
  pub record FileSystem : Type 0 where
    pub openf : List (Option OpenFile)
    pub index : ℕ
    pub host : h.State

-- "stdin" and "stdout"
abbrev pub stdin_name : List ℕ
stdin_name = 115 ∷ 116 ∷ 100 ∷ 105 ∷ 110 ∷ []

abbrev pub stdout_name : List ℕ
stdout_name = 115 ∷ 116 ∷ 100 ∷ 111 ∷ 117 ∷ 116 ∷ []

module _ (h : Host) where
  pub create : List ℕ → FileSystem h → Outcome (Bool × FileSystem h)
  create name fs = do
    (fd, s1) ← open_for_write h name fs.host
    s2 ← close h fd s1
    ok (true, record fs { host = s2 })

  -- A descriptor for another type than 0 to 3 is not set.
  unfoldable pub descriptor : List ℕ → ℕ → h.State → Outcome (Option ℕ × h.State)
  descriptor name type s =
      if type == 0
      then ok (open_for_read_write h name s)
      else if (type == 1) || (type == 2)
      then ok (open_for_read h name s)
      else if type == 3
      then (open_for_write h name s >>= λ (fd, s'). ok (some fd, s'))
      else aborted

  unfoldable pub open_typed : List ℕ → ℕ → FileSystem h → Outcome (Option OpenFile × FileSystem h)
  unfolding descriptor
  open_typed name type fs = descriptor name type fs.host >>= λ (fd, s'). elim fd [
    | none ↦ ok (none, record fs { host = s' })
    | some f ↦
        ok (some (record { type = type; file = f; current_offset = 0 }), record fs { host = s' })
  ]

  -- The first free slot from i on, with n slots left; `none` is -1.
  unfoldable pub free_from : ℕ → ℕ → List (Option OpenFile) → Outcome (Option ℕ)
  free_from zero i openf = ok none
  free_from (suc n) i openf =
      let rest = free_from n (i + 1) openf in
      elim (get_elem? openf i) [
        | none ↦ aborted
        | some slot ↦ elim slot [ none ↦ ok (some i) | some f ↦ rest ]
      ]

  unfoldable pub find_free_slot : FileSystem h → Outcome (Option ℕ)
  find_free_slot fs = free_from (max_file_open - 2) 2 fs.openf

  -- `openf[index++] = file;`
  pub add_file : Option OpenFile → FileSystem h → Outcome (FileSystem h)
  add_file file fs =
      if ltb fs.index (length fs.openf)
      then ok (record fs { openf = set fs.openf fs.index file; index = fs.index + 1 })
      else aborted

  -- The constructor.
  pub start : h.State → Outcome (FileSystem h)
  unfolding add_file
  start s = do
    let empty : FileSystem h = record { openf = replicate max_file_open none; index = 0; host = s }
    (_, fs1) ← create stdin_name empty
    (_, fs2) ← create stdout_name fs1
    (input, fs3) ← open_typed stdin_name 2 fs2
    fs4 ← add_file input fs3
    (output, fs5) ← open_typed stdout_name 3 fs4
    add_file output fs5

  pub remove : List ℕ → FileSystem h → Bool × FileSystem h
  remove name fs = let (failed, s) = unlink h name fs.host in (not failed, record fs { host = s })
