-- ===== src/Filesys/FileSystem/Start.antt =====
-- The constructor: what a formatted disk holds, and that it starts again.
use cs107_nach_os.Common.{
  ℕ, ◌≡◌, refl, ◌∙◌, ap, Bool, true, false, none, some, List, ◌∷◌, arith, ok, replicate,
  if◌then◌else◌, inl,
}
use cs107_nach_os.Bitmap.{Bitmap, bit, div_round_up}
use cs107_nach_os.Bitmap.Search.{count_clear}
use cs107_nach_os.Host.FileSystem.{stdin_name, stdout_name}
use cs107_nach_os.Filesys.Header.{FileHeader}
use cs107_nach_os.Filesys.Directory.{Directory, find, same_chars, add, find_index, add_entry}
use cs107_nach_os.Filesys.Directory.Lookup.{same_name, all_used}
use cs107_nach_os.Filesys.OpenFile.{OpenFile}
use cs107_nach_os.Filesys.Layout.{new_directory}
use cs107_nach_os.Filesys.FileSystem.{
  FileSystem, OpenFiles, free_slot_from, free_slot, open_name, open_slot, open_console, create_file,
  format_disk, open_files, construct,
}
use cs107_nach_os.Filesys.FileSystem.NewHeader.{AreBytes}
use cs107_nach_os.Filesys.FileSystem.Mounted.{IsMounted, IsFile}
use cs107_nach_os.Filesys.FileSystem.Create.{create_file-Adds}
use cs107_nach_os.Filesys.FileSystem.Files.{open_name-IsFile, open_name-missing, Adds-others}
use cs107_nach_os.Filesys.FileSystem.Refuse.{create_file_refused}
use cs107_nach_os.Filesys.FileSystem.Booted.{IsBooted, open_files-IsBooted, Adds-IsBooted}
use cs107_nach_os.Filesys.FileSystem.Format.{format_disk-IsMounted}

-- An open file at its start.
abbrev pub opened : FileHeader → OpenFile
opened h = record { hdr = h; seek_position = 0 }

-- The table where both names are found: each file has a slot from 2 on, and its own besides.
abbrev pub console_files : FileHeader → FileHeader → OpenFiles
console_files h g =
    some (opened h, 2)
    ∷ some (opened g, 3)
    ∷ some (opened h, 2)
    ∷ some (opened g, 3)
    ∷ replicate 11 none

module _ (fresh : ℕ → ℕ) (fs : FileSystem) (disk disk1 disk2 : ℕ → ℕ) (made made' : Bool)
    (first : create_file fresh fs stdin_name 0 disk ≡ ok (made, disk1))
    (second : create_file fresh fs stdout_name 0 disk1 ≡ ok (made', disk2)) where
  open_console_missing :
      open_name fresh fs stdin_name disk ≡ ok none
      → open_name fresh fs stdout_name disk ≡ ok none
      → open_console fresh fs disk ≡ ok (replicate 15 none, disk2)
  unfolding open_console open_slot free_slot free_slot_from
  open_console_missing e f = rw (e, f, first, second) refl

  open_console_found :
      (h g : FileHeader)
      → open_name fresh fs stdin_name disk ≡ ok (some (opened h))
      → open_name fresh fs stdout_name disk ≡ ok (some (opened g))
      → open_console fresh fs disk ≡ ok (console_files h g, disk2)
  unfolding open_console open_slot free_slot free_slot_from
  open_console_found h g e f = rw (e, f, first, second) refl

construct_format :
    (fresh disk disk1 disk2 : ℕ → ℕ) (fs : FileSystem) (openf : OpenFiles)
    → format_disk fresh disk ≡ ok (fs, disk1)
    → open_console fresh fs disk1 ≡ ok (openf, disk2)
    → construct fresh true disk ≡ ok (fs, openf, disk2)
unfolding construct
construct_format fresh disk disk1 disk2 fs openf e f = rw (e, f) refl

construct_again :
    (fresh disk disk2 : ℕ → ℕ) (fs : FileSystem) (openf : OpenFiles)
    → open_files fresh disk ≡ ok fs
    → open_console fresh fs disk ≡ ok (openf, disk2)
    → construct fresh false disk ≡ ok (fs, openf, disk2)
unfolding construct
construct_again fresh disk disk2 fs openf e f = rw (e, f) refl

-- The disk after the constructor: the map and the directory with the two files, and no other name.
pub record IsFormatted (fresh : ℕ → ℕ) (fs : FileSystem) (b : Bitmap) (d : Directory) (disk : ℕ → ℕ)
    (s t : ℕ) (h g : FileHeader) : Type 0 where
  pub mounted : IsMounted fresh fs b d disk
  pub input : IsFile fresh fs b d disk stdin_name s h
  pub output : IsFile fresh fs b d disk stdout_name t g
  pub empty : (h.num_bytes ≡ 0) × (g.num_bytes ≡ 0)
  pub names :
      (other : List ℕ)
      → find other d ≡ (
          if same_name stdout_name other
          then some t
          else if same_name stdin_name other
          then some s
          else none)
  pub room : count_clear (bit b) 1024 ≡ 1017

different : same_name stdout_name stdin_name ≡ false
unfolding same_chars
different = refl

different' : same_name stdin_name stdout_name ≡ false
unfolding same_chars
different' = refl

no_block : div_round_up 0 128 ≡ 0
unfolding div_round_up
no_block = refl

one_used :
    (fresh : ℕ → ℕ) (name : List ℕ) (s : ℕ)
    → all_used (add name s (new_directory fresh 10)).1.table ≡ false
unfolding add find_index add_entry
one_used fresh name s = refl

-- The constructor finds both names on such a disk and leaves it as it is.
module _ (fresh : ℕ → ℕ) (fs : FileSystem) (b : Bitmap) (d : Directory) (disk : ℕ → ℕ) (s t : ℕ)
    (h g : FileHeader) (i : IsFormatted fresh fs b d disk s t h g) where
  construct_again-IsFormatted :
      IsBooted fresh fs b disk → construct fresh false disk ≡ ok (fs, console_files h g, disk)
  construct_again-IsFormatted booted =
      let refused : (name : List ℕ) (s : ℕ) (h : FileHeader)
          → IsFile fresh fs b d disk name s h
          → create_file fresh fs name 0 disk ≡ ok (false, disk) =
        λ name s h file.
          create_file_refused fresh fs b d disk i.mounted name 0
            (inl (s, file.found, omega (arith, file.on_disk))) in
      construct_again fresh disk disk fs (console_files h g)
        (open_files-IsBooted fresh fs b disk booted)
        (open_console_found fresh fs disk disk disk false false (refused stdin_name s h i.input)
          (refused stdout_name t g i.output) h g
          (open_name-IsFile fresh fs b d disk i.mounted stdin_name s h i.input)
          (open_name-IsFile fresh fs b d disk i.mounted stdout_name t g i.output))

-- The constructor that formats, on any disk and where new memory holds bytes, succeeds without a
-- failed assertion: the disk then holds a valid map of its sectors and a directory, each in its own
-- file, whose different sectors are set in the map; stdin and stdout are empty files with headers
-- of their own, no other name is found, 1017 sectors are clear, and no slot of the table of open
-- files is filled. The constructor that does not format then succeeds as well, opens the same two
-- files of the file system, leaves the disk as it is, and enters stdin in the slots 0 and 2 and
-- stdout in 1 and 3.
pub construct-IsFormatted :
    (fresh : ℕ → ℕ)
    → AreBytes fresh
    → (disk : ℕ → ℕ)
    → (fs : FileSystem) × (b : Bitmap) × (d : Directory) × (disk' : ℕ → ℕ) × (s t : ℕ) × (h
        g : FileHeader)
      × (construct fresh true disk ≡ ok (fs, replicate 15 none, disk'))
      × IsFormatted fresh fs b d disk' s t h g
      × (construct fresh false disk' ≡ ok (fs, console_files h g, disk'))
construct-IsFormatted fresh w disk =
    let d = new_directory fresh 10 in
    let (fs, b, disk1, formatted, mounted, booted, missing, clear) =
      format_disk-IsMounted fresh w disk in
    let (disk2, s, h, b1, d1, create1, adds1) =
      create_file-Adds fresh w fs b d disk1 mounted stdin_name 0 (missing stdin_name) refl
        (omega (arith, no_block)) (omega (arith, no_block, clear)) in
    let new : find stdout_name d1 ≡ none =
      adds1.names stdout_name ∙ rw different' (missing stdout_name) in
    let unused : all_used d1.table ≡ false =
      ap (λ (e : Directory). all_used e.table) adds1.table ∙ one_used fresh stdin_name s in
    let (disk3, t, g, b2, d2, create2, adds2) =
      create_file-Adds fresh w fs b1 d1 disk2 adds1.mounted stdout_name 0 new unused
        (omega (arith, no_block)) (omega (arith, no_block, clear, adds1.room)) in
    let kept =
      Adds-others fresh fs b1 b2 d1 d2 disk2 disk3 stdout_name t g stdin_name s h different
        adds1.file 0 adds2 in
    let done : IsFormatted fresh fs b2 d2 disk3 s t h g = record {
      mounted = adds2.mounted;
      input = kept.0;
      output = adds2.file;
      empty = (adds1.bytes, adds2.bytes);
      names = λ other.
          adds2.names other
          ∙ ap (λ o. if same_name stdout_name other then some t else o)
              (adds1.names other
                ∙ ap (λ o. if same_name stdin_name other then some s else o) (missing other));
      room = omega (arith, no_block, clear, adds1.room, adds2.room);
    } in
    let booted2 =
      Adds-IsBooted fresh fs b1 b2 d1 d2 disk2 disk3 stdout_name 0 t g
        (Adds-IsBooted fresh fs b b1 d d1 disk1 disk2 stdin_name 0 s h booted adds1) adds2 in
    (
      fs,
      b2,
      d2,
      disk3,
      s,
      t,
      h,
      g,
      construct_format fresh disk disk1 disk3 fs (replicate 15 none) formatted (
          open_console_missing fresh fs disk1 disk2 disk3 true true create1 create2
            (open_name-missing fresh fs b d disk1 mounted stdin_name (missing stdin_name))
            (open_name-missing fresh fs b d disk1 mounted stdout_name (missing stdout_name))),
      done,
      construct_again-IsFormatted fresh fs b2 d2 disk3 s t h g done booted2,
    )
