-- ===== src/Filesys/FileSystem/Tests.antt =====
-- A disk that was formatted, with two files.
use cs107_nach_os.Common.{
  ℕ, ◌<◌, ◌≡◌, refl, ◌∙◌, ap, true, false, none, some, List, [], ◌∷◌, ok, arith, if◌then◌else◌, inr,
  replicate,
}
use cs107_nach_os.Bitmap.{Bitmap, bit, div_round_up}
use cs107_nach_os.Bitmap.Search.{count_clear}
use cs107_nach_os.Filesys.Header.{FileHeader}
use cs107_nach_os.Filesys.Directory.{Directory, find, same_chars, add, add_entry, find_index}
use cs107_nach_os.Filesys.Directory.Lookup.{same_name, all_used}
use cs107_nach_os.Filesys.OpenFile.Blocks.{IsStored}
use cs107_nach_os.Filesys.OpenFile.ReadAt.{content}
use cs107_nach_os.Filesys.Layout.{new_directory}
use cs107_nach_os.Filesys.FileSystem.{FileSystem, construct, create_file, open_name, remove_file}
use cs107_nach_os.Filesys.FileSystem.NewHeader.{AreBytes}
use cs107_nach_os.Filesys.FileSystem.Mounted.{IsMounted}
use cs107_nach_os.Filesys.FileSystem.Format.{format_disk-IsMounted}
use cs107_nach_os.Filesys.FileSystem.Start.{IsFormatted, console_files, construct-IsFormatted}
use cs107_nach_os.Filesys.FileSystem.Create.{Adds, create_file-Adds}
use cs107_nach_os.Filesys.FileSystem.Remove.{Removes, remove_file-Removes}
use cs107_nach_os.Filesys.FileSystem.Refuse.{create_file_refused}
use cs107_nach_os.Filesys.FileSystem.RoundTrip.{
  open_name-create_file, create_file-others, remove_file-create_file,
}

abbrev zeros : ℕ → ℕ
zeros k = 0

zeros-AreBytes : AreBytes zeros
zeros-AreBytes k = omega arith

construct-IsFormatted_example :
    (fs : FileSystem) × (b : Bitmap) × (d : Directory) × (disk' : ℕ → ℕ) × (s t : ℕ) × (h
      g : FileHeader)
    × (construct zeros true zeros ≡ ok (fs, replicate 15 none, disk'))
    × IsFormatted zeros fs b d disk' s t h g
    × (construct zeros false disk' ≡ ok (fs, console_files h g, disk'))
construct-IsFormatted_example = construct-IsFormatted zeros zeros-AreBytes zeros

-- The formatted disk, before the files of the console.
abbrev fs : FileSystem
fs = (format_disk-IsMounted zeros zeros-AreBytes zeros).0

abbrev b : Bitmap
b = (format_disk-IsMounted zeros zeros-AreBytes zeros).1

abbrev disk : ℕ → ℕ
disk = (format_disk-IsMounted zeros zeros-AreBytes zeros).2

abbrev d : Directory
d = new_directory zeros 10

mounted : IsMounted zeros fs b d disk
mounted = (format_disk-IsMounted zeros zeros-AreBytes zeros).4

missing : (name : List ℕ) → find name d ≡ none
missing = (format_disk-IsMounted zeros zeros-AreBytes zeros).6

room : count_clear (bit b) 1024 ≡ 1019
room = (format_disk-IsMounted zeros zeros-AreBytes zeros).7

three : (div_round_up 300 128 ≡ 3) × (div_round_up 140000 128 ≡ 1094)
unfolding div_round_up
three = (refl, refl)

abbrev name : List ℕ
name = 97 ∷ 98 ∷ []

abbrev other_name : List ℕ
other_name = 99 ∷ []

create_file-Adds_example :
    (disk' : ℕ → ℕ) × (s : ℕ) × (h : FileHeader) × (b' : Bitmap) × (d' : Directory) × (create_file
        zeros fs name 300 disk
      ≡ ok (true, disk'))
    × Adds zeros fs b d disk name 300 s h b' d' disk'
create_file-Adds_example =
    create_file-Adds zeros zeros-AreBytes fs b d disk mounted name 300 (missing name) refl
      (omega (arith, three.0)) (omega (arith, three.0, room))

create_file_refused_example : create_file zeros fs name 140000 disk ≡ ok (false, disk)
create_file_refused_example =
    create_file_refused zeros fs b d disk mounted name 140000
      (inr (missing name, inr (omega (arith, three.1, room))))

open_name-create_file_example :
    (disk' : ℕ → ℕ) × (h : FileHeader) × (create_file zeros fs name 300 disk ≡ ok (true, disk'))
    × (open_name zeros fs name disk' ≡ ok (some (record { hdr = h; seek_position = 0 })))
    × (h.num_bytes ≡ 300)
    × IsStored h
open_name-create_file_example =
    open_name-create_file zeros zeros-AreBytes fs b d disk mounted name 300 (missing name) refl
      (omega (arith, three.0)) (omega (arith, three.0, room))

remove_file-create_file_example :
    (disk1 disk2 : ℕ → ℕ) × (b' : Bitmap) × (d' : Directory) × (create_file zeros fs name 300 disk
      ≡ ok (true, disk1))
    × (remove_file zeros fs name disk1 ≡ ok (true, disk2))
    × IsMounted zeros fs b' d' disk2
    × ((j : ℕ) → bit b' j ≡ bit b j)
    × ((other : List ℕ) → find other d' ≡ (if same_name name other then none else find other d))
remove_file-create_file_example =
    remove_file-create_file zeros zeros-AreBytes fs b d disk mounted name 300 (missing name) refl
      (omega (arith, three.0)) (omega (arith, three.0, room))

-- The disk with one file.
abbrev first_file :
    (disk' : ℕ → ℕ) × (s : ℕ) × (h : FileHeader) × (b' : Bitmap) × (d' : Directory) × (create_file
        zeros fs name 300 disk
      ≡ ok (true, disk'))
    × Adds zeros fs b d disk name 300 s h b' d' disk'
first_file =
    create_file-Adds zeros zeros-AreBytes fs b d disk mounted name 300 (missing name) refl
      (omega (arith, three.0)) (omega (arith, three.0, room))

abbrev disk1 : ℕ → ℕ
disk1 = first_file.0

abbrev s1 : ℕ
s1 = first_file.1

abbrev h1 : FileHeader
h1 = first_file.2

abbrev b1 : Bitmap
b1 = first_file.3

abbrev d1 : Directory
d1 = first_file.4

added : Adds zeros fs b d disk name 300 s1 h1 b1 d1 disk1
added = first_file.6

remove_file-Removes_example :
    (disk' : ℕ → ℕ) × (b' : Bitmap) × (d' : Directory) × (remove_file zeros fs name disk1
      ≡ ok (true, disk'))
    × Removes zeros fs b1 d1 disk1 name s1 h1 b' d' disk'
remove_file-Removes_example =
    remove_file-Removes zeros fs b1 d1 disk1 added.mounted name s1 h1 added.file

different : same_name other_name name ≡ false
unfolding same_chars
different = refl

missing_other : find other_name d1 ≡ none
unfolding same_chars
missing_other = added.names other_name ∙ missing other_name

room_other : count_clear (bit b1) 1024 ≡ 1015
room_other = omega (arith, added.room, three.0, room)

free_other : all_used d1.table ≡ false
unfolding add find_index add_entry
free_other = ap (λ (e : Directory). all_used e.table) added.table ∙ refl

create_file-others_example :
    (disk' : ℕ → ℕ) × (create_file zeros fs other_name 300 disk1 ≡ ok (true, disk'))
    × (open_name zeros fs name disk' ≡ open_name zeros fs name disk1)
    × ((x : ℕ) → x < h1.num_bytes → content h1 disk' x ≡ content h1 disk1 x)
create_file-others_example =
    create_file-others zeros zeros-AreBytes fs b1 d1 disk1 added.mounted other_name 300
      missing_other free_other (omega (arith, three.0)) (omega (arith, three.0, room_other)) name s1
      h1 different added.file
