-- ===== src/Filesys/FileSystem/Booted.antt =====
-- The headers of the map and of the directory, at sectors 0 and 1, and how the constructor opens
-- both files.
use cs107_nach_os.Common.{ℕ, ◌+◌, ◌*◌, ◌<◌, ◌≡◌, refl, ◌∙◌, true, List, arith, ok}
use cs107_nach_os.Bitmap.{Bitmap, bit}
use cs107_nach_os.Filesys.Header.{FileHeader}
use cs107_nach_os.Filesys.Directory.{Directory}
use cs107_nach_os.Filesys.OpenFile.{OpenFile}
use cs107_nach_os.Filesys.Layout.{open_file}
use cs107_nach_os.Filesys.FileSystem.{FileSystem, open_files}
use cs107_nach_os.Filesys.FileSystem.NewHeader.{open_same}
use cs107_nach_os.Filesys.FileSystem.Mounted.{IsOff}
use cs107_nach_os.Filesys.FileSystem.Create.{Adds}

-- A sector that the map counts as used and that neither file has.
abbrev pub IsReserved : FileSystem → Bitmap → ℕ → Type 0
IsReserved fs b t = (bit b t ≡ true) × IsOff fs.free_map_file.hdr t × IsOff fs.directory_file.hdr t

pub record IsBooted (fresh : ℕ → ℕ) (fs : FileSystem) (b : Bitmap) (disk : ℕ → ℕ) : Type 0 where
  pub map_opens : open_file fresh 0 disk ≡ ok fs.free_map_file
  pub directory_opens : open_file fresh 1 disk ≡ ok fs.directory_file
  pub map_header : IsReserved fs b 0
  pub directory_header : IsReserved fs b 1

module _ (fresh : ℕ → ℕ) (fs : FileSystem) where
  open_files_step :
      (disk : ℕ → ℕ) (f f' : OpenFile)
      → open_file fresh 0 disk ≡ ok f
      → open_file fresh 1 disk ≡ ok f'
      → open_files fresh disk ≡ ok (record { free_map_file = f; directory_file = f' })
  unfolding open_files
  open_files_step disk f f' e e' = rw (e, e') refl

  pub open_files-IsBooted :
      (b : Bitmap) (disk : ℕ → ℕ) → IsBooted fresh fs b disk → open_files fresh disk ≡ ok fs
  open_files-IsBooted b disk i =
      open_files_step disk fs.free_map_file fs.directory_file i.map_opens i.directory_opens

  -- Create does not touch either header.
  pub Adds-IsBooted :
      (b b' : Bitmap) (d d' : Directory) (disk disk' : ℕ → ℕ) (name : List ℕ) (size s : ℕ)
      (h : FileHeader)
      → IsBooted fresh fs b disk
      → Adds fresh fs b d disk name size s h b' d' disk'
      → IsBooted fresh fs b' disk'
  Adds-IsBooted b b' d d' disk disk' name size s h i a = record {
    map_opens = open_same fresh disk disk' 0 (omega arith) (kept 0 i.map_header) ∙ i.map_opens;
    directory_opens =
        open_same fresh disk disk' 1 (omega arith) (kept 1 i.directory_header) ∙ i.directory_opens;
    map_header = stays 0 i.map_header;
    directory_header = stays 1 i.directory_header;
  }
    where
      kept :
          (t : ℕ) → IsReserved fs b t → (r : ℕ) → r < 128 → disk' (t * 128 + r) ≡ disk (t * 128 + r)
      kept t (u, off, off') r l = a.others t r l u off off'

      stays : (t : ℕ) → IsReserved fs b t → IsReserved fs b' t
      stays t (u, off, off') = (ground (arith, a.taken t, u), off, off')
