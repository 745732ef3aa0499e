-- ===== src/Filesys/FileSystem/Files.antt =====
-- The files of the directory: what Open gives, and that Create and Remove leave the others alone.
use cs107_nach_os.Common.{
  ℕ, ◌+◌, ◌*◌, ◌<◌, ◌≡◌, ◌≢◌, refl, ◌∙◌, true, false, none, some, List, arith, ok, ◌>>=◌,
}
use cs107_nach_os.Bitmap.{Bitmap, bit}
use cs107_nach_os.Filesys.Header.{FileHeader}
use cs107_nach_os.Filesys.Directory.{Directory, find}
use cs107_nach_os.Filesys.Directory.Lookup.{same_name}
use cs107_nach_os.Filesys.OpenFile.{OpenFile}
use cs107_nach_os.Filesys.OpenFile.Blocks.{IsStored, block}
use cs107_nach_os.Filesys.OpenFile.ReadAt.{content}
use cs107_nach_os.Filesys.FileSystem.{FileSystem}
use cs107_nach_os.Common.Words.{is_negative}
use cs107_nach_os.Filesys.Layout.{fetch_directory, new_directory, open_file}
use cs107_nach_os.Filesys.FileSystem.{open_name}
use cs107_nach_os.Filesys.FileSystem.Mounted.{
  IsOff, IsMounted, IsFile, fetch_directory-IsMounted, content_same,
}
use cs107_nach_os.Filesys.FileSystem.NewHeader.{open_fetched, fetch_same}
use cs107_nach_os.Filesys.FileSystem.Create.{Adds}
use cs107_nach_os.Filesys.FileSystem.Remove.{Removes}
use cs107_nach_os.Filesys.FileSystem.Release.{owns_none}

module _ (fresh : ℕ → ℕ) (fs : FileSystem) (name : List ℕ) where
  open_step :
      (d : Directory) (disk : ℕ → ℕ) (s : ℕ) (file : OpenFile)
      → fetch_directory fresh fs.directory_file (new_directory fresh 10) disk ≡ ok d
      → find name d ≡ some s
      → s < 1024
      → open_file fresh s disk ≡ ok file
      → open_name fresh fs name disk ≡ ok (some file)
  unfolding open_name
  open_step d disk s file e f l o =
      let positive : is_negative s ≡ false = ground (arith, l) in rw (e, ◌>>=◌, f, positive, o) refl

  missing_step :
      (d : Directory) (disk : ℕ → ℕ)
      → fetch_directory fresh fs.directory_file (new_directory fresh 10) disk ≡ ok d
      → find name d ≡ none
      → open_name fresh fs name disk ≡ ok none
  unfolding open_name
  missing_step d disk e f = rw (e, ◌>>=◌, f) refl

pub open_name-missing :
    (fresh : ℕ → ℕ) (fs : FileSystem) (b : Bitmap) (d : Directory) (disk : ℕ → ℕ)
    → IsMounted fresh fs b d disk
    → (name : List ℕ) → find name d ≡ none
    → open_name fresh fs name disk ≡ ok none
open_name-missing fresh fs b d disk m name missing =
    missing_step fresh fs name d disk (fetch_directory-IsMounted fresh fs b d disk m) missing

-- A file of a mounted disk is opened, and Open changes nothing.
pub open_name-IsFile :
    (fresh : ℕ → ℕ) (fs : FileSystem) (b : Bitmap) (d : Directory) (disk : ℕ → ℕ)
    → IsMounted fresh fs b d disk
    → (name : List ℕ) (s : ℕ) (h : FileHeader) → IsFile fresh fs b d disk name s h
    → open_name fresh fs name disk ≡ ok (some (record { hdr = h; seek_position = 0 }))
open_name-IsFile fresh fs b d disk m name s h file =
    open_step fresh fs name d disk s (record { hdr = h; seek_position = 0 })
      (fetch_directory-IsMounted fresh fs b d disk m) file.found file.on_disk
      (open_fetched fresh h s disk file.fetched)

-- A file stays, with the same bytes, where its sectors do.
IsFile-keep :
    (fresh : ℕ → ℕ) (fs : FileSystem) (b b' : Bitmap) (d d' : Directory) (disk disk' : ℕ → ℕ)
    (name : List ℕ) (s : ℕ) (h : FileHeader)
    → IsFile fresh fs b d disk name s h
    → find name d' ≡ find name d
    → bit b' s ≡ true
    → ((q : ℕ) → q < h.num_sectors → bit b' (block h q) ≡ true)
    → ((r : ℕ) → r < 128 → disk' (s * 128 + r) ≡ disk (s * 128 + r))
    → ((q r : ℕ)
        → q < h.num_sectors
        → r < 128
        → disk' (block h q * 128 + r) ≡ disk (block h q * 128 + r))
    → IsFile fresh fs b' d' disk' name s h
      × ((x : ℕ) → x < h.num_bytes → content h disk' x ≡ content h disk x)
IsFile-keep fresh fs b b' d d' disk disk' name s h file same t u e f = (
  record {
    found = same ∙ file.found;
    on_disk = file.on_disk;
    fetched = fetch_same fresh disk disk' s file.on_disk e ∙ file.fetched;
    stored = file.stored;
    taken = t;
    blocks_taken = u;
    own = file.own;
    off_map = file.off_map;
    off_directory = file.off_directory;
    blocks_off_map = file.blocks_off_map;
    blocks_off_directory = file.blocks_off_directory;
  },
  content_same h disk disk' file.stored f,
)

module _ (fresh : ℕ → ℕ) (fs : FileSystem) (b b' : Bitmap) (d d' : Directory) (disk disk' : ℕ → ℕ)
    (name : List ℕ) (s : ℕ) (h : FileHeader) (other : List ℕ) (t : ℕ) (g : FileHeader)
    (different : same_name name other ≡ false) (file : IsFile fresh fs b d disk other t g) where
  pub Adds-others :
      (size : ℕ)
      → Adds fresh fs b d disk name size s h b' d' disk'
      → IsFile fresh fs b' d' disk' other t g
        × ((x : ℕ) → x < g.num_bytes → content g disk' x ≡ content g disk x)
  Adds-others size a =
      IsFile-keep fresh fs b b' d d' disk disk' other t g file (a.names other ∙ rw different refl)
        (ground (arith, a.taken t, file.taken))
        (λ q l. ground (arith, a.taken (block g q), file.blocks_taken q l))
        (λ r o. a.others t r o file.taken file.off_map file.off_directory)
        (λ q r l o.
          a.others (block g q) r o (file.blocks_taken q l) (file.blocks_off_map q l)
            (file.blocks_off_directory q l))

  -- The two files have no sector in common.
  abbrev pub AreApart : Type 0
  AreApart =
      IsOff h t × (s ≢ t) × ((q : ℕ) → q < g.num_sectors → IsOff h (block g q) × (s ≢ block g q))

  pub Removes-others :
      IsStored h
      → AreApart
      → Removes fresh fs b d disk name s h b' d' disk'
      → IsFile fresh fs b' d' disk' other t g
        × ((x : ℕ) → x < g.num_bytes → content g disk' x ≡ content g disk x)
  Removes-others w (off, differ, blocks_off) a =
      IsFile-keep fresh fs b b' d d' disk disk' other t g file (a.names other ∙ rw different refl)
        (kept t file.taken off differ)
        (λ q l. let (o, e) = blocks_off q l in kept (block g q) (file.blocks_taken q l) o e)
        (λ r o. a.others t r o file.off_map file.off_directory)
        (λ q r l o.
          a.others (block g q) r o (file.blocks_off_map q l) (file.blocks_off_directory q l))
    where
      kept : (j : ℕ) → bit b j ≡ true → IsOff h j → s ≢ j → bit b' j ≡ true
      kept j u o e =
          let no_block = owns_none h w h.num_sectors 0 j (omega arith) (λ k l m. o k m) in
          ground (arith, a.bits j, u, no_block, e)
