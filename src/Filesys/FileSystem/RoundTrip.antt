-- ===== src/Filesys/FileSystem/RoundTrip.antt =====
-- Create and Remove together, and what they leave of the other files.
use cs107_nach_os.Common.{
  ℕ, ◌<◌, ◌≤◌, ◌≡◌, sym, ◌∙◌, ap, true, false, not, ◌==◌, none, some, List, if◌then◌else◌, arith,
  ok, inl, inr, Bool-cases,
}
use cs107_nach_os.Bitmap.{Bitmap, bit, div_round_up}
use cs107_nach_os.Bitmap.Search.{count_clear}
use cs107_nach_os.Filesys.Header.{FileHeader}
use cs107_nach_os.Filesys.Header.Allocation.{owns}
use cs107_nach_os.Filesys.Directory.{Directory, find}
use cs107_nach_os.Filesys.Directory.Lookup.{all_used, same_name}
use cs107_nach_os.Filesys.OpenFile.Blocks.{IsStored}
use cs107_nach_os.Filesys.OpenFile.ReadAt.{content}
use cs107_nach_os.Filesys.FileSystem.{FileSystem, create_file}
use cs107_nach_os.Filesys.FileSystem.{open_name}
use cs107_nach_os.Filesys.FileSystem.Mounted.{IsMounted, IsFile}
use cs107_nach_os.Filesys.FileSystem.Create.{create_file-Adds}
use cs107_nach_os.Filesys.FileSystem.Remove.{remove_file-Removes}
use cs107_nach_os.Filesys.FileSystem.Release.{owns_taken}
use cs107_nach_os.Filesys.FileSystem.{remove_file}
use cs107_nach_os.Filesys.FileSystem.NewHeader.{AreBytes}
use cs107_nach_os.Filesys.FileSystem.Files.{open_name-IsFile, Adds-others}

module _ (fresh : ℕ → ℕ) (w : AreBytes fresh) (fs : FileSystem) (b : Bitmap) (d : Directory)
    (disk : ℕ → ℕ) (m : IsMounted fresh fs b d disk) (name : List ℕ) (size : ℕ)
    (new : find name d ≡ none) (free : all_used d.table ≡ false) (fits : div_round_up size 128 ≤ 30)
    (room : div_round_up size 128 < count_clear (bit b) 1024) where
  pub open_name-create_file :
      (disk' : ℕ → ℕ) × (h : FileHeader) × (create_file fresh fs name size disk ≡ ok (true, disk'))
      × (open_name fresh fs name disk' ≡ ok (some (record { hdr = h; seek_position = 0 })))
      × (h.num_bytes ≡ size)
      × IsStored h
  open_name-create_file =
      let (disk', s, h, b', d', run, a) =
        create_file-Adds fresh w fs b d disk m name size new free fits room in
      (
        disk',
        h,
        run,
        open_name-IsFile fresh fs b' d' disk' a.mounted name s h a.file,
        a.bytes,
        a.file.stored,
      )

  -- Where new memory holds bytes, Create on a mounted disk, for a name that is not found and at
  -- most 30 blocks, with a free entry and more clear sectors than blocks, answers TRUE, and a file
  -- of another name, whose own sectors are set and off those of the map and the directory, is
  -- opened as before, with every byte as before.
  pub create_file-others :
      (other : List ℕ) (t : ℕ) (g : FileHeader)
      → same_name name other ≡ false
      → IsFile fresh fs b d disk other t g
      → (disk' : ℕ → ℕ) × (create_file fresh fs name size disk ≡ ok (true, disk'))
        × (open_name fresh fs other disk' ≡ open_name fresh fs other disk)
        × ((x : ℕ) → x < g.num_bytes → content g disk' x ≡ content g disk x)
  create_file-others other t g differ file =
      let (disk', s, h, b', d', run, a) =
        create_file-Adds fresh w fs b d disk m name size new free fits room in
      let (file', same) =
        Adds-others fresh fs b b' d d' disk disk' name s h other t g differ file size a in
      (
        disk',
        run,
        open_name-IsFile fresh fs b' d' disk' a.mounted other t g file'
            ∙ sym (open_name-IsFile fresh fs b d disk m other t g file),
        same,
      )

  -- Where new memory holds bytes, after a Create on a mounted disk for a name that is not found and
  -- at most 30 blocks, with a free entry and more clear sectors than blocks, Remove of the new file
  -- answers TRUE without a failed assertion, and leaves a mounted disk with every bit of the map as
  -- it was before and every name found as before.
  pub remove_file-create_file :
      (disk1 disk2 : ℕ → ℕ) × (b' : Bitmap) × (d' : Directory) × (create_file fresh fs name size
          disk
        ≡ ok (true, disk1))
      × (remove_file fresh fs name disk1 ≡ ok (true, disk2))
      × IsMounted fresh fs b' d' disk2
      × ((j : ℕ) → bit b' j ≡ bit b j)
      × ((other : List ℕ) → find other d' ≡ (if same_name name other then none else find other d))
  remove_file-create_file =
      let (disk1, s, h, b1, d1, run, a) =
        create_file-Adds fresh w fs b d disk m name size new free fits room in
      let (disk2, b2, d2, run2, r) =
        remove_file-Removes fresh fs b1 d1 disk1 a.mounted name s h a.file in
      (
        disk1,
        disk2,
        b2,
        d2,
        run,
        run2,
        r.mounted,
        λ j. elim (Bool-cases (owns h h.num_sectors 0 j)) [
          | inl e ↦
              let was : not (bit b j) ≡ true =
                owns_taken h a.file.stored (λ i. not (bit b i)) h.num_sectors 0 j (omega arith)
                  (λ k l. ap not (a.blocks_clear k l).0) e in
              ground (arith, r.bits j, e, was)
          | inr e ↦ elim (Bool-cases (s == j)) [
            | inl f ↦
                let same : s ≡ j = ground arith in
                let was = ap (bit b) same in ground (arith, r.bits j, e, f, was, a.was_clear)
            | inr f ↦ ground (arith, r.bits j, a.taken j, e, f)
          ]
        ],
        λ other. ground (arith, r.names other, a.names other),
      )
