-- ===== src/AddrSpace/Load/Placed.antt =====
-- Load puts every segment where it belongs.
use mathlib.Core.Path.{subst}
use cs107_nach_os.Common.{
  ℕ, ◌+◌, ◌-◌, ◌≤◌, ◌≡◌, refl, sym, ◌∙◌, ap, true, ◌&&◌, ok, ◌==◌, leb, ltb, if◌then◌else◌, arith,
  inl, inr, Bool-cases,
}
use cs107_nach_os.Common.Words.{slt}
use cs107_nach_os.AddrSpace.{AddrSpace}
use cs107_nach_os.Filesys.Header.{FileHeader}
use cs107_nach_os.Filesys.OpenFile.{OpenFile, read_at}
use cs107_nach_os.Filesys.OpenFile.Blocks.{IsStored}
use cs107_nach_os.Filesys.OpenFile.ReadAt.{content, amount, read_at_lem}
use cs107_nach_os.Filesys.Layout.{int_at}
use cs107_nach_os.Filesys.Layout.Ints.{AreSame, int_at-AreSame}
use cs107_nach_os.AddrSpace.Load.{Segment, NoffHeader, noff_at, pages_of, load_segment, load_file}

-- The segment lies in the file and in the memory.
abbrev pub Fits : FileHeader → Segment → Type 0
Fits h seg =
    (seg.in_file_addr + seg.seg_size ≤ h.num_bytes) × (seg.virtual_addr + seg.seg_size ≤ 16384)

-- The byte of the file that belongs at address a, or else the byte that is there.
abbrev pub placed : FileHeader → (ℕ → ℕ) → Segment → (ℕ → ℕ) → ℕ → ℕ
placed h disk seg memory a =
    if leb seg.virtual_addr a && ltb a (seg.virtual_addr + seg.seg_size)
    then content h disk (seg.in_file_addr + (a - seg.virtual_addr))
    else memory a

-- An executable that fits the file and the memory.
pub record IsProgram (h : FileHeader) (n : NoffHeader) : Type 0 where
  pub magic : n.noff_magic ≡ 0xbadfad
  pub pages : pages_of n ≤ 128
  pub code_fits : Fits h n.code
  pub init_fits : Fits h n.init_data
  pub readonly_fits : Fits h n.readonly_data

-- The memory behind the three segments, one after the other.
abbrev pub loaded : FileHeader → (ℕ → ℕ) → NoffHeader → (ℕ → ℕ) → ℕ → ℕ
loaded h disk n memory =
    placed h disk n.readonly_data (placed h disk n.init_data (placed h disk n.code memory))

noff_at-AreSame : (f g : ℕ → ℕ) → AreSame f 0 g 0 52 → noff_at f ≡ noff_at g
noff_at-AreSame f g same =
    let at : (a : ℕ) → a + 4 ≤ 52 → int_at f a ≡ int_at g a = λ a l. int_at-AreSame f g a a (λ k m.
      ap f (zero_add (a + k))
      ∙ same (a + k) (omega (arith, l, m))
      ∙ ap g (sym (zero_add (a + k)))) in
    λ i. record {
      noff_magic = at 0 (omega arith) i;
      code = record {
        virtual_addr = at 4 (omega arith) i;
        in_file_addr = at 8 (omega arith) i;
        seg_size = at 12 (omega arith) i;
      };
      init_data = record {
        virtual_addr = at 16 (omega arith) i;
        in_file_addr = at 20 (omega arith) i;
        seg_size = at 24 (omega arith) i;
      };
      readonly_data = record {
        virtual_addr = at 28 (omega arith) i;
        in_file_addr = at 32 (omega arith) i;
        seg_size = at 36 (omega arith) i;
      };
      uninit_data = record {
        virtual_addr = at 40 (omega arith) i;
        in_file_addr = at 44 (omega arith) i;
        seg_size = at 48 (omega arith) i;
      };
    }
  where
    zero_add : (n : ℕ) → n ≡ 0 + n
    zero_add n = omega arith

module _ (fresh : ℕ → ℕ) (h : FileHeader) (w : IsStored h) (disk : ℕ → ℕ) where
  abbrev file : OpenFile
  file = record { hdr = h; seek_position = 0 }

  load_segment_lem :
      (seg : Segment) (memory : ℕ → ℕ)
      → Fits h seg
      → (memory' : ℕ → ℕ) × (load_segment fresh file disk seg memory ≡ ok memory')
        × ((a : ℕ) → memory' a ≡ placed h disk seg memory a)
  unfolding load_segment
  load_segment_lem seg memory (l, m) = elim (Bool-cases (slt 0 seg.seg_size)) [
    | inl e ↦
        let (into, run, bytes) =
          read_at_lem h w fresh disk (λ k. memory (seg.virtual_addr + k)) seg.seg_size
            seg.in_file_addr (omega (arith, l, w.room, w.short)) in
        let all : amount h seg.seg_size seg.in_file_addr ≡ seg.seg_size = ground (arith, l) in
        let inside : leb (seg.virtual_addr + amount h seg.seg_size seg.in_file_addr) 16384 ≡ true =
          ground (arith, all, m) in
        (
          λ a. if leb seg.virtual_addr a then into (a - seg.virtual_addr) else memory a,
          rw (e, run, inside) refl,
          λ a. elim (Bool-cases (leb seg.virtual_addr a)) [
            | inl f ↦
                let back : seg.virtual_addr + (a - seg.virtual_addr) ≡ a = ground (arith, f) in
                ground (arith, f, all, bytes (a - seg.virtual_addr), ap memory back)
            | inr f ↦ ground (arith, f)
          ],
        )
    | inr e ↦
        let nothing : seg.seg_size ≡ 0 = ground (arith, e, l, w.room, w.short) in
        (memory, rw e refl, λ a. ground (arith, nothing))
  ]

  placed_same :
      (seg : Segment) (f g : ℕ → ℕ) (a : ℕ)
      → f a ≡ g a
      → placed h disk seg f a ≡ placed h disk seg g a
  placed_same seg f g a e = ground (arith, e)

  load_step :
      (buf memory memory1 memory2 memory3 : ℕ → ℕ) (space : AddrSpace)
      → read_at fresh h disk fresh 52 0 ≡ ok (52, buf)
      → ((noff_at buf).noff_magic == 0xbadfad) ≡ true
      → leb (pages_of (noff_at buf)) 128 ≡ true
      → load_segment fresh file disk ((noff_at buf).code) memory ≡ ok memory1
      → load_segment fresh file disk ((noff_at buf).init_data) memory1 ≡ ok memory2
      → load_segment fresh file disk ((noff_at buf).readonly_data) memory2 ≡ ok memory3
      → load_file fresh file disk space memory
        ≡ ok (true, memory3, record space { num_pages = pages_of (noff_at buf) })
  unfolding load_file
  load_step buf memory memory1 memory2 memory3 space r e f c i o = rw (r, e, f, c, i, o) refl

  abbrev IsLoaded : AddrSpace → (ℕ → ℕ) → NoffHeader → Type 0
  IsLoaded space memory n =
      (memory' : ℕ → ℕ) × (load_file fresh file disk space memory
        ≡ ok (true, memory', record space { num_pages = pages_of n }))
      × ((a : ℕ) → memory' a ≡ loaded h disk n memory a)

  load_buffer :
      (buf memory : ℕ → ℕ) (space : AddrSpace)
      → read_at fresh h disk fresh 52 0 ≡ ok (52, buf)
      → IsProgram h (noff_at buf)
      → IsLoaded space memory (noff_at buf)
  load_buffer buf memory space r p =
      let n = noff_at buf in
      let (memory1, run1, bytes1) = load_segment_lem n.code memory p.code_fits in
      let (memory2, run2, bytes2) = load_segment_lem n.init_data memory1 p.init_fits in
      let (memory3, run3, bytes3) = load_segment_lem n.readonly_data memory2 p.readonly_fits in
      let magic : (n.noff_magic == 0xbadfad) ≡ true = ground (arith, p.magic) in
      let pages : leb (pages_of n) 128 ≡ true = ground (arith, p.pages) in
      (
        memory3,
        load_step buf memory memory1 memory2 memory3 space r magic pages run1 run2 run3,
        λ a.
            bytes3 a
            ∙ placed_same n.readonly_data memory2
                (placed h disk n.init_data (placed h disk n.code memory)) a
                (bytes2 a
                  ∙ placed_same n.init_data memory1 (placed h disk n.code memory) a (bytes1 a)),
      )

  -- For a file in different sectors of the disk that begins with the header of an executable whose
  -- segments lie in the file and in the memory and whose pages are at most those of the machine,
  -- Load of the opened file succeeds without a failed assertion: the memory has the code, the
  -- initialised and the read-only data of the file at their addresses, the later segment where two
  -- overlap, and is otherwise unchanged, and the number of pages is that of the segments with the
  -- stack.
  pub load_file_lem :
      (space : AddrSpace) (memory : ℕ → ℕ)
      → 52 ≤ h.num_bytes
      → IsProgram h (noff_at (content h disk))
      → (memory' : ℕ → ℕ) × (load_file fresh
            (record { hdr = h; seek_position = 0 })
            disk
            space
            memory
          ≡ ok (true, memory', record space { num_pages = pages_of (noff_at (content h disk)) }))
        × ((a : ℕ) → memory' a ≡ loaded h disk (noff_at (content h disk)) memory a)
  load_file_lem space memory l p =
      let (buf, run, bytes) = read_at_lem h w fresh disk fresh 52 0 (omega arith) in
      let all : amount h 52 0 ≡ 52 = ground (arith, l) in
      let same : noff_at (content h disk) ≡ noff_at buf =
        noff_at-AreSame (content h disk) buf
          (λ k m. sym (bytes (0 + k) ∙ ground (arith, all, m, ap (content h disk) (twice k)))) in
      subst (IsLoaded space memory) (sym same) (
        load_buffer buf memory space (run ∙ ap (λ (a : ℕ). ok (a, buf)) all)
          (subst (IsProgram h) same p))
    where
      twice : (k : ℕ) → 0 + (0 + k) ≡ 0 + k
      twice k = omega arith
