-- ===== src/Machine/Memory/RoundTrip.antt =====
-- What WriteMem stores ReadMem finds again, and nothing else changes.
use cs107_nach_os.Common.{
  ℕ, ◌+◌, ◌*◌, ◌/◌, ◌%◌, ◌^◌, ◌≤◌, ◌<◌, ◌≡◌, refl, ◌⊎◌, inl, inr, true, false, some, List, ok, ◌==◌,
  if◌then◌else◌, get_elem?, set, arith, length-set, get_elem?-set_self,
}
use cs107_nach_os.Machine.{Machine, Handler, TranslationEntry, page_size, num_phys_pages, write}
use cs107_nach_os.Machine.Translate.Safety.{IsSize, IsPaged, translate_hit}
use cs107_nach_os.Machine.Memory.{char_to_int, load, store, read_mem, write_mem}

-- The value that `size` bytes of a word read back as.
pub narrowed : ℕ → ℕ → ℕ
narrowed size value = if size == 1 then char_to_int (value % 2 ^ 8) else value % 2 ^ (8 * size)

-- Two memories that agree but for the bytes from p on.
abbrev pub SameOutside : ℕ → ℕ → (ℕ → ℕ) → (ℕ → ℕ) → Type 0
SameOutside p size f g = (q : ℕ) → (q < p) ⊎ (p + size ≤ q) → f q ≡ g q

store-load :
    (f : ℕ → ℕ) (p size value : ℕ)
    → IsSize size
    → (g : ℕ → ℕ) × (store f p size value ≡ ok g)
      × (load g p size ≡ ok (narrowed size value))
      × SameOutside p size g f
unfolding store load narrowed
store-load f p size value (inl e) =
    (write f p (value % 2 ^ 8), rw e refl, rw e (ground arith), λ q h. ground arith)
store-load f p size value (inr (inl e)) = (
  write (write f p (value % 2 ^ 8)) (p + 1) (value / 2 ^ 8 % 2 ^ 8),
  rw e refl,
  rw e (ground arith),
  λ q h. ground arith,
)
store-load f p size value (inr (inr e)) = (
  write
      (write (write (write f p (value % 2 ^ 8)) (p + 1) (value / 2 ^ 8 % 2 ^ 8)) (p + 2)
        (value / 2 ^ 16 % 2 ^ 8))
      (p + 3) (value / 2 ^ 24 % 2 ^ 8),
  rw e refl,
  rw e (ground arith),
  λ q h. ground arith,
)

-- The page of an address may be written.
pub record IsWritable (m : Machine) (table : List TranslationEntry) (addr size : ℕ)
    (e : TranslationEntry) : Type 0 where
  pub paged : IsPaged m table
  pub sized : IsSize size
  pub aligned : addr % size ≡ 0
  pub inside : addr / page_size < m.page_table_size
  pub found : get_elem? table (addr / page_size) ≡ some e
  pub valid : e.valid ≡ true
  pub allowed : e.read_only ≡ false
  pub frame : e.physical_page < num_phys_pages

module _ (handler : Handler) (m : Machine) (table : List TranslationEntry) (addr size value : ℕ)
    (e : TranslationEntry) (w : IsWritable m table addr size e) where
  abbrev pub place : ℕ
  place = e.physical_page * page_size + addr % page_size

  abbrev touched : TranslationEntry
  touched = record e { use_bit = true; dirty = true }

  abbrev after_write : (ℕ → ℕ) → Machine
  after_write g = record m {
    main_memory = g;
    page_table = some (set table (addr / page_size) touched);
  }

  write_mem-store :
      (g : ℕ → ℕ)
      → store m.main_memory place size value ≡ ok g
      → write_mem handler m addr size value ≡ ok (true, after_write g)
  unfolding write_mem
  write_mem-store g h =
      rw
        (
          translate_hit m table w.paged addr size true e w.sized w.aligned w.inside w.found w.valid
              (ground (arith, w.allowed)) w.frame,
          h,
        )
        refl

  still-paged : (g : ℕ → ℕ) → IsPaged (after_write g) (set table (addr / page_size) touched)
  still-paged g = record {
    no_tlb = w.paged.no_tlb;
    paged = refl;
    covered = omega (arith, w.paged.covered, length-set table (addr / page_size) touched);
  }

  found_again : get_elem? (set table (addr / page_size) touched) (addr / page_size) ≡ some touched
  found_again =
      get_elem?-set_self table (addr / page_size) touched (omega (arith, w.inside, w.paged.covered))

  read_mem-load :
      (g : ℕ → ℕ) (v : ℕ)
      → load g place size ≡ ok v
      → (m' : Machine) × (read_mem handler (after_write g) addr size ≡ ok (some v, m'))
  unfolding read_mem
  read_mem-load g v h = (
    record (after_write g) {
      page_table = some (set (set table (addr / page_size) touched) (addr / page_size) touched);
    },
    rw
        (
          translate_hit (after_write g) (set table (addr / page_size) touched) (still-paged g) addr
              size false touched w.sized w.aligned w.inside found_again w.valid
              (ground (arith, w.allowed)) w.frame,
          h,
        )
        refl,
  )

  -- WriteMem to an aligned address of a writable page succeeds and changes only the bytes it names,
  -- and ReadMem of the same size there then gives the value narrowed to that size (sign-extended
  -- for one byte).
  pub write_read :
      (m' : Machine) × (write_mem handler m addr size value ≡ ok (true, m'))
      × SameOutside place size m'.main_memory m.main_memory
      × ((m'' : Machine) × (read_mem handler m' addr size ≡ ok (some (narrowed size value), m'')))
  write_read =
      let (g, stored, loaded, same) = store-load m.main_memory place size value w.sized in
      (after_write g, write_mem-store g stored, same, read_mem-load g _ loaded)
