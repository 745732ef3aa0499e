-- ===== src/Machine/Translate/Safety.antt =====
-- Translation through a page table: when it gives an address, and which.
use cs107_nach_os.Common.{
  ℕ, ◌+◌, ◌*◌, ◌/◌, ◌%◌, ◌≤◌, ◌<◌, ◌≡◌, refl, ◌∙◌, ◌⊎◌, inl, inr, Bool, true, false, not, ◌&&◌,
  none, some, List, Outcome, ok, leb, ◌==◌, if◌then◌else◌, get_elem?, set, arith, length,
  get_elem?-some, Bool-cases,
}
use cs107_nach_os.Common.Bits.{bit_and-ones}
use cs107_nach_os.Machine.{
  Machine, TranslationEntry, ExceptionType, page_fault_exception, read_only_exception,
  bus_error_exception, address_error_exception, page_size, num_phys_pages, memory_size,
}
use cs107_nach_os.Machine.Translate.{
  Translated, fault, physical, misaligned, use_entry, paged_use, translate_paged, translate_by,
  translate, entry_at,
}

-- The sizes of an access.
abbrev pub IsSize : ℕ → Type 0
IsSize s = (s ≡ 1) ⊎ (s ≡ 2) ⊎ (s ≡ 4)

-- A linear page table is in use, as AddrSpace::RestoreState leaves it.
pub record IsPaged (m : Machine) (table : List TranslationEntry) : Type 0 where
  pub no_tlb : m.tlb ≡ none
  pub paged : m.page_table ≡ some table
  pub covered : m.page_table_size ≤ length table

misaligned_word : (addr : ℕ) → misaligned addr 4 ≡ not (addr % 4 == 0)
unfolding misaligned
misaligned_word addr = ground (arith, bit_and-ones 2 addr)

misaligned_half : (addr : ℕ) → misaligned addr 2 ≡ not (addr % 2 == 0)
unfolding misaligned
misaligned_half addr = ground (arith, bit_and-ones 1 addr)

-- The check passes exactly the multiples of the size.
pub misaligned-mod : (addr size : ℕ) → IsSize size → misaligned addr size ≡ not (addr % size == 0)
misaligned-mod addr size (inl e) = rw e (unfold misaligned in ground arith)
misaligned-mod addr size (inr (inl e)) = rw e (misaligned_half addr)
misaligned-mod addr size (inr (inr e)) = rw e (misaligned_word addr)

-- An aligned access stays in its page.
pub aligned_fits :
    (addr size : ℕ) → IsSize size → addr % size ≡ 0 → addr % page_size + size ≤ page_size
aligned_fits addr size (inl e) h = omega arith
aligned_fits addr size (inr (inl e)) h = let h' : addr % 2 ≡ 0 = rw e at h in omega arith
aligned_fits addr size (inr (inr e)) h = let h' : addr % 4 ≡ 0 = rw e at h in omega arith

module _ (m : Machine) (table : List TranslationEntry) (p : IsPaged m table) where
  translate-paged :
      (addr size : ℕ) (writing : Bool)
      → IsSize size
      → addr % size ≡ 0
      → translate m addr size writing
        ≡ translate_paged m table (addr / page_size) (addr % page_size) size writing
  unfolding translate translate_by
  translate-paged addr size writing s a =
      let e : misaligned addr size ≡ false = misaligned-mod addr size s ∙ ground arith in
      rw (e, p.no_tlb, p.paged, translate_by)

  -- An aligned access through a valid entry that permits it and names a frame of the machine gives
  -- that frame with the same offset, and sets the use bit, and the dirty bit when it writes.
  pub translate_hit :
      (addr size : ℕ) (writing : Bool) (e : TranslationEntry)
      → IsSize size
      → addr % size ≡ 0
      → addr / page_size < m.page_table_size
      → get_elem? table (addr / page_size) ≡ some e
      → e.valid ≡ true
      → e.read_only && writing ≡ false
      → e.physical_page < num_phys_pages
      → translate m addr size writing
        ≡ ok (
          physical (e.physical_page * page_size + addr % page_size),
          record m {
            page_table = some (
                set table
                  (addr / page_size)
                  (record e { use_bit = true; dirty = if writing then true else e.dirty }));
          },
        )
  unfolding translate_paged use_entry
  translate_hit addr size writing e s a inside found valid allowed frame =
      translate-paged addr size writing s a ∙ ground (arith, aligned_fits addr size s a)

  -- What an address that translation gives has to satisfy.
  pub record Permits (addr size : ℕ) (writing : Bool) (a : ℕ) : Type 0 where
    pub in_memory : a + size ≤ memory_size
    pub same_offset : a % page_size ≡ addr % page_size
    pub entry : TranslationEntry
    pub found : get_elem? table (addr / page_size) ≡ some entry
    pub valid : entry.valid ≡ true
    pub allowed : entry.read_only && writing ≡ false
    pub frame : a / page_size ≡ entry.physical_page

  abbrev pub Answers : ℕ → ℕ → Bool → Outcome (Translated × Machine) → Type 0
  Answers addr size writing r =
      (t : Translated) × (m' : Machine) × (r ≡ ok (t, m'))
      × ((a : ℕ) → t ≡ physical a → Permits addr size writing a)

  fault-Answers :
      (addr size : ℕ) (writing : Bool) (x : ExceptionType) (r : Outcome (Translated × Machine))
      → r ≡ ok (fault x, m)
      → Answers addr size writing r
  fault-Answers addr size writing x r e = (fault x, m, e, λ a q. cc)

  entry-Answers :
      (addr size : ℕ) (writing : Bool) (e : TranslationEntry)
      → IsSize size
      → addr % size ≡ 0
      → get_elem? table (addr / page_size) ≡ some e
      → e.valid ≡ true
      → Answers addr size writing
          (paged_use m table e (addr / page_size) (addr % page_size) size writing)
  unfolding paged_use use_entry
  entry-Answers addr size writing e s a found valid = elim (Bool-cases (e.read_only && writing)) [
    | inl no_writes ↦ (fault read_only_exception, kept e, rw no_writes refl, λ a q. cc)
    | inr allowed ↦ elim (Bool-cases (leb num_phys_pages e.physical_page)) [
      | inl beyond ↦ (fault bus_error_exception, kept e, rw (allowed, beyond) refl, λ a q. cc)
      | inr within ↦ (
        physical (e.physical_page * page_size + addr % page_size),
        kept (record e { use_bit = true; dirty = if writing then true else e.dirty }),
        rw (allowed, within) (ground (arith, aligned_fits addr size s a)),
        λ b q.
            let same : b ≡ e.physical_page * page_size + addr % page_size = ground arith in
            record {
              in_memory = ground (arith, aligned_fits addr size s a);
              same_offset = omega arith;
              entry = e;
              found = found;
              valid = valid;
              allowed = allowed;
              frame = omega arith;
            },
      )
    ]
  ]
    where
      kept : TranslationEntry → Machine
      kept e' = record m { page_table = some (set table (addr / page_size) e') }

  paged_found :
      (vpn offset size : ℕ) (writing : Bool) (e : TranslationEntry)
      → leb m.page_table_size vpn ≡ false
      → get_elem? table vpn ≡ some e
      → translate_paged m table vpn offset size writing ≡ (
          if e.valid
          then paged_use m table e vpn offset size writing
          else ok (fault page_fault_exception, m))
  unfolding translate_paged
  paged_found vpn offset size writing e within found = rw within (rw (entry_at, found) refl)

  -- Translation through a linear page table that is no shorter than its size says never fails an
  -- assertion, whatever the entries hold; an address that it gives lies with the whole access in
  -- the memory, keeps the offset in the page, comes from a valid entry and from none that is
  -- read-only when the access writes.
  pub translate_total :
      (addr size : ℕ) (writing : Bool)
      → IsSize size
      → Answers addr size writing (translate m addr size writing)
  unfolding translate_paged
  translate_total addr size writing s = elim (Bool-cases (addr % size == 0)) [
    | inr odd ↦
        fault-Answers addr size writing address_error_exception _
          (unfold translate in rw (misaligned-mod addr size s, odd) refl)
    | inl aligned ↦
        let e : addr % size ≡ 0 = ground arith in
        rw (translate-paged addr size writing s e)
          (elim (Bool-cases (leb m.page_table_size (addr / page_size))) [
            | inl beyond ↦
                fault-Answers addr size writing address_error_exception _ (rw beyond refl)
            | inr within ↦
                let (entry, found) =
                  get_elem?-some table (addr / page_size) (ground (arith, p.covered)) in
                elim (Bool-cases entry.valid) [
                  | inl valid ↦
                      rw (paged_found _ _ size writing entry within found, valid)
                        (entry-Answers addr size writing entry s e found valid)
                  | inr invalid ↦
                      fault-Answers addr size writing page_fault_exception _
                        (paged_found _ _ size writing entry within found ∙ rw invalid refl)
                ]
          ])
  ]
