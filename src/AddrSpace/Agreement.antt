-- ===== src/AddrSpace/Agreement.antt =====
-- The kernel's translation of an address and the machine's agree on the table of the constructor.
use cs107_nach_os.Common.{
  ℕ, zero, suc, ◌+◌, ◌*◌, ◌/◌, ◌%◌, ◌^◌, ◌≤◌, ◌<◌, ◌≡◌, refl, ap, ◌∙◌, Bool, true, false, none,
  some, ok, if◌then◌else◌, set, get_elem?, arith, length,
}
use cs107_nach_os.Machine.{Machine, TranslationEntry, page_size, num_phys_pages}
use cs107_nach_os.Machine.Translate.{physical, translate}
use cs107_nach_os.Machine.Translate.Safety.{IsSize, IsPaged, translate_hit}
use cs107_nach_os.AddrSpace.{AddrSpace, entries_from, restore_state, use_page, translate_space}

pub get_elem?-entries_from :
    (n i k : ℕ)
    → k < n
    → (e : TranslationEntry) × (get_elem? (entries_from n i) k ≡ some e)
      × (e.physical_page ≡ i + k)
      × (e.valid ≡ true)
      × (e.read_only ≡ false)
unfolding entries_from
get_elem?-entries_from zero i k h = elim h [ ]
get_elem?-entries_from (suc n) i zero h = (_, refl, omega arith, refl, refl)
get_elem?-entries_from (suc n) i (suc k) h =
    let (e, found, page, valid, writable) = get_elem?-entries_from n (i + 1) k (omega arith) in
    (e, found, omega (arith, page), valid, writable)

length-entries_from : (n i : ℕ) → length (entries_from n i) ≡ n
unfolding entries_from
length-entries_from zero i = refl
length-entries_from (suc n) i = ap suc (length-entries_from n (i + 1))

-- With the page table that the constructor makes, no TLB and at most as many pages as there are
-- frames, AddrSpace::Translate of an address in the program's pages and Machine::Translate of an
-- aligned access there both give the address itself, for reading and for writing, and leave the
-- same page table.
pub translations_agree :
    (space : AddrSpace) (m : Machine) (vaddr size : ℕ) (writing : Bool)
    → space.page_table ≡ entries_from num_phys_pages 0
    → space.num_pages ≤ num_phys_pages
    → m.tlb ≡ none
    → IsSize size
    → vaddr % size ≡ 0
    → vaddr < space.num_pages * page_size
    → (space' : AddrSpace) × (translate_space space vaddr writing ≡ ok (physical vaddr, space'))
      × (translate (restore_state space m) vaddr size writing
          ≡ ok (physical vaddr, restore_state space' m))
unfolding translate_space use_page restore_state
translations_agree space m vaddr size writing table few no_tlb sized aligned inside =
    let (e, found, page, valid, writable) =
      get_elem?-entries_from num_phys_pages 0 (vaddr / page_size) (omega arith) in
    let found' : get_elem? space.page_table (vaddr / page_size) ≡ some e = rw table found in
    let whole : e.physical_page * page_size + vaddr % page_size ≡ vaddr = omega (arith, page) in
    let word : (e.physical_page * page_size + vaddr % page_size) % 2 ^ 32 ≡ vaddr =
      omega (arith, page) in
    let long : length space.page_table ≡ num_phys_pages =
      ap length table ∙ length-entries_from num_phys_pages 0 in
    let paged : IsPaged (restore_state space m) space.page_table = record {
      no_tlb = no_tlb;
      paged = refl;
      covered = omega (arith, long);
    } in
    let hit =
      translate_hit (restore_state space m) space.page_table paged vaddr size writing e sized
        aligned (omega arith) found' valid (ground (arith, writable)) (omega (arith, page)) in
    (
      record space {
        page_table =
            set space.page_table (vaddr / page_size)
              (record e { use_bit = true; dirty = if writing then true else e.dirty });
      },
      ground (arith, found', writable, page, word),
      rw whole at hit,
    )
