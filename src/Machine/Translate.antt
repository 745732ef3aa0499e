-- ===== src/Machine/Translate.antt =====
-- `Translate` of NachOS-4.0/code/machine/translate.cc.
pub mod Frame
pub mod Safety
use cs107_nach_os.Common.{
  ℕ, zero, suc, ◌+◌, ◌*◌, ◌/◌, ◌%◌, ◌≡◌, Bool, true, false, not, ◌&&◌, ◌||◌, Option, none, some,
  List, [], ◌∷◌, bit_and, Outcome, ok, aborted, ◌>>=◌, ◌>>◌, assert, ltb, leb, ◌==◌, if◌then◌else◌,
  get_elem?, set,
}
use cs107_nach_os.Machine.{
  Machine, TranslationEntry, ExceptionType, page_fault_exception, read_only_exception,
  bus_error_exception, address_error_exception, page_size, num_phys_pages, memory_size,
}

-- What the function returns: an exception, or `NoException` with a physical address.
pub data Translated : Type 0 where
  fault : ExceptionType → Translated
  physical : ℕ → Translated

pub misaligned : ℕ → ℕ → Bool
misaligned addr size =
    (size == 4) && not (bit_and addr 0x3 == 0) || (size == 2) && not (bit_and addr 0x1 == 0)

-- The part after an entry is found, with the entry as it is left.
pub use_entry : TranslationEntry → ℕ → ℕ → Bool → Outcome (Translated × TranslationEntry)
use_entry e offset size writing =
    let address = e.physical_page * page_size + offset in
    let used = record e { use_bit = true; dirty = if writing then true else e.dirty } in
    if e.read_only && writing
    then ok (fault read_only_exception, e)
    else if leb num_phys_pages e.physical_page
    then ok (fault bus_error_exception, e)
    else (assert (leb (address + size) memory_size) >> ok (physical address, used))

-- An access outside of an array is a fault of the host.
abbrev pub entry_at : List TranslationEntry → ℕ → Outcome TranslationEntry
entry_at es i = elim (get_elem? es i) [ none ↦ aborted | some e ↦ ok e ]

paged_use :
    Machine
    → List TranslationEntry
    → TranslationEntry
    → ℕ
    → ℕ
    → ℕ
    → Bool
    → Outcome (Translated × Machine)
paged_use m table e vpn offset size writing = do
  (t, e') ← use_entry e offset size writing
  ok (t, record m { page_table = some (set table vpn e') })

-- The virtual page number is the index into the page table.
pub translate_paged :
    Machine → List TranslationEntry → ℕ → ℕ → ℕ → Bool → Outcome (Translated × Machine)
unfolding paged_use
translate_paged m table vpn offset size writing =
    if leb m.page_table_size vpn
    then ok (fault address_error_exception, m)
    else (entry_at table vpn >>= λ e.
        if e.valid
        then paged_use m table e vpn offset size writing
        else ok (fault page_fault_exception, m))

-- The index of the first valid entry for the page, from index i on.
pub find_tlb : ℕ → ℕ → List TranslationEntry → Option ℕ
find_tlb vpn i [] = none
find_tlb vpn i (e ∷ es) =
    if e.valid && (e.virtual_page == vpn) then some i else find_tlb vpn (i + 1) es

pub translate_tlb :
    Machine → List TranslationEntry → ℕ → ℕ → ℕ → Bool → Outcome (Translated × Machine)
translate_tlb m entries vpn offset size writing = elim (find_tlb vpn 0 entries) [
  | none ↦ ok (fault page_fault_exception, m)
  | some i ↦ do
    e ← entry_at entries i
    (t, e') ← use_entry e offset size writing
    ok (t, record m { tlb = some (set entries i e') })
]

-- There must be a TLB or a page table, but not both.
pub translate_by :
    Option (List TranslationEntry)
    → Option (List TranslationEntry)
    → Machine
    → ℕ
    → ℕ
    → ℕ
    → Bool
    → Outcome (Translated × Machine)
translate_by (some _) (some _) m vpn offset size writing = aborted
translate_by none none m vpn offset size writing = aborted
translate_by none (some table) m vpn offset size writing =
    translate_paged m table vpn offset size writing
translate_by (some entries) none m vpn offset size writing =
    translate_tlb m entries vpn offset size writing

pub translate : Machine → ℕ → ℕ → Bool → Outcome (Translated × Machine)
translate m addr size writing =
    if misaligned addr size
    then ok (fault address_error_exception, m)
    else translate_by m.tlb m.page_table m (addr / page_size) (addr % page_size) size writing
