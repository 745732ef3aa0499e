-- ===== src/Machine/Translate/Frame.antt =====
-- Translation changes nothing of the machine but the entries of its tables, and a fault is no
-- NoException.
use cs107_nach_os.Common.{
  ℕ, ◌+◌, ◌*◌, ◌/◌, ◌%◌, ◌≡◌, ◌≢◌, refl, ap, Bool, Option, none, some, List, Outcome, ok, ◌>>=◌,
  ◌&&◌, assert, leb, set, arith,
}
use cs107_nach_os.Machine.{
  Machine, TranslationEntry, page_size, memory_size, num_phys_pages, no_exception,
  page_fault_exception,
}
use cs107_nach_os.Machine.Sound.{
  IsSound, Always, Always-then, Always-next, Always-bind, Always-if, Always-map,
}
use cs107_nach_os.Machine.Translate.{
  Translated, fault, physical, misaligned, use_entry, entry_at, paged_use, translate_paged,
  find_tlb, translate_tlb, translate_by, translate,
}

abbrev pub IsRaised : Translated → Type 0
IsRaised (fault e) = e ≢ no_exception
IsRaised (physical p) = Unit {0}

use_entry-IsRaised :
    (e : TranslationEntry) (offset size : ℕ) (writing : Bool)
    → Always (λ r. IsRaised r.0) (use_entry e offset size writing)
unfolding use_entry
use_entry-IsRaised e offset size writing =
    let P : Translated × TranslationEntry → Type 0 = λ r. IsRaised r.0 in
    Always-if P (e.read_only && writing) _ _ (ground arith) (
      Always-if P (leb num_phys_pages e.physical_page) _ _ (ground arith) (
        Always-next P (assert (leb (e.physical_page * page_size + offset + size) memory_size)) _
          tt))

module _ (m : Machine) where
  pub record Kept (r : Translated × Machine) : Type 0 where
    pub registers : r.1.registers ≡ m.registers
    pub memory : r.1.main_memory ≡ m.main_memory
    pub raised : IsRaised r.0

  kept : (r : Translated × Machine) → r.1 ≡ m → IsRaised r.0 → Kept r
  kept r e h = record {
    registers = ap (λ x. x.registers) e;
    memory = ap (λ x. x.main_memory) e;
    raised = h;
  }

  paged_use-Kept :
      (table : List TranslationEntry) (e : TranslationEntry) (vpn offset size : ℕ) (writing : Bool)
      → Always Kept (paged_use m table e vpn offset size writing)
  unfolding paged_use
  paged_use-Kept table e vpn offset size writing =
      Always-bind (λ r. IsRaised r.0) Kept (use_entry e offset size writing) _
        (use_entry-IsRaised e offset size writing)
        (λ r h. record { registers = refl; memory = refl; raised = h })

  translate_paged-Kept :
      (table : List TranslationEntry) (vpn offset size : ℕ) (writing : Bool)
      → Always Kept (translate_paged m table vpn offset size writing)
  unfolding translate_paged
  translate_paged-Kept table vpn offset size writing =
      Always-if Kept (leb m.page_table_size vpn) _ _ (kept _ refl (ground arith)) (
        Always-then Kept (entry_at table vpn) _ λ e.
          Always-if Kept e.valid _ _ (paged_use-Kept table e vpn offset size writing)
            (kept _ refl (ground arith)))

  translate_tlb-Kept :
      (entries : List TranslationEntry) (vpn offset size : ℕ) (writing : Bool)
      → Always Kept (translate_tlb m entries vpn offset size writing)
  unfolding translate_tlb
  translate_tlb-Kept entries vpn offset size writing =
      elim (find_tlb vpn 0 entries)
        as (λ o. Always Kept (elim o as (λ _. Outcome (Translated × Machine)) [
          | none ↦ ok (fault page_fault_exception, m)
          | some i ↦ do
            e ← entry_at entries i
            (t, e') ← use_entry e offset size writing
            ok (t, record m { tlb = some (set entries i e') })
        ])) [
          | none ↦ (kept _ refl (ground arith))
          | some i ↦ Always-then Kept (entry_at entries i) _ λ e.
              Always-bind (λ r. IsRaised r.0) Kept (use_entry e offset size writing) _
                (use_entry-IsRaised e offset size writing)
                λ r h. record { registers = refl; memory = refl; raised = h }
        ]

  translate_by-Kept :
      (tlb table : Option (List TranslationEntry)) (vpn offset size : ℕ) (writing : Bool)
      → Always Kept (translate_by tlb table m vpn offset size writing)
  unfolding translate_by
  translate_by-Kept (some _) (some _) vpn offset size writing = tt
  translate_by-Kept none none vpn offset size writing = tt
  translate_by-Kept none (some table) vpn offset size writing =
      translate_paged-Kept table vpn offset size writing
  translate_by-Kept (some entries) none vpn offset size writing =
      translate_tlb-Kept entries vpn offset size writing

  pub translate-Kept :
      (addr size : ℕ) (writing : Bool) → Always Kept (translate m addr size writing)
  unfolding translate
  translate-Kept addr size writing =
      Always-if Kept (misaligned addr size) _ _ (kept _ refl (ground arith))
        (translate_by-Kept m.tlb m.page_table (addr / page_size) (addr % page_size) size writing)

  pub translate-IsSound :
      IsSound m
      → (addr size : ℕ) (writing : Bool) → Always (λ r. IsSound r.1) (translate m addr size writing)
  translate-IsSound sound addr size writing =
      Always-map Kept (λ r. IsSound r.1) _
        (λ r k. record {
          words = λ i. rw (k.registers) (sound.words i);
          bytes = λ a. rw (k.memory) (sound.bytes a);
        })
        (translate-Kept addr size writing)
