-- ===== src/LinkedList.antt =====
-- NachOS-4.0/code/lib/list.{h,cc}: the singly linked list, with its elements in a heap. Items are
-- pointers or numbers, which `==` compares.
pub mod Chains
pub mod Queue
pub mod Removal
pub mod Sanity
mod Tests
use cs107_nach_os.Common.{
  ℕ, zero, suc, ◌+◌, ◌-◌, Bool, true, false, not, Option, none, some, Outcome, ok, aborted, ◌>>=◌,
  ◌>>◌, assert, ◌==◌, ◌&&◌, leb, if◌then◌else◌,
}

pub record ListElement : Type 0 where
  pub item : ℕ
  pub next : Option ℕ

-- The heap, by address; `top` is the address that `new` gives next, and `delete` leaves `none`.
abbrev pub Heap : Type 0
Heap = ℕ → Option ListElement

-- A List object and the heap around it. NULL is `none`.
pub record LinkedList : Type 0 where
  pub heap : Heap
  pub top : ℕ
  pub first : Option ℕ
  pub last : Option ℕ
  pub num_in_list : ℕ

abbrev pub update : Heap → ℕ → Option ListElement → Heap
update heap p e q = if p == q then e else heap q

-- Following NULL or a dangling pointer is a fault.
abbrev pub element_at : Heap → ℕ → Outcome ListElement
element_at heap p = elim (heap p) [ none ↦ aborted | some e ↦ ok e ]

abbrev pub pointed : Option ℕ → Outcome ℕ
pointed none = aborted
pointed (some p) = ok p

-- The object and the address of the element that `new ListElement(item)` gives.
abbrev pub new_element : ℕ → LinkedList → LinkedList
new_element item l = record l {
  heap = update l.heap l.top (some (record { item = item; next = none }));
  top = l.top + 1;
}

abbrev pub is_empty : LinkedList → Bool
is_empty l = l.num_in_list == 0

abbrev pub same_pointer : Option ℕ → Option ℕ → Bool
same_pointer none none = true
same_pointer (some p) (some q) = p == q
same_pointer _ _ = false

-- The search from an element on, past at most `fuel` elements; a longer one does not come back.
pub in_list_from : ℕ → Heap → Option ℕ → ℕ → Outcome Bool
in_list_from fuel heap none item = ok false
in_list_from zero heap (some p) item = aborted
in_list_from (suc fuel) heap (some p) item = element_at heap p >>= λ e.
    if item == e.item then ok true else in_list_from fuel heap e.next item

-- A list is no longer than numInList says.
pub is_in_list : LinkedList → ℕ → Outcome Bool
is_in_list l item = in_list_from l.num_in_list l.heap l.first item

pub set_next : LinkedList → ℕ → Option ℕ → Outcome LinkedList
set_next l p q = do
  e ← element_at l.heap p
  ok (record l { heap = update l.heap p (some (record e { next = q })) })

-- `last->next = element`, or both pointers in an empty list.
pub link_last : LinkedList → ℕ → Outcome LinkedList
unfolding set_next
link_last l element =
    if is_empty l
    then ok (record l { first = some element; last = some element })
    else (pointed l.last >>= λ p.
        set_next l p (some element) >>= λ l'. ok (record l' { last = some element }))

pub append : LinkedList → ℕ → Outcome LinkedList
append l item = do
  let l1 = new_element item l
  present ← is_in_list l1 item
  assert (not present)
  l2 ← link_last l1 l.top
  let l3 = record l2 { num_in_list = l2.num_in_list + 1 }
  found ← is_in_list l3 item
  assert found
  ok l3

pub link_first : LinkedList → ℕ → Outcome LinkedList
unfolding set_next
link_first l element =
    if is_empty l
    then ok (record l { first = some element; last = some element })
    else (set_next l element l.first >>= λ l'. ok (record l' { first = some element }))

pub prepend : LinkedList → ℕ → Outcome LinkedList
prepend l item = do
  let l1 = new_element item l
  present ← is_in_list l1 item
  assert (not present)
  l2 ← link_first l1 l.top
  let l3 = record l2 { num_in_list = l2.num_in_list + 1 }
  found ← is_in_list l3 item
  assert found
  ok l3

pub remove_front : LinkedList → Outcome (ℕ × LinkedList)
remove_front l = do
  assert (not (is_empty l))
  p ← pointed l.first
  e ← element_at l.heap p
  let l1 =
      if same_pointer l.first l.last
      then record l { first = none; last = none }
      else record l { first = e.next }
  ok (e.item, record l1 { heap = update l.heap p none; num_in_list = l.num_in_list - 1 })

-- The loop of SanityCheck, at an element: the number of elements up to the last. The assertion in
-- it keeps it within numInList rounds, the fuel.
unfoldable pub walk_to_last : ℕ → LinkedList → Option ℕ → ℕ → Outcome ℕ
walk_to_last zero l ptr num_found = if same_pointer ptr l.last then ok num_found else aborted
walk_to_last (suc fuel) l ptr num_found =
    if same_pointer ptr l.last
    then ok num_found
    else (assert (leb (num_found + 1) l.num_in_list)
        >> (pointed ptr >>= λ p.
            element_at l.heap p >>= λ e. walk_to_last fuel l e.next (num_found + 1)))

-- `last->next == NULL`
unfoldable pub assert_last : LinkedList → Bool → Outcome (Unit {0})
assert_last l counted = pointed l.last >>= λ p.
    element_at l.heap p >>= λ e. assert (counted && same_pointer e.next none)

unfoldable pub sanity_check : LinkedList → Outcome (Unit {0})
unfolding walk_to_last assert_last
sanity_check l =
    if same_pointer l.first none
    then assert ((l.num_in_list == 0) && same_pointer l.last none)
    else if same_pointer l.first l.last
    then assert_last l (l.num_in_list == 1)
    else (walk_to_last l.num_in_list l l.first 1 >>= λ num_found.
        assert (num_found == l.num_in_list) >> assert_last l true)
