-- ===== src/LinkedList/Queue.antt =====
-- Append and Prepend, as operations on the sequence of the items.
use cs107_nach_os.Common.{
  ℕ, ◌+◌, ◌<◌, ◌≡◌, ◌≢◌, refl, sym, ap, true, false, ◌||◌, Option, none, some, List, [], ◌∷◌, ◌++◌,
  ok, aborted, ◌==◌, arith, length, length-append, All,
}
use cs107_nach_os.LinkedList.{
  LinkedList, Heap, update, new_element, is_in_list, set_next, link_last, link_first, append,
  prepend,
}
use cs107_nach_os.LinkedList.Chains.{
  Chain, has_item, last_address, Chain-update, Chain-append, All-snoc, in_list_from-has_item,
}

-- The object l holds these cells.
pub record Holds (l : LinkedList) (cells : List (ℕ × ℕ)) : Type 0 where
  pub chain : Chain l.heap l.first cells
  pub ends : l.last ≡ last_address cells
  pub count : l.num_in_list ≡ length cells
  pub allocated : All (λ c. c.0 < l.top) cells

-- The items, in order: all that a client sees.
abbrev pub items : List (ℕ × ℕ) → List ℕ
items [] = []
items (c ∷ cells) = c.1 ∷ items cells

pub items-append : (cs ds : List (ℕ × ℕ)) → items (cs ++ ds) ≡ items cs ++ items ds
items-append [] ds = refl
items-append (c ∷ cs) ds = ap (λ t. c.1 ∷ t) (items-append cs ds)

-- IsInList tells whether the item is among them.
pub is_in_list-has_item :
    (l : LinkedList) (cells : List (ℕ × ℕ)) (item : ℕ)
    → Holds l cells
    → is_in_list l item ≡ ok (has_item item cells)
unfolding is_in_list
is_in_list-has_item l cells item h =
    in_list_from-has_item l.num_in_list l.heap l.first cells item (omega (arith, h.count)) h.chain

fresh_top :
    (top : ℕ) (cells : List (ℕ × ℕ)) → All (λ c. c.0 < top) cells → All (λ c. top ≢ c.0) cells
fresh_top top [] h = tt
fresh_top top (c ∷ cells) (l, h) = ((λ e. absurd (omega (arith, l, e))), fresh_top top cells h)

one_more :
    (top : ℕ) (cells : List (ℕ × ℕ)) → All (λ c. c.0 < top) cells → All (λ c. c.0 < top + 1) cells
one_more top [] h = tt
one_more top (c ∷ cells) (l, h) = (omega arith, one_more top cells h)

-- A new element disturbs no list.
new_element-Holds :
    (l : LinkedList) (cells : List (ℕ × ℕ)) (item : ℕ)
    → Holds l cells
    → Holds (new_element item l) cells
new_element-Holds l cells item h = record {
  chain = Chain-update l.heap l.first cells l.top _ (fresh_top l.top cells h.allocated) h.chain;
  ends = h.ends;
  count = h.count;
  allocated = one_more l.top cells h.allocated;
}

has_item-snoc : (item a : ℕ) (cells : List (ℕ × ℕ)) → has_item item (cells ++ (a, item) ∷ []) ≡ true
has_item-snoc item a [] = ground arith
has_item-snoc item a (c ∷ cells) = let rest = has_item-snoc item a cells in ground (arith, rest)

last_address-snoc : (c : ℕ × ℕ) (cells : List (ℕ × ℕ)) → last_address (cells ++ c ∷ []) ≡ some c.0
last_address-snoc c [] = refl
last_address-snoc c (d ∷ []) = refl
last_address-snoc c (d ∷ d' ∷ cells) = last_address-snoc c (d' ∷ cells)

-- A chain that is not empty has a last element.
pub last_stored :
    (heap : Heap) (p : Option ℕ) (c : ℕ × ℕ) (cells : List (ℕ × ℕ))
    → Chain heap p (c ∷ cells)
    → (a : ℕ) × (y : ℕ) × (q : Option ℕ) × (last_address (c ∷ cells) ≡ some a)
      × (heap a ≡ some (record { item = y; next = q }))
last_stored heap p c [] (here, q, stored, once, chain) = (c.0, c.1, q, refl, stored)
last_stored heap p c (d ∷ cells) (here, q, stored, once, chain) = last_stored heap q d cells chain

link_last-Holds :
    (l : LinkedList) (cells : List (ℕ × ℕ)) (item : ℕ)
    → Holds l cells
    → (l' : LinkedList) × (link_last (new_element item l) l.top ≡ ok l')
      × (l'.num_in_list ≡ l.num_in_list)
      × Holds (record l' { num_in_list = l'.num_in_list + 1 }) (cells ++ (l.top, item) ∷ [])
unfolding link_last set_next
link_last-Holds l [] item h = (
  record (new_element item l) { first = some l.top; last = some l.top },
  rw h.count refl,
  refl,
  record {
    chain = (refl, none, ground arith, tt, refl);
    ends = refl;
    count = omega (arith, h.count);
    allocated = (omega arith, tt);
  },
)
link_last-Holds l (c ∷ cells) item h =
    let l1 = new_element item l in
    let h1 = new_element-Holds l (c ∷ cells) item h in
    let (a, y, q, at_end, stored) = last_stored l1.heap l1.first c cells h1.chain in
    let full : (l.num_in_list == 0) ≡ false = ground (arith, h.count) in
    (
      record l1 {
        heap = update l1.heap a (some (record { item = y; next = some l.top }));
        last = some l.top;
      },
      rw (full, h.ends, at_end) (ground (arith, stored)),
      refl,
      record {
        chain =
            Chain-append l1.heap l1.first (c ∷ cells) a l.top item y q at_end stored
              (fresh_top l.top (c ∷ cells) h.allocated) (ground arith) h1.chain;
        ends = sym (last_address-snoc (l.top, item) (c ∷ cells));
        count = omega (arith, h.count, length-append (c ∷ cells) ((l.top, item) ∷ []));
        allocated = All-snoc _ (c ∷ cells) (l.top, item) h1.allocated (omega arith);
      },
    )

-- Append of an item that is not in the list succeeds, its two assertions included, and the object
-- then holds the cells that it held, followed by a new one with the item, with first, last and
-- numInList to match.
pub append-Holds :
    (l : LinkedList) (cells : List (ℕ × ℕ)) (item : ℕ)
    → Holds l cells
    → has_item item cells ≡ false
    → (l' : LinkedList) × (append l item ≡ ok l') × Holds l' (cells ++ (l.top, item) ∷ [])
unfolding append
append-Holds l cells item h absent =
    let before =
      is_in_list-has_item (new_element item l) cells item (new_element-Holds l cells item h) in
    let (l', run, size, holds) = link_last-Holds l cells item h in
    let l3 = record l' { num_in_list = l'.num_in_list + 1 } in
    let after = is_in_list-has_item l3 (cells ++ (l.top, item) ∷ []) item holds in
    (l3, rw (before, absent, run, after, has_item-snoc item l.top cells) refl, holds)

link_first-Holds :
    (l : LinkedList) (cells : List (ℕ × ℕ)) (item : ℕ)
    → Holds l cells
    → (l' : LinkedList) × (link_first (new_element item l) l.top ≡ ok l')
      × (l'.num_in_list ≡ l.num_in_list)
      × Holds (record l' { num_in_list = l'.num_in_list + 1 }) ((l.top, item) ∷ cells)
unfolding link_first set_next
link_first-Holds l [] item h = (
  record (new_element item l) { first = some l.top; last = some l.top },
  rw h.count refl,
  refl,
  record {
    chain = (refl, none, ground arith, tt, refl);
    ends = refl;
    count = omega (arith, h.count);
    allocated = (omega arith, tt);
  },
)
link_first-Holds l (c ∷ cells) item h =
    let l1 = new_element item l in
    let full : (l.num_in_list == 0) ≡ false = ground (arith, h.count) in
    let fresh = fresh_top l.top (c ∷ cells) h.allocated in
    (
      record l1 {
        heap = update l1.heap l.top (some (record { item = item; next = l.first }));
        first = some l.top;
      },
      rw full (ground arith),
      refl,
      record {
        chain = (
          refl,
          l.first,
          ground arith,
          fresh,
          Chain-update l1.heap l.first (c ∷ cells) l.top _ fresh
              (new_element-Holds l (c ∷ cells) item h).chain,
        );
        ends = h.ends;
        count = omega (arith, h.count);
        allocated = (omega arith, one_more l.top (c ∷ cells) h.allocated);
      },
    )

-- Prepend of an item that is not in the list succeeds, its two assertions included, and the object
-- then holds a new cell with the item, followed by the cells that it held.
prepend-Holds :
    (l : LinkedList) (cells : List (ℕ × ℕ)) (item : ℕ)
    → Holds l cells
    → has_item item cells ≡ false
    → (l' : LinkedList) × (prepend l item ≡ ok l') × Holds l' ((l.top, item) ∷ cells)
unfolding prepend
prepend-Holds l cells item h absent =
    let before =
      is_in_list-has_item (new_element item l) cells item (new_element-Holds l cells item h) in
    let (l', run, size, holds) = link_first-Holds l cells item h in
    let l3 = record l' { num_in_list = l'.num_in_list + 1 } in
    let after = is_in_list-has_item l3 ((l.top, item) ∷ cells) item holds in
    let here : (item == item) || has_item item cells ≡ true = ground arith in
    (l3, rw (before, absent, run, after, here) refl, holds)

-- Append and Prepend of an item that is in the list fail their assertion.
append_present :
    (l : LinkedList) (cells : List (ℕ × ℕ)) (item : ℕ)
    → Holds l cells
    → has_item item cells ≡ true
    → (append l item ≡ aborted) × (prepend l item ≡ aborted)
unfolding append prepend
append_present l cells item h present =
    let before =
      is_in_list-has_item (new_element item l) cells item (new_element-Holds l cells item h) in
    (rw (before, present) refl, rw (before, present) refl)
