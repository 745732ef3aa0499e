-- ===== src/LinkedList/Removal.antt =====
-- RemoveFront, as an operation on the sequence of the items.
use cs107_nach_os.Common.{
  ℕ, ◌-◌, ◌≡◌, refl, true, false, none, List, [], ◌∷◌, ok, aborted, ◌==◌, arith,
}
use cs107_nach_os.LinkedList.{LinkedList, update, element_at, pointed, remove_front, same_pointer}
use cs107_nach_os.LinkedList.Chains.{Chain-update, All-last}
use cs107_nach_os.LinkedList.Queue.{Holds, last_stored}

-- RemoveFront of a list that holds at least one cell returns the item of the first and leaves an
-- object that holds the others, also when that was the only one.
pub remove_front-Holds :
    (l : LinkedList) (c : ℕ × ℕ) (cells : List (ℕ × ℕ))
    → Holds l (c ∷ cells)
    → (l' : LinkedList) × (remove_front l ≡ ok (c.1, l')) × Holds l' cells
unfolding remove_front
remove_front-Holds l (a, x) [] h =
    let (here, q, stored, once, rest) = h.chain in
    let full : (l.num_in_list == 0) ≡ false = ground (arith, h.count) in
    let one : same_pointer l.first l.last ≡ true = rw (here, h.ends) (ground arith) in
    (
      record l {
        heap = update l.heap a none;
        first = none;
        last = none;
        num_in_list = l.num_in_list - 1;
      },
      rw (full, one) (rw here (rw (pointed, element_at, stored) refl)),
      record { chain = refl; ends = refl; count = omega (arith, h.count); allocated = tt },
    )
remove_front-Holds l (a, x) (d ∷ cells) h =
    let (here, q, stored, once, rest) = h.chain in
    let full : (l.num_in_list == 0) ≡ false = ground (arith, h.count) in
    let (b, y, r, at_end, found) = last_stored l.heap q d cells rest in
    let differs = All-last a (d ∷ cells) b once at_end in
    let more : same_pointer l.first l.last ≡ false =
      rw (here, h.ends, at_end) (ground (arith, differs)) in
    (
      record l { heap = update l.heap a none; first = q; num_in_list = l.num_in_list - 1 },
      rw (full, more) (rw here (rw (pointed, element_at, stored) refl)),
      record {
        chain = Chain-update l.heap q (d ∷ cells) a none once rest;
        ends = h.ends;
        count = omega (arith, h.count);
        allocated = h.allocated.1;
      },
    )

pub remove_front_empty : (l : LinkedList) → Holds l [] → remove_front l ≡ aborted
unfolding remove_front
remove_front_empty l h = rw h.count refl
