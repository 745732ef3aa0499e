-- ===== src/LinkedList/Tests.antt =====
-- A list of 7 and 8, at the addresses 0 and 1.
use cs107_nach_os.Common.{◌≡◌, refl, none, some, [], ◌∷◌, arith, ok, ◌==◌, if◌then◌else◌}
use cs107_nach_os.LinkedList.{LinkedList, append, remove_front, sanity_check}
use cs107_nach_os.LinkedList.Queue.{Holds, append-Holds}
use cs107_nach_os.LinkedList.Removal.{remove_front-Holds}
use cs107_nach_os.LinkedList.Sanity.{sanity_check-Holds}

abbrev sample : LinkedList
sample = record {
  heap = λ p.
      if p == 0
      then some (record { item = 7; next = some 1 })
      else if p == 1
      then some (record { item = 8; next = none })
      else none;
  top = 2;
  first = some 0;
  last = some 1;
  num_in_list = 2;
}

sample-Holds : Holds sample ((0, 7) ∷ (1, 8) ∷ [])
sample-Holds = record {
  chain = (refl, some 1, refl, (omega arith, tt), (refl, none, refl, tt, refl));
  ends = refl;
  count = refl;
  allocated = (omega arith, (omega arith, tt));
}

append-Holds_example :
    (l' : LinkedList) × (append sample 9 ≡ ok l') × Holds l' ((0, 7) ∷ (1, 8) ∷ (2, 9) ∷ [])
append-Holds_example = append-Holds sample ((0, 7) ∷ (1, 8) ∷ []) 9 sample-Holds refl

remove_front-Holds_example :
    (l' : LinkedList) × (remove_front sample ≡ ok (7, l')) × Holds l' ((1, 8) ∷ [])
remove_front-Holds_example = remove_front-Holds sample (0, 7) ((1, 8) ∷ []) sample-Holds

sanity_check-Holds_example : sanity_check sample ≡ ok tt
sanity_check-Holds_example = sanity_check-Holds sample ((0, 7) ∷ (1, 8) ∷ []) sample-Holds
