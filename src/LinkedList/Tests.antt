-- ===== src/LinkedList/Tests.antt =====
-- A list of three nodes.
use mmotcpfighter.Base.{◌≡◌, refl, [], ◌∷◌, arith, ok, ◌==◌, if◌then◌else◌}
use mmotcpfighter.LinkedList.{null, node, Heap, Ends, ends, link_first, link_last, unlink}
use mmotcpfighter.LinkedList.Chain.{IsList, SameOutside}
use mmotcpfighter.LinkedList.Link.{Relinked, link_first_lem, link_last_lem}
use mmotcpfighter.LinkedList.Unlink.{unlink_lem}

-- 1, 2, 3, in that order.
abbrev heap : Heap
heap a =
    if a == 1 then node 2 0 else if a == 2 then node 3 1 else if a == 3 then node 0 2 else node 0 0

three : IsList heap (ends 1 3) (1 ∷ 2 ∷ 3 ∷ [])
three = record {
  head_first = refl;
  tail_last = refl;
  chain = (omega arith, refl, refl, (omega arith, refl, refl, (omega arith, refl, refl, tt)));
}

link_last_lem_example :
    Relinked heap (4 ∷ 1 ∷ 2 ∷ 3 ∷ []) (1 ∷ 2 ∷ 3 ∷ 4 ∷ []) (link_last heap (ends 1 3) 4)
link_last_lem_example = link_last_lem heap (ends 1 3) 4 (1 ∷ 2 ∷ 3 ∷ []) three (omega arith) refl

link_first_lem_example :
    Relinked heap (4 ∷ 1 ∷ 2 ∷ 3 ∷ []) (4 ∷ 1 ∷ 2 ∷ 3 ∷ []) (link_first heap (ends 1 3) 4)
link_first_lem_example = link_first_lem heap (ends 1 3) 4 (1 ∷ 2 ∷ 3 ∷ []) three (omega arith) refl

unlink_lem_example :
    (h' : Heap) × (e' : Ends) × (unlink heap (ends 1 3) 2 ≡ ok (h', e'))
    × IsList h' e' (1 ∷ 3 ∷ [])
    × (h' 2 ≡ node null null)
    × SameOutside (1 ∷ 2 ∷ 3 ∷ []) heap h'
unlink_lem_example = unlink_lem heap (ends 1 3) 2 (1 ∷ []) (3 ∷ []) three
