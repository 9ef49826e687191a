-- ===== src/LinkedList/Settles.antt =====
-- The functions on linked lists are loops of no kind: none reports that its fuel ran out.
use mmotcpfighter.Base.{Settles, arith}
use mmotcpfighter.LinkedList.{
  Ptr, Heap, Ends, link_only, link_behind, link_last, check_prev, unlink_prev, unlink_next,
  clear_links, unlink,
}

pub link_last-Settles : (h : Heap) (e : Ends) (p : Ptr) → Settles (link_last h e p)
unfolding link_only link_behind link_last
link_last-Settles h e p = record { apply = λ q. ground arith }

pub unlink-Settles : (h : Heap) (e : Ends) (p : Ptr) → Settles (unlink h e p)
unfolding check_prev unlink_prev unlink_next clear_links unlink
unlink-Settles h e p = record { apply = λ q. ground arith }
