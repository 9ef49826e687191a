-- ===== src/LinkedList.antt =====
-- LinkedList.h and LinkedList.cpp: doubly linked lists through nodes that stand inside other
-- objects. A pointer is a number, null is 0, and the heap gives the node at each pointer. The
-- functions take the heap and the two words that `ppHead` and `ppTail` point to. The check under
-- `_DEBUG` is not part of the release build.
pub mod Chain
pub mod Link
pub mod Unlink
pub mod Settles
mod Tests
use mmotcpfighter.Base.{
  ℕ, Bool, not, ◌&&◌, ◌==◌, if◌then◌else◌, Outcome, ok, err, ◌>>=◌, ◌>>◌, require, debug_break,
  null_pointer,
}

abbrev pub Ptr : Type 0
Ptr = ℕ

-- `LINKED_NODE`
pub record Node : Type 0 where
  pub next : Ptr
  pub prev : Ptr

abbrev pub Heap : Type 0
Heap = Ptr → Node

abbrev pub node : Ptr → Ptr → Node
node next prev = record { next = next; prev = prev }

abbrev pub null : Ptr
null = 0

-- `*ppHead` and `*ppTail`.
pub record Ends : Type 0 where
  pub head : Ptr
  pub tail : Ptr

abbrev pub ends : Ptr → Ptr → Ends
ends head tail = record { head = head; tail = tail }

unfoldable pub write : Heap → Ptr → Node → Heap
write heap target content p = if p == target then content else heap p

-- `*p`
abbrev pub load : Heap → Ptr → Outcome Node
load h p = if p == null then err null_pointer else ok (h p)

-- `p->pNext = q` and `p->pPrev = q`
abbrev pub set_next : Heap → Ptr → Ptr → Outcome Heap
set_next h p q = if p == null then err null_pointer else ok (write h p (record (h p) { next = q }))

abbrev pub set_prev : Heap → Ptr → Ptr → Outcome Heap
set_prev h p q = if p == null then err null_pointer else ok (write h p (record (h p) { prev = q }))

-- Both functions, where the list is empty.
link_only : Heap → Ptr → Outcome (Heap × Ends)
link_only h new = do h ← set_next h new null; h ← set_prev h new null; ok (h, ends new new)

link_before : Heap → Ends → Ptr → Outcome (Heap × Ends)
link_before h e new = do
  h ← set_next h new e.head
  h ← set_prev h e.head new
  h ← set_prev h new null
  ok (h, ends new e.tail)

pub link_first : Heap → Ends → Ptr → Outcome (Heap × Ends)
link_first h e new = if e.head == null then link_only h new else link_before h e new

link_behind : Heap → Ends → Ptr → Outcome (Heap × Ends)
link_behind h e new = do
  h ← set_prev h new e.tail
  h ← set_next h e.tail new
  h ← set_next h new null
  ok (h, ends e.head new)

pub link_last : Heap → Ends → Ptr → Outcome (Heap × Ends)
link_last h e new = if e.head == null then link_only h new else link_behind h e new

-- The check of the victim's predecessor, at the start of `UnLinkFromLinkedList`.
check_prev : Heap → Ptr → Outcome (Unit {0})
check_prev h victim = do
  v ← load h victim
  p ← if v.prev == null then ok (node victim null) else load h v.prev
  require (p.next == victim) debug_break

-- Takes the victim out of the way of its predecessor, or of the head.
unlink_prev : Heap → Ends → Ptr → Outcome (Heap × Ends)
unlink_prev h e victim = do
  v ← load h victim
  let first : Outcome (Heap × Ends) = do
    require (victim == e.head) debug_break
    ok (h, ends v.next e.tail)
  let later : Outcome (Heap × Ends) = do h' ← set_next h v.prev v.next; ok (h', e)
  if v.prev == null then first else later

-- And out of the way of its successor, or of the tail.
unlink_next : Heap → Ends → Ptr → Outcome (Heap × Ends)
unlink_next h e victim = do
  v ← load h victim
  let earlier : Outcome (Heap × Ends) = do h' ← set_prev h v.next v.prev; ok (h', e)
  if v.next == null then ok (h, ends e.head v.prev) else earlier

-- The last two assignments.
clear_links : Heap → Ends → Ptr → Outcome (Heap × Ends)
clear_links h e victim = do h ← set_prev h victim null; h ← set_next h victim null; ok (h, e)

pub unlink : Heap → Ends → Ptr → Outcome (Heap × Ends)
unlink h e victim = do
  check_prev h victim
  (h, e) ← unlink_prev h e victim
  (h, e) ← unlink_next h e victim
  clear_links h e victim
