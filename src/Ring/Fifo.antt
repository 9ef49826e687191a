-- ===== src/Ring/Fifo.antt =====
-- The ring as a bounded first-in, first-out queue of bytes: `Enqueue`, `Dequeue` and `Peek` on a
-- valid ring, on every branch.
mod Enqueue
mod Dequeue
pub use Enqueue.*
pub use Dequeue.*
