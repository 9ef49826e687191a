-- ===== src/World/Session/Tests.antt =====
-- A packet for a client whose sending ring is empty, or full.
use mmotcpfighter.Base.{◌≡◌, ◌++◌, [], ◌∷◌, true, false, arith, ok}
use mmotcpfighter.Memory.{Block, new_block, bytes, of_list}
use mmotcpfighter.Ring.{Ring, actual_size, get_use_size, get_free_size}
use mmotcpfighter.Ring.Valid.{IsValid, contents}
use mmotcpfighter.World.Monad.{set_at}
use mmotcpfighter.World.Sample.{session_with, server_with}
use mmotcpfighter.World.Session.{enq_packet_rb}
use mmotcpfighter.World.Session.Enqueue.{rejected, enq_packet_rb_room, enq_packet_rb_full}

abbrev empty_ring : Ring
empty_ring = record { out_pos = 10000; in_pos = 10000; buffer = new_block actual_size }

abbrev full_ring : Ring
full_ring = record { out_pos = 1; in_pos = 0; buffer = new_block actual_size }

abbrev packet : Block
packet = of_list (137 ∷ 1 ∷ 252 ∷ 5 ∷ [])

enq_packet_rb_room_example :
    (rb : Ring) × (enq_packet_rb 1 packet 4 (server_with empty_ring)
      ≡ ok (
        true,
        record (server_with empty_ring) {
          sessions =
              set_at
                (server_with empty_ring).sessions
                1
                (record (session_with empty_ring) { send_rb = rb });
        },
      ))
    × IsValid rb
    × (contents rb ≡ contents empty_ring ++ bytes packet 0 4)
unfolding get_use_size get_free_size
enq_packet_rb_room_example =
    enq_packet_rb_room (server_with empty_ring) 1 packet 4 (λ h. omega arith) (omega arith)
      (λ h. omega arith) (λ h. omega arith) (omega arith) (λ h. omega arith) (omega arith)
      (omega arith)

enq_packet_rb_full_example :
    enq_packet_rb 1 packet 4 (server_with full_ring)
    ≡ ok (false, rejected (server_with full_ring) 1)
unfolding get_use_size get_free_size
enq_packet_rb_full_example =
    enq_packet_rb_full (server_with full_ring) 1 packet 4 (λ h. omega arith) (omega arith)
      (λ h. omega arith) (λ h. omega arith) (omega arith) (omega arith)
