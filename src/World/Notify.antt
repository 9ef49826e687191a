-- ===== src/World/Notify.antt =====
-- The pieces of which the contents make up their messages: a packet into one of the global buffers,
-- and a packet to each client in `g_AroundInfo`.
pub mod Frames
use mmotcpfighter.Base.{ℕ, zero, suc, ◌+◌, Outcome}
use mmotcpfighter.Serial.{SerializeBuffer, clear}
use mmotcpfighter.LinkedList.{Ptr}
use mmotcpfighter.World.Monad.{Cmd, pure, ◌>>=◌, ◌>>◌, state, modify, lift}
use mmotcpfighter.World.Session.{enq_packet_rb}

unfoldable pub make_sb1 : (SerializeBuffer → Outcome (ℕ × SerializeBuffer)) → Cmd ℕ
make_sb1 f = do s ← state; (n, sb) ← lift (f s.sb1); modify (λ t. record t { sb1 = sb }); pure n

unfoldable pub make_sb2 : (SerializeBuffer → Outcome (ℕ × SerializeBuffer)) → Cmd ℕ
make_sb2 f = do s ← state; (n, sb) ← lift (f s.sb2); modify (λ t. record t { sb2 = sb }); pure n

unfoldable pub clear_sb1 : Cmd (Unit {0})
clear_sb1 = modify (λ s. record s { sb1 = clear s.sb1 })

unfoldable pub clear_sb2 : Cmd (Unit {0})
clear_sb2 = modify (λ s. record s { sb2 = clear s.sb2 })

-- `EnqPacketRB(p, g_sb1.GetBufferPtr(), size)`
unfoldable pub send_sb1 : ℕ → Ptr → Cmd (Unit {0})
send_sb1 size p = do s ← state; _ ← enq_packet_rb p s.sb1.buffer size; pure tt

unfoldable pub send_sb2 : ℕ → Ptr → Cmd (Unit {0})
send_sb2 size p = do s ← state; _ ← enq_packet_rb p s.sb2.buffer size; pure tt

-- `for (i = 0; i < dwNum; ++i) f(cArr[i])`, with `n` rounds left at index `i`. No body changes `dwNum`.
unfoldable pub each_from : ℕ → ℕ → (Ptr → Cmd (Unit {0})) → Cmd (Unit {0})
each_from zero i f = pure tt
each_from (suc n) i f = do s ← state; f (s.around.clients i); each_from n (i + 1) f

unfoldable pub each_around : (Ptr → Cmd (Unit {0})) → Cmd (Unit {0})
each_around f = do s ← state; each_from s.around.num 0 f

-- The same loop where each round adds to a sum of sizes.
unfoldable pub sum_from : ℕ → ℕ → (Ptr → Cmd ℕ) → ℕ → Cmd ℕ
sum_from zero i f total = pure total
sum_from (suc n) i f total = do
  s ← state
  k ← f (s.around.clients i)
  sum_from n (i + 1) f (total + k)

unfoldable pub sum_around : (Ptr → Cmd ℕ) → Cmd ℕ
sum_around f = do s ← state; sum_from s.around.num 0 f 0

-- `g_sb1 >> value`
unfoldable pub read_sb1 : (SerializeBuffer → Outcome (ℕ × SerializeBuffer)) → Cmd ℕ
read_sb1 f = do s ← state; (v, sb) ← lift (f s.sb1); modify (λ t. record t { sb1 = sb }); pure v
