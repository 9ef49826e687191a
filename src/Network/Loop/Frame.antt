-- ===== src/Network/Loop/Frame.antt =====
-- What the network layer asks of its callbacks.
use mmotcpfighter.Base.{ℕ}
use mmotcpfighter.LinkedList.{Ptr}
use mmotcpfighter.World.{Server}
use mmotcpfighter.World.Frame.{Keeps, Framed, Ends-Keeps, Ends-settles}
use mmotcpfighter.Network.Callbacks.{Callbacks}
use mmotcpfighter.Network.Sessions.Handles.{LeavesHandles}
use mmotcpfighter.Network.Transfer.Rounds.{LeavesRing}

-- They keep to the frame.
pub record KeepsFrame (cb : Callbacks) : Type 0 where
  pub removes : (c : Ptr) → Framed (cb.remove_client c)
  pub handles : (c : Ptr) (type : ℕ) → Framed (cb.packet_proc c type)

pub KeepsFrame-LeavesRing : (cb : Callbacks) → KeepsFrame cb → (p : Ptr) → LeavesRing cb p
KeepsFrame-LeavesRing cb keeps p = record {
  settles = λ s c t. Ends-settles (cb.packet_proc c t s) ((keeps.handles c t).at s);
  keeps = λ s c t b s' e. (Ends-Keeps (cb.packet_proc c t s) ((keeps.handles c t).at s) e).recv p;
}

pub Keeps-LeavesHandles : {s t : Server} → Keeps s t → LeavesHandles s t
Keeps-LeavesHandles k = record { num = k.num; arr = k.arr; sessions = k.client; handles = k.handle }
