-- ===== src/World.antt =====
-- The state of the server and the commands on it. A client and a session are at pointers, which are
-- numbers; null is 0. `Session.h`'s and `Sector.cpp`'s globals are the fields of `Server`, and a
-- function of the source that reads or writes them is a command, which may fault.
--
-- `MiddleWare.h` reads a session's fields through `pReserved`, an alias of `g_pSessionArr`, and
-- reserves disconnections through aliases of `g_DisconInfo`; here they are the same fields.
pub mod Monad
pub mod Session
pub mod Notify
pub mod Area
pub mod Frame
pub mod Sample
use mmotcpfighter.Base.{ℕ, ℤ, List}
use mmotcpfighter.Memory.{Block}
use mmotcpfighter.Ring.{Ring}
use mmotcpfighter.Serial.{SerializeBuffer}
use mmotcpfighter.Position.{Pos, SectorPos}
use mmotcpfighter.LinkedList.{Ptr, Heap, Ends}

abbrev pub valid : ℕ
valid = 1

abbrev pub invalid : ℕ
invalid = 0

abbrev pub max_session : ℕ
max_session = 10000

-- The size of `AroundInfo`'s array.
abbrev pub max_around : ℕ
max_around = 7800

-- `st_Client`, without `SectorLink`: a client's link is the node of `Server.links` at its pointer,
-- so that `LinkToClient` is the identity.
pub record Client : Type 0 where
  pub id : ℕ
  pub handle : ℕ
  pub position : Pos
  pub view_dir : ℕ
  pub move_dir : ℕ
  pub hp : ℤ
  pub cur_sector : SectorPos
  pub old_sector : SectorPos

-- `st_Session`
pub record SessionData : Type 0 where
  pub id : ℕ
  pub last_recv_time : ℕ
  pub client : Ptr
  pub is_valid : ℕ
  pub client_sock : ℕ
  pub recv_rb : Ring
  pub send_rb : Ring

-- `st_SECTOR_CLIENT_INFO`
pub record SectorInfo : Type 0 where
  pub links : Ends
  pub num_of_client : ℕ

-- `AroundInfo`: the array is not cleared between its uses.
pub record AroundInfo : Type 0 where
  pub num : ℕ
  pub clients : ℕ → Ptr

pub record Server : Type 0 where
  pub clients : Ptr → Client
  pub links : Heap
  pub grid : ℕ → ℕ → SectorInfo
  pub sessions : Ptr → SessionData
  pub session_arr : ℕ → Ptr
  pub session_num : ℕ
  -- `g_DisconInfo`: the sessions to be removed, in the order in which they were reserved.
  pub discon : List Ptr
  pub around : AroundInfo
  pub sb1 : SerializeBuffer
  pub sb2 : SerializeBuffer
  pub next_id : ℕ
  -- The counts are `int`s, by their patterns.
  pub sync_count : ℕ
  pub discon_count : ℕ
  pub discon_by_rb_full : ℕ
  pub discon_by_timeout : ℕ
