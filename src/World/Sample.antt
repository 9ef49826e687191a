-- ===== src/World/Sample.antt =====
-- A server with one client, in the corner of the map, for the tests. The rings of its session are given.
use mmotcpfighter.Base.{[], pos}
use mmotcpfighter.Memory.{new_block}
use mmotcpfighter.Ring.{Ring}
use mmotcpfighter.Serial.{SerializeBuffer}
use mmotcpfighter.LinkedList.{node, ends}
use mmotcpfighter.World.{Server, SessionData, Client}

abbrev pub session_with : Ring → SessionData
session_with ring = record {
  id = 0;
  last_recv_time = 0;
  client = 1;
  is_valid = 1;
  client_sock = 0;
  recv_rb = ring;
  send_rb = ring;
}

abbrev buffer : SerializeBuffer
buffer = record { buffer = new_block 1250; buffer_size = 1250; front = 0; rear = 0 }

abbrev client : Client
client = record {
  id = 0;
  handle = 0;
  position = record { y = pos 10; x = pos 10 };
  view_dir = 0;
  move_dir = 8;
  hp = pos 100;
  cur_sector = record { y = pos 0; x = pos 0 };
  old_sector = record { y = pos 0; x = pos 0 };
}

abbrev pub server_with : Ring → Server
server_with ring = record {
  clients = λ _. client;
  links = λ _. node 0 0;
  grid = λ _ _. record { links = ends 0 0; num_of_client = 0 };
  sessions = λ _. session_with ring;
  session_arr = λ _. 1;
  session_num = 1;
  discon = [];
  around = record { num = 0; clients = λ _. 0 };
  sb1 = buffer;
  sb2 = buffer;
  next_id = 1;
  sync_count = 0;
  discon_count = 0;
  discon_by_rb_full = 0;
  discon_by_timeout = 0;
}
