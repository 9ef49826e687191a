-- ===== src/Network/Startup.antt =====
-- `NetworkInitAndListen` of Network.cpp: the listening socket and the buffers. What is logged is not modelled.
use mmotcpfighter.Base.{ℕ, Bool, Option, none, some, if◌then◌else◌}
use mmotcpfighter.Serial.{alloc_buffer}
use mmotcpfighter.World.Monad.{Cmd, pure, ◌>>◌, modify}

-- What Winsock answers: whether `WSAStartup`, `bind`, `listen`, `setsockopt` and `ioctlsocket` succeed, and the socket that
-- `socket` returns, if it does not return `INVALID_SOCKET`.
pub record Startup : Type 0 where
  pub started : Bool
  pub socket : Option ℕ
  pub bound : Bool
  pub listens : Bool
  pub lingers : Bool
  pub is_nonblocking : Bool

-- Lines 101 and 102.
unfoldable pub alloc_buffers : Cmd (Unit {0})
alloc_buffers =
    modify (λ s. record s { sb1 = alloc_buffer 10000 s.sb1; sb2 = alloc_buffer 10000 s.sb2 })

-- What follows `socket`.
unfoldable pub listen_on : Startup → Option ℕ → Cmd (Option ℕ)
listen_on st none = pure none
listen_on st (some sock) =
    if st.bound
    then (if st.listens
        then (if st.lingers
            then (if st.is_nonblocking then alloc_buffers >> pure (some sock) else pure none)
            else pure none)
        else pure none)
    else pure none

-- `g_listenSock` where the function returns TRUE, and nothing where it returns FALSE.
unfoldable pub network_init_and_listen : Startup → Cmd (Option ℕ)
unfolding listen_on
network_init_and_listen st = if st.started then listen_on st st.socket else pure none
