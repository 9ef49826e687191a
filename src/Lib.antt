-- ===== src/Lib.antt =====
-- A verification library for TCPFighter_MMO, a TCP game server: up to 10,000 clients walk and fight on a
-- map of 6,400 by 6,400, and each is told of what happens in the nine sectors around it.
--
-- Paths are from the repository's root.
--
-- The parts, from the bottom up:
--   Base          Booleans, lists, faults and integers of the development.
--   Memory        Blocks of bytes and `memcpy`.
--   Ring          TCPFighter_MMO/RingBuffer.h and .cpp: the circular buffer of a session's received and
--                 sent bytes. `enqueue` is `RingBuffer::Enqueue`, and so on. `Ring/Valid` holds the
--                 invariant and the contents, `Ring/Queue` the bounded queue that it is to be.
--   Serial        TCPFighter_MMO/SerializeBuffer.h: the buffer in which packets are put together and
--                 taken apart. `write_value` is `operator<<` and `read_value` is `operator>>` at a width.
--   Packets       TCPFighter_MMO/SCContents.h and .cpp: `make_*` are the `MAKE_SC_*` functions.
--                 `Packets/Format` is the format on its own.
--   LinkedList    TCPFighter_MMO/LinkedList.h and .cpp: the lists of the clients in a sector, on an
--                 explicit heap of nodes.
--   Position, Direction, Sector
--                 TCPFighter_MMO/Position.h, Direction.h, Constant.h and Sector.h: positions, the tables of
--                 directions, and the sectors of the map. `Sector/Move` is about `GetSectorMoveDir`.
--   World         The state: TCPFighter_MMO/Client.h, Session.h, MiddleWare.h, and the globals of
--                 Session.cpp and Sector.cpp. `World/Monad` holds the commands on it, `World/Session` what
--                 the game sees of a session (`EnqPacketRB` among it), `World/Area` the clients in and
--                 around a sector (`Area/Lists` is about the lists of the sectors, `Members`, `Around` and `Nine` about who is
--                 collected), `World/Notify` messages to those around.
--   Contents      TCPFighter_MMO/CSCContents.h and .cpp, CallBack.cpp and Update.cpp: the handlers of the
--                 clients' packets, players who come and go, and the step of a frame. `Crossing/Steps` and
--                 `View` are about the tables of sectors that change, `Movement/Sync` about `IsSync`, `Attack/Reach`
--                 about the sectors that an attack looks into, `Tick/Step` about a step of a walk.
--   Network       TCPFighter_MMO/Network.cpp and Session.cpp: accepting, sending, receiving, taking packets
--                 out of what was received, registering and removing sessions. `Transfer/Buffers`,
--                 `Send`, `Receive` and `Rounds` are about `SendProc` and `RecvProc`, `Sessions/Handles`
--                 and `Register` about the places of the sessions. `Loop` is `SelectProc`, `NetworkProc` and
--                 `ClearSessionInfo`, with callbacks that are a parameter; `Game` puts the game's in. `Startup` is
--                 `NetworkInitAndListen`.
--   Logger        TCPFighter_MMO/Logger.cpp: the log level, `LOG` with its buffer, and in `Logger/Folder` the
--                 folder of the files.
--   Main          TCPFighter_MMO/main.cpp: the loop of the server and the frame timer; `Main/Start` is `main`
--                 from the globals at the start of the process on, `Main/Control` is `ServerControl`, the keys.
--
-- What is asked of every command is stated once, with a rule for each construct: `Ring/Settles`,
-- `Serial/Settles` and so on, that a function does not run out of fuel; the modules `Frames`, that a
-- command leaves the places of the sessions, their clients, sockets and receiving rings as they are,
-- and makes a session invalid only by reserving it (`World/Frame`). `Network/Loop/Good` is the
-- invariant of the server that follows.
--
-- A function that changes globals is a command, `Server → Outcome (A × Server)`. A `__debugbreak()`, a
-- `throw` that nothing catches, a null pointer and an access outside an array are faults, the errors of
-- `Outcome`; what the program does after one is not modelled. Integers of the source are native natural
-- numbers, or the ℤ of `Base/Int` where they are signed (the counts that are printed, which are
-- `int`s, are kept by their patterns); a value in a packet is its bit pattern, and the
-- conversions to `SHORT`, `CHAR` and `DWORD` are written out. The packets go from the game to the rings
-- by `EnqPacketRB`, and from the rings through `PacketProc` to the game by the record `Callbacks`, which
-- is MiddleWare.h's set of function pointers.
--
-- Bounds: a ring has 10,001 bytes and holds 10,000; the map has 40 by 40 sectors; there are at most
-- 10,000 sessions. Four loops run on fuel. That of `RecvProc` takes at least three bytes out of the
-- receiving ring in each round that is followed by another: as much fuel as the ring holds bytes, and
-- one more, is enough. Those two of `NetworkProc` go over the sessions, whose number grows by at most
-- one with each `SelectProc`, and over the reserved ones, each of which is removed: `MAX_SESSION`
-- rounds and one more are enough. That of `LOG` doubles its buffer: as many rounds as the line needs
-- doublings, and one more. The loop of `main` runs for a list of rounds.
--
-- Not modelled: in Logger.cpp the files themselves (a file is the lines added to it), the allocations
-- in `InitLogger` and `ClearLogger`, the locks, and the two functions that nothing calls
-- (`TempBufferToFile` and `TempBufferToFileBinary`); in main.cpp the start and the end of the logger,
-- what is logged and what is printed; the second thread, beside `ServerControl` on its own, since it
-- shares only `g_bShutDown` and the log level with the first; MemoryPool.h and its DLLs (third party:
-- what a pool hands out is an argument); the calls of Winsock (their results are arguments); the debug
-- build's writes (`#ifdef _DEBUG`); the SIMD overload of `GetSectorAround` (it is not called).
pub mod Base
pub mod Memory
pub mod Ring
pub mod LinkedList
pub mod Serial
pub mod Position
pub mod Direction
pub mod Sector
pub mod Packets
pub mod World
pub mod Contents
pub mod Network
pub mod Main
pub mod Logger
