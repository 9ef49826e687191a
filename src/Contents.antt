-- ===== src/Contents.antt =====
-- The game: what the server does with a client's packets and with the passing of time.
--
-- `Crossing` is `SectorUpdateAndNotify` of Update.cpp, `Movement` and `Attack` are the handlers of
-- CSCContents.cpp, `Tick` is `Update` of Update.cpp, `Players` is CallBack.cpp.
pub mod Crossing
pub mod Movement
pub mod Attack
pub mod Players
pub mod Tick
