-- ===== src/Network/Loop/Tests.antt =====
-- The loop at concrete states.
use mmotcpfighter.Base.{ok, true, arith}
use mmotcpfighter.World.Frame.{Keeps-refl, returns}
use mmotcpfighter.Network.Callbacks.{Callbacks}
use mmotcpfighter.Network.Loop.{remove_reserved}
use mmotcpfighter.Network.Loop.Frame.{KeepsFrame}
use mmotcpfighter.Network.Loop.Remove.{ClearedOrFaulted, remove_reserved_clears}
use mmotcpfighter.Network.Game.Sample.{two, two-IsGood}

-- Callbacks that do nothing.
abbrev quiet : Callbacks
quiet = record {
  register_client = λ handle id s. ok (9, s);
  remove_client = λ _ s. ok (tt, s);
  packet_proc = λ _ _ s. ok (true, s);
}

quiet-KeepsFrame : KeepsFrame quiet
quiet-KeepsFrame = record {
  removes = λ c. record { at = λ s. returns (Keeps-refl s) };
  handles = λ c type. record { at = λ s. returns (Keeps-refl s) };
}

remove_reserved_clears_example : ClearedOrFaulted (λ k. quiet) (remove_reserved 3 (λ k. quiet) two)
remove_reserved_clears_example =
    remove_reserved_clears 3 (λ k. quiet) two (λ k. quiet-KeepsFrame) two-IsGood (omega arith)
