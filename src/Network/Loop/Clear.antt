-- ===== src/Network/Loop/Clear.antt =====
-- `ClearSessionInfo`.
use mmotcpfighter.Base.{ℕ, zero, suc, ◌+◌}
use mmotcpfighter.World.Frame.{Framed, Framed-pure, Framed-bind, Framed-state}
use mmotcpfighter.World.Session.Frames.{session_at-Framed, load_session-Framed}
use mmotcpfighter.Network.Callbacks.{Callbacks}
use mmotcpfighter.Network.Loop.{clear_from, clear_session_info}
use mmotcpfighter.Network.Loop.Frame.{KeepsFrame}

module _ (cb : ℕ → Callbacks) (keeps : (k : ℕ) → KeepsFrame (cb k)) where
  clear_from-Framed : (n i : ℕ) → Framed (clear_from cb n i)
  unfolding clear_from
  clear_from-Framed zero i = Framed-pure tt
  clear_from-Framed (suc n) i = Framed-bind _ _ (session_at-Framed i) (λ p.
      Framed-bind _ _ (load_session-Framed p)
        (λ sd. Framed-bind _ _ ((keeps i).removes sd.client) (λ _. clear_from-Framed n (i + 1))))

  pub clear_session_info-Framed : Framed (clear_session_info cb)
  unfolding clear_session_info
  clear_session_info-Framed = Framed-bind _ _ Framed-state (λ s. clear_from-Framed s.session_num 0)
