-- ===== src/Contents/Tick/Frames.antt =====
-- `Update` by the frame rules. The session of a client that is dropped was valid.
use mmotcpfighter.Base.{
  ◌+◌, ◌%◌, ◌^◌, ℕ, ◌≡◌, ◌≢◌, ◌-◌, Bool, true, false, refl, List, [], ◌∷◌, ◌==◌, if◌then◌else◌,
  Bool-cases, inl, inr, ltb, leb_ℤ, pos, arith, ok,
}
use mmotcpfighter.Position.{Pos}
use mmotcpfighter.LinkedList.{Ptr}
use mmotcpfighter.Direction.{dir_nomove}
use mmotcpfighter.World.{Server, Client, invalid, max_session}
use mmotcpfighter.World.Monad.{Cmd, pure, store_client, load_session}
use mmotcpfighter.World.Frame.{
  Framed, Framed-pure, Framed-if, Framed-bind, Ends, Ends-trans, Ends-bind, Ends-if, Keeps-refl,
  Keeps-rest, faults, returns, frames,
}
use mmotcpfighter.World.Session.{
  session_at, is_network_state_invalid, get_last_recv_time, alert_session_of_client_invalid,
  reserve_session_disconnected,
}
use mmotcpfighter.World.Session.Frames.{
  load_client-Framed, store_client-Framed, is_network_state_invalid-Framed,
  get_last_recv_time-Framed, get_all_valid_client-Framed,
}
use mmotcpfighter.World.Session.Reserve.{reserve_at-Ends}
use mmotcpfighter.World.Area.Frames.{at-Settles}
use mmotcpfighter.Contents.Crossing.Frames.{messages}
use mmotcpfighter.Contents.Movement.Frames.{cross_if_moved-Framed}
use mmotcpfighter.Contents.Tick.{
  move_client, time_out_client, live_client, check_client, update_client, update_clients, update,
  time_out,
}

set_position-Framed :
    (p : Ptr) (to : Pos) → Framed (store_client p (λ c. record c { position = to }))
set_position-Framed p to = store_client-Framed p _ (λ c. refl)

move_client-Framed : (p : Ptr) (c : Client) → Framed (move_client p c)
unfolding move_client
move_client-Framed p c =
    search (frames, messages, at-Settles, cross_if_moved-Framed, set_position-Framed) depth 16

-- What the tests of a round read, and that they change nothing.
tested :
    (handle : ℕ) (s t : Server) (bad : Bool)
    → is_network_state_invalid handle s ≡ ok (bad, t)
    → (t ≡ s) × (bad ≡ false → (s.sessions (s.session_arr handle)).is_valid ≢ invalid)
unfolding is_network_state_invalid session_at load_session
tested handle s t bad e = (ground arith, λ h i. ground arith)

read_time :
    (handle : ℕ) (s t : Server) (last : ℕ) → get_last_recv_time handle s ≡ ok (last, t) → t ≡ s
unfolding get_last_recv_time session_at load_session
read_time handle s t last e = ground arith

module _ (handle : ℕ) (s : Server)
    (valid : (s.sessions (s.session_arr handle)).is_valid ≢ invalid) where
  alert-Ends : Ends s (alert_session_of_client_invalid handle s)
  unfolding alert_session_of_client_invalid session_at reserve_session_disconnected
  alert-Ends = elim (Bool-cases (ltb handle max_session)) [
    | inl e ↦ rw e (reserve_at-Ends s handle valid)
    | inr e ↦ rw e (faults (λ h. cc))
  ]

moved_to : {s t : Server} (m : Cmd (Unit {0})) → t ≡ s → Ends s (m s) → Ends t (m t)
moved_to m same e = rw same e

-- What is done where the test of the session says that it is valid.
if_valid :
    (m : Cmd (Unit {0})) (bad : Bool) (s : Server)
    → (bad ≡ false → Ends s (m s))
    → Ends s ((if bad then pure tt else m) s)
if_valid m true s h = returns (Keeps-refl s)
if_valid m false s h = h refl

module _ (c : Client) (s : Server)
    (valid : (s.sessions (s.session_arr c.handle)).is_valid ≢ invalid) where
  time_out_client-Ends : Ends s (time_out_client c s)
  unfolding time_out_client
  time_out_client-Ends =
      let t : Server = record s { discon_by_timeout = (s.discon_by_timeout + 1) % 2 ^ 32 } in
      Ends-trans _ (Keeps-rest s t refl refl refl refl refl) (alert-Ends c.handle t valid)

live_client-Ends :
    (p : Ptr) (c : Client) (s : Server)
    → (s.sessions (s.session_arr c.handle)).is_valid ≢ invalid
    → Ends s (live_client p c s)
unfolding live_client
live_client-Ends p c s valid =
    Ends-if (leb_ℤ c.hp (pos 0)) (alert_session_of_client_invalid c.handle) _ s
      (alert-Ends c.handle s valid)
      ((Framed-if (c.move_dir == dir_nomove) (pure tt) (move_client p c) (Framed-pure tt)
          (move_client-Framed p c)).at
        s)

check_client-Ends :
    (now : ℕ) (p : Ptr) (c : Client) (s : Server)
    → (s.sessions (s.session_arr c.handle)).is_valid ≢ invalid
    → Ends s (check_client now p c s)
unfolding check_client
check_client-Ends now p c s valid =
    Ends-bind s (get_last_recv_time c.handle) _ ((get_last_recv_time-Framed c.handle).at s)
      (λ last t e.
        moved_to
          (if ltb time_out ((now + 2 ^ 32 - last) % 2 ^ 32)
            then time_out_client c
            else live_client p c)
          (read_time c.handle s t last e)
          (Ends-if (ltb time_out ((now + 2 ^ 32 - last) % 2 ^ 32)) (time_out_client c)
            (live_client p c) s (time_out_client-Ends c s valid) (live_client-Ends p c s valid)))

update_client-Framed : (now : ℕ) (p : Ptr) → Framed (update_client now p)
unfolding update_client
update_client-Framed now p = Framed-bind _ _ (load_client-Framed p) (λ c. record {
  at = λ s.
      Ends-bind s (is_network_state_invalid c.handle) _
        ((is_network_state_invalid-Framed c.handle).at s)
        (λ bad t e.
          let (same, valid) = tested c.handle s t bad e in
          moved_to (if bad then pure tt else check_client now p c) same (
            if_valid (check_client now p c) bad s
              (λ good. check_client-Ends now p c s (valid good))));
})

update_clients-Framed : (clock : ℕ → ℕ) (i : ℕ) (ps : List Ptr) → Framed (update_clients clock i ps)
unfolding update_clients
update_clients-Framed clock i [] = Framed-pure tt
update_clients-Framed clock i (p ∷ ps) =
    Framed-bind _ _ (update_client-Framed (clock i) p) (λ _. update_clients-Framed clock (i + 1) ps)

pub update-Framed : (clock : ℕ → ℕ) → Framed (update clock)
unfolding update
update-Framed clock = search (frames, get_all_valid_client-Framed, update_clients-Framed)
