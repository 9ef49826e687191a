-- ===== src/Contents/Movement/Sync.antt =====
-- `IsSync`, and what follows for a client that claims another column.
use mmotcpfighter.Base.{
  ℕ, ◌+◌, ◌≤◌, ◌<◌, ◌≡◌, ◌≢◌, refl, ◌∙◌, false, ltb, ℤ, div_ℤ, ◌/◌, ◌-ℤ◌, nat_abs, arith, ne→not_==,
  lt→ltb, err, out_of_bounds,
}
use mmotcpfighter.Position.{at_yx, Pos}
use mmotcpfighter.Sector.{calc_sector, is_same_sector, get_sector_move_dir}
use mmotcpfighter.Sector.Move.{IsNear, get_sector_move_dir_fails}
use mmotcpfighter.LinkedList.{Ptr, null}
use mmotcpfighter.World.{Server, max_session, invalid}
use mmotcpfighter.World.Monad.{load_client, store_client, load_session}
use mmotcpfighter.World.Session.{is_network_state_invalid, session_at}
use mmotcpfighter.Contents.Movement.{
  error_range, is_sync, cs_move_start, start_valid, resync, cross_if_moved,
}

nothing_off : (x : ℤ) → nat_abs (x -ℤ x) ≡ 0
unfolding ◌-ℤ◌
nothing_off x = ground arith

-- `IsSync` finds out whether the rows of two positions are more than 50 apart, whatever the columns.
pub is_sync-rows : (p q : Pos) → is_sync p q ≡ ltb error_range (nat_abs (p.y -ℤ q.y))
unfolding is_sync
is_sync-rows p q = rw (nothing_off p.x) refl

is_sync_near :
    (y x y' x' : ℕ) → y ≤ y' + 50 → y' ≤ y + 50 → is_sync (at_yx y x) (at_yx y' x') ≡ false
unfolding ◌-ℤ◌
is_sync_near y x y' x' h k = is_sync-rows (at_yx y x) (at_yx y' x') ∙ ground arith

sectors_apart :
    (y x y' x' : ℕ)
    → ¬ IsNear (x / 160) (x' / 160)
    → is_same_sector (calc_sector (at_yx y x)) (calc_sector (at_yx y' x')) ≡ false
unfolding calc_sector div_ℤ
sectors_apart y x y' x' far = ground arith

move_dir_apart :
    (y x y' x' : ℕ)
    → y < 6400
    → x < 6400
    → y' < 6400
    → x' < 6400
    → ¬ IsNear (x / 160) (x' / 160)
    → get_sector_move_dir (calc_sector (at_yx y x)) (calc_sector (at_yx y' x')) ≡ err out_of_bounds
unfolding calc_sector div_ℤ
move_dir_apart y x y' x' hy hx hy' hx' far =
    (get_sector_move_dir_fails (y / 160) (x / 160) (y' / 160) (x' / 160) (omega arith) (omega arith)
        (omega arith) (omega arith)).1
      (λ h. far h.1)

module _ (s : Server) (client : Ptr) (move_dir y x y' x' : ℕ) (not_null : client ≢ null)
    (in_range : (s.clients client).handle < max_session)
    (session_not_null : s.session_arr (s.clients client).handle ≢ null)
    (valid : (s.sessions (s.session_arr (s.clients client).handle)).is_valid ≢ invalid)
    (here : (s.clients client).position ≡ at_yx y x) (hy : y < 6400) (hx : x < 6400)
    (hy' : y' < 6400) (hx' : x' < 6400) (above : y ≤ y' + 50) (below : y' ≤ y + 50)
    (far : ¬ IsNear (x / 160) (x' / 160)) where
  -- A valid client on the map that starts to walk, and claims a position on the map at most 50 rows off
  -- but more than one column of sectors away, makes `CS_MOVE_START` read outside the table of
  -- directions.
  pub cs_move_start_far : cs_move_start client move_dir (at_yx y' x') s ≡ err out_of_bounds
  unfolding cs_move_start start_valid resync cross_if_moved load_client store_client
      is_network_state_invalid session_at load_session
  cs_move_start_far =
      rw
        (
          ne→not_== _ _ not_null,
          lt→ltb _ _ in_range,
          ne→not_== _ _ session_not_null,
          ne→not_== _ _ valid,
          ne→not_== _ _ not_null,
          here,
          is_sync_near y x y' x' above below,
          sectors_apart y x y' x' far,
          move_dir_apart y x y' x' hy hx hy' hx' far,
        )
        refl
