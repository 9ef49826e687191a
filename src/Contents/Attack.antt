-- ===== src/Contents/Attack.antt =====
-- CSCContents.cpp and CSCContents.h, the attacks: who is hit, and who is told.
pub mod Frames
pub mod Reach
mod Tests
use mmotcpfighter.Base.{
  ℕ, zero, suc, ◌+◌, ◌/◌, Bool, true, false, not, ◌==◌, ◌&&◌, ◌||◌, List, [], ◌∷◌, ◌++◌, ltb,
  if◌then◌else◌, ℤ, pos, ◌+ℤ◌, ◌-ℤ◌, ltb_ℤ, eq_ℤ, div_ℤ, to_short, to_char, debug_break,
}
use mmotcpfighter.Position.{Pos, SectorPos}
use mmotcpfighter.Direction.{dir_ll, dir_rr}
use mmotcpfighter.Sector.{sector_pos, sector_width, sector_height, calc_sector, is_valid_sector}
use mmotcpfighter.Packets.{make_attack, make_damage, make_echo}
use mmotcpfighter.LinkedList.{Ptr, null}
use mmotcpfighter.World.{Client}
use mmotcpfighter.World.Monad.{
  Cmd, pure, ◌>>=◌, ◌>>◌, fault, state, modify, lift, load_client, store_client,
}
use mmotcpfighter.World.Session.{is_network_state_invalid}
use mmotcpfighter.World.Area.{get_around_valid_client, get_valid_client_from_sector}
use mmotcpfighter.World.Notify.{make_sb1, clear_sb1, send_sb1, each_around}

-- How far an attack reaches, up and down together and to one side.
pub record Range : Type 0 where
  pub y : ℕ
  pub x : ℕ

abbrev pub attack1_range : Range
attack1_range = record { y = 10; x = 80 }

abbrev pub attack3_range : Range
attack3_range = record { y = 20; x = 100 }

abbrev is_y_collide : Pos → Pos → Range → Bool
is_y_collide a v r = ltb_ℤ (a.y -ℤ pos (r.y / 2)) v.y && ltb_ℤ v.y (a.y +ℤ pos (r.y / 2))

unfoldable pub is_rr_collide : Pos → Pos → Range → Bool
is_rr_collide a v r = (ltb_ℤ a.x v.x && ltb_ℤ v.x (a.x +ℤ pos r.x)) && is_y_collide a v r

unfoldable pub is_ll_collide : Pos → Pos → Range → Bool
is_ll_collide a v r = (ltb_ℤ v.x a.x && ltb_ℤ (a.x -ℤ pos r.x) v.x) && is_y_collide a v r

abbrev pub to_sector : ℤ → ℤ
to_sector z = to_short (div_ℤ z 160)

-- The sectors above or below that the attack reaches into, given `temp.shY`; both where it also
-- reaches into the column `side`, one where it does not.
abbrev pub with_side : SectorPos → ℤ → ℤ → List SectorPos
with_side o side y =
    if is_valid_sector (sector_pos y o.x) && not (eq_ℤ o.y y)
    then sector_pos y o.x ∷ sector_pos y side ∷ []
    else []

abbrev pub without_side : SectorPos → ℤ → List SectorPos
without_side o y =
    if is_valid_sector (sector_pos y o.x) && not (eq_ℤ o.y y) then sector_pos y o.x ∷ [] else []

-- `HandleCollsion_HELPER`, whose two branches differ in the column that they look at.
unfoldable pub collision_sectors : Pos → ℕ → Range → List SectorPos
collision_sectors p view_dir r =
    let o = calc_sector p in
    let side =
      if view_dir == dir_ll then to_sector (p.x -ℤ pos r.x) else to_sector (p.x +ℤ pos r.x) in
    let up = to_sector (p.y +ℤ pos r.y) in
    let down = to_sector (p.y -ℤ pos r.y) in
    if is_valid_sector (sector_pos o.y side) && not (eq_ℤ o.x side)
    then o ∷ sector_pos o.y side ∷ (with_side o side up ++ with_side o side down)
    else o ∷ (without_side o up ++ without_side o down)

abbrev pub collides : ℕ → Pos → Pos → Range → Bool
collides view_dir a v r = if view_dir == dir_ll then is_ll_collide a v r else is_rr_collide a v r

-- The first of the `n` clients from index `j` on that is hit, or null.
first_hit : ℕ → ℕ → (Pos → Bool) → Cmd Ptr
first_hit zero j hits = pure null
first_hit (suc n) j hits = do
  s ← state
  c ← load_client (s.around.clients j)
  if hits c.position then pure (s.around.clients j) else first_hit n (j + 1) hits

-- The sectors one by one; each adds to the clients looked at, which are looked at again.
search_sectors : List SectorPos → ℕ → Ptr → (Pos → Bool) → Cmd Ptr
search_sectors [] num attacker hits = pure null
search_sectors (sp ∷ sps) num attacker hits = do
  num' ← get_valid_client_from_sector sp num attacker
  victim ← first_hit num' 0 hits
  if victim == null then search_sectors sps num' attacker hits else pure victim

-- The result is the victim, or null. The clients are collected into `g_AroundInfo`, from its start.
pub handle_collision : Ptr → Pos → ℕ → Range → Cmd Ptr
handle_collision attacker client_pos view_dir r =
    if not (view_dir == dir_ll) && not (view_dir == dir_rr)
    then fault debug_break
    else search_sectors (collision_sectors client_pos view_dir r) 0 attacker
        (λ v. collides view_dir client_pos v r)

-- One round of the loop that tells the damage: the state of the victim decides.
damage_round : Ptr → ℕ → Ptr → Cmd (Unit {0})
damage_round victim size p = do
  v ← load_client victim
  bad ← is_network_state_invalid v.handle
  if bad then pure tt else send_sb1 size p

-- The victim loses its points; those in `g_AroundInfo` and the attacker are told.
hit : Ptr → ℕ → Ptr → ℕ → Cmd Bool
hit client id victim damage = do
  store_client victim (λ v. record v { hp = to_char (v.hp -ℤ pos damage) })
  v ← load_client victim
  size ← make_sb1 (make_damage id v.id v.hp)
  each_around (damage_round victim size)
  send_sb1 size client
  clear_sb1
  pure true

-- What the three handlers share: `sent_dir` is the direction that is told, `hit_pos` the position
-- that the attack is made from.
attack : Ptr → Client → ℕ → ℕ → ℕ → Pos → Pos → Range → ℕ → Cmd Bool
attack client c num sent_dir view_dir client_pos hit_pos range damage = do
  get_around_valid_client (calc_sector client_pos) client
  size ← make_sb1 (make_attack c.id sent_dir client_pos num)
  each_around (send_sb1 size)
  clear_sb1
  victim ← handle_collision client hit_pos view_dir range
  if victim == null then pure false else hit client c.id victim damage

pub cs_attack1 : Ptr → ℕ → Pos → Cmd Bool
cs_attack1 client view_dir client_pos = do
  c ← load_client client
  bad ← is_network_state_invalid c.handle
  if bad
      then pure false
      else attack client c 1 c.view_dir view_dir client_pos client_pos attack1_range 1

-- The range is that of the first attack.
pub cs_attack2 : Ptr → ℕ → Pos → Cmd Bool
cs_attack2 client view_dir client_pos = do
  c ← load_client client
  bad ← is_network_state_invalid c.handle
  if bad
      then pure false
      else attack client c 2 view_dir view_dir client_pos c.position attack1_range 2

pub cs_attack3 : Ptr → ℕ → Pos → Cmd Bool
cs_attack3 client view_dir client_pos = do
  c ← load_client client
  bad ← is_network_state_invalid c.handle
  if bad
      then pure false
      else attack client c 3 c.view_dir view_dir client_pos c.position attack3_range 3

pub cs_echo : Ptr → ℕ → Cmd Bool
cs_echo client time = do
  c ← load_client client
  bad ← is_network_state_invalid c.handle
  let reply : Cmd Bool = do
    size ← make_sb1 (make_echo time)
    send_sb1 size client
    clear_sb1
    pure true
  if bad then pure false else reply
