-- ===== src/Contents/Attack/Frames.antt =====
-- The attacks and the echo, by the frame rules.
use mmotcpfighter.Base.{
  ℕ, zero, suc, ◌+◌, Bool, refl, List, [], ◌∷◌, debug_break, pos, ◌-ℤ◌, to_char,
}
use mmotcpfighter.Position.{Pos, SectorPos}
use mmotcpfighter.Sector.{calc_sector}
use mmotcpfighter.Packets.Settles.{makes_settle}
use mmotcpfighter.LinkedList.{Ptr, null}
use mmotcpfighter.World.{Client}
use mmotcpfighter.World.Monad.{fault, store_client}
use mmotcpfighter.World.Frame.{
  Framed, Framed-pure, Framed-if, Framed-state, Framed-bind, Framed-fault, frames,
}
use mmotcpfighter.World.Session.Frames.{
  load_client-Framed, store_client-Framed, is_network_state_invalid-Framed,
}
use mmotcpfighter.World.Notify.Frames.{each_around-Framed}
use mmotcpfighter.World.Area.Frames.{
  get_around_valid_client-Framed, get_valid_client_from_sector-Framed,
}
use mmotcpfighter.Contents.Crossing.Frames.{messages}
use mmotcpfighter.Contents.Attack.{
  Range, first_hit, search_sectors, handle_collision, damage_round, hit, attack, cs_attack1,
  cs_attack2, cs_attack3, cs_echo,
}

first_hit-Framed : (n j : ℕ) (hits : Pos → Bool) → Framed (first_hit n j hits)
unfolding first_hit
first_hit-Framed zero j hits = Framed-pure null
first_hit-Framed (suc n) j hits = Framed-bind _ _ Framed-state (λ s.
    Framed-bind _ _ (load_client-Framed (s.around.clients j))
      (λ c. Framed-if _ _ _ (Framed-pure _) (first_hit-Framed n (j + 1) hits)))

search_sectors-Framed :
    (sps : List SectorPos) (num : ℕ) (attacker : Ptr) (hits : Pos → Bool)
    → Framed (search_sectors sps num attacker hits)
unfolding search_sectors
search_sectors-Framed [] num attacker hits = Framed-pure null
search_sectors-Framed (sp ∷ sps) num attacker hits =
    Framed-bind _ _ (get_valid_client_from_sector-Framed sp num attacker) (λ num'.
      Framed-bind _ _ (first_hit-Framed num' 0 hits) (λ victim.
        Framed-if _ _ _ (search_sectors-Framed sps num' attacker hits) (Framed-pure victim)))

pub break-Framed : {A : Type 0} → Framed (fault {A = A} debug_break)
break-Framed = Framed-fault debug_break (λ h. cc)

handle_collision-Framed :
    (attacker : Ptr) (place : Pos) (dir : ℕ) (r : Range)
    → Framed (handle_collision attacker place dir r)
unfolding handle_collision
handle_collision-Framed attacker place dir r =
    search (frames, break-Framed, search_sectors-Framed) depth 16

damage_round-Framed : (victim : Ptr) (size : ℕ) (p : Ptr) → Framed (damage_round victim size p)
unfolding damage_round
damage_round-Framed victim size p =
    search (frames, messages, is_network_state_invalid-Framed) depth 16

set_hp-Framed :
    (p : Ptr) (damage : ℕ)
    → Framed (store_client p (λ v. record v { hp = to_char (v.hp -ℤ pos damage) }))
set_hp-Framed p damage = store_client-Framed p _ (λ c. refl)

hit-Framed : (p : Ptr) (id : ℕ) (victim : Ptr) (damage : ℕ) → Framed (hit p id victim damage)
unfolding hit
hit-Framed p id victim damage =
    search (frames, messages, makes_settle, set_hp-Framed, each_around-Framed, damage_round-Framed)
      depth 16

attack-Framed :
    (p : Ptr) (c : Client) (num sent_dir view_dir : ℕ) (at hit_pos : Pos) (r : Range) (damage : ℕ)
    → Framed (attack p c num sent_dir view_dir at hit_pos r damage)
unfolding attack
attack-Framed p c num sent_dir view_dir at hit_pos r damage =
    Framed-bind _ _ (get_around_valid_client-Framed (calc_sector at) p) (λ _.
      search
        (frames, messages, makes_settle, each_around-Framed, handle_collision-Framed, hit-Framed)
        depth 24)

module _ (p : Ptr) (dir : ℕ) (place : Pos) where
  pub cs_attack1-Framed : Framed (cs_attack1 p dir place)
  unfolding cs_attack1
  cs_attack1-Framed =
      search (frames, messages, is_network_state_invalid-Framed, attack-Framed) depth 40

  pub cs_attack2-Framed : Framed (cs_attack2 p dir place)
  unfolding cs_attack2
  cs_attack2-Framed =
      search (frames, messages, is_network_state_invalid-Framed, attack-Framed) depth 16

  pub cs_attack3-Framed : Framed (cs_attack3 p dir place)
  unfolding cs_attack3
  cs_attack3-Framed =
      search (frames, messages, is_network_state_invalid-Framed, attack-Framed) depth 16

pub cs_echo-Framed : (p : Ptr) (time : ℕ) → Framed (cs_echo p time)
unfolding cs_echo
cs_echo-Framed p time =
    search (frames, messages, makes_settle, is_network_state_invalid-Framed) depth 16
