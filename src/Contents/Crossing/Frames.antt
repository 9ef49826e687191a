-- ===== src/Contents/Crossing/Frames.antt =====
-- `SectorUpdateAndNotify` by the frame rules.
use mmotcpfighter.Base.{ℕ, Bool, refl}
use mmotcpfighter.Position.{SectorPos}
use mmotcpfighter.Direction.{remove_dirs}
use mmotcpfighter.Packets.Settles.{makes_settle}
use mmotcpfighter.LinkedList.{Ptr}
use mmotcpfighter.World.{Client}
use mmotcpfighter.World.Monad.{store_client}
use mmotcpfighter.World.Frame.{
  Framed, Framed-pure, Framed-if, Framed-state, Framed-bind, Framed-lift, frames,
}
use mmotcpfighter.World.Session.Frames.{load_client-Framed, store_client-Framed}
use mmotcpfighter.World.Notify.Frames.{
  make_sb1-Framed, make_sb2-Framed, clear_sb1-Framed, clear_sb2-Framed, send_sb1-Framed,
  send_sb2-Framed, sum_around-Framed,
}
use mmotcpfighter.World.Area.Frames.{
  at-Settles, get_delta_valid_client-Framed, add_client_at_sector-Framed,
  remove_client_at_sector-Framed,
}
use mmotcpfighter.Contents.Crossing.{
  delete_round, notify_removed, introduce_sb2, create_round, notify_added, sector_update_and_notify,
}

pub ruleset messages = (
  load_client-Framed, make_sb1-Framed, make_sb2-Framed, clear_sb1-Framed, clear_sb2-Framed,
  send_sb1-Framed, send_sb2-Framed, sum_around-Framed, Framed-lift,
)

delete_round-Framed : (size : ℕ) (p : Ptr) → Framed (delete_round size p)
unfolding delete_round
delete_round-Framed size p = search (frames, messages, makes_settle) depth 16

notify_removed-Framed : (p : Ptr) (id : ℕ) → Framed (notify_removed p id)
unfolding notify_removed
notify_removed-Framed p id = search (frames, messages, makes_settle, delete_round-Framed) depth 16

pub introduce_sb2-Framed : (o : Client) → Framed (introduce_sb2 o)
unfolding introduce_sb2
introduce_sb2-Framed o = search (frames, messages, makes_settle) depth 16

create_round-Framed : (size : ℕ) (p : Ptr) → Framed (create_round size p)
unfolding create_round
create_round-Framed size p = search (frames, messages, introduce_sb2-Framed) depth 16

set_sectors-Framed :
    (p : Ptr) (old_sector new_sector : SectorPos)
    → Framed (store_client p (λ c. record c { old_sector = old_sector; cur_sector = new_sector }))
set_sectors-Framed p old_sector new_sector = store_client-Framed p _ (λ c. refl)

notify_added-Framed :
    (p : Ptr) (c : Client) (old_sector new_sector : SectorPos) (is_move : Bool)
    → Framed (notify_added p c old_sector new_sector is_move)
unfolding notify_added
notify_added-Framed p c old_sector new_sector is_move =
    search (frames, messages, makes_settle, create_round-Framed, set_sectors-Framed) depth 40

pub sector_update_and_notify-Framed :
    (p : Ptr) (dir : ℕ) (old_sector new_sector : SectorPos) (is_move : Bool)
    → Framed (sector_update_and_notify p dir old_sector new_sector is_move)
unfolding sector_update_and_notify
sector_update_and_notify-Framed p dir old_sector new_sector is_move =
    Framed-bind _ _ (load_client-Framed p) (λ c.
      Framed-bind _ _ (remove_client_at_sector-Framed p old_sector) (λ _.
        Framed-bind _ _ (add_client_at_sector-Framed p new_sector) (λ _.
          Framed-bind _ _ (Framed-lift _ (at-Settles remove_dirs dir)) (λ remove_dir.
            search
              (
                frames, messages, at-Settles, get_delta_valid_client-Framed, notify_removed-Framed,
                notify_added-Framed,
              )
              depth 24))))
