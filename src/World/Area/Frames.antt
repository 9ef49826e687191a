-- ===== src/World/Area/Frames.antt =====
-- The commands on sectors, by the frame rules.
use mmotcpfighter.Base.{
  ℕ, zero, suc, ◌+◌, ◌%◌, refl, List, [], ◌∷◌, ℤ, pos, negsuc, Settles, Settles-ok, Settles-err,
  debug_break-Settles, settling, arith, ltb, Bool-cases, inl, inr,
}
use mmotcpfighter.Position.{SectorPos}
use mmotcpfighter.Direction.{DirVector, sector_offsets, vectors, at}
use mmotcpfighter.Sector.{at_ℤ, grid_index, get_sector_move_dir}
use mmotcpfighter.LinkedList.{Ptr, Heap}
use mmotcpfighter.LinkedList.Settles.{link_last-Settles, unlink-Settles}
use mmotcpfighter.World.{SectorInfo, max_around}
use mmotcpfighter.World.Monad.{modify}
use mmotcpfighter.World.Frame.{
  Framed, Framed-pure, Framed-if, Framed-state, Framed-bind, Framed-lift, Framed-modify, Keeps-rest,
  faults, returns, frames,
}
use mmotcpfighter.World.Session.Frames.{load_client-Framed, is_network_state_invalid-Framed}
use mmotcpfighter.World.Area.{
  load_sector, store_sector, append_around, collect, get_valid_client_from_sector, around_from,
  get_around_valid_client, delta_from, get_delta_valid_client, add_client_at_sector,
  remove_client_at_sector,
}

grid_index-Settles : (sp : SectorPos) → Settles (grid_index sp)
unfolding grid_index
grid_index-Settles sp = record { apply = λ h. ground arith }

pub at-Settles : {A : Type 0} (xs : List A) (n : ℕ) → Settles (at xs n)
at-Settles [] n = Settles-err _ (λ h. cc)
at-Settles (x ∷ xs) zero = Settles-ok x
at-Settles (x ∷ xs) (suc n) = at-Settles xs n

at_ℤ-Settles : {A : Type 0} (xs : List A) (z : ℤ) → Settles (at_ℤ xs z)
at_ℤ-Settles xs (pos n) = at-Settles xs n
at_ℤ-Settles xs (negsuc _) = Settles-err _ (λ h. cc)

pub get_sector_move_dir-Settles : (a b : SectorPos) → Settles (get_sector_move_dir a b)
unfolding get_sector_move_dir
get_sector_move_dir-Settles a b = search (settling, at_ℤ-Settles, debug_break-Settles)

load_sector-Framed : (sp : SectorPos) → Framed (load_sector sp)
unfolding load_sector
load_sector-Framed sp = search (frames, Framed-lift, grid_index-Settles)

store_sector-Framed : (sp : SectorPos) (i : SectorInfo) → Framed (store_sector sp i)
unfolding store_sector
store_sector-Framed sp i =
    Framed-bind _ _ (Framed-lift _ (grid_index-Settles sp))
      (λ _. Framed-modify _ (λ s. Keeps-rest s _ refl refl refl refl refl))

append_around-Framed : (num : ℕ) (p : Ptr) → Framed (append_around num p)
unfolding append_around
append_around-Framed num p = elim (Bool-cases (ltb num max_around)) [
  | inl e ↦ record { at = λ s. rw e (returns (Keeps-rest s _ refl refl refl refl refl)) }
  | inr e ↦ record { at = λ s. rw e (faults (λ h. cc)) }
]

collect-Framed : (n : ℕ) (cur : Ptr) (num : ℕ) (except : Ptr) → Framed (collect n cur num except)
unfolding collect
collect-Framed zero cur num except = Framed-pure num
collect-Framed (suc n) cur num except =
    Framed-bind _ _ (load_client-Framed cur) (λ c.
      search (frames, is_network_state_invalid-Framed, append_around-Framed, collect-Framed n))

pub get_valid_client_from_sector-Framed :
    (sp : SectorPos) (num : ℕ) (except : Ptr) → Framed (get_valid_client_from_sector sp num except)
unfolding get_valid_client_from_sector
get_valid_client_from_sector-Framed sp num except =
    search (frames, load_sector-Framed, collect-Framed)

around_from-Framed :
    (vs : List DirVector) (sp : SectorPos) (num : ℕ) (except : Ptr)
    → Framed (around_from vs sp num except)
unfolding around_from
around_from-Framed [] sp num except = Framed-pure num
around_from-Framed (v ∷ vs) sp num except =
    Framed-bind _ _
      (Framed-if _ _ _ (get_valid_client_from_sector-Framed _ num except) (Framed-pure num))
      (λ num'. around_from-Framed vs sp num' except)

set_around_num-Framed :
    (n : ℕ)
    → Framed (modify (λ s. record s { around = record { num = n; clients = s.around.clients } }))
set_around_num-Framed n = Framed-modify _ (λ s. Keeps-rest s _ refl refl refl refl refl)

pub get_around_valid_client-Framed :
    (sp : SectorPos) (except : Ptr) → Framed (get_around_valid_client sp except)
unfolding get_around_valid_client
get_around_valid_client-Framed sp except =
    Framed-bind _ _ (around_from-Framed sector_offsets sp 0 except) (λ n. set_around_num-Framed n)

delta_from-Framed : (n dir : ℕ) (base : SectorPos) (num : ℕ) → Framed (delta_from n dir base num)
unfolding delta_from
delta_from-Framed zero dir base num = Framed-pure num
delta_from-Framed (suc n) dir base num =
    Framed-bind _ _ (Framed-lift _ (at-Settles vectors dir)) (λ v.
      Framed-bind _ _
        (Framed-if _ _ _ (get_valid_client_from_sector-Framed _ num _) (Framed-pure num))
        (λ num'. delta_from-Framed n ((dir + 1) % 8) base num'))

pub get_delta_valid_client-Framed :
    (dir n : ℕ) (base : SectorPos) → Framed (get_delta_valid_client dir n base)
unfolding get_delta_valid_client
get_delta_valid_client-Framed dir n base =
    Framed-bind _ _ (delta_from-Framed n dir base 0) (λ n. set_around_num-Framed n)

set_links-Framed : (h : Heap) → Framed (modify (λ s. record s { links = h }))
set_links-Framed h = Framed-modify _ (λ s. Keeps-rest s _ refl refl refl refl refl)

pub add_client_at_sector-Framed : (p : Ptr) (sp : SectorPos) → Framed (add_client_at_sector p sp)
unfolding add_client_at_sector
add_client_at_sector-Framed p sp = Framed-bind _ _ (load_sector-Framed sp) (λ info.
    Framed-bind _ _ Framed-state (λ s.
      Framed-bind _ _ (Framed-lift _ (link_last-Settles s.links info.links p))
        (λ r. search (frames, set_links-Framed, store_sector-Framed))))

pub remove_client_at_sector-Framed :
    (p : Ptr) (sp : SectorPos) → Framed (remove_client_at_sector p sp)
unfolding remove_client_at_sector
remove_client_at_sector-Framed p sp = Framed-bind _ _ (load_sector-Framed sp) (λ info.
    Framed-bind _ _ Framed-state (λ s.
      Framed-bind _ _ (Framed-lift _ (unlink-Settles s.links info.links p))
        (λ r. search (frames, set_links-Framed, store_sector-Framed))))
