-- ===== src/World/Area/Around.antt =====
-- `GetAroundValidClient` and `GetDeltaValidClient`: which clients they find.
use mmotcpfighter.Base.{
  ℕ, zero, suc, ◌+◌, ◌≤◌, ◌≡◌, refl, ap, ◌∙◌, List, [], ◌∷◌, ◌++◌, if◌then◌else◌, length,
  length-append, Outcome, ok, err, ◌>>=◌, ◌%◌, Bool-cases, inl, inr, arith,
}
use mmotcpfighter.Position.{SectorPos}
use mmotcpfighter.Direction.{DirVector, sector_offsets, vectors, at}
use mmotcpfighter.Sector.{is_valid_sector, offset_sector, get_delta_sector}
use mmotcpfighter.LinkedList.{Ptr, null}
use mmotcpfighter.World.{Server, max_around}
use mmotcpfighter.World.Monad.{Cmd, resume}
use mmotcpfighter.World.Area.{
  get_valid_client_from_sector, around_from, get_around_valid_client, delta_from,
  get_delta_valid_client,
}
use mmotcpfighter.World.Area.Members.{
  filter-append, written, written-append, found, finds, is_wanted, wanted, Holds, AllHeld,
  get_valid_client_from_sector-wanted,
}

ok_of_bind :
    {A B : Type 0} (o : Outcome A) (k : A → Outcome B) (b : B)
    → (o >>= k) ≡ ok b
    → (a : A) × (o ≡ ok a) × (k a ≡ ok b)
ok_of_bind (err f) k b e = absurd (cc)
ok_of_bind (ok a) k b e = (a, refl, e)

-- Those of some sectors, one after the other.
abbrev pub of_sectors : (SectorPos → List Ptr) → List SectorPos → List Ptr
of_sectors members [] = []
of_sectors members (sp ∷ sps) = members sp ++ of_sectors members sps

-- The sectors of the map at some offsets from a sector.
abbrev pub sectors_at : SectorPos → List DirVector → List SectorPos
sectors_at sp [] = []
sectors_at sp (v ∷ vs) =
    let rest = sectors_at sp vs in
    if is_valid_sector (offset_sector sp v) then offset_sector sp v ∷ rest else rest

-- What is found first and what is found then, together.
found-append :
    (s : Server) (num : ℕ) (ps qs : List Ptr)
    → finds (found s num ps) (num + length ps) qs ≡ finds s num (ps ++ qs)
found-append s num ps qs =
    let e : num + (length ps + length qs) ≡ num + length ps + length qs = omega arith in
    rw (length-append ps qs, written-append s.around.clients num ps qs, e) refl

module _ (members : SectorPos → List Ptr) where
  -- The clients found in one more sector, and then those in the rest.
  then_rest :
      (rest : ℕ → Cmd ℕ) (sp : SectorPos) (num : ℕ) (except : Ptr) (s : Server)
      (sps : List SectorPos)
      → Holds s sp (members sp)
      → num + length (wanted s except (members sp ++ of_sectors members sps)) ≤ max_around
      → ((n : ℕ)
          → n + length (wanted s except (of_sectors members sps)) ≤ max_around
          → rest n (found s num (wanted s except (members sp)))
            ≡ finds
                (found s num (wanted s except (members sp)))
                n
                (wanted s except (of_sectors members sps)))
      → resume rest (get_valid_client_from_sector sp num except s)
        ≡ finds s num (wanted s except (members sp ++ of_sectors members sps))
  then_rest rest sp num except s sps holds room next =
      let first_ones : List Ptr = wanted s except (members sp) in
      let others : List Ptr = wanted s except (of_sectors members sps) in
      let both : wanted s except (members sp ++ of_sectors members sps) ≡ first_ones ++ others =
        filter-append (λ p. is_wanted s except p) (members sp) (of_sectors members sps) in
      let size : length (first_ones ++ others) ≡ length first_ones + length others =
        length-append first_ones others in
      let total : num + length (first_ones ++ others) ≤ max_around = rw both at room in
      rw
        (both, get_valid_client_from_sector-wanted sp num except s (members sp) holds (omega arith))
        (next (num + length first_ones) (omega arith) ∙ found-append s num first_ones others)

  around_from-wanted :
      (vs : List DirVector) (sp : SectorPos) (num : ℕ) (except : Ptr) (s : Server)
      → AllHeld s members
      → num + length (wanted s except (of_sectors members (sectors_at sp vs))) ≤ max_around
      → around_from vs sp num except s
        ≡ finds s num (wanted s except (of_sectors members (sectors_at sp vs)))
  unfolding around_from
  around_from-wanted [] sp num except s held room = ap (λ n. ok (n, s)) (omega arith)
  around_from-wanted (v ∷ vs) sp num except s held room =
      elim (Bool-cases (is_valid_sector (offset_sector sp v))) [
        | inl there ↦
            let some_room = rw there at room in
            rw there (
              then_rest _ (offset_sector sp v) num except s (sectors_at sp vs)
                (held (offset_sector sp v) there) some_room
                (λ n enough.
                  around_from-wanted vs sp n except
                    (found s num (wanted s except (members (offset_sector sp v)))) held enough))
        | inr outside ↦
            let less = rw outside at room in
            rw outside (around_from-wanted vs sp num except s held less)
      ]

  -- `GetAroundValidClient`, by the table of offsets.
  pub get_around_valid_client-found :
      (sp : SectorPos) (except : Ptr) (s : Server)
      → AllHeld s members
      → length (wanted s except (of_sectors members (sectors_at sp sector_offsets))) ≤ max_around
      → get_around_valid_client sp except s
        ≡ ok (
          tt,
          record s {
            around = record {
              num = length (wanted s except (of_sectors members (sectors_at sp sector_offsets)));
              clients =
                  written s.around.clients 0
                    (wanted s except (of_sectors members (sectors_at sp sector_offsets)));
            };
          },
        )
  unfolding get_around_valid_client
  get_around_valid_client-found sp except s held room =
      let ps : List Ptr = wanted s except (of_sectors members (sectors_at sp sector_offsets)) in
      let e : 0 + length ps ≡ length ps = omega arith in
      rw (around_from-wanted sector_offsets sp 0 except s held (omega arith), e) refl

  delta_from-wanted :
      (n dir : ℕ) (base : SectorPos) (num : ℕ) (s : Server) (sps : List SectorPos)
      → AllHeld s members
      → get_delta_sector n base dir ≡ ok sps
      → num + length (wanted s null (of_sectors members sps)) ≤ max_around
      → delta_from n dir base num s ≡ finds s num (wanted s null (of_sectors members sps))
  unfolding delta_from get_delta_sector
  delta_from-wanted zero dir base num s [] held e room = ap (λ n. ok (n, s)) (omega arith)
  delta_from-wanted zero dir base num s (sp ∷ sps) held e room = absurd (cc)
  delta_from-wanted (suc n) dir base num s sps held e room =
      let (v, vector, e') = ok_of_bind (at vectors dir) _ sps e in
      let (rest, others, e'') = ok_of_bind (get_delta_sector n base ((dir + 1) % 8)) _ sps e' in
      elim (Bool-cases (is_valid_sector (offset_sector base v))) [
        | inl there ↦
            let same : sps ≡ offset_sector base v ∷ rest = let last = rw there at e'' in cc in
            let some_room = rw same at room in
            rw (vector, there, same)
              (then_rest _ (offset_sector base v) num null s rest
                (held (offset_sector base v) there) some_room
                (λ m enough.
                  delta_from-wanted n ((dir + 1) % 8) base m
                    (found s num (wanted s null (members (offset_sector base v)))) rest held others
                    enough))
        | inr outside ↦
            let same : sps ≡ rest = let last = rw outside at e'' in cc in
            let less = rw same at room in
            rw (vector, outside, same)
              (delta_from-wanted n ((dir + 1) % 8) base num s rest held others less)
      ]

  -- `GetDeltaValidClient`, where the lists of the sectors are as they should be, `GetDeltaSector` returns and the clients
  -- found are not too many for the array: it returns without a fault, and what is in the array is exactly the clients of the sectors that
  -- `GetDeltaSector` finds, in its order, less those whose session is invalid. Nothing else changes.
  pub get_delta_valid_client-wanted :
      (base_dir n : ℕ) (base : SectorPos) (s : Server) (sps : List SectorPos)
      → AllHeld s members
      → get_delta_sector n base base_dir ≡ ok sps
      → length (wanted s null (of_sectors members sps)) ≤ max_around
      → get_delta_valid_client base_dir n base s
        ≡ ok (
          tt,
          record s {
            around = record {
              num = length (wanted s null (of_sectors members sps));
              clients = written s.around.clients 0 (wanted s null (of_sectors members sps));
            };
          },
        )
  unfolding get_delta_valid_client
  get_delta_valid_client-wanted base_dir n base s sps held e room =
      let ps : List Ptr = wanted s null (of_sectors members sps) in
      let sum : 0 + length ps ≡ length ps = omega arith in
      rw (delta_from-wanted n base_dir base 0 s sps held e (omega arith), sum) refl
