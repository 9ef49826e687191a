-- ===== src/Main/Serve.antt =====
-- The server from its start to its end: the loop and then `ClearSessionInfo`.
use mmotcpfighter.Base.{
  ◌%◌, ◌^◌, ℕ, ◌+◌, ◌<◌, ◌≡◌, ◌≢◌, refl, ap, ◌∙◌, subst, Bool, List, [], ◌∷◌, Bool-cases, inl, inr,
  ◌⊎◌, Outcome, ok, err, Fault, out_of_fuel, arith,
}
use mmotcpfighter.Ring.{buffer_size}
use mmotcpfighter.LinkedList.{null}
use mmotcpfighter.World.{Server, invalid, max_session}
use mmotcpfighter.World.Monad.{Cmd, resume}
use mmotcpfighter.World.Frame.{Framed, Framed-if, Framed-pure, Ends, faults, returns}
use mmotcpfighter.Contents.Tick.Frames.{update-Framed}
use mmotcpfighter.Network.Callbacks.{game}
use mmotcpfighter.Network.Loop.Clear.{clear_session_info-Framed}
use mmotcpfighter.Network.Loop.Good.{IsGood, Keeps-IsGood}
use mmotcpfighter.Network.Loop.Ends.{ServedOrFaulted}
use mmotcpfighter.Network.Game.{game-KeepsFrame}
use mmotcpfighter.Network.Game.Platform.{IsHonest, game-network_proc_ends}
use mmotcpfighter.Main.{FrameState, Round, frame_step, fps_step, start_frames, server_loop, serve}

-- How a part of the server ends: by a fault, which is not that of too little fuel, or in a good state.
data Runs {A : Type 0} : Outcome (A × Server) → Type 0 where
  stops : {f : Fault} → f ≢ out_of_fuel → Runs (err f)
  runs : {a : A} {t : Server} → IsGood t → Runs (ok (a, t))

Runs-resume :
    {A B : Type 0} (k : A → Cmd B) (o : Outcome (A × Server))
    → Runs o
    → ((a : A) (t : Server) → IsGood t → Runs (k a t))
    → Runs (resume k o)
Runs-resume k (err f) (stops h) rest = stops h
Runs-resume k (ok (a, t)) (runs g) rest = rest a t g

Framed-Runs : {A : Type 0} (m : Cmd A) (s : Server) → Framed m → IsGood s → Runs (m s)
Framed-Runs {A} m s framed g = go (m s) (framed.at s)
  where
    go : (o : Outcome (A × Server)) → Ends s o → Runs o
    go (err f) (faults h) = stops h
    go (ok (a, t)) (returns k) = runs (Keeps-IsGood k g)

served : (o : Outcome (Bool × Server)) → ServedOrFaulted o → Runs o
served (err f) (inl (f', e, other)) = stops (λ h. other (ground arith))
served (err f) (inr (t, e, valid)) = absurd (ground arith)
served (ok (b, t)) (inl (f', e, other)) = absurd (ground arith)
served (ok (b, t)) (inr (t', e, valid)) =
    let same : t' ≡ t = ground arith in runs (subst IsGood same valid.good)

-- In every round, what is outside the program can be relied on.
abbrev pub AllHonest : List Round → Type 0
AllHonest [] = Unit {0}
AllHonest (r ∷ rs) = ((k : ℕ) → IsHonest (r.platforms k)) × AllHonest rs

-- The server before any connection has come: no session, and every entry of the array null.
pub record IsStarted (s : Server) : Type 0 where
  pub none : s.session_num ≡ 0
  pub empty : (i : ℕ) → s.session_arr i ≡ null
  pub none_reserved : s.discon ≡ []
  pub off : (s.sessions null).is_valid ≡ invalid

pub IsStarted-IsGood : {s : Server} → IsStarted s → IsGood s
IsStarted-IsGood {s} h = record {
  consistent = record {
    bounded = omega (arith, h.none);
    session_there = λ i lt. absurd (omega (arith, h.none));
    client_there = λ i lt. absurd (omega (arith, h.none));
    agree = λ i lt. absurd (omega (arith, h.none));
  };
  reserved = rw h.none_reserved (record {
    once = tt;
    off = λ p there. cc;
    listed = λ i lt. absurd (omega (arith, h.none));
    placed = λ p there. cc;
    live = λ i on. absurd (on (ap (λ p. (s.sessions p).is_valid) (h.empty i) ∙ h.off));
  });
  rings = λ p (i, lt, e). absurd (omega (arith, h.none));
}

split :
    (o : Outcome (Unit {0} × Server))
    → Runs o
    → ((f : Fault) × (o ≡ err f) × (f ≢ out_of_fuel)) ⊎ ((t : Server) × (o ≡ ok (tt, t)) × IsGood t)
split (err f) (stops h) = inl (f, refl, h)
split (ok (u, t)) (runs g) = inr (t, refl, g)

module _ (fuel rounds listen : ℕ) (enough : buffer_size < fuel)
    (enough_rounds : max_session < rounds) where
  server_loop-Runs :
      (rs : List Round) (f : FrameState) (s : Server)
      → AllHonest rs
      → IsGood s
      → Runs (server_loop fuel rounds listen rs f s)
  unfolding server_loop
  server_loop-Runs [] f s honest g = runs g
  server_loop-Runs (r ∷ rs) f s honest g = elim (Bool-cases r.shut_down) [
    | inl over ↦ rw over (runs g)
    | inr on ↦ rw on (
        Runs-resume _ _
          (served _ (
            game-network_proc_ends fuel rounds listen r.platforms r.stack s enough enough_rounds
              honest.0 g))
          (λ b t gt.
            let step =
              frame_step r.now (record f { network_loop = (f.network_loop + 1) % 2 ^ 32 }) in
            Runs-resume _ _
              (Framed-Runs _ t (Framed-if step.0 _ _ (update-Framed r.clock) (Framed-pure tt)) gt)
              (λ u v gv. server_loop-Runs rs (fps_step step.1) v honest.1 gv)))
  ]

  -- The server from its start to its end, for as many rounds as are given, where what is outside the program can be relied
  -- on, with fuel above `BUFFER_SIZE` and more rounds than `MAX_SESSION` for the loops within a round: it does not
  -- run out of fuel, and where it does not fault it ends in a good state.
  pub serve_ends :
      (now : ℕ) (rs : List Round) (s : Server)
      → IsStarted s
      → AllHonest rs
      → ((f : Fault) × (serve fuel rounds listen now rs s ≡ err f) × (f ≢ out_of_fuel))
        ⊎ ((t : Server) × (serve fuel rounds listen now rs s ≡ ok (tt, t)) × IsGood t)
  unfolding serve
  serve_ends now rs s start honest = split _ (
      Runs-resume _ _ (server_loop-Runs rs (start_frames now) s honest (IsStarted-IsGood start))
        (λ a t g.
          Framed-Runs _ t
            (clear_session_info-Framed (λ _. game null 0 0) (λ _. game-KeepsFrame null 0 0)) g))
