-- ===== src/Network/Loop/Ends.antt =====
-- `NetworkProc` comes to an end.
use mmotcpfighter.Base.{
  ℕ, ◌<◌, ◌≡◌, ◌≢◌, refl, subst, Bool, true, ltb, lt→ltb, if◌then◌else◌, inl, inr, ◌⊎◌, Outcome, ok,
  err, Fault, out_of_fuel, arith,
}
use mmotcpfighter.Ring.{buffer_size}
use mmotcpfighter.LinkedList.{Ptr}
use mmotcpfighter.World.{Server, max_session}
use mmotcpfighter.World.Monad.{pure, ◌>>=◌, resume}
use mmotcpfighter.Network.Callbacks.{Callbacks}
use mmotcpfighter.Network.Loop.{
  Answers, Batch, select_proc, new_batch, network_proc, remove_reserved,
}
use mmotcpfighter.Network.Loop.Frame.{KeepsFrame}
use mmotcpfighter.Network.Loop.Good.{IsGood, Stays, breaks, stays}
use mmotcpfighter.Network.Loop.Select.{Promises, select_proc-Stays}
use mmotcpfighter.Network.Loop.Batches.{
  Gathers, breaks_off, gathers, batches_from-Gathers, new_batch-IsBatch,
}
use mmotcpfighter.Network.Loop.Remove.{AllValid, ClearedOrFaulted, remove_reserved_clears}

-- How `NetworkProc` ends: by a fault, which is not that of too little fuel, or in a good state with valid sessions only.
abbrev pub ServedOrFaulted : Outcome (Bool × Server) → Type 0
ServedOrFaulted o =
    ((f : Fault) × (o ≡ err f) × (f ≢ out_of_fuel))
    ⊎ ((t : Server) × (o ≡ ok (true, t)) × AllValid t)

module _ (fuel rounds listen : ℕ) (answers : ℕ → Answers) (cb : ℕ → Callbacks)
    (enough : buffer_size < fuel) (enough_rounds : max_session < rounds)
    (promises : (k : ℕ) → Promises (answers k)) (keeps : (k : ℕ) → KeepsFrame (cb k)) where
  removed_all :
      (o : Outcome (Unit {0} × Server))
      → ClearedOrFaulted cb o
      → ServedOrFaulted (resume (λ _ t. ok (true, t)) o)
  removed_all (err f) (inl (f', k, c, u, e, other, h)) = inl (f, refl, λ q. other (ground arith))
  removed_all (err f) (inr (t, e, valid)) = absurd (ground arith)
  removed_all (ok (u, t)) (inl (f', k, c, v, e, other, h)) = absurd (ground arith)
  removed_all (ok (u, t)) (inr (t', e, valid)) =
      let same : t' ≡ t = ground arith in inr (t, refl, subst AllValid same valid)

  after_last :
      (s : Server) (o : Outcome (Unit {0} × Server))
      → Stays s o
      → ServedOrFaulted (resume (λ _. remove_reserved rounds cb >>= (λ _. pure true)) o)
  after_last s (err f) (breaks h) = inl (f, refl, h)
  after_last s (ok (u, t)) (stays g grows) =
      removed_all _
        (remove_reserved_clears rounds cb t keeps g (omega (arith, g.consistent.bounded)))

  after_batches :
      (s : Server) (o : Outcome ((Batch × ℕ) × Server))
      → Gathers listen s o
      → ServedOrFaulted (
          resume
            (λ r.
              (if ltb 0 r.0.sock_count then select_proc fuel listen (answers r.1) r.0 else pure tt)
              >>= (λ _. remove_reserved rounds cb >>= (λ _. pure true)))
            o)
  after_batches s (err f) (breaks_off h) = inl (f, refl, h)
  after_batches s (ok ((b, k), t)) (gathers g grows batch room) =
      rw (lt→ltb 0 b.sock_count batch.begun)
        (after_last t _ (select_proc-Stays fuel enough listen (answers k) (promises k) t b g batch))

  -- `NetworkProc` from a good state, where what is relied on of Winsock, the pools and the callbacks holds: with fuel above
  -- `BUFFER_SIZE` for the packets of a session and more rounds than `MAX_SESSION` it does not run out of fuel. It
  -- faults, or it returns a good state in which every session that was reserved has been removed and all that are
  -- left are valid.
  pub network_proc_ends :
      (arr : ℕ → Ptr) (s : Server)
      → IsGood s
      → ServedOrFaulted (network_proc fuel rounds listen answers cb arr s)
  unfolding network_proc new_batch
  network_proc_ends arr s g = after_batches s _ (
      batches_from-Gathers fuel enough listen answers promises rounds 0 (omega arith) (omega arith)
        s (new_batch listen arr) 0 g (new_batch-IsBatch listen s arr) (omega arith))
