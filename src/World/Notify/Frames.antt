-- ===== src/World/Notify/Frames.antt =====
-- The pieces of the messages, by the frame rules.
use mmotcpfighter.Base.{ℕ, zero, suc, ◌+◌, refl, Outcome, Settles}
use mmotcpfighter.Serial.{SerializeBuffer}
use mmotcpfighter.LinkedList.{Ptr}
use mmotcpfighter.World.Monad.{Cmd, modify}
use mmotcpfighter.World.Frame.{
  Framed, Framed-pure, Framed-state, Framed-bind, Framed-lift, Framed-modify, Keeps-rest, frames,
}
use mmotcpfighter.World.Session.Sending.{enq_packet_rb-Framed}
use mmotcpfighter.World.Notify.{
  make_sb1, make_sb2, clear_sb1, clear_sb2, send_sb1, send_sb2, each_from, each_around, sum_from,
  sum_around, read_sb1,
}

set_sb1-Framed : (sb : SerializeBuffer) → Framed (modify (λ t. record t { sb1 = sb }))
set_sb1-Framed sb = Framed-modify _ (λ s. Keeps-rest s _ refl refl refl refl refl)

set_sb2-Framed : (sb : SerializeBuffer) → Framed (modify (λ t. record t { sb2 = sb }))
set_sb2-Framed sb = Framed-modify _ (λ s. Keeps-rest s _ refl refl refl refl refl)

pub clear_sb1-Framed : Framed clear_sb1
unfolding clear_sb1
clear_sb1-Framed = Framed-modify _ (λ s. Keeps-rest s _ refl refl refl refl refl)

pub clear_sb2-Framed : Framed clear_sb2
unfolding clear_sb2
clear_sb2-Framed = Framed-modify _ (λ s. Keeps-rest s _ refl refl refl refl refl)

module _ (f : SerializeBuffer → Outcome (ℕ × SerializeBuffer))
    (h : (sb : SerializeBuffer) → Settles (f sb)) where
  pub make_sb1-Framed : Framed (make_sb1 f)
  unfolding make_sb1
  make_sb1-Framed =
      Framed-bind _ _ Framed-state
        (λ s. Framed-bind _ _ (Framed-lift _ (h s.sb1)) (λ r. search (frames, set_sb1-Framed)))

  pub make_sb2-Framed : Framed (make_sb2 f)
  unfolding make_sb2
  make_sb2-Framed =
      Framed-bind _ _ Framed-state
        (λ s. Framed-bind _ _ (Framed-lift _ (h s.sb2)) (λ r. search (frames, set_sb2-Framed)))

  pub read_sb1-Framed : Framed (read_sb1 f)
  unfolding read_sb1
  read_sb1-Framed =
      Framed-bind _ _ Framed-state
        (λ s. Framed-bind _ _ (Framed-lift _ (h s.sb1)) (λ r. search (frames, set_sb1-Framed)))

pub send_sb1-Framed : (size : ℕ) (p : Ptr) → Framed (send_sb1 size p)
unfolding send_sb1
send_sb1-Framed size p = search (frames, enq_packet_rb-Framed)

pub send_sb2-Framed : (size : ℕ) (p : Ptr) → Framed (send_sb2 size p)
unfolding send_sb2
send_sb2-Framed size p = search (frames, enq_packet_rb-Framed)

module _ (f : Ptr → Cmd (Unit {0})) (h : (p : Ptr) → Framed (f p)) where
  each_from-Framed : (n i : ℕ) → Framed (each_from n i f)
  unfolding each_from
  each_from-Framed zero i = Framed-pure tt
  each_from-Framed (suc n) i =
      Framed-bind _ _ Framed-state
        (λ s. Framed-bind _ _ (h (s.around.clients i)) (λ _. each_from-Framed n (i + 1)))

  pub each_around-Framed : Framed (each_around f)
  unfolding each_around
  each_around-Framed = search (frames, each_from-Framed)

module _ (f : Ptr → Cmd ℕ) (h : (p : Ptr) → Framed (f p)) where
  sum_from-Framed : (n i total : ℕ) → Framed (sum_from n i f total)
  unfolding sum_from
  sum_from-Framed zero i total = Framed-pure total
  sum_from-Framed (suc n) i total =
      Framed-bind _ _ Framed-state
        (λ s. Framed-bind _ _ (h (s.around.clients i)) (λ k. sum_from-Framed n (i + 1) (total + k)))

  pub sum_around-Framed : Framed (sum_around f)
  unfolding sum_around
  sum_around-Framed = search (frames, sum_from-Framed)
