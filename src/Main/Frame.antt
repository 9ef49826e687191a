-- ===== src/Main/Frame.antt =====
-- When a frame is due. The time since the start of the server is cut into frames of 40 milliseconds.
use mmotcpfighter.Base.{
  ℕ, ◌+◌, ◌-◌, ◌*◌, ◌/◌, ◌%◌, ◌^◌, ◌≤◌, ◌<◌, ◌≡◌, refl, ap, ◌∙◌, ltb, if◌then◌else◌, ℤ, pos, ◌-ℤ◌,
  leb_ℤ, of_dword, pattern_of, signed_of, to_int, rem_ℤ, arith, Bool-cases, inl, inr,
}
use mmotcpfighter.Main.{FrameState, tick_per_frame, sub_int, frame_step}

-- What the clock shows `d` milliseconds after it showed `start`: it goes round at `2 ^ 32`, and the `int` that is made of
-- it changes its sign in between.
abbrev pub moment : ℕ → ℕ → ℤ
moment start d = of_dword ((start + d) % 2 ^ 32)

-- The difference of two `int`s, by their patterns.
pattern-sub :
    (p q : ℕ)
    → p < 2 ^ 32
    → q < 2 ^ 32
    → pattern_of (2 ^ 32) (signed_of (2 ^ 32) p -ℤ signed_of (2 ^ 32) q) ≡ (p + 2 ^ 32 - q) % 2 ^ 32
unfolding ◌-ℤ◌
pattern-sub p q hp hq = ground arith

-- The time between two moments.
sub_moment :
    (start a b : ℕ)
    → b ≤ a
    → a - b < 2 ^ 31
    → sub_int (moment start a) (moment start b) ≡ pos (a - b)
unfolding sub_int to_int
sub_moment start a b le small =
    let e : ((start + a) % 2 ^ 32 + 2 ^ 32 - (start + b) % 2 ^ 32) % 2 ^ 32 ≡ a - b = omega arith in
    rw (pattern-sub ((start + a) % 2 ^ 32) ((start + b) % 2 ^ 32) (omega arith) (omega arith), e)
      (ground arith)

-- A moment less a few milliseconds is an earlier one.
moment_back :
    (start d r : ℕ) → r ≤ d → r < 40 → sub_int (moment start d) (pos r) ≡ moment start (d - r)
unfolding sub_int to_int
moment_back start d r le small =
    let e : ((start + d) % 2 ^ 32 + 2 ^ 32 - r) % 2 ^ 32 ≡ (start + (d - r)) % 2 ^ 32 =
      omega arith in
    let low : signed_of (2 ^ 32) r ≡ pos r = ground arith in
    rw (← low) (rw (pattern-sub ((start + d) % 2 ^ 32) r (omega arith) (omega arith), e) refl)

due_test : (d k : ℕ) → k * 40 ≤ d → leb_ℤ (pos tick_per_frame) (pos (d - k * 40)) ≡ ltb k (d / 40)
due_test d k begun = elim (Bool-cases (ltb k (d / 40))) [
  | inl later ↦ rw later (ground arith)
  | inr same ↦ rw same (ground arith)
]

-- What the clock shows goes round at 2 ^ 32. Where the server has run for `d` milliseconds, less than 2 ^ 31, since the
-- clock showed `start`, whatever that is, and the tick is that of frame `k`, which has begun: `Update` is called exactly if
-- a later frame than `k` has begun, the tick is then that of the last frame that has begun, and the frames are counted
-- as they are updated.
pub frame_step_slot :
    (start d k : ℕ) (f : FrameState)
    → d < 2 ^ 31
    → f.first ≡ moment start 0
    → f.old_frame_tick ≡ moment start (k * 40)
    → k * 40 ≤ d
    → ((frame_step ((start + d) % 2 ^ 32) f).0 ≡ ltb k (d / 40))
      × ((frame_step ((start + d) % 2 ^ 32) f).1.old_frame_tick ≡ moment start (d / 40 * 40))
      × ((frame_step ((start + d) % 2 ^ 32) f).1.fps
          ≡ (if ltb k (d / 40) then (f.fps + 1) % 2 ^ 32 else f.fps))
unfolding frame_step rem_ℤ
frame_step_slot start d k f small first tick begun =
    let waited : leb_ℤ (pos tick_per_frame) (sub_int (moment start d) f.old_frame_tick)
        ≡ ltb k (d / 40) =
      rw (tick, sub_moment start d (k * 40) begun (omega arith)) (due_test d k begun) in
    let whole : sub_int (moment start d) f.first ≡ pos d =
      let none : d - 0 ≡ d = omega arith in
      rw first (sub_moment start d 0 (omega arith) (omega arith) ∙ ap pos none) in
    let last : d - d % 40 ≡ d / 40 * 40 = omega arith in
    elim (Bool-cases (ltb k (d / 40))) [
      | inl later ↦ (
        waited,
        rw (waited, later, whole)
            (moment_back start d (d % 40) (omega arith) (omega arith) ∙ ap (moment start) last),
        rw waited refl,
      )
      | inr same ↦
          let kept : k * 40 ≡ d / 40 * 40 = ground arith in
          (waited, rw (waited, same) (tick ∙ ap (moment start) kept), rw waited refl)
    ]
