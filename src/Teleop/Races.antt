-- ===== src/Teleop/Races.antt =====
-- A race between the two threads of keyboard_teleop_node.py over _stop_sent.
use huma_ware.Common.{
  ◌≡◌, refl, ap, subst, ◌∙◌, sym, Bool, true, false, none, some, List, [], ◌∷◌, ◌++◌, arith, All,
  if-elim,
}
use huma_ware.Ros.Float.{FloatOps, IsFloat}
use huma_ware.Ros.Time.{Time}
use huma_ware.Ros.Twist.{TwistStamped}
use huma_ware.Teleop.Keymap.{TeleopVelocity, no_velocity, apply_key, is_motion_key}
use huma_ware.Teleop.Node.{Params, is_timed_out, is_zero, command}
use huma_ware.Teleop.Sequential.{interleave-concat}
use huma_ware.Teleop.Threads.{
  waiting, TickThread, sleeping, test_key, test_age, reset_velocity, test_moving, test_sent,
  tick_linear, tick_angular, tick_send, tick_mark, Threads, Turn, press, key_turn, fire, tick_turn,
  begin_key, step_key, begin_tick, step_tick, turn, interleave,
}

-- The timer finds the robot moving and reads the velocity at `now`; the stop key "x" is read, and the
-- thread of the keys publishes the stop at `later`; the timer publishes what it read and marks it;
-- the thread of the keys marks the stop as sent.
abbrev pub race : Time → Time → List Turn
race now later =
    fire now
    ∷ tick_turn
    ∷ tick_turn
    ∷ tick_turn
    ∷ tick_turn
    ∷ tick_turn
    ∷ press "x"
    ∷ key_turn later
    ∷ key_turn later
    ∷ key_turn later
    ∷ key_turn later
    ∷ key_turn later
    ∷ key_turn later
    ∷ tick_turn
    ∷ tick_turn
    ∷ key_turn later
    ∷ []

-- A turn at which no key is read.
abbrev pub IsKeyless : Turn → Type 0
IsKeyless (press text) = ⊥
IsKeyless _ = Unit

module _ {F : Type 0} ⦃o : FloatOps F⦄ where
  -- The node with a velocity since a key, no call under way.
  abbrev pub moving : TeleopVelocity F → Time → Bool → List (TwistStamped F) → Threads F
  moving v key_at stop_sent cs = record {
    velocity = v;
    last_key_at = some key_at;
    stop_sent = stop_sent;
    key = waiting;
    tick = sleeping;
    published = cs;
  }

  -- The timer's callback is not on its way to a command.
  abbrev AtRest : TickThread F → Type 0
  AtRest (tick_linear now mark) = ⊥
  AtRest (tick_angular now mark x) = ⊥
  AtRest (tick_send now mark v) = ⊥
  AtRest (tick_mark mark) = ⊥
  AtRest _ = Unit

  record IsQuiet (s : Threads F) : Type 0 where
    still : is_zero s.velocity ≡ true
    sent : s.stop_sent ≡ true
    key : s.key ≡ waiting
    tick : AtRest s.tick

  at_rest :
      (s : Threads F) (t : TickThread F) → IsQuiet s → AtRest t → IsQuiet (record s { tick = t })
  at_rest s t h r = record { still = h.still; sent = h.sent; key = h.key; tick = r }

  -- The commands stay as they are, and the node stays quiet.
  abbrev Rests : Threads F → Threads F → Type 0
  Rests s s' = IsQuiet s' × (s'.published ≡ s.published)

  begin_tick-Rests :
      (now : Time) (t : TickThread F) (s : Threads F) → IsQuiet s → Rests s (begin_tick now t s)
  unfolding begin_tick
  begin_tick-Rests now sleeping s h = (at_rest s (test_key now) h tt, refl)
  begin_tick-Rests now (test_key x) s h = (h, refl)
  begin_tick-Rests now (test_age x) s h = (h, refl)
  begin_tick-Rests now (reset_velocity x) s h = (h, refl)
  begin_tick-Rests now (test_moving x) s h = (h, refl)
  begin_tick-Rests now (test_sent x) s h = (h, refl)
  begin_tick-Rests now (tick_linear x mark) s h = (h, refl)
  begin_tick-Rests now (tick_angular x mark y) s h = (h, refl)
  begin_tick-Rests now (tick_send x mark v) s h = (h, refl)
  begin_tick-Rests now (tick_mark mark) s h = (h, refl)

module _ {F : Type 0} ⦃o : FloatOps F⦄ (l : IsFloat o) (p : Params F) where
  step_tick-Rests :
      (t : TickThread F) (s : Threads F) → IsQuiet s → AtRest t → Rests s (step_tick p t s)
  unfolding step_tick
  step_tick-Rests sleeping s h r = (h, refl)
  step_tick-Rests (test_key now) s h r = (
    at_rest s _ h
        (elim s.last_key_at
          as (λ x. AtRest {F = F} (elim x [ none ↦ test_moving now | some _ ↦ test_age now ])) [
            | none ↦ tt
            | some _ ↦ tt
          ]),
    refl,
  )
  step_tick-Rests (test_age now) s h r = (
    at_rest s _ h
        (if-elim AtRest _ _ (is_timed_out now s.last_key_at p.key_timeout) (λ e. tt) (λ e. tt)),
    refl,
  )
  step_tick-Rests (reset_velocity now) s h r =
      (record { still = ground (arith, l.zero_refl); sent = h.sent; key = h.key; tick = tt }, refl)
  step_tick-Rests (test_moving now) s h r = (at_rest s _ h (ground (arith, h.still)), refl)
  step_tick-Rests (test_sent now) s h r = (at_rest s _ h (ground (arith, h.sent)), refl)
  step_tick-Rests (tick_linear now mark) s h r = absurd r
  step_tick-Rests (tick_angular now mark x) s h r = absurd r
  step_tick-Rests (tick_send now mark v) s h r = absurd r
  step_tick-Rests (tick_mark mark) s h r = absurd r

  turn-Rests : (t : Turn) (s : Threads F) → IsKeyless t → IsQuiet s → Rests s (turn p t s)
  unfolding turn step_key
  turn-Rests (press text) s i h = absurd i
  turn-Rests (key_turn now) s i h = subst (λ k. Rests s (step_key p now k s)) (sym h.key) (h, refl)
  turn-Rests (fire now) s i h = begin_tick-Rests now s.tick s h
  turn-Rests tick_turn s i h = step_tick-Rests s.tick s h h.tick

  interleave-published :
      (ts : List Turn) (s : Threads F)
      → All IsKeyless ts
      → IsQuiet s
      → (interleave p ts s).published ≡ s.published
  unfolding interleave
  interleave-published [] s i h = refl
  interleave-published (t ∷ ts) s (i, is) h =
      let (q, e) = turn-Rests t s i h in interleave-published ts (turn p t s) is q ∙ e

  race-moving :
      (now later key_at : Time) (v : TeleopVelocity F) (sent : Bool) (cs : List (TwistStamped F))
      → is_zero v ≡ false
      → is_timed_out now (some key_at) p.key_timeout ≡ false
      → interleave p (race now later) (moving v key_at sent cs)
        ≡ moving no_velocity later true (command p now v ∷ command p later no_velocity ∷ cs)
  unfolding interleave turn begin_key step_key begin_tick step_tick is_motion_key apply_key
  race-moving now later key_at v sent cs z t = rw (t, z, l.zero_refl) refl

  race-IsQuiet :
      (v : TeleopVelocity F) (later : Time) (cs : List (TwistStamped F))
      → IsQuiet (moving no_velocity later true cs)
  race-IsQuiet v later cs = record {
    still = ground (arith, l.zero_refl);
    sent = refl;
    key = refl;
    tick = tt;
  }

  -- A stop key can be lost. From a velocity that is not zero and whose key is not timed out, there is
  -- an order of steps in which the key "x" is read and stopped, and yet the command published last
  -- is the motion that the timer had read before; whatever the timer does until another key is read,
  -- no command follows.
  pub race-published :
      (now later key_at : Time) (v : TeleopVelocity F) (sent : Bool) (cs : List (TwistStamped F))
      (ts : List Turn)
      → is_zero v ≡ false
      → is_timed_out now (some key_at) p.key_timeout ≡ false
      → All IsKeyless ts
      → (interleave p (race now later ++ ts) (moving v key_at sent cs)).published
        ≡ command p now v ∷ command p later no_velocity ∷ cs
  race-published now later key_at v sent cs ts z t k =
      let after = command p now v ∷ command p later no_velocity ∷ cs in
      let start = moving v key_at sent cs in
      ap (λ (x : Threads F). x.published)
        (interleave-concat p (race now later) ts start
          ∙ ap (interleave p ts) (race-moving now later key_at v sent cs z t))
      ∙ interleave-published ts (moving no_velocity later true after) k (race-IsQuiet v later after)
