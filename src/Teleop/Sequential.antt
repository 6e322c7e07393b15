-- ===== src/Teleop/Sequential.antt =====
-- The two threads of keyboard_teleop_node.py where no call overlaps another: the calls are those of Node,
-- and the stop that follows the last key holds.
use huma_ware.Common.{
  String, ◌≡◌, refl, sym, subst, ap, ◌∙◌, Bool, true, false, not, Option, none, some, List, [], ◌∷◌,
  ◌++◌, arith, elem_str, if-agree, if◌then◌else◌,
}
use huma_ware.Ros.Float.{FloatOps, IsFloat}
use huma_ware.Ros.Time.{Time}
use huma_ware.Ros.Twist.{TwistStamped}
use huma_ware.Teleop.Keymap.{TeleopVelocity, help_keys, is_motion_key, apply_key}
use huma_ware.Teleop.Node.{
  Params, KeyboardTeleop, init, is_timed_out, is_zero, command, on_key, on_motion_key, publish_tick,
  publish_velocity,
}
use huma_ware.Teleop.Bounds.{Event, read_key, timer, step, commands}
use huma_ware.Teleop.Stop.{latest, IsStill, run, commands-init-IsStill}
use huma_ware.Teleop.Threads.{
  store_velocity, waiting, sleeping, Threads, Turn, press, key_turn, fire, tick_turn, initial,
  begin_key, step_key, begin_tick, step_tick, turn, interleave,
}

abbrev seven : Turn → List Turn
seven k = k ∷ k ∷ k ∷ k ∷ k ∷ k ∷ k ∷ []

-- The turns that a call takes at most, from its start to its end.
abbrev pub turns_of : Event → List Turn
turns_of (read_key now text) = press text ∷ seven (key_turn now)
turns_of (timer now) = fire now ∷ tick_turn ∷ tick_turn ∷ seven tick_turn

-- One call after the other.
abbrev pub in_sequence : List Event → List Turn
in_sequence [] = []
in_sequence (e ∷ es) = turns_of e ++ in_sequence es

module _ {F : Type 0} where
  abbrev with_command : Option (TwistStamped F) → List (TwistStamped F) → List (TwistStamped F)
  with_command none cs = cs
  with_command (some c) cs = c ∷ cs

  abbrev pub newest : List (TwistStamped F) → Option (TwistStamped F)
  newest [] = none
  newest (c ∷ cs) = some c

  -- The commands of a run, the latest first, before those that were published already.
  abbrev collected : List (Option (TwistStamped F)) → List (TwistStamped F) → List (TwistStamped F)
  collected [] cs = cs
  collected (c ∷ rest) cs = collected rest (with_command c cs)

module _ {F : Type 0} ⦃o : FloatOps F⦄ where
  -- No call is under way.
  abbrev resting : KeyboardTeleop F → List (TwistStamped F) → Threads F
  resting s cs = record {
    velocity = s.velocity;
    last_key_at = s.last_key_at;
    stop_sent = s.stop_sent;
    key = waiting;
    tick = sleeping;
    published = cs;
  }

  -- The thread of the keys has computed a velocity.
  abbrev storing : TeleopVelocity F → KeyboardTeleop F → List (TwistStamped F) → Threads F
  storing v s cs = record (resting s cs) { key = store_velocity v }

  seven-resting :
      (p : Params F) (now : Time) (s : KeyboardTeleop F) (cs : List (TwistStamped F))
      → interleave p (seven (key_turn now)) (resting s cs) ≡ resting s cs
  unfolding interleave turn step_key
  seven-resting p now s cs = refl

  seven-storing :
      (p : Params F) (now : Time) (v : TeleopVelocity F) (s : KeyboardTeleop F)
      (cs : List (TwistStamped F))
      → interleave p (seven (key_turn now)) (storing v s cs)
        ≡ resting
            (record { velocity = v; last_key_at = some now; stop_sent = is_zero v })
            (if is_zero v then command p now v ∷ cs else cs)
  unfolding interleave turn step_key
  seven-storing p now v s cs = ground arith

  abbrev ended : List (TwistStamped F) → KeyboardTeleop F × Option (TwistStamped F) → Threads F
  ended cs r = resting r.0 (with_command r.1 cs)

  moved-ended :
      (p : Params F) (now : Time) (v : TeleopVelocity F) (zero : Bool) (cs : List (TwistStamped F))
      → resting
          (record { velocity = v; last_key_at = some now; stop_sent = zero })
          (if zero then command p now v ∷ cs else cs)
        ≡ ended cs (
            if zero
            then (
              record { velocity = v; last_key_at = some now; stop_sent = true },
              some (command p now v),
            )
            else (record { velocity = v; last_key_at = some now; stop_sent = false }, none))
  moved-ended p now v true cs = refl
  moved-ended p now v false cs = refl

  turns_of-read_key :
      (p : Params F) (now : Time) (text : String) (s : KeyboardTeleop F)
      (cs : List (TwistStamped F))
      → interleave p (turns_of (read_key now text)) (resting s cs)
        ≡ ended cs (step p (read_key now text) s)
  unfolding interleave turn begin_key step on_key on_motion_key
  turns_of-read_key p now text s cs =
      let v = apply_key p.keys text s.velocity in
      let idle = seven-resting p now s cs in
      let moved = seven-storing p now v s cs ∙ moved-ended p now v (is_zero v) cs in
      let run = interleave p (seven (key_turn now)) in
      if-agree run (ended cs) (elem_str text help_keys) idle
        (if-agree run (ended cs) (not (is_motion_key text)) idle moved)

  turns_of-timer :
      (p : Params F) (now : Time) (s : KeyboardTeleop F) (cs : List (TwistStamped F))
      → interleave p (turns_of (timer now)) (resting s cs) ≡ ended cs (step p (timer now) s)
  unfolding interleave turn begin_tick step_tick step publish_tick publish_velocity
  turns_of-timer p now s cs = ground arith

  turns_of-step :
      (p : Params F) (e : Event) (s : KeyboardTeleop F) (cs : List (TwistStamped F))
      → interleave p (turns_of e) (resting s cs) ≡ ended cs (step p e s)
  turns_of-step p (read_key now text) s cs = turns_of-read_key p now text s cs
  turns_of-step p (timer now) s cs = turns_of-timer p now s cs

  no_turns : (p : Params F) (s : Threads F) → interleave p [] s ≡ s
  unfolding interleave
  no_turns p s = refl

  pub interleave-concat :
      (p : Params F) (ts us : List Turn) (s : Threads F)
      → interleave p (ts ++ us) s ≡ interleave p us (interleave p ts s)
  unfolding interleave
  interleave-concat p [] us s = refl
  interleave-concat p (t ∷ ts) us s = interleave-concat p ts us (turn p t s)

  in_sequence-collected :
      (p : Params F) (es : List Event) (s : KeyboardTeleop F) (cs : List (TwistStamped F))
      → interleave p (in_sequence es) (resting s cs)
        ≡ resting (run p es s) (collected (commands p es s) cs)
  unfolding commands run
  in_sequence-collected p [] s cs = no_turns p (resting s cs)
  in_sequence-collected p (e ∷ es) s cs =
      let r = step p e s in
      interleave-concat p (turns_of e) (in_sequence es) (resting s cs)
      ∙ ap (interleave p (in_sequence es)) (turns_of-step p e s cs)
      ∙ in_sequence-collected p es r.0 (with_command r.1 cs)

  newest-collected :
      (rest : List (Option (TwistStamped F))) (cs : List (TwistStamped F))
      → newest (collected rest cs) ≡ latest rest (newest cs)
  unfolding latest
  newest-collected [] cs = refl
  newest-collected (none ∷ rest) cs = newest-collected rest cs
  newest-collected (some c ∷ rest) cs = newest-collected rest (c ∷ cs)

  -- Where no call of the two threads overlaps another: after any keys and ticks, a tick that finds that
  -- the last key is older than the timeout leaves a stop as the command that the node published last, if
  -- it published any.
  pub in_sequence-IsStill :
      (l : IsFloat o) (p : Params F) (now : Time) (es : List Event)
      → is_timed_out now (interleave p (in_sequence es) initial).last_key_at p.key_timeout ≡ true
      → IsStill (newest (interleave p (in_sequence (es ++ (timer now ∷ []))) initial).published)
  in_sequence-IsStill l p now es t =
      let whole = es ++ (timer now ∷ []) in
      let timed = ap (λ (x : Threads F). x.last_key_at) (in_sequence-collected p es init []) in
      let published =
        ap (λ (x : Threads F). newest x.published) (in_sequence-collected p whole init [])
        ∙ newest-collected (commands p whole init) [] in
      subst IsStill (sym published) (
        commands-init-IsStill l p now es
          (subst (λ k. is_timed_out now k p.key_timeout ≡ true) timed t))
