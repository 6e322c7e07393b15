-- ===== src/Teleop/Stop.antt =====
-- The calls of keyboard_teleop_node.py in sequence: the last command once the keys time out.
use huma_ware.Common.{◌≡◌, refl, sym, subst, true, Option, none, some, List, [], ◌∷◌, ◌++◌, arith}
use huma_ware.Ros.Float.{FloatOps, IsFloat}
use huma_ware.Ros.Time.{Time}
use huma_ware.Ros.Twist.{TwistStamped}
use huma_ware.Teleop.Node.{Params, KeyboardTeleop, init, is_timed_out, on_key, publish_tick}
use huma_ware.Teleop.Bounds.{Event, read_key, timer, step, commands}

-- The last element that is there, after an earlier one.
unfoldable pub latest : {A : Type 0} → List (Option A) → Option A → Option A
latest [] d = d
latest (none ∷ xs) d = latest xs d
latest (some a ∷ xs) d = latest xs (some a)

abbrev or_earlier : {A : Type 0} → Option A → Option A → Option A
or_earlier none d = d
or_earlier (some a) d = some a

latest-or_earlier :
    {A : Type 0} (x : Option A) (xs : List (Option A)) (d : Option A)
    → latest (x ∷ xs) d ≡ latest xs (or_earlier x d)
unfolding latest
latest-or_earlier none xs d = refl
latest-or_earlier (some a) xs d = refl

module _ {F : Type 0} ⦃o : FloatOps F⦄ where
  -- No command was published, or the command is a stop.
  abbrev pub IsStill : Option (TwistStamped F) → Type 0
  IsStill none = Unit
  IsStill (some m) =
      (o.eq m.twist.linear.x o.float_zero ≡ true) × (o.eq m.twist.angular.z o.float_zero ≡ true)

  last_latest : (d : Option (TwistStamped F)) → IsStill d → IsStill (latest [] d)
  unfolding latest
  last_latest d h = h

  -- The state after a run.
  unfoldable pub run : Params F → List Event → KeyboardTeleop F → KeyboardTeleop F
  run p [] s = s
  run p (e ∷ es) s = run p es (step p e s).0

  -- `stop_sent` says that the command published last was a stop.
  abbrev Tells : KeyboardTeleop F → Option (TwistStamped F) → Type 0
  Tells s d = s.stop_sent ≡ true → IsStill d

  step-Tells :
      (p : Params F) (e : Event) (s : KeyboardTeleop F) (d : Option (TwistStamped F))
      → Tells s d
      → Tells (step p e s).0 (or_earlier (step p e s).1 d)
  unfolding step on_key publish_tick
  step-Tells p (read_key now text) s d h = ground arith
  step-Tells p (timer now) s d h = ground arith

  -- A tick that finds the keys timed out leaves a stop as the command published last.
  timed_out-IsStill :
      (l : IsFloat o) (p : Params F) (now : Time) (s : KeyboardTeleop F)
      (d : Option (TwistStamped F))
      → Tells s d
      → is_timed_out now s.last_key_at p.key_timeout ≡ true
      → IsStill (or_earlier (step p (timer now) s).1 d)
  unfolding step publish_tick
  timed_out-IsStill l p now s d h t = ground (arith, l.zero_refl)

  commands-IsStill :
      (l : IsFloat o) (p : Params F) (now : Time) (es : List Event) (s : KeyboardTeleop F)
      (d : Option (TwistStamped F))
      → Tells s d
      → is_timed_out now (run p es s).last_key_at p.key_timeout ≡ true
      → IsStill (latest (commands p (es ++ (timer now ∷ [])) s) d)
  unfolding commands run
  commands-IsStill l p now [] s d h t =
      subst IsStill (sym (latest-or_earlier (step p (timer now) s).1 [] d))
        (last_latest (or_earlier (step p (timer now) s).1 d) (timed_out-IsStill l p now s d h t))
  commands-IsStill l p now (e ∷ es) s d h t =
      subst IsStill
        (sym
          (latest-or_earlier (step p e s).1 (commands p (es ++ (timer now ∷ [])) (step p e s).0) d))
        (commands-IsStill l p now es (step p e s).0 (or_earlier (step p e s).1 d)
          (step-Tells p e s d h) t)

  -- After any calls one after the other, once a tick finds that the last key is older than the timeout,
  -- the command published last, if there is any, is a stop.
  pub commands-init-IsStill :
      (l : IsFloat o) (p : Params F) (now : Time) (es : List Event)
      → is_timed_out now (run p es init).last_key_at p.key_timeout ≡ true
      → IsStill (latest (commands p (es ++ (timer now ∷ [])) init) none)
  commands-init-IsStill l p now es t = commands-IsStill l p now es init none (λ e. tt) t
