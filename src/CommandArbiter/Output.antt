-- ===== src/CommandArbiter/Output.antt =====
-- What a tick of command_arbiter_node.py publishes: a limited candidate, a zero stop, or nothing.
use huma_ware.Common.{
  ◌<◌, String, ◌≡◌, refl, inl, inr, Bool, true, false, ◌&&◌, Option, none, some, is_some,
  Bool-cases, if◌then◌else◌,
}
use huma_ware.Ros.Float.{FloatOps}
use huma_ware.Ros.Time.{Time, Duration, TotalIs, floor_div-mod, billion}
use huma_ware.Ros.Twist.{TwistStamped, zero_twist}
use huma_ware.Msgs.CommandArbitrationState.{CommandArbitrationState, source_none, source_safety}
use huma_ware.CommandArbiter.Select.{CandidateCommand, source_priority, should_publish_stop}
use huma_ware.CommandArbiter.Priority.{
  IsReady, First, select_candidate-approves, select_candidate-refuses, Refusal-stops,
}
use huma_ware.CommandArbiter.Node.{
  Params, CommandArbiter, selection, emit, tick, limit_command, duration_msg,
}

module _ {F : Type 0} ⦃o : FloatOps F⦄ (p : Params F) (now : Time) (a : CommandArbiter F) where
  -- The state and the stored candidates let `c` through.
  abbrev pub IsApproved : CandidateCommand F → Type 0
  IsApproved c =
      IsReady a.active_mode now p.command_timeout a.candidates (is_some a.last_safety)
        a.safety_state
      × First a.active_mode now p.command_timeout a.candidates c source_priority

  approved-tick : (c : CandidateCommand F) → IsApproved c → selection p now a ≡ (some c, "approved")
  approved-tick c h =
      (select_candidate-approves a.active_mode now p.command_timeout a.candidates
          (is_some a.last_safety) a.safety_state c "approved").1
        (h.0, h.1, refl)

  -- Where the safety state is seen and allowed, the mode is none of the inactive ones and `c` is the
  -- first fresh candidate for the mode in the order of priority, a tick publishes the clamped command
  -- of `c`, enables the output, and names the source and the receive time of `c`.
  pub tick-approved :
      (c : CandidateCommand F)
      → IsApproved c
      → ((tick p now a).0 ≡ some (limit_command p c.msg now))
        × ((tick p now a).1.output_enabled ≡ true)
        × ((tick p now a).1.stop_command_published ≡ false)
        × ((tick p now a).1.active_source ≡ c.source)
        × ((tick p now a).1.last_command_time ≡ c.received_at)
  unfolding tick
  tick-approved c h = rw (approved-tick c h) (refl, refl, refl, refl, refl)

  -- The tick's output where nothing is approved: the zero stop, or silence.
  abbrev pub stops : Bool
  stops = p.publish_stop_on_block && is_some a.last_safety

  abbrev pub zero_stop : TwistStamped F
  zero_stop = record { header = record { stamp = now; frame_id = p.robot_id }; twist = zero_twist }

  abbrev pub IsBlockedOutput : Option (TwistStamped F) × CommandArbitrationState → Type 0
  IsBlockedOutput out =
      (out.0 ≡ (if stops then some zero_stop else none))
      × (out.1.output_enabled ≡ false)
      × (out.1.stop_command_published ≡ stops)
      × (out.1.active_source ≡ (if stops then source_safety else source_none))

  emit-blocked :
      (reason : String)
      → should_publish_stop reason p.publish_stop_on_block ≡ stops
      → IsBlockedOutput (emit p now a none reason)
  unfolding emit
  emit-blocked reason e = elim (Bool-cases stops) [
    | inl s ↦ rw (e, s) (refl, refl, refl, refl)
    | inr s ↦ rw (e, s) (refl, refl, refl, refl)
  ]

  blocked :
      (chosen : Option (CandidateCommand F)) (reason : String)
      → selection p now a ≡ (chosen, reason)
      → ((c : CandidateCommand F) → ¬ IsApproved c)
      → IsBlockedOutput (emit p now a chosen reason)
  blocked (some c) reason e h =
      let (ready, first, _) =
        (select_candidate-approves a.active_mode now p.command_timeout a.candidates
            (is_some a.last_safety) a.safety_state c reason).0
          e in
      absurd (h c (ready, first))
  blocked none reason e h = emit-blocked reason (
      Refusal-stops a.active_mode now p.command_timeout a.candidates (is_some a.last_safety)
        a.safety_state p.publish_stop_on_block reason
        ((select_candidate-refuses a.active_mode now p.command_timeout a.candidates
            (is_some a.last_safety) a.safety_state reason).0
          e))

  -- Where no candidate is approved, a tick disables the output. If a safety state was seen and the stop
  -- parameter is on, it publishes one command, whose velocities are all zero, in the name of the
  -- source "safety"; otherwise it publishes no command, and no source is active.
  pub tick-blocked : ((c : CandidateCommand F) → ¬ IsApproved c) → IsBlockedOutput (tick p now a)
  unfolding tick
  tick-blocked h = blocked (selection p now a).0 (selection p now a).1 refl h

-- The seconds and nanoseconds of a duration message add up to the duration, of either sign, and the
-- nanoseconds are below one billion.
duration_msg-total :
    (d : Duration) → TotalIs (duration_msg d) d × ((duration_msg d).nanosec < billion)
unfolding duration_msg
duration_msg-total d = floor_div-mod d
