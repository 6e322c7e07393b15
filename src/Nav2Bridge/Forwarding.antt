-- ===== src/Nav2Bridge/Forwarding.antt =====
-- When the bridge of nav2_bridge_node.py forwards a command, and what its state message says of it.
use huma_ware.Common.{
  ◌≡◌, ◌↔◌, true, false, Option, some, [], ◌∷◌, arith, elem, is_some, or_default, ◌<◌,
}
use huma_ware.Ros.Time.{Time, TotalIs, billion, since, older_than, floor_div-mod}
use huma_ware.Ros.Twist.{TwistStamped}
use huma_ware.Msgs.ModeState.{mode_autonomy}
use huma_ware.Msgs.SafetyState.{state_ok, state_warn}
use huma_ware.Msgs.LocomotionState
use huma_ware.Msgs.NavigationBridgeState.{
  state_idle, state_active, state_blocked, state_stale, state_disabled,
}
use huma_ware.Nav2Bridge.Node.{Params, Nav2Bridge, update_bridge_state, on_twist_stamped, tick}

module _ {F : Type 0} where
  -- What the runtime asks for before a command may pass.
  pub record IsReady (p : Params) (b : Nav2Bridge F) : Type 0 where
    pub enabled : p.enabled ≡ true
    pub mode : b.active_mode ≡ mode_autonomy
    pub safety : elem b.safety_state (state_ok ∷ state_warn ∷ []) ≡ true
    pub locomotion :
        elem b.locomotion_state (
          LocomotionState.state_inactive ∷ LocomotionState.state_standing
          ∷ LocomotionState.state_walking ∷ LocomotionState.state_turning
          ∷ LocomotionState.state_stopping ∷ [])
        ≡ true

  -- The locomotion states that the messages define.
  abbrev pub IsLocomotion : Nav2Bridge F → Type 0
  IsLocomotion b =
      elem b.locomotion_state (
        LocomotionState.state_unknown ∷ LocomotionState.state_inactive
        ∷ LocomotionState.state_standing ∷ LocomotionState.state_walking
        ∷ LocomotionState.state_turning ∷ LocomotionState.state_stopping
        ∷ LocomotionState.state_recovering ∷ LocomotionState.state_fault ∷ [])
      ≡ true

  -- A command was received, and no longer ago than the timeout.
  abbrev pub IsRecent : Params → Time → Option (TwistStamped F) → Option Time → Type 0
  IsRecent p now (some _) (some t) = older_than now t p.command_timeout ≡ false
  IsRecent p now _ _ = ⊥

  abbrev pub IsReceived : Nav2Bridge F → Type 0
  IsReceived b = (is_some b.latest_command ≡ true) × (is_some b.last_input_time ≡ true)

  -- The state that a tick reports, by the inputs.
  pub record Classified (p : Params) (now : Time) (b b' : Nav2Bridge F) : Type 0 where
    pub disabled : (b'.state ≡ state_disabled) ↔ (p.enabled ≡ false)
    pub idle : (b'.state ≡ state_idle) ↔ ((p.enabled ≡ true) × ¬ IsReceived b)
    pub stale :
        (b'.state ≡ state_stale)
        ↔ ((p.enabled ≡ true) × IsReceived b × ¬ IsRecent p now b.latest_command b.last_input_time)
    pub active :
        (b'.state ≡ state_active)
        ↔ (IsReady p b × IsRecent p now b.latest_command b.last_input_time)
    pub blocked :
        (b'.state ≡ state_blocked)
        ↔ ((p.enabled ≡ true) × IsRecent p now b.latest_command b.last_input_time × ¬ IsReady p b)
    pub output : (b'.output_enabled ≡ true) ↔ (b'.state ≡ state_active)

  -- With a locomotion state that the messages define: the bridge is disabled exactly when the
  -- parameter says so, else idle before a command was received, else stale when it is older than the
  -- timeout, else active when mode, safety and locomotion are ready, else blocked; and it enables the
  -- output exactly when it is active.
  update_bridge_state-Classified :
      (p : Params) (now : Time) (b : Nav2Bridge F)
      → IsLocomotion b
      → Classified p now b (update_bridge_state p now b)
  unfolding update_bridge_state
  update_bridge_state-Classified p now b l = ground arith

  -- With a locomotion state that the messages define, a stamped command is published exactly when the
  -- bridge is enabled, the mode is autonomy, safety and locomotion are ready, and the timeout is not
  -- negative; it keeps its twist, is stamped with the current time, and gets the parameter's frame
  -- where its own is empty.
  pub on_twist_stamped-forwards :
      (p : Params) (now : Time) (msg sent : TwistStamped F) (b : Nav2Bridge F)
      → IsLocomotion b
      → ((on_twist_stamped p now msg b).1 ≡ some sent) ↔ (
          IsReady p b
          × (older_than now now p.command_timeout ≡ false)
          × (sent.twist ≡ msg.twist)
          × (sent.header.stamp ≡ now)
          × (sent.header.frame_id ≡ or_default msg.header.frame_id p.input_frame_id))
  unfolding on_twist_stamped
  on_twist_stamped-forwards p now msg sent b l = ground arith

  -- The state message of a tick gives the time and the age of the last command, as seconds and
  -- nanoseconds that add up to their difference, with the nanoseconds below a second.
  tick-age :
      (p : Params) (now t : Time) (b : Nav2Bridge F)
      → b.last_input_time ≡ some t
      → ((tick p now b).1.last_input_time ≡ t)
        × TotalIs (tick p now b).1.command_age (since now t)
        × ((tick p now b).1.command_age.nanosec < billion)
  unfolding tick
  tick-age p now t b e = ground (arith, floor_div-mod (since now t))
