-- ===== src/Nav2Bridge/Node.antt =====
-- nav2_bridge_node.py, lines 21 to 183: the node's state, its callbacks and its tick.
use huma_ware.Common.{
  ℕ, String, Bool, true, false, not, Option, none, some, [], ◌∷◌, ◌==◌, elem, or_default,
  if◌then◌else◌,
}
use huma_ware.Common.Int.{pos, floor_div, floor_mod}
use huma_ware.Ros.Time.{Time, Duration, DurationMsg, billion, since, older_than}
use huma_ware.Ros.Twist.{Twist, TwistStamped}
use huma_ware.Msgs.ModeState.{mode_inactive, mode_autonomy}
use huma_ware.Msgs.SafetyState
use huma_ware.Msgs.LocomotionState
use huma_ware.Msgs.NavigationBridgeState.{
  NavigationBridgeState, state_idle, state_active, state_blocked, state_stale, state_disabled,
}

pub record Params : Type 0 where
  pub robot_id : String
  pub enabled : Bool
  pub command_timeout : Duration
  pub input_frame_id : String

pub record Nav2Bridge (F : Type 0) : Type 0 where
  pub active_mode : ℕ
  pub safety_state : ℕ
  pub locomotion_state : ℕ
  pub last_input_time : Option Time
  pub last_output_time : Option Time
  pub latest_command : Option (TwistStamped F)
  pub state : ℕ
  pub reason : String
  pub output_enabled : Bool

unfoldable pub duration_msg : Duration → DurationMsg
duration_msg d = record { sec = floor_div d billion; nanosec = floor_mod d billion }

-- An unset time of a message, and its unset duration.
abbrev pub time_or_zero : Option Time → Time
time_or_zero none = 0
time_or_zero (some t) = t

unfoldable pub age_or_zero : Time → Option Time → DurationMsg
unfolding duration_msg
age_or_zero now none = record { sec = pos 0; nanosec = 0 }
age_or_zero now (some t) = duration_msg (since now t)

module _ {F : Type 0} where
  abbrev pub init : Nav2Bridge F
  init = record {
    active_mode = mode_inactive;
    safety_state = SafetyState.state_unknown;
    locomotion_state = LocomotionState.state_unknown;
    last_input_time = none;
    last_output_time = none;
    latest_command = none;
    state = state_idle;
    reason = "waiting_for_nav2_command";
    output_enabled = false;
  }

  unfoldable pub on_mode_state : ℕ → Nav2Bridge F → Nav2Bridge F
  on_mode_state mode b = record b { active_mode = mode }

  unfoldable pub on_safety_state : ℕ → Nav2Bridge F → Nav2Bridge F
  on_safety_state state b = record b { safety_state = state }

  unfoldable pub on_locomotion_state : ℕ → Nav2Bridge F → Nav2Bridge F
  on_locomotion_state state b = record b { locomotion_state = state }

  abbrev pub decide : ℕ → String → Bool → Nav2Bridge F → Nav2Bridge F
  decide state reason output_enabled b = record b {
    state = state;
    reason = reason;
    output_enabled = output_enabled;
  }

  -- The tests from the age of the command on.
  unfoldable pub judge : Params → Time → Time → Nav2Bridge F → Nav2Bridge F
  judge p now last_input_time b =
      if older_than now last_input_time p.command_timeout
      then decide state_stale "nav2_command_stale" false b
      else if not (b.active_mode == mode_autonomy)
      then decide state_blocked "mode_not_autonomy" false b
      else if not (elem b.safety_state (SafetyState.state_ok ∷ SafetyState.state_warn ∷ []))
      then decide state_blocked "safety_state_blocks_navigation" false b
      else if elem b.locomotion_state (
          LocomotionState.state_unknown ∷ LocomotionState.state_fault
          ∷ LocomotionState.state_recovering ∷ [])
      then decide state_blocked "locomotion_not_ready" false b
      else decide state_active "forwarding_nav2_command" true b

  -- `self._latest_command is None or self._last_input_time is None`
  unfoldable pub judge_received :
      Params → Time → Option (TwistStamped F) → Option Time → Nav2Bridge F → Nav2Bridge F
  unfolding judge
  judge_received p now (some _) (some last_input_time) b = judge p now last_input_time b
  judge_received p now _ _ b = decide state_idle "waiting_for_nav2_command" false b

  unfoldable pub update_bridge_state : Params → Time → Nav2Bridge F → Nav2Bridge F
  unfolding judge_received
  update_bridge_state p now b =
      if not p.enabled
      then decide state_disabled "bridge_disabled" false b
      else judge_received p now b.latest_command b.last_input_time b

  -- The command that is published, if one is.
  unfoldable pub handle_command :
      Params → TwistStamped F → Time → Nav2Bridge F → Nav2Bridge F × Option (TwistStamped F)
  unfolding update_bridge_state
  handle_command p msg now b =
      let b' =
        update_bridge_state p now
          (record b { latest_command = some msg; last_input_time = some now }) in
      if b'.output_enabled
      then (record b' { last_output_time = some now }, some msg)
      else (b', none)

  unfoldable pub on_twist :
      Params → Time → Twist F → Nav2Bridge F → Nav2Bridge F × Option (TwistStamped F)
  unfolding handle_command
  on_twist p now msg b =
      handle_command p
        (record { header = record { stamp = now; frame_id = p.input_frame_id }; twist = msg }) now b

  unfoldable pub on_twist_stamped :
      Params → Time → TwistStamped F → Nav2Bridge F → Nav2Bridge F × Option (TwistStamped F)
  unfolding handle_command
  on_twist_stamped p now msg b =
      handle_command p
        (record {
          header = record {
            stamp = now;
            frame_id = or_default msg.header.frame_id p.input_frame_id;
          };
          twist = msg.twist;
        })
        now b

  -- `_publish_state`
  unfoldable pub state_message : Params → Time → Nav2Bridge F → NavigationBridgeState
  unfolding age_or_zero
  state_message p now b = record {
    header = record { stamp = now; frame_id = p.robot_id };
    robot_id = p.robot_id;
    state = b.state;
    active_mode = b.active_mode;
    safety_state = b.safety_state;
    locomotion_state = b.locomotion_state;
    bridge_enabled = p.enabled;
    output_enabled = b.output_enabled;
    input_topic = "nav2/cmd_vel";
    output_topic = "autonomy/cmd_vel";
    last_input_time = time_or_zero b.last_input_time;
    last_output_time = time_or_zero b.last_output_time;
    command_age = age_or_zero now b.last_input_time;
    reason = b.reason;
  }

  unfoldable pub tick : Params → Time → Nav2Bridge F → Nav2Bridge F × NavigationBridgeState
  unfolding update_bridge_state state_message
  tick p now b = let b' = update_bridge_state p now b in (b', state_message p now b')
