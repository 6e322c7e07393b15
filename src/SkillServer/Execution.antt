-- ===== src/SkillServer/Execution.antt =====
-- Which requests skill_server_node.py accepts, and what it publishes for them.
use huma_ware.Common.{
  ℕ, String, ◌≡◌, refl, ◌↔◌, ◌⊎◌, true, false, Option, none, some, [], ◌∷◌, arith, elem, elem_str,
  str_eq, is_some, eq_iff, if◌then◌else◌,
}
use huma_ware.Common.Dict.{get, text_key}
use huma_ware.Ros.Float.{FloatOps}
use huma_ware.Ros.Twist.{TwistStamped}
use huma_ware.Msgs.Capability
use huma_ware.Msgs.Capability.{Capability}
use huma_ware.Msgs.ModeState.{mode_ai_policy}
use huma_ware.Msgs.SafetyState.{state_fault, state_estop, state_mrm}
use huma_ware.Msgs.SkillExecutionState.{status_rejected, status_accepted}
use huma_ware.SkillServer.Requests.{evaluate_request, make_stop_command, sanitize_velocity_command}
use huma_ware.SkillServer.Node.{
  SkillServer, ExecuteSkillRequest, Call, Executed, execute_supported_skill, on_execute_skill,
}

-- The capability is registered, and neither unknown nor unavailable nor at fault.
abbrev pub IsAvailable : Option Capability → Type 0
IsAvailable none = ⊥
IsAvailable (some c) =
    elem c.state
      (Capability.state_unknown ∷ Capability.state_unavailable ∷ Capability.state_fault ∷ [])
    ≡ false

-- A stop, or a motion in AI policy mode while the safety state is none of FAULT, ESTOP and MRM.
abbrev pub IsPermitted : String → ℕ → ℕ → Type 0
IsPermitted name mode safety =
    (name ≡ "stop")
    ⊎ ((elem_str name ("walk_velocity" ∷ "turn_in_place" ∷ []) ≡ true)
        × (mode ≡ mode_ai_policy)
        × (elem safety (state_fault ∷ state_estop ∷ state_mrm ∷ []) ≡ false))

-- A request is accepted exactly when its capability is available and it is a stop, or a walk or a turn
-- in AI policy mode with a safety state other than FAULT, ESTOP and MRM; the status is ACCEPTED or
-- REJECTED with the answer.
evaluate_request-IsPermitted :
    (name : String) (c : Option Capability) (mode safety : ℕ)
    → (((evaluate_request name c mode safety).accepted ≡ true)
        ↔ (IsAvailable c × IsPermitted name mode safety))
      × ((evaluate_request name c mode safety).status ≡ (
          if (evaluate_request name c mode safety).accepted
          then status_accepted
          else status_rejected))
unfolding evaluate_request
evaluate_request-IsPermitted name c mode safety = ground (
  arith,
  eq_iff name "stop",
  eq_iff name "walk_velocity",
  eq_iff name "turn_in_place",
  eq_iff "stop" "walk_velocity",
  eq_iff "stop" "turn_in_place",
)

module _ {F : Type 0} ⦃o : FloatOps F⦄ (robot_id : String) (call : Call) where
  -- The command of an accepted request: the stop; or the requested planar velocity, for a turn with
  -- its rotation alone.
  abbrev pub IsCommandFor : ExecuteSkillRequest F → TwistStamped F → Type 0
  IsCommandFor r m =
      (m.header.stamp ≡ call.commanded_at)
      × (m.twist.linear.z ≡ o.float_zero)
      × (m.twist.angular.x ≡ o.float_zero)
      × (m.twist.angular.y ≡ o.float_zero)
      × (m.twist.angular.z ≡ (
          if str_eq r.capability_name "stop"
          then o.float_zero
          else r.velocity_command.twist.angular.z))
      × (m.twist.linear.x ≡ (
          if str_eq r.capability_name "walk_velocity"
          then r.velocity_command.twist.linear.x
          else o.float_zero))
      × (m.twist.linear.y ≡ (
          if str_eq r.capability_name "walk_velocity"
          then r.velocity_command.twist.linear.y
          else o.float_zero))

  execute_supported_skill-IsCommandFor :
      (r : ExecuteSkillRequest F) (m : TwistStamped F)
      → execute_supported_skill robot_id call.commanded_at r ≡ some m
      → IsCommandFor r m
  unfolding execute_supported_skill make_stop_command sanitize_velocity_command
  execute_supported_skill-IsCommandFor r m h = ground (
    arith,
    eq_iff r.capability_name "stop",
    eq_iff r.capability_name "walk_velocity",
    eq_iff "stop" "walk_velocity",
  )

  execute_supported_skill-some :
      (r : ExecuteSkillRequest F)
      → elem_str r.capability_name ("stop" ∷ "walk_velocity" ∷ "turn_in_place" ∷ [])
        ≡ is_some (execute_supported_skill robot_id call.commanded_at r)
  unfolding execute_supported_skill
  execute_supported_skill-some r = ground arith

  -- What a call of the service does.
  pub record Served (s : SkillServer) (r : ExecuteSkillRequest F) (x : Executed F) : Type 0 where
    pub accepted : (x.response.accepted ≡ true) ↔ (
        IsAvailable (get r.capability_name s.capabilities)
        × IsPermitted r.capability_name s.mode s.safety)
    pub commands : (is_some x.command ≡ true) ↔ ((x.response.accepted ≡ true) × (r.dry_run ≡ false))
    pub sent : (m : TwistStamped F) → x.command ≡ some m → IsCommandFor r m
    pub recorded : x.published.command_published ≡ is_some x.command
    pub agreed :
        (x.published.status ≡ x.response.status)
        × (x.published.message ≡ x.response.message)
        × (x.published.execution_id ≡ x.response.execution_id)
    pub kept : x.server ≡ record s { last_state = some x.published }

  on_execute_skill-commands :
      (r : ExecuteSkillRequest F) (s : SkillServer)
      → let x = on_execute_skill robot_id call r s in
        ((is_some x.command ≡ true) ↔ ((x.response.accepted ≡ true) × (r.dry_run ≡ false)))
        × (x.published.command_published ≡ is_some x.command)
  unfolding on_execute_skill evaluate_request
  on_execute_skill-commands r s = ground (arith, execute_supported_skill-some r)

  on_execute_skill-sent :
      (r : ExecuteSkillRequest F) (s : SkillServer) (m : TwistStamped F)
      → (on_execute_skill robot_id call r s).command ≡ some m
      → IsCommandFor r m
  unfolding on_execute_skill
  on_execute_skill-sent r s m h = execute_supported_skill-IsCommandFor r m (ground arith)

  -- A call of the service accepts exactly the requests whose capability is available and that are
  -- permitted; it publishes a command exactly for an accepted request that is no dry run, the stop or
  -- the requested planar velocity (a turn has its rotation alone); the published state is kept, agrees
  -- with the response, and records whether a command was published.
  pub on_execute_skill-Served :
      (r : ExecuteSkillRequest F) (s : SkillServer)
      → Served s r (on_execute_skill robot_id call r s)
  unfolding on_execute_skill
  on_execute_skill-Served r s = record {
    accepted =
        (evaluate_request-IsPermitted r.capability_name (get r.capability_name s.capabilities)
          s.mode s.safety).0;
    commands = (on_execute_skill-commands r s).0;
    sent = λ m e. on_execute_skill-sent r s m e;
    recorded = (on_execute_skill-commands r s).1;
    agreed = (refl, refl, refl);
    kept = refl;
  }
