-- ===== src/CapabilityRegistry/Tests.antt =====
-- capability_registry_node.py at concrete inputs.
use huma_ware.Common.{◌≡◌, refl, ◌↔◌, inl, true, false, none, [], ◌∷◌, elem}
use huma_ware.Common.Int.{pos}
use huma_ware.Common.Dict.{get, put}
use huma_ware.Ros.Fixed.{Fixed, fixed_ops}
use huma_ware.Ros.Twist.{zero_twist}
use huma_ware.Msgs.Capability.{state_idle}
use huma_ware.Msgs.ModeState.{mode_ai_policy, mode_fault}
use huma_ware.Msgs.SafetyState.{state_ok, state_warn, state_fault, state_estop, state_mrm}
use huma_ware.CapabilityRegistry.Specs.{stand}
use huma_ware.CapabilityRegistry.Node.{
  CapabilityRegistry, init, capability_state, duration_msg, on_list_capabilities, build_capability,
}
use huma_ware.CapabilityRegistry.Offers.{Offers, capability_state-Offers}
use huma_ware.CapabilityRegistry.Client.{Permits, informed, on_execute_skill-informed}
use huma_ware.SkillServer.Node.{SkillServer, ExecuteSkillRequest, Call, on_execute_skill}

abbrev registry : CapabilityRegistry
registry = record init { mode = mode_ai_policy; safety = state_warn }

lists_missing_names :
    (on_list_capabilities ("stop" ∷ "jump" ∷ []) registry).missing_names ≡ "jump" ∷ []
unfolding on_list_capabilities get put build_capability
lists_missing_names = refl

three_quarters : duration_msg 750 ≡ record { sec = pos 0; nanosec = 750_000_000 }
unfolding duration_msg
three_quarters = refl

-- The table requires inactive, teleop, autonomy or ai_policy for standing.
stand_in_fault_mode : capability_state stand mode_fault state_ok 0 ≡ state_idle
unfolding capability_state
stand_in_fault_mode = refl

capability_state-Offers_example : Offers mode_ai_policy state_warn 0
capability_state-Offers_example = capability_state-Offers mode_ai_policy state_warn 0 refl

abbrev server : SkillServer
server = record { capabilities = []; mode = mode_ai_policy; safety = state_warn; last_state = none }

abbrev request : ExecuteSkillRequest Fixed
request = record {
  capability_name = "walk_velocity";
  requester = "op";
  dry_run = false;
  velocity_command = record {
    header = record { stamp = 1; frame_id = "base" };
    twist = zero_twist;
  };
}

abbrev call : Call
call = record { execution_id = "a"; commanded_at = 20; published_at = 21 }

on_execute_skill-informed_example :
    ((on_execute_skill "mock_001" call request
        (informed "mock_001" 5 registry server)).response.accepted
      ≡ true)
    ↔ (Permits registry
        × (mode_ai_policy ≡ mode_ai_policy)
        × (elem state_warn (state_fault ∷ state_estop ∷ state_mrm ∷ []) ≡ false))
on_execute_skill-informed_example =
    on_execute_skill-informed "mock_001" 5 call registry server request (inl refl) refl
