-- ===== src/CapabilityRegistry/Client.antt =====
-- The skill server of skill_server_node.py on the word of the capability registry.
use huma_ware.Common.{
  ℕ, String, ◌≡◌, refl, sym, subst, ◌↔◌, ◌⊎◌, inl, inr, true, false, some, [], ◌∷◌, arith, elem,
  eq_iff,
}
use huma_ware.Common.Dict.{get, put, text_key}
use huma_ware.Ros.Float.{FloatOps}
use huma_ware.Ros.Time.{Time}
use huma_ware.Msgs.ModeState.{mode_teleop, mode_autonomy, mode_ai_policy}
use huma_ware.Msgs.SafetyState.{state_fault, state_estop, state_mrm}
use huma_ware.CapabilityRegistry.Specs.{walk_velocity, turn_in_place}
use huma_ware.CapabilityRegistry.Node.{CapabilityRegistry, build_capability, publish}
use huma_ware.CapabilityRegistry.Offers.{IsSafety, IsCalm}
use huma_ware.SkillServer.Node.{
  SkillServer, ExecuteSkillRequest, Call, on_capabilities, on_execute_skill,
}
use huma_ware.SkillServer.Execution.{IsAvailable, IsPermitted, on_execute_skill-Served}

-- What the registry knows permits motion.
abbrev pub Permits : CapabilityRegistry → Type 0
Permits r =
    IsCalm r.safety × (elem r.mode (mode_teleop ∷ mode_autonomy ∷ mode_ai_policy ∷ []) ≡ true)

module _ (r : CapabilityRegistry) (known : IsSafety r.safety) where
  walk_velocity-IsAvailable :
      IsAvailable (some (build_capability r.mode r.safety r.locomotion walk_velocity)) ↔ Permits r
  unfolding build_capability
  walk_velocity-IsAvailable = ground arith

  turn_in_place-IsAvailable :
      IsAvailable (some (build_capability r.mode r.safety r.locomotion turn_in_place)) ↔ Permits r
  unfolding build_capability
  turn_in_place-IsAvailable = ground arith

-- The skill server once it has received what the registry publishes.
abbrev pub informed : String → Time → CapabilityRegistry → SkillServer → SkillServer
informed robot_id now r s = on_capabilities (publish robot_id now r).capabilities s

get-walk_velocity :
    (robot_id : String) (now : Time) (r : CapabilityRegistry) (s : SkillServer)
    → get "walk_velocity" (informed robot_id now r s).capabilities
      ≡ some (build_capability r.mode r.safety r.locomotion walk_velocity)
unfolding on_capabilities publish get put build_capability
get-walk_velocity robot_id now r s = refl

get-turn_in_place :
    (robot_id : String) (now : Time) (r : CapabilityRegistry) (s : SkillServer)
    → get "turn_in_place" (informed robot_id now r s).capabilities
      ≡ some (build_capability r.mode r.safety r.locomotion turn_in_place)
unfolding on_capabilities publish get put build_capability
get-turn_in_place robot_id now r s = refl

-- A motion skill is available, by what the registry published, exactly where the registry's mode and
-- safety state permit it.
registered-IsAvailable :
    (robot_id : String) (now : Time) (r : CapabilityRegistry) (s : SkillServer) (name : String)
    → (name ≡ "walk_velocity") ⊎ (name ≡ "turn_in_place")
    → IsSafety r.safety
    → IsAvailable (get name (informed robot_id now r s).capabilities) ↔ Permits r
registered-IsAvailable robot_id now r s name (inl e) known =
    subst (λ n. IsAvailable (get n (informed robot_id now r s).capabilities) ↔ Permits r) (sym e)
      (subst (λ c. IsAvailable c ↔ Permits r) (sym (get-walk_velocity robot_id now r s))
        (walk_velocity-IsAvailable r known))
registered-IsAvailable robot_id now r s name (inr e) known =
    subst (λ n. IsAvailable (get n (informed robot_id now r s).capabilities) ↔ Permits r) (sym e)
      (subst (λ c. IsAvailable c ↔ Permits r) (sym (get-turn_in_place robot_id now r s))
        (turn_in_place-IsAvailable r known))

informed_inputs :
    (robot_id : String) (now : Time) (r : CapabilityRegistry) (s : SkillServer)
    → ((informed robot_id now r s).mode ≡ s.mode) × ((informed robot_id now r s).safety ≡ s.safety)
unfolding on_capabilities
informed_inputs robot_id now r s = (refl, refl)

IsPermitted-motion :
    (name : String) (mode safety : ℕ)
    → (name ≡ "walk_velocity") ⊎ (name ≡ "turn_in_place")
    → IsPermitted name mode safety ↔ (
        (mode ≡ mode_ai_policy)
        × (elem safety (state_fault ∷ state_estop ∷ state_mrm ∷ []) ≡ false))
IsPermitted-motion name mode safety m = ground (
  arith,
  eq_iff name "stop",
  eq_iff name "walk_velocity",
  eq_iff name "turn_in_place",
  eq_iff "stop" "walk_velocity",
  eq_iff "stop" "turn_in_place",
)

module _ {F : Type 0} ⦃o : FloatOps F⦄ where
  -- Where the registry's safety state is one of the six, a skill server that received what the registry
  -- published accepts a request to walk or to turn exactly where that safety state is OK or WARN and the
  -- registry's mode an active one, while the server's own mode is AI policy and its own safety state none
  -- of FAULT, ESTOP and MRM.
  pub on_execute_skill-informed :
      (robot_id : String) (now : Time) (call : Call) (r : CapabilityRegistry) (s : SkillServer)
      (q : ExecuteSkillRequest F)
      → (q.capability_name ≡ "walk_velocity") ⊎ (q.capability_name ≡ "turn_in_place")
      → IsSafety r.safety
      → ((on_execute_skill robot_id call q (informed robot_id now r s)).response.accepted ≡ true)
        ↔ (Permits r
            × (s.mode ≡ mode_ai_policy)
            × (elem s.safety (state_fault ∷ state_estop ∷ state_mrm ∷ []) ≡ false))
  unfolding on_capabilities
  on_execute_skill-informed robot_id now call r s q m known =
      let served = on_execute_skill-Served robot_id call q (informed robot_id now r s) in
      let there = registered-IsAvailable robot_id now r s q.capability_name m known in
      let allowed = IsPermitted-motion q.capability_name s.mode s.safety m in
      (
        λ a. let (v, w) = served.accepted.0 a in let (x, y) = allowed.0 w in (there.0 v, x, y),
        λ (v, x, y). served.accepted.1 (there.1 v, allowed.1 (x, y)),
      )
