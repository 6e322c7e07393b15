-- ===== src/SafetyManager/Latch.antt =====
-- The callbacks of safety_manager_node.py as one step function over events, and the service MRM.
use huma_ware.Common.{
  ℕ, ◌≡◌, refl, ◌≢◌, ◌↔◌, ◌⊎◌, true, false, none, some, List, [], ◌∷◌, arith, All,
}
use huma_ware.Ros.Time.{Time}
use huma_ware.Msgs.SafetyState
use huma_ware.Msgs.SafetyState.{SafetyState}
use huma_ware.Msgs.MrmState
use huma_ware.Msgs.MrmState.{MrmState}
use huma_ware.SafetyManager.Node.{
  Params, SafetyManager, Request, Published, on_teleop_heartbeat, on_hardware_heartbeat,
  on_approved_command, on_mode_state, publish_state, handle_trigger_mrm, handle_clear_mrm,
}
use huma_ware.SafetyManager.Classify.{SomeTrips, publish_state-precedence}

-- What the executor may run, with the values that the callback reads.
pub data Event : Type 0 where
  teleop_heartbeat hardware_heartbeat approved_command : Time → Event
  mode_state : ℕ → Event
  trigger_mrm clear_mrm : Params → Time → Request → Event
  timer : Params → Time → Event

unfoldable pub step : Event → SafetyManager → SafetyManager × Published
step (teleop_heartbeat now) s = (on_teleop_heartbeat now s, none)
step (hardware_heartbeat now) s = (on_hardware_heartbeat now s, none)
step (approved_command now) s = (on_approved_command now s, none)
step (mode_state mode) s = (on_mode_state mode s, none)
step (trigger_mrm p now r) s = let (s', _, out) = handle_trigger_mrm p now r s in (s', out)
step (clear_mrm p now r) s = let (s', _, out) = handle_clear_mrm p now r s in (s', out)
step (timer p now) s = let (s', safety, mrm) = publish_state p now s in (s', some (safety, mrm))

abbrev pub emit : Published → List (SafetyState × MrmState) → List (SafetyState × MrmState)
emit none rest = rest
emit (some m) rest = m ∷ rest

-- The publications of a run, in order.
unfoldable pub publications : List Event → SafetyManager → List (SafetyState × MrmState)
unfolding step
publications [] s = []
publications (e ∷ es) s = let (s', out) = step e s in emit out (publications es s')

-- No clear request is accepted in the run: each one comes while the E-stop is engaged.
abbrev pub NotCleared : Event → Type 0
NotCleared (clear_mrm p now r) = p.estop_engaged ≡ true
NotCleared _ = Unit {0}

abbrev pub Blocks : SafetyState × MrmState → Type 0
Blocks m =
    ((m.0.state ≡ SafetyState.state_estop) ⊎ (m.0.state ≡ SafetyState.state_mrm))
    × (m.0.mrm_active ≡ true)
    × (m.1.state ≢ MrmState.state_none)
    × (m.1.operator_intervention_requested ≡ true)

abbrev pub MayBlock : Published → Type 0
MayBlock none = Unit {0}
MayBlock (some m) = Blocks m

pub step-latched :
    (e : Event) (s : SafetyManager)
    → s.service_mrm_active ≡ true
    → NotCleared e
    → ((step e s).0.service_mrm_active ≡ true) × MayBlock (step e s).1
unfolding step on_teleop_heartbeat on_hardware_heartbeat on_approved_command on_mode_state
    publish_state handle_trigger_mrm handle_clear_mrm
step-latched (teleop_heartbeat now) s h c = (h, tt)
step-latched (hardware_heartbeat now) s h c = (h, tt)
step-latched (approved_command now) s h c = (h, tt)
step-latched (mode_state mode) s h c = (h, tt)
step-latched (trigger_mrm p now r) s h c = ground arith
step-latched (clear_mrm p now r) s h c = ground arith
step-latched (timer p now) s h c = ground arith

All-emit :
    (out : Published) (rest : List (SafetyState × MrmState))
    → MayBlock out
    → All Blocks rest
    → All Blocks (emit out rest)
All-emit none rest h k = k
All-emit (some m) rest h k = (h, k)

latched-Blocks :
    (es : List Event) (s : SafetyManager)
    → s.service_mrm_active ≡ true
    → All NotCleared es
    → All Blocks (publications es s)
unfolding publications
latched-Blocks [] s h c = tt
latched-Blocks (e ∷ es) s h c =
    let (kept, out) = step-latched e s h c.0 in
    All-emit (step e s).1 (publications es (step e s).0) out
      (latched-Blocks es (step e s).0 kept c.1)

-- From a trigger request on, whatever callbacks run and in whatever order, as long as no clear request
-- is accepted: every publication, the one of the request included, has the safety state ESTOP or
-- MRM, an active MRM, an MRM state other than NONE, and asks for the operator.
pub trigger_mrm-latches :
    (p : Params) (now : Time) (r : Request) (s : SafetyManager) (es : List Event)
    → All NotCleared es
    → All Blocks (publications (trigger_mrm p now r ∷ es) s)
unfolding publications step handle_trigger_mrm publish_state
trigger_mrm-latches p now r s es c =
    (ground arith, latched-Blocks es (step (trigger_mrm p now r) s).0 refl c)

-- A clear request is accepted exactly when the E-stop is not engaged. A refused one changes nothing in
-- the node and publishes nothing. An accepted one drops the service MRM, and its response still
-- reports MRM exactly when the parameter or a watchdog demands one.
pub handle_clear_mrm-outcome :
    (p : Params) (now : Time) (r : Request) (s : SafetyManager)
    → let (s', response, out) = handle_clear_mrm p now r s in
      ((response.accepted ≡ true) ↔ (p.estop_engaged ≡ false))
      × (p.estop_engaged ≡ true → (s' ≡ s) × (out ≡ none))
      × (p.estop_engaged ≡ false
          → (s'.service_mrm_active ≡ false)
            × ((response.active_safety_state ≡ SafetyState.state_mrm)
                ↔ ((p.mrm_active ≡ true) ⊎ SomeTrips p now s true)))
unfolding handle_clear_mrm publish_state
handle_clear_mrm-outcome p now r s = ground (
  arith,
  publish_state-precedence p now (record s { service_mrm_active = false; service_mrm_reason = "" }),
)
