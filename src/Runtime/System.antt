-- ===== src/Runtime/System.antt =====
-- The safety manager, the command arbiter and a hardware adapter, with the messages that are on their way
-- between them. A topic keeps its order for each subscriber, and may lose the oldest message. Modes and
-- candidate commands come from outside. `_tick` of the adapter changes nothing, so it is read off a state.
use huma_ware.Common.{ℕ, Option, none, some, List, [], ◌∷◌, append}
use huma_ware.Ros.Float.{FloatOps}
use huma_ware.Ros.Time.{Time}
use huma_ware.Ros.Twist.{TwistStamped}
use huma_ware.Msgs.SafetyState.{SafetyState}
use huma_ware.Msgs.MrmState.{MrmState}
use huma_ware.Msgs.CommandArbitrationState.{CommandArbitrationState}
use huma_ware.SafetyManager.Node as Safety
use huma_ware.SafetyManager.Latch as Latch
use huma_ware.CommandArbiter.Node as Arbiter
use huma_ware.HardwareAdapter.Node as Hardware

pub record System (F : Type 0) : Type 0 where
  pub safety : Safety.SafetyManager
  pub arbiter : Arbiter.CommandArbiter F
  pub hardware : Hardware.HardwareAdapter F
  pub safety_to_arbiter : List SafetyState
  pub safety_to_hardware : List SafetyState
  pub mrm_to_hardware : List MrmState
  pub approved_to_hardware : List (TwistStamped F)
  pub arbitration_to_hardware : List CommandArbitrationState

-- What the subscriber of a topic does with the oldest message.
pub data Delivery : Type 0 where
  hear lose : Delivery

pub data Event (F : Type 0) : Type 0 where
  safety_manager : Latch.Event → Event F
  arbiter_mode : ℕ → Event F
  arbiter_teleop arbiter_autonomy arbiter_policy : TwistStamped F → Time → Event F
  arbiter_safety : Delivery → Event F
  arbiter_tick : Time → Event F
  hardware_mode : ℕ → Event F
  hardware_safety hardware_mrm : Delivery → Event F
  hardware_approved hardware_arbitration : Delivery → Time → Event F

module _ {F : Type 0} where
  abbrev pub init : System F
  init = record {
    safety = Safety.init;
    arbiter = Arbiter.init;
    hardware = Hardware.init;
    safety_to_arbiter = [];
    safety_to_hardware = [];
    mrm_to_hardware = [];
    approved_to_hardware = [];
    arbitration_to_hardware = [];
  }

  abbrev pub published : Safety.Published → System F → System F
  published none s = s
  published (some (safety, mrm)) s = record s {
    safety_to_arbiter = append s.safety_to_arbiter safety;
    safety_to_hardware = append s.safety_to_hardware safety;
    mrm_to_hardware = append s.mrm_to_hardware mrm;
  }

  abbrev pub approved : Option (TwistStamped F) → List (TwistStamped F) → List (TwistStamped F)
  approved none queue = queue
  approved (some m) queue = append queue m

  unfoldable pub take_arbiter_safety : Delivery → List SafetyState → System F → System F
  take_arbiter_safety d [] s = s
  take_arbiter_safety hear (m ∷ queue) s = record s {
    arbiter = Arbiter.on_safety_state m s.arbiter;
    safety_to_arbiter = queue;
  }
  take_arbiter_safety lose (m ∷ queue) s = record s { safety_to_arbiter = queue }

  unfoldable pub take_safety : Delivery → List SafetyState → System F → System F
  take_safety d [] s = s
  take_safety hear (m ∷ queue) s = record s {
    hardware = Hardware.on_safety_state m.state s.hardware;
    safety_to_hardware = queue;
  }
  take_safety lose (m ∷ queue) s = record s { safety_to_hardware = queue }

  unfoldable pub take_mrm : Delivery → List MrmState → System F → System F
  take_mrm d [] s = s
  take_mrm hear (m ∷ queue) s = record s {
    hardware = Hardware.on_mrm_state m.state s.hardware;
    mrm_to_hardware = queue;
  }
  take_mrm lose (m ∷ queue) s = record s { mrm_to_hardware = queue }

  unfoldable pub take_approved : Delivery → Time → List (TwistStamped F) → System F → System F
  take_approved d now [] s = s
  take_approved hear now (m ∷ queue) s = record s {
    hardware = Hardware.on_approved_command m now s.hardware;
    approved_to_hardware = queue;
  }
  take_approved lose now (m ∷ queue) s = record s { approved_to_hardware = queue }

  unfoldable pub take_arbitration :
      Delivery → Time → List CommandArbitrationState → System F → System F
  take_arbitration d now [] s = s
  take_arbitration hear now (m ∷ queue) s = record s {
    hardware = Hardware.on_arbitration_state m now s.hardware;
    arbitration_to_hardware = queue;
  }
  take_arbitration lose now (m ∷ queue) s = record s { arbitration_to_hardware = queue }

module _ {F : Type 0} ⦃o : FloatOps F⦄ where
  unfoldable pub step : Arbiter.Params F → Event F → System F → System F
  unfolding take_arbiter_safety take_safety take_mrm take_approved take_arbitration
  step p (safety_manager e) s =
      let (safety, out) = Latch.step e s.safety in published out (record s { safety = safety })
  step p (arbiter_mode mode) s = record s { arbiter = Arbiter.on_mode_state mode s.arbiter }
  step p (arbiter_teleop m now) s = record s { arbiter = Arbiter.on_teleop m now s.arbiter }
  step p (arbiter_autonomy m now) s = record s { arbiter = Arbiter.on_autonomy m now s.arbiter }
  step p (arbiter_policy m now) s = record s { arbiter = Arbiter.on_policy m now s.arbiter }
  step p (arbiter_safety d) s = take_arbiter_safety d s.safety_to_arbiter s
  step p (arbiter_tick now) s =
      let (command, state) = Arbiter.tick p now s.arbiter in
      record s {
        approved_to_hardware = approved command s.approved_to_hardware;
        arbitration_to_hardware = append s.arbitration_to_hardware state;
      }
  step p (hardware_mode mode) s = record s { hardware = Hardware.on_mode_state mode s.hardware }
  step p (hardware_safety d) s = take_safety d s.safety_to_hardware s
  step p (hardware_mrm d) s = take_mrm d s.mrm_to_hardware s
  step p (hardware_approved d now) s = take_approved d now s.approved_to_hardware s
  step p (hardware_arbitration d now) s = take_arbitration d now s.arbitration_to_hardware s

  unfoldable pub run : Arbiter.Params F → List (Event F) → System F → System F
  unfolding step
  run p [] s = s
  run p (e ∷ es) s = run p es (step p e s)
