-- ===== src/Runtime/Limits.antt =====
-- The velocity limits of command_arbiter_node.py, at the hardware behind template_adapter_node.py.
use huma_ware.Common.{String, ◌≡◌, Option, none, some, List, [], ◌∷◌, All, All-append, subst}
use huma_ware.Ros.Float.{FloatOps, IsFloat}
use huma_ware.Ros.Time.{Time}
use huma_ware.Ros.Twist.{TwistStamped}
use huma_ware.Msgs.SafetyState.{SafetyState}
use huma_ware.Msgs.MrmState.{MrmState}
use huma_ware.Msgs.CommandArbitrationState.{CommandArbitrationState}
use huma_ware.SafetyManager.Node as Safety
use huma_ware.SafetyManager.Latch as Latch
use huma_ware.CommandArbiter.Node as Arbiter
use huma_ware.CommandArbiter.Limits.{IsLimited, IsSane, OutputLimited, tick-limited}
use huma_ware.HardwareAdapter.Node as Hardware
use huma_ware.HardwareAdapter.Node.{
  apply_to_hardware, gate_input, on_safety_state, on_mrm_state, on_mode_state, on_approved_command,
  on_arbitration_state,
}
use huma_ware.HardwareAdapter.Release.{IsOpen, tick-apply}
use huma_ware.Runtime.System.{
  System, Delivery, hear, lose, Event, safety_manager, arbiter_mode, arbiter_teleop,
  arbiter_autonomy, arbiter_policy, arbiter_safety, arbiter_tick, hardware_mode, hardware_safety,
  hardware_mrm, hardware_approved, hardware_arbitration, init, published, approved,
  take_arbiter_safety, take_safety, take_mrm, take_approved, take_arbitration, step, run,
}

module _ {F : Type 0} ⦃o : FloatOps F⦄ (p : Arbiter.Params F) where
  abbrev IsFit : TwistStamped F → Type 0
  IsFit m = IsLimited p m.twist

  -- The approved commands on their way, and the one that the adapter holds, are within the limits.
  record AreLimited (s : System F) : Type 0 where
    waiting : All IsFit s.approved_to_hardware
    held : OutputLimited p s.hardware.last_approved

  published-AreLimited :
      (out : Safety.Published) (s : System F) → AreLimited s → AreLimited (published out s)
  published-AreLimited none s h = h
  published-AreLimited (some m) s h = record { waiting = h.waiting; held = h.held }

  take_arbiter_safety-AreLimited :
      (d : Delivery) (queue : List SafetyState) (s : System F)
      → AreLimited s
      → AreLimited (take_arbiter_safety d queue s)
  unfolding take_arbiter_safety
  take_arbiter_safety-AreLimited d [] s h = h
  take_arbiter_safety-AreLimited hear (m ∷ q) s h = record { waiting = h.waiting; held = h.held }
  take_arbiter_safety-AreLimited lose (m ∷ q) s h = record { waiting = h.waiting; held = h.held }

  take_safety-AreLimited :
      (d : Delivery) (queue : List SafetyState) (s : System F)
      → AreLimited s
      → AreLimited (take_safety d queue s)
  unfolding take_safety on_safety_state
  take_safety-AreLimited d [] s h = h
  take_safety-AreLimited hear (m ∷ q) s h = record { waiting = h.waiting; held = h.held }
  take_safety-AreLimited lose (m ∷ q) s h = record { waiting = h.waiting; held = h.held }

  take_mrm-AreLimited :
      (d : Delivery) (queue : List MrmState) (s : System F)
      → AreLimited s
      → AreLimited (take_mrm d queue s)
  unfolding take_mrm on_mrm_state
  take_mrm-AreLimited d [] s h = h
  take_mrm-AreLimited hear (m ∷ q) s h = record { waiting = h.waiting; held = h.held }
  take_mrm-AreLimited lose (m ∷ q) s h = record { waiting = h.waiting; held = h.held }

  take_arbitration-AreLimited :
      (d : Delivery) (now : Time) (queue : List CommandArbitrationState) (s : System F)
      → AreLimited s
      → AreLimited (take_arbitration d now queue s)
  unfolding take_arbitration on_arbitration_state
  take_arbitration-AreLimited d now [] s h = h
  take_arbitration-AreLimited hear now (m ∷ q) s h = record { waiting = h.waiting; held = h.held }
  take_arbitration-AreLimited lose now (m ∷ q) s h = record { waiting = h.waiting; held = h.held }

  take_approved-AreLimited :
      (d : Delivery) (now : Time) (queue : List (TwistStamped F)) (s : System F)
      → All IsFit queue
      → AreLimited s
      → AreLimited (take_approved d now queue s)
  unfolding take_approved on_approved_command
  take_approved-AreLimited d now [] s q h = h
  take_approved-AreLimited hear now (m ∷ queue) s q h = record { waiting = q.1; held = q.0 }
  take_approved-AreLimited lose now (m ∷ queue) s q h = record { waiting = q.1; held = h.held }

  approved-IsFit :
      (m : Option (TwistStamped F)) (queue : List (TwistStamped F))
      → OutputLimited p m
      → All IsFit queue
      → All IsFit (approved m queue)
  approved-IsFit none queue m q = q
  approved-IsFit (some m) queue f q = All-append IsFit queue m q f

module _ {F : Type 0} ⦃o : FloatOps F⦄ (l : IsFloat o) (p : Arbiter.Params F)
    (sane : IsSane p) where
  step-AreLimited : (e : Event F) (s : System F) → AreLimited p s → AreLimited p (step p e s)
  unfolding step on_mode_state
  step-AreLimited (safety_manager e) s h =
      let (safety, out) = Latch.step e s.safety in
      published-AreLimited p out (record s { safety = safety })
        (record { waiting = h.waiting; held = h.held })
  step-AreLimited (arbiter_mode mode) s h = record { waiting = h.waiting; held = h.held }
  step-AreLimited (arbiter_teleop m now) s h = record { waiting = h.waiting; held = h.held }
  step-AreLimited (arbiter_autonomy m now) s h = record { waiting = h.waiting; held = h.held }
  step-AreLimited (arbiter_policy m now) s h = record { waiting = h.waiting; held = h.held }
  step-AreLimited (arbiter_safety d) s h =
      take_arbiter_safety-AreLimited p d s.safety_to_arbiter s h
  step-AreLimited (arbiter_tick now) s h = record {
    waiting =
        approved-IsFit p (Arbiter.tick p now s.arbiter).0 s.approved_to_hardware
          (tick-limited l p now s.arbiter sane) h.waiting;
    held = h.held;
  }
  step-AreLimited (hardware_mode mode) s h = record { waiting = h.waiting; held = h.held }
  step-AreLimited (hardware_safety d) s h = take_safety-AreLimited p d s.safety_to_hardware s h
  step-AreLimited (hardware_mrm d) s h = take_mrm-AreLimited p d s.mrm_to_hardware s h
  step-AreLimited (hardware_approved d now) s h =
      take_approved-AreLimited p d now s.approved_to_hardware s h.waiting h
  step-AreLimited (hardware_arbitration d now) s h =
      take_arbitration-AreLimited p d now s.arbitration_to_hardware s h

  run-AreLimited : (es : List (Event F)) (s : System F) → AreLimited p s → AreLimited p (run p es s)
  unfolding run
  run-AreLimited [] s h = h
  run-AreLimited (e ∷ es) s h = run-AreLimited es (step p e s) (step-AreLimited e s h)

  -- With limits that admit zero, whatever the three nodes do and whatever becomes of the messages
  -- between them, a command that the adapter hands to the hardware is planar and within the
  -- arbiter's limits, and the adapter's gate is open.
  pub tick-IsLimited :
      (es : List (Event F)) (hp : Hardware.Params) (now : Time) (m : TwistStamped F)
      (reason : String)
      → let h = (run p es init).hardware in
        (Hardware.tick hp now h).1 ≡ apply_to_hardware m reason
        → IsLimited p m.twist × IsOpen (gate_input hp now h)
  tick-IsLimited es hp now m reason a =
      let s = run p es init in
      let (gate, last, _) = (tick-apply hp now s.hardware m reason).0 a in
      let h = run-AreLimited es init (record { waiting = tt; held = tt }) in
      (subst (OutputLimited p) last h.held, gate)
