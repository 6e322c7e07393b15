-- ===== src/Runtime/Stop.antt =====
-- How a triggered MRM of safety_manager_node.py reaches the hardware behind template_adapter_node.py.
use huma_ware.Common.{ℕ, ◌≡◌, refl, sym, subst, List, [], ◌∷◌, arith, All, length}
use huma_ware.Ros.Float.{FloatOps}
use huma_ware.Ros.Time.{Time}
use huma_ware.Msgs.SafetyState.{SafetyState}
use huma_ware.SafetyManager.Node as Safety
use huma_ware.SafetyManager.Latch as Latch
use huma_ware.SafetyManager.Latch.{
  trigger_mrm-latches, NotCleared, MayBlock, step-latched, trigger_mrm,
}
use huma_ware.CommandArbiter.Node as Arbiter
use huma_ware.HardwareAdapter.Gate.{should_release_output}
use huma_ware.HardwareAdapter.Node as Hardware
use huma_ware.HardwareAdapter.Node.{
  HardwareAdapter, stop_hardware, on_safety_state, on_mrm_state, on_mode_state, on_approved_command,
  on_arbitration_state, tick, release,
}
use huma_ware.Runtime.Waiting.{
  drop-length, Phase, older, told, waiting, IsUncleared, left, after, IsLatched, IsSame-IsLatched,
  take_arbiter_safety-IsSame, take_mrm-IsSame, take_approved-IsSame, take_arbitration-IsSame,
}
use huma_ware.Runtime.System.{
  System, hear, Event, safety_manager, arbiter_mode, arbiter_teleop, arbiter_autonomy,
  arbiter_policy, arbiter_safety, arbiter_tick, hardware_mode, hardware_safety, hardware_mrm,
  hardware_approved, hardware_arbitration, take_safety, step, run,
}
use huma_ware.Runtime.Taking.{
  published-IsLatched, take_safety-older, after_older, after_told, left-after, take_safety-told,
  take_safety-first,
}

module _ {F : Type 0} ⦃o : FloatOps F⦄ (p : Arbiter.Params F) where
  step-IsLatched :
      (e : Event F) (phase : Phase) (s : System F)
      → IsUncleared e
      → IsLatched phase s
      → IsLatched (after e phase) (step p e s)
  unfolding step on_mode_state
  step-IsLatched (safety_manager e) phase s u h =
      let (kept, out) = step-latched e s.safety h.service u in
      let (safety, sent) = Latch.step e s.safety in
      published-IsLatched phase sent (record s { safety = safety }) out
        (record { service = kept; queue = h.queue; state = h.state })
  step-IsLatched (arbiter_mode mode) phase s u h = record {
    service = h.service;
    queue = h.queue;
    state = h.state;
  }
  step-IsLatched (arbiter_teleop m now) phase s u h = record {
    service = h.service;
    queue = h.queue;
    state = h.state;
  }
  step-IsLatched (arbiter_autonomy m now) phase s u h = record {
    service = h.service;
    queue = h.queue;
    state = h.state;
  }
  step-IsLatched (arbiter_policy m now) phase s u h = record {
    service = h.service;
    queue = h.queue;
    state = h.state;
  }
  step-IsLatched (arbiter_safety d) phase s u h =
      IsSame-IsLatched phase s _ (take_arbiter_safety-IsSame d s.safety_to_arbiter s) h
  step-IsLatched (arbiter_tick now) phase s u h = record {
    service = h.service;
    queue = h.queue;
    state = h.state;
  }
  step-IsLatched (hardware_mode mode) phase s u h = record {
    service = h.service;
    queue = h.queue;
    state = h.state;
  }
  step-IsLatched (hardware_safety d) (older n) s u h =
      take_safety-older n d s.safety_to_hardware s refl h
  step-IsLatched (hardware_safety d) told s u h = take_safety-told d s.safety_to_hardware s refl h
  step-IsLatched (hardware_mrm d) phase s u h =
      IsSame-IsLatched phase s _ (take_mrm-IsSame d s.mrm_to_hardware s) h
  step-IsLatched (hardware_approved d now) phase s u h =
      IsSame-IsLatched phase s _ (take_approved-IsSame d now s.approved_to_hardware s) h
  step-IsLatched (hardware_arbitration d now) phase s u h =
      IsSame-IsLatched phase s _ (take_arbitration-IsSame d now s.arbitration_to_hardware s) h

  step-older :
      (e : Event F) (n : ℕ) (s : System F)
      → IsUncleared e
      → IsLatched (older n) s
      → IsLatched (older (waiting (after e (older n)))) (step p e s)
  step-older e n s u h =
      subst (λ k. IsLatched k (step p e s)) (after_older e n) (step-IsLatched e (older n) s u h)

  step-told :
      (e : Event F) (s : System F) → IsUncleared e → IsLatched told s → IsLatched told (step p e s)
  step-told e s u h =
      subst (λ k. IsLatched k (step p e s)) (after_told e) (step-IsLatched e told s u h)

  run-older :
      (es : List (Event F)) (n : ℕ) (s : System F)
      → All IsUncleared es
      → IsLatched (older n) s
      → IsLatched (older (left es n)) (run p es s)
  unfolding run
  run-older [] n s u h = h
  run-older (e ∷ es) n s u h =
      subst (λ k. IsLatched (older k) (run p es (step p e s))) (left-after e es n)
        (run-older es (waiting (after e (older n))) (step p e s) u.1 (step-older e n s u.0 h))

  run-told :
      (es : List (Event F)) (s : System F)
      → All IsUncleared es
      → IsLatched told s
      → IsLatched told (run p es s)
  unfolding run
  run-told [] s u h = h
  run-told (e ∷ es) s u h = run-told es (step p e s) u.1 (step-told e s u.0 h)

  -- With the service MRM latched, the adapter stops the hardware at each tick.
  told-stops :
      (s : System F) (hp : Hardware.Params) (now : Time)
      → IsLatched told s
      → (tick hp now s.hardware).1 ≡ stop_hardware "safety_state_blocks_output"
  unfolding tick release should_release_output
  told-stops s hp now h = ground (arith, h.state)

module _ {F : Type 0} ⦃o : FloatOps F⦄ (p : Arbiter.Params F) (sp : Safety.Params) (now : Time)
    (r : Safety.Request) (s : System F) where
  -- The state after the trigger.
  abbrev pub triggered : System F
  triggered = step p (safety_manager (trigger_mrm sp now r)) s

  triggered-IsLatched : IsLatched (older (length s.safety_to_hardware)) triggered
  unfolding step Latch.step Latch.publications Safety.handle_trigger_mrm Safety.publish_state
  triggered-IsLatched = record {
    service = refl;
    queue = drop-length s.safety_to_hardware _ (trigger_mrm-latches sp now r s.safety [] tt).0.0;
    state = tt;
  }

  -- From the request to trigger an MRM on, as long as no clear request is accepted: once the adapter
  -- has taken as many safety states as were waiting for it at the request, and then hears one more,
  -- it orders the stop of the hardware at each tick, whatever the nodes do and whatever becomes of
  -- the other messages between them.
  pub triggered-stops :
      (es later : List (Event F)) (m : SafetyState) (queue : List SafetyState)
      (hp : Hardware.Params) (at : Time)
      → All IsUncleared es
      → All IsUncleared later
      → left es (length s.safety_to_hardware) ≡ 0
      → (run p es triggered).safety_to_hardware ≡ m ∷ queue
      → let s' = run p later (step p (hardware_safety hear) (run p es triggered)) in
        (tick hp at s'.hardware).1 ≡ stop_hardware "safety_state_blocks_output"
  unfolding step
  triggered-stops es later m queue hp at u v e q =
      let before = run p es triggered in
      let flushed =
        subst (λ n. IsLatched (older n) before) e
          (run-older p es (length s.safety_to_hardware) triggered u triggered-IsLatched) in
      let heard = take_safety-first m queue before q flushed in
      let first = subst (λ x. IsLatched told (take_safety hear x before)) (sym q) heard in
      let after_hearing = step p (hardware_safety hear) before in
      told-stops p (run p later after_hearing) hp at (run-told p later after_hearing v first)
