-- ===== src/HardwareAdapter/Release.antt =====
-- When the adapter of template_adapter_node.py lets a command through to the hardware.
use huma_ware.Common.{
  ℕ, String, ◌≡◌, refl, ◌↔◌, ◌⊎◌, inl, inr, true, false, Option, none, some, List, [], ◌∷◌, arith,
  Bool-cases, elem, is_some,
}
use huma_ware.Ros.Time.{Time, Duration, older_than}
use huma_ware.Ros.Twist.{TwistStamped}
use huma_ware.Msgs.ModeState.{mode_teleop, mode_autonomy, mode_ai_policy}
use huma_ware.Msgs.SafetyState.{state_ok, state_warn}
use huma_ware.Msgs.MrmState.{state_none}
use huma_ware.Msgs.CommandArbitrationState.{CommandArbitrationState}
use huma_ware.HardwareAdapter.Gate.{GateInput, gate_open_reason, should_release_output}
use huma_ware.HardwareAdapter.Node.{
  Params, HardwareAdapter, apply_to_hardware, stop_hardware, gate_input, on_safety_state,
  on_mrm_state, on_mode_state, on_approved_command, on_arbitration_state, tick,
}

-- Something was seen and is no older than the timeout.
abbrev pub IsRecent : Time → Option Time → Duration → Type 0
IsRecent now none timeout = ⊥
IsRecent now (some t) timeout = older_than now t timeout ≡ false

pub record IsOpen (g : GateInput) : Type 0 where
  pub safety : elem g.safety_state (state_ok ∷ state_warn ∷ []) ≡ true
  pub mrm : g.mrm_state ≡ state_none
  pub mode : elem g.active_mode (mode_teleop ∷ mode_autonomy ∷ mode_ai_policy ∷ []) ≡ true
  pub arbitration : IsRecent g.now g.last_arbitration_at g.arbitration_state_timeout
  pub enabled : g.arbitration_output_enabled ≡ true
  pub approved : IsRecent g.now g.last_approved_at g.approved_command_timeout

-- The gate is open exactly when the safety state is OK or WARN, the MRM state is NONE, the mode is an
-- active one, the arbitration state is recent and enables the output, and an approved command is
-- recent.
should_release_output-IsOpen : (g : GateInput) → ((should_release_output g).0 ≡ true) ↔ IsOpen g
unfolding should_release_output
should_release_output-IsOpen g = ground arith

pub data Event (F : Type 0) : Type 0 where
  safety_state mrm_state mode_state : ℕ → Event F
  approved_command : TwistStamped F → Time → Event F
  arbitration_state : CommandArbitrationState → Time → Event F

module _ {F : Type 0} where
  unfoldable pub step : Event F → HardwareAdapter F → HardwareAdapter F
  unfolding on_safety_state on_mrm_state on_mode_state on_approved_command on_arbitration_state
  step (safety_state state) h = on_safety_state state h
  step (mrm_state state) h = on_mrm_state state h
  step (mode_state mode) h = on_mode_state mode h
  step (approved_command msg now) h = on_approved_command msg now h
  step (arbitration_state msg now) h = on_arbitration_state msg now h

  unfoldable pub run : List (Event F) → HardwareAdapter F → HardwareAdapter F
  run [] h = h
  run (e ∷ es) h = run es (step e h)

  -- A command and the time of its arrival are stored together.
  abbrev pub AreTogether : HardwareAdapter F → Type 0
  AreTogether h =
      ((h.last_approved ≡ none) × (h.last_approved_at ≡ none))
      ⊎ ((is_some h.last_approved ≡ true) × (is_some h.last_approved_at ≡ true))

  step-AreTogether : (e : Event F) (h : HardwareAdapter F) → AreTogether h → AreTogether (step e h)
  unfolding step
  step-AreTogether e h t = ground arith

  pub run-AreTogether :
      (es : List (Event F)) (h : HardwareAdapter F) → AreTogether h → AreTogether (run es h)
  unfolding run
  run-AreTogether [] h t = t
  run-AreTogether (e ∷ es) h t = run-AreTogether es (step e h) (step-AreTogether e h t)

module _ {F : Type 0} (p : Params) (now : Time) where
  -- A tick hands a command to the hardware exactly where the gate is open and the command is the last
  -- approved one; the reason is then "approved_command".
  pub tick-apply :
      (h : HardwareAdapter F) (msg : TwistStamped F) (reason : String)
      → ((tick p now h).1 ≡ apply_to_hardware msg reason)
        ↔ (IsOpen (gate_input p now h) × (h.last_approved ≡ some msg) × (reason ≡ gate_open_reason))
  unfolding tick should_release_output
  tick-apply h msg reason = ground arith

  abbrev pub Applies : HardwareAdapter F → Type 0
  Applies h =
      (msg : TwistStamped F) × (h.last_approved ≡ some msg)
      × ((tick p now h).1 ≡ apply_to_hardware msg gate_open_reason)

  Applies-IsOpen :
      (h : HardwareAdapter F) (last : Option (TwistStamped F))
      → h.last_approved ≡ last
      → AreTogether h
      → IsOpen (gate_input p now h)
      → Applies h
  Applies-IsOpen h none e t o = absurd (ground arith)
  Applies-IsOpen h (some msg) e t o = (msg, e, (tick-apply h msg gate_open_reason).1 (o, e, refl))

  stopped :
      (h : HardwareAdapter F)
      → (should_release_output (gate_input p now h)).0 ≡ false
      → (tick p now h).1 ≡ stop_hardware (should_release_output (gate_input p now h)).1
  unfolding tick
  stopped h e = rw e

  pub decided :
      (h : HardwareAdapter F)
      → AreTogether h
      → (IsOpen (gate_input p now h) → Applies h)
        × (¬ IsOpen (gate_input p now h)
            → (tick p now h).1 ≡ stop_hardware (should_release_output (gate_input p now h)).1)
  decided h t = (
    Applies-IsOpen h h.last_approved refl t,
    λ closed. elim (Bool-cases (should_release_output (gate_input p now h)).0) [
      | inl e ↦ absurd (closed ((should_release_output-IsOpen (gate_input p now h)).0 e))
      | inr e ↦ stopped h e
    ],
  )
