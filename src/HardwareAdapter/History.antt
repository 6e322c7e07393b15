-- ===== src/HardwareAdapter/History.antt =====
-- The tick of template_adapter_node.py by the messages that the adapter received, apart from its fields.
use huma_ware.Common.{ℕ, ◌≡◌, refl, sym, subst, ◌∙◌, inl, Option, none, some, List, [], ◌∷◌, arith}
use huma_ware.Ros.Time.{Time}
use huma_ware.Ros.Twist.{TwistStamped}
use huma_ware.Msgs.ModeState.{mode_inactive}
use huma_ware.Msgs.SafetyState.{state_unknown}
use huma_ware.Msgs.MrmState.{state_none}
use huma_ware.Msgs.CommandArbitrationState.{CommandArbitrationState}
use huma_ware.HardwareAdapter.Gate.{GateInput, gate_open_reason, should_release_output}
use huma_ware.HardwareAdapter.Node.{
  Params, HardwareAdapter, apply_to_hardware, stop_hardware, init, output_enabled, gate_input, tick,
}
use huma_ware.HardwareAdapter.Release.{
  IsOpen, Event, safety_state, mrm_state, mode_state, approved_command, arbitration_state, step,
  run, run-AreTogether, decided,
}

abbrev pub newer : {M : Type 0} → Option M → Option M → Option M
newer none old = old
newer (some m) old = some m

newer-none : {M : Type 0} (m : Option M) → newer m none ≡ m
newer-none none = refl
newer-none (some m) = refl

-- What a list of events brought last on a topic.
abbrev pub last : {A M : Type 0} → (A → Option M) → List A → Option M
last topic [] = none
last topic (e ∷ es) = newer (last topic es) (topic e)

abbrev pub or_code : Option ℕ → ℕ → ℕ
or_code none code = code
or_code (some m) code = m

abbrev pub time_of : {M : Type 0} → Option (M × Time) → Option Time
time_of none = none
time_of (some (m, t)) = some t

abbrev pub message_of : {M : Type 0} → Option (M × Time) → Option M
message_of none = none
message_of (some (m, t)) = some m

module _ {F : Type 0} where
  abbrev pub safety_states : Event F → Option ℕ
  safety_states (safety_state state) = some state
  safety_states _ = none

  abbrev pub mrm_states : Event F → Option ℕ
  mrm_states (mrm_state state) = some state
  mrm_states _ = none

  abbrev pub modes : Event F → Option ℕ
  modes (mode_state mode) = some mode
  modes _ = none

  abbrev pub approved : Event F → Option (TwistStamped F × Time)
  approved (approved_command m t) = some (m, t)
  approved _ = none

  abbrev pub arbitrations : Event F → Option (CommandArbitrationState × Time)
  arbitrations (arbitration_state m t) = some (m, t)
  arbitrations _ = none

  -- The adapter that hears some events: on each topic the last message, or what it had.
  abbrev described : List (Event F) → HardwareAdapter F → HardwareAdapter F
  described es h = record {
    safety_state = or_code (last safety_states es) h.safety_state;
    mrm_state = or_code (last mrm_states es) h.mrm_state;
    active_mode = or_code (last modes es) h.active_mode;
    last_approved = newer (message_of (last approved es)) h.last_approved;
    last_approved_at = newer (time_of (last approved es)) h.last_approved_at;
    last_arbitration = newer (message_of (last arbitrations es)) h.last_arbitration;
    last_arbitration_at = newer (time_of (last arbitrations es)) h.last_arbitration_at;
  }

  described-step :
      (e : Event F) (es : List (Event F)) (h : HardwareAdapter F)
      → described es (step e h) ≡ described (e ∷ es) h
  unfolding step
  described-step (safety_state state) es h = ground arith
  described-step (mrm_state state) es h = ground arith
  described-step (mode_state mode) es h = ground arith
  described-step (approved_command m t) es h = ground arith
  described-step (arbitration_state m t) es h = ground arith

  run-described : (es : List (Event F)) (h : HardwareAdapter F) → run es h ≡ described es h
  unfolding run
  run-described [] h = refl
  run-described (e ∷ es) h = run-described es (step e h) ∙ described-step e es h

  -- What the gate is asked, by the messages received: before the first one the safety state is unknown,
  -- there is no MRM, the mode is inactive, and nothing was approved or arbitrated.
  abbrev pub heard_input : Params → Time → List (Event F) → GateInput
  heard_input p now es = record {
    safety_state = or_code (last safety_states es) state_unknown;
    mrm_state = or_code (last mrm_states es) state_none;
    active_mode = or_code (last modes es) mode_inactive;
    last_approved_at = time_of (last approved es);
    last_arbitration_at = time_of (last arbitrations es);
    arbitration_output_enabled = output_enabled (message_of (last arbitrations es));
    now = now;
    approved_command_timeout = p.approved_command_timeout;
    arbitration_state_timeout = p.arbitration_state_timeout;
  }

  approved_run : (es : List (Event F)) → (run es init).last_approved ≡ message_of (last approved es)
  approved_run es = rw (run-described es init, newer-none (message_of (last approved es)))

  gate_input-run :
      (p : Params) (now : Time) (es : List (Event F))
      → gate_input p now (run es init) ≡ heard_input p now es
  gate_input-run p now es = rw (
    run-described es init,
    newer-none (time_of (last approved es)),
    newer-none (time_of (last arbitrations es)),
    newer-none (message_of (last arbitrations es)),
  )

  -- After any callbacks, with the gate asked on the last message received on each topic: where it is
  -- open, a tick hands the last approved command received to the hardware, with the reason
  -- "approved_command"; where it is closed, the tick orders a stop with the reason of the gate.
  pub tick-heard :
      (p : Params) (now : Time) (es : List (Event F))
      → (IsOpen (heard_input p now es)
          → (msg : TwistStamped F) × (message_of (last approved es) ≡ some msg)
            × ((tick p now (run es init)).1 ≡ apply_to_hardware msg gate_open_reason))
        × (¬ IsOpen (heard_input p now es)
            → (tick p now (run es init)).1
              ≡ stop_hardware (should_release_output (heard_input p now es)).1)
  tick-heard p now es =
      let g = gate_input-run p now es in
      let (opens, closes) =
        decided p now (run es init) (run-AreTogether es init (inl (refl, refl))) in
      (
        λ o.
            let (msg, e, a) = opens (subst IsOpen (sym g) o) in (msg, sym (approved_run es) ∙ e, a),
        λ c.
            subst (λ i. (tick p now (run es init)).1 ≡ stop_hardware (should_release_output i).1) g
              (closes (λ o. c (subst IsOpen g o))),
      )
