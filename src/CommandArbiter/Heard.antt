-- ===== src/CommandArbiter/Heard.antt =====
-- What command_arbiter_node.py has stored after any callbacks: the last message of each candidate topic.
use huma_ware.Common.{
  ℕ, String, ◌≡◌, refl, Option, none, some, List, [], ◌∷◌, arith, ◌==◌, if◌then◌else◌,
}
use huma_ware.Common.Dict.{code_eq, get, get-put}
use huma_ware.Ros.Time.{Time}
use huma_ware.Ros.Twist.{TwistStamped}
use huma_ware.Msgs.ModeState.{mode_teleop, mode_autonomy, mode_ai_policy}
use huma_ware.Msgs.SafetyState.{SafetyState}
use huma_ware.Msgs.CommandArbitrationState.{source_teleop, source_autonomy, source_ai_policy}
use huma_ware.CommandArbiter.Select.{CandidateCommand}
use huma_ware.CommandArbiter.Node.{
  CommandArbiter, init, on_mode_state, on_safety_state, on_teleop, on_autonomy, on_policy,
}

-- The callbacks that change the state, with what they receive.
pub data Event (F : Type 0) : Type 0 where
  mode_state : ℕ → Event F
  safety_state : SafetyState → Event F
  teleop autonomy policy : TwistStamped F → Time → Event F

-- The mode and the name that each command subscription is created with.
abbrev pub mode_of : ℕ → ℕ
mode_of source =
    if source == source_teleop
    then mode_teleop
    else if source == source_autonomy
    then mode_autonomy
    else mode_ai_policy

abbrev pub name_of : ℕ → String
name_of source =
    if source == source_teleop
    then "teleop"
    else if source == source_autonomy
    then "autonomy"
    else "ai_policy"

module _ {F : Type 0} where
  unfoldable pub step : Event F → CommandArbiter F → CommandArbiter F
  unfolding on_mode_state on_safety_state on_teleop on_autonomy on_policy
  step (mode_state mode) a = on_mode_state mode a
  step (safety_state msg) a = on_safety_state msg a
  step (teleop msg now) a = on_teleop msg now a
  step (autonomy msg now) a = on_autonomy msg now a
  step (policy msg now) a = on_policy msg now a

  unfoldable pub run : List (Event F) → CommandArbiter F → CommandArbiter F
  run [] a = a
  run (e ∷ es) a = run es (step e a)

  -- The history of one topic, apart from any dictionary: its last message, if there was one.
  abbrev newer :
      Option (TwistStamped F × Time)
      → Option (TwistStamped F × Time)
      → Option (TwistStamped F × Time)
  newer none old = old
  newer (some m) old = some m

  abbrev pub heard : ℕ → Event F → Option (TwistStamped F × Time)
  heard source (teleop msg now) = if source == source_teleop then some (msg, now) else none
  heard source (autonomy msg now) = if source == source_autonomy then some (msg, now) else none
  heard source (policy msg now) = if source == source_ai_policy then some (msg, now) else none
  heard source (mode_state _) = none
  heard source (safety_state _) = none

  pub last_heard : ℕ → List (Event F) → Option (TwistStamped F × Time)
  last_heard source [] = none
  last_heard source (e ∷ es) = newer (last_heard source es) (heard source e)

  abbrev pub as_candidate : ℕ → Option (TwistStamped F × Time) → Option (CandidateCommand F)
  as_candidate source none = none
  as_candidate source (some (msg, now)) = some (record {
    source = source;
    name = name_of source;
    required_mode = mode_of source;
    msg = msg;
    received_at = now;
  })

  abbrev or_stored :
      Option (CandidateCommand F) → Option (CandidateCommand F) → Option (CandidateCommand F)
  or_stored none old = old
  or_stored (some c) old = some c

  step-candidates :
      (source : ℕ) (e : Event F) (a : CommandArbiter F)
      → get source (step e a).candidates
        ≡ or_stored (as_candidate source (heard source e)) (get source a.candidates)
  unfolding step
  step-candidates source (mode_state mode) a = refl
  step-candidates source (safety_state msg) a = refl
  step-candidates source (teleop msg now) a = rw get-put (ground arith)
  step-candidates source (autonomy msg now) a = rw get-put (ground arith)
  step-candidates source (policy msg now) a = rw get-put (ground arith)

  run-candidates :
      (source : ℕ) (es : List (Event F)) (a : CommandArbiter F)
      → get source (run es a).candidates
        ≡ or_stored (as_candidate source (last_heard source es)) (get source a.candidates)
  unfolding run last_heard
  run-candidates source [] a = refl
  run-candidates source (e ∷ es) a =
      ground (arith, run-candidates source es (step e a), step-candidates source e a)

  pub stored-last_heard :
      (source : ℕ) (es : List (Event F))
      → get source (run es init).candidates ≡ as_candidate source (last_heard source es)
  unfolding get
  stored-last_heard source es = ground (arith, run-candidates source es init)
