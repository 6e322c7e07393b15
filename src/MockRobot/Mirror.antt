-- ===== src/MockRobot/Mirror.antt =====
-- What the humanoid state of mock_robot_node.py repeats.
use huma_ware.Common.{ℕ, ◌≡◌, refl, Option, none, some, List, [], ◌∷◌, arith}
use huma_ware.Ros.Time.{Time}
use huma_ware.MockRobot.Node.{
  Params, MockRobot, init, on_mode_state, on_locomotion_state, on_safety_state, publish_state,
}

pub data Event : Type 0 where
  mode_state locomotion_state safety_state : ℕ → Event

unfoldable pub step : Event → MockRobot → MockRobot
unfolding on_mode_state on_locomotion_state on_safety_state
step (mode_state mode) s = on_mode_state mode s
step (locomotion_state state) s = on_locomotion_state state s
step (safety_state state) s = on_safety_state state s

unfoldable pub run : List Event → MockRobot → MockRobot
unfolding step
run [] s = s
run (e ∷ es) s = run es (step e s)

-- The last code that a topic brought, or the one before.
abbrev or_before : Option ℕ → ℕ → ℕ
or_before none n = n
or_before (some m) n = m

abbrev last : (Event → Option ℕ) → List Event → ℕ → ℕ
last topic [] n = n
last topic (e ∷ es) n = last topic es (or_before (topic e) n)

abbrev modes : Event → Option ℕ
modes (mode_state mode) = some mode
modes _ = none

abbrev locomotion_states : Event → Option ℕ
locomotion_states (locomotion_state state) = some state
locomotion_states _ = none

abbrev safety_states : Event → Option ℕ
safety_states (safety_state state) = some state
safety_states _ = none

-- A node that holds the last code of each topic.
abbrev mirror : List Event → MockRobot → MockRobot
mirror es s = record {
  active_mode = last modes es s.active_mode;
  locomotion_state = last locomotion_states es s.locomotion_state;
  safety_state = last safety_states es s.safety_state;
}

run-mirror : (es : List Event) (s : MockRobot) → run es s ≡ mirror es s
unfolding run step
run-mirror [] s = refl
run-mirror (mode_state n ∷ es) s = run-mirror es (step (mode_state n) s)
run-mirror (locomotion_state n ∷ es) s = run-mirror es (step (locomotion_state n) s)
run-mirror (safety_state n ∷ es) s = run-mirror es (step (safety_state n) s)

module _ {F : Type 0} (whole : ℕ → F) (p : Params F) (now : Time) (es : List Event) where
  -- After any callbacks, in any order, the published humanoid state repeats the last mode, the last
  -- locomotion state and the last safety state, or the initial ones before the first message, and
  -- the balance state that is published with it.
  publish_state-mirrors :
      let (balance, _, humanoid) = publish_state whole p now (run es init) in
      (humanoid.mode ≡ last modes es init.active_mode)
      × (humanoid.locomotion_state ≡ last locomotion_states es init.locomotion_state)
      × (humanoid.safety_state ≡ last safety_states es init.safety_state)
      × (humanoid.balance_state ≡ balance.state)
  unfolding publish_state
  publish_state-mirrors = ground (arith, run-mirror es init)
