-- ===== src/Launch/Coverage.antt =====
-- The topics of mock_bringup.launch.py against those that evaluator.py requires of a bag.
use Prim.Native.String.{◌++◌ as concat}
use huma_ware.Common.{
  ℕ, String, ◌≡◌, refl, sym, subst, ◌⊎◌, inl, inr, Bool, true, false, Option, none, some, List, [],
  ◌∷◌, ◌++◌, arith, In, get_elem?, get_elem?-In,
}
use huma_ware.BagEvaluator.Topics.{default_required_topics, required_topic_present}
use huma_ware.BagEvaluator.Names.{
  IsNamespace, IsNamespace-IsRelative, Observes, required_topic_present-IsObserved,
}
use huma_ware.Launch.Actions.{
  ParameterValue, NodeAction, Action, node, log_info, declare_launch_argument, Configuration,
  condition_holds, start, started,
}
use huma_ware.Launch.Bringup.{mock_bringup, sim_nav_demo}
use huma_ware.Launch.Topics.{resolve, published_by, topics}

abbrev in_namespace : String → String → String
in_namespace robot_id topic = concat "/" (concat robot_id (concat "/" topic))

in_namespace-Observes :
    (robot_id topic : String) → IsNamespace robot_id → Observes topic (in_namespace robot_id topic)
in_namespace-Observes robot_id topic h = (
  concat robot_id (concat "/" topic),
  ("/", (refl, tt), IsNamespace-IsRelative robot_id (concat "/" topic) h, refl),
  inr (robot_id, refl),
)

In-left : {A : Type 0} (a : A) (xs ys : List A) → In a xs → In a (xs ++ ys)
In-left a [] ys h = absurd h
In-left a (x ∷ xs) ys (inl e) = inl e
In-left a (x ∷ xs) ys (inr h) = inr (In-left a xs ys h)

In-right : {A : Type 0} (a : A) (xs ys : List A) → In a ys → In a (xs ++ ys)
In-right a [] ys h = h
In-right a (x ∷ xs) ys h = inr (In-right a xs ys h)

topics-In :
    (n : NodeAction) (nodes : List NodeAction) (t : String)
    → In n nodes
    → In t (published_by n)
    → In t (topics nodes)
topics-In n [] t h p = absurd h
topics-In n (m ∷ ms) t (inl e) p =
    In-left t (published_by m) (topics ms) (subst (λ x. In t (published_by x)) e p)
topics-In n (m ∷ ms) t (inr h) p = In-right t (published_by m) (topics ms) (topics-In n ms t h p)

module _ (is_true : String → Option Bool) (converts : ParameterValue → Bool) where
  abbrev Starts : Option Bool → NodeAction → Option (List NodeAction) → List NodeAction → Type 0
  Starts c n rest nodes =
      ((c ≡ some false) × (rest ≡ some nodes))
      ⊎ ((ns : List NodeAction) × (rest ≡ some ns) × (n ∷ ns ≡ nodes))

  start-Starts :
      (c : Option Bool) (good : Bool) (n : NodeAction) (rest : Option (List NodeAction))
      (nodes : List NodeAction)
      → start is_true converts c good n rest ≡ some nodes
      → Starts c n rest nodes
  start-Starts none good n rest nodes h = absurd (ground arith)
  start-Starts (some false) good n rest nodes h = inl (refl, h)
  start-Starts (some true) false n rest nodes h = absurd (ground arith)
  start-Starts (some true) true n none nodes h = absurd (ground arith)
  start-Starts (some true) true n (some ns) nodes h = inr (ns, refl, ground arith)

  head-In :
      (n m : NodeAction) (rest : Option (List NodeAction)) (nodes : List NodeAction)
      → node n ≡ node m
      → n.condition ≡ none
      → Starts (condition_holds is_true converts m.condition) m rest nodes
      → In n nodes
  head-In n m rest nodes e c (inl (f, r)) =
      let same : n ≡ m = ground arith in absurd (ground (arith, same, c, f))
  head-In n m rest nodes e c (inr (ns, r, s)) =
      let same : n ≡ m = ground arith in subst (In n) s (inl same)

  -- A node that has no condition is among those that a launch starts.
  started-In :
      (actions : List Action) (n : NodeAction) (nodes : List NodeAction)
      → In (node n) actions
      → n.condition ≡ none
      → started is_true converts actions ≡ some nodes
      → In n nodes
  unfolding started
  started-In [] n nodes i c h = absurd i
  started-In (node m ∷ rest) n nodes (inl e) c h =
      head-In n m (started is_true converts rest) nodes e c (start-Starts _ _ m _ nodes h)
  started-In (node m ∷ rest) n nodes (inr i) c h =
      elim (start-Starts _ _ m (started is_true converts rest) nodes h) [
        | inl (f, r) ↦ started-In rest n nodes i c r
        | inr (ns, r, s) ↦ subst (In n) s (inr (started-In rest n ns i c r))
      ]
  started-In (log_info x ∷ rest) n nodes (inl e) c h = absurd (ground arith)
  started-In (log_info x ∷ rest) n nodes (inr i) c h = started-In rest n nodes i c h
  started-In (declare_launch_argument x y z ∷ rest) n nodes (inl e) c h = absurd (ground arith)
  started-In (declare_launch_argument x y z ∷ rest) n nodes (inr i) c h =
      started-In rest n nodes i c h

  module _ (config : Configuration) (h : IsNamespace (config "robot_id")) (nodes : List NodeAction)
      (s : started is_true converts (mock_bringup config) ≡ some nodes) where
    found :
        (r topic : String) (n : NodeAction) (k j : ℕ)
        → r ≡ topic
        → n.condition ≡ none
        → get_elem? (mock_bringup config) k ≡ some (node n)
        → get_elem? (published_by n) j ≡ some (in_namespace (config "robot_id") topic)
        → required_topic_present r (topics nodes) ≡ true
    found r topic n k j e c g p =
        let there = started-In (mock_bringup config) n nodes (get_elem?-In _ k _ g) c s in
        let published = topics-In n nodes _ there (get_elem?-In (published_by n) j _ p) in
        subst (λ t. required_topic_present t (topics nodes) ≡ true) (sym e)
          ((required_topic_present-IsObserved topic (topics nodes)).1 (
            in_namespace (config "robot_id") topic,
            published,
            in_namespace-Observes (config "robot_id") topic h,
          ))

    -- Where the robot's name is a namespace and the launch raises nothing, the nodes that the mock
    -- bringup starts publish every topic that the bag evaluator requires by default.
    mock_bringup-required :
        (r : String) → In r default_required_topics → required_topic_present r (topics nodes) ≡ true
    unfolding mock_bringup resolve
    mock_bringup-required r (inl e) = found r "mode/state" _ 12 0 e refl refl refl
    mock_bringup-required r (inr (inl e)) = found r "mode/transition_state" _ 12 1 e refl refl refl
    mock_bringup-required r (inr (inr (inl e))) = found r "safety/state" _ 16 0 e refl refl refl
    mock_bringup-required r (inr (inr (inr (inl e)))) =
        found r "safety/mrm_state" _ 16 1 e refl refl refl
    mock_bringup-required r (inr (inr (inr (inr (inl e))))) =
        found r "locomotion/state" _ 17 0 e refl refl refl
    mock_bringup-required r (inr (inr (inr (inr (inr (inl e)))))) =
        found r "runtime/command_arbitration_state" _ 18 1 e refl refl refl
    mock_bringup-required r (inr (inr (inr (inr (inr (inr (inl e))))))) =
        found r "runtime/health" _ 19 0 e refl refl refl
    mock_bringup-required r (inr (inr (inr (inr (inr (inr (inr (inl e)))))))) =
        found r "cmd_vel/approved" _ 18 0 e refl refl refl
    mock_bringup-required r (inr (inr (inr (inr (inr (inr (inr (inr i)))))))) = absurd i

-- The navigation demo starts the nodes of the mock bringup.
sim_nav_demo-started :
    (is_true : String → Option Bool) (converts : ParameterValue → Bool) (config : Configuration)
    → started is_true converts (sim_nav_demo config)
      ≡ started is_true converts (mock_bringup config)
unfolding started sim_nav_demo
sim_nav_demo-started is_true converts config = refl
