-- ===== src/Launch/Actions.antt =====
-- The actions of the launch system that the launch files use. What a LaunchConfiguration stands for is a
-- parameter of the descriptions, from the name of the argument to its text; so are the test of
-- IfCondition, which raises on a text that is no Boolean, and whether the value of a parameter converts to
-- its type. A declaration has the argument's name, its default and its description.
use huma_ware.Common.{String, Bool, true, false, ◌&&◌, Option, none, some, List, [], ◌∷◌}

-- The value of a parameter: a text, or one that is read as a float or a Boolean.
pub data ParameterValue : Type 0 where
  text_value float_value bool_value : String → ParameterValue

pub record NodeAction : Type 0 where
  pub package_name : String
  pub executable : String
  pub namespace : String
  pub name : String
  pub output : String
  pub emulate_tty : Bool
  pub condition : Option String
  pub parameters : List (String × ParameterValue)

pub data Action : Type 0 where
  declare_launch_argument : String → String → String → Action
  log_info : List String → Action
  node : NodeAction → Action

-- The text of each argument.
abbrev pub Configuration : Type 0
Configuration = String → String

abbrev pub all_convert : (ParameterValue → Bool) → List (String × ParameterValue) → Bool
all_convert converts [] = true
all_convert converts ((name, value) ∷ rest) = converts value && all_convert converts rest

module _ (is_true : String → Option Bool) (converts : ParameterValue → Bool) where
  abbrev pub condition_holds : Option String → Option Bool
  condition_holds none = some true
  condition_holds (some text) = is_true text

  abbrev pub start :
      Option Bool → Bool → NodeAction → Option (List NodeAction) → Option (List NodeAction)
  start none good n rest = none
  start (some false) good n rest = rest
  start (some true) false n rest = none
  start (some true) true n none = none
  start (some true) true n (some ns) = some (n ∷ ns)

  -- The nodes that the launch system starts; `none` is an exception, which ends the launch.
  unfoldable pub started : List Action → Option (List NodeAction)
  started [] = some []
  started (node n ∷ rest) =
      start (condition_holds n.condition) (all_convert converts n.parameters) n (started rest)
  started (_ ∷ rest) = started rest
