-- ===== src/BagEvaluator/Topics.antt =====
-- evaluator.py, lines 12 to 21, 140 to 153 and 177 to 201: topic names, which of them are required, and
-- which fields are watched on them. The character "/" is the code 47.
use Prim.Native.Char.{Char, code}
use Prim.Native.String.{◌++◌ as concat}
use huma_ware.Common.{
  String, Bool, false, ◌||◌, Option, none, some, List, [], ◌∷◌, ◌==◌, str_eq, is_some,
  if◌then◌else◌,
}
use huma_ware.Common.Dict.{Dict, get, text_key}

abbrev pub default_required_topics : List String
default_required_topics =
    "mode/state" ∷ "mode/transition_state" ∷ "safety/state" ∷ "safety/mrm_state"
    ∷ "locomotion/state" ∷ "runtime/command_arbitration_state" ∷ "runtime/health"
    ∷ "cmd_vel/approved" ∷ []

abbrev pub watched_fields_by_topic : Dict String (List String)
watched_fields_by_topic =
    ("mode/state", "active_mode" ∷ [])
    ∷ ("mode/transition_state", "outcome" ∷ [])
    ∷ ("safety/state", "state" ∷ [])
    ∷ ("safety/mrm_state", "state" ∷ [])
    ∷ ("runtime/command_arbitration_state", "active_source" ∷ "output_enabled" ∷ [])
    ∷ ("runtime/health", "state" ∷ [])
    ∷ ("locomotion/state", "state" ∷ [])
    ∷ []

abbrev pub is_slash : Char → Bool
is_slash c = code c == 47

-- `text.lstrip("/")`
unfoldable pub lstrip : String → String
lstrip String.[] = ""
lstrip (String.◌∷◌ c s) = if is_slash c then lstrip s else String.◌∷◌ c s

-- `text.endswith(suffix)`
unfoldable pub ends_with : String → String → Bool
ends_with String.[] suffix = str_eq "" suffix
ends_with (String.◌∷◌ c s) suffix = str_eq (String.◌∷◌ c s) suffix || ends_with s suffix

-- `text.split("/", 1)[1]`, if there are two parts: what follows the first slash.
unfoldable pub after_slash : String → Option String
after_slash String.[] = none
after_slash (String.◌∷◌ c s) = if is_slash c then some s else after_slash s

abbrev pub known_part : Option String → String → String
known_part none stripped = stripped
known_part (some part) stripped =
    if is_some (get part watched_fields_by_topic) then part else stripped

unfoldable pub normalize_topic : String → String
unfolding lstrip after_slash
normalize_topic topic = let stripped = lstrip topic in known_part (after_slash stripped) stripped

abbrev pub or_no_fields : Option (List String) → List String
or_no_fields none = []
or_no_fields (some fields) = fields

unfoldable pub watched_fields : String → List String
unfolding normalize_topic
watched_fields topic = or_no_fields (get (normalize_topic topic) watched_fields_by_topic)

unfoldable pub matches : String → String → Bool
unfolding lstrip ends_with
matches required_topic observed =
    let stripped = lstrip observed in
    str_eq stripped required_topic || ends_with stripped (concat "/" required_topic)

unfoldable pub required_topic_present : String → List String → Bool
unfolding matches
required_topic_present required_topic [] = false
required_topic_present required_topic (observed ∷ topics) =
    matches required_topic observed || required_topic_present required_topic topics
