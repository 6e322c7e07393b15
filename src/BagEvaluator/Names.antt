-- ===== src/BagEvaluator/Names.antt =====
-- What evaluator.py makes of topic names: the round trip through a namespace, and what counts as an
-- observation of a required topic.
use Prim.Native.String.{◌++◌ as concat}
use text.Mathlib.TextLemmas.{nil-append, cons-append}
use huma_ware.Common.{
  String, ◌≡◌, refl, sym, ap, subst, ◌≢◌, ◌↔◌, ◌⊎◌, inl, inr, true, false, ◌||◌, some, List, [],
  ◌∷◌, arith, eq_iff, str_eq, In, is_some, Bool-cases, if-elim, ◌∙◌, if-elim, ◌∙◌,
}
use huma_ware.Common.Dict.{get, text_key}
use huma_ware.BagEvaluator.Topics.{
  watched_fields_by_topic, is_slash, lstrip, ends_with, after_slash, normalize_topic, matches,
  required_topic_present,
}

abbrev pub NoSlash : String → Type 0
NoSlash String.[] = Unit
NoSlash (String.◌∷◌ c s) = (is_slash c ≡ false) × NoSlash s

-- A text of slashes alone.
abbrev pub IsSlashes : String → Type 0
IsSlashes String.[] = Unit
IsSlashes (String.◌∷◌ c s) = (is_slash c ≡ true) × IsSlashes s

-- A text that does not start with a slash.
abbrev pub IsRelative : String → Type 0
IsRelative String.[] = Unit
IsRelative (String.◌∷◌ c s) = is_slash c ≡ false

lstrip-IsRelative : (s : String) → IsRelative s → lstrip s ≡ s
unfolding lstrip
lstrip-IsRelative String.[] h = refl
lstrip-IsRelative (String.◌∷◌ c s) h = rw h

lstrip-append : (p s : String) → IsSlashes p → lstrip (concat p s) ≡ lstrip s
unfolding lstrip
lstrip-append String.[] s h = ap lstrip (nil-append s)
lstrip-append (String.◌∷◌ c p) s (h, k) = rw (cons-append, h, lstrip-append p s k)

after_slash-append : (p s : String) → NoSlash p → after_slash (concat p (concat "/" s)) ≡ some s
unfolding after_slash
after_slash-append String.[] s h = rw (nil-append, cons-append, nil-append)
after_slash-append (String.◌∷◌ c p) s (h, k) = rw (cons-append, h, after_slash-append p s k)

ends_with_refl : (s : String) → ends_with s s ≡ true
unfolding ends_with
ends_with_refl String.[] = refl
ends_with_refl (String.◌∷◌ c s) = ground (arith, eq_iff (String.◌∷◌ c s) (String.◌∷◌ c s))

ends_with-append : (p suffix : String) → ends_with (concat p suffix) suffix ≡ true
unfolding ends_with
ends_with-append String.[] suffix =
    subst (λ s. ends_with s suffix ≡ true) (sym (nil-append suffix)) (ends_with_refl suffix)
ends_with-append (String.◌∷◌ c p) suffix =
    rw cons-append (ground (arith, ends_with-append p suffix))

-- A text that ends with the suffix, after some prefix.
abbrev pub HasSuffix : String → String → Type 0
HasSuffix s suffix = (p : String) × (s ≡ concat p suffix)

ends_with-HasSuffix : (s suffix : String) → ends_with s suffix ≡ true → HasSuffix s suffix
unfolding ends_with
ends_with-HasSuffix String.[] suffix h = ("", (eq_iff "" suffix).0 h ∙ sym (nil-append suffix))
ends_with-HasSuffix (String.◌∷◌ c s) suffix h = elim (Bool-cases (str_eq (String.◌∷◌ c s) suffix)) [
  | inl e ↦ ("", (eq_iff (String.◌∷◌ c s) suffix).0 e ∙ sym (nil-append suffix))
  | inr e ↦
      let (p, q) = ends_with-HasSuffix s suffix (ground arith) in
      (String.◌∷◌ c p, ap (String.◌∷◌ c) q ∙ sym (cons-append c p suffix))
]

ends_with_iff : (s suffix : String) → (ends_with s suffix ≡ true) ↔ HasSuffix s suffix
ends_with_iff s suffix = (
  ends_with-HasSuffix s suffix,
  λ (p, e). subst (λ x. ends_with x suffix ≡ true) (sym e) (ends_with-append p suffix),
)

-- `n` is what is left of `s` without its leading slashes.
abbrev pub Strips : String → String → Type 0
Strips s n = (k : String) × IsSlashes k × IsRelative n × (s ≡ concat k n)

lstrip-Strips : (s : String) → Strips s (lstrip s)
unfolding lstrip
lstrip-Strips String.[] = ("", tt, tt, sym (nil-append ""))
lstrip-Strips (String.◌∷◌ c s) =
    let (k, a, b, q) = lstrip-Strips s in
    if-elim (Strips (String.◌∷◌ c s)) _ _ (is_slash c)
      (λ e. (String.◌∷◌ c k, (e, a), b, ap (String.◌∷◌ c) q ∙ sym (cons-append c k (lstrip s))))
      (λ e. ("", tt, e, sym (nil-append (String.◌∷◌ c s))))

Strips-lstrip : (s n : String) → Strips s n → lstrip s ≡ n
Strips-lstrip s n (k, a, b, q) = ap lstrip q ∙ (lstrip-append k n a ∙ lstrip-IsRelative n b)

-- The observed topic is the required one, whole or in a namespace, with or without leading slashes.
abbrev pub Observes : String → String → Type 0
Observes required_topic observed =
    (n : String) × Strips observed n
    × ((n ≡ required_topic) ⊎ HasSuffix n (concat "/" required_topic))

matches_cases :
    (n required_topic : String)
    → ((str_eq n required_topic || ends_with n (concat "/" required_topic)) ≡ true)
      ↔ ((n ≡ required_topic) ⊎ HasSuffix n (concat "/" required_topic))
matches_cases n required_topic =
    ground (arith, eq_iff n required_topic, ends_with_iff n (concat "/" required_topic))

matches-Observes :
    (required_topic observed : String)
    → (matches required_topic observed ≡ true) ↔ Observes required_topic observed
unfolding matches
matches-Observes required_topic observed = (
  λ h. (
    lstrip observed,
    lstrip-Strips observed,
    (matches_cases (lstrip observed) required_topic).0 h,
  ),
  λ (n, st, c).
      subst (λ x. (str_eq x required_topic || ends_with x (concat "/" required_topic)) ≡ true)
        (sym (Strips-lstrip observed n st)) ((matches_cases n required_topic).1 c),
)

-- Some topic of the list observes the required one.
abbrev pub IsObserved : String → List String → Type 0
IsObserved required_topic topics =
    (observed : String) × In observed topics × Observes required_topic observed

required_topic_present-here :
    (r o : String) (topics : List String)
    → matches r o ≡ true
    → required_topic_present r (o ∷ topics) ≡ true
unfolding required_topic_present
required_topic_present-here r o topics h = rw h

required_topic_present-there :
    (r o : String) (topics : List String)
    → required_topic_present r topics ≡ true
    → required_topic_present r (o ∷ topics) ≡ true
unfolding required_topic_present
required_topic_present-there r o topics h = ground (arith, h)

IsObserved-present :
    (r o : String) (topics : List String)
    → In o topics
    → Observes r o
    → required_topic_present r topics ≡ true
IsObserved-present r o [] i h = absurd i
IsObserved-present r o (x ∷ topics) (inl e) h =
    required_topic_present-here r x topics
      (subst (λ y. matches r y ≡ true) e ((matches-Observes r o).1 h))
IsObserved-present r o (x ∷ topics) (inr i) h =
    required_topic_present-there r x topics (IsObserved-present r o topics i h)

present-IsObserved :
    (r : String) (topics : List String)
    → required_topic_present r topics ≡ true
    → IsObserved r topics
unfolding required_topic_present
present-IsObserved r [] h = absurd (ground arith)
present-IsObserved r (x ∷ topics) h = elim (Bool-cases (matches r x)) [
  | inl e ↦ (x, inl refl, (matches-Observes r x).0 e)
  | inr e ↦ let (o, i, k) = present-IsObserved r topics (ground arith) in (o, inr i, k)
]

-- A required topic counts as present exactly when some observed topic, its leading slashes dropped, is
-- that topic or ends with a slash and that topic.
pub required_topic_present-IsObserved :
    (required_topic : String) (topics : List String)
    → (required_topic_present required_topic topics ≡ true) ↔ IsObserved required_topic topics
required_topic_present-IsObserved r topics =
    (present-IsObserved r topics, λ (o, i, h). IsObserved-present r o topics i h)

-- The topics whose fields are watched.
abbrev pub IsWatched : String → Type 0
IsWatched topic = is_some (get topic watched_fields_by_topic) ≡ true

-- A robot's name is a namespace: a text without slashes, and not empty.
abbrev pub IsNamespace : String → Type 0
IsNamespace robot_id = NoSlash robot_id × (robot_id ≢ "")

pub IsNamespace-IsRelative :
    (robot_id rest : String) → IsNamespace robot_id → IsRelative (concat robot_id rest)
IsNamespace-IsRelative String.[] rest (h, n) = absurd (n refl)
IsNamespace-IsRelative (String.◌∷◌ c s) rest ((h, k), n) = rw cons-append h

-- A watched topic that is recorded in the namespace of a robot is read back as that topic, whatever
-- number of slashes stands in front.
pub normalize_topic-namespace :
    (slashes robot_id topic : String)
    → IsSlashes slashes
    → IsNamespace robot_id
    → IsWatched topic
    → normalize_topic (concat slashes (concat robot_id (concat "/" topic))) ≡ topic
unfolding normalize_topic
normalize_topic-namespace k r t a b w =
    let full = concat r (concat "/" t) in
    let stripped =
      Strips-lstrip (concat k full) full (k, a, IsNamespace-IsRelative r (concat "/" t) b, refl) in
    rw (stripped, after_slash-append r t b.0, w)
