-- ===== src/CommandArbiter/Priority.antt =====
-- Which candidate `select_candidate` of command_arbiter_node.py approves, and why it approves none.
use huma_ware.Common.{
  ℕ, String, ◌≡◌, refl, ◌↔◌, ◌⊎◌, inl, inr, Bool, true, false, ◌&&◌, Option, none, some, List, [],
  ◌∷◌, arith, elem, All, Bool-cases, eq_iff,
}
use huma_ware.Common.Dict.{Dict, code_eq, get}
use huma_ware.Ros.Time.{Time, Duration, is_within}
use huma_ware.CommandArbiter.Select.{
  source_priority, CandidateCommand, eligible, first_fresh, select_candidate, should_publish_stop,
}
use huma_ware.Msgs.SafetyState.{state_ok, state_warn, state_fault, state_estop, state_mrm}
use huma_ware.Msgs.ModeState.{mode_inactive, mode_maintenance, mode_fault, mode_shutdown}

module _ {F : Type 0} (active_mode : ℕ) (now : Time) (command_timeout : Duration) where
  -- The candidate was given for the active mode and is no older than the timeout.
  abbrev pub IsFresh : CandidateCommand F → Type 0
  IsFresh c = (c.required_mode ≡ active_mode) × (is_within now c.received_at command_timeout ≡ true)

  eligible-IsFresh :
      (found : Option (CandidateCommand F)) (c : CandidateCommand F)
      → found ≡ some c
      → (eligible active_mode now command_timeout found ≡ true) ↔ IsFresh c
  unfolding eligible
  eligible-IsFresh found c e = ground arith

  eligible-some :
      (found : Option (CandidateCommand F))
      → eligible active_mode now command_timeout found ≡ true
      → (c : CandidateCommand F) × (found ≡ some c) × IsFresh c
  unfolding eligible
  eligible-some none h = cc
  eligible-some (some c) h = (c, refl, (eligible-IsFresh (some c) c refl).0 h)

module _ {F : Type 0} (mode : ℕ) (now : Time) (timeout : Duration)
    (candidates : Dict ℕ (CandidateCommand F)) where
  -- No candidate is stored for the source, or one that is not fresh.
  abbrev pub IsPassed : ℕ → Type 0
  IsPassed source =
      (d : CandidateCommand F) → get source candidates ≡ some d → ¬ IsFresh mode now timeout d

  -- `c` is the fresh candidate of the first source of the list that has one.
  pub data First (c : CandidateCommand F) : List ℕ → Type 0 where
    take :
        {source : ℕ} {rest : List ℕ}
        → get source candidates ≡ some c
        → IsFresh mode now timeout c
        → First c (source ∷ rest)
    pass : {source : ℕ} {rest : List ℕ} → IsPassed source → First c rest → First c (source ∷ rest)

  ineligible-IsPassed :
      (source : ℕ) → eligible mode now timeout (get source candidates) ≡ false → IsPassed source
  ineligible-IsPassed source h d e f =
      cc (h, (eligible-IsFresh mode now timeout (get source candidates) d e).1 f)

  IsPassed-ineligible :
      (source : ℕ) → IsPassed source → eligible mode now timeout (get source candidates) ≡ false
  IsPassed-ineligible source h =
      elim (Bool-cases (eligible mode now timeout (get source candidates))) [
        | inl e ↦
            let (d, found, fresh) = eligible-some mode now timeout (get source candidates) e in
            absurd (h d found fresh)
        | inr e ↦ e
      ]

  first_fresh-First :
      (sources : List ℕ) (c : CandidateCommand F)
      → first_fresh mode now timeout candidates sources ≡ some c
      → First c sources
  unfolding first_fresh
  first_fresh-First [] c h = absurd (cc)
  first_fresh-First (source ∷ rest) c h =
      elim (Bool-cases (eligible mode now timeout (get source candidates))) [
        | inl e ↦
            let found : get source candidates ≡ some c = rw e at h in
            take found ((eligible-IsFresh mode now timeout (get source candidates) c found).0 e)
        | inr e ↦ pass (ineligible-IsPassed source e) (first_fresh-First rest c (rw e at h))
      ]

  First-first_fresh :
      (c : CandidateCommand F) (sources : List ℕ)
      → First c sources
      → first_fresh mode now timeout candidates sources ≡ some c
  unfolding first_fresh
  First-first_fresh c _ (take {source = s} e f) =
      rw ((eligible-IsFresh mode now timeout (get s candidates) c e).1 f) e
  First-first_fresh c _ (pass {source = s} {rest = r} p later) =
      rw (IsPassed-ineligible s p) (First-first_fresh c r later)

  none-IsPassed :
      (sources : List ℕ)
      → first_fresh mode now timeout candidates sources ≡ none
      → All IsPassed sources
  unfolding first_fresh
  none-IsPassed [] h = tt
  none-IsPassed (source ∷ rest) h =
      elim (Bool-cases (eligible mode now timeout (get source candidates))) [
        | inl e ↦
            let (d, found, fresh) = eligible-some mode now timeout (get source candidates) e in
            let gone : get source candidates ≡ none = rw e at h in absurd (cc (found, gone))
        | inr e ↦ (ineligible-IsPassed source e, none-IsPassed rest (rw e at h))
      ]

  IsPassed-none :
      (sources : List ℕ)
      → All IsPassed sources
      → first_fresh mode now timeout candidates sources ≡ none
  unfolding first_fresh
  IsPassed-none [] h = refl
  IsPassed-none (source ∷ rest) h = rw (IsPassed-ineligible source h.0) (IsPassed-none rest h.1)

  -- What the selection asks of the safety state and of the mode before it looks at candidates.
  abbrev pub IsReady : Bool → ℕ → Type 0
  IsReady safety_seen safety_state =
      (safety_seen ≡ true)
      × (elem safety_state (state_ok ∷ state_warn ∷ []) ≡ true)
      × (elem mode (mode_inactive ∷ mode_maintenance ∷ mode_fault ∷ mode_shutdown ∷ []) ≡ false)

  -- `select_candidate` returns `c` exactly when a safety state was seen and is OK or WARN, the mode is
  -- none of the four inactive ones, and `c` is the first candidate in the order of priority that is
  -- for the active mode and no older than the timeout; the reason is then "approved".
  pub select_candidate-approves :
      (safety_seen : Bool) (safety_state : ℕ) (c : CandidateCommand F) (reason : String)
      → (select_candidate mode safety_seen safety_state candidates now timeout ≡ (some c, reason))
        ↔ (IsReady safety_seen safety_state × First c source_priority × (reason ≡ "approved"))
  unfolding select_candidate
  select_candidate-approves seen state c reason =
      ground (arith, first_fresh-First source_priority c, First-first_fresh c source_priority)

  -- The refusals in the order in which the code tests for them.
  abbrev pub Refusal : Bool → ℕ → String → Type 0
  Refusal seen state reason =
      ((seen ≡ false) × (reason ≡ "waiting_for_safety_state"))
      ⊎ ((seen ≡ true)
          × (elem state (state_fault ∷ state_estop ∷ state_mrm ∷ []) ≡ true)
          × (reason ≡ "safety_state_blocks_output"))
      ⊎ ((seen ≡ true)
          × (elem state (state_fault ∷ state_estop ∷ state_mrm ∷ []) ≡ false)
          × (elem state (state_ok ∷ state_warn ∷ []) ≡ false)
          × (reason ≡ "safety_state_not_ready"))
      ⊎ ((seen ≡ true)
          × (elem state (state_ok ∷ state_warn ∷ []) ≡ true)
          × (elem mode (mode_inactive ∷ mode_maintenance ∷ mode_fault ∷ mode_shutdown ∷ []) ≡ true)
          × (reason ≡ "active_mode_blocks_output"))
      ⊎ (IsReady seen state
          × All IsPassed source_priority
          × (reason ≡ "no_fresh_command_for_active_mode"))

  -- `select_candidate` returns no candidate exactly for one of five reasons, in this order: no safety
  -- state was seen, it is a blocking one, it is not an allowed one, the mode is inactive, or no stored
  -- candidate is fresh for the mode; and it returns the text of that reason.
  pub select_candidate-refuses :
      (safety_seen : Bool) (safety_state : ℕ) (reason : String)
      → (select_candidate mode safety_seen safety_state candidates now timeout ≡ (none, reason))
        ↔ Refusal safety_seen safety_state reason
  unfolding select_candidate
  select_candidate-refuses seen state reason =
      ground (arith, none-IsPassed source_priority, IsPassed-none source_priority)

  -- A refusal leads to a stop command exactly when stops are configured and a safety state was seen.
  pub Refusal-stops :
      (seen : Bool) (state : ℕ) (stop : Bool) (reason : String)
      → Refusal seen state reason
      → should_publish_stop reason stop ≡ (stop && seen)
  unfolding should_publish_stop
  Refusal-stops seen state stop reason h = ground (
    arith,
    eq_iff reason "safety_state_blocks_output",
    eq_iff reason "safety_state_not_ready",
    eq_iff reason "active_mode_blocks_output",
    eq_iff reason "no_fresh_command_for_active_mode",
    eq_iff "waiting_for_safety_state" "safety_state_blocks_output",
    eq_iff "waiting_for_safety_state" "safety_state_not_ready",
    eq_iff "waiting_for_safety_state" "active_mode_blocks_output",
    eq_iff "waiting_for_safety_state" "no_fresh_command_for_active_mode",
  )
