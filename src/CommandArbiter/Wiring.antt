-- ===== src/CommandArbiter/Wiring.antt =====
-- The subscriptions of command_arbiter_node.py, up to its output: the tick after any callbacks.
use huma_ware.Common.{
  ℕ, ◌≡◌, refl, sym, subst, In, ◌∙◌, ◌≢◌, ◌↔◌, inl, inr, true, false, Option, some, List, [], ◌∷◌,
  arith, elem, is_some,
}
use huma_ware.Common.Dict.{code_eq, get}
use huma_ware.Ros.Float.{FloatOps}
use huma_ware.Ros.Time.{Time}
use huma_ware.Ros.Twist.{TwistStamped}
use huma_ware.Msgs.ModeState.{mode_inactive, mode_maintenance, mode_fault, mode_shutdown}
use huma_ware.Msgs.SafetyState.{state_ok, state_warn}
use huma_ware.Msgs.CommandArbitrationState.{source_teleop, source_autonomy, source_ai_policy}
use huma_ware.CommandArbiter.Select.{CandidateCommand, source_priority}
use huma_ware.CommandArbiter.Priority.{IsFresh, First, take, pass}
use huma_ware.CommandArbiter.Node.{Params, CommandArbiter, init, tick, limit_command}
use huma_ware.CommandArbiter.Output.{IsApproved, IsBlockedOutput, tick-approved, tick-blocked}
use huma_ware.CommandArbiter.Heard.{
  Event, mode_of, run, last_heard, as_candidate, stored-last_heard,
}

module _ {F : Type 0} (p : Params F) (now : Time) (es : List (Event F)) where
  abbrev state : CommandArbiter F
  state = run es init

  -- `c` is the last message of the topic of a source for the active mode, and is fresh.
  abbrev pub IsLatest : CandidateCommand F → Type 0
  IsLatest c =
      (source : ℕ) × In source source_priority
      × (as_candidate source (last_heard source es) ≡ some c)
      × IsFresh state.active_mode now p.command_timeout c

  First-stored :
      (c : CandidateCommand F) (sources : List ℕ)
      → First state.active_mode now p.command_timeout state.candidates c sources
      → (source : ℕ) × In source sources
        × (get source state.candidates ≡ some c)
        × IsFresh state.active_mode now p.command_timeout c
  First-stored c _ (take {source = s} e f) = (s, inl refl, e, f)
  First-stored c _ (pass {rest = r} n later) =
      let (s, i, e, f) = First-stored c r later in (s, inr i, e, f)

  First-IsLatest :
      (c : CandidateCommand F)
      → First state.active_mode now p.command_timeout state.candidates c source_priority
      → IsLatest c
  First-IsLatest c h =
      let (s, i, e, f) = First-stored c source_priority h in
      (s, i, sym (stored-last_heard s es) ∙ e, f)

  -- A candidate that is stored for another source is for another mode.
  other_mode :
      (source other : ℕ) (m : Option (TwistStamped F × Time)) (c d : CandidateCommand F)
      → mode_of source ≢ mode_of other
      → IsFresh state.active_mode now p.command_timeout c
      → as_candidate source m ≡ some c
      → get other state.candidates ≡ some d
      → ¬ IsFresh state.active_mode now p.command_timeout d
  other_mode source other m c d ne f e g h = ground (arith, stored-last_heard other es)

  latest_at :
      (c : CandidateCommand F) (s k : ℕ)
      → s ≡ k
      → as_candidate s (last_heard s es) ≡ some c
      → as_candidate k (last_heard k es) ≡ some c
  latest_at c s k q = subst (λ n. as_candidate n (last_heard n es) ≡ some c) q

  stored_at :
      (c : CandidateCommand F) (k : ℕ)
      → as_candidate k (last_heard k es) ≡ some c
      → get k state.candidates ≡ some c
  stored_at c k e = stored-last_heard k es ∙ e

  IsLatest-First :
      (c : CandidateCommand F) (s : ℕ)
      → In s source_priority
      → as_candidate s (last_heard s es) ≡ some c
      → IsFresh state.active_mode now p.command_timeout c
      → First state.active_mode now p.command_timeout state.candidates c source_priority
  IsLatest-First c s (inl q) e f =
      take (stored_at c source_teleop (latest_at c s source_teleop q e)) f
  IsLatest-First c s (inr (inl q)) e f =
      let e' = latest_at c s source_autonomy q e in
      pass
        (λ d.
          other_mode source_autonomy source_teleop (last_heard source_autonomy es) c d (omega arith)
            f e')
        (take (stored_at c source_autonomy e') f)
  IsLatest-First c s (inr (inr (inl q))) e f =
      let e' = latest_at c s source_ai_policy q e in
      pass
        (λ d.
          other_mode source_ai_policy source_teleop (last_heard source_ai_policy es) c d
            (omega arith) f e')
        (pass
          (λ d.
            other_mode source_ai_policy source_autonomy (last_heard source_ai_policy es) c d
              (omega arith) f e')
          (take (stored_at c source_ai_policy e') f))
  IsLatest-First c s (inr (inr (inr q))) e f = absurd q

  -- Some safety state was seen, and the last one lets commands through.
  abbrev pub SafetyAllows : Type 0
  SafetyAllows =
      (is_some state.last_safety ≡ true)
      × (elem state.safety_state (state_ok ∷ state_warn ∷ []) ≡ true)

  IsLatest-active :
      (c : CandidateCommand F)
      → IsLatest c
      → elem state.active_mode (mode_inactive ∷ mode_maintenance ∷ mode_fault ∷ mode_shutdown ∷ [])
        ≡ false
  IsLatest-active c (s, i, e, f) = ground arith

module _ {F : Type 0} ⦃o : FloatOps F⦄ (p : Params F) (now : Time) (es : List (Event F)) where
  IsApproved-IsLatest :
      (c : CandidateCommand F)
      → IsApproved p now (run es init) c ↔ (SafetyAllows p now es × IsLatest p now es c)
  IsApproved-IsLatest c = (
    λ h. ((h.0.0, h.0.1), First-IsLatest p now es c h.1),
    λ h. (
      (h.0.0, h.0.1, IsLatest-active p now es c h.1),
      IsLatest-First p now es c h.1.0 h.1.1 h.1.2 h.1.3,
    ),
  )

  -- After any callbacks, the tick follows the last messages alone, whatever the order of priority. If
  -- the last safety state allows it and `c` is the last message of the topic that belongs to the
  -- active mode, no older than the timeout, its clamped command is published in the name of that
  -- topic's source; if there is no such `c`, the output is the blocked one.
  pub tick-IsLatest :
      ((c : CandidateCommand F)
        → SafetyAllows p now es
        → IsLatest p now es c
        → ((tick p now (run es init)).0 ≡ some (limit_command p c.msg now))
          × ((tick p now (run es init)).1.active_source ≡ c.source))
      × (((c : CandidateCommand F) → SafetyAllows p now es → ¬ IsLatest p now es c)
          → IsBlockedOutput p now (run es init) (tick p now (run es init)))
  tick-IsLatest = (
    λ c s l.
        let t = tick-approved p now (run es init) c ((IsApproved-IsLatest c).1 (s, l)) in
        (t.0, t.3),
    λ none_latest.
        tick-blocked p now (run es init)
          (λ c h. let (s, l) = (IsApproved-IsLatest c).0 h in none_latest c s l),
  )
