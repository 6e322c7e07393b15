-- ===== src/Runtime/Taking.antt =====
-- What publishing and taking a safety state does to the messages that wait for the adapter.
use huma_ware.Common.{ℕ, ◌≡◌, sym, subst, none, some, List, [], ◌∷◌, arith, All}
use huma_ware.Msgs.SafetyState.{SafetyState}
use huma_ware.SafetyManager.Node as Safety
use huma_ware.SafetyManager.Latch.{MayBlock}
use huma_ware.HardwareAdapter.Node.{on_safety_state}
use huma_ware.Runtime.Waiting.{
  Blocks, drop, drop-nil, drop-append, All-drop, one_less, Phase, older, told, waiting, left, after,
  IsLatched,
}
use huma_ware.Runtime.System.{System, Delivery, hear, lose, Event, published, take_safety}

module _ {F : Type 0} where
  pub published-IsLatched :
      (phase : Phase) (out : Safety.Published) (s : System F)
      → MayBlock out
      → IsLatched phase s
      → IsLatched phase (published out s)
  published-IsLatched phase none s b h = h
  published-IsLatched phase (some m) s b h = record {
    service = h.service;
    queue = drop-append (waiting phase) s.safety_to_hardware m.0 h.queue b.0;
    state = h.state;
  }

  pub take_safety-older :
      (n : ℕ) (d : Delivery) (queue : List SafetyState) (s : System F)
      → s.safety_to_hardware ≡ queue
      → IsLatched (older n) s
      → IsLatched (older (one_less n)) (take_safety d queue s)
  unfolding take_safety on_safety_state
  take_safety-older n d [] s e h = record {
    service = h.service;
    queue = subst (λ q. All Blocks (drop (one_less n) q)) (sym e) (drop-nil (one_less n));
    state = tt;
  }
  take_safety-older n hear (m ∷ q) s e h = record {
    service = h.service;
    queue = All-drop n m q (subst (λ x. All Blocks (drop n x)) e h.queue);
    state = tt;
  }
  take_safety-older n lose (m ∷ q) s e h = record {
    service = h.service;
    queue = All-drop n m q (subst (λ x. All Blocks (drop n x)) e h.queue);
    state = tt;
  }

  pub after_older : (e : Event F) (n : ℕ) → after e (older n) ≡ older (waiting (after e (older n)))
  after_older e n = ground arith

  pub after_told : (e : Event F) → after e told ≡ told
  after_told e = ground arith

  pub left-after :
      (e : Event F) (es : List (Event F)) (n : ℕ)
      → left es (waiting (after e (older n))) ≡ left (e ∷ es) n
  left-after e es n = ground arith

  pub take_safety-told :
      (d : Delivery) (queue : List SafetyState) (s : System F)
      → s.safety_to_hardware ≡ queue
      → IsLatched told s
      → IsLatched told (take_safety d queue s)
  unfolding take_safety on_safety_state
  take_safety-told d [] s e h = h
  take_safety-told hear (m ∷ q) s e h =
      let (b, rest) = subst (All Blocks) e h.queue in
      record { service = h.service; queue = rest; state = b }
  take_safety-told lose (m ∷ q) s e h =
      let (b, rest) = subst (All Blocks) e h.queue in
      record { service = h.service; queue = rest; state = h.state }

  -- The first message that the adapter hears, once no older one is left, tells it.
  pub take_safety-first :
      (m : SafetyState) (queue : List SafetyState) (s : System F)
      → s.safety_to_hardware ≡ m ∷ queue
      → IsLatched (older 0) s
      → IsLatched told (take_safety hear (m ∷ queue) s)
  unfolding take_safety on_safety_state
  take_safety-first m q s e h =
      let (b, rest) = subst (All Blocks) e h.queue in
      record { service = h.service; queue = rest; state = b }
