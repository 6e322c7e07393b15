-- ===== src/Runtime/Waiting.antt =====
-- The safety states of safety_manager_node.py that wait for template_adapter_node.py, and what the events
-- of the three nodes leave of them.
use huma_ware.Common.{
  ℕ, zero, suc, ◌≡◌, refl, true, ap, sym, subst, ◌∙◌, ◌⊎◌, List, [], ◌∷◌, append, All, All-append,
  length,
}
use huma_ware.Ros.Time.{Time}
use huma_ware.Ros.Twist.{TwistStamped}
use huma_ware.Msgs.SafetyState.{SafetyState, state_estop, state_mrm}
use huma_ware.Msgs.MrmState.{MrmState}
use huma_ware.Msgs.CommandArbitrationState.{CommandArbitrationState}
use huma_ware.SafetyManager.Node as Safety
use huma_ware.SafetyManager.Latch.{NotCleared}
use huma_ware.HardwareAdapter.Node.{on_mrm_state, on_approved_command, on_arbitration_state}
use huma_ware.Runtime.System.{
  System, Delivery, hear, lose, Event, safety_manager, hardware_safety, take_arbiter_safety,
  take_mrm, take_approved, take_arbitration,
}

abbrev pub IsBlocking : ℕ → Type 0
IsBlocking state = (state ≡ state_estop) ⊎ (state ≡ state_mrm)

abbrev pub Blocks : SafetyState → Type 0
Blocks m = IsBlocking m.state

abbrev pub drop : ℕ → List SafetyState → List SafetyState
drop zero xs = xs
drop (suc n) [] = []
drop (suc n) (x ∷ xs) = drop n xs

abbrev pub one_less : ℕ → ℕ
one_less zero = zero
one_less (suc n) = n

-- Whether the adapter was told since the trigger, or how many older messages still wait for it.
pub data Phase : Type 0 where
  older : ℕ → Phase
  told : Phase

abbrev pub waiting : Phase → ℕ
waiting (older n) = n
waiting told = 0

abbrev pub Holds : Phase → ℕ → Type 0
Holds (older n) state = Unit
Holds told state = IsBlocking state

module _ {F : Type 0} where
  -- No event of the run clears the MRM.
  abbrev pub IsUncleared : Event F → Type 0
  IsUncleared (safety_manager e) = NotCleared e
  IsUncleared _ = Unit

  -- What is left of `n` messages that wait for the adapter after these events.
  abbrev pub left : List (Event F) → ℕ → ℕ
  left [] n = n
  left (hardware_safety d ∷ es) n = left es (one_less n)
  left (_ ∷ es) n = left es n

  abbrev pub after : Event F → Phase → Phase
  after (hardware_safety d) (older n) = older (one_less n)
  after _ phase = phase

  pub record IsLatched (phase : Phase) (s : System F) : Type 0 where
    pub service : s.safety.service_mrm_active ≡ true
    pub queue : All Blocks (drop (waiting phase) s.safety_to_hardware)
    pub state : Holds phase s.hardware.safety_state

  -- What an event leaves alone.
  pub record IsSame (s s' : System F) : Type 0 where
    pub safety : s'.safety ≡ s.safety
    pub queue : s'.safety_to_hardware ≡ s.safety_to_hardware
    pub state : s'.hardware.safety_state ≡ s.hardware.safety_state

  pub IsSame-IsLatched :
      (phase : Phase) (s s' : System F) → IsSame s s' → IsLatched phase s → IsLatched phase s'
  IsSame-IsLatched phase s s' e h = record {
    service = ap (λ (x : Safety.SafetyManager). x.service_mrm_active) e.safety ∙ h.service;
    queue = subst (λ q. All Blocks (drop (waiting phase) q)) (sym e.queue) h.queue;
    state = subst (Holds phase) (sym e.state) h.state;
  }

  pub take_arbiter_safety-IsSame :
      (d : Delivery) (queue : List SafetyState) (s : System F)
      → IsSame s (take_arbiter_safety d queue s)
  unfolding take_arbiter_safety
  take_arbiter_safety-IsSame d [] s = record { safety = refl; queue = refl; state = refl }
  take_arbiter_safety-IsSame hear (m ∷ q) s = record { safety = refl; queue = refl; state = refl }
  take_arbiter_safety-IsSame lose (m ∷ q) s = record { safety = refl; queue = refl; state = refl }

  pub take_mrm-IsSame :
      (d : Delivery) (queue : List MrmState) (s : System F) → IsSame s (take_mrm d queue s)
  unfolding take_mrm on_mrm_state
  take_mrm-IsSame d [] s = record { safety = refl; queue = refl; state = refl }
  take_mrm-IsSame hear (m ∷ q) s = record { safety = refl; queue = refl; state = refl }
  take_mrm-IsSame lose (m ∷ q) s = record { safety = refl; queue = refl; state = refl }

  pub take_approved-IsSame :
      (d : Delivery) (now : Time) (queue : List (TwistStamped F)) (s : System F)
      → IsSame s (take_approved d now queue s)
  unfolding take_approved on_approved_command
  take_approved-IsSame d now [] s = record { safety = refl; queue = refl; state = refl }
  take_approved-IsSame hear now (m ∷ q) s = record { safety = refl; queue = refl; state = refl }
  take_approved-IsSame lose now (m ∷ q) s = record { safety = refl; queue = refl; state = refl }

  pub take_arbitration-IsSame :
      (d : Delivery) (now : Time) (queue : List CommandArbitrationState) (s : System F)
      → IsSame s (take_arbitration d now queue s)
  unfolding take_arbitration on_arbitration_state
  take_arbitration-IsSame d now [] s = record { safety = refl; queue = refl; state = refl }
  take_arbitration-IsSame hear now (m ∷ q) s = record { safety = refl; queue = refl; state = refl }
  take_arbitration-IsSame lose now (m ∷ q) s = record { safety = refl; queue = refl; state = refl }

pub drop-nil : (k : ℕ) → All Blocks (drop k [])
drop-nil zero = tt
drop-nil (suc k) = tt

pub drop-append :
    (n : ℕ) (xs : List SafetyState) (m : SafetyState)
    → All Blocks (drop n xs)
    → Blocks m
    → All Blocks (drop n (append xs m))
drop-append zero xs m h b = All-append Blocks xs m h b
drop-append (suc n) [] m h b = drop-nil n
drop-append (suc n) (x ∷ xs) m h b = drop-append n xs m h b

pub drop-length :
    (xs : List SafetyState) (m : SafetyState)
    → Blocks m
    → All Blocks (drop (length xs) (append xs m))
drop-length [] m b = (b, tt)
drop-length (x ∷ xs) m b = drop-length xs m b

pub All-drop :
    (n : ℕ) (x : SafetyState) (xs : List SafetyState)
    → All Blocks (drop n (x ∷ xs))
    → All Blocks (drop (one_less n) xs)
All-drop zero x xs h = h.1
All-drop (suc n) x xs h = h
