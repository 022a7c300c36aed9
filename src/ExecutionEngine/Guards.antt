-- ===== src/ExecutionEngine/Guards.antt =====
-- What holds before an entry is planned, and which intents need no permission.
use tv_bot_core.Base.{
  inl, inr, err, Result, Result-cases, Bool-cases, ◌⊎◌, ◌⊎◌, Result, err, Result-cases, Bool-cases,
  ℕ, ◌≡◌, ◌≢◌, refl, Bool, true, false, List, [], ◌∷◌, ◌++◌, String, ok, guard, not, ◌==◌,
  >>=-eq-ok, any, keep, ok_or, parse_i64, arith,
}
use tv_bot_core.External.{Externals}
use tv_bot_core.CoreTypes.{ExecutionIntent, TradeSide, EntryOrderType, BrokerOrderUpdate}
use tv_bot_core.ExecutionEngine.Request.{
  ExecutionEngineError, ExecutionRequest, ExecutionAction, ExecutionPlan, plan_of, active_position,
  validate_instrument,
}
use tv_bot_core.ExecutionEngine.Entry.{
  assess_trade_management_support, ensure_required_protection_configuration,
}
use tv_bot_core.ExecutionEngine.Planner.{
  plan_opening, entry_action, plan_entry, plan_flatten, plan_reduce_position, cancellations,
  plan_cancel_working_orders, plan_tradovate, plan_intent, is_cancellable,
}

module _ {X : Externals} (request : ExecutionRequest X) (side : TradeSide)
    (order_type : EntryOrderType) (n : ℕ) (brackets : Bool) (reason : String)
    (plan : ExecutionPlan X) where
  -- The steps of a planned entry.
  pub record EntryParts : Type 0 where
    pub allowed : request.state.runtime_can_submit_orders ≡ true
    pub entries : request.state.new_entries_allowed ≡ true
    pub positive : n ≢ 0
    pub warnings : List String
    pub assessed : assess_trade_management_support request.strategy [] ≡ ok warnings
    pub configured : ensure_required_protection_configuration request.strategy brackets ≡ ok tt
    pub before : List (ExecutionAction X)
    pub quantity : ℕ
    pub opened :
        plan_opening request side n reason (active_position request.state.current_position)
        ≡ ok (before, quantity)
    pub action : ExecutionAction X
    pub built : entry_action request side order_type quantity brackets reason ≡ ok action
    pub whole : plan ≡ plan_of (before ++ action ∷ []) warnings

  pub plan_entry-EntryParts :
      plan_entry request side order_type n brackets reason ≡ ok plan → EntryParts
  unfolding plan_entry
  plan_entry-EntryParts h =
      let (_, e₁, h₁) = >>=-eq-ok (guard request.state.runtime_can_submit_orders _) _ h in
      let (_, e₂, h₂) = >>=-eq-ok (guard request.state.new_entries_allowed _) _ h₁ in
      let (_, e₃, h₃) = >>=-eq-ok (guard (not (n == 0)) _) _ h₂ in
      let (w, e₄, h₄) = >>=-eq-ok (assess_trade_management_support request.strategy []) _ h₃ in
      let (u, e₅, h₅) =
        >>=-eq-ok (ensure_required_protection_configuration request.strategy brackets) _ h₄ in
      let (o, e₆, h₆) =
        >>=-eq-ok
          (plan_opening request side n reason (active_position request.state.current_position)) _
          h₅ in
      let (a, e₇, h₇) = >>=-eq-ok (entry_action request side order_type o.1 brackets reason) _ h₆ in
      record {
        allowed = ground arith;
        entries = ground arith;
        positive = ground arith;
        warnings = w;
        assessed = e₄;
        configured = e₅;
        before = o.0;
        quantity = o.1;
        opened = e₆;
        action = a;
        built = e₇;
        whole = ground arith;
      }

abbrev pub needs_permission : ExecutionIntent → Bool
needs_permission (ExecutionIntent.enter _ _ _ _ _) = true
needs_permission (ExecutionIntent.reduce_position _ _) = true
needs_permission _ = false

abbrev pub submits : {X : Externals} → ExecutionAction X → Bool
submits (ExecutionAction.submit_order _) = true
submits (ExecutionAction.submit_oso_order _) = true
submits _ = false

module _ {X : Externals} (request : ExecutionRequest X) where
  cancellations-submits :
      (reason : String) (orders : List (BrokerOrderUpdate X)) (actions : List (ExecutionAction X))
      → cancellations reason orders ≡ ok actions
      → any submits actions ≡ false
  unfolding cancellations
  cancellations-submits reason [] actions h = ground arith
  cancellations-submits reason (order ∷ orders) actions h =
      let (i, e, h') = >>=-eq-ok (ok_or (parse_i64 order.broker_order_id) _) _ h in
      let (rest, e', h'') = >>=-eq-ok (cancellations reason orders) _ h' in
      ground (arith, cancellations-submits reason orders rest e')

  blocked_intent :
      (intent : ExecutionIntent) (plan : ExecutionPlan X)
      → request.state.runtime_can_submit_orders ≡ false
      → plan_intent intent request ≡ ok plan
      → any submits plan.actions ≡ false
  unfolding plan_flatten plan_reduce_position plan_cancel_working_orders
  blocked_intent (ExecutionIntent.enter side order_type n brackets reason) plan b h =
      cc ((plan_entry-EntryParts request side order_type n brackets reason plan h).allowed)
  blocked_intent (ExecutionIntent.exit reason) plan b h = ground arith
  blocked_intent (ExecutionIntent.flatten reason) plan b h = ground arith
  blocked_intent (ExecutionIntent.reduce_position n reason) plan b h = ground arith
  blocked_intent (ExecutionIntent.cancel_working_orders reason) plan b h =
      let kept = keep (is_cancellable request) request.state.working_orders in
      let (actions, e, h') = >>=-eq-ok (cancellations reason kept) _ h in
      ground (arith, cancellations-submits reason kept actions e)
  blocked_intent (ExecutionIntent.pause_strategy reason) plan b h = ground arith

  pub blocked_plan-submits :
      (plan : ExecutionPlan X)
      → request.state.runtime_can_submit_orders ≡ false
      → plan_tradovate request ≡ ok plan
      → any submits plan.actions ≡ false
  unfolding plan_tradovate
  blocked_plan-submits plan b h =
      let (_, e, h') = >>=-eq-ok (validate_instrument request.instrument) _ h in
      blocked_intent request.intent plan b h'

  abbrev pub with_permissions : Bool → Bool → ExecutionRequest X
  with_permissions can_submit entries = record request {
    state = record (request.state) {
      runtime_can_submit_orders = can_submit;
      new_entries_allowed = entries;
    };
  }

module _ {X : Externals} (request : ExecutionRequest X) (can_submit entries : Bool) where
  intent_free :
      (intent : ExecutionIntent)
      → needs_permission intent ≡ false
      → plan_intent intent (with_permissions request can_submit entries)
        ≡ plan_intent intent request
  unfolding plan_flatten plan_cancel_working_orders
  intent_free (ExecutionIntent.enter _ _ _ _ _) h = cc
  intent_free (ExecutionIntent.exit reason) h = refl
  intent_free (ExecutionIntent.flatten reason) h = refl
  intent_free (ExecutionIntent.reduce_position n reason) h = cc
  intent_free (ExecutionIntent.cancel_working_orders reason) h = refl
  intent_free (ExecutionIntent.pause_strategy reason) h = refl

  -- The plan for an exit, a flatten, a cancellation or a pause is the same whether or not orders
  -- may be submitted and new entries are allowed.
  pub plan_tradovate-with_permissions :
      needs_permission request.intent ≡ false
      → plan_tradovate (with_permissions request can_submit entries) ≡ plan_tradovate request
  unfolding plan_tradovate
  plan_tradovate-with_permissions h = rw (intent_free request.intent h)

module _ {X : Externals} (request : ExecutionRequest X) where
  -- What the planner may answer while orders are blocked.
  abbrev pub Withholds : Result ExecutionEngineError (ExecutionPlan X) → Type 0
  Withholds (err refusal) =
      (needs_permission request.intent ≡ false)
      ⊎ (validate_instrument request.instrument ≡ err refusal)
      ⊎ (refusal ≡ ExecutionEngineError.order_placement_blocked)
  Withholds (ok plan) =
      (needs_permission request.intent ≡ false) × (any submits plan.actions ≡ false)

  blocked_intent-refused :
      (intent : ExecutionIntent)
      → request.state.runtime_can_submit_orders ≡ false
      → needs_permission intent ≡ true
      → plan_intent intent request ≡ err ExecutionEngineError.order_placement_blocked
  unfolding plan_entry plan_reduce_position
  blocked_intent-refused (ExecutionIntent.enter _ _ _ _ _) b p = rw b
  blocked_intent-refused (ExecutionIntent.reduce_position _ _) b p = rw b
  blocked_intent-refused (ExecutionIntent.exit _) b p = cc
  blocked_intent-refused (ExecutionIntent.flatten _) b p = cc
  blocked_intent-refused (ExecutionIntent.cancel_working_orders _) b p = cc
  blocked_intent-refused (ExecutionIntent.pause_strategy _) b p = cc

  blocked-refused :
      request.state.runtime_can_submit_orders ≡ false
      → needs_permission request.intent ≡ true
      → Withholds (plan_tradovate request)
  unfolding plan_tradovate
  blocked-refused b p = elim (Result-cases (validate_instrument request.instrument)) [
    | inl (u, e) ↦ rw (e, blocked_intent-refused request.intent b p) (inr (inr refl))
    | inr (refusal, e) ↦ rw e (inr (inl e))
  ]

  blocked-free :
      request.state.runtime_can_submit_orders ≡ false
      → needs_permission request.intent ≡ false
      → Withholds (plan_tradovate request)
  blocked-free b p = elim (Result-cases (plan_tradovate request)) [
    | inl (plan, e) ↦ rw e (p, blocked_plan-submits request plan b e)
    | inr (refusal, e) ↦ rw e (inl p)
  ]

  -- While the runtime may not submit orders, every entry and every reduction is refused, by the
  -- error `order_placement_blocked` unless the instrument is refused before; and where another
  -- intent is planned, its plan holds no new order.
  pub blocked-submits :
      request.state.runtime_can_submit_orders ≡ false → Withholds (plan_tradovate request)
  blocked-submits b = elim (Bool-cases (needs_permission request.intent)) [
    | inl p ↦ blocked-refused b p
    | inr p ↦ blocked-free b p
  ]
