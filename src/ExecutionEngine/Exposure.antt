-- ===== src/ExecutionEngine/Exposure.antt =====
-- What a plan does to the open position, against what its intent asks for.
use native.Mathlib.Decide.{dec_le}
use tv_bot_core.Base.{
  inr, inl, ◌⊎◌, ◌<◌, ℕ, suc, ◌+◌, ◌-◌, ◌≤◌, ◌≡◌, ℤ, pos, negsuc, sub_ℕ, ◌+ℤ◌, Bool, Option, none,
  some, List, [], ◌∷◌, ◌++◌, String, ok, unsigned_abs, is_nonzero, if◌then◌else◌, arith, >>=-eq-ok,
  keep, ok_or, parse_i64,
}
use tv_bot_core.External.{Externals}
use tv_bot_core.CoreTypes.{
  ReversalMode, ExecutionIntent, TradeSide, EntryOrderType, BrokerPositionSnapshot,
  BrokerOrderUpdate, side_eq,
}
use tv_bot_core.ExecutionEngine.Request.{
  ExecutionRequest, ExecutionAction, ExecutionPlan, side_for_position, active_position,
  validate_instrument,
}
use tv_bot_core.ExecutionEngine.Guards.{plan_entry-EntryParts}
use tv_bot_core.ExecutionEngine.Planner.{
  u32_max, entry_action, plan_opening, plan_entry, plan_flatten, plan_reduce_position,
  cancellations, is_cancellable, plan_cancel_working_orders, plan_tradovate, plan_intent,
}

-- The signed size of an order.
abbrev pub signed : TradeSide → ℕ → ℤ
signed TradeSide.buy n = pos n
signed TradeSide.sell n = sub_ℕ 0 n

module _ {X : Externals} where
  -- The position after an action is filled as it is written.
  abbrev pub after_action : ℤ → ExecutionAction X → ℤ
  after_action p (ExecutionAction.submit_order order) = p +ℤ signed order.side order.quantity
  after_action p (ExecutionAction.submit_oso_order order) = p +ℤ signed order.side order.quantity
  after_action p (ExecutionAction.liquidate_position _ _ _) = pos 0
  after_action p (ExecutionAction.cancel_order _ _ _) = p
  after_action p (ExecutionAction.pause_strategy _) = p

  abbrev pub after_actions : ℤ → List (ExecutionAction X) → ℤ
  after_actions p [] = p
  after_actions p (action ∷ actions) = after_actions (after_action p action) actions

  abbrev pub open_quantity : Option (BrokerPositionSnapshot X) → ℤ
  open_quantity none = pos 0
  open_quantity (some position) = position.quantity

-- A position of the other side is replaced by the entry; any other grows by it.
abbrev entered : TradeSide → ℕ → ℤ → ℤ
entered side n p =
    if is_nonzero p
    then (if side_eq (side_for_position p) side then p +ℤ signed side n else signed side n)
    else signed side n

-- The position moved towards 0 by `n`, and no further than 0.
abbrev reduced : ℕ → ℤ → ℤ
reduced n (pos m) = pos (m - n)
reduced n (negsuc m) = sub_ℕ 0 (suc m - n)

-- The position that an intent asks for.
abbrev pub target : ExecutionIntent → ℤ → ℤ
target (ExecutionIntent.enter side _ n _ _) p = entered side n p
target (ExecutionIntent.exit _) p = pos 0
target (ExecutionIntent.flatten _) p = pos 0
target (ExecutionIntent.reduce_position n _) p = reduced n p
target (ExecutionIntent.cancel_working_orders _) p = p
target (ExecutionIntent.pause_strategy _) p = p

module _ {X : Externals} (request : ExecutionRequest X) where
  entry_action-after :
      (side : TradeSide) (order_type : EntryOrderType) (n : ℕ) (brackets : Bool) (reason : String)
      (action : ExecutionAction X) (p : ℤ)
      → entry_action request side order_type n brackets reason ≡ ok action
      → after_action p action ≡ p +ℤ signed side n
  unfolding entry_action
  entry_action-after side order_type n brackets reason action p h = ground arith

  flatten-after :
      (reason label : String) (plan : ExecutionPlan X)
      → plan_flatten request reason label ≡ ok plan
      → after_actions (open_quantity request.state.current_position) plan.actions ≡ pos 0
  unfolding plan_flatten active_position
  flatten-after reason label plan h = ground arith

  reduce-after :
      (n : ℕ) (reason : String) (plan : ExecutionPlan X)
      → plan_reduce_position request n reason ≡ ok plan
      → after_actions (open_quantity request.state.current_position) plan.actions
        ≡ reduced n (open_quantity request.state.current_position)
  unfolding plan_reduce_position active_position ◌+ℤ◌
  reduce-after n reason plan h = ground arith

  cancellations-after :
      (reason : String) (orders : List (BrokerOrderUpdate X)) (actions : List (ExecutionAction X))
      (p : ℤ)
      → cancellations reason orders ≡ ok actions
      → after_actions p actions ≡ p
  unfolding cancellations
  cancellations-after reason [] actions p h = ground arith
  cancellations-after reason (order ∷ orders) actions p h =
      let (i, e, h') = >>=-eq-ok (ok_or (parse_i64 order.broker_order_id) _) _ h in
      let (rest, e', h'') = >>=-eq-ok (cancellations reason orders) _ h' in
      ground (arith, cancellations-after reason orders rest p e')

  cancel-after :
      (reason : String) (plan : ExecutionPlan X) (p : ℤ)
      → plan_cancel_working_orders request reason ≡ ok plan
      → after_actions p plan.actions ≡ p
  unfolding plan_cancel_working_orders
  cancel-after reason plan p h =
      let kept = keep (is_cancellable request) request.state.working_orders in
      let (actions, e, h') = >>=-eq-ok (cancellations reason kept) _ h in
      ground (arith, cancellations-after reason kept actions p e)

  -- The exposure that an entry leaves, from the parts that open it.
  opening-after :
      (side : TradeSide) (n : ℕ) (reason : String) (before : List (ExecutionAction X)) (m : ℕ)
      (action : ExecutionAction X)
      → n + unsigned_abs (open_quantity request.state.current_position) ≤ u32_max
      → plan_opening request side n reason (active_position request.state.current_position)
        ≡ ok (before, m)
      → ((p : ℤ) → after_action p action ≡ p +ℤ signed side m)
      → after_actions (open_quantity request.state.current_position) (before ++ action ∷ [])
        ≡ entered side n (open_quantity request.state.current_position)
  unfolding plan_opening active_position ◌+ℤ◌
  opening-after side n reason before m action fits h each =
      ground (arith, each (pos 0), each (open_quantity request.state.current_position))

  -- A direct reversal whose quantity does not fit a `u32`: it saturates, and the position moves by
  -- the largest quantity.
  abbrev pub Saturates : ExecutionIntent → ℤ → Type 0
  Saturates (ExecutionIntent.enter side _ n _ _) after =
      (request.strategy.execution.reversal_mode ≡ ReversalMode.direct_reverse)
      × (u32_max < n + unsigned_abs (open_quantity request.state.current_position))
      × (after ≡ open_quantity request.state.current_position +ℤ signed side u32_max)
  Saturates _ after = ⊥

  opening-saturates :
      (side : TradeSide) (n : ℕ) (reason : String) (before : List (ExecutionAction X)) (m : ℕ)
      (action : ExecutionAction X)
      → u32_max < n + unsigned_abs (open_quantity request.state.current_position)
      → plan_opening request side n reason (active_position request.state.current_position)
        ≡ ok (before, m)
      → ((p : ℤ) → after_action p action ≡ p +ℤ signed side m)
      → (after_actions (open_quantity request.state.current_position) (before ++ action ∷ [])
          ≡ entered side n (open_quantity request.state.current_position))
        ⊎ ((request.strategy.execution.reversal_mode ≡ ReversalMode.direct_reverse)
            × (after_actions (open_quantity request.state.current_position) (before ++ action ∷ [])
                ≡ open_quantity request.state.current_position +ℤ signed side u32_max))
  unfolding plan_opening active_position ◌+ℤ◌
  opening-saturates side n reason before m action over h each =
      ground (arith, each (pos 0), each (open_quantity request.state.current_position))

  -- The position after the plan is the one asked for, or a direct reversal has saturated.
  abbrev pub Reaches : ExecutionIntent → ExecutionPlan X → Type 0
  Reaches intent plan =
      let after = after_actions (open_quantity request.state.current_position) plan.actions in
      (after ≡ target intent (open_quantity request.state.current_position))
      ⊎ Saturates intent after

  entry-after :
      (side : TradeSide) (order_type : EntryOrderType) (n : ℕ) (brackets : Bool) (reason : String)
      (plan : ExecutionPlan X)
      → plan_entry request side order_type n brackets reason ≡ ok plan
      → Reaches (ExecutionIntent.enter side order_type n brackets reason) plan
  entry-after side order_type n brackets reason plan h =
      let parts = plan_entry-EntryParts request side order_type n brackets reason plan h in
      let p = open_quantity request.state.current_position in
      let moved = λ (q : ℤ).
        entry_action-after side order_type parts.quantity brackets reason parts.action q
          parts.built in
      rw (parts.whole) (elim (dec_le (n + unsigned_abs p) u32_max) [
        | yes fits ↦ inl (
            opening-after side n reason parts.before parts.quantity parts.action fits parts.opened
              moved)
        | no over ↦
            let past : u32_max < n + unsigned_abs p = omega arith in
            elim (opening-saturates side n reason parts.before parts.quantity parts.action past
              parts.opened moved) [
                | inl reached ↦ inl reached
                | inr (direct, after) ↦ inr (direct, past, after)
              ]
      ])

  intent-after :
      (intent : ExecutionIntent) (plan : ExecutionPlan X)
      → plan_intent intent request ≡ ok plan
      → Reaches intent plan
  intent-after (ExecutionIntent.enter side order_type n brackets reason) plan h =
      entry-after side order_type n brackets reason plan h
  intent-after (ExecutionIntent.exit reason) plan h = inl (flatten-after reason "flatten" plan h)
  intent-after (ExecutionIntent.flatten reason) plan h = inl (flatten-after reason "flatten" plan h)
  intent-after (ExecutionIntent.reduce_position n reason) plan h =
      inl (reduce-after n reason plan h)
  intent-after (ExecutionIntent.cancel_working_orders reason) plan h =
      inl (cancel-after reason plan _ h)
  intent-after (ExecutionIntent.pause_strategy reason) plan h = inl (ground arith)

  -- A plan that the planner returns, filled as it is written, takes the open position to exactly
  -- the one that the intent asks for: a reversal ends at the entry's size in both reversal modes, a
  -- reduction stops at 0, a flatten ends at 0, and cancelling or pausing moves nothing. The one
  -- exception is a direct reversal whose size and the size of the open position together pass a u32:
  -- its quantity saturates, and the position moves by 4294967295.
  pub plan_tradovate-target :
      (plan : ExecutionPlan X) → plan_tradovate request ≡ ok plan → Reaches request.intent plan
  unfolding plan_tradovate
  plan_tradovate-target plan h =
      let (_, e, h') = >>=-eq-ok (validate_instrument request.instrument) _ h in
      intent-after request.intent plan h'
