-- ===== src/ExecutionEngine/Positions.antt =====
-- What an open position asks of an entry: scaling in and reversing.
use tv_bot_core.Base.{
  ℕ, ◌≤◌, ◌<◌, ◌≡◌, ℤ, Bool, true, false, some, [], ◌∷◌, String, ok, arith, unsigned_abs,
  count_chars, take_chars, count_chars-take_chars, format, ◌⊎◌, inl, inr, Option-cases, trim,
}
use tv_bot_core.Base.Text
use tv_bot_core.External.{Externals}
use tv_bot_core.CoreTypes.{
  ExecutionIntent, TradeSide, EntryOrderType, ReversalMode, BrokerPositionSnapshot, side_eq,
}
use tv_bot_core.ExecutionEngine.Request.{
  ExecutionRequest, ExecutionAction, ExecutionPlan, active_position, resolve_contract_id,
  side_for_position, order_text, strategy_tag,
}
use tv_bot_core.ExecutionEngine.Planner.{plan_opening, entry_action, plan_tradovate}
use tv_bot_core.ExecutionEngine.Guards.{EntryParts, submits}
use tv_bot_core.ExecutionEngine.Brackets.{entry_parts}

module _ {X : Externals} (request : ExecutionRequest X) (side : TradeSide)
    (order_type : EntryOrderType) (n : ℕ) (brackets : Bool) (reason : String)
    (plan : ExecutionPlan X)
    (entry : request.intent ≡ ExecutionIntent.enter side order_type n brackets reason)
    (planned : plan_tradovate request ≡ ok plan) (position : BrokerPositionSnapshot X)
    (open_position : active_position request.state.current_position ≡ some position) where
  parts : EntryParts request side order_type n brackets reason plan
  parts = entry_parts request side order_type n brackets reason plan entry planned

  entry_submits :
      (m : ℕ) (action : ExecutionAction X)
      → entry_action request side order_type m brackets reason ≡ ok action
      → submits action ≡ true
  unfolding entry_action
  entry_submits m action e = ground arith

  -- An entry on the side of the open position is planned only if scaling in is allowed and the
  -- position is still below the configured number of legs; it is then a single new order.
  pub plan_tradovate-scale_in :
      side_eq (side_for_position position.quantity) side ≡ true
      → (request.strategy.execution.scaling.allow_scale_in ≡ true)
        × (unsigned_abs position.quantity < request.strategy.execution.scaling.max_legs)
        × ((action : ExecutionAction X) × (plan.actions ≡ action ∷ []) × (submits action ≡ true))
  unfolding plan_opening
  plan_tradovate-scale_in same = (
    ground (arith, parts.opened),
    ground (arith, parts.opened),
    (
      parts.action,
      ground (arith, parts.opened, parts.whole),
      entry_submits parts.quantity parts.action parts.built,
    ),
  )

  -- An entry against the open position in the flatten-first mode liquidates the position's contract
  -- first, and only then sends the one new order.
  pub plan_tradovate-flatten_first :
      side_eq (side_for_position position.quantity) side ≡ false
      → request.strategy.execution.reversal_mode ≡ ReversalMode.flatten_first
      → (contract_id : ℤ) × (action : ExecutionAction X) × (plan.actions
          ≡ ExecutionAction.liquidate_position contract_id
              (format ("flatten-first reversal: " ∷ reason ∷ []))
              (strategy_tag request.strategy.metadata.strategy_id)
            ∷ action
            ∷ [])
        × (resolve_contract_id request.instrument request.state.current_position ≡ some contract_id)
        × (submits action ≡ true)
  unfolding plan_opening
  plan_tradovate-flatten_first other mode =
      elim (Option-cases (resolve_contract_id request.instrument request.state.current_position)) [
        | inl e ↦ absurd (ground (arith, parts.opened))
        | inr (contract_id, e) ↦ (
          contract_id,
          parts.action,
          ground (arith, parts.opened, parts.whole),
          e,
          entry_submits parts.quantity parts.action parts.built,
        )
      ]

tag_bounds :
    (s : String)
    → Text.is_empty s ≡ false
    → (0 < count_chars (take_chars 64 s)) × (count_chars (take_chars 64 s) ≤ 64)
unfolding take_chars
tag_bounds String.[] h = cc
tag_bounds (String.◌∷◌ c s) h = omega (arith, count_chars-take_chars 63 s)

-- An order's text and a strategy's tag are never empty and never longer than 64 characters.
pub order_text_bounds :
    (s t : String)
    → (order_text s ≡ some t) ⊎ (strategy_tag s ≡ some t)
    → (0 < count_chars t) × (count_chars t ≤ 64)
unfolding order_text strategy_tag
order_text_bounds s t h = ground (arith, tag_bounds (trim s))
