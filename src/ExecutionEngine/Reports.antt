-- ===== src/ExecutionEngine/Reports.antt =====
-- What a dispatch report of crates/execution_engine/src/lib.rs says of the plan that it carries out.
use tv_bot_core.Base.{
  ◌≡◌, refl, sym, ap, ◌∙◌, ◌⊎◌, inl, inr, ok_injective, Result-cases, Bool-cases, Bool, true, false,
  List, [], ◌∷◌, ◌++◌, ok, err, any, arith,
}
use mathlib.Core.Path.{subst}
use tv_bot_core.External.{Externals}
use tv_bot_core.BrokerTradovate.Session.{SessionState}
use tv_bot_core.BrokerTradovate.Apis.{SessionApis}
use tv_bot_core.BrokerTradovate.Config.{TradovateSessionManager}
use tv_bot_core.ExecutionEngine.Request.{
  ExecutionRequest, ExecutionAction, ExecutionPlan, ExecutionEngineError,
}
use tv_bot_core.ExecutionEngine.Planner.{plan_tradovate}
use tv_bot_core.ExecutionEngine.Guards.{submits, blocked_plan-submits}
use tv_bot_core.ExecutionEngine.Dispatch.{
  ExecutionDispatchResult, ExecutionDispatchReport, Dispatched, next, execute_planned,
  dispatch_action, dispatch_actions, execute_tradovate_plan, plan_and_execute_tradovate,
}

-- The result that an action leads to.
abbrev pub Answers : {X : Externals} → ExecutionAction X → ExecutionDispatchResult → Type 0
Answers (ExecutionAction.submit_order order)
      (ExecutionDispatchResult.order_submitted _ symbol used_brackets) =
    (symbol ≡ order.symbol) × (used_brackets ≡ false)
Answers (ExecutionAction.submit_oso_order order)
      (ExecutionDispatchResult.order_submitted _ symbol used_brackets) =
    (symbol ≡ order.symbol) × (used_brackets ≡ true)
Answers (ExecutionAction.cancel_order _ symbol reason)
      (ExecutionDispatchResult.order_cancelled _ symbol' reason') =
    (symbol' ≡ symbol) × (reason' ≡ reason)
Answers (ExecutionAction.liquidate_position contract_id reason _)
      (ExecutionDispatchResult.position_liquidated _ contract_id' reason') =
    (contract_id' ≡ contract_id) × (reason' ≡ reason)
Answers (ExecutionAction.pause_strategy reason) (ExecutionDispatchResult.strategy_paused reason') =
    reason' ≡ reason
Answers _ _ = ⊥

-- One result for each action, in order.
abbrev pub AnswersAll :
    {X : Externals} → List (ExecutionAction X) → List ExecutionDispatchResult → Type 0
AnswersAll [] [] = Unit
AnswersAll (action ∷ actions) (result ∷ results) =
    Answers action result × AnswersAll actions results
AnswersAll _ _ = ⊥

abbrev pub is_submission : ExecutionDispatchResult → Bool
is_submission (ExecutionDispatchResult.order_submitted _ _ _) = true
is_submission _ = false

snoc_append :
    (results : List ExecutionDispatchResult) (result : ExecutionDispatchResult)
    (more : List ExecutionDispatchResult)
    → (results ++ result ∷ []) ++ more ≡ results ++ result ∷ more
snoc_append [] result more = refl
snoc_append (r ∷ results) result more = ap (λ rs. r ∷ rs) (snoc_append results result more)

submissions :
    {X : Externals} (actions : List (ExecutionAction X)) (results : List ExecutionDispatchResult)
    → AnswersAll actions results
    → any submits actions ≡ any is_submission results
submissions [] [] h = refl
submissions [] (r ∷ rs) h = absurd h
submissions (a ∷ actions) [] h = ground arith
submissions (a ∷ actions) (r ∷ rs) h = ground (arith, submissions actions rs)

append_nil : (results : List ExecutionDispatchResult) → results ++ [] ≡ results
append_nil [] = refl
append_nil (r ∷ results) = ap (λ rs. r ∷ rs) (append_nil results)

blocked_reports :
    {X : Externals} (request : ExecutionRequest X) (plan : ExecutionPlan X)
    (report : ExecutionDispatchReport)
    → plan_tradovate request ≡ ok plan
    → AnswersAll plan.actions report.results
    → (request.state.runtime_can_submit_orders ≡ true) ⊎ (any is_submission report.results ≡ false)
blocked_reports request plan report h all =
    elim (Bool-cases request.state.runtime_can_submit_orders) [
      | inl t ↦ inl t
      | inr f ↦ inr (
          sym (submissions plan.actions report.results all) ∙ blocked_plan-submits request plan f h)
    ]

module _ {X : Externals} (A : SessionApis X) (m : TradovateSessionManager X) where
  next_ok :
      {B C : Type 0} (first : Dispatched A m B)
      (rest : B → SessionState X → A.World → Dispatched A m C) {c : C}
      → (next A m first rest).0 ≡ ok c
      → (b : B) × (first.0 ≡ ok b) × ((rest b first.1 first.2).0 ≡ ok c)
  next_ok (ok b, s, w) rest h = (b, refl, h)
  next_ok (err e, s, w) rest h = cc

  dispatch_action-Answers :
      (action : ExecutionAction X) (s : SessionState X) (w : A.World)
      (result : ExecutionDispatchResult)
      → (dispatch_action A m action s w).0 ≡ ok result
      → Answers action result
  unfolding dispatch_action
  dispatch_action-Answers action s w result h = ground arith

  dispatch_actions-AnswersAll :
      (actions : List (ExecutionAction X)) (done : List ExecutionDispatchResult)
      (s : SessionState X) (w : A.World) (results : List ExecutionDispatchResult)
      → (dispatch_actions A m actions done s w).0 ≡ ok results
      → (more : List ExecutionDispatchResult) × (results ≡ done ++ more) × AnswersAll actions more
  unfolding dispatch_actions
  dispatch_actions-AnswersAll [] done s w results h =
      ([], ok_injective h refl ∙ sym (append_nil done), tt)
  dispatch_actions-AnswersAll (action ∷ actions) done s w results h =
      let (result, e, h') =
        next_ok (dispatch_action A m action s w)
          (λ result. dispatch_actions A m actions (done ++ result ∷ [])) h in
      let t = (dispatch_action A m action s w).1 in
      let w' = (dispatch_action A m action s w).2 in
      let (more, q, all) =
        dispatch_actions-AnswersAll actions (done ++ result ∷ []) t w' results h' in
      (
        result ∷ more,
        q ∙ snoc_append done result more,
        (dispatch_action-Answers action s w result e, all),
      )

  execute_tradovate_plan-AnswersAll :
      (plan : ExecutionPlan X) (s : SessionState X) (w : A.World) (report : ExecutionDispatchReport)
      → (execute_tradovate_plan A m plan s w).0 ≡ ok report
      → AnswersAll plan.actions report.results × (report.warnings ≡ plan.warnings)
  unfolding execute_tradovate_plan
  execute_tradovate_plan-AnswersAll plan s w report h =
      let (results, e, h') =
        next_ok (dispatch_actions A m plan.actions [] s w)
          (λ results s w. (ok (record { results = results; warnings = plan.warnings }), s, w)) h in
      let (more, q, all) = dispatch_actions-AnswersAll plan.actions [] s w results e in
      let r = ok_injective h' refl in
      (
        subst (AnswersAll plan.actions) (sym q ∙ sym (ap (λ c. c.results) r)) all,
        ap (λ c. c.warnings) r,
      )

  planning_refused :
      (source : ExecutionEngineError) (s : SessionState X) (w : A.World)
      (report : ExecutionDispatchReport)
      → (execute_planned A m (err source) s w).0 ≡ ok report
      → ⊥
  planning_refused source s w report h = cc

  -- When planning and dispatch return a report, the planner returned a plan; the report has the
  -- plan's warnings, and one result for each of its actions, in order, of the action's kind and with
  -- its symbol, contract or reason, and with brackets exactly for a bracketed order. Where the
  -- runtime may not submit orders, the report has no submitted order.
  pub plan_and_execute-reports :
      (request : ExecutionRequest X) (s : SessionState X) (w : A.World)
      (report : ExecutionDispatchReport)
      → (plan_and_execute_tradovate A m request s w).0 ≡ ok report
      → ((plan : ExecutionPlan X) × (plan_tradovate request ≡ ok plan)
          × AnswersAll plan.actions report.results
          × (report.warnings ≡ plan.warnings))
        × ((request.state.runtime_can_submit_orders ≡ true)
            ⊎ (any is_submission report.results ≡ false))
  unfolding plan_and_execute_tradovate
  plan_and_execute-reports request s w report h = elim (Result-cases (plan_tradovate request)) [
    | inl p ↦
        let plan = p.0 in
        let (all, q) =
          execute_tradovate_plan-AnswersAll plan s w report
            (ap (λ r. (execute_planned A m r s w).0) (sym p.1) ∙ h) in
        ((plan, p.1, all, q), blocked_reports request plan report p.1 all)
    | inr p ↦
        absurd
          (planning_refused p.0 s w report (ap (λ r. (execute_planned A m r s w).0) (sym p.1) ∙ h))
  ]
