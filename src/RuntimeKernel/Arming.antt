-- ===== src/RuntimeKernel/Arming.antt =====
-- When arming succeeds, and what the readiness report says of its inputs.
use tv_bot_core.Base.{
  ◌≡◌, ◌↔◌, ◌⊎◌, refl, sym, ◌∙◌, Bool, true, false, some, List, [], ◌∷◌, String, ok, err, any,
  any-append, trim, inl, inr, Option-cases, ℕ, suc, arith,
}
use tv_bot_core.Base.Text
use tv_bot_core.External.{Externals}
use tv_bot_core.CoreTypes.{
  RuntimeMode, WarmupStatus, ArmReadinessReport, BrokerHealth, BrokerSyncState,
  BrokerAccountRouting, BrokerAccountSelection, BrokerStatusSnapshot, has_blocking_issues,
  is_blocking,
}
use tv_bot_core.RuntimeKernel.StateMachine.{
  RuntimeStateMachine, RuntimeKernelError, is_trading, arm, can_submit_orders,
}
use tv_bot_core.RuntimeKernel.Readiness.{
  DependencyHealth, ReadinessInputs, override_checks, dependency_checks, evaluate_readiness,
  broker_account_dependency, broker_sync_dependency,
}

module _ {X : Externals} (s : RuntimeStateMachine) (report : ArmReadinessReport X)
    (allow : Bool) where
  pub record CanArm : Type 0 where
    pub trading : is_trading s.current_mode ≡ true
    pub same_mode : report.mode ≡ s.current_mode
    pub loaded : s.strategy_loaded ≡ true
    pub warm : s.warmup_status ≡ WarmupStatus.ready
    pub unblocked : has_blocking_issues report ≡ false
    pub allowed : report.hard_override_required ≡ true → allow ≡ true

  arm_ok : (arm s report allow).1 ≡ ok tt → CanArm
  unfolding arm
  arm_ok h = ground arith

  ok_arm :
      CanArm
      → ((arm s report allow).1 ≡ ok tt)
        × (can_submit_orders (arm s report allow).0 ≡ true)
        × ((arm s report allow).0.hard_override_active ≡ report.hard_override_required)
  unfolding arm can_submit_orders
  ok_arm h = ground arith

  arm_failed :
      (e : RuntimeKernelError) → (arm s report allow).1 ≡ err e → (arm s report allow).0 ≡ s
  unfolding arm
  arm_failed e h = ground arith

  -- Arming succeeds exactly in paper or live mode, with a report for that mode, a loaded strategy, a
  -- ready warmup, no blocking check, and an override allowed where one is required; orders may then
  -- be submitted, and the override is active just if it was required. A refusal changes nothing.
  pub arm_iff :
      ((arm s report allow).1 ≡ ok tt → CanArm)
      × (CanArm
          → ((arm s report allow).1 ≡ ok tt)
            × (can_submit_orders (arm s report allow).0 ≡ true)
            × ((arm s report allow).0.hard_override_active ≡ report.hard_override_required))
      × ((e : RuntimeKernelError) → (arm s report allow).1 ≡ err e → (arm s report allow).0 ≡ s)
  arm_iff = (arm_ok, ok_arm, arm_failed)

abbrev blocks : DependencyHealth → Bool
blocks (DependencyHealth.blocking _) = true
blocks _ = false

-- Nothing stands in the way of arming.
pub record IsClear (input : ReadinessInputs) : Type 0 where
  pub trading : is_trading input.mode ≡ true
  pub loaded : input.strategy_loaded ≡ true
  pub warm : input.warmup_status ≡ WarmupStatus.ready
  pub mapped : input.symbol_mapping_resolved ≡ true
  pub account : blocks input.account_selection ≡ false
  pub feed : blocks input.market_data ≡ false
  pub broker : blocks input.broker_sync ≡ false
  pub store : blocks input.storage ≡ false
  pub log : blocks input.journal ≡ false
  pub time : blocks input.clock ≡ false
  pub summary : Text.is_empty (trim input.risk_summary) ≡ false

any-override_checks :
    (i : ℕ) (reasons : List String) → any is_blocking (override_checks i reasons) ≡ false
unfolding override_checks
any-override_checks i [] = refl
any-override_checks i (reason ∷ reasons) = any-override_checks (suc i) reasons

checks-IsClear :
    (input : ReadinessInputs) → any is_blocking (dependency_checks input) ≡ false → IsClear input
unfolding dependency_checks
checks-IsClear input h = ground arith

IsClear-checks :
    (input : ReadinessInputs) → IsClear input → any is_blocking (dependency_checks input) ≡ false
unfolding dependency_checks
IsClear-checks input h = ground arith

module _ (X : Externals) (input : ReadinessInputs) (now : X.DateTime) where
  blocking_split :
      has_blocking_issues (evaluate_readiness {X = X} input now)
      ≡ any is_blocking (dependency_checks input)
  unfolding has_blocking_issues evaluate_readiness
  blocking_split =
      any-append is_blocking (dependency_checks input)
        (override_checks 0 input.hard_override_reasons)
      ∙ ground (arith, any-override_checks 0 input.hard_override_reasons)

  -- The readiness report has no blocking check exactly when the mode is paper or live, a strategy is
  -- loaded and warm, its symbol is mapped, no dependency blocks and there is a risk summary; reasons
  -- for a hard override never block by themselves.
  pub evaluate_readiness-IsClear_iff :
      (has_blocking_issues (evaluate_readiness {X = X} input now) ≡ false) ↔ IsClear input
  evaluate_readiness-IsClear_iff = (
    λ h. checks-IsClear input (sym blocking_split ∙ h),
    λ h. blocking_split ∙ IsClear-checks input h,
  )

abbrev needs_attention : BrokerSyncState → Bool
needs_attention BrokerSyncState.stale = true
needs_attention BrokerSyncState.mismatch = true
needs_attention BrokerSyncState.review_required = true
needs_attention _ = false

module _ {X : Externals} (snapshot : BrokerStatusSnapshot X) where
  healthy_sync :
      blocks (broker_sync_dependency snapshot) ≡ false
      → (snapshot.health ≡ BrokerHealth.healthy) × (needs_attention snapshot.sync_state ≡ false)
  unfolding broker_sync_dependency
  healthy_sync h = ground arith

  sync_healthy :
      (snapshot.health ≡ BrokerHealth.healthy) × (needs_attention snapshot.sync_state ≡ false)
      → broker_sync_dependency snapshot ≡ DependencyHealth.healthy
  unfolding broker_sync_dependency
  sync_healthy h = ground arith

  -- The broker passes the readiness check exactly when its health is healthy and its sync state is
  -- none of stale, mismatch and review-required; otherwise it blocks, and never just warns.
  pub broker_sync_dependency_iff :
      (blocks (broker_sync_dependency snapshot) ≡ false
        → (snapshot.health ≡ BrokerHealth.healthy) × (needs_attention snapshot.sync_state ≡ false))
      × ((snapshot.health ≡ BrokerHealth.healthy) × (needs_attention snapshot.sync_state ≡ false)
          → broker_sync_dependency snapshot ≡ DependencyHealth.healthy)
  broker_sync_dependency_iff = (healthy_sync, sync_healthy)

  -- The account check passes in paper or live mode only if an account is selected whose routing is
  -- that of the mode.
  pub broker_account_dependency-routing :
      (mode : RuntimeMode)
      → is_trading mode ≡ true
      → broker_account_dependency mode snapshot ≡ DependencyHealth.healthy
      → (account : BrokerAccountSelection X) × (snapshot.selected_account ≡ some account)
        × (((mode ≡ RuntimeMode.paper) × (account.routing ≡ BrokerAccountRouting.paper))
            ⊎ ((mode ≡ RuntimeMode.live) × (account.routing ≡ BrokerAccountRouting.live)))
  unfolding broker_account_dependency
  broker_account_dependency-routing mode t h = elim (Option-cases snapshot.selected_account) [
    | inl e ↦ absurd (ground arith)
    | inr (account, e) ↦ (account, e, ground arith)
  ]
