-- ===== src/RuntimeKernel/Invariant.antt =====
-- What holds of the machine after any calls of its methods.
use tv_bot_core.Base.{
  ◌≡◌, ◌≢◌, ◌⊎◌, refl, Bool, true, false, Option, none, some, List, [], ◌∷◌, String, arith, inl,
  inr, sym, ◌∙◌,
}
use mathlib.Core.Path.{subst}
use tv_bot_core.External.{Externals}
use tv_bot_core.CoreTypes.{
  RuntimeMode, ActiveRuntimeMode, ArmState, WarmupStatus, ArmReadinessReport, has_blocking_issues,
}
use tv_bot_core.RuntimeKernel.StateMachine.{
  RuntimeStateMachine, active_mode_for, new, switch_mode, pause, resume, mark_strategy_loaded,
  unload_strategy, start_warmup, mark_warmup_ready, mark_warmup_failed, sync_warmup_progress, arm,
  disarm, set_new_entries_enabled, can_submit_orders,
}

-- One call of a method that changes the machine.
pub data Call (X : Externals) : Type 0 where
  switch_to : RuntimeMode → Call X
  pausing resuming load unload warm warm_ready warm_failed disarming : Call X
  sync : WarmupStatus → Call X
  arming : ArmReadinessReport X → Bool → Call X
  entries : Bool → Option String → Call X

module _ {X : Externals} where
  unfoldable pub step : RuntimeStateMachine → Call X → RuntimeStateMachine
  unfolding switch_mode pause resume mark_strategy_loaded unload_strategy start_warmup
      mark_warmup_ready mark_warmup_failed sync_warmup_progress arm disarm set_new_entries_enabled
  step s (switch_to mode) = switch_mode s mode
  step s pausing = pause s
  step s resuming = (resume s).0
  step s load = mark_strategy_loaded s
  step s unload = unload_strategy s
  step s warm = (start_warmup s).0
  step s warm_ready = (mark_warmup_ready s).0
  step s warm_failed = (mark_warmup_failed s).0
  step s disarming = disarm s
  step s (sync status) = (sync_warmup_progress s status).0
  step s (arming readiness allow_override) = (arm s readiness allow_override).0
  step s (entries enabled reason) = set_new_entries_enabled s enabled reason

  unfoldable pub steps : RuntimeStateMachine → List (Call X) → RuntimeStateMachine
  steps s [] = s
  steps s (c ∷ cs) = steps (step s c) cs

-- The machine between two calls.
pub record Inv (s : RuntimeStateMachine) : Type 0 where
  -- Outside of a pause the mode to resume is the current one.
  pub resumes :
      s.current_mode ≢ RuntimeMode.paused → s.last_active_mode ≡ active_mode_for s.current_mode
  pub armed_loaded : s.arm_state ≡ ArmState.armed → s.strategy_loaded ≡ true
  pub armed_trades :
      s.arm_state ≡ ArmState.armed
      → (s.last_active_mode ≡ some ActiveRuntimeMode.paper)
        ⊎ (s.last_active_mode ≡ some ActiveRuntimeMode.live)
  pub override_armed : s.hard_override_active ≡ true → s.arm_state ≡ ArmState.armed
  pub failed_disarmed : s.warmup_status ≡ WarmupStatus.failed → s.arm_state ≡ ArmState.disarmed
  pub open_unexplained : s.new_entries_enabled ≡ true → s.new_entries_reason ≡ none

new-Inv : (mode : RuntimeMode) → Inv (new mode)
unfolding new
new-Inv mode = ground arith

abbrev StaysArmed : RuntimeStateMachine → RuntimeStateMachine → Type 0
StaysArmed s t = (s.arm_state ≡ ArmState.armed) × (t.last_active_mode ≡ s.last_active_mode)

-- The mode that the machine is in when it may submit orders.
submitting :
    (s : RuntimeStateMachine)
    → Inv s
    → can_submit_orders s ≡ true
    → (s.arm_state ≡ ArmState.armed) × (s.last_active_mode ≡ active_mode_for s.current_mode)
unfolding can_submit_orders
submitting s h c = ground arith

module _ {X : Externals} where
  step-Inv : (s : RuntimeStateMachine) (c : Call X) → Inv s → Inv (step s c)
  unfolding step
  step-Inv s (arming readiness allow_override) h = ground arith
  step-Inv s c h = ground arith

  steps-Inv : (s : RuntimeStateMachine) (cs : List (Call X)) → Inv s → Inv (steps s cs)
  unfolding steps
  steps-Inv s [] h = h
  steps-Inv s (c ∷ cs) h = steps-Inv (step s c) cs (step-Inv s c h)

  -- After any calls on a new machine: outside of a pause the mode to resume is the current one; an
  -- armed machine has a strategy loaded and resumes to paper or live; an active override means it
  -- is armed; a failed warmup means it is not; and allowed entries carry no reason.
  pub new-steps-Inv : (mode : RuntimeMode) (cs : List (Call X)) → Inv (steps (new mode) cs)
  new-steps-Inv mode cs = steps-Inv (new mode) cs (new-Inv mode)

  -- An `arm` that could succeed for the mode `m`.
  abbrev pub Justifies : Option ActiveRuntimeMode → Call X → Type 0
  Justifies m (arming report allow_override) =
      (active_mode_for report.mode ≡ m)
      × (has_blocking_issues report ≡ false)
      × (report.hard_override_required ≡ true → allow_override ≡ true)
  Justifies m _ = ⊥

  abbrev pub Ever : (Call X → Type 0) → List (Call X) → Type 0
  Ever P [] = ⊥
  Ever P (c ∷ cs) = P c ⊎ Ever P cs

  step_armed :
      (s : RuntimeStateMachine) (c : Call X)
      → Inv s
      → (step s c).arm_state ≡ ArmState.armed
      → StaysArmed s (step s c) ⊎ Justifies (step s c).last_active_mode c
  unfolding step
  step_armed s (arming report allow_override) h a = ground arith
  step_armed s c h a = ground arith

  steps_armed :
      (s : RuntimeStateMachine) (cs : List (Call X))
      → Inv s
      → (steps s cs).arm_state ≡ ArmState.armed
      → StaysArmed s (steps s cs) ⊎ Ever (Justifies (steps s cs).last_active_mode) cs
  unfolding steps
  steps_armed s [] h a = inl (a, refl)
  steps_armed s (c ∷ cs) h a = elim (steps_armed (step s c) cs (step-Inv s c h) a) [
    | inl (before, same) ↦ elim (step_armed s c h before) [
      | inl (first, kept) ↦ inl (first, same ∙ kept)
      | inr now ↦ inr (inl (subst (λ m. Justifies m c) (sym same) now))
    ]
    | inr later ↦ inr (inr later)
  ]

  -- If a machine may submit orders after some calls on a new one, one of the calls was an `arm` with
  -- a report for the very mode that it is in, with no blocking check and an override if one was
  -- required: no pause, resume or switch takes an arming from one mode to another.
  pub can_submit_orders-Justifies :
      (mode : RuntimeMode) (cs : List (Call X))
      → can_submit_orders (steps (new mode) cs) ≡ true
      → Ever (Justifies (active_mode_for (steps (new mode) cs).current_mode)) cs
  unfolding new
  can_submit_orders-Justifies mode cs c =
      let (armed_now, same) = submitting (steps (new mode) cs) (new-steps-Inv mode cs) c in
      elim (steps_armed (new mode) cs (new-Inv mode) armed_now) [
        | inl (before, _) ↦ absurd (ground arith)
        | inr found ↦ subst (λ m. Ever (Justifies m) cs) same found
      ]
