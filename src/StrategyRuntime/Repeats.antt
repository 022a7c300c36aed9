-- ===== src/StrategyRuntime/Repeats.antt =====
-- The edges of crates/strategy_runtime/src/lib.rs: a signal that stays active does not enter twice.
use tv_bot_core.Base.{
  ℕ, Bool, true, false, Option, none, some, List, [], ◌∷◌, ◌≡◌, ◌⊎◌, String, Result, ok, ◌>>=◌,
  refl, inl, inr, ◌∙◌, sym, ap, ok_injective, >>=-eq-ok, All, arith,
}
use mathlib.Core.Path.{subst}
use tv_bot_core.External.{Externals}
use tv_bot_core.CoreTypes.{SignalDirection, ExecutionIntent, TradeSide, EntryOrderType}
use tv_bot_core.RuleEngine.Conditions.{EvaluationSide}
use tv_bot_core.StrategyRuntime.Definition.{
  StrategyRuntimeState, StrategyRuntimeError, RuntimeStrategyDefinition, StrategyMarketSnapshot,
  StrategyEvaluation, SideSignalEvaluation,
}
use tv_bot_core.StrategyRuntime.Signals.{choose_signal_direction}
use tv_bot_core.StrategyRuntime.Intents.{entry_edge, position_side, opposite_direction}
use tv_bot_core.StrategyRuntime.Engine.{hold_back, next_state, evaluate}
use tv_bot_core.StrategyRuntime.Entries.{evaluate-cases, evaluate_rules-decided, evaluate-enter}

abbrev pub enters : Option ExecutionIntent → Bool
enters (some (ExecutionIntent.enter _ _ _ _ _)) = true
enters _ = false

enters-cases :
    (intent : Option ExecutionIntent)
    → (enters intent ≡ false)
      ⊎ ((side : TradeSide) × (order_type : EntryOrderType) × (n : ℕ) × (brackets : Bool)
          × (reason : String) × (intent
              ≡ some (ExecutionIntent.enter side order_type n brackets reason)))
enters-cases none = inl refl
enters-cases (some (ExecutionIntent.enter side order_type n brackets reason)) =
    inr (side, order_type, n, brackets, reason, refl)
enters-cases (some (ExecutionIntent.exit _)) = inl refl
enters-cases (some (ExecutionIntent.flatten _)) = inl refl
enters-cases (some (ExecutionIntent.reduce_position _ _)) = inl refl
enters-cases (some (ExecutionIntent.cancel_working_orders _)) = inl refl
enters-cases (some (ExecutionIntent.pause_strategy _)) = inl refl

-- An active direction is the direction of an active signal.
active_after :
    {X : Externals} (long_signal short_signal : SideSignalEvaluation X)
    (side : Option EvaluationSide) (exit_matched : Bool)
    → entry_edge
        (next_state long_signal short_signal side exit_matched
          (choose_signal_direction long_signal short_signal).0)
        (choose_signal_direction long_signal short_signal).0
      ≡ false
unfolding choose_signal_direction
active_after long_signal short_signal side exit_matched = ground arith

module _ {X : Externals} (definition : RuntimeStrategyDefinition X) where
  abbrev pub Run : Type 0
  Run = List (StrategyMarketSnapshot X × StrategyEvaluation X)

  -- The snapshots evaluated in order, each from the state that the last left.
  unfoldable pub evaluate_each :
      StrategyRuntimeState → List (StrategyMarketSnapshot X) → Result StrategyRuntimeError Run
  evaluate_each state [] = ok []
  evaluate_each state (snapshot ∷ snapshots) = do
    (next, evaluation) ← evaluate definition state snapshot
    rest ← evaluate_each next snapshots
    ok ((snapshot, evaluation) ∷ rest)

  abbrev pub NotHeld : List (StrategyMarketSnapshot X) → Type 0
  NotHeld snapshots = All (λ snapshot. hold_back definition snapshot ≡ none) snapshots

  abbrev pub LastsIn : SignalDirection → Run → Type 0
  LastsIn direction run = All (λ step. step.1.signal.direction ≡ direction) run

  -- No entry, unless a position of the other side is held.
  abbrev pub NoEntry : StrategyMarketSnapshot X × StrategyEvaluation X → Type 0
  NoEntry (snapshot, evaluation) =
      (enters evaluation.intent ≡ false)
      ⊎ ((held : EvaluationSide) × (position_side snapshot.position ≡ some held)
          × (opposite_direction evaluation.signal.direction held ≡ true))

  evaluate-active :
      (state next : StrategyRuntimeState) (snapshot : StrategyMarketSnapshot X)
      (evaluation : StrategyEvaluation X)
      → hold_back definition snapshot ≡ none
      → evaluate definition state snapshot ≡ ok (next, evaluation)
      → entry_edge next evaluation.signal.direction ≡ false
  evaluate-active state next snapshot evaluation none_held h =
      elim (evaluate-cases definition state next snapshot evaluation h) [
        | inl (held, _) ↦ cc
        | inr (_, rules) ↦
            let (l, s, x, _, _, _, e) =
              evaluate_rules-decided definition state snapshot next evaluation rules in
            subst (λ d. entry_edge d.0 d.1.signal.direction ≡ false) e
              (active_after l s (position_side snapshot.position) x.matched)
      ]

  no_edge-NoEntry :
      (state next : StrategyRuntimeState) (snapshot : StrategyMarketSnapshot X)
      (evaluation : StrategyEvaluation X)
      → entry_edge state evaluation.signal.direction ≡ false
      → evaluate definition state snapshot ≡ ok (next, evaluation)
      → NoEntry (snapshot, evaluation)
  no_edge-NoEntry state next snapshot evaluation no_edge h = elim (enters-cases evaluation.intent) [
    | inl quiet ↦ inl quiet
    | inr (side, order_type, n, brackets, reason, i) ↦
        let (_, _, _, _, _, _, _, cause) =
          evaluate-enter definition state snapshot next evaluation side order_type n brackets reason
            h i in
        elim cause [ inl (_, edge) ↦ cc | inr against ↦ inr against ]
  ]

  -- The first step of a run, and the run from the state that it leaves.
  evaluate_each-next :
      (state : StrategyRuntimeState) (snapshot : StrategyMarketSnapshot X)
      (snapshots : List (StrategyMarketSnapshot X))
      (step : StrategyMarketSnapshot X × StrategyEvaluation X) (run : Run)
      → evaluate_each state (snapshot ∷ snapshots) ≡ ok (step ∷ run)
      → (next : StrategyRuntimeState) × (step.0 ≡ snapshot)
        × (evaluate definition state snapshot ≡ ok (next, step.1))
        × (evaluate_each next snapshots ≡ ok run)
  unfolding evaluate_each
  evaluate_each-next state snapshot snapshots step run h =
      let (p, e, h1) = >>=-eq-ok (evaluate definition state snapshot) _ h in
      let (rest, e', h2) = >>=-eq-ok (evaluate_each p.0 snapshots) _ h1 in
      let whole : (snapshot, p.1) ∷ rest ≡ step ∷ run = ok_injective refl h2 in
      let same : (snapshot, p.1) ≡ step = cc in
      let others : rest ≡ run = cc in
      (
        p.0,
        sym (ap (λ q. q.0) same),
        e ∙ ap (λ (q : StrategyMarketSnapshot X × StrategyEvaluation X). ok (p.0, q.1)) same,
        e' ∙ ap (λ r. ok r) others,
      )

  later-NoEntry :
      (snapshots : List (StrategyMarketSnapshot X)) (state : StrategyRuntimeState) (run : Run)
      (direction : SignalDirection)
      → entry_edge state direction ≡ false
      → evaluate_each state snapshots ≡ ok run
      → NotHeld snapshots
      → LastsIn direction run
      → All NoEntry run
  unfolding evaluate_each
  later-NoEntry [] state run direction no_edge h held lasts =
      subst (All NoEntry) (ok_injective refl h) tt
  later-NoEntry (snapshot ∷ snapshots) state [] direction no_edge h held lasts = tt
  later-NoEntry (snapshot ∷ snapshots) state ((seen, evaluation) ∷ run) direction no_edge h held
        lasts =
      let (next, same, e, rest) =
        evaluate_each-next state snapshot snapshots (seen, evaluation) run h in
      let active : entry_edge state evaluation.signal.direction ≡ false =
        subst (λ d. entry_edge state d ≡ false) (sym lasts.0) no_edge in
      let still : entry_edge next direction ≡ false =
        subst (λ d. entry_edge next d ≡ false) lasts.0
          (evaluate-active state next snapshot evaluation held.0 e) in
      (
        subst (λ t. NoEntry (t, evaluation)) (sym same)
            (no_edge-NoEntry state next snapshot evaluation active e),
        later-NoEntry snapshots next run direction still rest held.1 lasts.1,
      )

  -- Where a run of evaluations, each from the state that the last left and none of them held back,
  -- has one direction of the signal throughout, only the first of them may enter: each later one asks
  -- for no entry, whatever its snapshot, unless that has a position of the other side.
  pub evaluate-again :
      (snapshots : List (StrategyMarketSnapshot X)) (state : StrategyRuntimeState)
      (first : StrategyMarketSnapshot X × StrategyEvaluation X) (later : Run)
      → evaluate_each state snapshots ≡ ok (first ∷ later)
      → NotHeld snapshots
      → LastsIn first.1.signal.direction later
      → All NoEntry later
  unfolding evaluate_each
  evaluate-again [] state first later h held lasts = cc
  evaluate-again (snapshot ∷ snapshots) state first later h held lasts =
      let (next, _, e, rest) = evaluate_each-next state snapshot snapshots first later h in
      later-NoEntry snapshots next later first.1.signal.direction
        (evaluate-active state next snapshot first.1 held.0 e) rest held.1 lasts
