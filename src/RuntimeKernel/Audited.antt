-- ===== src/RuntimeKernel/Audited.antt =====
-- What `evaluate_risk_and_execute_tradovate` of crates/runtime_kernel/src/lib.rs records and
-- dispatches, and in which order.
use tv_bot_core.Base.{
  List, Bool, true, false, none, some, ◌≡◌, ◌⊎◌, inl, inr, refl, Result, ok, err, is_empty,
  if◌then◌else◌, String, Contains,
}
use tv_bot_core.External.{Externals}
use tv_bot_core.CoreTypes.{is_accepted, EventJournalRecord}
use tv_bot_core.BrokerTradovate.Session.{SessionState}
use tv_bot_core.BrokerTradovate.Apis.{SessionApis}
use tv_bot_core.BrokerTradovate.Config.{TradovateSessionManager}
use tv_bot_core.ExecutionEngine.Dispatch.{
  ExecutionDispatchReport, ExecutionDispatchError, plan_and_execute_tradovate,
}
use tv_bot_core.RuntimeKernel.Pipeline.{
  JournalError, EventJournal, RuntimeExecutionRequest, RuntimeExecutionError, Executed, risk_of,
  adjusted, journaled, dispatched, act, override_journaled, journal_risk_decision,
  journal_hard_override, journal_payload, override_action, intent_name, decision_entries,
  override_entries, evaluate_risk_and_execute_tradovate,
}

module _ {X : Externals} (A : SessionApis X) (m : TradovateSessionManager X)
    (J : EventJournal X A.World) (request : RuntimeExecutionRequest X) where
  -- A record of the risk decision: its action, where the request comes from, and the decision.
  abbrev pub Tells : String → EventJournalRecord X → Type 0
  Tells action entry =
      (entry.category ≡ "risk")
      × (entry.action ≡ action)
      × (entry.source ≡ request.action_source)
      × ((entries : List (String × X.Json)) × (entry.payload
            ≡ journal_payload A m J request.authenticated_operator entries)
          × Contains ("intent", X.json_string (intent_name request.execution.intent)) entries
          × Contains ("decision_status", J.status_json (risk_of A m J request).decision.status)
              entries)

  -- Such a record is appended to the journal at `w`, which answers so.
  abbrev pub Noted : String → A.World → Result JournalError (Unit {0}) × A.World → Type 0
  Noted action w answer =
      (entry : EventJournalRecord X) × (J.append entry w ≡ answer) × Tells action entry

  abbrev pub override_word : String
  override_word = override_action A m J request (risk_of A m J request)

  -- From `w` to `left` the journal takes the decision, and then the reasons for an override, where
  -- there are any; nothing else happens.
  abbrev pub Recorded : A.World → A.World → Type 0
  Recorded w left =
      (told : A.World) × Noted "decision" w (ok tt, told)
      × (((is_empty (risk_of A m J request).hard_override_reasons ≡ true) × (left ≡ told))
          ⊎ ((is_empty (risk_of A m J request).hard_override_reasons ≡ false)
              × Noted override_word told (ok tt, left)))

  -- From `w` to `left` the journal refuses one of these.
  abbrev pub Refused : A.World → JournalError → A.World → Type 0
  Refused w source left =
      Noted "decision" w (err source, left)
      ⊎ ((told : A.World) × Noted "decision" w (ok tt, told)
          × (is_empty (risk_of A m J request).hard_override_reasons ≡ false)
          × Noted override_word told (err source, left))

  module _ (s : SessionState X) where
    -- The answer of the broker path at `w`, for the intent that the risk engine passes on.
    abbrev pub Sent : A.World → Executed A m J → Type 0
    Sent w executed =
        (t : SessionState X) × (left : A.World) × (((report : ExecutionDispatchReport)
            × (plan_and_execute_tradovate A m (adjusted A m J request) s w ≡ (ok report, t, left))
            × (executed
                ≡ (ok (record { risk = risk_of A m J request; dispatch = some report }), t, left)))
          ⊎ ((source : ExecutionDispatchError) × (plan_and_execute_tradovate A m
                  (adjusted A m J request) s w
                ≡ (err source, t, left))
              × (executed ≡ (err (RuntimeExecutionError.dispatch source), t, left))))

    abbrev pub Acted : A.World → Executed A m J → Type 0
    Acted w executed =
        ((is_accepted (risk_of A m J request).decision.status ≡ false)
          × (executed ≡ (ok (record { risk = risk_of A m J request; dispatch = none }), s, w)))
        ⊎ ((is_accepted (risk_of A m J request).decision.status ≡ true) × Sent w executed)

    abbrev pub EndsGated : A.World → Executed A m J → Type 0
    EndsGated w executed =
        ((source : JournalError) × (left : A.World) × Refused w source left
          × (executed ≡ (err (RuntimeExecutionError.journal source), s, left)))
        ⊎ ((left : A.World) × Recorded w left × Acted left executed)

    journaled-cases :
        (P : Executed A m J → Type 0) (answer : Result JournalError (Unit {0}) × A.World)
        (rest : A.World → Executed A m J)
        → ((source : JournalError) (left : A.World)
            → answer ≡ (err source, left)
            → P (err (RuntimeExecutionError.journal source), s, left))
        → ((left : A.World) → answer ≡ (ok tt, left) → P (rest left))
        → P (journaled A m J answer s rest)
    journaled-cases P (err source, left) rest h k = h source left refl
    journaled-cases P (ok u, left) rest h k = k left refl

    if-cases :
        (P : Executed A m J → Type 0) (test : Bool) (x y : Executed A m J)
        → (test ≡ true → P x)
        → (test ≡ false → P y)
        → P (if test then x else y)
    if-cases P true x y h k = h refl
    if-cases P false x y h k = k refl

    dispatched-Sent :
        (w : A.World)
        (sent : Result ExecutionDispatchError ExecutionDispatchReport × SessionState X × A.World)
        → plan_and_execute_tradovate A m (adjusted A m J request) s w ≡ sent
        → Sent w (dispatched A m J (risk_of A m J request) sent)
    dispatched-Sent w (err source, t, left) e = (t, left, inr (source, e, refl))
    dispatched-Sent w (ok report, t, left) e = (t, left, inl (report, e, refl))

    act-Acted : (w : A.World) → Acted w (act A m J request s w)
    act-Acted w =
        if-cases (Acted w) (is_accepted (risk_of A m J request).decision.status) _ _
          (λ a. inr (a, dispatched-Sent w _ refl)) λ r. inl (r, refl)

    decision-Noted :
        (w : A.World) (answer : Result JournalError (Unit {0}) × A.World)
        → journal_risk_decision A m J request (risk_of A m J request) w ≡ answer
        → Noted "decision" w answer
    unfolding journal_risk_decision
    decision-Noted w answer e = (
      _,
      e,
      (
        refl,
        refl,
        refl,
        (
          decision_entries A m J request (risk_of A m J request),
          refl,
          inr (inr (inl refl)),
          inr (inr (inr (inl refl))),
        ),
      ),
    )

    override-Noted :
        (w : A.World) (answer : Result JournalError (Unit {0}) × A.World)
        → journal_hard_override A m J request (risk_of A m J request) w ≡ answer
        → Noted override_word w answer
    unfolding journal_hard_override
    override-Noted w answer e = (
      _,
      e,
      (
        refl,
        refl,
        refl,
        (
          override_entries A m J request (risk_of A m J request),
          refl,
          inr (inr (inl refl)),
          inr (inr (inr (inl refl))),
        ),
      ),
    )

    override_journaled-EndsGated :
        (w told : A.World)
        → Noted "decision" w (ok tt, told)
        → EndsGated w (override_journaled A m J request s told)
    override_journaled-EndsGated w told noted =
        if-cases (EndsGated w) (is_empty (risk_of A m J request).hard_override_reasons) _ _
          (λ e. inr (told, (told, noted, inl (e, refl)), act-Acted told))
          λ e.
            journaled-cases (EndsGated w)
              (journal_hard_override A m J request (risk_of A m J request) told)
              (act A m J request s)
              (λ source left r.
                inl (source, left, inr (told, noted, e, override-Noted told _ r), refl))
              λ left r. inr (left, (told, noted, inr (e, override-Noted told _ r)), act-Acted left)

    -- The audited path first appends a record of the risk decision to the journal, and then one of the
    -- reasons for an override, where there are any. When the journal refuses either, the path ends in
    -- that error, with the session as it was and the world as the journal left it: nothing is sent.
    -- Once they are recorded, a decision that is no acceptance ends in an outcome that tells the
    -- decision and dispatched nothing, again with nothing sent; and an accepted one ends exactly as
    -- planning and dispatching the intent that the risk engine passes on ends from there, with its
    -- report, or with its error.
    pub evaluate_risk_and_execute-EndsGated :
        (w : A.World) → EndsGated w (evaluate_risk_and_execute_tradovate A m J request s w)
    unfolding evaluate_risk_and_execute_tradovate
    evaluate_risk_and_execute-EndsGated w =
        journaled-cases (EndsGated w)
          (journal_risk_decision A m J request (risk_of A m J request) w)
          (override_journaled A m J request s)
          (λ source left e. inl (source, left, inl (decision-Noted w _ e), refl))
          λ told e. override_journaled-EndsGated w told (decision-Noted w _ e)
