-- ===== src/BrokerTradovate/Preserves.antt =====
-- A property of the state that a method keeps, whatever the world answers: one rule for each way
-- that the methods of crates/broker_tradovate/src/lib.rs are put together.
use tv_bot_core.Base.{ok, err, ◌≡◌, refl}
use tv_bot_core.BrokerTradovate.Apis.{Outcome, Stateful, failing, ◌>>=◌}

module _ {S W : Type 0} (P : S → Type 0) where
  abbrev pub Preserves : {B : Type 0} → Stateful S W B → Type 0
  Preserves method = (s : S) (w : W) → P s → P (method s w).1

  continue-Preserves :
      {B C : Type 0} (outcome : Outcome S W B) (rest : B → Stateful S W C)
      → P outcome.1
      → ((b : B) → Preserves (rest b))
      → P (((λ s w. outcome) >>= rest) outcome.1 outcome.2).1
  continue-Preserves (ok b, s, w) rest h k = k b s w h
  continue-Preserves (err e, s, w) rest h k = h

  pub >>=-Preserves :
      {B C : Type 0} (first : Stateful S W B) (rest : B → Stateful S W C)
      → Preserves first
      → ((b : B) → Preserves (rest b))
      → Preserves (first >>= rest)
  >>=-Preserves first rest h k s w p = continue-Preserves (first s w) rest (h s w p) k

  settle-Preserves :
      {B : Type 0} (f : S → S) (outcome : Outcome S W B)
      → ((s : S) → P s → P (f s))
      → P outcome.1
      → P (failing f (λ s w. outcome) outcome.1 outcome.2).1
  settle-Preserves f (ok b, s, w) k h = h
  settle-Preserves f (err e, s, w) k h = k s h

  pub failing-Preserves :
      {B : Type 0} (f : S → S) (method : Stateful S W B)
      → ((s : S) → P s → P (f s))
      → Preserves method
      → Preserves (failing f method)
  failing-Preserves f method k h s w p = settle-Preserves f (method s w) k (h s w p)

module _ {S W B C : Type 0} where
  continue_run :
      (outcome : Outcome S W B) (rest : B → Stateful S W C) {c : C}
      → (((λ s w. outcome) >>= rest) outcome.1 outcome.2).0 ≡ ok c
      → (b : B) × (outcome.0 ≡ ok b)
        × (((λ s w. outcome) >>= rest) outcome.1 outcome.2 ≡ rest b outcome.1 outcome.2)
  continue_run (ok b, s, w) rest h = (b, refl, refl)
  continue_run (err e, s, w) rest h = cc

  -- A method that returned ran both of its parts.
  pub >>=-run :
      (first : Stateful S W B) (rest : B → Stateful S W C) (s : S) (w : W) {c : C}
      → ((first >>= rest) s w).0 ≡ ok c
      → (b : B) × ((first s w).0 ≡ ok b)
        × ((first >>= rest) s w ≡ rest b (first s w).1 (first s w).2)
  >>=-run first rest s w h = continue_run (first s w) rest h
