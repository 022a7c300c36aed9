-- ===== src/Base/Results.antt =====
-- Rust's `Result<A, E>` with its `?`.
use mathlib.Core.Path.{subst, ◌≡◌, refl}
use mathlib.Core.Logic.{◌⊎◌, inl, inr}
use mathlib.Core.Bool.{Bool, true, false}
use mathlib.Core.Option.{Option, none, some}
use tv_bot_core.Base.Tests.{if◌then◌else◌}
use mathlib.Core.List.{List, [], ◌∷◌}

pub data Result {ℓ κ} (E : Type ℓ) (A : Type κ) : Type (ℓ ⊔ κ) where
  ok : A → Result E A
  err : E → Result E A

-- `result?` followed by the rest of the function
infixl 5 ◌>>=◌
abbrev pub ◌>>=◌ {ℓ κ μ} :
    {E : Type ℓ} {A : Type κ} {B : Type μ} → Result E A → (A → Result E B) → Result E B
err reason >>= rest = err reason
ok a >>= rest = rest a

-- `Option::ok_or`
abbrev pub ok_or {ℓ κ} : {E : Type ℓ} {A : Type κ} → Option A → E → Result E A
ok_or none e = err e
ok_or (some a) e = ok a

abbrev pub is_some {ℓ} : {A : Type ℓ} → Option A → Bool
is_some none = false
is_some (some a) = true

-- `check(..)?;`
infixl 5 ◌>>◌
abbrev pub ◌>>◌ {ℓ μ} : {E : Type ℓ} {B : Type μ} → Result E (Unit {0}) → Result E B → Result E B
checked >> rest = checked >>= λ _. rest

-- `if !test { return Err(e) }`
abbrev pub guard {ℓ} : {E : Type ℓ} → Bool → E → Result E (Unit {0})
guard false reason = err reason
guard true reason = ok tt

-- `.map(f).collect::<Result<Vec<_>, _>>()?`
abbrev pub try_map {ℓ} :
    {E : Type ℓ} {A : Type ℓ} {B : Type ℓ} → (A → Result E B) → List A → Result E (List B)
try_map f [] = ok []
try_map f (a ∷ rest) = f a >>= λ b. try_map f rest >>= λ bs. ok (b ∷ bs)

-- `.map(f).transpose()?`
abbrev pub try_option {ℓ} :
    {E : Type ℓ} {A : Type ℓ} {B : Type ℓ} → (A → Result E B) → Option A → Result E (Option B)
try_option f none = ok none
try_option f (some a) = f a >>= λ b. ok (some b)

-- `Option::unwrap_or`
abbrev pub unwrap_or {ℓ} : {A : Type ℓ} → Option A → A → A
unwrap_or none a = a
unwrap_or (some b) a = b

-- A call that returns a value.
abbrev pub Returns {ℓ κ} : {E : Type ℓ} {A : Type κ} → Result E A → Type (ℓ ⊔ κ)
Returns {A} r = (a : A) × (r ≡ ok a)

-- What holds of the value, whenever there is one.
abbrev pub Ensures {ℓ κ μ} :
    {E : Type ℓ} {A : Type κ} → (A → Type μ) → Result E A → Type (ℓ ⊔ κ ⊔ μ)
Ensures {A} P r = (a : A) → r ≡ ok a → P a

module _ {ℓ κ} {E : Type ℓ} {A : Type κ} where
  pub Result-cases : (r : Result E A) → ((a : A) × (r ≡ ok a)) ⊎ ((e : E) × (r ≡ err e))
  Result-cases (ok a) = inl (a, refl)
  Result-cases (err e) = inr (e, refl)

  pub ok_injective : {a b : A} {r : Result E A} → r ≡ ok a → r ≡ ok b → a ≡ b
  ok_injective h k = cc

  pub >>=-eq-ok {μ} :
      {B : Type μ} (first : Result E A) (rest : A → Result E B) {done : B}
      → (first >>= rest) ≡ ok done
      → (a : A) × (first ≡ ok a) × (rest a ≡ ok done)
  >>=-eq-ok (err reason) rest e = cc
  >>=-eq-ok (ok a) rest e = (a, refl, e)

  pub >>=-Returns {μ} :
      {B : Type μ} (first : Result E A) (rest : A → Result E B)
      → Returns first
      → ((a : A) → Returns (rest a))
      → Returns (first >>= rest)
  >>=-Returns (ok a) rest h k = k a
  >>=-Returns (err reason) rest h k = cc

  pub >>=-Returns_at {μ} :
      {B : Type μ} {first : Result E A} (rest : A → Result E B) {a : A}
      → first ≡ ok a
      → Returns (rest a)
      → Returns (first >>= rest)
  >>=-Returns_at rest e (b, h) = (b, rw e h)

  pub >>=-Ensures {μ ν} :
      {B : Type μ} {P : B → Type ν} (first : Result E A) (rest : A → Result E B)
      → ((a : A) → first ≡ ok a → Ensures P (rest a))
      → Ensures P (first >>= rest)
  >>=-Ensures (ok a) rest h b e = h a refl b e
  >>=-Ensures (err reason) rest h b e = cc

  pub ok-Ensures {μ} : (P : A → Type μ) (a : A) → P a → Ensures {E = E} P (ok a)
  ok-Ensures P a p b e = subst P (ok_injective refl e) p

pub guard-Ensures {ℓ κ μ} :
    {E : Type ℓ} {A : Type κ} {P : A → Type μ} (test : Bool) (reason : E) (rest : Result E A)
    → (test ≡ true → Ensures P rest)
    → Ensures P (guard test reason >> rest)
guard-Ensures true reason rest h b e = h refl b e
guard-Ensures false reason rest h b e = cc

module _ {ℓ κ μ} {E : Type ℓ} {A : Type κ} (P : A → Type μ) where
  pub err-Ensures : (reason : E) → Ensures P (err reason)
  err-Ensures reason b e = cc

  pub if-Ensures :
      (test : Bool) (r s : Result E A)
      → Ensures P r
      → Ensures P s
      → Ensures P (if test then r else s)
  if-Ensures true r s h k = h
  if-Ensures false r s h k = k

pub if-Returns {ℓ κ} :
    {E : Type ℓ} {A : Type κ} (test : Bool) (r s : Result E A)
    → Returns r
    → Returns s
    → Returns (if test then r else s)
if-Returns true r s h k = h
if-Returns false r s h k = k
