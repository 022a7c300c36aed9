-- ===== src/External.antt =====
-- What the program takes from other packages: `rust_decimal`, `chrono`, `serde_json` and
-- `secrecy`. The types and operations are parameters of the development, and the laws that a theorem needs of
-- them are its hypotheses. An operation of
-- `rust_decimal` that overflows aborts the process; the model is of the runs where none does.
use tv_bot_core.Base.{ℕ, ℤ, ◌≡◌, Bool, true, false, not, Option, List, String}

-- chrono::Weekday
pub data Weekday : Type 0 where
  mon tue wed thu fri sat sun : Weekday

pub record Externals : Type 1 where
  -- rust_decimal::Decimal
  pub Decimal : Type 0
  pub decimal_zero : Decimal
  pub decimal_of_unsigned : ℕ → Decimal
  pub decimal_le : Decimal → Decimal → Bool
  pub decimal_add : Decimal → Decimal → Decimal
  pub decimal_sub : Decimal → Decimal → Decimal
  pub decimal_mul : Decimal → Decimal → Decimal
  pub decimal_div : Decimal → Decimal → Decimal
  pub decimal_abs : Decimal → Decimal
  pub decimal_is_sign_negative : Decimal → Bool
  pub decimal_floor : Decimal → Decimal
  pub decimal_to_u32 : Decimal → Option ℕ
  pub decimal_display : Decimal → String
  pub decimal_one : Decimal
  pub decimal_new : ℕ → ℕ → Decimal
  pub decimal_is_zero : Decimal → Bool
  pub decimal_from_str : String → Option Decimal
  -- chrono::DateTime<Utc> and chrono::Duration
  pub DateTime : Type 0
  pub Duration : Type 0
  pub duration_since : DateTime → DateTime → Duration
  pub duration_le : Duration → Duration → Bool
  pub duration_zero : Duration
  pub duration_minutes : ℕ → Duration
  pub duration_seconds : ℕ → Duration
  pub timestamp_nanos : DateTime → Option ℤ
  -- chrono::NaiveTime, chrono_tz::Tz and the local time and weekday there
  pub NaiveTime : Type 0
  pub time_le : NaiveTime → NaiveTime → Bool
  pub time_from_str : String → Option NaiveTime
  pub Tz : Type 0
  pub tz_from_str : String → Option Tz
  pub local_time : Tz → DateTime → NaiveTime
  pub local_weekday : Tz → DateTime → Weekday
  -- chrono::NaiveDate
  pub NaiveDate : Type 0
  pub date_le : NaiveDate → NaiveDate → Bool
  pub date_of : DateTime → NaiveDate
  -- serde_json::Value
  pub Json : Type 0
  pub json_as_object : Json → Option (List (String × Json))
  pub json_as_array : Json → Option (List Json)
  pub json_as_string : Json → Option String
  pub json_object : List (String × Json) → Json
  pub json_array : List Json → Json
  pub json_string : String → Json
  pub json_unsigned : ℕ → Json
  pub json_null : Json
  -- secrecy::SecretString
  pub Secret : Type 0
  pub expose_secret : Secret → String

module _ (X : Externals) where
  open X use {Decimal, decimal_le, NaiveTime, time_le}

  -- `<` of the total orders on decimals and on times.
  abbrev pub decimal_lt : Decimal → Decimal → Bool
  decimal_lt a b = not (decimal_le b a)

  abbrev pub time_lt : NaiveTime → NaiveTime → Bool
  time_lt a b = not (time_le b a)

  -- `Ord` of rust_decimal::Decimal is a total order.
  pub record DecimalOrder : Type 0 where
    pub le_total : (a b : Decimal) → decimal_le a b ≡ false → decimal_le b a ≡ true
    pub le_trans :
        (a b c : Decimal) → decimal_le a b ≡ true → decimal_le b c ≡ true → decimal_le a c ≡ true

  -- So is `Ord` of chrono::NaiveTime.
  pub record TimeOrder : Type 0 where
    pub le_total : (a b : NaiveTime) → time_le a b ≡ false → time_le b a ≡ true
    pub le_trans :
        (a b c : NaiveTime) → time_le a b ≡ true → time_le b c ≡ true → time_le a c ≡ true
