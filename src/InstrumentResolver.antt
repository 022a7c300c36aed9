-- ===== src/InstrumentResolver.antt =====
-- crates/instrument_resolver/src/lib.rs: the front-month contract of a market and its symbols.
use Prim.Native.Char.{Char, code}
use Prim.Native.String
use tv_bot_core.Base.{
  ℕ, ℤ, ◌+◌, leb, ltb, ◌==◌, leb_ℤ, Bool, true, false, Option, none, some, List, [], ◌∷◌, ◌++◌,
  String, Result, ok, err, ◌>>=◌, ◌>>◌, guard, ok_or, not, ◌&&◌, ◌||◌, any, find, is_empty,
  is_whitespace, format, show_i64, if◌then◌else◌,
}
use tv_bot_core.External.{Externals}
use tv_bot_core.CoreTypes.{ContractMode, CompiledStrategy}
pub mod FrontMonth
mod Tests

pub record ContractMonth : Type 0 where
  pub year : ℤ  -- i32
  pub month : ℕ  -- u8

pub data FrontMonthSelectionBasis : Type 0 where
  first_notice_date last_trade_date chain_order : FrontMonthSelectionBasis

pub data DatabentoSymbology : Type 0 where
  raw_symbol parent continuous : DatabentoSymbology

pub record FuturesContract : Type 0 where
  pub market_family : String
  pub display_name : String
  pub venue : String
  pub symbol_root : String
  pub month : ContractMonth
  pub canonical_symbol : String

pub record DatabentoInstrument : Type 0 where
  pub dataset : String
  pub symbol : String
  pub symbology : DatabentoSymbology

pub record InstrumentMapping (X : Externals) : Type 0 where
  pub market_family : String
  pub market_display_name : String
  pub contract_mode : ContractMode
  pub resolved_contract : FuturesContract
  pub databento_symbols : List DatabentoInstrument
  pub tradovate_symbol : String
  pub resolution_basis : FrontMonthSelectionBasis
  pub resolved_at : X.DateTime
  pub summary : String

pub record MarketDefinition : Type 0 where
  pub market_family : String
  pub display_name : String
  pub venue : String
  pub symbol_root : String
  pub tradovate_symbol_root : String
  pub databento_dataset : String
  pub aliases : List String

pub record ContractListing (X : Externals) : Type 0 where
  pub month : ContractMonth
  pub databento_symbol : String
  pub tradovate_symbol : String
  pub first_notice_date : Option X.NaiveDate
  pub last_trade_date : Option X.NaiveDate

pub data ContractChainError : Type 0 where
  unavailable : (market : String) → ContractChainError
  provider : (market message : String) → ContractChainError

pub data InstrumentResolverError (X : Externals) : Type 0 where
  unsupported_market : (market : String) → InstrumentResolverError X
  contract_chain : (error : ContractChainError) → InstrumentResolverError X
  empty_contract_chain : (market : String) → InstrumentResolverError X
  duplicate_contract_month : (market : String) → InstrumentResolverError X
  invalid_contract_month : (market : String) (month : ℕ) → InstrumentResolverError X
  no_active_contract : (market : String) (as_of : X.NaiveDate) → InstrumentResolverError X

-- `SUPPORTED_MARKETS`
abbrev pub supported_markets : List MarketDefinition
supported_markets =
    record {
      market_family = "gold";
      display_name = "COMEX Gold";
      venue = "COMEX";
      symbol_root = "GC";
      tradovate_symbol_root = "GC";
      databento_dataset = "GLBX.MDP3";
      aliases = "gc" ∷ [];
    }
    ∷ record {
      market_family = "silver";
      display_name = "COMEX Silver";
      venue = "COMEX";
      symbol_root = "SI";
      tradovate_symbol_root = "SI";
      databento_dataset = "GLBX.MDP3";
      aliases = "si" ∷ [];
    }
    ∷ record {
      market_family = "micro_silver";
      display_name = "COMEX Micro Silver";
      venue = "COMEX";
      symbol_root = "SIL";
      tradovate_symbol_root = "SIL";
      databento_dataset = "GLBX.MDP3";
      aliases = "sil" ∷ "micro silver" ∷ "microsilver" ∷ [];
    }
    ∷ record {
      market_family = "crude_oil";
      display_name = "NYMEX WTI Crude Oil";
      venue = "NYMEX";
      symbol_root = "CL";
      tradovate_symbol_root = "CL";
      databento_dataset = "GLBX.MDP3";
      aliases = "cl" ∷ "crude" ∷ "oil" ∷ [];
    }
    ∷ record {
      market_family = "es";
      display_name = "CME E-mini S&P 500";
      venue = "CME";
      symbol_root = "ES";
      tradovate_symbol_root = "ES";
      databento_dataset = "GLBX.MDP3";
      aliases = "sp500" ∷ "sp_500" ∷ "s&p500" ∷ [];
    }
    ∷ record {
      market_family = "nq";
      display_name = "CME E-mini Nasdaq-100";
      venue = "CME";
      symbol_root = "NQ";
      tradovate_symbol_root = "NQ";
      databento_dataset = "GLBX.MDP3";
      aliases = "nasdaq" ∷ "nasdaq100" ∷ [];
    }
    ∷ record {
      market_family = "ym";
      display_name = "CBOT E-mini Dow";
      venue = "CBOT";
      symbol_root = "YM";
      tradovate_symbol_root = "YM";
      databento_dataset = "GLBX.MDP3";
      aliases = "dow" ∷ [];
    }
    ∷ record {
      market_family = "rty";
      display_name = "CME E-mini Russell 2000";
      venue = "CME";
      symbol_root = "RTY";
      tradovate_symbol_root = "RTY";
      databento_dataset = "GLBX.MDP3";
      aliases = "russell" ∷ "russell2000" ∷ [];
    }
    ∷ []

-- `char::to_lowercase`, on the characters whose lower case may be an ASCII letter; all others stay,
-- which no comparison with an ASCII name can tell.
abbrev to_lowercase : ℕ → List ℕ
to_lowercase c =
    if leb b'A' c && leb c b'Z'
    then (c + 32) ∷ []
    else if c == 0x130
    then b'i' ∷ 0x307 ∷ []
    else if c == 0x212A
    then b'k' ∷ []
    else c ∷ []

abbrev is_kept : ℕ → Bool
is_kept c = not (is_whitespace c) && not (c == b'_') && not (c == b'-')

-- The characters of a market key.
unfoldable pub normalize_market_key : String → List ℕ
normalize_market_key String.[] = []
normalize_market_key (String.◌∷◌ c s) =
    if is_kept (code c)
    then to_lowercase (code c) ++ normalize_market_key s
    else normalize_market_key s

abbrev same_codes : List ℕ → List ℕ → Bool
same_codes [] [] = true
same_codes [] (d ∷ ds) = false
same_codes (c ∷ cs) [] = false
same_codes (c ∷ cs) (d ∷ ds) = c == d && same_codes cs ds

abbrev same_key : String → String → Bool
same_key a b = same_codes (normalize_market_key a) (normalize_market_key b)

unfoldable pub lookup_market_definition : String → Option MarketDefinition
unfolding normalize_market_key
lookup_market_definition market_family =
    find
      (λ market.
        same_key market.market_family market_family
        || any (λ name. same_key name market_family) market.aliases)
      supported_markets

-- The derived order of months, by the year first.
abbrev pub month_le : ContractMonth → ContractMonth → Bool
month_le a b = not (leb_ℤ b.year a.year) || leb_ℤ a.year b.year && leb a.month b.month

abbrev pub month_eq : ContractMonth → ContractMonth → Bool
month_eq a b = month_le a b && month_le b a

abbrev pub month_code : ℕ → String
month_code month =
    if month == 1
    then "F"
    else if month == 2
    then "G"
    else if month == 3
    then "H"
    else if month == 4
    then "J"
    else if month == 5
    then "K"
    else if month == 6
    then "M"
    else if month == 7
    then "N"
    else if month == 8
    then "Q"
    else if month == 9
    then "U"
    else if month == 10
    then "V"
    else if month == 11
    then "X"
    else if month == 12
    then "Z"
    else "?"

unfoldable pub format_contract_symbol : String → ContractMonth → String
format_contract_symbol symbol_root month =
    format (symbol_root ∷ month_code month.month ∷ show_i64 month.year ∷ [])

abbrev pub resolution_basis_label : FrontMonthSelectionBasis → String
resolution_basis_label FrontMonthSelectionBasis.first_notice_date = "first_notice_date"
resolution_basis_label FrontMonthSelectionBasis.last_trade_date = "last_trade_date"
resolution_basis_label FrontMonthSelectionBasis.chain_order = "chain_order"

module _ (X : Externals) where
  open X use {NaiveDate, date_le}

  abbrev cutoff_of :
      Option NaiveDate → Option NaiveDate → Option (NaiveDate × FrontMonthSelectionBasis)
  cutoff_of (some date) last = some (date, FrontMonthSelectionBasis.first_notice_date)
  cutoff_of none (some date) = some (date, FrontMonthSelectionBasis.last_trade_date)
  cutoff_of none none = none

  abbrev passed : NaiveDate → Option (NaiveDate × FrontMonthSelectionBasis) → Bool
  passed as_of none = false
  passed as_of (some (cutoff, _)) = date_le cutoff as_of

  abbrev basis : Option (NaiveDate × FrontMonthSelectionBasis) → FrontMonthSelectionBasis
  basis none = FrontMonthSelectionBasis.chain_order
  basis (some (_, found)) = found

module _ {X : Externals} where
  unfoldable pub rollover_cutoff :
      ContractListing X → Option (X.NaiveDate × FrontMonthSelectionBasis)
  rollover_cutoff listing = cutoff_of X listing.first_notice_date listing.last_trade_date

  -- `as_of >= cutoff`, for a listing with a cutoff.
  abbrev pub has_rolled_over : X.NaiveDate → ContractListing X → Bool
  has_rolled_over as_of listing = passed X as_of (rollover_cutoff listing)

  abbrev pub selection_basis : ContractListing X → FrontMonthSelectionBasis
  selection_basis listing = basis X (rollover_cutoff listing)

  -- The loop of `validate_chain`, with the months seen so far.
  unfoldable pub check_months :
      String
      → List ContractMonth
      → List (ContractListing X)
      → Result (InstrumentResolverError X) (Unit {0})
  check_months market months [] = ok tt
  check_months market months (listing ∷ chain) =
      guard (leb 1 listing.month.month && leb listing.month.month 12)
        (InstrumentResolverError.invalid_contract_month market listing.month.month)
      >> (guard (not (any (month_eq listing.month) months))
            (InstrumentResolverError.duplicate_contract_month market)
          >> check_months market (listing.month ∷ months) chain)

  unfoldable pub validate_chain :
      String → List (ContractListing X) → Result (InstrumentResolverError X) (Unit {0})
  unfolding check_months
  validate_chain market_key chain = check_months market_key [] chain

  -- The stable `sort_by_key` by the month.
  unfoldable pub insert_by_month :
      ContractListing X → List (ContractListing X) → List (ContractListing X)
  insert_by_month listing [] = listing ∷ []
  insert_by_month listing (next ∷ chain) =
      if month_le listing.month next.month
      then listing ∷ next ∷ chain
      else next ∷ insert_by_month listing chain

  unfoldable pub sort_by_month : List (ContractListing X) → List (ContractListing X)
  unfolding insert_by_month
  sort_by_month [] = []
  sort_by_month (listing ∷ chain) = insert_by_month listing (sort_by_month chain)

  unfoldable pub first_active :
      X.NaiveDate
      → String
      → List (ContractListing X)
      → Result (InstrumentResolverError X) (ContractListing X × FrontMonthSelectionBasis)
  unfolding rollover_cutoff
  first_active as_of market_key [] =
      err (InstrumentResolverError.no_active_contract market_key as_of)
  first_active as_of market_key (listing ∷ ordered) =
      let rest = first_active as_of market_key ordered in
      if has_rolled_over as_of listing then rest else ok (listing, selection_basis listing)

  unfoldable pub select_front_month :
      List (ContractListing X)
      → X.NaiveDate
      → String
      → Result (InstrumentResolverError X) (ContractListing X × FrontMonthSelectionBasis)
  unfolding first_active sort_by_month
  select_front_month chain as_of market_key = first_active as_of market_key (sort_by_month chain)

module _ (X : Externals) where
  -- ContractChainProvider
  abbrev pub ContractChainProvider : Type 0
  ContractChainProvider = MarketDefinition → Result ContractChainError (List (ContractListing X))

  abbrev chain_of :
      Result ContractChainError (List (ContractListing X))
      → Result (InstrumentResolverError X) (List (ContractListing X))
  chain_of (ok chain) = ok chain
  chain_of (err e) = err (InstrumentResolverError.contract_chain e)

module _ {X : Externals} where
  abbrev mapping_of :
      MarketDefinition
      → ContractMode
      → X.DateTime
      → ContractListing X
      → FrontMonthSelectionBasis
      → InstrumentMapping X
  mapping_of market contract_mode resolved_at selected resolution_basis =
      let canonical_symbol = format_contract_symbol market.symbol_root selected.month in
      record {
        market_family = market.market_family;
        market_display_name = market.display_name;
        contract_mode = contract_mode;
        resolved_contract = record {
          market_family = market.market_family;
          display_name = market.display_name;
          venue = market.venue;
          symbol_root = market.symbol_root;
          month = selected.month;
          canonical_symbol = canonical_symbol;
        };
        databento_symbols =
            record {
              dataset = market.databento_dataset;
              symbol = selected.databento_symbol;
              symbology = DatabentoSymbology.raw_symbol;
            }
            ∷ [];
        tradovate_symbol = selected.tradovate_symbol;
        resolution_basis = resolution_basis;
        resolved_at = resolved_at;
        summary = format (
            market.display_name
            ∷ " resolved to "
            ∷ canonical_symbol
            ∷ " | Databento: "
            ∷ selected.databento_symbol
            ∷ " | Tradovate: "
            ∷ selected.tradovate_symbol
            ∷ " | basis: "
            ∷ resolution_basis_label resolution_basis
            ∷ []);
      }

  unfoldable pub resolve_front_month :
      ContractChainProvider X
      → MarketDefinition
      → ContractMode
      → X.DateTime
      → Result (InstrumentResolverError X) (InstrumentMapping X)
  unfolding validate_chain select_front_month format_contract_symbol
  resolve_front_month chains market contract_mode resolved_at = do
    chain ← chain_of X (chains market)
    guard (not (is_empty chain)) (InstrumentResolverError.empty_contract_chain market.market_family)
    validate_chain market.market_family chain
    (selected, resolution_basis) ←
        select_front_month chain (X.date_of resolved_at) market.market_family
    ok (mapping_of market contract_mode resolved_at selected resolution_basis)

  -- `self.clock.now()` is the argument `resolved_at`.
  unfoldable pub resolve_market :
      ContractChainProvider X
      → X.DateTime
      → String
      → ContractMode
      → Result (InstrumentResolverError X) (InstrumentMapping X)
  unfolding lookup_market_definition resolve_front_month
  resolve_market chains resolved_at market_family ContractMode.front_month_auto = do
    market ←
        ok_or (lookup_market_definition market_family)
          (InstrumentResolverError.unsupported_market market_family)
    resolve_front_month chains market ContractMode.front_month_auto resolved_at

  unfoldable pub resolve_for_strategy :
      ContractChainProvider X
      → X.DateTime
      → CompiledStrategy X
      → Result (InstrumentResolverError X) (InstrumentMapping X)
  unfolding resolve_market
  resolve_for_strategy chains resolved_at strategy =
      resolve_market chains resolved_at strategy.market.market
        strategy.market.selection.contract_mode
