-- ===== src/Scanner/Watch.antt =====
-- The watchlist and the context of the scanner (prime_jennie/services/scanner/app.py), with
-- `HotWatchlist.get_stock` of prime_jennie/domain/watchlist.py. Whether a code and a rank are accepted is
-- checked by the data model of an entry; the pattern of a code is a parameter.
use text.Mathlib.Text.{◌==◌}
use prime_jennie.Prelude.{
  ℕ, suc, ◌+◌, Bool, true, ◌&&◌, leb, any, length, map, Option, none, some, List, [], ◌∷◌, ◌++◌,
  String, if◌then◌else◌,
}
use prime_jennie.Prelude.Maybe.{◌>>=◌}
use prime_jennie.Prelude.Int.{pos}
use prime_jennie.Enums.{TradeTier, RiskTag}
use prime_jennie.Float.{Float, whole}
use prime_jennie.Scanner.Types.{TradingContext, WatchlistEntry, context_default}

module _ {F : Type 0} where
  unfoldable pub get_stock : String → List (WatchlistEntry F) → Option (WatchlistEntry F)
  get_stock code [] = none
  get_stock code (e ∷ es) =
      let rest = get_stock code es in if e.stock_code == code then some e else rest

  abbrev pub codes_of : List (WatchlistEntry F) → List String
  codes_of stocks = map (λ e. e.stock_code) stocks

module _ {F : Type 0} ⦃num : Float F⦄ where
  abbrev pub manual_entry : ℕ → String → String → WatchlistEntry F
  manual_entry rank code name = record {
    stock_code = code;
    stock_name = name;
    llm_score = whole 50;
    hybrid_score = whole 50;
    rank = pos rank;
    is_tradable = true;
    trade_tier = TradeTier.tier2;
    risk_tag = RiskTag.neutral;
    sector_group = none;
    scored_at = none;
  }

  -- The loop over the hash: the stocks so far, and how many were added. `none` is the error of an
  -- entry that is not valid.
  unfoldable pub merge_entries :
      (String → Bool)
      → List String
      → List (String × String)
      → ℕ
      → List (WatchlistEntry F)
      → Option (List (WatchlistEntry F))
  merge_entries is_code existing [] added stocks = some stocks
  merge_entries is_code existing ((code, name) ∷ manual) added stocks =
      let rank = length stocks + added + 1 in
      let skipped = merge_entries is_code existing manual added stocks in
      let merged =
        merge_entries is_code existing manual (suc added)
          (stocks ++ (manual_entry rank code name ∷ [])) in
      if any (λ c. c == code) existing
      then skipped
      else if is_code code && (leb 1 rank && leb rank 50)
      then merged
      else none

  -- `manual` is what Redis answers, `none` where it raises
  unfoldable pub merge_manual_watchlist :
      (String → Bool)
      → Option (List (String × String))
      → List (WatchlistEntry F)
      → Option (List (WatchlistEntry F))
  unfolding merge_entries
  merge_manual_watchlist is_code none stocks = some stocks
  merge_manual_watchlist is_code (some manual) stocks =
      merge_entries is_code (codes_of stocks) manual 0 stocks

  -- The watchlist after a load, given the one that is cached: a missing one leaves it as it is.
  unfoldable pub load_watchlist :
      (String → Bool)
      → Option (List (String × String))
      → Option (List (WatchlistEntry F))
      → Option (List (WatchlistEntry F))
      → Option (Option (List (WatchlistEntry F)) × Bool)
  unfolding merge_manual_watchlist
  load_watchlist is_code manual none before = some (before, Bool.false)
  load_watchlist is_code manual (some cached) before = do
    stocks ← merge_manual_watchlist is_code manual cached
    some (some stocks, true)

  unfoldable pub load_context : Option (TradingContext F) → TradingContext F
  load_context none = context_default
  load_context (some context) = context
