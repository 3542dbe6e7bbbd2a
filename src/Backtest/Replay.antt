-- ===== src/Backtest/Replay.antt =====
-- The portfolio of prime_jennie/services/backtest/portfolio.py agrees with its trade logs, whatever is done.
use prime_jennie.Prelude.{
  ◌≡◌, refl, ◌∙◌, true, false, Option, none, some, List, [], ◌∷◌, String, if◌then◌else◌, arith,
}
use prime_jennie.Prelude.Int.{ℤ}
use prime_jennie.Float.{Float}
use prime_jennie.Config.Sell.{SellConfig}
use prime_jennie.Buyer.Types.{BuyerConfig}
use prime_jennie.Backtest.Types.{SimPosition, PriceCache, DailyOhlcv}
use prime_jennie.Backtest.Portfolio.{
  Portfolio, Purchase, Refusal, find_position, can_buy, reset_daily,
}
use prime_jennie.Backtest.Trades.{liquidate_all}
use prime_jennie.Backtest.Ledger.{cash_after, shares_after, held, find_position-none}
use prime_jennie.Backtest.Days.{
  take_snapshot, raised, floored, watched, watched_all, update_watermarks, initial,
}
use prime_jennie.Backtest.Steps.{Step, Settings, buy_unless, guarded_buy, perform, perform_all}
use prime_jennie.Backtest.Recorded.{
  IsReplayed, execute_buy-IsReplayed, execute_sell-IsReplayed, liquidate-IsReplayed,
}

module _ {F : Type 0} ⦃num : Float F⦄ where
  watched-held :
      (cfg : SellConfig F) (o : Option DailyOhlcv) (p : SimPosition F)
      → ((watched cfg o p).stock_code ≡ p.stock_code) × ((watched cfg o p).quantity ≡ p.quantity)
  unfolding watched raised floored
  watched-held cfg none p = (refl, refl)
  watched-held cfg (some o) p = (ground arith, ground arith)

  watched_all-held :
      (cfg : SellConfig F) (prices : PriceCache) (d : ℤ) (c : String) (ps : List (SimPosition F))
      → held c (watched_all cfg prices d ps) ≡ held c ps
  unfolding watched_all held
  watched_all-held cfg prices d c [] = refl
  watched_all-held cfg prices d c (p ∷ ps) =
      let same = watched-held cfg (prices.by_stock_date p.stock_code d) p in
      rw (same.0, same.1, watched_all-held cfg prices d c ps) refl

  not_held :
      (code : String) (o : Option (SimPosition F)) (x : Option Refusal)
      → (if elim o [ none ↦ false | some _ ↦ true ] then some Refusal.already_held else x) ≡ none
      → o ≡ none
  not_held code none x h = refl
  not_held code (some p) x h = absurd (ground (arith, h))

  can_buy-none :
      (risk : BuyerConfig F) (b : Purchase F) (pf : Portfolio F)
      → can_buy risk b.stock_code b.sector_group b.trade_date b.regime pf ≡ none
      → find_position b.stock_code pf.positions ≡ none
  unfolding can_buy
  can_buy-none risk b pf h = not_held b.stock_code (find_position b.stock_code pf.positions) _ h

module _ {F : Type 0} ⦃num : Float F⦄ (settings : Settings F) (capital : ℤ) where
  buy_unless-IsReplayed :
      (o : Option Refusal) (b : Purchase F) (pf : Portfolio F)
      → can_buy settings.risk b.stock_code b.sector_group b.trade_date b.regime pf ≡ o
      → IsReplayed capital pf
      → IsReplayed capital (buy_unless settings o b pf)
  unfolding buy_unless
  buy_unless-IsReplayed none b pf h r =
      execute_buy-IsReplayed settings.backtest capital b pf
        (find_position-none b.stock_code pf.positions (can_buy-none settings.risk b pf h)) r
  buy_unless-IsReplayed (some reason) b pf h r = r

  perform-IsReplayed :
      (s : Step F) (pf : Portfolio F)
      → IsReplayed capital pf
      → IsReplayed capital (perform settings s pf)
  unfolding perform guarded_buy reset_daily update_watermarks take_snapshot liquidate_all
  perform-IsReplayed Step.reset pf r = record { cash = r.cash; shares = r.shares }
  perform-IsReplayed (Step.buy b) pf r = buy_unless-IsReplayed _ b pf refl r
  perform-IsReplayed (Step.sell s) pf r =
      execute_sell-IsReplayed settings.backtest capital settings.stoploss_cooldown_days s pf r
  perform-IsReplayed (Step.watch prices d) pf r = record {
    cash = r.cash;
    shares = λ c. watched_all-held settings.exit prices d c pf.positions ∙ r.shares c;
  }
  perform-IsReplayed (Step.snapshot prices d regime) pf r = record {
    cash = r.cash;
    shares = r.shares;
  }
  perform-IsReplayed (Step.finish prices d regime) pf r =
      liquidate-IsReplayed settings.backtest capital settings.stoploss_cooldown_days prices d regime
        pf.positions pf r

  perform_all_from :
      (ss : List (Step F)) (pf : Portfolio F)
      → IsReplayed capital pf
      → IsReplayed capital (perform_all settings ss pf)
  unfolding perform_all
  perform_all_from [] pf r = r
  perform_all_from (s ∷ ss) pf r =
      perform_all_from ss (perform settings s pf) (perform-IsReplayed s pf r)

module _ {F : Type 0} ⦃num : Float F⦄ (settings : Settings F) where
  -- After any sequence of calls on a new portfolio, its cash is the initial capital less what the logs
  -- say was paid and with what they say was received, and for every stock the shares that it holds are
  -- those that the logs bought less those that they sold.
  pub perform_all-IsReplayed :
      (steps : List (Step F))
      → IsReplayed settings.backtest.initial_capital
          (perform_all settings steps (initial settings.backtest))
  unfolding initial
  perform_all-IsReplayed steps =
      perform_all_from settings settings.backtest.initial_capital steps (initial settings.backtest)
        (record {
          cash = unfold cash_after in refl;
          shares = λ code. unfold shares_after held in refl;
        })
