-- ===== src/Backtest/Recorded.antt =====
-- A trade of prime_jennie/services/backtest/portfolio.py changes the cash and the shares as its log says.
use text.Mathlib.Text.{◌==◌}
use prime_jennie.Prelude.{
  ◌≡◌, refl, sym, ap, ◌∙◌, Bool, true, false, ◌||◌, ◌++◌, Option, none, some, List, [], ◌∷◌, String,
  if◌then◌else◌, Bool-cases, inl, inr, arith,
}
use prime_jennie.Prelude.Int.{ℤ, pos, ◌+ℤ◌, ◌-ℤ◌, min_ℤ, leb_ℤ, ltb_ℤ}
use prime_jennie.Enums.{MarketRegime, SellReason}
use prime_jennie.Float.{Float}
use prime_jennie.Backtest.Types.{BacktestConfig, SimPosition, TradeLog, PriceCache, with_watermark}
use prime_jennie.Backtest.Portfolio.{Portfolio, Purchase, Sale, find_position, put_position}
use prime_jennie.Backtest.Trades.{
  entry_price_of, cost_of, max_affordable, position_of, buy_log, settle_buy, execute_buy, reduced,
  after_sale, sell_log, settle_sell, sell_from, execute_sell, liquidation, liquidate,
}
use prime_jennie.Backtest.Ledger.{
  booked, moved, cash_after, shares_after, held, cash_after-append, shares_after-append,
  find_position-held, held-alike, held-put_position, held-drop_position,
}

-- The cash is what the logs leave of the capital, and the shares of each stock are those that the logs
-- leave.
pub record IsReplayed {F : Type 0} (capital : ℤ) (pf : Portfolio F) : Type 0 where
  pub cash : pf.cash ≡ cash_after capital pf.trade_logs
  pub shares : (code : String) → held code pf.positions ≡ shares_after code (pos 0) pf.trade_logs

zero_add : (n : ℤ) → pos 0 +ℤ n ≡ n
unfolding ◌+ℤ◌
zero_add n = ground arith

-- the rest of a sale that leaves no share
nothing_left : (a n : ℤ) → leb_ℤ n a ≡ true → leb_ℤ (a -ℤ n) (pos 0) ≡ true → a -ℤ n ≡ pos 0
unfolding ◌-ℤ◌
nothing_left a n h k = ground arith

min_le : (a b : ℤ) → leb_ℤ (min_ℤ a b) b ≡ true
min_le a b = ground arith

pick : (b : Bool) (x y z : ℤ) → (b ≡ true → x ≡ y) → (if b then x else z) ≡ (if b then y else z)
pick true x y z h = h refl
pick false x y z h = refl

module _ {F : Type 0} (capital : ℤ) where
  -- a state that differs by one trade, which it has logged
  recorded-IsReplayed :
      (pf pf' : Portfolio F) (l : TradeLog F)
      → pf'.trade_logs ≡ pf.trade_logs ++ (l ∷ [])
      → pf'.cash ≡ booked l.trade_type l.total_amount pf.cash
      → ((c : String)
          → held c pf'.positions ≡ (
              if l.stock_code == c
              then moved l.trade_type l.quantity (held c pf.positions)
              else held c pf.positions))
      → IsReplayed capital pf
      → IsReplayed capital pf'
  recorded-IsReplayed pf pf' l logs cash shares r = record {
    cash =
        cash
        ∙ ap (booked l.trade_type l.total_amount) r.cash
        ∙ sym (cash_after-append capital pf.trade_logs l)
        ∙ ap (cash_after capital) (sym logs);
    shares = λ c.
        shares c
        ∙ ap (λ x. if l.stock_code == c then moved l.trade_type l.quantity x else x) (r.shares c)
        ∙ sym (shares_after-append c (pos 0) pf.trade_logs l)
        ∙ ap (shares_after c (pos 0)) (sym logs);
  }

module _ {F : Type 0} ⦃num : Float F⦄ (config : BacktestConfig F) (capital : ℤ) where
  position-code :
      (b : Purchase F) (price n : ℤ)
      → ((position_of config b price n).stock_code ≡ b.stock_code)
        × ((position_of config b price n).quantity ≡ n)
  unfolding with_watermark
  position-code b price n = (ground arith, ground arith)

  bought-held :
      (b : Purchase F) (price n : ℤ) (ps : List (SimPosition F)) (c : String)
      → held b.stock_code ps ≡ pos 0
      → held c (put_position b.stock_code (position_of config b price n) ps)
        ≡ (if b.stock_code == c then held c ps +ℤ n else held c ps)
  bought-held b price n ps c h = elim (Bool-cases (b.stock_code == c)) [
    | inl e ↦
        held-put_position c b.stock_code (position_of config b price n) ps
          (position-code b price n).0
        ∙ rw (e, (position-code b price n).1, held-alike b.stock_code c ps e, h) (sym (zero_add n))
    | inr e ↦
        held-put_position c b.stock_code (position_of config b price n) ps
          (position-code b price n).0
        ∙ rw e refl
  ]

  settle_buy-IsReplayed :
      (b : Purchase F) (price n : ℤ) (pf : Portfolio F)
      → held b.stock_code pf.positions ≡ pos 0
      → IsReplayed capital pf
      → IsReplayed capital (settle_buy config b price n pf)
  unfolding settle_buy
  settle_buy-IsReplayed b price n pf h r =
      recorded-IsReplayed capital pf (settle_buy config b price n pf) (buy_log config b price n)
        refl refl (λ c. bought-held b price n pf.positions c h) r

  reduced-code :
      (p : SimPosition F) (n : ℤ) (reason : SellReason)
      → ((reduced config p n reason).stock_code ≡ p.stock_code)
        × ((reduced config p n reason).quantity ≡ n)
  unfolding reduced
  reduced-code p n reason = (ground arith, ground arith)

  after_sale-held :
      (p : SimPosition F) (s : Sale) (n : ℤ) (ps : List (SimPosition F)) (c : String)
      → find_position s.stock_code ps ≡ some p
      → leb_ℤ n p.quantity ≡ true
      → held c (after_sale config p s n ps)
        ≡ (if s.stock_code == c then held c ps -ℤ n else held c ps)
  unfolding after_sale
  after_sale-held p s n ps c h k =
      let left = p.quantity -ℤ n in
      let found = find_position-held s.stock_code ps p h in
      let taken : (s.stock_code == c) ≡ true → held c ps -ℤ n ≡ left =
        λ e. ap (λ x. x -ℤ n) (held-alike s.stock_code c ps e ∙ found.0) in
      let changed = reduced-code p left s.sell_reason in
      elim (Bool-cases (leb_ℤ left (pos 0))) [
        | inl e ↦ rw e (
            held-drop_position c s.stock_code ps
            ∙ pick (s.stock_code == c) _ _ _ (λ h'. sym (taken h' ∙ nothing_left p.quantity n k e)))
        | inr e ↦ rw e (
            held-put_position c s.stock_code (reduced config p left s.sell_reason) ps
              (changed.0 ∙ found.1)
            ∙ pick (s.stock_code == c) _ _ _ (λ h'. changed.1 ∙ sym (taken h')))
      ]

  settle_sell-IsReplayed :
      (days : ℤ) (s : Sale) (p : SimPosition F) (n : ℤ) (pf : Portfolio F)
      → find_position s.stock_code pf.positions ≡ some p
      → leb_ℤ n p.quantity ≡ true
      → IsReplayed capital pf
      → IsReplayed capital (settle_sell config days s p n pf)
  unfolding settle_sell
  settle_sell-IsReplayed days s p n pf h k r =
      recorded-IsReplayed capital pf (settle_sell config days s p n pf) (sell_log config p s n) refl
        refl (λ c. after_sale-held p s n pf.positions c h k) r

  if-IsReplayed :
      (b : Bool) (x y : Portfolio F)
      → IsReplayed capital x
      → IsReplayed capital y
      → IsReplayed capital (if b then x else y)
  if-IsReplayed true x y h k = h
  if-IsReplayed false x y h k = k

  pub execute_buy-IsReplayed :
      (b : Purchase F) (pf : Portfolio F)
      → held b.stock_code pf.positions ≡ pos 0
      → IsReplayed capital pf
      → IsReplayed capital (execute_buy config b pf)
  unfolding execute_buy
  execute_buy-IsReplayed b pf h r =
      let price = entry_price_of config b.price in
      let affordable = max_affordable config pf.cash price in
      if-IsReplayed (leb_ℤ b.quantity (pos 0) || leb_ℤ b.price (pos 0)) _ _ r (
        if-IsReplayed (ltb_ℤ pf.cash (cost_of config price b.quantity)) _ _
          (if-IsReplayed (leb_ℤ affordable (pos 0)) _ _ r
            (settle_buy-IsReplayed b price affordable pf h r))
          (settle_buy-IsReplayed b price b.quantity pf h r))

  sell_from-IsReplayed :
      (days : ℤ) (s : Sale) (o : Option (SimPosition F)) (pf : Portfolio F)
      → find_position s.stock_code pf.positions ≡ o
      → IsReplayed capital pf
      → IsReplayed capital (sell_from config days s o pf)
  unfolding sell_from
  sell_from-IsReplayed days s none pf h r = r
  sell_from-IsReplayed days s (some p) pf h r =
      if-IsReplayed (leb_ℤ (min_ℤ s.sell_quantity p.quantity) (pos 0)) _ _ r (
        settle_sell-IsReplayed days s p (min_ℤ s.sell_quantity p.quantity) pf h
          (min_le s.sell_quantity p.quantity) r)

  pub execute_sell-IsReplayed :
      (days : ℤ) (s : Sale) (pf : Portfolio F)
      → IsReplayed capital pf
      → IsReplayed capital (execute_sell config days s pf)
  unfolding execute_sell
  execute_sell-IsReplayed days s pf r = sell_from-IsReplayed days s _ pf refl r

  pub liquidate-IsReplayed :
      (days : ℤ) (prices : PriceCache) (d : ℤ) (regime : MarketRegime) (ps : List (SimPosition F))
      (pf : Portfolio F)
      → IsReplayed capital pf
      → IsReplayed capital (liquidate config days prices d regime ps pf)
  unfolding liquidate
  liquidate-IsReplayed days prices d regime [] pf r = r
  liquidate-IsReplayed days prices d regime (p ∷ ps) pf r =
      elim (prices.by_stock_date p.stock_code d)
        as (λ o. IsReplayed capital (
          liquidate config days prices d regime ps (elim o [
            | none ↦ pf
            | some o ↦ execute_sell config days (liquidation config p.stock_code d o p regime) pf
          ]))) [
            | none ↦ liquidate-IsReplayed days prices d regime ps pf r
            | some o ↦
                liquidate-IsReplayed days prices d regime ps
                  (execute_sell config days (liquidation config p.stock_code d o p regime) pf)
                  (execute_sell-IsReplayed days (liquidation config p.stock_code d o p regime) pf r)
          ]
