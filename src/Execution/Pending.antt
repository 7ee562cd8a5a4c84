-- ===== src/Execution/Pending.antt =====
-- trading-service/order.controller.ts: `executePendingOrder`, on the desk and the pending order book of
-- the worker. The synthetic quote is part of the setting of the execution; the quotes at the time of
-- the second lock, and the failures of the book's writes, are arguments.
use apiv.Base.{ℕ, Option, none, some, Bool, true, false, not, if◌then◌else◌}
use apiv.Base.Int.{ℤ, pos, ltb_ℤ}
use apiv.Store.{Quote}
use apiv.Margin.Controller.{granted, refused, check_and_lock, eq_ℤ}
use apiv.Orders.Book as Book
use apiv.Orders.Operations as Operations
use apiv.Execution.Rows.{market, Refusal, Desk}
use apiv.Execution.Setting.{Rounding, Setting, Request}
use apiv.Execution.Engine.{Execution, refused_with, filled_as, invalid_leverage, execute}

pub record Market : Type 0 where
  pub quoted : Bool
  pub stale : Bool
  pub enabled : Bool
  pub spread : ℤ

pub data Ending : Type 0 where
  no_quote no_live_data instrument_disabled no_valid_spread : Ending
  execution_rejected : Refusal → Ending
  execution_failed completed remainder_dropped remainder_unsaved : Ending
  requeued : Book.Order → Ending

abbrev pub request_of : Book.Order → Request
request_of p = record {
  order = p.order_id;
  user = p.user;
  symbol = p.symbol;
  side = p.side;
  kind = market;
  quantity = p.quantity;
  leverage = p.leverage;
  pre_locked_margin = some p.margin_required;
}

unfoldable pub remainder_margin : Rounding → Book.Order → ℤ → ℤ
remainder_margin n p remaining = n.share remaining p.quantity p.margin_required

-- What is given to the book for the remainder.
abbrev pub remainder_of : Rounding → Book.Order → (remaining price : ℤ) → Book.Order
remainder_of n p remaining price = record p {
  quantity = remaining;
  trigger_price = price;
  margin_required = remainder_margin n p remaining;
  armed_by_stop_limit = false;
  peak_price = none;
  expires_at = none;
  oco_group = none;
}

module _ (persistent : Bool) (fails : ℕ → Bool) (k now : ℕ) where
  unfoldable pub requeue :
      (ℕ → Option Quote)
      → Rounding
      → Book.Order
      → (remaining price : ℤ) → Desk
      → Book.World
      → Ending × Desk × Book.World
  requeue quotes n p remaining price d b =
      let (verdict, s) =
        check_and_lock quotes p.user p.order_id (remainder_margin n p remaining) d.store in
      elim verdict [
        | refused why ↦ (remainder_dropped, record d { store = s }, b)
        | granted ↦
            let (saved, b') =
              Operations.add persistent fails k now (remainder_of n p remaining price) b in
            elim saved [
              | none ↦ (remainder_unsaved, record d { store = s }, b')
              | some o ↦ (requeued o, record d { store = s }, b')
            ]
      ]

  -- `remainingQty` of the result, and what is done with it.
  unfoldable pub after_execution :
      (ℕ → Option Quote)
      → Setting
      → Book.Order
      → ℤ
      → Execution × Desk
      → Book.World
      → Ending × Desk × Book.World
  unfolding requeue
  after_execution quotes e p price (refused_with why, d) b = (execution_rejected why, d, b)
  after_execution quotes e p price (invalid_leverage, d) b = (execution_failed, d, b)
  after_execution quotes e p price (filled_as _ true, d) b = (completed, d, b)
  after_execution quotes e p price (filled_as _ false, d) b = elim e.fill [
    | none ↦ (completed, d, b)
    | some f ↦
        if ltb_ℤ (pos 0) f.remaining_quantity
        then requeue quotes e.rounding p f.remaining_quantity price d b
        else (completed, d, b)
  ]

  unfoldable pub execute_pending :
      Market
      → (ℕ → Option Quote)
      → Setting
      → Book.Order
      → ℤ
      → Desk
      → Book.World
      → Ending × Desk × Book.World
  unfolding after_execution
  execute_pending m quotes e p price d b =
      if not m.quoted
      then (no_quote, d, b)
      else (if m.stale
          then (no_live_data, d, b)
          else (if not m.enabled
              then (instrument_disabled, d, b)
              else (if eq_ℤ m.spread (pos 0)
                  then (no_valid_spread, d, b)
                  else after_execution quotes e p price (execute e (request_of p) d) b)))
