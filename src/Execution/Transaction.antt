-- ===== src/Execution/Transaction.antt =====
-- execution-service/execution.engine.ts: the transaction of a fill, which locks the margin, re-checks
-- the limits, charges the fee and writes the rows.
use apiv.Base.{ℕ, Option, none, some, ◌∷◌, Bool, true, false, not, if◌then◌else◌}
use apiv.Base.Int.{pos, ◌-ℤ◌, leb_ℤ, ltb_ℤ, neg}
use apiv.Store.{
  Entry, Store, Error, check_violation, client, broker_commission, commission, completed, text_ref,
  add_entry,
}
use apiv.Store.Tables.{find_wallet}
use apiv.Wallet.Repository.{usd, write_balance}
use apiv.Margin.Controller.{granted, refused, check_and_lock, release_margin_tx}
use apiv.Execution.Rows.{
  Refusal, lp_unavailable, execution_timeout, instrument_halted, client_exposure_limit_exceeded,
  concentration_limit_exceeded, fee_charge_failed, Fill, OutboxRow, order_filled_row,
  order_partial_filled_row, Desk,
}
use apiv.Execution.Lifecycle.{NewPosition, create_position, create_fill, record_fill_leg}
use apiv.Execution.Exposure.{check_can_open_atomic}
use apiv.Execution.Limits.{check_client, check_concentration}
use apiv.Execution.Setting.{
  Request, FillResult, Rounding, Setting, real_margin, effective_margin, effective_notional,
}

abbrev pub fee_entry : Request → FillResult → ℕ → Entry
fee_entry r f id = record {
  id = id;
  user = r.user;
  currency = usd;
  amount = neg f.fees;
  type = commission;
  reference = text_ref r.order;
  status = completed;
  running_balance = none;
  debit_account = some (client r.user);
  credit_account = some broker_commission;
}

-- The conditional `UPDATE` with its ledger row; `none` where it changes no row.
unfoldable pub charge_fee : Request → FillResult → Store → Option Store
charge_fee r f s =
    if not (ltb_ℤ (pos 0) f.fees) then some s else elim (find_wallet r.user s.wallets) [
      | none ↦ none
      | some w ↦
          if leb_ℤ f.fees w.balance
          then some (add_entry (fee_entry r f) (write_balance r.user (w.balance -ℤ f.fees) s))
          else none
    ]

-- The release of a resting order's estimate, inside the transaction.
unfoldable pub true_up : Request → Store → Store
true_up r s = elim r.pre_locked_margin [
  | none ↦ s
  | some amount ↦ (release_margin_tx r.user r.order amount s).1
]

-- The re-checks under lock, after the margin is locked.
unfoldable pub recheck : Setting → Request → FillResult → Store → Option Refusal
recheck e r f s =
    let n = effective_notional e.rounding r f in
    if e.cancelled_after_lock
    then some execution_timeout
    else (if not (check_can_open_atomic r.symbol r.side n s.positions)
        then some instrument_halted
        else (if not (check_client e.mids e.tier r.user n s.positions)
            then some client_exposure_limit_exceeded
            else (if not (check_concentration e.mids r.user r.symbol n s.positions)
                then some concentration_limit_exceeded
                else none)))

abbrev pub position_for : Rounding → Request → FillResult → NewPosition
position_for n r f = record {
  user = r.user;
  symbol = r.symbol;
  side = r.side;
  quantity = f.filled_quantity;
  entry_price = f.average_price;
  margin_used = effective_margin n r f;
  leverage = r.leverage;
}

abbrev pub fill_for : Request → FillResult → ℕ → Fill
fill_for r f position = record {
  order = r.order;
  position = position;
  quantity = f.filled_quantity;
  price = f.average_price;
  slippage = f.slippage;
  fees = f.fees;
}

abbrev pub outbox_row : Bool → (order position user : ℕ) → OutboxRow
outbox_row true = order_filled_row
outbox_row false = order_partial_filled_row

pub data Outcome : Type 0 where
  opened : (position : ℕ) (now_full : Bool) → Outcome
  unfunded : Error → Outcome
  thrown : Refusal → Outcome

-- The rows that the transaction writes once the fee is charged.
unfoldable pub open_rows : Setting → Request → FillResult → Desk → Outcome × Desk
unfolding create_position create_fill
open_rows e r f d =
    let (position, d1) = create_position (position_for e.rounding r f) d in
    let d2 = create_fill (fill_for r f position) d1 in
    let (leg, d3) =
      record_fill_leg r.order f.filled_quantity f.average_price f.slippage f.fees d2 in
    elim leg [
      | none ↦ (thrown lp_unavailable, d3)
      | some l ↦ (
        opened position l.now_full,
        record d3 { outbox = outbox_row l.now_full r.order position r.user ∷ d3.outbox },
      )
    ]

-- The callback of the transaction after the margin is locked.
unfoldable pub after_lock : Setting → Request → FillResult → Desk → Outcome × Desk
unfolding open_rows
after_lock e r f d = elim (recheck e r f d.store) [
  | some why ↦ (thrown why, d)
  | none ↦ elim (charge_fee r f d.store) [
    | none ↦ (thrown fee_charge_failed, d)
    | some s ↦ open_rows e r f (record d { store = s })
  ]
]

unfoldable pub fill_callback : Setting → Request → FillResult → Desk → Outcome × Desk
unfolding true_up after_lock
fill_callback e r f d =
    let (verdict, s) =
      check_and_lock e.quotes r.user r.order (real_margin e.rounding r f) (true_up r d.store) in
    elim verdict [
      | granted ↦ after_lock e r f (record d { store = s })
      | refused why ↦ (unfunded why, record d { store = s })
    ]

-- A violated check aborts the transaction in the database, whatever the callback returns.
abbrev pub aborts : Error → Bool
aborts check_violation = true
aborts _ = false

-- `$transaction`: what the callback throws rolls back; what it returns is committed.
abbrev pub settle_outcome : Desk → Outcome × Desk → Outcome × Desk
settle_outcome d (opened p full, d') = (opened p full, d')
settle_outcome d (unfunded why, d') = (unfunded why, if aborts why then d else d')
settle_outcome d (thrown why, d') = (thrown why, d)

unfoldable pub fill_tx : Setting → Request → FillResult → Desk → Outcome × Desk
unfolding fill_callback
fill_tx e r f d = settle_outcome d (fill_callback e r f d)
