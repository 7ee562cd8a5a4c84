-- ===== src/Examples/Settling.antt =====
-- Settlements, margin locks and sweeps on small stores.
use apiv.Base.{
  ℕ, ◌≡◌, ◌≢◌, refl, none, some, [], ◌∷◌, Bool, true, false, ◌==◌, ◌⊎◌, if◌then◌else◌, arith,
  Bool-cases, inl, inr,
}
use apiv.Base.Int.{ℤ, pos, ◌+ℤ◌, ◌-ℤ◌, ◌*ℤ◌, ◌≤ℤ◌, ◌<ℤ◌, neg}
use apiv.Store.{
  buy, deposit_credit, margin_lock, completed, psp_ref, text_ref, open_position, Wallet, Entry,
  Position, Store, ok, err, check_violation,
}
use apiv.Store.Tables.{find_wallet, set_balance, add_locked}
use apiv.Wallet.Repository.{usd, with_serializable_retry}
use apiv.Wallet.Reconciliation.{
  IsReconciled, balance_of, locked_of, ledger_sum, margin_sum, is_counted, is_margin_type,
  is_balance_type,
}
use apiv.Risk.Breaker.{fx_major}
use apiv.Ledger.Balance.{scale}
use apiv.Ledger.Close.{settle_close, apply_nbp, net_credit, realized}
use apiv.Settlement.Commission.{standard, compute, cents, effective_bps}
use apiv.Settlement.Rounding.{to_fixed}
use apiv.Settlement.Engine.{
  SettleInput, manual, stop_out, amounts, fee_of, find_position, settle, position_status, close_of,
  settle_tx, release_of, write_settlement, write_off, add_legs,
}
use apiv.Settlement.Gap.{floor, raw_of}
use apiv.Settlement.Outcomes.{released_for}
use apiv.Settlement.Reconciled.{settle_loses_commission, settle_once, settle_outcomes}

abbrev pub client_1 : Wallet
client_1 = record { user = 1; currency = usd; balance = pos 100000000000; locked = pos 1000000000 }

abbrev row : ℕ → ℤ → Entry → Entry
row k a e = record e { id = k; amount = a }

abbrev deposit_row : Entry
deposit_row = record {
  id = 0;
  user = 1;
  currency = usd;
  amount = pos 100000000000;
  type = deposit_credit;
  reference = psp_ref 5;
  status = completed;
  running_balance = none;
  debit_account = none;
  credit_account = none;
}

abbrev lock_row : Entry
lock_row = record {
  id = 1;
  user = 1;
  currency = usd;
  amount = neg (pos 1000000000);
  type = margin_lock;
  reference = text_ref 7;
  status = completed;
  running_balance = none;
  debit_account = none;
  credit_account = none;
}

abbrev pub position_7 : Position
position_7 = record {
  id = 7;
  user = 1;
  symbol = 3;
  side = buy;
  quantity = pos 100000000;
  entry_price = pos 10000000000;
  margin_used = pos 1000000000;
  leverage = 10;
  status = open_position;
  is_closed = false;
}

abbrev pub trading_store : Store
trading_store = record {
  wallets = client_1 ∷ [];
  ledger = lock_row ∷ deposit_row ∷ [];
  positions = position_7 ∷ [];
  deposits = [];
  audits = [];
  events = [];
  next_id = 2;
}

pub trading_store-IsReconciled : IsReconciled trading_store
unfolding ledger_sum balance_of find_wallet margin_sum locked_of is_counted is_margin_type
    is_balance_type ◌+ℤ◌ ◌-ℤ◌
trading_store-IsReconciled = record {
  balances = λ u. elim (Bool-cases (1 == u)) [ inl e ↦ rw e refl | inr e ↦ rw e refl ];
  margins = λ u. elim (Bool-cases (1 == u)) [ inl e ↦ rw e refl | inr e ↦ rw e refl ];
  fresh = (omega arith, (omega arith, tt));
}

abbrev pub calm : ℕ → Bool
calm n = false

-- Sold at 101 after 100, and at 80.
abbrev pub at_profit : SettleInput
at_profit = record {
  position_id = 7;
  user = 1;
  class = fx_major;
  side = buy;
  quantity = 100000000;
  entry_price = 10000000000;
  exit_price = 10100000000;
  margin_used = pos 1000000000;
  reason = manual;
  tier = standard;
}

abbrev pub at_loss : SettleInput
at_loss = record at_profit { exit_price = 8000000000; reason = stop_out }

profit_settles : (settle calm at_profit trading_store).0 ≡ ok tt
unfolding settle with_serializable_retry settle_tx find_position find_wallet ◌+ℤ◌ ◌-ℤ◌ ◌*ℤ◌ amounts
    to_fixed settle_close close_of compute cents effective_bps release_of apply_nbp net_credit
    realized
profit_settles = refl

pub loss_settles : (settle calm at_loss trading_store).0 ≡ ok tt
unfolding settle with_serializable_retry settle_tx find_position find_wallet ◌+ℤ◌ ◌-ℤ◌ ◌*ℤ◌ amounts
    to_fixed settle_close close_of compute cents effective_bps release_of apply_nbp net_credit
    realized
loss_settles = refl

pub whole_profit : raw_of at_profit ≡ pos 100000000 *ℤ scale
unfolding settle_close close_of realized ◌-ℤ◌ ◌*ℤ◌
whole_profit = refl

pub covered_profit : floor at_profit ≤ℤ raw_of at_profit -ℤ fee_of at_profit *ℤ scale
unfolding settle_close close_of realized ◌-ℤ◌ ◌*ℤ◌ compute cents effective_bps
covered_profit = omega arith

low_loss : raw_of at_loss ≤ℤ floor at_loss
unfolding settle_close close_of realized ◌-ℤ◌ ◌*ℤ◌
low_loss = omega arith

settle_loses_commission_example :
    let t = (settle calm at_loss trading_store).1 in
    balance_of 1 t.wallets ≡ ledger_sum 1 t.ledger +ℤ fee_of at_loss
settle_loses_commission_example =
    settle_loses_commission calm at_loss trading_store trading_store-IsReconciled low_loss
      loss_settles

settle_once_example :
    let t = (settle calm at_profit trading_store).1 in
    ((settle calm at_loss t).0 ≢ ok tt) × ((settle calm at_loss t).1 ≡ t)
settle_once_example = settle_once calm calm at_profit at_loss trading_store profit_settles refl

position_found : find_position 7 trading_store.positions ≡ some position_7
unfolding find_position
position_found = refl

pub client_found : find_wallet 1 trading_store.wallets ≡ some client_1
unfolding find_wallet
client_found = refl

settle_outcomes_example :
    let (r, t) = settle calm at_loss trading_store in
    ((pos 0 ≤ℤ client_1.balance +ℤ (amounts at_loss).net)
      × (r ≡ ok tt)
      × (balance_of 1 t.wallets ≡ (
          if 1 == at_loss.user
          then client_1.balance +ℤ (amounts at_loss).net
          else balance_of 1 trading_store.wallets))
      × (locked_of 1 t.wallets ≡ (
          if 1 == at_loss.user
          then client_1.locked +ℤ neg (released_for at_loss client_1)
          else locked_of 1 trading_store.wallets))
      × (find_position at_loss.position_id t.positions
          ≡ some (record position_7 { status = position_status at_loss.reason; is_closed = true })))
    ⊎ ((client_1.balance +ℤ (amounts at_loss).net <ℤ pos 0)
        × (r ≡ err check_violation)
        × (t ≡ trading_store))
settle_outcomes_example =
    settle_outcomes calm at_loss position_7 client_1 1 trading_store refl position_found refl
      client_found (omega arith)

abbrev pub after_profit : Wallet
after_profit = record client_1 {
  balance = client_1.balance +ℤ (amounts at_profit).net;
  locked = pos 0;
}

pub settled_found :
    find_wallet 1 (settle calm at_profit trading_store).1.wallets ≡ some after_profit
unfolding settle with_serializable_retry settle_tx find_position find_wallet ◌+ℤ◌ ◌-ℤ◌ ◌*ℤ◌ amounts
    to_fixed settle_close close_of compute cents effective_bps release_of apply_nbp net_credit
    realized write_settlement write_off add_legs set_balance add_locked
settled_found = refl
