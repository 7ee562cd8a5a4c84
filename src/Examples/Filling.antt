-- ===== src/Examples/Filling.antt =====
-- Orders created, executed, refused and cancelled on a small desk.
use apiv.Base.{
  ℕ, ◌+◌, ◌*◌, ◌/◌, ◌≤◌, ◌≡◌, refl, none, some, [], ◌∷◌, true, false, arith, length, or_else,
}
use apiv.Base.Int.{◌<ℤ◌, ℤ, pos, negsuc, ◌+ℤ◌, ◌-ℤ◌, ◌*ℤ◌, ◌≤ℤ◌}
use apiv.Store.{buy}
use apiv.Store.Tables.{find_wallet, add_locked, set_balance}
use apiv.Wallet.Reconciliation.{IsReconciled}
use apiv.Ledger.Balance.{scale}
use apiv.Settlement.Commission.{standard}
use apiv.Margin.Controller.{release_margin_tx, check_and_lock, can_lock, equity_of, open_pnl}
use apiv.Execution.Rows.{
  Order, received, market, find_named, cancelled, Desk, find_order, update_order, execution_timeout,
}
use apiv.Execution.Lifecycle.{
  NewOrder, new_order, create, created, duplicate_order, position_of, clashing, transition,
  record_fill_leg,
}
use apiv.Execution.Found.{FillLeg, record_legs, sum_added, fill_status, record_legs_total}
use apiv.Execution.Named.{operate_all, leg, create_once}
use apiv.Execution.Exposure.{
  limits_for, IsWithin, exposure_of, check_can_open, check_can_open_atomic, no_exposure,
  notional_of, load,
}
use apiv.Execution.Registry.{load-Mirrors}
use apiv.Execution.Drift.{settle_and_release, settle_and_release-drifts}
use apiv.Execution.Limits.{
  opens, sum_live, live_notional, check_client, check_concentration, max_open_positions,
  max_notional,
}
use apiv.Execution.Setting.{
  Request, FillResult, Rounding, Setting, entry_gate, price_gate, passed, real_margin,
  real_notional, effective_notional,
}
use apiv.Execution.Transaction.{recheck, charge_fee, position_for}
use apiv.Execution.Engine.{execute, filled_as, refused_with}
use apiv.Execution.Books.{execute-IsReconciled}
use apiv.Execution.Refused.{IsRejected, execute_refused}
use apiv.Execution.Resting.{Estimate, execute_resting_refused}
use apiv.Execution.Opened.{wallet_after}
use apiv.Execution.Filled.{Writes, execute_fills}
use apiv.Execution.Capped.{execute_within_limits}
use apiv.Execution.Mirrored.{execute_filled-agree}
use apiv.Execution.Cancel.{cancel_check, cancel_write, may_cancel}
use apiv.Execution.Overtaken.{cancel_write-execute}
use apiv.Examples.Settling.{
  calm, at_loss, loss_settles, client_1, position_7, trading_store, trading_store-IsReconciled,
  client_found,
}

abbrev whole : ℤ → ℕ
whole (pos n) = n
whole (negsuc n) = 0

-- Quotients rounded down.
abbrev pub floors : Rounding
floors = record {
  over = λ n l. pos (whole n / (l * 100000000));
  share = λ f q a. pos (whole f * whole a / whole q);
}

abbrev pub fill_at_100 : FillResult
fill_at_100 = record {
  average_price = pos 10000000000;
  filled_quantity = pos 100000000;
  remaining_quantity = pos 0;
  slippage = pos 0;
  fees = pos 5000000;
  partial_fill = false;
}

abbrev pub quiet : Setting
quiet = record {
  rounding = floors;
  kill_switch = false;
  eligible = true;
  stale = false;
  requoted = false;
  fill = some fill_at_100;
  cancelled_before_lock = false;
  cancelled_after_lock = false;
  quotes = λ k. none;
  mids = λ k. none;
  tier = standard;
  release_fails = λ k. false;
  stamp = 0;
}

abbrev timed_out : Setting
timed_out = record quiet { cancelled_after_lock = true }

abbrev at_market : NewOrder
at_market = record {
  user = 1;
  symbol = 3;
  side = buy;
  kind = market;
  quantity = pos 100000000;
  leverage = 10;
  margin_required = pos 1000000000;
  client_order_id = some 77;
}

abbrev order_9 : Order
order_9 = new_order at_market 9

abbrev pub desk : Desk
desk = record {
  store = trading_store;
  orders = order_9 ∷ [];
  fills = [];
  outbox = [];
  messages = [];
  registry = load trading_store.positions (λ k. none);
}

abbrev pub request_9 : Request
request_9 = record {
  order = 9;
  user = 1;
  symbol = 3;
  side = buy;
  kind = market;
  quantity = pos 100000000;
  leverage = 10;
  pre_locked_margin = none;
}

abbrev resting_9 : Request
resting_9 = record request_9 { pre_locked_margin = some (pos 1000000000) }

order_found : find_order 9 desk.orders ≡ some order_9
unfolding find_order
order_found = refl

run_fills : (execute quiet request_9 desk).0 ≡ filled_as 4 true
unfolding execute check_and_lock find_wallet transition can_lock equity_of ◌+ℤ◌ ◌*ℤ◌ open_pnl
    real_margin real_notional ◌-ℤ◌ recheck check_can_open_atomic exposure_of effective_notional
    check_client sum_live live_notional check_concentration charge_fee set_balance record_fill_leg
    find_order update_order add_locked
run_fills = refl

run_times_out : (execute timed_out request_9 desk).0 ≡ refused_with execution_timeout
unfolding execute check_and_lock find_wallet transition can_lock equity_of ◌+ℤ◌ ◌*ℤ◌ open_pnl
    real_margin real_notional ◌-ℤ◌ recheck
run_times_out = refl

resting_times_out : (execute timed_out resting_9 desk).0 ≡ refused_with execution_timeout
unfolding execute check_and_lock find_wallet transition can_lock equity_of ◌+ℤ◌ ◌*ℤ◌ open_pnl
    real_margin real_notional ◌-ℤ◌ recheck release_margin_tx add_locked
resting_times_out = refl

abbrev half : FillLeg
half = record { added = pos 50000000; price = pos 10000000000; slippage = pos 0; fees = pos 0 }

record_legs_total_example :
    (o' : Order) × (find_order 9 (record_legs 9 (half ∷ half ∷ []) desk).orders ≡ some o')
    × (o'.filled_quantity ≡ order_9.filled_quantity +ℤ sum_added (half ∷ half ∷ []))
    × (o'.quantity ≡ order_9.quantity)
    × (o'.status ≡ fill_status o')
    × (length o'.lifecycle ≡ length order_9.lifecycle + length (half ∷ half ∷ []))
record_legs_total_example = record_legs_total 9 half (half ∷ []) order_9 desk order_found

abbrev bare : Desk
bare = record desk { orders = [] }

bare_creates : (create at_market bare).0 ≡ created (new_order at_market 2)
unfolding create clashing find_named
bare_creates = refl

create_once_example :
    let d' = operate_all (leg 2 half ∷ []) (create at_market bare).1 in
    (o' : Order) × (o'.id ≡ (new_order at_market 2).id)
    × (create (record at_market { symbol = 5 }) d' ≡ (duplicate_order o', d'))
create_once_example =
    create_once at_market (record at_market { symbol = 5 }) 77 (new_order at_market 2)
      (leg 2 half ∷ []) bare refl refl refl bare_creates

execute-IsReconciled_example : IsReconciled (execute quiet request_9 desk).1.store
execute-IsReconciled_example = execute-IsReconciled quiet request_9 desk trading_store-IsReconciled

execute_refused_example :
    let d' = (execute timed_out request_9 desk).1 in
    (d'.store ≡ desk.store) × IsRejected request_9 execution_timeout order_9 desk d'
execute_refused_example =
    execute_refused timed_out request_9 execution_timeout order_9 desk order_found refl
      run_times_out

gates_open : entry_gate timed_out ≡ none
unfolding entry_gate
gates_open = refl

prices_pass : price_gate timed_out resting_9 ≡ passed fill_at_100
unfolding price_gate
prices_pass = refl

prices_pass_quiet : price_gate quiet request_9 ≡ passed fill_at_100
unfolding price_gate
prices_pass_quiet = refl

execute_resting_refused_example :
    let d' = (execute timed_out resting_9 desk).1 in
    IsRejected resting_9 execution_timeout order_9 desk d'
    × Estimate timed_out resting_9 execution_timeout (pos 1000000000) client_1 desk d'
execute_resting_refused_example =
    execute_resting_refused timed_out resting_9 fill_at_100 execution_timeout (pos 1000000000)
      client_1 order_9 desk order_found client_found refl (omega arith) (omega arith) gates_open
      prices_pass resting_times_out

execute_fills_example :
    Writes quiet request_9 fill_at_100 4 true client_1 order_9 desk (execute quiet request_9 desk).1
    × ((wallet_after quiet request_9 fill_at_100 client_1).locked *ℤ scale
        ≤ℤ equity_of (λ k. none) client_1 trading_store)
execute_fills_example =
    execute_fills quiet request_9 fill_at_100 4 true client_1 order_9 desk order_found client_found
      (omega arith) (omega arith) (omega arith) refl prices_pass_quiet run_fills

execute_within_limits_example :
    let ps = (execute quiet request_9 desk).1.store.positions in
    IsWithin (limits_for 3) (exposure_of 3 ps)
    × (length (opens 1 ps) ≤ max_open_positions standard)
    × (sum_live (λ k. none) (opens 1 trading_store.positions) +ℤ pos 100000000 *ℤ pos 10000000000
        ≤ℤ max_notional standard)
execute_within_limits_example =
    execute_within_limits quiet request_9 fill_at_100 4 true desk refl refl prices_pass_quiet
      run_fills

execute_filled-agree_example :
    let d' = (execute quiet request_9 desk).1 in
    check_can_open 3 buy (pos 5) d'.registry
    ≡ check_can_open_atomic 3 buy (pos 5) d'.store.positions
execute_filled-agree_example =
    execute_filled-agree quiet request_9 fill_at_100 4 true desk
      (load-Mirrors trading_store.positions) refl refl prices_pass_quiet run_fills 3 buy (pos 5)

loss_below : pos at_loss.quantity *ℤ pos at_loss.exit_price <ℤ notional_of position_7
unfolding ◌*ℤ◌
loss_below = omega arith

settle_and_release-drifts_example :
    let (_, t, r') =
      settle_and_release calm 3 at_loss trading_store (load (position_7 ∷ []) (λ k. none)) in
    (or_else (r' 3) no_exposure).long
    ≡ (exposure_of 3 t.positions).long
      +ℤ (notional_of position_7 -ℤ pos at_loss.quantity *ℤ pos at_loss.exit_price)
unfolding exposure_of
settle_and_release-drifts_example =
    settle_and_release-drifts calm at_loss (load (position_7 ∷ []) (λ k. none)) position_7 []
      trading_store refl (load-Mirrors (position_7 ∷ [])) refl refl refl refl refl (omega arith)
      loss_below loss_settles

checked : cancel_check 9 1 desk ≡ may_cancel received
unfolding cancel_check find_order
checked = refl

cancel_write-execute_example :
    let d' = cancel_write 9 1 received (execute quiet request_9 desk).1 in
    (o' : Order) × (find_order 9 d'.orders ≡ some o')
    × (o'.status ≡ cancelled)
    × (o'.filled_quantity ≡ order_9.filled_quantity +ℤ pos 100000000)
    × (d'.store.positions
        ≡ position_of (position_for floors request_9 fill_at_100) 4 ∷ trading_store.positions)
    × (find_wallet 1 d'.store.wallets ≡ some (wallet_after quiet request_9 fill_at_100 client_1))
cancel_write-execute_example =
    cancel_write-execute quiet request_9 fill_at_100 4 1 true received client_1 order_9 desk checked
      order_found client_found (omega arith) (omega arith) (omega arith) refl prices_pass_quiet
      run_fills
