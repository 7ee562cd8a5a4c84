-- ===== src/Examples/Parking.antt =====
-- Pending orders of which a part is filled, on a small desk.
use apiv.Base.{◌≡◌, refl, none, some, [], true, false, arith}
use apiv.Base.Int.{pos, ◌+ℤ◌, ◌-ℤ◌, ◌*ℤ◌, ◌≤ℤ◌, ◌<ℤ◌}
use apiv.Store.{buy}
use apiv.Store.Tables.{find_wallet, add_locked, set_balance}
use apiv.Margin.Controller.{
  release_margin_tx, check_and_lock, can_lock, equity_of, open_pnl, release_margin,
}
use apiv.Execution.Rows.{find_order, update_order}
use apiv.Execution.Lifecycle.{transition, record_fill_leg}
use apiv.Execution.Exposure.{exposure_of, check_can_open_atomic}
use apiv.Execution.Limits.{sum_live, live_notional, check_client, check_concentration}
use apiv.Execution.Transaction.{recheck, charge_fee}
use apiv.Orders.Book as Book
use apiv.Orders.Operations.{fresh_order, add}
use apiv.Execution.Setting.{
  FillResult, Setting, price_gate, passed, real_margin, real_notional, effective_notional,
  release_margin_with_retry, release_attempts, effective_margin,
}
use apiv.Execution.Engine.{execute, filled_as, unused_margin, release_unused}
use apiv.Execution.Partial.{part_wallet, execute_fills_in_part}
use apiv.Execution.Pending.{
  Market, requeued, request_of, remainder_of, remainder_margin, execute_pending,
}
use apiv.Execution.Remainder.{Rests, execute_pending-Rests}
use apiv.Examples.Settling.{client_1, client_found}
use apiv.Examples.Filling.{quiet, fill_at_100, floors, desk}

abbrev half_fill : FillResult
half_fill = record fill_at_100 {
  filled_quantity = pos 50000000;
  remaining_quantity = pos 50000000;
  partial_fill = true;
}

abbrev thin : Setting
thin = record quiet { fill = some half_fill }

abbrev stop : Book.Order
stop = record {
  id = 4;
  order_id = 9;
  user = 1;
  symbol = 3;
  side = buy;
  type = Book.stop;
  quantity = pos 100000000;
  trigger_price = pos 10000000000;
  limit_price = none;
  trail_amount = none;
  leverage = 10;
  margin_required = pos 1000000000;
  armed_by_stop_limit = false;
  peak_price = none;
  status = Book.triggered;
  expires_at = some 50;
  created_at = 1;
  oco_group = some 6;
}

abbrev empty_world : Book.World
empty_world = record {
  worker = record { orders = []; terminal = [] };
  rows = [];
  reachable = true;
  releases = [];
  events = [];
  published = [];
}

abbrev open_market : Market
open_market = record { quoted = true; stale = false; enabled = true; spread = pos 1 }

abbrev rested : Book.Order
rested = fresh_order true 5 20 (remainder_of floors stop (pos 50000000) (pos 10000000000))

run_fills_in_part : (execute thin (request_of stop) desk).0 ≡ filled_as 5 false
unfolding execute check_and_lock find_wallet transition can_lock equity_of ◌+ℤ◌ ◌*ℤ◌ open_pnl
    real_margin real_notional ◌-ℤ◌ recheck check_can_open_atomic exposure_of effective_notional
    check_client sum_live live_notional check_concentration charge_fee set_balance record_fill_leg
    find_order update_order add_locked release_margin_tx effective_margin release_margin
run_fills_in_part = refl

used_nonneg : pos 0 ≤ℤ effective_margin thin.rounding (request_of stop) half_fill
unfolding effective_margin
used_nonneg = omega arith

unused_above : pos 1000000 <ℤ unused_margin thin (request_of stop) half_fill
unfolding unused_margin real_margin real_notional effective_margin ◌-ℤ◌ ◌*ℤ◌ ◌+ℤ◌
unused_above = omega arith

prices_pass : price_gate thin (request_of stop) ≡ passed half_fill
unfolding price_gate
prices_pass = refl

execute_fills_in_part_example :
    find_wallet 1 (execute thin (request_of stop) desk).1.store.wallets
    ≡ some (part_wallet thin (request_of stop) half_fill client_1)
execute_fills_in_part_example =
    execute_fills_in_part thin (request_of stop) half_fill 5 false client_1 desk client_found
      (omega arith) (omega arith) (omega arith) refl used_nonneg unused_above refl prices_pass
      run_fills_in_part

run_rests :
    (execute_pending true
      (λ n. false)
      5
      20
      open_market
      (λ n. none)
      thin
      stop
      (pos 10000000000)
      desk
      empty_world).0
    ≡ requeued rested
unfolding execute_pending remainder_margin add release_unused release_margin_with_retry
    release_attempts unused_margin execute check_and_lock find_wallet transition can_lock equity_of
    ◌+ℤ◌ ◌*ℤ◌ open_pnl real_margin real_notional ◌-ℤ◌ recheck check_can_open_atomic exposure_of
    effective_notional check_client sum_live live_notional check_concentration charge_fee
    set_balance record_fill_leg find_order update_order add_locked release_margin_tx
    effective_margin release_margin
run_rests = refl

execute_pending-Rests_example :
    let (_, d', b') =
      execute_pending true
        (λ n. false)
        5
        20
        open_market
        (λ n. none)
        thin
        stop
        (pos 10000000000)
        desk
        empty_world in
    (f : FillResult) × (thin.fill ≡ some f)
    × (pos 0 <ℤ f.remaining_quantity)
    × Rests true
        (λ n. false)
        5
        20
        (λ n. none)
        floors
        stop
        f.remaining_quantity
        (pos 10000000000)
        rested
        (execute thin (request_of stop) desk).1
        d'
        b'
execute_pending-Rests_example =
    execute_pending-Rests true (λ n. false) 5 20 (λ n. none) open_market thin stop (pos 10000000000)
      rested desk empty_world run_rests
