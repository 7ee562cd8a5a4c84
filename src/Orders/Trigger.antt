-- ===== src/Orders/Trigger.antt =====
-- trading-service/order.trigger.watcher.ts, and `updateTrailingStops` of
-- trading-service/pending.order.book.ts. What becomes of a triggered order, its fill or the resting
-- limit order that a stop-limit arms, is the list of commitments that `evaluate` returns.
use apiv.Base.{
  ℕ, ◌+◌, Option, none, some, List, [], ◌∷◌, ◌++◌, map, Bool, true, false, ◌&&◌, ◌==◌,
  if◌then◌else◌, or_else,
}
use apiv.Base.Int.{ℤ, ◌+ℤ◌, ◌-ℤ◌, ltb_ℤ, leb_ℤ, pos}
use apiv.Store.{Side, buy, sell, Quote}
use apiv.Orders.Book.{
  OrderType, limit, stop_limit, trailing_stop, Peak, neg_inf, pos_inf, at, Order, Row, full, World,
  is_pending, upsert, get_by_symbol,
}
use apiv.Orders.Operations.{mark_triggered, cancel_oco_siblings_on_trigger}

-- `Math.max(peak ?? -Infinity, ask)` and `Math.min(peak ?? Infinity, bid)`, where they differ from
-- the peak.
unfoldable pub raised : Option Peak → ℤ → Option ℤ
raised none ask = some ask
raised (some neg_inf) ask = some ask
raised (some pos_inf) ask = none
raised (some (at p)) ask = if ltb_ℤ p ask then some ask else none

unfoldable pub lowered : Option Peak → ℤ → Option ℤ
lowered none bid = some bid
lowered (some pos_inf) bid = some bid
lowered (some neg_inf) bid = none
lowered (some (at p)) bid = if ltb_ℤ bid p then some bid else none

abbrev trail : Order → ℤ
trail o = or_else o.trail_amount (pos 0)

abbrev trail_buy : Option ℤ → Order → Order
trail_buy none o = o
trail_buy (some p) o = record o { peak_price = some (at p); trigger_price = p -ℤ trail o }

abbrev trail_sell : Option ℤ → Order → Order
trail_sell none o = o
trail_sell (some p) o = record o { peak_price = some (at p); trigger_price = p +ℤ trail o }

abbrev trail_side : Side → Quote → Order → Order
trail_side buy q o = trail_buy (raised o.peak_price q.ask) o
trail_side sell q o = trail_sell (lowered o.peak_price q.bid) o

abbrev pub is_trailing : OrderType → Bool
is_trailing trailing_stop = true
is_trailing _ = false

unfoldable pub update_trailing : ℕ → Quote → Order → Order
unfolding raised lowered
update_trailing y q o =
    if (o.symbol == y) && (is_trailing o.type && is_pending o.status)
    then trail_side o.side q o
    else o

-- Persisting an order that did not move would write back what is there.
unfoldable pub persist_trailing : ℕ → Quote → List Order → List Row → List Row
persist_trailing y q [] rows = rows
persist_trailing y q (o ∷ os) rows = persist_trailing y q os (
    if (o.symbol == y) && (is_trailing o.type && is_pending o.status)
    then upsert (full (update_trailing y q o)) rows
    else rows)

unfoldable pub update_trailing_stops : Bool → ℕ → Quote → World → World
update_trailing_stops persistent y q s = record s {
  worker = record {
    orders = map (update_trailing y q) s.worker.orders;
    terminal = s.worker.terminal;
  };
  rows = if persistent && s.reachable then persist_trailing y q s.worker.orders s.rows else s.rows;
}

abbrev crosses : OrderType → Side → ℤ → Quote → Bool
crosses limit buy p q = leb_ℤ q.ask p
crosses limit sell p q = leb_ℤ p q.bid
crosses _ buy p q = leb_ℤ p q.ask
crosses _ sell p q = leb_ℤ q.bid p

unfoldable pub is_triggered : Order → Quote → Bool
is_triggered o q = crosses o.type o.side o.trigger_price q

pub data Commitment : Type 0 where
  fill : Order → ℤ → Commitment
  arm : Order → ℤ → Commitment

abbrev exec_price : Side → Quote → ℤ
exec_price buy q = q.ask
exec_price sell q = q.bid

abbrev pub commit : OrderType → Option ℤ → Order → Quote → Commitment
commit stop_limit (some p) o q = arm o p
commit _ _ o q = fill o (exec_price o.side q)

-- The order that a stop-limit leaves at its limit price, with a time to live.
unfoldable pub armed_order : Order → ℤ → ℕ → ℕ → Order
armed_order o p now ttl = record o {
  type = limit;
  trigger_price = p;
  limit_price = none;
  trail_amount = none;
  armed_by_stop_limit = true;
  peak_price = none;
  expires_at = some (now + ttl);
  oco_group = none;
}

abbrev after_mark : Bool → Quote → Option Order × World → List Commitment × World
after_mark persistent q (none, s) = ([], s)
after_mark persistent q (some o, s) = (
  commit o.type o.limit_price o q ∷ [],
  cancel_oco_siblings_on_trigger persistent o.id o.oco_group s,
)

-- The loop of `_evaluate` over the orders that it took from the book before.
unfoldable pub evaluate_orders : Bool → Quote → List Order → World → List Commitment × World
evaluate_orders persistent q [] s = ([], s)
evaluate_orders persistent q (o ∷ os) s =
    let (done, t) =
      if is_triggered o q
      then after_mark persistent q (mark_triggered persistent o.id s)
      else ([], s) in
    let (more, r) = evaluate_orders persistent q os t in (done ++ more, r)

unfoldable pub evaluate : Bool → ℕ → Quote → World → List Commitment × World
unfolding evaluate_orders
evaluate persistent y q s =
    let t = update_trailing_stops persistent y q s in
    evaluate_orders persistent q (get_by_symbol y t.worker) t
