-- ===== src/Execution/Overtaken.antt =====
-- trading-service/order.cancel.ts beside execution-service/execution.engine.ts: a fill that commits
-- between the two steps of a cancellation.
use apiv.Base.{ℕ, ◌≡◌, refl, ◌∷◌, some, Bool, false}
use apiv.Base.Int.{pos, ◌+ℤ◌, ◌≤ℤ◌}
use apiv.Store.{Wallet}
use apiv.Store.Tables.{find_wallet}
use apiv.Execution.Rows.{Desk, Order, OrderStatus, cancelled, find_order}
use apiv.Execution.Lifecycle.{position_of}
use apiv.Execution.Found.{find_order-update_order_self}
use apiv.Execution.Setting.{Setting, Request, FillResult, price_gate, passed, is_partial}
use apiv.Execution.Transaction.{position_for}
use apiv.Execution.Engine.{filled_as, execute}
use apiv.Execution.Cancel.{may_cancel, cancel_check, cancel_write, set_cancelled}
use apiv.Execution.Opened.{estimate_of, wallet_after}
use apiv.Execution.Filled.{execute_fills}

-- A cancellation that has passed its check, and writes after an execution has filled the order, leaves
-- the order cancelled although it is filled, with its position open, the margin locked and the fee
-- charged.
pub cancel_write-execute :
    (e : Setting) (r : Request) (f : FillResult) (p u : ℕ) (full : Bool) (previous : OrderStatus)
    (w : Wallet) (o : Order) (d : Desk)
    → cancel_check r.order u d ≡ may_cancel previous
    → find_order r.order d.orders ≡ some o
    → find_wallet r.user d.store.wallets ≡ some w
    → pos 0 ≤ℤ estimate_of r
    → estimate_of r ≤ℤ w.locked
    → pos 0 ≤ℤ f.fees
    → is_partial f ≡ false
    → price_gate e r ≡ passed f
    → (execute e r d).0 ≡ filled_as p full
    → let d' = cancel_write r.order u previous (execute e r d).1 in
      (o' : Order) × (find_order r.order d'.orders ≡ some o')
      × (o'.status ≡ cancelled)
      × (o'.filled_quantity ≡ o.filled_quantity +ℤ f.filled_quantity)
      × (d'.store.positions ≡ position_of (position_for e.rounding r f) p ∷ d.store.positions)
      × (find_wallet r.user d'.store.wallets ≡ some (wallet_after e r f w))
unfolding cancel_write set_cancelled
cancel_write-execute e r f p u full previous w o d checked found funded h k fees whole priced t =
    let (writes, covered) = execute_fills e r f p full w o d found funded h k fees whole priced t in
    let (wallet, positions, fills, outbox, row) = writes in
    let (o', found', amount, status, fullness) = row in
    (
      set_cancelled o',
      find_order-update_order_self r.order set_cancelled o' (execute e r d).1.orders refl found',
      refl,
      amount,
      positions,
      wallet,
    )
