-- ===== src/Execution/Cancel.antt =====
-- trading-service/order.cancel.ts: `cancelOrderDb` as the two steps that it takes, the read of the
-- order and the transaction that writes, and `cancelOrderMemory` of the sandbox.
use apiv.Base.{
  ℕ, Option, none, some, List, ◌∷◌, Bool, true, false, ◌==◌, if◌then◌else◌, Option-cases,
  Bool-cases, inl, inr, ◌≡◌, arith,
}
use apiv.Store.{trading_order_cancelled, add_audit}
use apiv.Execution.Rows.{
  OrderStatus, received, risk_review, accepted, cancelled, Order, Desk, find_order, update_order,
  order_cancelled, order_cancelled_row,
}

-- `CANCELLABLE.has`.
unfoldable pub is_cancellable : OrderStatus → Bool
is_cancellable received = true
is_cancellable risk_review = true
is_cancellable accepted = true
is_cancellable _ = false

pub data Check : Type 0 where
  order_not_found unauthorized : Check
  cannot_cancel : OrderStatus → Check
  may_cancel : OrderStatus → Check

abbrev check_row : ℕ → Option Order → Check
check_row u none = order_not_found
check_row u (some o) =
    if o.user == u
    then (if is_cancellable o.status then may_cancel o.status else cannot_cancel o.status)
    else unauthorized

unfoldable pub cancel_check : ℕ → ℕ → Desk → Check
unfolding is_cancellable
cancel_check k u d = check_row u (find_order k d.orders)

unfoldable pub set_cancelled : Order → Order
set_cancelled o = record o { status = cancelled }

-- The transaction, the outbox row and the message.
unfoldable pub cancel_write : ℕ → ℕ → OrderStatus → Desk → Desk
unfolding set_cancelled
cancel_write k u previous d = record d {
  orders = update_order k set_cancelled d.orders;
  store = add_audit (record { actor = u; action = trading_order_cancelled; entity = k }) d.store;
  outbox = order_cancelled_row k u ∷ d.outbox;
  messages = order_cancelled k previous ∷ d.messages;
}

unfoldable pub cancel_order : ℕ → ℕ → Desk → Check × Desk
unfolding cancel_check cancel_write
cancel_order k u d = elim (cancel_check k u d) [
  | may_cancel previous ↦ (may_cancel previous, cancel_write k u previous d)
  | other ↦ (other, d)
]

-- `state.getOrders(userId).find(...)`: the orders of other users are not seen.
unfoldable pub find_own : ℕ → ℕ → List Order → Option Order
find_own k u os = elim (find_order k os) [
  | none ↦ none
  | some o ↦ if o.user == u then some o else none
]

-- `updateOrderStatusInMemory`, which checks the owner again.
unfoldable pub update_status_in_memory : ℕ → ℕ → OrderStatus → List Order → List Order
unfolding find_own
update_status_in_memory k u st os = elim (find_own k u os) [
  | none ↦ os
  | some o ↦ update_order k (λ (r : Order). record r { status = st }) os
]

unfoldable pub cancel_order_memory : ℕ → ℕ → Desk → Check × Desk
unfolding find_own update_status_in_memory
cancel_order_memory k u d = elim (find_own k u d.orders) [
  | none ↦ (order_not_found, d)
  | some o ↦
      if is_cancellable o.status
      then (
        may_cancel o.status,
        record d {
          orders = update_status_in_memory k u cancelled d.orders;
          messages = order_cancelled k o.status ∷ d.messages;
        },
      )
      else (cannot_cancel o.status, d)
]

-- What the sandbox answers where the database answers otherwise.
abbrev pub hide : Check → Check
hide unauthorized = order_not_found
hide check = check

-- The two paths leave the same order rows and emit the same messages, and give the same answer, but
-- that the order of another user is reported as missing in the sandbox.
cancel_order_memory-cancel_order :
    (k u : ℕ) (d : Desk)
    → let (answer, d') = cancel_order k u d in
      let (answer', d'') = cancel_order_memory k u d in
      (answer' ≡ hide answer) × (d''.orders ≡ d'.orders) × (d''.messages ≡ d'.messages)
unfolding cancel_order cancel_order_memory set_cancelled
cancel_order_memory-cancel_order k u d = elim (Option-cases (find_order k d.orders)) [
  | inl t ↦ (ground arith, ground arith, ground arith)
  | inr (o, t) ↦ elim (Bool-cases (o.user == u)) [
    | inr t' ↦ (ground arith, ground arith, ground arith)
    | inl t' ↦ elim (Bool-cases (is_cancellable o.status)) [
      | inl t'' ↦ (ground arith, ground arith, ground arith)
      | inr t'' ↦ (ground arith, ground arith, ground arith)
    ]
  ]
]
