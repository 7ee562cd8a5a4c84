-- ===== src/Execution/Lifecycle.antt =====
-- trading-service/order.lifecycle.ts: `OrderLifecycle`. A new row takes the next identifier, in place
-- of `randomUUID()`; the client's own `clientOrderId` is unique among the orders of a user.
use apiv.Base.{ℕ, suc, Option, none, some, List, [], ◌∷◌, ◌++◌, Bool, false, if◌then◌else◌}
use apiv.Base.Int.{ℤ, pos, ◌+ℤ◌, leb_ℤ}
use apiv.Store.{Side, Position, open_position}
use apiv.Execution.Rows.{
  OrderStatus, received, partially_filled, filled, rejected, Kind, Actor, system, risk, lp,
  LifecycleEvent, Refusal, Order, Fill, Desk, find_order, update_order, find_named,
}

pub record NewOrder : Type 0 where
  pub user : ℕ
  pub symbol : ℕ
  pub side : Side
  pub kind : Kind
  pub quantity : ℤ
  pub leverage : ℕ
  pub margin_required : ℤ
  pub client_order_id : Option ℕ

abbrev pub new_order : NewOrder → ℕ → Order
new_order p id = record {
  id = id;
  user = p.user;
  client_order_id = p.client_order_id;
  symbol = p.symbol;
  side = p.side;
  kind = p.kind;
  status = received;
  quantity = p.quantity;
  filled_quantity = pos 0;
  leverage = p.leverage;
  margin_required = p.margin_required;
  average_fill_price = none;
  slippage = none;
  fees = none;
  rejection_reason = none;
  lifecycle = record { status = received; actor = system } ∷ [];
}

-- The unique index over `userId` and `clientOrderId`, in which an absent identifier clashes with none.
unfoldable pub clashing : NewOrder → List Order → Option Order
clashing p os = elim p.client_order_id [ none ↦ none | some c ↦ find_named p.user c os ]

pub data Created : Type 0 where
  created : Order → Created
  duplicate_order : Order → Created

unfoldable pub create : NewOrder → Desk → Created × Desk
create p d = elim (clashing p d.orders) [
  | some existing ↦ (duplicate_order existing, d)
  | none ↦
      let o = new_order p d.store.next_id in
      (
        created o,
        record d {
          orders = d.orders ++ o ∷ [];
          store = record d.store { next_id = suc d.store.next_id };
        },
      )
]

-- The optional details of a transition, by the branch that they select.
pub data Extra : Type 0 where
  fill_details : (price slippage fees : ℤ) → Extra
  rejection : Refusal → Extra
  no_details : Extra

unfoldable pub moved : OrderStatus → Actor → Extra → Order → Order
moved to actor extra o =
    let o' = record o {
      status = to;
      lifecycle = o.lifecycle ++ record { status = to; actor = actor } ∷ [];
    } in
    elim extra [
      | fill_details price slippage fees ↦ record o' {
        average_fill_price = some price;
        slippage = some slippage;
        fees = some fees;
      }
      | rejection r ↦ record o' { rejection_reason = some r }
      | no_details ↦ o'
    ]

unfoldable pub transition : ℕ → OrderStatus → Actor → Extra → Desk → Desk
unfolding moved
transition k to actor extra d = record d { orders = update_order k (moved to actor extra) d.orders }

unfoldable pub reject_order : ℕ → Refusal → Desk → Desk
unfolding transition
reject_order k r d = transition k rejected risk (rejection r) d

pub record NewPosition : Type 0 where
  pub user : ℕ
  pub symbol : ℕ
  pub side : Side
  pub quantity : ℤ
  pub entry_price : ℤ
  pub margin_used : ℤ
  pub leverage : ℕ

abbrev pub position_of : NewPosition → ℕ → Position
position_of p id = record {
  id = id;
  user = p.user;
  symbol = p.symbol;
  side = p.side;
  quantity = p.quantity;
  entry_price = p.entry_price;
  margin_used = p.margin_used;
  leverage = p.leverage;
  status = open_position;
  is_closed = false;
}

unfoldable pub create_position : NewPosition → Desk → ℕ × Desk
create_position p d = (
  d.store.next_id,
  record d {
    store = record d.store {
      positions = position_of p d.store.next_id ∷ d.store.positions;
      next_id = suc d.store.next_id;
    };
  },
)

unfoldable pub get_lifecycle : ℕ → Desk → List LifecycleEvent
get_lifecycle k d = elim (find_order k d.orders) [ none ↦ [] | some o ↦ o.lifecycle ]

unfoldable pub create_fill : Fill → Desk → Desk
create_fill f d = record d { fills = f ∷ d.fills }

-- The totals that a fill leg returns, with `isNowFullyFilled`.
pub record Leg : Type 0 where
  pub new_filled : ℤ
  pub original : ℤ
  pub now_full : Bool

-- `none` is the error for a row that is missing, here and below.
unfoldable pub increment_filled_quantity : ℕ → ℤ → Desk → Option (ℤ × ℤ) × Desk
increment_filled_quantity k added d = elim (find_order k d.orders) [
  | none ↦ (none, d)
  | some o ↦ (
    some (o.filled_quantity +ℤ added, o.quantity),
    record d {
      orders =
          update_order k (λ (r : Order). record r { filled_quantity = r.filled_quantity +ℤ added })
            d.orders;
    },
  )
]

unfoldable pub is_full : ℤ → Order → Bool
is_full added o = leb_ℤ o.quantity (o.filled_quantity +ℤ added)

-- The single `UPDATE` of `recordFillLeg`.
unfoldable pub with_leg : ℤ → (price slippage fees : ℤ) → Order → Order
unfolding is_full
with_leg added price slippage fees o =
    let to = if is_full added o then filled else partially_filled in
    record o {
      filled_quantity = o.filled_quantity +ℤ added;
      status = to;
      lifecycle = o.lifecycle ++ record { status = to; actor = lp } ∷ [];
      average_fill_price = some price;
      slippage = some slippage;
      fees = some fees;
    }

unfoldable pub record_fill_leg : ℕ → ℤ → (price slippage fees : ℤ) → Desk → Option Leg × Desk
unfolding with_leg
record_fill_leg k added price slippage fees d = elim (find_order k d.orders) [
  | none ↦ (none, d)
  | some o ↦ (
    some (record {
      new_filled = o.filled_quantity +ℤ added;
      original = o.quantity;
      now_full = is_full added o;
    }),
    record d { orders = update_order k (with_leg added price slippage fees) d.orders },
  )
]
