-- ===== src/Execution/Rows.antt =====
-- The rows of the tables `Order`, `Fill` and `OutboxEvent` (prisma/schema.prisma) beside the store that
-- the money-moving services share, and the messages of an execution. A refusal is named by its code,
-- without the figures of its text; times are left out.
use apiv.Base.{ℕ, Option, none, some, List, [], ◌∷◌, Bool, ◌&&◌, false, ◌==◌, if◌then◌else◌}
use apiv.Base.Int.{ℤ}
use apiv.Store.{Side, Store, Error}

-- `OrderStatus` of shared/contracts.ts.
pub data OrderStatus : Type 0 where
  received risk_review accepted partially_filled filled rejected cancelled : OrderStatus
  limit_armed limit_expired limit_cancelled : OrderStatus

pub data Kind : Type 0 where
  market limit stop stop_limit trailing_stop ioc fok : Kind

pub data Actor : Type 0 where
  system risk lp admin : Actor

pub record LifecycleEvent : Type 0 where
  pub status : OrderStatus
  pub actor : Actor

-- The codes of the refusals of `execute`.
pub data Refusal : Type 0 where
  kill_switch_active kyc_not_approved no_live_market_data requote lp_unavailable : Refusal
  fok_unfillable execution_timeout instrument_halted client_exposure_limit_exceeded : Refusal
  concentration_limit_exceeded fee_charge_failed : Refusal
  margin_insufficient : Error → Refusal

pub record Order : Type 0 where
  pub id : ℕ
  pub user : ℕ
  pub client_order_id : Option ℕ
  pub symbol : ℕ
  pub side : Side
  pub kind : Kind
  pub status : OrderStatus
  pub quantity : ℤ
  pub filled_quantity : ℤ
  pub leverage : ℕ
  pub margin_required : ℤ
  pub average_fill_price : Option ℤ
  pub slippage : Option ℤ
  pub fees : Option ℤ
  pub rejection_reason : Option Refusal
  pub lifecycle : List LifecycleEvent

pub record Fill : Type 0 where
  pub order : ℕ
  pub position : ℕ
  pub quantity : ℤ
  pub price : ℤ
  pub slippage : ℤ
  pub fees : ℤ

pub data OutboxRow : Type 0 where
  order_filled_row order_partial_filled_row : (order position user : ℕ) → OutboxRow
  order_cancelled_row : (order user : ℕ) → OutboxRow

-- What is emitted on the bus of the process.
pub data Message : Type 0 where
  order_rejected : ℕ → Refusal → Message
  order_filled order_partial_filled : (order : ℕ) (quantity price : ℤ) → Message
  margin_locked : (user order : ℕ) → ℤ → Message
  position_opened : (position user : ℕ) → Message
  order_cancelled : ℕ → OrderStatus → Message

-- `ExposureEntry`.
pub record Exposure : Type 0 where
  pub long : ℤ
  pub short : ℤ

-- The tables, the bus, and the map of the process's exposure registry. All but the orders are newest
-- first.
pub record Desk : Type 0 where
  pub store : Store
  pub orders : List Order
  pub fills : List Fill
  pub outbox : List OutboxRow
  pub messages : List Message
  pub registry : ℕ → Option Exposure

-- `order.findUnique({ where: { id } })`.
unfoldable pub find_order : ℕ → List Order → Option Order
find_order k [] = none
find_order k (o ∷ os) = if o.id == k then some o else find_order k os

-- `UPDATE "Order" SET ... WHERE id`; the identifier is the primary key.
unfoldable pub update_order : ℕ → (Order → Order) → List Order → List Order
update_order k f [] = []
update_order k f (o ∷ os) = if o.id == k then f o ∷ os else o ∷ update_order k f os

-- The order has this owner and this `clientOrderId`.
abbrev pub is_named : ℕ → ℕ → Order → Bool
is_named u c o = (o.user == u) && elim o.client_order_id [ none ↦ false | some k ↦ k == c ]

-- `order.findFirst({ where: { userId, clientOrderId } })`.
unfoldable pub find_named : ℕ → ℕ → List Order → Option Order
find_named u c [] = none
find_named u c (o ∷ os) = if is_named u c o then some o else find_named u c os
