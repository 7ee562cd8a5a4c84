-- ===== src/Orders/Book.antt =====
-- trading-service/pending.order.book.ts: the state of `PendingOrderBook` on one worker, the shared
-- rows, and the writes to either. Fields that the book only carries (leverage, stop loss, take
-- profit, notional, quantity, the client's id) are left out, and so is logging.
use apiv.Base.{
  ℕ, Option, none, some, List, [], ◌∷◌, ◌++◌, Bool, true, false, ◌&&◌, not, ◌==◌, ltb, leb, length,
  keep, contains, if◌then◌else◌,
}
use apiv.Base.Int.{ℤ}
use apiv.Store.{Side}

pub data OrderType : Type 0 where
  limit stop stop_limit trailing_stop : OrderType

pub data Status : Type 0 where
  pending triggered cancelled expired : Status

-- A price or an infinity, for `peakPrice`.
pub data Peak : Type 0 where
  neg_inf pos_inf : Peak
  at : ℤ → Peak

pub record Order : Type 0 where
  pub id : ℕ
  pub order_id : ℕ
  pub user : ℕ
  pub symbol : ℕ
  pub side : Side
  pub type : OrderType
  pub quantity : ℤ
  pub trigger_price : ℤ
  pub limit_price : Option ℤ
  pub trail_amount : Option ℤ
  pub leverage : ℕ
  pub margin_required : ℤ
  pub armed_by_stop_limit : Bool
  pub peak_price : Option Peak
  pub status : Status
  pub expires_at : Option ℕ
  pub created_at : ℕ
  pub oco_group : Option ℕ

-- A `BrokerSetting` row `pending_order:{id}`: a whole order, or what `_cancelPersisted` leaves.
pub data Row : Type 0 where
  full : Order → Row
  stub : ℕ → Status → Row

pub data Reason : Type 0 where
  client_cancel oco_sibling_cancelled oco_sibling_triggered : Reason

pub data Message : Type 0 where
  added : Order → Message
  removed : ℕ → Message

pub data Event : Type 0 where
  order_pending : ℕ → Event
  order_cancelled : ℕ → Reason → Event

-- One worker's private maps.
pub record Worker : Type 0 where
  pub orders : List Order
  pub terminal : List ℕ

-- A worker with the rows that all share, whether the database answers, and what the worker has done:
-- margin releases (user, order, amount), events and broadcasts, newest first.
pub record World : Type 0 where
  pub worker : Worker
  pub rows : List Row
  pub reachable : Bool
  pub releases : List (ℕ × ℕ × ℤ)
  pub events : List Event
  pub published : List Message

abbrev pub is_pending : Status → Bool
is_pending pending = true
is_pending _ = false

abbrev pub row_id : Row → ℕ
row_id (full o) = o.id
row_id (stub k st) = k

-- `orders.get`, `orders.set` and `orders.delete`.
unfoldable pub get_order : ℕ → List Order → Option Order
get_order k [] = none
get_order k (o ∷ os) = if o.id == k then some o else get_order k os

unfoldable pub set_order : Order → List Order → List Order
set_order o [] = o ∷ []
set_order o (x ∷ os) = if x.id == o.id then o ∷ os else x ∷ set_order o os

unfoldable pub delete_order : ℕ → List Order → List Order
delete_order k [] = []
delete_order k (o ∷ os) = if o.id == k then delete_order k os else o ∷ delete_order k os

-- `brokerSetting.upsert`.
unfoldable pub upsert : Row → List Row → List Row
upsert r [] = r ∷ []
upsert r (x ∷ rs) = if row_id x == row_id r then r ∷ rs else x ∷ upsert r rs

abbrev pub terminal_limit : ℕ
terminal_limit = 5000

-- `_markTerminalLocally`: a set in order of insertion, whose oldest entry goes when it is full.
abbrev pub add_once : ℕ → List ℕ → List ℕ
add_once k xs = if contains k xs then xs else xs ++ k ∷ []

abbrev pub drop_oldest : List ℕ → List ℕ
drop_oldest [] = []
drop_oldest (x ∷ xs) = if ltb terminal_limit (length (x ∷ xs)) then xs else x ∷ xs

unfoldable pub mark_terminal : ℕ → List ℕ → List ℕ
mark_terminal k xs = drop_oldest (add_once k xs)

-- The order leaves this worker for good.
unfoldable pub forget : ℕ → Worker → Worker
forget k w = record { orders = delete_order k w.orders; terminal = mark_terminal k w.terminal }

-- The handler that `startSync` subscribes.
unfoldable pub receive : Message → Worker → Worker
receive (added o) w = elim (get_order o.id w.orders) [
  | some _ ↦ w
  | none ↦ if contains o.id w.terminal then w else record w { orders = set_order o w.orders }
]
receive (removed k) w = forget k w

abbrev pub is_due : ℕ → Order → Bool
is_due now o = elim (o.expires_at) [ none ↦ false | some t ↦ leb t now ]

abbrev is_past : ℕ → Order → Bool
is_past now o = elim (o.expires_at) [ none ↦ false | some t ↦ ltb t now ]

-- What `initialize` does with the rows: the pending orders that have not expired are put in the
-- worker's map, and the rows of the expired ones are overwritten.
unfoldable pub load_orders : ℕ → List Row → List Order → List Order
load_orders now [] os = os
load_orders now (full o ∷ rs) os =
    load_orders now rs (if is_pending o.status && not (is_past now o) then set_order o os else os)
load_orders now (stub k st ∷ rs) os = load_orders now rs os

unfoldable pub expire_rows : ℕ → List Row → List Row
expire_rows now [] = []
expire_rows now (full o ∷ rs) =
    (if is_pending o.status && is_past now o then stub o.id expired else full o)
    ∷ expire_rows now rs
expire_rows now (stub k st ∷ rs) = stub k st ∷ expire_rows now rs

-- `getAll`, `getForUser`, `getBySymbol`.
unfoldable pub get_all : Worker → List Order
get_all w = keep (λ o. is_pending o.status) w.orders

unfoldable pub get_for_user : ℕ → Worker → List Order
get_for_user u w = keep (λ o. (o.user == u) && is_pending o.status) w.orders

unfoldable pub get_by_symbol : ℕ → Worker → List Order
get_by_symbol y w = keep (λ o. (o.symbol == y) && is_pending o.status) w.orders

-- The orders of the rows that are pending and due.
unfoldable pub due_orders : ℕ → List Row → List Order
due_orders now [] = []
due_orders now (full o ∷ rs) =
    let rest = due_orders now rs in if is_pending o.status && is_due now o then o ∷ rest else rest
due_orders now (stub k st ∷ rs) = due_orders now rs
