-- ===== src/Execution/Found.antt =====
-- trading-service/order.lifecycle.ts: the order row after an update, and after the legs of its fills.
use apiv.Base.{ℕ, ◌+◌, ◌≡◌, refl, ◌≢◌, some, List, [], ◌∷◌, ◌++◌, arith, if◌then◌else◌, length}
use apiv.Base.Int.{ℤ, pos, ◌+ℤ◌, leb_ℤ, int_laws}
use apiv.Execution.Rows.{
  Order, OrderStatus, filled, partially_filled, Desk, find_order, update_order,
}
use apiv.Execution.Lifecycle.{record_fill_leg, with_leg, is_full}

pub find_order-id : (k : ℕ) (o : Order) (os : List Order) → find_order k os ≡ some o → o.id ≡ k
unfolding find_order
find_order-id k o [] e = ground arith
find_order-id k o (x ∷ os) e = ground (arith, find_order-id k o os)

-- An update that keeps the identifier is found again, and other orders are left alone.
pub find_order-update_order_self :
    (k : ℕ) (f : Order → Order) (o : Order) (os : List Order)
    → (f o).id ≡ o.id
    → find_order k os ≡ some o
    → find_order k (update_order k f os) ≡ some (f o)
unfolding find_order update_order
find_order-update_order_self k f o [] same e = ground arith
find_order-update_order_self k f o (x ∷ os) same e =
    ground (arith, find_order-update_order_self k f o os)

pub find_order-update_order_ne :
    (k j : ℕ) (f : Order → Order) (os : List Order)
    → ((o : Order) → (f o).id ≡ o.id)
    → j ≢ k
    → find_order j (update_order k f os) ≡ find_order j os
unfolding find_order update_order
find_order-update_order_ne k j f [] same ne = refl
find_order-update_order_ne k j f (x ∷ os) same ne =
    ground (arith, same x, find_order-update_order_ne k j f os same ne)

pub record FillLeg : Type 0 where
  pub added : ℤ
  pub price : ℤ
  pub slippage : ℤ
  pub fees : ℤ

abbrev pub record_leg : ℕ → FillLeg → Desk → Desk
record_leg k l d = (record_fill_leg k l.added l.price l.slippage l.fees d).1

-- The legs of one order, in order.
abbrev pub record_legs : ℕ → List FillLeg → Desk → Desk
record_legs k [] d = d
record_legs k (l ∷ ls) d = record_legs k ls (record_leg k l d)

abbrev pub sum_added : List FillLeg → ℤ
sum_added [] = pos 0
sum_added (l ∷ ls) = l.added +ℤ sum_added ls

abbrev pub fill_status : Order → OrderStatus
fill_status o = if leb_ℤ o.quantity o.filled_quantity then filled else partially_filled

record_leg-found :
    (k : ℕ) (l : FillLeg) (o : Order) (d : Desk)
    → find_order k d.orders ≡ some o
    → find_order k (record_leg k l d).orders ≡ some (with_leg l.added l.price l.slippage l.fees o)
unfolding record_fill_leg
record_leg-found k l o d e =
    ground (
      arith,
      find_order-update_order_self k (with_leg l.added l.price l.slippage l.fees) o d.orders,
    )

length-snoc {ℓ} : {A : Type ℓ} (xs : List A) (x : A) → length (xs ++ x ∷ []) ≡ length xs + 1
length-snoc [] x = refl
length-snoc (y ∷ xs) x = omega (arith, length-snoc xs x)

assoc : (a b c : ℤ) → a +ℤ b +ℤ c ≡ a +ℤ (b +ℤ c)
assoc a b c = omega int_laws

add_zero : (a : ℤ) → a +ℤ pos 0 ≡ a
add_zero a = omega int_laws

-- After one or more legs the filled quantity of an order has grown by their sum, its status says
-- whether that reaches the quantity of the order, which stays, and the lifecycle has an event for each
-- leg.
pub record_legs_total :
    (k : ℕ) (l : FillLeg) (ls : List FillLeg) (o : Order) (d : Desk)
    → find_order k d.orders ≡ some o
    → (o' : Order) × (find_order k (record_legs k (l ∷ ls) d).orders ≡ some o')
      × (o'.filled_quantity ≡ o.filled_quantity +ℤ sum_added (l ∷ ls))
      × (o'.quantity ≡ o.quantity)
      × (o'.status ≡ fill_status o')
      × (length o'.lifecycle ≡ length o.lifecycle + length (l ∷ ls))
unfolding with_leg is_full
record_legs_total k l [] o d e = (
  with_leg l.added l.price l.slippage l.fees o,
  record_leg-found k l o d e,
  ground (arith, add_zero l.added),
  refl,
  refl,
  length-snoc o.lifecycle _,
)
record_legs_total k l (m ∷ ls) o d e =
    let o1 = with_leg l.added l.price l.slippage l.fees o in
    let (o', found, total, same, status, events) =
      record_legs_total k m ls o1 (record_leg k l d) (record_leg-found k l o d e) in
    (
      o',
      found,
      ground (arith, total, assoc o.filled_quantity l.added (sum_added (m ∷ ls))),
      same,
      status,
      omega (arith, length-snoc o.lifecycle _),
    )
