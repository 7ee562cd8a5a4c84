-- ===== src/Execution/Named.antt =====
-- trading-service/order.lifecycle.ts: `create` beside the other operations on order rows, for a
-- client that submits the same `clientOrderId` again.
use apiv.Base.{
  ℕ, suc, ap, ◌≡◌, refl, inl, inr, Option, none, some, List, [], ◌∷◌, ◌++◌, Option-cases,
  Bool-cases, true, false, arith, sym, ◌∙◌, ◌==◌,
}
use apiv.Base.Int.{ℤ}
use apiv.Execution.Rows.{
  Order, OrderStatus, Actor, Desk, find_named, find_order, is_named, update_order,
}
use apiv.Execution.Lifecycle.{
  NewOrder, new_order, clashing, created, duplicate_order, create, Extra, moved, transition,
  with_leg, record_fill_leg,
}
use apiv.Execution.Found.{FillLeg, record_leg}

-- The row of a name.
abbrev pub Holds : (user name id : ℕ) → List Order → Type 0
Holds u c k os = (o : Order) × (find_named u c os ≡ some o) × (o.id ≡ k)

-- What an update of a row leaves alone.
abbrev SameName : (Order → Order) → Type 0
SameName f =
    (o : Order)
    → ((f o).id ≡ o.id) × ((f o).user ≡ o.user) × ((f o).client_order_id ≡ o.client_order_id)

is_named_same :
    (u c : ℕ) (f : Order → Order) → SameName f → (o : Order) → is_named u c (f o) ≡ is_named u c o
is_named_same u c f same o = let (id, user, name) = same o in rw (user, name) refl

found_here :
    (u c : ℕ) (x : Order) (xs : List Order)
    → is_named u c x ≡ true
    → find_named u c (x ∷ xs) ≡ some x
unfolding find_named
found_here u c x xs t = rw t refl

found_later :
    (u c : ℕ) (x : Order) (xs : List Order)
    → is_named u c x ≡ false
    → find_named u c (x ∷ xs) ≡ find_named u c xs
unfolding find_named
found_later u c x xs t = rw t refl

found_one : (x o : Order) → ◌≡◌ {A = Option Order} (some x) (some o) → o.id ≡ x.id
found_one x o e = cc

update_order-Holds :
    (u c k j : ℕ) (f : Order → Order) (os : List Order)
    → SameName f
    → Holds u c k os
    → Holds u c k (update_order j f os)
unfolding find_named update_order
update_order-Holds u c k j f [] same (o, e, id) = absurd (ground arith)
update_order-Holds u c k j f (x ∷ xs) same (o, e, id) = elim (Bool-cases (is_named u c x)) [
  | inl t ↦
      let is_o = found_one x o (sym (found_here u c x xs t) ∙ e) in
      elim (Bool-cases (x.id == j)) [
        | inl q ↦ rw q (
          f x,
          found_here u c (f x) xs (is_named_same u c f same x ∙ t),
          (same x).0 ∙ sym is_o ∙ id,
        )
        | inr q ↦ rw q (x, found_here u c x (update_order j f xs) t, sym is_o ∙ id)
      ]
  | inr t ↦
      let e' = sym (found_later u c x xs t) ∙ e in
      elim (Bool-cases (x.id == j)) [
        | inl q ↦ rw q (o, found_later u c (f x) xs (is_named_same u c f same x ∙ t) ∙ e', id)
        | inr q ↦
            let (o', found, id') = update_order-Holds u c k j f xs same (o, e', id) in
            rw q (o', found_later u c x (update_order j f xs) t ∙ found, id')
      ]
]

find_named-append :
    (u c : ℕ) (o p : Order) (os : List Order)
    → find_named u c os ≡ some o
    → find_named u c (os ++ p ∷ []) ≡ some o
unfolding find_named
find_named-append u c o p [] e = ground arith
find_named-append u c o p (x ∷ xs) e = ground (arith, find_named-append u c o p xs)

find_named-append_new :
    (u c : ℕ) (p : Order) (os : List Order)
    → find_named u c os ≡ none
    → is_named u c p ≡ true
    → find_named u c (os ++ p ∷ []) ≡ some p
unfolding find_named
find_named-append_new u c p [] e t = ground arith
find_named-append_new u c p (x ∷ xs) e t = ground (arith, find_named-append_new u c p xs)

-- An operation on the order rows.
pub data Operation : Type 0 where
  make : NewOrder → Operation
  move : ℕ → OrderStatus → Actor → Extra → Operation
  leg : ℕ → FillLeg → Operation

abbrev pub operate : Operation → Desk → Desk
operate (make p) d = (create p d).1
operate (move k to actor extra) d = transition k to actor extra d
operate (leg k l) d = record_leg k l d

abbrev pub operate_all : List Operation → Desk → Desk
operate_all [] d = d
operate_all (o ∷ os) d = operate_all os (operate o d)

moved-SameName :
    (to : OrderStatus) (actor : Actor) (extra : Extra) → SameName (moved to actor extra)
unfolding moved
moved-SameName to actor (Extra.fill_details p s f) o = (refl, refl, refl)
moved-SameName to actor (Extra.rejection r) o = (refl, refl, refl)
moved-SameName to actor Extra.no_details o = (refl, refl, refl)

with_leg-SameName : (a p s f : ℤ) → SameName (with_leg a p s f)
unfolding with_leg
with_leg-SameName a p s f o = (refl, refl, refl)

abbrev with_new : NewOrder → Desk → Desk
with_new p d = record d {
  orders = d.orders ++ new_order p d.store.next_id ∷ [];
  store = record d.store { next_id = suc d.store.next_id };
}

create_new :
    (p : NewOrder) (d : Desk)
    → clashing p d.orders ≡ none
    → create p d ≡ (created (new_order p d.store.next_id), with_new p d)
unfolding create
create_new p d t = ground arith

create_clash :
    (p : NewOrder) (x : Order) (d : Desk)
    → clashing p d.orders ≡ some x
    → create p d ≡ (duplicate_order x, d)
unfolding create
create_clash p x d t = ground arith

leg_found :
    (j : ℕ) (l : FillLeg) (x : Order) (d : Desk)
    → find_order j d.orders ≡ some x
    → (record_leg j l d).orders
      ≡ update_order j (with_leg l.added l.price l.slippage l.fees) d.orders
unfolding record_fill_leg
leg_found j l x d t = ground arith

leg_missing :
    (j : ℕ) (l : FillLeg) (d : Desk)
    → find_order j d.orders ≡ none
    → (record_leg j l d).orders ≡ d.orders
unfolding record_fill_leg
leg_missing j l d t = ground arith

-- Every operation keeps the row of a name.
operate-Holds :
    (u c k : ℕ) (op : Operation) (d : Desk)
    → Holds u c k d.orders
    → Holds u c k (operate op d).orders
unfolding transition
operate-Holds u c k (make p) d (o, e, id) = elim (Option-cases (clashing p d.orders)) [
  | inl t ↦
      rw (operate, create_new p d t)
        (o, find_named-append u c o (new_order p d.store.next_id) d.orders e, id)
  | inr (x, t) ↦ rw (operate, create_clash p x d t) (o, e, id)
]
operate-Holds u c k (move j to actor extra) d h =
    update_order-Holds u c k j (moved to actor extra) d.orders (moved-SameName to actor extra) h
operate-Holds u c k (leg j l) d h = elim (Option-cases (find_order j d.orders)) [
  | inl t ↦ rw (operate, leg_missing j l d t) h
  | inr (x, t) ↦
      rw (operate, leg_found j l x d t)
        (update_order-Holds u c k j (with_leg l.added l.price l.slippage l.fees) d.orders
          (with_leg-SameName l.added l.price l.slippage l.fees) h)
]

operate_all-Holds :
    (u c k : ℕ) (ops : List Operation) (d : Desk)
    → Holds u c k d.orders
    → Holds u c k (operate_all ops d).orders
operate_all-Holds u c k [] d h = h
operate_all-Holds u c k (op ∷ ops) d h =
    operate_all-Holds u c k ops (operate op d) (operate-Holds u c k op d h)

clashing_named :
    (p : NewOrder) (c : ℕ) (os : List Order)
    → p.client_order_id ≡ some c
    → clashing p os ≡ find_named p.user c os
unfolding clashing
clashing_named p c os e = rw e refl

named_new :
    (p : NewOrder) (c k : ℕ) → p.client_order_id ≡ some c → is_named p.user c (new_order p k) ≡ true
named_new p c k name = ground arith

created-Holds :
    (p : NewOrder) (c : ℕ) (o : Order) (d : Desk)
    → p.client_order_id ≡ some c
    → (create p d).0 ≡ created o
    → Holds p.user c o.id (create p d).1.orders
created-Holds p c o d name done = elim (Option-cases (clashing p d.orders)) [
  | inl t ↦
      let row = new_order p d.store.next_id in
      let made = create_new p d t in
      let row_id : o.id ≡ row.id = cc (ap (λ r. r.0) made) in
      rw (made, row_id)
        (
          row,
          find_named-append_new p.user c row d.orders (sym (clashing_named p c d.orders name) ∙ t)
              (named_new p c d.store.next_id name),
          refl,
        )
  | inr (x, t) ↦ absurd cc (ap (λ r. r.0) (create_clash p x d t))
]

-- Once an order is created under a client's identifier, then whatever further orders, transitions and
-- fill legs follow, a new order of the same client under that identifier is refused as a duplicate,
-- with the row of the first, and writes nothing.
pub create_once :
    (p q : NewOrder) (c : ℕ) (o : Order) (ops : List Operation) (d : Desk)
    → p.client_order_id ≡ some c
    → q.client_order_id ≡ some c
    → q.user ≡ p.user
    → (create p d).0 ≡ created o
    → let d' = operate_all ops (create p d).1 in
      (o' : Order) × (o'.id ≡ o.id) × (create q d' ≡ (duplicate_order o', d'))
create_once p q c o ops d name name' same done =
    let d' = operate_all ops (create p d).1 in
    let (o', found, id) =
      operate_all-Holds p.user c o.id ops (create p d).1 (created-Holds p c o d name done) in
    (o', id, create_clash q o' d' (clashing_named q c d'.orders name' ∙ rw same found))
