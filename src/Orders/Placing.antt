-- ===== src/Orders/Placing.antt =====
-- Adding an order: it is in the shared rows, or nowhere.
use apiv.Base.{ℕ, ◌≡◌, ◌⊎◌, none, some, List, [], ◌∷◌, Bool, true, false, ◌&&◌, arith}
use apiv.Orders.Book.{Order, full, World, get_order, set_order, upsert}
use apiv.Orders.Operations.{fresh_order, persist_from, persist, add}
use apiv.Orders.Broadcasts.{get_order-delete_order}

pub get_order-set_order : (o : Order) (os : List Order) → get_order o.id (set_order o os) ≡ some o
unfolding get_order set_order
get_order-set_order o [] = ground arith
get_order-set_order o (x ∷ os) = ground (arith, get_order-set_order o os)

-- When the rows are persisted, adding an order fails exactly when three attempts to write it fail. Then
-- neither the worker's map nor the rows have it and nothing is announced; otherwise the map and the
-- rows have it as pending.
pub add_all_or_nothing :
    (fails : ℕ → Bool) (k now : ℕ) (o : Order) (s : World)
    → let (r, t) = add true fails k now o s in
      let p = fresh_order true k now o in
      ((fails 1 && (fails 2 && fails 3) ≡ false)
        × (r ≡ some p)
        × (get_order k t.worker.orders ≡ some p)
        × (t.rows ≡ upsert (full p) s.rows))
      ⊎ ((fails 1 && (fails 2 && fails 3) ≡ true)
          × (r ≡ none)
          × (get_order k t.worker.orders ≡ none)
          × (t.rows ≡ s.rows)
          × (t.events ≡ s.events)
          × (t.published ≡ s.published))
unfolding add persist persist_from
add_all_or_nothing fails k now o s =
    let p = fresh_order true k now o in
    let kept = get_order-set_order p s.worker.orders in
    let gone = get_order-delete_order k (set_order p s.worker.orders) in ground (arith, kept, gone)
