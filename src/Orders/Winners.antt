-- ===== src/Orders/Winners.antt =====
-- An order that waits is taken by somebody, and then by nobody else.
use apiv.Base.{
  ℕ, ◌≡◌, refl, none, some, List, [], ◌∷◌, Bool, true, false, ◌&&◌, ◌||◌, arith, ◌==◌, is_some,
}
use apiv.Orders.Book.{Row, full, stub, Status, triggered, Worker, World, is_pending, get_order}
use apiv.Orders.Operations.{claim_row, claim_status_change, mark_triggered}
use apiv.Orders.Claims.{HasUniqueKeys, with_worker, winners, winners-taken, mark_triggered-takes}

-- The order's shared row waits.
unfoldable pub is_waiting : ℕ → List Row → Bool
is_waiting k [] = false
is_waiting k (full x ∷ rs) = ((x.id == k) && is_pending x.status) || is_waiting k rs
is_waiting k (stub j st ∷ rs) = is_waiting k rs

-- The worker's own copy of the order, if it has one, waits.
unfoldable pub agrees : ℕ → Worker → Bool
agrees k w = elim (get_order k w.orders) [ none ↦ true | some o ↦ is_pending o.status ]

claim_row-waiting :
    (k : ℕ) (st : Status) (rs : List Row)
    → is_waiting k rs ≡ true
    → is_some (claim_row k st none rs).0 ≡ true
unfolding claim_row is_waiting
claim_row-waiting k st [] h = cc
claim_row-waiting k st (full x ∷ rs) h = ground (arith, claim_row-waiting k st rs)
claim_row-waiting k st (stub j y ∷ rs) h = claim_row-waiting k st rs h

mark_triggered-waiting :
    (k : ℕ) (s : World)
    → s.reachable ≡ true
    → is_waiting k s.rows ≡ true
    → agrees k s.worker ≡ true
    → is_some (mark_triggered true k s).0 ≡ true
unfolding mark_triggered claim_status_change agrees
mark_triggered-waiting k s up waits own = ground (arith, claim_row-waiting k triggered s.rows waits)

-- When the database answers and the keys of the shared rows are unique, of any workers that try, one
-- after another, to take a waiting order to trigger it, exactly one succeeds, if the first one's own
-- copy, where it has one, waits too.
pub mark_triggered_exactly_once :
    (w : Worker) (ws : List Worker) (k : ℕ) (s : World)
    → HasUniqueKeys s.rows
    → s.reachable ≡ true
    → is_waiting k s.rows ≡ true
    → agrees k w ≡ true
    → winners (w ∷ ws) k s ≡ 1
unfolding winners
mark_triggered_exactly_once w ws k s unique up waits own =
    let won = mark_triggered-waiting k (with_worker w s) up waits own in
    let taken = mark_triggered-takes k (with_worker w s) unique (λ e. let d = rw e at won in cc) in
    let nobody = winners-taken ws k (mark_triggered true k (with_worker w s)).1 taken in
    rw (won, nobody) refl
