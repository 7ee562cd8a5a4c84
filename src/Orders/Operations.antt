-- ===== src/Orders/Operations.antt =====
-- trading-service/pending.order.book.ts: the operations of `PendingOrderBook`. The margin that
-- `marginController.releaseMargin` gives back is recorded as the call that is made of it.
use apiv.Base.{
  ℕ, zero, suc, Option, none, some, List, [], ◌∷◌, Bool, true, false, ◌&&◌, not, ◌==◌, keep, any,
  if◌then◌else◌,
}
use apiv.Store.{Side, buy, sell}
use apiv.Orders.Book.{
  OrderType, trailing_stop, Status, pending, triggered, cancelled, Peak, neg_inf, pos_inf, Order,
  Row, full, stub, Reason, client_cancel, oco_sibling_cancelled, oco_sibling_triggered, added,
  removed, order_pending, order_cancelled, World, is_pending, get_order, set_order, delete_order,
  upsert, mark_terminal, forget, load_orders, expire_rows, get_all, due_orders, is_due,
}

abbrev pub release_margin_for : Order → World → World
release_margin_for o s = record s {
  releases = (o.user, o.order_id, o.margin_required) ∷ s.releases;
}

abbrev pub announce_cancel : ℕ → Reason → World → World
announce_cancel k reason s = record s {
  events = order_cancelled k reason ∷ s.events;
  published = removed k ∷ s.published;
}

abbrev pub forget_locally : ℕ → World → World
forget_locally k s = record s { worker = forget k s.worker }

-- The conditional `UPDATE … RETURNING value` on one row.
abbrev owned_by : Option ℕ → Order → Bool
owned_by none o = true
owned_by (some u) o = o.user == u

unfoldable pub claim_row : ℕ → Status → Option ℕ → List Row → Option Order × List Row
claim_row k st u [] = (none, [])
claim_row k st u (stub j x ∷ rs) = let (o, rest) = claim_row k st u rs in (o, stub j x ∷ rest)
claim_row k st u (full x ∷ rs) =
    let (o, rest) = claim_row k st u rs in
    if (x.id == k) && (is_pending x.status && owned_by u x)
    then (some (record x { status = st }), full (record x { status = st }) ∷ rs)
    else (o, full x ∷ rest)

-- `_claimStatusChange`: a database that does not answer claims nothing.
unfoldable pub claim_status_change : ℕ → Status → Option ℕ → World → Option Order × World
claim_status_change k st u s =
    if s.reachable
    then (let (o, rows) = claim_row k st u s.rows in (o, record s { rows = rows }))
    else (none, s)

module _ (persistent : Bool) where
  -- `_cancelPersisted`, whose failure is swallowed.
  unfoldable pub cancel_persisted : ℕ → Status → World → World
  cancel_persisted k st s =
      if persistent && s.reachable then record s { rows = upsert (stub k st) s.rows } else s

  -- The first call of `initialize`: later ones return at once.
  unfoldable pub initialize : ℕ → World → World
  initialize now s =
      if persistent && s.reachable
      then record s {
        worker = record {
          orders = load_orders now s.rows s.worker.orders;
          terminal = s.worker.terminal;
        };
        rows = expire_rows now s.rows;
      }
      else s

  -- The loop of `_persist`: `left` attempts may follow this one, and `fails` says which fail.
  unfoldable pub persist_from : (ℕ → Bool) → ℕ → ℕ → Bool
  persist_from fails zero attempt = not (fails attempt)
  persist_from fails (suc left) attempt =
      let again = persist_from fails left (suc attempt) in if fails attempt then again else true

  unfoldable pub persist : (ℕ → Bool) → Order → World → Bool × World
  unfolding persist_from
  persist fails o s =
      if persistent
      then (if persist_from fails 2 1
          then (true, record s { rows = upsert (full o) s.rows })
          else (false, s))
      else (true, s)

  abbrev initial_peak : OrderType → Side → Option Peak
  initial_peak trailing_stop buy = some neg_inf
  initial_peak trailing_stop sell = some pos_inf
  initial_peak _ _ = none

  abbrev pub fresh_order : ℕ → ℕ → Order → Order
  fresh_order k now o = record o {
    id = k;
    status = pending;
    created_at = now;
    peak_price = elim (o.peak_price) [ some p ↦ some p | none ↦ initial_peak o.type o.side ];
  }

  abbrev put_locally : Order → World → World
  put_locally p s = record s {
    worker = record { orders = set_order p s.worker.orders; terminal = s.worker.terminal };
  }

  abbrev finish_add : Order → Bool × World → Option Order × World
  finish_add p (true, s) = (
    some p,
    record s { events = order_pending p.id ∷ s.events; published = added p ∷ s.published },
  )
  finish_add p (false, s) = (
    none,
    record s {
      worker = record { orders = delete_order p.id s.worker.orders; terminal = s.worker.terminal };
    },
  )

  -- `none` when the order cannot be persisted; `k` is the new identifier.
  unfoldable pub add : (ℕ → Bool) → ℕ → ℕ → Order → World → Option Order × World
  unfolding persist
  add fails k now o s =
      finish_add (fresh_order k now o)
        (persist fails (fresh_order k now o) (put_locally (fresh_order k now o) s))

  unfoldable pub get_expired_from_source : ℕ → World → List Order
  get_expired_from_source now s =
      if persistent
      then (if s.reachable then due_orders now s.rows else [])
      else keep (is_due now) (get_all s.worker)

  -- `_cancelOne`: no look at the shared row, which it overwrites.
  unfoldable pub cancel_one : Reason → Order → World → World
  unfolding cancel_persisted
  cancel_one reason o s =
      announce_cancel o.id reason
        (release_margin_for o (cancel_persisted o.id cancelled (forget_locally o.id s)))

  unfoldable pub cancel_each : Reason → List Order → World → World
  cancel_each reason [] s = s
  cancel_each reason (o ∷ os) s = cancel_each reason os (cancel_one reason o s)

  abbrev pub in_group : ℕ → Order → Bool
  in_group g o = elim (o.oco_group) [ none ↦ false | some h ↦ h == g ]

  abbrev pub is_sibling : ℕ → ℕ → Order → Bool
  is_sibling g k o = in_group g o && (not (o.id == k) && is_pending o.status)

  -- After a claim: the order leaves this worker, its margin comes back, the others are told.
  abbrev pub settle_claim : Reason → Option Order × World → World
  settle_claim reason (none, s) = s
  settle_claim reason (some o, s) =
      announce_cancel o.id reason (release_margin_for o (forget_locally o.id s))

  -- The loop over the rows read from the database, for siblings on other workers.
  unfoldable pub claim_siblings : ℕ → ℕ → Reason → List Order → List Row → World → World
  claim_siblings g k reason handled [] s = s
  claim_siblings g k reason handled (stub j st ∷ rs) s = claim_siblings g k reason handled rs s
  claim_siblings g k reason handled (full o ∷ rs) s = claim_siblings g k reason handled rs (
      if is_sibling g k o && not (any (λ x. x.id == o.id) handled)
      then settle_claim reason (claim_status_change o.id cancelled none s)
      else s)

  -- `_cancelGroupSiblings`.
  unfoldable pub cancel_group_siblings : ℕ → ℕ → Reason → World → World
  cancel_group_siblings g k reason s =
      let siblings = keep (is_sibling g k) s.worker.orders in
      let t = cancel_each reason siblings s in
      if persistent && t.reachable then claim_siblings g k reason siblings t.rows t else t

  abbrev pub cancel_siblings : Option ℕ → ℕ → Reason → World → World
  cancel_siblings none k reason s = s
  cancel_siblings (some g) k reason s = cancel_group_siblings g k reason s

  unfoldable pub cancel_oco_siblings_on_trigger : ℕ → Option ℕ → World → World
  cancel_oco_siblings_on_trigger k g s = cancel_siblings g k oco_sibling_triggered s

  abbrev cancel_claimed : Option Order × World → Bool × World
  cancel_claimed (none, s) = (false, s)
  cancel_claimed (some o, s) = (
    true,
    cancel_siblings o.oco_group o.id oco_sibling_cancelled (settle_claim client_cancel (some o, s)),
  )

  unfoldable pub cancel : ℕ → ℕ → World → Bool × World
  cancel k u s = elim (get_order k s.worker.orders) [
    | some o ↦
        if (o.user == u) && is_pending o.status
        then (
          true,
          cancel_siblings o.oco_group o.id oco_sibling_cancelled (cancel_one client_cancel o s),
        )
        else (false, s)
    | none ↦
        if persistent
        then cancel_claimed (claim_status_change k cancelled (some u) s)
        else (false, s)
  ]

  abbrev trigger_claimed : ℕ → Option Order × World → Option Order × World
  trigger_claimed k (none, s) = (none, s)
  trigger_claimed k (some o, s) = (
    some o,
    record s {
      worker = record { orders = s.worker.orders; terminal = mark_terminal k s.worker.terminal };
    },
  )

  abbrev trigger_local : Order → ℕ → Option Order × World → Option Order × World
  trigger_local o k (none, s) = (none, forget_locally k s)
  trigger_local o k (some _, s) = (some (record o { status = triggered }), forget_locally k s)

  unfoldable pub mark_triggered : ℕ → World → Option Order × World
  mark_triggered k s = elim (get_order k s.worker.orders) [
    | some o ↦
        if is_pending o.status
        then (if persistent
            then trigger_local o k (claim_status_change k triggered none s)
            else (some (record o { status = triggered }), forget_locally k s))
        else (none, s)
    | none ↦
        if persistent then trigger_claimed k (claim_status_change k triggered none s) else (none, s)
  ]
