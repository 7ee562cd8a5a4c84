-- ===== src/Execution/Refused.antt =====
-- execution-service/execution.engine.ts: what a refused execution leaves, for an order that was sent
-- to the market and for a resting order, whose estimate of the margin is locked already.
use apiv.Base.{ℕ, ◌≡◌, refl, inl, inr, some, none, arith, Bool, ap, ◌∷◌, sym, ◌∙◌, if_keeps}
use apiv.Store.{Store, Error}
use apiv.Execution.Rows.{
  Refusal, margin_insufficient, Desk, Order, rejected, find_order, order_rejected, accepted, risk,
}
use apiv.Execution.Lifecycle.{moved, rejection, no_details, reject_order, transition}
use apiv.Execution.Found.{find_order-update_order_self}
use apiv.Execution.Setting.{Setting, Request, FillResult, release_pre_locked}
use apiv.Execution.Transaction.{Outcome, true_up, fill_tx, aborts, opened, unfunded, thrown}
use apiv.Execution.Engine.{Execution, refused_with, filled_as, turn_away, refuse, conclude, execute}
use apiv.Execution.Outcomes.{fill_tx-Ends}
use apiv.Execution.Ways.{accept, execute-Ways}

-- The order is rejected, with the reason, and nothing is filled.
abbrev pub IsRejected : Request → Refusal → Order → Desk → Desk → Type 0
IsRejected r why o d d' =
    (d'.fills ≡ d.fills)
    × (d'.outbox ≡ d.outbox)
    × (d'.registry ≡ d.registry)
    × (d'.messages ≡ order_rejected r.order why ∷ d.messages)
    × ((o' : Order) × (find_order r.order d'.orders ≡ some o')
        × (o'.status ≡ rejected)
        × (o'.rejection_reason ≡ some why)
        × (o'.filled_quantity ≡ o.filled_quantity))

module _ (e : Setting) (r : Request) (o : Order) where
  refuse-IsRejected :
      (why : Refusal) (d : Desk)
      → find_order r.order d.orders ≡ some o
      → IsRejected r why o d (refuse r why d)
  unfolding refuse reject_order transition moved
  refuse-IsRejected why d found = (
    refl,
    refl,
    refl,
    refl,
    (
      moved rejected risk (rejection why) o,
      find_order-update_order_self r.order (moved rejected risk (rejection why)) o d.orders refl
          found,
      refl,
      refl,
      refl,
    ),
  )

  pub accept_found :
      (d : Desk)
      → find_order r.order d.orders ≡ some o
      → find_order r.order (accept e r d).orders ≡ some (moved accepted risk no_details o)
  unfolding transition moved
  accept_found d found =
      find_order-update_order_self r.order (moved accepted risk no_details) o d.orders refl found

module _ (e : Setting) (r : Request) where
  moved_amount :
      (o : Order) → (moved accepted risk no_details o).filled_quantity ≡ o.filled_quantity
  unfolding moved
  moved_amount o = refl

  pub refuse_accepted :
      (why : Refusal) (o : Order) (s : Store) (d : Desk)
      → find_order r.order d.orders ≡ some o
      → IsRejected r why o d (refuse r why (record (accept e r d) { store = s }))
  unfolding transition moved
  refuse_accepted why o s d found =
      refuse-IsRejected e r (moved accepted risk no_details o) why
        (record (accept e r d) { store = s }) (accept_found e r o d found)

  abbrev Leaves : Refusal → Order → Desk → Desk → Type 0
  Leaves why o d d' = (d'.store ≡ d.store) × IsRejected r why o d d'

  turn_away_unlocked :
      (why : Refusal) (d : Desk) → r.pre_locked_margin ≡ none → turn_away e r why d ≡ refuse r why d
  unfolding turn_away refuse release_pre_locked reject_order transition
  turn_away_unlocked why d t = ground arith

  true_up_unlocked : (s : Store) → r.pre_locked_margin ≡ none → true_up r s ≡ s
  unfolding true_up
  true_up_unlocked s t = ground arith

  pub conclude_unfunded :
      (f : FillResult) (why : Error) (x : Outcome × Desk)
      → x.0 ≡ unfunded why
      → conclude e r f x
        ≡ (refused_with (margin_insufficient why), refuse r (margin_insufficient why) x.1)
  unfolding conclude
  conclude_unfunded f why x t = ground arith

  pub conclude_thrown :
      (f : FillResult) (why : Refusal) (x : Outcome × Desk)
      → x.0 ≡ thrown why
      → conclude e r f x ≡ (refused_with why, refuse r why x.1)
  unfolding conclude
  conclude_thrown f why x t = ground arith

  pub conclude_opened :
      (f : FillResult) (p : ℕ) (full : Bool) (x : Outcome × Desk)
      → x.0 ≡ opened p full
      → (conclude e r f x).0 ≡ filled_as p full
  unfolding conclude
  conclude_opened f p full x t = ground arith

  pub refused_one :
      (why why' : Refusal) → ◌≡◌ {A = Execution} (refused_with why) (refused_with why') → why ≡ why'
  refused_one why why' t = cc

  same_desk : (d : Desk) → r.pre_locked_margin ≡ none → record d { store = true_up r d.store } ≡ d
  same_desk d t = rw (true_up_unlocked d.store t) refl

  refuse-Leaves :
      (why : Refusal) (o : Order) (d : Desk)
      → find_order r.order d.orders ≡ some o
      → Leaves why o d (refuse r why d)
  unfolding refuse reject_order transition
  refuse-Leaves why o d found = (refl, refuse-IsRejected e r o why d found)

  refuse_accepted-Leaves :
      (why : Refusal) (o : Order) (d : Desk)
      → find_order r.order d.orders ≡ some o
      → Leaves why o d (refuse r why (accept e r d))
  unfolding refuse reject_order transition
  refuse_accepted-Leaves why o d found = (refl, refuse_accepted why o d.store d found)

  -- One refusal for another that it equals.
  as_refused :
      (o : Order) (d d' : Desk) (why why' : Refusal) (x : Execution × Desk)
      → x ≡ (refused_with why', d')
      → x.0 ≡ refused_with why
      → Leaves why' o d d'
      → Leaves why o d x.1
  as_refused o d d' why why' x eq t h =
      rw (eq, ← refused_one why' why (sym (ap (λ v. v.0) eq) ∙ t)) h

  conclude-Leaves :
      (f : FillResult) (why : Refusal) (o : Order) (d : Desk)
      → find_order r.order d.orders ≡ some o
      → r.pre_locked_margin ≡ none
      → (conclude e r f (fill_tx e r f (accept e r d))).0 ≡ refused_with why
      → Leaves why o d (conclude e r f (fill_tx e r f (accept e r d))).1
  conclude-Leaves f why o d found unlocked t =
      let x = fill_tx e r f (accept e r d) in
      elim (fill_tx-Ends e r f (accept e r d)) [
        | inl (p, full, done, opens) ↦ absurd (cc (conclude_opened f p full x done))
        | inr (inl (why', done, lacks, after)) ↦
            let same : x.1 ≡ accept e r d =
              after
              ∙ if_keeps (λ (y : Desk). y ≡ accept e r d) (aborts why') refl
                  (same_desk (accept e r d) unlocked) in
            as_refused o d (refuse r (margin_insufficient why') x.1) why (margin_insufficient why')
              (conclude e r f x) (conclude_unfunded f why' x done) t
              (rw same (refuse_accepted-Leaves (margin_insufficient why') o d found))
        | inr (inr (why', done, other, after)) ↦
            as_refused o d (refuse r why' x.1) why why' (conclude e r f x)
              (conclude_thrown f why' x done) t (rw after (refuse_accepted-Leaves why' o d found))
      ]

  -- A refused execution of an order with nothing locked beforehand, at whatever gate or check, leaves
  -- the wallets, the ledger, the positions and all else of the store, the fills, the outbox and the
  -- exposure registry as they were, announces the refusal, and leaves the order rejected with the
  -- reason and its filled quantity.
  pub execute_refused :
      (why : Refusal) (o : Order) (d : Desk)
      → find_order r.order d.orders ≡ some o
      → r.pre_locked_margin ≡ none
      → (execute e r d).0 ≡ refused_with why
      → Leaves why o d (execute e r d).1
  execute_refused why o d found unlocked t = elim (execute-Ways e r d) [
    | inl (why', t', x) ↦
        as_refused o d (turn_away e r why' d) why why' (execute e r d) x t
          (rw (turn_away_unlocked why' d unlocked) (refuse-Leaves why' o d found))
    | inr (inl (why', t', x)) ↦
        as_refused o d (turn_away e r why' (accept e r d)) why why' (execute e r d) x t (
          rw (turn_away_unlocked why' (accept e r d) unlocked)
            (refuse_accepted-Leaves why' o d found))
    | inr (inr (f, t', inl x)) ↦ absurd (cc (ap (λ v. v.0) x))
    | inr (inr (f, t', inr x)) ↦
        rw x (conclude-Leaves f why o d found unlocked (sym (ap (λ v. v.0) x) ∙ t))
  ]
