-- ===== src/Execution/Remainder.antt =====
-- trading-service/order.controller.ts: the remainder of a pending order, parked again.
use apiv.Base.{
  ℕ, ◌≡◌, refl, ◌⊎◌, inl, inr, Option, some, none, Bool, true, false, arith, Option-cases, sym, ap,
  ◌∙◌,
}
use apiv.Base.Int.{ℤ, pos, ◌+ℤ◌, ◌*ℤ◌, ◌≤ℤ◌, ◌<ℤ◌, ltb_ℤ-cases}
use apiv.Store.{Wallet, Quote}
use apiv.Store.Tables.{find_wallet}
use apiv.Ledger.Balance.{scale}
use apiv.Margin.Controller.{Verdict, granted, refused, check_and_lock, write_lock, equity_of}
use apiv.Margin.Gate.{check_and_lock_granted, check_and_lock_room}
use apiv.Orders.Book.{Order, World, get_order, pending}
use apiv.Orders.Operations.{fresh_order, persist, add}
use apiv.Orders.Placing.{get_order-set_order}
use apiv.Execution.Rows.{Desk}
use apiv.Execution.Setting.{Rounding, Setting, FillResult}
use apiv.Execution.Engine.{Execution, refused_with, filled_as, invalid_leverage, execute}
use apiv.Execution.Pending.{
  Market, Ending, requeued, request_of, remainder_margin, remainder_of, requeue, after_execution,
  execute_pending,
}

Verdict-cases : (v : Verdict) → (v ≡ granted) ⊎ ((why : _) × (v ≡ refused why))
Verdict-cases granted = inl refl
Verdict-cases (refused why) = inr (why, refl)

-- The order that is parked for what remains of `p`.
abbrev pub IsRemainder : Rounding → Order → (remaining price : ℤ) → Order → Type 0
IsRemainder n p remaining price o =
    (o.order_id ≡ p.order_id)
    × (o.user ≡ p.user)
    × (o.symbol ≡ p.symbol)
    × (o.side ≡ p.side)
    × (o.type ≡ p.type)
    × (o.quantity ≡ remaining)
    × (o.trigger_price ≡ price)
    × (o.leverage ≡ p.leverage)
    × (o.margin_required ≡ n.share remaining p.quantity p.margin_required)
    × (o.status ≡ pending)
    × (o.expires_at ≡ none)
    × (o.oco_group ≡ none)

fresh_order-IsRemainder :
    (persistent : Bool) (k now : ℕ) (n : Rounding) (p : Order) (remaining price : ℤ)
    → IsRemainder n p remaining price
        (fresh_order persistent k now (remainder_of n p remaining price))
unfolding remainder_margin
fresh_order-IsRemainder persistent k now n p remaining price =
    (refl, refl, refl, refl, refl, refl, refl, refl, refl, refl, refl, refl)

module _ (persistent : Bool) (fails : ℕ → Bool) (k now : ℕ) where
  add_kept :
      (o o' : Order) (b : World)
      → (add persistent fails k now o b).0 ≡ some o'
      → (o' ≡ fresh_order persistent k now o)
        × (get_order k (add persistent fails k now o b).1.worker.orders ≡ some o')
  unfolding add persist
  add_kept o o' b t =
      let kept = get_order-set_order (fresh_order persistent k now o) b.worker.orders in
      (ground arith, ground (arith, kept))

  module _ (quotes : ℕ → Option Quote) where
    -- What a parked remainder comes with.
    abbrev pub Rests :
        Rounding → Order → (remaining price : ℤ) → Order → Desk → Desk → World → Type 0
    Rests n p remaining price o d d' b' =
        let margin = n.share remaining p.quantity p.margin_required in
        IsRemainder n p remaining price o
        × (get_order k b'.worker.orders ≡ some o)
        × (w : Wallet) × (find_wallet p.user d.store.wallets ≡ some w)
        × (d'.store ≡ write_lock p.user p.order_id margin d.store)
        × ((w.locked +ℤ margin) *ℤ scale ≤ℤ equity_of quotes w d.store)

    parts :
        (n : Rounding) (p : Order) (remaining price : ℤ) (o : Order) (d : Desk) (b : World)
        → let locked =
            check_and_lock quotes p.user p.order_id (remainder_margin n p remaining) d.store in
          let saved = add persistent fails k now (remainder_of n p remaining price) b in
          let out = requeue persistent fails k now quotes n p remaining price d b in
          out.0 ≡ requeued o
          → (locked.0 ≡ granted)
            × (saved.0 ≡ some o)
            × (out ≡ (requeued o, record d { store = locked.1 }, saved.1))
    unfolding requeue
    parts n p remaining price o d b t =
        let margin = remainder_margin n p remaining in
        let locked = check_and_lock quotes p.user p.order_id margin d.store in
        elim (Verdict-cases locked.0) [
          | inr (why, t') ↦ absurd (ground arith)
          | inl t' ↦
              elim (Option-cases
                (add persistent fails k now (remainder_of n p remaining price) b).0) [
                  | inl t'' ↦ absurd (ground arith)
                  | inr (o', t'') ↦ (t', ground arith, ground arith)
                ]
        ]

    requeue-Rests :
        (n : Rounding) (p : Order) (remaining price : ℤ) (o : Order) (d : Desk) (b : World)
        → (requeue persistent fails k now quotes n p remaining price d b).0 ≡ requeued o
        → let (_, d', b') = requeue persistent fails k now quotes n p remaining price d b in
          Rests n p remaining price o d d' b'
    unfolding remainder_margin
    requeue-Rests n p remaining price o d b t =
        let u = p.user in
        let margin = remainder_margin n p remaining in
        let (locked, saved, out) = parts n p remaining price o d b t in
        let (fresh, kept) = add_kept (remainder_of n p remaining price) o b saved in
        let (w, found, nonneg, after) =
          check_and_lock_granted quotes u p.order_id margin d.store locked in
        let (solvent, room) =
          check_and_lock_room quotes u p.order_id margin w d.store found locked in
        let fields = fresh_order-IsRemainder persistent k now n p remaining price in
        rw out (rw fresh fields, kept, w, found, after, room)

    outcome-Rests :
        (n : Rounding) (p : Order) (remaining price : ℤ) (o : Order) (d : Desk) (b : World)
        → (x : Ending × Desk × World)
        → x ≡ requeue persistent fails k now quotes n p remaining price d b
        → x.0 ≡ requeued o
        → Rests n p remaining price o d x.1 x.2
    outcome-Rests n p remaining price o d b x same t =
        rw same (requeue-Rests n p remaining price o d b (sym (ap (λ y. y.0) same) ∙ t))

    passes_on :
        (m : Market) (e : Setting) (p : Order) (price : ℤ) (o : Order) (d : Desk) (b : World)
        → (execute_pending persistent fails k now m quotes e p price d b).0 ≡ requeued o
        → execute_pending persistent fails k now m quotes e p price d b
          ≡ after_execution persistent fails k now quotes e p price (execute e (request_of p) d) b
    unfolding execute_pending
    passes_on m e p price o d b t = ground arith

    leaves :
        (e : Setting) (p : Order) (price : ℤ) (x : Execution × Desk) (o : Order) (b : World)
        → (after_execution persistent fails k now quotes e p price x b).0 ≡ requeued o
        → (f : FillResult) × (e.fill ≡ some f)
          × (pos 0 <ℤ f.remaining_quantity)
          × (after_execution persistent fails k now quotes e p price x b
              ≡ requeue persistent fails k now quotes e.rounding p f.remaining_quantity price x.1 b)
    unfolding after_execution
    leaves e p price (refused_with why, d) o b t = absurd (ground arith)
    leaves e p price (invalid_leverage, d) o b t = absurd (ground arith)
    leaves e p price (filled_as _ true, d) o b t = absurd (ground arith)
    leaves e p price (filled_as _ false, d) o b t = elim (Option-cases e.fill) [
      | inl t' ↦ absurd (ground arith)
      | inr (f, t') ↦ elim (ltb_ℤ-cases (pos 0) f.remaining_quantity) [
        | inl (t'', h) ↦ (f, t', h, rw (t', t'') refl)
        | inr (t'', h) ↦ absurd (ground arith)
      ]
    ]

    -- When a remainder is parked again, the execution left a quantity above zero, and an order for exactly
    -- that quantity is in the worker's book, under the order's own id, at the price that the pending
    -- order was to be executed at, without its expiry and group; its share of the order's margin is
    -- locked on top of what the client has locked after the execution, within the equity.
    pub execute_pending-Rests :
        (m : Market) (e : Setting) (p : Order) (price : ℤ) (o : Order) (d : Desk) (b : World)
        → (execute_pending persistent fails k now m quotes e p price d b).0 ≡ requeued o
        → let (_, d', b') = execute_pending persistent fails k now m quotes e p price d b in
          (f : FillResult) × (e.fill ≡ some f)
          × (pos 0 <ℤ f.remaining_quantity)
          × Rests e.rounding p f.remaining_quantity price o (execute e (request_of p) d).1 d' b'
    execute_pending-Rests m e p price o d b t =
        let through = passes_on m e p price o d b t in
        let (f, filled, above, parked) =
          leaves e p price (execute e (request_of p) d) o b (sym (ap (λ y. y.0) through) ∙ t) in
        let ends = execute_pending persistent fails k now m quotes e p price d b in
        let after = (execute e (request_of p) d).1 in
        let rests =
          outcome-Rests e.rounding p f.remaining_quantity price o after b ends (through ∙ parked)
            t in
        (f, filled, above, rests)
