-- ===== src/Execution/Filled.antt =====
-- execution-service/execution.engine.ts: a whole execution that fills an order in full.
use apiv.Base.{ℕ, ◌≡◌, refl, inl, inr, Option, some, Bool, false, ap, ◌∷◌, sym, ◌∙◌, arith}
use apiv.Base.Int.{pos, ◌+ℤ◌, ◌*ℤ◌, ◌≤ℤ◌, leb_ℤ}
use apiv.Store.{Wallet}
use apiv.Store.Tables.{find_wallet}
use apiv.Ledger.Balance.{scale}
use apiv.Margin.Controller.{equity_of}
use apiv.Execution.Rows.{Desk, Order, find_order, accepted, risk}
use apiv.Execution.Lifecycle.{position_of, with_leg, is_full, moved, transition, no_details}
use apiv.Execution.Found.{find_order-update_order_self, fill_status}
use apiv.Execution.Setting.{Setting, Request, FillResult, Gate, price_gate, passed, is_partial}
use apiv.Execution.Transaction.{fill_tx, position_for, fill_for, outbox_row, opened, Outcome}
use apiv.Execution.Engine.{Execution, filled_as, conclude, finish, release_unused, execute}
use apiv.Execution.Outcomes.{IsOpened, fill_tx-Ends}
use apiv.Execution.Refused.{accept_found, conclude_unfunded, conclude_thrown}
use apiv.Execution.Opened.{
  estimate_of, wallet_after, opened_wallet, opened_equity, charged_store-positions,
}
use apiv.Execution.Ways.{accept, execute-Ways}

module _ (e : Setting) (r : Request) where
  passed_one : (f f' : FillResult) → ◌≡◌ {A = Gate} (passed f) (passed f') → f ≡ f'
  passed_one f f' = cc

  conclude-finish :
      (f : FillResult) (p : ℕ) (full : Bool) (x : Outcome × Desk)
      → x.0 ≡ opened p full
      → conclude e r f x ≡ (filled_as p full, finish e r f p x.1)
  unfolding conclude
  conclude-finish f p full x t = ground arith

  filled_one :
      (p p' : ℕ) (full full' : Bool)
      → ◌≡◌ {A = Execution} (filled_as p full) (filled_as p' full')
      → (p ≡ p') × (full ≡ full')
  filled_one p p' full full' t = (cc, cc)

  some_one : (x y : Order) → ◌≡◌ {A = Option Order} (some x) (some y) → x ≡ y
  some_one x y t = cc

  -- The transaction behind a filled execution.
  pub execute_filled :
      (f : FillResult) (p : ℕ) (full : Bool) (d : Desk)
      → price_gate e r ≡ passed f
      → (execute e r d).0 ≡ filled_as p full
      → (d' : Desk) × IsOpened e r f (accept e r d) p full d'
        × ((execute e r d).1 ≡ finish e r f p d')
  execute_filled f p full d priced t = elim (execute-Ways e r d) [
    | inl (why, t', x) ↦ absurd (cc (ap (λ v. v.0) x))
    | inr (inl (why, t', x)) ↦ absurd (cc (ap (λ v. v.0) x))
    | inr (inr (f', t', inl x)) ↦ absurd (cc (ap (λ v. v.0) x))
    | inr (inr (f', t', inr x)) ↦
        let same : f' ≡ f = passed_one f' f (sym t' ∙ priced) in
        let y = fill_tx e r f (accept e r d) in
        let x' : execute e r d ≡ conclude e r f y =
          x ∙ ap (λ (g : FillResult). conclude e r g (fill_tx e r g (accept e r d))) same in
        elim (fill_tx-Ends e r f (accept e r d)) [
          | inl (p', full', done, opens) ↦
              let z = x' ∙ conclude-finish f p' full' y done in
              let (one, two) = filled_one p' p full' full (sym (ap (λ v. v.0) z) ∙ t) in
              rw (← one, ← two) (y.1, opens, ap (λ v. v.1) z)
          | inr (inl (why', done, lacks, after)) ↦
              absurd (cc (ap (λ v. v.0) x', ap (λ v. v.0) (conclude_unfunded e r f why' y done)))
          | inr (inr (why', done, other, after)) ↦
              absurd (cc (ap (λ v. v.0) x', ap (λ v. v.0) (conclude_thrown e r f why' y done)))
        ]
  ]

  pub finish_whole :
      (f : FillResult) (p : ℕ) (d : Desk)
      → is_partial f ≡ false
      → (finish e r f p d).store ≡ d.store
  unfolding finish release_unused
  finish_whole f p d t = rw t refl

  pub execute_filled-positions :
      (f : FillResult) (p : ℕ) (full : Bool) (d : Desk)
      → is_partial f ≡ false
      → price_gate e r ≡ passed f
      → (execute e r d).0 ≡ filled_as p full
      → (execute e r d).1.store.positions
        ≡ position_of (position_for e.rounding r f) p ∷ d.store.positions
  unfolding transition
  execute_filled-positions f p full d whole priced t =
      let (d', opens, after) = execute_filled f p full d priced t in
      let kept = charged_store-positions e r f p full (accept e r d) d' opens in
      rw (after, finish_whole f p d' whole, opens.writes, opens.takes_id)
        (ap (λ ps. position_of (position_for e.rounding r f) opens.charged.next_id ∷ ps) kept)

  module _ (f : FillResult) (p : ℕ) (full : Bool) (w : Wallet) (o : Order) (d : Desk) where
    -- What is written for the position `p`.
    abbrev pub Writes : Desk → Type 0
    Writes d' =
        (find_wallet r.user d'.store.wallets ≡ some (wallet_after e r f w))
        × (d'.store.positions ≡ position_of (position_for e.rounding r f) p ∷ d.store.positions)
        × (d'.fills ≡ fill_for r f p ∷ d.fills)
        × (d'.outbox ≡ outbox_row full r.order p r.user ∷ d.outbox)
        × ((o' : Order) × (find_order r.order d'.orders ≡ some o')
            × (o'.filled_quantity ≡ o.filled_quantity +ℤ f.filled_quantity)
            × (o'.status ≡ fill_status o')
            × (full ≡ leb_ℤ o'.quantity o'.filled_quantity))

    -- An execution that fills an order, by a fill that is not partial, takes from the client's wallet
    -- the fee out of the balance and, in place of the estimate that was locked for a resting order, the
    -- real margin into the locked margin, which the client's equity before the fill covers. It writes
    -- the position, the fill and the outbox row, adds the filled quantity to the order, and says that
    -- the order is filled exactly if that reaches the order's quantity.
    pub execute_fills :
        find_order r.order d.orders ≡ some o
        → find_wallet r.user d.store.wallets ≡ some w
        → pos 0 ≤ℤ estimate_of r
        → estimate_of r ≤ℤ w.locked
        → pos 0 ≤ℤ f.fees
        → is_partial f ≡ false
        → price_gate e r ≡ passed f
        → (execute e r d).0 ≡ filled_as p full
        → Writes (execute e r d).1
          × ((wallet_after e r f w).locked *ℤ scale ≤ℤ equity_of e.quotes w d.store)
    unfolding transition moved with_leg is_full finish
    execute_fills found funded h k fees whole priced t =
        let (d', opens, after) = execute_filled f p full d priced t in
        let wallet = opened_wallet e r f p full (accept e r d) d' opens w funded h k fees in
        let equity = opened_equity e r f p full (accept e r d) d' opens w funded h k in
        let row = opens.row in
        let same : row ≡ moved accepted risk no_details o =
          some_one row (moved accepted risk no_details o)
            (sym opens.found ∙ accept_found e r o d found) in
        let o' = with_leg f.filled_quantity f.average_price f.slippage f.fees row in
        let leg =
          find_order-update_order_self r.order
            (with_leg f.filled_quantity f.average_price f.slippage f.fees) row (accept e r d).orders
            refl opens.found in
        rw after (
          (
            rw (finish_whole f p d' whole) wallet,
            rw (← ap (λ (x : Desk). x.store.positions) after)
                (execute_filled-positions f p full d whole priced t),
            rw (opens.writes, opens.takes_id) refl,
            rw (opens.writes, opens.takes_id) refl,
            (
              o',
              rw opens.writes leg,
              ap (λ (x : Order). x.filled_quantity +ℤ f.filled_quantity) same,
              refl,
              opens.fullness,
            ),
          ),
          equity,
        )
