-- ===== src/Execution/Resting.antt =====
-- execution-service/execution.engine.ts: a resting order that the transaction of its fill refuses, and
-- the estimate of its margin that was locked when it was placed.
use apiv.Base.{
  ℕ, ◌≡◌, ◌≢◌, refl, ◌⊎◌, inl, inr, Option, some, none, arith, Bool-cases, true, false, ap, sym,
  ◌∙◌, if◌then◌else◌, if_keeps,
}
use apiv.Base.Int.{ℤ, pos, neg, ◌+ℤ◌, ◌-ℤ◌, ◌≤ℤ◌, ltb_ℤ-cases, -ℤ_parts, eq_of_parts}
use apiv.Store.{Store, Wallet, Error, Quote, insufficient_margin, check_violation}
use apiv.Store.Tables.{find_wallet, add_locked, find_wallet-add_locked_self}
use apiv.Settlement.Engine.{release_of}
use apiv.Margin.Controller.{refused, check_and_lock, release_margin_tx, can_lock, eq_ℤ}
use apiv.Margin.Release.{release_of_exact, plus_neg}
use apiv.Execution.Rows.{Refusal, margin_insufficient, Desk, Order, find_order}
use apiv.Execution.Lifecycle.{transition, reject_order}
use apiv.Execution.Setting.{
  Setting, Request, FillResult, entry_gate, price_gate, passed, real_margin,
}
use apiv.Execution.Transaction.{true_up, fill_tx, aborts}
use apiv.Execution.Engine.{Execution, refused_with, refuse, execute}
use apiv.Execution.Outcomes.{fill_tx-Ends, is_for_margin}
use apiv.Execution.Ways.{accept, execute_passed}
use apiv.Execution.Refused.{
  IsRejected, refuse_accepted, conclude_opened, conclude_unfunded, conclude_thrown, refused_one,
}

module _ (u order : ℕ) (a : ℤ) (w : Wallet) (s : Store) (found : find_wallet u s.wallets ≡ some w)
    (exact : release_of w.locked a ≡ a) where
  release_none : eq_ℤ a (pos 0) ≡ true → (release_margin_tx u order a s).1.wallets ≡ s.wallets
  unfolding release_margin_tx
  release_none t = ground arith

  release_some :
      eq_ℤ a (pos 0) ≡ false
      → (release_margin_tx u order a s).1.wallets ≡ add_locked u (neg a) s.wallets
  unfolding release_margin_tx
  release_some t = ground arith

pub minus_zero : (x a : ℤ) → eq_ℤ a (pos 0) ≡ true → x -ℤ a ≡ x
minus_zero x a t = eq_of_parts (x -ℤ a) x (ground (arith, -ℤ_parts x a))

pub release_found :
    (u order : ℕ) (a : ℤ) (w : Wallet) (s : Store)
    → find_wallet u s.wallets ≡ some w
    → pos 0 ≤ℤ a
    → a ≤ℤ w.locked
    → find_wallet u (release_margin_tx u order a s).1.wallets
      ≡ some (record w { locked = w.locked -ℤ a })
release_found u order a w s found h k =
    let exact = release_of_exact w.locked a h k in
    elim (Bool-cases (eq_ℤ a (pos 0))) [
      | inl t ↦ rw (release_none u order a w s found exact t, minus_zero w.locked a t) found
      | inr t ↦
          rw (release_some u order a w s found exact t, ← plus_neg w.locked a)
            (find_wallet-add_locked_self u (neg a) w s.wallets found)
    ]

refused_lock :
    (quotes : ℕ → Option Quote) (u order : ℕ) (a : ℤ) (why : Error) (w : Wallet) (s : Store)
    → find_wallet u s.wallets ≡ some w
    → (check_and_lock quotes u order a s).0 ≡ refused why
    → (why ≡ insufficient_margin) ⊎ (why ≡ check_violation)
unfolding check_and_lock
refused_lock quotes u order a why w s found t = elim (Bool-cases (can_lock quotes w a s)) [
  | inl can ↦ elim (ltb_ℤ-cases (w.locked +ℤ a) (pos 0)) [
    | inl (t', h) ↦ inr (ground arith)
    | inr (t', h) ↦ absurd (ground arith)
  ]
  | inr can ↦ inl (ground arith)
]

module _ (e : Setting) (r : Request) where
  -- The estimate is free again, or all is as it was.
  abbrev pub Estimate : Refusal → ℤ → Wallet → Desk → Desk → Type 0
  Estimate why a w d d' =
      ((why ≡ margin_insufficient insufficient_margin)
        × (find_wallet r.user d'.store.wallets ≡ some (record w { locked = w.locked -ℤ a })))
      ⊎ ((why ≢ margin_insufficient insufficient_margin) × (d'.store ≡ d.store))

  true_up_found :
      (a : ℤ) (w : Wallet) (s : Store)
      → find_wallet r.user s.wallets ≡ some w
      → r.pre_locked_margin ≡ some a
      → pos 0 ≤ℤ a
      → a ≤ℤ w.locked
      → find_wallet r.user (true_up r s).wallets ≡ some (record w { locked = w.locked -ℤ a })
  unfolding true_up
  true_up_found a w s found resting h k =
      rw (resting, true_up) (release_found r.user r.order a w s found h k)

  aborted : (why : Error) (d x : Desk) → why ≡ check_violation → (if aborts why then d else x) ≡ d
  aborted why d x t = ground arith

  committed :
      (why : Error) (d x : Desk) → why ≡ insufficient_margin → (if aborts why then d else x) ≡ x
  committed why d x t = ground arith

  other_ne :
      (why : Refusal) → is_for_margin why ≡ false → why ≢ margin_insufficient insufficient_margin
  other_ne why t eq = ground arith

  violation_ne :
      (why : Error)
      → why ≡ check_violation
      → margin_insufficient why ≢ margin_insufficient insufficient_margin
  violation_ne why t eq = ground arith

  unfunded-Estimate :
      (f : FillResult) (why : Error) (a : ℤ) (w : Wallet) (d d' : Desk)
      → find_wallet r.user d.store.wallets ≡ some w
      → r.pre_locked_margin ≡ some a
      → pos 0 ≤ℤ a
      → a ≤ℤ w.locked
      → (check_and_lock e.quotes r.user r.order (real_margin e.rounding r f) (true_up r d.store)).0
        ≡ refused why
      → d' ≡ (if aborts why then d else record d { store = true_up r d.store })
      → Estimate (margin_insufficient why) a w d d'
  unfunded-Estimate f why a w d d' found resting h k lacks eq =
      let freed = true_up_found a w d.store found resting h k in
      elim (refused_lock e.quotes r.user r.order (real_margin e.rounding r f) why
        (record w { locked = w.locked -ℤ a }) (true_up r d.store) freed lacks) [
          | inl t ↦ inl (
            ap margin_insufficient t,
            rw (eq ∙ committed why d (record d { store = true_up r d.store }) t) freed,
          )
          | inr t ↦ inr (
            violation_ne why t,
            ap (λ (x : Desk). x.store)
                (eq ∙ aborted why d (record d { store = true_up r d.store }) t),
          )
        ]

  accepted_store : (d : Desk) → (accept e r d).store ≡ d.store
  unfolding transition
  accepted_store d = refl

  abbrev Both : Refusal → ℤ → Wallet → Order → Desk → Desk → Type 0
  Both why a w o d d' = IsRejected r why o d d' × Estimate why a w d d'

  refuse-Estimate :
      (why : Refusal) (a : ℤ) (w : Wallet) (d x : Desk)
      → Estimate why a w d x
      → Estimate why a w d (refuse r why x)
  unfolding refuse reject_order transition
  refuse-Estimate why a w d x h = h

  refused_as :
      (a : ℤ) (w : Wallet) (o : Order) (d d' : Desk) (why why' : Refusal) (x : Execution × Desk)
      → x ≡ (refused_with why', d')
      → x.0 ≡ refused_with why
      → Both why' a w o d d'
      → Both why a w o d x.1
  refused_as a w o d d' why why' x eq t h =
      rw (eq, ← refused_one e r why' why (sym (ap (λ v. v.0) eq) ∙ t)) h

  -- A resting order whose estimate of the margin is locked, which passes the gates and is then refused
  -- in the transaction of its fill, ends rejected either way, with nothing filled. Refused for lack of
  -- margin, the estimate has been taken out of the locked margin. Refused for any other reason, the
  -- store is as it was, with the estimate still locked for an order that is over.
  pub execute_resting_refused :
      (f : FillResult) (why : Refusal) (a : ℤ) (w : Wallet) (o : Order) (d : Desk)
      → find_order r.order d.orders ≡ some o
      → find_wallet r.user d.store.wallets ≡ some w
      → r.pre_locked_margin ≡ some a
      → pos 0 ≤ℤ a
      → a ≤ℤ w.locked
      → entry_gate e ≡ none
      → price_gate e r ≡ passed f
      → (execute e r d).0 ≡ refused_with why
      → IsRejected r why o d (execute e r d).1 × Estimate why a w d (execute e r d).1
  unfolding transition
  execute_resting_refused f why a w o d here found resting h k entered priced t =
      let d1 = accept e r d in
      let x = fill_tx e r f d1 in
      elim (execute_passed e r f d entered priced) [
        | inl z ↦ absurd (cc (ap (λ v. v.0) z))
        | inr z ↦ elim (fill_tx-Ends e r f d1) [
          | inl (p, full, done, opens) ↦
              absurd (cc (ap (λ v. v.0) z, conclude_opened e r f p full x done))
          | inr (inl (why', done, lacks, after)) ↦
              let m = margin_insufficient why' in
              refused_as a w o d (refuse r m x.1) why m (execute e r d)
                (z ∙ conclude_unfunded e r f why' x done) t
                (
                  rw after (
                      if_keeps (λ (y : Desk). IsRejected r m o d (refuse r m y)) (aborts why')
                        (refuse_accepted e r m o d.store d here)
                        (refuse_accepted e r m o (true_up r d1.store) d here)),
                  refuse-Estimate m a w d x.1
                      (unfunded-Estimate f why' a w d1 x.1 found resting h k lacks after),
                )
          | inr (inr (why', done, other, after)) ↦
              refused_as a w o d (refuse r why' x.1) why why' (execute e r d)
                (z ∙ conclude_thrown e r f why' x done) t
                (
                  rw after (refuse_accepted e r why' o d.store d here),
                  refuse-Estimate why' a w d x.1
                      (inr (other_ne why' other, ap (λ (y : Desk). y.store) after)),
                )
        ]
      ]
