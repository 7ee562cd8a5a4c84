-- ===== src/Execution/Opened.antt =====
-- execution-service/execution.engine.ts: what an execution that fills an order has taken and written.
use apiv.Base.{ℕ, ◌≡◌, refl, inl, inr, some, arith, Option-cases, Bool, ap, sym, ◌∙◌, or_else}
use apiv.Base.Int.{ℤ, pos, ◌+ℤ◌, ◌-ℤ◌, ◌*ℤ◌, ◌≤ℤ◌, -ℤ_parts, eq_of_parts}
use apiv.Store.{Store, Wallet}
use apiv.Store.Tables.{find_wallet, find_wallet-add_locked_self, find_wallet-set_balance_self}
use apiv.Ledger.Balance.{scale}
use apiv.Margin.Controller.{write_lock, equity_of}
use apiv.Margin.Gate.{check_and_lock_granted, check_and_lock_room}
use apiv.Execution.Rows.{Desk}
use apiv.Execution.Setting.{Setting, Request, FillResult, real_margin}
use apiv.Execution.Transaction.{charge_fee, true_up}
use apiv.Execution.Charges.{release_tx_cases, charge_fee_cases}
use apiv.Execution.Outcomes.{IsOpened}
use apiv.Execution.Resting.{minus_zero, release_found}

-- The estimate that is locked beforehand, or zero.
abbrev pub estimate_of : Request → ℤ
estimate_of r = or_else r.pre_locked_margin (pos 0)

minus_none : (x y : ℤ) → y ≤ℤ pos 0 → pos 0 ≤ℤ y → x -ℤ y ≡ x
minus_none x y h k = eq_of_parts (x -ℤ y) x (omega (arith, -ℤ_parts x y))

module _ (r : Request) (f : FillResult) where
  true_up-positions : (s : Store) → (true_up r s).positions ≡ s.positions
  unfolding true_up
  true_up-positions s = elim (Option-cases r.pre_locked_margin) [
    | inl t ↦ ground arith
    | inr (a, t) ↦ elim (release_tx_cases r.user r.order a s) [
      | inl same ↦ rw (t, true_up, same) refl
      | inr (w, found, same) ↦ rw (t, true_up, same) refl
    ]
  ]

  true_up_wallet :
      (w : Wallet) (s : Store)
      → find_wallet r.user s.wallets ≡ some w
      → pos 0 ≤ℤ estimate_of r
      → estimate_of r ≤ℤ w.locked
      → find_wallet r.user (true_up r s).wallets
        ≡ some (record w { locked = w.locked -ℤ estimate_of r })
  unfolding true_up
  true_up_wallet w s found h k = elim (Option-cases r.pre_locked_margin) [
    | inl t ↦ rw (t, true_up, minus_zero w.locked (pos 0) refl) found
    | inr (a, t) ↦
        let same : estimate_of r ≡ a = rw t refl in
        rw (t, true_up) (release_found r.user r.order a w s found (rw (← same) h) (rw (← same) k))
  ]

  charged_wallet :
      (w : Wallet) (s s' : Store)
      → find_wallet r.user s.wallets ≡ some w
      → pos 0 ≤ℤ f.fees
      → charge_fee r f s ≡ some s'
      → find_wallet r.user s'.wallets ≡ some (record w { balance = w.balance -ℤ f.fees })
  charged_wallet w s s' found h t = elim (charge_fee_cases r f s s' t) [
    | inl (free, same) ↦ rw (same, minus_none w.balance f.fees free h) found
    | inr (w', found', due, covered, same) ↦
        let eq : w' ≡ w = cc in
        rw (same, eq) (find_wallet-set_balance_self r.user (w.balance -ℤ f.fees) w s.wallets found)
  ]

  charged-positions : (s s' : Store) → charge_fee r f s ≡ some s' → s'.positions ≡ s.positions
  charged-positions s s' t = elim (charge_fee_cases r f s s' t) [
    | inl (free, same) ↦ rw same refl
    | inr (w, found, due, covered, same) ↦ rw same refl
  ]

-- The wallet once the estimate is released, the margin is locked and the fee is charged.
abbrev pub wallet_after : Setting → Request → FillResult → Wallet → Wallet
wallet_after e r f w = record w {
  balance = w.balance -ℤ f.fees;
  locked = w.locked -ℤ estimate_of r +ℤ real_margin e.rounding r f;
}

module _ (e : Setting) (r : Request) (f : FillResult) (p : ℕ) (full : Bool) (d d' : Desk)
    (o : IsOpened e r f d p full d') where
  locked_writes :
      o.locked ≡ write_lock r.user r.order (real_margin e.rounding r f) (true_up r d.store)
  locked_writes =
      let (w, found, nonneg, after) =
        check_and_lock_granted e.quotes r.user r.order (real_margin e.rounding r f)
          (true_up r d.store) (ap (λ v. v.0) o.grants) in
      sym (ap (λ v. v.1) o.grants) ∙ after

  pub locked-positions : o.locked.positions ≡ d.store.positions
  locked-positions = rw locked_writes (true_up-positions r f d.store)

  pub charged_store-positions : o.charged.positions ≡ d.store.positions
  charged_store-positions = charged-positions r f o.locked o.charged o.charges ∙ locked-positions

  module _ (w : Wallet) (found : find_wallet r.user d.store.wallets ≡ some w)
      (estimated : pos 0 ≤ℤ estimate_of r) (held : estimate_of r ≤ℤ w.locked) where
    abbrev freed : Wallet
    freed = record w { locked = w.locked -ℤ estimate_of r }

    freed_found : find_wallet r.user (true_up r d.store).wallets ≡ some freed
    freed_found = true_up_wallet r f w d.store found estimated held

    locked_found :
        find_wallet r.user o.locked.wallets
        ≡ some (record w { locked = w.locked -ℤ estimate_of r +ℤ real_margin e.rounding r f })
    locked_found = rw locked_writes (
        find_wallet-add_locked_self r.user (real_margin e.rounding r f) freed
          (true_up r d.store).wallets freed_found)

    pub opened_wallet :
        pos 0 ≤ℤ f.fees → find_wallet r.user d'.store.wallets ≡ some (wallet_after e r f w)
    opened_wallet fees = rw o.writes (
        charged_wallet r f
          (record w { locked = w.locked -ℤ estimate_of r +ℤ real_margin e.rounding r f }) o.locked
          o.charged locked_found fees o.charges)

    equity_freed : equity_of e.quotes freed (true_up r d.store) ≡ equity_of e.quotes w d.store
    unfolding equity_of
    equity_freed = rw (true_up-positions r f d.store) refl

    pub opened_equity :
        (w.locked -ℤ estimate_of r +ℤ real_margin e.rounding r f) *ℤ scale
        ≤ℤ equity_of e.quotes w d.store
    opened_equity =
        let (solvent, room) =
          check_and_lock_room e.quotes r.user r.order (real_margin e.rounding r f) freed
            (true_up r d.store) freed_found (ap (λ v. v.0) o.grants) in
        rw (← equity_freed) room
