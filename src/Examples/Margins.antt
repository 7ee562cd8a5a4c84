-- ===== src/Examples/Margins.antt =====
-- Margin locks, releases, repairs and sweeps on a small store.
use apiv.Base.{ℕ, ◌≡◌, ◌≢◌, refl, Option, none, some, List, [], ◌∷◌, true, ◌⊎◌, arith, All, ◌==◌}
use apiv.Base.Int.{pos, ◌+ℤ◌, ◌-ℤ◌, ◌*ℤ◌, ◌≤ℤ◌, ◌<ℤ◌}
use apiv.Store.{Quote, insufficient_margin, pnl_credit, text_ref}
use apiv.Store.Tables.{find_wallet}
use apiv.Wallet.Reconciliation.{IsReconciled, is_balance_type}
use apiv.Wallet.Calls as Wallets
use apiv.Ledger.Balance.{scale, equity}
use apiv.Ledger.Books as Requests
use apiv.Margin.Controller.{
  open_margin, open_pnl, equity_of, granted, refused, can_lock, check_and_lock,
}
use apiv.Margin.Gate.{Lacks, check_and_lock_outcomes}
use apiv.Margin.Equity.{settle-equity}
use apiv.Settlement.Engine.{settle}
use apiv.Reconciliation.Check.{check_user, mismatch}
use apiv.Reconciliation.Repair.{repair_orphan_margin}
use apiv.Reconciliation.Repaired.{IsCovered}
use apiv.Reconciliation.Sweep.{run_full_with_repair}
use apiv.Reconciliation.Swept.{run_full_with_repair-IsCovered}
use apiv.Reconciliation.Resting.{check_and_lock-repair_orphan_margin}
use apiv.Reconciliation.History.{
  Call, calls_wallet, requests, locks_margin, releases_margin, settles, sweeps, PostsExactly,
  run_calls, run_calls-check_user,
}
use apiv.Examples.Settling.{
  client_1, trading_store, calm, at_profit, trading_store-IsReconciled, whole_profit,
  covered_profit, client_found, after_profit, settled_found,
}

abbrev no_quotes : ℕ → Option Quote
no_quotes x = none

check_and_lock_outcomes_example :
    let (verdict, t) = check_and_lock no_quotes 1 9 (pos 5000000000) trading_store in
    let w' = record client_1 { locked = client_1.locked +ℤ pos 5000000000 } in
    ((verdict ≡ granted)
      × (find_wallet 1 t.wallets ≡ some w')
      × (pos 0 <ℤ equity_of no_quotes w' t)
      × (w'.locked *ℤ scale ≤ℤ equity_of no_quotes w' t))
    ⊎ ((verdict ≡ refused insufficient_margin)
        × (t ≡ trading_store)
        × Lacks no_quotes client_1 (pos 5000000000) trading_store)
check_and_lock_outcomes_example =
    check_and_lock_outcomes no_quotes 1 9 (pos 5000000000) client_1 trading_store client_found
      (omega arith) (omega arith)

lock_granted : (check_and_lock no_quotes 1 9 (pos 5000000000) trading_store).0 ≡ granted
unfolding check_and_lock find_wallet can_lock equity_of open_pnl ◌+ℤ◌ ◌-ℤ◌ ◌*ℤ◌
lock_granted = refl

exact_margin : client_1.locked ≡ open_margin 1 trading_store.positions
unfolding open_margin ◌+ℤ◌
exact_margin = refl

open_nonneg : pos 0 ≤ℤ open_margin 1 trading_store.positions
unfolding open_margin ◌+ℤ◌
open_nonneg = omega arith

check_and_lock-repair_orphan_margin_example :
    (repair_orphan_margin 1 3
      (check_and_lock no_quotes 1 9 (pos 5000000000) trading_store).1).1.wallets
    ≡ trading_store.wallets
check_and_lock-repair_orphan_margin_example =
    check_and_lock-repair_orphan_margin no_quotes 1 9 3 (pos 5000000000) client_1 trading_store
      client_found exact_margin (omega arith) (omega arith) lock_granted

run_full_with_repair-IsCovered_example :
    IsCovered 1 (run_full_with_repair true (λ u. u == 2) 3 trading_store).1
run_full_with_repair-IsCovered_example =
    run_full_with_repair-IsCovered (λ u. u == 2) 3 1 trading_store refl open_nonneg

abbrev busy_day : List Call
busy_day =
    calls_wallet (Wallets.credits calm 1 (pos 500) pnl_credit (text_ref 7))
    ∷ locks_margin no_quotes 1 9 (pos 5000000000)
    ∷ requests (Requests.requests_deposit 1 (pos 300) none 5)
    ∷ settles calm at_profit
    ∷ releases_margin 1 9 (pos 1000)
    ∷ sweeps true (λ u. u == 2) 3
    ∷ []

busy_day-PostsExactly : All PostsExactly busy_day
unfolding is_balance_type
busy_day-PostsExactly =
    (refl, (tt, (tt, ((pos 100000000, whole_profit, covered_profit), (tt, (tt, tt))))))

run_calls-check_user_example :
    IsReconciled (run_calls busy_day trading_store)
    × ((u : ℕ) → (check_user u (run_calls busy_day trading_store)).ledger_balance ≢ mismatch)
run_calls-check_user_example =
    run_calls-check_user busy_day trading_store busy_day-PostsExactly trading_store-IsReconciled

settle-equity_example :
    equity_of no_quotes after_profit (settle calm at_profit trading_store).1
    ≡ equity no_quotes 1 (settle calm at_profit trading_store).1
settle-equity_example =
    settle-equity calm at_profit no_quotes 1 after_profit trading_store (refl, tt) settled_found
