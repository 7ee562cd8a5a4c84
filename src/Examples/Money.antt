-- ===== src/Examples/Money.antt =====
-- Wallets, requests and card deposits on small stores.
use apiv.Base.{
  All, ℕ, ◌≡◌, refl, Option, none, some, List, [], ◌∷◌, Bool, ◌==◌, ltb, ◌⊎◌, if◌then◌else◌, arith,
}
use apiv.Ledger.Close.{Close}
use apiv.Base.Int.{ℤ, pos, negsuc, ◌+ℤ◌, ◌-ℤ◌, ◌*ℤ◌, ◌≤ℤ◌, ◌<ℤ◌}
use apiv.Store.{
  sell, LedgerType, deposit_request, withdraw_request, pnl_credit, commission, pending_admin,
  text_ref, Wallet, Entry, Store, Quote, ok, err, insufficient_balance, insufficient_free_margin,
}
use apiv.Store.Tables.{find_wallet, find_entry}
use apiv.Wallet.Repository.{usd, with_serializable_retry, debit_tx}
use apiv.Wallet.Reconciliation.{
  IsReconciled, balance_of, locked_of, ledger_sum, margin_sum, is_balance_type,
}
use apiv.Wallet.Methods.{retry_succeeds}
use apiv.Wallet.Calls as Calls
use apiv.Wallet.Calls.{opens, credits, debits, locks, releases, run, run-IsReconciled, IsSolvent}
use apiv.Wallet.Solvency.{run-IsSolvent}
use apiv.Ledger.Balance.{live_free_margin, scale, unrealized_pnl}
use apiv.Ledger.Engine.{
  approve_deposit, approve_withdrawal, approve_withdrawal_tx, is_deposit_approval,
  is_withdrawal_approval,
}
use apiv.Ledger.Books as Books
use apiv.Ledger.Books.{
  requests_deposit, approves_deposit, requests_withdrawal, approves_withdrawal, rejects_withdrawal,
  run_requests,
}
use apiv.Ledger.Approvals.{approve_deposit_once, approve_deposit_credits}
use apiv.Ledger.Withdrawals.{approve_withdrawal_funded}

abbrev empty_store : Store
empty_store = record {
  wallets = [];
  ledger = [];
  positions = [];
  deposits = [];
  audits = [];
  events = [];
  next_id = 0;
}

empty_store-IsReconciled : IsReconciled empty_store
unfolding ledger_sum balance_of find_wallet margin_sum locked_of
empty_store-IsReconciled = record { balances = λ u. refl; margins = λ u. refl; fresh = tt }

abbrev busy_once : ℕ → Bool
busy_once n = ltb n 2

abbrev trading_day : List Calls.Call
trading_day =
    opens 1
    ∷ credits busy_once 1 (pos 500) pnl_credit (text_ref 7)
    ∷ locks busy_once 1 (pos 200) (text_ref 8)
    ∷ debits busy_once 1 (pos 30) commission (text_ref 8)
    ∷ releases busy_once 1 (pos 900) (text_ref 8)
    ∷ []

trading_day-PostsBalance : All Calls.PostsBalance trading_day
unfolding is_balance_type
trading_day-PostsBalance = (tt, (refl, (tt, (refl, (tt, tt)))))

run-IsReconciled_example : IsReconciled (run trading_day empty_store)
run-IsReconciled_example =
    run-IsReconciled trading_day empty_store trading_day-PostsBalance empty_store-IsReconciled

trading_day-LocksPositive : All Calls.LocksPositive trading_day
trading_day-LocksPositive = (tt, (tt, (omega arith, (tt, (tt, tt)))))

empty_store-IsSolvent : IsSolvent empty_store
unfolding balance_of locked_of find_wallet
empty_store-IsSolvent u = (omega arith, omega arith)

run-IsSolvent_example : IsSolvent (run trading_day empty_store)
run-IsSolvent_example =
    run-IsSolvent trading_day empty_store trading_day-LocksPositive empty_store-IsSolvent

-- A client with 500 who asked for a deposit of 100 and a withdrawal of 40.
abbrev client_wallet : Wallet
client_wallet = record { user = 1; currency = usd; balance = pos 500; locked = pos 0 }

abbrev request_row : ℕ → ℤ → LedgerType → Entry
request_row k a t = record {
  id = k;
  user = 1;
  currency = usd;
  amount = a;
  type = t;
  reference = text_ref k;
  status = pending_admin;
  running_balance = none;
  debit_account = none;
  credit_account = none;
}

abbrev requested_store : Store
requested_store = record empty_store {
  wallets = client_wallet ∷ [];
  ledger =
      request_row 1 (negsuc 39) withdraw_request ∷ request_row 0 (pos 100) deposit_request ∷ [];
  next_id = 2;
}

abbrev no_quotes : ℕ → Option Quote
no_quotes y = none

wallet_found : find_wallet 1 requested_store.wallets ≡ some client_wallet
unfolding find_wallet
wallet_found = refl

no_deposit_yet : find_entry (is_deposit_approval 1 0) requested_store.ledger ≡ none
unfolding find_entry
no_deposit_yet = refl

no_withdrawal_yet : find_entry (is_withdrawal_approval 1 1) requested_store.ledger ≡ none
unfolding find_entry
no_withdrawal_yet = refl

deposit_done : (approve_deposit 1 (pos 100) 0 9 requested_store).0 ≡ ok tt
deposit_done =
    (approve_deposit_credits 1 1 (pos 100) 0 9 client_wallet requested_store wallet_found
      no_deposit_yet).0

approve_deposit_once_example :
    let s' = (approve_deposit 1 (pos 100) 0 9 requested_store).1 in
    approve_deposit 1 (pos 70) 0 8 s' ≡ (ok tt, s')
approve_deposit_once_example =
    approve_deposit_once 1 (pos 100) (pos 70) 0 9 8 requested_store deposit_done

approve_withdrawal_funded_example :
    let (r, s') = approve_withdrawal no_quotes 1 (pos 40) 1 9 requested_store in
    ((r ≡ ok tt)
      × (pos 40 ≤ℤ pos 500)
      × (pos 40 *ℤ scale ≤ℤ live_free_margin no_quotes 1 requested_store)
      × (balance_of 1 s'.wallets
          ≡ (if 1 == 1 then pos 500 -ℤ pos 40 else balance_of 1 requested_store.wallets)))
    ⊎ ((r ≡ err insufficient_balance) × (pos 500 <ℤ pos 40) × (s' ≡ requested_store))
    ⊎ ((r ≡ err insufficient_free_margin)
        × (live_free_margin no_quotes 1 requested_store <ℤ pos 40 *ℤ scale)
        × (s' ≡ requested_store))
approve_withdrawal_funded_example =
    approve_withdrawal_funded no_quotes 1 (pos 40) 1 9 client_wallet requested_store wallet_found
      no_withdrawal_yet 1

withdrawal_done : (approve_withdrawal no_quotes 1 (pos 40) 1 9 requested_store).0 ≡ ok tt
unfolding approve_withdrawal approve_withdrawal_tx find_entry find_wallet live_free_margin ◌-ℤ◌ ◌+ℤ◌
    ◌*ℤ◌ unrealized_pnl
withdrawal_done = refl

abbrev request_history : List Books.Call
request_history =
    requests_deposit 1 (pos 100) none 5
    ∷ approves_deposit 1 (pos 100) 0 9
    ∷ requests_withdrawal no_quotes 1 (pos 40) (text_ref 2)
    ∷ approves_withdrawal no_quotes 1 (pos 40) 2 9
    ∷ rejects_withdrawal 1 2 9
    ∷ []

retry_succeeds_example :
    with_serializable_retry busy_once 9 1
      (debit_tx 1 (pos 30) commission (text_ref 8))
      requested_store
    ≡ debit_tx 1 (pos 30) commission (text_ref 8) requested_store
retry_succeeds_example =
    retry_succeeds busy_once 9 1 2 (debit_tx 1 (pos 30) commission (text_ref 8)) requested_store
      (omega arith) (omega arith) refl

abbrev losing_close : Close
losing_close = record {
  side = sell;
  quantity = pos 3;
  entry_price = pos 100;
  exit_price = pos 120;
  margin_used = pos 50;
  commission = pos 2;
  swap = pos 1;
}
