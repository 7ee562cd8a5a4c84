-- ===== src/Examples/Cards.antt =====
-- One webhook, delivered twice.
use apiv.Base.{◌≡◌, refl, none, some, List, [], ◌∷◌, false}
use apiv.Base.Int.{pos, ◌+ℤ◌, ◌-ℤ◌}
use apiv.Store.{Wallet, Deposit, pending, Store, ok}
use apiv.Store.Tables.{find_wallet}
use apiv.Wallet.Repository.{usd}
use apiv.Wallet.Reconciliation.{IsReconciled, ledger_sum, balance_of, locked_of, margin_sum}
use apiv.Payments.Rows.{find_deposit, ref_taken}
use apiv.Payments.Deposits.{amount_mismatch}
use apiv.Payments.Service.{Webhook, paid, opened, newly_credited, already_credited, process_webhook}
use apiv.Payments.Race.{interleaved, process_webhook_twice, interleaved_double_credit}
use apiv.Payments.Books.{Step, initiates, confirms, credits, expires}

abbrev card_deposit : Deposit
card_deposit = record {
  id = 4;
  user = 1;
  amount = pos 5000000000;
  currency = usd;
  status = pending;
  psp_ref = some 77;
  requested_at = 3;
}

abbrev paid_webhook : Webhook
paid_webhook = record {
  deposit_id = some 4;
  reference = 77;
  verdict = paid;
  amount = pos 5000000000;
  currency = none;
}

abbrev card_wallet : Wallet
card_wallet = record { user = 1; currency = usd; balance = pos 100; locked = pos 0 }

abbrev card_store : Store
card_store = record {
  wallets = card_wallet ∷ [];
  ledger = [];
  positions = [];
  deposits = card_deposit ∷ [];
  audits = [];
  events = [];
  next_id = 5;
}

row_found : find_deposit 4 card_store.deposits ≡ some card_deposit
unfolding find_deposit
row_found = refl

wallet_found : find_wallet 1 card_store.wallets ≡ some card_wallet
unfolding find_wallet
wallet_found = refl

reference_free : ref_taken 77 4 card_store.deposits ≡ false
unfolding ref_taken
reference_free = refl

amount_fits : amount_mismatch (pos 5000000000) (pos 5000000000) ≡ false
unfolding amount_mismatch ◌-ℤ◌
amount_fits = refl

process_webhook_twice_example :
    let t = process_webhook paid_webhook card_store in
    (t.0 ≡ ok newly_credited)
    × (find_wallet 1 t.1.wallets
        ≡ some (record card_wallet { balance = pos 100 +ℤ pos 5000000000 }))
    × (process_webhook paid_webhook t.1 ≡ (ok already_credited, t.1))
process_webhook_twice_example =
    process_webhook_twice paid_webhook 4 card_deposit card_wallet card_store refl row_found refl
      refl wallet_found reference_free amount_fits

interleaved_double_credit_example :
    let t = interleaved paid_webhook card_store in
    (t.0 ≡ ok tt)
    × (find_wallet 1 t.1.wallets
        ≡ some (record card_wallet { balance = pos 100 +ℤ pos 5000000000 +ℤ pos 5000000000 }))
interleaved_double_credit_example =
    interleaved_double_credit paid_webhook 4 card_deposit card_wallet card_store refl row_found refl
      refl wallet_found reference_free amount_fits

abbrev blank_store : Store
blank_store = record card_store { wallets = []; deposits = []; next_id = 4 }

blank_store-IsReconciled : IsReconciled blank_store
unfolding ledger_sum balance_of find_wallet margin_sum locked_of
blank_store-IsReconciled = record { balances = λ u. refl; margins = λ u. refl; fresh = tt }

abbrev webhook_history : List Step
webhook_history =
    initiates 1 (pos 5000000000) usd 3 (opened (some 77))
    ∷ confirms paid_webhook card_deposit
    ∷ credits paid_webhook card_deposit
    ∷ credits paid_webhook card_deposit
    ∷ expires 900 10
    ∷ []
