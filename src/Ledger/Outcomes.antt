-- ===== src/Ledger/Outcomes.antt =====
-- How the transactions of `LedgerEngine` end, by what they find.
use apiv.Base.{ℕ, ◌≡◌, Option, none, some, Bool, true, false, arith}
use apiv.Base.Int.{ℤ, ◌+ℤ◌, ◌-ℤ◌, ◌*ℤ◌, ltb_ℤ}
use apiv.Store.{
  Entry, Wallet, LedgerType, Audit, Quote, Store, ok, err, transaction, wallet_not_found, add_audit,
  insufficient_balance, insufficient_free_margin, entry_not_found_or_invalid_state, rejected,
}
use apiv.Store.Tables.{find_wallet, find_entry}
use apiv.Ledger.Balance.{live_free_margin, scale}
use apiv.Ledger.Engine.{
  is_deposit_approval, is_withdrawal_approval, approve_deposit_tx, approve_withdrawal_tx, allocate,
  pay_out, reject_tx, has_id, is_open_request, mark,
}

module _ (u : ℕ) (amount : ℤ) (k admin : ℕ) (s : Store) where
  pub approve_deposit_tx_again :
      (e : Entry)
      → find_entry (is_deposit_approval u k) s.ledger ≡ some e
      → transaction (approve_deposit_tx u amount k admin) s ≡ (ok false, s)
  unfolding approve_deposit_tx
  approve_deposit_tx_again e old = ground arith

  pub approve_deposit_tx_missing :
      find_entry (is_deposit_approval u k) s.ledger ≡ none
      → find_wallet u s.wallets ≡ none
      → transaction (approve_deposit_tx u amount k admin) s ≡ (err (wallet_not_found u), s)
  unfolding approve_deposit_tx
  approve_deposit_tx_missing new e = ground arith

  pub approve_deposit_tx_found :
      (w : Wallet)
      → find_entry (is_deposit_approval u k) s.ledger ≡ none
      → find_wallet u s.wallets ≡ some w
      → transaction (approve_deposit_tx u amount k admin) s
        ≡ (ok true, allocate u amount k admin (w.balance +ℤ amount) s)
  unfolding approve_deposit_tx
  approve_deposit_tx_found w new e = ground arith

module _ (quotes : ℕ → Option Quote) (u : ℕ) (amount : ℤ) (k admin : ℕ) (s : Store) where
  pub approve_withdrawal_tx_again :
      (e : Entry)
      → find_entry (is_withdrawal_approval u k) s.ledger ≡ some e
      → transaction (approve_withdrawal_tx quotes u amount k admin) s ≡ (ok false, s)
  unfolding approve_withdrawal_tx
  approve_withdrawal_tx_again e old = ground arith

  module _ (new : find_entry (is_withdrawal_approval u k) s.ledger ≡ none) where
    pub approve_withdrawal_tx_missing :
        find_wallet u s.wallets ≡ none
        → transaction (approve_withdrawal_tx quotes u amount k admin) s
          ≡ (err (wallet_not_found u), s)
    unfolding approve_withdrawal_tx
    approve_withdrawal_tx_missing e = ground arith

    module _ (w : Wallet) (e : find_wallet u s.wallets ≡ some w) where
      pub approve_withdrawal_tx_poor :
          ltb_ℤ w.balance amount ≡ true
          → transaction (approve_withdrawal_tx quotes u amount k admin) s
            ≡ (err insufficient_balance, s)
      unfolding approve_withdrawal_tx
      approve_withdrawal_tx_poor poor = ground arith

      pub approve_withdrawal_tx_bound :
          ltb_ℤ w.balance amount ≡ false
          → ltb_ℤ (live_free_margin quotes u s) (amount *ℤ scale) ≡ true
          → transaction (approve_withdrawal_tx quotes u amount k admin) s
            ≡ (err insufficient_free_margin, s)
      unfolding approve_withdrawal_tx
      approve_withdrawal_tx_bound rich bound = ground arith

      pub approve_withdrawal_tx_found :
          ltb_ℤ w.balance amount ≡ false
          → ltb_ℤ (live_free_margin quotes u s) (amount *ℤ scale) ≡ false
          → transaction (approve_withdrawal_tx quotes u amount k admin) s
            ≡ (ok true, pay_out u amount k admin (w.balance -ℤ amount) s)
      unfolding approve_withdrawal_tx
      approve_withdrawal_tx_found rich free = ground arith

module _ (is_type : LedgerType → Bool) (audit : Audit) (u k : ℕ) (s : Store) where
  pub reject_tx_missing :
      find_entry (has_id k) s.ledger ≡ none
      → transaction (reject_tx is_type audit u k) s ≡ (err entry_not_found_or_invalid_state, s)
  unfolding reject_tx
  reject_tx_missing e = ground arith

  pub reject_tx_closed :
      (e : Entry)
      → find_entry (has_id k) s.ledger ≡ some e
      → is_open_request is_type u e ≡ false
      → transaction (reject_tx is_type audit u k) s ≡ (err entry_not_found_or_invalid_state, s)
  unfolding reject_tx
  reject_tx_closed e found shut = ground arith

  pub reject_tx_open :
      (e : Entry)
      → find_entry (has_id k) s.ledger ≡ some e
      → is_open_request is_type u e ≡ true
      → transaction (reject_tx is_type audit u k) s
        ≡ (ok tt, add_audit audit (mark (has_id k) rejected s))
  unfolding reject_tx
  reject_tx_open e found shut = ground arith
