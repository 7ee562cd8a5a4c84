-- ===== src/Wallet/Methods.antt =====
-- What each method of `WalletRepository` does to the books, with its error paths.
use apiv.Base.{
  ℕ, zero, suc, ◌+◌, ◌≤◌, ◌≡◌, ◌⊎◌, inl, inr, some, none, Bool, true, false, arith, Bool-cases,
  if◌then◌else◌,
}
use apiv.Base.Int.{ℤ, pos, ◌+ℤ◌, ◌-ℤ◌, leb_ℤ, ltb_ℤ, neg}
use apiv.Store.{
  LedgerType, Reference, Wallet, Store, ok, err, Action, transaction, completed,
  serialization_failure, margin_reserved, wallet_not_found, insufficient_funds,
  insufficient_free_margin, add_entry,
}
use apiv.Store.Tables.{find_wallet}
use apiv.Wallet.Repository.{
  with_serializable_retry, credit_tx, debit_tx, lock_margin_tx, release_margin_tx, safe_release,
  credit_entry, debit_entry, margin_entry, write_balance, write_locked, write_release,
}
use apiv.Wallet.Reconciliation.{is_balance_type, is_counted}

-- A retried call ends as one run of it does, or gives up with nothing done.
pub retry_cases :
    {A : Type 0} (conflict : ℕ → Bool) (left attempt : ℕ) (fn : Action A) (s : Store)
    → (with_serializable_retry conflict left attempt fn s ≡ fn s)
      ⊎ (with_serializable_retry conflict left attempt fn s ≡ (err serialization_failure, s))
unfolding with_serializable_retry
retry_cases conflict zero attempt fn s = ground arith
retry_cases conflict (suc left) attempt fn s =
    ground (arith, retry_cases conflict left (attempt + 1) fn s)

-- When some attempt among those allowed meets no conflict, the retry loop ends exactly as the
-- transaction by itself does.
pub retry_succeeds :
    {A : Type 0} (conflict : ℕ → Bool) (left attempt n : ℕ) (fn : Action A) (s : Store)
    → attempt ≤ n
    → n ≤ attempt + left
    → conflict n ≡ false
    → with_serializable_retry conflict left attempt fn s ≡ fn s
unfolding with_serializable_retry
retry_succeeds conflict zero attempt n fn s lo hi free =
    let same : attempt ≡ n = omega arith in ground (arith, same)
retry_succeeds conflict (suc left) attempt n fn s lo hi free =
    elim (Bool-cases (conflict attempt)) [
      | inl busy ↦
          rw busy
            (retry_succeeds conflict left (attempt + 1) n fn s (ground arith) (omega arith) free)
      | inr idle ↦ rw idle
    ]

pub balance_type-counted :
    (t : LedgerType) → is_balance_type t ≡ true → is_counted t completed ≡ true
unfolding is_balance_type is_counted
balance_type-counted t h = ground arith

module _ (u : ℕ) (amount : ℤ) (t : LedgerType) (reference : Reference) (s : Store) where
  -- How the transactions end, by what they find.
  pub credit_tx_missing :
      find_wallet u s.wallets ≡ none
      → transaction (credit_tx u amount t reference) s ≡ (err (wallet_not_found u), s)
  unfolding credit_tx
  credit_tx_missing e = ground arith

  pub credit_tx_found :
      (w : Wallet)
      → find_wallet u s.wallets ≡ some w
      → let b = w.balance +ℤ amount in
        transaction (credit_tx u amount t reference) s
        ≡ (ok b, add_entry (credit_entry u amount t reference b) (write_balance u b s))
  unfolding credit_tx
  credit_tx_found w e = ground arith

  pub debit_tx_missing :
      find_wallet u s.wallets ≡ none
      → transaction (debit_tx u amount t reference) s ≡ (err (wallet_not_found u), s)
  unfolding debit_tx
  debit_tx_missing e = ground arith

  pub debit_tx_short :
      (w : Wallet)
      → find_wallet u s.wallets ≡ some w
      → ltb_ℤ w.balance amount ≡ true
      → transaction (debit_tx u amount t reference) s ≡ (err insufficient_funds, s)
  unfolding debit_tx
  debit_tx_short w e short = ground arith

  pub debit_tx_found :
      (w : Wallet)
      → find_wallet u s.wallets ≡ some w
      → ltb_ℤ w.balance amount ≡ false
      → let b = w.balance -ℤ amount in
        transaction (debit_tx u amount t reference) s
        ≡ (ok b, add_entry (debit_entry u amount t reference b) (write_balance u b s))
  unfolding debit_tx
  debit_tx_found w e enough = ground arith

module _ (u : ℕ) (amount : ℤ) (reference : Reference) (s : Store) where
  pub lock_margin_tx_missing :
      find_wallet u s.wallets ≡ none
      → transaction (lock_margin_tx u amount reference) s ≡ (err (wallet_not_found u), s)
  unfolding lock_margin_tx
  lock_margin_tx_missing e = ground arith

  pub lock_margin_tx_short :
      (w : Wallet)
      → find_wallet u s.wallets ≡ some w
      → ltb_ℤ (w.balance -ℤ w.locked) amount ≡ true
      → transaction (lock_margin_tx u amount reference) s ≡ (err insufficient_free_margin, s)
  unfolding lock_margin_tx
  lock_margin_tx_short w e short = ground arith

  pub lock_margin_tx_found :
      (w : Wallet)
      → find_wallet u s.wallets ≡ some w
      → ltb_ℤ (w.balance -ℤ w.locked) amount ≡ false
      → transaction (lock_margin_tx u amount reference) s ≡ (
        ok tt,
        add_entry (margin_entry u (neg amount) margin_reserved reference) (write_locked u amount s),
      )
  unfolding lock_margin_tx
  lock_margin_tx_found w e enough = ground arith

  pub release_margin_tx_missing :
      find_wallet u s.wallets ≡ none
      → transaction (release_margin_tx u amount reference) s ≡ (err (wallet_not_found u), s)
  unfolding release_margin_tx
  release_margin_tx_missing e = ground arith

  pub release_margin_tx_found :
      (w : Wallet)
      → find_wallet u s.wallets ≡ some w
      → let r = safe_release w.locked amount in
        transaction (release_margin_tx u amount reference) s
        ≡ (ok tt, if leb_ℤ r (pos 0) then s else write_release u r reference s)
  unfolding release_margin_tx
  release_margin_tx_found w e = ground arith
