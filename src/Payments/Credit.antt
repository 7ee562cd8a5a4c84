-- ===== src/Payments/Credit.antt =====
-- What a credit does to the deposit, the wallet and the ledger.
use apiv.Base.{ℕ, ◌≡◌, ◌≢◌, Option, some, true, false, arith, or_else}
use apiv.Base.Int.{ℤ, ◌+ℤ◌}
use apiv.Store.{
  Deposit, confirmed, credited, Wallet, Store, ok, err, transaction, deposit_invalid_transition,
  deposit_amount_mismatch,
}
use apiv.Store.Tables.{find_wallet}
use apiv.Payments.Rows.{find_deposit, ref_taken, find_deposit-put, find_deposit-id}
use apiv.Payments.Deposits.{
  transition_to_credit, credit_tx, credit_confirmed, amount_mismatch, settle, announce_credit,
}

module _ (k r : ℕ) (amount : ℤ) (currency : Option ℕ) (d : Deposit) (s : Store)
    (row : find_deposit k s.deposits ≡ some d) where
  -- A deposit that is credited already is left alone, and so is all else.
  pub credit_again : d.status ≡ credited → transition_to_credit k r amount currency s ≡ (ok true, s)
  unfolding transition_to_credit credit_tx
  credit_again done = ground arith

  -- Any other status than CONFIRMED throws, with nothing changed.
  pub credit_unconfirmed :
      d.status ≢ credited
      → d.status ≢ confirmed
      → transition_to_credit k r amount currency s ≡ (err (deposit_invalid_transition d.status), s)
  unfolding transition_to_credit credit_tx
  credit_unconfirmed a b = ground arith

  module _ (ready : d.status ≡ confirmed) where
    credit_mismatch :
        amount_mismatch amount d.amount ≡ true
        → transition_to_credit k r amount currency s ≡ (err deposit_amount_mismatch, s)
    unfolding transition_to_credit credit_tx credit_confirmed
    credit_mismatch bad = ground arith

    pub credit_tx_found :
        (w : Wallet)
        → amount_mismatch amount d.amount ≡ false
        → find_wallet d.user s.wallets ≡ some w
        → ref_taken r k s.deposits ≡ false
        → transaction (credit_tx k r amount currency) s
          ≡ (ok false, settle k d r (or_else currency d.currency) (w.balance +ℤ d.amount) s)
    unfolding credit_tx credit_confirmed
    credit_tx_found w fits known free = ground arith

    pub credit_found :
        (w : Wallet)
        → amount_mismatch amount d.amount ≡ false
        → find_wallet d.user s.wallets ≡ some w
        → ref_taken r k s.deposits ≡ false
        → transition_to_credit k r amount currency s ≡ (
          ok false,
          announce_credit false k r
              (record d { status = credited; psp_ref = some r })
              (settle k d r (or_else currency d.currency) (w.balance +ℤ d.amount) s),
        )
    unfolding transition_to_credit
    credit_found w fits known free = ground (
      arith,
      credit_tx_found w fits known free,
      find_deposit-put k (record d { status = credited; psp_ref = some r }) d s.deposits row
          (find_deposit-id k d s.deposits row),
    )
