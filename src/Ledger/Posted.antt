-- ===== src/Ledger/Posted.antt =====
-- The transactions of the ledger engine, and the books.
use apiv.Base.{
  ℕ, ◌≡◌, refl, inl, inr, Option, some, Bool, true, false, arith, Option-cases, Bool-cases,
}
use apiv.Base.Int.{ℤ, ◌+ℤ◌, ◌-ℤ◌, ◌*ℤ◌, ltb_ℤ, int_laws}
use apiv.Store.{
  Entry, Wallet, LedgerType, Audit, Quote, Store, transaction, add_entry, approved, rejected,
}
use apiv.Store.Tables.{find_wallet, find_entry}
use apiv.Wallet.Reconciliation.{IsReconciled, is_counted}
use apiv.Wallet.Posting.{post_balance}
use apiv.Wallet.Repository.{write_balance}
use apiv.Ledger.Balance.{live_free_margin, scale}
use apiv.Ledger.Engine.{
  approve_deposit_tx, approve_withdrawal_tx, reject_tx, is_deposit_approval, is_withdrawal_approval,
  is_deposit_row, is_withdrawal_row, is_deposit_request, is_withdraw_request, is_open_request,
  has_id, allocation_entry, withdrawal_entry, allocate, pay_out,
}
use apiv.Ledger.Marks.{mark-IsReconciled, mark_everywhere-IsReconciled, IsInert-found}
use apiv.Ledger.Outcomes.{
  approve_deposit_tx_again, approve_deposit_tx_missing, approve_deposit_tx_found,
  approve_withdrawal_tx_again, approve_withdrawal_tx_missing, approve_withdrawal_tx_poor,
  approve_withdrawal_tx_bound, approve_withdrawal_tx_found, reject_tx_missing, reject_tx_closed,
  reject_tx_open,
}
use apiv.Wallet.Posting.{add_audit-IsReconciled}

pub deposit_row-uncounted :
    (u k : ℕ) (e : Entry)
    → is_deposit_row u k e ≡ true
    → (is_counted e.type e.status ≡ false) × (is_counted e.type approved ≡ false)
unfolding is_counted
deposit_row-uncounted u k e h = ground arith

pub withdrawal_row-uncounted :
    (u k : ℕ) (e : Entry)
    → is_withdrawal_row u k e ≡ true
    → (is_counted e.type e.status ≡ false) × (is_counted e.type approved ≡ false)
unfolding is_counted
withdrawal_row-uncounted u k e h = ground arith

pub deposit_request-uncounted :
    (u : ℕ) (e : Entry)
    → is_open_request is_deposit_request u e ≡ true
    → (is_counted e.type e.status ≡ false) × (is_counted e.type rejected ≡ false)
unfolding is_counted
deposit_request-uncounted u e h = ground arith

pub withdraw_request-uncounted :
    (u : ℕ) (e : Entry)
    → is_open_request is_withdraw_request u e ≡ true
    → (is_counted e.type e.status ≡ false) × (is_counted e.type rejected ≡ false)
unfolding is_counted
withdraw_request-uncounted u e h = ground arith

module _ (u : ℕ) (a : ℤ) (k admin : ℕ) (w : Wallet) (s : Store) (r : IsReconciled s)
    (e : find_wallet u s.wallets ≡ some w) where
  pub allocate-IsReconciled : IsReconciled (allocate u a k admin (w.balance +ℤ a) s)
  allocate-IsReconciled = add_audit-IsReconciled _ _ (
      mark_everywhere-IsReconciled (is_deposit_row u k) approved
        (add_entry (allocation_entry u a k (w.balance +ℤ a)) (write_balance u (w.balance +ℤ a) s))
        (deposit_row-uncounted u k)
        (post_balance u w (allocation_entry u a k (w.balance +ℤ a)) s (w.balance +ℤ a) r e refl refl
          (unfold is_counted in refl) refl))

  pub pay_out-IsReconciled : IsReconciled (pay_out u a k admin (w.balance -ℤ a) s)
  pay_out-IsReconciled = add_audit-IsReconciled _ _ (
      mark_everywhere-IsReconciled (is_withdrawal_row u k) approved
        (add_entry (withdrawal_entry u a k (w.balance -ℤ a)) (write_balance u (w.balance -ℤ a) s))
        (withdrawal_row-uncounted u k)
        (post_balance u w (withdrawal_entry u a k (w.balance -ℤ a)) s (w.balance -ℤ a) r e refl refl
          (unfold is_counted in refl) (omega int_laws)))

pub approve_deposit_tx-IsReconciled :
    (u : ℕ) (a : ℤ) (k admin : ℕ) (s : Store)
    → IsReconciled s
    → IsReconciled (transaction (approve_deposit_tx u a k admin) s).1
approve_deposit_tx-IsReconciled u a k admin s r =
    elim (Option-cases (find_entry (is_deposit_approval u k) s.ledger)) [
      | inr (old, again) ↦ rw (approve_deposit_tx_again u a k admin s old again) r
      | inl new ↦ elim (Option-cases (find_wallet u s.wallets)) [
        | inl e ↦ rw (approve_deposit_tx_missing u a k admin s new e) r
        | inr (w, e) ↦
            rw (approve_deposit_tx_found u a k admin s w new e)
              (allocate-IsReconciled u a k admin w s r e)
      ]
    ]

pub approve_withdrawal_tx-IsReconciled :
    (q : ℕ → Option Quote) (u : ℕ) (a : ℤ) (k admin : ℕ) (s : Store)
    → IsReconciled s
    → IsReconciled (transaction (approve_withdrawal_tx q u a k admin) s).1
approve_withdrawal_tx-IsReconciled q u a k admin s r =
    elim (Option-cases (find_entry (is_withdrawal_approval u k) s.ledger)) [
      | inr (old, again) ↦ rw (approve_withdrawal_tx_again q u a k admin s old again) r
      | inl new ↦ elim (Option-cases (find_wallet u s.wallets)) [
        | inl e ↦ rw (approve_withdrawal_tx_missing q u a k admin s new e) r
        | inr (w, e) ↦ elim (Bool-cases (ltb_ℤ w.balance a)) [
          | inl poor ↦ rw (approve_withdrawal_tx_poor q u a k admin s new w e poor) r
          | inr rich ↦ elim (Bool-cases (ltb_ℤ (live_free_margin q u s) (a *ℤ scale))) [
            | inl bound ↦ rw (approve_withdrawal_tx_bound q u a k admin s new w e rich bound) r
            | inr free ↦
                rw (approve_withdrawal_tx_found q u a k admin s new w e rich free)
                  (pay_out-IsReconciled u a k admin w s r e)
          ]
        ]
      ]
    ]

pub reject_tx-IsReconciled :
    (is_type : LedgerType → Bool) (audit : Audit) (u k : ℕ) (s : Store)
    → ((e : Entry)
        → is_open_request is_type u e ≡ true
        → (is_counted e.type e.status ≡ false) × (is_counted e.type rejected ≡ false))
    → IsReconciled s
    → IsReconciled (transaction (reject_tx is_type audit u k) s).1
reject_tx-IsReconciled is_type audit u k s uncounted r =
    elim (Option-cases (find_entry (has_id k) s.ledger)) [
      | inl e ↦ rw (reject_tx_missing is_type audit u k s e) r
      | inr (row, found) ↦ elim (Bool-cases (is_open_request is_type u row)) [
        | inr shut ↦ rw (reject_tx_closed is_type audit u k s row found shut) r
        | inl open_row ↦ rw (reject_tx_open is_type audit u k s row found open_row) (
            add_audit-IsReconciled audit _ (
              mark-IsReconciled (has_id k) rejected s
                (IsInert-found k s.next_id rejected row s.ledger r.fresh found
                  (uncounted row open_row).0 (uncounted row open_row).1)
                r))
      ]
    ]
