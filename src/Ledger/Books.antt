-- ===== src/Ledger/Books.antt =====
-- Any history of calls of `LedgerEngine` keeps the books reconciled.
use apiv.Base.{
  ℕ, ◌≡◌, refl, inl, inr, Option, List, [], ◌∷◌, Bool, true, false, arith, Option-cases, Bool-cases,
  or_else,
}
use apiv.Base.Int.{ℤ, ◌*ℤ◌, ltb_ℤ, neg}
use apiv.Store.{
  Quote, Store, Event, Reference, Result, ok, err, transaction, emit, add_entry, rejected,
  deposit_request, withdraw_request, pending_admin, wallet_credit, wallet_debit, approved_ref,
  text_ref,
}
use apiv.Store.Tables.{find_wallet}
use apiv.Wallet.Reconciliation.{IsReconciled, is_counted, is_margin_type}
use apiv.Wallet.Posting.{post_uncounted}
use apiv.Wallet.Calls.{get_or_create-IsReconciled}
use apiv.Wallet.Repository.{get_or_create}
use apiv.Ledger.Balance.{live_free_margin, scale}
use apiv.Ledger.Engine.{
  request_deposit, approve_deposit, approve_deposit_tx, request_withdrawal, approve_withdrawal,
  approve_withdrawal_tx, reject_deposit, reject_withdrawal, is_deposit_request, is_withdraw_request,
  announce, request_entry,
}
use apiv.Wallet.Posting.{emit-IsReconciled}
use apiv.Ledger.Posted.{
  deposit_request-uncounted, withdraw_request-uncounted, approve_deposit_tx-IsReconciled,
  approve_withdrawal_tx-IsReconciled, reject_tx-IsReconciled,
}

pub data Call : Type 0 where
  requests_deposit : ℕ → ℤ → Option Reference → ℕ → Call
  approves_deposit : ℕ → ℤ → ℕ → ℕ → Call
  requests_withdrawal : (ℕ → Option Quote) → ℕ → ℤ → Reference → Call
  approves_withdrawal : (ℕ → Option Quote) → ℕ → ℤ → ℕ → ℕ → Call
  rejects_deposit rejects_withdrawal : ℕ → ℕ → ℕ → Call

unfoldable pub step_request : Call → Store → Store
step_request (requests_deposit u a r now) s = (request_deposit u a r now s).1
step_request (approves_deposit u a k admin) s = (approve_deposit u a k admin s).1
step_request (requests_withdrawal q u a r) s = (request_withdrawal q u a r s).1
step_request (approves_withdrawal q u a k admin) s = (approve_withdrawal q u a k admin s).1
step_request (rejects_deposit u k admin) s = (reject_deposit u k admin s).1
step_request (rejects_withdrawal u k admin) s = (reject_withdrawal u k admin s).1

unfoldable pub run_requests : List Call → Store → Store
run_requests [] s = s
run_requests (c ∷ cs) s = run_requests cs (step_request c s)

-- The store after the last statement of an approval.
abbrev after_announce : Result Bool → Event → Store → Store
after_announce (ok done) e s = announce done (emit e s) s
after_announce (err x) e s = s

announce-IsReconciled :
    (r : Result Bool) (e : Event) (s : Store) → IsReconciled s → IsReconciled (after_announce r e s)
announce-IsReconciled (ok true) e s r = emit-IsReconciled e s r
announce-IsReconciled (ok false) e s r = r
announce-IsReconciled (err x) e s r = r

approve_deposit_store :
    (u : ℕ) (a : ℤ) (k admin : ℕ) (s : Store)
    → let t = transaction (approve_deposit_tx u a k admin) (get_or_create u s).1 in
      (approve_deposit u a k admin s).1
      ≡ after_announce t.0 (wallet_credit u a (approved_ref k)) t.1
unfolding approve_deposit get_or_create
approve_deposit_store u a k admin s = ground arith

approve_withdrawal_store :
    (q : ℕ → Option Quote) (u : ℕ) (a : ℤ) (k admin : ℕ) (s : Store)
    → let t = transaction (approve_withdrawal_tx q u a k admin) s in
      (approve_withdrawal q u a k admin s).1
      ≡ after_announce t.0 (wallet_debit u a (approved_ref k)) t.1
unfolding approve_withdrawal
approve_withdrawal_store q u a k admin s = ground arith

request_deposit_store :
    (u : ℕ) (a : ℤ) (given : Option Reference) (now : ℕ) (s : Store)
    → (request_deposit u a given now s).1
      ≡ add_entry
          (request_entry u a deposit_request (or_else given (text_ref now)) pending_admin)
          (get_or_create u s).1
unfolding request_deposit get_or_create
request_deposit_store u a given now s = ground arith

request_withdrawal-IsReconciled :
    (q : ℕ → Option Quote) (u : ℕ) (a : ℤ) (ref : Reference) (s : Store)
    → IsReconciled s
    → IsReconciled (request_withdrawal q u a ref s).1
unfolding request_withdrawal
request_withdrawal-IsReconciled q u a ref s r = elim (Option-cases (find_wallet u s.wallets)) [
  | inl e ↦ rw (e, request_withdrawal) r
  | inr (w, e) ↦
      rw (e, request_withdrawal)
        (elim (Bool-cases (ltb_ℤ (live_free_margin q u s) (a *ℤ scale))) [
          | inl over ↦ rw over (
              post_uncounted (request_entry u (neg a) withdraw_request ref rejected) s r refl
                (unfold is_counted in refl) (unfold is_margin_type in refl))
          | inr within ↦ rw within (
              post_uncounted (request_entry u (neg a) withdraw_request ref pending_admin) s r refl
                (unfold is_counted in refl) (unfold is_margin_type in refl))
        ])
]

pub step_request-IsReconciled :
    (c : Call) (s : Store) → IsReconciled s → IsReconciled (step_request c s)
unfolding step_request
step_request-IsReconciled (requests_deposit u a ref now) s r =
    rw (request_deposit_store u a ref now s) (
      post_uncounted (request_entry u a deposit_request (or_else ref (text_ref now)) pending_admin)
        (get_or_create u s).1 (get_or_create-IsReconciled u s r) refl (unfold is_counted in refl)
        (unfold is_margin_type in refl))
step_request-IsReconciled (approves_deposit u a k admin) s r =
    rw (approve_deposit_store u a k admin s) (
      announce-IsReconciled _ _ _ (
        approve_deposit_tx-IsReconciled u a k admin (get_or_create u s).1
          (get_or_create-IsReconciled u s r)))
step_request-IsReconciled (requests_withdrawal q u a ref) s r =
    request_withdrawal-IsReconciled q u a ref s r
step_request-IsReconciled (approves_withdrawal q u a k admin) s r =
    rw (approve_withdrawal_store q u a k admin s)
      (announce-IsReconciled _ _ _ (approve_withdrawal_tx-IsReconciled q u a k admin s r))
step_request-IsReconciled (rejects_deposit u k admin) s r =
    unfold reject_deposit in
    reject_tx-IsReconciled is_deposit_request _ u k s (deposit_request-uncounted u) r
step_request-IsReconciled (rejects_withdrawal u k admin) s r =
    unfold reject_withdrawal in
    reject_tx-IsReconciled is_withdraw_request _ u k s (withdraw_request-uncounted u) r

-- Any history of deposit and withdrawal requests, approvals and rejections keeps every wallet's
-- balance and locked margin equal to what its ledger rows add up to, and row identifiers unique.
run_requests-IsReconciled :
    (cs : List Call) (s : Store) → IsReconciled s → IsReconciled (run_requests cs s)
unfolding run_requests
run_requests-IsReconciled [] s r = r
run_requests-IsReconciled (c ∷ cs) s r =
    run_requests-IsReconciled cs (step_request c s) (step_request-IsReconciled c s r)
