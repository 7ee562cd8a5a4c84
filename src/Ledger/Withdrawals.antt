-- ===== src/Ledger/Withdrawals.antt =====
-- Approvals of withdrawals: at most one for each request, and never beyond the client's free margin.
use apiv.Base.{
  ℕ, ◌≡◌, ◌⊎◌, inl, inr, Option, none, some, Bool, true, false, arith, ◌==◌, Option-cases,
  Bool-cases, if◌then◌else◌, is_some,
}
use apiv.Base.Int.{ℤ, ◌-ℤ◌, ◌*ℤ◌, ◌≤ℤ◌, ◌<ℤ◌, ltb_ℤ, ltb_ℤ-cases}
use apiv.Store.{
  Entry, Wallet, Quote, Store, ok, err, transaction, wallet_debit, approved_ref, emit,
  insufficient_balance, insufficient_free_margin,
}
use apiv.Store.Tables.{find_wallet, find_entry, set_status}
use apiv.Wallet.Reconciliation.{balance_of, balance_of-set_balance}
use apiv.Ledger.Balance.{live_free_margin, scale}
use apiv.Ledger.Engine.{approve_withdrawal, approve_withdrawal_tx, is_withdrawal_approval, announce}
use apiv.Ledger.Outcomes.{
  approve_withdrawal_tx_again, approve_withdrawal_tx_missing, approve_withdrawal_tx_poor,
  approve_withdrawal_tx_bound, approve_withdrawal_tx_found,
}
use apiv.Ledger.Approvals.{some_of}

module _ (quotes : ℕ → Option Quote) (u : ℕ) (a : ℤ) (k admin : ℕ) (w : Wallet) (s : Store)
    (known : find_wallet u s.wallets ≡ some w)
    (new : find_entry (is_withdrawal_approval u k) s.ledger ≡ none) where
  -- For a client with a wallet and a request that has no approval yet, approving a withdrawal
  -- succeeds when both the balance and the live free margin cover the amount, and then debits that
  -- client alone by it; it throws the matching error and changes nothing when one of them does
  -- not.
  pub approve_withdrawal_funded :
      (v : ℕ)
      → let (r, s') = approve_withdrawal quotes u a k admin s in
        ((r ≡ ok tt)
          × (a ≤ℤ w.balance)
          × (a *ℤ scale ≤ℤ live_free_margin quotes u s)
          × (balance_of v s'.wallets ≡ (if v == u then w.balance -ℤ a else balance_of v s.wallets)))
        ⊎ ((r ≡ err insufficient_balance) × (w.balance <ℤ a) × (s' ≡ s))
        ⊎ ((r ≡ err insufficient_free_margin)
            × (live_free_margin quotes u s <ℤ a *ℤ scale)
            × (s' ≡ s))
  unfolding approve_withdrawal
  approve_withdrawal_funded v = elim (ltb_ℤ-cases w.balance a) [
    | inl (poor, short) ↦
        inr (inl (ground (arith, approve_withdrawal_tx_poor quotes u a k admin s new w known poor)))
    | inr (rich, cover) ↦ elim (ltb_ℤ-cases (live_free_margin quotes u s) (a *ℤ scale)) [
      | inl (bound, short) ↦ inr (
          inr (
            ground
              (arith, approve_withdrawal_tx_bound quotes u a k admin s new w known rich bound)))
      | inr (free, room) ↦ inl (
          ground (
            arith,
            approve_withdrawal_tx_found quotes u a k admin s new w known rich free,
            balance_of-set_balance u v (w.balance -ℤ a) w s.wallets known,
          ))
    ]
  ]

-- The same for withdrawals: a request is paid out at most once.
withdrawal_tx-leaves_row :
    (q : ℕ → Option Quote) (u : ℕ) (a : ℤ) (k admin : ℕ) (s : Store) (b : Bool)
    → (transaction (approve_withdrawal_tx q u a k admin) s).0 ≡ ok b
    → let t = (transaction (approve_withdrawal_tx q u a k admin) s).1 in
      is_some (find_entry (is_withdrawal_approval u k) t.ledger) ≡ true
unfolding find_entry set_status
withdrawal_tx-leaves_row q u a k admin s b done =
    elim (Option-cases (find_entry (is_withdrawal_approval u k) s.ledger)) [
      | inr (old, again) ↦ rw (approve_withdrawal_tx_again q u a k admin s old again) (rw again)
      | inl new ↦ elim (Option-cases (find_wallet u s.wallets)) [
        | inl e ↦ let d = rw (approve_withdrawal_tx_missing q u a k admin s new e) at done in cc
        | inr (w, e) ↦ elim (Bool-cases (ltb_ℤ w.balance a)) [
          | inl poor ↦
              let d = rw (approve_withdrawal_tx_poor q u a k admin s new w e poor) at done in cc
          | inr rich ↦ elim (Bool-cases (ltb_ℤ (live_free_margin q u s) (a *ℤ scale))) [
            | inl bound ↦
                let d =
                  rw (approve_withdrawal_tx_bound q u a k admin s new w e rich bound) at done in
                cc
            | inr free ↦
                rw (approve_withdrawal_tx_found q u a k admin s new w e rich free) (ground arith)
          ]
        ]
      ]
    ]

approve_withdrawal-result :
    (q : ℕ → Option Quote) (u : ℕ) (a : ℤ) (k admin : ℕ) (s : Store)
    → (approve_withdrawal q u a k admin s).0 ≡ ok tt
    → let t = transaction (approve_withdrawal_tx q u a k admin) s in
      (b : Bool) × (t.0 ≡ ok b)
      × ((approve_withdrawal q u a k admin s).1
          ≡ announce b (emit (wallet_debit u a (approved_ref k)) t.1) t.1)
unfolding approve_withdrawal
approve_withdrawal-result q u a k admin s h = ground arith

approve_withdrawal_again :
    (q : ℕ → Option Quote) (u : ℕ) (a : ℤ) (k admin : ℕ) (old : Entry) (s : Store)
    → find_entry (is_withdrawal_approval u k) s.ledger ≡ some old
    → approve_withdrawal q u a k admin s ≡ (ok tt, s)
unfolding approve_withdrawal
approve_withdrawal_again q u a k admin old s again =
    ground (arith, approve_withdrawal_tx_again q u a k admin s old again)

-- A withdrawal request is paid out at most once: after an approval that did not throw, any further
-- approval of the same request, at any quotes and for any amount, changes nothing at all.
approve_withdrawal_once :
    (q q' : ℕ → Option Quote) (u : ℕ) (a a' : ℤ) (k admin admin' : ℕ) (s : Store)
    → (approve_withdrawal q u a k admin s).0 ≡ ok tt
    → let s' = (approve_withdrawal q u a k admin s).1 in
      approve_withdrawal q' u a' k admin' s' ≡ (ok tt, s')
approve_withdrawal_once q q' u a a' k admin admin' s h =
    let (b, done, e) = approve_withdrawal-result q u a k admin s h in
    let t = (transaction (approve_withdrawal_tx q u a k admin) s).1 in
    let row = withdrawal_tx-leaves_row q u a k admin s b done in
    let (old, again) = some_of (find_entry (is_withdrawal_approval u k) t.ledger) row in
    rw e (
      approve_withdrawal_again q' u a' k admin' old
        (announce b (emit (wallet_debit u a (approved_ref k)) t) t) (announced_row t b again))
  where
    announced_row :
        (t : Store) {x : Entry} (b : Bool)
        → find_entry (is_withdrawal_approval u k) t.ledger ≡ some x
        → find_entry
            (is_withdrawal_approval u k)
            (announce b (emit (wallet_debit u a (approved_ref k)) t) t).ledger
          ≡ some x
    announced_row t true e = e
    announced_row t false e = e
