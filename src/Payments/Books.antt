-- ===== src/Payments/Books.antt =====
-- However the steps of the webhook handlers interleave, the books stay reconciled.
use apiv.Base.{
  ℕ, ◌≤◌, ◌≡◌, ◌⊎◌, ◌≢◌, refl, inl, inr, Option, some, List, [], ◌∷◌, arith, or_else, Option-cases,
  Bool-cases,
}
use apiv.Base.Int.{ℤ, ◌+ℤ◌, ltb_ℤ}
use apiv.Store.{Deposit, DepositStatus, confirmed, Wallet, Entry, Store, transaction, add_entry}
use apiv.Store.Tables.{find_wallet, Below}
use apiv.Wallet.Reconciliation.{IsReconciled, is_counted}
use apiv.Wallet.Repository.{get_or_create, write_balance}
use apiv.Wallet.Posting.{post_balance}
use apiv.Wallet.Calls.{get_or_create-IsReconciled}
use apiv.Payments.Rows.{find_deposit, ref_taken}
use apiv.Payments.Deposits.{
  create_requested, transition_to_pending, transition_to_confirmed, transition_to_failed,
  transition_to_credit, credit_tx, credit_confirmed, amount_mismatch, settle, deposit_entry,
  expire_stale,
}
use apiv.Payments.Service.{
  Session, Webhook, min_deposit, max_deposit, initiate_deposit, confirm_seen, credit_seen,
  fail_seen,
}
use apiv.Payments.Credit.{credit_tx_found}

-- `t` has the wallets and the ledger of `s`.
pub record SameBooks (s t : Store) : Type 0 where
  pub wallets : t.wallets ≡ s.wallets
  pub ledger : t.ledger ≡ s.ledger
  pub next_id : s.next_id ≤ t.next_id

Below-mono : {m n : ℕ} (es : List Entry) → m ≤ n → Below m es → Below n es
Below-mono [] h b = tt
Below-mono (e ∷ es) h b = (omega arith, b.1)

pub SameBooks-IsReconciled : (s t : Store) → SameBooks s t → IsReconciled s → IsReconciled t
SameBooks-IsReconciled s t h r = record {
  balances = λ u. rw (h.wallets, h.ledger) (r.balances u);
  margins = λ u. rw (h.wallets, h.ledger) (r.margins u);
  fresh = rw h.ledger (Below-mono s.ledger h.next_id r.fresh);
}

confirm_seen-SameBooks :
    (w : Webhook) (seen : Deposit) (s : Store) → SameBooks s (confirm_seen w seen s).1
unfolding confirm_seen transition_to_confirmed
confirm_seen-SameBooks w seen s = ground arith

fail_seen-SameBooks : (seen : Deposit) (s : Store) → SameBooks s (fail_seen seen s).1
unfolding fail_seen transition_to_failed
fail_seen-SameBooks seen s = ground arith

expire_stale-SameBooks : (now older : ℕ) (s : Store) → SameBooks s (expire_stale now older s).1
unfolding expire_stale
expire_stale-SameBooks now older s = ground arith

-- An initiation does no more to the books than open the wallet.
initiate_books :
    (u : ℕ) (a : ℤ) (c now : ℕ) (x : Session) (s : Store)
    → SameBooks s (initiate_deposit u a c now x s).1
      ⊎ SameBooks (get_or_create u s).1 (initiate_deposit u a c now x s).1
unfolding initiate_deposit create_requested transition_to_pending transition_to_failed
initiate_books u a c now x s = elim (Bool-cases (ltb_ℤ a min_deposit)) [
  | inl small ↦ inl (ground arith)
  | inr enough ↦ elim (Bool-cases (ltb_ℤ max_deposit a)) [
    | inl large ↦ inl (ground arith)
    | inr fits ↦ inr (ground arith)
  ]
]

settle-IsReconciled :
    (k : ℕ) (d : Deposit) (r c : ℕ) (w : Wallet) (s : Store)
    → find_wallet d.user s.wallets ≡ some w
    → IsReconciled s
    → IsReconciled (settle k d r c (w.balance +ℤ d.amount) s)
settle-IsReconciled k d r c w s e h =
    SameBooks-IsReconciled
      (add_entry (deposit_entry d r c (w.balance +ℤ d.amount))
        (write_balance d.user (w.balance +ℤ d.amount) s))
      _ (record { wallets = refl; ledger = refl; next_id = omega arith })
      (post_balance d.user w (deposit_entry d r c (w.balance +ℤ d.amount)) s (w.balance +ℤ d.amount)
        h e refl refl (unfold is_counted in refl) refl)

confirmed_or_not : (st : DepositStatus) → (st ≡ confirmed) ⊎ (st ≢ confirmed)
confirmed_or_not st = ground arith

-- A credit's transaction throws or settles, or has nothing left to do.
credit_tx_cases :
    (k r : ℕ) (a : ℤ) (c : Option ℕ) (s : Store)
    → ((transaction (credit_tx k r a c) s).1 ≡ s)
      ⊎ ((d : Deposit) × (w : Wallet) × (find_wallet d.user s.wallets ≡ some w)
          × ((transaction (credit_tx k r a c) s).1
              ≡ settle k d r (or_else c d.currency) (w.balance +ℤ d.amount) s))
unfolding credit_tx credit_confirmed
credit_tx_cases k r a c s = elim (Option-cases (find_deposit k s.deposits)) [
  | inl e ↦ inl (ground arith)
  | inr (d, e) ↦ elim (Option-cases (find_wallet d.user s.wallets)) [
    | inl m ↦ inl (ground arith)
    | inr (w, m) ↦ elim (Bool-cases (ref_taken r k s.deposits)) [
      | inl busy ↦ inl (ground arith)
      | inr free ↦ elim (Bool-cases (amount_mismatch a d.amount)) [
        | inl bad ↦ inl (ground arith)
        | inr fits ↦ elim (confirmed_or_not d.status) [
          | inl ready ↦ inr (d, w, m, rw (credit_tx_found k r a c d s e ready w fits m free))
          | inr other ↦ inl (ground arith)
        ]
      ]
    ]
  ]
]

credit_tx-IsReconciled :
    (k r : ℕ) (a : ℤ) (c : Option ℕ) (s : Store)
    → IsReconciled s
    → IsReconciled (transaction (credit_tx k r a c) s).1
credit_tx-IsReconciled k r a c s h = elim (credit_tx_cases k r a c s) [
  | inl e ↦ rw e h
  | inr (d, w, m, e) ↦ rw e (settle-IsReconciled k d r (or_else c d.currency) w s m h)
]

-- After its transaction a credit only emits events.
credit_seen_books :
    (w : Webhook) (seen : Deposit) (s : Store)
    → SameBooks
        (transaction
          (credit_tx seen.id w.reference w.amount (some (or_else w.currency seen.currency)))
          s).1
        (credit_seen w seen s).1
unfolding credit_seen transition_to_credit
credit_seen_books w seen s = ground arith

-- A step of some handler, on the row that it saw earlier, or of the other entry points.
pub data Step : Type 0 where
  initiates : ℕ → ℤ → ℕ → ℕ → Session → Step
  confirms credits : Webhook → Deposit → Step
  fails : Deposit → Step
  expires : ℕ → ℕ → Step

unfoldable pub run_step : Step → Store → Store
run_step (initiates u a c now x) s = (initiate_deposit u a c now x s).1
run_step (confirms w seen) s = (confirm_seen w seen s).1
run_step (credits w seen) s = (credit_seen w seen s).1
run_step (fails seen) s = (fail_seen seen s).1
run_step (expires now older) s = (expire_stale now older s).1

unfoldable pub run_steps : List Step → Store → Store
run_steps [] s = s
run_steps (c ∷ cs) s = run_steps cs (run_step c s)

pub run_step-IsReconciled : (c : Step) (s : Store) → IsReconciled s → IsReconciled (run_step c s)
unfolding run_step
run_step-IsReconciled (initiates u a c now x) s h = elim (initiate_books u a c now x s) [
  | inl b ↦ SameBooks-IsReconciled s _ b h
  | inr b ↦ SameBooks-IsReconciled (get_or_create u s).1 _ b (get_or_create-IsReconciled u s h)
]
run_step-IsReconciled (confirms w seen) s h =
    SameBooks-IsReconciled s _ (confirm_seen-SameBooks w seen s) h
run_step-IsReconciled (credits w seen) s h =
    SameBooks-IsReconciled _ _ (credit_seen_books w seen s) (
      credit_tx-IsReconciled seen.id w.reference w.amount (some (or_else w.currency seen.currency))
        s h)
run_step-IsReconciled (fails seen) s h = SameBooks-IsReconciled s _ (fail_seen-SameBooks seen s) h
run_step-IsReconciled (expires now older) s h =
    SameBooks-IsReconciled s _ (expire_stale-SameBooks now older s) h

-- In whatever order the steps of deposits and of webhook handlers run, each on whatever row it saw
-- before, every wallet stays equal to what its ledger rows add up to, and row identifiers stay
-- unique.
run_steps-IsReconciled :
    (cs : List Step) (s : Store) → IsReconciled s → IsReconciled (run_steps cs s)
unfolding run_steps
run_steps-IsReconciled [] s h = h
run_steps-IsReconciled (c ∷ cs) s h =
    run_steps-IsReconciled cs (run_step c s) (run_step-IsReconciled c s h)
