-- ===== src/Ledger/Approvals.antt =====
-- Approvals of deposits: at most one for each request, also after a rejection.
use apiv.Base.{
  ℕ, ◌≡◌, refl, inl, inr, Option, none, some, List, [], ◌∷◌, Bool, true, false, arith, ◌==◌,
  Option-cases, Bool-cases, if◌then◌else◌, is_some,
}
use apiv.Base.Int.{ℤ, ◌+ℤ◌}
use apiv.Store.{
  Entry, EntryStatus, Wallet, Store, ok, transaction, rejected, wallet_credit, approved_ref, emit,
  add_audit, deposit_rejected,
}
use apiv.Store.Tables.{find_wallet, find_entry, set_status, find_wallet-set_balance_self}
use apiv.Wallet.Repository.{get_or_create}
use apiv.Wallet.Reconciliation.{balance_of, balance_of-set_balance}
use apiv.Ledger.Engine.{
  approve_deposit, approve_deposit_tx, reject_deposit, is_deposit_approval, has_id, is_open_request,
  is_deposit_request, announce, mark,
}
use apiv.Ledger.Outcomes.{
  approve_deposit_tx_again, approve_deposit_tx_missing, approve_deposit_tx_found, reject_tx_missing,
  reject_tx_closed, reject_tx_open,
}

-- What a run of the transaction leaves when it does not throw: a row that stops every later run.
deposit_tx-leaves_row :
    (u : ℕ) (a : ℤ) (k admin : ℕ) (s : Store) (b : Bool)
    → (transaction (approve_deposit_tx u a k admin) s).0 ≡ ok b
    → let t = (transaction (approve_deposit_tx u a k admin) s).1 in
      is_some (find_entry (is_deposit_approval u k) t.ledger) ≡ true
unfolding find_entry set_status
deposit_tx-leaves_row u a k admin s b done =
    elim (Option-cases (find_entry (is_deposit_approval u k) s.ledger)) [
      | inr (old, again) ↦ rw (approve_deposit_tx_again u a k admin s old again) (rw again)
      | inl new ↦ elim (Option-cases (find_wallet u s.wallets)) [
        | inl e ↦ let d = rw (approve_deposit_tx_missing u a k admin s new e) at done in cc
        | inr (w, e) ↦ rw (approve_deposit_tx_found u a k admin s w new e) (ground arith)
      ]
    ]

deposit_tx-keeps_wallet :
    (u : ℕ) (a : ℤ) (k admin : ℕ) (s : Store)
    → is_some (find_wallet u s.wallets) ≡ true
    → is_some (find_wallet u (transaction (approve_deposit_tx u a k admin) s).1.wallets) ≡ true
deposit_tx-keeps_wallet u a k admin s has =
    elim (Option-cases (find_entry (is_deposit_approval u k) s.ledger)) [
      | inr (old, again) ↦ rw (approve_deposit_tx_again u a k admin s old again) has
      | inl new ↦ elim (Option-cases (find_wallet u s.wallets)) [
        | inl e ↦ rw (approve_deposit_tx_missing u a k admin s new e) has
        | inr (w, e) ↦
            rw (approve_deposit_tx_found u a k admin s w new e)
              (rw (find_wallet-set_balance_self u (w.balance +ℤ a) w s.wallets e))
      ]
    ]

get_or_create-has_wallet :
    (u : ℕ) (s : Store) → is_some (find_wallet u (get_or_create u s).1.wallets) ≡ true
unfolding get_or_create find_wallet
get_or_create-has_wallet u s = ground arith

get_or_create-known :
    (u : ℕ) (w : Wallet) (s : Store)
    → find_wallet u s.wallets ≡ some w
    → get_or_create u s ≡ (ok w, s)
unfolding get_or_create
get_or_create-known u w s e = ground arith

-- An approval that meets the row of an earlier one does nothing.
approve_deposit_again :
    (u : ℕ) (a : ℤ) (k admin : ℕ) (w : Wallet) (old : Entry) (s : Store)
    → find_wallet u s.wallets ≡ some w
    → find_entry (is_deposit_approval u k) s.ledger ≡ some old
    → approve_deposit u a k admin s ≡ (ok tt, s)
unfolding approve_deposit
approve_deposit_again u a k admin w old s known again =
    ground
      (arith, get_or_create-known u w s known, approve_deposit_tx_again u a k admin s old again)

approve_deposit-result :
    (u : ℕ) (a : ℤ) (k admin : ℕ) (s : Store)
    → (approve_deposit u a k admin s).0 ≡ ok tt
    → let t = transaction (approve_deposit_tx u a k admin) (get_or_create u s).1 in
      (b : Bool) × (t.0 ≡ ok b)
      × ((approve_deposit u a k admin s).1
          ≡ announce b (emit (wallet_credit u a (approved_ref k)) t.1) t.1)
unfolding approve_deposit get_or_create
approve_deposit-result u a k admin s h = ground arith

pub some_of {ℓ} : {A : Type ℓ} (o : Option A) → is_some o ≡ true → (x : A) × (o ≡ some x)
some_of none h = cc
some_of (some x) h = (x, refl)

-- A deposit request is credited at most once: after an approval that did not throw, any further
-- approval of the same request, by any admin and for any amount, changes nothing at all.
pub approve_deposit_once :
    (u : ℕ) (a a' : ℤ) (k admin admin' : ℕ) (s : Store)
    → (approve_deposit u a k admin s).0 ≡ ok tt
    → let s' = (approve_deposit u a k admin s).1 in approve_deposit u a' k admin' s' ≡ (ok tt, s')
approve_deposit_once u a a' k admin admin' s h =
    let (b, done, e) = approve_deposit-result u a k admin s h in
    let open_store = (get_or_create u s).1 in
    let t = (transaction (approve_deposit_tx u a k admin) open_store).1 in
    let row = deposit_tx-leaves_row u a k admin open_store b done in
    let has = deposit_tx-keeps_wallet u a k admin open_store (get_or_create-has_wallet u s) in
    let (w, known) = some_of (find_wallet u t.wallets) has in
    let (old, again) = some_of (find_entry (is_deposit_approval u k) t.ledger) row in
    rw e (
      approve_deposit_again u a' k admin' w old
        (announce b (emit (wallet_credit u a (approved_ref k)) t) t) (announced_wallet t b known)
        (announced_row t b again))
  where
    announced_wallet :
        (t : Store) {w : Wallet} (b : Bool)
        → find_wallet u t.wallets ≡ some w
        → find_wallet u (announce b (emit (wallet_credit u a (approved_ref k)) t) t).wallets
          ≡ some w
    announced_wallet t true e = e
    announced_wallet t false e = e

    announced_row :
        (t : Store) {x : Entry} (b : Bool)
        → find_entry (is_deposit_approval u k) t.ledger ≡ some x
        → find_entry
            (is_deposit_approval u k)
            (announce b (emit (wallet_credit u a (approved_ref k)) t) t).ledger
          ≡ some x
    announced_row t true e = e
    announced_row t false e = e

-- For a client with a wallet and a request that has no approval yet, approving a deposit succeeds,
-- credits exactly the amount to that client alone, and emits one event.
pub approve_deposit_credits :
    (u v : ℕ) (a : ℤ) (k admin : ℕ) (w : Wallet) (s : Store)
    → find_wallet u s.wallets ≡ some w
    → find_entry (is_deposit_approval u k) s.ledger ≡ none
    → let (r, s') = approve_deposit u a k admin s in
      (r ≡ ok tt)
      × (balance_of v s'.wallets ≡ (if v == u then w.balance +ℤ a else balance_of v s.wallets))
      × (s'.events ≡ wallet_credit u a (approved_ref k) ∷ s.events)
unfolding approve_deposit
approve_deposit_credits u v a k admin w s known new = ground (
  arith,
  get_or_create-known u w s known,
  approve_deposit_tx_found u a k admin s w new known,
  balance_of-set_balance u v (w.balance +ℤ a) w s.wallets known,
)

-- A look-up that ignores the status finds nothing more after a mark.
find_entry-mark_none :
    (q p : Entry → Bool) (st : EntryStatus) (es : List Entry)
    → ((e : Entry) → q (record e { status = st }) ≡ q e)
    → find_entry q es ≡ none
    → find_entry q (set_status p st es) ≡ none
unfolding find_entry set_status
find_entry-mark_none q p st [] same h = refl
find_entry-mark_none q p st (e ∷ es) same h =
    ground (arith, same e, find_entry-mark_none q p st es same)

credited :
    (u : ℕ) (a : ℤ) (k admin : ℕ) (w : Wallet) (s : Store)
    → find_wallet u s.wallets ≡ some w
    → find_entry (is_deposit_approval u k) s.ledger ≡ none
    → balance_of u (approve_deposit u a k admin s).1.wallets ≡ w.balance +ℤ a
credited u a k admin w s known new =
    ground (arith, approve_deposit_credits u u a k admin w s known new)

-- For a client with a wallet and a request that has no approval yet, a deposit request that was
-- just rejected is still credited in full by an approval.
approve_rejected_deposit :
    (u : ℕ) (a : ℤ) (k admin : ℕ) (w : Wallet) (s : Store)
    → find_wallet u s.wallets ≡ some w
    → find_entry (is_deposit_approval u k) s.ledger ≡ none
    → (reject_deposit u k admin s).0 ≡ ok tt
    → let s' = (approve_deposit u a k admin (reject_deposit u k admin s).1).1 in
      balance_of u s'.wallets ≡ w.balance +ℤ a
unfolding reject_deposit
approve_rejected_deposit u a k admin w s known new done =
    elim (Option-cases (find_entry (has_id k) s.ledger)) [
      | inl e ↦ let d = rw (reject_tx_missing is_deposit_request _ u k s e) at done in cc
      | inr (row, e) ↦ elim (Bool-cases (is_open_request is_deposit_request u row)) [
        | inr shut ↦
            let d = rw (reject_tx_closed is_deposit_request _ u k s row e shut) at done in cc
        | inl open_row ↦ rw (reject_tx_open is_deposit_request _ u k s row e open_row) (
            credited u a k admin w
              (add_audit (record { actor = admin; action = deposit_rejected; entity = k })
                (mark (has_id k) rejected s))
              known
              (find_entry-mark_none (is_deposit_approval u k) (has_id k) rejected s.ledger
                (λ e. refl) new))
      ]
    ]
