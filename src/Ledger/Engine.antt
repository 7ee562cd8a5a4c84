-- ===== src/Ledger/Engine.antt =====
-- wallet-service/ledger.engine.ts: `LedgerEngine`. Notes, timestamps and metrics are left out; the
-- live quotes are an argument.
use apiv.Base.{ℕ, Option, none, some, Bool, true, false, ◌&&◌, not, ◌==◌, if◌then◌else◌, or_else}
use apiv.Base.Int.{ℤ, ◌+ℤ◌, ◌-ℤ◌, ◌*ℤ◌, ltb_ℤ, neg}
use apiv.Store.{
  Entry, LedgerType, EntryStatus, Reference, Audit, Quote, Store, Action, Result, deposit_request,
  withdraw_request, admin_capital_allocation, pending_admin, completed, approved, rejected,
  approved_ref, text_ref, broker_float, client, deposit_approved, withdrawal_approved,
  deposit_rejected, withdrawal_rejected, wallet_credit, wallet_debit, pure, gets, or_throw,
  transaction, ◌>>=◌, ◌>>◌, throw_if, modify, add_entry, add_audit, emit, insufficient_balance,
  insufficient_free_margin, entry_not_found_or_invalid_state,
}
use apiv.Store.Tables.{find_wallet, find_entry, set_status}
use apiv.Wallet.Repository.{get_or_create, find_account, write_balance, usd}
use apiv.Ledger.Balance.{live_free_margin, scale}

-- Tests on the columns of a row.
abbrev pub is_deposit_request : LedgerType → Bool
is_deposit_request deposit_request = true
is_deposit_request _ = false

abbrev pub is_withdraw_request : LedgerType → Bool
is_withdraw_request withdraw_request = true
is_withdraw_request _ = false

abbrev pub is_allocation : LedgerType → Bool
is_allocation admin_capital_allocation = true
is_allocation _ = false

abbrev pub is_pending : EntryStatus → Bool
is_pending pending_admin = true
is_pending _ = false

abbrev pub is_completed : EntryStatus → Bool
is_completed completed = true
is_completed _ = false

abbrev pub is_approval_of : ℕ → Reference → Bool
is_approval_of k (approved_ref j) = j == k
is_approval_of k _ = false

abbrev pub request_entry : ℕ → ℤ → LedgerType → Reference → EntryStatus → ℕ → Entry
request_entry u amount type reference status id = record {
  id = id;
  user = u;
  currency = usd;
  amount = amount;
  type = type;
  reference = reference;
  status = status;
  running_balance = none;
  debit_account = none;
  credit_account = none;
}

-- A missing reference is `DEP-{now}`.
unfoldable pub request_deposit : ℕ → ℤ → Option Reference → ℕ → Action (ℕ × Reference)
request_deposit u amount given now = do
  get_or_create u
  id ← gets (λ s. s.next_id)
  let reference = or_else given (text_ref now)
  modify (add_entry (request_entry u amount deposit_request reference pending_admin))
  pure (id, reference)

abbrev pub allocation_entry : ℕ → ℤ → ℕ → ℤ → ℕ → Entry
allocation_entry u amount request b id = record {
  id = id;
  user = u;
  currency = usd;
  amount = amount;
  type = admin_capital_allocation;
  reference = approved_ref request;
  status = completed;
  running_balance = some b;
  debit_account = some broker_float;
  credit_account = some (client u);
}

-- The row that an approval of `request` leaves, and the request's own row.
abbrev pub is_deposit_approval : ℕ → ℕ → Entry → Bool
is_deposit_approval u request e =
    (e.user == u) && (is_approval_of request e.reference && is_allocation e.type)

abbrev pub is_deposit_row : ℕ → ℕ → Entry → Bool
is_deposit_row u request e = (e.id == request) && ((e.user == u) && is_deposit_request e.type)

abbrev pub mark : (Entry → Bool) → EntryStatus → Store → Store
mark p st s = record s { ledger = set_status p st s.ledger }

abbrev pub deposit_audit : ℕ → ℕ → Audit
deposit_audit admin u = record { actor = admin; action = deposit_approved; entity = u }

-- What the transaction of `approveDeposit` does once the guard is passed.
abbrev pub allocate : ℕ → ℤ → ℕ → ℕ → ℤ → Store → Store
allocate u amount request admin b s = add_audit (deposit_audit admin u) (
    mark (is_deposit_row u request) approved
      (add_entry (allocation_entry u amount request b) (write_balance u b s)))

-- The transaction of `approveDeposit`; it returns `approved`.
unfoldable pub approve_deposit_tx : ℕ → ℤ → ℕ → ℕ → Action Bool
approve_deposit_tx u amount request admin s =
    elim (find_entry (is_deposit_approval u request) s.ledger) [
      | some _ ↦ (Result.ok false, s)
      | none ↦
          (do
            account ← find_account u
            modify (allocate u amount request admin (account.balance +ℤ amount))
            pure true)
            s
    ]

abbrev pub announce : Bool → Store → Store → Store
announce done t s = if done then t else s

unfoldable pub approve_deposit : ℕ → ℤ → ℕ → ℕ → Action (Unit {0})
approve_deposit u amount request admin = do
  get_or_create u
  done ← transaction (approve_deposit_tx u amount request admin)
  modify (λ s. announce done (emit (wallet_credit u amount (approved_ref request)) s) s)

module _ (quotes : ℕ → Option Quote) where
  -- The status and the row of a withdrawal request: refused when above the free margin.
  unfoldable pub request_withdrawal : ℕ → ℤ → Reference → Action EntryStatus
  request_withdrawal u amount destination s = elim (find_wallet u s.wallets) [
    | none ↦ (Result.ok rejected, s)
    | some _ ↦
        let status : EntryStatus =
          if ltb_ℤ (live_free_margin quotes u s) (amount *ℤ scale)
          then rejected
          else pending_admin in
        (
          Result.ok status,
          add_entry (request_entry u (neg amount) withdraw_request destination status) s,
        )
  ]

abbrev pub withdrawal_entry : ℕ → ℤ → ℕ → ℤ → ℕ → Entry
withdrawal_entry u amount request b id = record {
  id = id;
  user = u;
  currency = usd;
  amount = neg amount;
  type = withdraw_request;
  reference = approved_ref request;
  status = completed;
  running_balance = some b;
  debit_account = some (client u);
  credit_account = some broker_float;
}

abbrev pub is_withdrawal_approval : ℕ → ℕ → Entry → Bool
is_withdrawal_approval u request e =
    (e.user == u)
    && (is_approval_of request e.reference && (is_withdraw_request e.type && is_completed e.status))

abbrev pub is_withdrawal_row : ℕ → ℕ → Entry → Bool
is_withdrawal_row u request e =
    (e.id == request) && ((e.user == u) && (is_withdraw_request e.type && is_pending e.status))

abbrev pub withdrawal_audit : ℕ → ℕ → Audit
withdrawal_audit admin u = record { actor = admin; action = withdrawal_approved; entity = u }

abbrev pub pay_out : ℕ → ℤ → ℕ → ℕ → ℤ → Store → Store
pay_out u amount request admin b s = add_audit (withdrawal_audit admin u) (
    mark (is_withdrawal_row u request) approved
      (add_entry (withdrawal_entry u amount request b) (write_balance u b s)))

module _ (quotes : ℕ → Option Quote) where
  -- The transaction of `approveWithdrawal`.
  unfoldable pub approve_withdrawal_tx : ℕ → ℤ → ℕ → ℕ → Action Bool
  approve_withdrawal_tx u amount request admin s =
      elim (find_entry (is_withdrawal_approval u request) s.ledger) [
        | some _ ↦ (Result.ok false, s)
        | none ↦
            (do
              account ← find_account u
              throw_if (ltb_ℤ account.balance amount) insufficient_balance
              free ← gets (live_free_margin quotes u)
              throw_if (ltb_ℤ free (amount *ℤ scale)) insufficient_free_margin
              modify (pay_out u amount request admin (account.balance -ℤ amount))
              pure true)
              s
      ]

  unfoldable pub approve_withdrawal : ℕ → ℤ → ℕ → ℕ → Action (Unit {0})
  approve_withdrawal u amount request admin = do
    done ← transaction (approve_withdrawal_tx u amount request admin)
    modify (λ s. announce done (emit (wallet_debit u amount (approved_ref request)) s) s)

-- The row is the user's own request of that type and still waits for review.
abbrev pub is_open_request : (LedgerType → Bool) → ℕ → Entry → Bool
is_open_request is_type u e = (e.user == u) && (is_type e.type && is_pending e.status)

abbrev pub has_id : ℕ → Entry → Bool
has_id k e = e.id == k

-- The common body of `rejectDeposit` and `rejectWithdrawal`.
unfoldable pub reject_tx : (LedgerType → Bool) → Audit → ℕ → ℕ → Action (Unit {0})
reject_tx is_type audit u k = do
  found ← gets (λ s. find_entry (has_id k) s.ledger)
  entry ← or_throw found entry_not_found_or_invalid_state
  throw_if (not (is_open_request is_type u entry)) entry_not_found_or_invalid_state
  modify (λ s. add_audit audit (mark (has_id k) rejected s))

unfoldable pub reject_deposit : ℕ → ℕ → ℕ → Action (Unit {0})
reject_deposit u k admin = transaction (
    reject_tx is_deposit_request (record { actor = admin; action = deposit_rejected; entity = k }) u
      k)

unfoldable pub reject_withdrawal : ℕ → ℕ → ℕ → Action (Unit {0})
reject_withdrawal u k admin = transaction (
    reject_tx is_withdraw_request
      (record { actor = admin; action = withdrawal_rejected; entity = k }) u k)
