-- ===== src/Payments/Deposits.antt =====
-- payment-service/deposit.state.machine.ts: `DepositStateMachine`. Redirect and return addresses,
-- the raw webhook data, notes and time stamps other than `requestedAt` are left out.
use apiv.Base.{ℕ, suc, ◌-◌, Option, none, some, ◌∷◌, Bool, true, false, ◌&&◌, or_else}
use apiv.Base.Int.{ℤ, pos, ◌+ℤ◌, ◌-ℤ◌, ltb_ℤ, abs}
use apiv.Store.{
  Deposit, DepositStatus, requested, pending, confirmed, credited, failed, Entry, Store, Action,
  Result, completed, deposit_credit, Reference, psp_float, client, deposit_credited, deposit_failed,
  wallet_credit, deposit_status_changed, pure, throw, gets, or_throw, transaction, ◌>>=◌, ◌>>◌,
  throw_if, modify, add_entry, add_audit, emit, deposit_not_found, deposit_amount_mismatch,
  deposit_invalid_transition, unique_violation,
}
use apiv.Wallet.Repository.{find_account, write_balance}
use apiv.Payments.Rows.{find_deposit, put_deposit, ref_taken, expire_rows}

unfoldable pub create_requested : ℕ → ℤ → ℕ → ℕ → Action ℕ
create_requested u amount currency now s = (
  Result.ok s.next_id,
  record s {
    deposits =
        record {
          id = s.next_id;
          user = u;
          amount = amount;
          currency = currency;
          status = requested;
          psp_ref = none;
          requested_at = now;
        }
        ∷ s.deposits;
    next_id = suc s.next_id;
  },
)

abbrev pub write_deposit : ℕ → Deposit → Store → Store
write_deposit k d s = record s { deposits = put_deposit k d s.deposits }

-- Prisma's `update` throws on a missing row.
abbrev pub find_row : ℕ → Action Deposit
find_row k = do found ← gets (λ s. find_deposit k s.deposits); or_throw found deposit_not_found

abbrev pub claim_ref : ℕ → ℕ → Action (Unit {0})
claim_ref r k s = throw_if (ref_taken r k s.deposits) unique_violation s

unfoldable pub transition_to_pending : ℕ → Option ℕ → Action (Unit {0})
transition_to_pending k none = do
  d ← find_row k
  modify (write_deposit k (record d { status = pending }))
transition_to_pending k (some r) = do
  d ← find_row k
  claim_ref r k
  modify (write_deposit k (record d { status = pending; psp_ref = some r }))

-- The update has no condition on the status that it replaces.
unfoldable pub transition_to_confirmed : ℕ → ℕ → Action (Unit {0})
transition_to_confirmed k r = do
  d ← find_row k
  claim_ref r k
  modify (write_deposit k (record d { status = confirmed; psp_ref = some r }))
  modify (emit (deposit_status_changed k d.user confirmed))

-- The actor "PAYMENT_SERVICE" of the audit rows.
abbrev pub payment_service : ℕ
payment_service = 0

unfoldable pub transition_to_failed : ℕ → Action (Unit {0})
transition_to_failed k = do
  d ← find_row k
  modify (write_deposit k (record d { status = failed }))
  modify (add_audit (record { actor = payment_service; action = deposit_failed; entity = k }))
  modify (emit (deposit_status_changed k d.user failed))

-- 0.01 of the currency.
abbrev pub tolerance : ℤ
tolerance = pos 1000000

-- The webhook's amount is set, and is not the amount that was requested.
unfoldable pub amount_mismatch : ℤ → ℤ → Bool
amount_mismatch webhook amount = ltb_ℤ (pos 0) webhook && ltb_ℤ tolerance (abs (webhook -ℤ amount))

abbrev pub deposit_entry : Deposit → ℕ → ℕ → ℤ → ℕ → Entry
deposit_entry d r currency b id = record {
  id = id;
  user = d.user;
  currency = currency;
  amount = d.amount;
  type = deposit_credit;
  reference = Reference.psp_ref r;
  status = completed;
  running_balance = some b;
  debit_account = some psp_float;
  credit_account = some (client d.user);
}

-- The writes of a credit: balance, ledger row, audit row, status.
abbrev pub settle : ℕ → Deposit → ℕ → ℕ → ℤ → Store → Store
settle k d r currency b s =
    write_deposit k (record d { status = credited; psp_ref = some r })
      (add_audit (record { actor = payment_service; action = deposit_credited; entity = k })
        (add_entry (deposit_entry d r currency b) (write_balance d.user b s)))

-- The credit of a confirmed deposit: the amount is the requested one, never the webhook's.
unfoldable pub credit_confirmed : ℕ → Deposit → ℕ → ℤ → Option ℕ → Action Bool
unfolding amount_mismatch
credit_confirmed k d r amount currency = do
  throw_if (amount_mismatch amount d.amount) deposit_amount_mismatch
  account ← find_account d.user
  claim_ref r k
  modify (settle k d r (or_else currency d.currency) (account.balance +ℤ d.amount))
  pure false

-- The branches of the transaction on the status; `true` is `alreadyCredited`.
abbrev pub credit_by_status : DepositStatus → Action Bool → Action Bool
credit_by_status credited m = pure true
credit_by_status confirmed m = m
credit_by_status other m = throw (deposit_invalid_transition other)

unfoldable pub credit_tx : ℕ → ℕ → ℤ → Option ℕ → Action Bool
credit_tx k r amount currency = do
  d ← find_row k
  credit_by_status d.status (credit_confirmed k d r amount currency)

abbrev pub announce_credit : Bool → ℕ → ℕ → Deposit → Store → Store
announce_credit true k r d s = s
announce_credit false k r d s =
    emit (deposit_status_changed k d.user credited)
      (emit (wallet_credit d.user d.amount (Reference.psp_ref r)) s)

-- `transitionToCredit`; an empty currency is `none`.
unfoldable pub transition_to_credit : ℕ → ℕ → ℤ → Option ℕ → Action Bool
transition_to_credit k r amount currency = do
  already ← transaction (credit_tx k r amount currency)
  d ← find_row k
  modify (announce_credit already k r d)
  pure already

unfoldable pub expire_stale : ℕ → ℕ → Action (Unit {0})
expire_stale now older_than =
    modify (λ s. record s { deposits = expire_rows (now - older_than) s.deposits })
