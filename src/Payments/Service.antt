-- ===== src/Payments/Service.antt =====
-- payment-service/payment.service.ts: `PaymentService`. The provider's adapter (its session and its
-- parsed, signature-checked webhook) is an argument; the affiliate's commission, which is recorded
-- after the credit and cannot change it, is left out.
use apiv.Base.{ℕ, Option, none, some, Bool, true, false, or_else, if◌then◌else◌}
use apiv.Base.Int.{ℤ, pos, ltb_ℤ}
use apiv.Store.{
  Deposit, DepositStatus, confirmed, credited, failed, Store, Action, pure, throw, gets, or_throw,
  ◌>>=◌, ◌>>◌, throw_if, deposit_too_small, deposit_too_large, psp_session_failed,
  webhook_no_deposit, webhook_unhandled_outcome,
}
use apiv.Wallet.Repository.{get_or_create}
use apiv.Payments.Rows.{find_deposit, find_by_ref}
use apiv.Payments.Deposits.{
  create_requested, transition_to_pending, transition_to_confirmed, transition_to_failed,
  transition_to_credit,
}

abbrev pub min_deposit : ℤ
min_deposit = pos 1000000000

abbrev pub max_deposit : ℤ
max_deposit = pos 10000000000000

-- What `createSession` does: it throws, or gives a session that may carry a reference.
pub data Session : Type 0 where
  refused : Session
  opened : Option ℕ → Session

abbrev start_session : ℕ → Session → Action ℕ
start_session k refused = do transition_to_failed k; throw psp_session_failed
start_session k (opened r) = do transition_to_pending k r; pure k

-- It returns the identifier of the pending deposit.
unfoldable pub initiate_deposit : ℕ → ℤ → ℕ → ℕ → Session → Action ℕ
initiate_deposit u amount currency now session = do
  throw_if (ltb_ℤ amount min_deposit) deposit_too_small
  throw_if (ltb_ℤ max_deposit amount) deposit_too_large
  get_or_create u
  k ← create_requested u amount currency now
  start_session k session

pub data Verdict : Type 0 where
  paid declined unknown : Verdict

-- `parseWebhook`'s result: its statuses are CONFIRMED, FAILED and any other.
pub record Webhook : Type 0 where
  pub deposit_id : Option ℕ
  pub reference : ℕ
  pub verdict : Verdict
  pub amount : ℤ
  pub currency : Option ℕ

pub data Outcome : Type 0 where
  newly_credited already_credited marked_failed : Outcome

abbrev pub lookup_deposit : Webhook → Store → Option Deposit
lookup_deposit w s = elim (w.deposit_id) [
  | some k ↦ find_deposit k s.deposits
  | none ↦ find_by_ref w.reference s.deposits
]

abbrev pub is_confirmed_or_credited : DepositStatus → Bool
is_confirmed_or_credited confirmed = true
is_confirmed_or_credited credited = true
is_confirmed_or_credited _ = false

abbrev pub is_failed_or_credited : DepositStatus → Bool
is_failed_or_credited failed = true
is_failed_or_credited credited = true
is_failed_or_credited _ = false

-- The three parts of a confirmation, with a wait between any two: the handler looks the row up, then
-- confirms it by the status that it saw, then credits it.
unfoldable pub read_deposit : Webhook → Action Deposit
read_deposit w = do found ← gets (lookup_deposit w); or_throw found webhook_no_deposit

unfoldable pub confirm_seen : Webhook → Deposit → Action (Unit {0})
confirm_seen w seen =
    if is_confirmed_or_credited seen.status
    then pure tt
    else transition_to_confirmed seen.id w.reference

abbrev outcome_of : Bool → Outcome
outcome_of true = already_credited
outcome_of false = newly_credited

unfoldable pub credit_seen : Webhook → Deposit → Action Outcome
credit_seen w seen = do
  already ←
      transition_to_credit seen.id w.reference w.amount (some (or_else w.currency seen.currency))
  pure (outcome_of already)

unfoldable pub fail_seen : Deposit → Action Outcome
fail_seen seen = do
  if is_failed_or_credited seen.status then pure tt else transition_to_failed seen.id
  pure marked_failed

abbrev pub act : Verdict → Webhook → Deposit → Action Outcome
act paid w seen = do confirm_seen w seen; credit_seen w seen
act declined w seen = fail_seen seen
act unknown w seen = throw webhook_unhandled_outcome

unfoldable pub process_webhook : Webhook → Action Outcome
process_webhook w = do seen ← read_deposit w; act w.verdict w seen
