-- ===== src/Store.antt =====
-- The database rows that the money-moving services share (prisma/schema.prisma), and a call of a
-- service as a function of the store. Amounts are integers in units of 1e-8, the scale of the
-- columns' `Decimal(18, 8)`; identifiers and currency codes are numbers that are only compared.
pub mod Tables
use apiv.Base.{
  ℕ, zero, suc, ◌+◌, ◌≡◌, refl, Option, none, some, List, [], ◌∷◌, Bool, true, false, if◌then◌else◌,
}
use apiv.Base.Int.{ℤ}

-- `LedgerType`.
pub data LedgerType : Type 0 where
  deposit_request withdraw_request admin_capital_allocation : LedgerType
  margin_reserved margin_released margin_lock margin_release : LedgerType
  pnl_credit pnl_debit pnl_settlement commission swap adjustment nbp_writeoff : LedgerType
  deposit_credit fee document_event : LedgerType

pub data EntryStatus : Type 0 where
  pending_admin completed approved rejected : EntryStatus

-- The `reference` strings: `APPROVED:{id}`, `PSP:{pspRef}`, and all others.
pub data Reference : Type 0 where
  approved_ref psp_ref text_ref : ℕ → Reference

-- The `debitAccount` and `creditAccount` strings.
pub data Account : Type 0 where
  broker_float psp_float broker_pnl broker_commission broker_nbp_writeoff : Account
  client client_free client_margin : ℕ → Account

pub record Wallet : Type 0 where
  pub user : ℕ
  pub currency : ℕ
  pub balance : ℤ
  pub locked : ℤ

pub record Entry : Type 0 where
  pub id : ℕ
  pub user : ℕ
  pub currency : ℕ
  pub amount : ℤ
  pub type : LedgerType
  pub reference : Reference
  pub status : EntryStatus
  pub running_balance : Option ℤ
  pub debit_account : Option Account
  pub credit_account : Option Account

pub data Side : Type 0 where
  buy sell : Side

-- `Position.status`; a close sets it with `closedAt`.
pub data PositionStatus : Type 0 where
  open_position closed_position liquidated_position : PositionStatus

pub record Position : Type 0 where
  pub id : ℕ
  pub user : ℕ
  pub symbol : ℕ
  pub side : Side
  pub quantity : ℤ
  pub entry_price : ℤ
  pub margin_used : ℤ
  pub leverage : ℕ
  pub status : PositionStatus
  pub is_closed : Bool

pub record Quote : Type 0 where
  pub bid : ℤ
  pub ask : ℤ

pub data DepositStatus : Type 0 where
  requested pending confirmed credited failed expired : DepositStatus

pub record Deposit : Type 0 where
  pub id : ℕ
  pub user : ℕ
  pub amount : ℤ
  pub currency : ℕ
  pub status : DepositStatus
  pub psp_ref : Option ℕ
  pub requested_at : ℕ

-- Rows of the audit log, by their action and entity.
pub data AuditAction : Type 0 where
  deposit_approved withdrawal_approved deposit_rejected withdrawal_rejected : AuditAction
  deposit_credited deposit_failed margin_released_row margin_orphan_released : AuditAction
  trading_order_cancelled : AuditAction

pub record Audit : Type 0 where
  pub actor : ℕ
  pub action : AuditAction
  pub entity : ℕ

-- What is emitted, and the outbox rows that are written for it.
pub data Event : Type 0 where
  wallet_credit wallet_debit : ℕ → ℤ → Reference → Event
  margin_release_event : ℕ → ℤ → Reference → Event
  deposit_status_changed : ℕ → ℕ → DepositStatus → Event
  position_closed outbox_position_closed : ℕ → Event

-- The ledger, the audit log and the events are newest first.
pub record Store : Type 0 where
  pub wallets : List Wallet
  pub ledger : List Entry
  pub positions : List Position
  pub deposits : List Deposit
  pub audits : List Audit
  pub events : List Event
  pub next_id : ℕ

pub data Error : Type 0 where
  credit_amount_must_be_positive debit_amount_must_be_positive : Error
  wallet_not_found : ℕ → Error
  insufficient_funds insufficient_balance insufficient_free_margin : Error
  entry_not_found_or_invalid_state serialization_failure : Error
  deposit_not_found deposit_amount_mismatch webhook_no_deposit unique_violation : Error
  deposit_too_small deposit_too_large psp_session_failed webhook_unhandled_outcome : Error
  position_not_found check_violation insufficient_margin : Error
  position_not_open : PositionStatus → Error
  deposit_invalid_transition : DepositStatus → Error

pub data Result (A : Type 0) : Type 0 where
  ok : A → Result A
  err : Error → Result A

-- A call returns or throws; what it wrote stays written, unless a transaction undoes it.
abbrev pub Action : Type 0 → Type 0
Action A = Store → Result A × Store

module _ {A : Type 0} where
  abbrev pub pure : A → Action A
  pure a s = (ok a, s)

  abbrev pub throw : Error → Action A
  throw e s = (err e, s)

  abbrev pub gets : (Store → A) → Action A
  gets f s = (ok (f s), s)

  abbrev pub or_throw : Option A → Error → Action A
  or_throw none e = throw e
  or_throw (some a) _ = pure a

  -- `$transaction`: a throw rolls the store back.
  abbrev pub rollback : Store → Result A × Store → Result A × Store
  rollback s (ok a, t) = (ok a, t)
  rollback s (err e, t) = (err e, s)

  abbrev pub transaction : Action A → Action A
  transaction m s = rollback s (m s)

infixl 5 ◌>>=◌ ◌>>◌
abbrev pub ◌>>=◌ : {A B : Type 0} → Action A → (A → Action B) → Action B
◌>>=◌ m f s = let (r, t) = m s in elim r [ ok a ↦ f a t | err e ↦ (err e, t) ]

abbrev pub ◌>>◌ : {A B : Type 0} → Action A → Action B → Action B
m >> k = m >>= λ _. k

abbrev pub throw_if : Bool → Error → Action (Unit {0})
throw_if c e s = (if c then err e else ok tt, s)

abbrev pub modify : (Store → Store) → Action (Unit {0})
modify f s = (ok tt, f s)

-- A new row takes the next identifier, in place of `randomUUID()`.
abbrev pub add_entry : (ℕ → Entry) → Store → Store
add_entry e s = record s { ledger = e s.next_id ∷ s.ledger; next_id = suc s.next_id }

abbrev pub add_audit : Audit → Store → Store
add_audit a s = record s { audits = a ∷ s.audits }

abbrev pub emit : Event → Store → Store
emit e s = record s { events = e ∷ s.events }
