-- ===== src/Execution/Setting.antt =====
-- execution-service/execution.engine.ts: what `execute` is given and what it reads around a call, its
-- gates before the transaction and the amounts of a fill. Quantities, prices and amounts are in units
-- of 1e-8. The gates, the result of the fill engine, the quotes, the failures of a release and when
-- the caller cancels are a `Setting`; the quotients of doubles, rounded to the scale of a column, are
-- the operations of `Rounding`.
use apiv.Base.{ℕ, zero, suc, Option, none, some, ◌∷◌, Bool, true, false, not, ◌&&◌, if◌then◌else◌}
use apiv.Base.Int.{ℤ, pos, ◌*ℤ◌, ltb_ℤ}
use apiv.Store.{Side, Quote, Store}
use apiv.Settlement.Commission.{Tier}
use apiv.Margin.Controller.{release_margin}
use apiv.Reconciliation.Repair.{repair_orphan_margin}
use apiv.Execution.Rows.{
  Kind, fok, Refusal, kill_switch_active, kyc_not_approved, no_live_market_data, requote,
  lp_unavailable, fok_unfillable, execution_timeout, Message, Desk,
}
use apiv.Execution.Limits.{Mids}

pub record Request : Type 0 where
  pub order : ℕ
  pub user : ℕ
  pub symbol : ℕ
  pub side : Side
  pub kind : Kind
  pub quantity : ℤ
  pub leverage : ℕ
  pub pre_locked_margin : Option ℤ

-- `FillResult`.
pub record FillResult : Type 0 where
  pub average_price : ℤ
  pub filled_quantity : ℤ
  pub remaining_quantity : ℤ
  pub slippage : ℤ
  pub fees : ℤ
  pub partial_fill : Bool

-- `over n l` is n / l for a notional in units of 1e-16, and `share f q a` is (f / q) * a.
pub record Rounding : Type 0 where
  pub over : ℤ → ℕ → ℤ
  pub share : ℤ → ℤ → ℤ → ℤ

pub record Setting : Type 0 where
  pub rounding : Rounding
  pub kill_switch : Bool
  pub eligible : Bool
  pub stale : Bool
  pub requoted : Bool
  -- `none`: the fill engine throws.
  pub fill : Option FillResult
  pub cancelled_before_lock : Bool
  pub cancelled_after_lock : Bool
  pub quotes : ℕ → Option Quote
  pub mids : Mids
  pub tier : Tier
  -- The attempts at a release that the database fails, and the time of a repair.
  pub release_fails : ℕ → Bool
  pub stamp : ℕ

abbrev pub with_store : (Store → Store) → Desk → Desk
with_store f d = record d { store = f d.store }

abbrev pub post : Message → Desk → Desk
post m d = record d { messages = m ∷ d.messages }

-- `releaseMarginWithRetry`: `left` attempts are left, of which the next is number `attempt`.
unfoldable pub release_attempts : (ℕ → Bool) → ℕ → ℕ → ℕ → (user order : ℕ) → ℤ → Store → Store
release_attempts fails stamp zero attempt u order amount s = (repair_orphan_margin u stamp s).1
release_attempts fails stamp (suc left) attempt u order amount s =
    let later = release_attempts fails stamp left (suc attempt) u order amount s in
    if fails attempt then later else (release_margin u order amount s).1

unfoldable pub release_margin_with_retry : Setting → (user order : ℕ) → ℤ → Store → Store
unfolding release_attempts
release_margin_with_retry e u order amount =
    release_attempts e.release_fails e.stamp 5 1 u order amount

unfoldable pub release_pre_locked : Setting → Request → Store → Store
release_pre_locked e r s = elim r.pre_locked_margin [
  | none ↦ s
  | some amount ↦ release_margin_with_retry e r.user r.order amount s
]

-- The gates that refuse before the transaction, in the order of the code, or what the fill engine
-- gives.
pub data Gate : Type 0 where
  shut : Refusal → Gate
  passed : FillResult → Gate

abbrev pub is_partial : FillResult → Bool
is_partial f = f.partial_fill && ltb_ℤ (pos 0) f.remaining_quantity

abbrev is_fok : Kind → Bool
is_fok fok = true
is_fok _ = false

unfoldable pub entry_gate : Setting → Option Refusal
entry_gate e =
    if e.kill_switch
    then some kill_switch_active
    else (if not e.eligible then some kyc_not_approved else none)

unfoldable pub price_gate : Setting → Request → Gate
price_gate e r =
    if e.stale
    then shut no_live_market_data
    else (if e.requoted then shut requote else elim e.fill [
      | none ↦ shut lp_unavailable
      | some f ↦
          if is_fok r.kind && is_partial f
          then shut fok_unfillable
          else (if e.cancelled_before_lock then shut execution_timeout else passed f)
    ])

-- The amounts of a fill.
unfoldable pub real_notional : Request → FillResult → ℤ
real_notional r f = r.quantity *ℤ f.average_price

unfoldable pub real_margin : Rounding → Request → FillResult → ℤ
real_margin n r f = n.over (real_notional r f) r.leverage

unfoldable pub effective_margin : Rounding → Request → FillResult → ℤ
effective_margin n r f =
    if is_partial f
    then n.share f.filled_quantity r.quantity (real_margin n r f)
    else real_margin n r f

unfoldable pub effective_notional : Rounding → Request → FillResult → ℤ
effective_notional n r f =
    if is_partial f
    then n.share f.filled_quantity r.quantity (real_notional r f)
    else real_notional r f
