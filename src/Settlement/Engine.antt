-- ===== src/Settlement/Engine.antt =====
-- settlement/settlement.engine.ts: `SettlementEngine.settle`. The wallet table has the checks of
-- prisma/migrations/20260610000000_wallet_nonneg_constraints. Exposure, metrics, alerts and the events
-- that only repeat the outcome are left out; the events that are kept are newest first.
use apiv.Base.{
  ℕ, Option, none, some, List, [], ◌∷◌, Bool, true, false, ◌||◌, not, ◌==◌, if◌then◌else◌,
}
use apiv.Base.Int.{ℤ, pos, ◌+ℤ◌, ◌-ℤ◌, ◌*ℤ◌, ltb_ℤ, neg, abs, max_ℤ, min_ℤ}
use apiv.Store.{
  LedgerType, pnl_settlement, commission, margin_release, nbp_writeoff, completed, text_ref,
  Account, broker_pnl, broker_commission, broker_nbp_writeoff, client, client_free, client_margin,
  Entry, Wallet, Side, PositionStatus, open_position, closed_position, liquidated_position,
  Position, Store, Action, pure, gets, or_throw, transaction, ◌>>=◌, ◌>>◌, throw_if, modify,
  add_entry, emit, position_not_found, position_not_open, wallet_not_found, check_violation,
  position_closed, outbox_position_closed, margin_release_event,
}
use apiv.Store.Tables.{find_wallet}
use apiv.Wallet.Repository.{usd, write_balance, write_locked, with_serializable_retry}
use apiv.Ledger.Balance.{scale}
use apiv.Ledger.Close.{Close, settle_close}
use apiv.Risk.Breaker.{AssetClass}
use apiv.Settlement.Rounding.{to_fixed}
use apiv.Settlement.Commission.{Tier, compute}

pub data CloseReason : Type 0 where
  manual stop_loss take_profit stop_out liquidation by_admin : CloseReason

pub record SettleInput : Type 0 where
  pub position_id : ℕ
  pub user : ℕ
  pub class : AssetClass
  pub side : Side
  pub quantity : ℕ
  pub entry_price : ℕ
  pub exit_price : ℕ
  pub margin_used : ℤ
  pub reason : CloseReason
  pub tier : Tier

abbrev pub position_status : CloseReason → PositionStatus
position_status stop_out = liquidated_position
position_status liquidation = liquidated_position
position_status _ = closed_position

unfoldable pub find_position : ℕ → List Position → Option Position
find_position k [] = none
find_position k (p ∷ ps) = if p.id == k then some p else find_position k ps

unfoldable pub close_position : ℕ → PositionStatus → List Position → List Position
close_position k st [] = []
close_position k st (p ∷ ps) =
    if p.id == k
    then record p { status = st; is_closed = true } ∷ ps
    else p ∷ close_position k st ps

abbrev pub is_open : PositionStatus → Bool
is_open open_position = true
is_open _ = false

-- The amounts of a settlement, in units of 1e-8. The ledger's profit is rounded to them here, where the
-- source stores it as it was computed; a profit that is whole in these units, or at the cap, is the same.
pub record Amounts : Type 0 where
  pub capped : ℤ
  pub fee : ℤ
  pub net : ℤ

abbrev pub fee_of : SettleInput → ℤ
fee_of i = pos (compute i.class i.tier i.quantity i.exit_price)

unfoldable pub close_of : SettleInput → Close
close_of i = record {
  side = i.side;
  quantity = pos i.quantity;
  entry_price = pos i.entry_price;
  exit_price = pos i.exit_price;
  margin_used = i.margin_used *ℤ scale;
  commission = fee_of i *ℤ scale;
  swap = pos 0;
}

unfoldable pub amounts : SettleInput → Amounts
amounts i = record {
  capped = to_fixed (settle_close (close_of i)).capped_pnl;
  fee = fee_of i;
  net = to_fixed (settle_close (close_of i)).net;
}

abbrev pub locked_in : Option Wallet → ℤ
locked_in none = pos 0
locked_in (some w) = w.locked

-- `Math.max(0, Math.min(currentLocked, marginUsed))`.
unfoldable pub release_of : ℤ → ℤ → ℤ
release_of locked margin_used = max_ℤ (pos 0) (min_ℤ locked margin_used)

-- The negative balance protection: what is written off, and what stays.
unfoldable pub write_off : ℤ → ℤ
write_off balance = if ltb_ℤ balance (pos 0) then abs balance else pos 0

abbrev pub leg : ℕ → ℤ → LedgerType → ℕ → Option ℤ → Account → Account → ℕ → Entry
leg u amount type k running debit credit id = record {
  id = id;
  user = u;
  currency = usd;
  amount = amount;
  type = type;
  reference = text_ref k;
  status = completed;
  running_balance = running;
  debit_account = some debit;
  credit_account = some credit;
}

abbrev pub pnl_leg : SettleInput → Amounts → ℤ → ℕ → Entry
pnl_leg i a b =
    if ltb_ℤ a.capped (pos 0)
    then leg i.user a.capped pnl_settlement i.position_id (some b) (client i.user) broker_pnl
    else leg i.user a.capped pnl_settlement i.position_id (some b) broker_pnl (client i.user)

abbrev pub commission_leg : SettleInput → Amounts → ℕ → Entry
commission_leg i a =
    leg i.user (neg a.fee) commission i.position_id none (client i.user) broker_commission

abbrev pub release_leg : SettleInput → ℤ → ℕ → Entry
release_leg i released =
    leg i.user released margin_release i.position_id none (client_margin i.user)
      (client_free i.user)

abbrev pub write_off_leg : SettleInput → ℤ → ℤ → ℕ → Entry
write_off_leg i off b =
    leg i.user off nbp_writeoff i.position_id (some b) broker_nbp_writeoff (client i.user)

abbrev pub add_when : Bool → (ℕ → Entry) → Store → Store
add_when b mk s = if b then add_entry mk s else s

-- The rows of one settlement.
unfoldable pub add_legs : SettleInput → Amounts → ℤ → ℤ → ℤ → Store → Store
add_legs i a released off b s = add_when (ltb_ℤ (pos 0) off) (write_off_leg i off b) (
    add_entry (release_leg i released)
      (add_when (ltb_ℤ (pos 0) a.fee) (commission_leg i a) (add_entry (pnl_leg i a b) s)))

abbrev pub set_position : SettleInput → Store → Store
set_position i s = record s {
  positions = close_position i.position_id (position_status i.reason) s.positions;
}

-- Everything that the transaction writes once its checks have passed.
unfoldable pub write_settlement : SettleInput → Amounts → ℤ → Wallet → Store → Store
unfolding write_off
write_settlement i a released w s =
    let moved = w.balance +ℤ a.net in
    let off = write_off moved in
    emit (outbox_position_closed i.position_id) (
      add_legs i a released off (moved +ℤ off) (
        write_locked i.user (neg released)
          (write_balance i.user (moved +ℤ off) (set_position i s))))

-- The wallet's row after the update is checked before the write-off.
abbrev pub violates : ℤ → ℤ → Bool
violates balance locked = ltb_ℤ balance (pos 0) || ltb_ℤ locked (pos 0)

unfoldable pub settle_tx : SettleInput → Action ℤ
unfolding release_of
settle_tx i = do
  row ← gets (λ s. find_position i.position_id s.positions)
  p ← or_throw row position_not_found
  throw_if (not (is_open p.status)) (position_not_open p.status)
  found ← gets (λ s. find_wallet i.user s.wallets)
  let released = release_of (locked_in found) i.margin_used
  w ← or_throw found (wallet_not_found i.user)
  throw_if (violates (w.balance +ℤ (amounts i).net) (w.locked -ℤ released)) check_violation
  modify (write_settlement i (amounts i) released w)
  pure (w.balance +ℤ (amounts i).net)

-- The conflicts that `withSettlementRetry` meets: two attempts may follow the first.
unfoldable pub settle : (ℕ → Bool) → SettleInput → Action (Unit {0})
settle conflict i = do
  with_serializable_retry conflict 2 1 (transaction (settle_tx i))
  modify (λ s.
      emit (margin_release_event i.user i.margin_used (text_ref i.position_id))
        (emit (position_closed i.position_id) s))
