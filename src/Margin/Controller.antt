-- ===== src/Margin/Controller.antt =====
-- risk-service/margin.controller.ts: `MarginController`. The wallet table has the checks of
-- prisma/migrations/20260610000000_wallet_nonneg_constraints. Equity is exact, in units of 1e-16;
-- amounts of margin are in units of 1e-8.
use apiv.Base.{ℕ, Option, none, some, List, [], ◌∷◌, Bool, ◌&&◌, ◌==◌, if◌then◌else◌}
use apiv.Base.Int.{ℤ, pos, ◌+ℤ◌, ◌-ℤ◌, ◌*ℤ◌, ltb_ℤ, leb_ℤ, neg}
use apiv.Store.{
  margin_lock, margin_release, completed, Reference, text_ref, client_free, client_margin, Entry,
  Wallet, Position, Quote, Store, Error, wallet_not_found, check_violation, insufficient_margin,
  Action, gets, modify, ◌>>=◌, add_entry, add_audit, emit, margin_released_row,
  margin_release_event, Result, transaction,
}
use apiv.Store.Tables.{find_wallet}
use apiv.Wallet.Repository.{usd, write_locked, find_account}
use apiv.Ledger.Balance.{scale, position_pnl}
use apiv.Settlement.Engine.{is_open, locked_in, release_of}

-- The reduction of `_computeUnrealizedPnl`.
unfoldable pub open_pnl : (ℕ → Option Quote) → ℕ → List Position → ℤ
open_pnl quotes u [] = pos 0
open_pnl quotes u (p ∷ ps) =
    (if (p.user == u) && is_open p.status then position_pnl (quotes p.symbol) p else pos 0)
    +ℤ open_pnl quotes u ps

-- The sum of `marginUsed` over a user's open positions.
unfoldable pub open_margin : ℕ → List Position → ℤ
open_margin u [] = pos 0
open_margin u (p ∷ ps) =
    (if (p.user == u) && is_open p.status then p.margin_used else pos 0) +ℤ open_margin u ps

-- `MarginState`, without the user and the ratio.
pub record MarginState : Type 0 where
  pub equity : ℤ
  pub margin_used : ℤ
  pub free_margin : ℤ

unfoldable pub equity_of : (ℕ → Option Quote) → Wallet → Store → ℤ
equity_of quotes w s = w.balance *ℤ scale +ℤ open_pnl quotes w.user s.positions

unfoldable pub margin_state_of : (ℕ → Option Quote) → Wallet → Store → MarginState
margin_state_of quotes w s = record {
  equity = equity_of quotes w s;
  margin_used = open_margin w.user s.positions *ℤ scale;
  free_margin = equity_of quotes w s -ℤ open_margin w.user s.positions *ℤ scale;
}

unfoldable pub get_margin_state : (ℕ → Option Quote) → ℕ → Action MarginState
get_margin_state quotes u = do w ← find_account u; gets (margin_state_of quotes w)

unfoldable pub can_accept_order : MarginState → ℤ → Bool
can_accept_order state additional =
    leb_ℤ (additional *ℤ scale) state.free_margin && ltb_ℤ (pos 0) state.equity

-- What `checkAndLockMargin` returns: it does not throw.
pub data Verdict : Type 0 where
  granted : Verdict
  refused : Error → Verdict

abbrev pub lock_entry : ℕ → ℕ → ℤ → ℕ → Entry
lock_entry u order required id = record {
  id = id;
  user = u;
  currency = usd;
  amount = neg required;
  type = margin_lock;
  reference = text_ref order;
  status = completed;
  running_balance = none;
  debit_account = some (client_free u);
  credit_account = some (client_margin u);
}

abbrev pub write_lock : ℕ → ℕ → ℤ → Store → Store
write_lock u order required s = add_entry (lock_entry u order required) (write_locked u required s)

-- The condition of the `UPDATE`.
unfoldable pub can_lock : (ℕ → Option Quote) → Wallet → ℤ → Store → Bool
can_lock quotes w required s =
    ltb_ℤ (pos 0) (equity_of quotes w s)
    && leb_ℤ (required *ℤ scale) (equity_of quotes w s -ℤ w.locked *ℤ scale)

unfoldable pub check_and_lock : (ℕ → Option Quote) → ℕ → ℕ → ℤ → Store → Verdict × Store
check_and_lock quotes u order required s = elim (find_wallet u s.wallets) [
  | none ↦ (refused (wallet_not_found u), s)
  | some w ↦
      if can_lock quotes w required s
      then (if ltb_ℤ (w.locked +ℤ required) (pos 0)
          then (refused check_violation, s)
          else (granted, write_lock u order required s))
      else (refused insufficient_margin, s)
]

unfoldable pub lock_margin : (ℕ → Option Quote) → ℕ → ℕ → ℤ → Action (Unit {0})
lock_margin quotes u order required s =
    let (verdict, t) = check_and_lock quotes u order required s in
    elim verdict [ granted ↦ (Result.ok tt, t) | refused e ↦ (Result.err e, t) ]

abbrev pub release_entry : ℕ → Reference → ℤ → ℕ → Entry
release_entry u reference released id = record {
  id = id;
  user = u;
  currency = usd;
  amount = released;
  type = margin_release;
  reference = reference;
  status = completed;
  running_balance = none;
  debit_account = some (client_margin u);
  credit_account = some (client_free u);
}

-- The identifier of the actor of an audit row.
abbrev system_execution : ℕ
system_execution = 1

abbrev pub write_release : ℕ → ℕ → ℤ → Store → Store
write_release u position released s =
    add_audit (record { actor = system_execution; action = margin_released_row; entity = position })
      (add_entry (release_entry u (text_ref position) released) (write_locked u (neg released) s))

abbrev pub eq_ℤ : ℤ → ℤ → Bool
eq_ℤ a b = leb_ℤ a b && leb_ℤ b a

-- The transaction of `releaseMargin`, and what a caller's own transaction composes.
unfoldable pub release_margin_tx : ℕ → ℕ → ℤ → Action ℤ
unfolding release_of
release_margin_tx u position amount s =
    let released = release_of (locked_in (find_wallet u s.wallets)) amount in
    if eq_ℤ released (pos 0)
    then (Result.ok (pos 0), s)
    else (Result.ok released, write_release u position released s)

unfoldable pub release_margin : ℕ → ℕ → ℤ → Action (Unit {0})
release_margin u position amount = do
  released ← transaction (release_margin_tx u position amount)
  modify (λ s.
      if ltb_ℤ (pos 0) released
      then emit (margin_release_event u released (text_ref position)) s
      else s)
