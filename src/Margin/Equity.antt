-- ===== src/Margin/Equity.antt =====
-- The equity of the margin gate and that of the withdrawal check (wallet-service/balance.calculator.ts).
use apiv.Base.{
  ℕ, ◌≡◌, refl, inl, inr, Option, some, List, [], ◌∷◌, Bool, not, All, Bool-cases, false, ◌==◌,
}
use apiv.Store.{Wallet, Position, PositionStatus, Store, Quote}
use apiv.Store.Tables.{find_wallet, find_wallet-user}
use apiv.Ledger.Balance.{unrealized_pnl, equity}
use apiv.Settlement.Engine.{SettleInput, is_open, close_position, position_status, settle, amounts}
use apiv.Settlement.Outcomes.{settle_or_nothing, settle_ok, settle_tx_passed, released_for}
use apiv.Settlement.Written.{write_settlement-positions}
use apiv.Settlement.Reconciled.{position_status-closed}
use apiv.Margin.Controller.{open_pnl, equity_of}

-- The status is open exactly when no closing time is set.
abbrev pub IsInStep : Position → Type 0
IsInStep p = is_open p.status ≡ not p.is_closed

open_pnl-unrealized_pnl :
    (quotes : ℕ → Option Quote) (u : ℕ) (ps : List Position)
    → All IsInStep ps
    → open_pnl quotes u ps ≡ unrealized_pnl quotes u ps
unfolding open_pnl unrealized_pnl
open_pnl-unrealized_pnl quotes u [] h = refl
open_pnl-unrealized_pnl quotes u (p ∷ ps) h = rw (h.0, open_pnl-unrealized_pnl quotes u ps h.1) refl

close_position-IsInStep :
    (k : ℕ) (st : PositionStatus) (ps : List Position)
    → is_open st ≡ false
    → All IsInStep ps
    → All IsInStep (close_position k st ps)
unfolding close_position
close_position-IsInStep k st [] shut h = tt
close_position-IsInStep k st (p ∷ ps) shut h =
    let rest = close_position-IsInStep k st ps shut h.1 in
    elim (Bool-cases (p.id == k)) [
      | inl same ↦ rw same (shut, h.1)
      | inr other ↦ rw other (h.0, rest)
    ]

settle-IsInStep :
    (conflict : ℕ → Bool) (i : SettleInput) (s : Store)
    → All IsInStep s.positions
    → All IsInStep (settle conflict i s).1.positions
settle-IsInStep conflict i s h = elim (settle_or_nothing conflict i s) [
  | inl done ↦
      let (b, good, positions, wallets, ledger, next) = settle_ok conflict i s done in
      let (p, w, found, account, left) = settle_tx_passed i s b good in
      rw (positions, left, write_settlement-positions i (amounts i) (released_for i w) w s)
        (close_position-IsInStep i.position_id (position_status i.reason) s.positions
          (position_status-closed i) h)
  | inr same ↦ rw same h
]

-- Where every position's status and closing time are in step, after any settlement, one that fails
-- included, the margin gate and the withdrawal check compute the same equity for a client with a wallet.
pub settle-equity :
    (conflict : ℕ → Bool) (i : SettleInput) (quotes : ℕ → Option Quote) (u : ℕ) (w : Wallet)
    (s : Store)
    → All IsInStep s.positions
    → find_wallet u (settle conflict i s).1.wallets ≡ some w
    → equity_of quotes w (settle conflict i s).1 ≡ equity quotes u (settle conflict i s).1
unfolding equity equity_of
settle-equity conflict i quotes u w s h found =
    let t = (settle conflict i s).1 in
    let same = open_pnl-unrealized_pnl quotes u t.positions (settle-IsInStep conflict i s h) in
    rw (find_wallet-user u w t.wallets found, same, found) refl
