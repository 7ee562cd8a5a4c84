-- ===== src/Reconciliation/Check.antt =====
-- settlement/reconciliation.engine.ts: `checkUser`. Sums are exact where the source's are in doubles.
use apiv.Base.{
  ℕ, none, some, List, [], ◌∷◌, Bool, true, false, ◌&&◌, ◌||◌, not, ◌==◌, if◌then◌else◌, leb,
}
use apiv.Base.Int.{ℤ, pos, ◌-ℤ◌, leb_ℤ, abs}
use apiv.Store.{Wallet, Position, Store}
use apiv.Store.Tables.{find_wallet}
use apiv.Wallet.Reconciliation.{ledger_sum}
use apiv.Settlement.Engine.{is_open}
use apiv.Margin.Controller.{open_margin}

pub data CheckStatus : Type 0 where
  fine mismatch skipped : CheckStatus

-- `UserReconciliationResult`, with the fields that the sweep reads.
pub record UserResult : Type 0 where
  pub user : ℕ
  pub margin : CheckStatus
  pub margin_delta : ℤ
  pub ledger_balance : CheckStatus
  pub balance_delta : ℤ
  pub position_integrity : CheckStatus
  pub malformed : List ℕ
  pub wallet_existence : CheckStatus
  pub clean : Bool

-- `EPSILON`: a cent.
abbrev pub epsilon : ℤ
epsilon = pos 1000000

abbrev pub within : ℤ → CheckStatus
within delta = if leb_ℤ (abs delta) epsilon then fine else mismatch

abbrev is_mismatch : CheckStatus → Bool
is_mismatch mismatch = true
is_mismatch _ = false

abbrev pub is_open_of : ℕ → Position → Bool
is_open_of u p = (p.user == u) && is_open p.status

abbrev pub is_malformed : Position → Bool
is_malformed p =
    leb_ℤ p.entry_price (pos 0)
    || (leb_ℤ p.margin_used (pos 0) || (leb_ℤ p.quantity (pos 0) || leb p.leverage 0))

unfoldable pub malformed_positions : ℕ → List Position → List ℕ
malformed_positions u [] = []
malformed_positions u (p ∷ ps) =
    let rest = malformed_positions u ps in
    if is_open_of u p && is_malformed p then p.id ∷ rest else rest

unfoldable pub has_open : ℕ → List Position → Bool
has_open u [] = false
has_open u (p ∷ ps) = is_open_of u p || has_open u ps

abbrev none_of : List ℕ → CheckStatus
none_of [] = fine
none_of (x ∷ xs) = mismatch

abbrev pub without_wallet : ℕ → Bool → UserResult
without_wallet u exposed = record {
  user = u;
  margin = skipped;
  margin_delta = pos 0;
  ledger_balance = skipped;
  balance_delta = pos 0;
  position_integrity = skipped;
  malformed = [];
  wallet_existence = if exposed then mismatch else skipped;
  clean = not exposed;
}

unfoldable pub with_wallet : ℕ → Wallet → Store → UserResult
with_wallet u w s =
    let margin_delta = w.locked -ℤ open_margin u s.positions in
    let balance_delta = w.balance -ℤ ledger_sum u s.ledger in
    let broken = malformed_positions u s.positions in
    record {
      user = u;
      margin = within margin_delta;
      margin_delta = margin_delta;
      ledger_balance = within balance_delta;
      balance_delta = balance_delta;
      position_integrity = none_of broken;
      malformed = broken;
      wallet_existence = fine;
      clean =
          not (is_mismatch (within margin_delta))
          && (not (is_mismatch (within balance_delta)) && not (is_mismatch (none_of broken)));
    }

unfoldable pub check_user : ℕ → Store → UserResult
check_user u s = elim (find_wallet u s.wallets) [
  | none ↦ without_wallet u (has_open u s.positions)
  | some w ↦ with_wallet u w s
]
