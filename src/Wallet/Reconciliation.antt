-- ===== src/Wallet/Reconciliation.antt =====
-- settlement/reconciliation.engine.ts: what `checkUser` sums over a user's ledger rows. The check
-- of the balance is read exactly, with no tolerance of a cent.
use apiv.Base.{
  ℕ, ◌≡◌, Option, none, some, List, [], ◌∷◌, Bool, true, false, ◌&&◌, not, arith, ◌==◌,
  if◌then◌else◌,
}
use apiv.Base.Int.{ℤ, pos, ◌+ℤ◌, neg}
use apiv.Store.{
  LedgerType, EntryStatus, Entry, Wallet, Store, withdraw_request, admin_capital_allocation,
  margin_reserved, margin_released, margin_lock, margin_release, pnl_credit, pnl_debit,
  pnl_settlement, commission, swap, adjustment, nbp_writeoff, deposit_credit, completed, approved,
}
use apiv.Store.Tables.{
  find_wallet, set_balance, add_locked, find_wallet-set_balance_self, find_wallet-set_balance_ne,
  find_wallet-add_locked_self, find_wallet-add_locked_ne, Below,
}

-- `BALANCE_TYPES.has`.
unfoldable pub is_balance_type : LedgerType → Bool
is_balance_type admin_capital_allocation = true
is_balance_type deposit_credit = true
is_balance_type withdraw_request = true
is_balance_type pnl_credit = true
is_balance_type pnl_debit = true
is_balance_type pnl_settlement = true
is_balance_type commission = true
is_balance_type swap = true
is_balance_type adjustment = true
is_balance_type nbp_writeoff = true
is_balance_type _ = false

-- The types that move `wallet.locked` alone.
unfoldable pub is_margin_type : LedgerType → Bool
is_margin_type margin_reserved = true
is_margin_type margin_released = true
is_margin_type margin_lock = true
is_margin_type margin_release = true
is_margin_type _ = false

abbrev pub is_settled : EntryStatus → Bool
is_settled completed = true
is_settled approved = true
is_settled _ = false

abbrev is_approved_withdrawal : LedgerType → EntryStatus → Bool
is_approved_withdrawal withdraw_request approved = true
is_approved_withdrawal _ _ = false

-- The row passes the query and the two filters.
unfoldable pub is_counted : LedgerType → EntryStatus → Bool
unfolding is_balance_type
is_counted type status =
    is_settled status && (is_balance_type type && not (is_approved_withdrawal type status))

-- `ledgerSum` of `checkUser`.
unfoldable pub ledger_sum : ℕ → List Entry → ℤ
ledger_sum u [] = pos 0
ledger_sum u (e ∷ es) =
    (if (e.user == u) && is_counted e.type e.status then e.amount else pos 0) +ℤ ledger_sum u es

-- The margin that the rows say is locked: a lock is posted with a negative amount.
unfoldable pub margin_sum : ℕ → List Entry → ℤ
margin_sum u [] = pos 0
margin_sum u (e ∷ es) =
    (if (e.user == u) && is_margin_type e.type then neg e.amount else pos 0) +ℤ margin_sum u es

abbrev balance : Option Wallet → ℤ
balance none = pos 0
balance (some w) = w.balance

abbrev locked : Option Wallet → ℤ
locked none = pos 0
locked (some w) = w.locked

-- A user with no wallet has nothing.
unfoldable pub balance_of : ℕ → List Wallet → ℤ
balance_of u ws = balance (find_wallet u ws)

unfoldable pub locked_of : ℕ → List Wallet → ℤ
locked_of u ws = locked (find_wallet u ws)

-- Every wallet is what the ledger says, and row identifiers are unique.
pub record IsReconciled (s : Store) : Type 0 where
  pub balances : (u : ℕ) → balance_of u s.wallets ≡ ledger_sum u s.ledger
  pub margins : (u : ℕ) → locked_of u s.wallets ≡ margin_sum u s.ledger
  pub fresh : Below s.next_id s.ledger

module _ (u v : ℕ) (x : ℤ) (w : Wallet) (ws : List Wallet) (e : find_wallet u ws ≡ some w) where
  pub balance_of-set_balance :
      balance_of v (set_balance u x ws) ≡ (if v == u then x else balance_of v ws)
  unfolding balance_of
  balance_of-set_balance =
      ground (arith, find_wallet-set_balance_self u x w ws e, find_wallet-set_balance_ne u v x ws)

  pub locked_of-set_balance : locked_of v (set_balance u x ws) ≡ locked_of v ws
  unfolding locked_of
  locked_of-set_balance =
      ground (arith, find_wallet-set_balance_self u x w ws e, find_wallet-set_balance_ne u v x ws)

  pub balance_of-add_locked : balance_of v (add_locked u x ws) ≡ balance_of v ws
  unfolding balance_of
  balance_of-add_locked =
      ground (arith, find_wallet-add_locked_self u x w ws e, find_wallet-add_locked_ne u v x ws)

  pub locked_of-add_locked :
      locked_of v (add_locked u x ws) ≡ (if v == u then w.locked +ℤ x else locked_of v ws)
  unfolding locked_of
  locked_of-add_locked =
      ground (arith, find_wallet-add_locked_self u x w ws e, find_wallet-add_locked_ne u v x ws)
