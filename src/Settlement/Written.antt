-- ===== src/Settlement/Written.antt =====
-- What a settlement that passes its checks leaves: the wallet, the sums of the books, the position.
use apiv.Base.{ℕ, ◌≡◌, ◌∙◌, some, arith, ◌==◌, if◌then◌else◌}
use apiv.Base.Int.{ℤ, pos, ◌+ℤ◌, ◌≤ℤ◌, neg}
use apiv.Store.{Wallet, Store}
use apiv.Store.Tables.{find_wallet, set_balance, add_locked, find_wallet-set_balance_self, Below}
use apiv.Wallet.Reconciliation.{
  ledger_sum, margin_sum, balance_of, locked_of, balance_of-set_balance, locked_of-set_balance,
  balance_of-add_locked, locked_of-add_locked,
}
use apiv.Settlement.Engine.{
  SettleInput, Amounts, write_settlement, write_off, close_position, position_status,
}
use apiv.Settlement.Legs.{
  add_legs-wallets, add_legs-positions, add_legs-Below, add_legs-ledger_sum, add_legs-margin_sum,
}

write_off-nonneg : (x : ℤ) → pos 0 ≤ℤ write_off x
unfolding write_off
write_off-nonneg x = ground arith

module _ (i : SettleInput) (a : Amounts) (released : ℤ) (w : Wallet) (s : Store) where
  abbrev pub left : ℤ
  left = w.balance +ℤ a.net +ℤ write_off (w.balance +ℤ a.net)

  pub write_settlement-wallets :
      (write_settlement i a released w s).wallets
      ≡ add_locked i.user (neg released) (set_balance i.user left s.wallets)
  unfolding write_settlement
  write_settlement-wallets = add_legs-wallets i a released _ _ _

  pub write_settlement-positions :
      (write_settlement i a released w s).positions
      ≡ close_position i.position_id (position_status i.reason) s.positions
  unfolding write_settlement
  write_settlement-positions = add_legs-positions i a released _ _ _

  pub write_settlement-Below :
      Below s.next_id s.ledger
      → Below (write_settlement i a released w s).next_id (write_settlement i a released w s).ledger
  unfolding write_settlement
  write_settlement-Below fresh = add_legs-Below i a released _ _ _ fresh

  pub write_settlement-ledger_sum :
      (v : ℕ)
      → pos 0 ≤ℤ a.fee
      → ledger_sum v (write_settlement i a released w s).ledger ≡ (
          if v == i.user
          then write_off (w.balance +ℤ a.net) +ℤ (neg a.fee +ℤ (a.capped +ℤ ledger_sum v s.ledger))
          else ledger_sum v s.ledger)
  unfolding write_settlement
  write_settlement-ledger_sum v fee =
      add_legs-ledger_sum i a released _ _ _ v fee (write_off-nonneg (w.balance +ℤ a.net))

  pub write_settlement-margin_sum :
      (v : ℕ)
      → margin_sum v (write_settlement i a released w s).ledger
        ≡ (if v == i.user then neg released +ℤ margin_sum v s.ledger else margin_sum v s.ledger)
  unfolding write_settlement
  write_settlement-margin_sum v = add_legs-margin_sum i a released _ _ _ v

module _ (i : SettleInput) (a : Amounts) (released : ℤ) (w : Wallet) (s : Store)
    (found : find_wallet i.user s.wallets ≡ some w) where
  updated :
      find_wallet i.user (set_balance i.user (left i a released w s) s.wallets)
      ≡ some (record w { balance = left i a released w s })
  updated = find_wallet-set_balance_self i.user (left i a released w s) w s.wallets found

  pub write_settlement-balance_of :
      (v : ℕ)
      → balance_of v (write_settlement i a released w s).wallets
        ≡ (if v == i.user then left i a released w s else balance_of v s.wallets)
  write_settlement-balance_of v = rw (write_settlement-wallets i a released w s) (
      balance_of-add_locked i.user v (neg released) _ _ updated
      ∙ balance_of-set_balance i.user v (left i a released w s) w s.wallets found)

  pub write_settlement-locked_of :
      (v : ℕ)
      → locked_of v (write_settlement i a released w s).wallets
        ≡ (if v == i.user then w.locked +ℤ neg released else locked_of v s.wallets)
  write_settlement-locked_of v = rw (write_settlement-wallets i a released w s) (balance_locked v)
    where
      balance_locked :
          (v : ℕ)
          → locked_of v (
              add_locked i.user
                (neg released)
                (set_balance i.user (left i a released w s) s.wallets))
            ≡ (if v == i.user then w.locked +ℤ neg released else locked_of v s.wallets)
      balance_locked v = ground (
        arith,
        locked_of-add_locked i.user v (neg released) (record w { balance = left i a released w s })
            (set_balance i.user (left i a released w s) s.wallets) updated,
        locked_of-set_balance i.user v (left i a released w s) w s.wallets found,
      )
