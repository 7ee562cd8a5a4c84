-- ===== src/Settlement/Books.antt =====
-- Settlements and the books.
use apiv.Base.{ℕ, ◌≡◌, some, arith, ◌==◌, if◌then◌else◌}
use apiv.Base.Int.{ℤ, pos, ◌+ℤ◌, ◌-ℤ◌, ◌≤ℤ◌, neg, int_laws}
use apiv.Store.{Wallet, Store}
use apiv.Store.Tables.{find_wallet, Below}
use apiv.Wallet.Reconciliation.{IsReconciled, ledger_sum, margin_sum, balance_of, locked_of}
use apiv.Wallet.Posting.{balance_found, locked_found}
use apiv.Settlement.Engine.{SettleInput, Amounts, write_settlement, write_off}
use apiv.Settlement.Written.{
  write_settlement-balance_of, write_settlement-locked_of, write_settlement-ledger_sum,
  write_settlement-margin_sum, write_settlement-Below,
}

-- What the balance moves by beyond its rows: the cap that takes in the fee.
abbrev pub gap : Amounts → ℤ
gap a = a.net -ℤ (a.capped -ℤ a.fee)

-- The books after a settlement: margins agree, and one balance is off by the gap.
pub record IsOffBy (u : ℕ) (d : ℤ) (s : Store) : Type 0 where
  pub balances :
      (v : ℕ)
      → balance_of v s.wallets
        ≡ (if v == u then ledger_sum v s.ledger +ℤ d else ledger_sum v s.ledger)
  pub margins : (v : ℕ) → locked_of v s.wallets ≡ margin_sum v s.ledger
  pub fresh : Below s.next_id s.ledger

module _ (i : SettleInput) (a : Amounts) (released : ℤ) (w : Wallet) (s : Store)
    (found : find_wallet i.user s.wallets ≡ some w) (fee : pos 0 ≤ℤ a.fee)
    (r : IsReconciled s) where
  pub write_settlement-IsOffBy : IsOffBy i.user (gap a) (write_settlement i a released w s)
  write_settlement-IsOffBy = record {
    balances = λ v. ground (
      arith,
      write_settlement-balance_of i a released w s found v,
      write_settlement-ledger_sum i a released w s v fee,
      balance_found i.user w s found,
      r.balances v,
      moved,
    );
    margins = λ v. ground (
      arith,
      write_settlement-locked_of i a released w s found v,
      write_settlement-margin_sum i a released w s v,
      locked_found i.user w s found,
      r.margins v,
      comm,
    );
    fresh = write_settlement-Below i a released w s r.fresh;
  }
    where
      moved :
          w.balance +ℤ a.net +ℤ write_off (w.balance +ℤ a.net)
          ≡ write_off (w.balance +ℤ a.net) +ℤ (neg a.fee +ℤ (a.capped +ℤ w.balance)) +ℤ gap a
      moved = omega int_laws

      comm : w.locked +ℤ neg released ≡ neg released +ℤ w.locked
      comm = omega int_laws
