-- ===== src/Wallet/Posting.antt =====
-- A wallet update posted together with its ledger row keeps the books reconciled.
use apiv.Base.{ℕ, ◌≡◌, some, ◌∷◌, true, false, arith}
use apiv.Base.Int.{ℤ, pos, ◌+ℤ◌, neg, int_laws}
use apiv.Store.{
  LedgerType, EntryStatus, Entry, Wallet, Store, Event, Audit, add_entry, add_audit, emit,
}
use apiv.Store.Tables.{find_wallet}
use apiv.Wallet.Repository.{write_balance, write_locked}
use apiv.Wallet.Reconciliation.{
  IsReconciled, is_counted, is_margin_type, ledger_sum, margin_sum, balance_of, locked_of,
  balance_of-set_balance, locked_of-set_balance, balance_of-add_locked, locked_of-add_locked,
}

pub margin-not_counted :
    (t : LedgerType) (st : EntryStatus) → is_counted t st ≡ true → is_margin_type t ≡ false
unfolding is_counted is_margin_type
margin-not_counted t st h = ground arith

pub not_counted-margin :
    (t : LedgerType) (st : EntryStatus) → is_margin_type t ≡ true → is_counted t st ≡ false
unfolding is_counted is_margin_type
not_counted-margin t st h = ground arith

pub zero_add : (x : ℤ) → pos 0 +ℤ x ≡ x
zero_add x = omega int_laws

pub balance_found :
    (u : ℕ) (w : Wallet) (s : Store)
    → find_wallet u s.wallets ≡ some w
    → balance_of u s.wallets ≡ w.balance
unfolding balance_of
balance_found u w s e = ground arith

pub locked_found :
    (u : ℕ) (w : Wallet) (s : Store)
    → find_wallet u s.wallets ≡ some w
    → locked_of u s.wallets ≡ w.locked
unfolding locked_of
locked_found u w s e = ground arith

-- A row that is in neither sum leaves both.
pub skip_ledger_sum :
    (v : ℕ) (e : Entry) (s : Store)
    → is_counted e.type e.status ≡ false
    → ledger_sum v (e ∷ s.ledger) ≡ ledger_sum v s.ledger
unfolding ledger_sum
skip_ledger_sum v e s h = ground (arith, zero_add (ledger_sum v s.ledger))

pub skip_margin_sum :
    (v : ℕ) (e : Entry) (s : Store)
    → is_margin_type e.type ≡ false
    → margin_sum v (e ∷ s.ledger) ≡ margin_sum v s.ledger
unfolding margin_sum
skip_margin_sum v e s h = ground (arith, zero_add (margin_sum v s.ledger))

module _ (u : ℕ) (w : Wallet) (mk : ℕ → Entry) (s : Store) where
  -- A counted row beside the write of the balance that it explains.
  pub post_balance :
      (b : ℤ)
      → IsReconciled s
      → find_wallet u s.wallets ≡ some w
      → (mk s.next_id).id ≡ s.next_id
      → (mk s.next_id).user ≡ u
      → is_counted (mk s.next_id).type (mk s.next_id).status ≡ true
      → b ≡ w.balance +ℤ (mk s.next_id).amount
      → IsReconciled (add_entry mk (write_balance u b s))
  unfolding ledger_sum
  post_balance b r found id user counted amount = record {
    balances = λ v. ground (
      arith,
      balance_of-set_balance u v b w s.wallets found,
      balance_found u w s found,
      r.balances v,
      zero_add (ledger_sum v s.ledger),
      comm,
    );
    margins = λ v. ground (
      arith,
      locked_of-set_balance u v b w s.wallets found,
      r.margins v,
      skip_margin_sum v (mk s.next_id) s,
      margin-not_counted (mk s.next_id).type (mk s.next_id).status,
    );
    fresh = ground (arith, r.fresh);
  }
    where
      comm : w.balance +ℤ (mk s.next_id).amount ≡ (mk s.next_id).amount +ℤ w.balance
      comm = omega int_laws

  -- A margin row beside the write of the locked amount that it explains.
  pub post_locked :
      (d : ℤ)
      → IsReconciled s
      → find_wallet u s.wallets ≡ some w
      → (mk s.next_id).id ≡ s.next_id
      → (mk s.next_id).user ≡ u
      → is_margin_type (mk s.next_id).type ≡ true
      → d ≡ neg (mk s.next_id).amount
      → IsReconciled (add_entry mk (write_locked u d s))
  unfolding margin_sum
  post_locked d r found id user margin amount = record {
    balances = λ v. ground (
      arith,
      balance_of-add_locked u v d w s.wallets found,
      r.balances v,
      skip_ledger_sum v (mk s.next_id) s,
      not_counted-margin (mk s.next_id).type (mk s.next_id).status,
    );
    margins = λ v. ground (
      arith,
      locked_of-add_locked u v d w s.wallets found,
      locked_found u w s found,
      r.margins v,
      zero_add (margin_sum v s.ledger),
      comm,
    );
    fresh = ground (arith, r.fresh);
  }
    where
      comm : w.locked +ℤ d ≡ d +ℤ w.locked
      comm = omega int_laws

-- A row that no sum counts, such as a request that waits for review.
pub post_uncounted :
    (mk : ℕ → Entry) (s : Store)
    → IsReconciled s
    → (mk s.next_id).id ≡ s.next_id
    → is_counted (mk s.next_id).type (mk s.next_id).status ≡ false
    → is_margin_type (mk s.next_id).type ≡ false
    → IsReconciled (add_entry mk s)
post_uncounted mk s r id counted margin = record {
  balances = λ v. ground (arith, r.balances v, skip_ledger_sum v (mk s.next_id) s);
  margins = λ v. ground (arith, r.margins v, skip_margin_sum v (mk s.next_id) s);
  fresh = ground (arith, r.fresh);
}

-- Events and audit rows are no part of the books.
pub emit-IsReconciled : (e : Event) (s : Store) → IsReconciled s → IsReconciled (emit e s)
emit-IsReconciled e s r = record { balances = r.balances; margins = r.margins; fresh = r.fresh }

pub add_audit-IsReconciled : (a : Audit) (s : Store) → IsReconciled s → IsReconciled (add_audit a s)
add_audit-IsReconciled a s r = record {
  balances = r.balances;
  margins = r.margins;
  fresh = r.fresh;
}
