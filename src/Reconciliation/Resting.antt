-- ===== src/Reconciliation/Resting.antt =====
-- The sweep and the margin of orders that rest in the book.
use apiv.Base.{ℕ, ◌≡◌, inl, inr, Option, some, arith, ap, ◌∙◌}
use apiv.Base.Int.{ℤ, pos, ◌+ℤ◌, ◌-ℤ◌, ◌≤ℤ◌, ◌<ℤ◌, int_laws}
use apiv.Store.{Wallet, Quote, Store}
use apiv.Store.Tables.{find_wallet, find_wallet-add_locked_self}
use apiv.Margin.Controller.{open_margin, granted, check_and_lock, write_lock}
use apiv.Margin.Gate.{check_and_lock_granted}
use apiv.Margin.Release.{add_locked_back}
use apiv.Reconciliation.Check.{epsilon}
use apiv.Reconciliation.Repair.{repair_orphan_margin}
use apiv.Reconciliation.Repaired.{repair_cases}

added_excess : (m r : ℤ) → m +ℤ r -ℤ m ≡ r
added_excess m r = omega int_laws

-- The margin of an order that rests, with no position yet, counts as an orphan: where a client's locked
-- margin is that of its open positions, a granted lock of more than a cent is undone by the next repair,
-- which leaves every wallet as it was before the lock.
pub check_and_lock-repair_orphan_margin :
    (quotes : ℕ → Option Quote) (u order stamp : ℕ) (required : ℤ) (w : Wallet) (s : Store)
    → find_wallet u s.wallets ≡ some w
    → w.locked ≡ open_margin u s.positions
    → pos 0 ≤ℤ w.locked
    → epsilon <ℤ required
    → (check_and_lock quotes u order required s).0 ≡ granted
    → (repair_orphan_margin u stamp (check_and_lock quotes u order required s).1).1.wallets
      ≡ s.wallets
check_and_lock-repair_orphan_margin quotes u order stamp required w s found exact nonneg large
      done =
    let (w', found', kept, after) = check_and_lock_granted quotes u order required s done in
    let now = find_wallet-add_locked_self u required w s.wallets found in
    elim (repair_cases u stamp (write_lock u order required s)) [
      | inl (e, covered) ↦
          let held = covered (record w { locked = w.locked +ℤ required }) now in
          absurd (ground (arith, added_excess (open_margin u s.positions) required, exact))
      | inr (inl (e, below)) ↦
          let bound : pos 0 ≤ℤ open_margin u s.positions = rw exact at nonneg in
          absurd (omega arith)
      | inr (inr (w2, found2, excess, e)) ↦
          let same : w2.locked ≡ w.locked +ℤ required = ground (arith, now) in
          rw after (
            ap (λ r. r.1.wallets) e
            ∙ rw (same, exact, added_excess (open_margin u s.positions) required)
                (add_locked_back u required s.wallets))
    ]
