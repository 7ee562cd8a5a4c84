-- ===== src/Ledger/Marks.antt =====
-- Changing the status of rows that no sum counts leaves the books as they are.
use apiv.Base.{
  ℕ, ◌≤◌, ◌≡◌, refl, some, List, [], ◌∷◌, Bool, true, false, arith, ◌==◌, Bool-cases, inl, inr,
}
use apiv.Store.{Entry, EntryStatus, Store}
use apiv.Store.Tables.{find_entry, set_status, Below, Below-set_status}
use apiv.Wallet.Reconciliation.{IsReconciled, is_counted, ledger_sum, margin_sum}
use apiv.Ledger.Engine.{mark, has_id}

-- A row that the mark meets counts neither before nor after.
abbrev pub IsInert : (Entry → Bool) → EntryStatus → List Entry → Type 0
IsInert p st [] = Unit {0}
IsInert p st (e ∷ es) =
    (p e ≡ true → (is_counted e.type e.status ≡ false) × (is_counted e.type st ≡ false))
    × IsInert p st es

pub ledger_sum-mark :
    (p : Entry → Bool) (st : EntryStatus) (u : ℕ) (es : List Entry)
    → IsInert p st es
    → ledger_sum u (set_status p st es) ≡ ledger_sum u es
unfolding ledger_sum set_status
ledger_sum-mark p st u [] h = refl
ledger_sum-mark p st u (e ∷ es) h = ground (arith, ledger_sum-mark p st u es h.1)

pub margin_sum-mark :
    (p : Entry → Bool) (st : EntryStatus) (u : ℕ) (es : List Entry)
    → margin_sum u (set_status p st es) ≡ margin_sum u es
unfolding margin_sum set_status
margin_sum-mark p st u [] = refl
margin_sum-mark p st u (e ∷ es) = ground (arith, margin_sum-mark p st u es)

pub mark-IsReconciled :
    (p : Entry → Bool) (st : EntryStatus) (s : Store)
    → IsInert p st s.ledger
    → IsReconciled s
    → IsReconciled (mark p st s)
mark-IsReconciled p st s h r = record {
  balances = λ u. rw (ledger_sum-mark p st u s.ledger h) (r.balances u);
  margins = λ u. rw (margin_sum-mark p st u s.ledger) (r.margins u);
  fresh = Below-set_status p st s.next_id s.ledger r.fresh;
}

-- A mark whose test implies an uncounted type and status is inert on every ledger.
IsInert-everywhere :
    (p : Entry → Bool) (st : EntryStatus) (es : List Entry)
    → ((e : Entry)
        → p e ≡ true
        → (is_counted e.type e.status ≡ false) × (is_counted e.type st ≡ false))
    → IsInert p st es
IsInert-everywhere p st [] h = tt
IsInert-everywhere p st (e ∷ es) h = (h e, IsInert-everywhere p st es h)

-- Below a bound no row has the bound, or more, for its identifier.
IsInert-Below :
    (k n : ℕ) (st : EntryStatus) (es : List Entry) → Below n es → n ≤ k → IsInert (has_id k) st es
IsInert-Below k n st [] b h = tt
IsInert-Below k n st (e ∷ es) b h =
    (λ hit. absurd (ground arith), IsInert-Below k e.id st es b.1 (ground arith))

-- Identifiers being unique, a mark by identifier meets the row that the look-up found, and no other.
pub IsInert-found :
    (k n : ℕ) (st : EntryStatus) (found : Entry) (es : List Entry)
    → Below n es
    → find_entry (has_id k) es ≡ some found
    → is_counted found.type found.status ≡ false
    → is_counted found.type st ≡ false
    → IsInert (has_id k) st es
unfolding find_entry
IsInert-found k n st found [] b e before after = tt
IsInert-found k n st found (x ∷ es) b e before after = (
  λ hit. ground arith,
  elim (Bool-cases (x.id == k)) [
    | inl hit ↦ IsInert-Below k x.id st es b.1 (ground arith)
    | inr miss ↦ IsInert-found k x.id st found es b.1 (ground arith) before after
  ],
)

pub mark_everywhere-IsReconciled :
    (p : Entry → Bool) (st : EntryStatus) (s : Store)
    → ((e : Entry)
        → p e ≡ true
        → (is_counted e.type e.status ≡ false) × (is_counted e.type st ≡ false))
    → IsReconciled s
    → IsReconciled (mark p st s)
mark_everywhere-IsReconciled p st s h r =
    mark-IsReconciled p st s (IsInert-everywhere p st s.ledger h) r
