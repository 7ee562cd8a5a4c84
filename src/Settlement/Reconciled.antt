-- ===== src/Settlement/Reconciled.antt =====
-- How settlements end, and the books after them.
use apiv.Base.{ℕ, ◌≡◌, ◌≢◌, ◌∙◌, inl, inr, ◌⊎◌, some, Bool, true, false, arith, ◌==◌, if◌then◌else◌}
use apiv.Base.Int.{
  ℤ, pos, ◌+ℤ◌, ◌-ℤ◌, ◌*ℤ◌, ◌≤ℤ◌, ◌<ℤ◌, neg, int_laws, ltb_ℤ, ltb_ℤ-cases, min_ℤ, max_ℤ, -ℤ_parts,
}
use apiv.Store.{
  Wallet, Store, Position, Error, ok, err, transaction, check_violation, position_not_open,
}
use apiv.Store.Tables.{find_wallet}
use apiv.Wallet.Methods.{retry_succeeds, retry_cases}
use apiv.Wallet.Reconciliation.{IsReconciled, ledger_sum, balance_of, locked_of}
use apiv.Ledger.Balance.{scale}
use apiv.Settlement.Engine.{
  SettleInput, amounts, fee_of, write_settlement, write_off, find_position, position_status,
  is_open, release_of, violates, settle_tx, settle,
}
use apiv.Settlement.Outcomes.{
  released_for, settle_tx_closed, settle_tx_underwater, settle_tx_done, settle_tx_passed, settle_ok,
  find_position-close_position,
}
use apiv.Settlement.Written.{
  write_settlement-balance_of, write_settlement-locked_of, write_settlement-positions,
}
use apiv.Settlement.Books.{gap, IsOffBy, write_settlement-IsOffBy}
use apiv.Settlement.Gap.{floor, raw_of, gap_at_floor, gap_within}

-- Only the events differ after the transaction.
IsOffBy-same :
    (u : ℕ) (d : ℤ) (s t : Store)
    → t.wallets ≡ s.wallets
    → t.ledger ≡ s.ledger
    → t.next_id ≡ s.next_id
    → IsOffBy u d s
    → IsOffBy u d t
IsOffBy-same u d s t wallets ledger next h = record {
  balances = λ v. rw (wallets, ledger) (h.balances v);
  margins = λ v. rw (wallets, ledger) (h.margins v);
  fresh = rw (ledger, next) h.fresh;
}

add_zero : (x : ℤ) → x +ℤ pos 0 ≡ x
add_zero x = omega int_laws

settle-IsOffBy :
    (conflict : ℕ → Bool) (i : SettleInput) (s : Store)
    → IsReconciled s
    → (settle conflict i s).0 ≡ ok tt
    → IsOffBy i.user (gap (amounts i)) (settle conflict i s).1
unfolding amounts
settle-IsOffBy conflict i s r done =
    let (b, good, same_positions, wallets, ledger, next) = settle_ok conflict i s done in
    let (p, w, found, account, left) = settle_tx_passed i s b good in
    IsOffBy-same i.user (gap (amounts i)) (transaction (settle_tx i) s).1 (settle conflict i s).1
      wallets ledger next
      (rw left
        (write_settlement-IsOffBy i (amounts i) (released_for i w) w s account (omega arith) r))

-- A settlement that succeeds on reconciled books leaves them reconciled, when the raw profit is a whole
-- amount and the margin covers the loss with the commission.
pub settle-IsReconciled :
    (conflict : ℕ → Bool) (i : SettleInput) (x : ℤ) (s : Store)
    → IsReconciled s
    → raw_of i ≡ x *ℤ scale
    → floor i ≤ℤ raw_of i -ℤ fee_of i *ℤ scale
    → (settle conflict i s).0 ≡ ok tt
    → IsReconciled (settle conflict i s).1
settle-IsReconciled conflict i x s r whole covered done =
    let off = settle-IsOffBy conflict i s r done in
    let none_off = gap_within i x whole covered in
    record {
      balances = λ v.
          ground (
            arith,
            off.balances v,
            none_off,
            add_zero (ledger_sum v (settle conflict i s).1.ledger),
          );
      margins = off.margins;
      fresh = off.fresh;
    }

-- A settlement that succeeds on reconciled books, of a loss of the whole margin or more, leaves the
-- client's balance above the sum of its ledger rows by exactly the commission.
pub settle_loses_commission :
    (conflict : ℕ → Bool) (i : SettleInput) (s : Store)
    → IsReconciled s
    → raw_of i ≤ℤ floor i
    → (settle conflict i s).0 ≡ ok tt
    → let t = (settle conflict i s).1 in
      balance_of i.user t.wallets ≡ ledger_sum i.user t.ledger +ℤ fee_of i
settle_loses_commission conflict i s r low done =
    let off = (settle-IsOffBy conflict i s r done).balances i.user in
    rw (off, gap_at_floor i low) (ground arith)

settle_fails :
    (conflict : ℕ → Bool) (j : SettleInput) (t : Store) (x : Error)
    → transaction (settle_tx j) t ≡ (err x, t)
    → ((settle conflict j t).0 ≢ ok tt) × ((settle conflict j t).1 ≡ t)
unfolding settle
settle_fails conflict j t x bad = elim (retry_cases conflict 2 1 (transaction (settle_tx j)) t) [
  | inl e ↦ ground arith
  | inr e ↦ ground arith
]

pub position_status-closed : (i : SettleInput) → is_open (position_status i.reason) ≡ false
position_status-closed i = ground arith

-- A position is settled at most once: after a settlement that succeeded, any further one of the same
-- position, at any price and for any reason, throws and changes nothing.
pub settle_once :
    (conflict conflict' : ℕ → Bool) (i j : SettleInput) (s : Store)
    → (settle conflict i s).0 ≡ ok tt
    → j.position_id ≡ i.position_id
    → let t = (settle conflict i s).1 in
      ((settle conflict' j t).0 ≢ ok tt) × ((settle conflict' j t).1 ≡ t)
settle_once conflict conflict' i j s done same =
    let (b, good, positions, wallets, ledger, next) = settle_ok conflict i s done in
    let (p, w, found, account, left) = settle_tx_passed i s b good in
    let t = (settle conflict i s).1 in
    let closed = record p { status = position_status i.reason; is_closed = true } in
    let row : find_position j.position_id t.positions ≡ some closed =
      rw (same, positions, left, write_settlement-positions i (amounts i) (released_for i w) w s)
        (find_position-close_position i.position_id (position_status i.reason) p s.positions
          found) in
    settle_fails conflict' j t (position_not_open (position_status i.reason))
      (settle_tx_closed j t closed row (position_status-closed i))

min_ℤ-bound : (a b : ℤ) → min_ℤ a b ≤ℤ a
min_ℤ-bound a b = ground arith

max_ℤ-bound : (a b c : ℤ) → a ≤ℤ c → b ≤ℤ c → max_ℤ a b ≤ℤ c
max_ℤ-bound a b c p q = ground arith

release_of-within : (locked margin : ℤ) → pos 0 ≤ℤ locked → release_of locked margin ≤ℤ locked
unfolding release_of
release_of-within locked margin nonneg =
    max_ℤ-bound (pos 0) (min_ℤ locked margin) locked nonneg (min_ℤ-bound locked margin)

ltb_ℤ-difference : (x y : ℤ) → y ≤ℤ x → ltb_ℤ (x -ℤ y) (pos 0) ≡ false
ltb_ℤ-difference x y h = ground (arith, -ℤ_parts x y)

violates-test :
    (i : SettleInput) (w : Wallet)
    → pos 0 ≤ℤ w.locked
    → violates (w.balance +ℤ (amounts i).net) (w.locked -ℤ released_for i w)
      ≡ ltb_ℤ (w.balance +ℤ (amounts i).net) (pos 0)
violates-test i w locked = ground (
  arith,
  ltb_ℤ-difference w.locked (released_for i w) (release_of-within w.locked i.margin_used locked),
)

add_write_off : (x : ℤ) → ltb_ℤ x (pos 0) ≡ false → x +ℤ write_off x ≡ x
unfolding write_off
add_write_off x fits = ground (arith, add_zero x)

-- For an open position of a client whose locked margin is not negative, when no attempt meets a
-- conflict, a settlement either succeeds, moving the balance by the net amount, taking the released
-- margin out of the locked one, and closing the position; or, exactly when the balance would go below
-- zero, it throws and changes nothing: the position stays open, and nothing is written off.
pub settle_outcomes :
    (conflict : ℕ → Bool) (i : SettleInput) (p : Position) (w : Wallet) (v : ℕ) (s : Store)
    → conflict 1 ≡ false
    → find_position i.position_id s.positions ≡ some p
    → is_open p.status ≡ true
    → find_wallet i.user s.wallets ≡ some w
    → pos 0 ≤ℤ w.locked
    → let (r, t) = settle conflict i s in
      ((pos 0 ≤ℤ w.balance +ℤ (amounts i).net)
        × (r ≡ ok tt)
        × (balance_of v t.wallets
            ≡ (if v == i.user then w.balance +ℤ (amounts i).net else balance_of v s.wallets))
        × (locked_of v t.wallets
            ≡ (if v == i.user then w.locked +ℤ neg (released_for i w) else locked_of v s.wallets))
        × (find_position i.position_id t.positions
            ≡ some (record p { status = position_status i.reason; is_closed = true })))
      ⊎ ((w.balance +ℤ (amounts i).net <ℤ pos 0) × (r ≡ err check_violation) × (t ≡ s))
unfolding settle
settle_outcomes conflict i p w v s calm found opened account locked =
    let once =
      retry_succeeds conflict 2 1 1 (transaction (settle_tx i)) s (omega arith) (omega arith)
        calm in
    let test = violates-test i w locked in
    elim (ltb_ℤ-cases (w.balance +ℤ (amounts i).net) (pos 0)) [
      | inl (low, below) ↦ inr (
        below,
        ground (arith, once, settle_tx_underwater i s p w found opened account (test ∙ low)),
        ground (arith, once, settle_tx_underwater i s p w found opened account (test ∙ low)),
      )
      | inr (fits, cover) ↦
          let done = settle_tx_done i s p w found opened account (test ∙ fits) in
          let after = write_settlement i (amounts i) (released_for i w) w s in
          let wallets : (settle conflict i s).1.wallets ≡ after.wallets =
            ground (arith, once, done) in
          let places : (settle conflict i s).1.positions ≡ after.positions =
            ground (arith, once, done) in
          inl (
            cover,
            ground (arith, once, done),
            rw (wallets) (
                write_settlement-balance_of i (amounts i) (released_for i w) w s account v
                ∙ ground (arith, add_write_off (w.balance +ℤ (amounts i).net) fits)),
            rw (wallets)
                (write_settlement-locked_of i (amounts i) (released_for i w) w s account v),
            rw (places, write_settlement-positions i (amounts i) (released_for i w) w s)
                (find_position-close_position i.position_id (position_status i.reason) p s.positions
                  found),
          )
    ]
