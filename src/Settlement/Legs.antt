-- ===== src/Settlement/Legs.antt =====
-- What the rows and the wallet writes of a settlement do to the sums of the books.
use apiv.Base.{ℕ, ◌≡◌, refl, List, ◌∷◌, Bool, true, false, arith, ◌==◌, if◌then◌else◌}
use apiv.Base.Int.{ℤ, pos, ◌+ℤ◌, ◌-ℤ◌, ◌≤ℤ◌, neg, ltb_ℤ}
use apiv.Store.{Entry, Store, add_entry}
use apiv.Store.Tables.{Below}
use apiv.Wallet.Reconciliation.{ledger_sum, margin_sum, is_counted, is_margin_type}
use apiv.Wallet.Posting.{zero_add, skip_ledger_sum, skip_margin_sum}
use apiv.Settlement.Engine.{
  SettleInput, Amounts, add_legs, add_when, pnl_leg, commission_leg, release_leg, write_off_leg,
}

-- A row of one user under a counted type.
counted_row :
    (u v : ℕ) (e : Entry) (es : List Entry)
    → e.user ≡ u
    → is_counted e.type e.status ≡ true
    → ledger_sum v (e ∷ es) ≡ (if v == u then e.amount +ℤ ledger_sum v es else ledger_sum v es)
unfolding ledger_sum
counted_row u v e es own counted = ground (arith, zero_add (ledger_sum v es))

counted_row_of :
    (u v : ℕ) (x : ℤ) (e : Entry) (es : List Entry)
    → e.user ≡ u
    → e.amount ≡ x
    → is_counted e.type e.status ≡ true
    → ledger_sum v (e ∷ es) ≡ (if v == u then x +ℤ ledger_sum v es else ledger_sum v es)
counted_row_of u v x e es own amount counted = rw (← amount) (counted_row u v e es own counted)

margin_row :
    (u v : ℕ) (e : Entry) (es : List Entry)
    → e.user ≡ u
    → is_margin_type e.type ≡ true
    → margin_sum v (e ∷ es) ≡ (if v == u then neg e.amount +ℤ margin_sum v es else margin_sum v es)
unfolding margin_sum
margin_row u v e es own counted = ground (arith, zero_add (margin_sum v es))

-- The same for a row that is only written when its amount is not zero.
add_when_counted :
    (u v : ℕ) (t : Bool) (mk : ℕ → Entry) (s : Store)
    → (mk s.next_id).user ≡ u
    → is_counted (mk s.next_id).type (mk s.next_id).status ≡ true
    → (t ≡ false → (mk s.next_id).amount ≡ pos 0)
    → ledger_sum v (add_when t mk s).ledger
      ≡ (if v == u then (mk s.next_id).amount +ℤ ledger_sum v s.ledger else ledger_sum v s.ledger)
add_when_counted u v true mk s own counted idle =
    counted_row u v (mk s.next_id) s.ledger own counted
add_when_counted u v false mk s own counted idle =
    rw (idle refl) (ground (arith, zero_add (ledger_sum v s.ledger)))

add_when_no_margin :
    (v : ℕ) (t : Bool) (mk : ℕ → Entry) (s : Store)
    → is_margin_type (mk s.next_id).type ≡ false
    → margin_sum v (add_when t mk s).ledger ≡ margin_sum v s.ledger
add_when_no_margin v true mk s other = skip_margin_sum v (mk s.next_id) s other
add_when_no_margin v false mk s other = refl

zero_when_not_positive : (x : ℤ) → pos 0 ≤ℤ x → ltb_ℤ (pos 0) x ≡ false → x ≡ pos 0
zero_when_not_positive x nonneg test = ground arith

neg_zero_when : (x : ℤ) → pos 0 ≤ℤ x → ltb_ℤ (pos 0) x ≡ false → neg x ≡ pos 0
unfolding ◌-ℤ◌
neg_zero_when x nonneg test = rw (zero_when_not_positive x nonneg test) refl

pnl_leg_fields :
    (i : SettleInput) (a : Amounts) (b : ℤ) (k : ℕ)
    → ((pnl_leg i a b k).user ≡ i.user)
      × ((pnl_leg i a b k).amount ≡ a.capped)
      × (is_counted (pnl_leg i a b k).type (pnl_leg i a b k).status ≡ true)
      × (is_margin_type (pnl_leg i a b k).type ≡ false)
unfolding is_counted is_margin_type
pnl_leg_fields i a b k = ground arith

first_leg :
    (i : SettleInput) (a : Amounts) (b : ℤ) (v : ℕ) (s : Store)
    → ledger_sum v (pnl_leg i a b s.next_id ∷ s.ledger)
      ≡ (if v == i.user then a.capped +ℤ ledger_sum v s.ledger else ledger_sum v s.ledger)
first_leg i a b v s =
    let (own, amount, counted, other) = pnl_leg_fields i a b s.next_id in
    counted_row_of i.user v a.capped (pnl_leg i a b s.next_id) s.ledger own amount counted

module _ (i : SettleInput) (a : Amounts) (released off b : ℤ) (s : Store) where
  pub add_legs-wallets : (add_legs i a released off b s).wallets ≡ s.wallets
  unfolding add_legs
  add_legs-wallets = ground arith

  pub add_legs-positions : (add_legs i a released off b s).positions ≡ s.positions
  unfolding add_legs
  add_legs-positions = ground arith

  pub add_legs-Below :
      Below s.next_id s.ledger
      → Below (add_legs i a released off b s).next_id (add_legs i a released off b s).ledger
  unfolding add_legs
  add_legs-Below fresh = ground arith

  pub add_legs-ledger_sum :
      (v : ℕ)
      → pos 0 ≤ℤ a.fee
      → pos 0 ≤ℤ off
      → ledger_sum v (add_legs i a released off b s).ledger ≡ (
          if v == i.user
          then off +ℤ (neg a.fee +ℤ (a.capped +ℤ ledger_sum v s.ledger))
          else ledger_sum v s.ledger)
  unfolding add_legs is_counted is_margin_type
  add_legs-ledger_sum v fee_nonneg off_nonneg =
      let s1 = add_entry (pnl_leg i a b) s in
      let s2 = add_when (ltb_ℤ (pos 0) a.fee) (commission_leg i a) s1 in
      let s3 = add_entry (release_leg i released) s2 in
      let first : ledger_sum v s1.ledger
          ≡ (if v == i.user then a.capped +ℤ ledger_sum v s.ledger else ledger_sum v s.ledger) =
        first_leg i a b v s in
      let second =
        add_when_counted i.user v (ltb_ℤ (pos 0) a.fee) (commission_leg i a) s1 refl refl
          (neg_zero_when a.fee fee_nonneg) in
      let third = skip_ledger_sum v (release_leg i released s2.next_id) s2 refl in
      let last =
        add_when_counted i.user v (ltb_ℤ (pos 0) off) (write_off_leg i off b) s3 refl refl
          (zero_when_not_positive off off_nonneg) in
      ground (arith, first, second, third, last)

  pub add_legs-margin_sum :
      (v : ℕ)
      → margin_sum v (add_legs i a released off b s).ledger
        ≡ (if v == i.user then neg released +ℤ margin_sum v s.ledger else margin_sum v s.ledger)
  unfolding add_legs is_margin_type
  add_legs-margin_sum v =
      let s1 = add_entry (pnl_leg i a b) s in
      let s2 = add_when (ltb_ℤ (pos 0) a.fee) (commission_leg i a) s1 in
      let s3 = add_entry (release_leg i released) s2 in
      let (own, amount, counted, other) = pnl_leg_fields i a b s.next_id in
      let first = skip_margin_sum v (pnl_leg i a b s.next_id) s other in
      let second = add_when_no_margin v (ltb_ℤ (pos 0) a.fee) (commission_leg i a) s1 refl in
      let third = margin_row i.user v (release_leg i released s2.next_id) s2.ledger refl refl in
      let last = add_when_no_margin v (ltb_ℤ (pos 0) off) (write_off_leg i off b) s3 refl in
      ground (arith, first, second, third, last)
