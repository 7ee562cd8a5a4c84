-- ===== src/Settlement/Outcomes.antt =====
-- How a settlement ends.
use apiv.Base.{
  ℕ, ◌≡◌, refl, inl, inr, ◌⊎◌, some, List, [], ◌∷◌, Bool, true, false, arith, Option-cases,
}
use apiv.Base.Int.{ℤ, ◌+ℤ◌, ◌-ℤ◌}
use apiv.Store.{
  Wallet, Store, Position, PositionStatus, Error, Result, ok, err, Action, transaction,
  check_violation, position_not_open,
}
use apiv.Store.Tables.{find_wallet}
use apiv.Wallet.Methods.{retry_cases}
use apiv.Settlement.Engine.{
  SettleInput, amounts, write_settlement, find_position, close_position, is_open, release_of,
  violates, settle_tx, settle,
}

abbrev pub released_for : SettleInput → Wallet → ℤ
released_for i w = release_of w.locked i.margin_used

module _ (i : SettleInput) (s : Store) where
  pub settle_tx_closed :
      (p : Position)
      → find_position i.position_id s.positions ≡ some p
      → is_open p.status ≡ false
      → transaction (settle_tx i) s ≡ (err (position_not_open p.status), s)
  unfolding settle_tx
  settle_tx_closed p found shut = ground arith

  module _ (p : Position) (w : Wallet) (found : find_position i.position_id s.positions ≡ some p)
      (opened : is_open p.status ≡ true) (account : find_wallet i.user s.wallets ≡ some w) where
    pub settle_tx_underwater :
        violates (w.balance +ℤ (amounts i).net) (w.locked -ℤ released_for i w) ≡ true
        → transaction (settle_tx i) s ≡ (err check_violation, s)
    unfolding settle_tx
    settle_tx_underwater bad = ground arith

    pub settle_tx_done :
        violates (w.balance +ℤ (amounts i).net) (w.locked -ℤ released_for i w) ≡ false
        → transaction (settle_tx i) s ≡ (
          ok (w.balance +ℤ (amounts i).net),
          write_settlement i (amounts i) (released_for i w) w s,
        )
    unfolding settle_tx
    settle_tx_done fits = ground arith

-- A run that does not throw has passed every check.
pub settle_tx_passed :
    (i : SettleInput) (s : Store) (b : ℤ)
    → (transaction (settle_tx i) s).0 ≡ ok b
    → (p : Position) × (w : Wallet) × (find_position i.position_id s.positions ≡ some p)
      × (find_wallet i.user s.wallets ≡ some w)
      × ((transaction (settle_tx i) s).1 ≡ write_settlement i (amounts i) (released_for i w) w s)
unfolding settle_tx
settle_tx_passed i s b done = elim (Option-cases (find_position i.position_id s.positions)) [
  | inl missing ↦ absurd (ground arith)
  | inr (p, found) ↦ elim (Option-cases (find_wallet i.user s.wallets)) [
    | inl missing ↦ absurd (ground arith)
    | inr (w, account) ↦ (p, w, found, account, ground arith)
  ]
]

find_position-id :
    (k : ℕ) (p : Position) (ps : List Position) → find_position k ps ≡ some p → p.id ≡ k
unfolding find_position
find_position-id k p [] found = ground arith
find_position-id k p (x ∷ ps) found = ground (arith, find_position-id k p ps)

pub find_position-close_position :
    (k : ℕ) (st : PositionStatus) (p : Position) (ps : List Position)
    → find_position k ps ≡ some p
    → find_position k (close_position k st ps) ≡ some (record p { status = st; is_closed = true })
unfolding find_position close_position
find_position-close_position k st p [] found = ground arith
find_position-close_position k st p (x ∷ ps) found =
    ground (arith, find_position-close_position k st p ps)

result_cases : {A : Type 0} (r : Result A) → ((a : A) × (r ≡ ok a)) ⊎ ((x : Error) × (r ≡ err x))
result_cases (ok a) = inl (a, refl)
result_cases (err x) = inr (x, refl)

-- What `settle` returns, and the store without its events.
pub settle_ok :
    (conflict : ℕ → Bool) (i : SettleInput) (s : Store)
    → (settle conflict i s).0 ≡ ok tt
    → (b : ℤ) × ((transaction (settle_tx i) s).0 ≡ ok b)
      × ((settle conflict i s).1.positions ≡ (transaction (settle_tx i) s).1.positions)
      × ((settle conflict i s).1.wallets ≡ (transaction (settle_tx i) s).1.wallets)
      × ((settle conflict i s).1.ledger ≡ (transaction (settle_tx i) s).1.ledger)
      × ((settle conflict i s).1.next_id ≡ (transaction (settle_tx i) s).1.next_id)
unfolding settle
settle_ok conflict i s done = elim (retry_cases conflict 2 1 (transaction (settle_tx i)) s) [
  | inl e ↦ elim (result_cases (transaction (settle_tx i) s).0) [
    | inl (b, good) ↦ (b, good, ground arith, ground arith, ground arith, ground arith)
    | inr (x, bad) ↦ absurd (ground arith)
  ]
  | inr e ↦ absurd (ground arith)
]

transaction_throws :
    {A : Type 0} (m : Action A) (s : Store) (x : Error)
    → (transaction m s).0 ≡ err x
    → (transaction m s).1 ≡ s
transaction_throws m s x bad = elim (result_cases (m s).0) [
  | inl (a, good) ↦ absurd (ground arith)
  | inr (y, e) ↦ ground arith
]

-- A settlement that does not succeed leaves the store.
pub settle_or_nothing :
    (conflict : ℕ → Bool) (i : SettleInput) (s : Store)
    → ((settle conflict i s).0 ≡ ok tt) ⊎ ((settle conflict i s).1 ≡ s)
unfolding settle
settle_or_nothing conflict i s = elim (retry_cases conflict 2 1 (transaction (settle_tx i)) s) [
  | inl e ↦ elim (result_cases (transaction (settle_tx i) s).0) [
    | inl (b, good) ↦ inl (ground arith)
    | inr (x, bad) ↦ inr (ground (arith, transaction_throws (settle_tx i) s x bad))
  ]
  | inr e ↦ inr (ground arith)
]
