-- ===== src/Margin/Gate.antt =====
-- The atomic margin gate, beside the advisory check before it.
use apiv.Base.{Option-cases, refl, ℕ, ◌≡◌, inl, inr, ◌⊎◌, Option, some, true, false, arith, ap}
use apiv.Base.Int.{
  ℤ, pos, ◌+ℤ◌, ◌-ℤ◌, ◌*ℤ◌, ◌≤ℤ◌, ◌<ℤ◌, ltb_ℤ-cases, leb_ℤ-cases, -ℤ_parts, +ℤ_parts, int_laws,
}
use apiv.Store.{Wallet, Store, Quote, insufficient_margin, ok}
use apiv.Store.Tables.{find_wallet, find_wallet-user, find_wallet-add_locked_self}
use apiv.Ledger.Balance.{scale}
use apiv.Ledger.Scale.{plus_scale, scale_mono}
use apiv.Margin.Controller.{
  MarginState, open_margin, equity_of, margin_state_of, get_margin_state, can_accept_order, granted,
  refused, can_lock, check_and_lock, write_lock,
}

-- Why the gate refuses.
abbrev pub Lacks : (ℕ → Option Quote) → Wallet → ℤ → Store → Type 0
Lacks quotes w required s =
    (equity_of quotes w s ≤ℤ pos 0)
    ⊎ (equity_of quotes w s -ℤ w.locked *ℤ scale <ℤ required *ℤ scale)

can_lock_cases :
    (quotes : ℕ → Option Quote) (w : Wallet) (required : ℤ) (s : Store)
    → ((can_lock quotes w required s ≡ true)
        × (pos 0 <ℤ equity_of quotes w s)
        × (required *ℤ scale ≤ℤ equity_of quotes w s -ℤ w.locked *ℤ scale))
      ⊎ ((can_lock quotes w required s ≡ false) × Lacks quotes w required s)
unfolding can_lock
can_lock_cases quotes w required s = elim (ltb_ℤ-cases (pos 0) (equity_of quotes w s)) [
  | inl (t, h) ↦
      elim (leb_ℤ-cases (required *ℤ scale) (equity_of quotes w s -ℤ w.locked *ℤ scale)) [
        | inl (t', h') ↦ inl (ground arith, h, h')
        | inr (t', h') ↦ inr (ground arith, inr h')
      ]
  | inr (t, h) ↦ inr (ground arith, inl h)
]

module _ (quotes : ℕ → Option Quote) (u order : ℕ) (required : ℤ) (w : Wallet) (s : Store)
    (found : find_wallet u s.wallets ≡ some w) where
  pub check_and_lock_grants :
      can_lock quotes w required s ≡ true
      → pos 0 ≤ℤ w.locked +ℤ required
      → check_and_lock quotes u order required s ≡ (granted, write_lock u order required s)
  unfolding check_and_lock
  check_and_lock_grants can nonneg = ground arith

  check_and_lock_refuses :
      can_lock quotes w required s ≡ false
      → check_and_lock quotes u order required s ≡ (refused insufficient_margin, s)
  unfolding check_and_lock
  check_and_lock_refuses can = ground arith

room : (e l r : ℤ) → r ≤ℤ e -ℤ l → l +ℤ r ≤ℤ e
room e l r h = omega (arith, -ℤ_parts e l, int_laws)

equity_same :
    (quotes : ℕ → Option Quote) (w : Wallet) (u order : ℕ) (required : ℤ) (s : Store)
    → equity_of quotes (record w { locked = w.locked +ℤ required }) (write_lock u order required s)
      ≡ equity_of quotes w s
unfolding equity_of
equity_same quotes w u order required s = refl

-- Either the gate grants a lock of an amount that is not negative, with equity above zero that covers
-- all that is then locked, and moves the locked margin by that amount; or it refuses, changes nothing,
-- and the equity is not above zero or what is free of it is less than the amount.
pub check_and_lock_outcomes :
    (quotes : ℕ → Option Quote) (u order : ℕ) (required : ℤ) (w : Wallet) (s : Store)
    → find_wallet u s.wallets ≡ some w
    → pos 0 ≤ℤ w.locked
    → pos 0 ≤ℤ required
    → let (verdict, t) = check_and_lock quotes u order required s in
      let w' = record w { locked = w.locked +ℤ required } in
      ((verdict ≡ granted)
        × (find_wallet u t.wallets ≡ some w')
        × (pos 0 <ℤ equity_of quotes w' t)
        × (w'.locked *ℤ scale ≤ℤ equity_of quotes w' t))
      ⊎ ((verdict ≡ refused insufficient_margin) × (t ≡ s) × Lacks quotes w required s)
check_and_lock_outcomes quotes u order required w s found locked nonneg =
    elim (can_lock_cases quotes w required s) [
      | inl (can, solvent, free) ↦
          let done =
            check_and_lock_grants quotes u order required w s found can
              (omega (int_laws, +ℤ_parts w.locked required)) in
          let after = ap (λ r. r.1) done in
          inl (
            ap (λ r. r.0) done,
            rw after (find_wallet-add_locked_self u required w s.wallets found),
            rw (after, equity_same quotes w u order required s) solvent,
            rw (after, equity_same quotes w u order required s, plus_scale w.locked required)
                (room (equity_of quotes w s) (w.locked *ℤ scale) (required *ℤ scale) free),
          )
      | inr (can, lacks) ↦
          let no = check_and_lock_refuses quotes u order required w s found can in
          inr (ap (λ r. r.0) no, ap (λ r. r.1) no, lacks)
    ]

state_found :
    (quotes : ℕ → Option Quote) (u : ℕ) (w : Wallet) (s : Store)
    → find_wallet u s.wallets ≡ some w
    → get_margin_state quotes u s ≡ (ok (margin_state_of quotes w s), s)
unfolding get_margin_state
state_found quotes u w s found = ground arith

narrower : (e l m r : ℤ) → r ≤ℤ e -ℤ l → m ≤ℤ l → r ≤ℤ e -ℤ m
narrower e l m r h k = omega (arith, -ℤ_parts e l, -ℤ_parts e m)

-- The gate is at least as strict as the advisory check: where the locked margin covers the margin of
-- the open positions, the advisory check on the state before a granted lock accepts the order.
granted-can_accept_order :
    (quotes : ℕ → Option Quote) (u order : ℕ) (required : ℤ) (w : Wallet) (s : Store)
    → find_wallet u s.wallets ≡ some w
    → open_margin u s.positions ≤ℤ w.locked
    → (check_and_lock quotes u order required s).0 ≡ granted
    → (state : MarginState) × (get_margin_state quotes u s ≡ (ok state, s))
      × (can_accept_order state required ≡ true)
unfolding can_accept_order margin_state_of
granted-can_accept_order quotes u order required w s found covered done =
    elim (can_lock_cases quotes w required s) [
      | inl (can, solvent, free) ↦
          let owner = find_wallet-user u w s.wallets found in
          let less = scale_mono (open_margin w.user s.positions) w.locked (rw owner covered) in
          let wide =
            narrower (equity_of quotes w s) (w.locked *ℤ scale)
              (open_margin w.user s.positions *ℤ scale) (required *ℤ scale) free less in
          (margin_state_of quotes w s, state_found quotes u w s found, ground arith)
      | inr (can, lacks) ↦
          absurd (ground (arith, check_and_lock_refuses quotes u order required w s found can))
    ]

-- What a granted lock has found and written.
pub check_and_lock_granted :
    (quotes : ℕ → Option Quote) (u order : ℕ) (required : ℤ) (s : Store)
    → (check_and_lock quotes u order required s).0 ≡ granted
    → (w : Wallet) × (find_wallet u s.wallets ≡ some w)
      × (pos 0 ≤ℤ w.locked +ℤ required)
      × ((check_and_lock quotes u order required s).1 ≡ write_lock u order required s)
unfolding check_and_lock
check_and_lock_granted quotes u order required s done =
    elim (Option-cases (find_wallet u s.wallets)) [
      | inl missing ↦ absurd (ground arith)
      | inr (w, found) ↦ (w, found, ground arith, ground arith)
    ]

-- A granted lock had the room for it.
pub check_and_lock_room :
    (quotes : ℕ → Option Quote) (u order : ℕ) (required : ℤ) (w : Wallet) (s : Store)
    → find_wallet u s.wallets ≡ some w
    → (check_and_lock quotes u order required s).0 ≡ granted
    → (pos 0 <ℤ equity_of quotes w s) × ((w.locked +ℤ required) *ℤ scale ≤ℤ equity_of quotes w s)
check_and_lock_room quotes u order required w s found done =
    elim (can_lock_cases quotes w required s) [
      | inl (can, solvent, free) ↦ (
        solvent,
        rw (plus_scale w.locked required)
            (room (equity_of quotes w s) (w.locked *ℤ scale) (required *ℤ scale) free),
      )
      | inr (can, lacks) ↦
          absurd (ground (arith, check_and_lock_refuses quotes u order required w s found can))
    ]
