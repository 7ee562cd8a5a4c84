-- ===== src/Margin/Release.antt =====
-- What `releaseMargin` leaves, alone and after a lock.
use apiv.Base.{ℕ, ◌≡◌, refl, inl, inr, Option, some, List, [], ◌∷◌, arith}
use apiv.Base.Int.{
  ℤ, pos, ◌+ℤ◌, ◌≤ℤ◌, ◌<ℤ◌, neg, min_ℤ, max_ℤ, int_laws, leb_ℤ-cases, ◌-ℤ◌, ltb_ℤ-cases, -ℤ_parts,
}
use apiv.Store.{Wallet, Store, Quote, ok}
use apiv.Store.Tables.{find_wallet, add_locked, find_wallet-add_locked_self}
use apiv.Settlement.Engine.{release_of}
use apiv.Margin.Controller.{granted, check_and_lock, release_margin, release_margin_tx, write_lock}
use apiv.Margin.Gate.{check_and_lock_granted}

-- A granted lock has written, and has found a wallet whose locked margin stays at zero or above.
pub release_of_exact : (locked a : ℤ) → pos 0 ≤ℤ a → a ≤ℤ locked → release_of locked a ≡ a
unfolding release_of
release_of_exact locked a h k = ground arith

pub add_locked_back :
    (u : ℕ) (d : ℤ) (ws : List Wallet) → add_locked u (neg d) (add_locked u d ws) ≡ ws
unfolding add_locked
add_locked_back u d [] = refl
add_locked_back u d (w ∷ ws) = ground (arith, add_locked_back u d ws, there_and_back w.locked d)
  where
    there_and_back : (x y : ℤ) → x +ℤ y +ℤ neg y ≡ x
    there_and_back x y = omega int_laws

release_of_none : (locked a : ℤ) → pos 0 ≤ℤ locked → a ≤ℤ pos 0 → release_of locked a ≡ pos 0
unfolding release_of
release_of_none locked a h k = ground arith

release_of_all : (locked a : ℤ) → pos 0 ≤ℤ locked → locked ≤ℤ a → release_of locked a ≡ locked
unfolding release_of
release_of_all locked a h k = ground arith

-- What stays locked.
abbrev kept : ℤ → ℤ → ℤ
kept locked a = max_ℤ (pos 0) (min_ℤ locked (locked -ℤ a))

kept_none : (locked x : ℤ) → pos 0 ≤ℤ locked → locked ≤ℤ x → max_ℤ (pos 0) (min_ℤ locked x) ≡ locked
kept_none locked x h k = ground arith

kept_exact : (locked x : ℤ) → pos 0 ≤ℤ x → x ≤ℤ locked → max_ℤ (pos 0) (min_ℤ locked x) ≡ x
kept_exact locked x h k = ground arith

kept_all : (locked x : ℤ) → pos 0 ≤ℤ locked → x ≤ℤ pos 0 → max_ℤ (pos 0) (min_ℤ locked x) ≡ pos 0
kept_all locked x h k = ground arith

pub plus_neg : (x y : ℤ) → x +ℤ neg y ≡ x -ℤ y
plus_neg x y = omega int_laws

-- What is left after the clamp.
release_of-kept :
    (locked a : ℤ) → pos 0 ≤ℤ locked → locked +ℤ neg (release_of locked a) ≡ kept locked a
release_of-kept locked a h =
    let parts = -ℤ_parts locked a in
    elim (leb_ℤ-cases a (pos 0)) [
      | inl (t, k) ↦
          rw (release_of_none locked a h k, kept_none locked (locked -ℤ a) h (omega arith))
            (omega int_laws)
      | inr (t, k) ↦ elim (leb_ℤ-cases a locked) [
        | inl (t', k') ↦
            rw
              (
                release_of_exact locked a (omega arith) k',
                kept_exact locked (locked -ℤ a) (omega arith) (omega arith),
              )
              (plus_neg locked a)
        | inr (t', k') ↦
            rw
              (
                release_of_all locked a h (omega arith),
                kept_all locked (locked -ℤ a) h (omega arith),
              )
              (omega int_laws)
      ]
    ]

release_of_zero : (locked a : ℤ) → release_of locked a ≤ℤ pos 0 → release_of locked a ≡ pos 0
unfolding release_of
release_of_zero locked a h = max_zero (min_ℤ locked a) h
  where
    max_zero : (x : ℤ) → max_ℤ (pos 0) x ≤ℤ pos 0 → max_ℤ (pos 0) x ≡ pos 0
    max_zero x h = ground arith

plus_zero : (x : ℤ) → x +ℤ neg (pos 0) ≡ x
plus_zero x = omega int_laws

module _ (u position : ℕ) (a : ℤ) (w : Wallet) (s : Store)
    (found : find_wallet u s.wallets ≡ some w) where
  pub release_margin_found : (release_margin u position a s).0 ≡ ok tt
  unfolding release_margin release_margin_tx
  release_margin_found = ground arith

  pub release_margin-wallets :
      pos 0 <ℤ release_of w.locked a
      → (release_margin u position a s).1.wallets
        ≡ add_locked u (neg (release_of w.locked a)) s.wallets
  unfolding release_margin release_margin_tx
  release_margin-wallets some_released = ground arith

  release_margin-nothing :
      release_of w.locked a ≤ℤ pos 0 → (release_margin u position a s).1.wallets ≡ s.wallets
  unfolding release_margin release_margin_tx
  release_margin-nothing zero = ground arith

  -- For a client whose locked margin is not negative, a release succeeds and takes the amount out of
  -- the locked margin, but stops at zero and never adds to it, and leaves the balance.
  release_margin_takes :
      pos 0 ≤ℤ w.locked
      → let (r, t) = release_margin u position a s in
        (r ≡ ok tt)
        × (find_wallet u t.wallets
            ≡ some (record w { locked = max_ℤ (pos 0) (min_ℤ w.locked (w.locked -ℤ a)) }))
  release_margin_takes locked = (
    release_margin_found,
    elim (ltb_ℤ-cases (pos 0) (release_of w.locked a)) [
      | inl (t, positive) ↦
          rw (release_margin-wallets positive, ← release_of-kept w.locked a locked)
            (find_wallet-add_locked_self u (neg (release_of w.locked a)) w s.wallets found)
      | inr (t, zero) ↦
          let none_released = release_of_zero w.locked a zero in
          rw
            (
              release_margin-nothing zero,
              ← release_of-kept w.locked a locked,
              none_released,
              plus_zero w.locked,
            )
            found
    ],
  )

-- A granted lock of a positive amount, released in full, leaves every wallet as it was.
check_and_lock-release_margin :
    (quotes : ℕ → Option Quote) (u order : ℕ) (a : ℤ) (s : Store)
    → ((w : Wallet) → find_wallet u s.wallets ≡ some w → pos 0 ≤ℤ w.locked)
    → pos 0 <ℤ a
    → (check_and_lock quotes u order a s).0 ≡ granted
    → (release_margin u order a (check_and_lock quotes u order a s).1).1.wallets ≡ s.wallets
check_and_lock-release_margin quotes u order a s nonneg positive done =
    let (w, found, kept, after) = check_and_lock_granted quotes u order a s done in
    let w' = record w { locked = w.locked +ℤ a } in
    let exact : release_of w'.locked a ≡ a =
      release_of_exact w'.locked a (omega arith) (omega (int_laws, nonneg w found)) in
    rw
      (
        after,
        release_margin-wallets u order a w' (write_lock u order a s)
            (find_wallet-add_locked_self u a w s.wallets found) (rw exact positive),
        exact,
      )
      (add_locked_back u a s.wallets)
