-- ===== src/Reconciliation/Repaired.antt =====
-- What one repair leaves.
use apiv.Base.{
  ℕ, ◌≡◌, ◌≢◌, refl, inl, inr, ◌⊎◌, none, some, arith, Option-cases, Bool-cases, ap, sym, ◌∙◌, ◌==◌,
}
use apiv.Base.Int.{
  ℤ, pos, ◌+ℤ◌, ◌-ℤ◌, ◌≤ℤ◌, ◌<ℤ◌, neg, leb_ℤ-cases, ltb_ℤ-cases, int_laws, -ℤ_parts,
}
use apiv.Store.{Wallet, Store, ok, err, check_violation, emit, margin_release_event, text_ref}
use apiv.Store.Tables.{find_wallet, find_wallet-add_locked_self, find_wallet-add_locked_ne}
use apiv.Wallet.Reconciliation.{IsReconciled, is_margin_type}
use apiv.Wallet.Posting.{emit-IsReconciled, add_audit-IsReconciled}
use apiv.Wallet.Posting.{post_locked}
use apiv.Margin.Controller.{open_margin, release_entry}
use apiv.Reconciliation.Check.{epsilon}
use apiv.Reconciliation.Repair.{repair_orphan_margin, repair_tx, write_repair}

abbrev pub orphan_of : ℕ → Wallet → Store → ℤ
orphan_of u w s = w.locked -ℤ open_margin u s.positions

-- A wallet holds at most a cent over the margin of its user's open positions.
abbrev pub IsCovered : ℕ → Store → Type 0
IsCovered u s = (w : Wallet) → find_wallet u s.wallets ≡ some w → orphan_of u w s ≤ℤ epsilon

abbrev pub repaired : ℕ → ℕ → Wallet → Store → Store
repaired u stamp w s =
    emit (margin_release_event u (orphan_of u w s) (text_ref stamp))
      (write_repair u stamp (orphan_of u w s) s)

module _ (u stamp : ℕ) (s : Store) where
  repair_missing : find_wallet u s.wallets ≡ none → repair_orphan_margin u stamp s ≡ (ok (pos 0), s)
  unfolding repair_orphan_margin repair_tx
  repair_missing missing = ground arith

  module _ (w : Wallet) (found : find_wallet u s.wallets ≡ some w) where
    repair_within : orphan_of u w s ≤ℤ epsilon → repair_orphan_margin u stamp s ≡ (ok (pos 0), s)
    unfolding repair_orphan_margin repair_tx
    repair_within small = ground arith

    repair_refused :
        epsilon <ℤ orphan_of u w s
        → w.locked -ℤ orphan_of u w s <ℤ pos 0
        → repair_orphan_margin u stamp s ≡ (err check_violation, s)
    unfolding repair_orphan_margin repair_tx
    repair_refused large below = ground arith

    repair_excess :
        epsilon <ℤ orphan_of u w s
        → pos 0 ≤ℤ w.locked -ℤ orphan_of u w s
        → repair_orphan_margin u stamp s ≡ (ok (orphan_of u w s), repaired u stamp w s)
    unfolding repair_orphan_margin repair_tx
    repair_excess large nonneg = ground arith

below_zero : (x m : ℤ) → x -ℤ (x -ℤ m) <ℤ pos 0 → m <ℤ pos 0
below_zero x m h = omega (arith, -ℤ_parts x m, -ℤ_parts x (x -ℤ m))

-- A repair leaves the store, or releases what is in excess; the table's check refuses it only where the
-- margin of the open positions is negative.
pub repair_cases :
    (u stamp : ℕ) (s : Store)
    → ((repair_orphan_margin u stamp s ≡ (ok (pos 0), s)) × IsCovered u s)
      ⊎ (((repair_orphan_margin u stamp s ≡ (err check_violation, s))
            × (open_margin u s.positions <ℤ pos 0))
          ⊎ ((w : Wallet) × (find_wallet u s.wallets ≡ some w)
              × (epsilon <ℤ orphan_of u w s)
              × (repair_orphan_margin u stamp s ≡ (ok (orphan_of u w s), repaired u stamp w s))))
repair_cases u stamp s = elim (Option-cases (find_wallet u s.wallets)) [
  | inl missing ↦ inl (repair_missing u stamp s missing, λ w found. absurd (ground arith))
  | inr (w, found) ↦ elim (leb_ℤ-cases (w.locked -ℤ open_margin u s.positions) epsilon) [
    | inl (t, small) ↦ inl (repair_within u stamp s w found small, λ w' found'. ground arith)
    | inr (t, large) ↦ elim (ltb_ℤ-cases (w.locked -ℤ orphan_of u w s) (pos 0)) [
      | inl (t', below) ↦ inr (
          inl (
            repair_refused u stamp s w found large below,
            below_zero w.locked (open_margin u s.positions) below,
          ))
      | inr (t', nonneg) ↦ inr (inr (w, found, large, repair_excess u stamp s w found large nonneg))
    ]
  ]
]

self_excess : (x m : ℤ) → x +ℤ neg (x -ℤ m) -ℤ m ≤ℤ epsilon
self_excess x m = omega (arith, -ℤ_parts x m, int_laws)

module _ (u stamp : ℕ) (s : Store) where
  pub repair-positions : (repair_orphan_margin u stamp s).1.positions ≡ s.positions
  repair-positions = elim (repair_cases u stamp s) [
    | inl (e, covered) ↦ ap (λ r. r.1.positions) e
    | inr (inl (e, below)) ↦ ap (λ r. r.1.positions) e
    | inr (inr (w, found, large, e)) ↦ ap (λ r. r.1.positions) e
  ]

  pub repair_self-IsCovered :
      pos 0 ≤ℤ open_margin u s.positions → IsCovered u (repair_orphan_margin u stamp s).1
  repair_self-IsCovered nonneg = elim (repair_cases u stamp s) [
    | inl (e, covered) ↦ rw e covered
    | inr (inl (e, below)) ↦ absurd (omega arith)
    | inr (inr (w, found, large, e)) ↦ rw e (λ w' found'. ground (
      arith,
      find_wallet-add_locked_self u (neg (orphan_of u w s)) w s.wallets found,
      self_excess w.locked (open_margin u s.positions),
    ))
  ]

  repair-find_wallet_ne :
      (v : ℕ)
      → v ≢ u
      → find_wallet v (repair_orphan_margin u stamp s).1.wallets ≡ find_wallet v s.wallets
  repair-find_wallet_ne v other = elim (repair_cases u stamp s) [
    | inl (e, covered) ↦ ap (λ r. find_wallet v r.1.wallets) e
    | inr (inl (e, below)) ↦ ap (λ r. find_wallet v r.1.wallets) e
    | inr (inr (w, found, large, e)) ↦
        ap (λ r. find_wallet v r.1.wallets) e
        ∙ find_wallet-add_locked_ne u v (neg (orphan_of u w s)) s.wallets other
  ]

  kept_self : IsCovered u s → IsCovered u (repair_orphan_margin u stamp s).1
  kept_self before = elim (repair_cases u stamp s) [
    | inl (e, covered) ↦ rw e covered
    | inr (inl (e, below)) ↦ rw e before
    | inr (inr (w, found, large, e)) ↦ absurd (omega (arith, before w found))
  ]

  pub repair-IsCovered : (v : ℕ) → IsCovered v s → IsCovered v (repair_orphan_margin u stamp s).1
  repair-IsCovered v before = elim (Bool-cases (v == u)) [
    | inl same ↦ let e : v ≡ u = ground arith in rw e (kept_self (rw e at before))
    | inr other ↦ λ w found.
        rw repair-positions (before w (sym (repair-find_wallet_ne v (λ e. ground arith)) ∙ found))
  ]

  pub repair-IsReconciled : IsReconciled s → IsReconciled (repair_orphan_margin u stamp s).1
  unfolding is_margin_type
  repair-IsReconciled r = elim (repair_cases u stamp s) [
    | inl (e, covered) ↦ rw e r
    | inr (inl (e, below)) ↦ rw e r
    | inr (inr (w, found, large, e)) ↦ rw e (
        emit-IsReconciled (margin_release_event u (orphan_of u w s) (text_ref stamp))
          (write_repair u stamp (orphan_of u w s) s)
          (add_audit-IsReconciled _ _ (
            post_locked u w (release_entry u (text_ref stamp) (orphan_of u w s)) s
              (neg (orphan_of u w s)) r found refl refl refl refl)))
  ]
