-- ===== src/Margin/Books.antt =====
-- The margin gate and the books.
use apiv.Base.{ℕ, ◌≡◌, refl, inl, inr, ◌⊎◌, Option, some, arith, Option-cases, Bool-cases}
use apiv.Base.Int.{ℤ, pos, neg, int_laws, ◌+ℤ◌, ltb_ℤ-cases}
use apiv.Store.{Wallet, Store, Quote, text_ref, emit, margin_release_event}
use apiv.Store.Tables.{find_wallet}
use apiv.Wallet.Reconciliation.{IsReconciled, is_margin_type}
use apiv.Wallet.Posting.{post_locked}
use apiv.Wallet.Posting.{emit-IsReconciled, add_audit-IsReconciled}
use apiv.Settlement.Engine.{release_of}
use apiv.Margin.Controller.{
  can_lock, check_and_lock, write_lock, lock_entry, release_margin, release_margin_tx,
  write_release, release_entry,
}

check_and_lock_cases :
    (quotes : ℕ → Option Quote) (u order : ℕ) (a : ℤ) (s : Store)
    → ((check_and_lock quotes u order a s).1 ≡ s)
      ⊎ ((w : Wallet) × (find_wallet u s.wallets ≡ some w)
          × ((check_and_lock quotes u order a s).1 ≡ write_lock u order a s))
unfolding check_and_lock
check_and_lock_cases quotes u order a s = elim (Option-cases (find_wallet u s.wallets)) [
  | inl missing ↦ inl (ground arith)
  | inr (w, found) ↦ elim (Bool-cases (can_lock quotes w a s)) [
    | inl can ↦ elim (ltb_ℤ-cases (w.locked +ℤ a) (pos 0)) [
      | inl (t, h) ↦ inl (ground arith)
      | inr (t, h) ↦ inr (w, found, ground arith)
    ]
    | inr can ↦ inl (ground arith)
  ]
]

pub check_and_lock-IsReconciled :
    (quotes : ℕ → Option Quote) (u order : ℕ) (a : ℤ) (s : Store)
    → IsReconciled s
    → IsReconciled (check_and_lock quotes u order a s).1
unfolding is_margin_type
check_and_lock-IsReconciled quotes u order a s r = elim (check_and_lock_cases quotes u order a s) [
  | inl e ↦ rw e r
  | inr (w, found, e) ↦
      rw e (post_locked u w (lock_entry u order a) s a r found refl refl refl (omega int_laws))
]

nothing_locked : (a : ℤ) → release_of (pos 0) a ≡ pos 0
unfolding release_of
nothing_locked a = ground arith

release_margin_cases :
    (u position : ℕ) (a : ℤ) (s : Store)
    → ((release_margin u position a s).1 ≡ s)
      ⊎ ((w : Wallet) × (find_wallet u s.wallets ≡ some w)
          × ((release_margin u position a s).1
              ≡ emit
                  (margin_release_event u (release_of w.locked a) (text_ref position))
                  (write_release u position (release_of w.locked a) s)))
unfolding release_margin release_margin_tx
release_margin_cases u position a s = elim (Option-cases (find_wallet u s.wallets)) [
  | inl missing ↦ inl ground (arith, nothing_locked a)
  | inr (w, found) ↦ elim (ltb_ℤ-cases (pos 0) (release_of w.locked a)) [
    | inl (t, h) ↦ inr (w, found, ground arith)
    | inr (t, h) ↦ inl ground arith
  ]
]

pub release_margin-IsReconciled :
    (u position : ℕ) (a : ℤ) (s : Store)
    → IsReconciled s
    → IsReconciled (release_margin u position a s).1
unfolding is_margin_type
release_margin-IsReconciled u position a s r = elim (release_margin_cases u position a s) [
  | inl e ↦ rw e r
  | inr (w, found, e) ↦
      let released = release_of w.locked a in
      rw e (
        emit-IsReconciled _ _ (
          add_audit-IsReconciled _ _ (
            post_locked u w (release_entry u (text_ref position) released) s (neg released) r found
              refl refl refl refl)))
]
