-- ===== src/Wallet/Solvency.antt =====
-- No call of `WalletRepository` can break the database's two checks, `balance >= 0` and
-- `locked >= 0` (prisma/migrations/20260610000000_wallet_nonneg_constraints).
use apiv.Base.{ℕ, ◌≡◌, inl, inr, some, List, [], ◌∷◌, arith, All, Option-cases}
use apiv.Base.Int.{ℤ, pos, ◌+ℤ◌, ◌-ℤ◌, ◌≤ℤ◌, neg, int_laws}
use apiv.Store.{Wallet, Store}
use apiv.Store.Tables.{find_wallet, set_balance, add_locked}
use apiv.Wallet.Repository.{get_or_create, safe_release}
use apiv.Wallet.Reconciliation.{
  balance_of, locked_of, balance_of-set_balance, locked_of-set_balance, balance_of-add_locked,
  locked_of-add_locked,
}
use apiv.Wallet.Posting.{balance_found, locked_found}
use apiv.Wallet.Calls.{
  Call, opens, credits, debits, locks, releases, step, run, LocksPositive, IsSolvent, credit_keeps,
  debit_keeps, lock_margin_keeps, release_margin_keeps,
}

module _ (u : ℕ) (x : ℤ) (w : Wallet) (s : Store) (e : find_wallet u s.wallets ≡ some w)
    (h : IsSolvent s) where
  set_balance-IsSolvent :
      pos 0 ≤ℤ x
      → (v : ℕ)
      → (pos 0 ≤ℤ balance_of v (set_balance u x s.wallets))
        × (pos 0 ≤ℤ locked_of v (set_balance u x s.wallets))
  set_balance-IsSolvent nonneg v =
      rw (balance_of-set_balance u v x w s.wallets e, locked_of-set_balance u v x w s.wallets e)
        (ground (arith, h v))

  add_locked-IsSolvent :
      pos 0 ≤ℤ w.locked +ℤ x
      → (v : ℕ)
      → (pos 0 ≤ℤ balance_of v (add_locked u x s.wallets))
        × (pos 0 ≤ℤ locked_of v (add_locked u x s.wallets))
  add_locked-IsSolvent nonneg v =
      rw (balance_of-add_locked u v x w s.wallets e, locked_of-add_locked u v x w s.wallets e)
        (ground (arith, h v))

  wallet_nonneg : (pos 0 ≤ℤ w.balance) × (pos 0 ≤ℤ w.locked)
  wallet_nonneg = ground (arith, h u, balance_found u w s e, locked_found u w s e)

safe_release-le : (l a : ℤ) → safe_release l a ≤ℤ l
unfolding safe_release
safe_release-le l a = ground arith

get_or_create-IsSolvent : (u : ℕ) (s : Store) → IsSolvent s → IsSolvent (get_or_create u s).1
unfolding get_or_create
get_or_create-IsSolvent u s h = elim (Option-cases (find_wallet u s.wallets)) [
  | inl e ↦
      rw (e, get_or_create) (λ v. unfold balance_of locked_of find_wallet in ground (arith, h v))
  | inr (w, e) ↦ rw (e, get_or_create) h
]

pub step-IsSolvent : (c : Call) (s : Store) → LocksPositive c → IsSolvent s → IsSolvent (step c s)
unfolding step
step-IsSolvent (opens u) s p h = get_or_create-IsSolvent u s h
step-IsSolvent (credits c u a t ref) s p h = credit_keeps IsSolvent c u a ref s h t λ w e sign.
    set_balance-IsSolvent u (w.balance +ℤ a) w s e h
      (omega (int_laws, (wallet_nonneg u a w s e h).0))
step-IsSolvent (debits c u a t ref) s p h =
    debit_keeps IsSolvent c u a ref s h t
      λ w e cover. set_balance-IsSolvent u (w.balance -ℤ a) w s e h (omega int_laws)
step-IsSolvent (locks c u a ref) s p h =
    lock_margin_keeps IsSolvent c u a ref s h
      λ w e. add_locked-IsSolvent u a w s e h (omega (int_laws, (wallet_nonneg u a w s e h).1))
step-IsSolvent (releases c u a ref) s p h = release_margin_keeps IsSolvent c u a ref s h λ w e.
    add_locked-IsSolvent u (neg (safe_release w.locked a)) w s e h
      (omega (int_laws, safe_release-le w.locked a))

-- No calls ever take a balance or a locked margin below zero, if none is below zero before and
-- `lockMargin` is only called with amounts of zero or more.
pub run-IsSolvent :
    (cs : List Call) (s : Store) → All LocksPositive cs → IsSolvent s → IsSolvent (run cs s)
unfolding run
run-IsSolvent [] s p h = h
run-IsSolvent (c ∷ cs) s p h = run-IsSolvent cs (step c s) p.1 (step-IsSolvent c s p.0 h)
