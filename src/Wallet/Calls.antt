-- ===== src/Wallet/Calls.antt =====
-- Any history of calls of `WalletRepository`: the books stay reconciled and no wallet goes
-- below zero.
use apiv.Base.{
  ℕ, ◌≡◌, refl, inl, inr, some, List, [], ◌∷◌, Bool, true, arith, Option-cases, Bool-cases, All,
}
use apiv.Base.Int.{
  ℤ, pos, ◌+ℤ◌, ◌-ℤ◌, ◌≤ℤ◌, ◌<ℤ◌, leb_ℤ, ltb_ℤ, neg, int_laws, leb_ℤ-cases, ltb_ℤ-cases,
}
use apiv.Store.{
  LedgerType, Reference, Wallet, Store, Action, transaction, margin_reserved, margin_released,
  add_entry,
}
use apiv.Store.Tables.{find_wallet}
use apiv.Wallet.Repository.{
  with_serializable_retry, get_or_create, credit_tx, debit_tx, lock_margin_tx, release_margin_tx,
  safe_release, credit, debit, lock_margin, release_margin, credit_entry, debit_entry, margin_entry,
  write_balance, write_locked, write_release,
}
use apiv.Wallet.Reconciliation.{
  IsReconciled, is_balance_type, is_margin_type, balance_of, locked_of,
}
use apiv.Wallet.Posting.{post_balance, post_locked}
use apiv.Wallet.Methods.{
  retry_cases, balance_type-counted, credit_tx_missing, credit_tx_found, debit_tx_missing,
  debit_tx_short, debit_tx_found, lock_margin_tx_missing, lock_margin_tx_short,
  lock_margin_tx_found, release_margin_tx_missing, release_margin_tx_found,
}

-- A call, with the conflicts that its attempts meet.
pub data Call : Type 0 where
  opens : ℕ → Call
  credits debits : (ℕ → Bool) → ℕ → ℤ → LedgerType → Reference → Call
  locks releases : (ℕ → Bool) → ℕ → ℤ → Reference → Call

unfoldable pub step : Call → Store → Store
step (opens u) s = (get_or_create u s).1
step (credits c u a t r) s = (credit c u a t r s).1
step (debits c u a t r) s = (debit c u a t r s).1
step (locks c u a r) s = (lock_margin c u a r s).1
step (releases c u a r) s = (release_margin c u a r s).1

unfoldable pub run : List Call → Store → Store
run [] s = s
run (c ∷ cs) s = run cs (step c s)

-- Money moves are posted under a type that the reconciliation counts.
abbrev pub PostsBalance : Call → Type 0
PostsBalance (credits c u a t r) = is_balance_type t ≡ true
PostsBalance (debits c u a t r) = is_balance_type t ≡ true
PostsBalance _ = Unit {0}

-- `lockMargin` does not look at the sign of its amount, so its callers must.
abbrev pub LocksPositive : Call → Type 0
LocksPositive (locks c u a r) = pos 0 ≤ℤ a
LocksPositive _ = Unit {0}

abbrev pub IsSolvent : Store → Type 0
IsSolvent s = (u : ℕ) → (pos 0 ≤ℤ balance_of u s.wallets) × (pos 0 ≤ℤ locked_of u s.wallets)

-- What one run of a method keeps, its retries keep.
retry_keeps :
    {A : Type 0} (P : Store → Type 0) (c : ℕ → Bool) (fn : Action A) (s : Store)
    → P s
    → P (fn s).1
    → P (with_serializable_retry c 9 1 fn s).1
retry_keeps P c fn s before after = elim (retry_cases c 9 1 fn s) [
  | inl e ↦ rw e after
  | inr e ↦ rw e before
]

module _ (P : Store → Type 0) (c : ℕ → Bool) (u : ℕ) (a : ℤ) (ref : Reference) (s : Store)
    (p : P s) where
  -- A method leaves the store, or has found a wallet and passed its checks.
  pub credit_keeps :
      (t : LedgerType)
      → ((w : Wallet)
          → find_wallet u s.wallets ≡ some w
          → pos 0 <ℤ a
          → let b = w.balance +ℤ a in
            P (add_entry (credit_entry u a t ref b) (write_balance u b s)))
      → P (credit c u a t ref s).1
  unfolding credit
  credit_keeps t found = elim (leb_ℤ-cases a (pos 0)) [
    | inl (bad, _) ↦ rw bad p
    | inr (good, sign) ↦ rw good (
        retry_keeps P c (transaction (credit_tx u a t ref)) s p
          (elim (Option-cases (find_wallet u s.wallets)) [
            | inl e ↦ rw (credit_tx_missing u a t ref s e) p
            | inr (w, e) ↦ rw (credit_tx_found u a t ref s w e) (found w e sign)
          ]))
  ]

  pub debit_keeps :
      (t : LedgerType)
      → ((w : Wallet)
          → find_wallet u s.wallets ≡ some w
          → a ≤ℤ w.balance
          → let b = w.balance -ℤ a in P (add_entry (debit_entry u a t ref b) (write_balance u b s)))
      → P (debit c u a t ref s).1
  unfolding debit
  debit_keeps t found = elim (leb_ℤ-cases a (pos 0)) [
    | inl (bad, _) ↦ rw bad p
    | inr (good, _) ↦ rw good (
        retry_keeps P c (transaction (debit_tx u a t ref)) s p
          (elim (Option-cases (find_wallet u s.wallets)) [
            | inl e ↦ rw (debit_tx_missing u a t ref s e) p
            | inr (w, e) ↦ elim (ltb_ℤ-cases w.balance a) [
              | inl (short, _) ↦ rw (debit_tx_short u a t ref s w e short) p
              | inr (enough, cover) ↦ rw (debit_tx_found u a t ref s w e enough) (found w e cover)
            ]
          ]))
  ]

  pub lock_margin_keeps :
      ((w : Wallet)
        → find_wallet u s.wallets ≡ some w
        → P (add_entry (margin_entry u (neg a) margin_reserved ref) (write_locked u a s)))
      → P (lock_margin c u a ref s).1
  unfolding lock_margin
  lock_margin_keeps found =
      retry_keeps P c (transaction (lock_margin_tx u a ref)) s p
        (elim (Option-cases (find_wallet u s.wallets)) [
          | inl e ↦ rw (lock_margin_tx_missing u a ref s e) p
          | inr (w, e) ↦ elim (Bool-cases (ltb_ℤ (w.balance -ℤ w.locked) a)) [
            | inl short ↦ rw (lock_margin_tx_short u a ref s w e short) p
            | inr enough ↦ rw (lock_margin_tx_found u a ref s w e enough) (found w e)
          ]
        ])

  pub release_margin_keeps :
      ((w : Wallet)
        → find_wallet u s.wallets ≡ some w
        → P (write_release u (safe_release w.locked a) ref s))
      → P (release_margin c u a ref s).1
  unfolding release_margin
  release_margin_keeps found = elim (Bool-cases (leb_ℤ a (pos 0))) [
    | inl bad ↦ rw bad p
    | inr good ↦ rw good (
        retry_keeps P c (transaction (release_margin_tx u a ref)) s p
          (elim (Option-cases (find_wallet u s.wallets)) [
            | inl e ↦ rw (release_margin_tx_missing u a ref s e) p
            | inr (w, e) ↦ elim (Bool-cases (leb_ℤ (safe_release w.locked a) (pos 0))) [
              | inl nothing ↦ rw (release_margin_tx_found u a ref s w e) (rw nothing p)
              | inr some_of_it ↦
                  rw (release_margin_tx_found u a ref s w e) (rw some_of_it (found w e))
            ]
          ]))
  ]

pub get_or_create-IsReconciled :
    (u : ℕ) (s : Store) → IsReconciled s → IsReconciled (get_or_create u s).1
unfolding get_or_create
get_or_create-IsReconciled u s r = elim (Option-cases (find_wallet u s.wallets)) [
  | inl e ↦
      rw (e, get_or_create)
        (record {
          balances = λ v. unfold balance_of find_wallet in ground (arith, r.balances v, e);
          margins = λ v. unfold locked_of find_wallet in ground (arith, r.margins v, e);
          fresh = r.fresh;
        })
  | inr (w, e) ↦ rw (e, get_or_create) r
]

pub step-IsReconciled :
    (c : Call) (s : Store) → PostsBalance c → IsReconciled s → IsReconciled (step c s)
unfolding step
step-IsReconciled (opens u) s h r = get_or_create-IsReconciled u s r
step-IsReconciled (credits c u a t ref) s h r =
    credit_keeps IsReconciled c u a ref s r t λ w e sign.
      post_balance u w (credit_entry u a t ref (w.balance +ℤ a)) s (w.balance +ℤ a) r e refl refl
        (balance_type-counted t h) refl
step-IsReconciled (debits c u a t ref) s h r = debit_keeps IsReconciled c u a ref s r t λ w e cover.
    post_balance u w (debit_entry u a t ref (w.balance -ℤ a)) s (w.balance -ℤ a) r e refl refl
      (balance_type-counted t h) (omega int_laws)
step-IsReconciled (locks c u a ref) s h r = lock_margin_keeps IsReconciled c u a ref s r λ w e.
    post_locked u w (margin_entry u (neg a) margin_reserved ref) s a r e refl refl
      (unfold is_margin_type in refl) (omega int_laws)
step-IsReconciled (releases c u a ref) s h r =
    release_margin_keeps IsReconciled c u a ref s r λ w e.
      post_locked u w (margin_entry u (safe_release w.locked a) margin_released ref) s
        (neg (safe_release w.locked a)) r e refl refl (unfold is_margin_type in refl) refl

-- After any calls that post money under counted types, every wallet's balance and locked margin are
-- exactly what its ledger rows add up to, and row identifiers are unique, if it was so before.
pub run-IsReconciled :
    (cs : List Call) (s : Store) → All PostsBalance cs → IsReconciled s → IsReconciled (run cs s)
unfolding run
run-IsReconciled [] s h r = r
run-IsReconciled (c ∷ cs) s h r = run-IsReconciled cs (step c s) h.1 (step-IsReconciled c s h.0 r)
