-- ===== src/Execution/Charges.antt =====
-- execution-service/execution.engine.ts: what the transaction of a fill takes from the wallet.
use apiv.Base.{ℕ, ◌≡◌, ◌⊎◌, inl, inr, some, arith, Option-cases, Bool-cases, true}
use apiv.Base.Int.{ℤ, pos, ◌-ℤ◌, ◌≤ℤ◌, ◌<ℤ◌, ltb_ℤ-cases, leb_ℤ-cases}
use apiv.Store.{Store, Wallet, add_entry}
use apiv.Store.Tables.{find_wallet}
use apiv.Wallet.Repository.{write_balance}
use apiv.Settlement.Engine.{release_of}
use apiv.Margin.Controller.{release_margin_tx, write_release, eq_ℤ}
use apiv.Execution.Setting.{Request, FillResult}
use apiv.Execution.Transaction.{charge_fee, fee_entry}

release_of_nothing : (a : ℤ) → eq_ℤ (release_of (pos 0) a) (pos 0) ≡ true
unfolding release_of
release_of_nothing a = ground arith

pub release_tx_cases :
    (u order : ℕ) (a : ℤ) (s : Store)
    → ((release_margin_tx u order a s).1 ≡ s)
      ⊎ ((w : Wallet) × (find_wallet u s.wallets ≡ some w)
          × ((release_margin_tx u order a s).1 ≡ write_release u order (release_of w.locked a) s))
unfolding release_margin_tx
release_tx_cases u order a s = elim (Option-cases (find_wallet u s.wallets)) [
  | inl missing ↦ inl (ground (arith, release_of_nothing a))
  | inr (w, found) ↦ elim (Bool-cases (eq_ℤ (release_of w.locked a) (pos 0))) [
    | inl t ↦ inl (ground arith)
    | inr t ↦ inr (w, found, ground arith)
  ]
]

abbrev pub paid : Request → FillResult → Wallet → Store → Store
paid r f w s = add_entry (fee_entry r f) (write_balance r.user (w.balance -ℤ f.fees) s)

-- A charge of nothing, or of a fee that the balance covers.
pub charge_fee_cases :
    (r : Request) (f : FillResult) (s s' : Store)
    → charge_fee r f s ≡ some s'
    → ((f.fees ≤ℤ pos 0) × (s' ≡ s))
      ⊎ ((w : Wallet) × (find_wallet r.user s.wallets ≡ some w)
          × (pos 0 <ℤ f.fees)
          × (f.fees ≤ℤ w.balance)
          × (s' ≡ paid r f w s))
unfolding charge_fee
charge_fee_cases r f s s' t = elim (ltb_ℤ-cases (pos 0) f.fees) [
  | inr (t', h) ↦ inl (h, ground arith)
  | inl (t', h) ↦ elim (Option-cases (find_wallet r.user s.wallets)) [
    | inl missing ↦ absurd (ground arith)
    | inr (w, found) ↦ elim (leb_ℤ-cases f.fees w.balance) [
      | inl (t'', k) ↦ inr (w, found, h, k, ground arith)
      | inr (t'', k) ↦ absurd (ground arith)
    ]
  ]
]
