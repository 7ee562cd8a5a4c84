-- ===== src/Reconciliation/History.antt =====
-- Any history of the calls that move money or margin: wallet methods, deposit and withdrawal requests,
-- card deposits, the margin gate, settlements, and the sweep that repairs.
use apiv.Base.{ℕ, ◌≡◌, ◌≢◌, inl, inr, Option, List, [], ◌∷◌, Bool, arith, All, Option-cases}
use apiv.Base.Int.{ℤ, pos, ◌-ℤ◌, ◌*ℤ◌, ◌≤ℤ◌, int_laws}
use apiv.Store.{Quote, Store}
use apiv.Store.Tables.{find_wallet}
use apiv.Wallet.Reconciliation.{IsReconciled, ledger_sum}
use apiv.Wallet.Posting.{balance_found}
use apiv.Wallet.Calls as Wallets
use apiv.Ledger.Balance.{scale}
use apiv.Ledger.Books as Requests
use apiv.Payments.Books as Cards
use apiv.Settlement.Engine.{SettleInput, fee_of, settle}
use apiv.Settlement.Gap.{raw_of, floor}
use apiv.Settlement.Outcomes.{settle_or_nothing}
use apiv.Settlement.Reconciled.{settle-IsReconciled}
use apiv.Margin.Controller.{check_and_lock, release_margin}
use apiv.Margin.Books.{check_and_lock-IsReconciled, release_margin-IsReconciled}
use apiv.Reconciliation.Check.{check_user, with_wallet, mismatch}
use apiv.Reconciliation.Sweep.{run_full_with_repair}
use apiv.Reconciliation.Swept.{run_full_with_repair-IsReconciled}

pub data Call : Type 0 where
  calls_wallet : Wallets.Call → Call
  requests : Requests.Call → Call
  handles_deposit : Cards.Step → Call
  locks_margin : (ℕ → Option Quote) → ℕ → ℕ → ℤ → Call
  releases_margin : ℕ → ℕ → ℤ → Call
  settles : (ℕ → Bool) → SettleInput → Call
  sweeps : Bool → (ℕ → Bool) → ℕ → Call

unfoldable pub step_call : Call → Store → Store
step_call (calls_wallet c) s = Wallets.step c s
step_call (requests c) s = Requests.step_request c s
step_call (handles_deposit c) s = Cards.run_step c s
step_call (locks_margin quotes u order required) s = (check_and_lock quotes u order required s).1
step_call (releases_margin u position a) s = (release_margin u position a s).1
step_call (settles conflict i) s = (settle conflict i s).1
step_call (sweeps elected fails stamp) s = (run_full_with_repair elected fails stamp s).1

unfoldable pub run_calls : List Call → Store → Store
run_calls [] s = s
run_calls (c ∷ cs) s = run_calls cs (step_call c s)

-- Wallet methods post under counted types; settlements have whole amounts, and a margin that covers the
-- loss with the commission.
abbrev pub PostsExactly : Call → Type 0
PostsExactly (calls_wallet c) = Wallets.PostsBalance c
PostsExactly (settles conflict i) =
    (x : ℤ) × (raw_of i ≡ x *ℤ scale) × (floor i ≤ℤ raw_of i -ℤ fee_of i *ℤ scale)
PostsExactly _ = Unit {0}

settle_step-IsReconciled :
    (conflict : ℕ → Bool) (i : SettleInput) (s : Store)
    → PostsExactly (settles conflict i)
    → IsReconciled s
    → IsReconciled (settle conflict i s).1
settle_step-IsReconciled conflict i s (x, whole, covered) r =
    elim (settle_or_nothing conflict i s) [
      | inl done ↦ settle-IsReconciled conflict i x s r whole covered done
      | inr same ↦ rw same r
    ]

step_call-IsReconciled :
    (c : Call) (s : Store) → PostsExactly c → IsReconciled s → IsReconciled (step_call c s)
unfolding step_call
step_call-IsReconciled (calls_wallet c) s h r = Wallets.step-IsReconciled c s h r
step_call-IsReconciled (requests c) s h r = Requests.step_request-IsReconciled c s r
step_call-IsReconciled (handles_deposit c) s h r = Cards.run_step-IsReconciled c s r
step_call-IsReconciled (locks_margin quotes u order required) s h r =
    check_and_lock-IsReconciled quotes u order required s r
step_call-IsReconciled (releases_margin u position a) s h r =
    release_margin-IsReconciled u position a s r
step_call-IsReconciled (settles conflict i) s h r = settle_step-IsReconciled conflict i s h r
step_call-IsReconciled (sweeps elected fails stamp) s h r =
    run_full_with_repair-IsReconciled elected fails stamp s r

run_calls-IsReconciled :
    (cs : List Call) (s : Store)
    → All PostsExactly cs
    → IsReconciled s
    → IsReconciled (run_calls cs s)
unfolding run_calls
run_calls-IsReconciled [] s h r = r
run_calls-IsReconciled (c ∷ cs) s h r =
    run_calls-IsReconciled cs (step_call c s) h.1 (step_call-IsReconciled c s h.0 r)

zero_delta : (x : ℤ) → x -ℤ x ≡ pos 0
zero_delta x = omega int_laws

balance_checked : (u : ℕ) (s : Store) → IsReconciled s → (check_user u s).ledger_balance ≢ mismatch
unfolding check_user with_wallet
balance_checked u s r = elim (Option-cases (find_wallet u s.wallets)) [
  | inl missing ↦ ground arith
  | inr (w, found) ↦
      let even : w.balance -ℤ ledger_sum u s.ledger ≡ pos 0 =
        rw (← r.balances u, balance_found u w s found) (zero_delta w.balance) in
      ground arith
]

-- Any history of wallet methods, requests, deposit steps, margin locks and releases, settlements and
-- sweeps, from reconciled books, leaves reconciled books, and the sweep's check of the ledger then finds
-- no mismatch for any user; if wallet methods post money under counted types, and settlements have a
-- whole raw profit and a margin that covers the loss with the commission.
pub run_calls-check_user :
    (cs : List Call) (s : Store)
    → All PostsExactly cs
    → IsReconciled s
    → IsReconciled (run_calls cs s)
      × ((u : ℕ) → (check_user u (run_calls cs s)).ledger_balance ≢ mismatch)
run_calls-check_user cs s h r =
    let kept = run_calls-IsReconciled cs s h r in
    (kept, λ u. balance_checked u (run_calls cs s) kept)
