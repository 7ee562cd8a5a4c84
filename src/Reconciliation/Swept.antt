-- ===== src/Reconciliation/Swept.antt =====
-- What the sweep leaves.
use apiv.Base.{
  ℕ, ◌≡◌, ◌≢◌, refl, inl, inr, ◌⊎◌, some, List, [], ◌∷◌, ◌++◌, Bool, true, false, arith, Bool-cases,
  Option-cases, ◌==◌, ◌||◌, ◌&&◌, ==_iff,
}
use apiv.Base.Int.{ℤ, pos, ◌≤ℤ◌, ◌<ℤ◌, leb_ℤ-cases}
use apiv.Store.{Wallet, Store}
use apiv.Store.Tables.{find_wallet}
use apiv.Wallet.Reconciliation.{IsReconciled}
use apiv.Margin.Controller.{open_margin}
use apiv.Reconciliation.Check.{UserResult, within, mismatch, epsilon, check_user, with_wallet}
use apiv.Reconciliation.Repair.{repair_orphan_margin}
use apiv.Reconciliation.Repaired.{
  IsCovered, orphan_of, repair_self-IsCovered, repair-IsCovered, repair-IsReconciled,
  repair-positions,
}
use apiv.Reconciliation.Sweep.{
  wallet_users, position_users, remove, distinct, swept_users, check_users, dirty, run_full,
  needs_repair, Repairs, count_repair, try_repair, repair_all, run_full_with_repair,
}

abbrev has : ℕ → List ℕ → Bool
has u [] = false
has u (v ∷ vs) = (v == u) || has u vs

abbrev mentions : ℕ → List UserResult → Bool
mentions u [] = false
mentions u (r ∷ rs) = ((r.user == u) && needs_repair r) || mentions u rs

has-remove : (u v : ℕ) (vs : List ℕ) → v ≢ u → has u (remove v vs) ≡ has u vs
unfolding remove
has-remove u v [] ne = refl
has-remove u v (x ∷ xs) ne = ground (arith, has-remove u v xs ne)

has-distinct : (u : ℕ) (vs : List ℕ) → has u vs ≡ true → has u (distinct vs) ≡ true
unfolding distinct
has-distinct u [] h = h
has-distinct u (v ∷ vs) h = ground (arith, has-distinct u vs, has-remove u v (distinct vs))

has-append : (u : ℕ) (us vs : List ℕ) → has u us ≡ true → has u (us ++ vs) ≡ true
has-append u [] vs h = absurd (ground arith)
has-append u (x ∷ us) vs h = ground (arith, has-append u us vs)

has-wallet_users :
    (u : ℕ) (w : Wallet) (ws : List Wallet)
    → find_wallet u ws ≡ some w
    → has u (wallet_users ws) ≡ true
unfolding wallet_users find_wallet
has-wallet_users u w [] e = absurd (ground arith)
has-wallet_users u w (x ∷ ws) e = ground (arith, has-wallet_users u w ws)

within_excess : (d : ℤ) → epsilon <ℤ d → within d ≡ mismatch
within_excess d h = ground arith

-- A user with more than a cent in excess is reported for repair.
check_user_orphan :
    (u : ℕ) (w : Wallet) (s : Store)
    → find_wallet u s.wallets ≡ some w
    → epsilon <ℤ orphan_of u w s
    → ((check_user u s).user ≡ u)
      × ((check_user u s).clean ≡ false)
      × (needs_repair (check_user u s) ≡ true)
unfolding check_user with_wallet
check_user_orphan u w s found large =
    let over = within_excess (orphan_of u w s) large in (ground arith, ground arith, ground arith)

mentions-dirty :
    (u : ℕ) (w : Wallet) (us : List ℕ) (s : Store)
    → has u us ≡ true
    → find_wallet u s.wallets ≡ some w
    → epsilon <ℤ orphan_of u w s
    → mentions u (dirty (check_users us s)) ≡ true
unfolding dirty check_users
mentions-dirty u w [] s h found large = absurd (ground arith)
mentions-dirty u w (v ∷ us) s h found large =
    ground (arith, mentions-dirty u w us s, check_user_orphan u w s found large)

-- What a repair keeps, the sweep keeps.
try_repair_keeps :
    (P : Store → Type 0)
    → ((u stamp : ℕ) (s : Store) → P s → P (repair_orphan_margin u stamp s).1)
    → (fails : ℕ → Bool) (u stamp : ℕ) (s : Store) → P s
    → P (try_repair fails u stamp s).1
unfolding try_repair
try_repair_keeps P each fails u stamp s p = elim (Bool-cases (fails u)) [
  | inl t ↦ rw t p
  | inr t ↦ rw t (each u stamp s p)
]

repair_all_keeps :
    (P : Store → Type 0)
    → ((u stamp : ℕ) (s : Store) → P s → P (repair_orphan_margin u stamp s).1)
    → (fails : ℕ → Bool) (stamp : ℕ) (ds : List UserResult) (acc : Repairs) (s : Store) → P s
    → P (repair_all fails stamp ds acc s).1
unfolding repair_all
repair_all_keeps P each fails stamp [] acc s p = p
repair_all_keeps P each fails stamp (d ∷ ds) acc s p =
    let (r, t) = try_repair fails d.user stamp s in
    let mended =
      repair_all_keeps P each fails stamp ds (count_repair r acc) t
        (try_repair_keeps P each fails d.user stamp s p) in
    let same = repair_all_keeps P each fails stamp ds acc s p in
    elim (Bool-cases (needs_repair d)) [ inl need ↦ rw need mended | inr need ↦ rw need same ]

HasOpenMargin : ℕ → Store → Type 0
HasOpenMargin u s = pos 0 ≤ℤ open_margin u s.positions

try_repair-HasOpenMargin :
    (fails : ℕ → Bool) (u v stamp : ℕ) (s : Store)
    → HasOpenMargin u s
    → HasOpenMargin u (try_repair fails v stamp s).1
unfolding HasOpenMargin
try_repair-HasOpenMargin fails u v stamp s h =
    try_repair_keeps (HasOpenMargin u) (λ v k t p. rw (repair-positions v k t) p) fails v stamp s h

module _ (fails : ℕ → Bool) (u stamp : ℕ) (succeeds : fails u ≡ false) where
  try_repair-IsCovered :
      (v : ℕ) (s : Store)
      → HasOpenMargin u s
      → (v == u) ≡ true
      → IsCovered u (try_repair fails v stamp s).1
  unfolding try_repair HasOpenMargin
  try_repair-IsCovered v s nonneg same =
      let e : v ≡ u = (==_iff v u).0 same in
      rw (e, succeeds) (repair_self-IsCovered u stamp s nonneg)

  repair_all-IsCovered :
      (ds : List UserResult) (acc : Repairs) (s : Store)
      → HasOpenMargin u s
      → IsCovered u s ⊎ (mentions u ds ≡ true)
      → IsCovered u (repair_all fails stamp ds acc s).1
  unfolding repair_all
  repair_all-IsCovered ds acc s nonneg (inl covered) =
      repair_all_keeps (IsCovered u) (λ v k t c. repair-IsCovered v k t u c) fails stamp ds acc s
        covered
  repair_all-IsCovered [] acc s nonneg (inr h) = absurd (ground arith)
  repair_all-IsCovered (d ∷ ds) acc s nonneg (inr h) =
      let (r, t) = try_repair fails d.user stamp s in
      let later =
        repair_all-IsCovered ds (count_repair r acc) t
          (try_repair-HasOpenMargin fails u d.user stamp s nonneg) in
      let skip = repair_all-IsCovered ds acc s nonneg in
      elim (Bool-cases (needs_repair d)) [
        | inl need ↦ rw need (elim (Bool-cases (d.user == u)) [
          | inl same ↦ later (inl (try_repair-IsCovered d.user s nonneg same))
          | inr other ↦ later (inr (ground arith))
        ])
        | inr need ↦ rw need (skip (inr (ground arith)))
      ]

-- After a sweep of the worker that holds the lease, whichever repairs of other users the database makes
-- fail, the wallet of a user whose own repair does not fail holds at most a cent over the margin of the
-- user's open positions; if that margin is not negative, without which the table's check would refuse
-- the repair.
pub run_full_with_repair-IsCovered :
    (fails : ℕ → Bool) (stamp u : ℕ) (s : Store)
    → fails u ≡ false
    → pos 0 ≤ℤ open_margin u s.positions
    → IsCovered u (run_full_with_repair true fails stamp s).1
unfolding run_full_with_repair run_full swept_users HasOpenMargin
run_full_with_repair-IsCovered fails stamp u s succeeds nonneg =
    let users = wallet_users s.wallets ++ position_users s.positions in
    let swept = repair_all-IsCovered fails u stamp succeeds _ _ s nonneg in
    elim (Option-cases (find_wallet u s.wallets)) [
      | inl missing ↦ swept (inl (λ w found. absurd (ground arith)))
      | inr (w, found) ↦ elim (leb_ℤ-cases (orphan_of u w s) epsilon) [
        | inl (t, small) ↦ swept (inl (λ w' found'. ground arith))
        | inr (t, large) ↦ swept (
            inr (
              mentions-dirty u w (distinct users) s
                (has-distinct u users (
                  has-append u (wallet_users s.wallets) (position_users s.positions)
                    (has-wallet_users u w s.wallets found)))
                found large))
      ]
    ]

pub run_full_with_repair-IsReconciled :
    (elected : Bool) (fails : ℕ → Bool) (stamp : ℕ) (s : Store)
    → IsReconciled s
    → IsReconciled (run_full_with_repair elected fails stamp s).1
unfolding run_full_with_repair
run_full_with_repair-IsReconciled elected fails stamp s r =
    repair_all_keeps IsReconciled repair-IsReconciled fails stamp (run_full elected s).dirty_users _
      s r
