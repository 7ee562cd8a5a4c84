-- ===== src/Execution/Partial.antt =====
-- execution-service/execution.engine.ts: a whole execution that fills an order in part, and the margin
-- that it leaves locked.
use apiv.Base.{ℕ, ◌≡◌, refl, inl, inr, some, Bool, true, false, arith}
use apiv.Base.Int.{ℤ, pos, neg, ◌+ℤ◌, ◌-ℤ◌, ◌≤ℤ◌, ◌<ℤ◌, ltb_ℤ-cases, int_laws, -ℤ_parts, +ℤ_parts}
use apiv.Store.{Wallet, Store}
use apiv.Store.Tables.{find_wallet, find_wallet-add_locked_self}
use apiv.Margin.Controller.{release_margin}
use apiv.Margin.Release.{release_of_exact, release_margin-wallets, plus_neg}
use apiv.Execution.Rows.{Desk}
use apiv.Execution.Lifecycle.{transition}
use apiv.Execution.Setting.{
  Setting, Request, FillResult, price_gate, passed, real_margin, effective_margin, is_partial,
  release_margin_with_retry, release_attempts,
}
use apiv.Execution.Engine.{filled_as, finish, release_unused, unused_margin, execute}
use apiv.Execution.Opened.{estimate_of, wallet_after, opened_wallet}
use apiv.Execution.Filled.{execute_filled}
use apiv.Execution.Ways.{accept}

-- A release of a positive amount that the locked margin covers.
release_margin_found :
    (u order : ℕ) (a : ℤ) (w : Wallet) (s : Store)
    → find_wallet u s.wallets ≡ some w
    → pos 0 <ℤ a
    → a ≤ℤ w.locked
    → find_wallet u (release_margin u order a s).1.wallets
      ≡ some (record w { locked = w.locked -ℤ a })
release_margin_found u order a w s found h k =
    let exact = release_of_exact w.locked a (omega arith) k in
    rw (release_margin-wallets u order a w s found (rw exact h), exact, ← plus_neg w.locked a)
      (find_wallet-add_locked_self u (neg a) w s.wallets found)

left : (l m f : ℤ) → l +ℤ m -ℤ (m -ℤ f) ≡ l +ℤ f
left l m f = omega (int_laws, -ℤ_parts m f, -ℤ_parts (l +ℤ m) (m -ℤ f))

covered : (w l m f : ℤ) → l ≤ℤ w → pos 0 ≤ℤ f → m -ℤ f ≤ℤ w -ℤ l +ℤ m
covered w l m f h k = omega (int_laws, -ℤ_parts m f, -ℤ_parts w l, +ℤ_parts (w -ℤ l) m)

module _ (e : Setting) (r : Request) (f : FillResult) where
  first_attempt :
      (a : ℤ) (s : Store)
      → e.release_fails 1 ≡ false
      → release_margin_with_retry e r.user r.order a s ≡ (release_margin r.user r.order a s).1
  unfolding release_margin_with_retry release_attempts
  first_attempt a s t = rw t refl

  released :
      (s : Store)
      → is_partial f ≡ true
      → pos 1000000 <ℤ unused_margin e r f
      → e.release_fails 1 ≡ false
      → release_unused e r f s ≡ (release_margin r.user r.order (unused_margin e r f) s).1
  unfolding release_unused
  released s t h once = elim (ltb_ℤ-cases (pos 1000000) (unused_margin e r f)) [
    | inl (t', h') ↦ rw (t, t') (first_attempt (unused_margin e r f) s once)
    | inr (t', h') ↦ absurd (omega arith)
  ]

  difference : unused_margin e r f ≡ real_margin e.rounding r f -ℤ effective_margin e.rounding r f
  unfolding unused_margin
  difference = refl

  finish_store : (p : ℕ) (d : Desk) → (finish e r f p d).store ≡ release_unused e r f d.store
  unfolding finish
  finish_store p d = refl

  abbrev pub part_wallet : Wallet → Wallet
  part_wallet w = record w {
    balance = w.balance -ℤ f.fees;
    locked = w.locked -ℤ estimate_of r +ℤ effective_margin e.rounding r f;
  }

  -- An execution that fills an order in part leaves in the client's locked margin, in place of the
  -- estimate that was locked for a resting order, only the margin of the part that is filled, and takes
  -- the fee out of the balance; where what the rest would need is above a cent, and the first attempt
  -- at its release does not fail.
  pub execute_fills_in_part :
      (p : ℕ) (full : Bool) (w : Wallet) (d : Desk)
      → find_wallet r.user d.store.wallets ≡ some w
      → pos 0 ≤ℤ estimate_of r
      → estimate_of r ≤ℤ w.locked
      → pos 0 ≤ℤ f.fees
      → is_partial f ≡ true
      → pos 0 ≤ℤ effective_margin e.rounding r f
      → pos 1000000 <ℤ unused_margin e r f
      → e.release_fails 1 ≡ false
      → price_gate e r ≡ passed f
      → (execute e r d).0 ≡ filled_as p full
      → find_wallet r.user (execute e r d).1.store.wallets ≡ some (part_wallet w)
  unfolding transition
  execute_fills_in_part p full w d funded h k fees part nonneg above once priced t =
      let (d', opens, after) = execute_filled e r f p full d priced t in
      let wallet = opened_wallet e r f p full (accept e r d) d' opens w funded h k fees in
      let used = effective_margin e.rounding r f in
      let unused = unused_margin e r f in
      let amount = difference in
      let held =
        release_margin_found r.user r.order unused (wallet_after e r f w) d'.store wallet
          (omega arith)
          (rw amount
            (covered w.locked (estimate_of r) (real_margin e.rounding r f) used k nonneg)) in
      rw
        (
          after,
          finish_store p d',
          released d'.store part above once,
          ← left (w.locked -ℤ estimate_of r) (real_margin e.rounding r f) used,
          ← amount,
        )
        held
