-- ===== src/Execution/Capped.antt =====
-- risk-service/exposure.limits.ts and risk-service/client.exposure.limits.ts: the limits after an
-- execution that fills an order in full.
use apiv.Base.{ℕ, suc, ◌≤◌, ◌≡◌, refl, none, Bool, true, false, List, ◌∷◌, arith, length}
use apiv.Base.Int.{ℤ, ◌+ℤ◌, ◌*ℤ◌, ◌≤ℤ◌}
use apiv.Store.{Position, Store, open_position}
use apiv.Execution.Rows.{Desk, Exposure}
use apiv.Execution.Lifecycle.{position_of, transition}
use apiv.Execution.Exposure.{
  Limits, IsWithin, is_within, limits_for, add_side, exposure_of, check_can_open_atomic,
  notional_of,
}
use apiv.Execution.Limits.{Mids, opens, sum_live, max_open_positions, max_notional, check_client}
use apiv.Settlement.Commission.{Tier}
use apiv.Execution.Setting.{
  Setting, Request, FillResult, price_gate, passed, effective_notional, real_notional, is_partial,
}
use apiv.Execution.Transaction.{recheck, position_for}
use apiv.Execution.Engine.{filled_as, execute}
use apiv.Execution.Opened.{locked-positions}
use apiv.Execution.Filled.{execute_filled, execute_filled-positions}
use apiv.Execution.Ways.{accept}

rechecked :
    (e : Setting) (r : Request) (f : FillResult) (s : Store)
    → recheck e r f s ≡ none
    → (check_can_open_atomic r.symbol r.side (effective_notional e.rounding r f) s.positions ≡ true)
      × (check_client e.mids e.tier r.user (effective_notional e.rounding r f) s.positions ≡ true)
unfolding recheck
rechecked e r f s t = ground arith

within : (l : Limits) (x : Exposure) → is_within l x ≡ true → IsWithin l x
unfolding is_within
within l x t = ground arith

client_within :
    (mids : Mids) (tier : Tier) (u : ℕ) (n : ℤ) (ps : List Position)
    → check_client mids tier u n ps ≡ true
    → (suc (length (opens u ps)) ≤ max_open_positions tier)
      × (sum_live mids (opens u ps) +ℤ n ≤ℤ max_notional tier)
unfolding check_client
client_within mids tier u n ps t = ground arith

opens_more :
    (u : ℕ) (p : Position) (ps : List Position)
    → length (opens u (p ∷ ps)) ≤ suc (length (opens u ps))
opens_more u p ps = ground arith

-- The exposure of an instrument once a position in it is opened.
pub exposure_of-opened :
    (p : Position) (symbol : ℕ) (ps : List Position)
    → p.symbol ≡ symbol
    → p.status ≡ open_position
    → exposure_of symbol (p ∷ ps) ≡ add_side p.side (notional_of p) (exposure_of symbol ps)
unfolding exposure_of
exposure_of-opened p symbol ps e o = ground arith

module _ (e : Setting) (r : Request) where
  pub whole_notional :
      (f : FillResult)
      → is_partial f ≡ false
      → f.filled_quantity ≡ r.quantity
      → effective_notional e.rounding r f ≡ f.filled_quantity *ℤ f.average_price
  unfolding effective_notional real_notional
  whole_notional f t q = rw (t, q) refl

  within_now :
      (f : FillResult) (d : Desk)
      → check_client e.mids e.tier r.user (effective_notional e.rounding r f) d.store.positions
        ≡ true
      → (suc (length (opens r.user d.store.positions)) ≤ max_open_positions e.tier)
        × (sum_live e.mids (opens r.user d.store.positions) +ℤ effective_notional e.rounding r f
            ≤ℤ max_notional e.tier)
  within_now f d t =
      client_within e.mids e.tier r.user (effective_notional e.rounding r f) d.store.positions t

  within_can :
      (f : FillResult) (d : Desk)
      → effective_notional e.rounding r f ≡ f.filled_quantity *ℤ f.average_price
      → check_can_open_atomic r.symbol r.side (effective_notional e.rounding r f) d.store.positions
        ≡ true
      → is_within (limits_for r.symbol) (
          add_side r.side
            (f.filled_quantity *ℤ f.average_price)
            (exposure_of r.symbol d.store.positions))
        ≡ true
  unfolding check_can_open_atomic
  within_can f d n t = rw (← n) t

  -- After an execution that fills an order in full, the gross and the net exposure of the broker in
  -- the instrument, read from the open positions, are within its limits; the client has no more open
  -- positions than the tier allows, and the notional of the ones before together with the new one is
  -- within the cap of the tier.
  pub execute_within_limits :
      (f : FillResult) (p : ℕ) (full : Bool) (d : Desk)
      → is_partial f ≡ false
      → f.filled_quantity ≡ r.quantity
      → price_gate e r ≡ passed f
      → (execute e r d).0 ≡ filled_as p full
      → let ps = (execute e r d).1.store.positions in
        IsWithin (limits_for r.symbol) (exposure_of r.symbol ps)
        × (length (opens r.user ps) ≤ max_open_positions e.tier)
        × (sum_live e.mids (opens r.user d.store.positions) +ℤ f.filled_quantity *ℤ f.average_price
            ≤ℤ max_notional e.tier)
  unfolding transition
  execute_within_limits f p full d whole quantity priced t =
      let (d', opened, after) = execute_filled e r f p full d priced t in
      let (can, client) = rechecked e r f opened.locked opened.passes in
      let kept = locked-positions e r f p full (accept e r d) d' opened in
      let notional = whole_notional f whole quantity in
      let (count, cap) = within_now f d (rw (← kept) client) in
      let q = position_of (position_for e.rounding r f) p in
      rw
        (
          execute_filled-positions e r f p full d whole priced t,
          exposure_of-opened q r.symbol d.store.positions refl refl,
        )
        (
          within (limits_for r.symbol)
              (add_side r.side (f.filled_quantity *ℤ f.average_price)
                (exposure_of r.symbol d.store.positions))
              (within_can f d notional (rw (← kept) can)),
          omega (arith, opens_more r.user q d.store.positions),
          rw (← notional) cap,
        )
