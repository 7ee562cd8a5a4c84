-- ===== src/Execution/Mirrored.antt =====
-- execution-service/execution.engine.ts and risk-service/exposure.limits.ts: the registry of a process
-- after a fill.
use apiv.Base.{ℕ, ◌≡◌, refl, inl, inr, ◌∷◌, Bool, Bool-cases, ap, false, ◌==◌, List}
use apiv.Base.Int.{ℤ, ◌*ℤ◌}
use apiv.Store.{Position, Side, open_position}
use apiv.Execution.Rows.{Desk}
use apiv.Execution.Lifecycle.{position_of, transition}
use apiv.Execution.Exposure.{
  Registry, add_side, notional_of, open_position_at, check_can_open, check_can_open_atomic,
}
use apiv.Execution.Registry.{
  Mirrors, Mirrors-agree, open_position_at_hit, open_position_at_other, exposure_hit,
  exposure_other,
}
use apiv.Execution.Setting.{Setting, Request, FillResult, price_gate, passed, is_partial}
use apiv.Execution.Transaction.{position_for}
use apiv.Execution.Engine.{filled_as, execute, finish}
use apiv.Execution.Capped.{whole_notional}
use apiv.Execution.Filled.{execute_filled, execute_filled-positions}

-- A position that is opened, in both.
open_position_at-Mirrors :
    (p : Position) (r : Registry) (ps : List Position)
    → p.status ≡ open_position
    → Mirrors r ps
    → Mirrors (open_position_at p.symbol p.side (notional_of p) r) (p ∷ ps)
open_position_at-Mirrors p r ps o m k = elim (Bool-cases (p.symbol == k)) [
  | inl t ↦
      rw (open_position_at_hit k p r t, exposure_hit k p ps (rw o refl) t)
        (ap (add_side p.side (notional_of p)) (m k))
  | inr t ↦ rw (open_position_at_other k p r t, exposure_other k p ps t) (m k)
]

execute_filled-registry :
    (e : Setting) (r : Request) (f : FillResult) (p : ℕ) (full : Bool) (d : Desk)
    → is_partial f ≡ false
    → f.filled_quantity ≡ r.quantity
    → price_gate e r ≡ passed f
    → (execute e r d).0 ≡ filled_as p full
    → (execute e r d).1.registry
      ≡ open_position_at r.symbol r.side (f.filled_quantity *ℤ f.average_price) d.registry
unfolding finish transition
execute_filled-registry e r f p full d whole quantity priced t =
    let (d', opened, after) = execute_filled e r f p full d priced t in
    rw (after, opened.writes, whole_notional e r f whole quantity) refl

-- Where the registry of a process mirrors the open positions, an execution that fills an order in full
-- keeps the check before a trade in agreement with the authoritative check in the transaction, on
-- every instrument, side and notional.
pub execute_filled-agree :
    (e : Setting) (r : Request) (f : FillResult) (p : ℕ) (full : Bool) (d : Desk)
    → Mirrors d.registry d.store.positions
    → is_partial f ≡ false
    → f.filled_quantity ≡ r.quantity
    → price_gate e r ≡ passed f
    → (execute e r d).0 ≡ filled_as p full
    → (k : ℕ) (s : Side) (n : ℤ)
    → let d' = (execute e r d).1 in
      check_can_open k s n d'.registry ≡ check_can_open_atomic k s n d'.store.positions
execute_filled-agree e r f p full d m whole quantity priced t k s n =
    let q = position_of (position_for e.rounding r f) p in
    let kept = open_position_at-Mirrors q d.registry d.store.positions refl m in
    rw
      (
        execute_filled-registry e r f p full d whole quantity priced t,
        execute_filled-positions e r f p full d whole priced t,
      )
      (Mirrors-agree (open_position_at q.symbol q.side (notional_of q) d.registry)
        (q ∷ d.store.positions) kept k s n)
