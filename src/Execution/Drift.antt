-- ===== src/Execution/Drift.antt =====
-- settlement/settlement.engine.ts: the exposure that a settlement releases after its transaction, from
-- the registry of risk-service/exposure.limits.ts.
use apiv.Base.{ℕ, List, ◌≡◌, refl, ◌∙◌, ap, ◌∷◌, Bool, or_else, sym, arith}
use apiv.Base.Int.{pos, ◌+ℤ◌, ◌-ℤ◌, ◌*ℤ◌, ◌≤ℤ◌, ◌<ℤ◌}
use apiv.Store.{Position, Store, Result, ok, err, buy, open_position}
use apiv.Settlement.Engine.{SettleInput, close_position, position_status, settle, amounts}
use apiv.Settlement.Outcomes.{settle_ok, settle_tx_passed, released_for}
use apiv.Settlement.Written.{write_settlement-positions}
use apiv.Settlement.Reconciled.{position_status-closed}
use apiv.Execution.Exposure.{Registry, no_exposure, exposure_of, notional_of, close_position_at}
use apiv.Execution.Registry.{Mirrors, close_position_at-drifts}

-- `settle` with the registry of the process; the notional is that at the exit price. Positions hold the
-- symbol, which the input of a settlement carries too.
unfoldable pub settle_and_release :
    (ℕ → Bool)
    → (symbol : ℕ) → SettleInput
    → Store
    → Registry
    → Result (Unit {0}) × Store × Registry
settle_and_release conflict symbol i s r =
    let (result, t) = settle conflict i s in
    elim result [
      | ok u ↦ (ok u, t, close_position_at symbol i.side (pos i.quantity *ℤ pos i.exit_price) r)
      | err e ↦ (err e, t, r)
    ]

nonneg_product : (m n : ℕ) → pos 0 ≤ℤ pos m *ℤ pos n
unfolding ◌*ℤ◌
nonneg_product m n = grind arith

settle-positions :
    (conflict : ℕ → Bool) (i : SettleInput) (s : Store)
    → (settle conflict i s).0 ≡ ok tt
    → (settle conflict i s).1.positions
      ≡ close_position i.position_id (position_status i.reason) s.positions
settle-positions conflict i s done =
    let (b, good, positions, wallets, ledger, next) = settle_ok conflict i s done in
    let (p, w, found, account, left) = settle_tx_passed i s b good in
    rw (positions, left, write_settlement-positions i (amounts i) (released_for i w) w s) refl

released :
    (conflict : ℕ → Bool) (k : ℕ) (i : SettleInput) (s : Store) (r : Registry)
    → (settle conflict i s).0 ≡ ok tt
    → settle_and_release conflict k i s r ≡ (
      ok tt,
      (settle conflict i s).1,
      close_position_at k i.side (pos i.quantity *ℤ pos i.exit_price) r,
    )
unfolding settle_and_release
released conflict k i s r done = ground arith

-- A settlement of an open long position that succeeds, at a price below its entry, while the registry
-- mirrors the open positions, leaves the registry above what is open then by the difference of the two
-- notionals.
pub settle_and_release-drifts :
    (conflict : ℕ → Bool) (i : SettleInput) (r : Registry) (p : Position) (ps : List Position)
    (s : Store)
    → s.positions ≡ p ∷ ps
    → Mirrors r s.positions
    → p.id ≡ i.position_id
    → p.status ≡ open_position
    → p.side ≡ buy
    → i.side ≡ buy
    → p.quantity ≡ pos i.quantity
    → pos 0 ≤ℤ (exposure_of p.symbol ps).long
    → pos i.quantity *ℤ pos i.exit_price <ℤ notional_of p
    → (settle conflict i s).0 ≡ ok tt
    → let (_, t, r') = settle_and_release conflict p.symbol i s r in
      (or_else (r' p.symbol) no_exposure).long
      ≡ (exposure_of p.symbol t.positions).long
        +ℤ (notional_of p -ℤ pos i.quantity *ℤ pos i.exit_price)
settle_and_release-drifts conflict i r p ps s rows m same o long long' size base lower done =
    let exit = pos i.exit_price in
    let mirrored : Mirrors r (p ∷ ps) = rw rows at m in
    let sided : i.side ≡ p.side = long' ∙ sym long in
    let product : p.quantity *ℤ exit ≡ pos i.quantity *ℤ exit = ap (λ q. q *ℤ exit) size in
    let below : p.quantity *ℤ exit <ℤ notional_of p = rw product lower in
    rw
      (
        released conflict p.symbol i s r done,
        settle-positions conflict i s done,
        rows,
        ← same,
        sided,
        ← size,
      )
      (close_position_at-drifts r p ps exit (position_status i.reason) mirrored o long
        (position_status-closed i) base (rw size (nonneg_product i.quantity i.exit_price)) below)
