-- ===== src/Execution/Engine.antt =====
-- execution-service/execution.engine.ts: `execute`, around the transaction of a fill.
use apiv.Base.{ℕ, none, some, Bool, List, ◌∷◌, ◌&&◌, ◌==◌, if◌then◌else◌}
use apiv.Base.Int.{ℤ, pos, ◌-ℤ◌, ltb_ℤ}
use apiv.Store.{Store}
use apiv.Execution.Rows.{
  accepted, risk, Refusal, Message, margin_insufficient, order_rejected, order_filled,
  order_partial_filled, margin_locked, position_opened, Desk,
}
use apiv.Execution.Lifecycle.{transition, no_details, reject_order}
use apiv.Execution.Exposure.{open_position_at}
use apiv.Execution.Setting.{
  Request, FillResult, Setting, with_store, post, release_margin_with_retry, release_pre_locked,
  is_partial, entry_gate, price_gate, real_margin, effective_margin, effective_notional, shut,
  passed,
}
use apiv.Execution.Transaction.{Outcome, fill_tx, opened, unfunded, thrown}

-- The branch of a refusal before the transaction.
unfoldable pub turn_away : Setting → Request → Refusal → Desk → Desk
turn_away e r why d =
    post (order_rejected r.order why)
      (reject_order r.order why (with_store (release_pre_locked e r) d))

-- A refusal after the transaction.
unfoldable pub refuse : Request → Refusal → Desk → Desk
refuse r why d = post (order_rejected r.order why) (reject_order r.order why d)

-- The margin that the unfilled part of a fill does not need; it is released above a cent.
unfoldable pub unused_margin : Setting → Request → FillResult → ℤ
unused_margin e r f = real_margin e.rounding r f -ℤ effective_margin e.rounding r f

unfoldable pub release_unused : Setting → Request → FillResult → Store → Store
release_unused e r f s =
    if is_partial f && ltb_ℤ (pos 1000000) (unused_margin e r f)
    then release_margin_with_retry e r.user r.order (unused_margin e r f) s
    else s

abbrev pub announce : Setting → Request → FillResult → ℕ → List Message → List Message
announce e r f position ms =
    position_opened position r.user
    ∷ (if is_partial f
        then order_partial_filled r.order f.filled_quantity f.average_price ∷ ms
        else margin_locked r.user r.order (real_margin e.rounding r f)
          ∷ order_filled r.order f.filled_quantity f.average_price
          ∷ ms)

unfoldable pub finish : Setting → Request → FillResult → ℕ → Desk → Desk
unfolding release_unused
finish e r f position d = record d {
  store = release_unused e r f d.store;
  messages = announce e r f position d.messages;
  registry = open_position_at r.symbol r.side (effective_notional e.rounding r f) d.registry;
}

-- `ExecutionResult`.
pub data Execution : Type 0 where
  refused_with : Refusal → Execution
  filled_as : (position : ℕ) (now_full : Bool) → Execution
  -- `computeMarginRequired` throws, out of `execute`.
  invalid_leverage : Execution

unfoldable pub conclude : Setting → Request → FillResult → Outcome × Desk → Execution × Desk
unfolding finish refuse
conclude e r f (opened position full, d) = (filled_as position full, finish e r f position d)
conclude e r f (unfunded why, d) =
    (refused_with (margin_insufficient why), refuse r (margin_insufficient why) d)
conclude e r f (thrown why, d) = (refused_with why, refuse r why d)

unfoldable pub execute : Setting → Request → Desk → Execution × Desk
unfolding entry_gate price_gate turn_away fill_tx conclude
execute e r d = elim (entry_gate e) [
  | some why ↦ (refused_with why, turn_away e r why d)
  | none ↦
      let d' = transition r.order accepted risk no_details d in
      elim (price_gate e r) [
        | shut why ↦ (refused_with why, turn_away e r why d')
        | passed f ↦
            if r.leverage == 0 then (invalid_leverage, d') else conclude e r f (fill_tx e r f d')
      ]
]
