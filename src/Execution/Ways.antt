-- ===== src/Execution/Ways.antt =====
-- execution-service/execution.engine.ts: the ways through `execute`.
use apiv.Base.{◌≡◌, refl, ◌⊎◌, inl, inr, some, none, arith, Option-cases, Bool-cases, ◌==◌}
use apiv.Execution.Rows.{Refusal, Desk, accepted, risk}
use apiv.Execution.Lifecycle.{transition, no_details}
use apiv.Execution.Setting.{
  Setting, Request, FillResult, Gate, shut, passed, entry_gate, price_gate,
}
use apiv.Execution.Transaction.{fill_tx}
use apiv.Execution.Engine.{Execution, refused_with, invalid_leverage, turn_away, conclude, execute}

Gate-cases : (g : Gate) → ((why : Refusal) × (g ≡ shut why)) ⊎ ((f : FillResult) × (g ≡ passed f))
Gate-cases (shut why) = inl (why, refl)
Gate-cases (passed f) = inr (f, refl)

module _ (e : Setting) (r : Request) where
  -- The desk once the order is accepted.
  abbrev pub accept : Desk → Desk
  accept d = transition r.order accepted risk no_details d

  abbrev pub Ways : Desk → Execution × Desk → Type 0
  Ways d x =
      ((why : Refusal) × (entry_gate e ≡ some why) × (x ≡ (refused_with why, turn_away e r why d)))
      ⊎ (((why : Refusal) × (price_gate e r ≡ shut why)
            × (x ≡ (refused_with why, turn_away e r why (accept d))))
          ⊎ ((f : FillResult) × (price_gate e r ≡ passed f)
              × ((x ≡ (invalid_leverage, accept d))
                  ⊎ (x ≡ conclude e r f (fill_tx e r f (accept d))))))

  pub execute-Ways : (d : Desk) → Ways d (execute e r d)
  unfolding execute
  execute-Ways d = elim (Option-cases (entry_gate e)) [
    | inr (why, t) ↦ inl (why, t, ground arith)
    | inl t ↦ elim (Gate-cases (price_gate e r)) [
      | inl (why, t') ↦ inr (inl (why, t', ground arith))
      | inr (f, t') ↦ elim (Bool-cases (r.leverage == 0)) [
        | inl z ↦ inr (inr (f, t', inl (ground arith)))
        | inr z ↦ inr (inr (f, t', inr (ground arith)))
      ]
    ]
  ]

  -- What is left past the gates.
  pub execute_passed :
      (f : FillResult) (d : Desk)
      → entry_gate e ≡ none
      → price_gate e r ≡ passed f
      → (execute e r d ≡ (invalid_leverage, accept d))
        ⊎ (execute e r d ≡ conclude e r f (fill_tx e r f (accept d)))
  unfolding execute
  execute_passed f d t t' = elim (Bool-cases (r.leverage == 0)) [
    | inl z ↦ inl (ground arith)
    | inr z ↦ inr (ground arith)
  ]
