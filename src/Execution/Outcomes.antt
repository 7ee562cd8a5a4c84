-- ===== src/Execution/Outcomes.antt =====
-- execution-service/execution.engine.ts: the ways in which the transaction of a fill ends.
use apiv.Base.{
  ℕ, suc, ◌≡◌, refl, ◌⊎◌, inl, inr, Option, none, some, ◌∷◌, Bool, true, false, arith,
  if◌then◌else◌, Option-cases, ap,
}
use apiv.Base.Int.{ℤ}
use apiv.Store.{Store, Error, Quote}
use apiv.Margin.Controller.{Verdict, granted, refused, check_and_lock}
use apiv.Execution.Rows.{
  Refusal, Order, Desk, lp_unavailable, margin_insufficient, fee_charge_failed, find_order,
  update_order,
}
use apiv.Execution.Lifecycle.{
  position_of, create_position, create_fill, record_fill_leg, with_leg, is_full,
}
use apiv.Execution.Setting.{Setting, Request, FillResult, real_margin}
use apiv.Execution.Transaction.{
  Outcome, opened, unfunded, thrown, position_for, fill_for, outbox_row, charge_fee, true_up,
  recheck, open_rows, after_lock, fill_callback, fill_tx, aborts, settle_outcome,
}

Verdict-cases : (v : Verdict) → (v ≡ granted) ⊎ ((why : Error) × (v ≡ refused why))
Verdict-cases granted = inl refl
Verdict-cases (refused why) = inr (why, refl)

-- A refused lock writes nothing.
pub check_and_lock_refused :
    (quotes : ℕ → Option Quote) (u order : ℕ) (a : ℤ) (why : Error) (s : Store)
    → (check_and_lock quotes u order a s).0 ≡ refused why
    → (check_and_lock quotes u order a s).1 ≡ s
unfolding check_and_lock
check_and_lock_refused quotes u order a why s e = ground arith

-- A refusal for lack of margin.
abbrev pub is_for_margin : Refusal → Bool
is_for_margin (margin_insufficient why) = true
is_for_margin _ = false

recheck_other :
    (e : Setting) (r : Request) (f : FillResult) (why : Refusal) (s : Store)
    → recheck e r f s ≡ some why
    → is_for_margin why ≡ false
unfolding recheck
recheck_other e r f why s t = ground arith

module _ (e : Setting) (r : Request) (f : FillResult) where
  -- The desk with the rows of an opened position.
  abbrev pub opened_desk : Bool → Desk → Desk
  opened_desk full d = record d {
    store = record d.store {
      positions = position_of (position_for e.rounding r f) d.store.next_id ∷ d.store.positions;
      next_id = suc d.store.next_id;
    };
    fills = fill_for r f d.store.next_id ∷ d.fills;
    orders =
        update_order r.order (with_leg f.filled_quantity f.average_price f.slippage f.fees)
          d.orders;
    outbox = outbox_row full r.order d.store.next_id r.user ∷ d.outbox;
  }

  open_rows_found :
      (o : Order) (d : Desk)
      → find_order r.order d.orders ≡ some o
      → let full = is_full f.filled_quantity o in
        open_rows e r f d ≡ (opened d.store.next_id full, opened_desk full d)
  unfolding open_rows create_position create_fill record_fill_leg
  open_rows_found o d found = ground arith

  open_rows_missing :
      (d : Desk)
      → find_order r.order d.orders ≡ none
      → (open_rows e r f d).0 ≡ thrown lp_unavailable
  unfolding open_rows create_position create_fill record_fill_leg
  open_rows_missing d missing = ground arith

  -- What an opened position has passed and written.
  pub record IsOpened (d : Desk) (p : ℕ) (full : Bool) (d' : Desk) : Type 0 where
    pub locked : Store
    pub charged : Store
    pub row : Order
    pub grants :
        check_and_lock e.quotes r.user r.order (real_margin e.rounding r f) (true_up r d.store)
        ≡ (granted, locked)
    pub passes : recheck e r f locked ≡ none
    pub charges : charge_fee r f locked ≡ some charged
    pub found : find_order r.order d.orders ≡ some row
    pub takes_id : p ≡ charged.next_id
    pub fullness : full ≡ is_full f.filled_quantity row
    pub writes : d' ≡ opened_desk full (record d { store = charged })

  after_lock_rechecked :
      (why : Refusal) (d : Desk)
      → recheck e r f d.store ≡ some why
      → after_lock e r f d ≡ (thrown why, d)
  unfolding after_lock
  after_lock_rechecked why d t = ground arith

  after_lock_uncharged :
      (d : Desk)
      → recheck e r f d.store ≡ none
      → charge_fee r f d.store ≡ none
      → after_lock e r f d ≡ (thrown fee_charge_failed, d)
  unfolding after_lock
  after_lock_uncharged d t t' = ground arith

  after_lock_charged :
      (s : Store) (d : Desk)
      → recheck e r f d.store ≡ none
      → charge_fee r f d.store ≡ some s
      → after_lock e r f d ≡ open_rows e r f (record d { store = s })
  unfolding after_lock
  after_lock_charged s d t t' = ground arith

  abbrev margin_of : ℤ
  margin_of = real_margin e.rounding r f

  -- The three ends of the transaction.
  abbrev pub Ends : Desk → Outcome × Desk → Type 0
  Ends d x =
      ((p : ℕ) × (full : Bool) × (x.0 ≡ opened p full) × IsOpened d p full x.1)
      ⊎ (((why : Error) × (x.0 ≡ unfunded why)
            × ((check_and_lock e.quotes r.user r.order margin_of (true_up r d.store)).0
                ≡ refused why)
            × (x.1 ≡ (if aborts why then d else record d { store = true_up r d.store })))
          ⊎ ((why : Refusal) × (x.0 ≡ thrown why) × (is_for_margin why ≡ false) × (x.1 ≡ d)))

  abbrev lock_call : Desk → Verdict × Store
  lock_call d = check_and_lock e.quotes r.user r.order margin_of (true_up r d.store)

  fill_tx_refused :
      (why : Error) (d : Desk)
      → (lock_call d).0 ≡ refused why
      → fill_tx e r f d
        ≡ (unfunded why, if aborts why then d else record d { store = (lock_call d).1 })
  unfolding fill_tx fill_callback
  fill_tx_refused why d t = ground arith

  fill_tx_granted :
      (d : Desk)
      → (lock_call d).0 ≡ granted
      → fill_tx e r f d ≡ settle_outcome d (after_lock e r f (record d { store = (lock_call d).1 }))
  unfolding fill_tx fill_callback
  fill_tx_granted d t = ground arith

  thrown-Ends :
      (why : Refusal) (d : Desk) (x : Outcome × Desk)
      → x.0 ≡ thrown why
      → settle_outcome d x ≡ (thrown why, d)
  thrown-Ends why d x t = ground arith

  locked-Ends :
      (s : Store) (d : Desk)
      → lock_call d ≡ (granted, s)
      → Ends d (settle_outcome d (after_lock e r f (record d { store = s })))
  locked-Ends s d t = elim (Option-cases (recheck e r f s)) [
    | inr (why, t1) ↦
        rw (after_lock_rechecked why (record d { store = s }) t1)
          (inr (inr (why, refl, recheck_other e r f why s t1, refl)))
    | inl t1 ↦ elim (Option-cases (charge_fee r f s)) [
      | inl t2 ↦
          rw (after_lock_uncharged (record d { store = s }) t1 t2)
            (inr (inr (fee_charge_failed, refl, refl, refl)))
      | inr (s', t2) ↦ elim (Option-cases (find_order r.order d.orders)) [
        | inl t3 ↦
            rw
              (
                after_lock_charged s' (record d { store = s }) t1 t2,
                thrown-Ends lp_unavailable d (open_rows e r f (record d { store = s' }))
                    (open_rows_missing (record d { store = s' }) t3),
              )
              (inr (inr (lp_unavailable, refl, refl, refl)))
        | inr (o, t3) ↦
            rw
              (
                after_lock_charged s' (record d { store = s }) t1 t2,
                open_rows_found o (record d { store = s' }) t3,
              )
              (inl (
                s'.next_id,
                is_full f.filled_quantity o,
                refl,
                record {
                  locked = s;
                  charged = s';
                  row = o;
                  grants = t;
                  passes = t1;
                  charges = t2;
                  found = t3;
                  takes_id = refl;
                  fullness = refl;
                  writes = refl;
                },
              ))
      ]
    ]
  ]

  pub fill_tx-Ends : (d : Desk) → Ends d (fill_tx e r f d)
  fill_tx-Ends d = elim (Verdict-cases (lock_call d).0) [
    | inl t ↦
        rw (fill_tx_granted d t) (locked-Ends (lock_call d).1 d (ap (λ v. (v, (lock_call d).1)) t))
    | inr (why, t) ↦
        rw
          (
            fill_tx_refused why d t,
            check_and_lock_refused e.quotes r.user r.order margin_of why (true_up r d.store) t,
          )
          (inr (inl (why, refl, t, refl)))
  ]
