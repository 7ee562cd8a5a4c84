-- ===== src/Execution/Books.antt =====
-- execution-service/execution.engine.ts: an execution and the books of the wallets.
use apiv.Base.{
  ℕ, zero, suc, ◌≡◌, refl, inl, inr, some, List, [], ◌∷◌, Bool, arith, Option-cases, ap, if_keeps,
  ◌&&◌,
}
use apiv.Base.Int.{ℤ, pos, neg, ◌+ℤ◌, ◌-ℤ◌, ltb_ℤ, int_laws}
use apiv.Store.{Store, Entry, Position, text_ref}
use apiv.Store.Tables.{Below}
use apiv.Wallet.Reconciliation.{IsReconciled, is_counted, is_margin_type}
use apiv.Wallet.Posting.{post_balance, post_locked, add_audit-IsReconciled}
use apiv.Settlement.Engine.{release_of}
use apiv.Margin.Controller.{release_margin_tx, release_entry}
use apiv.Margin.Books.{check_and_lock-IsReconciled, release_margin-IsReconciled}
use apiv.Reconciliation.Repaired.{repair-IsReconciled}
use apiv.Execution.Rows.{Refusal, Desk}
use apiv.Execution.Lifecycle.{transition, reject_order}
use apiv.Execution.Setting.{
  Setting, Request, FillResult, release_attempts, release_margin_with_retry, release_pre_locked,
  real_margin, is_partial,
}
use apiv.Execution.Transaction.{
  charge_fee, true_up, fee_entry, fill_tx, opened, unfunded, thrown, aborts, Outcome,
}
use apiv.Execution.Engine.{
  execute, turn_away, refuse, finish, conclude, release_unused, unused_margin,
}
use apiv.Execution.Ways.{accept, execute-Ways}
use apiv.Execution.Charges.{release_tx_cases, charge_fee_cases}
use apiv.Execution.Outcomes.{fill_tx-Ends}

-- A new identifier that no ledger row takes.
Below-suc : (n : ℕ) (es : List Entry) → Below n es → Below (suc n) es
Below-suc n [] b = tt
Below-suc n (e ∷ es) b = ground arith

pub take_id-IsReconciled :
    (ps : List Position) (s : Store)
    → IsReconciled s
    → IsReconciled (record s { positions = ps; next_id = suc s.next_id })
take_id-IsReconciled ps s r = record {
  balances = r.balances;
  margins = r.margins;
  fresh = Below-suc s.next_id s.ledger r.fresh;
}

release_tx-IsReconciled :
    (u order : ℕ) (a : ℤ) (s : Store)
    → IsReconciled s
    → IsReconciled (release_margin_tx u order a s).1
unfolding is_margin_type
release_tx-IsReconciled u order a s r = elim (release_tx_cases u order a s) [
  | inl e ↦ rw e r
  | inr (w, found, e) ↦
      let released = release_of w.locked a in
      rw e (
        add_audit-IsReconciled _ _ (
          post_locked u w (release_entry u (text_ref order) released) s (neg released) r found refl
            refl refl refl))
]

true_up-IsReconciled : (r : Request) (s : Store) → IsReconciled s → IsReconciled (true_up r s)
unfolding true_up
true_up-IsReconciled r s b = elim (Option-cases r.pre_locked_margin) [
  | inl t ↦ rw (t, true_up) b
  | inr (a, t) ↦ rw (t, true_up) (release_tx-IsReconciled r.user r.order a s b)
]

release_attempts-IsReconciled :
    (fails : ℕ → Bool) (stamp left attempt u order : ℕ) (a : ℤ) (s : Store)
    → IsReconciled s
    → IsReconciled (release_attempts fails stamp left attempt u order a s)
unfolding release_attempts
release_attempts-IsReconciled fails stamp zero attempt u order a s r =
    repair-IsReconciled u stamp s r
release_attempts-IsReconciled fails stamp (suc left) attempt u order a s r =
    if_keeps IsReconciled (fails attempt)
      (release_attempts-IsReconciled fails stamp left (suc attempt) u order a s r)
      (release_margin-IsReconciled u order a s r)

fee_plus : (b f : ℤ) → b -ℤ f ≡ b +ℤ neg f
fee_plus b f = omega int_laws

-- A fee that is charged is posted.
charge_fee-IsReconciled :
    (r : Request) (f : FillResult) (s s' : Store)
    → charge_fee r f s ≡ some s'
    → IsReconciled s
    → IsReconciled s'
unfolding is_counted
charge_fee-IsReconciled r f s s' t b = elim (charge_fee_cases r f s s' t) [
  | inl (free, same) ↦ rw same b
  | inr (w, found, due, covered, paid) ↦ rw paid (
      post_balance r.user w (fee_entry r f) s (w.balance -ℤ f.fees) b found refl refl refl
        (fee_plus w.balance f.fees))
]

module _ (e : Setting) (r : Request) where
  fill_tx-IsReconciled :
      (f : FillResult) (d : Desk) → IsReconciled d.store → IsReconciled (fill_tx e r f d).1.store
  fill_tx-IsReconciled f d b = elim (fill_tx-Ends e r f d) [
    | inl (p, full, done, o) ↦
        let locked-IsReconciled =
          check_and_lock-IsReconciled e.quotes r.user r.order (real_margin e.rounding r f)
            (true_up r d.store) (true_up-IsReconciled r d.store b) in
        rw o.writes (
          take_id-IsReconciled _ o.charged (
            charge_fee-IsReconciled r f o.locked o.charged o.charges
              (rw (← ap (λ v. v.1) o.grants) locked-IsReconciled)))
    | inr (inl (why, done, lacks, after)) ↦ rw after (
        if_keeps (λ (x : Desk). IsReconciled x.store) (aborts why) b
          (true_up-IsReconciled r d.store b))
    | inr (inr (why, done, other, after)) ↦ rw after b
  ]

  retry-IsReconciled :
      (a : ℤ) (s : Store)
      → IsReconciled s
      → IsReconciled (release_margin_with_retry e r.user r.order a s)
  unfolding release_margin_with_retry
  retry-IsReconciled a s b =
      release_attempts-IsReconciled e.release_fails e.stamp 5 1 r.user r.order a s b

  turn_away-IsReconciled :
      (why : Refusal) (d : Desk) → IsReconciled d.store → IsReconciled (turn_away e r why d).store
  unfolding turn_away reject_order transition release_pre_locked
  turn_away-IsReconciled why d b = elim (Option-cases r.pre_locked_margin) [
    | inl t ↦ rw (t, release_pre_locked) b
    | inr (a, t) ↦ rw (t, release_pre_locked) (retry-IsReconciled a d.store b)
  ]

  finish-IsReconciled :
      (f : FillResult) (p : ℕ) (d : Desk)
      → IsReconciled d.store
      → IsReconciled (finish e r f p d).store
  unfolding finish release_unused
  finish-IsReconciled f p d b =
      if_keeps IsReconciled (is_partial f && ltb_ℤ (pos 1000000) (unused_margin e r f))
        (retry-IsReconciled (unused_margin e r f) d.store b) b

  conclude-IsReconciled :
      (f : FillResult) (x : Outcome × Desk)
      → IsReconciled x.1.store
      → IsReconciled (conclude e r f x).1.store
  unfolding conclude refuse reject_order transition
  conclude-IsReconciled f (opened p full, d) b = finish-IsReconciled f p d b
  conclude-IsReconciled f (unfunded why, d) b = b
  conclude-IsReconciled f (thrown why, d) b = b

  -- An execution keeps every wallet's books reconciled with the ledger, however it ends: refused at a
  -- gate, refused in the transaction, filled in full or in part, and with the margin released at once,
  -- after failed attempts or by a repair.
  pub execute-IsReconciled :
      (d : Desk) → IsReconciled d.store → IsReconciled (execute e r d).1.store
  unfolding transition
  execute-IsReconciled d b = elim (execute-Ways e r d) [
    | inl (why, t, x) ↦ rw x (turn_away-IsReconciled why d b)
    | inr (inl (why, t, x)) ↦ rw x (turn_away-IsReconciled why (accept e r d) b)
    | inr (inr (f, t, inl x)) ↦ rw x b
    | inr (inr (f, t, inr x)) ↦ rw x (
        conclude-IsReconciled f (fill_tx e r f (accept e r d))
          (fill_tx-IsReconciled f (accept e r d) b))
  ]
