-- ===== src/Reconciliation/Repair.antt =====
-- settlement/reconciliation.engine.ts: `repairOrphanMargin`. What it notifies the client of is left out;
-- the table refuses a locked margin below zero (migration 20260610000000_wallet_nonneg_constraints).
use apiv.Base.{ℕ, none, some, if◌then◌else◌}
use apiv.Base.Int.{ℤ, pos, ◌-ℤ◌, neg, ltb_ℤ, leb_ℤ}
use apiv.Store.{
  Store, Action, transaction, modify, ◌>>=◌, ◌>>◌, add_entry, add_audit, emit, text_ref,
  margin_orphan_released, margin_release_event, Result, pure, check_violation,
}
use apiv.Store.Tables.{find_wallet}
use apiv.Wallet.Repository.{write_locked}
use apiv.Margin.Controller.{open_margin, release_entry}
use apiv.Reconciliation.Check.{epsilon}

-- The identifier of the actor of an audit row.
abbrev system_reconciliation : ℕ
system_reconciliation = 2

abbrev pub write_repair : ℕ → ℕ → ℤ → Store → Store
write_repair u stamp orphan s =
    add_audit
      (record { actor = system_reconciliation; action = margin_orphan_released; entity = u })
      (add_entry (release_entry u (text_ref stamp) orphan) (write_locked u (neg orphan) s))

unfoldable pub repair_tx : ℕ → ℕ → Action ℤ
repair_tx u stamp s = elim (find_wallet u s.wallets) [
  | none ↦ (Result.ok (pos 0), s)
  | some w ↦
      let orphan = w.locked -ℤ open_margin u s.positions in
      if leb_ℤ orphan epsilon
      then (Result.ok (pos 0), s)
      else (if ltb_ℤ (w.locked -ℤ orphan) (pos 0)
          then (Result.err check_violation, s)
          else (Result.ok orphan, write_repair u stamp orphan s))
]

-- `stamp` is the time of the repair.
unfoldable pub repair_orphan_margin : ℕ → ℕ → Action ℤ
repair_orphan_margin u stamp = do
  released ← transaction (repair_tx u stamp)
  modify (λ s.
      if ltb_ℤ epsilon released
      then emit (margin_release_event u released (text_ref stamp)) s
      else s)
  pure released
