-- ===== src/Examples/Halting.antt =====
-- The kill switch of a small cluster.
use apiv.Base.{◌≡◌, refl, none, some, [], ◌∷◌, false, All, arith}
use apiv.Execution.Rows.{kill_switch_active}
use apiv.Execution.Engine.{execute, refused_with}
use apiv.Risk.KillSwitch.{
  SwitchState, Worker, Cluster, worker_at, begin, persist, publish, deliver, drain_all, activate,
  activated, deactivated, is_active,
}
use apiv.Risk.Halted.{activate_halts, activate_lost}
use apiv.Examples.Filling.{quiet, request_9, desk}

abbrev off : SwitchState
off = deactivated 0

abbrev trading_worker : Worker
trading_worker = record { cached = off; writing = none; inbox = off ∷ [] }

abbrev cluster : Cluster
cluster = record { workers = trading_worker ∷ trading_worker ∷ []; row = none; audits = [] }

activate_halts_example :
    let c' = drain_all (activate (0 ∷ []) 1 8 9 cluster) in
    All
      (λ x.
        (execute (record quiet { kill_switch = is_active x }) request_9 desk).0
        ≡ refused_with kill_switch_active)
      c'.workers
    × (c'.row ≡ some (activated 8 9))
unfolding worker_at
activate_halts_example =
    activate_halts quiet request_9 desk (0 ∷ []) 1 8 9 trading_worker cluster refl
      (ground arith, tt)

activate_lost_example :
    let c' = drain_all (publish 1 (persist 1 (deliver 1 (begin 1 (activated 8 9) cluster)))) in
    All (λ x. is_active x ≡ false) c'.workers × (c'.row ≡ some (activated 8 9))
unfolding worker_at
activate_lost_example = activate_lost 1 8 9 off trading_worker cluster refl refl refl
