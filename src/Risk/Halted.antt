-- ===== src/Risk/Halted.antt =====
-- risk-service/kill.switch.ts: what the workers of a cluster hold once the messages are delivered.
use apiv.Base.{
  ℕ, zero, suc, ◌≡◌, refl, some, List, [], ◌∷◌, ◌++◌, true, false, map, All, arith, ap, ◌≢◌, ◌∙◌,
}
use apiv.Risk.KillSwitch.{
  SwitchState, Worker, Cluster, worker_at, update_at, begin, persist, publish, deliver, receive,
  send, drain, drain_all, last_of, activate, activated, deliver_all, is_active, set_local,
}
use apiv.Execution.Rows.{Desk, kill_switch_active}
use apiv.Execution.Setting.{Setting, Request}
use apiv.Execution.Engine.{execute, refused_with}

last_of-append : (st x : SwitchState) (xs : List SwitchState) → last_of st (xs ++ x ∷ []) ≡ x
last_of-append st x [] = refl
last_of-append st x (y ∷ ys) = last_of-append y x ys

worker_at-update_at :
    (i : ℕ) (f : Worker → Worker) (w : Worker) (ws : List Worker)
    → worker_at i ws ≡ some w
    → worker_at i (update_at i f ws) ≡ some (f w)
unfolding worker_at update_at
worker_at-update_at i f w [] e = ground arith
worker_at-update_at zero f w (x ∷ xs) e = ground arith
worker_at-update_at (suc i) f w (x ∷ xs) e = worker_at-update_at i f w xs e

-- The state that is sent last is what every worker ends with.
drained :
    (P : Worker → Type 0) (st : SwitchState) (ws : List Worker)
    → ((w : Worker) → w.cached ≡ st → P w)
    → All P (map drain (map (send st) ws))
unfolding drain
drained P st [] h = tt
drained P st (w ∷ ws) h =
    (h (drain (send st w)) (last_of-append w.cached st w.inbox), drained P st ws h)

publish_found :
    (i : ℕ) (w : Worker) (c : Cluster)
    → worker_at i c.workers ≡ some w
    → publish i c ≡ record c { workers = map (send w.cached) c.workers }
unfolding publish
publish_found i w c e = ground arith

persist_found :
    (i : ℕ) (w : Worker) (st : SwitchState) (c : Cluster)
    → worker_at i c.workers ≡ some w
    → w.writing ≡ some st
    → persist i c ≡ record c { row = some st }
unfolding persist
persist_found i w st c e t = ground arith

refuses :
    (e : Setting) (r : Request) (d : Desk) (w : Worker)
    → w.cached.active ≡ true
    → (execute (record e { kill_switch = is_active w }) r d).0 ≡ refused_with kill_switch_active
unfolding execute
refuses e r d w t = rw t refl

worker_at-update_at_other :
    (i j : ℕ) (f : Worker → Worker) (ws : List Worker)
    → i ≢ j
    → worker_at i (update_at j f ws) ≡ worker_at i ws
unfolding worker_at update_at
worker_at-update_at_other i j f [] ne = ground arith
worker_at-update_at_other zero zero f (w ∷ ws) ne = absurd (ne refl)
worker_at-update_at_other zero (suc j) f (w ∷ ws) ne = refl
worker_at-update_at_other (suc i) zero f (w ∷ ws) ne = refl
worker_at-update_at_other (suc i) (suc j) f (w ∷ ws) ne =
    worker_at-update_at_other i j f ws (λ e. ne (ap suc e))

-- Messages to others leave a worker and the row as they are.
deliver_all_others :
    (i : ℕ) (js : List ℕ) (c : Cluster)
    → All (λ j. i ≢ j) js
    → worker_at i (deliver_all js c).workers ≡ worker_at i c.workers
unfolding deliver_all deliver
deliver_all_others i [] c others = refl
deliver_all_others i (j ∷ js) c others =
    deliver_all_others i js (deliver j c) others.1
    ∙ worker_at-update_at_other i j receive c.workers others.0

-- Once an activation on any worker has run through, whatever messages were waiting before it and
-- whichever of them reached other workers meanwhile, if none reached that worker while it wrote the row,
-- and all messages are delivered, an execution on any worker is refused for the kill switch, and the row of the
-- settings holds the activation.
pub activate_halts :
    (e : Setting) (r : Request) (d : Desk) (meanwhile : List ℕ) (i reason user : ℕ) (w : Worker)
    (c : Cluster)
    → worker_at i c.workers ≡ some w
    → All (λ j. i ≢ j) meanwhile
    → let c' = drain_all (activate meanwhile i reason user c) in
      All
        (λ x.
          (execute (record e { kill_switch = is_active x }) r d).0
          ≡ refused_with kill_switch_active)
        c'.workers
      × (c'.row ≡ some (activated reason user))
unfolding activate begin
activate_halts e r d meanwhile i reason user w c found others =
    let st = activated reason user in
    let c1 = record c { workers = update_at i (set_local st) c.workers } in
    let here = worker_at-update_at i (set_local st) w c.workers found in
    let c2 = deliver_all meanwhile c1 in
    let still = deliver_all_others i meanwhile c1 others ∙ here in
    rw
      (
        persist_found i (set_local st w) st c2 still refl,
        publish_found i (set_local st w) (record c2 { row = some st }) still,
      )
      (
        drained _ st c2.workers (λ (x : Worker) (t : x.cached ≡ st).
            refuses e r d x (ap (λ (y : SwitchState). y.active) t)),
        refl,
      )

received :
    (st off : SwitchState) (w : Worker)
    → w.inbox ≡ off ∷ []
    → ((receive (set_local st w)).cached ≡ off) × ((receive (set_local st w)).writing ≡ some st)
unfolding receive
received st off w waits = (ground arith, ground arith)

-- An activation on a worker that gets the message of a deactivation while it writes the row publishes
-- the deactivation: once all messages are delivered no worker is halted, though the row of the
-- settings holds the activation.
pub activate_lost :
    (i reason user : ℕ) (off : SwitchState) (w : Worker) (c : Cluster)
    → worker_at i c.workers ≡ some w
    → w.inbox ≡ off ∷ []
    → off.active ≡ false
    → let c' = drain_all (publish i (persist i (deliver i (begin i (activated reason user) c)))) in
      All (λ x. is_active x ≡ false) c'.workers × (c'.row ≡ some (activated reason user))
unfolding deliver begin
activate_lost i reason user off w c found waits inactive =
    let st = activated reason user in
    let ws = update_at i (set_local st) c.workers in
    let here = worker_at-update_at i (set_local st) w c.workers found in
    let ws' = update_at i receive ws in
    let there = worker_at-update_at i receive (set_local st w) ws here in
    let got = received st off w waits in
    rw
      (
        persist_found i (receive (set_local st w)) st (record c { workers = ws' }) there (got.1),
        publish_found i (receive (set_local st w)) (record c { workers = ws'; row = some st })
            there,
        got.0,
      )
      (drained _ off ws' (λ (x : Worker) (t : x.cached ≡ off). rw t inactive), refl)
