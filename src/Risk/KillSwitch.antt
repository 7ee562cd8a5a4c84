-- ===== src/Risk/KillSwitch.antt =====
-- risk-service/kill.switch.ts: `KillSwitch` in every worker, over the row of the settings and the
-- messages of shared/control.channel.ts with Redis configured. The waits inside `activate` and
-- `deactivate` cut them into steps: the cache is set, the row is written with what it held then, and
-- what the cache holds by that time is published. A worker gets the messages in the order in which
-- they were published, its own among them.
use apiv.Base.{ℕ, zero, suc, Option, none, some, List, [], ◌∷◌, ◌++◌, Bool, true, false, map}

-- `KillSwitchState`.
pub record SwitchState : Type 0 where
  pub active : Bool
  pub reason : ℕ
  pub activated_by : Option ℕ

pub record Worker : Type 0 where
  pub cached : SwitchState
  -- What `_persist` is about to write.
  pub writing : Option SwitchState
  pub inbox : List SwitchState

pub data AuditRow : Type 0 where
  kill_switch_activated kill_switch_deactivated : ℕ → AuditRow

pub record Cluster : Type 0 where
  pub workers : List Worker
  pub row : Option SwitchState
  pub audits : List AuditRow

unfoldable pub worker_at : ℕ → List Worker → Option Worker
worker_at i [] = none
worker_at zero (w ∷ ws) = some w
worker_at (suc i) (w ∷ ws) = worker_at i ws

unfoldable pub update_at : ℕ → (Worker → Worker) → List Worker → List Worker
update_at i f [] = []
update_at zero f (w ∷ ws) = f w ∷ ws
update_at (suc i) f (w ∷ ws) = w ∷ update_at i f ws

abbrev pub on_worker : ℕ → (Worker → Worker) → Cluster → Cluster
on_worker i f c = record c { workers = update_at i f c.workers }

abbrev pub is_active : Worker → Bool
is_active w = w.cached.active

abbrev pub load_row : Option SwitchState → Worker → Worker
load_row none w = w
load_row (some st) w = record w { cached = st }

-- `load`, when the database answers; else it changes nothing.
unfoldable pub load : ℕ → Cluster → Cluster
load i c = on_worker i (load_row c.row) c

-- The handler of `startSync`.
abbrev pub handle : SwitchState → Worker → Worker
handle st w = record w { cached = st }

unfoldable pub receive : Worker → Worker
receive w = elim w.inbox [ [] ↦ w | st ∷ rest ↦ handle st (record w { inbox = rest }) ]

unfoldable pub deliver : ℕ → Cluster → Cluster
unfolding receive
deliver i c = on_worker i receive c

abbrev pub set_local : SwitchState → Worker → Worker
set_local st w = record w { cached = st; writing = some st }

unfoldable pub begin : ℕ → SwitchState → Cluster → Cluster
begin i st c = on_worker i (set_local st) c

-- `_persist` completes.
unfoldable pub persist : ℕ → Cluster → Cluster
persist i c = elim (worker_at i c.workers) [
  | none ↦ c
  | some w ↦ record c { row = elim w.writing [ none ↦ c.row | some st ↦ some st ] }
]

abbrev pub send : SwitchState → Worker → Worker
send st w = record w { inbox = w.inbox ++ st ∷ [] }

unfoldable pub publish : ℕ → Cluster → Cluster
publish i c = elim (worker_at i c.workers) [
  | none ↦ c
  | some w ↦ record c { workers = map (send w.cached) c.workers }
]

abbrev pub add_row : AuditRow → Cluster → Cluster
add_row a c = record c { audits = a ∷ c.audits }

abbrev pub activated : (reason user : ℕ) → SwitchState
activated reason user = record { active = true; reason = reason; activated_by = some user }

abbrev pub deactivated : ℕ → SwitchState
deactivated reason = record { active = false; reason = reason; activated_by = none }

-- The workers that get their next message, one after another.
unfoldable pub deliver_all : List ℕ → Cluster → Cluster
deliver_all [] c = c
deliver_all (i ∷ js) c = deliver_all js (deliver i c)

-- `activate` and `deactivate` of worker `i`; while the row is written, messages are delivered to the
-- workers of `meanwhile`.
unfoldable pub activate : List ℕ → ℕ → (reason user : ℕ) → Cluster → Cluster
unfolding begin persist publish
activate meanwhile i reason user c =
    add_row (kill_switch_activated user)
      (publish i (persist i (deliver_all meanwhile (begin i (activated reason user) c))))

unfoldable pub deactivate : List ℕ → ℕ → (reason user : ℕ) → Cluster → Cluster
unfolding begin persist publish
deactivate meanwhile i reason user c =
    add_row (kill_switch_deactivated user)
      (publish i (persist i (deliver_all meanwhile (begin i (deactivated reason) c))))

abbrev pub last_of : SwitchState → List SwitchState → SwitchState
last_of st [] = st
last_of st (x ∷ xs) = last_of x xs

-- Every message that waits is delivered.
unfoldable pub drain : Worker → Worker
drain w = record w { cached = last_of w.cached w.inbox; inbox = [] }

abbrev pub drain_all : Cluster → Cluster
drain_all c = record c { workers = map drain c.workers }
