-- ===== src/Leader/Exclusion.antt =====
-- Histories of workers, renewals and time, and who leads.
use apiv.Base.{
  ℕ, suc, ◌+◌, ◌≡◌, ◌<◌, inl, inr, Option, none, some, List, [], ◌∷◌, true, arith, Bool-cases,
  Option-cases,
}
use apiv.Leader.Lock.{
  Redis, unconfigured, failing, answering, World, get, set_lease, try_acquire, expire, renew,
  is_still_leader, release, is_id,
}

-- What the workers do, each with Redis's reply, and the passing of time. An interval captures any lease,
-- and its `EXPIRE` may also run later than its `GET`.
pub data Event : Type 0 where
  acquires : Redis → ℕ → Event
  renews : Redis → ℕ → Event
  extends : Event
  releases : Redis → ℕ → Event
  passes : ℕ → Event

unfoldable pub step : ℕ → Event → World → World
step ttl (acquires reply w) s = (try_acquire ttl reply w s).1
step ttl (renews reply k) s = renew ttl reply k s
step ttl extends s = expire ttl s
step ttl (releases reply w) s = release reply w s
step ttl (passes d) s = record s { now = s.now + d }

unfoldable pub run : ℕ → List Event → World → World
run ttl [] s = s
run ttl (e ∷ es) s = run ttl es (step ttl e s)

abbrev pub start : World
start = record { key = none; lease_ids = λ w. none; now = 0; next_id = 0 }

-- No two workers hold one lease.
pub record IsDistinct (ids : ℕ → Option ℕ) (n : ℕ) : Type 0 where
  pub below : (w k : ℕ) → ids w ≡ some k → k < n
  pub unique : (v w k : ℕ) → ids v ≡ some k → ids w ≡ some k → v ≡ w

set_lease_new-IsDistinct :
    (w n : ℕ) (ids : ℕ → Option ℕ)
    → IsDistinct ids n
    → IsDistinct (set_lease w (some n) ids) (suc n)
unfolding set_lease
set_lease_new-IsDistinct w n ids h = record {
  below = λ v k e. ground (arith, h.below v k);
  unique = λ u v k e f. ground (arith, h.unique u v k, h.below u k, h.below v k);
}

set_lease-none-IsDistinct :
    (w n : ℕ) (ids : ℕ → Option ℕ) → IsDistinct ids n → IsDistinct (set_lease w none ids) n
unfolding set_lease
set_lease-none-IsDistinct w n ids h = record {
  below = λ v k e. ground (arith, h.below v k);
  unique = λ u v k e f. ground (arith, h.unique u v k);
}

suc-IsDistinct : (n : ℕ) (ids : ℕ → Option ℕ) → IsDistinct ids n → IsDistinct ids (suc n)
suc-IsDistinct n ids h = record {
  below = λ v k e. ground (arith, h.below v k e);
  unique = h.unique;
}

abbrev pub AllDistinct : World → Type 0
AllDistinct s = IsDistinct s.lease_ids s.next_id

pub try_acquire-AllDistinct :
    (ttl w : ℕ) (reply : Redis) (s : World)
    → AllDistinct s
    → AllDistinct (try_acquire ttl reply w s).1
unfolding try_acquire
try_acquire-AllDistinct ttl w unconfigured s h = h
try_acquire-AllDistinct ttl w failing s h =
    suc-IsDistinct s.next_id _ (set_lease-none-IsDistinct w s.next_id s.lease_ids h)
try_acquire-AllDistinct ttl w answering s h = elim (Option-cases (get s)) [
  | inl e ↦ rw e (set_lease_new-IsDistinct w s.next_id s.lease_ids h)
  | inr (k, e) ↦
      rw e (suc-IsDistinct s.next_id _ (set_lease-none-IsDistinct w s.next_id s.lease_ids h))
]

release-AllDistinct :
    (reply : Redis) (w : ℕ) (s : World) → AllDistinct s → AllDistinct (release reply w s)
unfolding release
release-AllDistinct unconfigured w s h = elim (Option-cases (s.lease_ids w)) [
  | inl e ↦ rw e h
  | inr (k, e) ↦ rw e h
]
release-AllDistinct failing w s h = elim (Option-cases (s.lease_ids w)) [
  | inl e ↦ rw e h
  | inr (k, e) ↦ rw e (set_lease-none-IsDistinct w s.next_id s.lease_ids h)
]
release-AllDistinct answering w s h = elim (Option-cases (s.lease_ids w)) [
  | inl e ↦ rw e h
  | inr (k, e) ↦ rw e (set_lease-none-IsDistinct w s.next_id s.lease_ids h)
]

renew-AllDistinct :
    (ttl : ℕ) (reply : Redis) (k : ℕ) (s : World)
    → AllDistinct s
    → AllDistinct (renew ttl reply k s)
unfolding renew expire
renew-AllDistinct ttl unconfigured k s h = h
renew-AllDistinct ttl failing k s h = h
renew-AllDistinct ttl answering k s h = elim (Bool-cases (is_id k (get s))) [
  | inl e ↦ rw e h
  | inr e ↦ rw e h
]

pub step-AllDistinct :
    (ttl : ℕ) (e : Event) (s : World) → AllDistinct s → AllDistinct (step ttl e s)
unfolding step expire
step-AllDistinct ttl (acquires reply w) s h = try_acquire-AllDistinct ttl w reply s h
step-AllDistinct ttl (renews reply k) s h = renew-AllDistinct ttl reply k s h
step-AllDistinct ttl extends s h = h
step-AllDistinct ttl (releases reply w) s h = release-AllDistinct reply w s h
step-AllDistinct ttl (passes d) s h = h

pub run-AllDistinct :
    (ttl : ℕ) (es : List Event) (s : World) → AllDistinct s → AllDistinct (run ttl es s)
unfolding run
run-AllDistinct ttl [] s h = h
run-AllDistinct ttl (e ∷ es) s h =
    run-AllDistinct ttl es (step ttl e s) (step-AllDistinct ttl e s h)

-- Who leads holds the lease that is in Redis.
leader_lease :
    (w : ℕ) (s : World)
    → is_still_leader answering w s ≡ true
    → (k : ℕ) × (s.lease_ids w ≡ some k) × (get s ≡ some k)
unfolding is_still_leader
leader_lease w s h = elim (Option-cases (s.lease_ids w)) [
  | inl e ↦ absurd (ground arith)
  | inr (k, e) ↦ elim (Option-cases (get s)) [
    | inl none_there ↦ absurd (ground arith)
    | inr (l, there) ↦ (k, e, ground arith)
  ]
]

pub start-AllDistinct : AllDistinct start
start-AllDistinct = record {
  below = λ w k e. absurd (ground arith);
  unique = λ v w k e f. absurd (ground arith);
}

-- No two workers are told at once that they still lead.
pub one_leader :
    (v w : ℕ) (s : World)
    → AllDistinct s
    → is_still_leader answering v s ≡ true
    → is_still_leader answering w s ≡ true
    → v ≡ w
one_leader v w s h leads leads' =
    let (k, mine, there) = leader_lease v s leads in
    let (l, other, there') = leader_lease w s leads' in
    let same : k ≡ l = ground arith in h.unique v w k mine (ground arith)
