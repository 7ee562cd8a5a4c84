-- ===== src/Leader/Tenure.antt =====
-- A worker that has acquired the lease, until it expires.
use apiv.Base.{
  ℕ, ◌+◌, ◌≡◌, ◌≢◌, ◌<◌, ◌≤◌, refl, inl, inr, none, some, List, [], ◌∷◌, true, false, ◌==◌, arith,
  All, Bool-cases, Option-cases,
}
use apiv.Leader.Lock.{
  Redis, unconfigured, failing, answering, World, get, set_lease, try_acquire, expire, renew,
  is_still_leader, release, is_id,
}
use apiv.Leader.Exclusion.{
  Event, acquires, renews, extends, releases, passes, step, run, start, AllDistinct,
  run-AllDistinct, step-AllDistinct, start-AllDistinct, try_acquire-AllDistinct, one_leader,
}

-- The steps of other workers; anybody's renewals and the passing of time.
abbrev pub IsByOthers : ℕ → Event → Type 0
IsByOthers w (acquires reply v) = v ≢ w
IsByOthers w (releases reply v) = v ≢ w
IsByOthers w _ = Unit {0}

abbrev duration : Event → ℕ
duration (passes d) = d
duration _ = 0

abbrev pub elapsed : List Event → ℕ
elapsed [] = 0
elapsed (e ∷ es) = duration e + elapsed es

-- The worker `w` holds the lease `k`, at least until the time `e`.
record IsHolder (ttl w k e : ℕ) (s : World) : Type 0 where
  mine : s.lease_ids w ≡ some k
  expiry : ℕ
  there : s.key ≡ some (record { id = k; expires_at = expiry })
  long : e ≤ expiry
  early : e ≤ s.now + ttl

module _ (ttl w k e : ℕ) (s : World) (h : IsHolder ttl w k e s) (alive : s.now < e) where
  holder_get : get s ≡ some k
  unfolding get
  holder_get = let there = h.there in let long = h.long in ground arith

  holder_leads : is_still_leader answering w s ≡ true
  unfolding is_still_leader
  holder_leads = let own = h.mine in let there = holder_get in ground arith

  acquire_by_other :
      (reply : Redis) (v : ℕ) → v ≢ w → IsHolder ttl w k e (try_acquire ttl reply v s).1
  unfolding try_acquire set_lease
  acquire_by_other unconfigured v other = h
  acquire_by_other failing v other = record {
    mine = ground (arith, h.mine);
    expiry = h.expiry;
    there = h.there;
    long = h.long;
    early = h.early;
  }
  acquire_by_other answering v other = rw holder_get (record {
    mine = ground (arith, h.mine);
    expiry = h.expiry;
    there = h.there;
    long = h.long;
    early = h.early;
  })

  others_fail : (v : ℕ) → (try_acquire ttl answering v s).0 ≡ false
  unfolding try_acquire
  others_fail v = rw holder_get refl

  expire-IsHolder : IsHolder ttl w k e (expire ttl s)
  unfolding expire
  expire-IsHolder = record {
    mine = h.mine;
    expiry = s.now + ttl;
    there = rw (holder_get, expire) refl;
    long = h.early;
    early = h.early;
  }

  renew-IsHolder : (reply : Redis) (l : ℕ) → IsHolder ttl w k e (renew ttl reply l s)
  unfolding renew
  renew-IsHolder unconfigured l = h
  renew-IsHolder failing l = h
  renew-IsHolder answering l = elim (Bool-cases (is_id l (get s))) [
    | inl own ↦ rw own expire-IsHolder
    | inr own ↦ rw own h
  ]

  forgotten : (v : ℕ) → v ≢ w → set_lease v none s.lease_ids w ≡ some k
  unfolding set_lease
  forgotten v other = ground (arith, h.mine)

  not_own : (v l : ℕ) → AllDistinct s → v ≢ w → s.lease_ids v ≡ some l → is_id l (some k) ≡ false
  not_own v l distinct other holds = elim (Bool-cases (k == l)) [
    | inl same ↦ absurd (other (distinct.unique v w k (ground arith) h.mine))
    | inr differs ↦ differs
  ]

  release_by_other :
      (reply : Redis) (v : ℕ) → AllDistinct s → v ≢ w → IsHolder ttl w k e (release reply v s)
  unfolding release
  release_by_other unconfigured v distinct other = h
  release_by_other failing v distinct other = elim (Option-cases (s.lease_ids v)) [
    | inl f ↦ rw f h
    | inr (l, f) ↦ rw f (record {
      mine = forgotten v other;
      expiry = h.expiry;
      there = h.there;
      long = h.long;
      early = h.early;
    })
  ]
  release_by_other answering v distinct other = elim (Option-cases (s.lease_ids v)) [
    | inl f ↦ rw f h
    | inr (l, f) ↦ rw f (record {
      mine = forgotten v other;
      expiry = h.expiry;
      there = rw (holder_get, not_own v l distinct other f) h.there;
      long = h.long;
      early = h.early;
    })
  ]

  step-IsHolder : (x : Event) → AllDistinct s → IsByOthers w x → IsHolder ttl w k e (step ttl x s)
  unfolding step
  step-IsHolder (acquires reply v) distinct other = acquire_by_other reply v other
  step-IsHolder (renews reply l) distinct other = renew-IsHolder reply l
  step-IsHolder extends distinct other = expire-IsHolder
  step-IsHolder (releases reply v) distinct other = release_by_other reply v distinct other
  step-IsHolder (passes d) distinct other = record {
    mine = h.mine;
    expiry = h.expiry;
    there = h.there;
    long = h.long;
    early = let early = h.early in omega arith;
  }

step-now : (ttl : ℕ) (x : Event) (s : World) → (step ttl x s).now ≡ s.now + duration x
unfolding step try_acquire expire renew release
step-now ttl (acquires unconfigured v) s = omega arith
step-now ttl (acquires failing v) s = omega arith
step-now ttl (acquires answering v) s = elim (Option-cases (get s)) [
  | inl e ↦ ground arith
  | inr (k, e) ↦ ground arith
]
step-now ttl (renews unconfigured k) s = omega arith
step-now ttl (renews failing k) s = omega arith
step-now ttl (renews answering k) s = elim (Bool-cases (is_id k (get s))) [
  | inl e ↦ ground arith
  | inr e ↦ ground arith
]
step-now ttl extends s = omega arith
step-now ttl (releases unconfigured v) s = omega arith
step-now ttl (releases failing v) s = elim (Option-cases (s.lease_ids v)) [
  | inl e ↦ ground arith
  | inr (k, e) ↦ ground arith
]
step-now ttl (releases answering v) s = elim (Option-cases (s.lease_ids v)) [
  | inl e ↦ ground arith
  | inr (k, e) ↦ ground arith
]
step-now ttl (passes d) s = refl

run-IsHolder :
    (ttl w k e : ℕ) (xs : List Event) (s : World)
    → IsHolder ttl w k e s
    → AllDistinct s
    → All (IsByOthers w) xs
    → s.now + elapsed xs < e
    → IsHolder ttl w k e (run ttl xs s) × ((run ttl xs s).now < e)
unfolding run
run-IsHolder ttl w k e [] s h distinct others alive = (h, omega arith)
run-IsHolder ttl w k e (x ∷ xs) s h distinct others alive =
    run-IsHolder ttl w k e xs (step ttl x s)
      (step-IsHolder ttl w k e s h (omega arith) x distinct others.0)
      (step-AllDistinct ttl x s distinct) others.1 (omega (arith, step-now ttl x s))

acquired :
    (ttl w : ℕ) (s : World)
    → (try_acquire ttl answering w s).0 ≡ true
    → IsHolder ttl w s.next_id (s.now + ttl) (try_acquire ttl answering w s).1
      × ((try_acquire ttl answering w s).1.now ≡ s.now)
unfolding try_acquire set_lease
acquired ttl w s done = elim (Option-cases (get s)) [
  | inl e ↦ rw e (
    record {
      mine = ground arith;
      expiry = s.now + ttl;
      there = refl;
      long = omega arith;
      early = omega arith;
    },
    refl,
  )
  | inr (k, e) ↦ absurd (ground arith)
]

-- A worker that acquires the lease from Redis, after any history, still leads after any further steps
-- of others, renewals and less time than the lease's time to live; no other worker is told that it
-- leads, and none can acquire the lease from Redis.
pub tenure :
    (ttl w : ℕ) (before after : List Event)
    → (try_acquire ttl answering w (run ttl before start)).0 ≡ true
    → All (IsByOthers w) after
    → elapsed after < ttl
    → let t = run ttl after (try_acquire ttl answering w (run ttl before start)).1 in
      (is_still_leader answering w t ≡ true)
      × ((v : ℕ) → is_still_leader answering v t ≡ true → v ≡ w)
      × ((v : ℕ) → (try_acquire ttl answering v t).0 ≡ false)
tenure ttl w before after done others short =
    let s = run ttl before start in
    let t = run ttl after (try_acquire ttl answering w s).1 in
    let (h, same_time) = acquired ttl w s done in
    let distinct =
      try_acquire-AllDistinct ttl w answering s
        (run-AllDistinct ttl before start start-AllDistinct) in
    let (holds, alive) =
      run-IsHolder ttl w s.next_id (s.now + ttl) after (try_acquire ttl answering w s).1 h distinct
        others (omega arith) in
    let leads = holder_leads ttl w s.next_id (s.now + ttl) t holds alive in
    (
      leads,
      λ v leads'.
          one_leader v w t (run-AllDistinct ttl after (try_acquire ttl answering w s).1 distinct)
            leads' leads,
      others_fail ttl w s.next_id (s.now + ttl) t holds alive,
    )
