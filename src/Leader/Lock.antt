-- ===== src/Leader/Lock.antt =====
-- shared/distributed.job.lock.ts: `DistributedJobLock`, one instance per worker, and the key that they
-- share in Redis. Times are in seconds; lease identifiers are taken in turn, in place of `randomUUID()`.
use apiv.Base.{ℕ, suc, ◌+◌, Option, none, some, Bool, true, false, ◌==◌, ltb, if◌then◌else◌}

-- Whether Redis is not configured, throws, or answers; a call that throws has not reached it.
pub data Redis : Type 0 where
  unconfigured failing answering : Redis

pub record Lease : Type 0 where
  pub id : ℕ
  pub expires_at : ℕ

pub record World : Type 0 where
  pub key : Option Lease
  pub lease_ids : ℕ → Option ℕ
  pub now : ℕ
  pub next_id : ℕ

abbrev unexpired : ℕ → Option Lease → Option ℕ
unexpired now none = none
unexpired now (some l) = if ltb now l.expires_at then some l.id else none

-- `GET`: a key that has expired is gone.
unfoldable pub get : World → Option ℕ
get s = unexpired s.now s.key

unfoldable pub set_lease : ℕ → Option ℕ → (ℕ → Option ℕ) → ℕ → Option ℕ
set_lease w l lease_ids v = if v == w then l else lease_ids v

abbrev is_none : Option ℕ → Bool
is_none none = true
is_none (some x) = false

-- `SET key leaseId EX ttl NX`, with what `tryAcquire` then keeps and returns.
unfoldable pub try_acquire : ℕ → Redis → ℕ → World → Bool × World
try_acquire ttl unconfigured w s = (true, s)
try_acquire ttl failing w s =
    (true, record s { lease_ids = set_lease w none s.lease_ids; next_id = suc s.next_id })
try_acquire ttl answering w s =
    if is_none (get s)
    then (
      true,
      record s {
        key = some (record { id = s.next_id; expires_at = s.now + ttl });
        lease_ids = set_lease w (some s.next_id) s.lease_ids;
        next_id = suc s.next_id;
      },
    )
    else (false, record s { lease_ids = set_lease w none s.lease_ids; next_id = suc s.next_id })

abbrev pub is_id : ℕ → Option ℕ → Bool
is_id k none = false
is_id k (some l) = l == k

-- `EXPIRE`: a key that is gone stays gone.
unfoldable pub expire : ℕ → World → World
expire ttl s = record s {
  key = elim (get s) [ none ↦ s.key | some k ↦ some (record { id = k; expires_at = s.now + ttl }) ];
}

-- One tick of the interval of `startRenewal`, which has captured the lease `k`; when nothing comes
-- between its two commands.
unfoldable pub renew : ℕ → Redis → ℕ → World → World
renew ttl answering k s = if is_id k (get s) then expire ttl s else s
renew ttl unconfigured k s = s
renew ttl failing k s = s

abbrev held : Redis → Option ℕ → World → Bool
held answering (some k) s = is_id k (get s)
held _ _ s = false

unfoldable pub is_still_leader : Redis → ℕ → World → Bool
is_still_leader reply w s = held reply (s.lease_ids w) s

-- The release script: it deletes the key only if it has the caller's lease.
abbrev delete_own : ℕ → World → World
delete_own k s = record s { key = if is_id k (get s) then none else s.key }

abbrev forget : ℕ → World → World
forget w s = record s { lease_ids = set_lease w none s.lease_ids }

abbrev release_lease : Redis → ℕ → Option ℕ → World → World
release_lease answering w (some k) s = forget w (delete_own k s)
release_lease failing w (some k) s = forget w s
release_lease _ w _ s = s

unfoldable pub release : Redis → ℕ → World → World
release reply w s = release_lease reply w (s.lease_ids w) s
