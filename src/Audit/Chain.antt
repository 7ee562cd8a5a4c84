-- ===== src/Audit/Chain.antt =====
-- security/immutable.audit.ts: `write` and `verifyChain`. Hashes, texts and times are numbers; `sha` is
-- SHA-256 on the canonical text, and `jsonb` is what the database gives back for a stored payload. The
-- members that `write` adds to the payload, CHAIN_META_KEYS, are fields of the row, and the payload of a
-- row is what `verifyChain` has left once it has deleted them. A payload is an object; arrays, which the
-- type of `write` admits as well, are left out.
use apiv.Base.{
  ℕ, zero, suc, Option, none, some, List, [], ◌∷◌, Bool, true, ◌==◌, ltb, leb, ◌&&◌, or_else,
  if◌then◌else◌,
}
use apiv.Audit.Canonical.{Json, Members, scalar, object, no_members, member, Token, canonical}

pub record AuditInput : Type 0 where
  pub actor : ℕ
  pub action : ℕ
  pub entity : ℕ
  pub ts : ℕ
  pub payload : Members

pub record Row : Type 0 where
  pub id : ℕ
  pub actor : ℕ
  pub action : ℕ
  pub entity : ℕ
  pub ts : ℕ
  pub payload : Json
  pub chain_hash : Option ℕ
  pub prev_hash : Option ℕ
  pub written_at : ℕ
  pub is_current_algo : Bool

abbrev pub genesis_hash : ℕ
genesis_hash = 0

-- The object that `_computeHash` hashes; its keys are numbered in their sorted order.
abbrev pub hashed : ℕ → ℕ → ℕ → ℕ → ℕ → ℕ → Json → Json
hashed prev id actor action entity ts payload = object (
    member 5 (scalar prev) (
      member 3 (scalar id) (
        member 1 (scalar actor) (
          member 0 (scalar action)
            (member 2 (scalar entity) (member 6 (scalar ts) (member 4 payload no_members)))))))

unfoldable pub compute_hash : (List Token → ℕ) → ℕ → ℕ → ℕ → ℕ → ℕ → ℕ → Json → ℕ
compute_hash sha prev id actor action entity ts payload =
    sha (canonical (hashed prev id actor action entity ts payload))

abbrev pub row_hash : (List Token → ℕ) → ℕ → Row → ℕ
row_hash sha prev r = compute_hash sha prev r.id r.actor r.action r.entity r.ts r.payload

-- The row that was written last; the table is newest first.
unfoldable pub latest : List Row → Option Row
latest [] = none
latest (r ∷ rs) =
    let rest = latest rs in
    elim rest [ none ↦ some r | some q ↦ if ltb r.written_at q.written_at then some q else some r ]

abbrev pub hash_or_genesis : Option Row → ℕ
hash_or_genesis none = genesis_hash
hash_or_genesis (some r) = or_else r.chain_hash genesis_hash

-- `_getChainHead`.
unfoldable pub chain_head : List Row → ℕ
chain_head log = hash_or_genesis (latest log)

-- CHAIN_META_KEYS: the numbers kept for the five keys, with others before and after them.
abbrev pub is_meta_key : ℕ → Bool
is_meta_key k = leb 100 k && ltb k 105

-- What is left of a payload when `write` has put its own members over those with a key of theirs, and
-- `verifyChain` has deleted these.
unfoldable pub without_meta : Members → Members
without_meta no_members = no_members
without_meta (member k v ms) =
    let rest = without_meta ms in if is_meta_key k then rest else member k v rest

-- `write` of an entry that gets the identifier `id`, at the time `now` inside the lock.
unfoldable pub write : (List Token → ℕ) → (Json → Json) → AuditInput → ℕ → ℕ → List Row → List Row
write sha jsonb i id now log =
    record {
      id = id;
      actor = i.actor;
      action = i.action;
      entity = i.entity;
      ts = i.ts;
      payload = jsonb (object (without_meta i.payload));
      chain_hash =
          some (
            compute_hash sha (chain_head log) id i.actor i.action i.entity i.ts (object i.payload));
      prev_hash = some (chain_head log);
      written_at = now;
      is_current_algo = true;
    }
    ∷ log

unfoldable pub insert_row : Row → List Row → List Row
insert_row r [] = r ∷ []
insert_row r (q ∷ qs) =
    let rest = insert_row r qs in if ltb q.written_at r.written_at then q ∷ rest else r ∷ q ∷ qs

-- The rows of the current algorithm in the order of their writing.
unfoldable pub in_order : List Row → List Row
in_order [] = []
in_order (r ∷ rs) = let rest = in_order rs in if r.is_current_algo then insert_row r rest else rest

unfoldable pub first_rows : ℕ → List Row → List Row
first_rows n [] = []
first_rows zero (r ∷ rs) = []
first_rows (suc n) (r ∷ rs) = r ∷ first_rows n rs

-- How many rows were checked, and at a break the expected and the stored hash.
pub data AuditChainVerification : Type 0 where
  valid : ℕ → AuditChainVerification
  first_break : ℕ → ℕ → ℕ → AuditChainVerification

-- The check of a row's own hash; a row with none is taken as it is.
abbrev pub check_hash : Option ℕ → ℕ → ℕ → AuditChainVerification → AuditChainVerification
check_hash none expected position rest = rest
check_hash (some h) expected position rest =
    if h == expected then rest else first_break position expected h

-- The loop of `verifyChain`, after `position` rows.
unfoldable pub check_rows : (List Token → ℕ) → ℕ → ℕ → List Row → AuditChainVerification
check_rows sha prev position [] = valid position
check_rows sha prev position (r ∷ rs) =
    let expected = row_hash sha prev r in
    let rest = check_rows sha (or_else r.chain_hash expected) (suc position) rs in
    if or_else r.prev_hash genesis_hash == prev
    then check_hash r.chain_hash expected (suc position) rest
    else first_break (suc position) prev (or_else r.prev_hash genesis_hash)

abbrev pub boundary : List Row → ℕ
boundary [] = genesis_hash
boundary (r ∷ rs) = or_else r.prev_hash genesis_hash

unfoldable pub verify_chain : (List Token → ℕ) → ℕ → List Row → AuditChainVerification
verify_chain sha limit log =
    let entries = first_rows limit (in_order log) in check_rows sha (boundary entries) 0 entries
