-- ===== src/Audit/Undefined.antt =====
-- Payloads with a member that is undefined: it is hashed, and it is not stored.
use apiv.Base.{
  ℕ, suc, ◌+◌, ◌≤◌, ◌≡◌, ◌≢◌, refl, some, List, [], ◌∷◌, ◌++◌, true, false, arith, length, ap, All,
  sym, ◌∙◌,
}
use apiv.Audit.Canonical.{Json, object, Token, canonical}
use apiv.Audit.Reordered.{Reordered, canonical_same}
use apiv.Audit.Chain.{
  Row, genesis_hash, row_hash, compute_hash, hashed, chain_head, write, check_rows, first_break,
  verify_chain, in_order, without_meta,
}
use apiv.Audit.Linked.{Linked, last_hash}
use apiv.Audit.Gaps.{first_rows_all, boundary-append}
use apiv.Audit.Texts.{hashed_text-injective}
use apiv.Audit.Written.{
  Writing, write_all, Rising, IsPlainWriting, is_plain, write_all_from_start, has_meta_key,
  without_meta_none,
}
use apiv.Audit.Ordering.{insert_row_last, All-in_order, IsEarlier}
use apiv.Audit.Dropped.{has_undefined, without_undefined, undefined_member_text}

check_bad_tail :
    (sha : List Token → ℕ) (prev position h : ℕ) (rs : List Row) (r : Row)
    → Linked sha prev rs
    → r.prev_hash ≡ some (last_hash sha prev rs)
    → r.chain_hash ≡ some h
    → h ≢ row_hash sha (last_hash sha prev rs) r
    → check_rows sha prev position (rs ++ (r ∷ []))
      ≡ first_break (position + suc (length rs)) (row_hash sha (last_hash sha prev rs) r) h
unfolding check_rows
check_bad_tail sha prev position h [] r linked before stored other = ground arith
check_bad_tail sha prev position h (q ∷ rs) r linked before stored other =
    let rest =
      check_bad_tail sha (row_hash sha prev q) (suc position) h rs r linked.2 before stored other in
    let a = linked.0 in let b = linked.1 in ground arith

length_snoc : (rs : List Row) (r : Row) → length (rs ++ (r ∷ [])) ≡ suc (length rs)
length_snoc [] r = refl
length_snoc (q ∷ rs) r = ground (arith, length_snoc rs r)

verify_chain_bad_tail :
    (sha : List Token → ℕ) (limit h : ℕ) (log rs : List Row) (r : Row)
    → in_order log ≡ rs ++ (r ∷ [])
    → Linked sha genesis_hash rs
    → r.prev_hash ≡ some (last_hash sha genesis_hash rs)
    → r.chain_hash ≡ some h
    → h ≢ row_hash sha (last_hash sha genesis_hash rs) r
    → suc (length rs) ≤ limit
    → verify_chain sha limit log
      ≡ first_break (suc (length rs)) (row_hash sha (last_hash sha genesis_hash rs) r) h
unfolding verify_chain
verify_chain_bad_tail sha limit h log rs r e linked previous stored other fits =
    let all = first_rows_all limit (rs ++ (r ∷ [])) (omega (arith, length_snoc rs r)) in
    ground (
      arith,
      e,
      all,
      boundary-append sha rs r linked previous,
      check_bad_tail sha genesis_hash 0 h rs r linked previous stored other,
    )

module _ (sha : List Token → ℕ) (jsonb : Json → Json)
    (keeps : (v : Json) → is_plain v ≡ true → Reordered v (jsonb v)) (ws : List Writing)
    (w : Writing) where
  abbrev before : List Row
  before = write_all sha jsonb ws []

  abbrev text_of : Json → List Token
  text_of v =
      canonical
        (hashed (chain_head before) w.id w.input.actor w.input.action w.input.entity w.input.ts v)

  -- What the database gives back for the payload.
  abbrev stored : Json
  stored = jsonb (object w.input.payload)

  abbrev hash_with : ℕ → Json → ℕ
  hash_with prev v =
      compute_hash sha prev w.id w.input.actor w.input.action w.input.entity w.input.ts v

  abbrev last_row : Row
  last_row = record {
    id = w.id;
    actor = w.input.actor;
    action = w.input.action;
    entity = w.input.entity;
    ts = w.input.ts;
    payload = jsonb (object (without_meta w.input.payload));
    chain_hash = some (hash_with (chain_head before) (object w.input.payload));
    prev_hash = some (chain_head before);
    written_at = w.now;
    is_current_algo = true;
  }

  hashes_differ :
      has_undefined w.input.payload ≡ true
      → Reordered (object (without_undefined w.input.payload)) stored
      → (sha (text_of (object w.input.payload)) ≡ sha (text_of stored)
          → text_of (object w.input.payload) ≡ text_of stored)
      → hash_with (chain_head before) (object w.input.payload)
        ≢ hash_with (chain_head before) stored
  unfolding compute_hash
  hashes_differ some_undefined dropped no_collision e =
      undefined_member_text w.input.payload some_undefined (
        (hashed_text-injective (chain_head before) w.id w.input.actor w.input.action w.input.entity
          w.input.ts (object w.input.payload) (chain_head before) w.id w.input.actor w.input.action
          w.input.entity w.input.ts stored (no_collision e)).6
        ∙ sym (canonical_same dropped))

  comes_last :
      All (IsEarlier w.now) before
      → in_order (last_row ∷ before) ≡ in_order before ++ (last_row ∷ [])
  unfolding in_order
  comes_last later =
      insert_row_last last_row (in_order before) (All-in_order (IsEarlier w.now) before later)

  -- After any writes from the start at rising times, with payloads that JSON can store and that have
  -- none of the keys that `write` adds, which the check accepts, one write whose payload has an
  -- undefined member, which the database then drops, makes the check report a break at that row, though
  -- nothing was tampered with; unless the two texts have one SHA-256.
  pub verify_chain_undefined :
      (limit : ℕ)
      → Rising 0 ws
      → All IsPlainWriting ws
      → All (IsEarlier w.now) before
      → has_meta_key w.input.payload ≡ false
      → has_undefined w.input.payload ≡ true
      → Reordered (object (without_undefined w.input.payload)) stored
      → (sha (text_of (object w.input.payload)) ≡ sha (text_of stored)
          → text_of (object w.input.payload) ≡ text_of stored)
      → suc (length (in_order before)) ≤ limit
      → (expected : ℕ) × (found : ℕ) × (verify_chain sha limit
            (write sha jsonb w.input w.id w.now before)
          ≡ first_break (suc (length (in_order before))) expected found)
  unfolding write
  verify_chain_undefined limit rising plain later bare some_undefined dropped no_collision fits =
      let (t, h) = write_all_from_start sha jsonb keeps ws rising plain in
      let found = hash_with (chain_head before) (object w.input.payload) in
      let expected = row_hash sha (last_hash sha genesis_hash (in_order before)) last_row in
      (
        expected,
        found,
        verify_chain_bad_tail sha limit found (last_row ∷ before) (in_order before) last_row
            (comes_last later) h.linked (ap some h.head) refl
            (rw (without_meta_none w.input.payload bare, ← h.head)
              (hashes_differ some_undefined dropped no_collision))
            fits,
      )
