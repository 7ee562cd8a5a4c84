-- ===== src/Audit/Written.antt =====
-- Logs that `write` has written, and `verifyChain`.
use apiv.Base.{
  ℕ, suc, ◌<◌, ◌≡◌, refl, some, List, [], ◌∷◌, ◌++◌, Bool, true, false, ◌&&◌, ◌||◌, arith, length,
  or_else, All, ap,
}
use apiv.Audit.Canonical.{
  Json, undefined_value, scalar, array, object, Items, no_items, item, Members, no_members, member,
  Token,
}
use apiv.Audit.Reordered.{Reordered, same, in_object, member_same, no_members_same, canonical_same}
use apiv.Audit.Chain.{
  AuditInput, Row, genesis_hash, row_hash, compute_hash, latest, chain_head, write, in_order,
  first_rows, verify_chain, valid, is_meta_key, without_meta,
}
use apiv.Audit.Linked.{Linked, last_hash, Linked-append, last_hash-append, verify_chain-Linked}
use apiv.Audit.Ordering.{IsEarlier, All-weaken, All-in_order, insert_row_last, latest_write}

-- A payload with nothing undefined in it: what JSON can store.
unfoldable mutual
  pub is_plain : Json → Bool
  is_plain undefined_value = false
  is_plain (scalar n) = true
  is_plain (array xs) = is_plain_items xs
  is_plain (object ms) = is_plain_members ms

  pub is_plain_items : Items → Bool
  is_plain_items no_items = true
  is_plain_items (item v vs) = is_plain v && is_plain_items vs

  pub is_plain_members : Members → Bool
  is_plain_members no_members = true
  is_plain_members (member k v ms) = is_plain v && is_plain_members ms

-- A call of `write`, with its identifier and its time inside the lock.
pub record Writing : Type 0 where
  pub input : AuditInput
  pub id : ℕ
  pub now : ℕ

unfoldable pub write_all : (List Token → ℕ) → (Json → Json) → List Writing → List Row → List Row
write_all sha jsonb [] log = log
write_all sha jsonb (w ∷ ws) log = write_all sha jsonb ws (write sha jsonb w.input w.id w.now log)

-- Each write comes later than the one before.
abbrev pub Rising : ℕ → List Writing → Type 0
Rising t [] = Unit {0}
Rising t (w ∷ ws) = (t < w.now) × Rising w.now ws

unfoldable pub has_meta_key : Members → Bool
has_meta_key no_members = false
has_meta_key (member k v ms) = is_meta_key k || has_meta_key ms

pub without_meta_none : (ms : Members) → has_meta_key ms ≡ false → without_meta ms ≡ ms
unfolding has_meta_key without_meta
without_meta_none no_members h = refl
without_meta_none (member k v ms) h = ground (arith, without_meta_none ms)

-- A payload that JSON can store, with no key of CHAIN_META_KEYS.
abbrev pub IsPlainWriting : Writing → Type 0
IsPlainWriting w =
    (is_plain_members w.input.payload ≡ true) × (has_meta_key w.input.payload ≡ false)

pub record IsIntact (sha : List Token → ℕ) (t : ℕ) (log : List Row) : Type 0 where
  pub linked : Linked sha genesis_hash (in_order log)
  pub head : chain_head log ≡ last_hash sha genesis_hash (in_order log)
  pub earlier : All (IsEarlier (suc t)) log

module _ (sha : List Token → ℕ) (jsonb : Json → Json)
    (keeps : (v : Json) → is_plain v ≡ true → Reordered v (jsonb v)) where
  stored_hash :
      (prev id actor action entity ts : ℕ) (v : Json)
      → is_plain v ≡ true
      → compute_hash sha prev id actor action entity ts v
        ≡ compute_hash sha prev id actor action entity ts (jsonb v)
  unfolding compute_hash
  stored_hash prev id actor action entity ts v plain = ap sha (
      canonical_same (
        in_object (
          member_same same (
            member_same same (
              member_same same (
                member_same same (
                  member_same same
                    (member_same same (member_same (keeps v plain) no_members_same)))))))))

  abbrev written : Writing → List Row → Row
  written w log = record {
    id = w.id;
    actor = w.input.actor;
    action = w.input.action;
    entity = w.input.entity;
    ts = w.input.ts;
    payload = jsonb (object (without_meta w.input.payload));
    chain_hash = some (
        compute_hash sha (chain_head log) w.id w.input.actor w.input.action w.input.entity
          w.input.ts (object w.input.payload));
    prev_hash = some (chain_head log);
    written_at = w.now;
    is_current_algo = true;
  }

  module _ (w : Writing) (t : ℕ) (log : List Row) (later : t < w.now) (plain : IsPlainWriting w)
      (h : IsIntact sha t log) where
    written_last : in_order (written w log ∷ log) ≡ in_order log ++ (written w log ∷ [])
    unfolding in_order
    written_last =
        insert_row_last (written w log) (in_order log)
          (All-in_order (IsEarlier w.now) log (All-weaken (suc t) w.now log later h.earlier))

    written_hash :
        (written w log).chain_hash
        ≡ some (row_hash sha (last_hash sha genesis_hash (in_order log)) (written w log))
    unfolding is_plain
    written_hash =
        rw (← h.head, without_meta_none w.input.payload plain.1)
          (ap some (
            stored_hash (chain_head log) w.id w.input.actor w.input.action w.input.entity w.input.ts
              (object w.input.payload) (plain.0)))

    written_head :
        chain_head (written w log ∷ log)
        ≡ row_hash sha (last_hash sha genesis_hash (in_order log)) (written w log)
    unfolding chain_head
    written_head =
        rw (latest_write (written w log) log (All-weaken (suc t) w.now log later h.earlier))
          (ap (λ o. or_else o genesis_hash) written_hash)

    write-IsIntact : IsIntact sha w.now (write sha jsonb w.input w.id w.now log)
    unfolding write
    write-IsIntact = record {
      linked = rw written_last (
          Linked-append sha genesis_hash (in_order log) (written w log) h.linked (ap some h.head)
            written_hash);
      head =
          rw (written_last, last_hash-append sha genesis_hash (in_order log) (written w log))
            written_head;
      earlier = (omega arith, All-weaken (suc t) (suc w.now) log (omega arith) h.earlier);
    }

  write_all-IsIntact :
      (ws : List Writing) (t : ℕ) (log : List Row)
      → Rising t ws
      → All IsPlainWriting ws
      → IsIntact sha t log
      → (t' : ℕ) × IsIntact sha t' (write_all sha jsonb ws log)
  unfolding write_all
  write_all-IsIntact [] t log rising plain h = (t, h)
  write_all-IsIntact (w ∷ ws) t log rising plain h =
      write_all-IsIntact ws w.now (write sha jsonb w.input w.id w.now log) rising.1 plain.1
        (write-IsIntact w t log rising.0 plain.0 h)

  pub write_all_from_start :
      (ws : List Writing)
      → Rising 0 ws
      → All IsPlainWriting ws
      → (t : ℕ) × IsIntact sha t (write_all sha jsonb ws [])
  unfolding chain_head latest in_order
  write_all_from_start ws rising plain =
      write_all-IsIntact ws 0 [] rising plain (record { linked = tt; head = refl; earlier = tt })

  -- A log that was written from the start, at rising times, with payloads that JSON can store and that
  -- have none of the keys that `write` adds, is accepted, whatever the order in which the database gives the members of a payload back: every row
  -- that is read is checked and no break is found.
  pub verify_chain-write_all :
      (limit : ℕ) (ws : List Writing)
      → Rising 0 ws
      → All IsPlainWriting ws
      → let log = write_all sha jsonb ws [] in
        verify_chain sha limit log ≡ valid (length (first_rows limit (in_order log)))
  verify_chain-write_all limit ws rising plain =
      let (t, h) = write_all_from_start ws rising plain in
      verify_chain-Linked sha limit (write_all sha jsonb ws []) h.linked
