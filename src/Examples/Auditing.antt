-- ===== src/Examples/Auditing.antt =====
-- Small audit logs, with a digest that counts tokens.
use apiv.Base.{ℕ, suc, ◌≤◌, ◌≡◌, refl, List, [], ◌∷◌, true, false, arith, length, All, ap}
use apiv.Audit.Canonical.{
  Json, undefined_value, scalar, array, object, Members, no_members, member, Token, canonical,
  insert, join_entries,
}
use apiv.Audit.Reordered.{Reordered, same}
use apiv.Audit.Chain.{
  AuditInput, Row, latest, chain_head, compute_hash, write, insert_row, in_order, first_rows,
  check_rows, hashed, verify_chain, valid, boundary, first_break, without_meta,
}
use apiv.Audit.Written.{
  is_plain, is_plain_members, has_meta_key, Writing, write_all, IsPlainWriting,
  verify_chain-write_all,
}
use apiv.Audit.Ordering.{IsEarlier}
use apiv.Audit.Commitment.{
  AllSame, HasHash, NoCollision, final_hash, entries_of, verify_chain_commits,
}
use apiv.Audit.Dropped.{has_undefined, without_undefined}
use apiv.Audit.Undefined.{verify_chain_undefined}

abbrev count : List Token → ℕ
count ts = suc (length ts)

-- A database that drops the members that are undefined.
abbrev stored : Json → Json
stored (object ms) = object (without_undefined ms)
stored v = v

without_undefined_plain : (ms : Members) → is_plain_members ms ≡ true → without_undefined ms ≡ ms
unfolding is_plain_members without_undefined
without_undefined_plain no_members plain = refl
without_undefined_plain (member k undefined_value ms) plain = absurd (ground arith)
without_undefined_plain (member k (scalar n) ms) plain =
    ap (member k (scalar n)) (without_undefined_plain ms (ground arith))
without_undefined_plain (member k (array xs) ms) plain =
    ap (member k (array xs)) (without_undefined_plain ms (ground arith))
without_undefined_plain (member k (object ns) ms) plain =
    ap (member k (object ns)) (without_undefined_plain ms (ground arith))

stored-Reordered : (v : Json) → is_plain v ≡ true → Reordered v (stored v)
unfolding is_plain
stored-Reordered undefined_value plain = same
stored-Reordered (scalar n) plain = same
stored-Reordered (array xs) plain = same
stored-Reordered (object ms) plain = rw (without_undefined_plain ms plain) same

abbrev pair : Members
pair = member 10 (scalar 1) (member 11 (scalar 2) no_members)

abbrev turned : Members
turned = member 11 (scalar 2) (member 10 (scalar 1) no_members)

abbrev input : Members → AuditInput
input v = record { actor = 3; action = 4; entity = 5; ts = 6; payload = v }

abbrev first_writing : Writing
first_writing = record { input = input pair; id = 21; now = 1 }

abbrev second_writing : Writing
second_writing = record { input = input (member 200 (scalar 7) no_members); id = 22; now = 2 }

abbrev two_writings : List Writing
two_writings = first_writing ∷ second_writing ∷ []

two_writings-IsPlainWriting : All IsPlainWriting two_writings
unfolding is_plain_members has_meta_key
two_writings-IsPlainWriting = ((refl, refl), ((refl, refl), tt))

verify_chain-write_all_example :
    let log = write_all count stored two_writings [] in
    verify_chain count 10 log ≡ valid (length (first_rows 10 (in_order log)))
verify_chain-write_all_example =
    verify_chain-write_all count stored stored-Reordered 10 two_writings
      (omega arith, (omega arith, tt)) two_writings-IsPlainWriting

abbrev one_log : List Row
one_log = write count stored (input pair) 21 1 []

abbrev turned_log : List Row
turned_log = write count stored (input turned) 21 1 []

one_log_valid : verify_chain count 10 one_log ≡ valid 1
unfolding verify_chain write without_meta without_undefined chain_head latest in_order insert_row
    first_rows check_rows compute_hash canonical insert join_entries
one_log_valid = refl

turned_log_valid : verify_chain count 10 turned_log ≡ valid 1
unfolding verify_chain write without_meta without_undefined chain_head latest in_order insert_row
    first_rows check_rows compute_hash canonical insert join_entries
turned_log_valid = refl

one_log-HasHash : All HasHash (entries_of 10 one_log)
unfolding write without_meta without_undefined in_order insert_row first_rows
one_log-HasHash = ((_, refl), tt)

turned_log-HasHash : All HasHash (entries_of 10 turned_log)
unfolding write without_meta without_undefined in_order insert_row first_rows
turned_log-HasHash = ((_, refl), tt)

same_end : final_hash (entries_of 10 one_log) ≡ final_hash (entries_of 10 turned_log)
unfolding write without_meta without_undefined chain_head latest in_order insert_row first_rows
    compute_hash canonical insert join_entries
same_end = refl

no_collision :
    NoCollision count
      (boundary (entries_of 10 one_log))
      (boundary (entries_of 10 turned_log))
      (entries_of 10 one_log)
      (entries_of 10 turned_log)
unfolding write without_meta without_undefined chain_head latest in_order insert_row first_rows
    compute_hash canonical insert join_entries
no_collision = ((λ e. refl), tt)

verify_chain_commits_example : AllSame (entries_of 10 one_log) (entries_of 10 turned_log)
verify_chain_commits_example =
    verify_chain_commits count 10 1 one_log turned_log one_log_valid turned_log_valid
      one_log-HasHash turned_log-HasHash no_collision same_end

abbrev careless : Writing
careless = record {
  input = input (member 10 (scalar 1) (member 12 undefined_value no_members));
  id = 23;
  now = 3;
}

abbrev whole : Json
whole = object (member 10 (scalar 1) no_members)

two_writings-IsEarlier : All (IsEarlier careless.now) (write_all count stored two_writings [])
unfolding write_all write
two_writings-IsEarlier = (omega arith, (omega arith, tt))

abbrev text_of : Json → List Token
text_of v = canonical (hashed (chain_head (write_all count stored two_writings [])) 23 3 4 5 6 v)

no_meta : has_meta_key careless.input.payload ≡ false
unfolding has_meta_key
no_meta = refl

one_undefined : has_undefined careless.input.payload ≡ true
unfolding has_undefined
one_undefined = refl

drops :
    Reordered
      (object (without_undefined careless.input.payload))
      (stored (object careless.input.payload))
drops = same

texts_differ :
    count (text_of (object careless.input.payload)) ≡ count (text_of whole)
    → text_of (object careless.input.payload) ≡ text_of whole
unfolding canonical insert join_entries
texts_differ e = absurd (omega arith)

few : suc (length (in_order (write_all count stored two_writings []))) ≤ 10
unfolding write_all write in_order insert_row
few = omega arith

verify_chain_undefined_example :
    let before = write_all count stored two_writings [] in
    (expected : ℕ) × (found : ℕ) × (verify_chain count 10
        (write count stored careless.input careless.id careless.now before)
      ≡ first_break (suc (length (in_order before))) expected found)
unfolding without_undefined
verify_chain_undefined_example =
    verify_chain_undefined count stored stored-Reordered two_writings careless 10
      (omega arith, (omega arith, tt)) two_writings-IsPlainWriting two_writings-IsEarlier no_meta
      one_undefined drops texts_differ few
