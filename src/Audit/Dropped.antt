-- ===== src/Audit/Dropped.antt =====
-- The canonical texts of objects with members that are undefined.
use apiv.Base.{
  ℕ, suc, ◌+◌, ◌≤◌, ◌≡◌, ◌≢◌, refl, List, [], ◌∷◌, Bool, true, false, arith, length, ap,
}
use apiv.Audit.Canonical.{
  Json, undefined_value, scalar, array, object, Members, no_members, member, Entry, entry_text,
  insert, join_entries, canonical, canonical_members, comma, close_brace,
}
use apiv.Audit.Texts.{length-append}

-- The tokens of the entries, with a separator after each.
unfoldable size : List Entry → ℕ
size [] = 0
size (e ∷ es) = 3 + length e.text + size es

size-insert : (e : Entry) (es : List Entry) → size (insert e es) ≡ 3 + length e.text + size es
unfolding size insert
size-insert e [] = refl
size-insert e (x ∷ es) = ground (arith, size-insert e es)

length-join_entries :
    (e : Entry) (es : List Entry) → suc (length (join_entries (e ∷ es))) ≡ size (e ∷ es)
unfolding size join_entries
length-join_entries e [] = ground arith
length-join_entries e (x ∷ es) =
    ground (
      arith,
      length-join_entries x es,
      length-append (entry_text e) (comma ∷ join_entries (x ∷ es)),
    )

length-join_entries_le : (es : List Entry) → length (join_entries es) ≤ size es
unfolding size join_entries
length-join_entries_le [] = omega arith
length-join_entries_le (e ∷ es) = omega (arith, length-join_entries e es)

size_le : (es : List Entry) → size es ≤ suc (length (join_entries es))
unfolding size
size_le [] = omega arith
size_le (e ∷ es) = omega (arith, length-join_entries e es)

-- A member more on both sides.
size_with_member :
    (k j : ℕ) (v : Json) (ms ns : Members)
    → j + size (canonical_members ns) ≤ size (canonical_members ms)
    → j + size (canonical_members (member k v ns)) ≤ size (canonical_members (member k v ms))
unfolding canonical_members
size_with_member k j v ms ns h =
    let e : Entry = record { key = k; text = canonical v } in
    omega (arith, size-insert e (canonical_members ms), size-insert e (canonical_members ns))

-- Whether an object has a member that is undefined, and what is left without them.
unfoldable pub has_undefined : Members → Bool
has_undefined no_members = false
has_undefined (member k undefined_value ms) = true
has_undefined (member k v ms) = has_undefined ms

unfoldable pub without_undefined : Members → Members
without_undefined no_members = no_members
without_undefined (member k undefined_value ms) = without_undefined ms
without_undefined (member k v ms) = member k v (without_undefined ms)

size_without :
    (ms : Members) → size (canonical_members (without_undefined ms)) ≤ size (canonical_members ms)
unfolding without_undefined canonical_members
size_without no_members = omega arith
size_without (member k undefined_value ms) = omega (
  arith,
  size-insert (record { key = k; text = canonical undefined_value }) (canonical_members ms),
  size_without ms,
)
size_without (member k (scalar n) ms) = omega (
  arith,
  size_with_member k 0 (scalar n) ms (without_undefined ms) (omega (arith, size_without ms)),
)
size_without (member k (array xs) ms) = omega (
  arith,
  size_with_member k 0 (array xs) ms (without_undefined ms) (omega (arith, size_without ms)),
)
size_without (member k (object ns) ms) = omega (
  arith,
  size_with_member k 0 (object ns) ms (without_undefined ms) (omega (arith, size_without ms)),
)

size_dropped :
    (ms : Members)
    → has_undefined ms ≡ true
    → 3 + size (canonical_members (without_undefined ms)) ≤ size (canonical_members ms)
unfolding without_undefined canonical_members has_undefined
size_dropped no_members h = absurd (ground arith)
size_dropped (member k undefined_value ms) h = omega (
  arith,
  size-insert (record { key = k; text = canonical undefined_value }) (canonical_members ms),
  size_without ms,
)
size_dropped (member k (scalar n) ms) h =
    size_with_member k 3 (scalar n) ms (without_undefined ms) (size_dropped ms h)
size_dropped (member k (array xs) ms) h =
    size_with_member k 3 (array xs) ms (without_undefined ms) (size_dropped ms h)
size_dropped (member k (object ns) ms) h =
    size_with_member k 3 (object ns) ms (without_undefined ms) (size_dropped ms h)

pub undefined_member_text :
    (ms : Members)
    → has_undefined ms ≡ true
    → canonical (object ms) ≢ canonical (object (without_undefined ms))
unfolding canonical
undefined_member_text ms some_undefined e =
    let same_length = ap length e in
    let left = canonical_members (without_undefined ms) in
    absurd (
      omega (
        arith,
        size_dropped ms some_undefined,
        size_le (canonical_members ms),
        length-join_entries_le left,
        length-append (join_entries (canonical_members ms)) (close_brace ∷ []),
        length-append (join_entries left) (close_brace ∷ []),
      ))
