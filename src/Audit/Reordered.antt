-- ===== src/Audit/Reordered.antt =====
-- Values that differ in the order of members only, and their canonical texts.
use apiv.Base.{ℕ, ◌≡◌, ◌≢◌, refl, ◌∙◌, List, [], ◌∷◌, arith}
use apiv.Audit.Canonical.{
  Json, array, object, Items, no_items, item, Members, no_members, member, Entry, insert, canonical,
  canonical_items, canonical_members, item_text, Token,
}

-- The same value, but for the order of members, at any depth: what the database's `jsonb` gives back.
mutual
  pub data Reordered : Json → Json → Type 0 where
    same : {v : Json} → Reordered v v
    in_array : {xs ys : Items} → ReorderedItems xs ys → Reordered (array xs) (array ys)
    in_object : {ms ns : Members} → ReorderedMembers ms ns → Reordered (object ms) (object ns)

  pub data ReorderedItems : Items → Items → Type 0 where
    no_items_same : ReorderedItems no_items no_items
    item_same :
        {v w : Json} {xs ys : Items}
        → Reordered v w
        → ReorderedItems xs ys
        → ReorderedItems (item v xs) (item w ys)

  pub data ReorderedMembers : Members → Members → Type 0 where
    no_members_same : ReorderedMembers no_members no_members
    member_same :
        {k : ℕ} {v w : Json} {ms ns : Members}
        → Reordered v w
        → ReorderedMembers ms ns
        → ReorderedMembers (member k v ms) (member k w ns)
    swapped :
        {j k : ℕ} {v w : Json} {ms : Members}
        → j ≢ k
        → ReorderedMembers (member j v (member k w ms)) (member k w (member j v ms))
    in_turn :
        {ls ms ns : Members}
        → ReorderedMembers ls ms
        → ReorderedMembers ms ns
        → ReorderedMembers ls ns

insert-insert :
    (a b : Entry) (es : List Entry)
    → a.key ≢ b.key
    → insert a (insert b es) ≡ insert b (insert a es)
unfolding insert
insert-insert a b [] ne = ground arith
insert-insert a b (x ∷ es) ne = ground (arith, insert-insert a b es ne)

item_text-Reordered : {v w : Json} (t : List Token) → Reordered v w → item_text v t ≡ item_text w t
item_text-Reordered t same = refl
item_text-Reordered t (in_array h) = refl
item_text-Reordered t (in_object h) = refl

mutual
  unfolding canonical

  pub canonical_same : {v w : Json} → Reordered v w → canonical v ≡ canonical w
  canonical_same same = refl
  canonical_same (in_array h) = rw (canonical_items_same h) refl
  canonical_same (in_object h) = rw (canonical_members_same h) refl

  canonical_items_same :
      {xs ys : Items} → ReorderedItems xs ys → canonical_items xs ≡ canonical_items ys
  canonical_items_same no_items_same = refl
  canonical_items_same (item_same h no_items_same) = rw (canonical_same h) (item_text-Reordered _ h)
  canonical_items_same (item_same h (item_same k r)) =
      rw (canonical_same h, item_text-Reordered _ h, canonical_items_same (item_same k r)) refl

  canonical_members_same :
      {ms ns : Members} → ReorderedMembers ms ns → canonical_members ms ≡ canonical_members ns
  canonical_members_same no_members_same = refl
  canonical_members_same (member_same h r) = rw (canonical_same h, canonical_members_same r) refl
  canonical_members_same (swapped {ms = ms} ne) = insert-insert _ _ (canonical_members ms) ne
  canonical_members_same (in_turn p q) = canonical_members_same p ∙ canonical_members_same q
