-- ===== src/Guards/Window.antt =====
-- The guard forgets only what no longer counts.
use apiv.Base.{
  ℕ, ◌+◌, ◌≤◌, ◌<◌, ◌≡◌, ◌≢◌, refl, ◌⊎◌, inl, inr, Option, none, some, List, [], ◌∷◌, Bool, arith,
  ltb, ◌==◌, ==_iff, ap, sym, ◌∙◌, length, Bool-cases,
}
use apiv.Risk.Maps.{lookup, assign, lookup-assign, lookup-assign_other}
use apiv.Guards.Dedup.{
  dedup_window_ms, max_tracked, is_stale, delete_stale, is_recent, clean, is_duplicate_submission,
  submit_all,
}

-- What the answers should be: a submission is a duplicate exactly when the last one with its key, in
-- the whole history (newest first), is less than the window ago.
unfoldable pub answers : List (ℕ × ℕ) → List (ℕ × ℕ) → List Bool
answers [] history = []
answers ((k, now) ∷ subs) history =
    is_recent now (lookup k history) ∷ answers subs ((k, now) ∷ history)

-- Times do not go back.
abbrev pub IsOrdered : ℕ → List (ℕ × ℕ) → Type 0
IsOrdered clock [] = Unit {0}
IsOrdered clock ((k, now) ∷ subs) = (clock ≤ now) × IsOrdered now subs

abbrev NoKey : ℕ → List (ℕ × ℕ) → Type 0
NoKey k [] = Unit {0}
NoKey k ((j, t) ∷ m) = (j ≢ k) × NoKey k m

abbrev KeysUnique : List (ℕ × ℕ) → Type 0
KeysUnique [] = Unit {0}
KeysUnique ((j, t) ∷ m) = NoKey j m × KeysUnique m

-- What the map knows of a key is the last time, or nothing when that is too old to count.
abbrev IsCurrent : ℕ → Option ℕ → Option ℕ → Type 0
IsCurrent clock known last =
    (known ≡ last) ⊎ ((known ≡ none) × ((t : ℕ) × (last ≡ some t) × (t + dedup_window_ms < clock)))

-- The map and the history agree on every key.
abbrev IsFaithful : ℕ → List (ℕ × ℕ) → List (ℕ × ℕ) → Type 0
IsFaithful clock m history = (k : ℕ) → IsCurrent clock (lookup k m) (lookup k history)

NoKey-lookup : (k : ℕ) (m : List (ℕ × ℕ)) → NoKey k m → lookup k m ≡ none
unfolding lookup
NoKey-lookup k [] h = refl
NoKey-lookup k ((j, t) ∷ m) h = ground (arith, NoKey-lookup k m h.1)

assign-NoKey : (j k b : ℕ) (m : List (ℕ × ℕ)) → j ≢ k → NoKey j m → NoKey j (assign k b m)
unfolding assign
assign-NoKey j k b [] other h = ground arith
assign-NoKey j k b ((i, t) ∷ m) other h = ground (arith, assign-NoKey j k b m other h.1)

assign-KeysUnique : (k b : ℕ) (m : List (ℕ × ℕ)) → KeysUnique m → KeysUnique (assign k b m)
unfolding assign
assign-KeysUnique k b [] h = (tt, tt)
assign-KeysUnique k b ((i, t) ∷ m) h =
    ground (arith, assign-KeysUnique k b m h.1, assign-NoKey i k b m)

delete_stale-NoKey : (k now : ℕ) (m : List (ℕ × ℕ)) → NoKey k m → NoKey k (delete_stale now m)
unfolding delete_stale
delete_stale-NoKey k now [] h = tt
delete_stale-NoKey k now ((i, t) ∷ m) h = ground (arith, delete_stale-NoKey k now m h.1)

delete_stale-KeysUnique :
    (now : ℕ) (m : List (ℕ × ℕ)) → KeysUnique m → KeysUnique (delete_stale now m)
unfolding delete_stale
delete_stale-KeysUnique now [] h = tt
delete_stale-KeysUnique now ((i, t) ∷ m) h =
    ground (arith, delete_stale-KeysUnique now m h.1, delete_stale-NoKey i now m h.0)

lookup-delete_stale :
    (k now : ℕ) (m : List (ℕ × ℕ))
    → KeysUnique m
    → IsCurrent now (lookup k (delete_stale now m)) (lookup k m)
unfolding lookup delete_stale
lookup-delete_stale k now [] h = inl refl
lookup-delete_stale k now ((j, t) ∷ m) h =
    let rest = lookup-delete_stale k now m h.1 in
    elim (Bool-cases (j == k)) [
      | inl same ↦
          let gone = NoKey-lookup j (delete_stale now m) (delete_stale-NoKey j now m h.0) in
          let e = (==_iff j k).0 same in
          elim (Bool-cases (is_stale now t)) [
            | inl old ↦ inr (ground (arith, gone, e), (t, ground arith, ground arith))
            | inr young ↦ inl (ground (arith, e))
          ]
      | inr different ↦ elim (Bool-cases (is_stale now t)) [
        | inl old ↦ rw (old, different) rest
        | inr young ↦ rw (young, different) rest
      ]
    ]

IsCurrent-later :
    (clock now : ℕ) (known last : Option ℕ)
    → clock ≤ now
    → IsCurrent clock known last
    → IsCurrent now known last
IsCurrent-later clock now known last le (inl e) = inl e
IsCurrent-later clock now known last le (inr (e, (t, f, old))) = inr (e, (t, f, omega arith))

IsCurrent-trans :
    (now : ℕ) (a b c : Option ℕ) → IsCurrent now a b → IsCurrent now b c → IsCurrent now a c
IsCurrent-trans now a b c (inl e) q = rw e q
IsCurrent-trans now a b c (inr (e, (t, f, old))) (inl g) = inr (e, (t, sym g ∙ f, old))
IsCurrent-trans now a b c (inr (e, (t, f, old))) (inr (g, r)) = inr (e, r)

lookup-head : (k a : ℕ) (m : List (ℕ × ℕ)) → lookup k ((k, a) ∷ m) ≡ some a
unfolding lookup
lookup-head k a m = ground arith

lookup-tail : (j k a : ℕ) (m : List (ℕ × ℕ)) → j ≢ k → lookup j ((k, a) ∷ m) ≡ lookup j m
unfolding lookup
lookup-tail j k a m other = ground arith

assign-IsFaithful :
    (k clock now : ℕ) (m history : List (ℕ × ℕ))
    → clock ≤ now
    → IsFaithful clock m history
    → IsFaithful now (assign k now m) ((k, now) ∷ history)
assign-IsFaithful k clock now m history le faithful j = elim (Bool-cases (k == j)) [
  | inl same ↦
      let e = (==_iff k j).0 same in
      inl (rw e (lookup-assign j now m ∙ sym (lookup-head j now history)))
  | inr different ↦
      let other : j ≢ k = ground arith in
      rw (lookup-assign_other j k now m other, lookup-tail j k now history other)
        (IsCurrent-later clock now (lookup j m) (lookup j history) le (faithful j))
]

clean-IsFaithful :
    (now : ℕ) (m history : List (ℕ × ℕ))
    → KeysUnique m
    → IsFaithful now m history
    → IsFaithful now (clean now m) history
clean-IsFaithful now m history unique faithful k = elim (Bool-cases (ltb max_tracked (length m))) [
  | inl full ↦ rw full (
      IsCurrent-trans now (lookup k (delete_stale now m)) (lookup k m) (lookup k history)
        (lookup-delete_stale k now m unique) (faithful k))
  | inr room ↦ rw room (faithful k)
]

is_recent-IsCurrent :
    (clock now : ℕ) (known last : Option ℕ)
    → clock ≤ now
    → IsCurrent clock known last
    → is_recent now known ≡ is_recent now last
is_recent-IsCurrent clock now known last le (inl e) = ap (is_recent now) e
is_recent-IsCurrent clock now known last le (inr (e, (t, f, old))) = rw (e, f) (ground arith)

clean-KeysUnique : (now : ℕ) (m : List (ℕ × ℕ)) → KeysUnique m → KeysUnique (clean now m)
clean-KeysUnique now m unique = elim (Bool-cases (ltb max_tracked (length m))) [
  | inl full ↦ rw full (delete_stale-KeysUnique now m unique)
  | inr room ↦ rw room unique
]

submit_all-IsFaithful :
    (clock : ℕ) (subs m history : List (ℕ × ℕ))
    → IsOrdered clock subs
    → KeysUnique m
    → IsFaithful clock m history
    → submit_all subs m ≡ answers subs history
unfolding submit_all answers is_duplicate_submission
submit_all-IsFaithful clock [] m history ordered unique faithful = refl
submit_all-IsFaithful clock ((k, now) ∷ subs) m history ordered unique faithful =
    let first =
      is_recent-IsCurrent clock now (lookup k m) (lookup k history) ordered.0 (faithful k) in
    let kept = assign-KeysUnique k now m unique in
    let rest =
      submit_all-IsFaithful now subs (clean now (assign k now m)) ((k, now) ∷ history) ordered.1
        (clean-KeysUnique now (assign k now m) kept)
        (clean-IsFaithful now (assign k now m) ((k, now) ∷ history) kept
          (assign-IsFaithful k clock now m history ordered.0 faithful)) in
    rw (first, rest) refl

-- When times do not go back, the guard answers as if it kept every submission: one is a duplicate
-- exactly when the last one with its key is less than the window ago, however often the map is
-- cleaned.
pub submit_all-answers :
    (subs : List (ℕ × ℕ)) → IsOrdered 0 subs → submit_all subs [] ≡ answers subs []
submit_all-answers subs ordered = submit_all-IsFaithful 0 subs [] [] ordered tt (λ k. inl refl)
