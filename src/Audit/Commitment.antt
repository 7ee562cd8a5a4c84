-- ===== src/Audit/Commitment.antt =====
-- The last hash of a log, and the rows before it.
use apiv.Base.{
  ℕ, suc, ◌+◌, ◌≡◌, refl, ◌∙◌, ap, inl, inr, ◌⊎◌, Option, none, some, List, [], ◌∷◌, arith, All,
  length,
}
use apiv.Audit.Canonical.{Token, canonical}
use apiv.Audit.Chain.{
  Row, row_hash, hashed, check_rows, first_rows, boundary, valid, verify_chain, in_order,
}
use apiv.Audit.Linked.{last_hash}
use apiv.Audit.Texts.{hashed_text-injective}

-- What the hash of a row covers.
abbrev pub SameContent : Row → Row → Type 0
SameContent r q =
    (r.id ≡ q.id)
    × (r.actor ≡ q.actor)
    × (r.action ≡ q.action)
    × (r.entity ≡ q.entity)
    × (r.ts ≡ q.ts)
    × (canonical r.payload ≡ canonical q.payload)

abbrev pub AllSame : List Row → List Row → Type 0
AllSame [] [] = Unit {0}
AllSame (r ∷ rs) (q ∷ qs) = SameContent r q × AllSame rs qs
AllSame [] (q ∷ qs) = ⊥
AllSame (r ∷ rs) [] = ⊥

abbrev pub HasHash : Row → Type 0
HasHash r = (h : ℕ) × (r.chain_hash ≡ some h)

-- The stored hash of the last row.
abbrev pub final_hash : List Row → Option ℕ
final_hash [] = none
final_hash (r ∷ []) = r.chain_hash
final_hash (r ∷ q ∷ rs) = final_hash (q ∷ rs)

abbrev pub row_text : ℕ → Row → List Token
row_text prev r = canonical (hashed prev r.id r.actor r.action r.entity r.ts r.payload)

-- The rows that `verifyChain` reads.
abbrev pub entries_of : ℕ → List Row → List Row
entries_of limit log = first_rows limit (in_order log)

nothing_read : (rs qs : List Row) → rs ≡ [] → length rs ≡ length qs → AllSame rs qs
nothing_read [] [] e h = tt
nothing_read [] (q ∷ qs) e h = absurd (ground arith)
nothing_read (r ∷ rs) qs e h = absurd (ground arith)

module _ (sha : List Token → ℕ) where
  -- Rows in the same place of two logs have no two texts with one hash.
  abbrev pub NoCollision : ℕ → ℕ → List Row → List Row → Type 0
  NoCollision p q (r ∷ rs) (r' ∷ rs') =
      (row_hash sha p r ≡ row_hash sha q r' → row_text p r ≡ row_text q r')
      × NoCollision (row_hash sha p r) (row_hash sha q r') rs rs'
  NoCollision p q [] rs' = Unit {0}
  NoCollision p q (r ∷ rs) [] = Unit {0}

  -- Each row has its own hash stored.
  abbrev Hashed : ℕ → List Row → Type 0
  Hashed prev [] = Unit {0}
  Hashed prev (r ∷ rs) =
      (r.chain_hash ≡ some (row_hash sha prev r)) × Hashed (row_hash sha prev r) rs

  accepted-Hashed :
      (prev position n : ℕ) (rs : List Row)
      → All HasHash rs
      → check_rows sha prev position rs ≡ valid n
      → Hashed prev rs × (n ≡ position + length rs)
  unfolding check_rows
  accepted-Hashed prev position n [] h e = (tt, ground arith)
  accepted-Hashed prev position n (r ∷ rs) h e =
      let (stored, has) = h.0 in
      let own : stored ≡ row_hash sha prev r = ground arith in
      let chain : r.chain_hash ≡ some (row_hash sha prev r) = has ∙ ap some own in
      let later : check_rows sha (row_hash sha prev r) (suc position) rs ≡ valid n = ground arith in
      let (k, m) = accepted-Hashed (row_hash sha prev r) (suc position) n rs h.1 later in
      ((chain, k), ground arith)

  final_hash-last_hash :
      (prev : ℕ) (r : Row) (rs : List Row)
      → Hashed prev (r ∷ rs)
      → final_hash (r ∷ rs) ≡ some (last_hash sha prev (r ∷ rs))
  final_hash-last_hash prev r [] h = h.0
  final_hash-last_hash prev r (q ∷ rs) h = final_hash-last_hash (row_hash sha prev r) q rs h.1

  hashed_same :
      (p q : ℕ) (rs qs : List Row)
      → NoCollision p q rs qs
      → length rs ≡ length qs
      → last_hash sha p rs ≡ last_hash sha q qs
      → (p ≡ q) × AllSame rs qs
  hashed_same p q [] [] none_collide even last = (last, tt)
  hashed_same p q [] (x ∷ qs) none_collide even last = absurd (ground arith)
  hashed_same p q (x ∷ rs) [] none_collide even last = absurd (ground arith)
  hashed_same p q (r ∷ rs) (x ∷ qs) none_collide even last =
      let (own, rest) =
        hashed_same (row_hash sha p r) (row_hash sha q x) rs qs none_collide.1 (ground arith)
          last in
      let texts = none_collide.0 own in
      let (a, b, c, d, e, f, g) =
        hashed_text-injective p r.id r.actor r.action r.entity r.ts r.payload q x.id x.actor
          x.action x.entity x.ts x.payload texts in
      (a, ((b, c, d, e, f, g), rest))

  ends_meet :
      (p q : ℕ) (rs qs : List Row)
      → Hashed p rs
      → Hashed q qs
      → length rs ≡ length qs
      → final_hash rs ≡ final_hash qs
      → (rs ≡ []) ⊎ (last_hash sha p rs ≡ last_hash sha q qs)
  ends_meet p q [] qs h k even final = inl refl
  ends_meet p q (r ∷ rs) [] h k even final = absurd (ground arith)
  ends_meet p q (r ∷ rs) (x ∷ qs) h k even final =
      inr (ground (arith, final_hash-last_hash p r rs h, final_hash-last_hash q x qs k))

  -- Two logs that are both accepted, as many rows of each, all with a stored hash, and that end in the
  -- same hash, have the same content in every row that was read, payloads up to the order of members;
  -- unless two texts in the same place have one SHA-256.
  pub verify_chain_commits :
      (limit n : ℕ) (log log' : List Row)
      → verify_chain sha limit log ≡ valid n
      → verify_chain sha limit log' ≡ valid n
      → All HasHash (entries_of limit log)
      → All HasHash (entries_of limit log')
      → NoCollision
          (boundary (entries_of limit log))
          (boundary (entries_of limit log'))
          (entries_of limit log)
          (entries_of limit log')
      → final_hash (entries_of limit log) ≡ final_hash (entries_of limit log')
      → AllSame (entries_of limit log) (entries_of limit log')
  unfolding verify_chain
  verify_chain_commits limit n log log' accepted accepted' has has' none_collide final =
      let rs = entries_of limit log in
      let qs = entries_of limit log' in
      let (k, m) = accepted-Hashed (boundary rs) 0 n rs has accepted in
      let (k', m') = accepted-Hashed (boundary qs) 0 n qs has' accepted' in
      let even : length rs ≡ length qs = omega arith in
      elim (ends_meet (boundary rs) (boundary qs) rs qs k k' even final) [
        | inl empty ↦ nothing_read rs qs empty even
        | inr last ↦ (hashed_same (boundary rs) (boundary qs) rs qs none_collide even last).1
      ]
