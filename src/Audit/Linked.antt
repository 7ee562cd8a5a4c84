-- ===== src/Audit/Linked.antt =====
-- Rows that are linked by their hashes.
use apiv.Base.{ℕ, zero, suc, ◌+◌, ◌≡◌, refl, some, List, [], ◌∷◌, ◌++◌, arith, length}
use apiv.Audit.Canonical.{Token}
use apiv.Audit.Chain.{
  Row, genesis_hash, row_hash, check_rows, first_rows, boundary, valid, verify_chain, in_order,
}

module _ (sha : List Token → ℕ) where
  -- Each row holds the hash of the one before and its own.
  abbrev pub Linked : ℕ → List Row → Type 0
  Linked prev [] = Unit {0}
  Linked prev (r ∷ rs) =
      (r.prev_hash ≡ some prev)
      × (r.chain_hash ≡ some (row_hash sha prev r))
      × Linked (row_hash sha prev r) rs

  -- The hash of the last row.
  abbrev pub last_hash : ℕ → List Row → ℕ
  last_hash prev [] = prev
  last_hash prev (r ∷ rs) = last_hash (row_hash sha prev r) rs

  pub check_rows-Linked :
      (prev position : ℕ) (rs : List Row)
      → Linked prev rs
      → check_rows sha prev position rs ≡ valid (position + length rs)
  unfolding check_rows
  check_rows-Linked prev position [] h = ground arith
  check_rows-Linked prev position (r ∷ rs) h =
      let rest = check_rows-Linked (row_hash sha prev r) (suc position) rs h.2 in
      let a = h.0 in let b = h.1 in ground arith

  pub Linked-first_rows :
      (n prev : ℕ) (rs : List Row) → Linked prev rs → Linked prev (first_rows n rs)
  unfolding first_rows
  Linked-first_rows n prev [] h = tt
  Linked-first_rows zero prev (r ∷ rs) h = tt
  Linked-first_rows (suc n) prev (r ∷ rs) h =
      (h.0, h.1, Linked-first_rows n (row_hash sha prev r) rs h.2)

  pub Linked-append :
      (prev : ℕ) (rs : List Row) (r : Row)
      → Linked prev rs
      → r.prev_hash ≡ some (last_hash prev rs)
      → r.chain_hash ≡ some (row_hash sha (last_hash prev rs) r)
      → Linked prev (rs ++ (r ∷ []))
  Linked-append prev [] r h a b = (a, b, tt)
  Linked-append prev (q ∷ rs) r h a b = (h.0, h.1, Linked-append (row_hash sha prev q) rs r h.2 a b)

  pub last_hash-append :
      (prev : ℕ) (rs : List Row) (r : Row)
      → last_hash prev (rs ++ (r ∷ [])) ≡ row_hash sha (last_hash prev rs) r
  last_hash-append prev [] r = refl
  last_hash-append prev (q ∷ rs) r = last_hash-append (row_hash sha prev q) rs r

  boundary-Linked : (rs : List Row) → Linked genesis_hash rs → boundary rs ≡ genesis_hash
  boundary-Linked [] h = refl
  boundary-Linked (r ∷ rs) h = ground (arith, h.0)

  pub verify_chain-Linked :
      (limit : ℕ) (log : List Row)
      → Linked genesis_hash (in_order log)
      → verify_chain sha limit log ≡ valid (length (first_rows limit (in_order log)))
  unfolding verify_chain
  verify_chain-Linked limit log h =
      let entries = first_rows limit (in_order log) in
      let linked = Linked-first_rows limit genesis_hash (in_order log) h in
      ground
        (arith, boundary-Linked entries linked, check_rows-Linked genesis_hash 0 entries linked)
