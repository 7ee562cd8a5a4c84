-- ===== src/Audit/Gaps.antt =====
-- Logs that end in a row without a hash of its own.
use apiv.Base.{
  ℕ, zero, suc, ◌+◌, ◌≤◌, ◌≡◌, refl, none, some, List, [], ◌∷◌, ◌++◌, arith, length, ap,
}
use apiv.Audit.Canonical.{Token}
use apiv.Audit.Chain.{
  Row, genesis_hash, row_hash, check_rows, first_rows, boundary, valid, verify_chain, in_order,
}
use apiv.Audit.Linked.{Linked, last_hash}

pub first_rows_all : (n : ℕ) (rs : List Row) → length rs ≤ n → first_rows n rs ≡ rs
unfolding first_rows
first_rows_all n [] h = refl
first_rows_all zero (r ∷ rs) h = absurd (omega arith)
first_rows_all (suc n) (r ∷ rs) h = ap (λ l. r ∷ l) (first_rows_all n rs (omega arith))

module _ (sha : List Token → ℕ) where
  check_tail :
      (prev position : ℕ) (rs : List Row) (r : Row)
      → Linked sha prev rs
      → r.prev_hash ≡ some (last_hash sha prev rs)
      → r.chain_hash ≡ none
      → check_rows sha prev position (rs ++ (r ∷ [])) ≡ valid (position + suc (length rs))
  unfolding check_rows
  check_tail prev position [] r h before bare = ground arith
  check_tail prev position (q ∷ rs) r h before bare =
      let rest = check_tail (row_hash sha prev q) (suc position) rs r h.2 before bare in
      let a = h.0 in let b = h.1 in ground arith

  pub boundary-append :
      (rs : List Row) (r : Row)
      → Linked sha genesis_hash rs
      → r.prev_hash ≡ some (last_hash sha genesis_hash rs)
      → boundary (rs ++ (r ∷ [])) ≡ genesis_hash
  boundary-append [] r h before = ground arith
  boundary-append (q ∷ rs) r h before = ground (arith, h.0)

  -- A last row whose own hash is missing is accepted after rows that are linked from the start, whoever
  -- it names as its actor and whatever it says, as long as it holds the hash of the row before it.
  verify_chain_bare_tail :
      (limit : ℕ) (log rs : List Row) (r : Row)
      → in_order log ≡ rs ++ (r ∷ [])
      → Linked sha genesis_hash rs
      → r.prev_hash ≡ some (last_hash sha genesis_hash rs)
      → r.chain_hash ≡ none
      → length (rs ++ (r ∷ [])) ≤ limit
      → verify_chain sha limit log ≡ valid (suc (length rs))
  unfolding verify_chain
  verify_chain_bare_tail limit log rs r e h before bare fits =
      let all = first_rows_all limit (rs ++ (r ∷ [])) fits in
      ground
        (arith, e, all, boundary-append rs r h before, check_tail genesis_hash 0 rs r h before bare)
