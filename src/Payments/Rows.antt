-- ===== src/Payments/Rows.antt =====
-- Look-ups and updates of the deposit table.
use apiv.Base.{
  ℕ, ◌≡◌, refl, Option, none, some, List, [], ◌∷◌, Bool, true, false, ◌&&◌, ◌||◌, not, arith, ◌==◌,
  ltb, if◌then◌else◌,
}
use apiv.Store.{Deposit, DepositStatus, requested, pending, expired}

-- `depositTransaction.findUnique({ where: { id } })`.
unfoldable pub find_deposit : ℕ → List Deposit → Option Deposit
find_deposit k [] = none
find_deposit k (d ∷ ds) = if d.id == k then some d else find_deposit k ds

abbrev pub has_ref : ℕ → Deposit → Bool
has_ref r d = elim (d.psp_ref) [ none ↦ false | some x ↦ x == r ]

-- `findFirst({ where: { pspRef } })`.
unfoldable pub find_by_ref : ℕ → List Deposit → Option Deposit
find_by_ref r [] = none
find_by_ref r (d ∷ ds) = if has_ref r d then some d else find_by_ref r ds

-- The row with identifier `k` becomes `d`.
unfoldable pub put_deposit : ℕ → Deposit → List Deposit → List Deposit
put_deposit k d [] = []
put_deposit k d (x ∷ ds) = if x.id == k then d ∷ ds else x ∷ put_deposit k d ds

-- Another row than `k` has this reference: the unique index on `pspRef` refuses the write.
unfoldable pub ref_taken : ℕ → ℕ → List Deposit → Bool
ref_taken r k [] = false
ref_taken r k (d ∷ ds) = (not (d.id == k) && has_ref r d) || ref_taken r k ds

abbrev pub is_open : DepositStatus → Bool
is_open requested = true
is_open pending = true
is_open _ = false

-- `updateMany` of `expireStale`.
unfoldable pub expire_rows : ℕ → List Deposit → List Deposit
expire_rows cutoff [] = []
expire_rows cutoff (d ∷ ds) =
    (if is_open d.status && ltb d.requested_at cutoff then record d { status = expired } else d)
    ∷ expire_rows cutoff ds

pub find_deposit-id :
    (k : ℕ) (d : Deposit) (ds : List Deposit) → find_deposit k ds ≡ some d → d.id ≡ k
unfolding find_deposit
find_deposit-id k d [] e = ground arith
find_deposit-id k d (x ∷ ds) e = ground (arith, find_deposit-id k d ds)

pub find_deposit-put :
    (k : ℕ) (d old : Deposit) (ds : List Deposit)
    → find_deposit k ds ≡ some old
    → d.id ≡ k
    → find_deposit k (put_deposit k d ds) ≡ some d
unfolding find_deposit put_deposit
find_deposit-put k d old [] e id = ground arith
find_deposit-put k d old (x ∷ ds) e id = ground (arith, find_deposit-put k d old ds)

pub ref_taken-put :
    (r k : ℕ) (d : Deposit) (ds : List Deposit)
    → d.id ≡ k
    → ref_taken r k (put_deposit k d ds) ≡ ref_taken r k ds
unfolding ref_taken put_deposit
ref_taken-put r k d [] id = refl
ref_taken-put r k d (x ∷ ds) id = ground (arith, ref_taken-put r k d ds)

-- The sweep leaves confirmed and settled deposits, and those that are not yet stale.
pub find_deposit-expire :
    (cutoff k : ℕ) (ds : List Deposit) (d : Deposit)
    → find_deposit k ds ≡ some d
    → find_deposit k (expire_rows cutoff ds)
      ≡ some (
          if is_open d.status && ltb d.requested_at cutoff
          then record d { status = expired }
          else d)
unfolding find_deposit expire_rows
find_deposit-expire cutoff k [] d e = ground arith
find_deposit-expire cutoff k (x ∷ ds) d e = ground (arith, find_deposit-expire cutoff k ds d)
