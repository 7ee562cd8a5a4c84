-- ===== src/Audit/Ordering.antt =====
-- The order in which the rows of the audit log are read.
use apiv.Base.{
  ℕ, ◌<◌, ◌≤◌, ◌≡◌, refl, ◌∙◌, inl, inr, ◌⊎◌, some, List, [], ◌∷◌, ◌++◌, Bool, true, false, ltb,
  if◌then◌else◌, sym, arith, All, Option-cases, Bool-cases,
}
use apiv.Audit.Chain.{Row, latest, insert_row, in_order}

abbrev pub IsEarlier : ℕ → Row → Type 0
IsEarlier now r = r.written_at < now

All-if :
    (P : Row → Type 0) (b : Bool) (qs rs : List Row)
    → All P qs
    → All P rs
    → All P (if b then qs else rs)
All-if P true qs rs h k = h
All-if P false qs rs h k = k

pub All-weaken : (m n : ℕ) (log : List Row) → m ≤ n → All (IsEarlier m) log → All (IsEarlier n) log
All-weaken m n [] le h = tt
All-weaken m n (r ∷ rs) le h = let less = h.0 in (omega arith, All-weaken m n rs le h.1)

All-insert_row :
    (P : Row → Type 0) (r : Row) (qs : List Row) → P r → All P qs → All P (insert_row r qs)
unfolding insert_row
All-insert_row P r [] p h = (p, tt)
All-insert_row P r (q ∷ qs) p h =
    let rest = All-insert_row P r qs p h.1 in
    All-if P (ltb q.written_at r.written_at) (q ∷ insert_row r qs) (r ∷ q ∷ qs) (h.0, rest) (p, h)

pub All-in_order : (P : Row → Type 0) (log : List Row) → All P log → All P (in_order log)
unfolding in_order
All-in_order P [] h = tt
All-in_order P (r ∷ rs) h =
    let rest = All-in_order P rs h.1 in
    All-if P r.is_current_algo (insert_row r (in_order rs)) (in_order rs)
      (All-insert_row P r (in_order rs) h.0 rest) rest

pub insert_row_last :
    (r : Row) (qs : List Row) → All (IsEarlier r.written_at) qs → insert_row r qs ≡ qs ++ (r ∷ [])
unfolding insert_row
insert_row_last r [] h = refl
insert_row_last r (q ∷ qs) h = ground (arith, insert_row_last r qs h.1, h.0)

latest_cases :
    (q : Row) (log : List Row) → (latest (q ∷ log) ≡ some q) ⊎ (latest (q ∷ log) ≡ latest log)
unfolding latest
latest_cases q log = elim (Option-cases (latest log)) [
  | inl e ↦ inl (ground arith)
  | inr (p, e) ↦ elim (Bool-cases (ltb q.written_at p.written_at)) [
    | inl less ↦ inr (ground arith)
    | inr more ↦ inl (ground arith)
  ]
]

latest-All : (P : Row → Type 0) (log : List Row) (r : Row) → All P log → latest log ≡ some r → P r
unfolding latest
latest-All P [] r h e = absurd (ground arith)
latest-All P (q ∷ log) r h e =
    let later = latest-All P log r h.1 in
    elim (latest_cases q log) [
      | inl head ↦ let same_row : q ≡ r = ground arith in rw (← same_row) h.0
      | inr tail ↦ later (sym tail ∙ e)
    ]

pub latest_write :
    (r : Row) (log : List Row) → All (IsEarlier r.written_at) log → latest (r ∷ log) ≡ some r
unfolding latest
latest_write r log h = elim (Option-cases (latest log)) [
  | inl e ↦ ground arith
  | inr (q, e) ↦ ground (arith, latest-All (IsEarlier r.written_at) log q h e)
]
