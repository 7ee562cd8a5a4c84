-- ===== src/Orders/Claims.antt =====
-- The database row decides which worker gets an order.
use apiv.Base.{
  ℕ, suc, ◌≤◌, ◌≡◌, ◌≢◌, refl, inl, inr, Option, none, List, [], ◌∷◌, true, false, arith, is_some,
  if◌then◌else◌, Option-cases,
}
use apiv.Orders.Book.{Row, full, stub, Status, triggered, Worker, World, is_pending, row_id}
use apiv.Orders.Operations.{claim_row, claim_status_change, mark_triggered}

-- No row with this identifier is pending.
abbrev pub IsTaken : ℕ → List Row → Type 0
IsTaken k [] = Unit {0}
IsTaken k (full x ∷ rs) = (x.id ≡ k → is_pending x.status ≡ false) × IsTaken k rs
IsTaken k (stub j st ∷ rs) = IsTaken k rs

-- Row keys are unique.
abbrev pub NoRow : ℕ → List Row → Type 0
NoRow k [] = Unit {0}
NoRow k (r ∷ rs) = (row_id r ≢ k) × NoRow k rs

abbrev pub HasUniqueKeys : List Row → Type 0
HasUniqueKeys [] = Unit {0}
HasUniqueKeys (r ∷ rs) = NoRow (row_id r) rs × HasUniqueKeys rs

NoRow-IsTaken : (k : ℕ) (rs : List Row) → NoRow k rs → IsTaken k rs
NoRow-IsTaken k [] h = tt
NoRow-IsTaken k (full x ∷ rs) h = (λ e. absurd (h.0 e), NoRow-IsTaken k rs h.1)
NoRow-IsTaken k (stub j st ∷ rs) h = NoRow-IsTaken k rs h.1

-- A row that is taken cannot be claimed again, by anybody and for any status.
pub claim_row-taken :
    (k : ℕ) (st : Status) (u : Option ℕ) (rs : List Row)
    → IsTaken k rs
    → claim_row k st u rs ≡ (none, rs)
unfolding claim_row
claim_row-taken k st u [] h = refl
claim_row-taken k st u (full x ∷ rs) h = ground (arith, claim_row-taken k st u rs h.1)
claim_row-taken k st u (stub j y ∷ rs) h = ground (arith, claim_row-taken k st u rs h)

-- A claim of a pending row for another status takes it.
pub claim_row-takes :
    (k : ℕ) (st : Status) (u : Option ℕ) (rs : List Row)
    → HasUniqueKeys rs
    → is_pending st ≡ false
    → (claim_row k st u rs).0 ≢ none
    → IsTaken k (claim_row k st u rs).1
unfolding claim_row
claim_row-takes k st u [] unique shut won = tt
claim_row-takes k st u (full x ∷ rs) unique shut won =
    ground (
      arith,
      claim_row-takes k st u rs unique.1 shut,
      claim_row-taken k st u rs,
      NoRow-IsTaken k rs,
    )
claim_row-takes k st u (stub j y ∷ rs) unique shut won =
    ground (arith, claim_row-takes k st u rs unique.1 shut)

-- A worker that shares the database, with its own maps.
abbrev pub with_worker : Worker → World → World
with_worker w s = record s { worker = w }

-- Nobody can take an order to trigger it whose row is taken.
pub mark_triggered-taken :
    (k : ℕ) (s : World) → IsTaken k s.rows → (mark_triggered true k s).0 ≡ none
unfolding mark_triggered claim_status_change
mark_triggered-taken k s h = ground (arith, claim_row-taken k triggered none s.rows h)

pub mark_triggered-keeps_IsTaken :
    (k : ℕ) (s : World) → IsTaken k s.rows → IsTaken k (mark_triggered true k s).1.rows
unfolding mark_triggered claim_status_change
mark_triggered-keeps_IsTaken k s h = ground (arith, claim_row-taken k triggered none s.rows h)

-- Unique keys stay unique.
claim_row-NoRow :
    (j k : ℕ) (st : Status) (u : Option ℕ) (rs : List Row)
    → NoRow j rs
    → NoRow j (claim_row k st u rs).1
unfolding claim_row
claim_row-NoRow j k st u [] h = tt
claim_row-NoRow j k st u (full x ∷ rs) h = ground (arith, claim_row-NoRow j k st u rs h.1)
claim_row-NoRow j k st u (stub i y ∷ rs) h = (h.0, claim_row-NoRow j k st u rs h.1)

pub claim_row-HasUniqueKeys :
    (k : ℕ) (st : Status) (u : Option ℕ) (rs : List Row)
    → HasUniqueKeys rs
    → HasUniqueKeys (claim_row k st u rs).1
unfolding claim_row
claim_row-HasUniqueKeys k st u [] h = tt
claim_row-HasUniqueKeys k st u (full x ∷ rs) h =
    ground (arith, claim_row-HasUniqueKeys k st u rs h.1, claim_row-NoRow x.id k st u rs h.0)
claim_row-HasUniqueKeys k st u (stub i y ∷ rs) h =
    (claim_row-NoRow i k st u rs h.0, claim_row-HasUniqueKeys k st u rs h.1)

pub mark_triggered-HasUniqueKeys :
    (k : ℕ) (s : World) → HasUniqueKeys s.rows → HasUniqueKeys (mark_triggered true k s).1.rows
unfolding mark_triggered claim_status_change
mark_triggered-HasUniqueKeys k s h =
    ground (arith, claim_row-HasUniqueKeys k triggered none s.rows h)

-- Who takes an order to trigger it leaves its row taken.
pub mark_triggered-takes :
    (k : ℕ) (s : World)
    → HasUniqueKeys s.rows
    → (mark_triggered true k s).0 ≢ none
    → IsTaken k (mark_triggered true k s).1.rows
unfolding mark_triggered claim_status_change
mark_triggered-takes k s unique won =
    ground (arith, claim_row-takes k triggered none s.rows unique refl)

-- How many of these workers, one after another on the same rows, take the order to trigger it.
unfoldable pub winners : List Worker → ℕ → World → ℕ
winners [] k s = 0
winners (w ∷ ws) k s =
    let (o, t) = mark_triggered true k (with_worker w s) in
    let rest = winners ws k t in if is_some o then suc rest else rest

pub winners-taken : (ws : List Worker) (k : ℕ) (s : World) → IsTaken k s.rows → winners ws k s ≡ 0
unfolding winners
winners-taken [] k s h = refl
winners-taken (w ∷ ws) k s h =
    let rest =
      winners-taken ws k (mark_triggered true k (with_worker w s)).1
        (mark_triggered-keeps_IsTaken k (with_worker w s) h) in
    let none_won = mark_triggered-taken k (with_worker w s) h in rw none_won rest

-- Of any workers that try, one after another and whatever each has in its own maps, to take the same
-- order to trigger it, at most one succeeds, when the keys of the shared rows are unique.
pub mark_triggered_once :
    (ws : List Worker) (k : ℕ) (s : World) → HasUniqueKeys s.rows → winners ws k s ≤ 1
unfolding winners
mark_triggered_once [] k s unique = omega arith
mark_triggered_once (w ∷ ws) k s unique =
    let unique' = mark_triggered-HasUniqueKeys k (with_worker w s) unique in
    let rest = mark_triggered_once ws k (mark_triggered true k (with_worker w s)).1 unique' in
    elim (Option-cases (mark_triggered true k (with_worker w s)).0) [
      | inl lost ↦ rw lost rest
      | inr (o, won) ↦
          let taken = mark_triggered-takes k (with_worker w s) unique (λ e. cc) in
          let nobody = winners-taken ws k (mark_triggered true k (with_worker w s)).1 taken in
          rw (won, nobody) (omega arith)
    ]
