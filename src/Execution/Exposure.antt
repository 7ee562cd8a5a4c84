-- ===== src/Execution/Exposure.antt =====
-- risk-service/exposure.limits.ts: the exposure of the broker per instrument, as the transaction reads
-- it from the positions and as the registry of a process keeps it. A notional is a quantity times a
-- price, exact in units of 1e-16, where the source's is a double; an instrument is a number, in the
-- order of `EXPOSURE_LIMITS`.
use apiv.Base.{
  ℕ, zero, suc, ◌*◌, Option, none, some, List, [], ◌∷◌, Bool, ◌&&◌, ◌==◌, if◌then◌else◌, or_else,
}
use apiv.Base.Int.{ℤ, pos, ◌+ℤ◌, ◌-ℤ◌, ◌*ℤ◌, ◌≤ℤ◌, leb_ℤ, abs, max_ℤ}
use apiv.Store.{Side, buy, sell, Position}
use apiv.Settlement.Engine.{is_open}
use apiv.Execution.Rows.{Exposure}

pub record Limits : Type 0 where
  pub gross : ℤ
  pub net : ℤ

abbrev thousands : ℕ → ℤ
thousands n = pos (n * 10_000_000_000_000_000_000)

abbrev pub limits_of : ℕ → ℕ → Limits
limits_of gross net = record { gross = thousands gross; net = thousands net }

abbrev limit_rows : List Limits
limit_rows =
    limits_of 10000 2000
    ∷ limits_of 10000 2000
    ∷ limits_of 10000 2000
    ∷ limits_of 5000 1000
    ∷ limits_of 5000 1000
    ∷ limits_of 5000 1000
    ∷ limits_of 8000 2000
    ∷ limits_of 8000 2000
    ∷ limits_of 5000 1000
    ∷ limits_of 5000 1000
    ∷ limits_of 3000 500
    ∷ limits_of 3000 500
    ∷ limits_of 2000 500
    ∷ limits_of 2000 500
    ∷ limits_of 3000 750
    ∷ limits_of 3000 750
    ∷ limits_of 2000 500
    ∷ limits_of 2000 500
    ∷ limits_of 2000 500
    ∷ []

row_at : ℕ → List Limits → Limits
row_at k [] = limits_of 1000 250
row_at zero (l ∷ ls) = l
row_at (suc k) (l ∷ ls) = row_at k ls

-- `EXPOSURE_LIMITS[key] ?? DEFAULT_LIMIT`.
unfoldable pub limits_for : ℕ → Limits
unfolding row_at
limits_for symbol = row_at symbol limit_rows

abbrev pub notional_of : Position → ℤ
notional_of p = p.quantity *ℤ p.entry_price

abbrev pub add_side : Side → ℤ → Exposure → Exposure
add_side buy n e = record e { long = e.long +ℤ n }
add_side sell n e = record e { short = e.short +ℤ n }

abbrev pub no_exposure : Exposure
no_exposure = record { long = pos 0; short = pos 0 }

-- The sums, by side, over the open positions of an instrument.
unfoldable pub exposure_of : ℕ → List Position → Exposure
exposure_of symbol [] = no_exposure
exposure_of symbol (p ∷ ps) =
    let rest = exposure_of symbol ps in
    if (p.symbol == symbol) && is_open p.status then add_side p.side (notional_of p) rest else rest

abbrev pub gross : Exposure → ℤ
gross e = e.long +ℤ e.short

abbrev pub net : Exposure → ℤ
net e = abs (e.long -ℤ e.short)

abbrev pub IsWithin : Limits → Exposure → Type 0
IsWithin l e = (gross e ≤ℤ l.gross) × (net e ≤ℤ l.net)

-- The two tests that both checks make.
unfoldable pub is_within : Limits → Exposure → Bool
is_within l e = leb_ℤ (gross e) l.gross && leb_ℤ (net e) l.net

unfoldable pub check_can_open_atomic : ℕ → Side → ℤ → List Position → Bool
unfolding is_within limits_for
check_can_open_atomic symbol side notional ps =
    is_within (limits_for symbol) (add_side side notional (exposure_of symbol ps))

abbrev pub Registry : Type 0
Registry = ℕ → Option Exposure

abbrev set_at : ℕ → Exposure → Registry → Registry
set_at symbol e r k = if k == symbol then some e else r k

-- `_add` and `_sub`.
unfoldable pub open_position_at : ℕ → Side → ℤ → Registry → Registry
open_position_at symbol side notional r =
    set_at symbol (add_side side notional (or_else (r symbol) no_exposure)) r

abbrev take_side : Side → ℤ → Exposure → Exposure
take_side buy n e = record e { long = max_ℤ (pos 0) (e.long -ℤ n) }
take_side sell n e = record e { short = max_ℤ (pos 0) (e.short -ℤ n) }

unfoldable pub close_position_at : ℕ → Side → ℤ → Registry → Registry
close_position_at symbol side notional r = elim (r symbol) [
  | none ↦ r
  | some e ↦ set_at symbol (take_side side notional e) r
]

-- The loop of `load`, over the open positions that the query gives.
unfoldable pub load : List Position → Registry → Registry
load [] r = r
load (p ∷ ps) r =
    load ps (if is_open p.status then open_position_at p.symbol p.side (notional_of p) r else r)

unfoldable pub check_can_open : ℕ → Side → ℤ → Registry → Bool
unfolding is_within limits_for
check_can_open symbol side notional r =
    is_within (limits_for symbol) (add_side side notional (or_else (r symbol) no_exposure))
