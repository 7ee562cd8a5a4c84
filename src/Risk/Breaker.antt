-- ===== src/Risk/Breaker.antt =====
-- risk-service/symbol.circuit.breaker.ts, with what it uses of
-- liquidity-engine/broker.spread.config.ts. Symbols are numbers, prices are integers in one unit;
-- alerts, metrics, the audit trail and logging are left out, and a write to the database with what
-- follows it is one step.
use apiv.Base.{
  ℕ, ◌+◌, Option, none, some, List, [], ◌∷◌, ◌++◌, Bool, true, false, ltb, leb, keep, if◌then◌else◌,
  or_else, is_some,
}
use apiv.Base.Int.{ℤ, pos, ◌-ℤ◌, ◌*ℤ◌, abs, ltb_ℤ, leb_ℤ}
use apiv.Risk.Maps.{lookup, assign, erase}

abbrev pub window_ms : ℕ
window_ms = 10000

abbrev pub cooldown_ms : ℕ
cooldown_ms = 300000

pub data AssetClass : Type 0 where
  fx_major fx_minor index commodity crypto equity unlisted : AssetClass

-- `HALT_THRESHOLD_PCT` and `GAP_HALT_THRESHOLD_PCT`, in tenths of a percent.
abbrev pub halt_threshold : AssetClass → ℕ
halt_threshold fx_major = 5
halt_threshold fx_minor = 7
halt_threshold index = 10
halt_threshold commodity = 13
halt_threshold crypto = 30
halt_threshold equity = 20
halt_threshold unlisted = 15

abbrev pub gap_halt_threshold : AssetClass → ℕ
gap_halt_threshold fx_major = 15
gap_halt_threshold fx_minor = 20
gap_halt_threshold index = 30
gap_halt_threshold commodity = 30
gap_halt_threshold crypto = 50
gap_halt_threshold equity = 50
gap_halt_threshold unlisted = 30

pub record TickRecord : Type 0 where
  pub price : ℤ
  pub ts : ℕ

-- A move is kept as its two prices.
pub record Halt : Type 0 where
  pub halted_at : ℕ
  pub from_price : ℤ
  pub to_price : ℤ

pub data Actor : Type 0 where
  admin : ℕ → Actor
  circuit_breaker : Actor

pub record SpreadEntry : Type 0 where
  pub spread : ℕ
  pub enabled : Bool
  pub updated_by : Actor

-- The breaker's two maps, and the cache of spread settings.
pub record Breaker : Type 0 where
  pub recent_ticks : List (ℕ × List TickRecord)
  pub halted_by_breaker : List (ℕ × Halt)
  pub cache : List (ℕ × SpreadEntry)

abbrev pub enabled_in : Option SpreadEntry → Bool
enabled_in none = true
enabled_in (some e) = e.enabled

unfoldable pub is_enabled : ℕ → Breaker → Bool
is_enabled y s = enabled_in (lookup y s.cache)

abbrev pub is_halted_by_breaker : ℕ → Breaker → Bool
is_halted_by_breaker y s = is_some (lookup y s.halted_by_breaker)

-- `update`: the cache is written before the database is, which may not answer.
unfoldable pub update : ℕ → ℕ → Bool → Actor → Breaker → Breaker
update y spread enabled by s = record s {
  cache = assign y (record { spread = spread; enabled = enabled; updated_by = by }) s.cache;
}

abbrev pub beyond : ℕ → ℤ → ℤ → Bool
beyond threshold old price = ltb_ℤ (pos threshold *ℤ old) (pos 1000 *ℤ abs (price -ℤ old))

abbrev pub own : ℕ → Halt → Breaker → Breaker
own y h s = record s { halted_by_breaker = assign y h s.halted_by_breaker }

-- The ticks of the last ten seconds, the new one last.
unfoldable pub trimmed : ℕ → ℕ → ℤ → Breaker → List TickRecord
trimmed now y price s =
    keep (λ t. leb now (t.ts + window_ms))
      (or_else (lookup y s.recent_ticks) [] ++ record { price = price; ts = now } ∷ [])

module _ (default_spread : ℕ → Option ℕ) where
  abbrev current_spread : ℕ → Breaker → ℕ
  current_spread y s = elim (lookup y s.cache) [
    | some e ↦ e.spread
    | none ↦ or_else (default_spread y) 0
  ]

  unfoldable pub set_enabled : ℕ → Bool → Actor → Breaker → Breaker
  set_enabled y enabled by s = update y (current_spread y s) enabled by s

  -- `_trip`; `writes` says whether the database answers, without which the halt is not recorded.
  unfoldable pub trip : Bool → ℕ → Halt → Breaker → Breaker
  trip writes y h s =
      let t = set_enabled y false circuit_breaker s in if writes then own y h t else t

  -- What a move beyond the threshold does.
  unfoldable pub on_move : Bool → ℕ → Halt → Breaker → Breaker
  on_move writes y h s =
      if is_halted_by_breaker y s
      then own y h s
      else (if is_enabled y s then trip writes y h s else s)

  abbrev pub on_window : Bool → ℕ → ℕ → ℤ → AssetClass → List TickRecord → Breaker → Breaker
  on_window writes now y price class (oldest ∷ next ∷ rest) s =
      if beyond (halt_threshold class) oldest.price price
      then on_move writes y
          (record { halted_at = now; from_price = oldest.price; to_price = price }) s
      else s
  on_window writes now y price class _ s = s

  unfoldable pub record_tick : Bool → ℕ → ℕ → ℤ → AssetClass → Breaker → Breaker
  record_tick writes now y price class s =
      if leb_ℤ price (pos 0)
      then s
      else on_window writes now y price class (trimmed now y price s)
          (record s { recent_ticks = assign y (trimmed now y price s) s.recent_ticks })

  unfoldable pub record_reopen : Bool → ℕ → ℕ → ℤ → ℤ → AssetClass → Breaker → Breaker
  record_reopen writes now y previous price class s =
      if leb_ℤ previous (pos 0)
      then s
      else (if leb_ℤ price (pos 0)
          then s
          else (if beyond (gap_halt_threshold class) previous price
              then on_move writes y
                  (record { halted_at = now; from_price = previous; to_price = price }) s
              else s))

  -- A failed write throws out of `clear` before the halt is dropped.
  unfoldable pub clear : Bool → ℕ → ℕ → Breaker → Breaker
  clear writes y a s =
      let t = set_enabled y true (admin a) s in
      if writes then record t { halted_by_breaker = erase y t.halted_by_breaker } else t

  abbrev pub recover : Bool → ℕ → Breaker → Breaker
  recover writes y s =
      let t = set_enabled y true circuit_breaker s in
      if writes then record t { halted_by_breaker = erase y t.halted_by_breaker } else t

  -- The loop of `runRecoverySweep`; `writes` says for which symbols the database answers.
  unfoldable pub sweep_entries : (ℕ → Bool) → ℕ → List (ℕ × Halt) → Breaker → Breaker
  sweep_entries writes now [] s = s
  sweep_entries writes now ((y, h) ∷ rest) s =
      sweep_entries writes now rest
        (if ltb now (h.halted_at + cooldown_ms) then s else recover (writes y) y s)

  unfoldable pub run_recovery_sweep : (ℕ → Bool) → ℕ → Breaker → Breaker
  run_recovery_sweep writes now s = sweep_entries writes now s.halted_by_breaker s
