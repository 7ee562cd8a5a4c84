-- ===== src/Risk/Cooldown.antt =====
-- risk-service/symbol.circuit.breaker.ts: a halt from the tick that trips it to the end of its cooldown.
use apiv.Base.{
  ℕ, ◌+◌, ◌≤◌, ◌<◌, ◌≡◌, refl, none, List, [], ◌∷◌, Bool, true, false, arith, ap, ◌∙◌, ◌⊎◌, inl,
  inr, Option, All,
}
use apiv.Base.Int.{ℤ, pos, ◌-ℤ◌, ◌*ℤ◌, ◌≤ℤ◌, ◌<ℤ◌, abs, leb_ℤ, ltb_ℤ-cases}
use apiv.Risk.Maps.{lookup, assign, lookup-assign}
use apiv.Risk.Breaker.{
  Breaker, Halt, circuit_breaker, AssetClass, TickRecord, on_window, beyond, halt_threshold,
  cooldown_ms, is_enabled, update, set_enabled, trip, on_move, trimmed, record_tick,
  run_recovery_sweep,
}
use apiv.Risk.Recovery.{Automatic, tick, reopen, sweep, run_automatic, is_enabled-set_enabled}
use apiv.Risk.Overrides.{sweep_entries-enables}
use apiv.Risk.Standing.{
  IsHalted, AllTimely-none, AllTimely-lookup, AllTimely-assign, record_tick-IsHalted,
  record_reopen-IsHalted, sweep_entries-IsHalted,
}

-- Ticks and reopenings from the time `a` to `b`, and sweeps before the cooldown of a halt at `a` ends.
abbrev pub IsDuring : (a b : ℕ) → Automatic → Type 0
IsDuring a b (tick writes now z price class) = (a ≤ now) × (now ≤ b)
IsDuring a b (reopen writes now z previous price class) = (a ≤ now) × (now ≤ b)
IsDuring a b (sweep writes now) = now < a + cooldown_ms

run_automatic-IsHalted :
    (f : ℕ → Option ℕ) (y a b : ℕ) (steps : List Automatic) (s : Breaker)
    → All (IsDuring a b) steps
    → IsHalted y a b s
    → IsHalted y a b (run_automatic f steps s)
unfolding run_automatic run_recovery_sweep
run_automatic-IsHalted f y a b [] s when halted = halted
run_automatic-IsHalted f y a b (tick writes now z price class ∷ steps) s when halted =
    run_automatic-IsHalted f y a b steps _ when.1
      (record_tick-IsHalted y a b f writes now z price class s when.0.0 when.0.1 halted)
run_automatic-IsHalted f y a b (reopen writes now z previous price class ∷ steps) s when halted =
    run_automatic-IsHalted f y a b steps _ when.1
      (record_reopen-IsHalted y a b f writes now z previous price class s when.0.0 when.0.1 halted)
run_automatic-IsHalted f y a b (sweep writes now ∷ steps) s when halted =
    run_automatic-IsHalted f y a b steps _ when.1
      (sweep_entries-IsHalted y a b f writes now s.halted_by_breaker s when.0 halted.timely halted)

-- The first sweep after the cooldown of the last halt.
IsHalted-recovers :
    (f : ℕ → Option ℕ) (writes : ℕ → Bool) (y a b later : ℕ) (s : Breaker)
    → b + cooldown_ms ≤ later
    → IsHalted y a b s
    → is_enabled y (run_recovery_sweep f writes later s) ≡ true
unfolding run_recovery_sweep
IsHalted-recovers f writes y a b later s over halted =
    let (h, found) = halted.owned in
    let (low, high) = AllTimely-lookup y a b h s.halted_by_breaker found halted.timely in
    sweep_entries-enables f writes later y h s.halted_by_breaker s found (omega arith)

tripped-IsHalted :
    (f : ℕ → Option ℕ) (y b : ℕ) (h : Halt) (s : Breaker)
    → lookup y s.halted_by_breaker ≡ none
    → h.halted_at ≤ b
    → IsHalted y h.halted_at b (trip f true y h s)
unfolding trip set_enabled update is_enabled
tripped-IsHalted f y b h s free high = record {
  disabled = is_enabled-set_enabled f y false circuit_breaker s;
  owned = (h, lookup-assign y h s.halted_by_breaker);
  timely =
      AllTimely-assign y h.halted_at b y h s.halted_by_breaker (omega arith, high)
        (AllTimely-none y h.halted_at b s.halted_by_breaker free);
}

module _ (f : ℕ → Option ℕ) (now y : ℕ) (price : ℤ) (class : AssetClass) (oldest next : TickRecord)
    (rest : List TickRecord) (s : Breaker) where
  abbrev ticked : Breaker
  ticked = record s { recent_ticks = assign y (trimmed now y price s) s.recent_ticks }

  abbrev move_halt : Halt
  move_halt = record { halted_at = now; from_price = oldest.price; to_price = price }

  priced_tick :
      pos 0 <ℤ price
      → trimmed now y price s ≡ oldest ∷ next ∷ rest
      → record_tick f true now y price class s
        ≡ on_window f true now y price class (oldest ∷ next ∷ rest) ticked
  unfolding record_tick
  priced_tick priced window =
      let above : leb_ℤ price (pos 0) ≡ false = ground arith in
      rw above (ap (λ w. on_window f true now y price class w ticked) window)

  tick_trips :
      is_enabled y s ≡ true
      → lookup y s.halted_by_breaker ≡ none
      → beyond (halt_threshold class) oldest.price price ≡ true
      → on_window f true now y price class (oldest ∷ next ∷ rest) ticked
        ≡ trip f true y move_halt ticked
  unfolding on_move is_enabled
  tick_trips on free large = rw (large, free, on) refl

  tick_passes :
      is_enabled y s ≡ true
      → beyond (halt_threshold class) oldest.price price ≡ false
      → is_enabled y (on_window f true now y price class (oldest ∷ next ∷ rest) ticked) ≡ true
  unfolding is_enabled
  tick_passes on small = rw small on

-- A tick of an enabled symbol that the breaker does not own, with a price above zero, an older price in
-- the window and a database that answers. If the move from the oldest price of the window is beyond the
-- threshold of the symbol's class, the symbol is disabled, and stays so through any ticks, reopenings
-- and recovery sweeps until the cooldown ends; the first sweep once the cooldown has passed since the
-- last of those ticks and reopenings enables it. Otherwise the symbol stays enabled.
pub record_tick_halts :
    (f : ℕ → Option ℕ) (writes : ℕ → Bool) (now last later y : ℕ) (price : ℤ) (class : AssetClass)
    (oldest next : TickRecord) (rest : List TickRecord) (steps : List Automatic) (s : Breaker)
    → is_enabled y s ≡ true
    → lookup y s.halted_by_breaker ≡ none
    → pos 0 <ℤ price
    → trimmed now y price s ≡ oldest ∷ next ∷ rest
    → now ≤ last
    → All (IsDuring now last) steps
    → last + cooldown_ms ≤ later
    → let t = record_tick f true now y price class s in
      let move = pos 1000 *ℤ abs (price -ℤ oldest.price) in
      let threshold = pos (halt_threshold class) *ℤ oldest.price in
      ((threshold <ℤ move)
        × (is_enabled y t ≡ false)
        × (is_enabled y (run_automatic f steps t) ≡ false)
        × (is_enabled y (run_recovery_sweep f writes later (run_automatic f steps t)) ≡ true))
      ⊎ ((move ≤ℤ threshold) × (is_enabled y t ≡ true))
record_tick_halts f writes now last later y price class oldest next rest steps s on free priced
      window after when over =
    let move = pos 1000 *ℤ abs (price -ℤ oldest.price) in
    let threshold = pos (halt_threshold class) *ℤ oldest.price in
    let ticks = priced_tick f now y price class oldest next rest s priced window in
    elim (ltb_ℤ-cases threshold move) [
      | inl (large, h) ↦
          let trips = ticks ∙ tick_trips f now y price class oldest next rest s on free large in
          let halted =
            tripped-IsHalted f y last (move_halt f now y price class oldest next rest s)
              (ticked f now y price class oldest next rest s) free after in
          let still = run_automatic-IsHalted f y now last steps _ when halted in
          inl (
            h,
            rw trips halted.disabled,
            rw trips still.disabled,
            rw trips (IsHalted-recovers f writes y now last later _ over still),
          )
      | inr (small, h) ↦
          inr (h, rw ticks (tick_passes f now y price class oldest next rest s on small))
    ]
