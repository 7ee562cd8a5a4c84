-- ===== src/Risk/Recovery.antt =====
-- Who may lift a halt.
use apiv.Base.{
  ℕ, ◌+◌, ◌≡◌, ◌≢◌, refl, Option, none, List, [], ◌∷◌, Bool, true, false, arith, Bool-cases, ltb,
  ◌==◌, ap, ◌∙◌, inl, inr, ==_iff, if_keeps,
}
use apiv.Base.Int.{ℤ, pos, leb_ℤ}
use apiv.Risk.Maps.{lookup, lookup-assign, lookup-assign_other, lookup-erase-none}
use apiv.Risk.Breaker.{
  Breaker, Halt, Actor, circuit_breaker, enabled_in, AssetClass, TickRecord, own, on_window, beyond,
  halt_threshold, gap_halt_threshold, recover, cooldown_ms, is_enabled, is_halted_by_breaker,
  update, set_enabled, trip, on_move, trimmed, record_tick, record_reopen, sweep_entries,
  run_recovery_sweep,
}

-- What the breaker does by itself.
pub data Automatic : Type 0 where
  tick : Bool → ℕ → ℕ → ℤ → AssetClass → Automatic
  reopen : Bool → ℕ → ℕ → ℤ → ℤ → AssetClass → Automatic
  sweep : (ℕ → Bool) → ℕ → Automatic

-- The symbol is disabled, and the breaker does not count it as its own.
pub record IsAdminHalted (y : ℕ) (s : Breaker) : Type 0 where
  pub disabled : is_enabled y s ≡ false
  pub unowned : lookup y s.halted_by_breaker ≡ none

module _ (default_spread : ℕ → Option ℕ) where
  unfoldable pub run_automatic : List Automatic → Breaker → Breaker
  run_automatic [] s = s
  run_automatic (tick writes now y price class ∷ steps) s =
      run_automatic steps (record_tick default_spread writes now y price class s)
  run_automatic (reopen writes now y previous price class ∷ steps) s =
      run_automatic steps (record_reopen default_spread writes now y previous price class s)
  run_automatic (sweep writes now ∷ steps) s =
      run_automatic steps (run_recovery_sweep default_spread writes now s)

pub is_enabled-set_enabled_other :
    (f : ℕ → Option ℕ) (y z : ℕ) (b : Bool) (by : Actor) (s : Breaker)
    → y ≢ z
    → is_enabled y (set_enabled f z b by s) ≡ is_enabled y s
unfolding is_enabled set_enabled update
is_enabled-set_enabled_other f y z b by s other =
    ap enabled_in (lookup-assign_other y z _ s.cache other)

pub is_enabled-set_enabled :
    (f : ℕ → Option ℕ) (y : ℕ) (b : Bool) (by : Actor) (s : Breaker)
    → is_enabled y (set_enabled f y b by s) ≡ b
unfolding is_enabled set_enabled update
is_enabled-set_enabled f y b by s = ap enabled_in (lookup-assign y _ s.cache)

-- A halt of another symbol.
trip-IsAdminHalted :
    (f : ℕ → Option ℕ) (y z : ℕ) (writes : Bool) (h : Halt) (s : Breaker)
    → y ≢ z
    → IsAdminHalted y s
    → IsAdminHalted y (trip f writes z h s)
unfolding trip set_enabled update is_enabled
trip-IsAdminHalted f y z true h s other halted = record {
  disabled = is_enabled-set_enabled_other f y z false circuit_breaker s other ∙ halted.disabled;
  unowned = lookup-assign_other y z h s.halted_by_breaker other ∙ halted.unowned;
}
trip-IsAdminHalted f y z false h s other halted = record {
  disabled = is_enabled-set_enabled_other f y z false circuit_breaker s other ∙ halted.disabled;
  unowned = halted.unowned;
}

own-IsAdminHalted :
    (y z : ℕ) (h : Halt) (s : Breaker) → y ≢ z → IsAdminHalted y s → IsAdminHalted y (own z h s)
unfolding is_enabled
own-IsAdminHalted y z h s other halted = record {
  disabled = halted.disabled;
  unowned = lookup-assign_other y z h s.halted_by_breaker other ∙ halted.unowned;
}

-- The breaker leaves a symbol alone that is disabled and not its own.
on_move-admin_halted :
    (f : ℕ → Option ℕ) (y : ℕ) (writes : Bool) (h : Halt) (s : Breaker)
    → IsAdminHalted y s
    → on_move f writes y h s ≡ s
unfolding on_move
on_move-admin_halted f y writes h s halted = rw (halted.unowned, halted.disabled) refl

on_move-IsAdminHalted :
    (f : ℕ → Option ℕ) (y z : ℕ) (writes : Bool) (h : Halt) (s : Breaker)
    → IsAdminHalted y s
    → IsAdminHalted y (on_move f writes z h s)
unfolding on_move
on_move-IsAdminHalted f y z writes h s halted = elim (Bool-cases (z == y)) [
  | inl same ↦
      let e = (==_iff z y).0 same in rw (e, on_move-admin_halted f y writes h s halted) halted
  | inr different ↦
      let other : y ≢ z = ground arith in
      if_keeps (IsAdminHalted y) (is_halted_by_breaker z s) (own-IsAdminHalted y z h s other halted)
        (if_keeps (IsAdminHalted y) (is_enabled z s)
          (trip-IsAdminHalted f y z writes h s other halted) halted)
]

with_ticks-IsAdminHalted :
    (y : ℕ) (ticks : List (ℕ × List TickRecord)) (s : Breaker)
    → IsAdminHalted y s
    → IsAdminHalted y (record s { recent_ticks = ticks })
unfolding is_enabled
with_ticks-IsAdminHalted y ticks s halted = record {
  disabled = halted.disabled;
  unowned = halted.unowned;
}

on_window-IsAdminHalted :
    (f : ℕ → Option ℕ) (writes : Bool) (now y z : ℕ) (price : ℤ) (class : AssetClass)
    (window : List TickRecord) (s : Breaker)
    → IsAdminHalted y s
    → IsAdminHalted y (on_window f writes now z price class window s)
on_window-IsAdminHalted f writes now y z price class [] s halted = halted
on_window-IsAdminHalted f writes now y z price class (t ∷ []) s halted = halted
on_window-IsAdminHalted f writes now y z price class (t ∷ u ∷ rest) s halted =
    if_keeps (IsAdminHalted y) (beyond (halt_threshold class) t.price price)
      (on_move-IsAdminHalted f y z writes _ s halted) halted

record_tick-IsAdminHalted :
    (f : ℕ → Option ℕ) (writes : Bool) (now y z : ℕ) (price : ℤ) (class : AssetClass) (s : Breaker)
    → IsAdminHalted y s
    → IsAdminHalted y (record_tick f writes now z price class s)
unfolding record_tick
record_tick-IsAdminHalted f writes now y z price class s halted =
    if_keeps (IsAdminHalted y) (leb_ℤ price (pos 0)) halted (
      on_window-IsAdminHalted f writes now y z price class (trimmed now z price s) _
        (with_ticks-IsAdminHalted y _ s halted))

record_reopen-IsAdminHalted :
    (f : ℕ → Option ℕ) (writes : Bool) (now y z : ℕ) (previous price : ℤ) (class : AssetClass)
    (s : Breaker)
    → IsAdminHalted y s
    → IsAdminHalted y (record_reopen f writes now z previous price class s)
unfolding record_reopen
record_reopen-IsAdminHalted f writes now y z previous price class s halted =
    if_keeps (IsAdminHalted y) (leb_ℤ previous (pos 0)) halted (
      if_keeps (IsAdminHalted y) (leb_ℤ price (pos 0)) halted (
        if_keeps (IsAdminHalted y) (beyond (gap_halt_threshold class) previous price)
          (on_move-IsAdminHalted f y z writes _ s halted) halted))

recover-IsAdminHalted :
    (f : ℕ → Option ℕ) (writes : Bool) (y z : ℕ) (s : Breaker)
    → y ≢ z
    → IsAdminHalted y s
    → IsAdminHalted y (recover f writes z s)
unfolding set_enabled update is_enabled
recover-IsAdminHalted f true y z s other halted = record {
  disabled = is_enabled-set_enabled_other f y z true circuit_breaker s other ∙ halted.disabled;
  unowned = lookup-erase-none y z s.halted_by_breaker halted.unowned;
}
recover-IsAdminHalted f false y z s other halted = record {
  disabled = is_enabled-set_enabled_other f y z true circuit_breaker s other ∙ halted.disabled;
  unowned = halted.unowned;
}

lookup-none :
    (y z : ℕ) (h : Halt) (rest : List (ℕ × Halt))
    → lookup y ((z, h) ∷ rest) ≡ none
    → (y ≢ z) × (lookup y rest ≡ none)
unfolding lookup
lookup-none y z h rest gone = ground arith

sweep_entries-IsAdminHalted :
    (f : ℕ → Option ℕ) (writes : ℕ → Bool) (now y : ℕ) (entries : List (ℕ × Halt)) (s : Breaker)
    → lookup y entries ≡ none
    → IsAdminHalted y s
    → IsAdminHalted y (sweep_entries f writes now entries s)
unfolding sweep_entries
sweep_entries-IsAdminHalted f writes now y [] s gone halted = halted
sweep_entries-IsAdminHalted f writes now y ((z, h) ∷ rest) s gone halted =
    let (other, gone_rest) = lookup-none y z h rest gone in
    sweep_entries-IsAdminHalted f writes now y rest _ gone_rest (
      if_keeps (IsAdminHalted y) (ltb now (h.halted_at + cooldown_ms)) halted
        (recover-IsAdminHalted f (writes z) y z s other halted))

-- A symbol that is disabled without being the breaker's own stays so, whatever ticks, reopenings and
-- recovery sweeps follow, and whether the database answers or not.
pub run_automatic-IsAdminHalted :
    (f : ℕ → Option ℕ) (y : ℕ) (steps : List Automatic) (s : Breaker)
    → IsAdminHalted y s
    → IsAdminHalted y (run_automatic f steps s)
unfolding run_automatic run_recovery_sweep
run_automatic-IsAdminHalted f y [] s halted = halted
run_automatic-IsAdminHalted f y (tick writes now z price class ∷ steps) s halted =
    run_automatic-IsAdminHalted f y steps _
      (record_tick-IsAdminHalted f writes now y z price class s halted)
run_automatic-IsAdminHalted f y (reopen writes now z previous price class ∷ steps) s halted =
    run_automatic-IsAdminHalted f y steps _
      (record_reopen-IsAdminHalted f writes now y z previous price class s halted)
run_automatic-IsAdminHalted f y (sweep writes now ∷ steps) s halted =
    run_automatic-IsAdminHalted f y steps _
      (sweep_entries-IsAdminHalted f writes now y s.halted_by_breaker s halted.unowned halted)
