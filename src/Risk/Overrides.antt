-- ===== src/Risk/Overrides.antt =====
-- Where an automatic halt and an administrator's meet.
use apiv.Base.{
  ℕ, ◌+◌, ◌≤◌, ◌≡◌, ◌≢◌, refl, Option, none, some, List, [], ◌∷◌, Bool, true, false, arith,
  Bool-cases, ltb, ◌==◌, ==_iff, ◌∙◌, inl, inr, if_keeps,
}
use apiv.Risk.Maps.{lookup}
use apiv.Risk.Breaker.{
  Breaker, Halt, admin, circuit_breaker, cooldown_ms, is_enabled, update, set_enabled, trip,
  on_move, recover, sweep_entries, run_recovery_sweep,
}
use apiv.Risk.Recovery.{
  IsAdminHalted, Automatic, run_automatic, run_automatic-IsAdminHalted, is_enabled-set_enabled,
  is_enabled-set_enabled_other,
}

recover-enables :
    (f : ℕ → Option ℕ) (writes : Bool) (y : ℕ) (s : Breaker)
    → is_enabled y (recover f writes y s) ≡ true
unfolding set_enabled update is_enabled
recover-enables f true y s = is_enabled-set_enabled f y true circuit_breaker s
recover-enables f false y s = is_enabled-set_enabled f y true circuit_breaker s

recover-keeps_enabled :
    (f : ℕ → Option ℕ) (writes : Bool) (y z : ℕ) (s : Breaker)
    → is_enabled y s ≡ true
    → is_enabled y (recover f writes z s) ≡ true
unfolding set_enabled update is_enabled
recover-keeps_enabled f writes y z s on = elim (Bool-cases (z == y)) [
  | inl same ↦ let e = (==_iff z y).0 same in rw (e) (recover-enables f writes y s)
  | inr different ↦
      let other : y ≢ z = ground arith in
      if_keeps (λ (t : Breaker). is_enabled y t ≡ true) writes
        (is_enabled-set_enabled_other f y z true circuit_breaker s other ∙ on)
        (is_enabled-set_enabled_other f y z true circuit_breaker s other ∙ on)
]

sweep_entries-keeps_enabled :
    (f : ℕ → Option ℕ) (writes : ℕ → Bool) (now y : ℕ) (entries : List (ℕ × Halt)) (s : Breaker)
    → is_enabled y s ≡ true
    → is_enabled y (sweep_entries f writes now entries s) ≡ true
unfolding sweep_entries
sweep_entries-keeps_enabled f writes now y [] s on = on
sweep_entries-keeps_enabled f writes now y ((z, h) ∷ rest) s on =
    sweep_entries-keeps_enabled f writes now y rest _ (
      if_keeps (λ (t : Breaker). is_enabled y t ≡ true) (ltb now (h.halted_at + cooldown_ms)) on
        (recover-keeps_enabled f (writes z) y z s on))

-- A sweep enables every symbol whose cooldown has passed.
pub sweep_entries-enables :
    (f : ℕ → Option ℕ) (writes : ℕ → Bool) (now y : ℕ) (h : Halt) (entries : List (ℕ × Halt))
    (s : Breaker)
    → lookup y entries ≡ some h
    → h.halted_at + cooldown_ms ≤ now
    → is_enabled y (sweep_entries f writes now entries s) ≡ true
unfolding sweep_entries lookup
sweep_entries-enables f writes now y h [] s found over = cc
sweep_entries-enables f writes now y h ((z, g) ∷ rest) s found over = elim (Bool-cases (z == y)) [
  | inl same ↦
      let e = (==_iff z y).0 same in
      let owned : g ≡ h = ground arith in
      let due : ltb now (g.halted_at + cooldown_ms) ≡ false = ground arith in
      sweep_entries-keeps_enabled f writes now y rest _
        (rw (due, e) (recover-enables f (writes y) y s))
  | inr different ↦ sweep_entries-enables f writes now y h rest _ (ground arith) over
]

-- Whatever an administrator sets for a symbol that the breaker has halted, also that it stays
-- disabled, the first recovery sweep after the cooldown enables the symbol, whether the database
-- answers or not.
sweep_overrides_admin :
    (f : ℕ → Option ℕ) (writes : ℕ → Bool) (now y spread a : ℕ) (choice : Bool) (h : Halt)
    (s : Breaker)
    → lookup y s.halted_by_breaker ≡ some h
    → h.halted_at + cooldown_ms ≤ now
    → is_enabled y (run_recovery_sweep f writes now (update y spread choice (admin a) s)) ≡ true
unfolding run_recovery_sweep update
sweep_overrides_admin f writes now y spread a choice h s owned over =
    sweep_entries-enables f writes now y h s.halted_by_breaker _ owned over

-- What a move beyond the threshold does to an enabled symbol that the breaker does not own.
on_move-trips :
    (f : ℕ → Option ℕ) (writes : Bool) (y : ℕ) (h : Halt) (s : Breaker)
    → is_enabled y s ≡ true
    → lookup y s.halted_by_breaker ≡ none
    → on_move f writes y h s ≡ trip f writes y h s
unfolding on_move
on_move-trips f writes y h s on free = rw (free, on) refl

failed_trip-IsAdminHalted :
    (f : ℕ → Option ℕ) (y : ℕ) (h : Halt) (s : Breaker)
    → lookup y s.halted_by_breaker ≡ none
    → IsAdminHalted y (trip f false y h s)
unfolding trip set_enabled update is_enabled
failed_trip-IsAdminHalted f y h s free = record {
  disabled = is_enabled-set_enabled f y false circuit_breaker s;
  unowned = free;
}

-- When the database does not answer while the breaker halts an enabled symbol that it does not
-- own, the symbol is disabled and stays so, whatever ticks, reopenings and recovery sweeps follow.
failed_trip_stays :
    (f : ℕ → Option ℕ) (y : ℕ) (h : Halt) (steps : List Automatic) (s : Breaker)
    → is_enabled y s ≡ true
    → lookup y s.halted_by_breaker ≡ none
    → is_enabled y (run_automatic f steps (on_move f false y h s)) ≡ false
failed_trip_stays f y h steps s on free =
    rw (on_move-trips f false y h s on free)
      (run_automatic-IsAdminHalted f y steps (trip f false y h s)
        (failed_trip-IsAdminHalted f y h s free)).disabled
