-- ===== src/Risk/Standing.antt =====
-- risk-service/symbol.circuit.breaker.ts: a halt of the breaker's own stands until its cooldown ends.
use apiv.Base.{
  ℕ, ◌+◌, ◌≤◌, ◌<◌, ◌≡◌, ◌≢◌, refl, none, some, List, [], ◌∷◌, Bool, true, false, arith, Bool-cases,
  ltb, ◌==◌, ◌∙◌, inl, inr, ==_iff, if_keeps, Option,
}
use apiv.Base.Int.{ℤ, pos, leb_ℤ}
use apiv.Risk.Maps.{lookup, assign, erase, lookup-assign, lookup-assign_other}
use apiv.Risk.Breaker.{
  Breaker, Halt, circuit_breaker, AssetClass, TickRecord, own, on_window, beyond, halt_threshold,
  gap_halt_threshold, recover, cooldown_ms, is_enabled, is_halted_by_breaker, update, set_enabled,
  trip, on_move, trimmed, record_tick, record_reopen, sweep_entries,
}
use apiv.Risk.Recovery.{is_enabled-set_enabled_other}

lookup-erase_other : (j k : ℕ) (m : List (ℕ × Halt)) → j ≢ k → lookup j (erase k m) ≡ lookup j m
unfolding lookup erase
lookup-erase_other j k [] other = refl
lookup-erase_other j k ((i, a) ∷ m) other = ground (arith, lookup-erase_other j k m other)

-- The halts of symbol `y` are from the times `a` to `b`.
module _ (y a b : ℕ) where
  abbrev IsTimely : Halt → Type 0
  IsTimely h = (a ≤ h.halted_at) × (h.halted_at ≤ b)

  abbrev AllTimely : List (ℕ × Halt) → Type 0
  AllTimely [] = Unit {0}
  AllTimely ((z, h) ∷ m) = (z ≡ y → IsTimely h) × AllTimely m

  pub AllTimely-none : (m : List (ℕ × Halt)) → lookup y m ≡ none → AllTimely m
  unfolding lookup
  AllTimely-none [] gone = tt
  AllTimely-none ((z, h) ∷ m) gone =
      (λ e. absurd (ground (arith, e)), AllTimely-none m (ground arith))

  pub AllTimely-lookup :
      (h : Halt) (m : List (ℕ × Halt)) → lookup y m ≡ some h → AllTimely m → IsTimely h
  unfolding lookup
  AllTimely-lookup h [] found timely = absurd (ground arith)
  AllTimely-lookup h ((z, g) ∷ m) found timely = elim (Bool-cases (z == y)) [
    | inl same ↦ let e : h ≡ g = ground arith in rw e (timely.0 ((==_iff z y).0 same))
    | inr other ↦ AllTimely-lookup h m (ground arith) timely.1
  ]

  pub AllTimely-assign :
      (z : ℕ) (h : Halt) (m : List (ℕ × Halt)) → IsTimely h → AllTimely m → AllTimely (assign z h m)
  unfolding assign
  AllTimely-assign z h [] timely all = (λ e. timely, tt)
  AllTimely-assign z h ((x, g) ∷ m) timely all = elim (Bool-cases (x == z)) [
    | inl same ↦ rw same (λ e. timely, all.1)
    | inr other ↦ rw other (all.0, AllTimely-assign z h m timely all.1)
  ]

  AllTimely-erase : (z : ℕ) (m : List (ℕ × Halt)) → AllTimely m → AllTimely (erase z m)
  unfolding erase
  AllTimely-erase z [] all = tt
  AllTimely-erase z ((x, g) ∷ m) all = elim (Bool-cases (x == z)) [
    | inl same ↦ rw same (AllTimely-erase z m all.1)
    | inr other ↦ rw other (all.0, AllTimely-erase z m all.1)
  ]

  -- The symbol is disabled by the breaker's own halt.
  pub record IsHalted (s : Breaker) : Type 0 where
    pub disabled : is_enabled y s ≡ false
    pub owned : (h : Halt) × (lookup y s.halted_by_breaker ≡ some h)
    pub timely : AllTimely s.halted_by_breaker

  module _ (f : ℕ → Option ℕ) where
    own-IsHalted : (z : ℕ) (h : Halt) (s : Breaker) → IsTimely h → IsHalted s → IsHalted (own z h s)
    unfolding is_enabled
    own-IsHalted z h s when halted = record {
      disabled = halted.disabled;
      owned = elim (Bool-cases (z == y)) [
        | inl same ↦
            let e = (==_iff z y).0 same in (h, rw e (lookup-assign y h s.halted_by_breaker))
        | inr other ↦ (
          halted.owned.0,
          lookup-assign_other y z h s.halted_by_breaker (λ e. ground arith) ∙ halted.owned.1,
        )
      ];
      timely = AllTimely-assign z h s.halted_by_breaker when halted.timely;
    }

    trip-IsHalted :
        (writes : Bool) (z : ℕ) (h : Halt) (s : Breaker)
        → y ≢ z
        → IsTimely h
        → IsHalted s
        → IsHalted (trip f writes z h s)
    unfolding trip set_enabled update is_enabled
    trip-IsHalted true z h s other when halted = record {
      disabled = is_enabled-set_enabled_other f y z false circuit_breaker s other ∙ halted.disabled;
      owned =
          (halted.owned.0, lookup-assign_other y z h s.halted_by_breaker other ∙ halted.owned.1);
      timely = AllTimely-assign z h s.halted_by_breaker when halted.timely;
    }
    trip-IsHalted false z h s other when halted = record {
      disabled = is_enabled-set_enabled_other f y z false circuit_breaker s other ∙ halted.disabled;
      owned = halted.owned;
      timely = halted.timely;
    }

    on_move-IsHalted :
        (writes : Bool) (z : ℕ) (h : Halt) (s : Breaker)
        → IsTimely h
        → IsHalted s
        → IsHalted (on_move f writes z h s)
    unfolding on_move
    on_move-IsHalted writes z h s when halted = elim (Bool-cases (z == y)) [
      | inl same ↦
          let e = (==_iff z y).0 same in
          let (g, found) = halted.owned in rw (e, found) (own-IsHalted y h s when halted)
      | inr other ↦ if_keeps IsHalted (is_halted_by_breaker z s) (own-IsHalted z h s when halted) (
          if_keeps IsHalted (is_enabled z s)
            (trip-IsHalted writes z h s (λ e. ground arith) when halted) halted)
    ]

    on_window-IsHalted :
        (writes : Bool) (now z : ℕ) (price : ℤ) (class : AssetClass) (window : List TickRecord)
        (s : Breaker)
        → a ≤ now
        → now ≤ b
        → IsHalted s
        → IsHalted (on_window f writes now z price class window s)
    on_window-IsHalted writes now z price class [] s low high halted = halted
    on_window-IsHalted writes now z price class (t ∷ []) s low high halted = halted
    on_window-IsHalted writes now z price class (t ∷ u ∷ rest) s low high halted =
        if_keeps IsHalted (beyond (halt_threshold class) t.price price)
          (on_move-IsHalted writes z _ s (low, high) halted) halted

    with_ticks-IsHalted :
        (ticks : List (ℕ × List TickRecord)) (s : Breaker)
        → IsHalted s
        → IsHalted (record s { recent_ticks = ticks })
    unfolding is_enabled
    with_ticks-IsHalted ticks s halted = record {
      disabled = halted.disabled;
      owned = halted.owned;
      timely = halted.timely;
    }

    pub record_tick-IsHalted :
        (writes : Bool) (now z : ℕ) (price : ℤ) (class : AssetClass) (s : Breaker)
        → a ≤ now
        → now ≤ b
        → IsHalted s
        → IsHalted (record_tick f writes now z price class s)
    unfolding record_tick
    record_tick-IsHalted writes now z price class s low high halted =
        if_keeps IsHalted (leb_ℤ price (pos 0)) halted (
          on_window-IsHalted writes now z price class (trimmed now z price s) _ low high
            (with_ticks-IsHalted _ s halted))

    pub record_reopen-IsHalted :
        (writes : Bool) (now z : ℕ) (previous price : ℤ) (class : AssetClass) (s : Breaker)
        → a ≤ now
        → now ≤ b
        → IsHalted s
        → IsHalted (record_reopen f writes now z previous price class s)
    unfolding record_reopen
    record_reopen-IsHalted writes now z previous price class s low high halted =
        if_keeps IsHalted (leb_ℤ previous (pos 0)) halted (
          if_keeps IsHalted (leb_ℤ price (pos 0)) halted (
            if_keeps IsHalted (beyond (gap_halt_threshold class) previous price)
              (on_move-IsHalted writes z _ s (low, high) halted) halted))

    recover-IsHalted :
        (writes : Bool) (z : ℕ) (s : Breaker) → y ≢ z → IsHalted s → IsHalted (recover f writes z s)
    unfolding set_enabled update is_enabled
    recover-IsHalted true z s other halted = record {
      disabled = is_enabled-set_enabled_other f y z true circuit_breaker s other ∙ halted.disabled;
      owned = (halted.owned.0, lookup-erase_other y z s.halted_by_breaker other ∙ halted.owned.1);
      timely = AllTimely-erase z s.halted_by_breaker halted.timely;
    }
    recover-IsHalted false z s other halted = record {
      disabled = is_enabled-set_enabled_other f y z true circuit_breaker s other ∙ halted.disabled;
      owned = halted.owned;
      timely = halted.timely;
    }

    -- A sweep before the end of the cooldown.
    pub sweep_entries-IsHalted :
        (writes : ℕ → Bool) (now : ℕ) (entries : List (ℕ × Halt)) (s : Breaker)
        → now < a + cooldown_ms
        → AllTimely entries
        → IsHalted s
        → IsHalted (sweep_entries f writes now entries s)
    unfolding sweep_entries
    sweep_entries-IsHalted writes now [] s early timely halted = halted
    sweep_entries-IsHalted writes now ((z, h) ∷ rest) s early timely halted =
        sweep_entries-IsHalted writes now rest _ early timely.1 (elim (Bool-cases (z == y)) [
          | inl same ↦
              let (low, high) = timely.0 ((==_iff z y).0 same) in
              let waits : ltb now (h.halted_at + cooldown_ms) ≡ true = ground arith in
              rw waits halted
          | inr other ↦
              if_keeps IsHalted (ltb now (h.halted_at + cooldown_ms)) halted
                (recover-IsHalted (writes z) z s (λ e. ground arith) halted)
        ])
