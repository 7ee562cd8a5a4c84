-- ===== src/Execution/Registry.antt =====
-- risk-service/exposure.limits.ts: the registry of a process beside the open positions, when it is
-- loaded and when a position is closed.
use apiv.Base.{
  ℕ, ◌≡◌, refl, inl, inr, none, true, false, ap, List, [], ◌∷◌, sym, ◌∙◌, arith, if◌then◌else◌,
  or_else, Option-cases, Bool-cases, ◌==◌,
}
use apiv.Base.Int.{ℤ, pos, ◌+ℤ◌, ◌-ℤ◌, ◌*ℤ◌, ◌≤ℤ◌, ◌<ℤ◌, int_laws, max_ℤ, -ℤ_parts, +ℤ_parts}
use apiv.Store.{Position, Side, buy, sell, open_position, PositionStatus}
use apiv.Settlement.Engine.{is_open, close_position}
use apiv.Execution.Rows.{Exposure}
use apiv.Execution.Exposure.{
  Registry, no_exposure, add_side, exposure_of, notional_of, open_position_at, close_position_at,
  load, check_can_open, check_can_open_atomic,
}

-- The registry holds what the open positions add up to.
abbrev pub Mirrors : Registry → List Position → Type 0
Mirrors r ps = (k : ℕ) → or_else (r k) no_exposure ≡ exposure_of k ps

abbrev plus : Exposure → Exposure → Exposure
plus x y = record { long = x.long +ℤ y.long; short = x.short +ℤ y.short }

assoc : (a b c : ℤ) → a +ℤ b +ℤ c ≡ a +ℤ (c +ℤ b)
assoc a b c = omega int_laws

plus-add_side :
    (s : Side) (n : ℤ) (x y : Exposure) → plus (add_side s n x) y ≡ plus x (add_side s n y)
plus-add_side buy n x y = rw (assoc x.long n y.long) refl
plus-add_side sell n x y = rw (assoc x.short n y.short) refl

zero_plus : (x : Exposure) → plus no_exposure x ≡ x
zero_plus x = rw (zero_left x.long, zero_left x.short) refl
  where
    zero_left : (a : ℤ) → pos 0 +ℤ a ≡ a
    zero_left a = omega int_laws

plus_zero : (x : Exposure) → plus x no_exposure ≡ x
plus_zero x = rw (zero_right x.long, zero_right x.short) refl
  where
    zero_right : (a : ℤ) → a +ℤ pos 0 ≡ a
    zero_right a = omega int_laws

abbrev step : Position → Registry → Registry
step p r = if is_open p.status then open_position_at p.symbol p.side (notional_of p) r else r

pub exposure_hit :
    (k : ℕ) (p : Position) (ps : List Position)
    → is_open p.status ≡ true
    → (p.symbol == k) ≡ true
    → exposure_of k (p ∷ ps) ≡ add_side p.side (notional_of p) (exposure_of k ps)
unfolding exposure_of
exposure_hit k p ps o t = rw (t, o) refl

pub exposure_other :
    (k : ℕ) (p : Position) (ps : List Position)
    → (p.symbol == k) ≡ false
    → exposure_of k (p ∷ ps) ≡ exposure_of k ps
unfolding exposure_of
exposure_other k p ps t = rw t refl

exposure_closed :
    (k : ℕ) (p : Position) (ps : List Position)
    → is_open p.status ≡ false
    → exposure_of k (p ∷ ps) ≡ exposure_of k ps
unfolding exposure_of
exposure_closed k p ps o = ground arith

pub open_position_at_hit :
    (k : ℕ) (p : Position) (r : Registry)
    → (p.symbol == k) ≡ true
    → or_else (open_position_at p.symbol p.side (notional_of p) r k) no_exposure
      ≡ add_side p.side (notional_of p) (or_else (r k) no_exposure)
unfolding open_position_at
open_position_at_hit k p r t = ground arith

pub open_position_at_other :
    (k : ℕ) (p : Position) (r : Registry)
    → (p.symbol == k) ≡ false
    → open_position_at p.symbol p.side (notional_of p) r k ≡ r k
unfolding open_position_at
open_position_at_other k p r t = ground arith

step_open :
    (p : Position) (r : Registry)
    → is_open p.status ≡ true
    → step p r ≡ open_position_at p.symbol p.side (notional_of p) r
step_open p r o = rw o refl

step_closed : (p : Position) (r : Registry) → is_open p.status ≡ false → step p r ≡ r
step_closed p r o = rw o refl

plus-step :
    (k : ℕ) (p : Position) (ps : List Position) (r : Registry)
    → plus (or_else (step p r k) no_exposure) (exposure_of k ps)
      ≡ plus (or_else (r k) no_exposure) (exposure_of k (p ∷ ps))
plus-step k p ps r = elim (Bool-cases (is_open p.status)) [
  | inr o ↦ rw (step_closed p r o, exposure_closed k p ps o) refl
  | inl o ↦ elim (Bool-cases (p.symbol == k)) [
    | inl t ↦
        rw (step_open p r o, open_position_at_hit k p r t, exposure_hit k p ps o t)
          (plus-add_side p.side (notional_of p) (or_else (r k) no_exposure) (exposure_of k ps))
    | inr t ↦ rw (step_open p r o, open_position_at_other k p r t, exposure_other k p ps t) refl
  ]
]

load-plus :
    (k : ℕ) (ps : List Position) (r : Registry)
    → or_else (load ps r k) no_exposure ≡ plus (or_else (r k) no_exposure) (exposure_of k ps)
unfolding load exposure_of
load-plus k [] r = sym (plus_zero (or_else (r k) no_exposure))
load-plus k (p ∷ ps) r = load-plus k ps (step p r) ∙ plus-step k p ps r

pub load-Mirrors : (ps : List Position) → Mirrors (load ps (λ k. none)) ps
load-Mirrors ps k = load-plus k ps (λ k. none) ∙ zero_plus (exposure_of k ps)

-- Where the registry mirrors the open positions, the check before a trade on the registry and the
-- authoritative check in the transaction agree, on every instrument, side and notional.
pub Mirrors-agree :
    (r : Registry) (ps : List Position)
    → Mirrors r ps
    → (k : ℕ) (s : Side) (n : ℤ) → check_can_open k s n r ≡ check_can_open_atomic k s n ps
unfolding check_can_open check_can_open_atomic
Mirrors-agree r ps m k s n = rw (m k) refl

same_symbol : (k : ℕ) → (k == k) ≡ true
same_symbol k = ground arith

exposure_after :
    (p : Position) (ps : List Position) (st : PositionStatus)
    → is_open st ≡ false
    → exposure_of p.symbol (close_position p.id st (p ∷ ps)) ≡ exposure_of p.symbol ps
unfolding close_position
exposure_after p ps st c =
    rw (same_symbol p.id)
      (exposure_closed p.symbol (record p { status = st; is_closed = true }) ps c)

-- What is taken from a long exposure that is positive.
take_buy :
    (k : ℕ) (q : ℤ) (r : Registry) (x : Exposure)
    → or_else (r k) no_exposure ≡ x
    → pos 0 <ℤ x.long
    → (or_else (close_position_at k buy q r k) no_exposure).long ≡ max_ℤ (pos 0) (x.long -ℤ q)
unfolding close_position_at
take_buy k q r x e h = elim (Option-cases (r k)) [
  | inl t ↦
      let e' : no_exposure ≡ x = rw t at e in
      absurd (nothing x.long (ap (λ (y : Exposure). y.long) e') h)
  | inr (y, t) ↦ let e' : y ≡ x = rw t at e in ground arith
]
  where
    nothing : (a : ℤ) → pos 0 ≡ a → pos 0 <ℤ a → ⊥
    nothing a e h = ground arith

left_over :
    (l n q : ℤ) → pos 0 ≤ℤ l → pos 0 ≤ℤ q → q <ℤ n → max_ℤ (pos 0) (l +ℤ n -ℤ q) ≡ l +ℤ (n -ℤ q)
left_over l n q base h k =
    let same : l +ℤ n -ℤ q ≡ l +ℤ (n -ℤ q) = omega int_laws in
    rw same (larger (l +ℤ (n -ℤ q)) (omega (int_laws, -ℤ_parts n q, +ℤ_parts l (n -ℤ q))))
  where
    larger : (a : ℤ) → pos 0 ≤ℤ a → max_ℤ (pos 0) a ≡ a
    larger a h = ground arith

-- A long position that is closed, at a price below its entry, while the registry mirrors the open
-- positions, leaves the registry above what is open by the difference of the two notionals.
pub close_position_at-drifts :
    (r : Registry) (p : Position) (ps : List Position) (exit : ℤ) (st : PositionStatus)
    → Mirrors r (p ∷ ps)
    → p.status ≡ open_position
    → p.side ≡ buy
    → is_open st ≡ false
    → pos 0 ≤ℤ (exposure_of p.symbol ps).long
    → pos 0 ≤ℤ p.quantity *ℤ exit
    → p.quantity *ℤ exit <ℤ notional_of p
    → let r' = close_position_at p.symbol p.side (p.quantity *ℤ exit) r in
      (or_else (r' p.symbol) no_exposure).long
      ≡ (exposure_of p.symbol (close_position p.id st (p ∷ ps))).long
        +ℤ (notional_of p -ℤ p.quantity *ℤ exit)
close_position_at-drifts r p ps exit st m o s c base h k =
    let x = exposure_of p.symbol ps in
    let n = notional_of p in
    let q = p.quantity *ℤ exit in
    let held : or_else (r p.symbol) no_exposure ≡ add_side buy n x =
      m p.symbol ∙ exposure_hit p.symbol p ps (rw o refl) (same_symbol p.symbol) ∙ rw s refl in
    rw (exposure_after p ps st c, s)
      (take_buy p.symbol q r (add_side buy n x) held (omega (int_laws, +ℤ_parts x.long n))
        ∙ left_over x.long n q base h k)
