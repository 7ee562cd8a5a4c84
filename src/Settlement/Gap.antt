-- ===== src/Settlement/Gap.antt =====
-- When a settlement's rows add up to what the balance moves by.
use apiv.Base.{◌≡◌, ◌∙◌, arith}
use apiv.Base.Int.{ℤ, pos, ◌-ℤ◌, ◌*ℤ◌, ◌≤ℤ◌, neg, abs, int_laws, -ℤ_parts}
use apiv.Ledger.Balance.{scale}
use apiv.Ledger.Scale.{minus_scale}
use apiv.Ledger.Close.{settle_close, apply_nbp, net_credit, max_ℤ-left, max_ℤ-right, less_fees}
use apiv.Settlement.Rounding.{to_fixed, to_fixed-scale}
use apiv.Settlement.Engine.{SettleInput, amounts, close_of, fee_of}
use apiv.Settlement.Books.{gap}

-- The least that a settlement may take, in units of 1e-16.
abbrev pub floor : SettleInput → ℤ
floor i = neg (abs (i.margin_used *ℤ scale))

abbrev pub raw_of : SettleInput → ℤ
raw_of i = (settle_close (close_of i)).raw_pnl

fee_nonneg : (i : SettleInput) → pos 0 ≤ℤ fee_of i *ℤ scale
unfolding ◌*ℤ◌
fee_nonneg i = ground arith

minus_zero : (x : ℤ) → x -ℤ pos 0 ≡ x
minus_zero x = omega int_laws

module _ (i : SettleInput) where
  capped_at_floor : raw_of i ≤ℤ floor i → (settle_close (close_of i)).capped_pnl ≡ floor i
  unfolding settle_close apply_nbp close_of
  capped_at_floor low = max_ℤ-right (raw_of i) (floor i) low

  net_at_floor : raw_of i ≤ℤ floor i → (settle_close (close_of i)).net ≡ floor i
  unfolding settle_close net_credit close_of
  net_at_floor low = rw (capped_at_floor low) (
      max_ℤ-right (floor i -ℤ fee_of i *ℤ scale -ℤ pos 0) (floor i)
        (less_fees (floor i) (fee_of i *ℤ scale) (pos 0) (fee_nonneg i) (omega arith)))

keep_fee : (x f : ℤ) → x -ℤ (x -ℤ f) ≡ f
keep_fee x f = omega (int_laws, -ℤ_parts x f, -ℤ_parts x (x -ℤ f))

-- A loss of the whole margin or more: the balance moves by the margin, but the rows by the margin and
-- the commission, so the books are off by the commission.
pub gap_at_floor : (i : SettleInput) → raw_of i ≤ℤ floor i → gap (amounts i) ≡ fee_of i
unfolding amounts
gap_at_floor i low =
    rw (net_at_floor i low, capped_at_floor i low) (keep_fee (to_fixed (floor i)) (fee_of i))

self_minus : (x : ℤ) → x -ℤ x ≡ pos 0
self_minus x = omega int_laws

module _ (i : SettleInput) (x : ℤ) (whole : raw_of i ≡ x *ℤ scale)
    (covered : floor i ≤ℤ raw_of i -ℤ fee_of i *ℤ scale) where
  covered_raw : floor i ≤ℤ raw_of i
  covered_raw =
      let fee = fee_nonneg i in let parts = -ℤ_parts (raw_of i) (fee_of i *ℤ scale) in omega arith

  capped_within : (settle_close (close_of i)).capped_pnl ≡ x *ℤ scale
  unfolding settle_close apply_nbp close_of
  capped_within = max_ℤ-left (raw_of i) (floor i) covered_raw ∙ whole

  net_within : (settle_close (close_of i)).net ≡ (x -ℤ fee_of i) *ℤ scale
  unfolding settle_close net_credit close_of
  net_within =
      rw (capped_within, minus_zero (x *ℤ scale -ℤ fee_of i *ℤ scale), minus_scale x (fee_of i))
        (max_ℤ-left ((x -ℤ fee_of i) *ℤ scale) (floor i)
          (rw (← minus_scale x (fee_of i), ← whole) covered))

  -- A profit or a loss, the commission included, that the margin covers and that is a whole amount:
  -- the rows add up to exactly what the balance moves by.
  pub gap_within : gap (amounts i) ≡ pos 0
  unfolding amounts
  gap_within =
      rw (net_within, capped_within, to_fixed-scale (x -ℤ fee_of i), to_fixed-scale x)
        (self_minus (x -ℤ fee_of i))
