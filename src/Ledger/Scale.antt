-- ===== src/Ledger/Scale.antt =====
-- Amounts in units of 1e-8 beside amounts in units of 1e-16.
use apiv.Base.{◌+◌, ◌*◌, ◌≡◌, arith}
use apiv.Base.Int.{
  ℤ, pos, ◌+ℤ◌, ◌-ℤ◌, ◌*ℤ◌, ◌≤ℤ◌, pos_part, neg_part, -ℤ_parts, +ℤ_parts, eq_of_parts,
}
use apiv.Ledger.Balance.{scale}

pub scale_parts :
    (x : ℤ)
    → pos_part (x *ℤ scale) + neg_part x * 100000000
      ≡ neg_part (x *ℤ scale) + pos_part x * 100000000
unfolding ◌*ℤ◌
scale_parts x = ground arith

pub minus_scale : (x f : ℤ) → x *ℤ scale -ℤ f *ℤ scale ≡ (x -ℤ f) *ℤ scale
minus_scale x f =
    let low = -ℤ_parts x f in
    let high = -ℤ_parts (x *ℤ scale) (f *ℤ scale) in
    eq_of_parts (x *ℤ scale -ℤ f *ℤ scale) ((x -ℤ f) *ℤ scale)
      (omega (arith, scale_parts x, scale_parts f, scale_parts (x -ℤ f)))

pub plus_scale : (x y : ℤ) → (x +ℤ y) *ℤ scale ≡ x *ℤ scale +ℤ y *ℤ scale
plus_scale x y =
    let low = +ℤ_parts x y in
    let high = +ℤ_parts (x *ℤ scale) (y *ℤ scale) in
    eq_of_parts ((x +ℤ y) *ℤ scale) (x *ℤ scale +ℤ y *ℤ scale)
      (omega (arith, scale_parts x, scale_parts y, scale_parts (x +ℤ y)))

pub scale_mono : (x y : ℤ) → x ≤ℤ y → x *ℤ scale ≤ℤ y *ℤ scale
scale_mono x y h = omega (arith, scale_parts x, scale_parts y)

pub scale_nonneg : (x : ℤ) → pos 0 ≤ℤ x → pos 0 ≤ℤ x *ℤ scale
scale_nonneg x h = omega (arith, scale_parts x)
