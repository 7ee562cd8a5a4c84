-- ===== src/Settlement/Rounding.antt =====
-- Rounding of the product of a price and a quantity, in units of 1e-16, to an amount in units of 1e-8:
-- `toFixed(8)`, and what the database's `Decimal(18, 8)` columns do. Halves go away from zero.
use apiv.Base.{ℕ, ◌+◌, ◌*◌, ◌/◌, ◌≡◌, arith}
use apiv.Base.Int.{ℤ, pos, negsuc, ◌*ℤ◌, neg, ◌-ℤ◌}
use apiv.Ledger.Balance.{scale}

abbrev pub scale_ℕ : ℕ
scale_ℕ = 100000000

abbrev pub nearest : ℕ → ℕ
nearest n = (n + 50000000) / scale_ℕ

unfoldable pub to_fixed : ℤ → ℤ
to_fixed (pos n) = pos (nearest n)
to_fixed (negsuc n) = neg (pos (nearest (n + 1)))

times_scale : (n : ℕ) → pos n *ℤ scale ≡ pos (n * scale_ℕ)
unfolding ◌*ℤ◌
times_scale n = ground arith

times_scale_negsuc : (n : ℕ) → negsuc n *ℤ scale ≡ negsuc (n * scale_ℕ + 99999999)
unfolding ◌*ℤ◌
times_scale_negsuc n = ground arith

-- A whole amount stays as it is.
pub to_fixed-scale : (x : ℤ) → to_fixed (x *ℤ scale) ≡ x
unfolding to_fixed ◌-ℤ◌
to_fixed-scale (pos n) = rw (times_scale n) (ground arith)
to_fixed-scale (negsuc n) = rw (times_scale_negsuc n) (ground arith)
