-- ===== src/Settlement/Commission.antt =====
-- trading-service/commission.calculator.ts. The rate is in units of 1e-4 basis points; a symbol stands
-- for its asset class.
use apiv.Base.{ℕ, ◌+◌, ◌*◌, ◌/◌, ◌^◌, ◌≤◌, arith, ltb, if◌then◌else◌}
use apiv.Risk.Breaker.{AssetClass, fx_major, fx_minor, index, commodity, crypto, equity, unlisted}

pub data Tier : Type 0 where
  standard gold platinum vip enterprise : Tier

abbrev pub base_bps : AssetClass → ℕ
base_bps fx_major = 50
base_bps fx_minor = 80
base_bps index = 100
base_bps commodity = 120
base_bps equity = 200
base_bps crypto = 250
base_bps unlisted = 100

abbrev pub tier_factor : Tier → ℕ
tier_factor standard = 100
tier_factor gold = 85
tier_factor platinum = 70
tier_factor vip = 50
tier_factor enterprise = 30

unfoldable pub effective_bps : AssetClass → Tier → ℕ
effective_bps class tier = base_bps class * tier_factor tier

-- A notional in units of 1e-16 times the rate is in units of 1e-24; it is rounded to cents.
unfoldable pub cents : ℕ → ℕ → ℕ
cents notional rate = (notional * rate + 5 * 10 ^ 21) / 10 ^ 22

abbrev at_least_one : ℕ → ℕ
at_least_one n = if ltb n 1 then 1 else n

-- In units of 1e-8, for a quantity and a price that are not negative.
unfoldable pub compute : AssetClass → Tier → ℕ → ℕ → ℕ
compute class tier quantity exit_price =
    at_least_one (cents (quantity * exit_price) (effective_bps class tier)) * 1000000

pub compute_minimum :
    (class : AssetClass) (tier : Tier) (quantity exit_price : ℕ)
    → 1000000 ≤ compute class tier quantity exit_price
unfolding compute
compute_minimum class tier quantity exit_price = ground arith
