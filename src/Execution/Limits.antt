-- ===== src/Execution/Limits.antt =====
-- risk-service/client.exposure.limits.ts and risk-service/concentration.guard.ts: `checkAtomic` of
-- each, on the open positions of the client, valued by `liveNotional` of
-- market-data/position.valuation.ts. The index of concentration is compared exactly, where the
-- source rounds it to a hundredth of a percent.
use apiv.Base.{
  ℕ, suc, ◌*◌, Option, List, [], ◌∷◌, Bool, true, not, ◌&&◌, ◌||◌, ◌==◌, ltb, if◌then◌else◌,
  or_else, length, keep,
}
use apiv.Base.Int.{ℤ, pos, ◌+ℤ◌, ◌*ℤ◌, leb_ℤ, ltb_ℤ}
use apiv.Store.{Position}
use apiv.Settlement.Engine.{is_open}
use apiv.Settlement.Commission.{Tier, standard, gold, platinum, vip, enterprise}

-- The middle prices of the quotes that are live.
abbrev pub Mids : Type 0
Mids = ℕ → Option ℤ

unfoldable pub live_notional : Mids → Position → ℤ
live_notional mids p = p.quantity *ℤ or_else (mids p.symbol) p.entry_price

abbrev pub opens : ℕ → List Position → List Position
opens u = keep (λ p. (p.user == u) && is_open p.status)

unfoldable pub sum_live : Mids → List Position → ℤ
sum_live mids [] = pos 0
sum_live mids (p ∷ ps) = live_notional mids p +ℤ sum_live mids ps

abbrev pub max_open_positions : Tier → ℕ
max_open_positions standard = 15
max_open_positions gold = 25
max_open_positions platinum = 40
max_open_positions vip = 60
max_open_positions enterprise = 100

abbrev max_notional_usd : Tier → ℕ
max_notional_usd standard = 250_000
max_notional_usd gold = 750_000
max_notional_usd platinum = 2_000_000
max_notional_usd vip = 5_000_000
max_notional_usd enterprise = 20_000_000

abbrev pub max_notional : Tier → ℤ
max_notional t = pos (max_notional_usd t * 10_000_000_000_000_000)

unfoldable pub check_client : Mids → Tier → ℕ → ℤ → List Position → Bool
check_client mids tier u incoming ps =
    not (ltb (max_open_positions tier) (suc (length (opens u ps))))
    && not (ltb_ℤ (max_notional tier) (sum_live mids (opens u ps) +ℤ incoming))

-- The map `bySymbol`.
abbrev Weights : Type 0
Weights = List (ℕ × ℤ)

unfoldable pub add_weight : ℕ → ℤ → Weights → Weights
add_weight k n [] = (k, n) ∷ []
add_weight k n ((j, m) ∷ ws) = if j == k then (j, m +ℤ n) ∷ ws else (j, m) ∷ add_weight k n ws

unfoldable pub weights : Mids → List Position → Weights → Weights
unfolding add_weight
weights mids [] ws = ws
weights mids (p ∷ ps) ws = weights mids ps (add_weight p.symbol (live_notional mids p) ws)

unfoldable pub total : Weights → ℤ
total [] = pos 0
total ((k, n) ∷ ws) = n +ℤ total ws

unfoldable pub total_squares : Weights → ℤ
total_squares [] = pos 0
total_squares ((k, n) ∷ ws) = n *ℤ n +ℤ total_squares ws

-- `Math.round(hhi * 10000) / 100 > 40`, where `hhi` is the sum of the squares of the shares.
unfoldable pub is_concentrated : Weights → Bool
is_concentrated ws = leb_ℤ (pos 8001 *ℤ (total ws *ℤ total ws)) (pos 20000 *ℤ total_squares ws)

unfoldable pub check_concentration : Mids → ℕ → ℕ → ℤ → List Position → Bool
unfolding weights add_weight total is_concentrated
check_concentration mids u symbol incoming ps =
    let ws = add_weight symbol incoming (weights mids (opens u ps) []) in
    if ltb (suc (length (opens u ps))) 3
    then true
    else leb_ℤ (total ws) (pos 0) || not (is_concentrated ws)
