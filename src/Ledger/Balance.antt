-- ===== src/Ledger/Balance.antt =====
-- wallet-service/balance.calculator.ts: equity and free margin at the live quotes, with `unrealized`
-- of trading-service/pnl.calculator.ts. A product of a price and a quantity is in units of 1e-16, so
-- amounts are scaled up to it; the arithmetic is exact where the source's is in doubles.
use apiv.Base.{ℕ, Option, none, some, List, [], ◌∷◌, ◌&&◌, not, ◌==◌, if◌then◌else◌}
use apiv.Base.Int.{ℤ, pos, ◌+ℤ◌, ◌-ℤ◌, ◌*ℤ◌, max_ℤ}
use apiv.Store.{Side, buy, sell, Position, Quote, Wallet, Store}
use apiv.Store.Tables.{find_wallet}

abbrev pub scale : ℤ
scale = pos 100000000

-- A long position is marked at the bid and a short one at the ask.
unfoldable pub unrealized : Side → ℤ → ℤ → Quote → ℤ
unrealized buy quantity entry q = (q.bid -ℤ entry) *ℤ quantity
unrealized sell quantity entry q = (entry -ℤ q.ask) *ℤ quantity

abbrev pub position_pnl : Option Quote → Position → ℤ
position_pnl none p = pos 0
position_pnl (some q) p = unrealized p.side p.quantity p.entry_price q

-- The loop of `compute` over the open positions; one with no quote adds nothing.
unfoldable pub unrealized_pnl : (ℕ → Option Quote) → ℕ → List Position → ℤ
unrealized_pnl quotes u [] = pos 0
unrealized_pnl quotes u (p ∷ ps) =
    (if (p.user == u) && not p.is_closed then position_pnl (quotes p.symbol) p else pos 0)
    +ℤ unrealized_pnl quotes u ps

abbrev balance : Option Wallet → ℤ
balance none = pos 0
balance (some w) = w.balance

abbrev locked : Option Wallet → ℤ
locked none = pos 0
locked (some w) = w.locked

unfoldable pub equity : (ℕ → Option Quote) → ℕ → Store → ℤ
equity quotes u s =
    balance (find_wallet u s.wallets) *ℤ scale +ℤ unrealized_pnl quotes u s.positions

-- `computeLiveFreeMargin`.
unfoldable pub live_free_margin : (ℕ → Option Quote) → ℕ → Store → ℤ
unfolding equity
live_free_margin quotes u s =
    max_ℤ (pos 0) (equity quotes u s -ℤ locked (find_wallet u s.wallets) *ℤ scale)
