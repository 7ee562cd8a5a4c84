-- ===== src/Ledger/Close.antt =====
-- trading-service/pnl.calculator.ts: what closing a position pays. The percentage and the rounding to
-- eight decimals are left out; all amounts are in units of 1e-16.
use apiv.Base.{inl, inr, refl, ◌≡◌, arith}
use apiv.Base.Int.{
  ℤ, pos, negsuc, ◌-ℤ◌, ◌*ℤ◌, ◌≤ℤ◌, neg, abs, max_ℤ, int_laws, -ℤ_parts, eq_of_parts, ltb_ℤ-cases,
}
use apiv.Store.{Side, buy, sell}

abbrev direction : Side → ℤ
direction buy = pos 1
direction sell = negsuc 0

unfoldable pub realized : Side → ℤ → ℤ → ℤ → ℤ
realized side quantity entry exit = (exit -ℤ entry) *ℤ quantity *ℤ direction side

unfoldable pub apply_nbp : ℤ → ℤ → ℤ
apply_nbp raw margin_used = max_ℤ raw (neg (abs margin_used))

unfoldable pub net_credit : ℤ → ℤ → ℤ → ℤ → ℤ
net_credit capped commission swap margin_used =
    max_ℤ (capped -ℤ commission -ℤ swap) (neg (abs margin_used))

pub record Close : Type 0 where
  pub side : Side
  pub quantity : ℤ
  pub entry_price : ℤ
  pub exit_price : ℤ
  pub margin_used : ℤ
  pub commission : ℤ
  pub swap : ℤ

pub record Settled : Type 0 where
  pub raw_pnl : ℤ
  pub capped_pnl : ℤ
  pub net : ℤ

unfoldable pub settle_close : Close → Settled
settle_close c =
    let raw = realized c.side c.quantity c.entry_price c.exit_price in
    let capped = apply_nbp raw c.margin_used in
    record {
      raw_pnl = raw;
      capped_pnl = capped;
      net = net_credit capped c.commission c.swap c.margin_used;
    }

pub max_ℤ-right : (a b : ℤ) → a ≤ℤ b → max_ℤ a b ≡ b
max_ℤ-right a b h = elim (ltb_ℤ-cases a b) [
  | inl (test, less) ↦ rw test refl
  | inr (test, more) ↦ rw test (eq_of_parts a b (omega arith))
]

pub max_ℤ-left : (a b : ℤ) → b ≤ℤ a → max_ℤ a b ≡ a
max_ℤ-left a b h = elim (ltb_ℤ-cases a b) [
  | inl (test, less) ↦ absurd (omega arith)
  | inr (test, more) ↦ rw test refl
]

pub less_fees : (a c d : ℤ) → pos 0 ≤ℤ c → pos 0 ≤ℤ d → a -ℤ c -ℤ d ≤ℤ a
less_fees a c d fee rate = omega (int_laws, -ℤ_parts a c, -ℤ_parts (a -ℤ c) d)

less_fees_mono : (a b c d : ℤ) → a ≤ℤ b → a -ℤ c -ℤ d ≤ℤ b -ℤ c -ℤ d
less_fees_mono a b c d h =
    omega (arith, -ℤ_parts a c, -ℤ_parts (a -ℤ c) d, -ℤ_parts b c, -ℤ_parts (b -ℤ c) d)

-- Fees of zero or more taken off a capped amount, and the cap once more.
cap_once :
    (raw low c d : ℤ)
    → pos 0 ≤ℤ c
    → pos 0 ≤ℤ d
    → max_ℤ (max_ℤ raw low -ℤ c -ℤ d) low ≡ max_ℤ (raw -ℤ c -ℤ d) low
cap_once raw low c d fee rate = elim (ltb_ℤ-cases raw low) [
  | inl (test, below) ↦
      let under = less_fees low c d fee rate in
      let mono = less_fees_mono raw low c d (omega arith) in
      rw
        (test, max_ℤ-right (low -ℤ c -ℤ d) low under, max_ℤ-right (raw -ℤ c -ℤ d) low (omega arith))
        refl
  | inr (test, above) ↦ rw test refl
]

-- With fees of zero or more, closing a position credits the greater of two: the raw profit less the
-- fees, and minus the margin. So the profit's cap and the net amount's cap come to one.
settle_close_caps_once :
    (c : Close)
    → pos 0 ≤ℤ c.commission
    → pos 0 ≤ℤ c.swap
    → let r = settle_close c in
      r.net ≡ max_ℤ (r.raw_pnl -ℤ c.commission -ℤ c.swap) (neg (abs c.margin_used))
unfolding settle_close apply_nbp net_credit
settle_close_caps_once c fee rate =
    cap_once (realized c.side c.quantity c.entry_price c.exit_price) (neg (abs c.margin_used))
      c.commission c.swap fee rate
