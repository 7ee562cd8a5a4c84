-- ===== src/Orders/Trailing.antt =====
-- The first quote that a trailing stop sees.
use apiv.Base.{ℕ, ◌≡◌, none, some, Bool, true, arith}
use apiv.Base.Int.{ℤ, pos, ◌+ℤ◌, ◌-ℤ◌, ◌≤ℤ◌}
use apiv.Store.{Quote}
use apiv.Orders.Book.{Order, trailing_stop}
use apiv.Orders.Operations.{fresh_order}
use apiv.Orders.Trigger.{raised, lowered, update_trailing, is_triggered}

-- A trailing stop that was just added, without a peak of its own, triggers on the first quote for its
-- symbol, whatever the quote is and however far it is to trail, when the amount to trail is not
-- negative.
trailing_stop_fires_at_once :
    (persistent : Bool) (k now : ℕ) (d : ℤ) (o : Order) (q : Quote)
    → o.type ≡ trailing_stop
    → o.peak_price ≡ none
    → o.trail_amount ≡ some d
    → pos 0 ≤ℤ d
    → is_triggered (update_trailing o.symbol q (fresh_order persistent k now o)) q ≡ true
unfolding is_triggered update_trailing raised lowered ◌+ℤ◌ ◌-ℤ◌
trailing_stop_fires_at_once persistent k now d o q kind no_peak trails forward = ground arith
