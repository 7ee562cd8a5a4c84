-- ===== src/Examples/Trading.antt =====
-- Pending orders and automatic halts on small states.
use apiv.Base.{
  ◌==◌, ◌&&◌, ◌⊎◌, ℕ, ◌≤◌, ◌≡◌, refl, Option, none, some, List, [], ◌∷◌, Bool, true, false, arith,
}
use apiv.Base.Int.{pos, abs, ◌-ℤ◌, ◌*ℤ◌, ◌≤ℤ◌, ◌<ℤ◌}
use apiv.Store.{buy, Quote}
use apiv.Orders.Book.{upsert, Order, full, Worker, World, stop, trailing_stop, pending, get_order}
use apiv.Orders.Operations.{add, fresh_order}
use apiv.Orders.Claims.{winners, mark_triggered_once}
use apiv.Orders.Placing.{add_all_or_nothing}
use apiv.Orders.Winners.{is_waiting, agrees, mark_triggered_exactly_once}
use apiv.Guards.Dedup.{submit_all}
use apiv.Guards.Window.{submit_all-answers, answers}
use apiv.Risk.Maps.{lookup}
use apiv.Risk.Breaker.{
  trimmed, record_tick, halt_threshold, Breaker, admin, fx_major, is_enabled, run_recovery_sweep,
}
use apiv.Risk.Recovery.{
  IsAdminHalted, Automatic, tick, reopen, sweep, run_automatic, run_automatic-IsAdminHalted,
}
use apiv.Risk.Cooldown.{record_tick_halts}

abbrev stop_order : Order
stop_order = record {
  id = 6;
  order_id = 60;
  user = 1;
  symbol = 2;
  side = buy;
  type = stop;
  quantity = pos 1;
  trigger_price = pos 110;
  limit_price = none;
  trail_amount = some (pos 5);
  leverage = 1;
  margin_required = pos 40;
  armed_by_stop_limit = false;
  peak_price = none;
  status = pending;
  expires_at = none;
  created_at = 3;
  oco_group = none;
}

abbrev holder : Worker
holder = record { orders = stop_order ∷ []; terminal = [] }

abbrev newcomer : Worker
newcomer = record { orders = []; terminal = [] }

abbrev shared_world : World
shared_world = record {
  worker = holder;
  rows = full stop_order ∷ [];
  reachable = true;
  releases = [];
  events = [];
  published = [];
}

mark_triggered_once_example : winners (holder ∷ newcomer ∷ holder ∷ []) 6 shared_world ≤ 1
mark_triggered_once_example =
    mark_triggered_once (holder ∷ newcomer ∷ holder ∷ []) 6 shared_world (tt, tt)

order_waits : is_waiting 6 shared_world.rows ≡ true
unfolding is_waiting
order_waits = refl

holder-agrees : agrees 6 holder ≡ true
unfolding agrees get_order
holder-agrees = refl

mark_triggered_exactly_once_example : winners (holder ∷ newcomer ∷ holder ∷ []) 6 shared_world ≡ 1
mark_triggered_exactly_once_example =
    mark_triggered_exactly_once holder (newcomer ∷ holder ∷ []) 6 shared_world (tt, tt) refl
      order_waits holder-agrees

abbrev trailing_order : Order
trailing_order = record stop_order { type = trailing_stop }

abbrev first_quote : Quote
first_quote = record { bid = pos 99; ask = pos 101 }

abbrev no_default : ℕ → Option ℕ
no_default y = none

abbrev answering : ℕ → Bool
answering y = true

abbrev quiet : Breaker
quiet = record { recent_ticks = []; halted_by_breaker = []; cache = [] }

abbrev admin_halt : Breaker
admin_halt = record quiet {
  cache = (2, record { spread = 3; enabled = false; updated_by = admin 9 }) ∷ [];
}

abbrev later : List Automatic
later =
    tick true 60 2 (pos 100) fx_major
    ∷ tick true 70 2 (pos 150) fx_major
    ∷ reopen true 90 2 (pos 100) (pos 190) fx_major
    ∷ sweep answering 900000
    ∷ []

admin_halt-IsAdminHalted : IsAdminHalted 2 admin_halt
unfolding is_enabled lookup
admin_halt-IsAdminHalted = record { disabled = refl; unowned = refl }

run_automatic-IsAdminHalted_example : IsAdminHalted 2 (run_automatic no_default later admin_halt)
run_automatic-IsAdminHalted_example =
    run_automatic-IsAdminHalted no_default 2 later admin_halt admin_halt-IsAdminHalted

quiet_unowned : lookup 2 quiet.halted_by_breaker ≡ none
unfolding lookup
quiet_unowned = refl

abbrev ticking : Breaker
ticking = record quiet { recent_ticks = (2, record { price = pos 100; ts = 40 } ∷ []) ∷ [] }

abbrev meanwhile : List Automatic
meanwhile = tick true 60 2 (pos 100) fx_major ∷ sweep answering 300049 ∷ []

ticking_enabled : is_enabled 2 ticking ≡ true
unfolding is_enabled lookup
ticking_enabled = refl

ticking_window :
    trimmed 50 2 (pos 120) ticking
    ≡ record { price = pos 100; ts = 40 } ∷ record { price = pos 120; ts = 50 } ∷ []
unfolding trimmed lookup
ticking_window = refl

record_tick_halts_example :
    let t = record_tick no_default true 50 2 (pos 120) fx_major ticking in
    let move = pos 1000 *ℤ abs (pos 120 -ℤ pos 100) in
    let threshold = pos (halt_threshold fx_major) *ℤ pos 100 in
    ((threshold <ℤ move)
      × (is_enabled 2 t ≡ false)
      × (is_enabled 2 (run_automatic no_default meanwhile t) ≡ false)
      × (is_enabled 2
            (run_recovery_sweep no_default answering 300060 (run_automatic no_default meanwhile t))
          ≡ true))
    ⊎ ((move ≤ℤ threshold) × (is_enabled 2 t ≡ true))
record_tick_halts_example =
    record_tick_halts no_default answering 50 60 300060 2 (pos 120) fx_major
      (record { price = pos 100; ts = 40 }) (record { price = pos 120; ts = 50 }) [] meanwhile
      ticking ticking_enabled quiet_unowned (omega arith) ticking_window (omega arith)
      ((omega arith, omega arith), (omega arith, tt)) (omega arith)

abbrev clicks : List (ℕ × ℕ)
clicks = (5, 100) ∷ (8, 150) ∷ (5, 900) ∷ (5, 3900) ∷ []

submit_all-answers_example : submit_all clicks [] ≡ answers clicks []
submit_all-answers_example =
    submit_all-answers clicks (omega arith, (omega arith, (omega arith, (omega arith, tt))))

abbrev fails_once : ℕ → Bool
fails_once n = n == 1

add_all_or_nothing_example :
    let (r, t) = add true fails_once 7 4 stop_order shared_world in
    let p = fresh_order true 7 4 stop_order in
    ((fails_once 1 && (fails_once 2 && fails_once 3) ≡ false)
      × (r ≡ some p)
      × (get_order 7 t.worker.orders ≡ some p)
      × (t.rows ≡ upsert (full p) shared_world.rows))
    ⊎ ((fails_once 1 && (fails_once 2 && fails_once 3) ≡ true)
        × (r ≡ none)
        × (get_order 7 t.worker.orders ≡ none)
        × (t.rows ≡ shared_world.rows)
        × (t.events ≡ [])
        × (t.published ≡ []))
add_all_or_nothing_example = add_all_or_nothing fails_once 7 4 stop_order shared_world
