-- ===== src/Orders/Broadcasts.antt =====
-- Broadcasts between workers, which may come late.
use apiv.Base.{ap, ℕ, suc, ◌≤◌, ◌≡◌, refl, none, List, [], ◌∷◌, ◌++◌, true, arith, length, contains}
use apiv.Orders.Book.{
  Order, Worker, added, removed, get_order, delete_order, mark_terminal, terminal_limit, forget,
  receive,
}

pub get_order-delete_order : (k : ℕ) (os : List Order) → get_order k (delete_order k os) ≡ none
unfolding get_order delete_order
get_order-delete_order k [] = refl
get_order-delete_order k (o ∷ os) = ground (arith, get_order-delete_order k os)

contains-last : (k : ℕ) (xs : List ℕ) → contains k (xs ++ k ∷ []) ≡ true
contains-last k [] = ground arith
contains-last k (x ∷ xs) = ground (arith, contains-last k xs)

length-last : (k : ℕ) (xs : List ℕ) → length (xs ++ k ∷ []) ≡ suc (length xs)
length-last k [] = refl
length-last k (x ∷ xs) = ap suc (length-last k xs)

mark_terminal-contains :
    (k : ℕ) (xs : List ℕ) → length xs ≤ terminal_limit → contains k (mark_terminal k xs) ≡ true
unfolding mark_terminal
mark_terminal-contains k [] room = ground arith
mark_terminal-contains k (x ∷ xs) room = ground (arith, contains-last k xs, length-last k xs)

mark_terminal-length :
    (k : ℕ) (xs : List ℕ)
    → length xs ≤ terminal_limit
    → length (mark_terminal k xs) ≤ terminal_limit
unfolding mark_terminal
mark_terminal-length k [] room = ground arith
mark_terminal-length k (x ∷ xs) room = ground (arith, length-last k xs)

receive_ignored :
    (o : Order) (t : Worker)
    → get_order o.id t.orders ≡ none
    → contains o.id t.terminal ≡ true
    → receive (added o) t ≡ t
unfolding receive
receive_ignored o t gone known = ground arith

-- A worker that heard of an order's end ignores the order's announcement when that comes late, and
-- still remembers no more than the limit, if it did not before.
receive_late_announcement :
    (o : Order) (w : Worker)
    → length w.terminal ≤ terminal_limit
    → let t = receive (removed o.id) w in
      (receive (added o) t ≡ t) × (length t.terminal ≤ terminal_limit)
unfolding receive forget
receive_late_announcement o w room = (
  receive_ignored o (forget o.id w) (get_order-delete_order o.id w.orders)
      (mark_terminal-contains o.id w.terminal room),
  mark_terminal-length o.id w.terminal room,
)
