-- ===== src/Guards/Dedup.antt =====
-- trading-service/order.dedup.guard.ts. A submission key is a number; times are milliseconds.
use apiv.Base.{ℕ, ◌+◌, Option, none, some, List, [], ◌∷◌, Bool, false, ltb, length, if◌then◌else◌}
use apiv.Risk.Maps.{lookup, assign}

abbrev pub dedup_window_ms : ℕ
dedup_window_ms = 3000

abbrev pub max_tracked : ℕ
max_tracked = 5000

abbrev pub is_stale : ℕ → ℕ → Bool
is_stale now t = ltb (t + dedup_window_ms) now

-- The loop that deletes what is older than the window.
unfoldable pub delete_stale : ℕ → List (ℕ × ℕ) → List (ℕ × ℕ)
delete_stale now [] = []
delete_stale now ((j, t) ∷ m) =
    let rest = delete_stale now m in if is_stale now t then rest else (j, t) ∷ rest

-- `last !== undefined && now - last < DEDUP_WINDOW_MS`.
abbrev pub is_recent : ℕ → Option ℕ → Bool
is_recent now none = false
is_recent now (some last) = ltb now (last + dedup_window_ms)

abbrev pub clean : ℕ → List (ℕ × ℕ) → List (ℕ × ℕ)
clean now m = if ltb max_tracked (length m) then delete_stale now m else m

unfoldable pub is_duplicate_submission : ℕ → ℕ → List (ℕ × ℕ) → Bool × List (ℕ × ℕ)
is_duplicate_submission k now m = (is_recent now (lookup k m), clean now (assign k now m))

-- The answers to these submissions (key and time), one after another.
unfoldable pub submit_all : List (ℕ × ℕ) → List (ℕ × ℕ) → List Bool
submit_all [] m = []
submit_all ((k, now) ∷ subs) m =
    let (answer, n) = is_duplicate_submission k now m in answer ∷ submit_all subs n
