-- ===== src/Reconciliation/Sweep.antt =====
-- settlement/reconciliation.engine.ts: `runFull` and `runFullWithRepair`. Whether this worker holds the
-- lease of the sweep is the argument `elected`, and for which users the database fails the transaction
-- of a repair is `fails`; alerts and metrics are left out.
use apiv.Base.{ℕ, suc, List, [], ◌∷◌, ◌++◌, Bool, true, false, ◌&&◌, ◌==◌, if◌then◌else◌}
use apiv.Base.Int.{ℤ, pos, ◌+ℤ◌, ltb_ℤ}
use apiv.Store.{Wallet, Position, Store, Result, Action, serialization_failure}
use apiv.Settlement.Engine.{is_open}
use apiv.Reconciliation.Check.{CheckStatus, mismatch, UserResult, check_user, epsilon}
use apiv.Reconciliation.Repair.{repair_orphan_margin}

unfoldable pub wallet_users : List Wallet → List ℕ
wallet_users [] = []
wallet_users (w ∷ ws) = w.user ∷ wallet_users ws

unfoldable pub position_users : List Position → List ℕ
position_users [] = []
position_users (p ∷ ps) =
    let rest = position_users ps in if is_open p.status then p.user ∷ rest else rest

unfoldable pub remove : ℕ → List ℕ → List ℕ
remove u [] = []
remove u (v ∷ vs) = let rest = remove u vs in if v == u then rest else v ∷ rest

-- `new Set`: each user once, in the order of its first occurrence.
unfoldable pub distinct : List ℕ → List ℕ
distinct [] = []
distinct (u ∷ us) = u ∷ remove u (distinct us)

unfoldable pub swept_users : Store → List ℕ
swept_users s = distinct (wallet_users s.wallets ++ position_users s.positions)

unfoldable pub check_users : List ℕ → Store → List UserResult
check_users [] s = []
check_users (u ∷ us) s = check_user u s ∷ check_users us s

unfoldable pub dirty : List UserResult → List UserResult
dirty [] = []
dirty (r ∷ rs) = let rest = dirty rs in if r.clean then rest else r ∷ rest

pub record Report : Type 0 where
  pub results : List UserResult
  pub dirty_users : List UserResult

unfoldable pub run_full : Bool → Store → Report
run_full elected s =
    if elected
    then record {
      results = check_users (swept_users s) s;
      dirty_users = dirty (check_users (swept_users s) s);
    }
    else record { results = []; dirty_users = [] }

abbrev pub is_margin_mismatch : CheckStatus → Bool
is_margin_mismatch mismatch = true
is_margin_mismatch _ = false

abbrev pub needs_repair : UserResult → Bool
needs_repair r = is_margin_mismatch r.margin && ltb_ℤ epsilon r.margin_delta

-- `repaired` and `totalReleased`.
pub record Repairs : Type 0 where
  pub repaired : ℕ
  pub total_released : ℤ

abbrev pub count_repair : Result ℤ → Repairs → Repairs
count_repair (Result.ok released) r =
    if ltb_ℤ (pos 0) released
    then record { repaired = suc r.repaired; total_released = r.total_released +ℤ released }
    else r
count_repair (Result.err e) r = r

-- The loop over the dirty users; a repair that throws is logged and passed over.
unfoldable pub try_repair : (ℕ → Bool) → ℕ → ℕ → Action ℤ
try_repair fails u stamp s =
    if fails u then (Result.err serialization_failure, s) else repair_orphan_margin u stamp s

unfoldable pub repair_all : (ℕ → Bool) → ℕ → List UserResult → Repairs → Store → Repairs × Store
repair_all fails stamp [] acc s = (acc, s)
repair_all fails stamp (d ∷ ds) acc s =
    let (r, t) = try_repair fails d.user stamp s in
    let mended = repair_all fails stamp ds (count_repair r acc) t in
    let same = repair_all fails stamp ds acc s in if needs_repair d then mended else same

unfoldable pub run_full_with_repair : Bool → (ℕ → Bool) → ℕ → Store → Repairs × Store
run_full_with_repair elected fails stamp s =
    repair_all fails stamp (run_full elected s).dirty_users
      (record { repaired = 0; total_released = pos 0 }) s
