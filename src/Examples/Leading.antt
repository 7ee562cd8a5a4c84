-- ===== src/Examples/Leading.antt =====
-- Two workers and a lease of four minutes.
use apiv.Base.{ℕ, ◌≡◌, refl, List, [], ◌∷◌, true, false, arith}
use apiv.Leader.Lock.{answering, failing, get, try_acquire, is_still_leader}
use apiv.Leader.Exclusion.{acquires, renews, releases, passes, Event, step, run, start}
use apiv.Leader.Tenure.{tenure}

abbrev earlier : List Event
earlier = acquires answering 1 ∷ passes 300 ∷ []

abbrev meanwhile : List Event
meanwhile =
    acquires answering 1
    ∷ renews answering 0
    ∷ passes 100
    ∷ releases answering 1
    ∷ acquires failing 3
    ∷ passes 139
    ∷ []

second_acquires : (try_acquire 240 answering 2 (run 240 earlier start)).0 ≡ true
unfolding run step try_acquire get
second_acquires = refl

tenure_example :
    let t = run 240 meanwhile (try_acquire 240 answering 2 (run 240 earlier start)).1 in
    (is_still_leader answering 2 t ≡ true)
    × ((v : ℕ) → is_still_leader answering v t ≡ true → v ≡ 2)
    × ((v : ℕ) → (try_acquire 240 answering v t).0 ≡ false)
tenure_example =
    tenure 240 2 earlier meanwhile second_acquires
      ((λ e. ground arith), (tt, (tt, ((λ e. ground arith), ((λ e. ground arith), (tt, tt))))))
      (omega arith)
