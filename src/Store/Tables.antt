-- ===== src/Store/Tables.antt =====
-- Look-ups and updates of the wallet and ledger tables, and what they leave alone.
use apiv.Base.{
  ℕ, ◌<◌, ◌≡◌, refl, ◌≢◌, Option, none, some, List, [], ◌∷◌, Bool, arith, ◌==◌, if◌then◌else◌,
}
use apiv.Base.Int.{ℤ, ◌+ℤ◌}
use apiv.Store.{Wallet, Entry, EntryStatus}

-- `walletAccount.findUnique({ where: { userId } })`.
unfoldable pub find_wallet : ℕ → List Wallet → Option Wallet
find_wallet u [] = none
find_wallet u (w ∷ ws) = if w.user == u then some w else find_wallet u ws

-- `walletAccount.update({ where: { userId }, data: { balance } })`; `userId` is unique.
unfoldable pub set_balance : ℕ → ℤ → List Wallet → List Wallet
set_balance u b [] = []
set_balance u b (w ∷ ws) =
    if w.user == u then record w { balance = b } ∷ ws else w ∷ set_balance u b ws

-- `data: { locked: { increment: d } }`.
unfoldable pub add_locked : ℕ → ℤ → List Wallet → List Wallet
add_locked u d [] = []
add_locked u d (w ∷ ws) =
    if w.user == u then record w { locked = w.locked +ℤ d } ∷ ws else w ∷ add_locked u d ws

pub find_wallet-user :
    (u : ℕ) (w : Wallet) (ws : List Wallet) → find_wallet u ws ≡ some w → w.user ≡ u
unfolding find_wallet
find_wallet-user u w [] e = ground arith
find_wallet-user u w (x ∷ ws) e = ground (arith, find_wallet-user u w ws)

pub find_wallet-set_balance_self :
    (u : ℕ) (b : ℤ) (w : Wallet) (ws : List Wallet)
    → find_wallet u ws ≡ some w
    → find_wallet u (set_balance u b ws) ≡ some (record w { balance = b })
unfolding find_wallet set_balance
find_wallet-set_balance_self u b w [] e = ground arith
find_wallet-set_balance_self u b w (x ∷ ws) e =
    ground (arith, find_wallet-set_balance_self u b w ws)

pub find_wallet-set_balance_ne :
    (u v : ℕ) (b : ℤ) (ws : List Wallet)
    → v ≢ u
    → find_wallet v (set_balance u b ws) ≡ find_wallet v ws
unfolding find_wallet set_balance
find_wallet-set_balance_ne u v b [] h = refl
find_wallet-set_balance_ne u v b (x ∷ ws) h = ground (arith, find_wallet-set_balance_ne u v b ws h)

pub find_wallet-add_locked_self :
    (u : ℕ) (d : ℤ) (w : Wallet) (ws : List Wallet)
    → find_wallet u ws ≡ some w
    → find_wallet u (add_locked u d ws) ≡ some (record w { locked = w.locked +ℤ d })
unfolding find_wallet add_locked
find_wallet-add_locked_self u d w [] e = ground arith
find_wallet-add_locked_self u d w (x ∷ ws) e = ground (arith, find_wallet-add_locked_self u d w ws)

pub find_wallet-add_locked_ne :
    (u v : ℕ) (d : ℤ) (ws : List Wallet)
    → v ≢ u
    → find_wallet v (add_locked u d ws) ≡ find_wallet v ws
unfolding find_wallet add_locked
find_wallet-add_locked_ne u v d [] h = refl
find_wallet-add_locked_ne u v d (x ∷ ws) h = ground (arith, find_wallet-add_locked_ne u v d ws h)

-- `ledgerEntry.findFirst({ where })`.
unfoldable pub find_entry : (Entry → Bool) → List Entry → Option Entry
find_entry p [] = none
find_entry p (e ∷ es) = if p e then some e else find_entry p es

-- `ledgerEntry.updateMany({ where, data: { status } })`.
unfoldable pub set_status : (Entry → Bool) → EntryStatus → List Entry → List Entry
set_status p st [] = []
set_status p st (e ∷ es) = (if p e then record e { status = st } else e) ∷ set_status p st es

-- Identifiers fall along the ledger and stay under the bound: no two rows share one.
abbrev pub Below : ℕ → List Entry → Type 0
Below n [] = Unit {0}
Below n (e ∷ es) = (e.id < n) × Below e.id es

pub Below-set_status :
    (p : Entry → Bool) (st : EntryStatus) (n : ℕ) (es : List Entry)
    → Below n es
    → Below n (set_status p st es)
unfolding set_status
Below-set_status p st n [] b = tt
Below-set_status p st n (e ∷ es) b = ground (arith, Below-set_status p st e.id es b.1)
