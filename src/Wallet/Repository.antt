-- ===== src/Wallet/Repository.antt =====
-- wallet-service/wallet.repository.ts: `WalletRepository`. Which attempts of a serializable
-- transaction meet a conflict is the database's choice, the argument `conflict`; the notes of the
-- ledger rows and the pauses between attempts are left out.
use apiv.Base.{ℕ, zero, suc, ◌+◌, Option, none, some, ◌∷◌, Bool, if◌then◌else◌}
use apiv.Base.Int.{ℤ, pos, ◌+ℤ◌, ◌-ℤ◌, leb_ℤ, ltb_ℤ, neg}
use apiv.Store.{
  Wallet, Entry, LedgerType, Reference, completed, margin_reserved, margin_released, broker_float,
  client, Store, Action, pure, throw, gets, or_throw, transaction, ◌>>=◌, ◌>>◌, throw_if, modify,
  add_entry, credit_amount_must_be_positive, debit_amount_must_be_positive, wallet_not_found,
  insufficient_funds, insufficient_free_margin, serialization_failure, Result,
}
use apiv.Store.Tables.{find_wallet, set_balance, add_locked}

-- ISO 4217 for "USD".
abbrev pub usd : ℕ
usd = 840

-- `maxRetries` is ten: nine attempts may follow the first.
abbrev pub later_attempts : ℕ
later_attempts = 9

-- The loop of `withSerializableRetry`: `left` attempts may follow this one.
unfoldable pub with_serializable_retry : {A : Type 0} → (ℕ → Bool) → ℕ → ℕ → Action A → Action A
with_serializable_retry conflict zero attempt fn =
    if conflict attempt then throw serialization_failure else fn
with_serializable_retry conflict (suc left) attempt fn =
    let again = with_serializable_retry conflict left (attempt + 1) fn in
    if conflict attempt then again else fn

unfoldable pub get_or_create : ℕ → Action Wallet
get_or_create u s = elim (find_wallet u s.wallets) [
  | some w ↦ (Result.ok w, s)
  | none ↦
      let w : Wallet = record { user = u; currency = usd; balance = pos 0; locked = pos 0 } in
      (Result.ok w, record s { wallets = w ∷ s.wallets })
]

pub get : ℕ → Action (Option Wallet)
get u = gets (λ s. find_wallet u s.wallets)

abbrev pub find_account : ℕ → Action Wallet
find_account u = do
  account ← gets (λ s. find_wallet u s.wallets)
  or_throw account (wallet_not_found u)

abbrev pub write_balance : ℕ → ℤ → Store → Store
write_balance u b s = record s { wallets = set_balance u b s.wallets }

abbrev pub write_locked : ℕ → ℤ → Store → Store
write_locked u d s = record s { wallets = add_locked u d s.wallets }

abbrev pub credit_entry : ℕ → ℤ → LedgerType → Reference → ℤ → ℕ → Entry
credit_entry u amount type reference b id = record {
  id = id;
  user = u;
  currency = usd;
  amount = amount;
  type = type;
  reference = reference;
  status = completed;
  running_balance = some b;
  debit_account = some broker_float;
  credit_account = some (client u);
}

abbrev pub debit_entry : ℕ → ℤ → LedgerType → Reference → ℤ → ℕ → Entry
debit_entry u amount type reference b id = record {
  id = id;
  user = u;
  currency = usd;
  amount = neg amount;
  type = type;
  reference = reference;
  status = completed;
  running_balance = some b;
  debit_account = some (client u);
  credit_account = some broker_float;
}

abbrev pub margin_entry : ℕ → ℤ → LedgerType → Reference → ℕ → Entry
margin_entry u amount type reference id = record {
  id = id;
  user = u;
  currency = usd;
  amount = amount;
  type = type;
  reference = reference;
  status = completed;
  running_balance = none;
  debit_account = none;
  credit_account = none;
}

-- The transactions that the methods run; `credit` and `debit` return the new balance.
unfoldable pub credit_tx : ℕ → ℤ → LedgerType → Reference → Action ℤ
credit_tx u amount type reference = do
  account ← find_account u
  let new_balance = account.balance +ℤ amount
  modify (write_balance u new_balance)
  modify (add_entry (credit_entry u amount type reference new_balance))
  pure new_balance

unfoldable pub debit_tx : ℕ → ℤ → LedgerType → Reference → Action ℤ
debit_tx u amount type reference = do
  account ← find_account u
  throw_if (ltb_ℤ account.balance amount) insufficient_funds
  let new_balance = account.balance -ℤ amount
  modify (write_balance u new_balance)
  modify (add_entry (debit_entry u amount type reference new_balance))
  pure new_balance

unfoldable pub lock_margin_tx : ℕ → ℤ → Reference → Action (Unit {0})
lock_margin_tx u amount reference = do
  account ← find_account u
  throw_if (ltb_ℤ (account.balance -ℤ account.locked) amount) insufficient_free_margin
  modify (write_locked u amount)
  modify (add_entry (margin_entry u (neg amount) margin_reserved reference))

-- The clamp of `releaseMargin`: never more than is locked.
unfoldable pub safe_release : ℤ → ℤ → ℤ
safe_release locked amount = if ltb_ℤ locked amount then locked else amount

abbrev pub write_release : ℕ → ℤ → Reference → Store → Store
write_release u released reference s =
    add_entry (margin_entry u released margin_released reference) (write_locked u (neg released) s)

unfoldable pub release_margin_tx : ℕ → ℤ → Reference → Action (Unit {0})
unfolding safe_release
release_margin_tx u amount reference = do
  account ← find_account u
  let released = safe_release account.locked amount
  modify (λ s. if leb_ℤ released (pos 0) then s else write_release u released reference s)

module _ (conflict : ℕ → Bool) where
  unfoldable pub credit : ℕ → ℤ → LedgerType → Reference → Action ℤ
  credit u amount type reference = do
    throw_if (leb_ℤ amount (pos 0)) credit_amount_must_be_positive
    with_serializable_retry conflict later_attempts 1
        (transaction (credit_tx u amount type reference))

  unfoldable pub debit : ℕ → ℤ → LedgerType → Reference → Action ℤ
  debit u amount type reference = do
    throw_if (leb_ℤ amount (pos 0)) debit_amount_must_be_positive
    with_serializable_retry conflict later_attempts 1
        (transaction (debit_tx u amount type reference))

  unfoldable pub lock_margin : ℕ → ℤ → Reference → Action (Unit {0})
  lock_margin u amount reference =
      with_serializable_retry conflict later_attempts 1
        (transaction (lock_margin_tx u amount reference))

  unfoldable pub release_margin : ℕ → ℤ → Reference → Action (Unit {0})
  release_margin u amount reference s =
      if leb_ℤ amount (pos 0)
      then (Result.ok tt, s)
      else with_serializable_retry conflict later_attempts 1
          (transaction (release_margin_tx u amount reference)) s
