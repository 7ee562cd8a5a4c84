-- ===== src/Payments/Race.antt =====
-- Two deliveries of one webhook: handled one after the other, and interleaved.
use apiv.Base.{ℕ, ◌≡◌, refl, some, false, arith, or_else}
use apiv.Base.Int.{◌+ℤ◌}
use apiv.Store.{
  Deposit, confirmed, credited, Wallet, Store, ok, Action, ◌>>=◌, ◌>>◌, emit,
  deposit_status_changed,
}
use apiv.Store.Tables.{find_wallet, find_wallet-set_balance_self}
use apiv.Payments.Rows.{find_deposit, ref_taken, find_deposit-put, find_deposit-id, ref_taken-put}
use apiv.Payments.Deposits.{transition_to_confirmed, amount_mismatch, write_deposit}
use apiv.Payments.Service.{
  Webhook, paid, newly_credited, already_credited, read_deposit, confirm_seen, credit_seen,
  process_webhook, is_confirmed_or_credited,
}
use apiv.Payments.Credit.{credit_again, credit_found}

-- The two handlers take their steps in the order that a wait after the first read allows: both read
-- the row, the first confirms and credits, then the second does.
pub interleaved : Webhook → Action (Unit {0})
interleaved w = do
  seen ← read_deposit w
  seen' ← read_deposit w
  confirm_seen w seen
  credit_seen w seen
  confirm_seen w seen'
  credit_seen w seen'
  (λ s. (ok tt, s))

confirmed_row : Deposit → ℕ → Deposit
confirmed_row d r = record d { status = confirmed; psp_ref = some r }

-- A handler that saw an unconfirmed deposit confirms and then credits it, whatever happened to the
-- row meanwhile.
module _ (w : Webhook) (k : ℕ) (seen d : Deposit) (a : Wallet) (s : Store) where
  stale_handler :
      seen.id ≡ k
      → is_confirmed_or_credited seen.status ≡ false
      → find_deposit k s.deposits ≡ some d
      → find_wallet d.user s.wallets ≡ some a
      → ref_taken w.reference k s.deposits ≡ false
      → amount_mismatch w.amount d.amount ≡ false
      → let t = (confirm_seen w seen >> credit_seen w seen) s in
        (t.0 ≡ ok newly_credited)
        × (find_wallet d.user t.1.wallets ≡ some (record a { balance = a.balance +ℤ d.amount }))
        × (find_deposit k t.1.deposits
            ≡ some (record d { status = credited; psp_ref = some w.reference }))
        × (ref_taken w.reference k t.1.deposits ≡ false)
  unfolding confirm_seen credit_seen transition_to_confirmed confirmed_row
  stale_handler id unseen row account free fits =
      let c = confirmed_row d w.reference in
      let s' : Store = emit (deposit_status_changed k d.user confirmed) (write_deposit k c s) in
      let same = find_deposit-id k d s.deposits row in
      let row' = find_deposit-put k c d s.deposits row same in
      let free' = ref_taken-put w.reference k c s.deposits same in
      ground (
        arith,
        row',
        free',
        credit_found k w.reference w.amount (some (or_else w.currency seen.currency)) c s' row' refl
            a fits account,
        find_wallet-set_balance_self d.user (a.balance +ℤ d.amount) a s.wallets account,
        find_deposit-put k (record c { status = credited; psp_ref = some w.reference }) c
            s'.deposits row' same,
        ref_taken-put w.reference k (record c { status = credited; psp_ref = some w.reference })
            s'.deposits same,
      )

module _ (w : Webhook) (k : ℕ) (d : Deposit) (s : Store) (known : w.deposit_id ≡ some k)
    (row : find_deposit k s.deposits ≡ some d) where
  read_row : read_deposit w s ≡ (ok d, s)
  unfolding read_deposit
  read_row = ground arith

  handled : w.verdict ≡ paid → process_webhook w s ≡ (confirm_seen w d >> credit_seen w d) s
  unfolding process_webhook
  handled v = ground (arith, read_row)

  settled_handler :
      w.verdict ≡ paid → d.status ≡ credited → process_webhook w s ≡ (ok already_credited, s)
  unfolding process_webhook confirm_seen credit_seen
  settled_handler v done = ground (
    arith,
    read_row,
    find_deposit-id k d s.deposits row,
    credit_again k w.reference w.amount (some (or_else w.currency d.currency)) d s row done,
  )

module _ (w : Webhook) (k : ℕ) (d : Deposit) (a : Wallet) (s : Store)
    (known : w.deposit_id ≡ some k) (row : find_deposit k s.deposits ≡ some d)
    (v : w.verdict ≡ paid) (unseen : is_confirmed_or_credited d.status ≡ false)
    (account : find_wallet d.user s.wallets ≡ some a)
    (free : ref_taken w.reference k s.deposits ≡ false)
    (fits : amount_mismatch w.amount d.amount ≡ false) where
  once :
      (let t = process_webhook w s in
        (t.0 ≡ ok newly_credited)
        × (find_wallet d.user t.1.wallets ≡ some (record a { balance = a.balance +ℤ d.amount }))
        × (find_deposit k t.1.deposits
            ≡ some (record d { status = credited; psp_ref = some w.reference })))
  once = rw (handled w k d s known row v) (
      ground (
        arith,
        stale_handler w k d d a s (find_deposit-id k d s.deposits row) unseen row account free fits,
      ))

  -- Take a webhook that says paid for a known deposit that is neither confirmed nor credited, of a
  -- client with a wallet, with a reference that no other deposit has and an amount that fits.
  -- Handling it credits exactly the amount that was requested, also for a deposit that had failed
  -- or expired, and handling it again changes nothing and says so.
  pub process_webhook_twice :
      let t = process_webhook w s in
      (t.0 ≡ ok newly_credited)
      × (find_wallet d.user t.1.wallets ≡ some (record a { balance = a.balance +ℤ d.amount }))
      × (process_webhook w t.1 ≡ (ok already_credited, t.1))
  process_webhook_twice =
      let t = process_webhook w s in (once.0, once.1, settled_handler_at t.1 once.2)
    where
      settled_handler_at :
          (t : Store)
          → find_deposit k t.deposits
            ≡ some (record d { status = credited; psp_ref = some w.reference })
          → process_webhook w t ≡ (ok already_credited, t)
      settled_handler_at t r =
          settled_handler w k (record d { status = credited; psp_ref = some w.reference }) t known r
            v refl

  -- The same webhook in two handlers, of which the second reads the row before the first confirms
  -- it, credits the client the requested amount twice.
  pub interleaved_double_credit :
      let t = interleaved w s in
      (t.0 ≡ ok tt)
      × (find_wallet d.user t.1.wallets
          ≡ some (record a { balance = a.balance +ℤ d.amount +ℤ d.amount }))
  unfolding interleaved
  interleaved_double_credit =
      let id = find_deposit-id k d s.deposits row in
      let first = stale_handler w k d d a s id unseen row account free fits in
      let t = (confirm_seen w d >> credit_seen w d) s in
      let second =
        stale_handler w k d (record d { status = credited; psp_ref = some w.reference })
          (record a { balance = a.balance +ℤ d.amount }) t.1 id unseen first.2 first.1 first.3
          fits in
      ground (arith, read_row w k d s known row, first, second)
