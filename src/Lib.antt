-- ===== src/Lib.antt =====
-- apiv2, a trading broker's backend: the parts that keep clients' money and orders right.
--
-- The program is a set of services over one PostgreSQL database, run as several replicas. Modelled are
-- the parts through which money and orders pass, and how they meet in the shared rows:
--
-- - Store: the rows that the money services share (prisma/schema.prisma), and a call of a service as
--   a function from the store to a result or an error and the next store. A transaction that throws
--   gives its store back. Amounts are integers in units of 1e-8.
-- - Wallet: wallet-service/wallet.repository.ts. Wallet/Repository has getOrCreate, get, credit, debit,
--   lockMargin and releaseMargin, each with the retry loop withSerializableRetry; Wallet/Methods says
--   how each ends, Wallet/Calls and Wallet/Solvency are about any history of calls.
--   Wallet/Reconciliation has the sums of settlement/reconciliation.engine.ts, which say what a
--   wallet should hold by its ledger rows; Wallet/Posting says what one new row does to them.
-- - Ledger: wallet-service/ledger.engine.ts (Ledger/Engine), with the free margin of
--   wallet-service/balance.calculator.ts and the unrealized profit of trading-service/pnl.calculator.ts
--   (Ledger/Balance), and that file's settlement of a closed position (Ledger/Close). Ledger/Outcomes,
--   Ledger/Marks and Ledger/Posted carry the proofs in Ledger/Books,
--   Ledger/Approvals and Ledger/Withdrawals.
-- - Payments: payment-service/deposit.state.machine.ts (Payments/Deposits, on the rows of
--   Payments/Rows) and payment-service/payment.service.ts (Payments/Service), where a webhook's
--   handler is the composition of the three parts between its waits, so that Payments/Race and
--   Payments/Books can also interleave them. Payments/Credit says how a credit ends.
-- - Orders: trading-service/pending.order.book.ts (Orders/Book has the state of one worker, the shared
--   rows and the broadcasts, Orders/Operations the methods) and trading-service/order.trigger.watcher.ts
--   (Orders/Trigger). Orders/Claims, Orders/Winners, Orders/Broadcasts,
--   Orders/Placing and Orders/Trailing are about several workers, about adding an order and about
--   trailing stops.
-- - Risk: risk-service/symbol.circuit.breaker.ts with the enabled flags of
--   liquidity-engine/broker.spread.config.ts (Risk/Breaker, on the maps of Risk/Maps), and who may lift
--   a halt, and when (Risk/Recovery, Risk/Overrides, Risk/Standing, Risk/Cooldown);
--   risk-service/kill.switch.ts over shared/control.channel.ts (Risk/KillSwitch), and what its
--   workers end with (Risk/Halted).
-- - Guards: trading-service/order.dedup.guard.ts (Guards/Dedup), against a history that is never cleaned
--   (Guards/Window).
-- - Settlement: settlement/settlement.engine.ts (Settlement/Engine), with the commission of
--   trading-service/commission.calculator.ts (Settlement/Commission) and the rounding to the columns'
--   scale (Settlement/Rounding). Settlement/Legs, Settlement/Written, Settlement/Books and
--   Settlement/Gap are about the rows that it writes, Settlement/Outcomes and Settlement/Reconciled
--   about how it ends.
-- - Margin: risk-service/margin.controller.ts (Margin/Controller): the atomic gate that locks margin
--   (Margin/Gate), its release (Margin/Release), both with the books (Margin/Books), and its equity
--   beside that of the withdrawal check (Margin/Equity).
-- - Reconciliation: the sweep of settlement/reconciliation.engine.ts. Reconciliation/Check has
--   checkUser, Reconciliation/Repair repairOrphanMargin, Reconciliation/Sweep runFull and
--   runFullWithRepair; Reconciliation/Repaired and Reconciliation/Swept say what they leave,
--   Reconciliation/Resting what they do to the margin of resting orders. Reconciliation/History joins
--   the services: any history of their calls on the shared store.
-- - Audit: security/immutable.audit.ts. Audit/Canonical has the canonical text, Audit/Chain write and
--   verifyChain with SHA-256 and the database's storage of JSON as arguments; Audit/Reordered,
--   Audit/Linked, Audit/Ordering, Audit/Texts, Audit/Written, Audit/Commitment, Audit/Gaps,
--   Audit/Dropped and Audit/Undefined are about what the check accepts and refuses.
-- - Leader: shared/distributed.job.lock.ts, the lease by which one worker leads a job (Leader/Lock), with
--   any history of workers, renewals and time (Leader/Exclusion, Leader/Tenure).
-- - Execution: execution-service/execution.engine.ts with what it writes and checks. Execution/Rows has
--   the rows of orders and fills, Execution/Lifecycle trading-service/order.lifecycle.ts,
--   Execution/Exposure and Execution/Limits the checks of risk-service/exposure.limits.ts,
--   client.exposure.limits.ts and concentration.guard.ts, Execution/Setting what surrounds a call and
--   the gates of execute, Execution/Transaction the transaction of a fill, Execution/Engine execute,
--   Execution/Cancel trading-service/order.cancel.ts, and Execution/Pending executePendingOrder of
--   trading-service/order.controller.ts. Execution/Found and Execution/Named are about
--   order rows, Execution/Registry and Execution/Mirrored about the exposure registry beside the
--   positions, Execution/Outcomes and Execution/Ways about how an execution goes,
--   Execution/Refused, Execution/Resting, Execution/Charges, Execution/Opened, Execution/Filled,
--   Execution/Partial, Execution/Capped and Execution/Books about what it leaves, Execution/Overtaken
--   about a fill during a cancellation, Execution/Drift about the registry after a settlement,
--   and Execution/Remainder about what a pending order leaves to rest.
-- - Base: the library's names that all modules use, tests on numbers, and signed integers. Examples runs
--   the theorems on small data.
--
-- A method keeps its name in snake_case; names that end in _tx are the body of its transaction. What
-- the database or a provider decides is an argument: which attempts of a transaction conflict, whether
-- a write fails, what a provider's session or webhook says. The loops with a bound are recursions on
-- the number of attempts that may follow, nine for a serializable transaction and two for a settlement
-- or for persisting an order, or on the attempts that are left, five for a release after a fill, as in
-- the source; nothing else needs fuel.
--
-- Floating-point prices, profits and amounts are integers, so only a settlement's rounding to the scale
-- of the columns is modelled; the quotients of an execution are arguments. Logging, metrics, free-text
-- notes and pauses are left out, as are the services that move neither money nor orders. The rest of
-- the order controller and its queue, the fill engine, liquidation, swaps, authentication and the
-- consumers of the outbox are not modelled.
pub mod Base
pub mod Store
pub mod Wallet
pub mod Ledger
pub mod Payments
pub mod Orders
pub mod Risk
pub mod Guards
pub mod Settlement
pub mod Margin
pub mod Reconciliation
pub mod Audit
pub mod Leader
pub mod Execution
pub mod Examples
