-- ===== src/Lib.antt =====
-- Levis sells hosting services: users keep a wallet, buy through payment plugins, refer others for a
-- commission and ask for refunds. This library models the parts of the backend that decide over money and
-- over the machines that users rent, the tickets, the limiter of its login, its captcha and the revocation of
-- sessions, with theorems about what these parts promise.
--
-- Parts and files.
--   Base: the shared names, Boolean tests, lists, association lists for Go maps, integers with the
--     wrap-around of int64, and the instants and durations of Go's `time`.
--   LoginLimit: internal/loginlimit/loginlimit.go. `Tracker` is the two maps; `check`, `record_failure`,
--     `record_success` and `sweep_locked` are its methods, with the clock's reading as an argument.
--     The mutex makes each method one step, so a run is a list of calls (LoginLimit/Valid).
--     `strings.ToLower(strings.TrimSpace(s))` is the parameter `fold`.
--   Store: the rows of internal/model that hold money, the errors of internal/service/errors.go, and
--     code that runs SQL statements. Store/Rules has the rules by which an invariant of the tables
--     goes through statements, binds, error paths and transactions; Store/Steps the rules that step
--     through code for one property of its outcome.
--   Money: internal/service/money.go.
--   Wallet: internal/service/wallet.go. `adjust_balance` is the one path by which a balance changes,
--     and the wallet's clients (Affiliate, Refund) use its outcomes in Wallet/Adjust and Wallet/Moved and the
--     invariant of Wallet/Ledger.
--   Affiliate: internal/service/affiliate.go, with `accrue_affiliate` and `reverse_affiliate`, and in
--     Affiliate/Withdrawal internal/service/affiliate_withdrawal.go, with `withdraw` and `review`.
--   Refund: internal/service/refund.go. `evaluate_policy`, `cancel`, `review`, `retry_failed` and
--     `execute`; Refund/Channel has the statements on payments and the call of the payment plugin.
--   Coupon: internal/service/coupon.go. `validate_coupon` and the check of `GenerateCodes`,
--     `eligible_subtotal`, `discount_cents`, `check_usable`, `preview`, `apply_coupon`, `release_coupon`.
--     What it takes of the standard library (`fold`, `matches`, `contains`) are parameters.
--   Order: internal/service/order.go. Order/Settlement has `pay_in_tx`, `pay` and `cancel`, with the checks
--     of internal/service/payment_target.go for an order; Order has the statements on the order, its
--     invoice, the products and the services. `pay` is the transaction: the provisioning that follows the
--     commit is left out.
--   Billing: internal/service/billing.go. `load_renewable_service`, `apply_renewal_tx`, `renew_in_tx` and
--     `settle_renewal_invoice_tx`; Billing/Traffic has the traffic packs.
--   Payment: internal/service/payment.go. `cancel`, `compensate_create_failure` and `record_late`, a branch
--     of `FinalizeCallback`; Payment/Settlement has `settle_invoice_tx` and the transaction of `finalize`
--     (`finalize_tx`), which runs the settlements of Order and Billing, and Payment/Callback `FinalizeCallback`. Payment/Target is internal/service/payment_target.go,
--     and Payment/Reserve has the transactions of `Create`, of `SettleInvoice` and of `Renew` of billing.go;
--     Payment/Requests runs all of them in sequence.
--     `add_date` is `time.AddDate` and `scan` is `fmt.Sscanf(s, "%d GB", …)`; a target key is the pair of
--     the purpose and the number that `paymentTargetKey` prints.
--   Lifecycle: internal/service/lifecycle.go and internal/service/refund_reconcile.go. Lifecycle has the claims
--     and marks; Lifecycle/Expiry `enforce_expiry`, Lifecycle/Traffic `enforce_traffic` and
--     `accumulate_traffic`, Lifecycle/Resume `retry_pending_resumes`, `recover_stale_claim_markers` and
--     `retry_refund_suspensions`. `Environment` is the clock, the answers of the hosts, and `during`: what other
--     requests commit while a call of a host is under way. `host_calls` lists what the hosts were told.
--   Change: internal/service/service_change.go. Change has the resources with their options and `finish_change`,
--     Change/Reserve the transaction of `Change` (`reserve_change`), Change/Quote the period and the prices,
--     Change/Retry `retry`, with the upstream as `Upstream`. What it takes of strconv and math is the parameter
--     `Numbers`, with its documented laws in Change/Options.
--   Ticket: internal/service/ticket.go. Ticket has the checks of what is written and `safe_file_name`,
--     Ticket/Replies `create`, `reply`, `close` and `reopen`; `trim` is `strings.TrimSpace` on runes.
--   Captcha: internal/captcha/store.go, and `ClampLength` and `randomCode` of internal/captcha/captcha.go.
--     `fold` is `strings.ToUpper(strings.TrimSpace(s))`; the bytes of the random source are an argument.
--   Session: internal/auth/revocation_persist.go. `revoke`, `is_revoked`, `cleanup_expired` and `restart`;
--     a history mixes the calls of one process with the effects on the table of those of other processes.
--   IdNumber: `ValidateIDNumber` of internal/service/validate.go, on the bytes of a string.
--   Search: `escapeLike` of internal/service/validate.go and the pattern that `Users` of
--     internal/service/admin.go makes of a keyword. The database's LIKE is a parameter with the laws of
--     its documentation (Search/Substring).
--
-- How the code is read. A table is a list of rows, and a statement is the SQL that the gorm call
-- builds: an update reports the rows that match its condition, a unique index refuses a second row, and
-- a transaction that returns an error leaves the tables as they were. The driver may fail at any
-- statement, the commit of a transaction included: `fails` decides it by the statement's number, and
-- `replies` decides what a payment plugin answers; both are arbitrary. `payouts` lists the
-- payments that a channel may have paid back: it grows with each call that is accepted or whose
-- answer is lost. Between its calls of a host a request is run alone; what others commit during such a call
-- is modelled in Lifecycle and Change, and nowhere else.
--
-- Bounds. Amounts are unbounded integers, as SQL columns add them; where Go multiplies (the shift of a
-- lock, the hours of the policy, the price of a line, a percentage, mulDivCents) the wrap-around or the
-- test of int64 is written out.
-- The count of failures of an account is a natural number: an int64 that fails once a nanosecond takes
-- three centuries to wrap. Every loop of these parts is over a list or
-- counts down, and the sampling of a captcha is recursion on the bytes that its random source gives. The one
-- loop on fuel is `walk_back` of Change/Quote: each of its rounds goes back by a nanosecond at least, or it
-- ends, so that the end of the paid time in nanoseconds, with one more, is enough.
--
-- Not modelled: columns that are only shown (notes, subjects, reasons, reviewers' remarks), read-only
-- listings, the configuration that is passed to a plugin, the random serial numbers, the calls of an
-- upstream and the provisioning after a commit (of `finalize` too), sessions without a database, bytes that are
-- no UTF-8 in a keyword, the call of a channel for a new payment, the creation of orders and
-- invoices, the renewal of services by the patrol, the preview of a change, the files of
-- attachments on the disk, and the parts of the program
-- that are not named here (HTTP, plugins' processes, catalogue, the review of identities, mail).
pub mod Affiliate
pub mod Base
pub mod Billing
pub mod Captcha
pub mod Change
pub mod Coupon
pub mod IdNumber
pub mod Lifecycle
pub mod LoginLimit
pub mod Money
pub mod Order
pub mod Payment
pub mod Refund
pub mod Search
pub mod Session
pub mod Store
pub mod Ticket
pub mod Wallet
