-- ===== src/Lib.antt =====
-- fastkit: the money and delivery core of the kit, modelled and proved.
--
-- The program sells subscriptions and products to the accounts of several tenants. A gateway's notice
-- moves a purchase or a subscription; a live subscription is turned into credits, products and rights
-- of access, one idempotent grant per cycle; credits are booked in a ledger that no two sessions may
-- drive apart. The parts, and the files that model them:
--
--   Dates      helpers/dates.py: the calendar arithmetic that schedules are walked with
--   Ledger     services/credit_transaction_service.py (signed_amount, settled_by_key, move) and the
--              row lock of services/user_balance_service.py (held)
--   Commerce   services/commerce_service.py (grant, open_purchase, settle_purchase)
--   Delivery   services/delivery_service.py, with the tables of models/ and the sets of enums/:
--              Schedule (landing, first_due, resolve_due_slot, the keys), Evidence (policy_allows,
--              already_held_by_user, still_owed, takeable, exhausted), Handing (deliver and its three
--              handlers), Cycle (run_cycle, skip, settled, advance), Activation (activate,
--              reconcile_entitlements, snapshot_benefits, resume, open_new_cycle, end_benefits) and
--              Passes (process_due, retry_failed_grants, expire_subscriptions, claim, give_up)
--   Reconciliation  services/reconciliation_service.py: what a gateway says of an account (carry,
--              status_of, hold, close), Aligning (repoint, adopt, align), Applying (settle, open,
--              hand_over, apply) and Window (claim_window)
--   Idempotency  helpers/idempotency.py: once, claim, take_over, give_back, settle
--   Money      helpers/money.py: factor, minor_units
--   Texts      helpers/text.py: only_digits, is_valid_cpf, falls_under
--   Windows    helpers/bounded_windows.py: the windows that the rate limiter counts in
--   Webhook    services/webhook_service.py: the queue of notices (record_of, store, unread, claim,
--              fail, close_exhausted), Handling (ingest, run, apply, settle_payment) and Retrying
--              (retry_failed)
--   Benefits   services/benefit_service.py: what a benefit may say, with declared and ensure_reaches of
--              services/crud_service.py
--   Scope      helpers/scope.py: the tenant that a row belongs to
--   Crud       services/crud_service.py: the write path of a resource with a tenant (confinement,
--              stamped, create, update, delete, reorder)
--   Login      helpers/authentication_helper.py, services/login_ticket_service.py and, in Email,
--              services/email_login_service.py (confirm, and request in Email/Request): who may sign
--              in, by a ticket or by a code
--   Rotation   services/rotation_service.py, with encrypt and decrypt of helpers/security.py
--   Retention  services/retention_service.py: settled, trim_where, discard, drained
--   Sweep      services/sweep_service.py: waiting, discard_orphans
--   Errors     what a service raises
--   Base       tables as lists of rows, texts as lists of code points, integers, Boolean tests
--
-- A table is the list of its rows, the newest first; `select … where` is `find`, `update … where` is
-- `update_where` and its `rowcount` is `count_where`. An operation takes the state and gives back the
-- state, with a result where it may raise. Other sessions enter where the source makes room for them:
-- the wait for the row lock of a balance is a function on the ledger (`others`), what it commits stays
-- when the session that waited is rolled back (`crossed`, `rolled_back`), and the time between
-- the read and the write of `settle_purchase` is a list of functions on the shop (`rounds`); what is
-- written to the accounts while somebody signs in, and the files that are claimed while orphans go, are
-- functions too. What a notice asks of the accounts is an interface (`Office`), and so are the hooks
-- of a resource (`Resource`) and the keys that seal secrets (`Keys`).
--
-- Bounds and fuel. The walk along a schedule has as much fuel as the stamps are apart, and each step
-- takes at least one; `settle_purchase` runs one round per member of `rounds`, and two rounds that
-- nobody crosses are enough. A balance fits its column of 63 bits. The loops over pages have one round
-- more than there are rows, and the pass over the orphans one more than there are unclaimed ones.
--
-- What is left out: the text of errors and the JSON columns; Python's ceiling at the year 9999; the
-- time that passes inside one call, which reads its clock once; the sessions that cross a delivery,
-- or a word of the gateway while its row is held, which the source keeps out with a lock on the row of
-- the subscription; the sessions that cross a named request, a notice under its claim, a batch of the
-- retention or a code that is confirmed; the drop of an answered key by the retention, after which its
-- write may run again. The calls to the gateways and the reading of a notice by their
-- classes, the digests and the draws of tokens, and the checks that a resource adds to a write are arguments.
-- Sign-in by password, social login, uploads, the sending of email, the statements that list and search,
-- and the pages are not modelled: they are glue over libraries or are planned.
pub mod Base
pub mod Benefits
pub mod Commerce
pub mod Crud
pub mod Dates
pub mod Delivery
pub mod Errors
pub mod Idempotency
pub mod Ledger
pub mod Login
pub mod Money
pub mod Reconciliation
pub mod Retention
pub mod Rotation
pub mod Scope
pub mod Sweep
pub mod Texts
pub mod Webhook
pub mod Windows
