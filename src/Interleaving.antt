-- ===== src/Interleaving.antt =====
-- The handlers of payment-service/handler.go and webhook.go on one order, statement by statement, as
-- their transactions interleave in Postgres (READ COMMITTED): each statement reads the committed
-- tables, the locks of LockOrder and of the payment's row make a transaction wait, and a commit
-- writes what its transaction has changed.
--
-- One transaction of each kind is open at a time: a second one for the order waits at the unique key
-- of processed_events (order.created, order.cancelled) or at the payment's row (webhook).
pub mod Invariant
pub mod Coherent
pub mod Serial
pub mod Progress
pub mod View
pub mod Marks
pub mod Sequential
pub mod Settling
pub mod Services
use high_throughput_payments.Base.{
  ◌≡◌, Bool, true, false, ◌||◌, ◌&&◌, Option, none, some, List, [], ◌∷◌, if◌then◌else◌,
}
use high_throughput_payments.Db.{PaymentStatus}

-- what the tables hold for the order
pub record Tables : Type 0 where
  pub payment : Option PaymentStatus
  pub cancelled : Bool
  pub created_seen : Bool
  pub cancelled_seen : Bool
  pub success_seen : Bool
  pub failure_seen : Bool

-- how far `HandleOrderCreated` is: after MarkProcessed, LockOrder, IsCancelled, the call of Stripe,
-- and the insert
pub data ChargePc : Type 0 where
  idle marked locked skipping checked accepted declined inserted announced : ChargePc

-- how far `HandleOrderCancelled` is: after MarkProcessed, LockOrder, MarkCancelled,
-- GetByOrderIDForUpdate, the call of Stripe, and the update
pub data CancelPc : Type 0 where
  idle marked locked recorded : CancelPc
  fetched : Option PaymentStatus → CancelPc
  refund_made refund_recorded : CancelPc

-- what Stripe reports: `payment_intent.succeeded` or `payment_intent.payment_failed`
pub data Report : Type 0 where
  success failure : Report

-- how far `HandleStripeWebhook` is: after UpdateStatusByIntentID, MarkProcessed, IsCancelled, the
-- refund's call of Stripe, and the last insert
pub data WebhookPc : Type 0 where
  idle : WebhookPc
  updated marked : Report → WebhookPc
  checked : Report → Bool → WebhookPc
  refund_made refund_recorded : WebhookPc
  announced : Report → WebhookPc

pub record State : Type 0 where
  pub tables : Tables
  pub charge : ChargePc
  pub cancel : CancelPc
  pub webhook : WebhookPc
  -- Stripe has refunded the payment: no rollback undoes it
  pub refunded : Bool

-- the advisory lock of LockOrder is held
abbrev pub charge_locks : ChargePc → Bool
charge_locks ChargePc.idle = false
charge_locks ChargePc.marked = false
charge_locks _ = true

abbrev pub cancel_locks : CancelPc → Bool
cancel_locks CancelPc.idle = false
cancel_locks CancelPc.marked = false
cancel_locks _ = true

-- the payment's row is locked
abbrev pub cancel_locks_row : CancelPc → Bool
cancel_locks_row (CancelPc.fetched (some _)) = true
cancel_locks_row CancelPc.refund_made = true
cancel_locks_row CancelPc.refund_recorded = true
cancel_locks_row _ = false

abbrev pub webhook_locks_row : WebhookPc → Bool
webhook_locks_row WebhookPc.idle = false
webhook_locks_row _ = true

-- `h.stripe.CreateAndConfirmPaymentIntent`: an intent, an error, or an open circuit
pub data Answer : Type 0 where
  accepted declined circuit_open : Answer

-- a handler goes on to its next statement
module _ (s : State) where
  abbrev pub charge_to : ChargePc → State
  charge_to pc = record s { charge = pc }

  abbrev pub cancel_to : CancelPc → State
  cancel_to pc = record s { cancel = pc }

  abbrev pub webhook_to : WebhookPc → State
  webhook_to pc = record s { webhook = pc }

  -- the commit of each handler
  abbrev pub charge_ends : Tables → State
  charge_ends t = record s { tables = t; charge = ChargePc.idle }

  abbrev pub cancel_ends : Tables → State
  cancel_ends t = record s { tables = t; cancel = CancelPc.idle }

  abbrev pub webhook_ends : Tables → State
  webhook_ends t = record s { tables = t; webhook = WebhookPc.idle }

abbrev pub answered : Answer → ChargePc
answered Answer.accepted = ChargePc.accepted
answered Answer.declined = ChargePc.declined
answered Answer.circuit_open = ChargePc.idle

-- the tables after each commit
abbrev pub seen_created : Tables → Tables
seen_created t = record t { created_seen = true }

abbrev pub with_payment : Tables → Tables
with_payment t = record t { created_seen = true; payment = some PaymentStatus.pending }

abbrev pub with_cancel : Tables → Tables
with_cancel t = record t { cancelled_seen = true; cancelled = true }

abbrev pub with_refund : Tables → Tables
with_refund t = record t {
  cancelled_seen = true;
  cancelled = true;
  payment = some PaymentStatus.refunded;
}

abbrev pub is_seen : Report → Tables → Bool
is_seen Report.success t = t.success_seen
is_seen Report.failure t = t.failure_seen

abbrev pub reported_status : Report → PaymentStatus
reported_status Report.success = PaymentStatus.succeeded
reported_status Report.failure = PaymentStatus.failed

abbrev pub is_success_report : Report → Bool
is_success_report Report.success = true
is_success_report Report.failure = false

abbrev pub with_report : Report → PaymentStatus → Tables → Tables
with_report r status t = record t {
  payment = some status;
  success_seen = if is_success_report r then true else t.success_seen;
  failure_seen = if is_success_report r then t.failure_seen else true;
}

-- `HandleOrderCreated`
unfoldable pub charge_from : ChargePc → Answer → State → Option State
charge_from ChargePc.idle a s =
    some (if s.tables.created_seen then s else charge_to s ChargePc.marked)
charge_from ChargePc.marked a s =
    if cancel_locks s.cancel then none else some (charge_to s ChargePc.locked)
charge_from ChargePc.locked a s =
    some (charge_to s (if s.tables.cancelled then ChargePc.skipping else ChargePc.checked))
charge_from ChargePc.skipping a s = some (charge_ends s (seen_created s.tables))
charge_from ChargePc.checked a s = some (charge_to s (answered a))
charge_from ChargePc.accepted a s =
    some (charge_to s (elim s.tables.payment [ none ↦ ChargePc.inserted | some _ ↦ ChargePc.idle ]))
charge_from ChargePc.declined a s = some (charge_to s ChargePc.announced)
charge_from ChargePc.inserted a s = some (charge_ends s (with_payment s.tables))
charge_from ChargePc.announced a s = some (charge_ends s (seen_created s.tables))

-- `HandleOrderCancelled`; of what it fetched, only a payment that succeeded is refunded
abbrev pub after_fetch : Option PaymentStatus → State → State
after_fetch (some PaymentStatus.succeeded) s = record s {
  cancel = CancelPc.refund_made;
  refunded = true;
}
after_fetch _ s = record s { tables = with_cancel s.tables; cancel = CancelPc.idle }

unfoldable pub cancel_from : CancelPc → State → Option State
cancel_from CancelPc.idle s =
    some (if s.tables.cancelled_seen then s else cancel_to s CancelPc.marked)
cancel_from CancelPc.marked s =
    if charge_locks s.charge then none else some (cancel_to s CancelPc.locked)
cancel_from CancelPc.locked s = some (cancel_to s CancelPc.recorded)
cancel_from CancelPc.recorded s =
    if webhook_locks_row s.webhook
    then none
    else some (cancel_to s (CancelPc.fetched s.tables.payment))
cancel_from (CancelPc.fetched p) s = some (after_fetch p s)
cancel_from CancelPc.refund_made s = some (cancel_to s CancelPc.refund_recorded)
cancel_from CancelPc.refund_recorded s = some (cancel_ends s (with_refund s.tables))

-- `HandleStripeWebhook`: a payment that is not there is acknowledged
abbrev pub first_update : Option PaymentStatus → Report → State → Option State
first_update none r s = some s
first_update (some _) r s =
    if cancel_locks_row s.cancel then none else some (record s { webhook = WebhookPc.updated r })

-- a success of a cancelled order is refunded, a failure is committed
abbrev pub after_check : Report → Bool → State → State
after_check r false s = record s { webhook = WebhookPc.announced r }
after_check Report.success true s = record s { webhook = WebhookPc.refund_made; refunded = true }
after_check Report.failure true s = record s {
  tables = with_report Report.failure PaymentStatus.failed s.tables;
  webhook = WebhookPc.idle;
}

unfoldable pub webhook_from : WebhookPc → Report → State → Option State
webhook_from WebhookPc.idle r s = first_update s.tables.payment r s
webhook_from (WebhookPc.updated r) _ s =
    some (webhook_to s (if is_seen r s.tables then WebhookPc.idle else WebhookPc.marked r))
webhook_from (WebhookPc.marked r) _ s = some (webhook_to s (WebhookPc.checked r s.tables.cancelled))
webhook_from (WebhookPc.checked r c) _ s = some (after_check r c s)
webhook_from WebhookPc.refund_made _ s = some (webhook_to s WebhookPc.refund_recorded)
webhook_from WebhookPc.refund_recorded _ s =
    some (webhook_ends s (with_report Report.success PaymentStatus.refunded s.tables))
webhook_from (WebhookPc.announced r) _ s =
    some (webhook_ends s (with_report r (reported_status r) s.tables))

-- A move is the next statement of a transaction, or its end by an error, which rolls it back.
pub data Move : Type 0 where
  charge_moves : Answer → Move
  cancel_moves : Move
  webhook_moves : Report → Move
  charge_fails cancel_fails webhook_fails : Move

unfoldable pub advance : Move → State → Option State
advance (Move.charge_moves a) s = charge_from s.charge a s
advance Move.cancel_moves s = cancel_from s.cancel s
advance (Move.webhook_moves r) s = webhook_from s.webhook r s
advance Move.charge_fails s = some (charge_to s ChargePc.idle)
advance Move.cancel_fails s = some (cancel_to s CancelPc.idle)
advance Move.webhook_fails s = some (webhook_to s WebhookPc.idle)

-- a transaction that waits does not move
abbrev pub or_wait : State → Option State → State
or_wait s none = s
or_wait s (some s') = s'

unfoldable pub step : Move → State → State
step m s = or_wait s (advance m s)

unfoldable pub run : List Move → State → State
run [] s = s
run (m ∷ ms) s = run ms (step m s)

-- an order of which the tables know nothing
abbrev pub initial : State
initial = record {
  tables = record {
    payment = none;
    cancelled = false;
    created_seen = false;
    cancelled_seen = false;
    success_seen = false;
    failure_seen = false;
  };
  charge = ChargePc.idle;
  cancel = CancelPc.idle;
  webhook = WebhookPc.idle;
  refunded = false;
}
