-- ===== src/Lib.antt =====
-- High-throughput payments: three Go services over one Postgres database, Kafka and Stripe.
--
-- Order Service creates and cancels orders over HTTP and writes an event beside each change into the
-- table outbox_events, in the same transaction. A relay publishes these rows to Kafka. Inventory
-- Service takes order.created (it deducts a unit) and order.cancelled and payment.failed (it puts a
-- unit back). Payment Service takes order.created (it charges at Stripe and records a pending
-- payment) and order.cancelled (it records the cancel and refunds a payment that succeeded); Stripe
-- reports the result of a charge to its webhook. Kafka delivers at least once; a row in
-- processed_events, written in the handler's transaction, makes a redelivery do nothing.
--
-- The files:
--   Base            shared names; tables as lists of rows (Base/Rows), equality as an interface
--                   (Base/Tests), int64 (Base/Int)
--   Exec            Go code that changes state and may return an error, with do blocks;
--                   Exec/Ensures has one rule for postconditions per way to build an action
--   Json            encoding/json on the structs that are sent
--   Db              internal/db: the tables (Db/Schema), a transaction (Db/Transaction) with its
--                   rules (Db/Rules), and orders_repo.go (Db/Orders), outbox_repo.go (Db/Outbox for
--                   Insert, Db/Claims for FetchAndClaimUnpublished and MarkPublished),
--                   products_repo.go, payments_repo.go and processed_events_repo.go; Db/Faults
--                   lists what can go wrong with any handler
--   External, Http  what is called and not in the repository; what the HTTP handlers write
--   OrderService    order-service/handlers.go: CreateOrder is create_order, GetOrder get_order,
--                   CancelOrder cancel_order; the part inside the transaction is create_tx, cancel_tx
--   InventoryService  inventory-service/handler.go: HandleOrderCreated is handle_order_created,
--                   HandleCompensation handle_compensation
--   PaymentService  payment-service: handler.go (PaymentService/Handler), webhook.go
--                   (PaymentService/Webhook), refund.go (PaymentService/Refund)
--   Relay           internal/outbox/relay.go: publishPending is publish_pending, and Run is run of
--                   Relay/Run over what its `select` gives; Relay/Pollers has the relays that poll
--                   at once, with the row locks of FOR UPDATE SKIP LOCKED
--   ResilientStripe internal/resilientstripe/client.go over retry-go and gobreaker as interfaces
--   Stripe          internal/stripeclient/client.go over stripe-go as an interface, and the client
--                   that payment-service/main.go makes of both
--   Consumer        internal/kafka/consumer.go: Run is run, one pass of its loop is turn
--   Startup         the main functions of the three services, with internal/db/postgres.go (new_pool)
--                   and internal/outbox/topics.go (ensure_topic); Startup/Shutdown has the server,
--                   the wait for a signal and what is deferred (program is the whole of main)
--   Saga            the services together on arbitrary messages (Saga/System), and what holds of
--                   every run; Saga/Ran has the outcome of any input as one data type
--   Pipeline        the services with the relay and Kafka: only what a relay has written is
--                   delivered; Pipeline/Grounded says what the tables then say of orders
--   Interleaving    payment-service's three transactions on one order, statement by statement, as
--                   they interleave; Interleaving/View to Interleaving/Services relate them to Saga
--   Tests           concrete parameters, tests and examples of the theorems
--
-- A handler's file has a child (Created, Cancelled, Settled, Outcomes, Published) with a data type
-- of the outcomes that a run may have: the response or error, the tables and Stripe afterwards, and
-- when. What is shown of the whole system goes through these outcomes and not through the code.
--
-- State. A Session has the committed tables, the tables of the open transaction, whether that is
-- aborted, and a world: Stripe with its circuit breakers, or Kafka. A statement that fails aborts
-- its transaction; a rollback undoes the tables and not the world. An Env says of one run which
-- calls of pgx fail, what uuid.NewV7 gives and the time. A call is made at most once in a run (the
-- relay's MarkPublished at most once for a row), so that an Env can give every pattern of failures.
--
-- Two views of the messages. In Saga a consumer may meet any document at any time, which covers lost,
-- repeated and reordered messages and foreign ones. In Pipeline the steps are requests from outside,
-- polls of the relay and deliveries of messages that the topic holds, any number of times.
--
-- Two views of concurrency. In Saga a handler runs as a whole, on all tables and with every error
-- that pgx can return. In Interleaving the handlers of Payment Service run one statement at a time on
-- the tables of one order, under READ COMMITTED, and wait for the advisory lock of LockOrder and for
-- the row that `SELECT … FOR UPDATE` and `UPDATE` lock; any of them may fail and roll back at any
-- statement. Both are related to the same steps (Interleaving/Serial).
--
-- Simplifications. In Interleaving one transaction of each kind is open on an order at a time, since
-- another waits at the unique key of processed_events or at the payment's row. Inventory Service's
-- statements are not interleaved: each handler's changes are single UPDATE and INSERT statements. A
-- commit that returns an error has changed nothing. A uuid is the number its bytes make, an id of a
-- row. A string constant (a topic, a status) is a constructor, whose text is `spelling`. A field name
-- of JSON is the tag it matches. A new row stands first in its table, and rows of one creation time
-- are claimed in the table's order. Log lines and the texts of wrapped errors are left out.
--
-- Loops are recursions on a list, but for the consumer's, which has no end of its own: its fuel is
-- the number of passes. FetchMessage may return messages that it holds after its context has ended, so
-- that no number of passes is enough for every run to end. Interleaving/Progress runs a schedule on
-- fuel, of which the statements that are left are enough.
--
-- Parameters: google/uuid (UuidLib, whose one law is that the text of an id parses to the id), the
-- Stripe client (ChargeIssuer, RefundIssuer), the verification of a webhook (construct_event) and
-- Kafka's writer (KafkaWriter). Results that need Stripe to make a refund say so (AlwaysRefunds).
--
-- ResilientStripe takes retry-go and gobreaker as Retry and Breaker, whose laws are what their
-- documentation says of DoWithData, with its context, and of Execute, open and half-open; the handlers take their client as an interface.
--
-- The reader of kafka-go is Reader, with Offsets for what it has returned and committed in each
-- partition; stripe-go is StripeGo, with HonoursKeys for idempotency keys until Stripe removes them;
-- the operating system, pgxpool and the connections of kafka-go are Platform, with Documented for what they open and close.
-- The log of Kafka is KafkaLog: a topic holds what was written to it. net/http and os/signal are
-- HttpServer, with LeavesConnections for what they leave alone.
--
-- Not modelled: the circuit breakers over time and the delays between attempts; the rebalancing of
-- partitions between consumers; what becomes of a handler that still runs when main returns.
pub mod Base
pub mod Exec
pub mod Json
pub mod Db
pub mod External
pub mod Http
pub mod OrderService
pub mod InventoryService
pub mod PaymentService
pub mod Pipeline
pub mod Relay
pub mod ResilientStripe
pub mod Saga
pub mod Interleaving
pub mod Consumer
pub mod Startup
pub mod Stripe
pub mod Tests
