-- ===== src/Db/Schema.antt =====
-- The tables that the migrations create, and the constants that the rows hold. Go's string
-- constants are constructors; `spelling` is the text that each stands for.
use high_throughput_payments.Base.{ℕ, String, Bool, Option, List, Eq, ◌==◌, nat_eq, ◌&&◌}
use high_throughput_payments.Base.Int.{ℤ}
use high_throughput_payments.Json.{Field}

-- internal/models/order.go
pub data OrderStatus : Type 0 where
  pending paid failed cancelled : OrderStatus

pub data PaymentStatus : Type 0 where
  pending succeeded failed refunded : PaymentStatus

-- Kafka topics and event types (one constant serves as both), and the Stripe event types that
-- key `processed_events`.
pub data EventType : Type 0 where
  order_created order_cancelled payment_completed payment_failed payment_refunded : EventType
  inventory_deducted inventory_failed inventory_restocked : EventType
  intent_succeeded intent_payment_failed : EventType

abbrev pub spelling : EventType → String
spelling order_created = "order.created"
spelling order_cancelled = "order.cancelled"
spelling payment_completed = "payment.completed"
spelling payment_failed = "payment.failed"
spelling payment_refunded = "payment.refunded"
spelling inventory_deducted = "inventory.deducted"
spelling inventory_failed = "inventory.failed"
spelling inventory_restocked = "inventory.restocked"
spelling intent_succeeded = "payment_intent.succeeded"
spelling intent_payment_failed = "payment_intent.payment_failed"

-- the consumer group of each writer of `processed_events`
pub data ConsumerGroup : Type 0 where
  inventory_service payment_service payment_service_webhook : ConsumerGroup

unfoldable pub order_status_discrete : Discrete OrderStatus
order_status_discrete = hlevel

unfoldable pub payment_status_discrete : Discrete PaymentStatus
payment_status_discrete = hlevel

unfoldable pub event_type_discrete : Discrete EventType
event_type_discrete = hlevel

unfoldable pub group_discrete : Discrete ConsumerGroup
group_discrete = hlevel

instance abbrev pub order_status_eq : Eq OrderStatus
order_status_eq = record { decide = order_status_discrete }

instance abbrev pub payment_status_eq : Eq PaymentStatus
payment_status_eq = record { decide = payment_status_discrete }

instance abbrev pub event_type_eq : Eq EventType
event_type_eq = record { decide = event_type_discrete }

instance abbrev pub group_eq : Eq ConsumerGroup
group_eq = record { decide = group_discrete }

-- `models.Order`, a row of `orders`
pub record Order : Type 0 where
  pub id : ℕ
  pub user_id : ℤ
  pub product_id : String
  pub amount : ℤ
  pub status : OrderStatus
  pub created_at : ℕ

pub record OutboxEvent : Type 0 where
  pub id : ℕ
  pub topic : EventType
  pub partition_key : String
  pub event_type : EventType
  pub schema_version : ℕ
  pub payload : List Field
  pub created_at : ℕ

-- a row of `outbox_events`: the event, and the column that `MarkPublished` sets
pub record OutboxRow : Type 0 where
  pub event : OutboxEvent
  pub open event use *
  pub published_at : Option ℕ

pub record Product : Type 0 where
  pub id : String
  pub stock : ℕ

-- `db.Payment`, a row of `payments`
pub record Payment : Type 0 where
  pub order_id : ℕ
  pub stripe_payment_intent_id : String
  pub product_id : String
  pub amount : ℤ
  pub status : PaymentStatus

-- a row of `processed_events`, all of it primary key
pub record ProcessedEvent : Type 0 where
  pub order_id : ℕ
  pub event_type : EventType
  pub consumer_group : ConsumerGroup

abbrev pub same_event : ProcessedEvent → ProcessedEvent → Bool
same_event a b =
    a.order_id == b.order_id && a.event_type == b.event_type && a.consumer_group == b.consumer_group

pub record Db : Type 0 where
  pub orders : List Order
  pub outbox : List OutboxRow
  pub products : List Product
  pub processed : List ProcessedEvent
  pub payments : List Payment
  pub cancelled : List ℕ
