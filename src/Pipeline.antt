-- ===== src/Pipeline.antt =====
-- The three services, their relays and Kafka as one system: the requests from outside are
-- arbitrary, and every message of a consumer is one that a relay has written to its topic.
pub mod Orders
pub mod Grounded
pub mod Requests
pub mod Consumers
pub mod Payments
pub mod Growth
pub mod Provenance
use high_throughput_payments.Base.{List, [], ◌∷◌, ◌≡◌, ◌⊎◌, true, Bool, String}
use high_throughput_payments.Exec.{Result}
use high_throughput_payments.Json.{Document, object}
use high_throughput_payments.Db.{
  Db, Session, Env, EventType, order_created, order_cancelled, payment_failed,
}
use high_throughput_payments.PaymentService.Webhook.{Request}
use high_throughput_payments.Relay.{Message, KafkaWriter, publish_pending}
use high_throughput_payments.Saga.System as Saga
use high_throughput_payments.Saga.System.{
  Services, Input, post_order, post_cancel, post_webhook, inventory_order_created,
  inventory_order_cancelled, inventory_payment_failed, payment_order_created,
  payment_order_cancelled,
}

-- What Kafka says of its log: a message that a topic holds was written to it. A write that
-- returns an error may have put the message there or not.
pub record KafkaLog {K : Type 0} (writer : KafkaWriter K) : Type 1 where
  pub Holds : K → Message → Type 0
  pub was_written :
      (m n : Message) (k : K) → Holds (writer.write_messages m k).1 n → Holds k n ⊎ (n ≡ m)

-- the consumers of the services: the topic, and the input that a message is
pub data Subscribed : EventType → (Document → Input) → Type 0 where
  inventory_created : Subscribed order_created inventory_order_created
  inventory_cancelled : Subscribed order_cancelled inventory_order_cancelled
  inventory_failed : Subscribed payment_failed inventory_payment_failed
  payment_created : Subscribed order_created payment_order_created
  payment_cancelled : Subscribed order_cancelled payment_order_cancelled

-- what comes from outside
pub data Asked : Input → Type 0 where
  order : (body : Document) → Asked (post_order body)
  cancel : (text : String) → Asked (post_cancel text)
  webhook : (r : Request) → Asked (post_webhook r)

-- the database, Stripe and Kafka
pub record State (W K : Type 0) : Type 0 where
  pub db : Db
  pub stripe : W
  pub kafka : K

module _ {W K : Type 0} (sv : Services W) {writer : KafkaWriter K} (log : KafkaLog writer) where
  abbrev pub served : Env → Input → State W K → State W K
  served env i s =
      let t = Saga.step sv (env, i) (record { db = s.db; world = s.stripe }) in
      record s { db = t.db; stripe = t.world }

  -- the session of one poll
  abbrev pub poll_session : State W K → Session K
  poll_session s = record { committed = s.db; work = s.db; aborted = Bool.false; world = s.kafka }

  abbrev pub polled : Env → State W K → State W K
  polled env s =
      let t = (publish_pending writer env (poll_session s)).1 in
      record s { db = t.committed; kafka = t.world }

  pub data Step (s : State W K) : State W K → Type 0 where
    asks : (env : Env) {i : Input} → Asked i → Step s (served env i s)
    polls : (env : Env) → Step s (polled env s)
    -- a delivery, the first or a later one
    delivers :
        (env : Env) {t : EventType} {f : Document → Input} (m : Message)
        → Subscribed t f
        → log.Holds s.kafka m
        → m.topic ≡ t
        → Step s (served env (f (object m.value)) s)

  -- any number of steps
  pub data Steps (s : State W K) : State W K → Type 0 where
    none_yet : Steps s s
    then_step : {t u : State W K} → Steps s t → Step t u → Steps s u
