-- ===== src/Pipeline/Grounded.antt =====
-- What the tables say of orders: every event, payment and cancel is of an order that was placed,
-- with the data that it was placed with.
use high_throughput_payments.Base.{String, List, ◌≡◌, true, All, All-map, distinct}
use high_throughput_payments.Base.Int.{is_int64}
use high_throughput_payments.Json.{Field}
use high_throughput_payments.Db.{
  Db, Order, Payment, PaymentStatus, OutboxRow, Product, ProcessedEvent, EventType, order_created,
  order_cancelled, payment_refunded,
}
use high_throughput_payments.Db.Outbox.{add_row}
use high_throughput_payments.External.{UuidLib}
use high_throughput_payments.OrderService.Events.{marshal_order_created}
use high_throughput_payments.PaymentService.Events.{marshal_payment_event}
use high_throughput_payments.Relay.{Message, message}
use high_throughput_payments.Pipeline.Orders.{Placed, IsCancelled, Grows, same_order}

-- the order's id, product and amount are the payment's; a refund is of a cancelled order
abbrev pub Paid : List Order → Payment → Type 0
Paid os p =
    (o : Order) × Placed os o
    × (p.order_id ≡ o.id)
    × (p.product_id ≡ o.product_id)
    × (p.amount ≡ o.amount)
    × (p.status ≡ PaymentStatus.refunded → IsCancelled os p.order_id)

module _ (uuids : UuidLib) where
  -- the payload of order.created, and of any other event
  abbrev pub order_fields : Order → List Field
  order_fields o = marshal_order_created uuids (record {
    order_id = o.id;
    user_id = o.user_id;
    product_id = o.product_id;
    amount = o.amount;
  })

  abbrev pub event_fields : Order → List Field
  event_fields o =
      marshal_payment_event (record { order_id = uuids.to_string o.id; product_id = o.product_id })

  -- the key is the order's id, and the payload names the order and its product
  abbrev pub Tells : List Order → Order → String → List Field → Type 0
  Tells os o key body = Placed os o × (key ≡ uuids.to_string o.id) × (body ≡ event_fields o)

  -- what an event of a type says: order.created has all fields of an order, with numbers that are
  -- int64; order.cancelled and payment.refunded are of a cancelled order
  abbrev pub Announces : List Order → EventType → String → List Field → Type 0
  Announces os order_created key body =
      (o : Order) × Placed os o
      × (is_int64 o.user_id ≡ true)
      × (is_int64 o.amount ≡ true)
      × (key ≡ uuids.to_string o.id)
      × (body ≡ order_fields o)
  Announces os order_cancelled key body = (o : Order) × Tells os o key body × IsCancelled os o.id
  Announces os payment_refunded key body = (o : Order) × Tells os o key body × IsCancelled os o.id
  Announces os _ key body = (o : Order) × Tells os o key body

  abbrev pub IsAnnounced : List Order → Message → Type 0
  IsAnnounced os m = Announces os m.topic m.key m.value × (m.event_type ≡ m.topic)

  abbrev pub Event : List Order → OutboxRow → Type 0
  Event os r = IsAnnounced os (message r.event)

  pub record Grounded (d : Db) : Type 0 where
    pub ids_unique : distinct same_order d.orders ≡ true
    pub events : All (Event d.orders) d.outbox
    pub payments : All (Paid d.orders) d.payments
    pub cancels : All (IsCancelled d.orders) d.cancelled

  module _ {os os' : List Order} (g : Grows os os') where
    Tells-grows :
        (key : String) (body : List Field)
        → (o : Order) × Tells os o key body
        → (o : Order) × Tells os' o key body
    Tells-grows key body (o, (p, k, q)) = (o, (g.placed o p, k, q))

    Announces-grows :
        (t : EventType) (key : String) (body : List Field)
        → Announces os t key body
        → Announces os' t key body
    Announces-grows order_created key body (o, p, u, a, k, q) = (o, g.placed o p, u, a, k, q)
    Announces-grows order_cancelled key body (o, (p, k, q), c) =
        (o, (g.placed o p, k, q), g.cancelled o.id c)
    Announces-grows payment_refunded key body (o, (p, k, q), c) =
        (o, (g.placed o p, k, q), g.cancelled o.id c)
    Announces-grows _ key body h = Tells-grows key body h

    pub IsAnnounced-grows : (m : Message) → IsAnnounced os m → IsAnnounced os' m
    IsAnnounced-grows m (a, e) = (Announces-grows m.topic m.key m.value a, e)

    pub Paid-grows : (p : Payment) → Paid os p → Paid os' p
    Paid-grows p (o, q, i, x, a, c) = (o, g.placed o q, i, x, a, λ r. g.cancelled p.order_id (c r))

  -- the parts of a change: of the orders, a new event, and tables that take no part
  pub Grounded-orders :
      {d : Db} (os : List Order)
      → distinct same_order os ≡ true
      → Grows d.orders os
      → Grounded d
      → Grounded (record d { orders = os })
  Grounded-orders {d} os u g h = record {
    ids_unique = u;
    events = All-map _ _ d.outbox (λ r. IsAnnounced-grows g (message r.event)) h.events;
    payments = All-map _ _ d.payments (Paid-grows g) h.payments;
    cancels = All-map _ _ d.cancelled g.cancelled h.cancels;
  }

  pub Grounded-event :
      {d : Db} (r : OutboxRow) → Event d.orders r → Grounded d → Grounded (add_row r d)
  Grounded-event r e h = record {
    ids_unique = h.ids_unique;
    events = (e, h.events);
    payments = h.payments;
    cancels = h.cancels;
  }

  pub Grounded-apart :
      {d : Db} (ps : List Product) (es : List ProcessedEvent)
      → Grounded d
      → Grounded (record d { products = ps; processed = es })
  Grounded-apart ps es h = record {
    ids_unique = h.ids_unique;
    events = h.events;
    payments = h.payments;
    cancels = h.cancels;
  }

  pub Grounded-payments :
      {d : Db} (ps : List Payment)
      → All (Paid d.orders) ps
      → Grounded d
      → Grounded (record d { payments = ps })
  Grounded-payments ps q h = record {
    ids_unique = h.ids_unique;
    events = h.events;
    payments = q;
    cancels = h.cancels;
  }
