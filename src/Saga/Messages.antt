-- ===== src/Saga/Messages.antt =====
-- Payloads between the services: what Order Service and Payment Service marshal, through the decoders
-- of their consumers.
use high_throughput_payments.Base.{◌≡◌, refl, true, some, arith, string_discrete}
use high_throughput_payments.Base.Int.{is_int64}
use high_throughput_payments.Json.{object, string_field, int64_field}
use high_throughput_payments.External.{UuidLib}
use high_throughput_payments.OrderService.Events as Order
use high_throughput_payments.PaymentService.Events as Payment
use high_throughput_payments.InventoryService.Events as Inventory

-- For an order whose numbers fit into int64, both consumers of order.created read from the payload
-- that Order Service writes the id's text, the user, the product and the amount of the order.
pub order_created_roundtrip :
    (uuids : UuidLib) (e : Order.OrderCreatedEvent)
    → is_int64 e.user_id ≡ true
    → is_int64 e.amount ≡ true
    → (Payment.unmarshal_order_created (object (Order.marshal_order_created uuids e))
        ≡ some (record {
          order_id = uuids.to_string e.order_id;
          user_id = e.user_id;
          product_id = e.product_id;
          amount = e.amount;
        }))
      × (Inventory.unmarshal_order_created (object (Order.marshal_order_created uuids e))
          ≡ some (record {
            order_id = uuids.to_string e.order_id;
            user_id = e.user_id;
            product_id = e.product_id;
            amount = e.amount;
          }))
unfolding Payment.unmarshal_order_created Inventory.unmarshal_order_created string_field int64_field
    string_discrete
order_created_roundtrip uuids e user amount = (ground arith, ground arith)

pub order_cancelled_roundtrip :
    (uuids : UuidLib) (e : Order.OrderCancelledEvent)
    → (Payment.unmarshal_order_cancelled (object (Order.marshal_order_cancelled uuids e))
        ≡ some (record { order_id = uuids.to_string e.order_id }))
      × (Inventory.unmarshal_compensation (object (Order.marshal_order_cancelled uuids e))
          ≡ some (record { order_id = uuids.to_string e.order_id; product_id = e.product_id }))
unfolding Payment.unmarshal_order_cancelled Inventory.unmarshal_compensation string_field
    string_discrete
order_cancelled_roundtrip uuids e = (refl, refl)

pub payment_event_roundtrip :
    (e : Payment.PaymentEvent)
    → Inventory.unmarshal_compensation (object (Payment.marshal_payment_event e))
      ≡ some (record { order_id = e.order_id; product_id = e.product_id })
unfolding Inventory.unmarshal_compensation string_field string_discrete
payment_event_roundtrip e = refl

-- From the payload of order.cancelled, Payment Service reads the id's text and Inventory Service
-- reads the id's text and the product that Order Service wrote; and from the payload of a payment
-- event Inventory Service reads the id's text and the product that Payment Service wrote.
pub compensation_roundtrip :
    (uuids : UuidLib) (e : Order.OrderCancelledEvent) (p : Payment.PaymentEvent)
    → (Payment.unmarshal_order_cancelled (object (Order.marshal_order_cancelled uuids e))
        ≡ some (record { order_id = uuids.to_string e.order_id }))
      × (Inventory.unmarshal_compensation (object (Order.marshal_order_cancelled uuids e))
          ≡ some (record { order_id = uuids.to_string e.order_id; product_id = e.product_id }))
      × (Inventory.unmarshal_compensation (object (Payment.marshal_payment_event p))
          ≡ some (record { order_id = p.order_id; product_id = p.product_id }))
compensation_roundtrip uuids e p =
    let (paid, stocked) = order_cancelled_roundtrip uuids e in
    (paid, stocked, payment_event_roundtrip p)
