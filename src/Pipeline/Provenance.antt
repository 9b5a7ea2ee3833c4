-- ===== src/Pipeline/Provenance.antt =====
-- Where the data of events, payments and cancels comes from, through all steps of the system.
use high_throughput_payments.Base.{
  ℕ, String, List, [], ◌∷◌, ◌==◌, nat_eq, ◌≡◌, All-of, refl, sym, subst, All, All-update, inl, inr,
}
use high_throughput_payments.Json.{Document, Field, object}
use high_throughput_payments.Db.{Db, Env, EventType, OutboxEvent, order_cancelled, payment_failed}
use high_throughput_payments.Db.Claims.{claimed, claimed_rows, publish_row, set_published}
use high_throughput_payments.OrderService.Handlers.Outcomes.{
  create_order-Created, cancel_order-Cancelled,
}
use high_throughput_payments.InventoryService.Handler.Outcomes as Inventory
use high_throughput_payments.PaymentService.Handler.Created as Charging
use high_throughput_payments.PaymentService.Handler.Cancelled as Cancelling
use high_throughput_payments.PaymentService.Webhook.Settled as Settling
use high_throughput_payments.Relay.{Message, message, KafkaWriter, batch_size}
use high_throughput_payments.Relay.Batch.{claimed_rows-All}
use high_throughput_payments.Relay.Published.{
  acked, mark_all, Published, idle, marked, unrecorded, publish_pending-Published,
}
use high_throughput_payments.Saga.System as Saga
use high_throughput_payments.Saga.System.{
  Services, Input, inventory_handler, payment_handler, webhook_handler, start,
}
use high_throughput_payments.Pipeline.{
  KafkaLog, Subscribed, Asked, State, served, poll_session, Step, Steps,
}
use high_throughput_payments.Pipeline.Orders.{IsCancelled}
use high_throughput_payments.Pipeline.Growth.{step-Grows}
use high_throughput_payments.Pipeline.Grounded.{
  Announces, IsAnnounced, IsAnnounced-grows, Event, Grounded,
}
use high_throughput_payments.Pipeline.Requests as Requests
use high_throughput_payments.Pipeline.Consumers.{
  charge_names, deduction_names, compensation_names, cancel_names, Deduction-Grounded,
  Compensated-Grounded, parsed,
}
use high_throughput_payments.Pipeline.Payments.{
  Created-Grounded, Cancelled-Grounded, Settled-Grounded,
}

module _ {W K : Type 0} (sv : Services W) {writer : KafkaWriter K} (log : KafkaLog writer) where
  -- the tables are grounded, and so is every message that a topic holds
  pub record IsGrounded (s : State W K) : Type 0 where
    pub tables : Grounded sv.uuids s.db
    pub messages : (m : Message) → log.Holds s.kafka m → IsAnnounced sv.uuids s.db.orders m

  served-IsGrounded :
      (env : Env) (i : Input) (s : State W K)
      → Grounded sv.uuids (served sv log env i s).db
      → IsGrounded s
      → IsGrounded (served sv log env i s)
  served-IsGrounded env i s k g = record {
    tables = k;
    messages = λ m h.
        IsAnnounced-grows sv.uuids (step-Grows sv (env, i) (record { db = s.db; world = s.stripe }))
          m (g.messages m h);
  }

  asked :
      (env : Env) {i : Input} (s : State W K)
      → Asked i
      → Grounded sv.uuids s.db
      → Grounded sv.uuids (served sv log env i s).db
  unfolding Saga.step
  asked env s (Asked.order doc) g =
      Requests.Created-Grounded (create_order-Created sv.uuids env doc _) g
  asked env s (Asked.cancel text) g =
      Requests.Cancelled-Grounded (cancel_order-Cancelled sv.uuids env text _) g
  asked env s (Asked.webhook r) g =
      Settling.handle_stripe_webhook_rule (webhook_handler sv) env (λ _ d _. Grounded sv.uuids d) r
        _ (λ _ _. g) g
        (λ b e out i x d' w _ y c. Settled-Grounded (webhook_handler sv) e.event_type y c g)

  delivered :
      (env : Env) {t : EventType} {f : Document → Input} (key : String) (body : List Field)
      (s : State W K)
      → Subscribed t f
      → Announces sv.uuids s.db.orders t key body
      → Grounded sv.uuids s.db
      → Grounded sv.uuids (served sv log env (f (object body)) s).db
  unfolding Saga.step
  delivered env key body s Subscribed.inventory_created a g =
      (Inventory.handle_order_created_rule (inventory_handler sv) env (λ _ d. Grounded sv.uuids d)
        (object body) _ (λ _. g) (λ _ _ _. g)
        (λ e n r d' q _ c.
          let (o, about) = deduction_names sv.uuids s.db.orders key body e a q in
          Deduction-Grounded o about c g)).at
  delivered env key body s Subscribed.inventory_cancelled (o, tells, _) g =
      (Inventory.handle_compensation_rule (inventory_handler sv) env order_cancelled
        (λ _ d. Grounded sv.uuids d) (object body) _ (λ _. g) (λ _ _ _. g)
        (λ e n r d' q _ c.
          Compensated-Grounded o (compensation_names sv.uuids s.db.orders key body e o tells q) c
            g)).at
  delivered env key body s Subscribed.inventory_failed (o, tells) g =
      (Inventory.handle_compensation_rule (inventory_handler sv) env payment_failed
        (λ _ d. Grounded sv.uuids d) (object body) _ (λ _. g) (λ _ _ _. g)
        (λ e n r d' q _ c.
          Compensated-Grounded o (compensation_names sv.uuids s.db.orders key body e o tells q) c
            g)).at
  delivered env key body s Subscribed.payment_created a g =
      (Charging.handle_order_created_rule (payment_handler sv) env (λ _ d _. Grounded sv.uuids d)
        (object body) _ (λ _. g) (λ _ _ _. g)
        (λ e n r d' w q u c.
          let (o, about, amount) = charge_names sv.uuids s.db.orders key body e a q in
          Created-Grounded o about amount (parsed sv.uuids s.db.orders n about u) c g)).at
  delivered env key body s Subscribed.payment_cancelled (o, tells, gone) g =
      (Cancelling.handle_order_cancelled_rule (payment_handler sv) env
        (λ _ d _. Grounded sv.uuids d) (object body) _ (λ _. g) (λ _ _ _. g)
        (λ e n r d' w q u c.
          let same = cancel_names sv.uuids s.db.orders key body e o n tells q u in
          Cancelled-Grounded (payment_handler sv) (subst (IsCancelled s.db.orders) (sym same) gone)
            c g)).at

  -- what a poll sends was claimed from the table
  Holds-acked :
      (P : Message → Type 0) (es : List OutboxEvent) (k : K)
      → All (λ e. P (message e)) es
      → ((m : Message) → log.Holds k m → P m)
      → (m : Message) → log.Holds (acked writer es k).1 m
      → P m
  Holds-acked P [] k h q = q
  Holds-acked P (e ∷ es) k (p, h) q =
      Holds-acked P es (writer.write_messages (message e) k).1 h (λ m x.
        elim (log.was_written (message e) m k x) [ inl y ↦ q m y | inr y ↦ subst P (sym y) p ])

  mark_all-Grounded :
      (now : ℕ) (es : List OutboxEvent) (d : Db)
      → Grounded sv.uuids d
      → Grounded sv.uuids (mark_all now es d) × ((mark_all now es d).orders ≡ d.orders)
  mark_all-Grounded now [] d g = (g, refl)
  mark_all-Grounded now (e ∷ es) d g = mark_all-Grounded now es (set_published now e.id d) (record {
    ids_unique = g.ids_unique;
    events =
        All-update (Event sv.uuids d.orders) (λ r. r.id == e.id) (publish_row now) d.outbox
          (λ r _ h. h) g.events;
    payments = g.payments;
    cancels = g.cancels;
  })

  claimed-IsAnnounced :
      (d : Db)
      → Grounded sv.uuids d
      → All (λ e. IsAnnounced sv.uuids d.orders (message e)) (claimed batch_size d)
  claimed-IsAnnounced d g =
      All-of (λ r. r.event) (λ e. IsAnnounced sv.uuids d.orders (message e))
        (claimed_rows batch_size d)
        (claimed_rows-All (Event sv.uuids d.orders) batch_size d g.events)

  polled-IsGrounded :
      (env : Env) {d : Db} {k : K} {d' : Db} {k' : K} (w : W)
      → Published writer env d k d' k'
      → IsGrounded (record { db = d; stripe = w; kafka = k })
      → IsGrounded (record { db = d'; stripe = w; kafka = k' })
  polled-IsGrounded env w (idle c f) g = g
  polled-IsGrounded env {d} {k} w (unrecorded c f) g = record {
    tables = g.tables;
    messages =
        Holds-acked (IsAnnounced sv.uuids d.orders) (claimed batch_size d) k
          (claimed-IsAnnounced d g.tables) g.messages;
  }
  polled-IsGrounded env {d} {k} w marked g =
      let (tables, same) =
        mark_all-Grounded env.now (acked writer (claimed batch_size d) k).0 d g.tables in
      record {
        tables = tables;
        messages = λ m h.
            subst (λ os. IsAnnounced sv.uuids os m) (sym same)
              (Holds-acked (IsAnnounced sv.uuids d.orders) (claimed batch_size d) k
                (claimed-IsAnnounced d g.tables) g.messages m h);
      }

  step-IsGrounded : {s t : State W K} → Step sv log s t → IsGrounded s → IsGrounded t
  step-IsGrounded {s} (Step.asks env a) g = served-IsGrounded env _ s (asked env s a g.tables) g
  step-IsGrounded {s} (Step.polls env) g =
      polled-IsGrounded env s.stripe (publish_pending-Published writer env (poll_session sv log s))
        g
  step-IsGrounded {s} (Step.delivers env m b h q) g =
      let a = (g.messages m h).0 in
      served-IsGrounded env _ s
        (delivered env m.key m.value s b
          (subst (λ t. Announces sv.uuids s.db.orders t m.key m.value) q a) g.tables)
        g

  -- From a system of which this holds, as the empty one, after any steps: requests, polls of the
  -- relay and deliveries of messages that Kafka holds, in any order, again and with any failures,
  -- every event of the outbox and every message in Kafka is of an order that was placed, keyed by
  -- its id and with its product, an order.created also with its user and amount, and an
  -- order.cancelled or payment.refunded of a cancelled order; every payment has the product and the
  -- amount of the order under its id, and is refunded only if that order is cancelled; and every
  -- cancel that Payment Service has recorded is of a cancelled order.
  pub Steps-IsGrounded : {s t : State W K} → Steps sv log s t → IsGrounded s → IsGrounded t
  Steps-IsGrounded Steps.none_yet g = g
  Steps-IsGrounded (Steps.then_step ss x) g = step-IsGrounded x (Steps-IsGrounded ss g)
