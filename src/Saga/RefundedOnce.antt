-- ===== src/Saga/RefundedOnce.antt =====
-- Refunds against reported successes, through the outcomes of every handler and through runs.
use high_throughput_payments.Base.{
  ℕ, ◌+◌, ◌≤◌, String, List, ◌==◌, nat_eq, string_eq, ==_sound, ◌≡◌, refl, subst, ◌⊎◌, inl, inr,
  some, if_split, update, arith, Bool-cases,
}
use high_throughput_payments.Exec.{Result}
use high_throughput_payments.Http.{Response}
use high_throughput_payments.Json.{Document}
use high_throughput_payments.Db.{
  Db, Env, Error, EventType, spelling, intent_payment_failed, event_type_eq, event_type_discrete,
  group_discrete, intent_succeeded, inventory_service, payment_service, PaymentStatus,
  payment_status_eq, payment_status_discrete,
}
use high_throughput_payments.Db.Payments.{of_intent, set_status}
use high_throughput_payments.External.{UuidLib}
use high_throughput_payments.OrderService.Handlers.Outcomes as Orders
use high_throughput_payments.InventoryService.Handler.{InventoryHandler}
use high_throughput_payments.InventoryService.Events.{OrderCreatedEvent, CompensationEvent}
use high_throughput_payments.InventoryService.Handler.Outcomes as Inventory
use high_throughput_payments.PaymentService.Events as PaymentEvents
use high_throughput_payments.PaymentService.Handler.{PaymentHandler}
use high_throughput_payments.PaymentService.Handler.Created as Charging
use high_throughput_payments.PaymentService.Handler.Cancelled as Cancelling
use high_throughput_payments.PaymentService.Webhook.{
  WebhookHandler, Outcome, outcome, succeeded_outcome, failed_outcome,
}
use high_throughput_payments.PaymentService.Webhook.Settled as Settling
use high_throughput_payments.Saga.Consistent.{Consistent}
use high_throughput_payments.Saga.Safety.{ran-Consistent}
use high_throughput_payments.Saga.Refunds.{
  refunds, charges, successes, charged-refund, charged-found, charged-quiet, charged-other,
}
use high_throughput_payments.Saga.System.{
  webhook_handler, Services, State, Input, run, run_induction,
}
use high_throughput_payments.Saga.Ran.{
  Ran, unread, ordered, order_cancelled_by, deducted, restocked_cancel, restocked_failure, charged,
  cancelled, settled, step-Ran,
}

module _ (uuids : UuidLib) (o : ℕ) where
  -- a refund or a standing charge, and each only after a success that was reported
  abbrev pub RefundedOnce : Db → Type 0
  RefundedOnce d = refunds uuids o d + charges o d ≤ successes o d

  ordering :
      {env : Env} {doc : Document} {d d' : Db} {r : Response}
      → Orders.Created uuids env doc d r d'
      → RefundedOnce d
      → RefundedOnce d'
  unfolding event_type_discrete
  ordering (Orders.Created.malformed q) k = k
  ordering _ k = ground (arith, k)

  order_cancelling :
      {env : Env} {text : String} {d d' : Db} {r : Response}
      → Orders.Cancelled uuids env text d r d'
      → RefundedOnce d
      → RefundedOnce d'
  unfolding event_type_discrete
  order_cancelling (Orders.Cancelled.bad_id q) k = k
  order_cancelling _ k = ground (arith, k)

  deducting :
      {h : InventoryHandler} {env : Env} {n : ℕ} {e : OrderCreatedEvent} {d d' : Db}
      {r : Result Error (Unit {0})}
      → h.consumer_group ≡ inventory_service
      → Inventory.Deduction h env n e d r d'
      → RefundedOnce d
      → RefundedOnce d'
  unfolding event_type_discrete group_discrete
  deducting g (Inventory.Deduction.faulty q) k = k
  deducting g _ k = ground (arith, k, g)

  restocking :
      {h : InventoryHandler} {env : Env} {t : EventType} {n : ℕ} {e : CompensationEvent} {d d' : Db}
      {r : Result Error (Unit {0})}
      → h.consumer_group ≡ inventory_service
      → Inventory.Compensated h env t n e d r d'
      → RefundedOnce d
      → RefundedOnce d'
  unfolding event_type_discrete group_discrete
  restocking g (Inventory.Compensated.faulty q) k = k
  restocking g _ k = ground (arith, k, g)

  module _ {W : Type 0} where
    charging :
        {h : PaymentHandler W} {env : Env} {n : ℕ} {e : PaymentEvents.OrderCreatedEvent} {d d' : Db}
        {w w' : W} {r : Result Error (Unit {0})}
        → h.consumer_group ≡ payment_service
        → Charging.Created h env n e d w r d' w'
        → RefundedOnce d
        → RefundedOnce d'
    unfolding event_type_discrete group_discrete payment_status_discrete
    charging g (Charging.Created.faulty q) k = k
    charging g _ k = ground (arith, k, g)

    cancelling :
        {h : PaymentHandler W} {env : Env} {n : ℕ} {d d' : Db} {w w' : W}
        {r : Result Error (Unit {0})}
        → h.consumer_group ≡ payment_service
        → h.uuids ≡ uuids
        → Cancelling.Cancelled h env n d w r d' w'
        → RefundedOnce d
        → RefundedOnce d'
    unfolding event_type_discrete group_discrete
    cancelling {n} {d} g u (Cancelling.Cancelled.refunded p i f q c s m t) k = ground (
      arith,
      k,
      g,
      u,
      uuids.parse-to_string n,
      charged-refund o n d.payments,
      charged-found n d.payments p q c,
      ==_sound o n,
    )
    cancelling g u (Cancelling.Cancelled.faulty q) k = k
    cancelling g u _ k = ground (arith, k, g)

    -- a failure that Stripe reports
    failing :
        {h : WebhookHandler W} {env : Env} {i : String} {d d' : Db} {w w' : W} {r : Response}
        → Settling.Settled h env failed_outcome i d w r d' w'
        → RefundedOnce d
        → RefundedOnce d'
    unfolding event_type_discrete group_discrete payment_status_discrete
    failing (Settling.Settled.faulty q) k = k
    failing {i} {d} (Settling.Settled.announced p n f c m t) k =
        ground (arith, k, charged-quiet o (of_intent i) PaymentStatus.failed d.payments refl)
    failing {i} {d} (Settling.Settled.quiet p f c s) k =
        ground (arith, k, charged-quiet o (of_intent i) PaymentStatus.failed d.payments refl)
    failing (Settling.Settled.refunded p n f c s q m t) k = absurd (cc s)
    failing _ k = k

    -- a success that Stripe reports
    succeeding :
        {h : WebhookHandler W} {env : Env} {i : String} {d d' : Db} {w w' : W} {r : Response}
        → h.uuids ≡ uuids
        → Consistent d
        → Settling.Settled h env succeeded_outcome i d w r d' w'
        → RefundedOnce d
        → RefundedOnce d'
    unfolding event_type_discrete group_discrete payment_status_discrete
    succeeding u l (Settling.Settled.faulty q) k = k
    succeeding {i} {d} u l (Settling.Settled.announced p n f c m t) k =
        elim (Bool-cases (o == p.order_id)) [
          | inl y ↦ ground (arith, k, y, f.new, ==_sound o p.order_id)
          | inr y ↦ ground (
            arith,
            k,
            y,
            charged-other o i PaymentStatus.succeeded p d.payments l.intents_unique f.found y,
          )
        ]
    succeeding u l (Settling.Settled.quiet p f c s) k = absurd (cc s)
    succeeding {i} {d} u l (Settling.Settled.refunded p n f c s q m t) k =
        elim (Bool-cases (o == p.order_id)) [
          | inl y ↦ ground (
            arith,
            k,
            y,
            u,
            uuids.parse-to_string p.order_id,
            f.new,
            ==_sound o p.order_id,
            charged-refund o p.order_id
                (update (of_intent i) (set_status PaymentStatus.succeeded) d.payments),
          )
          | inr y ↦ ground (
            arith,
            k,
            y,
            u,
            uuids.parse-to_string p.order_id,
            charged-other o i PaymentStatus.succeeded p d.payments l.intents_unique f.found y,
            charged-refund o p.order_id
                (update (of_intent i) (set_status PaymentStatus.succeeded) d.payments),
          )
        ]
    succeeding u l _ k = k

outcome_cases :
    (x : String) (out : Outcome)
    → outcome x ≡ some out
    → (out ≡ succeeded_outcome) ⊎ (out ≡ failed_outcome)
unfolding outcome
outcome_cases x out q =
    if_split (λ m. m ≡ some out → (out ≡ succeeded_outcome) ⊎ (out ≡ failed_outcome))
      (x == spelling intent_succeeded) _ _ (λ _ e. inl (cc e))
      (λ _.
        if_split (λ m. m ≡ some out → (out ≡ succeeded_outcome) ⊎ (out ≡ failed_outcome))
          (x == spelling intent_payment_failed) _ _ (λ _ e. inr (cc e)) (λ _ e. cc e))
      q

module _ {W : Type 0} (sv : Services W) (o : ℕ) where
  ran-RefundedOnce :
      {d d' : Db} {i : Env × Input}
      → Ran sv d i d'
      → Consistent d
      → RefundedOnce sv.uuids o d
      → RefundedOnce sv.uuids o d'
  ran-RefundedOnce (unread i) l k = k
  ran-RefundedOnce (ordered env doc c) l k = ordering sv.uuids o c k
  ran-RefundedOnce (order_cancelled_by env text c) l k = order_cancelling sv.uuids o c k
  ran-RefundedOnce (deducted env doc e n u v c) l k = deducting sv.uuids o refl c k
  ran-RefundedOnce (restocked_cancel env doc e n u v c) l k = restocking sv.uuids o refl c k
  ran-RefundedOnce (restocked_failure env doc e n u v c) l k = restocking sv.uuids o refl c k
  ran-RefundedOnce (charged env doc e n u v c) l k = charging sv.uuids o refl c k
  ran-RefundedOnce (cancelled env doc e n u v c) l k = cancelling sv.uuids o refl refl c k
  ran-RefundedOnce {d} {d'} (settled env req x out i {r} {w = w} {w' = w'} y c) l k =
      elim (outcome_cases x out y) [
        | inl e ↦
            succeeding sv.uuids o refl l
              (subst (λ z. Settling.Settled (webhook_handler sv) env z i d w r d' w') e c) k
        | inr e ↦
            failing sv.uuids o
              (subst (λ z. Settling.Settled (webhook_handler sv) env z i d w r d' w') e c) k
      ]

  abbrev Both : Db → Type 0
  Both d = Consistent d × RefundedOnce sv.uuids o d

  -- From consistent tables in which it is so, as empty ones, after any inputs in any order, repeated
  -- and with any failures: the payment.refunded events of an order and a payment of it that is
  -- charged are together at most one, and none unless the webhook has processed a success of its
  -- charge. So no second refund of an order is announced.
  pub run-RefundedOnce :
      (is : List (Env × Input)) (t : State W)
      → Consistent t.db
      → RefundedOnce sv.uuids o t.db
      → RefundedOnce sv.uuids o (run sv is t).db
  run-RefundedOnce is t l k =
      (run_induction sv {P = λ t. Both t.db}
        (λ i t b. let c = step-Ran sv i t in (ran-Consistent sv c b.0, ran-RefundedOnce c b.0 b.1))
        is t (l, k)).1
