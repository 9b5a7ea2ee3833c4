-- ===== src/Interleaving/Services.antt =====
-- The services of Saga/System, one handler at a time, against the single steps of the
-- interleavings.
use high_throughput_payments.Base.{
  ℕ, nat_eq, String, List, ◌∷◌, ◌==◌, ◌≡◌, refl, sym, ap, subst, false, any, arith,
}
use high_throughput_payments.Exec.{Result}
use high_throughput_payments.Http.{Response}
use high_throughput_payments.Json.{Document}
use high_throughput_payments.External.{UuidLib}
use high_throughput_payments.Db.{
  Db, Env, Error, EventType, ProcessedEvent, group_eq, group_discrete, order_created,
  order_cancelled, payment_failed, payment_service, inventory_service,
}
use high_throughput_payments.Db.ProcessedEvents.{processed_key, is_processed}
use high_throughput_payments.OrderService.Handlers.Outcomes as Orders
use high_throughput_payments.OrderService.Handlers.Outcomes.{
  create_order-Created, cancel_order-Cancelled,
}
use high_throughput_payments.InventoryService.Events.{OrderCreatedEvent, CompensationEvent}
use high_throughput_payments.InventoryService.Handler.Outcomes as Inventory
use high_throughput_payments.PaymentService.Handler.Created as Charging
use high_throughput_payments.PaymentService.Handler.Cancelled as Cancelling
use high_throughput_payments.PaymentService.Webhook.{Outcome}
use high_throughput_payments.PaymentService.Webhook.Settled as Settling
use high_throughput_payments.Saga.System.{
  Services, State, Input, post_order, post_cancel, inventory_order_created,
  inventory_order_cancelled, inventory_payment_failed, payment_order_created,
  payment_order_cancelled, post_webhook, inventory_handler, payment_handler, webhook_handler, start,
  step, run, run_induction,
}
use high_throughput_payments.Saga.Consistent.{Consistent}
use high_throughput_payments.Saga.Safety.{step-Consistent}
use high_throughput_payments.Interleaving.Serial.{Effect, none_yet, Serial, later}
use high_throughput_payments.Interleaving.View.{paid_in, view}
use high_throughput_payments.Interleaving.Marks.{
  same_tables, unmarked, created_key, cancelled_key, report_key, outcome_of, ends,
}
use high_throughput_payments.Interleaving.Sequential.{Charging-Effect, Cancelling-Effect}
use high_throughput_payments.Interleaving.Settling.{Settling-Effect, reported-outcome}
use high_throughput_payments.Interleaving.{Report}

-- what a run of one handler does to an order's tables
abbrev EffectOn : ℕ → Db → Db → Type 0
EffectOn o d d' = Effect (view payment_service o d) (view payment_service o d')

-- Order Service writes none of what Payment Service reads
Ordering-Effect :
    {uuids : UuidLib} {env : Env} {doc : Document} {d d' : Db} {r : Response} (o : ℕ)
    → Orders.Created uuids env doc d r d'
    → EffectOn o d d'
Ordering-Effect o (Orders.Created.created req q i u c n m x v) = none_yet
Ordering-Effect o _ = none_yet

OrderCancelling-Effect :
    {uuids : UuidLib} {env : Env} {text : String} {d d' : Db} {r : Response} (o : ℕ)
    → Orders.Cancelled uuids env text d r d'
    → EffectOn o d d'
OrderCancelling-Effect o (Orders.Cancelled.bad_id u) = none_yet
OrderCancelling-Effect o _ = none_yet

-- nor does Inventory Service, whose marks have its own consumer group
other_group :
    (k k' : ProcessedEvent) (d d' : Db)
    → (k'.consumer_group == k.consumer_group) ≡ false
    → d'.processed ≡ k ∷ d.processed
    → is_processed k' d' ≡ is_processed k' d
other_group k k' d d' n m = unmarked k k' d d' m (ground (arith, n))

abbrev inventory_key : EventType → ℕ → ProcessedEvent
inventory_key t q = processed_key q t inventory_service

view_inventory :
    (o q : ℕ) (t : EventType) (d d' : Db)
    → d'.processed ≡ inventory_key t q ∷ d.processed
    → d'.payments ≡ d.payments
    → d'.cancelled ≡ d.cancelled
    → view payment_service o d' ≡ view payment_service o d
unfolding group_discrete
view_inventory o q t d d' m p c =
    same_tables (ap (paid_in o) p) (ap (any (λ x. x == o)) c)
      (other_group (inventory_key t q) (created_key payment_service o) d d' refl m)
      (other_group (inventory_key t q) (cancelled_key payment_service o) d d' refl m)
      (other_group (inventory_key t q) (report_key Report.success o) d d' refl m)
      (other_group (inventory_key t q) (report_key Report.failure o) d d' refl m)

module _ {W : Type 0} (sv : Services W) where
  Deducting-Effect :
      {env : Env} {q : ℕ} {e : OrderCreatedEvent} {d d' : Db} {r : Result Error (Unit {0})} (o : ℕ)
      → Inventory.Deduction (inventory_handler sv) env q e d r d'
      → EffectOn o d d'
  Deducting-Effect {q} {d} {d'} o (Inventory.Deduction.deducted id n k i t) =
      ends none_yet (view_inventory o q order_created d d' refl refl refl)
  Deducting-Effect {q} {d} {d'} o (Inventory.Deduction.short id n k i t) =
      ends none_yet (view_inventory o q order_created d d' refl refl refl)
  Deducting-Effect o _ = none_yet

  Restocking-Effect :
      {env : Env} {t : EventType} {q : ℕ} {e : CompensationEvent} {d d' : Db}
      {r : Result Error (Unit {0})} (o : ℕ)
      → Inventory.Compensated (inventory_handler sv) env t q e d r d'
      → EffectOn o d d'
  Restocking-Effect {t} {q} {d} {d'} o (Inventory.Compensated.restocked id n k i u) =
      ends none_yet (view_inventory o q t d d' refl refl refl)
  Restocking-Effect o _ = none_yet

  reported :
      {env : Env} {out : Outcome} {i : String} {d d' : Db} {w w' : W} {x : Response} (o : ℕ)
      → Consistent d
      → (r : Report) × (outcome_of r ≡ out)
      → Settling.Settled (webhook_handler sv) env out i d w x d' w'
      → EffectOn o d d'
  reported {env} {i} {d} {d'} {w} {w'} {x} o k (r, e) c =
      Settling-Effect r payment_service o k
        (subst (λ u. Settling.Settled (webhook_handler sv) env u i d w x d' w') (sym e) c)

  step-Effect :
      (i : Env × Input) (t : State W) (o : ℕ) → Consistent t.db → EffectOn o t.db (step sv i t).db
  unfolding step
  step-Effect (env, post_order doc) t o k =
      Ordering-Effect o (create_order-Created sv.uuids env doc (start sv t))
  step-Effect (env, post_cancel text) t o k =
      OrderCancelling-Effect o (cancel_order-Cancelled sv.uuids env text (start sv t))
  step-Effect (env, inventory_order_created doc) t o k =
      (Inventory.handle_order_created_rule (inventory_handler sv) env (λ _ d. EffectOn o t.db d) doc
        (start sv t) (λ _. none_yet) (λ _ _ _. none_yet)
        (λ e q r d' _ _ c. Deducting-Effect o c)).at
  step-Effect (env, inventory_order_cancelled doc) t o k =
      (Inventory.handle_compensation_rule (inventory_handler sv) env order_cancelled
        (λ _ d. EffectOn o t.db d) doc (start sv t) (λ _. none_yet) (λ _ _ _. none_yet)
        (λ e q r d' _ _ c. Restocking-Effect o c)).at
  step-Effect (env, inventory_payment_failed doc) t o k =
      (Inventory.handle_compensation_rule (inventory_handler sv) env payment_failed
        (λ _ d. EffectOn o t.db d) doc (start sv t) (λ _. none_yet) (λ _ _ _. none_yet)
        (λ e q r d' _ _ c. Restocking-Effect o c)).at
  step-Effect (env, payment_order_created doc) t o k =
      (Charging.handle_order_created_rule (payment_handler sv) env (λ _ d _. EffectOn o t.db d) doc
        (start sv t) (λ _. none_yet) (λ _ _ _. none_yet)
        (λ e q r d' w _ _ c. Charging-Effect o c)).at
  step-Effect (env, payment_order_cancelled doc) t o k =
      (Cancelling.handle_order_cancelled_rule (payment_handler sv) env (λ _ d _. EffectOn o t.db d)
        doc (start sv t) (λ _. none_yet) (λ _ _ _. none_yet)
        (λ e q r d' w _ _ c. Cancelling-Effect o c)).at
  step-Effect (env, post_webhook r) t o k =
      Settling.handle_stripe_webhook_rule (webhook_handler sv) env (λ _ d _. EffectOn o t.db d) r
        (start sv t) (λ _ _. none_yet) none_yet
        (λ b e out i x d' w _ v c. reported o k (reported-outcome e.event_type out v) c)

  -- From consistent tables, after any inputs of the services in any order and with any failures:
  -- what the tables hold of any one order for Payment Service is what whole handlers leave that
  -- run one after the other as the steps of Interleaving/Serial, each with the effect of its
  -- handler on the tables as they are, and each mark set once.
  pub services-Serial :
      (is : List (Env × Input)) (t : State W) (o : ℕ)
      → Consistent t.db
      → Serial (view payment_service o t.db) (view payment_service o (run sv is t).db)
  services-Serial is t o k =
      (run_induction sv
        {P = λ u.
          Consistent u.db × Serial (view payment_service o t.db) (view payment_service o u.db)}
        (λ i u p. (step-Consistent sv i u p.0, later p.1 (step-Effect i u o p.0))) is t
        (k, Serial.start)).1
