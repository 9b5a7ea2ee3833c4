-- ===== src/Interleaving/Settling.antt =====
-- The webhook of Saga/System as one of the single steps of the interleavings.
use high_throughput_payments.Base.{
  ℕ, String, ◌==◌, nat_eq, string_eq, ◌≡◌, refl, ap, ◌∙◌, ◌∷◌, any, true, false, some, find, update,
  Bool-cases, inl, inr, arith,
}
use high_throughput_payments.Http.{Response}
use high_throughput_payments.Db.{
  Db, Env, ConsumerGroup, Payment, PaymentStatus, payment_status_eq, payment_status_discrete,
  spelling, EventType,
}
use high_throughput_payments.Db.ProcessedEvents.{is_processed}
use high_throughput_payments.Db.Payments.{of_order, of_intent, set_status}
use high_throughput_payments.PaymentService.Webhook.{WebhookHandler, Outcome, outcome}
use high_throughput_payments.PaymentService.Webhook.Settled as Settling
use high_throughput_payments.Saga.Consistent.{Consistent}
use high_throughput_payments.Interleaving.{Report, with_report, is_seen, reported_status}
use high_throughput_payments.Interleaving.Invariant.{is_some}
use high_throughput_payments.Interleaving.Serial.{Atomic, Effect, none_yet, commits}
use high_throughput_payments.Interleaving.View.{
  status_of, paid_in, view, paid_in-refund, paid_in-settle, paid_in-other_order,
  paid_in-other_intent, find_order-find_intent,
}
use high_throughput_payments.Interleaving.Marks.{
  outcome_of, report_key, view_reported, view_other, ends, order_sym, either_order,
}

pub reported-outcome :
    (t : String) (out : Outcome) → outcome t ≡ some out → (r : Report) × (outcome_of r ≡ out)
unfolding outcome
reported-outcome t out q = elim (Bool-cases (t == spelling EventType.intent_succeeded)) [
  | inl e ↦ (Report.success, ground (arith, q, e))
  | inr e ↦ elim (Bool-cases (t == spelling EventType.intent_payment_failed)) [
    | inl f ↦ (Report.failure, ground (arith, q, e, f))
    | inr f ↦ absurd (ground (arith, q, e, f))
  ]
]

reported_status_lem : (r : Report) → (outcome_of r).status ≡ reported_status r
reported_status_lem Report.success = refl
reported_status_lem Report.failure = refl

unseen :
    (g : ConsumerGroup) (r : Report) (o : ℕ) (d : Db)
    → is_processed (report_key r o) d ≡ false
    → is_seen r (view g o d) ≡ false
unseen g Report.success o d n = n
unseen g Report.failure o d n = n

module _ (i : String) (d : Db) (k : Consistent d) (p : Payment)
    (f : find (of_intent i) d.payments ≡ some p) where
  known : is_some (paid_in p.order_id d.payments) ≡ true
  known = ap (λ x. is_some (status_of x)) (find_order-find_intent i d.payments p k.orders_unique f)

  paid :
      (r : Report)
      → paid_in p.order_id (update (of_intent i) (set_status (outcome_of r).status) d.payments)
        ≡ some (reported_status r)
  paid r =
      paid_in-settle i (outcome_of r).status d.payments p k.orders_unique f
      ∙ ap some (reported_status_lem r)

-- a commit with the new status, and one that marks the payment as refunded too
module _ (g : ConsumerGroup) (r : Report) (i : String) (d d' : Db) (k : Consistent d) (p : Payment)
    (f : find (of_intent i) d.payments ≡ some p) (o : ℕ)
    (m : d'.processed ≡ report_key r p.order_id ∷ d.processed)
    (c : d'.cancelled ≡ d.cancelled) where
  settled :
      d'.payments ≡ update (of_intent i) (set_status (outcome_of r).status) d.payments
      → Effect (view g p.order_id d) (with_report r (reported_status r) (view g p.order_id d))
      → Effect (view g o d) (view g o d')
  settled q e =
      either_order (λ x. Effect (view g x d) (view g x d')) o p.order_id
        (ends e (
          view_reported g p.order_id d d' (ap (paid_in p.order_id) q ∙ paid i d k p f r)
            (ap (any (λ x. x == p.order_id)) c) r m))
        (λ n. ends none_yet (
          view_other g o (report_key r p.order_id) d d' n m
            (ap (paid_in o) q
              ∙ paid_in-other_intent i (outcome_of r).status o d.payments p k.intents_unique f
                  (order_sym o p.order_id n))
            (ap (any (λ x. x == o)) c)))

  settled_refund :
      d'.payments
        ≡ update
            (of_order p.order_id)
            (set_status PaymentStatus.refunded)
            (update (of_intent i) (set_status (outcome_of r).status) d.payments)
      → Effect (view g p.order_id d) (with_report r PaymentStatus.refunded (view g p.order_id d))
      → Effect (view g o d) (view g o d')
  settled_refund q e =
      either_order (λ x. Effect (view g x d) (view g x d')) o p.order_id
        (ends e (
          view_reported g p.order_id d d'
            (ap (paid_in p.order_id) q
              ∙ paid_in-refund p.order_id PaymentStatus.refunded (reported_status r) _
                  (paid i d k p f r))
            (ap (any (λ x. x == p.order_id)) c) r m))
        (λ n. ends none_yet (
          view_other g o (report_key r p.order_id) d d' n m
            (ap (paid_in o) q
              ∙ paid_in-other_order o p.order_id PaymentStatus.refunded _ (order_sym o p.order_id n)
              ∙ paid_in-other_intent i (outcome_of r).status o d.payments p k.intents_unique f
                  (order_sym o p.order_id n))
            (ap (any (λ x. x == o)) c)))

pub Settling-Effect :
    {W : Type 0} {h : WebhookHandler W} {env : Env} (r : Report) {i : String} {d : Db} {w : W}
    {x : Response} {d' : Db} {w' : W} (g : ConsumerGroup) (o : ℕ)
    → Consistent d
    → Settling.Settled h env (outcome_of r) i d w x d' w'
    → Effect (view g o d) (view g o d')
unfolding payment_status_discrete
Settling-Effect r {i} {d} {d'} g o k (Settling.Settled.announced p id f c n t) =
    settled g r i d d' k p f.found o refl refl refl
      (commits (Atomic.report r (known i d k p f.found) (unseen g r p.order_id d f.new) c))
Settling-Effect Report.success g o k (Settling.Settled.quiet p f c s) = cc s
Settling-Effect Report.failure {i} {d} {d'} g o k (Settling.Settled.quiet p f c s) =
    settled g Report.failure i d d' k p f.found o refl refl refl
      (commits (Atomic.failure_of_cancelled (known i d k p f.found) f.new c))
Settling-Effect Report.success {i} {d} {d'} g o k (Settling.Settled.refunded p id f c s q n t) =
    settled_refund g Report.success i d d' k p f.found o refl refl refl
      (commits (Atomic.success_of_cancelled (known i d k p f.found) f.new c))
Settling-Effect Report.failure g o k (Settling.Settled.refunded p id f c s q n t) = cc s
Settling-Effect r g o k _ = none_yet
