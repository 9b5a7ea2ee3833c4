-- ===== src/Pipeline/Payments.antt =====
-- Payment Service on messages that were announced and on webhooks, through the outcomes of its
-- handlers.
use high_throughput_payments.Base.{
  ℕ, String, List, ◌==◌, string_eq, ◌≡◌, refl, sym, subst, Bool, true, some, All, All-update,
  All-find, All-any, any, nat_eq, update, if_split, ==_sound,
}
use high_throughput_payments.Exec.{Result}
use high_throughput_payments.Http.{Response}
use high_throughput_payments.Db.{
  Db, Env, Error, Order, Payment, PaymentStatus, spelling, intent_succeeded, intent_payment_failed,
}
use high_throughput_payments.Db.Payments.{
  of_order, of_intent, set_status, set_payments, is_cancelled_in, add_cancelled,
}
use high_throughput_payments.Db.Outbox.{add_row}
use high_throughput_payments.Json.{Field}
use high_throughput_payments.External.{UuidLib}
use high_throughput_payments.PaymentService.Events as Charge
use high_throughput_payments.PaymentService.Handler.{PaymentHandler}
use high_throughput_payments.PaymentService.Handler.Created as Charging
use high_throughput_payments.PaymentService.Handler.Cancelled as Cancelling
use high_throughput_payments.PaymentService.Refund.{mark_refunded, refund_row}
use high_throughput_payments.PaymentService.Webhook.{
  WebhookHandler, Outcome, outcome, succeeded_outcome, failed_outcome,
}
use high_throughput_payments.PaymentService.Webhook.Settled as Settling
use high_throughput_payments.Pipeline.Orders.{IsCancelled}
use high_throughput_payments.Pipeline.Grounded.{
  Paid, Grounded, Grounded-event, Grounded-apart, Grounded-payments, Tells, Announces,
}
use high_throughput_payments.Pipeline.Consumers.{About, told}

-- a status that is no refund says nothing of the order
module _ (os : List Order) where
  settled-Paid :
      (status : PaymentStatus)
      → (status ≡ PaymentStatus.refunded → ⊥)
      → (p : Payment) → Paid os p
      → Paid os (set_status status p)
  settled-Paid status n p (o, q, i, x, a, c) = (o, q, i, x, a, λ e. absurd (n e))

  -- a refund of the payments of a cancelled order
  refunded-Paid :
      (n : ℕ) (ps : List Payment)
      → IsCancelled os n
      → All (Paid os) ps
      → All (Paid os) (update (of_order n) (set_status PaymentStatus.refunded) ps)
  refunded-Paid n ps c h =
      All-update _ _ _ ps
        (λ p e (o, q, i, x, a, _).
          (o, q, i, x, a, λ _. subst (IsCancelled os) (sym (==_sound p.order_id n e)) c))
        h

  -- the event of a payment
  Paid-Tells :
      (uuids : UuidLib) (p : Payment) (n : ℕ)
      → p.order_id ≡ n
      → Paid os p
      → (o : Order) × Tells uuids os o (uuids.to_string n) (
          Charge.marshal_payment_event
            (record { order_id = uuids.to_string n; product_id = p.product_id }))
        × (n ≡ o.id)
  Paid-Tells uuids p n e (o, q, i, x, a, c) = (o, (q, cc (e, i), cc (e, i, x)), cc (e, i))

  IsCancelled-one :
      (n : ℕ) (c : List ℕ) → All (IsCancelled os) c → any (λ x. x == n) c ≡ true → IsCancelled os n
  IsCancelled-one n c h q =
      let (x, e, k) = All-any (IsCancelled os) (λ x. x == n) c q h in
      subst (IsCancelled os) (==_sound x n e) k

module _ {uuids : UuidLib} {d : Db} {W : Type 0} where
  pub Created-Grounded :
      {h : PaymentHandler W} {env : Env} {n : ℕ} {e : Charge.OrderCreatedEvent} {d' : Db} {w w' : W}
      {r : Result Error (Unit {0})} (o : Order)
      → About uuids d.orders o e.order_id e.product_id
      → e.amount ≡ o.amount
      → n ≡ o.id
      → Charging.Created h env n e d w r d' w'
      → Grounded uuids d
      → Grounded uuids d'
  Created-Grounded {e} o a m k (Charging.Created.declined x i c s b f t) g =
      Grounded-event uuids _ ((o, told uuids d.orders e.order_id e.product_id a), refl)
        (Grounded-apart uuids _ _ g)
  Created-Grounded o a m k (Charging.Created.succeeded i c s f) g =
      Grounded-payments uuids _ ((o, a.placed, k, a.same_product, m, λ q. absurd cc), g.payments)
        (Grounded-apart uuids _ _ g)
  Created-Grounded o a m k (Charging.Created.skipped f c) g = Grounded-apart uuids _ _ g
  Created-Grounded o a m k _ g = g

module _ {uuids : UuidLib} {d : Db} where
  settled-Grounded :
      (sel : Payment → Bool) (status : PaymentStatus)
      → (status ≡ PaymentStatus.refunded → ⊥)
      → Grounded uuids d
      → Grounded uuids (set_payments sel status d)
  settled-Grounded sel status n g =
      Grounded-payments uuids _
        (All-update (Paid d.orders) sel (set_status status) d.payments
          (λ p _. settled-Paid d.orders status n p) g.payments)
        g

  refunded-Grounded :
      (n : ℕ) → IsCancelled d.orders n → Grounded uuids d → Grounded uuids (mark_refunded n d)
  refunded-Grounded n c g =
      Grounded-payments uuids _ (refunded-Paid d.orders n d.payments c g.payments) g

  refund_row-Grounded :
      (env : Env) (p : Payment) (n id : ℕ)
      → p.order_id ≡ n
      → IsCancelled d.orders n
      → Paid d.orders p
      → Grounded uuids d
      → Grounded uuids (add_row (refund_row uuids env n p.product_id id) d)
  refund_row-Grounded env p n id e c q g =
      let (o, t, k) = Paid-Tells d.orders uuids p n e q in
      Grounded-event uuids _ ((o, t, subst (IsCancelled d.orders) k c), refl) g

  recorded-Grounded :
      (n : ℕ) → IsCancelled d.orders n → Grounded uuids d → Grounded uuids (add_cancelled n d)
  recorded-Grounded n c g = record {
    ids_unique = g.ids_unique;
    events = g.events;
    payments = g.payments;
    cancels =
        if_split (All (IsCancelled d.orders)) (is_cancelled_in n d) _ _ (λ _. g.cancels)
          (λ _. (c, g.cancels));
  }

module _ {W : Type 0} (h : PaymentHandler W) {d : Db} where
  pub Cancelled-Grounded :
      {env : Env} {n : ℕ} {d' : Db} {w w' : W} {r : Result Error (Unit {0})}
      → IsCancelled d.orders n
      → Cancelling.Cancelled h env n d w r d' w'
      → Grounded h.uuids d
      → Grounded h.uuids d'
  Cancelled-Grounded {n} c (Cancelling.Cancelled.no_payment f q) g =
      recorded-Grounded n c (Grounded-apart h.uuids _ _ g)
  Cancelled-Grounded {n} c (Cancelling.Cancelled.not_charged p f q x) g =
      recorded-Grounded n c (Grounded-apart h.uuids _ _ g)
  Cancelled-Grounded {env} {n} c (Cancelling.Cancelled.refunded p i f q x s m t) g =
      let (paid, e) = All-find (Paid d.orders) (of_order n) d.payments p q g.payments in
      refund_row-Grounded env p n i (==_sound p.order_id n e) c paid
        (refunded-Grounded n c (recorded-Grounded n c (Grounded-apart h.uuids _ _ g)))
  Cancelled-Grounded c _ g = g

-- what a webhook announces: a payment's event of another type than a refund
module _ (uuids : UuidLib) (os : List Order) where
  record Plain (out : Outcome) : Type 0 where
    no_refund : out.status ≡ PaymentStatus.refunded → ⊥
    plain :
        (key : String) (body : List Field)
        → (o : Order) × Tells uuids os o key body
        → Announces uuids os out.outbox_type key body

  outcome-Plain : (x : String) (out : Outcome) → outcome x ≡ some out → Plain out
  unfolding outcome
  outcome-Plain x out q =
      if_split (λ m. m ≡ some out → Plain out) (x == spelling intent_succeeded) _ _
        (λ _ e.
          let same : succeeded_outcome ≡ out = cc e in
          subst Plain same (record { no_refund = λ z. cc z; plain = λ k b t. t }))
        (λ _.
          if_split (λ m. m ≡ some out → Plain out) (x == spelling intent_payment_failed) _ _
            (λ _ e.
              let same : failed_outcome ≡ out = cc e in
              subst Plain same (record { no_refund = λ z. cc z; plain = λ k b t. t }))
            (λ _ e. cc e))
        q

module _ {W : Type 0} (h : WebhookHandler W) {d : Db} where
  pub Settled-Grounded :
      {env : Env} {out : Outcome} {i : String} {d' : Db} {w w' : W} {r : Response} (x : String)
      → outcome x ≡ some out
      → Settling.Settled h env out i d w r d' w'
      → Grounded h.uuids d
      → Grounded h.uuids d'
  Settled-Grounded {env} {out} {i} x y (Settling.Settled.announced p id f c n t) g =
      let k = outcome-Plain h.uuids d.orders x out y in
      let (paid, _) = All-find (Paid d.orders) (of_intent i) d.payments p f.found g.payments in
      let (o, told, _) = Paid-Tells d.orders h.uuids p p.order_id refl paid in
      Grounded-event h.uuids _ (k.plain _ _ (o, told), refl)
        (Grounded-apart h.uuids _ _ (settled-Grounded (of_intent i) out.status k.no_refund g))
  Settled-Grounded {out} {i} x y (Settling.Settled.quiet p f c s) g = Grounded-apart h.uuids _ _ (
      settled-Grounded (of_intent i) out.status (outcome-Plain h.uuids d.orders x out y).no_refund
        g)
  Settled-Grounded {env} {out} {i} x y (Settling.Settled.refunded p id f c s q n t) g =
      let k = outcome-Plain h.uuids d.orders x out y in
      let gone = IsCancelled-one d.orders p.order_id d.cancelled g.cancels c in
      let (paid, _) = All-find (Paid d.orders) (of_intent i) d.payments p f.found g.payments in
      refund_row-Grounded env p p.order_id id refl gone paid (
        refunded-Grounded p.order_id gone
          (Grounded-apart h.uuids _ _ (settled-Grounded (of_intent i) out.status k.no_refund g)))
  Settled-Grounded x y _ g = g
