-- ===== src/Saga/Refunds.antt =====
-- How often an order is refunded: the refunds that were announced and the charge that stands, against
-- the success of a charge that Stripe has reported, through the outcomes of every handler.
use high_throughput_payments.Base.{
  ℕ, String, List, [], ◌∷◌, ◌==◌, nat_eq, ==_refl, ==_sound, ◌≡◌, refl, Bool, true, false, ◌&&◌,
  some, any, find, update, distinct, count, if◌then◌else◌, arith,
}
use high_throughput_payments.Db.{
  Db, event_type_eq, payment_refunded, intent_succeeded, payment_service_webhook, Payment,
  PaymentStatus, payment_status_eq, payment_status_discrete,
}
use high_throughput_payments.Db.Payments.{of_order, of_intent, set_status}
use high_throughput_payments.Db.ProcessedEvents.{processed_key, is_processed}
use high_throughput_payments.External.{UuidLib}
use high_throughput_payments.Saga.Charged.{is_charged, same_intent, intent_unique}
use high_throughput_payments.Saga.Counts.{keyed}

abbrev pub charged_of : ℕ → Payment → Bool
charged_of o p = of_order o p && is_charged p

abbrev pub refunds : UuidLib → ℕ → Db → ℕ
refunds uuids o d = count (λ r. r.event_type == payment_refunded && keyed uuids o r) d.outbox

-- whether a payment of the order is charged, as a number
abbrev pub charges : ℕ → Db → ℕ
charges o d = if any (charged_of o) d.payments then 1 else 0

-- whether the webhook has processed the success of the order's charge, as a number
abbrev pub successes : ℕ → Db → ℕ
successes o d =
    if is_processed (processed_key o intent_succeeded payment_service_webhook) d then 1 else 0

-- a refund takes the charge away
pub charged-refund :
    (o n : ℕ) (ps : List Payment)
    → any (charged_of o) (update (of_order n) (set_status PaymentStatus.refunded) ps)
      ≡ (if o == n then false else any (charged_of o) ps)
unfolding payment_status_discrete
charged-refund o n [] = ground arith
charged-refund o n (p ∷ ps) = ground (
  arith,
  charged-refund o n ps,
  ==_sound o n,
  ==_sound p.order_id o,
  ==_sound p.order_id n,
  ==_refl o,
)

pub charged-found :
    (n : ℕ) (ps : List Payment) (p : Payment)
    → find (of_order n) ps ≡ some p
    → is_charged p ≡ true
    → any (charged_of n) ps ≡ true
charged-found n [] p q c = cc
charged-found n (x ∷ xs) p q c = ground (arith, charged-found n xs p)

-- a status that is no charge
pub charged-quiet :
    (o : ℕ) (sel : Payment → Bool) (st : PaymentStatus) (ps : List Payment)
    → (st == PaymentStatus.succeeded) ≡ false
    → any (charged_of o) ps ≡ false
    → any (charged_of o) (update sel (set_status st) ps) ≡ false
charged-quiet o sel st [] n q = refl
charged-quiet o sel st (p ∷ ps) n q = ground (arith, charged-quiet o sel st ps)

update-none :
    (i : String) (st : PaymentStatus) (ps : List Payment)
    → any (of_intent i) ps ≡ false
    → update (of_intent i) (set_status st) ps ≡ ps
update-none i st [] q = refl
update-none i st (p ∷ ps) q = ground (arith, update-none i st ps)

-- the payments of another order than that of the intent
pub charged-other :
    (o : ℕ) (i : String) (st : PaymentStatus) (q : Payment) (ps : List Payment)
    → distinct same_intent ps ≡ true
    → find (of_intent i) ps ≡ some q
    → (o == q.order_id) ≡ false
    → any (charged_of o) (update (of_intent i) (set_status st) ps) ≡ any (charged_of o) ps
charged-other o i st q [] u f n = cc
charged-other o i st q (p ∷ ps) u f n = ground (
  arith,
  charged-other o i st q ps,
  intent_unique i p ps,
  update-none i st ps,
  ==_sound p.order_id o,
  ==_refl o,
)
