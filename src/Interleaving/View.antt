-- ===== src/Interleaving/View.antt =====
-- The tables of Db, as the handlers of payment-service see them for one order.
use high_throughput_payments.Base.{
  ℕ, String, List, [], ◌∷◌, ◌==◌, nat_eq, string_eq, ==_refl, ==_sound, ◌≡◌, refl, Bool, true,
  false, Option, none, some, any, find, update, distinct, arith,
}
use high_throughput_payments.Db.{
  Db, EventType, ConsumerGroup, ProcessedEvent, same_event, Payment, PaymentStatus, event_type_eq,
  group_eq, payment_status_eq,
}
use high_throughput_payments.Db.Payments.{of_order, of_intent, set_status, is_cancelled_in}
use high_throughput_payments.Db.ProcessedEvents.{processed_key, is_processed}
use high_throughput_payments.Interleaving.{Tables}
use high_throughput_payments.Interleaving.Invariant.{is_success}
use high_throughput_payments.Saga.Charged.{is_charged, same_order, same_intent, intent_unique}

abbrev pub status_of : Option Payment → Option PaymentStatus
status_of none = none
status_of (some p) = some p.status

abbrev pub paid_in : ℕ → List Payment → Option PaymentStatus
paid_in o ps = status_of (find (of_order o) ps)

module _ (g : ConsumerGroup) (o : ℕ) where
  abbrev pub view : Db → Tables
  view d = record {
    payment = paid_in o d.payments;
    cancelled = is_cancelled_in o d;
    created_seen = is_processed (processed_key o EventType.order_created g) d;
    cancelled_seen = is_processed (processed_key o EventType.order_cancelled g) d;
    success_seen =
        is_processed
          (processed_key o EventType.intent_succeeded ConsumerGroup.payment_service_webhook) d;
    failure_seen =
        is_processed
          (processed_key o EventType.intent_payment_failed ConsumerGroup.payment_service_webhook) d;
  }

-- marks of one event type are for one key, and of two for two
pub same_event_refl : (k : ProcessedEvent) → same_event k k ≡ true
same_event_refl k =
    ground (arith, ==_refl k.order_id, ==_refl k.event_type, ==_refl k.consumer_group)

pub other_event :
    (a b : ProcessedEvent) → (a.event_type == b.event_type) ≡ false → same_event a b ≡ false
other_event a b h = ground (arith, h)

-- the payment of an order after `UPDATE payments … WHERE order_id`
pub paid_in-refund :
    (o : ℕ) (st st' : PaymentStatus) (ps : List Payment)
    → paid_in o ps ≡ some st'
    → paid_in o (update (of_order o) (set_status st) ps) ≡ some st
paid_in-refund o st st' [] q = cc
paid_in-refund o st st' (x ∷ ps) q = ground (arith, paid_in-refund o st st' ps)

pub paid_in-other_order :
    (o q : ℕ) (st : PaymentStatus) (ps : List Payment)
    → (q == o) ≡ false
    → paid_in o (update (of_order q) (set_status st) ps) ≡ paid_in o ps
paid_in-other_order o q st [] n = refl
paid_in-other_order o q st (x ∷ ps) n =
    ground (arith, n, ==_sound x.order_id q, paid_in-other_order o q st ps)

-- and `WHERE stripe_payment_intent_id`, for the intent of another order
update_none :
    (i : String) (st : PaymentStatus) (o : ℕ) (ps : List Payment)
    → any (of_intent i) ps ≡ false
    → paid_in o (update (of_intent i) (set_status st) ps) ≡ paid_in o ps
update_none i st o [] n = refl
update_none i st o (x ∷ ps) n = ground (arith, n, update_none i st o ps)

pub paid_in-other_intent :
    (i : String) (st : PaymentStatus) (o : ℕ) (ps : List Payment) (p : Payment)
    → distinct same_intent ps ≡ true
    → find (of_intent i) ps ≡ some p
    → (p.order_id == o) ≡ false
    → paid_in o (update (of_intent i) (set_status st) ps) ≡ paid_in o ps
paid_in-other_intent i st o [] p u f n = refl
paid_in-other_intent i st o (x ∷ ps) p u f n =
    ground (arith, n, intent_unique i x ps, update_none i st o ps, paid_in-other_intent i st o ps p)

-- what no row is, the row that a lookup finds is not
any-find :
    (q r : Payment → Bool) (ps : List Payment) (p : Payment)
    → any q ps ≡ false
    → find r ps ≡ some p
    → q p ≡ false
any-find q r [] p a f = cc
any-find q r (x ∷ ps) p a f = ground (arith, any-find q r ps p)

other_order : (x p : Payment) → same_order x p ≡ false → of_order p.order_id x ≡ false
other_order x p h = ground (arith, ==_sound x.order_id p.order_id, ==_refl p.order_id, h)

-- the payment of an intent is its order's only one
pub find_order-find_intent :
    (i : String) (ps : List Payment) (p : Payment)
    → distinct same_order ps ≡ true
    → find (of_intent i) ps ≡ some p
    → find (of_order p.order_id) ps ≡ some p
find_order-find_intent i [] p u f = cc
find_order-find_intent i (x ∷ ps) p u f = ground (
  arith,
  ==_refl x.order_id,
  any-find (same_order x) (of_intent i) ps p,
  other_order x p,
  find_order-find_intent i ps p,
)

pub paid_in-settle :
    (i : String) (st : PaymentStatus) (ps : List Payment) (p : Payment)
    → distinct same_order ps ≡ true
    → find (of_intent i) ps ≡ some p
    → paid_in p.order_id (update (of_intent i) (set_status st) ps) ≡ some st
paid_in-settle i st [] p u f = cc
paid_in-settle i st (x ∷ ps) p u f = ground (
  arith,
  ==_refl x.order_id,
  any-find (same_order x) (of_intent i) ps p,
  other_order x p,
  paid_in-settle i st ps p,
)

-- a payment that is not charged
pub is_success-is_charged :
    (p : Payment) → is_charged p ≡ false → is_success (some p.status) ≡ false
is_success-is_charged p h = charged p.status h
  where
    charged :
        (st : PaymentStatus)
        → (st == PaymentStatus.succeeded) ≡ false
        → is_success (some st) ≡ false
    charged PaymentStatus.succeeded h = cc (h, ==_refl PaymentStatus.succeeded)
    charged _ h = refl

pub charged-status : (p : Payment) → is_charged p ≡ true → p.status ≡ PaymentStatus.succeeded
charged-status p h = ==_sound p.status PaymentStatus.succeeded h
