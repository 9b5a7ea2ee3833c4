-- ===== src/Interleaving/Marks.antt =====
-- What a mark in processed_events, a row in cancelled_orders and a payment do to an order's view.
use high_throughput_payments.Base.{
  ℕ, List, [], ◌∷◌, ◌==◌, nat_eq, ==_sound, ◌≡◌, refl, sym, ap, ◌∙◌, subst, Bool, true, false,
  ==_refl, Bool-cases, inl, inr, Option, none, any, if◌then◌else◌, arith,
}
use high_throughput_payments.Db.{
  Db, EventType, ConsumerGroup, ProcessedEvent, same_event, Payment, PaymentStatus, event_type_eq,
  event_type_discrete,
}
use high_throughput_payments.Db.ProcessedEvents.{processed_key, is_processed}
use high_throughput_payments.Db.Payments.{of_order, is_cancelled_in, add_cancelled}
use high_throughput_payments.PaymentService.Webhook.{Outcome, succeeded_outcome, failed_outcome}
use high_throughput_payments.Interleaving.{Tables, Report, is_success_report}
use high_throughput_payments.Interleaving.Serial.{Effect}
use high_throughput_payments.Interleaving.View.{paid_in, view, same_event_refl, other_event}

pub same_tables :
    {t t' : Tables}
    → t.payment ≡ t'.payment
    → t.cancelled ≡ t'.cancelled
    → t.created_seen ≡ t'.created_seen
    → t.cancelled_seen ≡ t'.cancelled_seen
    → t.success_seen ≡ t'.success_seen
    → t.failure_seen ≡ t'.failure_seen
    → t ≡ t'
same_tables p c a b s f = λ i. record {
  payment = p i;
  cancelled = c i;
  created_seen = a i;
  cancelled_seen = b i;
  success_seen = s i;
  failure_seen = f i;
}

-- what a new row of processed_events marks
marked :
    (k : ProcessedEvent) (d d' : Db) → d'.processed ≡ k ∷ d.processed → is_processed k d' ≡ true
marked k d d' m = ap (any (same_event k)) m ∙ rw (same_event_refl k) refl

pub unmarked :
    (k k' : ProcessedEvent) (d d' : Db)
    → d'.processed ≡ k ∷ d.processed
    → same_event k' k ≡ false
    → is_processed k' d' ≡ is_processed k' d
unmarked k k' d d' m h = ap (any (same_event k')) m ∙ rw h refl

other_mark :
    (k k' : ProcessedEvent) (d d' : Db)
    → (k'.event_type == k.event_type) ≡ false
    → d'.processed ≡ k ∷ d.processed
    → is_processed k' d' ≡ is_processed k' d
other_mark k k' d d' h m = unmarked k k' d d' m (other_event k' k h)

abbrev pub created_key : ConsumerGroup → ℕ → ProcessedEvent
created_key g o = processed_key o EventType.order_created g

abbrev pub cancelled_key : ConsumerGroup → ℕ → ProcessedEvent
cancelled_key g o = processed_key o EventType.order_cancelled g

abbrev pub outcome_of : Report → Outcome
outcome_of Report.success = succeeded_outcome
outcome_of Report.failure = failed_outcome

abbrev pub report_key : Report → ℕ → ProcessedEvent
report_key r o = processed_key o (outcome_of r).stripe_type ConsumerGroup.payment_service_webhook

module _ (g : ConsumerGroup) (o : ℕ) (d d' : Db) {p : Option PaymentStatus} {c : Bool}
    (paid : paid_in o d'.payments ≡ p) (cancelled : is_cancelled_in o d' ≡ c) where
  pub view_created :
      d'.processed ≡ created_key g o ∷ d.processed
      → view g o d' ≡ record (view g o d) { payment = p; cancelled = c; created_seen = true }
  unfolding event_type_discrete
  view_created m =
      same_tables paid cancelled (marked (created_key g o) d d' m)
        (other_mark (created_key g o) (cancelled_key g o) d d' refl m)
        (other_mark (created_key g o) (report_key Report.success o) d d' refl m)
        (other_mark (created_key g o) (report_key Report.failure o) d d' refl m)

  pub view_cancelled :
      d'.processed ≡ cancelled_key g o ∷ d.processed
      → view g o d' ≡ record (view g o d) { payment = p; cancelled = c; cancelled_seen = true }
  unfolding event_type_discrete
  view_cancelled m =
      same_tables paid cancelled (other_mark (cancelled_key g o) (created_key g o) d d' refl m)
        (marked (cancelled_key g o) d d' m)
        (other_mark (cancelled_key g o) (report_key Report.success o) d d' refl m)
        (other_mark (cancelled_key g o) (report_key Report.failure o) d d' refl m)

  pub view_reported :
      (r : Report)
      → d'.processed ≡ report_key r o ∷ d.processed
      → view g o d' ≡ record (view g o d) {
        payment = p;
        cancelled = c;
        success_seen = if is_success_report r then true else (view g o d).success_seen;
        failure_seen = if is_success_report r then (view g o d).failure_seen else true;
      }
  unfolding event_type_discrete
  view_reported Report.success m =
      same_tables paid cancelled
        (other_mark (report_key Report.success o) (created_key g o) d d' refl m)
        (other_mark (report_key Report.success o) (cancelled_key g o) d d' refl m)
        (marked (report_key Report.success o) d d' m)
        (other_mark (report_key Report.success o) (report_key Report.failure o) d d' refl m)
  view_reported Report.failure m =
      same_tables paid cancelled
        (other_mark (report_key Report.failure o) (created_key g o) d d' refl m)
        (other_mark (report_key Report.failure o) (cancelled_key g o) d d' refl m)
        (other_mark (report_key Report.failure o) (report_key Report.success o) d d' refl m)
        (marked (report_key Report.failure o) d d' m)

-- another order's row, mark or payment
pub view_other :
    (g : ConsumerGroup) (o : ℕ) (k : ProcessedEvent) (d d' : Db)
    → (o == k.order_id) ≡ false
    → d'.processed ≡ k ∷ d.processed
    → paid_in o d'.payments ≡ paid_in o d.payments
    → is_cancelled_in o d' ≡ is_cancelled_in o d
    → view g o d' ≡ view g o d
view_other g o k d d' n m p c = same_tables p c (at _ n) (at _ n) (at _ n) (at _ n)
  where
    at :
        (k' : ProcessedEvent)
        → (k'.order_id == k.order_id) ≡ false
        → is_processed k' d' ≡ is_processed k' d
    at k' h = unmarked k k' d d' m (ground (arith, h))

-- `subst` of an effect
pub ends : {t t' t'' : Tables} → Effect t t' → t'' ≡ t' → Effect t t''
ends {t} e q = subst (Effect t) (sym q) e

pub order_sym : (o q : ℕ) → (o == q) ≡ false → (q == o) ≡ false
order_sym o q h = ground (arith, ==_sound q o, h)

pub new_payment :
    (o q : ℕ) (p : Payment) (ps : List Payment)
    → p.order_id ≡ q
    → (q == o) ≡ false
    → paid_in o (p ∷ ps) ≡ paid_in o ps
new_payment o q p ps e n = ground (arith, e, n)

pub no_row : (o : ℕ) (ps : List Payment) → any (of_order o) ps ≡ false → paid_in o ps ≡ none
no_row o [] n = refl
no_row o (x ∷ ps) n = ground (arith, no_row o ps)

-- an effect on the order of a handler, and none on another
pub either_order : (P : ℕ → Type 0) (o q : ℕ) → P q → ((o == q) ≡ false → P o) → P o
either_order P o q same other = elim (Bool-cases (o == q)) [
  | inl e ↦ subst P (sym (==_sound o q e)) same
  | inr n ↦ other n
]

pub is_cancelled-add : (o : ℕ) (d : Db) → is_cancelled_in o (add_cancelled o d) ≡ true
is_cancelled-add o d = ground (arith, ==_refl o)

pub is_cancelled-other :
    (o q : ℕ) (d : Db)
    → (q == o) ≡ false
    → is_cancelled_in o (add_cancelled q d) ≡ is_cancelled_in o d
is_cancelled-other o q d n = ground (arith, n)
