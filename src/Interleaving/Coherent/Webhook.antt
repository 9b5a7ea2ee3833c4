-- ===== src/Interleaving/Coherent/Webhook.antt =====
-- `HandleStripeWebhook`, statement by statement.
use high_throughput_payments.Base.{
  ◌≡◌, refl, sym, ◌∙◌, ap, Bool, true, false, not, ◌&&◌, Option, none, some, if_split, arith,
}
use high_throughput_payments.Db.{PaymentStatus}
use high_throughput_payments.Interleaving.{
  Tables, CancelPc, WebhookPc, Report, State, cancel_locks_row, webhook_locks_row, with_report,
  reported_status, is_seen, first_update, after_check, webhook_from, or_wait,
}
use high_throughput_payments.Interleaving.Invariant.{
  is_some, is_success, is_refunded, cancel_fetched, CancelIn, WebhookIn, IsCoherent,
  ChargeOk-has_payment, CancelOk-unfetched, seen_of, seen_of, CancelOk-refund,
}
use high_throughput_payments.Interleaving.Coherent.Booleans.{and_false}

webhook_at :
    (s : State) (pc pc' : WebhookPc)
    → IsCoherent (record s { webhook = pc })
    → (webhook_locks_row pc' && cancel_fetched s.cancel) ≡ false
    → WebhookIn pc' s.tables s.refunded
    → IsCoherent (record s { webhook = pc' })
webhook_at s pc pc' k row here = record {
  order_lock = k.order_lock;
  row_lock = row;
  charge_in = k.charge_in;
  cancel_in = k.cancel_in;
  webhook_in = here;
  no_conflict = k.no_conflict;
  refund_made = k.refund_made;
}

-- the commit of a webhook, for a payment whose row it has locked
webhook_commits :
    (s : State) (pc : WebhookPc) (r : Report) (status : PaymentStatus)
    → IsCoherent (record s { webhook = pc })
    → webhook_locks_row pc ≡ true
    → is_some s.tables.payment ≡ true
    → (is_success (some status) && s.tables.cancelled) ≡ false
    → (is_refunded (some status) && not s.refunded) ≡ false
    → IsCoherent (record s { tables = with_report r status s.tables; webhook = WebhookPc.idle })
webhook_commits s pc r status k l known n m =
    let unread : cancel_fetched s.cancel ≡ false = ground (arith, k.row_lock, l) in
    record {
      order_lock = k.order_lock;
      row_lock = refl;
      charge_in = ChargeOk-has_payment s.charge _ _ _ _ known k.charge_in;
      cancel_in = CancelOk-unfetched s.cancel _ _ _ _ _ unread k.cancel_in;
      webhook_in = tt;
      no_conflict = n;
      refund_made = m;
    }

-- where `UPDATE payments` finds the row or not
first_update-IsCoherent :
    (p : Option PaymentStatus) (r : Report) (s : State)
    → s.tables.payment ≡ p
    → IsCoherent (record s { webhook = WebhookPc.idle })
    → IsCoherent (
        or_wait
          (record s { webhook = WebhookPc.idle })
          (first_update p r (record s { webhook = WebhookPc.idle })))
first_update-IsCoherent none r s q k = k
first_update-IsCoherent (some x) r s q k =
    if_split (λ o. IsCoherent (or_wait (record s { webhook = WebhookPc.idle }) o))
      (cancel_locks_row s.cancel) _ _ (λ _. k)
      (λ e.
        webhook_at s WebhookPc.idle (WebhookPc.updated r) k (unread s.cancel e k.cancel_in)
          (ap is_some q))
  where
    unread :
        (pc : CancelPc)
        → cancel_locks_row pc ≡ false
        → CancelIn pc s.tables s.refunded
        → cancel_fetched pc ≡ false
    unread CancelPc.idle l c = refl
    unread (CancelPc.fetched none) l c = cc (c.1, q)
    unread (CancelPc.fetched (some y)) l c = cc l
    unread CancelPc.refund_made l c = cc l
    unread CancelPc.refund_recorded l c = cc l
    unread _ l c = refl

pub seen_of_lem : (r : Report) (t : Tables) → is_seen r t ≡ seen_of r t.success_seen t.failure_seen
seen_of_lem Report.success t = refl
seen_of_lem Report.failure t = refl

checked-IsCoherent :
    (r : Report) (c : Bool) (s : State)
    → IsCoherent (record s { webhook = WebhookPc.checked r c })
    → IsCoherent (after_check r c (record s { webhook = WebhookPc.checked r c }))
checked-IsCoherent r false s k =
    webhook_at s (WebhookPc.checked r false) (WebhookPc.announced r) k k.row_lock k.webhook_in
checked-IsCoherent Report.success true s k = record {
  order_lock = k.order_lock;
  row_lock = k.row_lock;
  charge_in = k.charge_in;
  cancel_in = CancelOk-refund s.cancel _ _ _ k.cancel_in;
  webhook_in = ((k.webhook_in).0, (k.webhook_in).1, (k.webhook_in).2, refl);
  no_conflict = k.no_conflict;
  refund_made = and_false _;
}
checked-IsCoherent Report.failure true s k =
    webhook_commits s (WebhookPc.checked Report.failure true) Report.failure PaymentStatus.failed k
      refl (k.webhook_in).0 refl refl

reported-unrefunded :
    (r : Report) (b : Bool) → (is_refunded (some (reported_status r)) && b) ≡ false
reported-unrefunded Report.success b = refl
reported-unrefunded Report.failure b = refl

pub webhook_from-IsCoherent :
    (pc : WebhookPc) (r : Report) (s : State)
    → IsCoherent (record s { webhook = pc })
    → IsCoherent
        (or_wait (record s { webhook = pc }) (webhook_from pc r (record s { webhook = pc })))
unfolding webhook_from
webhook_from-IsCoherent WebhookPc.idle r s k = first_update-IsCoherent s.tables.payment r s refl k
webhook_from-IsCoherent (WebhookPc.updated x) r s k =
    if_split (λ pc. IsCoherent (record s { webhook = pc })) (is_seen x s.tables) _ _
      (λ _. webhook_at s (WebhookPc.updated x) WebhookPc.idle k refl tt)
      (λ e.
        webhook_at s (WebhookPc.updated x) (WebhookPc.marked x) k k.row_lock
          (k.webhook_in, sym (seen_of_lem x s.tables) ∙ e))
webhook_from-IsCoherent (WebhookPc.marked x) r s k =
    webhook_at s (WebhookPc.marked x) (WebhookPc.checked x s.tables.cancelled) k k.row_lock
      ((k.webhook_in).0, (k.webhook_in).1, refl)
webhook_from-IsCoherent (WebhookPc.checked x c) r s k = checked-IsCoherent x c s k
webhook_from-IsCoherent WebhookPc.refund_made r s k =
    webhook_at s WebhookPc.refund_made WebhookPc.refund_recorded k k.row_lock k.webhook_in
webhook_from-IsCoherent WebhookPc.refund_recorded r s k =
    webhook_commits s WebhookPc.refund_recorded Report.success PaymentStatus.refunded k refl
      (k.webhook_in).0 refl (ground (arith, k.webhook_in))
webhook_from-IsCoherent (WebhookPc.announced x) r s k =
    webhook_commits s (WebhookPc.announced x) x (reported_status x) k refl (k.webhook_in).0
      (ground (arith, (k.webhook_in).2)) (reported-unrefunded x _)

pub webhook_fails_lem :
    (s : State) → IsCoherent s → IsCoherent (record s { webhook = WebhookPc.idle })
webhook_fails_lem s k = webhook_at s s.webhook WebhookPc.idle k refl tt
