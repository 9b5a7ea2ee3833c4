-- ===== src/Interleaving/Coherent/Cancel.antt =====
-- `HandleOrderCancelled`, statement by statement.
use high_throughput_payments.Base.{
  ◌≡◌, refl, ap, true, false, not, ◌&&◌, Option, none, some, if_split, arith,
}
use high_throughput_payments.Db.{PaymentStatus}
use high_throughput_payments.Interleaving.{
  CancelPc, State, charge_locks, cancel_locks, webhook_locks_row, after_fetch, cancel_from, or_wait,
}
use high_throughput_payments.Interleaving.Invariant.{
  is_success, is_refunded, cancel_fetched, CancelIn, IsCoherent, ChargeOk-unlocked,
  WebhookOk-unlocked,
}
use high_throughput_payments.Interleaving.Coherent.Booleans.{and_true, and_false}

cancel_at :
    (s : State) (pc pc' : CancelPc)
    → IsCoherent (record s { cancel = pc })
    → (charge_locks s.charge && cancel_locks pc') ≡ false
    → (webhook_locks_row s.webhook && cancel_fetched pc') ≡ false
    → CancelIn pc' s.tables s.refunded
    → IsCoherent (record s { cancel = pc' })
cancel_at s pc pc' k lock row here = record {
  order_lock = lock;
  row_lock = row;
  charge_in = k.charge_in;
  cancel_in = here;
  webhook_in = k.webhook_in;
  no_conflict = k.no_conflict;
  refund_made = k.refund_made;
}

-- the commits of a cancel that has fetched the payment
cancel_commits :
    (s : State) (pc : CancelPc) (p : Option PaymentStatus)
    → IsCoherent (record s { cancel = pc })
    → cancel_locks pc ≡ true
    → cancel_fetched pc ≡ true
    → is_success p ≡ false
    → (is_refunded p && not s.refunded) ≡ false
    → IsCoherent (record s {
      tables = record s.tables { cancelled_seen = true; cancelled = true; payment = p };
      cancel = CancelPc.idle;
    })
cancel_commits s pc p k l f n m =
    let open_charge : charge_locks s.charge ≡ false = ground (arith, k.order_lock, l) in
    let open_row : webhook_locks_row s.webhook ≡ false = ground (arith, k.row_lock, f) in
    record {
      order_lock = and_false (charge_locks s.charge);
      row_lock = and_false (webhook_locks_row s.webhook);
      charge_in = ChargeOk-unlocked s.charge _ _ _ _ _ open_charge k.charge_in;
      cancel_in = tt;
      webhook_in = WebhookOk-unlocked s.webhook _ _ _ _ _ open_row;
      no_conflict = rw n refl;
      refund_made = m;
    }

-- the end of a cancel by what it has fetched
fetched-IsCoherent :
    (p : Option PaymentStatus) (s : State)
    → IsCoherent (record s { cancel = CancelPc.fetched p })
    → IsCoherent (after_fetch p (record s { cancel = CancelPc.fetched p }))
fetched-IsCoherent none s k =
    cancel_commits s (CancelPc.fetched none) s.tables.payment k refl refl
      (ap is_success (k.cancel_in).1) k.refund_made
fetched-IsCoherent (some PaymentStatus.succeeded) s k = record {
  order_lock = k.order_lock;
  row_lock = k.row_lock;
  charge_in = k.charge_in;
  cancel_in = ((k.cancel_in).0, (k.cancel_in).1, refl);
  webhook_in = WebhookOk-unlocked s.webhook _ _ _ _ _ (and_true _ k.row_lock);
  no_conflict = k.no_conflict;
  refund_made = and_false _;
}
fetched-IsCoherent (some PaymentStatus.pending) s k =
    cancel_commits s (CancelPc.fetched (some PaymentStatus.pending)) s.tables.payment k refl refl
      (ap is_success (k.cancel_in).1) k.refund_made
fetched-IsCoherent (some PaymentStatus.failed) s k =
    cancel_commits s (CancelPc.fetched (some PaymentStatus.failed)) s.tables.payment k refl refl
      (ap is_success (k.cancel_in).1) k.refund_made
fetched-IsCoherent (some PaymentStatus.refunded) s k =
    cancel_commits s (CancelPc.fetched (some PaymentStatus.refunded)) s.tables.payment k refl refl
      (ap is_success (k.cancel_in).1) k.refund_made

pub cancel_from-IsCoherent :
    (pc : CancelPc) (s : State)
    → IsCoherent (record s { cancel = pc })
    → IsCoherent (or_wait (record s { cancel = pc }) (cancel_from pc (record s { cancel = pc })))
unfolding cancel_from
cancel_from-IsCoherent CancelPc.idle s k =
    if_split IsCoherent s.tables.cancelled_seen _ _ (λ _. k)
      (λ e. cancel_at s CancelPc.idle CancelPc.marked k (and_false _) (and_false _) e)
cancel_from-IsCoherent CancelPc.marked s k =
    if_split (λ o. IsCoherent (or_wait (record s { cancel = CancelPc.marked }) o))
      (charge_locks s.charge) _ _ (λ _. k)
      (λ e.
        cancel_at s CancelPc.marked CancelPc.locked k (ground (arith, e)) (and_false _) k.cancel_in)
cancel_from-IsCoherent CancelPc.locked s k =
    cancel_at s CancelPc.locked CancelPc.recorded k k.order_lock (and_false _) k.cancel_in
cancel_from-IsCoherent CancelPc.recorded s k =
    if_split (λ o. IsCoherent (or_wait (record s { cancel = CancelPc.recorded }) o))
      (webhook_locks_row s.webhook) _ _ (λ _. k)
      (λ e.
        cancel_at s CancelPc.recorded (CancelPc.fetched s.tables.payment) k k.order_lock
          (ground (arith, e)) (k.cancel_in, refl))
cancel_from-IsCoherent (CancelPc.fetched p) s k = fetched-IsCoherent p s k
cancel_from-IsCoherent CancelPc.refund_made s k =
    cancel_at s CancelPc.refund_made CancelPc.refund_recorded k k.order_lock k.row_lock k.cancel_in
cancel_from-IsCoherent CancelPc.refund_recorded s k =
    cancel_commits s CancelPc.refund_recorded (some PaymentStatus.refunded) k refl refl refl
      (ground (arith, (k.cancel_in).2))

pub cancel_fails_lem : (s : State) → IsCoherent s → IsCoherent (record s { cancel = CancelPc.idle })
cancel_fails_lem s k = cancel_at s s.cancel CancelPc.idle k (and_false _) (and_false _) tt
