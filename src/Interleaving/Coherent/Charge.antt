-- ===== src/Interleaving/Coherent/Charge.antt =====
-- `HandleOrderCreated`, statement by statement.
use high_throughput_payments.Base.{◌≡◌, refl, false, ◌&&◌, Option, none, some, if_split}
use high_throughput_payments.Db.{PaymentStatus}
use high_throughput_payments.Interleaving.{
  ChargePc, State, Answer, charge_locks, cancel_locks, seen_created, with_payment, charge_from,
  or_wait,
}
use high_throughput_payments.Interleaving.Invariant.{
  ChargeIn, IsCoherent, CancelOk-unfetched, fetched-locks, WebhookOk-unlocked, WebhookOk-no_payment,
}

-- a handler's transaction moves on, or ends with nothing changed
charge_at :
    (s : State) (pc pc' : ChargePc)
    → IsCoherent (record s { charge = pc })
    → (charge_locks pc' && cancel_locks s.cancel) ≡ false
    → ChargeIn pc' s.tables
    → IsCoherent (record s { charge = pc' })
charge_at s pc pc' k lock here = record {
  order_lock = lock;
  row_lock = k.row_lock;
  charge_in = here;
  cancel_in = k.cancel_in;
  webhook_in = k.webhook_in;
  no_conflict = k.no_conflict;
  refund_made = k.refund_made;
}

-- the commits that leave the payment alone
charge_seen :
    (s : State) (pc : ChargePc)
    → IsCoherent (record s { charge = pc })
    → IsCoherent (record s { tables = seen_created s.tables; charge = ChargePc.idle })
charge_seen s pc k = record {
  order_lock = refl;
  row_lock = k.row_lock;
  charge_in = tt;
  cancel_in = k.cancel_in;
  webhook_in = k.webhook_in;
  no_conflict = k.no_conflict;
  refund_made = k.refund_made;
}

-- the commit of a new payment
charge_paid :
    (s : State)
    → IsCoherent (record s { charge = ChargePc.inserted })
    → IsCoherent (record s { tables = with_payment s.tables; charge = ChargePc.idle })
charge_paid s k = record {
  order_lock = refl;
  row_lock = k.row_lock;
  charge_in = tt;
  cancel_in =
      CancelOk-unfetched s.cancel _ _ _ _ _ (fetched-locks s.cancel k.order_lock) k.cancel_in;
  webhook_in =
      WebhookOk-unlocked s.webhook _ _ _ _ _
        (WebhookOk-no_payment s.webhook _ _ _ _ _ (k.charge_in).2 k.webhook_in);
  no_conflict = refl;
  refund_made = refl;
}

pub charge_from-IsCoherent :
    (pc : ChargePc) (a : Answer) (s : State)
    → IsCoherent (record s { charge = pc })
    → IsCoherent (or_wait (record s { charge = pc }) (charge_from pc a (record s { charge = pc })))
unfolding charge_from
charge_from-IsCoherent ChargePc.idle a s k =
    if_split IsCoherent s.tables.created_seen _ _ (λ _. k)
      (λ e. charge_at s ChargePc.idle ChargePc.marked k refl e)
charge_from-IsCoherent ChargePc.marked a s k =
    if_split (λ o. IsCoherent (or_wait (record s { charge = ChargePc.marked }) o))
      (cancel_locks s.cancel) _ _ (λ _. k)
      (λ e. charge_at s ChargePc.marked ChargePc.locked k e k.charge_in)
charge_from-IsCoherent ChargePc.locked a s k =
    if_split (λ pc. IsCoherent (record s { charge = pc })) s.tables.cancelled _ _
      (λ e. charge_at s ChargePc.locked ChargePc.skipping k k.order_lock (k.charge_in, e))
      (λ e. charge_at s ChargePc.locked ChargePc.checked k k.order_lock (k.charge_in, e))
charge_from-IsCoherent ChargePc.skipping a s k = charge_seen s ChargePc.skipping k
charge_from-IsCoherent ChargePc.checked Answer.accepted s k =
    charge_at s ChargePc.checked ChargePc.accepted k k.order_lock k.charge_in
charge_from-IsCoherent ChargePc.checked Answer.declined s k =
    charge_at s ChargePc.checked ChargePc.declined k k.order_lock k.charge_in
charge_from-IsCoherent ChargePc.checked Answer.circuit_open s k =
    charge_at s ChargePc.checked ChargePc.idle k refl tt
charge_from-IsCoherent ChargePc.accepted a s k = inserts s.tables.payment refl
  where
    inserts :
        (p : Option PaymentStatus)
        → s.tables.payment ≡ p
        → IsCoherent
            (record s { charge = elim p [ none ↦ ChargePc.inserted | some _ ↦ ChargePc.idle ] })
    inserts none e =
        charge_at s ChargePc.accepted ChargePc.inserted k k.order_lock
          ((k.charge_in).0, (k.charge_in).1, e)
    inserts (some _) e = charge_at s ChargePc.accepted ChargePc.idle k refl tt
charge_from-IsCoherent ChargePc.declined a s k =
    charge_at s ChargePc.declined ChargePc.announced k k.order_lock k.charge_in
charge_from-IsCoherent ChargePc.inserted a s k = charge_paid s k
charge_from-IsCoherent ChargePc.announced a s k = charge_seen s ChargePc.announced k

pub charge_fails_lem : (s : State) → IsCoherent s → IsCoherent (record s { charge = ChargePc.idle })
charge_fails_lem s k = charge_at s s.charge ChargePc.idle k refl tt
