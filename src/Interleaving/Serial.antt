-- ===== src/Interleaving/Serial.antt =====
-- The transactions of the handlers as single steps on the tables, against their interleavings.
use high_throughput_payments.Base.{
  ◌≡◌, ap, Bool, true, false, Option, none, some, List, [], ◌∷◌, if_split, ◌∙◌,
}
use high_throughput_payments.Db.{PaymentStatus}
use high_throughput_payments.Interleaving.{
  Tables, ChargePc, CancelPc, WebhookPc, Report, State, Answer, Move, charge_locks, cancel_locks,
  cancel_locks_row, webhook_locks_row, seen_created, with_payment, with_cancel, with_refund,
  with_report, reported_status, is_seen, after_fetch, first_update, after_check, charge_from,
  cancel_from, webhook_from, advance, or_wait, step, run,
}
use high_throughput_payments.Interleaving.Invariant.{is_some, is_success, IsCoherent}
use high_throughput_payments.Interleaving.Coherent.{advance-IsCoherent}
use high_throughput_payments.Interleaving.Coherent.Webhook.{seen_of_lem}

-- A handler as one step: what it commits, from tables that it read whole. Each needs that its mark
-- is new, and so happens once for an order.
pub data Atomic (t : Tables) : Tables → Type 0 where
  skip : t.created_seen ≡ false → t.cancelled ≡ true → Atomic t (seen_created t)
  decline : t.created_seen ≡ false → t.cancelled ≡ false → Atomic t (seen_created t)
  charge :
      t.created_seen ≡ false → t.cancelled ≡ false → t.payment ≡ none → Atomic t (with_payment t)
  cancel : t.cancelled_seen ≡ false → is_success t.payment ≡ false → Atomic t (with_cancel t)
  cancel_refund :
      t.cancelled_seen ≡ false → t.payment ≡ some PaymentStatus.succeeded → Atomic t (with_refund t)
  report :
      (r : Report)
      → is_some t.payment ≡ true
      → is_seen r t ≡ false
      → t.cancelled ≡ false
      → Atomic t (with_report r (reported_status r) t)
  failure_of_cancelled :
      is_some t.payment ≡ true
      → t.failure_seen ≡ false
      → t.cancelled ≡ true
      → Atomic t (with_report Report.failure PaymentStatus.failed t)
  success_of_cancelled :
      is_some t.payment ≡ true
      → t.success_seen ≡ false
      → t.cancelled ≡ true
      → Atomic t (with_report Report.success PaymentStatus.refunded t)

pub data Effect (t : Tables) : Tables → Type 0 where
  none_yet : Effect t t
  commits : {t' : Tables} → Atomic t t' → Effect t t'

-- one after the other
pub data Serial (t : Tables) : Tables → Type 0 where
  start : Serial t t
  later : {u v : Tables} → Serial t u → Effect u v → Serial t v

-- the commit of what was fetched
fetched-Effect :
    (p : Option PaymentStatus) (s : State)
    → s.tables.cancelled_seen ≡ false
    → s.tables.payment ≡ p
    → Effect s.tables (after_fetch p s).tables
fetched-Effect none s n q = commits (Atomic.cancel n (ap is_success q))
fetched-Effect (some PaymentStatus.succeeded) s n q = none_yet
fetched-Effect (some PaymentStatus.pending) s n q = commits (Atomic.cancel n (ap is_success q))
fetched-Effect (some PaymentStatus.failed) s n q = commits (Atomic.cancel n (ap is_success q))
fetched-Effect (some PaymentStatus.refunded) s n q = commits (Atomic.cancel n (ap is_success q))

charge_from-Effect :
    (pc : ChargePc) (a : Answer) (s : State)
    → IsCoherent (record s { charge = pc })
    → Effect s.tables
        (or_wait (record s { charge = pc }) (charge_from pc a (record s { charge = pc }))).tables
unfolding charge_from
charge_from-Effect ChargePc.idle a s k =
    if_split (λ (s' : State). Effect s.tables s'.tables) s.tables.created_seen _ _ (λ _. none_yet)
      (λ _. none_yet)
charge_from-Effect ChargePc.marked a s k =
    if_split (λ o. Effect s.tables (or_wait (record s { charge = ChargePc.marked }) o).tables)
      (cancel_locks s.cancel) _ _ (λ _. none_yet) (λ _. none_yet)
charge_from-Effect ChargePc.locked a s k = none_yet
charge_from-Effect ChargePc.skipping a s k = commits (Atomic.skip (k.charge_in).0 (k.charge_in).1)
charge_from-Effect ChargePc.checked a s k = none_yet
charge_from-Effect ChargePc.accepted a s k = none_yet
charge_from-Effect ChargePc.declined a s k = none_yet
charge_from-Effect ChargePc.inserted a s k =
    commits (Atomic.charge (k.charge_in).0 (k.charge_in).1 (k.charge_in).2)
charge_from-Effect ChargePc.announced a s k =
    commits (Atomic.decline (k.charge_in).0 (k.charge_in).1)

cancel_from-Effect :
    (pc : CancelPc) (s : State)
    → IsCoherent (record s { cancel = pc })
    → Effect s.tables
        (or_wait (record s { cancel = pc }) (cancel_from pc (record s { cancel = pc }))).tables
unfolding cancel_from
cancel_from-Effect CancelPc.idle s k =
    if_split (λ (s' : State). Effect s.tables s'.tables) s.tables.cancelled_seen _ _ (λ _. none_yet)
      (λ _. none_yet)
cancel_from-Effect CancelPc.marked s k =
    if_split (λ o. Effect s.tables (or_wait (record s { cancel = CancelPc.marked }) o).tables)
      (charge_locks s.charge) _ _ (λ _. none_yet) (λ _. none_yet)
cancel_from-Effect CancelPc.locked s k = none_yet
cancel_from-Effect CancelPc.recorded s k =
    if_split (λ o. Effect s.tables (or_wait (record s { cancel = CancelPc.recorded }) o).tables)
      (webhook_locks_row s.webhook) _ _ (λ _. none_yet) (λ _. none_yet)
cancel_from-Effect (CancelPc.fetched p) s k =
    fetched-Effect p (record s { cancel = CancelPc.fetched p }) (k.cancel_in).0 (k.cancel_in).1
cancel_from-Effect CancelPc.refund_made s k = none_yet
cancel_from-Effect CancelPc.refund_recorded s k =
    commits (Atomic.cancel_refund (k.cancel_in).0 (k.cancel_in).1)

checked-Effect :
    (r : Report) (c : Bool) (s : State)
    → is_some s.tables.payment ≡ true
    → is_seen r s.tables ≡ false
    → s.tables.cancelled ≡ c
    → Effect s.tables (after_check r c s).tables
checked-Effect r false s p n q = none_yet
checked-Effect Report.success true s p n q = none_yet
checked-Effect Report.failure true s p n q = commits (Atomic.failure_of_cancelled p n q)

first_update-Effect :
    (p : Option PaymentStatus) (r : Report) (s : State)
    → Effect s.tables (or_wait s (first_update p r s)).tables
first_update-Effect none r s = none_yet
first_update-Effect (some x) r s =
    if_split (λ o. Effect s.tables (or_wait s o).tables) (cancel_locks_row s.cancel) _ _
      (λ _. none_yet) (λ _. none_yet)

webhook_from-Effect :
    (pc : WebhookPc) (r : Report) (s : State)
    → IsCoherent (record s { webhook = pc })
    → Effect s.tables
        (or_wait (record s { webhook = pc }) (webhook_from pc r (record s { webhook = pc }))).tables
unfolding webhook_from
webhook_from-Effect WebhookPc.idle r s k =
    first_update-Effect s.tables.payment r (record s { webhook = WebhookPc.idle })
webhook_from-Effect (WebhookPc.updated x) r s k = none_yet
webhook_from-Effect (WebhookPc.marked x) r s k = none_yet
webhook_from-Effect (WebhookPc.checked x c) r s k =
    checked-Effect x c (record s { webhook = WebhookPc.checked x c }) (k.webhook_in).0
      (seen_of_lem x s.tables ∙ (k.webhook_in).1) (k.webhook_in).2
webhook_from-Effect WebhookPc.refund_made r s k = none_yet
webhook_from-Effect WebhookPc.refund_recorded r s k =
    commits (Atomic.success_of_cancelled (k.webhook_in).0 (k.webhook_in).1 (k.webhook_in).2)
webhook_from-Effect (WebhookPc.announced x) r s k =
    commits (
      Atomic.report x (k.webhook_in).0 (seen_of_lem x s.tables ∙ (k.webhook_in).1) (k.webhook_in).2)

advance-Effect :
    (m : Move) (s : State) → IsCoherent s → Effect s.tables (or_wait s (advance m s)).tables
unfolding advance
advance-Effect (Move.charge_moves a) s k = charge_from-Effect s.charge a s k
advance-Effect Move.cancel_moves s k = cancel_from-Effect s.cancel s k
advance-Effect (Move.webhook_moves r) s k = webhook_from-Effect s.webhook r s k
advance-Effect Move.charge_fails s k = none_yet
advance-Effect Move.cancel_fails s k = none_yet
advance-Effect Move.webhook_fails s k = none_yet

serial_from :
    (ms : List Move) (t : Tables) (s : State)
    → IsCoherent s
    → Serial t s.tables
    → Serial t (run ms s).tables
unfolding run step
serial_from [] t s k h = h
serial_from (m ∷ ms) t s k h =
    serial_from ms t (or_wait s (advance m s)) (advance-IsCoherent m s k)
      (later h (advance-Effect m s k))

-- From coherent transactions on an order, after any of their statements and errors in any order,
-- the tables are those that whole handlers leave that run one after the other: each commit has the
-- effect of its handler on the tables as they are at the commit, and each mark is set once.
pub run-Serial : (ms : List Move) (s : State) → IsCoherent s → Serial s.tables (run ms s).tables
run-Serial ms s k = serial_from ms s.tables s k start
