-- ===== src/Interleaving/Invariant.antt =====
-- What the locks keep true between the statements of interleaved transactions.
use high_throughput_payments.Base.{
  ◌≡◌, refl, Bool, true, false, not, ◌&&◌, Option, none, some, arith,
}
use high_throughput_payments.Db.{PaymentStatus}
use high_throughput_payments.Interleaving.{
  Tables, ChargePc, CancelPc, WebhookPc, Report, State, charge_locks, cancel_locks,
  webhook_locks_row,
}

abbrev pub is_some : Option PaymentStatus → Bool
is_some none = false
is_some (some _) = true

abbrev pub is_success : Option PaymentStatus → Bool
is_success (some PaymentStatus.succeeded) = true
is_success _ = false

abbrev pub is_refunded : Option PaymentStatus → Bool
is_refunded (some PaymentStatus.refunded) = true
is_refunded _ = false

-- the cancel has read the payment, or that there is none
abbrev pub cancel_fetched : CancelPc → Bool
cancel_fetched (CancelPc.fetched _) = true
cancel_fetched CancelPc.refund_made = true
cancel_fetched CancelPc.refund_recorded = true
cancel_fetched _ = false

-- what each handler has read still holds: `seen`, `cancelled`, the payment
abbrev pub ChargeOk : ChargePc → Bool → Bool → Option PaymentStatus → Type 0
ChargeOk ChargePc.idle seen c p = Unit {0}
ChargeOk ChargePc.marked seen c p = seen ≡ false
ChargeOk ChargePc.locked seen c p = seen ≡ false
ChargeOk ChargePc.skipping seen c p = (seen ≡ false) × (c ≡ true)
ChargeOk ChargePc.inserted seen c p = (seen ≡ false) × (c ≡ false) × (p ≡ none)
ChargeOk ChargePc.checked seen c p = (seen ≡ false) × (c ≡ false)
ChargeOk ChargePc.accepted seen c p = (seen ≡ false) × (c ≡ false)
ChargeOk ChargePc.declined seen c p = (seen ≡ false) × (c ≡ false)
ChargeOk ChargePc.announced seen c p = (seen ≡ false) × (c ≡ false)

abbrev pub CancelOk : CancelPc → Bool → Bool → Option PaymentStatus → Type 0
CancelOk CancelPc.idle seen refunded p = Unit {0}
CancelOk CancelPc.marked seen refunded p = seen ≡ false
CancelOk CancelPc.locked seen refunded p = seen ≡ false
CancelOk CancelPc.recorded seen refunded p = seen ≡ false
CancelOk (CancelPc.fetched q) seen refunded p = (seen ≡ false) × (p ≡ q)
CancelOk CancelPc.refund_made seen refunded p =
    (seen ≡ false) × (p ≡ some PaymentStatus.succeeded) × (refunded ≡ true)
CancelOk CancelPc.refund_recorded seen refunded p =
    (seen ≡ false) × (p ≡ some PaymentStatus.succeeded) × (refunded ≡ true)

abbrev pub seen_of : Report → Bool → Bool → Bool
seen_of Report.success success failure = success
seen_of Report.failure success failure = failure

abbrev pub WebhookOk : WebhookPc → Option PaymentStatus → Bool → Bool → Bool → Bool → Type 0
WebhookOk WebhookPc.idle p c success failure refunded = Unit {0}
WebhookOk (WebhookPc.updated r) p c success failure refunded = is_some p ≡ true
WebhookOk (WebhookPc.marked r) p c success failure refunded =
    (is_some p ≡ true) × (seen_of r success failure ≡ false)
WebhookOk (WebhookPc.checked r c') p c success failure refunded =
    (is_some p ≡ true) × (seen_of r success failure ≡ false) × (c ≡ c')
WebhookOk WebhookPc.refund_made p c success failure refunded =
    (is_some p ≡ true) × (success ≡ false) × (c ≡ true) × (refunded ≡ true)
WebhookOk WebhookPc.refund_recorded p c success failure refunded =
    (is_some p ≡ true) × (success ≡ false) × (c ≡ true) × (refunded ≡ true)
WebhookOk (WebhookPc.announced r) p c success failure refunded =
    (is_some p ≡ true) × (seen_of r success failure ≡ false) × (c ≡ false)

abbrev pub ChargeIn : ChargePc → Tables → Type 0
ChargeIn pc t = ChargeOk pc t.created_seen t.cancelled t.payment

abbrev pub CancelIn : CancelPc → Tables → Bool → Type 0
CancelIn pc t refunded = CancelOk pc t.cancelled_seen refunded t.payment

abbrev pub WebhookIn : WebhookPc → Tables → Bool → Type 0
WebhookIn pc t refunded = WebhookOk pc t.payment t.cancelled t.success_seen t.failure_seen refunded

-- the invariant of all interleavings
pub record IsCoherent (s : State) : Type 0 where
  pub order_lock : (charge_locks s.charge && cancel_locks s.cancel) ≡ false
  pub row_lock : (webhook_locks_row s.webhook && cancel_fetched s.cancel) ≡ false
  pub charge_in : ChargeIn s.charge s.tables
  pub cancel_in : CancelIn s.cancel s.tables s.refunded
  pub webhook_in : WebhookIn s.webhook s.tables s.refunded
  pub no_conflict : (is_success s.tables.payment && s.tables.cancelled) ≡ false
  pub refund_made : (is_refunded s.tables.payment && not s.refunded) ≡ false

-- a handler without its lock has read nothing that may change
pub ChargeOk-unlocked :
    (pc : ChargePc) (seen c c' : Bool) (p p' : Option PaymentStatus)
    → charge_locks pc ≡ false
    → ChargeOk pc seen c p
    → ChargeOk pc seen c' p'
ChargeOk-unlocked ChargePc.idle seen c c' p p' l k = k
ChargeOk-unlocked ChargePc.marked seen c c' p p' l k = k
ChargeOk-unlocked _ seen c c' p p' l k = cc

pub ChargeOk-has_payment :
    (pc : ChargePc) (seen c : Bool) (p p' : Option PaymentStatus)
    → is_some p ≡ true
    → ChargeOk pc seen c p
    → ChargeOk pc seen c p'
ChargeOk-has_payment ChargePc.inserted seen c p p' h (a, b, e) = absurd (ground (arith, h, e))
ChargeOk-has_payment ChargePc.idle seen c p p' h k = k
ChargeOk-has_payment _ seen c p p' h k = k

pub CancelOk-unfetched :
    (pc : CancelPc) (seen refunded refunded' : Bool) (p p' : Option PaymentStatus)
    → cancel_fetched pc ≡ false
    → CancelOk pc seen refunded p
    → CancelOk pc seen refunded' p'
CancelOk-unfetched CancelPc.idle seen m m' p p' l k = k
CancelOk-unfetched CancelPc.marked seen m m' p p' l k = k
CancelOk-unfetched CancelPc.locked seen m m' p p' l k = k
CancelOk-unfetched CancelPc.recorded seen m m' p p' l k = k
CancelOk-unfetched (CancelPc.fetched q) seen m m' p p' l k = cc
CancelOk-unfetched _ seen m m' p p' l k = cc

pub fetched-locks : (pc : CancelPc) → cancel_locks pc ≡ false → cancel_fetched pc ≡ false
fetched-locks CancelPc.idle l = refl
fetched-locks CancelPc.marked l = refl
fetched-locks (CancelPc.fetched q) l = cc
fetched-locks _ l = cc

pub CancelOk-refund :
    (pc : CancelPc) (seen refunded : Bool) (p : Option PaymentStatus)
    → CancelOk pc seen refunded p
    → CancelOk pc seen true p
CancelOk-refund CancelPc.refund_made seen m p (a, b, c) = (a, b, refl)
CancelOk-refund CancelPc.refund_recorded seen m p (a, b, c) = (a, b, refl)
CancelOk-refund CancelPc.idle seen m p k = k
CancelOk-refund _ seen m p k = k

pub WebhookOk-unlocked :
    (pc : WebhookPc) (p : Option PaymentStatus) (c s f r : Bool)
    → webhook_locks_row pc ≡ false
    → WebhookOk pc p c s f r
WebhookOk-unlocked WebhookPc.idle p c s f m l = tt
WebhookOk-unlocked _ p c s f m l = cc

pub WebhookOk-no_payment :
    (pc : WebhookPc) (p : Option PaymentStatus) (c s f r : Bool)
    → p ≡ none
    → WebhookOk pc p c s f r
    → webhook_locks_row pc ≡ false
WebhookOk-no_payment WebhookPc.idle p c s f m e k = refl
WebhookOk-no_payment (WebhookPc.updated x) p c s f m e k = absurd (ground (arith, e, k))
WebhookOk-no_payment _ p c s f m e k = absurd (ground (arith, e, k.0))
