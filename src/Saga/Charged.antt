-- ===== src/Saga/Charged.antt =====
-- Payments and cancels as lists: the payments that are charged although their order is cancelled.
use high_throughput_payments.Base.{
  ℕ, String, List, [], ◌∷◌, ◌==◌, nat_eq, string_eq, ◌≡◌, refl, Bool, true, false, ◌&&◌, ◌||◌, none,
  some, any, find, update, distinct, subst, ==_sound, if◌then◌else◌, arith,
}
use high_throughput_payments.Db.{Payment, PaymentStatus, payment_status_eq, payment_status_discrete}
use high_throughput_payments.Db.Payments.{of_order, of_intent, set_status}

abbrev pub is_in : ℕ → List ℕ → Bool
is_in o c = any (λ x. x == o) c

abbrev pub is_charged : Payment → Bool
is_charged p = p.status == PaymentStatus.succeeded

abbrev pub is_conflict : List ℕ → Payment → Bool
is_conflict c p = is_charged p && is_in p.order_id c

abbrev pub add : ℕ → List ℕ → List ℕ
add o c = if is_in o c then c else o ∷ c

abbrev pub same_order : Payment → Payment → Bool
same_order p q = of_order p.order_id q

abbrev pub same_intent : Payment → Payment → Bool
same_intent p q = of_intent p.stripe_payment_intent_id q

is_in-add : (o q : ℕ) (c : List ℕ) → is_in q (add o c) ≡ ((o == q) || is_in q c)
is_in-add o q c = ground arith

pub conflict-add :
    (o : ℕ) (c : List ℕ) (ps : List Payment)
    → any (is_conflict c) ps ≡ false
    → any (λ p. of_order o p && is_charged p) ps ≡ false
    → any (is_conflict (add o c)) ps ≡ false
conflict-add o c [] h k = refl
conflict-add o c (p ∷ ps) h k = ground (arith, is_in-add o p.order_id c, conflict-add o c ps)

refunded-is_charged : (p : Payment) → is_charged (set_status PaymentStatus.refunded p) ≡ false
unfolding payment_status_discrete
refunded-is_charged p = refl

-- a cancel that refunds every payment of its order
pub conflict-refund :
    (o : ℕ) (c : List ℕ) (ps : List Payment)
    → any (is_conflict c) ps ≡ false
    → any (is_conflict (add o c)) (update (of_order o) (set_status PaymentStatus.refunded) ps)
      ≡ false
conflict-refund o c [] h = refl
conflict-refund o c (p ∷ ps) h =
    ground (arith, is_in-add o p.order_id c, refunded-is_charged p, conflict-refund o c ps)

-- payments of other intents keep their status
conflict-other :
    (i : String) (st : PaymentStatus) (c : List ℕ) (ps : List Payment)
    → any (is_conflict c) ps ≡ false
    → any (of_intent i) ps ≡ false
    → any (is_conflict c) (update (of_intent i) (set_status st) ps) ≡ false
conflict-other i st c [] h k = refl
conflict-other i st c (p ∷ ps) h k = ground (arith, conflict-other i st c ps)

-- after the first payment of an intent there is no second
pub intent_unique :
    (i : String) (p : Payment) (ps : List Payment)
    → of_intent i p ≡ true
    → any (same_intent p) ps ≡ false
    → any (of_intent i) ps ≡ false
intent_unique i p ps e u =
    subst (λ j. any (of_intent j) ps ≡ false) (==_sound p.stripe_payment_intent_id i e) u

-- a new status for a payment whose order is not cancelled
pub conflict-settle :
    (i : String) (st : PaymentStatus) (c : List ℕ) (q : Payment) (ps : List Payment)
    → any (is_conflict c) ps ≡ false
    → distinct same_intent ps ≡ true
    → find (of_intent i) ps ≡ some q
    → is_in q.order_id c ≡ false
    → any (is_conflict c) (update (of_intent i) (set_status st) ps) ≡ false
conflict-settle i st c q [] h u f k = refl
conflict-settle i st c q (p ∷ ps) h u f k =
    ground (arith, intent_unique i p ps, conflict-other i st c ps, conflict-settle i st c q ps)

-- a status that is no charge, for any payment
pub conflict-quiet :
    (i : String) (st : PaymentStatus) (c : List ℕ) (ps : List Payment)
    → any (is_conflict c) ps ≡ false
    → (st == PaymentStatus.succeeded) ≡ false
    → any (is_conflict c) (update (of_intent i) (set_status st) ps) ≡ false
conflict-quiet i st c [] h k = refl
conflict-quiet i st c (p ∷ ps) h k = ground (arith, conflict-quiet i st c ps)

conflict-refund_same :
    (o : ℕ) (c : List ℕ) (ps : List Payment)
    → any (is_conflict c) ps ≡ false
    → any (is_conflict c) (update (of_order o) (set_status PaymentStatus.refunded) ps) ≡ false
conflict-refund_same o c [] h = refl
conflict-refund_same o c (p ∷ ps) h =
    ground (arith, refunded-is_charged p, conflict-refund_same o c ps)

-- a payment that is charged and refunded in one transaction
pub conflict-settle_refund :
    (i : String) (st : PaymentStatus) (c : List ℕ) (q : Payment) (ps : List Payment)
    → any (is_conflict c) ps ≡ false
    → distinct same_intent ps ≡ true
    → find (of_intent i) ps ≡ some q
    → any (is_conflict c) (
        update
          (of_order q.order_id)
          (set_status PaymentStatus.refunded)
          (update (of_intent i) (set_status st) ps))
      ≡ false
conflict-settle_refund i st c q [] h u f = refl
conflict-settle_refund i st c q (p ∷ ps) h u f = ground (
  arith,
  intent_unique i p ps,
  refunded-is_charged p,
  conflict-other i st c ps,
  conflict-refund_same q.order_id c (update (of_intent i) (set_status st) ps),
  conflict-settle_refund i st c q ps,
)

pub not_charged_of_none :
    (o : ℕ) (ps : List Payment)
    → find (of_order o) ps ≡ none
    → any (λ p. of_order o p && is_charged p) ps ≡ false
not_charged_of_none o [] f = refl
not_charged_of_none o (p ∷ ps) f = ground (arith, not_charged_of_none o ps)

order_unique :
    (o : ℕ) (p : Payment) (ps : List Payment)
    → of_order o p ≡ true
    → any (same_order p) ps ≡ false
    → any (λ q. of_order o q && is_charged q) ps ≡ false
order_unique o p [] e u = refl
order_unique o p (q ∷ ps) e u = ground (arith, order_unique o p ps e)

pub not_charged_of_first :
    (o : ℕ) (q : Payment) (ps : List Payment)
    → distinct same_order ps ≡ true
    → find (of_order o) ps ≡ some q
    → is_charged q ≡ false
    → any (λ p. of_order o p && is_charged p) ps ≡ false
not_charged_of_first o q [] u f c = refl
not_charged_of_first o q (p ∷ ps) u f c =
    ground (arith, order_unique o p ps, not_charged_of_first o q ps)

-- no status takes part in a key
module _ (st : PaymentStatus) (w : Payment → Bool) where
  any-same_order-update :
      (x : Payment) (ps : List Payment)
      → any (same_order x) (update w (set_status st) ps) ≡ any (same_order x) ps
  any-same_order-update x [] = refl
  any-same_order-update x (p ∷ ps) = ground (arith, any-same_order-update x ps)

  any-same_intent-update :
      (x : Payment) (ps : List Payment)
      → any (same_intent x) (update w (set_status st) ps) ≡ any (same_intent x) ps
  any-same_intent-update x [] = refl
  any-same_intent-update x (p ∷ ps) = ground (arith, any-same_intent-update x ps)

  pub distinct_orders-update :
      (ps : List Payment)
      → distinct same_order (update w (set_status st) ps) ≡ distinct same_order ps
  distinct_orders-update [] = refl
  distinct_orders-update (p ∷ ps) =
      ground (arith, any-same_order-update p ps, distinct_orders-update ps)

  pub distinct_intents-update :
      (ps : List Payment)
      → distinct same_intent (update w (set_status st) ps) ≡ distinct same_intent ps
  distinct_intents-update [] = refl
  distinct_intents-update (p ∷ ps) =
      ground (arith, any-same_intent-update p ps, distinct_intents-update ps)

-- no payment of a cancelled order is charged
pub charged-none :
    (o : ℕ) (c : List ℕ) (ps : List Payment)
    → any (is_conflict c) ps ≡ false
    → is_in o c ≡ true
    → any (λ p. of_order o p && is_charged p) ps ≡ false
charged-none o c [] h k = refl
charged-none o c (p ∷ ps) h k = ground (arith, charged-none o c ps, ==_sound p.order_id o)

-- the payment that a lookup finds
pub find_intent-of_intent :
    (i : String) (ps : List Payment) (p : Payment)
    → find (of_intent i) ps ≡ some p
    → of_intent i p ≡ true
find_intent-of_intent i [] p q = cc
find_intent-of_intent i (x ∷ ps) p q = ground (arith, find_intent-of_intent i ps p)

-- a lookup after an update of the status
pub find_intent-update :
    (i : String) (sel : Payment → Bool) (st : PaymentStatus) (ps : List Payment) (p : Payment)
    → find (of_intent i) ps ≡ some p
    → find (of_intent i) (update sel (set_status st) ps)
      ≡ some (if sel p then set_status st p else p)
find_intent-update i sel st [] p q = cc
find_intent-update i sel st (x ∷ ps) p q = ground (arith, find_intent-update i sel st ps p)
