-- ===== src/Pipeline/Orders.antt =====
-- The table `orders` over time: which orders are stored, which of them are cancelled, and that both
-- only grow under what Order Service does to it.
use high_throughput_payments.Base.{
  ℕ, List, [], ◌∷◌, ◌==◌, nat_eq, ==_refl, ==_sound, ◌≡◌, refl, Bool, true, false, Option, some,
  find, any, update, distinct, arith, Bool-cases, inl, inr, if_split, subst, sym, if◌then◌else◌,
}
use high_throughput_payments.Db.{Order, OrderStatus, order_status_eq}
use high_throughput_payments.Db.Orders.{is_pending, set_cancelled}

abbrev pub stored : ℕ → List Order → Option Order
stored id os = find (λ o. o.id == id) os

abbrev pub same_order : Order → Order → Bool
same_order o r = r.id == o.id

-- the order is stored, with whatever status
abbrev pub Placed : List Order → Order → Type 0
Placed os o = (s : OrderStatus) × (stored o.id os ≡ some (record o { status = s }))

-- an order with this id is stored, and cancelled
abbrev pub IsCancelled : List Order → ℕ → Type 0
IsCancelled os id = (o : Order) × (stored id os ≡ some o) × (o.status ≡ OrderStatus.cancelled)

pub record Grows (os os' : List Order) : Type 0 where
  pub placed : (o : Order) → Placed os o → Placed os' o
  pub cancelled : (id : ℕ) → IsCancelled os id → IsCancelled os' id

pub Grows-refl : (os : List Order) → Grows os os
Grows-refl os = record { placed = λ o p. p; cancelled = λ id c. c }

pub Grows-trans : {os os' os'' : List Order} → Grows os os' → Grows os' os'' → Grows os os''
Grows-trans g h = record {
  placed = λ o p. h.placed o (g.placed o p);
  cancelled = λ id c. h.cancelled id (g.cancelled id c);
}

stored-has :
    (id : ℕ) (os : List Order) (o : Order) → stored id os ≡ some o → any (λ r. r.id == id) os ≡ true
stored-has id [] o q = cc
stored-has id (x ∷ xs) o q = ground (arith, stored-has id xs o)

pub stored-id : (id : ℕ) (os : List Order) (o : Order) → stored id os ≡ some o → o.id ≡ id
stored-id id [] o q = cc
stored-id id (x ∷ xs) o q = ground (arith, stored-id id xs o, ==_sound x.id id)

stored-add :
    (n : Order) (os : List Order) (id : ℕ) (o : Order)
    → any (λ r. r.id == n.id) os ≡ false
    → stored id os ≡ some o
    → stored id (n ∷ os) ≡ some o
stored-add n os id o f q = elim (Bool-cases (n.id == id)) [
  | inr e ↦ rw e q
  | inl e ↦
      let same : n.id ≡ id = ==_sound n.id id e in
      absurd (cc (f, subst (λ x. any (λ r. r.id == x) os ≡ true) (sym same) (stored-has id os o q)))
]

-- an insertion under a new id
pub Grows-add : (n : Order) (os : List Order) → any (same_order n) os ≡ false → Grows os (n ∷ os)
Grows-add n os f = record {
  placed = λ o (s, q). (s, stored-add n os o.id _ f q);
  cancelled = λ id (o, q, c). (o, stored-add n os id o f q, c);
}

pub Placed-new : (n : Order) (os : List Order) → Placed (n ∷ os) n
Placed-new n os = (n.status, rw (==_refl n.id) refl)

abbrev cancelled_now : ℕ → Order → Order
cancelled_now id o = if is_pending id o then set_cancelled o else o

stored-cancel :
    (k id : ℕ) (os : List Order) (o : Order)
    → stored id os ≡ some o
    → stored id (update (is_pending k) set_cancelled os) ≡ some (cancelled_now k o)
stored-cancel k id [] o q = cc
stored-cancel k id (x ∷ xs) o q = ground (arith, stored-cancel k id xs o)

-- the update of `CancelPending`
pub Grows-cancel : (k : ℕ) (os : List Order) → Grows os (update (is_pending k) set_cancelled os)
Grows-cancel k os = record {
  placed = λ o (s, q).
      if_split
        (λ r.
          stored o.id (update (is_pending k) set_cancelled os) ≡ some r
          → Placed (update (is_pending k) set_cancelled os) o)
        (is_pending k (record o { status = s })) _ _ (λ _ e. (OrderStatus.cancelled, e))
        (λ _ e. (s, e)) (stored-cancel k o.id os _ q);
  cancelled = λ id (o, q, c).
      if_split
        (λ r.
          stored id (update (is_pending k) set_cancelled os) ≡ some r
          → IsCancelled (update (is_pending k) set_cancelled os) id)
        (is_pending k o) _ _ (λ _ e. (set_cancelled o, e, refl)) (λ _ e. (o, e, c))
        (stored-cancel k id os o q);
}

pending-id : (k : ℕ) (o : Order) → is_pending k o ≡ true → o.id ≡ k
pending-id k o p = ==_sound o.id k (ground (arith, p))

pending-has :
    (k : ℕ) (os : List Order) (o : Order)
    → find (is_pending k) os ≡ some o
    → any (λ r. r.id == k) os ≡ true
pending-has k [] o q = cc
pending-has k (x ∷ xs) o q = ground (arith, pending-has k xs o)

the_others :
    (x : Order) (xs : List Order)
    → distinct same_order (x ∷ xs) ≡ true
    → any (same_order x) xs ≡ false
the_others x xs u = ground (arith, u)

-- of an order whose id is unique, the pending row is the one that is stored
pending-stored :
    (k : ℕ) (os : List Order) (o : Order)
    → distinct same_order os ≡ true
    → find (is_pending k) os ≡ some o
    → stored k os ≡ some o
pending-stored k [] o u q = cc
pending-stored k (x ∷ xs) o u q = elim (Bool-cases (x.id == k)) [
  | inr n ↦ rw n (pending-stored k xs o (ground (arith, u)) (ground (arith, q, n)))
  | inl y ↦ elim (Bool-cases (is_pending k x)) [
    | inl p ↦ rw y (ground (arith, q, p))
    | inr p ↦ absurd (
        cc (
          subst (λ z. any (λ r. r.id == z) xs ≡ true) (sym (==_sound x.id k y))
              (pending-has k xs o (ground (arith, q, p))),
          the_others x xs u,
        ))
  ]
]

found_pending :
    (k : ℕ) (os : List Order) (o : Order) → find (is_pending k) os ≡ some o → is_pending k o ≡ true
found_pending k [] o q = cc
found_pending k (x ∷ xs) o q = ground (arith, found_pending k xs o)

pub cancelled-stored :
    (k : ℕ) (os : List Order) (o : Order)
    → distinct same_order os ≡ true
    → find (is_pending k) os ≡ some o
    → stored o.id (update (is_pending k) set_cancelled os) ≡ some (set_cancelled o)
cancelled-stored k os o u q =
    let found = pending-stored k os o u q in
    subst (λ i. stored i (update (is_pending k) set_cancelled os) ≡ some (set_cancelled o))
      (sym (stored-id k os o found))
      (subst
        (λ b.
          stored k (update (is_pending k) set_cancelled os)
          ≡ some (if b then set_cancelled o else o))
        (found_pending k os o q) (stored-cancel k k os o found))

module _ (k : ℕ) where
  any-cancel :
      (x : Order) (os : List Order)
      → any (same_order x) (update (is_pending k) set_cancelled os) ≡ any (same_order x) os
  any-cancel x [] = refl
  any-cancel x (y ∷ ys) = ground (arith, any-cancel x ys)

  pub distinct-cancel :
      (os : List Order)
      → distinct same_order (update (is_pending k) set_cancelled os) ≡ distinct same_order os
  distinct-cancel [] = refl
  distinct-cancel (x ∷ xs) = ground (arith, any-cancel x xs, distinct-cancel xs)
