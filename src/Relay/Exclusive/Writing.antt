-- ===== src/Relay/Exclusive/Writing.antt =====
-- The write of an event by a relay while others poll.
use high_throughput_payments.Base.{
  ℕ, List, [], ◌∷◌, ◌==◌, nat_eq, ==_refl, ==_sound, ◌≡◌, refl, sym, subst, ◌⊎◌, Bool, true, false,
  Option, none, some, any, distinct, All, All-map, All-both, if_split, Bool-cases, inl, inr, arith,
  if◌then◌else◌,
}
use high_throughput_payments.Db.{OutboxEvent}
use high_throughput_payments.Relay.Pollers.{
  Polling, Written, refused, acked_marked, acked_unmarked, set, contains, acknowledge, write,
}
use high_throughput_payments.Relay.Exclusive.{
  has_row, is_marked, same_event_id, Pending, IsExclusive,
}

module _ (i : ℕ) (e : OutboxEvent) (es : List OutboxEvent) (s : Polling) (k : IsExclusive s)
    (turn : s.todo i ≡ e ∷ es) where
  first : Pending s i e × All (Pending s i) es
  first = subst (All (Pending s i)) turn (k.pending i)

  differ : (any (same_event_id e) es ≡ false) × (distinct same_event_id es ≡ true)
  differ =
      let u = subst (λ xs. distinct same_event_id xs ≡ true) turn (k.todo_unique i) in
      (ground (arith, u), ground (arith, u))

  open_turn : s.is_open i ≡ false → ⊥
  open_turn q = cc ((k.closed i q).1, turn)

  -- an event is passed over
  refused-IsExclusive : IsExclusive (record s { todo = set s.todo i es })
  refused-IsExclusive = record {
    ids_unique = k.ids_unique;
    pending = λ j.
        if_split (All (Pending (record s { todo = set s.todo i es }) j)) (j == i) _ _
          (λ y.
            All-map _ _ es
              (λ x p. record {
                held = cc (==_sound j i y, p.held);
                stored = p.stored;
                unpublished = p.unpublished;
                unmarked = p.unmarked;
              })
              first.1)
          (λ _.
            All-map _ _ (s.todo j)
              (λ x p. record {
                held = p.held;
                stored = p.stored;
                unpublished = p.unpublished;
                unmarked = p.unmarked;
              })
              (k.pending j));
    todo_unique = λ j.
        if_split (λ xs. distinct same_event_id xs ≡ true) (j == i) _ _ (λ _. differ.1)
          (λ _. k.todo_unique j);
    closed = λ j q. elim (Bool-cases (j == i)) [
      | inl y ↦ absurd (open_turn (subst (λ n. s.is_open n ≡ false) (==_sound j i y) q))
      | inr n ↦ rw n (k.closed j q)
    ];
    marked_stored = k.marked_stored;
  }

  -- an event is acknowledged
  module _ (aborted : Bool) where
    abbrev marks : ℕ → List ℕ
    marks = if aborted then s.marks else set s.marks i (e.id ∷ s.marks i)

    others :
        (es : List OutboxEvent)
        → any (same_event_id e) es ≡ false
        → All (λ x. (e.id == x.id) ≡ false) es
    others [] q = tt
    others (x ∷ xs) q =
        (ground (arith, q, ==_sound e.id x.id, ==_refl x.id), others xs (ground (arith, q)))

    contains_later :
        (id j : ℕ)
        → (j == i) ≡ false ⊎ (e.id == id) ≡ false
        → contains id (s.marks j) ≡ false
        → contains id (marks j) ≡ false
    contains_later id j n b =
        if_split (λ (f : ℕ → List ℕ). contains id (f j) ≡ false) aborted _ _ (λ _. b)
          (λ _.
            if_split (λ xs. contains id xs ≡ false) (j == i) _ _
              (λ y.
                let c = subst (λ m. contains id (s.marks m) ≡ false) (==_sound j i y) b in
                elim n [ inl z ↦ absurd (cc (y, z)) | inr z ↦ ground (arith, c, z) ])
              (λ _. b))

    still :
        (x : OutboxEvent) (j : ℕ)
        → (j == i) ≡ false ⊎ (e.id == x.id) ≡ false
        → Pending s j x
        → Pending (acknowledge i e es aborted s) j x
    still x j n p = record {
      held = p.held;
      stored = p.stored;
      unpublished = p.unpublished;
      unmarked = rw p.held (
          contains_later x.id j n
            (subst (λ h. is_marked h s.marks x.id ≡ false) p.held p.unmarked));
    }

    marked_before :
        (id j : ℕ) → contains id (marks j) ≡ true → (contains id (s.marks j) ≡ true) ⊎ (e.id ≡ id)
    marked_before id j =
        if_split
          (λ (f : ℕ → List ℕ).
            contains id (f j) ≡ true → (contains id (s.marks j) ≡ true) ⊎ (e.id ≡ id))
          aborted _ _ (λ _ q. inl q)
          (λ _.
            if_split (λ xs. contains id xs ≡ true → (contains id (s.marks j) ≡ true) ⊎ (e.id ≡ id))
              (j == i) _ _
              (λ y q. elim (Bool-cases (e.id == id)) [
                | inl z ↦ inr (==_sound e.id id z)
                | inr z ↦ inl (
                    subst (λ m. contains id (s.marks m) ≡ true) (sym (==_sound j i y))
                      (ground (arith, q, z)))
              ])
              (λ _ q. inl q))

    stored_still :
        (id : ℕ) (h : Option ℕ)
        → s.holder id ≡ h
        → is_marked h marks id ≡ true
        → has_row id s.table ≡ true
    stored_still id none q m = cc
    stored_still id (some j) q m = elim (marked_before id j m) [
      | inl c ↦ k.marked_stored id (rw q c)
      | inr z ↦ subst (λ n. has_row n s.table ≡ true) z first.0.stored
    ]

    acknowledge-IsExclusive : IsExclusive (acknowledge i e es aborted s)
    acknowledge-IsExclusive = record {
      ids_unique = k.ids_unique;
      pending = λ j.
          if_split (All (Pending (acknowledge i e es aborted s) j)) (j == i) _ _
            (λ y.
              subst (λ m. All (Pending (acknowledge i e es aborted s) m) es) (sym (==_sound j i y))
                (All-map _ _ es (λ x (z, p). still x i (inr z) p)
                  (All-both _ _ es (others es differ.0) first.1)))
            (λ n. All-map _ _ (s.todo j) (λ x p. still x j (inl n) p) (k.pending j));
      todo_unique = λ j.
          if_split (λ xs. distinct same_event_id xs ≡ true) (j == i) _ _ (λ _. differ.1)
            (λ _. k.todo_unique j);
      closed = λ j q. elim (Bool-cases (j == i)) [
        | inl y ↦ absurd (open_turn (subst (λ n. s.is_open n ≡ false) (==_sound j i y) q))
        | inr n ↦ (
          if_split (λ (f : ℕ → List ℕ). f j ≡ []) aborted _ _ (λ _. (k.closed j q).0)
              (λ _. rw n (k.closed j q).0),
          rw n (k.closed j q).1,
        )
      ];
      marked_stored = λ id m. stored_still id (s.holder id) refl m;
    }

pub write-IsExclusive :
    (i : ℕ) (w : Written) (es : List OutboxEvent) (s : Polling)
    → s.todo i ≡ es
    → IsExclusive s
    → IsExclusive (write i w es s)
write-IsExclusive i w [] s q k = k
write-IsExclusive i refused (e ∷ es) s q k = refused-IsExclusive i e es s k q
write-IsExclusive i acked_marked (e ∷ es) s q k =
    acknowledge-IsExclusive i e es s k q (s.is_aborted i)
write-IsExclusive i acked_unmarked (e ∷ es) s q k = acknowledge-IsExclusive i e es s k q true
