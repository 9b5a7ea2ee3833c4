-- ===== src/Relay/Exclusive/Claiming.antt =====
-- The claim of a relay while others poll: its batch is free rows, which it then holds.
use high_throughput_payments.Base.{
  ℕ, List, [], ◌∷◌, ◌==◌, nat_eq, ==_refl, ==_sound, ◌≡◌, refl, sym, subst, true, false, none,
  distinct, All, All-map, All-both, All-any, All-of, if_split, Bool-cases, inl, inr, arith,
}
use high_throughput_payments.Db.{OutboxEvent}
use high_throughput_payments.Db.Claims.{unpublished, by_time, take}
use high_throughput_payments.Relay.Batch.{
  by_time-All, take-All, unpublished_rows-All, unpublished-All,
}
use high_throughput_payments.Relay.Delivery.{names}
use high_throughput_payments.Relay.Pollers.{Polling, contains, free_rows, batch, claim}
use high_throughput_payments.Relay.Exclusive.{
  is_published, has_row, same_event_id, Pending, IsExclusive,
}
use high_throughput_payments.Relay.Exclusive.Found.{free-Found, distinct-batch}

-- an event of a batch, before the claim
record Ready (s : Polling) (e : OutboxEvent) : Type 0 where
  free : s.holder e.id ≡ none
  stored : has_row e.id s.table ≡ true
  unpublished : is_published e.id s.table ≡ false

batch-Ready : (limit : ℕ) (s : Polling) → IsExclusive s → All (Ready s) (batch limit s)
batch-Ready limit s k =
    let rows = free_rows s.holder s.table in
    All-of (λ r. r.event) (Ready s) (take limit (by_time (unpublished rows)))
      (take-All _ limit _ (
        by_time-All _ (unpublished rows) (
          All-map _ (λ r. Ready s r.event) (unpublished rows)
            (λ r (u, (f, h, p)). record { free = f; stored = h; unpublished = p u })
            (All-both _ _ (unpublished rows) (unpublished-All rows)
              (unpublished_rows-All _ rows (free-Found s.holder s.table k.ids_unique))))))

names_self : (es : List OutboxEvent) → All (λ e. names e.id es ≡ true) es
names_self [] = tt
names_self (e ∷ es) =
    (ground (arith, ==_refl e.id), All-map _ _ es (λ x q. ground (arith, q)) (names_self es))

module _ (limit i : ℕ) (s : Polling) (k : IsExclusive s) (free : s.is_open i ≡ false) where
  pub named-free : (id : ℕ) → names id (batch limit s) ≡ true → s.holder id ≡ none
  named-free id q =
      let (e, same, r) =
        All-any (Ready s) (λ e. e.id == id) (batch limit s) q (batch-Ready limit s k) in
      subst (λ n. s.holder n ≡ none) (==_sound e.id id same) r.free

  unmarked : (id : ℕ) → contains id (s.marks i) ≡ false
  unmarked id = subst (λ m. contains id m ≡ false) (sym (k.closed i free).0) refl

  claimed-Pending : (j : ℕ) → (j == i) ≡ true → All (Pending (claim limit i s) j) (batch limit s)
  claimed-Pending j y =
      All-map _ _ (batch limit s)
        (λ e (q, r). record {
          held = rw q (cc (==_sound j i y));
          stored = r.stored;
          unpublished = r.unpublished;
          unmarked = rw q (unmarked e.id);
        })
        (All-both _ _ (batch limit s) (names_self (batch limit s)) (batch-Ready limit s k))

  kept-Pending : (j : ℕ) → All (Pending (claim limit i s) j) (s.todo j)
  kept-Pending j =
      All-map _ _ (s.todo j)
        (λ e p. elim (Bool-cases (names e.id (batch limit s))) [
          | inl y ↦ absurd (cc (named-free e.id y, p.held))
          | inr n ↦ record {
            held = rw n p.held;
            stored = p.stored;
            unpublished = p.unpublished;
            unmarked = rw n p.unmarked;
          }
        ])
        (k.pending j)

  pub claim-IsExclusive : IsExclusive (claim limit i s)
  claim-IsExclusive = record {
    ids_unique = k.ids_unique;
    pending = λ j.
        if_split (All (Pending (claim limit i s) j)) (j == i) _ _ (claimed-Pending j)
          (λ _. kept-Pending j);
    todo_unique = λ j.
        if_split (λ es. distinct same_event_id es ≡ true) (j == i) _ _
          (λ _. distinct-batch limit s k.ids_unique) (λ _. k.todo_unique j);
    closed = λ j q. elim (Bool-cases (j == i)) [
      | inl y ↦ absurd (ground (arith, q, y))
      | inr n ↦ rw n (k.closed j (ground (arith, q, n)))
    ];
    marked_stored = λ id q. elim (Bool-cases (names id (batch limit s))) [
      | inl y ↦ absurd (ground (arith, q, y, unmarked id))
      | inr n ↦ k.marked_stored id (ground (arith, q, n))
    ];
  }
