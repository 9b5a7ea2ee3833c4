-- ===== src/Relay/Exclusive/Ending.antt =====
-- The commit and the rollback of a relay while others poll, and its moves together.
use high_throughput_payments.Base.{
  ℕ, List, [], ◌∷◌, ◌==◌, nat_eq, ==_sound, ◌≡◌, refl, sym, subst, Bool, true, false, ◌&&◌, Option,
  none, some, any, update, distinct, All, All-map, if_split, Bool-cases, inl, inr, arith,
  if◌then◌else◌,
}
use high_throughput_payments.Db.{OutboxEvent, OutboxRow}
use high_throughput_payments.Db.Claims.{publish_row}
use high_throughput_payments.Relay.Ids.{same_id}
use high_throughput_payments.Relay.Pollers.{
  Polling, Move, claims, writes, commits, rolls_back, disconnects, is_connected, set, holds,
  contains, release, committed, move, moves, has_rest,
}
use high_throughput_payments.Relay.Exclusive.{
  is_published, has_row, is_marked, same_event_id, Pending, IsExclusive,
}
use high_throughput_payments.Relay.Exclusive.Claiming.{claim-IsExclusive}
use high_throughput_payments.Relay.Exclusive.Writing.{write-IsExclusive}

-- what the end of a transaction may do to the table: publish rows that the relay holds
record Ends (i : ℕ) (s : Polling) (rows : List OutboxRow) : Type 0 where
  unique : distinct same_id rows ≡ true
  rows_stay : (id : ℕ) → has_row id rows ≡ has_row id s.table
  others_stay :
      (id : ℕ) → holds (s.holder id) i ≡ false → is_published id rows ≡ is_published id s.table

module _ (i : ℕ) (s : Polling) (rows : List OutboxRow) (k : IsExclusive s) (n : Ends i s rows) where
  released-Pending :
      (j : ℕ)
      → (j == i) ≡ false
      → (e : OutboxEvent) → Pending s j e
      → Pending (release i rows s) j e
  released-Pending j d e p =
      let away : holds (s.holder e.id) i ≡ false = rw p.held d in
      record {
        held = rw away p.held;
        stored = cc (n.rows_stay e.id, p.stored);
        unpublished = cc (n.others_stay e.id away, p.unpublished);
        unmarked =
            rw away
              (rw p.held (rw d (subst (λ h. is_marked h s.marks e.id ≡ false) p.held p.unmarked)));
      }

  released_stored :
      (id : ℕ) (h : Option ℕ)
      → s.holder id ≡ h
      → is_marked (if holds h i then none else h) (set s.marks i []) id ≡ true
      → has_row id s.table ≡ true
  released_stored id none q m = cc
  released_stored id (some j) q m = elim (Bool-cases (j == i)) [
    | inl y ↦ absurd (ground (arith, m, y))
    | inr d ↦ k.marked_stored id (rw q (ground (arith, m, d)))
  ]

  release-IsExclusive : IsExclusive (release i rows s)
  release-IsExclusive = record {
    ids_unique = n.unique;
    pending = λ j.
        if_split (All (Pending (release i rows s) j)) (j == i) _ _ (λ _. tt)
          (λ d. All-map _ _ (s.todo j) (released-Pending j d) (k.pending j));
    todo_unique = λ j.
        if_split (λ xs. distinct same_event_id xs ≡ true) (j == i) _ _ (λ _. refl)
          (λ _. k.todo_unique j);
    closed = λ j q. elim (Bool-cases (j == i)) [
      | inl y ↦ rw y (refl, refl)
      | inr d ↦ rw d (k.closed j (ground (arith, q, d)))
    ];
    marked_stored = λ id m. cc (n.rows_stay id, released_stored id (s.holder id) refl m);
  }

module _ (i now : ℕ) (s : Polling) where
  abbrev pub chosen : OutboxRow → Bool
  chosen r = holds (s.holder r.id) i && contains r.id (s.marks i)

  any-publish :
      (x : OutboxRow) (rs : List OutboxRow)
      → any (same_id x) (update chosen (publish_row now) rs) ≡ any (same_id x) rs
  any-publish x [] = refl
  any-publish x (r ∷ rs) = ground (arith, any-publish x rs)

  distinct-publish :
      (rs : List OutboxRow)
      → distinct same_id (update chosen (publish_row now) rs) ≡ distinct same_id rs
  distinct-publish [] = refl
  distinct-publish (r ∷ rs) = ground (arith, any-publish r rs, distinct-publish rs)

  pub has_row-publish :
      (id : ℕ) (rs : List OutboxRow)
      → has_row id (update chosen (publish_row now) rs) ≡ has_row id rs
  has_row-publish id [] = refl
  has_row-publish id (r ∷ rs) = ground (arith, has_row-publish id rs)

  pub is_published-publish :
      (id : ℕ) (rs : List OutboxRow)
      → holds (s.holder id) i ≡ false
      → is_published id (update chosen (publish_row now) rs) ≡ is_published id rs
  is_published-publish id [] q = refl
  is_published-publish id (r ∷ rs) q = elim (Bool-cases (r.id == id)) [
    | inl y ↦
        let away : holds (s.holder r.id) i ≡ false =
          subst (λ m. holds (s.holder m) i ≡ false) (sym (==_sound r.id id y)) q in
        ground (arith, away, is_published-publish id rs q)
    | inr z ↦ ground (arith, z, is_published-publish id rs q)
  ]

  publish-Ends : IsExclusive s → Ends i s (update chosen (publish_row now) s.table)
  publish-Ends k = record {
    unique = cc (distinct-publish s.table, k.ids_unique);
    rows_stay = λ id. has_row-publish id s.table;
    others_stay = λ id. is_published-publish id s.table;
  }

table-Ends : (i : ℕ) (s : Polling) → IsExclusive s → Ends i s s.table
table-Ends i s k = record {
  unique = k.ids_unique;
  rows_stay = λ id. refl;
  others_stay = λ id q. refl;
}

committed-Ends : (i now : ℕ) (s : Polling) → IsExclusive s → Ends i s (committed i now s)
committed-Ends i now s k =
    if_split (Ends i s) (s.is_aborted i) _ _ (λ _. table-Ends i s k) (λ _. publish-Ends i now s k)

pub move-IsExclusive :
    (limit : ℕ) (m : Move) (s : Polling)
    → is_connected m ≡ true
    → IsExclusive s
    → IsExclusive (move limit m s)
unfolding move
move-IsExclusive limit (claims i) s h k =
    if_split IsExclusive (s.is_open i) _ _ (λ _. k) (λ q. claim-IsExclusive limit i s k q)
move-IsExclusive limit (writes i w) s h k = write-IsExclusive i w (s.todo i) s refl k
move-IsExclusive limit (commits i now) s h k =
    if_split IsExclusive (has_rest (s.todo i)) _ _ (λ _. k)
      (λ _. release-IsExclusive i s (committed i now s) k (committed-Ends i now s k))
move-IsExclusive limit (rolls_back i) s h k = release-IsExclusive i s s.table k (table-Ends i s k)
move-IsExclusive limit (disconnects i) s h k = cc h

pub moves-IsExclusive :
    (limit : ℕ) (ms : List Move) (s : Polling)
    → All (λ m. is_connected m ≡ true) ms
    → IsExclusive s
    → IsExclusive (moves limit ms s)
unfolding moves
moves-IsExclusive limit [] s h k = k
moves-IsExclusive limit (m ∷ ms) s (q, h) k =
    moves-IsExclusive limit ms (move limit m s) h (move-IsExclusive limit m s q k)
