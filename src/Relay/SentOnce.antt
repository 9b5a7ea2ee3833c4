-- ===== src/Relay/SentOnce.antt =====
-- What Kafka acknowledges of relays that poll at once (internal/outbox/relay.go), while nothing fails
-- after an acknowledgement.
use high_throughput_payments.Base.{
  ℕ, ◌≤◌, List, [], ◌∷◌, ◌==◌, nat_eq, ==_refl, ==_sound, ◌≡◌, refl, sym, subst, Bool, true, false,
  ◌&&◌, ◌||◌, Option, none, some, count, update, All, if_split, Bool-cases, inl, inr, arith,
  if◌then◌else◌,
}
use high_throughput_payments.Db.{OutboxEvent, OutboxRow}
use high_throughput_payments.Db.Claims.{publish_row}
use high_throughput_payments.Relay.Delivery.{names}
use high_throughput_payments.Relay.Pollers.{
  Polling, Written, refused, acked_marked, acked_unmarked, Move, claims, writes, commits,
  rolls_back, disconnects, set, holds, contains, batch, claim, acknowledge, write, release, move,
  moves, has_rest,
}
use high_throughput_payments.Relay.Exclusive.{
  is_published, has_row, is_marked, Pending, IsExclusive,
}
use high_throughput_payments.Relay.Exclusive.Claiming.{named-free}
use high_throughput_payments.Relay.Exclusive.Ending.{chosen, move-IsExclusive}

-- the row of the event is published, or the relay that holds it has marked it
abbrev pub is_recorded : Polling → ℕ → Bool
is_recorded s id = is_published id s.table || is_marked (s.holder id) s.marks id

abbrev pub one_if : Bool → ℕ
one_if b = if b then 1 else 0

pub record IsSentOnce (s : Polling) : Type 0 where
  pub exclusive : IsExclusive s
  pub sent : (id : ℕ) → count (λ x. x == id) s.acks ≤ one_if (is_recorded s id)
  pub sound : (i : ℕ) → s.is_aborted i ≡ false

-- no failure after an acknowledgement: no statement of MarkPublished fails, and no transaction is
-- cut off or rolled back
abbrev pub is_smooth : Move → Bool
is_smooth (writes i acked_unmarked) = false
is_smooth (rolls_back i) = false
is_smooth (disconnects i) = false
is_smooth _ = true

more : (n : ℕ) (b c : Bool) → (b ≡ true → c ≡ true) → n ≤ one_if b → n ≤ one_if c
more n true c f h = rw (f refl) h
more n false c f h = ground (arith, h)

module _ (limit i : ℕ) (s : Polling) (k : IsSentOnce s) where
  claim_records :
      s.is_open i ≡ false
      → (id : ℕ) → is_recorded s id ≡ true
      → is_recorded (claim limit i s) id ≡ true
  claim_records free id q = elim (Bool-cases (names id (batch limit s))) [
    | inr n ↦ rw n q
    | inl y ↦ let h = named-free limit i s k.exclusive free id y in ground (arith, q, h)
  ]

  claim-IsSentOnce :
      s.is_open i ≡ false → IsExclusive (claim limit i s) → IsSentOnce (claim limit i s)
  claim-IsSentOnce free l = record {
    exclusive = l;
    sent = λ id.
        more _ (is_recorded s id) (is_recorded (claim limit i s) id) (claim_records free id)
          (k.sent id);
    sound = λ j. if_split (λ b. b ≡ false) (j == i) _ _ (λ _. refl) (λ _. k.sound j);
  }

  module _ (e : OutboxEvent) (es : List OutboxEvent) (p : Pending s i e) where
    abbrev later : ℕ → List ℕ
    later = set s.marks i (e.id ∷ s.marks i)

    marks_grow :
        (id : ℕ) (h : Option ℕ) → is_marked h s.marks id ≡ true → is_marked h later id ≡ true
    marks_grow id none q = cc
    marks_grow id (some j) q =
        if_split (λ xs. contains id xs ≡ true) (j == i) _ _
          (λ y.
            let c = subst (λ m. contains id (s.marks m) ≡ true) (==_sound j i y) q in
            ground (arith, c))
          (λ _. q)

    marks_this : is_marked (s.holder e.id) later e.id ≡ true
    marks_this = rw p.held (rw (==_refl i) (rw (==_refl e.id) refl))

    sent_this :
        count (λ x. x == e.id) (e.id ∷ s.acks)
        ≤ one_if (is_recorded (acknowledge i e es false s) e.id)
    sent_this =
        let before : is_recorded s e.id ≡ false = ground (arith, p.unpublished, p.unmarked) in
        let after : is_recorded (acknowledge i e es false s) e.id ≡ true =
          ground (arith, marks_this) in
        let none_yet = subst (λ b. count (λ x. x == e.id) s.acks ≤ one_if b) before (k.sent e.id) in
        rw after (rw (==_refl e.id) (omega (arith, none_yet)))

    acknowledge_sent :
        (id : ℕ)
        → count (λ x. x == id) (e.id ∷ s.acks)
          ≤ one_if (is_recorded (acknowledge i e es false s) id)
    acknowledge_sent id = elim (Bool-cases (e.id == id)) [
      | inl y ↦
          subst
            (λ n.
              count (λ x. x == n) (e.id ∷ s.acks)
              ≤ one_if (is_recorded (acknowledge i e es false s) n))
            (==_sound e.id id y) sent_this
      | inr n ↦
          let bound =
            more (count (λ x. x == id) s.acks) (is_recorded s id)
              (is_recorded (acknowledge i e es false s) id)
              (λ q. ground (arith, q, marks_grow id (s.holder id))) (k.sent id) in
          rw n (omega (arith, bound))
    ]

    acknowledge-IsSentOnce :
        IsExclusive (acknowledge i e es false s) → IsSentOnce (acknowledge i e es false s)
    acknowledge-IsSentOnce l = record {
      exclusive = l;
      sent = acknowledge_sent;
      sound = λ j. if_split (λ b. b ≡ false) (j == i) _ _ (λ _. refl) (λ _. k.sound j);
    }

-- what a commit publishes
module _ (i now : ℕ) (s : Polling) where
  published_stays :
      (id : ℕ) (rs : List OutboxRow)
      → is_published id rs ≡ true
      → is_published id (update (chosen i now s) (publish_row now) rs) ≡ true
  published_stays id [] q = cc
  published_stays id (r ∷ rs) q = ground (arith, q, published_stays id rs)

  marked_published :
      (id : ℕ) (rs : List OutboxRow)
      → s.holder id ≡ some i
      → contains id (s.marks i) ≡ true
      → has_row id rs ≡ true
      → is_published id (update (chosen i now s) (publish_row now) rs) ≡ true
  marked_published id [] h c q = cc
  marked_published id (r ∷ rs) h c q = elim (Bool-cases (r.id == id)) [
    | inl y ↦
        let this : chosen i now s r ≡ true =
          subst (λ m. (holds (s.holder m) i && contains m (s.marks i)) ≡ true)
            (sym (==_sound r.id id y)) (rw h (rw (==_refl i) c)) in
        ground (arith, this, y)
    | inr n ↦ ground (arith, n, q, marked_published id rs h c)
  ]

module _ (i now : ℕ) (s : Polling) (k : IsSentOnce s) where
  abbrev after : Polling
  after = release i (update (chosen i now s) (publish_row now) s.table) s

  mark_commits :
      (id : ℕ) (h : Option ℕ)
      → s.holder id ≡ h
      → is_marked h s.marks id ≡ true
      → is_recorded after id ≡ true
  mark_commits id none q m = cc
  mark_commits id (some j) q m =
      let stored = k.exclusive.marked_stored id (rw q m) in
      elim (Bool-cases (j == i)) [
        | inl y ↦
            let own = subst (λ n. contains id (s.marks n) ≡ true) (==_sound j i y) m in
            let held : s.holder id ≡ some i = cc (q, ==_sound j i y) in
            let there = marked_published i now s id s.table held own stored in ground (arith, there)
        | inr d ↦ rw q (rw d (rw d (ground (arith, m))))
      ]

  commit_records : (id : ℕ) → is_recorded s id ≡ true → is_recorded after id ≡ true
  commit_records id q = elim (Bool-cases (is_published id s.table)) [
    | inl y ↦ let there = published_stays i now s id s.table y in ground (arith, there)
    | inr n ↦ mark_commits id (s.holder id) refl (ground (arith, q, n))
  ]

  commit-IsSentOnce : IsExclusive after → IsSentOnce after
  commit-IsSentOnce l = record {
    exclusive = l;
    sent = λ id. more _ (is_recorded s id) (is_recorded after id) (commit_records id) (k.sent id);
    sound = k.sound;
  }

write-IsSentOnce :
    (i : ℕ) (w : Written) (es : List OutboxEvent) (s : Polling)
    → is_smooth (writes i w) ≡ true
    → s.todo i ≡ es
    → IsSentOnce s
    → IsExclusive (write i w es s)
    → IsSentOnce (write i w es s)
write-IsSentOnce i w [] s h q k l = k
write-IsSentOnce i refused (e ∷ es) s h q k l = record {
  exclusive = l;
  sent = k.sent;
  sound = k.sound;
}
write-IsSentOnce i acked_marked (e ∷ es) s h q k l =
    let p = (subst (All (Pending s i)) q (k.exclusive.pending i)).0 in
    subst (λ b. IsExclusive (acknowledge i e es b s) → IsSentOnce (acknowledge i e es b s))
      (sym (k.sound i)) (acknowledge-IsSentOnce 0 i s k e es p) l
write-IsSentOnce i acked_unmarked (e ∷ es) s h q k l = cc h

move-IsSentOnce :
    (limit : ℕ) (m : Move) (s : Polling)
    → is_smooth m ≡ true
    → IsSentOnce s
    → IsSentOnce (move limit m s)
unfolding move
move-IsSentOnce limit (claims i) s h k =
    if_split (λ (t : Polling). IsExclusive t → IsSentOnce t) (s.is_open i) _ _ (λ _ _. k)
      (λ q l. claim-IsSentOnce limit i s k q l)
      (move-IsExclusive limit (claims i) s refl k.exclusive)
move-IsSentOnce limit (writes i w) s h k =
    write-IsSentOnce i w (s.todo i) s h refl k
      (move-IsExclusive limit (writes i w) s refl k.exclusive)
move-IsSentOnce limit (commits i now) s h k =
    if_split (λ (t : Polling). IsExclusive t → IsSentOnce t) (has_rest (s.todo i)) _ _ (λ _ _. k)
      (λ _.
        subst
          (λ b.
            let rows = if b then s.table else update (chosen i now s) (publish_row now) s.table in
            IsExclusive (release i rows s) → IsSentOnce (release i rows s))
          (sym (k.sound i)) (commit-IsSentOnce i now s k))
      (move-IsExclusive limit (commits i now) s refl k.exclusive)
move-IsSentOnce limit (rolls_back i) s h k = cc h
move-IsSentOnce limit (disconnects i) s h k = cc h

moves-IsSentOnce :
    (limit : ℕ) (ms : List Move) (s : Polling)
    → All (λ m. is_smooth m ≡ true) ms
    → IsSentOnce s
    → IsSentOnce (moves limit ms s)
unfolding moves
moves-IsSentOnce limit [] s h k = k
moves-IsSentOnce limit (m ∷ ms) s (q, h) k =
    moves-IsSentOnce limit ms (move limit m s) h (move-IsSentOnce limit m s q k)

-- From a state in which each event was acknowledged at most once, and not at all unless its row is
-- published or marked, as one in which nothing was sent yet, after any moves of any number of
-- relays in any order, in which no MarkPublished fails and no transaction is cut off or rolled back:
-- Kafka has acknowledged each event at most once.
pub acked_once :
    (limit : ℕ) (ms : List Move) (s : Polling) (id : ℕ)
    → All (λ m. is_smooth m ≡ true) ms
    → IsSentOnce s
    → count (λ x. x == id) (moves limit ms s).acks ≤ 1
acked_once limit ms s id h k =
    let t = moves limit ms s in
    at_most t (is_recorded t id) ((moves-IsSentOnce limit ms s h k).sent id)
  where
    at_most :
        (t : Polling) (b : Bool)
        → count (λ x. x == id) t.acks ≤ one_if b
        → count (λ x. x == id) t.acks ≤ 1
    at_most t true q = q
    at_most t false q = omega (arith, q)
