-- ===== src/Consumer/Offsets.antt =====
-- The offsets that `Consumer.Run` (internal/kafka/consumer.go) commits, in any number of partitions.
use high_throughput_payments.Base.{
  ℕ, nat_eq, zero, suc, ◌≡◌, refl, sym, ap, subst, ◌∙◌, ◌⊎◌, inl, inr, Bool, true, false, none,
  some, List, ◌∷◌, All, All-map, if_split,
}
use high_throughput_payments.Exec.{Result, ok, err}
use high_throughput_payments.Db.{Error}
use high_throughput_payments.Consumer.{
  Message, Reader, Consumer, Turn, goes_on, returns, on_turn, after_handler, after_fetch, turn,
  after,
}

-- What a reader of kafka-go with a group does: the messages that it has returned so far, the last one
-- first, and the offset that it has committed last in each partition. FetchMessage commits nothing;
-- CommitMessages commits the offset after the message's, in the partition of the message, or fails.
pub record Offsets {W : Type 0} (r : Reader W) : Type 0 where
  pub fetched : W → List Message
  pub committed : ℕ → W → ℕ
  pub fetch_returns :
      (w w' : W) (m : Message) → r.fetch_message w ≡ (ok m, w') → fetched w' ≡ m ∷ fetched w
  pub fetch_fails :
      (w w' : W) (e : Error) → r.fetch_message w ≡ (err e, w') → fetched w' ≡ fetched w
  pub fetch_commits : (p : ℕ) (w : W) → committed p (r.fetch_message w).1 ≡ committed p w
  pub commit_fetches : (m : Message) (w : W) → fetched (r.commit_messages m w).1 ≡ fetched w
  pub commits :
      (m : Message) (p : ℕ) (w : W)
      → (committed p (r.commit_messages m w).1 ≡ committed p w)
        ⊎ ((m.partition ≡ p) × (committed p (r.commit_messages m w).1 ≡ suc m.offset))

-- What has happened to the messages: `Ended m b` if the handler has returned for `m`, with no error if
-- `b`. The handler has no part in the reader, and what has happened stays.
pub record Ledger {W : Type 0} (c : Consumer W) (k : Offsets c.reader) : Type 1 where
  pub Ended : Message → Bool → W → Type 0
  pub on_success : (m : Message) (w w' : W) → c.handler m w ≡ (ok tt, w') → Ended m true w'
  pub on_failure :
      (m : Message) (w w' : W) (e : Error) → c.handler m w ≡ (err e, w') → Ended m false w'
  pub handler_fetched : (m : Message) (w : W) → k.fetched (c.handler m w).1 ≡ k.fetched w
  pub handler_committed :
      (m : Message) (p : ℕ) (w : W) → k.committed p (c.handler m w).1 ≡ k.committed p w
  pub handler_keeps : (m x : Message) (b : Bool) (w : W) → Ended x b w → Ended x b (c.handler m w).1
  pub fetch_keeps :
      (x : Message) (b : Bool) (w : W) → Ended x b w → Ended x b ((c.reader).fetch_message w).1
  pub commit_keeps :
      (m x : Message) (b : Bool) (w : W)
      → Ended x b w
      → Ended x b ((c.reader).commit_messages m w).1

module _ {W : Type 0} (c : Consumer W) (k : Offsets c.reader) (l : Ledger c k) (first : ℕ → ℕ) where
  -- the partition's offset is that of the beginning, or follows a message handled with success
  abbrev pub Accounted : ℕ → W → Type 0
  Accounted p w =
      (k.committed p w ≡ first p)
      ⊎ ((m : Message) × (m.partition ≡ p) × (k.committed p w ≡ suc m.offset) × l.Ended m true w)

  abbrev pub Handled : W → Message → Type 0
  Handled w m = (b : Bool) × l.Ended m b w

  -- the group's offsets follow the handler, from the offsets `first` on
  pub record Follows (w : W) : Type 0 where
    pub all_ended : All (Handled w) (k.fetched w)
    pub accounted : (p : ℕ) → Accounted p w

  module _ (w w' : W) (keep : (m : Message) (b : Bool) → l.Ended m b w → l.Ended m b w') where
    Accounted-kept : (p : ℕ) → k.committed p w' ≡ k.committed p w → Accounted p w → Accounted p w'
    Accounted-kept p q (inl e) = inl (q ∙ e)
    Accounted-kept p q (inr (m, i, e, h)) = inr (m, i, q ∙ e, keep m true h)

    Handled-kept : (ms : List Message) → All (Handled w) ms → All (Handled w') ms
    Handled-kept ms h = All-map _ _ ms (λ m (b, e). (b, keep m b e)) h

    -- a change that leaves the messages and the offsets
    Follows-kept :
        k.fetched w' ≡ k.fetched w
        → ((p : ℕ) → k.committed p w' ≡ k.committed p w)
        → Follows w
        → Follows w'
    Follows-kept q same f = record {
      all_ended = subst (All (Handled w')) (sym q) (Handled-kept (k.fetched w) f.all_ended);
      accounted = λ p. Accounted-kept p (same p) (f.accounted p);
    }

  abbrev OnTurn : Turn W → Type 0
  OnTurn (goes_on w) = Follows w
  OnTurn (returns w) = Follows w

  -- the message has been fetched and the handler has returned
  module _ (m : Message) (w u v : W) (r : Result Error (Unit {0}))
      (q : (c.reader).fetch_message w ≡ (ok m, u)) (h : c.handler m u ≡ (r, v)) where
    after_both : (x : Message) (b : Bool) → l.Ended x b w → l.Ended x b v
    after_both x b e =
        subst (l.Ended x b) (ap (λ y. y.1) h)
          (l.handler_keeps m x b u (subst (l.Ended x b) (ap (λ y. y.1) q) (l.fetch_keeps x b w e)))

    fetched_after : k.fetched v ≡ m ∷ k.fetched w
    fetched_after =
        ap (λ y. k.fetched y.1) (sym h) ∙ l.handler_fetched m u ∙ k.fetch_returns w u m q

    committed_after : (p : ℕ) → k.committed p v ≡ k.committed p w
    committed_after p =
        ap (λ y. k.committed p y.1) (sym h)
        ∙ l.handler_committed m p u
        ∙ ap (λ y. k.committed p y.1) (sym q)
        ∙ k.fetch_commits p w

    handler-Follows : (b : Bool) → l.Ended m b v → Follows w → Follows v
    handler-Follows b e f = record {
      all_ended =
          subst (All (Handled v)) (sym fetched_after)
            ((b, e), Handled-kept w v after_both (k.fetched w) f.all_ended);
      accounted = λ p. Accounted-kept w v after_both p (committed_after p) (f.accounted p);
    }

  -- the commit after a success
  commit-Follows :
      (m : Message) (v : W)
      → l.Ended m true v
      → Follows v
      → Follows ((c.reader).commit_messages m v).1
  commit-Follows m v e f =
      let keep = λ (x : Message) (b : Bool). l.commit_keeps m x b v in
      record {
        all_ended =
            subst (All (Handled ((c.reader).commit_messages m v).1)) (sym (k.commit_fetches m v))
              (Handled-kept v _ keep (k.fetched v) f.all_ended);
        accounted = λ p. elim (k.commits m p v) [
          | inl same ↦ Accounted-kept v _ keep p same (f.accounted p)
          | inr new ↦ inr (m, new.0, new.1, keep m true e)
        ];
      }

  committing :
      (m : Message) (w u v : W) (r : Result Error (Unit {0}))
      → (c.reader).fetch_message w ≡ (ok m, u)
      → c.handler m u ≡ (r, v)
      → Follows w
      → Follows (after_handler c m (r, v))
  committing m w u v (err e) q h f =
      handler-Follows m w u v (err e) q h false (l.on_failure m u v e h) f
  committing m w u v (ok _) q h f =
      commit-Follows m v (l.on_success m u v h)
        (handler-Follows m w u v (ok tt) q h true (l.on_success m u v h) f)

  after_fetch-Follows :
      (w u : W) (r : Result Error Message)
      → (c.reader).fetch_message w ≡ (r, u)
      → Follows w
      → OnTurn (after_fetch c (r, u))
  after_fetch-Follows w u (err e) q f =
      let here : Follows u =
        Follows-kept w u (λ x b y. subst (l.Ended x b) (ap (λ y. y.1) q) (l.fetch_keeps x b w y))
          (k.fetch_fails w u e q) (λ p. ap (λ y. k.committed p y.1) (sym q) ∙ k.fetch_commits p w)
          f in
      if_split OnTurn ((c.reader).is_cancelled u) _ _ (λ _. here) (λ _. here)
  after_fetch-Follows w u (ok m) q f = committing m w u (c.handler m u).1 (c.handler m u).0 q refl f

  next-Follows :
      (n : ℕ) (u : W) (t : Turn W)
      → ((w : W) → Follows w → after c n w ≡ some u → Follows u)
      → OnTurn t
      → on_turn (after c n) (λ _. none) t ≡ some u
      → Follows u
  next-Follows n u (goes_on w) rest f e = rest w f e
  next-Follows n u (returns w) rest f e = cc e

  -- If the reader commits as kafka-go documents: from a state in which this holds, as when a reader
  -- that has returned nothing begins at the offsets `first` of its partitions, after any number of
  -- iterations of the loop and whatever Kafka and the handler return, the handler has returned, with
  -- an error or without, for every message that was fetched; and in every partition the offset that
  -- was committed last, if one was, is the one after a message of that partition that the handler
  -- has returned for without an error.
  pub after-Follows : (n : ℕ) (w u : W) → Follows w → after c n w ≡ some u → Follows u
  unfolding after turn
  after-Follows zero w u f e = subst (λ o. elim o [ none ↦ Unit | some x ↦ Follows x ]) e f
  after-Follows (suc n) w u f e =
      next-Follows n u (turn c w) (λ w' g a. after-Follows n w' u g a)
        (after_fetch-Follows w ((c.reader).fetch_message w).1 ((c.reader).fetch_message w).0 refl f)
        e
