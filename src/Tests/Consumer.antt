-- ===== src/Tests/Consumer.antt =====
-- A consumer of two partitions, whose handler fails on the second message of three.
use high_throughput_payments.Base.{
  ℕ, suc, ◌≡◌, refl, sym, subst, ◌==◌, nat_eq, inl, inr, ◌⊎◌, ==_sound, Bool, true, false, ◌&&◌,
  some, List, [], ◌∷◌, any, if_split, if◌then◌else◌, ==_refl, arith,
}
use native.Mathlib.Decide.{ℕ_discrete}
use high_throughput_payments.Exec.{Exec, Result, ok, err}
use high_throughput_payments.Json.{object}
use high_throughput_payments.Db.{Error, kafka_error, stripe_error}
use high_throughput_payments.Consumer.{Message, Consumer, turn, run, after}
use high_throughput_payments.Consumer.Offsets.{Offsets, Ledger, Follows, after-Follows}

record Feed : Type 0 where
  fetched : List Message
  left : List Message
  committed : ℕ → ℕ
  successes : List Message
  failures : List Message

-- the context is cancelled when the last message has been fetched
abbrev stopped : Feed → Bool
stopped w = elim w.left [ [] ↦ true | x ∷ xs ↦ false ]

abbrev fetch_from : List Message → Exec Feed Error Message
fetch_from [] w = (err kafka_error, w)
fetch_from (m ∷ ms) w = (ok m, record w { fetched = m ∷ w.fetched; left = ms })

abbrev fetch_message : Exec Feed Error Message
fetch_message w = fetch_from w.left w

abbrev commit_messages : Message → Exec Feed Error (Unit {0})
commit_messages m w =
    (ok tt, record w { committed = λ p. if p == m.partition then suc m.offset else w.committed p })

abbrev handle : Message → Exec Feed Error (Unit {0})
handle m w =
    if m.offset == 3
    then (err stripe_error, record w { failures = m ∷ w.failures })
    else (ok tt, record w { successes = m ∷ w.successes })

abbrev test_consumer : Consumer Feed
test_consumer = record {
  reader = record {
    fetch_message = fetch_message;
    commit_messages = commit_messages;
    close = λ w. w;
    is_cancelled = stopped;
  };
  handler = handle;
}

abbrev message_at : ℕ → ℕ → Message
message_at partition offset = record { partition = partition; offset = offset; value = object [] }

abbrev fresh : Feed
fresh = record {
  fetched = [];
  left = message_at 0 7 ∷ message_at 1 3 ∷ message_at 1 4 ∷ [];
  committed = λ p. 0;
  successes = [];
  failures = [];
}

abbrev after_three : Feed
after_three = record {
  fetched = message_at 1 4 ∷ message_at 1 3 ∷ message_at 0 7 ∷ [];
  left = [];
  committed = λ p. if p == 1 then 5 else if p == 0 then 8 else 0;
  successes = message_at 1 4 ∷ message_at 0 7 ∷ [];
  failures = message_at 1 3 ∷ [];
}

after_three_lem : after test_consumer 3 fresh ≡ some after_three
unfolding after turn ℕ_discrete
after_three_lem = refl

-- the second message is passed over by the commit of the third
passed_over : run test_consumer 4 fresh ≡ some after_three
unfolding run turn ℕ_discrete
passed_over = refl

-- what a fetch does
abbrev Fetched : Feed → Result Error Message × Feed → Type 0
Fetched w (ok m, w') = w'.fetched ≡ m ∷ w.fetched
Fetched w (err e, w') = w'.fetched ≡ w.fetched

fetched_lem : (w : Feed) (ms : List Message) → Fetched w (fetch_from ms w)
fetched_lem w [] = refl
fetched_lem w (m ∷ ms) = refl

fetch_committed :
    (p : ℕ) (w : Feed) (ms : List Message) → (fetch_from ms w).1.committed p ≡ w.committed p
fetch_committed p w [] = refl
fetch_committed p w (m ∷ ms) = refl

abbrev test_offsets : Offsets test_consumer.reader
test_offsets = record {
  fetched = λ w. w.fetched;
  committed = λ p w. w.committed p;
  fetch_returns = λ w w' m q. subst (Fetched w) q (fetched_lem w w.left);
  fetch_fails = λ w w' e q. subst (Fetched w) q (fetched_lem w w.left);
  fetch_commits = λ p w. fetch_committed p w w.left;
  commit_fetches = λ m w. refl;
  commits = λ m p w.
      if_split (λ (n : ℕ). (n ≡ w.committed p) ⊎ ((m.partition ≡ p) × (n ≡ suc m.offset)))
        (p == m.partition) _ _ (λ e. inr (sym (==_sound p m.partition e), refl)) (λ _. inl refl);
}

abbrev same_place : Message → Message → Bool
same_place m x = (x.offset == m.offset) && (x.partition == m.partition)

abbrev Ended : Message → Bool → Feed → Type 0
Ended m true w = any (same_place m) w.successes ≡ true
Ended m false w = any (same_place m) w.failures ≡ true

abbrev EndedAt : Message → Result Error (Unit {0}) × Feed → Type 0
EndedAt m (ok _, w) = Ended m true w
EndedAt m (err e, w) = Ended m false w

handled : (m : Message) (w : Feed) → EndedAt m (handle m w)
handled m w =
    if_split (EndedAt m) (m.offset == 3) _ _
      (λ _. ground (arith, ==_refl m.offset, ==_refl m.partition))
      (λ _. ground (arith, ==_refl m.offset, ==_refl m.partition))

handle_keeps : (m x : Message) (b : Bool) (w : Feed) → Ended x b w → Ended x b (handle m w).1
handle_keeps m x true w e =
    if_split (λ (r : Result Error (Unit {0}) × Feed). Ended x true r.1) (m.offset == 3) _ _ (λ _. e)
      (λ _. ground (arith, e))
handle_keeps m x false w e =
    if_split (λ (r : Result Error (Unit {0}) × Feed). Ended x false r.1) (m.offset == 3) _ _
      (λ _. ground (arith, e)) (λ _. e)

fetch_keeps :
    (x : Message) (b : Bool) (w : Feed) (ms : List Message)
    → Ended x b w
    → Ended x b (fetch_from ms w).1
fetch_keeps x b w [] e = e
fetch_keeps x true w (m ∷ ms) e = e
fetch_keeps x false w (m ∷ ms) e = e

commit_keeps :
    (m x : Message) (b : Bool) (w : Feed) → Ended x b w → Ended x b (commit_messages m w).1
commit_keeps m x true w e = e
commit_keeps m x false w e = e

abbrev test_ledger : Ledger test_consumer test_offsets
test_ledger = record {
  Ended = Ended;
  on_success = λ m w w' q. subst (EndedAt m) q (handled m w);
  on_failure = λ m w w' e q. subst (EndedAt m) q (handled m w);
  handler_fetched = λ m w.
      if_split (λ (r : Result Error (Unit {0}) × Feed). r.1.fetched ≡ w.fetched) (m.offset == 3) _ _
        (λ _. refl) (λ _. refl);
  handler_committed = λ m p w.
      if_split (λ (r : Result Error (Unit {0}) × Feed). r.1.committed p ≡ w.committed p)
        (m.offset == 3) _ _ (λ _. refl) (λ _. refl);
  handler_keeps = handle_keeps;
  fetch_keeps = λ x b w. fetch_keeps x b w w.left;
  commit_keeps = commit_keeps;
}

fresh-Follows : Follows test_consumer test_offsets test_ledger (λ p. 0) fresh
fresh-Follows = record { all_ended = tt; accounted = λ p. inl refl }

after-Follows_example : Follows test_consumer test_offsets test_ledger (λ p. 0) after_three
after-Follows_example =
    after-Follows test_consumer test_offsets test_ledger (λ p. 0) 3 fresh after_three fresh-Follows
      after_three_lem
