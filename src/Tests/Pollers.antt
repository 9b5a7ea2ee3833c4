-- ===== src/Tests/Pollers.antt =====
-- Two relays that poll at once, each with a batch of one event.
use high_throughput_payments.Base.{
  ◌≤◌, ◌==◌, nat_eq, ◌≡◌, refl, List, [], ◌∷◌, false, none, count, arith,
}
use native.Mathlib.Decide.{ℕ_discrete}
use high_throughput_payments.Relay.Pollers.{
  Polling, Move, claims, writes, commits, refused, acked_marked, move, moves,
}
use high_throughput_payments.Relay.Exclusive.{IsExclusive}
use high_throughput_payments.Relay.Apart.{Apart, moves-Apart}
use high_throughput_payments.Relay.SentOnce.{acked_once}
use high_throughput_payments.Tests.Relay.{test_row}

abbrev idle_relays : Polling
idle_relays = record {
  table = test_row 2 "12" ∷ test_row 1 "11" ∷ [];
  holder = λ id. none;
  is_open = λ i. false;
  is_aborted = λ i. false;
  todo = λ i. [];
  marks = λ i. [];
  acks = [];
}

idle-IsExclusive : IsExclusive idle_relays
unfolding ℕ_discrete
idle-IsExclusive = record {
  ids_unique = refl;
  pending = λ i. tt;
  todo_unique = λ i. refl;
  closed = λ i q. (refl, refl);
  marked_stored = λ id m. cc m;
}

-- the second relay skips the event that the first one holds
abbrev polls : List Move
polls =
    claims 0
    ∷ claims 1
    ∷ writes 1 acked_marked
    ∷ writes 0 refused
    ∷ commits 0 5
    ∷ commits 1 6
    ∷ claims 1
    ∷ claims 0
    ∷ writes 1 acked_marked
    ∷ []

two_acks : (moves 1 polls idle_relays).acks ≡ 1 ∷ 2 ∷ []
unfolding moves ℕ_discrete move
two_acks = refl

moves-Apart_example : Apart (moves 1 polls idle_relays) 0 1
unfolding ℕ_discrete
moves-Apart_example =
    moves-Apart 1 polls idle_relays 0 1
      (refl, (refl, (refl, (refl, (refl, (refl, (refl, (refl, (refl, tt))))))))) idle-IsExclusive
      refl

acked_once_example : count (λ x. x == 1) (moves 1 polls idle_relays).acks ≤ 1
acked_once_example =
    acked_once 1 polls idle_relays 1
      (refl, (refl, (refl, (refl, (refl, (refl, (refl, (refl, (refl, tt)))))))))
      (record { exclusive = idle-IsExclusive; sent = λ id. omega arith; sound = λ i. refl })
