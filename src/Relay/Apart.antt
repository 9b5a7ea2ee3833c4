-- ===== src/Relay/Apart.antt =====
-- Relays that poll at once (internal/outbox/relay.go): the events that they have still to write.
use high_throughput_payments.Base.{
  ℕ, List, [], ◌∷◌, ◌==◌, nat_eq, ==_refl, ==_sound, ◌≡◌, refl, subst, true, false, some, All,
  All-map, Bool-cases, inl, inr, arith,
}
use high_throughput_payments.Db.{OutboxEvent}
use high_throughput_payments.Relay.Delivery.{names}
use high_throughput_payments.Relay.Pollers.{Polling, Move, is_connected, moves}
use high_throughput_payments.Relay.Exclusive.{Pending, IsExclusive}
use high_throughput_payments.Relay.Exclusive.Ending.{moves-IsExclusive}

-- no event that relay `i` is to write is one that relay `j` is to write
abbrev pub Apart : Polling → ℕ → ℕ → Type 0
Apart s i j = All (λ e. names e.id (s.todo j) ≡ false) (s.todo i)

not_named :
    (s : Polling) (i j id : ℕ) (es : List OutboxEvent)
    → (i == j) ≡ false
    → s.holder id ≡ some i
    → All (Pending s j) es
    → names id es ≡ false
not_named s i j id [] d h q = refl
not_named s i j id (x ∷ xs) d h (p, q) = elim (Bool-cases (x.id == id)) [
  | inr n ↦ ground (arith, n, not_named s i j id xs d h q)
  | inl y ↦
      let held = subst (λ m. s.holder m ≡ some j) (==_sound x.id id y) p.held in
      let same : i ≡ j = cc (held, h) in absurd (ground (arith, d, same, ==_refl j))
]

-- From a state in which the rows that the relays handle are apart, as one in which none has an open
-- transaction, after any moves of any number of relays, in any order and with any failures but the
-- loss of a connection to Postgres, two relays have no event in common that they are still to write.
pub moves-Apart :
    (limit : ℕ) (ms : List Move) (s : Polling) (i j : ℕ)
    → All (λ m. is_connected m ≡ true) ms
    → IsExclusive s
    → (i == j) ≡ false
    → Apart (moves limit ms s) i j
moves-Apart limit ms s i j h k d =
    let t = moves limit ms s in
    let l = moves-IsExclusive limit ms s h k in
    All-map _ _ (t.todo i) (λ e p. not_named t i j e.id (t.todo j) d p.held (l.pending j))
      (l.pending i)
