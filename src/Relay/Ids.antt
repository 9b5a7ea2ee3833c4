-- ===== src/Relay/Ids.antt =====
-- The ids of `outbox_events` while the relay (internal/outbox/relay.go) sets `published_at`.
use high_throughput_payments.Base.{
  ℕ, List, [], ◌∷◌, ◌==◌, nat_eq, ◌≡◌, refl, Bool, true, false, All, All-both, any, update,
  distinct, ==_sound, ==_refl, if_split, arith,
}
use high_throughput_payments.Db.{OutboxEvent, OutboxRow}
use high_throughput_payments.Db.Claims.{publish_row}

abbrev pub same_id : OutboxRow → OutboxRow → Bool
same_id x y = y.id == x.id

-- the rows of an event's id are of that event
abbrev pub Only : OutboxEvent → List OutboxRow → Type 0
Only e rs = All (λ r. (r.id == e.id) ≡ true → r.event ≡ e) rs

pub set-Only :
    (now id : ℕ) (e : OutboxEvent) (rs : List OutboxRow)
    → Only e rs
    → Only e (update (λ r. r.id == id) (publish_row now) rs)
set-Only now id e [] h = tt
set-Only now id e (r ∷ rs) (p, h) = (
  if_split (λ (x : OutboxRow). (x.id == e.id) ≡ true → x.event ≡ e) (r.id == id) _ _ (λ _. p)
      (λ _. p),
  set-Only now id e rs h,
)

any-set :
    (now id : ℕ) (x : OutboxRow) (rs : List OutboxRow)
    → any (same_id x) (update (λ r. r.id == id) (publish_row now) rs) ≡ any (same_id x) rs
any-set now id x [] = refl
any-set now id x (r ∷ rs) = ground (arith, any-set now id x rs)

pub distinct-set :
    (now id : ℕ) (rs : List OutboxRow)
    → distinct same_id (update (λ r. r.id == id) (publish_row now) rs) ≡ distinct same_id rs
distinct-set now id [] = refl
distinct-set now id (r ∷ rs) = ground (arith, any-set now id r rs, distinct-set now id rs)

-- an event with no row
none-Only : (e : OutboxEvent) (rs : List OutboxRow) → any (λ r. r.id == e.id) rs ≡ false → Only e rs
none-Only e [] n = tt
none-Only e (r ∷ rs) n = (λ q. absurd (ground (arith, n, q)), none-Only e rs (ground (arith, n)))

others :
    (x : OutboxRow) (rs : List OutboxRow)
    → any (same_id x) rs ≡ false
    → All (λ r. (x.id == r.event.id) ≡ true → x.event ≡ r.event) rs
others x [] n = tt
others x (r ∷ rs) n = (
  λ q. absurd (ground (arith, n, q, ==_sound x.id r.id, ==_refl x.id)),
  others x rs (ground (arith, n)),
)

pub distinct-Only :
    (rs : List OutboxRow) → distinct same_id rs ≡ true → All (λ r. Only r.event rs) rs
distinct-Only [] u = tt
distinct-Only (x ∷ xs) u = (
  (λ _. refl, none-Only x.event xs (ground (arith, u))),
  All-both _ _ xs (others x xs (ground (arith, u))) (distinct-Only xs (ground (arith, u))),
)
