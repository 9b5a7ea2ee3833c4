-- ===== src/Relay/Exclusive.antt =====
-- Relays that poll at once: what holds of the rows that one of them handles.
pub mod Found
pub mod Claiming
pub mod Writing
pub mod Ending
use high_throughput_payments.Base.{
  ℕ, zero, suc, ◌+◌, ◌≤◌, List, [], ◌∷◌, ◌==◌, nat_eq, ==_refl, ==_sound, ◌≡◌, refl, sym, subst,
  Bool, true, false, ◌&&◌, ◌||◌, not, Option, none, some, any, count, update, distinct, map, All,
  All-map, All-both, if_split, Bool-cases, inl, inr, arith, if◌then◌else◌,
}
use high_throughput_payments.Db.{OutboxEvent, OutboxRow}
use high_throughput_payments.Db.Claims.{
  is_unpublished, unpublished, insert_by_time, by_time, take, publish_row,
}
use high_throughput_payments.Relay.Delivery.{names, is_done_row}
use high_throughput_payments.Relay.Ids.{same_id}
use high_throughput_payments.Relay.Pollers.{
  Polling, Written, refused, acked_marked, acked_unmarked, Move, claims, writes, commits,
  rolls_back, set, holds, is_free, contains, free_rows, batch, claim, acknowledge, write, release,
  committed, move, moves, has_rest,
}

abbrev pub is_published : ℕ → List OutboxRow → Bool
is_published id rs = any (is_done_row id) rs

abbrev pub has_row : ℕ → List OutboxRow → Bool
has_row id rs = any (λ r. r.id == id) rs

-- the relay that holds the row has marked it
abbrev pub is_marked : Option ℕ → (ℕ → List ℕ) → ℕ → Bool
is_marked none marks id = false
is_marked (some i) marks id = contains id (marks i)

abbrev pub same_event_id : OutboxEvent → OutboxEvent → Bool
same_event_id x y = y.id == x.id

-- an event that relay `i` is to write: its row is held, not published and not marked
pub record Pending (s : Polling) (i : ℕ) (e : OutboxEvent) : Type 0 where
  pub held : s.holder e.id ≡ some i
  pub stored : has_row e.id s.table ≡ true
  pub unpublished : is_published e.id s.table ≡ false
  pub unmarked : is_marked (s.holder e.id) s.marks e.id ≡ false

pub record IsExclusive (s : Polling) : Type 0 where
  pub ids_unique : distinct same_id s.table ≡ true
  pub pending : (i : ℕ) → All (Pending s i) (s.todo i)
  pub todo_unique : (i : ℕ) → distinct same_event_id (s.todo i) ≡ true
  pub closed : (i : ℕ) → s.is_open i ≡ false → (s.marks i ≡ []) × (s.todo i ≡ [])
  pub marked_stored :
      (id : ℕ) → is_marked (s.holder id) s.marks id ≡ true → has_row id s.table ≡ true
