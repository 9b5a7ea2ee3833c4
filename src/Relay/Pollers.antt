-- ===== src/Relay/Pollers.antt =====
-- The relays of the three services on one table (internal/outbox/relay.go), polling at once: the
-- statements of `publishPending` as steps that interleave, with the row locks of
-- `FOR UPDATE SKIP LOCKED` (internal/db/outbox_repo.go). A relay is a number.
use high_throughput_payments.Base.{
  ℕ, List, [], ◌∷◌, ◌==◌, nat_eq, Bool, true, false, ◌&&◌, Option, none, some, any, update, map,
  if◌then◌else◌,
}
use high_throughput_payments.Db.{OutboxEvent, OutboxRow}
use high_throughput_payments.Db.Claims.{unpublished, by_time, take, publish_row}
use high_throughput_payments.Relay.Delivery.{names}

-- Of each relay, whether its transaction is open, whether a statement of it has failed, the events
-- that it has still to write, and the rows that it has marked as published and not yet committed; of
-- each row, the relay that holds its lock; and the ids of the events that Kafka has acknowledged, the
-- last one first.
pub record Polling : Type 0 where
  pub table : List OutboxRow
  pub holder : ℕ → Option ℕ
  pub is_open : ℕ → Bool
  pub is_aborted : ℕ → Bool
  pub todo : ℕ → List OutboxEvent
  pub marks : ℕ → List ℕ
  pub acks : List ℕ

-- what `WriteMessages` of an event returns, and `MarkPublished` after an acknowledgement
pub data Written : Type 0 where
  refused acked_marked acked_unmarked : Written

pub data Move : Type 0 where
  claims : ℕ → Move
  -- the next event of the batch
  writes : ℕ → Written → Move
  -- the commit, at a time
  commits : ℕ → ℕ → Move
  -- the end of a transaction by a commit that fails, or by the end of the process
  rolls_back : ℕ → Move
  -- the connection to Postgres is lost, and the relay goes on with its batch
  disconnects : ℕ → Move

abbrev pub set {ℓ} : {A : Type ℓ} → (ℕ → A) → ℕ → A → ℕ → A
set f i a j = if j == i then a else f j

abbrev pub holds : Option ℕ → ℕ → Bool
holds none i = false
holds (some j) i = j == i

abbrev pub is_free : Option ℕ → Bool
is_free none = true
is_free (some i) = false

abbrev pub contains : ℕ → List ℕ → Bool
contains id xs = any (λ x. x == id) xs

-- `SKIP LOCKED`: the rows that nobody holds
abbrev pub free_rows : (ℕ → Option ℕ) → List OutboxRow → List OutboxRow
free_rows holder [] = []
free_rows holder (r ∷ rs) =
    let rest = free_rows holder rs in if is_free (holder r.id) then r ∷ rest else rest

abbrev pub batch : ℕ → Polling → List OutboxEvent
batch limit s = map (λ r. r.event) (take limit (by_time (unpublished (free_rows s.holder s.table))))

abbrev pub claim : ℕ → ℕ → Polling → Polling
claim limit i s = record s {
  holder = λ id. if names id (batch limit s) then some i else s.holder id;
  is_open = set s.is_open i true;
  is_aborted = set s.is_aborted i false;
  todo = set s.todo i (batch limit s);
}

-- `MarkPublished` in a transaction of which a statement has failed fails too
abbrev pub acknowledge : ℕ → OutboxEvent → List OutboxEvent → Bool → Polling → Polling
acknowledge i e es aborted s = record s {
  todo = set s.todo i es;
  is_aborted = set s.is_aborted i aborted;
  marks = if aborted then s.marks else set s.marks i (e.id ∷ s.marks i);
  acks = e.id ∷ s.acks;
}

-- an event that was not acknowledged is passed over
abbrev pub write : ℕ → Written → List OutboxEvent → Polling → Polling
write i w [] s = s
write i refused (e ∷ es) s = record s { todo = set s.todo i es }
write i acked_marked (e ∷ es) s = acknowledge i e es (s.is_aborted i) s
write i acked_unmarked (e ∷ es) s = acknowledge i e es true s

-- the end of a transaction releases its locks
abbrev pub release : ℕ → List OutboxRow → Polling → Polling
release i rows s = record s {
  table = rows;
  holder = λ id. if holds (s.holder id) i then none else s.holder id;
  is_open = set s.is_open i false;
  todo = set s.todo i [];
  marks = set s.marks i [];
}

-- Postgres rolls back; every later statement and the commit of the transaction fail
abbrev pub disconnect : ℕ → Polling → Polling
disconnect i s = record s {
  holder = λ id. if holds (s.holder id) i then none else s.holder id;
  is_aborted = set s.is_aborted i true;
  marks = set s.marks i [];
}

abbrev pub is_connected : Move → Bool
is_connected (disconnects i) = false
is_connected _ = true

abbrev pub has_rest : List OutboxEvent → Bool
has_rest [] = false
has_rest (e ∷ es) = true

-- the table after a commit; of an aborted transaction a commit is a rollback
abbrev pub committed : ℕ → ℕ → Polling → List OutboxRow
committed i now s =
    if s.is_aborted i
    then s.table
    else update (λ r. holds (s.holder r.id) i && contains r.id (s.marks i)) (publish_row now)
        s.table

-- A move that is not the relay's turn changes nothing: a claim while its transaction is open, or a
-- commit before the loop over the batch has ended.
unfoldable pub move : ℕ → Move → Polling → Polling
move limit (claims i) s = if s.is_open i then s else claim limit i s
move limit (writes i w) s = write i w (s.todo i) s
move limit (commits i now) s = if has_rest (s.todo i) then s else release i (committed i now s) s
move limit (rolls_back i) s = release i s.table s
move limit (disconnects i) s = disconnect i s

unfoldable pub moves : ℕ → List Move → Polling → Polling
moves limit [] s = s
moves limit (m ∷ ms) s = moves limit ms (move limit m s)
