-- ===== src/Relay/Oldest.antt =====
-- `FetchAndClaimUnpublished` (internal/db/outbox_repo.go) against what the relay needs of it: the oldest
-- events that are not published, as many as there may be.
use high_throughput_payments.Base.{
  ℕ, zero, suc, ◌+◌, ◌≤◌, List, [], ◌∷◌, ◌≡◌, Bool, ◌&&◌, ◌⊎◌, All, count, length,
}
use high_throughput_payments.Db.{Db, OutboxRow}
use high_throughput_payments.Db.Claims.{is_unpublished}
use high_throughput_payments.Relay.Batch.{NotAfter, Ascending}

-- These rows, with the `rest`, are the unpublished rows of the table, each as often as there; there are
-- `limit` of them, or no rest; and none of them was created after one that comes later or is left.
pub record Oldest (limit : ℕ) (table rows rest : List OutboxRow) : Type 0 where
  pub shared_out :
      (p : OutboxRow → Bool)
      → count p rows + count p rest ≡ count (λ r. is_unpublished r && p r) table
  pub full : (length rows ≡ limit) ⊎ ((length rows ≤ limit) × (rest ≡ []))
  pub ordered : Ascending rows
  pub oldest : All (λ r. All (NotAfter r) rest) rows

abbrev drop : ℕ → List OutboxRow → List OutboxRow
drop zero rs = rs
drop (suc n) [] = []
drop (suc n) (r ∷ rs) = drop n rs
