-- ===== src/Relay/Batch.antt =====
-- The batch of `FetchAndClaimUnpublished` (internal/db/outbox_repo.go): its rows and their order.
use high_throughput_payments.Base.{
  ℕ, zero, suc, ◌≤◌, List, [], ◌∷◌, ◌≡◌, true, Bool-cases, inl, inr, All, ltb, if_split, arith,
}
use high_throughput_payments.Db.{Db, OutboxRow}
use high_throughput_payments.Db.Claims.{
  is_unpublished, unpublished, insert_by_time, by_time, take, claimed_rows,
}

abbrev pub IsUnpublished : OutboxRow → Type 0
IsUnpublished r = is_unpublished r ≡ true

abbrev pub NotAfter : OutboxRow → OutboxRow → Type 0
NotAfter r x = r.created_at ≤ x.created_at

-- every row was created no later than those after it
abbrev pub Ascending : List OutboxRow → Type 0
Ascending [] = Unit
Ascending (r ∷ rs) = All (NotAfter r) rs × Ascending rs

-- any property of rows passes through the query
module _ (P : OutboxRow → Type 0) where
  insert_by_time-All :
      (r : OutboxRow) (rs : List OutboxRow) → P r → All P rs → All P (insert_by_time r rs)
  insert_by_time-All r [] p h = (p, tt)
  insert_by_time-All r (x ∷ xs) p (q, h) = elim (Bool-cases (ltb x.created_at r.created_at)) [
    | inl y ↦ rw y (q, insert_by_time-All r xs p h)
    | inr y ↦ rw y (p, (q, h))
  ]

  pub by_time-All : (rs : List OutboxRow) → All P rs → All P (by_time rs)
  by_time-All [] h = tt
  by_time-All (r ∷ rs) (p, h) = insert_by_time-All r (by_time rs) p (by_time-All rs h)

  pub take-All : (n : ℕ) (rs : List OutboxRow) → All P rs → All P (take n rs)
  take-All zero rs h = tt
  take-All (suc n) [] h = tt
  take-All (suc n) (r ∷ rs) (p, h) = (p, take-All n rs h)

  pub unpublished_rows-All : (rs : List OutboxRow) → All P rs → All P (unpublished rs)
  unpublished_rows-All [] h = tt
  unpublished_rows-All (r ∷ rs) (p, h) =
      if_split (All P) (is_unpublished r) _ _ (λ _. (p, unpublished_rows-All rs h))
        (λ _. unpublished_rows-All rs h)

  pub claimed_rows-All : (n : ℕ) (d : Db) → All P d.outbox → All P (claimed_rows n d)
  claimed_rows-All n d h = take-All n _ (by_time-All _ (unpublished_rows-All d.outbox h))

pub unpublished-All : (rs : List OutboxRow) → All IsUnpublished (unpublished rs)
unpublished-All [] = tt
unpublished-All (r ∷ rs) = elim (Bool-cases (is_unpublished r)) [
  | inl y ↦ rw y (y, unpublished-All rs)
  | inr y ↦ rw y (unpublished-All rs)
]

NotAfter-trans :
    (r x : OutboxRow) (rs : List OutboxRow)
    → NotAfter r x
    → All (NotAfter x) rs
    → All (NotAfter r) rs
NotAfter-trans r x [] h k = tt
NotAfter-trans r x (y ∷ ys) h (k, ks) = (omega (arith, h, k), NotAfter-trans r x ys h ks)

insert_by_time-Ascending :
    (r : OutboxRow) (rs : List OutboxRow) → Ascending rs → Ascending (insert_by_time r rs)
insert_by_time-Ascending r [] h = (tt, tt)
insert_by_time-Ascending r (x ∷ xs) (a, h) = elim (Bool-cases (ltb x.created_at r.created_at)) [
  | inl y ↦
      rw y (
        insert_by_time-All (NotAfter x) r xs (ground (arith, y)) a,
        insert_by_time-Ascending r xs h,
      )
  | inr y ↦
      let le : NotAfter r x = ground (arith, y) in rw y ((le, NotAfter-trans r x xs le a), (a, h))
]

pub by_time-Ascending : (rs : List OutboxRow) → Ascending (by_time rs)
by_time-Ascending [] = tt
by_time-Ascending (r ∷ rs) = insert_by_time-Ascending r (by_time rs) (by_time-Ascending rs)

pub take-Ascending : (n : ℕ) (rs : List OutboxRow) → Ascending rs → Ascending (take n rs)
take-Ascending zero rs h = tt
take-Ascending (suc n) [] h = tt
take-Ascending (suc n) (r ∷ rs) (a, h) = (take-All (NotAfter r) n rs a, take-Ascending n rs h)
