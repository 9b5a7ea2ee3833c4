-- ===== src/Relay/Exclusive/Found.antt =====
-- The batch of a relay while others hold rows: its rows are free and not published, and their ids
-- differ.
use high_throughput_payments.Base.{
  ℕ, zero, suc, List, [], ◌∷◌, ◌==◌, nat_eq, ==_refl, ==_sound, ◌≡◌, refl, sym, subst, true, false,
  ◌||◌, Option, none, some, any, distinct, map, All, All-map, All-both, if_split, arith,
}
use high_throughput_payments.Db.{OutboxRow}
use high_throughput_payments.Db.Claims.{is_unpublished, unpublished, insert_by_time, by_time, take}
use high_throughput_payments.Relay.Ids.{same_id}
use high_throughput_payments.Relay.Pollers.{Polling, is_free, free_rows, batch}
use high_throughput_payments.Relay.Exclusive.{is_published, has_row, same_event_id}

module _ (holder : ℕ → Option ℕ) where
  -- the rows of a table whose ids are unique, by what is left of them
  abbrev pub Found : List OutboxRow → OutboxRow → Type 0
  Found rs r =
      (holder r.id ≡ none)
      × (has_row r.id rs ≡ true)
      × (is_unpublished r ≡ true → is_published r.id rs ≡ false)

  free-id :
      (x : OutboxRow) (rs : List OutboxRow)
      → any (same_id x) rs ≡ false
      → All (λ r. (x.id == r.id) ≡ false) (free_rows holder rs)
  free-id x [] q = tt
  free-id x (r ∷ rs) q =
      if_split (All (λ r. (x.id == r.id) ≡ false)) (is_free (holder r.id)) _ _
        (λ _.
          (ground (arith, q, ==_sound x.id r.id, ==_refl r.id), free-id x rs (ground (arith, q))))
        (λ _. free-id x rs (ground (arith, q)))

  free_none : (o : Option ℕ) → is_free o ≡ true → o ≡ none
  free_none none q = refl
  free_none (some i) q = cc

  alone :
      (x : OutboxRow) (rs : List OutboxRow)
      → any (same_id x) rs ≡ false
      → is_published x.id rs ≡ false
  alone x [] q = refl
  alone x (r ∷ rs) q = ground (arith, q, alone x rs)

  pub free-Found :
      (rs : List OutboxRow) → distinct same_id rs ≡ true → All (Found rs) (free_rows holder rs)
  free-Found [] u = tt
  free-Found (x ∷ xs) u =
      let rest =
        All-both _ _ (free_rows holder xs) (free-id x xs (ground (arith, u)))
          (free-Found xs (ground (arith, u))) in
      let later =
        All-map _ (Found (x ∷ xs)) (free_rows holder xs)
          (λ r (n, (f, h, p)). (f, ground (arith, h), λ q. ground (arith, p q, n))) rest in
      if_split (All (Found (x ∷ xs))) (is_free (holder x.id)) _ _
        (λ y. (
          (
            free_none (holder x.id) y,
            ground (arith, ==_refl x.id),
            λ q. ground (arith, q, alone x xs, u),
          ),
          later,
        ))
        (λ _. later)

-- The query for the batch keeps distinct ids distinct.
any-insert :
    (x r : OutboxRow) (rs : List OutboxRow)
    → any (same_id x) (insert_by_time r rs) ≡ (same_id x r || any (same_id x) rs)
any-insert x r [] = ground arith
any-insert x r (y ∷ ys) = ground (arith, any-insert x r ys)

distinct-insert :
    (r : OutboxRow) (rs : List OutboxRow)
    → any (same_id r) rs ≡ false
    → distinct same_id rs ≡ true
    → distinct same_id (insert_by_time r rs) ≡ true
distinct-insert r [] n u = refl
distinct-insert r (y ∷ ys) n u =
    ground (arith, distinct-insert r ys, any-insert y r ys, ==_sound r.id y.id, ==_refl y.id)

any-by_time :
    (x : OutboxRow) (rs : List OutboxRow) → any (same_id x) (by_time rs) ≡ any (same_id x) rs
any-by_time x [] = refl
any-by_time x (r ∷ rs) = ground (arith, any-insert x r (by_time rs), any-by_time x rs)

distinct-by_time :
    (rs : List OutboxRow) → distinct same_id rs ≡ true → distinct same_id (by_time rs) ≡ true
distinct-by_time [] u = refl
distinct-by_time (r ∷ rs) u =
    distinct-insert r (by_time rs) (ground (arith, u, any-by_time r rs))
      (distinct-by_time rs (ground (arith, u)))

any-take :
    (x : OutboxRow) (n : ℕ) (rs : List OutboxRow)
    → any (same_id x) rs ≡ false
    → any (same_id x) (take n rs) ≡ false
any-take x zero rs q = refl
any-take x (suc n) [] q = refl
any-take x (suc n) (r ∷ rs) q = ground (arith, any-take x n rs)

distinct-take :
    (n : ℕ) (rs : List OutboxRow) → distinct same_id rs ≡ true → distinct same_id (take n rs) ≡ true
distinct-take zero rs u = refl
distinct-take (suc n) [] u = refl
distinct-take (suc n) (r ∷ rs) u = ground (arith, any-take r n rs, distinct-take n rs)

any-unpublished :
    (x : OutboxRow) (rs : List OutboxRow)
    → any (same_id x) rs ≡ false
    → any (same_id x) (unpublished rs) ≡ false
any-unpublished x [] q = refl
any-unpublished x (r ∷ rs) q = ground (arith, any-unpublished x rs)

distinct-unpublished :
    (rs : List OutboxRow) → distinct same_id rs ≡ true → distinct same_id (unpublished rs) ≡ true
distinct-unpublished [] u = refl
distinct-unpublished (r ∷ rs) u = ground (arith, any-unpublished r rs, distinct-unpublished rs)

any-free :
    (holder : ℕ → Option ℕ) (x : OutboxRow) (rs : List OutboxRow)
    → any (same_id x) rs ≡ false
    → any (same_id x) (free_rows holder rs) ≡ false
any-free holder x [] q = refl
any-free holder x (r ∷ rs) q = ground (arith, any-free holder x rs)

distinct-free :
    (holder : ℕ → Option ℕ) (rs : List OutboxRow)
    → distinct same_id rs ≡ true
    → distinct same_id (free_rows holder rs) ≡ true
distinct-free holder [] u = refl
distinct-free holder (r ∷ rs) u = ground (arith, any-free holder r rs, distinct-free holder rs)

any-map :
    (x : OutboxRow) (rs : List OutboxRow)
    → any (same_event_id x.event) (map (λ r. r.event) rs) ≡ any (same_id x) rs
any-map x [] = refl
any-map x (r ∷ rs) = ground (arith, any-map x rs)

distinct-map :
    (rs : List OutboxRow) → distinct same_event_id (map (λ r. r.event) rs) ≡ distinct same_id rs
distinct-map [] = refl
distinct-map (r ∷ rs) = ground (arith, any-map r rs, distinct-map rs)

-- the batch of a query
pub distinct-batch :
    (limit : ℕ) (s : Polling)
    → distinct same_id s.table ≡ true
    → distinct same_event_id (batch limit s) ≡ true
distinct-batch limit s u =
    subst (λ b. b ≡ true)
      (sym (distinct-map (take limit (by_time (unpublished (free_rows s.holder s.table))))))
      (distinct-take limit _
        (distinct-by_time _ (distinct-unpublished _ (distinct-free s.holder s.table u))))
