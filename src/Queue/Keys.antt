-- ===== src/Queue/Keys.antt =====
-- The keys of the queue's rows, and what the reclaiming of stale rows keeps.
use rpacore.Base.{
  ℕ, ◌+◌, ◌≡◌, refl, sym, subst, inl, inr, String, Bool, true, false, ◌&&◌, List, [], ◌∷◌, none,
  arith, leb, length, Bool-cases, str_eq, find, if◌then◌else◌,
}
use rpacore.Queue.Rows.{
  QueueItem, Store, QueueAttemptOutcome, is_in_progress, is_empty, has_id, matches, set_row,
  close_attempt, update_item,
}
use rpacore.Queue.Retry.{QueuePolicy}
use rpacore.Queue.Claims.{released, retry_status, due_if, close_claim}
use rpacore.Queue.Delivery.{reclaim_row, reclaim_rows}

-- No two rows have the same key.
abbrev pub IsKeyed : List QueueItem → Type 0
IsKeyed [] = Unit
IsKeyed (r ∷ rs) = (find (has_id r.id) rs ≡ none) × IsKeyed rs

find-set_row-none :
    (i j : String) (f : QueueItem → QueueItem) (items : List QueueItem)
    → ((r : QueueItem) → (f r).id ≡ r.id)
    → find (has_id j) items ≡ none
    → find (has_id j) (set_row i f items) ≡ none
unfolding set_row
find-set_row-none i j f [] keeps h = refl
find-set_row-none i j f (x ∷ xs) keeps h = elim (Bool-cases (has_id i x)) [
  | inl e ↦ rw (e, keeps x) (ground (arith, h))
  | inr e ↦ rw e (elim (Bool-cases (has_id j x)) [
    | inl d ↦ absurd (ground (arith, h, d))
    | inr d ↦ rw d (find-set_row-none i j f xs keeps (ground (arith, h, d)))
  ])
]

pub IsKeyed-set_row :
    (i : String) (f : QueueItem → QueueItem) (items : List QueueItem)
    → ((r : QueueItem) → (f r).id ≡ r.id)
    → IsKeyed items
    → IsKeyed (set_row i f items)
unfolding set_row
IsKeyed-set_row i f [] keeps h = tt
IsKeyed-set_row i f (x ∷ xs) keeps h = elim (Bool-cases (has_id i x)) [
  | inl e ↦ rw e (subst (λ k. find (has_id k) xs ≡ none) (sym (keeps x)) h.0, h.1)
  | inr e ↦ rw e (find-set_row-none i x.id f xs keeps h.0, IsKeyed-set_row i f xs keeps h.1)
]

pub length-set_row :
    (i : String) (f : QueueItem → QueueItem) (items : List QueueItem)
    → length (set_row i f items) ≡ length items
unfolding set_row
length-set_row i f [] = refl
length-set_row i f (x ∷ xs) = ground (arith, length-set_row i f xs)

-- What every change of a row keeps, the reclaiming keeps.
module _ (P : List QueueItem → Type 0)
    (change : (i : String) (f : QueueItem → QueueItem) (items : List QueueItem)
      → ((r : QueueItem) → (f r).id ≡ r.id)
      → P items
      → P (set_row i f items)) where
  close_claim-keeps :
      (i t : String) (outcome : QueueAttemptOutcome) (now : ℕ) (db : Store)
      → P db.items
      → P (close_claim i t outcome now db).items
  unfolding close_attempt
  close_claim-keeps i t outcome now db h = elim (Bool-cases (is_empty t)) [
    | inl e ↦ rw e h
    | inr e ↦ rw e h
  ]

  reclaim_row-keeps :
      (policy : QueuePolicy) (now : ℕ) (stale : QueueItem) (db : Store)
      → P db.items
      → P (reclaim_row policy now stale db).items
  unfolding reclaim_row
  reclaim_row-keeps policy now stale db h = go (matches stale.id guard db.items)
    where
      guard : QueueItem → Bool
      guard r = is_in_progress r.status && str_eq r.claim_token stale.claim_token

      again : Bool
      again = leb (stale.retry_count + 1) policy.max_retries

      update : QueueItem → QueueItem
      update =
          released (retry_status again) (stale.retry_count + 1)
            (if again then "" else stale.claimed_by)
            (due_if again now (stale.retry_count + 1) policy)

      ending : Bool → Store
      ending b =
          if b
          then close_claim stale.id stale.claim_token QueueAttemptOutcome.lease_expired now
              (update_item stale.id update db)
          else db

      go : (b : Bool) → P (ending b).items
      go true =
          close_claim-keeps stale.id stale.claim_token QueueAttemptOutcome.lease_expired now
            (update_item stale.id update db) (change stale.id update db.items (λ r. refl) h)
      go false = h

  pub reclaim_rows-keeps :
      (policy : QueuePolicy) (now : ℕ) (rows : List QueueItem) (db : Store)
      → P db.items
      → P (reclaim_rows policy now rows db).items
  unfolding reclaim_rows
  reclaim_rows-keeps policy now [] db h = h
  reclaim_rows-keeps policy now (r ∷ rs) db h =
      reclaim_rows-keeps policy now rs (reclaim_row policy now r db)
        (reclaim_row-keeps policy now r db h)
