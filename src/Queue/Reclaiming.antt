-- ===== src/Queue/Reclaiming.antt =====
-- What the first transaction of `next_item` leaves: no claim that is older than the lease allows.
use rpacore.Base.{
  ℕ, ◌+◌, ◌≡◌, refl, sym, ap, ◌∙◌, subst, ◌⊎◌, inl, inr, String, Bool, true, false, ◌&&◌, List, [],
  ◌∷◌, none, some, arith, leb, Bool-cases, str_eq, str_eq_iff, All, filter, find, if◌then◌else◌,
}
use rpacore.Queue.Rows.{
  QueueItem, QueueAttemptOutcome, Store, is_in_progress, is_empty, has_id, passes, matches, set_row,
  close_attempt, update_item,
}
use rpacore.Queue.Retry.{QueuePolicy}
use rpacore.Queue.Claims.{released, retry_status, due_if, close_claim}
use rpacore.Queue.Delivery.{is_stale, reclaim_row, reclaim_rows, reclaim}
use rpacore.Queue.Consistency.{released-idle}
use rpacore.Queue.Serving.{find-later}
use rpacore.Queue.Keys.{IsKeyed, IsKeyed-set_row, reclaim_rows-keeps}

-- The row is in the list.
Among : QueueItem → List QueueItem → Type 0
Among r [] = ⊥
Among r (s ∷ ss) = (s ≡ r) ⊎ Among r ss

All-both :
    {P Q R : QueueItem → Type 0} (items : List QueueItem)
    → ((r : QueueItem) → P r → Q r → R r)
    → All P items
    → All Q items
    → All R items
All-both [] f p q = tt
All-both (r ∷ rs) f p q = (f r p.0 q.0, All-both rs f p.1 q.1)

-- In a keyed list, each row is the one under its key.
All-found :
    (items : List QueueItem) → IsKeyed items → All (λ r. find (has_id r.id) items ≡ some r) items
All-found [] keyed = tt
All-found (r ∷ rs) keyed =
    let here : find (has_id r.id) (r ∷ rs) ≡ some r = rw ((str_eq_iff r.id r.id).1 refl) refl in
    (
      here,
      All-both rs (λ s found _. find-later r rs keyed.0 found) (All-found rs keyed.1)
          (All-found rs keyed.1),
    )

module _ (policy : QueuePolicy) (now : ℕ) where
  abbrev stale : QueueItem → Bool
  stale = is_stale policy.lease_timeout now

  -- Each stale row is still to be reclaimed.
  Listed : List QueueItem → QueueItem → Type 0
  Listed rows r = (stale r ≡ false) ⊎ Among r rows

  Listed-cons :
      (s : QueueItem) (rows items : List QueueItem)
      → All (Listed rows) items
      → All (Listed (s ∷ rows)) items
  unfolding Listed Among
  Listed-cons s rows [] h = tt
  Listed-cons s rows (r ∷ rs) h = (one h.0, Listed-cons s rows rs h.1)
    where
      one : (stale r ≡ false) ⊎ Among r rows → (stale r ≡ false) ⊎ ((s ≡ r) ⊎ Among r rows)
      one (inl e) = inl e
      one (inr a) = inr (inr a)

  All-Listed : (items : List QueueItem) → All (Listed (filter stale items)) items
  unfolding Listed Among
  All-Listed [] = tt
  All-Listed (r ∷ rs) = elim (Bool-cases (stale r)) [
    | inl e ↦
        let kept : filter stale (r ∷ rs) ≡ r ∷ filter stale rs = rw e refl in
        subst (λ rows. All (Listed rows) (r ∷ rs)) (sym kept)
          (inr (inl refl), Listed-cons r (filter stale rs) rs (All-Listed rs))
    | inr e ↦
        let dropped : filter stale (r ∷ rs) ≡ filter stale rs = rw e refl in
        subst (λ rows. All (Listed rows) (r ∷ rs)) (sym dropped) (inl e, All-Listed rs)
  ]

  -- A change of the row with the key, for predicates that the rows with other keys keep.
  All-set_row :
      (P Q : QueueItem → Type 0) (i : String) (f : QueueItem → QueueItem) (items : List QueueItem)
      → ((r : QueueItem) → Q (f r))
      → ((r : QueueItem) → has_id i r ≡ false → P r → Q r)
      → IsKeyed items
      → All P items
      → All Q (set_row i f items)
  unfolding set_row
  All-set_row P Q i f [] changed same keyed h = tt
  All-set_row P Q i f (r ∷ rs) changed same keyed h = elim (Bool-cases (has_id i r)) [
    | inl e ↦ rw e (
      changed r,
      others rs (ap (λ (k : String). find (has_id k) rs) (sym ((str_eq_iff r.id i).0 e)) ∙ keyed.0)
          h.1,
    )
    | inr e ↦ rw e (same r e h.0, All-set_row P Q i f rs changed same keyed.1 h.1)
  ]
    where
      others : (ss : List QueueItem) → find (has_id i) ss ≡ none → All P ss → All Q ss
      others [] none_found h = tt
      others (s ∷ ss) none_found h = elim (Bool-cases (has_id i s)) [
        | inl e ↦ absurd (ground (arith, e, none_found))
        | inr e ↦ (same s e h.0, others ss (ground (arith, e, none_found)) h.1)
      ]

  module _ (s : QueueItem) (rows : List QueueItem) where
    abbrev again : Bool
    again = leb (s.retry_count + 1) policy.max_retries

    abbrev change : QueueItem → QueueItem
    change =
        released (retry_status again) (s.retry_count + 1) (if again then "" else s.claimed_by)
          (due_if again now (s.retry_count + 1) policy)

    abbrev guard : QueueItem → Bool
    guard r = is_in_progress r.status && str_eq r.claim_token s.claim_token

    change-Listed : (r : QueueItem) → Listed rows (change r)
    unfolding Listed
    change-Listed r = inl (rw (released-idle again) refl)

    other-Listed : (r : QueueItem) → has_id s.id r ≡ false → Listed (s ∷ rows) r → Listed rows r
    unfolding Listed Among
    other-Listed r e (inl h) = inl h
    other-Listed r e (inr (inl same)) =
        let own : has_id s.id r ≡ true =
          (str_eq_iff r.id s.id).1 (ap (λ (x : QueueItem). x.id) (sym same)) in
        absurd (cc (own, e))
    other-Listed r e (inr (inr a)) = inr a

    -- A stale row whose guard fails has changed, so it is not in the list any more.
    missed-Listed :
        (items : List QueueItem)
        → matches s.id guard items ≡ false
        → (r : QueueItem) → find (has_id r.id) items ≡ some r
        → Listed (s ∷ rows) r
        → Listed rows r
    unfolding Listed Among matches
    missed-Listed items missed r found (inl h) = inl h
    missed-Listed items missed r found (inr (inl same)) = elim (Bool-cases (stale r)) [
      | inl e ↦
          let busy : is_in_progress r.status ≡ true = ground (arith, e) in
          let found' : find (has_id s.id) items ≡ some r =
            ap (λ (x : QueueItem). find (has_id x.id) items) same ∙ found in
          let token : str_eq r.claim_token s.claim_token ≡ true =
            (str_eq_iff r.claim_token s.claim_token).1
              (ap (λ (x : QueueItem). x.claim_token) (sym same)) in
          absurd (contradiction found' busy token)
      | inr e ↦ inl e
    ]
      where
        contradiction :
            find (has_id s.id) items ≡ some r
            → is_in_progress r.status ≡ true
            → str_eq r.claim_token s.claim_token ≡ true
            → ⊥
        contradiction f b t =
            let hit : guard r ≡ true = rw (b, t) refl in
            let reached = sym missed ∙ ap (passes guard) f ∙ hit in cc reached
    missed-Listed items missed r found (inr (inr a)) = inr a

    close_claim-items :
        (i t : String) (outcome : QueueAttemptOutcome) (db : Store)
        → (close_claim i t outcome now db).items ≡ db.items
    unfolding close_attempt
    close_claim-items i t outcome db = elim (Bool-cases (is_empty t)) [
      | inl e ↦ rw e refl
      | inr e ↦ rw e refl
    ]

    reclaim_row-Listed :
        (db : Store)
        → IsKeyed db.items
        → All (Listed (s ∷ rows)) db.items
        → All (Listed rows) (reclaim_row policy now s db).items
    unfolding reclaim_row
    reclaim_row-Listed db keyed h = elim (Bool-cases (matches s.id guard db.items)) [
      | inl e ↦ rw e (
          subst (All (Listed rows))
            (sym (
              close_claim-items s.id s.claim_token QueueAttemptOutcome.lease_expired
                (update_item s.id change db)))
            (All-set_row (Listed (s ∷ rows)) (Listed rows) s.id change db.items change-Listed
              other-Listed keyed h))
      | inr e ↦ rw e (All-both db.items (missed-Listed db.items e) (All-found db.items keyed) h)
    ]

  reclaim_rows-Listed :
      (rows : List QueueItem) (db : Store)
      → IsKeyed db.items
      → All (Listed rows) db.items
      → All (Listed []) (reclaim_rows policy now rows db).items
  unfolding reclaim_rows
  reclaim_rows-Listed [] db keyed h = h
  reclaim_rows-Listed (s ∷ ss) db keyed h =
      reclaim_rows-Listed ss (reclaim_row policy now s db)
        (unfold reclaim_rows in
          reclaim_rows-keeps IsKeyed IsKeyed-set_row policy now (s ∷ []) db keyed)
        (reclaim_row-Listed s ss db keyed h)

  All-fresh : (items : List QueueItem) → All (Listed []) items → All (λ r. stale r ≡ false) items
  unfolding Listed Among
  All-fresh [] h = tt
  All-fresh (r ∷ rs) h = (one h.0, All-fresh rs h.1)
    where
      one : (stale r ≡ false) ⊎ ⊥ → stale r ≡ false
      one (inl e) = e
      one (inr a) = absurd a

-- After the first transaction of `next_item`, no item of a queue whose rows have different keys is
-- in progress under a claim that is older than the lease allows.
pub reclaim_clears :
    (policy : QueuePolicy) (now : ℕ) (db : Store)
    → IsKeyed db.items
    → All (λ r. is_stale policy.lease_timeout now r ≡ false) (reclaim policy now db).items
unfolding reclaim
reclaim_clears policy now db keyed =
    let rows = filter (is_stale policy.lease_timeout now) db.items in
    All-fresh policy now (reclaim_rows policy now rows db).items
      (reclaim_rows-Listed policy now rows db keyed (All-Listed policy now db.items))
