-- ===== src/Queue/Agreement.antt =====
-- The items and the attempts of a queue agree: an item in progress has one open attempt, under its
-- own token, and no other item has any.
use rpacore.Base.{
  ℕ, ◌≡◌, refl, sym, ap, ◌∙◌, subst, inl, inr, String, Bool, true, false, ◌&&◌, List, [], ◌∷◌,
  Option, none, some, arith, Bool-cases, str_eq, str_eq_iff, filter, find, update_where, All,
  if◌then◌else◌,
}
use rpacore.Queue.Rows.{
  QueueAttemptOutcome, QueueItem, QueueAttempt, Store, is_in_progress, is_empty, is_open, has_id,
  attempt_of, set_row, close_attempt, update_item,
}
use rpacore.Queue.Claims.{close_claim}

abbrev pub open_of : String → QueueAttempt → Bool
open_of i a = str_eq a.item_id i && is_open a

-- The open attempts of an item in progress.
pub record IsClaimed (token : String) (open_ones : List QueueAttempt) : Type 0 where
  pub attempt : QueueAttempt
  pub only : open_ones ≡ attempt ∷ []
  pub token_same : attempt.claim_token ≡ token
  pub token_set : is_empty token ≡ false

pub record IsFree (token : String) (open_ones : List QueueAttempt) : Type 0 where
  pub none_open : open_ones ≡ []
  pub token_empty : token ≡ ""

abbrev pub AgreeItem : QueueItem → List QueueAttempt → Type 0
AgreeItem r as' =
    if is_in_progress r.status then IsClaimed r.claim_token as' else IsFree r.claim_token as'

abbrev pub Agree : Option QueueItem → List QueueAttempt → Type 0
Agree none as' = as' ≡ []
Agree (some r) as' = AgreeItem r as'

unfoldable pub Consistent : List QueueItem → List QueueAttempt → Type 0
Consistent items as' = (i : String) → Agree (find (has_id i) items) (filter (open_of i) as')

abbrev pub IsConsistent : Store → Type 0
IsConsistent db = Consistent db.items db.attempts

str_eq_self : (s : String) → str_eq s s ≡ true
str_eq_self s = (str_eq_iff s s).1 refl

module _ (i : String) (f : QueueItem → QueueItem) (keeps : (r : QueueItem) → (f r).id ≡ r.id) where
  pub find-set_row :
      (items : List QueueItem) {r : QueueItem}
      → find (has_id i) items ≡ some r
      → find (has_id i) (set_row i f items) ≡ some (f r)
  unfolding set_row
  find-set_row [] h = cc
  find-set_row (x ∷ xs) {r} h = ground (arith, keeps x, find-set_row xs {r = r})

  pub find-set_row_other :
      (j : String) (items : List QueueItem)
      → str_eq i j ≡ false
      → find (has_id j) (set_row i f items) ≡ find (has_id j) items
  unfolding set_row
  find-set_row_other j [] h = refl
  find-set_row_other j (x ∷ xs) h = elim (Bool-cases (has_id i x)) [
    | inl e ↦
        let same : x.id ≡ i = (str_eq_iff x.id i).0 e in
        let old : str_eq x.id j ≡ false = ap (λ (k : String). str_eq k j) same ∙ h in
        let new : str_eq (f x).id j ≡ false = ap (λ (k : String). str_eq k j) (keeps x) ∙ old in
        rw (e, new, old) refl
    | inr e ↦ rw (e, find-set_row_other j xs h) refl
  ]

-- Closing a claim touches the open attempts of its item only.
close-other :
    (i j token : String) (g : QueueAttempt → QueueAttempt) (as' : List QueueAttempt)
    → ((a : QueueAttempt) → (g a).item_id ≡ a.item_id)
    → str_eq i j ≡ false
    → filter (open_of j) (update_where (attempt_of i token) g as') ≡ filter (open_of j) as'
close-other i j token g [] k h = refl
close-other i j token g (a ∷ as') k h = elim (Bool-cases (attempt_of i token a)) [
  | inl e ↦
      let same : a.item_id ≡ i = (str_eq_iff a.item_id i).0 (ground (arith, e)) in
      let old : str_eq a.item_id j ≡ false = ap (λ (l : String). str_eq l j) same ∙ h in
      let new : str_eq (g a).item_id j ≡ false = ap (λ (l : String). str_eq l j) (k a) ∙ old in
      rw (e, new, old) (close-other i j token g as' k h)
  | inr e ↦ rw (e, close-other i j token g as' k h) refl
]

-- If all open attempts of the item have the token, closing leaves none open.
close-All :
    (i token : String) (outcome : QueueAttemptOutcome) (now : ℕ) (as' : List QueueAttempt)
    → All (λ a. a.claim_token ≡ token) (filter (open_of i) as')
    → filter (open_of i) (
        update_where
          (attempt_of i token)
          (λ a. record a { outcome = some outcome; finished_at = some now })
          as')
      ≡ []
close-All i token outcome now [] h = refl
close-All i token outcome now (a ∷ as') h = elim (Bool-cases (open_of i a)) [
  | inl e ↦
      let h' = subst (All (λ (b : QueueAttempt). b.claim_token ≡ token)) (filter-head e) h in
      let hit : attempt_of i token a ≡ true =
        ground (arith, e, (str_eq_iff a.claim_token token).1 h'.0) in
      let dropped : open_of i (record a { outcome = some outcome; finished_at = some now })
          ≡ false =
        ground arith in
      rw (hit, dropped) (close-All i token outcome now as' h'.1)
  | inr e ↦
      let miss : attempt_of i token a ≡ false = ground (arith, e) in
      let h' = subst (All (λ (b : QueueAttempt). b.claim_token ≡ token)) (filter-tail e) h in
      rw (miss, e) (close-All i token outcome now as' h')
]
  where
    filter-head : open_of i a ≡ true → filter (open_of i) (a ∷ as') ≡ a ∷ filter (open_of i) as'
    filter-head e = rw e refl

    filter-tail : open_of i a ≡ false → filter (open_of i) (a ∷ as') ≡ filter (open_of i) as'
    filter-tail e = rw e refl

-- The agreement of a found item.
pub agree-at :
    (i : String) (items : List QueueItem) (as' : List QueueAttempt) {r : QueueItem}
    → Consistent items as'
    → find (has_id i) items ≡ some r
    → AgreeItem r (filter (open_of i) as')
unfolding Consistent
agree-at i items as' con e = subst (λ o. Agree o (filter (open_of i) as')) e (con i)

-- A change of one item and of its own attempts, behind which those agree.
pub change-Consistent :
    (i : String) (f : QueueItem → QueueItem) (items : List QueueItem) (as' bs : List QueueAttempt)
    {r : QueueItem}
    → ((r : QueueItem) → (f r).id ≡ r.id)
    → find (has_id i) items ≡ some r
    → AgreeItem (f r) (filter (open_of i) bs)
    → ((j : String) → str_eq i j ≡ false → filter (open_of j) bs ≡ filter (open_of j) as')
    → Consistent items as'
    → Consistent (set_row i f items) bs
unfolding Consistent
change-Consistent i f items as' bs {r} keeps e own others con j = elim (Bool-cases (str_eq i j)) [
  | inl h ↦
      subst (λ k. Agree (find (has_id k) (set_row i f items)) (filter (open_of k) bs))
        ((str_eq_iff i j).0 h)
        (subst (λ o. Agree o (filter (open_of i) bs)) (sym (find-set_row i f keeps items e)) own)
  | inr h ↦
      subst (λ o. Agree o (filter (open_of j) bs)) (sym (find-set_row_other i f keeps j items h))
        (subst (Agree (find (has_id j) items)) (sym (others j h)) (con j))
]

module _ (r : QueueItem) (as' : List QueueAttempt) where
  pub AgreeItem-IsClaimed :
      is_in_progress r.status ≡ true → AgreeItem r as' → IsClaimed r.claim_token as'
  AgreeItem-IsClaimed p agree =
      subst (λ b. if b then IsClaimed r.claim_token as' else IsFree r.claim_token as') p agree

  pub AgreeItem-IsFree :
      is_in_progress r.status ≡ false → AgreeItem r as' → IsFree r.claim_token as'
  AgreeItem-IsFree p agree =
      subst (λ b. if b then IsClaimed r.claim_token as' else IsFree r.claim_token as') p agree

  pub free-AgreeItem :
      is_in_progress r.status ≡ false → r.claim_token ≡ "" → as' ≡ [] → AgreeItem r as'
  free-AgreeItem p empty none_open = rw p (record { none_open = none_open; token_empty = empty })

-- The release of a claim: the item is neither in progress nor has a token, and its open attempt is
-- closed.
pub release-Consistent :
    (f : QueueItem → QueueItem) (db : Store) (outcome : QueueAttemptOutcome) (now : ℕ) (i : String)
    {r : QueueItem}
    → ((r : QueueItem) → (f r).id ≡ r.id)
    → is_in_progress (f r).status ≡ false
    → (f r).claim_token ≡ ""
    → find (has_id i) db.items ≡ some r
    → IsConsistent db
    → IsConsistent (close_claim i r.claim_token outcome now (update_item i f db))
unfolding close_attempt
release-Consistent f db outcome now i {r} keeps idle empty e con =
    elim (Bool-cases (is_in_progress r.status)) [
      | inl p ↦
          let open_ones = filter (open_of i) db.attempts in
          let c = AgreeItem-IsClaimed r open_ones p (agree-at i db.items db.attempts con e) in
          let tokens : All (λ a. a.claim_token ≡ r.claim_token) open_ones =
            subst (All (λ a. a.claim_token ≡ r.claim_token)) (sym c.only) (c.token_same, tt) in
          rw c.token_set (
            change-Consistent i f db.items db.attempts _ keeps e
              (free-AgreeItem (f r) _ idle empty
                (close-All i r.claim_token outcome now db.attempts tokens))
              (λ j h.
                close-other i j r.claim_token
                  (λ a. record a { outcome = some outcome; finished_at = some now }) db.attempts
                  (λ a. refl) h)
              con)
      | inr p ↦
          let free =
            AgreeItem-IsFree r (filter (open_of i) db.attempts) p
              (agree-at i db.items db.attempts con e) in
          let no_token : is_empty r.claim_token ≡ true =
            (str_eq_iff r.claim_token "").1 free.token_empty in
          rw no_token (
            change-Consistent i f db.items db.attempts db.attempts keeps e
              (free-AgreeItem (f r) (filter (open_of i) db.attempts) idle empty free.none_open)
              (λ j h. refl) con)
    ]
