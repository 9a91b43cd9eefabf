-- ===== src/Queue/Serving.antt =====
-- What `next_item` gives a worker that is alone on the queue.
use rpacore.Base.{
  ℕ, zero, suc, ◌+◌, ◌<◌, ◌≡◌, refl, sym, ap, ◌∙◌, subst, ◌⊎◌, inl, inr, String, Bool, true, false,
  List, [], ◌∷◌, Option, none, some, arith, length, Bool-cases, str_eq_iff, filter, find,
  length-filter, if◌then◌else◌,
}
use rpacore.Queue.Rows.{
  QueueItem, Store, PoisonError, is_in_progress, has_id, matches, set_row, open_attempt,
  update_item,
}
use rpacore.Queue.Retry.{QueuePolicy}
use rpacore.Queue.Delivery.{
  payload_error, is_eligible, is_stale, first_of, item_before, select_item, same_time,
  still_eligible, poisoned, claimed, reclaim_rows, reclaim, quarantine, claim, next_from, next_item,
}
use rpacore.Queue.Keys.{IsKeyed, IsKeyed-set_row, length-set_row, reclaim_rows-keeps}
use rpacore.Queue.Agreement.{find-set_row}

-- The row that the selection takes is the first one, or one of the others.
select-cases :
    (now : ℕ) (x : QueueItem) (xs : List QueueItem) {r : QueueItem}
    → select_item now (x ∷ xs) ≡ some r
    → ((x ≡ r) × (is_eligible now x ≡ true)) ⊎ (select_item now xs ≡ some r)
unfolding select_item
select-cases now x xs {r} h = go (is_eligible now x) (select_item now xs) h
  where
    first : (b : Bool) (s : QueueItem) → some (if b then x else s) ≡ some r → (x ≡ r) ⊎ (s ≡ r)
    first true s h = inl (ground (arith, h))
    first false s h = inr (ground (arith, h))

    go :
        (due : Bool) (rest : Option QueueItem)
        → (if due then some (first_of x rest) else rest) ≡ some r
        → ((x ≡ r) × (due ≡ true)) ⊎ (rest ≡ some r)
    go false rest h = inr h
    go true none h = inl (ground (arith, h), refl)
    go true (some s) h = elim (first (item_before x s) s h) [
      | inl e ↦ inl (e, refl)
      | inr e ↦ inr (ap (λ (t : QueueItem). some t) e)
    ]

pub find-later :
    (x : QueueItem) (xs : List QueueItem) {r : QueueItem}
    → find (has_id x.id) xs ≡ none
    → find (has_id r.id) xs ≡ some r
    → find (has_id r.id) (x ∷ xs) ≡ some r
find-later x xs {r} absent found = elim (Bool-cases (has_id r.id x)) [
  | inl e ↦
      let same = ap (λ (k : String). find (has_id k) xs) ((str_eq_iff x.id r.id).0 e) in
      absurd (contradiction (sym absent ∙ same ∙ found))
  | inr e ↦ rw e found
]
  where
    contradiction : none ≡ some r → ⊥
    contradiction e = cc

-- The selected row is due, and is the one under its key.
select_sound :
    (now : ℕ) (items : List QueueItem) {r : QueueItem}
    → IsKeyed items
    → select_item now items ≡ some r
    → (find (has_id r.id) items ≡ some r) × (is_eligible now r ≡ true)
select_sound now [] keyed h = unfold select_item in cc
select_sound now (x ∷ xs) {r} keyed h = elim (select-cases now x xs h) [
  | inl (same, due) ↦
      let here : find (has_id x.id) (x ∷ xs) ≡ some x = rw ((str_eq_iff x.id x.id).1 refl) refl in
      subst (λ y. (find (has_id y.id) (x ∷ xs) ≡ some y) × (is_eligible now y ≡ true)) same
        (here, due)
  | inr later ↦
      let (found, due) = select_sound now xs keyed.1 later in (find-later x xs keyed.0 found, due)
]

-- A row that stops to be due is one less that is.
count-set_row :
    (now : ℕ) (i : String) (f : QueueItem → QueueItem) (items : List QueueItem) {r : QueueItem}
    → find (has_id i) items ≡ some r
    → is_eligible now r ≡ true
    → ((r : QueueItem) → is_eligible now (f r) ≡ false)
    → suc (length (filter (is_eligible now) (set_row i f items)))
      ≡ length (filter (is_eligible now) items)
unfolding set_row
count-set_row now i f [] found due stops = cc
count-set_row now i f (x ∷ xs) {r} found due stops = elim (Bool-cases (has_id i x)) [
  | inl e ↦
      let own : is_eligible now x ≡ true = ground (arith, found, e, due) in
      rw (e, stops x, own) refl
  | inr e ↦ rw e (elim (Bool-cases (is_eligible now x)) [
    | inl d ↦ rw d (ap suc (count-set_row now i f xs {r = r} (ground (arith, found, e)) due stops))
    | inr d ↦ rw d (count-set_row now i f xs {r = r} (ground (arith, found, e)) due stops)
  ])
]

poisoned-undue : (now : ℕ) (r : QueueItem) → is_eligible now (poisoned r) ≡ false
poisoned-undue now r = refl

same_time_self : (t : Option ℕ) → same_time t t ≡ true
same_time_self none = refl
same_time_self (some n) = ground arith

-- Where nobody has written since the selection, the guard of the update holds.
eligible-still :
    (now : ℕ) (r : QueueItem) → is_eligible now r ≡ true → still_eligible r now r ≡ true
eligible-still now r h = rw (same_time_self r.available_at) (ground (arith, h))

quarantine-count :
    (now : ℕ) (r : QueueItem) (e : PoisonError) (db : Store)
    → find (has_id r.id) db.items ≡ some r
    → is_eligible now r ≡ true
    → (quarantine now r e db).items ≡ set_row r.id poisoned db.items
unfolding quarantine matches
quarantine-count now r e db found due = rw (found, eligible-still now r due) refl

-- What a worker gets: an item in progress, under its token and with a sound payload, or nothing,
-- and then no item is due.
pub data Served (now : ℕ) (worker token : String) (db : Store) : Option QueueItem → Type 0 where
  nothing_due : select_item now db.items ≡ none → Served now worker token db none
  one_claimed :
      (r : QueueItem)
      → find (has_id r.id) db.items ≡ some r
      → is_in_progress r.status ≡ true
      → r.claim_token ≡ token
      → r.claimed_by ≡ worker
      → payload_error r.payload ≡ none
      → Served now worker token db (some r)

claim-takes :
    (now : ℕ) (worker token : String) (r : QueueItem) (db : Store)
    → find (has_id r.id) db.items ≡ some r
    → is_eligible now r ≡ true
    → claim now worker token r db ≡ (
      some (claimed worker token now r),
      open_attempt r.id token worker now (update_item r.id (claimed worker token now) db),
    )
unfolding claim
claim-takes now worker token r db found due =
    ap ending found ∙ ap (choose r) (eligible-still now r due)
  where
    choose : QueueItem → Bool → Option QueueItem × Store
    choose s held =
        if held
        then (
          some (claimed worker token now s),
          open_attempt r.id token worker now (update_item r.id (claimed worker token now) db),
        )
        else (none, db)

    ending : Option QueueItem → Option QueueItem × Store
    ending o = elim o [ none ↦ (none, db) | some s ↦ choose s (still_eligible r now s) ]

claim-Served :
    (now : ℕ) (worker token : String) (r : QueueItem) (db : Store)
    → find (has_id r.id) db.items ≡ some r
    → is_eligible now r ≡ true
    → payload_error r.payload ≡ none
    → Served now worker token (claim now worker token r db).1 (claim now worker token r db).0
unfolding open_attempt
claim-Served now worker token r db found due sound =
    subst (λ (p : Option QueueItem × Store). Served now worker token p.1 p.0)
      (sym (claim-takes now worker token r db found due))
      (one_claimed (claimed worker token now r)
        (find-set_row r.id (claimed worker token now) (λ r. refl) db.items found) refl refl refl
        sound)

count_due : ℕ → Store → ℕ
count_due now db = length (filter (is_eligible now) db.items)

module _ (fuel now : ℕ) (worker token : String) where
  abbrev IsServed : Option QueueItem × Store → Type 0
  IsServed p = Served now worker token p.1 p.0

  taken : QueueItem → Store → Option PoisonError → Option QueueItem × Store
  taken r db error = elim error [
    | some e ↦ next_from fuel now worker token (quarantine now r e db)
    | none ↦ claim now worker token r db
  ]

  -- A round of the loop that has selected a row.
  round-Served :
      (rest : (v : Store)
        → IsKeyed v.items
        → count_due now v < fuel
        → IsServed (next_from fuel now worker token v))
      (r : QueueItem) (db : Store)
      → IsKeyed db.items
      → count_due now db < suc fuel
      → find (has_id r.id) db.items ≡ some r
      → is_eligible now r ≡ true
      → (error : Option PoisonError) → payload_error r.payload ≡ error
      → IsServed (taken r db error)
  unfolding taken
  round-Served rest r db keyed enough found due none sound =
      claim-Served now worker token r db found due sound
  round-Served rest r db keyed enough found due (some x) _ =
      unfold count_due in
      let same = quarantine-count now r x db found due in
      let fewer = count-set_row now r.id poisoned db.items found due (λ s. refl) in
      rest (quarantine now r x db)
        (subst IsKeyed (sym same) (IsKeyed-set_row r.id poisoned db.items (λ s. refl) keyed))
        (subst (λ rs. length (filter (is_eligible now) rs) < fuel) (sym same)
          (omega (arith, fewer, enough)))

-- With more rounds than due items, the loop finds a sound item or runs out of due items.
next_from-Served :
    (fuel now : ℕ) (worker token : String) (db : Store)
    → IsKeyed db.items
    → count_due now db < fuel
    → IsServed fuel now worker token (next_from fuel now worker token db)
unfolding next_from taken
next_from-Served zero now worker token db keyed enough = absurd (omega (arith, enough))
next_from-Served (suc fuel) now worker token db keyed enough =
    go (λ v k c. next_from-Served fuel now worker token v k c) (select_item now db.items) refl
  where
    go :
        ((v : Store)
          → IsKeyed v.items
          → count_due now v < fuel
          → IsServed fuel now worker token (next_from fuel now worker token v))
        → (o : Option QueueItem) → select_item now db.items ≡ o
        → IsServed fuel now worker token (elim o [
          | none ↦ (none, db)
          | some r ↦ taken fuel now worker token r db (payload_error r.payload)
        ])
    go rest none e = nothing_due e
    go rest (some r) e =
        let (found, due) = select_sound now db.items keyed e in
        round-Served fuel now worker token rest r db keyed enough found due
          (payload_error r.payload) refl

-- `next_item` of a worker that is alone on a queue whose rows have different keys: it returns an item
-- that is now in progress under the worker's name and the drawn token, with a sound payload, or it
-- returns nothing and then no pending item is due. The rounds of its loop are enough, however many
-- malformed items it has to take out first.
pub next_item-Served :
    (policy : QueuePolicy) (now : ℕ) (worker token : String) (db : Store)
    → IsKeyed db.items
    → Served now worker token
        (next_item policy now worker token db).1
        (next_item policy now worker token db).0
unfolding next_item reclaim count_due
next_item-Served policy now worker token db keyed =
    let v = reclaim_rows policy now (filter (is_stale policy.lease_timeout now) db.items) db in
    let Kept : List QueueItem → Type 0 = λ rs. IsKeyed rs × (length rs ≡ length db.items) in
    let kept : Kept v.items =
      reclaim_rows-keeps Kept
        (λ i f items k h. (IsKeyed-set_row i f items k h.0, length-set_row i f items ∙ h.1)) policy
        now (filter (is_stale policy.lease_timeout now) db.items) db (keyed, refl) in
    next_from-Served (length db.items + 1) now worker token v kept.0
      (omega (arith, kept.1, length-filter (is_eligible now) v.items))
