-- ===== src/Queue/Fifo.antt =====
-- The queue is served in the order of `created_at`, and of the ids where those are the same.
use rpacore.Base.{
  text_before, text_before-total, text_before_trans, ℕ, ◌≡◌, refl, subst, inl, inr, Bool, true,
  false, ◌&&◌, List, [], ◌∷◌, Option, none, some, arith, All, codes, Bool-cases, if◌then◌else◌,
}
use rpacore.Queue.Rows.{QueueItem}
use rpacore.Queue.Delivery.{is_eligible, item_before, first_of, select_item}

-- `a` is before `b` by a first key, and by a second where the first does not tell them apart.
abbrev by_keys : Bool → Bool → Bool → Bool
by_keys before after ids = if before && after then ids else before

ids_decide : (after : Bool) {ids : Bool} → by_keys true after ids ≡ true → after ≡ true → ids ≡ true
ids_decide true h e = h
ids_decide false h e = cc

item_before-total : (a b : QueueItem) → item_before a b ≡ false → item_before b a ≡ true
unfolding item_before
item_before-total a b h =
    go (text_before (codes a.created_at) (codes b.created_at))
      (text_before (codes b.created_at) (codes a.created_at))
      (text_before-total (codes a.created_at) (codes b.created_at))
      (text_before-total (codes a.id) (codes b.id)) h
  where
    go :
        (ab ba : Bool) {i j : Bool}
        → (ab ≡ false → ba ≡ true)
        → (i ≡ false → j ≡ true)
        → by_keys ab ba i ≡ false
        → by_keys ba ab j ≡ true
    go true true total ids h = ids h
    go true false total ids h = cc
    go false true total ids h = refl
    go false false total ids h = cc (total refl)

item_before_trans :
    (a b c : QueueItem) → item_before a b ≡ true → item_before b c ≡ true → item_before a c ≡ true
unfolding item_before
item_before_trans a b c h k =
    let ca = codes a.created_at in
    let cb = codes b.created_at in
    let cc' = codes c.created_at in
    go (text_before ca cb) (text_before cb ca) (text_before cb cc') (text_before cc' cb)
      (text_before ca cc') (text_before cc' ca) (text_before_trans ca cb cc')
      (text_before_trans cb cc' ca) (text_before_trans cc' ca cb)
      (text_before_trans (codes a.id) (codes b.id) (codes c.id)) h k
  where
    go :
        (ab ba bc cb ac ca : Bool) {i j l : Bool}
        → (ab ≡ true → bc ≡ true → ac ≡ true)
        → (bc ≡ true → ca ≡ true → ba ≡ true)
        → (ca ≡ true → ab ≡ true → cb ≡ true)
        → (i ≡ true → j ≡ true → l ≡ true)
        → by_keys ab ba i ≡ true
        → by_keys bc cb j ≡ true
        → by_keys ac ca l ≡ true
    go false ba bc cb ac ca t1 t2 t3 ids h k = cc
    go true ba false cb ac ca t1 t2 t3 ids h k = cc
    go true ba true cb ac false t1 t2 t3 ids h k = rw (t1 refl refl) refl
    go true ba true cb ac true t1 t2 t3 ids h k =
        rw (t1 refl refl) (ids (ids_decide ba h (t2 refl refl)) (ids_decide cb k (t3 refl refl)))

some_injective : {a b : QueueItem} → some a ≡ some b → a ≡ b
some_injective {a} {b} h = cc h

-- The row stands before all that are due.
pub IsFirst : ℕ → QueueItem → List QueueItem → Type 0
IsFirst now r = All (λ s. is_eligible now s ≡ true → item_before r s ≡ true)

IsFirst-trans :
    (now : ℕ) (a b : QueueItem) (items : List QueueItem)
    → item_before a b ≡ true
    → IsFirst now b items
    → IsFirst now a items
unfolding IsFirst
IsFirst-trans now a b [] h all = tt
IsFirst-trans now a b (s ∷ ss) h all =
    (λ due. item_before_trans a b s h (all.0 due), IsFirst-trans now a b ss h all.1)

item_before_self : (a : QueueItem) → item_before a a ≡ true
item_before_self a = elim (Bool-cases (item_before a a)) [
  | inl e ↦ e
  | inr e ↦ item_before-total a a e
]

none-IsFirst :
    (now : ℕ) (r : QueueItem) (items : List QueueItem)
    → select_item now items ≡ none
    → IsFirst now r items
unfolding select_item IsFirst
none-IsFirst now r [] h = tt
none-IsFirst now r (s ∷ ss) h = elim (Bool-cases (is_eligible now s)) [
  | inl e ↦ absurd (ground (arith, h, e))
  | inr e ↦ (λ due. absurd (contradiction due e), none-IsFirst now r ss (ground (arith, h, e)))
]
  where
    contradiction : is_eligible now s ≡ true → is_eligible now s ≡ false → ⊥
    contradiction a b = cc

pub IsOldest : ℕ → QueueItem → List QueueItem → Type 0
IsOldest now r items = (is_eligible now r ≡ true) × IsFirst now r items

-- The first of a due row and of the first of the others.
first_of-IsOldest :
    (now : ℕ) (x s : QueueItem) (xs : List QueueItem)
    → is_eligible now x ≡ true
    → IsOldest now s xs
    → IsOldest now (if item_before x s then x else s) (x ∷ xs)
unfolding IsOldest IsFirst
first_of-IsOldest now x s xs due oldest = go (item_before x s) refl
  where
    go : (b : Bool) → item_before x s ≡ b → IsOldest now (if b then x else s) (x ∷ xs)
    go true e = (due, (λ _. item_before_self x, IsFirst-trans now x s xs e oldest.1))
    go false e = (oldest.0, (λ _. item_before-total x s e, oldest.1))

round-IsOldest :
    (now : ℕ) (x : QueueItem) (xs : List QueueItem) (due : Bool) (rest : Option QueueItem)
    (r : QueueItem)
    → is_eligible now x ≡ due
    → ((s : QueueItem) → rest ≡ some s → IsOldest now s xs)
    → (rest ≡ none → IsFirst now x xs)
    → (if due then some (first_of x rest) else rest) ≡ some r
    → IsOldest now r (x ∷ xs)
unfolding IsOldest IsFirst
round-IsOldest now x xs false rest r e later alone h =
    let oldest = later r h in (oldest.0, (λ due. absurd (contradiction due e), oldest.1))
  where
    contradiction : is_eligible now x ≡ true → is_eligible now x ≡ false → ⊥
    contradiction a b = cc
round-IsOldest now x xs true none r e later alone h =
    subst (λ y. IsOldest now y (x ∷ xs)) (some_injective h)
      (unfold IsOldest in (e, (λ _. item_before_self x, alone refl)))
round-IsOldest now x xs true (some s) r e later alone h =
    subst (λ y. IsOldest now y (x ∷ xs)) (some_injective h)
      (first_of-IsOldest now x s xs e (later s refl))

-- The item that `next_item` selects is due, and no due item stands before it in the order of
-- creation times and ids.
pub select_item-IsOldest :
    (now : ℕ) (items : List QueueItem) (r : QueueItem)
    → select_item now items ≡ some r
    → IsOldest now r items
unfolding select_item
select_item-IsOldest now [] r h = cc
select_item-IsOldest now (x ∷ xs) r h =
    round-IsOldest now x xs (is_eligible now x) (select_item now xs) r refl
      (λ s e. select_item-IsOldest now xs s e) (λ e. none-IsFirst now x xs e) h
