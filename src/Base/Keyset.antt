-- ===== src/Base/Keyset.antt =====
-- Rows behind a key: what `WHERE key > ?` selects of an ordered list, against its slices.
use Prim.Native.Nat.{ℕ, zero, suc, ◌+◌}
use mathlib.Core.Path.{◌≡◌, refl, ap, ◌∙◌, subst}
use mathlib.Core.Logic.{inl, inr}
use mathlib.Core.Bool.{Bool, true, false, not, ◌&&◌}
use mathlib.Core.Option.{Option, none, some}
use mathlib.Core.List.{List, [], ◌∷◌, ◌++◌}
use native.Mathlib.Omega.{arith}
use rpacore.Base.Tests.{if◌then◌else◌, Bool-cases}
use rpacore.Base.Lists.{All, filter}
use rpacore.Base.Sort.{insert_by, sort_by, IsSortedBy, insert_by-first}

module _ {ℓ} {A : Type ℓ} where
  -- `rows[:n]` and `rows[n:]`
  abbrev pub first_rows : ℕ → List A → List A
  first_rows (suc n) (x ∷ xs) = x ∷ first_rows n xs
  first_rows _ _ = []

  abbrev pub later_rows : ℕ → List A → List A
  later_rows (suc n) (x ∷ xs) = later_rows n xs
  later_rows _ xs = xs

  -- `rows[-1]`
  abbrev pub last_row : List A → Option A
  last_row [] = none
  last_row (x ∷ []) = some x
  last_row (x ∷ y ∷ ys) = last_row (y ∷ ys)

  pub filter_sound : (q : A → Bool) (xs : List A) → All (λ a. q a ≡ true) (filter q xs)
  filter_sound q [] = tt
  filter_sound q (x ∷ xs) = elim (Bool-cases (q x)) [
    | inl e ↦ rw (e, e) (refl, filter_sound q xs)
    | inr e ↦ rw e (filter_sound q xs)
  ]

  pub All-filter : (P : A → Type 0) (q : A → Bool) (xs : List A) → All P xs → All P (filter q xs)
  All-filter P q [] h = tt
  All-filter P q (x ∷ xs) h = elim (Bool-cases (q x)) [
    | inl e ↦ rw e (h.0, All-filter P q xs h.1)
    | inr e ↦ rw e (All-filter P q xs h.1)
  ]

  pub some_injective : {a b : A} → some a ≡ some b → a ≡ b
  some_injective {a} {b} h = cc h

  pub All-last_row :
      (P : A → Type 0) (n : ℕ) (xs : List A) {x : A}
      → All P xs
      → last_row (first_rows n xs) ≡ some x
      → P x
  All-last_row P zero xs h e = cc
  All-last_row P (suc n) [] h e = cc
  All-last_row P (suc zero) (a ∷ xs) h e = subst P (some_injective e) h.0
  All-last_row P (suc (suc n)) (a ∷ []) h e = subst P (some_injective e) h.0
  All-last_row P (suc (suc n)) (a ∷ b ∷ xs) h e = All-last_row P (suc n) (b ∷ xs) h.1 e

  pub first_rows-append :
      (k l : ℕ) (xs : List A)
      → first_rows k xs ++ first_rows l (later_rows k xs) ≡ first_rows (k + l) xs
  first_rows-append zero l xs = ap (λ (m : ℕ). first_rows m xs) (omega arith)
  first_rows-append (suc k) zero [] =
      ap (λ (m : ℕ). first_rows m []) {x = suc (k + zero)} (omega arith)
  first_rows-append (suc k) (suc l) [] =
      ap (λ (m : ℕ). first_rows m []) {x = suc (k + suc l)} (omega arith)
  first_rows-append (suc k) l (x ∷ xs) =
      ap (λ (r : List A). x ∷ r) (first_rows-append k l xs)
      ∙ ap (λ (m : ℕ). first_rows m (x ∷ xs)) {x = suc (k + l)} (omega arith)

module _ {ℓ} {A : Type ℓ} (before : A → A → Bool) where
  All-insert_by :
      (P : A → Type 0) (a : A) (bs : List A) → P a → All P bs → All P (insert_by before a bs)
  All-insert_by P a [] h all = (h, tt)
  All-insert_by P a (b ∷ bs) h all = elim (Bool-cases (before a b)) [
    | inl e ↦ rw e (h, all)
    | inr e ↦ rw e (all.0, All-insert_by P a bs h all.1)
  ]

  pub All-sort_by : (P : A → Type 0) (as' : List A) → All P as' → All P (sort_by before as')
  All-sort_by P [] h = tt
  All-sort_by P (a ∷ as') h = All-insert_by P a (sort_by before as') h.0 (All-sort_by P as' h.1)

  -- No two rows have the same key.
  abbrev pub IsApart : List A → Type 0
  IsApart [] = Unit
  IsApart (a ∷ as') = All (λ b. (before a b && before b a) ≡ false) as' × IsApart as'

  pub filter-IsApart : (q : A → Bool) (as' : List A) → IsApart as' → IsApart (filter q as')
  filter-IsApart q [] h = tt
  filter-IsApart q (a ∷ as') h = elim (Bool-cases (q a)) [
    | inl e ↦
        rw e
          (All-filter (λ b. (before a b && before b a) ≡ false) q as' h.0, filter-IsApart q as' h.1)
    | inr e ↦ rw e (filter-IsApart q as' h.1)
  ]

  filter-behind :
      (a : A) (xs : List A)
      → All (λ b. before a b ≡ true) xs
      → All (λ b. (before a b && before b a) ≡ false) xs
      → filter (λ y. not (before y a)) xs ≡ xs
  filter-behind a [] h k = refl
  filter-behind a (x ∷ xs) h k = rw (behind, filter-behind a xs h.1 k.1) refl
    where
      behind : before x a ≡ false
      behind = ground (arith, h.0, k.0)

-- A total order of the rows, in which `before` may hold between equal keys.
module _ {ℓ} {A : Type ℓ} (before : A → A → Bool)
    (total : (a b : A) → before a b ≡ false → before b a ≡ true)
    (trans : (a b c : A) → before a b ≡ true → before b c ≡ true → before a c ≡ true) where
  All-before :
      (a b : A) (xs : List A)
      → before a b ≡ true
      → All (λ c. before b c ≡ true) xs
      → All (λ c. before a c ≡ true) xs
  All-before a b [] h all = tt
  All-before a b (x ∷ xs) h all = (trans a b x h all.0, All-before a b xs h all.1)

  insert_by-Sorted :
      (a : A) (bs : List A) → IsSortedBy before bs → IsSortedBy before (insert_by before a bs)
  insert_by-Sorted a [] h = (tt, tt)
  insert_by-Sorted a (b ∷ bs) h = elim (Bool-cases (before a b)) [
    | inl e ↦ rw e ((e, All-before a b bs e h.0), h)
    | inr e ↦ rw e (
      All-insert_by before (λ c. before b c ≡ true) a bs (total a b e) h.0,
      insert_by-Sorted a bs h.1,
    )
  ]

  pub sort_by-Sorted : (as' : List A) → IsSortedBy before (sort_by before as')
  sort_by-Sorted [] = tt
  sort_by-Sorted (a ∷ as') = insert_by-Sorted a (sort_by before as') (sort_by-Sorted as')

  filter-insert_by :
      (q : A → Bool) (a : A) (bs : List A)
      → IsSortedBy before bs
      → filter q (insert_by before a bs)
        ≡ (if q a then insert_by before a (filter q bs) else filter q bs)
  filter-insert_by q a [] h = refl
  filter-insert_by q a (b ∷ bs) h = elim (Bool-cases (before a b)) [
    | inl e ↦ elim (Bool-cases (q a)) [
      | inl k ↦
          rw
            (
              e,
              k,
              insert_by-first before a (filter q (b ∷ bs))
                  (All-filter (λ c. before a c ≡ true) q (b ∷ bs) (e, All-before a b bs e h.0)),
            )
            refl
      | inr k ↦ rw (e, k) refl
    ]
    | inr e ↦ elim (Bool-cases (q b)) [
      | inl k ↦ elim (Bool-cases (q a)) [
        | inl j ↦ rw (e, k, j, filter-insert_by q a bs h.1, j, e) refl
        | inr j ↦ rw (e, k, j, filter-insert_by q a bs h.1, j) refl
      ]
      | inr k ↦ rw (e, k) (filter-insert_by q a bs h.1)
    ]
  ]

  pub filter-sort_by :
      (q : A → Bool) (as' : List A) → filter q (sort_by before as') ≡ sort_by before (filter q as')
  filter-sort_by q [] = refl
  filter-sort_by q (a ∷ as') = elim (Bool-cases (q a)) [
    | inl e ↦ rw (placed, e, filter-sort_by q as') refl
    | inr e ↦ rw (placed, e) (filter-sort_by q as')
  ]
    where
      placed : filter q (insert_by before a (sort_by before as')) ≡ (
          if q a
          then insert_by before a (filter q (sort_by before as'))
          else filter q (sort_by before as'))
      placed = filter-insert_by q a (sort_by before as') (sort_by-Sorted as')

  insert_by-IsApart :
      (a : A) (bs : List A)
      → All (λ b. (before a b && before b a) ≡ false) bs
      → IsApart before bs
      → IsApart before (insert_by before a bs)
  insert_by-IsApart a [] h k = (tt, tt)
  insert_by-IsApart a (b ∷ bs) h k = elim (Bool-cases (before a b)) [
    | inl e ↦ rw e (h, k)
    | inr e ↦ rw e (
      All-insert_by before (λ c. (before b c && before c b) ≡ false) a bs (flipped (h.0)) k.0,
      insert_by-IsApart a bs h.1 k.1,
    )
  ]
    where
      flipped : ((before a b && before b a) ≡ false) → (before b a && before a b) ≡ false
      flipped e = ground (arith, e)

  pub sort_by-IsApart : (as' : List A) → IsApart before as' → IsApart before (sort_by before as')
  sort_by-IsApart [] h = tt
  sort_by-IsApart (a ∷ as') h =
      insert_by-IsApart a (sort_by before as')
        (All-sort_by before (λ b. (before a b && before b a) ≡ false) as' h.0)
        (sort_by-IsApart as' h.1)

  before_self : (a : A) → before a a ≡ true
  before_self a = elim (Bool-cases (before a a)) [ inl e ↦ e | inr e ↦ total a a e ]

  -- Of an ordered list with different keys, the rows behind the last one of the first rows are the
  -- other rows.
  pub behind_last :
      (n : ℕ) (xs : List A) {x : A}
      → IsSortedBy before xs
      → IsApart before xs
      → last_row (first_rows n xs) ≡ some x
      → filter (λ y. not (before y x)) xs ≡ later_rows n xs
  behind_last zero xs h k e = cc
  behind_last (suc n) [] h k e = cc
  behind_last (suc zero) (a ∷ xs) {x} h k e =
      subst (λ y. filter (λ z. not (before z y)) (a ∷ xs) ≡ xs) (some_injective e)
        (rw (before_self a) (filter-behind before a xs h.0 k.0))
  behind_last (suc (suc n)) (a ∷ []) {x} h k e =
      subst (λ y. filter (λ z. not (before z y)) (a ∷ []) ≡ []) (some_injective e)
        (rw (before_self a) refl)
  behind_last (suc (suc n)) (a ∷ b ∷ xs) {x} h k e =
      rw (All-last_row (λ c. before a c ≡ true) (suc n) (b ∷ xs) {x = x} h.0 e)
        (behind_last (suc n) (b ∷ xs) {x = x} h.1 k.1 e)
