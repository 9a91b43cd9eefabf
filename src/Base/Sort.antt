-- ===== src/Base/Sort.antt =====
-- `ORDER BY` as an insertion sort that keeps rows which compare equal in their order.
use mathlib.Core.Path.{◌≡◌, refl}
use mathlib.Core.Logic.{inl, inr}
use mathlib.Core.Bool.{Bool, true}
use mathlib.Core.List.{List, [], ◌∷◌, map}
use rpacore.Base.Tests.{if◌then◌else◌, Bool-cases}
use rpacore.Base.Lists.{All}

module _ {ℓ} {A : Type ℓ} where
  abbrev pub insert_by : (A → A → Bool) → A → List A → List A
  insert_by before a [] = a ∷ []
  insert_by before a (b ∷ bs) =
      let rest = insert_by before a bs in if before a b then a ∷ b ∷ bs else b ∷ rest

  abbrev pub sort_by : (A → A → Bool) → List A → List A
  sort_by before [] = []
  sort_by before (a ∷ as') = insert_by before a (sort_by before as')

  -- Each row is before every later one.
  abbrev pub IsSortedBy : (A → A → Bool) → List A → Type 0
  IsSortedBy before [] = Unit
  IsSortedBy before (a ∷ as') = All (λ b. before a b ≡ true) as' × IsSortedBy before as'

  pub insert_by-first :
      (before : A → A → Bool) (a : A) (bs : List A)
      → All (λ b. before a b ≡ true) bs
      → insert_by before a bs ≡ a ∷ bs
  insert_by-first before a [] h = refl
  insert_by-first before a (b ∷ bs) h = rw h.0 refl

  pub sort_by-IsSortedBy :
      (before : A → A → Bool) (as' : List A) → IsSortedBy before as' → sort_by before as' ≡ as'
  sort_by-IsSortedBy before [] h = refl
  sort_by-IsSortedBy before (a ∷ as') h =
      rw (sort_by-IsSortedBy before as' h.1) (insert_by-first before a as' h.0)

module _ {ℓ κ} {A : Type ℓ} {B : Type κ} (before : A → A → Bool) (under : B → B → Bool) (f : A → B)
    (same : (a b : A) → under (f a) (f b) ≡ before a b) where
  map-insert_by :
      (a : A) (bs : List A) → map f (insert_by before a bs) ≡ insert_by under (f a) (map f bs)
  map-insert_by a [] = refl
  map-insert_by a (b ∷ bs) = elim (Bool-cases (before a b)) [
    | inl e ↦ rw (same a b, e) refl
    | inr e ↦ rw (same a b, e, map-insert_by a bs) refl
  ]

  -- Sorting commutes with a map that keeps the comparison.
  pub map-sort_by : (as' : List A) → map f (sort_by before as') ≡ sort_by under (map f as')
  map-sort_by [] = refl
  map-sort_by (a ∷ as') = rw (map-insert_by a (sort_by before as'), map-sort_by as') refl
