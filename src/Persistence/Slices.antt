-- ===== src/Persistence/Slices.antt =====
-- Slices of the rows that a query fetches, which are one more than its limit.
use rpacore.Base.{
  ℕ, zero, suc, ◌+◌, ◌≡◌, refl, ap, inl, inr, Bool, true, List, [], ◌∷◌, ◌++◌, arith, Bool-cases,
  leb, ltb, filter, length, first_rows, later_rows, last_row,
}

module _ {ℓ} {A : Type ℓ} where
  pub first_rows-fetched :
      (n : ℕ) (xs : List A) → first_rows n (first_rows (suc n) xs) ≡ first_rows n xs
  first_rows-fetched zero xs = refl
  first_rows-fetched (suc n) [] = refl
  first_rows-fetched (suc n) (x ∷ xs) = ap (λ (r : List A). x ∷ r) (first_rows-fetched n xs)

  pub ltb-fetched :
      (n : ℕ) (xs : List A) → ltb n (length (first_rows (suc n) xs)) ≡ ltb n (length xs)
  ltb-fetched zero [] = refl
  ltb-fetched zero (x ∷ xs) = ground arith
  ltb-fetched (suc n) [] = refl
  ltb-fetched (suc n) (x ∷ xs) = ground (arith, ltb-fetched n xs)

  pub ltb-later_rows :
      (k l : ℕ) (xs : List A)
      → ltb k (length xs) ≡ true
      → ltb (k + l) (length xs) ≡ ltb l (length (later_rows k xs))
  ltb-later_rows zero l xs h = ap (λ (m : ℕ). ltb m (length xs)) (omega arith)
  ltb-later_rows (suc k) l [] h = ground (arith, h)
  ltb-later_rows (suc k) l (x ∷ xs) h = ground (arith, h, ltb-later_rows k l xs)

  last_row-append :
      (xs : List A) (y : A) (ys : List A) → last_row (xs ++ (y ∷ ys)) ≡ last_row (y ∷ ys)
  last_row-append [] y ys = refl
  last_row-append (x ∷ []) y ys = refl
  last_row-append (x ∷ z ∷ xs) y ys = last_row-append (z ∷ xs) y ys

  -- The last row of two pages, where the second one has rows.
  pub last_row-pages :
      (xs : List A) (l : ℕ) (ys : List A)
      → leb 1 l ≡ true
      → ltb l (length ys) ≡ true
      → last_row (xs ++ first_rows l ys) ≡ last_row (first_rows l ys)
  last_row-pages xs zero ys h k = ground (arith, h)
  last_row-pages xs (suc l) [] h k = ground (arith, k)
  last_row-pages xs (suc l) (y ∷ ys) h k = last_row-append xs y (first_rows l ys)

  pub filter-filter :
      (p q : A → Bool) (xs : List A)
      → ((a : A) → q a ≡ true → p a ≡ true)
      → filter q (filter p xs) ≡ filter q xs
  filter-filter p q [] h = refl
  filter-filter p q (x ∷ xs) h = elim (Bool-cases (q x)) [
    | inl e ↦ rw (h x e, e, filter-filter p q xs h) refl
    | inr e ↦ elim (Bool-cases (p x)) [
      | inl k ↦ rw (k, e) (filter-filter p q xs h)
      | inr k ↦ rw (k, e) (filter-filter p q xs h)
    ]
  ]

  pub filter_same :
      (p q : A → Bool) (xs : List A) → ((a : A) → p a ≡ q a) → filter p xs ≡ filter q xs
  filter_same p q [] h = refl
  filter_same p q (x ∷ xs) h = rw (h x, filter_same p q xs h) refl
