-- ===== src/Persistence/Tables/Keyed.antt =====
-- The row that is found under a key, behind an insertion and behind an update.
use rpacore.Base.{
  ◌≡◌, refl, inl, inr, Bool, true, false, List, [], ◌∷◌, ◌++◌, arith, Bool-cases, any, find,
  update_where, none, some,
}
use rpacore.Persistence.Tables.{insert_ignore, or_new}

module _ {ℓ} {A : Type ℓ} where
  any-false : (p : A → Bool) (xs : List A) → any p xs ≡ false → find p xs ≡ none
  any-false p [] h = refl
  any-false p (x ∷ xs) h = ground (arith, any-false p xs)

  find-append : (p : A → Bool) (xs ys : List A) → find p xs ≡ none → find p (xs ++ ys) ≡ find p ys
  find-append p [] ys h = refl
  find-append p (x ∷ xs) ys h = ground (arith, find-append p xs ys)

  any-true : (p : A → Bool) (xs : List A) → any p xs ≡ true → (a : A) × (find p xs ≡ some a)
  any-true p [] h = cc
  any-true p (x ∷ xs) h = elim (Bool-cases (p x)) [
    | inl e ↦ (x, rw e refl)
    | inr e ↦ let (a, k) = any-true p xs (ground (arith, e, h)) in (a, rw e k)
  ]

  -- A new row is found under its key, unless another one was there.
  pub find-insert_ignore :
      (p : A → Bool) (clash : A → A → Bool) (a : A) (rows : List A)
      → ((b : A) → clash a b ≡ p b)
      → p a ≡ true
      → find p (insert_ignore clash a rows) ≡ some (or_new a (find p rows))
  find-insert_ignore p clash a rows same own = elim (Bool-cases (any p rows)) [
    | inl e ↦ let (b, k) = any-true p rows e in rw (anys rows, e, k) refl
    | inr e ↦
        rw (anys rows, e, find-append p rows (a ∷ []) (any-false p rows e), any-false p rows e, own)
          refl
  ]
    where
      anys : (xs : List A) → any (clash a) xs ≡ any p xs
      anys [] = refl
      anys (x ∷ xs) = rw (same x, anys xs) refl

  pub find-insert_ignore_other :
      (q : A → Bool) (clash : A → A → Bool) (a : A) (rows : List A)
      → q a ≡ false
      → find q (insert_ignore clash a rows) ≡ find q rows
  find-insert_ignore_other q clash a rows h = elim (Bool-cases (any (clash a) rows)) [
    | inl e ↦ rw e refl
    | inr e ↦ rw e (end rows)
  ]
    where
      end : (xs : List A) → find q (xs ++ (a ∷ [])) ≡ find q xs
      end [] = rw h refl
      end (x ∷ xs) = rw (end xs) refl

  -- The updated row is found under its key, and the others are as they were.
  pub find-update_where :
      (p : A → Bool) (f : A → A) (rows : List A) {a : A}
      → ((b : A) → p (f b) ≡ p b)
      → find p rows ≡ some a
      → find p (update_where p f rows) ≡ some (f a)
  find-update_where p f [] keeps h = cc
  find-update_where p f (x ∷ xs) {a} keeps h =
      ground (arith, h, keeps x, find-update_where p f xs {a = a} keeps)

  pub find-update_where_other :
      (p q : A → Bool) (f : A → A) (rows : List A)
      → ((b : A) → q (f b) ≡ q b)
      → ((b : A) → p b ≡ true → q b ≡ false)
      → find q (update_where p f rows) ≡ find q rows
  find-update_where_other p q f [] keeps apart = refl
  find-update_where_other p q f (x ∷ xs) keeps apart = elim (Bool-cases (p x)) [
    | inl e ↦ rw (e, keeps x, apart x e) (find-update_where_other p q f xs keeps apart)
    | inr e ↦ rw (e, find-update_where_other p q f xs keeps apart) refl
  ]
