-- ===== src/Persistence/Tables.antt =====
-- Tables with a key: `INSERT`, `INSERT OR IGNORE` and `DELETE`, and their view through a selection.
pub mod Keyed
use rpacore.Base.{
  ◌≡◌, refl, sym, ap, ◌∙◌, subst, inl, inr, Bool, true, false, not, List, [], ◌∷◌, ◌++◌, arith, All,
  Bool-cases, any, filter, find, update_where, Option, none, some, if◌then◌else◌,
}
use rpacore.Exceptions.{sqlite_error}
use rpacore.Exec.{Result, ok, err}

module _ {ℓ} {A : Type ℓ} where
  -- `INSERT`, which the primary key or a `UNIQUE` clause may refuse.
  unfoldable pub insert_all : (A → A → Bool) → List A → List A → Result (List A)
  insert_all clash [] rows = ok rows
  insert_all clash (a ∷ as') rows =
      let rest = insert_all clash as' (rows ++ (a ∷ [])) in
      if any (clash a) rows then err sqlite_error else rest

  -- `INSERT OR IGNORE`
  abbrev pub insert_ignore : (A → A → Bool) → A → List A → List A
  insert_ignore clash a rows = if any (clash a) rows then rows else rows ++ (a ∷ [])

  unfoldable pub insert_ignore_all : (A → A → Bool) → List A → List A → List A
  insert_ignore_all clash [] rows = rows
  insert_ignore_all clash (a ∷ as') rows = insert_ignore_all clash as' (insert_ignore clash a rows)

  -- `DELETE … WHERE p`
  abbrev pub delete_where : (A → Bool) → List A → List A
  delete_where p rows = filter (λ a. not (p a)) rows

  pub append_nil : (xs : List A) → xs ++ [] ≡ xs
  append_nil [] = refl
  append_nil (x ∷ xs) = ap (λ (r : List A). x ∷ r) (append_nil xs)

  pub append_assoc : (xs ys zs : List A) → (xs ++ ys) ++ zs ≡ xs ++ (ys ++ zs)
  append_assoc [] ys zs = refl
  append_assoc (x ∷ xs) ys zs = ap (λ (r : List A). x ∷ r) (append_assoc xs ys zs)

  pub filter-append :
      (p : A → Bool) (xs ys : List A) → filter p (xs ++ ys) ≡ filter p xs ++ filter p ys
  filter-append p [] ys = refl
  filter-append p (x ∷ xs) ys = elim (Bool-cases (p x)) [
    | inl e ↦ rw (e, filter-append p xs ys) refl
    | inr e ↦ rw (e, filter-append p xs ys) refl
  ]

  pub filter-All : (p : A → Bool) (xs : List A) → All (λ a. p a ≡ true) xs → filter p xs ≡ xs
  filter-All p [] h = refl
  filter-All p (x ∷ xs) h = rw (h.0, filter-All p xs h.1) refl

  pub filter-none : (p : A → Bool) (xs : List A) → All (λ a. p a ≡ false) xs → filter p xs ≡ []
  filter-none p [] h = refl
  filter-none p (x ∷ xs) h = rw (h.0, filter-none p xs h.1) refl

  pub filter-delete_where : (p : A → Bool) (xs : List A) → filter p (delete_where p xs) ≡ []
  filter-delete_where p [] = refl
  filter-delete_where p (x ∷ xs) = elim (Bool-cases (p x)) [
    | inl e ↦ rw e (filter-delete_where p xs)
    | inr e ↦ rw (e, e) (filter-delete_where p xs)
  ]

  -- A selection that the deleted rows are not in.
  pub filter-delete_where_other :
      (p q : A → Bool) (xs : List A)
      → ((a : A) → p a ≡ true → q a ≡ false)
      → filter q (delete_where p xs) ≡ filter q xs
  filter-delete_where_other p q [] h = refl
  filter-delete_where_other p q (x ∷ xs) h = elim (Bool-cases (p x)) [
    | inl e ↦ rw (e, h x e) (filter-delete_where_other p q xs h)
    | inr e ↦ elim (Bool-cases (q x)) [
      | inl k ↦ rw (e, k, filter-delete_where_other p q xs h) refl
      | inr k ↦ rw (e, k) (filter-delete_where_other p q xs h)
    ]
  ]

  -- Rows that are inserted stand behind those that were there.
  pub insert_all_sound :
      (clash : A → A → Bool) (as' rows : List A) {out : List A}
      → insert_all clash as' rows ≡ ok out
      → out ≡ rows ++ as'
  unfolding insert_all
  insert_all_sound clash [] rows {out} h = elim_ok h ∙ sym (append_nil rows)
    where
      value : Result (List A) → List A
      value (ok xs) = xs
      value (err e) = rows

      elim_ok : (ok rows ≡ ok out) → out ≡ rows
      elim_ok e = sym (ap value e)
  insert_all_sound clash (a ∷ as') rows {out} h = elim (Bool-cases (any (clash a) rows)) [
    | inl e ↦ cc (subst (λ b. taken b ≡ ok out) e h)
    | inr e ↦
        insert_all_sound clash as' (rows ++ (a ∷ [])) (subst (λ b. taken b ≡ ok out) e h)
        ∙ append_assoc rows (a ∷ []) as'
  ]
    where
      taken : Bool → Result (List A)
      taken b = if b then err sqlite_error else insert_all clash as' (rows ++ (a ∷ []))

  any-filter :
      (p q : A → Bool) (xs : List A)
      → ((b : A) → q b ≡ true → p b ≡ true)
      → any q (filter p xs) ≡ any q xs
  any-filter p q [] h = refl
  any-filter p q (x ∷ xs) h = ground (arith, any-filter p q xs h, h x)

  -- Ignored or not, new rows of a selection are inserted into the selection, where only rows of the
  -- selection can clash with them.
  pub filter-insert_ignore_all :
      (p : A → Bool) (clash : A → A → Bool) (as' rows : List A)
      → ((a b : A) → p a ≡ true → clash a b ≡ true → p b ≡ true)
      → All (λ a. p a ≡ true) as'
      → filter p (insert_ignore_all clash as' rows) ≡ insert_ignore_all clash as' (filter p rows)
  unfolding insert_ignore_all
  filter-insert_ignore_all p clash [] rows own h = refl
  filter-insert_ignore_all p clash (a ∷ as') rows own h =
      filter-insert_ignore_all p clash as' (insert_ignore clash a rows) own h.1
      ∙ ap (insert_ignore_all clash as') one
    where
      same : any (clash a) (filter p rows) ≡ any (clash a) rows
      same = any-filter p (clash a) rows (λ b. own a b h.0)

      one : filter p (insert_ignore clash a rows) ≡ insert_ignore clash a (filter p rows)
      one = elim (Bool-cases (any (clash a) rows)) [
        | inl e ↦ rw (same, e) refl
        | inr e ↦
            rw (same, e)
              (filter-append p rows (a ∷ [])
                ∙ ap (λ (r : List A). filter p rows ++ r) (filter-All p (a ∷ []) (h.0, tt)))
      ]

  -- New rows outside a selection leave it as it is.
  pub filter-insert_ignore_all_other :
      (p : A → Bool) (clash : A → A → Bool) (as' rows : List A)
      → All (λ a. p a ≡ false) as'
      → filter p (insert_ignore_all clash as' rows) ≡ filter p rows
  unfolding insert_ignore_all
  filter-insert_ignore_all_other p clash [] rows h = refl
  filter-insert_ignore_all_other p clash (a ∷ as') rows h =
      filter-insert_ignore_all_other p clash as' (insert_ignore clash a rows) h.1 ∙ one
    where
      one : filter p (insert_ignore clash a rows) ≡ filter p rows
      one = elim (Bool-cases (any (clash a) rows)) [
        | inl e ↦ rw e refl
        | inr e ↦ rw e (
            filter-append p rows (a ∷ [])
            ∙ ap (λ (r : List A). filter p rows ++ r) (filter-none p (a ∷ []) (h.0, tt))
            ∙ append_nil (filter p rows))
      ]

  -- The rows of a selection after it was deleted and inserted again, and those of another one.
  pub filter-replaced :
      (p : A → Bool) (clash : A → A → Bool) (as' rows : List A) {out : List A}
      → All (λ a. p a ≡ true) as'
      → insert_all clash as' (delete_where p rows) ≡ ok out
      → filter p out ≡ as'
  filter-replaced p clash as' rows h e =
      ap (filter p) (insert_all_sound clash as' (delete_where p rows) e)
      ∙ filter-append p (delete_where p rows) as'
      ∙ ap (λ (r : List A). r ++ filter p as') (filter-delete_where p rows)
      ∙ filter-All p as' h

  pub filter-replaced_other :
      (p q : A → Bool) (clash : A → A → Bool) (as' rows : List A) {out : List A}
      → ((a : A) → p a ≡ true → q a ≡ false)
      → All (λ a. q a ≡ false) as'
      → insert_all clash as' (delete_where p rows) ≡ ok out
      → filter q out ≡ filter q rows
  filter-replaced_other p q clash as' rows apart h e =
      ap (filter q) (insert_all_sound clash as' (delete_where p rows) e)
      ∙ filter-append q (delete_where p rows) as'
      ∙ ap (λ (r : List A). filter q (delete_where p rows) ++ r) (filter-none q as' h)
      ∙ append_nil (filter q (delete_where p rows))
      ∙ filter-delete_where_other p q rows apart

  abbrev pub or_new : A → Option A → A
  or_new a none = a
  or_new a (some b) = b
