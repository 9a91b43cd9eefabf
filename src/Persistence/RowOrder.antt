-- ===== src/Persistence/RowOrder.antt =====
-- The order of `query_transactions`, and the rows behind a cursor.
use rpacore.Base.{
  ℕ, ◌≡◌, refl, sym, ap, ◌∙◌, inl, inr, Bool, true, false, not, ◌&&◌, ◌||◌, List, [], ◌∷◌, arith,
  Bool-cases, Option, none, some, String, codes, text_before, text_before-total, text_before_trans,
  All, IsApart,
}
use rpacore.Definition.{same_codes}
use rpacore.Persistence.Rows.{HeaderRow}
use rpacore.Persistence.Query.{is_later, is_same_time, row_before, is_behind}

text_before-antisym :
    (xs ys : List ℕ) → text_before xs ys ≡ true → text_before ys xs ≡ true → same_codes xs ys ≡ true
unfolding text_before same_codes
text_before-antisym [] [] h k = refl
text_before-antisym [] (y ∷ ys) h k = cc
text_before-antisym (x ∷ xs) [] h k = cc
text_before-antisym (x ∷ xs) (y ∷ ys) h k = ground (arith, h, k, text_before-antisym xs ys)

pub row_before-total : (a b : HeaderRow) → row_before a b ≡ false → row_before b a ≡ true
unfolding row_before
row_before-total a b h =
    go a.created_at_utc b.created_at_utc (text_before-total (codes a.id) (codes b.id)) h
  where
    go :
        (s t : Option ℕ) {i j : Bool}
        → (i ≡ false → j ≡ true)
        → (is_later s t || (is_same_time s t && i)) ≡ false
        → (is_later t s || (is_same_time t s && j)) ≡ true
    go none none ids h = ids h
    go none (some t) ids h = refl
    go (some s) none ids h = cc
    go (some s) (some t) ids h = ground (arith, h, ids)

pub row_before_trans :
    (a b c : HeaderRow) → row_before a b ≡ true → row_before b c ≡ true → row_before a c ≡ true
unfolding row_before
row_before_trans a b c h k =
    go a.created_at_utc b.created_at_utc c.created_at_utc
      (text_before_trans (codes a.id) (codes b.id) (codes c.id)) h k
  where
    go :
        (s t u : Option ℕ) {i j l : Bool}
        → (i ≡ true → j ≡ true → l ≡ true)
        → (is_later s t || (is_same_time s t && i)) ≡ true
        → (is_later t u || (is_same_time t u && j)) ≡ true
        → (is_later s u || (is_same_time s u && l)) ≡ true
    go none none none ids h k = ids h k
    go none none (some u) ids h k = cc
    go none (some t) u ids h k = cc
    go (some s) none none ids h k = refl
    go (some s) none (some u) ids h k = cc
    go (some s) (some t) none ids h k = refl
    go (some s) (some t) (some u) ids h k = ground (arith, h, k, ids)

-- The cursor of a row selects the rows that do not stand before it or with it.
pub is_behind-row :
    (x r : HeaderRow) → is_behind (some (x.created_at_utc, x.id)) r ≡ not (row_before r x)
unfolding is_behind row_before
is_behind-row x r = go x.created_at_utc r.created_at_utc (text_before (codes r.id) (codes x.id))
  where
    go :
        (s t : Option ℕ) (i : Bool)
        → (is_later s t || (is_same_time t s && not i))
          ≡ not (is_later t s || (is_same_time t s && i))
    go none none i = refl
    go none (some t) i = refl
    go (some s) none i = refl
    go (some s) (some t) i = ground arith

-- No two rows have the same id.
abbrev pub IsDistinct : List HeaderRow → Type 0
IsDistinct [] = Unit
IsDistinct (r ∷ rs) = All (λ s. same_codes (codes r.id) (codes s.id) ≡ false) rs × IsDistinct rs

apart :
    (a b : HeaderRow)
    → same_codes (codes a.id) (codes b.id) ≡ false
    → (row_before a b && row_before b a) ≡ false
unfolding row_before
apart a b h = go a.created_at_utc b.created_at_utc (text_before-antisym (codes a.id) (codes b.id)) h
  where
    go :
        (s t : Option ℕ) {i j c : Bool}
        → (i ≡ true → j ≡ true → c ≡ true)
        → c ≡ false
        → ((is_later s t || (is_same_time s t && i)) && (is_later t s || (is_same_time t s && j)))
          ≡ false
    go none none both k = ground (arith, k, both)
    go none (some t) both k = refl
    go (some s) none both k = refl
    go (some s) (some t) both k = ground (arith, k, both)

pub IsDistinct-IsApart : (rs : List HeaderRow) → IsDistinct rs → IsApart row_before rs
IsDistinct-IsApart [] h = tt
IsDistinct-IsApart (r ∷ rs) h = (all rs h.0, IsDistinct-IsApart rs h.1)
  where
    all :
        (ss : List HeaderRow)
        → All (λ s. same_codes (codes r.id) (codes s.id) ≡ false) ss
        → All (λ s. (row_before r s && row_before s r) ≡ false) ss
    all [] k = tt
    all (s ∷ ss) k = (apart r s k.0, all ss k.1)

is_behind-none : (r : HeaderRow) → is_behind none r ≡ true
unfolding is_behind
is_behind-none r = refl

-- Behind a row that is behind a position.
pub is_behind_trans :
    (position : Option (Option ℕ × String)) (x r : HeaderRow)
    → is_behind position x ≡ true
    → is_behind (some (x.created_at_utc, x.id)) r ≡ true
    → is_behind position r ≡ true
is_behind_trans none x r h k = is_behind-none r
is_behind_trans (some (t, i)) x r h k = elim (Bool-cases (row_before r y)) [
  | inl e ↦ cc (
    row_before_trans r y x e (row_before-total x y (negated (sym (is_behind-row y x) ∙ h))),
    sym (is_behind-row x r) ∙ k,
  )
  | inr e ↦ is_behind-row y r ∙ ap not e
]
  where
    y : HeaderRow
    y = record x { created_at_utc = t; id = i }

    negated : {b : Bool} → not b ≡ true → b ≡ false
    negated {b} p = ground (arith, p)
