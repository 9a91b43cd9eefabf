-- ===== src/Persistence/Pages.antt =====
-- The pages of `query_transactions`, one behind the other.
use rpacore.Base.{
  ℕ, suc, ◌+◌, pos, ◌≡◌, refl, sym, ap, ◌∙◌, subst, inl, inr, Bool, true, false, not, ◌&&◌, List,
  [], ◌∷◌, ◌++◌, map, arith, Bool-cases, Option, none, some, String, str_eq_iff, leb, ltb, filter,
  sort_by, length, first_rows, later_rows, last_row, if◌then◌else◌, first_rows-append, filter_sound,
  All-sort_by, All-last_row, filter-sort_by, filter-IsApart, IsApart, sort_by-Sorted,
  sort_by-IsApart, behind_last, some_injective,
}
use rpacore.Exceptions.{value_error}
use rpacore.Exec.{Result, ok, err}
use rpacore.Json.Text.{JsonText}
use rpacore.Persistence.Rows.{HeaderRow, Database, then_ok}
use rpacore.Persistence.Query.{
  Cursor, cursor, Query, Filters, TransactionSummary, TransactionPage, page_version, limit_of,
  query_filters, row_before, is_behind, is_match, decode_query_cursor, select_rows, cursor_at,
  summary_of, page_of, query_transactions,
}
use rpacore.Persistence.RowOrder.{
  IsDistinct, IsDistinct-IsApart, row_before-total, row_before_trans, is_behind-row,
  is_behind_trans,
}
use rpacore.Persistence.Slices.{
  first_rows-fetched, ltb-fetched, ltb-later_rows, last_row-pages, filter-filter, filter_same,
}

map-append :
    (xs ys : List HeaderRow) → map summary_of (xs ++ ys) ≡ map summary_of xs ++ map summary_of ys
map-append [] ys = refl
map-append (x ∷ xs) ys = ap (λ (r : List TransactionSummary). summary_of x ∷ r) (map-append xs ys)

limit-valid :
    {B : Type 0} (n : ℕ) (g : ℕ → Result B) {b : B}
    → then_ok (limit_of (pos n)) g ≡ ok b
    → (leb 1 n ≡ true) × (g n ≡ ok b)
limit-valid {B} n g {b} h =
    let (valid, e) = go (leb 1 n && leb n 1000) h in (ground (arith, valid), e)
  where
    go :
        (t : Bool)
        → then_ok (if t then ok n else err value_error) g ≡ ok b
        → (t ≡ true) × (g n ≡ ok b)
    go true h = (refl, h)
    go false h = cc

limit_within :
    {B : Type 0} (n : ℕ) (g : ℕ → Result B)
    → leb 1 n ≡ true
    → leb n 1000 ≡ true
    → then_ok (limit_of (pos n)) g ≡ g n
limit_within n g h k = rw (h, k) refl

ok_injective : {A : Type 0} {a b : A} → ok a ≡ ok b → a ≡ b
ok_injective {A} {a} {b} h = cc h

module _ (same_text : JsonText → JsonText → Bool) (digest : Filters → String) where
  -- The rows at the cursor of a row are those behind it.
  select_rows-next :
      (f : Filters) (position : Option (Option ℕ × String)) (db : Database) (n : ℕ) {x : HeaderRow}
      → IsDistinct db.transactions
      → last_row (first_rows n (select_rows same_text digest f position db)) ≡ some x
      → select_rows same_text digest f (some (x.created_at_utc, x.id)) db
        ≡ later_rows n (select_rows same_text digest f position db)
  unfolding select_rows
  select_rows-next f position db n {x} distinct h =
      ap (sort_by row_before) (
        sym (
          filter-filter (is_behind position) next matched
            (λ r k. is_behind_trans position x r reached k)))
      ∙ sym (filter-sort_by row_before row_before-total row_before_trans next behind)
      ∙ filter_same next (λ r. not (row_before r x)) rows (is_behind-row x)
      ∙ behind_last row_before row_before-total row_before_trans n rows
          (sort_by-Sorted row_before row_before-total row_before_trans behind) rows_apart h
    where
      matched : List HeaderRow
      matched = filter (is_match same_text digest f db.metadata) db.transactions

      behind : List HeaderRow
      behind = filter (is_behind position) matched

      rows : List HeaderRow
      rows = sort_by row_before behind

      next : HeaderRow → Bool
      next r = is_behind (some (x.created_at_utc, x.id)) r

      reached : is_behind position x ≡ true
      reached =
          All-last_row (λ r. is_behind position r ≡ true) n rows
            (All-sort_by row_before (λ r. is_behind position r ≡ true) behind
              (filter_sound (is_behind position) matched))
            h

      rows_apart : IsApart row_before rows
      rows_apart = sort_by-IsApart row_before row_before-total row_before_trans behind (
          filter-IsApart row_before (is_behind position) matched (
            filter-IsApart row_before (is_match same_text digest f db.metadata) db.transactions
              (IsDistinct-IsApart db.transactions distinct)))

  page_of-fetched :
      (f : Filters) (n : ℕ) (rows : List HeaderRow)
      → page_of same_text digest f n (first_rows (n + 1) rows) ≡ page_of same_text digest f n rows
  page_of-fetched f n rows =
      ap (λ (m : ℕ). page_of same_text digest f n (first_rows m rows)) {x = n + 1} {y = suc n}
        (omega arith)
      ∙ rw (first_rows-fetched n rows, ltb-fetched n rows) refl

  -- A page and the one behind it, as one.
  abbrev pub joined : TransactionPage → TransactionPage → TransactionPage
  joined p p' = record {
    transactions = p.transactions ++ p'.transactions;
    has_more = p'.has_more;
    next_cursor = p'.next_cursor;
    format_version = page_version;
  }

  page_of-joined :
      (f : Filters) (k l : ℕ) (rows : List HeaderRow)
      → leb 1 l ≡ true
      → ltb k (length rows) ≡ true
      → joined
          (page_of same_text digest f k rows)
          (page_of same_text digest f l (later_rows k rows))
        ≡ page_of same_text digest f (k + l) rows
  page_of-joined f k l rows h more = elim (Bool-cases (ltb l (length (later_rows k rows)))) [
    | inl e ↦
        rw
          (
            sym (first_rows-append k l rows),
            map-append (first_rows k rows) (first_rows l (later_rows k rows)),
            ltb-later_rows k l rows more,
            e,
            last_row-pages (first_rows k rows) l (later_rows k rows) h e,
          )
          refl
    | inr e ↦
        rw
          (
            sym (first_rows-append k l rows),
            map-append (first_rows k rows) (first_rows l (later_rows k rows)),
            ltb-later_rows k l rows more,
            e,
          )
          refl
  ]

  decode-own :
      (f : Filters) (x : HeaderRow)
      → decode_query_cursor same_text digest f
          (some (cursor page_version (digest f) x.created_at_utc x.id))
        ≡ ok (some (x.created_at_utc, x.id))
  unfolding decode_query_cursor
  decode-own f x = rw ((str_eq_iff (digest f) (digest f)).1 refl) refl

  -- A page with a cursor has the cursor of its last row, and rows behind it.
  next_cursor-row :
      (f : Filters) (k : ℕ) (rows : List HeaderRow) {c : Cursor}
      → (page_of same_text digest f k rows).next_cursor ≡ some c
      → (x : HeaderRow) × (ltb k (length rows) ≡ true)
        × (last_row (first_rows k rows) ≡ some x)
        × (cursor page_version (digest f) x.created_at_utc x.id ≡ c)
  next_cursor-row f k rows {c} h = go (ltb k (length rows)) (last_row (first_rows k rows)) h
    where
      go :
          (more : Bool) (row : Option HeaderRow)
          → (if more then cursor_at same_text digest f row else none) ≡ some c
          → (x : HeaderRow) × (more ≡ true)
            × (row ≡ some x)
            × (cursor page_version (digest f) x.created_at_utc x.id ≡ c)
      go true none h = cc
      go true (some x) h = (x, refl, refl, some_injective h)
      go false row h = cc

  unfoldable page_at : Filters → ℕ → Database → Option (Option ℕ × String) → TransactionPage
  page_at f n db position =
      page_of same_text digest f n (first_rows (n + 1) (select_rows same_text digest f position db))

  page_at-next :
      (f : Filters) (k l : ℕ) (db : Database) (position : Option (Option ℕ × String)) {c : Cursor}
      {p' : TransactionPage}
      → IsDistinct db.transactions
      → leb 1 l ≡ true
      → (page_at f k db position).next_cursor ≡ some c
      → then_ok (decode_query_cursor same_text digest f (some c)) (λ at. ok (page_at f l db at))
        ≡ ok p'
      → page_at f (k + l) db position ≡ joined (page_at f k db position) p'
  unfolding page_at
  page_at-next f k l db position {c} {p'} distinct h next second =
      let rows = select_rows same_text digest f position db in
      let (x, more, last, same) =
        next_cursor-row f k rows (
          subst (λ (p : TransactionPage). p.next_cursor ≡ some c) (page_of-fetched f k rows)
            next) in
      let decoded =
        subst
          (λ d.
            then_ok (decode_query_cursor same_text digest f (some d)) (λ at. ok (page_at f l db at))
            ≡ ok p')
          (sym same) second in
      let page =
        ok_injective (
          subst (λ r. then_ok r (λ at. ok (page_at f l db at)) ≡ ok p') (decode-own f x) decoded) in
      page_of-fetched f (k + l) rows
      ∙ sym (page_of-joined f k l rows h more)
      ∙ ap (joined (page_of same_text digest f k rows)) (
          ap (page_of same_text digest f l) (sym (select_rows-next f position db k distinct last))
          ∙ sym (
              page_of-fetched f l
                (select_rows same_text digest f (some (x.created_at_utc, x.id)) db))
          ∙ page)
      ∙ ap (λ (p : TransactionPage). joined p p') (sym (page_of-fetched f k rows))

  -- A page of a query, and the page of the query at its cursor, read from the same rows with different
  -- ids, are together the page of both limits, if their sum is an allowed limit: no transaction is
  -- missed and none comes twice. The filters are the same, and the query may have a cursor itself.
  pub query_transactions-pages :
      (q : Query) (k l : ℕ) (db : Database) {p p' : TransactionPage} {c : Cursor}
      → IsDistinct db.transactions
      → leb (k + l) 1000 ≡ true
      → query_transactions same_text digest (record q { limit = pos k }) db ≡ ok p
      → p.next_cursor ≡ some c
      → query_transactions same_text digest (record q { limit = pos l; start = some c }) db ≡ ok p'
      → query_transactions same_text digest (record q { limit = pos (k + l) }) db ≡ ok (joined p p')
  unfolding query_transactions query_filters page_at
  query_transactions-pages q k l db {p} {p'} {c} distinct bound first next second =
      let (hk, first') = limit-valid k (answer q.start) first in
      let (hl, second') = limit-valid l (answer (some c)) second in
      limit_within (k + l) (answer q.start) (ground (arith, hk)) bound
      ∙ go hl (query_filters q) first' second'
    where
      answer : Option Cursor → ℕ → Result TransactionPage
      answer start n = then_ok (query_filters q) (λ f.
          then_ok (decode_query_cursor same_text digest f start) (λ at. ok (page_at f n db at)))

      paged :
          (f : Filters) (r : Result (Option (Option ℕ × String)))
          → leb 1 l ≡ true
          → then_ok r (λ at. ok (page_at f k db at)) ≡ ok p
          → then_ok (decode_query_cursor same_text digest f (some c)) (λ at. ok (page_at f l db at))
            ≡ ok p'
          → then_ok r (λ at. ok (page_at f (k + l) db at)) ≡ ok (joined p p')
      paged f (err e) hl h j = cc
      paged f (ok position) hl h j = ap ok (
          page_at-next f k l db position distinct hl
            (ap (λ (p : TransactionPage). p.next_cursor) (ok_injective h) ∙ next) j
          ∙ ap (λ (p : TransactionPage). joined p p') (ok_injective h))

      go :
          leb 1 l ≡ true
          → (r : Result Filters)
          → then_ok r (λ f.
            then_ok (decode_query_cursor same_text digest f q.start) (λ at. ok (page_at f k db at)))
            ≡ ok p
          → then_ok r (λ f.
            then_ok
              (decode_query_cursor same_text digest f (some c))
              (λ at. ok (page_at f l db at)))
            ≡ ok p'
          → then_ok r (λ f.
            then_ok
              (decode_query_cursor same_text digest f q.start)
              (λ at. ok (page_at f (k + l) db at)))
            ≡ ok (joined p p')
      go hl (err e) h j = cc
      go hl (ok f) h j = paged f (decode_query_cursor same_text digest f q.start) hl h j
