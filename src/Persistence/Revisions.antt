-- ===== src/Persistence/Revisions.antt =====
-- The revision of a stored transaction only grows, and a fenced save needs the current one.
use rpacore.Base.{
  ℕ, ◌+◌, ◌≤◌, ◌<◌, ◌≡◌, refl, sym, ap, ◌∙◌, subst, inl, inr, String, Bool, true, false, List, [],
  ◌∷◌, Option, none, some, arith, Bool-cases, ==_iff, str_eq, str_eq_iff, find, if◌then◌else◌,
}
use rpacore.Exceptions.{Error}
use rpacore.Exec.{Result, ok, err}
use rpacore.Transaction.{Transaction}
use rpacore.Persistence.Tables.{insert_ignore, or_new}
use rpacore.Persistence.Tables.Keyed.{find-insert_ignore}
use rpacore.Persistence.Rows.{HeaderRow, Database, is_header, same_header}
use rpacore.Persistence.Save.{Fence, header_row, set_columns, update_header, revision_of, save_rows}
use rpacore.Persistence.View.{View, view, saved_header, saved}
use rpacore.Persistence.Headers.{find-header}
use rpacore.Persistence.Refined.{IsSaved, IsSavedOr, save_rows-IsSavedOr}

-- The transaction is stored, with at least the given revision.
pub record IsAt (i : String) (n : ℕ) (db : Database) : Type 0 where
  pub row : HeaderRow
  pub found : find (is_header i) db.transactions ≡ some row
  pub reached : n ≤ row.revision

-- The saves of any workers, one after the other, whether they return or raise.
unfoldable pub save_all : List (Transaction × Option Fence) → Database → Database
unfolding save_rows
save_all [] db = db
save_all ((tx, fence) ∷ saves) db = save_all saves (save_rows tx fence db).1

header_of : {v w : View} → v ≡ w → v.header ≡ w.header
header_of e = ap (λ (v : View). v.header) e

module _ (tx : Transaction) (fence : Option Fence) (db : Database) (i : String) (m : ℕ) where
  keeps : (r : Result ℕ × Database) → IsSavedOr tx fence db r → IsAt i m db → IsAt i m r.1
  unfolding view saved saved_header set_columns
  keeps (err e, out) h at = subst (IsAt i m) (sym h) at
  keeps (ok n, out) h at = elim (Bool-cases (str_eq tx.id i)) [
    | inl e ↦
        let same : tx.id ≡ i = (str_eq_iff tx.id i).0 e in
        let old : find (is_header tx.id) db.transactions ≡ some at.row =
          subst (λ k. find (is_header k) db.transactions ≡ some at.row) (sym same) at.found in
        record {
          row = saved_header tx h.serialized.state_json fence (some at.row);
          found = changed e old;
          reached = grows fence;
        }
    | inr e ↦ record { row = at.row; found = kept e ∙ at.found; reached = at.reached }
  ]
    where
      changed :
          str_eq tx.id i ≡ true
          → find (is_header tx.id) db.transactions ≡ some at.row
          → find (is_header i) out.transactions
            ≡ some (saved_header tx h.serialized.state_json fence (some at.row))
      changed e old =
          header_of (h.refined i)
          ∙ header_of (
              ap
                (λ (b : Bool). if b then saved tx h.serialized fence (view db tx.id) else view db i)
                e)
          ∙ ap (λ (o : Option HeaderRow). some (saved_header tx h.serialized.state_json fence o))
              old

      kept :
          str_eq tx.id i ≡ false
          → find (is_header i) out.transactions ≡ find (is_header i) db.transactions
      kept e =
          header_of (h.refined i)
          ∙ header_of (
              ap
                (λ (b : Bool). if b then saved tx h.serialized fence (view db tx.id) else view db i)
                e)

      grows :
          (o : Option Fence)
          → m ≤ (saved_header tx h.serialized.state_json o (some at.row)).revision
      grows none = omega (arith, at.reached)
      grows (some f) = omega (arith, at.reached)

-- No save takes a revision back.
pub save_all-IsAt :
    (i : String) (m : ℕ) (saves : List (Transaction × Option Fence)) (db : Database)
    → IsAt i m db
    → IsAt i m (save_all saves db)
unfolding save_all
save_all-IsAt i m [] db at = at
save_all-IsAt i m ((tx, fence) ∷ saves) db at =
    save_all-IsAt i m saves (save_rows tx fence db).1
      (keeps tx fence db i m (save_rows tx fence db) (save_rows-IsSavedOr tx fence db) at)

module _ (tx : Transaction) (f : Fence) (db out : Database) {n : ℕ}
    (h : IsSaved tx (some f) db out n) where
  -- The row that the guard of a fenced save has seen.
  current : HeaderRow
  unfolding header_row
  current = or_new (header_row tx h.serialized.state_json) (find (is_header tx.id) db.transactions)

  current_found :
      find
        (is_header tx.id)
        (insert_ignore same_header (header_row tx h.serialized.state_json) db.transactions)
      ≡ some current
  unfolding current header_row
  current_found =
      find-insert_ignore (is_header tx.id) same_header (header_row tx h.serialized.state_json)
        db.transactions (λ b. refl) ((str_eq_iff tx.id tx.id).1 refl)

  current_revision : f.expected_revision ≡ current.revision
  unfolding update_header
  current_revision =
      (==_iff f.expected_revision current.revision).0
        (ground (arith, h.written.headers, current_found))

  pub new_revision : n ≡ f.expected_revision + 1
  unfolding current saved_header set_columns
  new_revision =
      sym (ap value (sym (ap revision_of stored) ∙ h.written.revision))
      ∙ ap (λ (m : ℕ). m + 1) (sym current_revision)
    where
      stored :
          find (is_header tx.id) out.transactions
          ≡ some (
              saved_header tx h.serialized.state_json
                (some f)
                (find (is_header tx.id) db.transactions))
      stored = find-header tx h.serialized.state_json (some f) db.transactions h.written.headers

      value : Result ℕ → ℕ
      value (ok m) = m
      value (err e) = n

saved-IsAt :
    (tx : Transaction) (fence : Option Fence) (db out : Database) {n : ℕ}
    → IsSaved tx fence db out n
    → IsAt tx.id n out
saved-IsAt tx fence db out {n} h =
    go (find (is_header tx.id) out.transactions) refl h.written.revision
  where
    value : Result ℕ → ℕ
    value (ok m) = m
    value (err e) = n

    go :
        (o : Option HeaderRow)
        → find (is_header tx.id) out.transactions ≡ o
        → revision_of o ≡ ok n
        → IsAt tx.id n out
    go none e r = cc
    go (some row) e r = record { row = row; found = e; reached = omega (arith, ap value r) }

-- A fenced save of a revision that is past raises and changes nothing.
stale_raises :
    (tx : Transaction) (f : Fence) (m : ℕ) (db : Database)
    → IsAt tx.id m db
    → f.expected_revision < m
    → (e : Error) × (save_rows tx (some f) db ≡ (err e, db))
unfolding current
stale_raises tx f m db at past = go (save_rows tx (some f) db) (save_rows-IsSavedOr tx (some f) db)
  where
    pair : Error → Database → Result ℕ × Database
    pair e d = (err e, d)

    go : (r : Result ℕ × Database) → IsSavedOr tx (some f) db r → (e : Error) × (r ≡ (err e, db))
    go (err e, out) h = (e, ap (pair e) h)
    go (ok n, out) h = absurd (clash h (current_revision tx f db out h))
      where
        clash :
            (h : IsSaved tx (some f) db out n)
            → f.expected_revision ≡ (current tx f db out h).revision
            → ⊥
        clash h e =
            let same : (current tx f db out h).revision ≡ at.row.revision =
              ap
                (λ (o : Option HeaderRow).
                  (or_new (header_row tx h.serialized.state_json) o).revision)
                at.found in
            omega (arith, past, at.reached, e, same)

-- A fenced save that returns was made at the revision that it expects, and goes to the next one.
-- From then on, whatever saves come between, a fenced save of the same transaction that expects the
-- same revision or an earlier one raises and changes nothing.
pub save_rows-IsAt :
    (tx late : Transaction) (f g : Fence) (saves : List (Transaction × Option Fence))
    (db : Database) {n : ℕ}
    → (save_rows tx (some f) db).0 ≡ ok n
    → late.id ≡ tx.id
    → g.expected_revision ≤ f.expected_revision
    → (n ≡ f.expected_revision + 1)
      × ((e : Error) × (save_rows late (some g) (save_all saves (save_rows tx (some f) db).1)
            ≡ (err e, save_all saves (save_rows tx (some f) db).1)))
save_rows-IsAt tx late f g saves db {n} h same early =
    go (save_rows tx (some f) db) (save_rows-IsSavedOr tx (some f) db) h
  where
    go :
        (r : Result ℕ × Database)
        → IsSavedOr tx (some f) db r
        → r.0 ≡ ok n
        → (n ≡ f.expected_revision + 1)
          × ((e : Error) × (save_rows late (some g) (save_all saves r.1)
                ≡ (err e, save_all saves r.1)))
    go (err e, out) s k = cc
    go (ok m, out) s k =
        let count : m ≡ f.expected_revision + 1 = new_revision tx f db out s in
        let at : IsAt late.id m (save_all saves out) =
          subst (λ i. IsAt i m (save_all saves out)) (sym same)
            (save_all-IsAt tx.id m saves out (saved-IsAt tx (some f) db out s)) in
        (
          ap value (sym k) ∙ count,
          stale_raises late g m (save_all saves out) at (omega (arith, early, count)),
        )
      where
        value : Result ℕ → ℕ
        value (ok i) = i
        value (err e) = n
