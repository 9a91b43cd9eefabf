-- ===== src/Persistence/Roundtrip.antt =====
-- A transaction that was saved is loaded again.
use rpacore.Base.{
  ℕ, ◌≡◌, refl, sym, ap, ◌∙◌, Bool, true, Option, none, some, str_eq_iff, find, find_sound,
  if◌then◌else◌,
}
use rpacore.Exec.{Result, ok, err}
use rpacore.Transaction.{Transaction}
use rpacore.Persistence.Tables.{or_new}
use rpacore.Persistence.Rows.{HeaderRow, Database, Serialized, then_ok, is_header}
use rpacore.Persistence.Save.{
  Fence, header_row, set_columns, or_else, same_identity, revision_of, save_rows,
}
use rpacore.Persistence.Load.{
  TransactionRows, transaction_from_rows, load_transaction_with_revision, with_revision,
}
use rpacore.Persistence.View.{
  View, view, stamp, saved_header, saved, sorted, read_transaction_rows-view,
}
use rpacore.Persistence.Headers.{find-header}
use rpacore.Persistence.Refined.{IsSaved, IsSavedOr, save_rows-IsSavedOr}
use rpacore.Persistence.Copies.{copied}
use rpacore.Persistence.StepCopies.{HaveCodes}
use rpacore.Persistence.Decoding.{
  created_of, IsEarlier, IsSerialized, serialized_transaction-IsSerialized, IsDurable,
  validate_durable_data-IsDurable, header_for, rows_for, decoded,
}

-- The columns that a save does not change: a header that is found has the id, its identity is that
-- of the transaction, and so is its creation time.
module _ (tx : Transaction) (s : Serialized) (fence : Option Fence) (old : Option HeaderRow)
    (named : (r : HeaderRow) → old ≡ some r → r.id ≡ tx.id)
    (identified : same_identity tx.definition_identity old ≡ true)
    (created : or_else (created_of old) tx.created_at ≡ tx.created_at) where
  header_kept :
      (v : View) (ident : ℕ) (parts : IsSerialized tx s) (durable : IsDurable tx)
      (codes_hold : HaveCodes tx.steps) (earlier : IsEarlier tx v)
      → saved_header tx s.state_json fence old
        ≡ header_for tx s v ident parts durable codes_hold earlier fence
            (or_new (header_row tx s.state_json) old)
  unfolding saved_header set_columns header_row header_for
  header_kept v ident parts durable codes_hold earlier = λ i.
      stamp fence (record (set_columns tx s.state_json (or_new (header_row tx s.state_json) old)) {
        id = same_id old named i;
        definition_identity = same_definition old identified i;
        created_at = same_created old created i;
      })
    where
      same_id :
          (o : Option HeaderRow)
          → ((r : HeaderRow) → o ≡ some r → r.id ≡ tx.id)
          → (or_new (header_row tx s.state_json) o).id ≡ tx.id
      same_id none h = refl
      same_id (some r) h = h r refl

      same_definition :
          (o : Option HeaderRow)
          → same_identity tx.definition_identity o ≡ true
          → (or_new (header_row tx s.state_json) o).definition_identity ≡ tx.definition_identity
      same_definition none h = refl
      same_definition (some r) h = (str_eq_iff r.definition_identity tx.definition_identity).0 h

      twice : (t : Option ℕ) → or_else t t ≡ t
      twice none = refl
      twice (some t) = refl

      same_created :
          (o : Option HeaderRow)
          → or_else (created_of o) tx.created_at ≡ tx.created_at
          → or_else (or_new (header_row tx s.state_json) o).created_at tx.created_at ≡ tx.created_at
      same_created none h = twice tx.created_at
      same_created (some r) h = h

load-IsSaved :
    (tx : Transaction) (fence : Option Fence) (db out : Database) (ident : ℕ) {n : ℕ}
    → HaveCodes tx.steps
    → IsEarlier tx (view db tx.id)
    → IsSaved tx fence db out n
    → load_transaction_with_revision ident tx.id out ≡ ok (copied ident tx, n)
unfolding load_transaction_with_revision sorted view saved rows_for
load-IsSaved tx fence db out ident {n} codes_hold earlier h =
    ap loaded (read_transaction_rows-view tx.id out ∙ ap sorted changed)
    ∙ ap (λ r. with_revision r.revision (transaction_from_rows ident (rows r))) kept
    ∙ ap (with_revision (header fence).revision)
        (decoded tx s (view db tx.id) ident parts durable codes_hold earlier fence base)
    ∙ ap (λ (i : ℕ). ok (copied ident tx, i)) revision
  where
    s : Serialized
    s = h.serialized

    parts : IsSerialized tx s
    parts = serialized_transaction-IsSerialized tx h.serialized_lem

    durable : IsDurable tx
    durable = validate_durable_data-IsDurable tx parts.durable

    old : Option HeaderRow
    old = find (is_header tx.id) db.transactions

    base : HeaderRow
    base = or_new (header_row tx s.state_json) old

    header : Option Fence → HeaderRow
    header f = header_for tx s (view db tx.id) ident parts durable codes_hold earlier f base

    rows : HeaderRow → TransactionRows
    rows r = rows_for tx s (view db tx.id) ident parts durable codes_hold earlier r

    loaded : Result TransactionRows → Result (Transaction × ℕ)
    loaded r =
        then_ok r (λ found. with_revision found.header.revision (transaction_from_rows ident found))

    changed : view out tx.id ≡ saved tx s fence (view db tx.id)
    changed =
        h.refined tx.id
        ∙ ap (λ (b : Bool). if b then saved tx s fence (view db tx.id) else view db tx.id)
            ((str_eq_iff tx.id tx.id).1 refl)

    kept : saved_header tx s.state_json fence old ≡ header fence
    kept =
        header_kept tx s fence old
          (λ r e. (str_eq_iff r.id tx.id).0 (find_sound (is_header tx.id) db.transactions e))
          h.written.identity_same earlier.created (view db tx.id) ident parts durable codes_hold
          earlier

    number : Result ℕ → ℕ
    number (ok i) = i
    number (err e) = n

    revision : (header fence).revision ≡ n
    revision =
        ap (λ (r : HeaderRow). r.revision) (sym kept)
        ∙ ap number (
            ap revision_of
              (sym (find-header tx s.state_json fence db.transactions h.written.headers))
            ∙ h.written.revision)

-- Once saved, a valid transaction whose exceptions have codes that their constructor accepts, and
-- of which at most an earlier state was stored, is loaded with the revision that the save returned:
-- the same data in new objects, the steps in their execution order, and the keys of the metadata in
-- order.
pub load-save_rows :
    (tx : Transaction) (fence : Option Fence) (db : Database) (ident : ℕ) {n : ℕ}
    → HaveCodes tx.steps
    → IsEarlier tx (view db tx.id)
    → (save_rows tx fence db).0 ≡ ok n
    → load_transaction_with_revision ident tx.id (save_rows tx fence db).1 ≡ ok (copied ident tx, n)
load-save_rows tx fence db ident {n} codes_hold earlier h =
    go (save_rows tx fence db) (save_rows-IsSavedOr tx fence db) h
  where
    go :
        (r : Result ℕ × Database)
        → IsSavedOr tx fence db r
        → r.0 ≡ ok n
        → load_transaction_with_revision ident tx.id r.1 ≡ ok (copied ident tx, n)
    go (err e, out) s k = cc
    go (ok m, out) s k = load-IsSaved tx fence db out ident codes_hold earlier s ∙ ap pair (value k)
      where
        pair : ℕ → Result (Transaction × ℕ)
        pair i = ok (copied ident tx, i)

        number : Result ℕ → ℕ
        number (ok i) = i
        number (err e) = n

        value : ok m ≡ ok n → m ≡ n
        value e = ap number e
