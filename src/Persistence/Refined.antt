-- ===== src/Persistence/Refined.antt =====
-- A save changes the map at one transaction, or nothing.
use rpacore.Base.{
  ℕ, ◌+◌, ◌≡◌, refl, ap, ◌∙◌, subst, inl, inr, String, true, false, List, [], ◌∷◌, map, Option,
  arith, All, Bool-cases, str_eq, str_eq_iff, filter,
}
use rpacore.Exec.{Result, ok, err}
use rpacore.Json.Text.{JsonText}
use rpacore.Transaction.{Artifact, Transaction}
use rpacore.Persistence.Tables.{
  filter-replaced, filter-replaced_other, filter-insert_ignore_all, filter-insert_ignore_all_other,
}
use rpacore.Persistence.Rows.{
  HistoryRow, ArtifactRow, Database, Serialized, then_ok, step_row, history_row, artifact_row,
  artifact_rows, artifact_metadata_to_storage, serialized_transaction, step_clash, history_clash,
  metadata_clash, artifact_clash, step_of, history_of, metadata_of, artifact_of,
}
use rpacore.Persistence.Save.{
  Fence, write_steps, write_history, write_metadata, write_artifacts, metadata_row,
  write_transaction_rows, atomic, save_rows,
}
use rpacore.Persistence.Written.{IsWritten, write_transaction_rows-IsWritten}
use rpacore.Persistence.Headers.{str_eq_self, apart, find-header, find-header_other}
use rpacore.Persistence.View.{view, saved, change}

All-map {ℓ κ μ} :
    {A : Type ℓ} {B : Type κ} (P : B → Type μ) (f : A → B) (as' : List A)
    → ((a : A) → P (f a))
    → All P (map f as')
All-map P f [] h = tt
All-map P f (a ∷ as') h = (h a, All-map P f as' h)

-- The rows of the artifacts are those of the transaction.
artifact_rows-own :
    (i : String) (n : ℕ) (as' : List Artifact) {rows : List ArtifactRow}
    → artifact_rows i n as' ≡ ok rows
    → All (λ r. r.transaction_id ≡ i) rows
unfolding artifact_rows
artifact_rows-own i n [] {rows} h = subst (All (λ r. r.transaction_id ≡ i)) (ap value h) tt
  where
    value : Result (List ArtifactRow) → List ArtifactRow
    value (ok xs) = xs
    value (err e) = rows
artifact_rows-own i n (a ∷ as') {rows} h =
    go (artifact_metadata_to_storage a) (artifact_rows i (n + 1) as')
      (λ rest e. artifact_rows-own i (n + 1) as' {rows = rest} e) h
  where
    value : Result (List ArtifactRow) → List ArtifactRow
    value (ok xs) = xs
    value (err e) = rows

    go :
        (m : Result JsonText) (r : Result (List ArtifactRow))
        → ((rest : List ArtifactRow) → r ≡ ok rest → All (λ r. r.transaction_id ≡ i) rest)
        → then_ok m (λ metadata. then_ok r (λ xs. ok (artifact_row i (n + 1) a metadata ∷ xs)))
          ≡ ok rows
        → All (λ r. r.transaction_id ≡ i) rows
    go (ok m) (ok rest) own e =
        subst (All (λ r. r.transaction_id ≡ i)) (ap value e) (refl, own rest refl)
    go (ok m) (err x) own e = cc
    go (err x) r own e = cc

serialized-rows :
    (tx : Transaction) {s : Serialized}
    → serialized_transaction tx ≡ ok s
    → artifact_rows tx.id 0 tx.artifacts ≡ ok s.rows
unfolding serialized_transaction
serialized-rows tx {s} h = ground arith

module _ (tx : Transaction) (s : Serialized) (fence : Option Fence) (db out : Database) {n : ℕ}
    (w : IsWritten tx s fence db out n) (own : All (λ r. r.transaction_id ≡ tx.id) s.rows) where
  changed_view : view out tx.id ≡ saved tx s fence (view db tx.id)
  unfolding view saved write_steps write_history write_metadata write_artifacts step_row
  changed_view = λ i. record {
    header = find-header tx s.state_json fence db.transactions w.headers i;
    steps =
        filter-replaced (step_of tx.id) step_clash (map (step_row tx.id) tx.steps) db.steps
          (All-map (λ r. step_of tx.id r ≡ true) (step_row tx.id) tx.steps (λ a. str_eq_self tx.id))
          w.steps i;
    history =
        (ap (filter (history_of tx.id)) w.history
            ∙ filter-insert_ignore_all (history_of tx.id) history_clash
                (map (history_row tx.id) tx.history) db.history same_owner
                (All-map (λ r. history_of tx.id r ≡ true) (history_row tx.id) tx.history
                  (λ a. str_eq_self tx.id)))
          i;
    metadata =
        filter-replaced (metadata_of tx.id) metadata_clash
          (map (metadata_row tx.id) s.metadata_json) db.metadata
          (All-map (λ r. metadata_of tx.id r ≡ true) (metadata_row tx.id) s.metadata_json
            (λ a. str_eq_self tx.id))
          w.metadata i;
    artifacts =
        filter-replaced (artifact_of tx.id) artifact_clash s.rows db.artifacts (own_rows s.rows own)
          w.artifacts i;
  }
    where
      own_rows :
          (rows : List ArtifactRow)
          → All (λ r. r.transaction_id ≡ tx.id) rows
          → All (λ r. artifact_of tx.id r ≡ true) rows
      own_rows [] h = tt
      own_rows (r ∷ rs) h = ((str_eq_iff r.transaction_id tx.id).1 h.0, own_rows rs h.1)

      same_owner :
          (a b : HistoryRow)
          → history_of tx.id a ≡ true
          → history_clash a b ≡ true
          → history_of tx.id b ≡ true
      same_owner a b h e = (str_eq_iff b.transaction_id tx.id).1 (
          (str_eq_iff b.transaction_id a.transaction_id).0 (ground (arith, e))
          ∙ (str_eq_iff a.transaction_id tx.id).0 h)

  other_view : (j : String) → str_eq tx.id j ≡ false → view out j ≡ view db j
  unfolding view write_steps write_history write_metadata write_artifacts step_row
  other_view j h = λ i. record {
    header = find-header_other tx s.state_json fence db.transactions w.headers j h i;
    steps =
        filter-replaced_other (step_of tx.id) (step_of j) step_clash (map (step_row tx.id) tx.steps)
          db.steps (λ r. apart tx.id j r.transaction_id h)
          (All-map (λ r. step_of j r ≡ false) (step_row tx.id) tx.steps (λ a. h)) w.steps i;
    history =
        (ap (filter (history_of j)) w.history
            ∙ filter-insert_ignore_all_other (history_of j) history_clash
                (map (history_row tx.id) tx.history) db.history
                (All-map (λ r. history_of j r ≡ false) (history_row tx.id) tx.history (λ a. h)))
          i;
    metadata =
        filter-replaced_other (metadata_of tx.id) (metadata_of j) metadata_clash
          (map (metadata_row tx.id) s.metadata_json) db.metadata
          (λ r. apart tx.id j r.transaction_id h)
          (All-map (λ r. metadata_of j r ≡ false) (metadata_row tx.id) s.metadata_json (λ a. h))
          w.metadata i;
    artifacts =
        filter-replaced_other (artifact_of tx.id) (artifact_of j) artifact_clash s.rows db.artifacts
          (λ r. apart tx.id j r.transaction_id h) (foreign_rows s.rows own) w.artifacts i;
  }
    where
      foreign_rows :
          (rows : List ArtifactRow)
          → All (λ r. r.transaction_id ≡ tx.id) rows
          → All (λ r. artifact_of j r ≡ false) rows
      foreign_rows [] k = tt
      foreign_rows (r ∷ rs) k = (ap (λ (l : String). str_eq l j) (k.0) ∙ h, foreign_rows rs k.1)

  written_view :
      (j : String) → view out j ≡ change (view db) tx.id (saved tx s fence (view db tx.id)) j
  written_view j = elim (Bool-cases (str_eq tx.id j)) [
    | inl e ↦ rw e (
        subst (λ k. view out k ≡ saved tx s fence (view db tx.id)) ((str_eq_iff tx.id j).0 e)
          changed_view)
    | inr e ↦ rw e (other_view j e)
  ]

-- What a save does to the map: it changes the view of its transaction, or raises and leaves all.
pub record IsSaved (tx : Transaction) (fence : Option Fence) (db out : Database) (n : ℕ)
    : Type 0 where
  pub serialized : Serialized
  pub serialized_lem : serialized_transaction tx ≡ ok serialized
  pub written : IsWritten tx serialized fence db out n
  pub refined :
      (j : String)
      → view out j ≡ change (view db) tx.id (saved tx serialized fence (view db tx.id)) j

abbrev pub IsSavedOr : Transaction → Option Fence → Database → Result ℕ × Database → Type 0
IsSavedOr tx fence db (ok n, out) = IsSaved tx fence db out n
IsSavedOr tx fence db (err e, out) = out ≡ db

-- Seen as a map from ids to rows, a save that returns replaces the rows of its transaction by those
-- of the snapshot, with the revision one up, the creation time that was there and the history added
-- to, and leaves every other transaction as it was. A save that raises changes nothing.
pub save_rows-IsSavedOr :
    (tx : Transaction) (fence : Option Fence) (db : Database)
    → IsSavedOr tx fence db (save_rows tx fence db)
unfolding save_rows
save_rows-IsSavedOr tx fence db =
    go (serialized_transaction tx)
      (λ s e. artifact_rows-own tx.id 0 tx.artifacts (serialized-rows tx e)) (λ s e. e)
  where
    finish :
        (s : Serialized) (r : Result ℕ) (out : Database)
        → serialized_transaction tx ≡ ok s
        → All (λ r. r.transaction_id ≡ tx.id) s.rows
        → ((n : ℕ) → r ≡ ok n → IsWritten tx s fence db out n)
        → IsSavedOr tx fence db (atomic (λ (d : Database). (r, out)) db)
    finish s (ok n) out e own w = record {
      serialized = s;
      serialized_lem = e;
      written = w n refl;
      refined = written_view tx s fence db out (w n refl) own;
    }
    finish s (err x) out e own w = refl

    go :
        (r : Result Serialized)
        → ((s : Serialized)
            → serialized_transaction tx ≡ ok s
            → All (λ r. r.transaction_id ≡ tx.id) s.rows)
        → ((s : Serialized) → r ≡ ok s → serialized_transaction tx ≡ ok s)
        → IsSavedOr tx fence db
            (elim r [ ok s ↦ atomic (write_transaction_rows tx s fence) db | err e ↦ (err e, db) ])
    go (ok s) own is =
        finish s (write_transaction_rows tx s fence db).0 (write_transaction_rows tx s fence db).1
          (is s refl) (own s (is s refl)) (λ n e. write_transaction_rows-IsWritten tx s fence db e)
    go (err e) own is = refl
