-- ===== src/Persistence/ArtifactCopies.antt =====
-- Artifacts are written with their places and read in the order of those.
use rpacore.Base.{
  ℕ, ◌+◌, ◌<◌, ◌≡◌, refl, sym, ap, ◌∙◌, subst, String, true, List, [], ◌∷◌, map, arith, All,
  sort_by, IsSortedBy, sort_by-IsSortedBy,
}
use rpacore.Exec.{Result, ok, err}
use rpacore.Json.{validate_json_object}
use rpacore.Json.Text.{JsonText, sort_keys, canonical_json}
use rpacore.Json.Text.Loading.{loads-canonical_json, sort_keys-durable, fresh_value-durable}
use rpacore.Transaction.{Artifact}
use rpacore.Persistence.Rows.{
  ArtifactRow, then_ok, artifact_metadata_to_storage, artifact_row, artifact_rows,
}
use rpacore.Persistence.Load.{artifact_before, load_object, load_artifact, load_artifacts}
use rpacore.Persistence.Copies.{copied_artifact}

load_artifact-row :
    (i : String) (n : ℕ) (a : Artifact) {metadata : JsonText}
    → artifact_metadata_to_storage a ≡ ok metadata
    → load_artifact (artifact_row i n a metadata) ≡ ok (copied_artifact a)
unfolding artifact_metadata_to_storage load_artifact load_object copied_artifact
load_artifact-row i n a {metadata} h =
    ap (λ t. load_artifact (artifact_row i n a t)) (sym text)
    ∙ ground (
      arith,
      loads-canonical_json 0 a.metadata,
      fresh_value-durable 0 (sort_keys a.metadata) (sort_keys-durable a.metadata valid),
    )
  where
    valid : validate_json_object a.metadata ≡ ok tt
    valid = ground (arith, h)

    text : canonical_json a.metadata ≡ metadata
    text = ground (arith, h)

-- The rows behind some artifacts: in order, behind the given place, and read back as their copies.
record IsStored (n : ℕ) (as' : List Artifact) (rows : List ArtifactRow) : Type 0 where
  in_order : IsSortedBy artifact_before rows
  behind : All (λ r. n < r.sequence) rows
  loaded : load_artifacts rows ≡ ok (map copied_artifact as')

All-before :
    (n : ℕ) (r : ArtifactRow) (rows : List ArtifactRow)
    → r.sequence ≡ n
    → All (λ s. n < s.sequence) rows
    → All (λ s. artifact_before r s ≡ true) rows
All-before n r [] e h = tt
All-before n r (s ∷ ss) e h = (ground (arith, h.0), All-before n r ss e h.1)

All-lower :
    (n : ℕ) (rows : List ArtifactRow)
    → All (λ s. n + 1 < s.sequence) rows
    → All (λ s. n < s.sequence) rows
All-lower n [] h = tt
All-lower n (s ∷ ss) h = (omega (arith, h.0), All-lower n ss h.1)

artifact_rows-IsStored :
    (i : String) (n : ℕ) (as' : List Artifact) {rows : List ArtifactRow}
    → artifact_rows i n as' ≡ ok rows
    → IsStored n as' rows
unfolding artifact_rows load_artifacts
artifact_rows-IsStored i n [] {rows} h =
    subst (IsStored n []) (ap value h) (record { in_order = tt; behind = tt; loaded = refl })
  where
    value : Result (List ArtifactRow) → List ArtifactRow
    value (ok xs) = xs
    value (err e) = rows
artifact_rows-IsStored i n (a ∷ as') {rows} h =
    go (artifact_metadata_to_storage a) (artifact_rows i (n + 1) as')
      (λ m e. load_artifact-row i (n + 1) a e)
      (λ rest e. artifact_rows-IsStored i (n + 1) as' {rows = rest} e) h
  where
    value : Result (List ArtifactRow) → List ArtifactRow
    value (ok xs) = xs
    value (err e) = rows

    go :
        (m : Result JsonText) (r : Result (List ArtifactRow))
        → ((t : JsonText)
            → m ≡ ok t
            → load_artifact (artifact_row i (n + 1) a t) ≡ ok (copied_artifact a))
        → ((rest : List ArtifactRow) → r ≡ ok rest → IsStored (n + 1) as' rest)
        → then_ok m (λ metadata. then_ok r (λ xs. ok (artifact_row i (n + 1) a metadata ∷ xs)))
          ≡ ok rows
        → IsStored n (a ∷ as') rows
    go (ok t) (ok rest) first stored e =
        let st = stored rest refl in
        subst (IsStored n (a ∷ as')) (ap value e) (record {
          in_order =
              (All-before (n + 1) (artifact_row i (n + 1) a t) rest refl st.behind, st.in_order);
          behind = (omega arith, All-lower n rest st.behind);
          loaded = rw (first t refl, st.loaded) refl;
        })
    go (ok t) (err x) first stored e = cc
    go (err x) r first stored e = cc

-- Written by `_serialized_transaction` and read by `_load_artifacts`.
pub load_artifacts-sorted :
    (i : String) (as' : List Artifact) {rows : List ArtifactRow}
    → artifact_rows i 0 as' ≡ ok rows
    → load_artifacts (sort_by artifact_before rows) ≡ ok (map copied_artifact as')
load_artifacts-sorted i as' {rows} h =
    let st = artifact_rows-IsStored i 0 as' h in
    ap load_artifacts (sort_by-IsSortedBy artifact_before rows st.in_order) ∙ st.loaded
