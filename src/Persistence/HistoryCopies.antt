-- ===== src/Persistence/HistoryCopies.antt =====
-- A history that goes on from the stored one is stored and read as it is.
use rpacore.Base.{
  ℕ, suc, ◌≤◌, ◌<◌, ◌≡◌, refl, sym, ap, ◌∙◌, String, true, false, List, [], ◌∷◌, ◌++◌, map, arith,
  All, any, ==_self, str_eq_iff, sort_by, IsSortedBy, sort_by-IsSortedBy,
}
use rpacore.Transaction.{HistoryEntry}
use rpacore.Engine.Audit.{IsNumbered}
use rpacore.Persistence.Tables.{insert_ignore, insert_ignore_all, append_nil, append_assoc}
use rpacore.Persistence.Rows.{HistoryRow, history_row, history_clash}
use rpacore.Persistence.Load.{sequence_before, load_history}

load_history-rows :
    (i : String) (es : List HistoryEntry) → load_history (map (history_row i) es) ≡ es
load_history-rows i [] = refl
load_history-rows i (e ∷ es) = ap (λ (r : List HistoryEntry). e ∷ r) (load_history-rows i es)

abbrev Later : ℕ → List HistoryEntry → Type 0
Later n es = All (λ e. n ≤ e.sequence) es

IsNumbered-Later : (m n : ℕ) (es : List HistoryEntry) → m ≤ n → IsNumbered n es → Later m es
IsNumbered-Later m n [] h k = tt
IsNumbered-Later m n (e ∷ es) h k =
    (omega (arith, k.0), IsNumbered-Later m (suc n) es (omega arith) k.1)

rows-IsSortedBy :
    (i : String) (n : ℕ) (es : List HistoryEntry)
    → IsNumbered n es
    → IsSortedBy sequence_before (map (history_row i) es)
rows-IsSortedBy i n [] h = tt
rows-IsSortedBy i n (e ∷ es) h =
    (first es (IsNumbered-Later n (suc n) es (omega arith) h.1), rows-IsSortedBy i (suc n) es h.1)
  where
    first :
        (fs : List HistoryEntry)
        → Later n fs
        → All (λ r. sequence_before (history_row i e) r ≡ true) (map (history_row i) fs)
    first [] k = tt
    first (f ∷ fs) k = (ground (arith, k.0, h.0), first fs k.1)

abbrev IsThere : String → List HistoryRow → HistoryEntry → Type 0
IsThere i rows e = any (history_clash (history_row i e)) rows ≡ true

-- Rows that are in the table already are not inserted again.
insert_there :
    (i : String) (es : List HistoryEntry) (rows : List HistoryRow)
    → All (IsThere i rows) es
    → insert_ignore_all history_clash (map (history_row i) es) rows ≡ rows
unfolding insert_ignore_all
insert_there i [] rows h = refl
insert_there i (e ∷ es) rows h =
    ap (insert_ignore_all history_clash (map (history_row i) es)) (ignored (h.0))
    ∙ insert_there i es rows h.1
  where
    ignored :
        any (history_clash (history_row i e)) rows ≡ true
        → insert_ignore history_clash (history_row i e) rows ≡ rows
    ignored k = rw k refl

IsThere-cons :
    (i : String) (r : HistoryRow) (rows : List HistoryRow) (es : List HistoryEntry)
    → All (IsThere i rows) es
    → All (IsThere i (r ∷ rows)) es
IsThere-cons i r rows [] h = tt
IsThere-cons i r rows (e ∷ es) h = (ground (arith, h.0), IsThere-cons i r rows es h.1)

All-IsThere : (i : String) (es : List HistoryEntry) → All (IsThere i (map (history_row i) es)) es
All-IsThere i [] = tt
All-IsThere i (e ∷ es) = (
  ground (arith, ==_self e.sequence, (str_eq_iff i i).1 refl),
  IsThere-cons i (history_row i e) (map (history_row i) es) es (All-IsThere i es),
)

abbrev Earlier : ℕ → List HistoryRow → Type 0
Earlier n rows = All (λ r. r.entry.sequence < n) rows

none_there :
    (i : String) (n : ℕ) (e : HistoryEntry) (rows : List HistoryRow)
    → e.sequence ≡ n
    → Earlier n rows
    → any (history_clash (history_row i e)) rows ≡ false
none_there i n e [] h k = refl
none_there i n e (r ∷ rs) h k = ground (arith, none_there i n e rs h k.1, k.0, h)

Earlier-snoc :
    (n : ℕ) (rows : List HistoryRow) (r : HistoryRow)
    → Earlier n rows
    → r.entry.sequence ≡ n
    → Earlier (suc n) (rows ++ (r ∷ []))
Earlier-snoc n [] r h k = (omega (arith, k), tt)
Earlier-snoc n (x ∷ xs) r h k = (omega (arith, h.0), Earlier-snoc n xs r h.1 k)

-- Rows with later numbers are all inserted.
insert_later :
    (i : String) (n : ℕ) (es : List HistoryEntry) (rows : List HistoryRow)
    → IsNumbered n es
    → Earlier n rows
    → insert_ignore_all history_clash (map (history_row i) es) rows ≡ rows ++ map (history_row i) es
unfolding insert_ignore_all
insert_later i n [] rows h k = sym (append_nil rows)
insert_later i n (e ∷ es) rows h k =
    ap (insert_ignore_all history_clash (map (history_row i) es))
      (inserted (none_there i n e rows h.0 k))
    ∙ insert_later i (suc n) es (rows ++ (history_row i e ∷ [])) h.1
        (Earlier-snoc n rows (history_row i e) k h.0)
    ∙ append_assoc rows (history_row i e ∷ []) (map (history_row i) es)
  where
    inserted :
        any (history_clash (history_row i e)) rows ≡ false
        → insert_ignore history_clash (history_row i e) rows ≡ rows ++ (history_row i e ∷ [])
    inserted k = rw k refl

insert_append :
    (i : String) (es fs : List HistoryEntry) (rows : List HistoryRow)
    → insert_ignore_all history_clash (map (history_row i) (es ++ fs)) rows
      ≡ insert_ignore_all history_clash
          (map (history_row i) fs)
          (insert_ignore_all history_clash (map (history_row i) es) rows)
unfolding insert_ignore_all
insert_append i [] fs rows = refl
insert_append i (e ∷ es) fs rows =
    insert_append i es fs (insert_ignore history_clash (history_row i e) rows)

map-append :
    (i : String) (es fs : List HistoryEntry)
    → map (history_row i) es ++ map (history_row i) fs ≡ map (history_row i) (es ++ fs)
map-append i [] fs = refl
map-append i (e ∷ es) fs = ap (λ (r : List HistoryRow). history_row i e ∷ r) (map-append i es fs)

-- The number at which a numbered history goes on.
split :
    (i : String) (n : ℕ) (es fs : List HistoryEntry)
    → IsNumbered n (es ++ fs)
    → (k : ℕ) × (n ≤ k) × Earlier k (map (history_row i) es) × IsNumbered k fs
split i n [] fs h = (n, omega arith, tt, h)
split i n (e ∷ es) fs h =
    let (k, later, early, rest) = split i (suc n) es fs h.1 in
    (k, omega arith, (omega (arith, later, h.0), early), rest)

-- Written by `_write_transaction_rows` over the rows of an earlier part, and read by
-- `_load_history`.
pub load_history-sorted :
    (i : String) (old new : List HistoryEntry)
    → IsNumbered 1 (old ++ new)
    → load_history (
        sort_by sequence_before (
          insert_ignore_all history_clash
            (map (history_row i) (old ++ new))
            (map (history_row i) old)))
      ≡ old ++ new
load_history-sorted i old new h =
    ap (λ rows. load_history (sort_by sequence_before rows)) stored
    ∙ ap load_history (
        sort_by-IsSortedBy sequence_before (map (history_row i) (old ++ new))
          (rows-IsSortedBy i 1 (old ++ new) h))
    ∙ load_history-rows i (old ++ new)
  where
    rows : List HistoryRow
    rows = map (history_row i) old

    stored :
        insert_ignore_all history_clash (map (history_row i) (old ++ new)) (map (history_row i) old)
        ≡ map (history_row i) (old ++ new)
    stored =
        let (k, later, early, rest) = split i 1 old new h in
        insert_append i old new rows
        ∙ ap (insert_ignore_all history_clash (map (history_row i) new))
            (insert_there i old rows (All-IsThere i old))
        ∙ insert_later i k new rows rest early
        ∙ map-append i old new
