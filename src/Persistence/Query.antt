-- ===== src/Persistence/Query.antt =====
-- persistence.py: `query_transactions`, one page of the stored transactions, and its cursor.
-- A cursor is what its text decodes to; the digest of the filters and the test whether two texts of
-- JSON are the same are parameters. Time stamps are those that the store writes, whose texts are in
-- the order of their times, and none is the empty one, before all others.
use rpacore.Base.{
  ℕ, ◌+◌, ℤ, pos, negsuc, String, Bool, true, false, not, ◌&&◌, ◌||◌, List, [], ◌∷◌, map, Option,
  none, some, ◌==◌, leb, ltb, str_eq, codes, text_before, any, all, filter, sort_by, length,
  first_rows, last_row, if◌then◌else◌,
}
use rpacore.Status.{Status}
use rpacore.Exceptions.{value_error}
use rpacore.Exec.{Result, ok, err}
use rpacore.Json.{Value}
use rpacore.Json.Text.{JsonText}
use rpacore.Persistence.Rows.{HeaderRow, MetadataRow, Database, then_ok, metadata_to_storage}

-- The text of a cursor: what it decodes to, if it is a mapping with texts for its position.
pub data Cursor : Type 0 where
  cursor : ℕ → String → Option ℕ → String → Cursor
  not_cursor : Cursor

pub record Query : Type 0 where
  pub statuses : Option (List Status)
  pub since : Option ℕ
  pub until : Option ℕ
  pub reference : Option String
  pub metadata_filter : Option Value
  pub start : Option Cursor  -- the argument `cursor`
  pub limit : ℤ

-- What the fingerprint is made of.
pub record Filters : Type 0 where
  pub statuses : List String
  pub since : Option ℕ
  pub until : Option ℕ
  pub reference : Option String
  pub metadata : List (String × JsonText)

pub record TransactionSummary : Type 0 where
  pub id : String
  pub reference : String
  pub status : Status
  pub retry_count : ℕ
  pub created_at : Option ℕ

pub record TransactionPage : Type 0 where
  pub transactions : List TransactionSummary
  pub has_more : Bool
  pub next_cursor : Option Cursor
  pub format_version : ℕ

abbrev pub page_version : ℕ
page_version = 1

-- `_QUERY_MAX_LIMIT`
abbrev pub limit_of : ℤ → Result ℕ
limit_of (pos n) = if leb 1 n && leb n 1000 then ok n else err value_error
limit_of (negsuc n) = err value_error

abbrev status_text : Status → String
status_text Status.pending = "pending"
status_text Status.in_progress = "in_progress"
status_text Status.successful = "successful"
status_text Status.failed = "failed"
status_text Status.skipped = "skipped"

abbrev text_order : String → String → Bool
text_order a b = text_before (codes a) (codes b)

abbrev pair_before : String × JsonText → String × JsonText → Bool
pair_before a b = text_order a.0 b.0

-- `values.add(str(status))`
abbrev add_text : String → List String → List String
add_text s texts = if any (str_eq s) texts then texts else s ∷ texts

abbrev add_texts : List Status → List String
add_texts [] = []
add_texts (s ∷ ss) = add_text (status_text s) (add_texts ss)

-- `_query_statuses`
unfoldable pub query_statuses : Option (List Status) → Result (List String)
unfolding text_before
query_statuses none = ok []
query_statuses (some []) = err value_error
query_statuses (some (s ∷ ss)) = ok (sort_by text_order (add_texts (s ∷ ss)))

abbrev is_window : Option ℕ → Option ℕ → Bool
is_window (some a) (some b) = leb a b
is_window _ _ = true

unfoldable pub filter_metadata : Option Value → Result (List (String × JsonText))
unfolding metadata_to_storage text_before
filter_metadata none = ok []
filter_metadata (some v) =
    then_ok (metadata_to_storage v) (λ entries. ok (sort_by pair_before entries))

unfoldable pub query_filters : Query → Result Filters
unfolding query_statuses filter_metadata
query_filters q = then_ok (query_statuses q.statuses) (λ statuses.
    if is_window q.since q.until
    then then_ok (filter_metadata q.metadata_filter) (λ metadata. ok (record {
      statuses = statuses;
      since = q.since;
      until = q.until;
      reference = q.reference;
      metadata = metadata;
    }))
    else err value_error)

-- `created_at_utc > ?` and `created_at_utc = ?`
abbrev pub is_later : Option ℕ → Option ℕ → Bool
is_later (some a) (some b) = ltb b a
is_later (some a) none = true
is_later none _ = false

abbrev pub is_same_time : Option ℕ → Option ℕ → Bool
is_same_time (some a) (some b) = a == b
is_same_time none none = true
is_same_time _ _ = false

-- `ORDER BY created_at_utc DESC, id ASC`
unfoldable pub row_before : HeaderRow → HeaderRow → Bool
unfolding text_before
row_before a b =
    is_later a.created_at_utc b.created_at_utc
    || (is_same_time a.created_at_utc b.created_at_utc && text_before (codes a.id) (codes b.id))

-- `created_at_utc < ? OR (created_at_utc = ? AND id > ?)`
unfoldable pub is_behind : Option (Option ℕ × String) → HeaderRow → Bool
unfolding text_before
is_behind none r = true
is_behind (some (created_at_utc, id)) r =
    is_later created_at_utc r.created_at_utc
    || (is_same_time r.created_at_utc created_at_utc && not (text_before (codes r.id) (codes id)))

-- The bounds exclude a row without a time stamp.
abbrev is_since : Option ℕ → HeaderRow → Bool
is_since none r = true
is_since (some t) r = elim r.created_at_utc [ none ↦ false | some n ↦ leb t n ]

abbrev is_until : Option ℕ → HeaderRow → Bool
is_until none r = true
is_until (some t) r = elim r.created_at_utc [ none ↦ false | some n ↦ leb n t ]

abbrev is_reference : Option String → HeaderRow → Bool
is_reference none r = true
is_reference (some s) r = str_eq r.reference s

abbrev in_texts : List String → HeaderRow → Bool
in_texts [] r = true
in_texts (s ∷ ss) r = any (str_eq (status_text r.status)) (s ∷ ss)

abbrev pub summary_of : HeaderRow → TransactionSummary
summary_of r = record {
  id = r.id;
  reference = r.reference;
  status = r.status;
  retry_count = r.retry_count;
  created_at = r.created_at_utc;
}

module _ (same_text : JsonText → JsonText → Bool) (digest : Filters → String) where
  -- The join with the metadata, of which a transaction has one row for each key.
  abbrev has_entry : List MetadataRow → HeaderRow → String × JsonText → Bool
  has_entry rows r entry =
      any
        (λ (m : MetadataRow).
          str_eq m.transaction_id r.id && (str_eq m.key entry.0 && same_text m.value_json entry.1))
        rows

  unfoldable pub is_match : Filters → List MetadataRow → HeaderRow → Bool
  is_match f metadata r =
      all (has_entry metadata r) f.metadata
      && (in_texts f.statuses r
          && (is_since f.since r && (is_until f.until r && is_reference f.reference r)))

  -- `_decode_query_cursor`
  unfoldable pub decode_query_cursor : Filters → Option Cursor → Result (Option (Option ℕ × String))
  decode_query_cursor f none = ok none
  decode_query_cursor f (some (cursor version filters created_at_utc id)) =
      if (version == page_version) && str_eq filters (digest f)
      then ok (some (created_at_utc, id))
      else err value_error
  decode_query_cursor f (some not_cursor) = err value_error

  unfoldable pub select_rows : Filters → Option (Option ℕ × String) → Database → List HeaderRow
  unfolding row_before is_behind is_match
  select_rows f position db =
      sort_by row_before
        (filter (is_behind position) (filter (is_match f db.metadata) db.transactions))

  -- `_encode_query_cursor`
  abbrev pub cursor_at : Filters → Option HeaderRow → Option Cursor
  cursor_at f none = none
  cursor_at f (some r) = some (cursor page_version (digest f) r.created_at_utc r.id)

  -- The page of the rows that the query fetches, one more than the limit.
  abbrev pub page_of : Filters → ℕ → List HeaderRow → TransactionPage
  page_of f limit rows = record {
    transactions = map summary_of (first_rows limit rows);
    has_more = ltb limit (length rows);
    next_cursor =
        (if ltb limit (length rows) then cursor_at f (last_row (first_rows limit rows)) else none);
    format_version = page_version;
  }

  unfoldable pub query_transactions : Query → Database → Result TransactionPage
  unfolding query_filters decode_query_cursor select_rows
  query_transactions q db = then_ok (limit_of q.limit) (λ limit. then_ok (query_filters q) (λ f.
      then_ok (decode_query_cursor f q.start)
        (λ position. ok (page_of f limit (first_rows (limit + 1) (select_rows f position db))))))
