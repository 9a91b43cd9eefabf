-- ===== src/Persistence/Headers.antt =====
-- The header row of a transaction, behind the statements of a save.
use rpacore.Base.{
  ◌≡◌, refl, sym, ap, ◌∙◌, subst, inl, inr, String, Bool, true, false, List, Option, none, some,
  Bool-cases, str_eq, str_eq_iff, find, update_where, if◌then◌else◌,
}
use rpacore.Exceptions.{transaction_fence}
use rpacore.Exec.{Result, ok, err}
use rpacore.Json.Text.{JsonText}
use rpacore.Transaction.{Transaction}
use rpacore.Persistence.Tables.{insert_ignore}
use rpacore.Persistence.Tables.Keyed.{
  find-insert_ignore, find-insert_ignore_other, find-update_where, find-update_where_other,
}
use rpacore.Persistence.Rows.{HeaderRow, is_header, same_header}
use rpacore.Persistence.Save.{Fence, header_row, set_columns, set_fence, at_revision, update_header}
use rpacore.Persistence.View.{stamp, saved_header}

pub str_eq_self : (s : String) → str_eq s s ≡ true
str_eq_self s = (str_eq_iff s s).1 refl

pub apart : (i j k : String) → str_eq i j ≡ false → str_eq k i ≡ true → str_eq k j ≡ false
apart i j k h e = ap (λ (l : String). str_eq l j) ((str_eq_iff k i).0 e) ∙ h

-- The header row that is found after the statements on its table.
module _ (tx : Transaction) (state : JsonText) (fence : Option Fence) (rows : List HeaderRow)
    {out : List HeaderRow}
    (written : update_header tx state fence (insert_ignore same_header (header_row tx state) rows)
      ≡ ok out) where
  inserted : List HeaderRow
  inserted = insert_ignore same_header (header_row tx state) rows

  updated :
      update_where (is_header tx.id) (λ r. stamp fence (set_columns tx state r)) inserted ≡ out
  unfolding inserted update_header
  updated = go fence written
    where
      value : Result (List HeaderRow) → List HeaderRow
      value (ok xs) = xs
      value (err e) = out

      go :
          (o : Option Fence)
          → update_header tx state o (insert_ignore same_header (header_row tx state) rows) ≡ ok out
          → update_where (is_header tx.id) (λ r. stamp o (set_columns tx state r)) inserted ≡ out
      go none e = ap value e
      go (some f) e =
          elim (Bool-cases (at_revision f.expected_revision (find (is_header tx.id) inserted))) [
            | inl k ↦ ap value (subst (λ b. guarded b ≡ ok out) k e)
            | inr k ↦ cc (subst (λ b. guarded b ≡ ok out) k e)
          ]
        where
          guarded : Bool → Result (List HeaderRow)
          guarded b =
              if b
              then ok (
                  update_where (is_header tx.id) (λ r. set_fence f (set_columns tx state r))
                    inserted)
              else err transaction_fence

  keeps_id : (r : HeaderRow) → (stamp fence (set_columns tx state r)).id ≡ r.id
  unfolding set_columns
  keeps_id r = go fence
    where
      go : (o : Option Fence) → (stamp o (set_columns tx state r)).id ≡ r.id
      go none = refl
      go (some f) = refl

  pub find-header :
      find (is_header tx.id) out ≡ some (saved_header tx state fence (find (is_header tx.id) rows))
  unfolding inserted saved_header header_row
  find-header =
      ap (find (is_header tx.id)) (sym updated)
      ∙ find-update_where (is_header tx.id) (λ r. stamp fence (set_columns tx state r)) inserted
          (λ r. ap (λ (k : String). str_eq k tx.id) (keeps_id r))
          (find-insert_ignore (is_header tx.id) same_header (header_row tx state) rows (λ b. refl)
            (str_eq_self tx.id))

  pub find-header_other :
      (j : String) → str_eq tx.id j ≡ false → find (is_header j) out ≡ find (is_header j) rows
  unfolding inserted header_row
  find-header_other j h =
      ap (find (is_header j)) (sym updated)
      ∙ find-update_where_other (is_header tx.id) (is_header j)
          (λ r. stamp fence (set_columns tx state r)) inserted
          (λ r. ap (λ (k : String). str_eq k j) (keeps_id r)) (λ r. apart tx.id j r.id h)
      ∙ find-insert_ignore_other (is_header j) same_header (header_row tx state) rows h
