-- ===== src/Persistence/StepCopies.antt =====
-- Steps are written with their exceptions and read in their execution order.
use rpacore.Base.{
  ℕ, ◌+◌, ◌≡◌, refl, sym, ap, ◌∙◌, inl, inr, String, Bool, List, [], ◌∷◌, map, arith, All,
  Bool-cases, leb_ℤ, sort_by, insert_by, map-sort_by,
}
use rpacore.Exceptions.{StepException, ExceptionKind, halts_of}
use rpacore.Exec.{ok}
use rpacore.FailureCode.{validate_failure_code}
use rpacore.Json.{Value, validate_json_object}
use rpacore.Json.Text.{fresh_value, dumps}
use rpacore.Json.Text.Loading.{loads-dumps, fresh_value-durable}
use rpacore.Transaction.{
  Step, Transaction, insert_step, sort_steps, ordered_steps, validate_arguments,
}
use rpacore.Persistence.Rows.{step_row, exception_row}
use rpacore.Persistence.Load.{
  order_before, load_object, load_exception, load_exceptions, load_step, load_steps,
}
use rpacore.Persistence.Copies.{copied_exception, copied_steps}

-- A code that the constructor of an exception accepts.
abbrev pub HasCode : StepException → Type 0
HasCode e = validate_failure_code e.code ≡ ok tt

abbrev pub HaveCodes : List Step → Type 0
HaveCodes ss = All (λ s. All HasCode s.exceptions) ss

abbrev step_before : Step → Step → Bool
step_before s t = leb_ℤ s.execution_order t.execution_order

insert_step-insert_by : (s : Step) (ss : List Step) → insert_by step_before s ss ≡ insert_step s ss
unfolding insert_step
insert_step-insert_by s [] = refl
insert_step-insert_by s (t ∷ ts) = rw (insert_step-insert_by s ts) refl

sort_steps-sort_by : (ss : List Step) → sort_by step_before ss ≡ sort_steps ss
unfolding sort_steps
sort_steps-sort_by [] = refl
sort_steps-sort_by (s ∷ ss) =
    ap (insert_by step_before s) (sort_steps-sort_by ss) ∙ insert_step-insert_by s (sort_steps ss)

sorted_rows :
    (i : String) (ss : List Step)
    → sort_by order_before (map (step_row i) ss) ≡ map (step_row i) (sort_steps ss)
unfolding step_row
sorted_rows i ss =
    sym (map-sort_by step_before order_before (step_row i) (λ a b. refl) ss)
    ∙ ap (map (step_row i)) (sort_steps-sort_by ss)

insert_step-All :
    (P : Step → Type 0) (s : Step) (ss : List Step) → P s → All P ss → All P (insert_step s ss)
unfolding insert_step
insert_step-All P s [] h hs = (h, tt)
insert_step-All P s (t ∷ ts) h hs = elim (Bool-cases (step_before s t)) [
  | inl e ↦ rw e (h, hs)
  | inr e ↦ rw e (hs.0, insert_step-All P s ts h hs.1)
]

sort_steps-All : (P : Step → Type 0) (ss : List Step) → All P ss → All P (sort_steps ss)
unfolding sort_steps
sort_steps-All P [] h = tt
sort_steps-All P (s ∷ ss) h = insert_step-All P s (sort_steps ss) h.0 (sort_steps-All P ss h.1)

load_exceptions-rows :
    (es : List StepException)
    → All HasCode es
    → load_exceptions (map exception_row es) ≡ ok (map copied_exception es)
unfolding load_exceptions load_exception
load_exceptions-rows [] h = refl
load_exceptions-rows (e ∷ es) h = rw (h.0, load_exceptions-rows es h.1, flag e.kind) refl
  where
    flag : (k : ExceptionKind) → halts_of k (halts_of k e.halts_flag) ≡ halts_of k e.halts_flag
    flag ExceptionKind.business = refl
    flag ExceptionKind.system = refl

-- A text of `json.dumps` is loaded as the value in new objects.
pub load_object-dumps :
    (v : Value) → validate_json_object v ≡ ok tt → load_object (dumps v) ≡ ok (fresh_value 0 v)
unfolding load_object
load_object-dumps v h = ground (arith, loads-dumps 0 v, fresh_value-durable 0 v h)

IsLoadable : Step → Type 0
IsLoadable s = (validate_json_object s.arguments ≡ ok tt) × All HasCode s.exceptions

load_steps-rows :
    (i : String) (ident : ℕ) (ss : List Step)
    → All IsLoadable ss
    → load_steps ident (map (step_row i) ss) ≡ ok (copied_steps ident ss)
unfolding load_steps load_step step_row copied_steps IsLoadable
load_steps-rows i ident [] h = refl
load_steps-rows i ident (s ∷ ss) h =
    rw
      (
        load_object-dumps s.arguments h.0.0,
        load_exceptions-rows s.exceptions h.0.1,
        load_steps-rows i (ident + 1) ss h.1,
      )
      refl

loadable : (ss : List Step) → validate_arguments ss ≡ ok tt → HaveCodes ss → All IsLoadable ss
unfolding validate_arguments IsLoadable
loadable [] h codes = tt
loadable (s ∷ ss) h codes = ((ground (arith, h), codes.0), loadable ss (ground (arith, h)) codes.1)

-- Written by `_write_transaction_rows` and read by `_transaction_from_rows`.
pub load_steps-sorted :
    (i : String) (ident : ℕ) (tx : Transaction)
    → validate_arguments tx.steps ≡ ok tt
    → HaveCodes tx.steps
    → load_steps ident (sort_by order_before (map (step_row i) tx.steps))
      ≡ ok (copied_steps ident (ordered_steps tx))
unfolding ordered_steps
load_steps-sorted i ident tx h codes =
    ap (load_steps ident) (sorted_rows i tx.steps)
    ∙ load_steps-rows i ident (sort_steps tx.steps)
        (sort_steps-All IsLoadable tx.steps (loadable tx.steps h codes))
