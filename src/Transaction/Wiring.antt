-- ===== src/Transaction/Wiring.antt =====
-- What `validate_for_execution` accepts: steps with usable names and orders, all of them distinct.
use rpacore.Base.{
  ℤ, pos, ◌≤ℤ◌, eq_ℤ, eq_ℤ_iff, String, str_eq, str_eq_iff, ◌≡◌, refl, sym, ◌≢◌, ◌↔◌, Bool, false,
  not, List, [], ◌∷◌, arith, is_blank, All,
}
use rpacore.Exceptions.{execution_validation}
use rpacore.Exec.{ok, require, and_then_ok}
use rpacore.Transaction.{
  Step, Transaction, contains_name, contains_order, validate_steps, validate_durable_data,
  validate_for_execution,
}

-- A name that is not blank and a positive order.
abbrev pub IsUsable : Step → Type 0
IsUsable s = (is_blank s.name ≡ false) × (pos 1 ≤ℤ s.execution_order)

-- No two steps share a name or an execution order.
abbrev pub AreDistinct : List Step → Type 0
AreDistinct [] = Unit
AreDistinct (s ∷ ss) =
    All (λ t. (s.name ≢ t.name) × (s.execution_order ≢ t.execution_order)) ss × AreDistinct ss

-- No step has one of the names or one of the orders.
abbrev Avoids : List String → List ℤ → List Step → Type 0
Avoids names orders =
    All (λ s.
      (contains_name s.name names ≡ false) × (contains_order s.execution_order orders ≡ false))

name_apart : (x n : String) → str_eq x n ≡ false → n ≢ x
name_apart x n h e = ground (arith, str_eq_iff x n, sym e)

apart_name : (x n : String) → n ≢ x → str_eq x n ≡ false
apart_name x n h = ground (arith, str_eq_iff x n, λ (e : x ≡ n). h (sym e))

new_name :
    (x n : String) (names : List String)
    → (contains_name x (n ∷ names) ≡ false) ↔ ((n ≢ x) × (contains_name x names ≡ false))
new_name x n names = (
  λ h.
      let parts : (str_eq x n ≡ false) × (contains_name x names ≡ false) = ground arith in
      (name_apart x n parts.0, parts.1),
  λ h. let e = apart_name x n h.0 in ground (arith, h.1, e),
)

new_order :
    (x o : ℤ) (orders : List ℤ)
    → (contains_order x (o ∷ orders) ≡ false) ↔ ((o ≢ x) × (contains_order x orders ≡ false))
new_order x o orders = (
  λ h.
      let parts : (eq_ℤ x o ≡ false) × (contains_order x orders ≡ false) = ground arith in
      (λ e. ground (arith, eq_ℤ_iff x o, sym e, parts.0), parts.1),
  λ h.
      let e : eq_ℤ x o ≡ false = ground (arith, eq_ℤ_iff x o, λ (p : x ≡ o). h.0 (sym p)) in
      ground (arith, h.1, e),
)

Avoids-more :
    (n : String) (names : List String) (o : ℤ) (orders : List ℤ) (ss : List Step)
    → Avoids (n ∷ names) (o ∷ orders) ss
      ↔ (All (λ t. (n ≢ t.name) × (o ≢ t.execution_order)) ss × Avoids names orders ss)
Avoids-more n names o orders [] = (λ h. (tt, tt), λ h. tt)
Avoids-more n names o orders (s ∷ ss) =
    let rest = Avoids-more n names o orders ss in
    let by_name = new_name s.name n names in
    let by_order = new_order s.execution_order o orders in
    (
      λ h.
          let (a, b) = by_name.0 h.0.0 in
          let (c, d) = by_order.0 h.0.1 in let (e, f) = rest.0 h.1 in (((a, c), e), ((b, d), f)),
      λ h. ((by_name.1 (h.0.0.0, h.1.0.0), by_order.1 (h.0.0.1, h.1.0.1)), rest.1 (h.0.1, h.1.1)),
    )

-- The checks of one step, in order, before the rest.
step_checks :
    (s : Step) (ss : List Step) (names : List String) (orders : List ℤ)
    → (validate_steps (s ∷ ss) names orders ≡ ok tt) ↔ (
        IsUsable s
        × ((contains_name s.name names ≡ false) × (contains_order s.execution_order orders ≡ false))
        × (validate_steps ss (s.name ∷ names) (s.execution_order ∷ orders) ≡ ok tt))
unfolding validate_steps
step_checks s ss names orders = (λ h. ground arith, λ h. ground arith)

validate_steps_iff :
    (ss : List Step) (names : List String) (orders : List ℤ)
    → (validate_steps ss names orders ≡ ok tt)
      ↔ (All IsUsable ss × AreDistinct ss × Avoids names orders ss)
validate_steps_iff [] names orders = (λ h. (tt, tt, tt), λ h. unfold validate_steps in refl)
validate_steps_iff (s ∷ ss) names orders =
    let checks = step_checks s ss names orders in
    let rest = validate_steps_iff ss (s.name ∷ names) (s.execution_order ∷ orders) in
    let more = Avoids-more s.name names s.execution_order orders ss in
    (
      λ h.
          let (usable, new, valid) = checks.0 h in
          let (all_usable, distinct, avoids) = rest.0 valid in
          let (apart, avoids') = more.0 avoids in
          ((usable, all_usable), (apart, distinct), (new, avoids')),
      λ h. checks.1 (h.0.0, h.2.0, rest.1 (h.0.1, h.1.1, more.1 (h.1.0, h.2.1))),
    )

Avoids-nil : (ss : List Step) → Avoids [] [] ss
Avoids-nil [] = tt
Avoids-nil (s ∷ ss) = ((refl, refl), Avoids-nil ss)

-- Validation succeeds exactly when the reference is not blank, every step has a name that is not
-- blank and a positive execution order, no two steps share a name or an order, and the durable
-- data is valid.
pub validate_for_execution_iff :
    (tx : Transaction)
    → (validate_for_execution tx ≡ ok tt) ↔ (
        (is_blank tx.reference ≡ false)
        × All IsUsable tx.steps
        × AreDistinct tx.steps
        × (validate_durable_data tx ≡ ok tt))
unfolding validate_for_execution
validate_for_execution_iff tx =
    let steps = validate_steps_iff tx.steps [] [] in
    (
      λ h.
          let (named, valid) = (and_then_ok _ _).0 h in
          let (wired, data') = (and_then_ok _ _).0 valid in
          let (usable, distinct, _) = steps.0 wired in
          (not_blank (is_blank tx.reference) named, usable, distinct, data'),
      λ h. (and_then_ok _ _).1 (
        blank_ok (is_blank tx.reference) h.0,
        (and_then_ok _ _).1 (steps.1 (h.1, h.2, Avoids-nil tx.steps), h.3),
      ),
    )
  where
    not_blank : (b : Bool) → require (not b) execution_validation ≡ ok tt → b ≡ false
    not_blank b h = ground arith

    blank_ok : (b : Bool) → b ≡ false → require (not b) execution_validation ≡ ok tt
    blank_ok b h = ground arith
