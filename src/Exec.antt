-- ===== src/Exec.antt =====
-- Methods that change an object and may raise: what was written before a raise stays written.
pub mod Keeps
use rpacore.Base.{◌≡◌, refl, ◌↔◌, Bool, true, false, if◌then◌else◌}
use rpacore.Exceptions.{Error}

pub data Result {ℓ} (A : Type ℓ) : Type ℓ where
  ok : A → Result A
  err : Error → Result A

abbrev pub Exec {ℓ κ} : Type ℓ → Type κ → Type (ℓ ⊔ κ)
Exec S A = S → Result A × S

module _ {ℓ κ} {S : Type ℓ} {A : Type κ} where
  abbrev pub pure : A → Exec S A
  pure a s = (ok a, s)

  abbrev pub raise : Error → Exec S A
  raise e s = (err e, s)

  abbrev pub gets : (S → A) → Exec S A
  gets f s = (ok (f s), s)

  abbrev pub lift : Result A → Exec S A
  lift r s = (r, s)

abbrev pub modify {ℓ} : {S : Type ℓ} → (S → S) → Exec S (Unit {0})
modify f s = (ok tt, f s)

infixl 5 ◌>>=◌ ◌>>◌
abbrev pub ◌>>=◌ {ℓ κ μ} :
    {S : Type ℓ} {A : Type κ} {B : Type μ} → Exec S A → (A → Exec S B) → Exec S B
◌>>=◌ m f s = let (r, s') = m s in elim r [ ok a ↦ f a s' | err e ↦ (err e, s') ]

abbrev pub ◌>>◌ {ℓ κ μ} : {S : Type ℓ} {A : Type κ} {B : Type μ} → Exec S A → Exec S B → Exec S B
m >> k = m >>= λ _. k

-- `try: m` with `except` for the errors that pass the test; the handler gets the error.
abbrev pub try_except {ℓ κ} :
    {S : Type ℓ} {A : Type κ} → Exec S A → (Error → Bool) → (Error → Exec S A) → Exec S A
try_except m test handler s =
    let (r, s') = m s in
    elim r [ ok a ↦ (ok a, s') | err e ↦ (if test e then handler e s' else (err e, s')) ]

-- Checks that raise: `and_then a b` is `a` followed by `b`.
abbrev pub and_then : Result (Unit {0}) → Result (Unit {0}) → Result (Unit {0})
and_then (ok _) next = next
and_then (err e) next = err e

-- `if not condition: raise error`
abbrev pub require : Bool → Error → Result (Unit {0})
require true e = ok tt
require false e = err e

pub and_then_ok : (a b : Result (Unit {0})) → (and_then a b ≡ ok tt) ↔ ((a ≡ ok tt) × (b ≡ ok tt))
and_then_ok (ok tt) b = (λ h. (refl, h), λ h. h.1)
and_then_ok (err e) b = (λ h. cc, λ h. cc (h.0))

pub require_ok : (b : Bool) (e : Error) → (require b e ≡ ok tt) ↔ (b ≡ true)
require_ok true e = (λ h. refl, λ h. refl)
require_ok false e = (λ h. cc, λ h. cc)
