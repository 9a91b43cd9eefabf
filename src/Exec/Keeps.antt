-- ===== src/Exec/Keeps.antt =====
-- What an action does to the state, whether it returns or raises: one rule for each way to
-- build an action, over a relation that is reflexive and transitive.
use rpacore.Base.{◌≡◌, refl, ap, Bool, true, false, if◌then◌else◌}
use rpacore.Exceptions.{Error}
use rpacore.Exec.{Exec, Result, ok, err, pure, raise, modify, gets, ◌>>=◌, try_except}

-- Every run of `m` relates the state before to the state after.
pub record Moves {ℓ κ μ} {S : Type ℓ} {A : Type κ} (R : S → S → Type μ) (m : Exec S A)
    : Type (ℓ ⊔ μ) where
  pub at : (s : S) → R s (m s).1

-- A relation along which actions compose.
pub record Preorder {ℓ μ} {S : Type ℓ} (R : S → S → Type μ) : Type (ℓ ⊔ μ) where
  pub same : (s : S) → R s s
  pub compose : (s t u : S) → R s t → R t u → R s u

module _ {ℓ μ} {S : Type ℓ} {R : S → S → Type μ} (pre : Preorder R) where
  pub Moves-pure {κ} : {A : Type κ} (a : A) → Moves R (pure {S = S} a)
  Moves-pure a = record { at = λ s. pre.same s }

  pub Moves-raise {κ} : {A : Type κ} (e : Error) → Moves R (raise {S = S} {A = A} e)
  Moves-raise e = record { at = λ s. pre.same s }

  pub Moves-gets {κ} : {A : Type κ} (f : S → A) → Moves R (gets f)
  Moves-gets f = record { at = λ s. pre.same s }

  bind-at {κ ν} :
      {A : Type κ} {B : Type ν} (r : Result A) (f : A → Exec S B) (s s' : S)
      → R s s'
      → ((a : A) → Moves R (f a))
      → R s (◌>>=◌ (λ (t : S). (r, t)) f s').1
  bind-at (ok a) f s s' h kf = pre.compose s s' (f a s').1 h ((kf a).at s')
  bind-at (err e) f s s' h kf = h

  -- From one state only.
  pub bind-at_state {κ ν} :
      {A : Type κ} {B : Type ν} (m : Exec S A) (f : A → Exec S B) (s : S)
      → R s (m s).1
      → ((a : A) → Moves R (f a))
      → R s ((m >>= f) s).1
  bind-at_state m f s h kf = bind-at (m s).0 f s (m s).1 h kf

  pub Moves-bind {κ ν} :
      {A : Type κ} {B : Type ν} (m : Exec S A) (f : A → Exec S B)
      → Moves R m
      → ((a : A) → Moves R (f a))
      → Moves R (m >>= f)
  Moves-bind m f km kf = record { at = λ s. bind-at (m s).0 f s (m s).1 (km.at s) kf }

  handler-at {κ} :
      {A : Type κ} (r : Result A) (test : Error → Bool) (handler : Error → Exec S A) (s s' : S)
      → R s s'
      → ((e : Error) → Moves R (handler e))
      → R s (try_except (λ (t : S). (r, t)) test handler s').1
  handler-at (ok a) test handler s s' h kh = h
  handler-at (err e) test handler s s' h kh = branch (test e)
    where
      branch : (b : Bool) → R s (if b then handler e s' else (err e, s')).1
      branch true = pre.compose s s' (handler e s').1 h ((kh e).at s')
      branch false = h

  pub Moves-try {κ} :
      {A : Type κ} (m : Exec S A) (test : Error → Bool) (handler : Error → Exec S A)
      → Moves R m
      → ((e : Error) → Moves R (handler e))
      → Moves R (try_except m test handler)
  Moves-try m test handler km kh = record {
    at = λ s. handler-at (m s).0 test handler s (m s).1 (km.at s) kh;
  }

module _ {ℓ μ κ} {S : Type ℓ} {A : Type κ} {R : S → S → Type μ} where
  pub Moves-if : (b : Bool) (m n : Exec S A) → Moves R m → Moves R n → Moves R (if b then m else n)
  Moves-if true m n km kn = km
  Moves-if false m n km kn = kn

module _ {ℓ μ} {S : Type ℓ} {R : S → S → Type μ} where
  pub Moves-modify : (f : S → S) → ((s : S) → R s (f s)) → Moves R (modify f)
  Moves-modify f h = record { at = h }

-- A sequence that returns has run its first part to the end.
pub bind_ok {ℓ κ ν} :
    {S : Type ℓ} {A : Type κ} {B : Type ν} (m : Exec S A) (f : A → Exec S B) (s : S) {b : B}
    → ((m >>= f) s).0 ≡ ok b
    → (a : A) × ((m s).0 ≡ ok a) × ((m >>= f) s ≡ f a (m s).1)
bind_ok {S = S} {A = A} m f s {b} h = go (m s).0 (m s).1 h
  where
    go :
        (r : Result A) (s' : S)
        → (◌>>=◌ (λ (t : S). (r, s')) f s).0 ≡ ok b
        → (a : A) × (r ≡ ok a) × (◌>>=◌ (λ (t : S). (r, s')) f s ≡ f a s')
    go (ok a) s' e = (a, refl, refl)
    go (err x) s' e = cc

-- What its last part establishes, a sequence that returns establishes.
pub bind_ends {ℓ κ ν μ} :
    {S : Type ℓ} {A : Type κ} {B : Type ν} (P : S → Type μ) (m : Exec S A) (f : A → Exec S B)
    (s : S) {b : B}
    → ((m >>= f) s).0 ≡ ok b
    → ((a : A) (t : S) → (f a t).0 ≡ ok b → P (f a t).1)
    → P ((m >>= f) s).1
bind_ends {S = S} {A = A} P m f s {b} h k = go (m s).0 (m s).1 h
  where
    go :
        (r : Result A) (t : S)
        → (◌>>=◌ (λ (u : S). (r, t)) f s).0 ≡ ok b
        → P (◌>>=◌ (λ (u : S). (r, t)) f s).1
    go (ok a) t e = k a t e
    go (err x) t e = cc

-- What holds behind the first part, whether that returns or raises, is there for the last part; and
-- what is to be shown holds at once where the first part raises.
pub bind_from {ℓ κ ν μ θ} :
    {S : Type ℓ} {A : Type κ} {B : Type ν} (I : S → Type μ) (P : Result B × S → Type θ)
    (m : Exec S A) (f : A → Exec S B) (s : S)
    → I (m s).1
    → ((a : A) (t : S) → I t → P (f a t))
    → ((e : Error) (t : S) → I t → P (err e, t))
    → P ((m >>= f) s)
bind_from {S = S} {A = A} I P m f s h onward raised = go (m s).0 (m s).1 h
  where
    go : (r : Result A) (t : S) → I t → P (◌>>=◌ (λ (u : S). (r, t)) f s)
    go (ok a) t i = onward a t i
    go (err e) t i = raised e t i

-- An error of a sequence is one of its parts'.
pub bind_raises {ℓ κ ν θ} :
    {S : Type ℓ} {A : Type κ} {B : Type ν} (P : Error → Type θ) (m : Exec S A) (f : A → Exec S B)
    (s : S) {e : Error}
    → ((m s).0 ≡ err e → P e)
    → ((a : A) (t : S) → (f a t).0 ≡ err e → P e)
    → ((m >>= f) s).0 ≡ err e
    → P e
bind_raises {S = S} {A = A} {B = B} P m f s {e} first last h = go (m s).0 (m s).1 first h
  where
    source : Result B → Error
    source (ok b) = e
    source (err y) = y

    go :
        (r : Result A) (t : S) → (r ≡ err e → P e) → (◌>>=◌ (λ (u : S). (r, t)) f s).0 ≡ err e → P e
    go (ok a) t p k = last a t k
    go (err x) t p k = p (ap err (ap source k))
