-- ===== src/Runner/Attempts.antt =====
-- What comes of a statement that is tried again: the outcome of its last attempt.
use rpacore.Base.{
  ℕ, zero, suc, ◌≡◌, refl, ◌⊎◌, inl, inr, true, Option, none, some, arith, Bool-cases,
  if◌then◌else◌,
}
use rpacore.Exceptions.{Error}
use rpacore.Exec.{Exec, Result, ok, err, ◌>>◌}
use rpacore.Runner.State.{Outside, RunState, Calls, is_fatal, ask, raise_if}
use rpacore.Runner.Retries.{attempt, again, with_retries}

abbrev pub flat {ℓ} : {A : Type ℓ} → Result (Result A) → Result A
flat (ok r) = r
flat (err e) = err e

abbrev pub IsFatal {ℓ} : {A : Type ℓ} → Result (Result A) → Type 0
IsFatal (ok r) = Unit
IsFatal (err e) = is_fatal e ≡ true

module _ {ℓ} {W : Type 0} {A : Type ℓ} (calls : Calls W) where
  -- The state in which the last attempt was made, with that attempt's result; only a fatal error is
  -- raised.
  pub record IsLast (m : Exec (RunState W) A) (out : Result (Result A) × RunState W) : Type ℓ where
    pub before : RunState W
    pub result : m before ≡ (flat (out.0), out.1)
    pub fatal : IsFatal (out.0)

  pub with_retries-IsLast :
      (n : ℕ) (m : Exec (RunState W) A) (st : RunState W)
      → IsLast m (with_retries calls (suc n) m st)
  unfolding with_retries
  with_retries-IsLast zero m st = go (m st).0 (m st).1 refl
    where
      rest : RunState W → Result (Result A) × RunState W
      rest t = with_retries calls zero m (ask calls.pause t).1

      go :
          (r : Result A) (t : RunState W)
          → m st ≡ (r, t)
          → IsLast m (elim r [
            | ok a ↦ (ok (ok a), t)
            | err e ↦
                (if again calls e zero
                  then rest t
                  else if is_fatal e
                  then (err e, t)
                  else (ok (err e), t))
          ])
      go (ok a) t h = record { before = st; result = h; fatal = tt }
      go (err e) t h = elim (Bool-cases (again calls e zero)) [
        | inl more ↦ ground (arith, more)
        | inr last ↦ rw last (elim (Bool-cases (is_fatal e)) [
          | inl f ↦ rw f (record { before = st; result = h; fatal = f })
          | inr f ↦ rw f (record { before = st; result = h; fatal = tt })
        ])
      ]
  with_retries-IsLast (suc n) m st = go (m st).0 (m st).1 refl (λ t. with_retries-IsLast n m t)
    where
      rest : RunState W → Result (Result A) × RunState W
      rest t = with_retries calls (suc n) m (ask calls.pause t).1

      go :
          (r : Result A) (t : RunState W)
          → m st ≡ (r, t)
          → ((u : RunState W) → IsLast m (with_retries calls (suc n) m u))
          → IsLast m (elim r [
            | ok a ↦ (ok (ok a), t)
            | err e ↦
                (if again calls e (suc n)
                  then rest t
                  else if is_fatal e
                  then (err e, t)
                  else (ok (err e), t))
          ])
      go (ok a) t h more = record { before = st; result = h; fatal = tt }
      go (err e) t h more = elim (Bool-cases (again calls e (suc n))) [
        | inl k ↦ rw k (more (ask calls.pause t).1)
        | inr last ↦ rw last (elim (Bool-cases (is_fatal e)) [
          | inl f ↦ rw f (record { before = st; result = h; fatal = f })
          | inr f ↦ rw f (record { before = st; result = h; fatal = tt })
        ])
      ]

  -- An attempt is the statement itself, after what others did, or an error of SQLite's.
  pub attempt-cases :
      (m : Exec (RunState W) A) (st : RunState W)
      → ((u : RunState W) × (attempt calls m st ≡ m u))
        ⊎ ((e : Error) × ((calls.interrupted st.outside).0 ≡ some e)
            × ((attempt calls m st).0 ≡ err e))
  attempt-cases m st = go (calls.interrupted st.outside).0 (calls.interrupted st.outside).1 refl
    where
      go :
          (o : Option Error) (out : Outside W)
          → (calls.interrupted st.outside).0 ≡ o
          → ((u : RunState W) × ((raise_if {W = W} o >> m) (record st { outside = out }) ≡ m u))
            ⊎ ((e : Error) × ((calls.interrupted st.outside).0 ≡ some e)
                × (((raise_if {W = W} o >> m) (record st { outside = out })).0 ≡ err e))
      go none out h = inl (record st { outside = out }, refl)
      go (some e) out h = inr (e, h, refl)
