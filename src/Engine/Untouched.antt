-- ===== src/Engine/Untouched.antt =====
-- What the retry passes reset, and what they leave alone.
use mathlib.Core.Option
use rpacore.Base.{
  ℕ, ◌≡◌, refl, sym, ap, subst, ◌≢◌, ◌∙◌, Bool, true, false, ◌&&◌, ◌||◌, List, [], ◌∷◌, map, some,
  inl, inr, Bool-cases, arith, ◌==◌, All, any, filter, find, if◌then◌else◌,
}
use rpacore.Status.{Status, is_failed, is_skipped}
use rpacore.Exceptions.{StepException, last_is, is_system, is_business}
use rpacore.Transaction.{Step, Transaction}
use rpacore.Engine.World.{has_ident}
use rpacore.Engine.Failures.{
  just_resumed, reset_if_skipped, reset_skipped_steps, retryable_failed_steps,
  business_failed_step_ids,
}
use rpacore.Engine.Pass.{is_blocked}
use rpacore.Engine.Run.{reset_to_pending}
use rpacore.Engine.Settled.{Still, Only, Still-change_other, ident-Still}

-- Whether a step is reset by a retry pass.
abbrev pub is_retryable : Step → Bool
is_retryable s = is_failed s.status && last_is is_system s.exceptions

module _ (i : ℕ) (t : Step) where
  abbrev Apart : List Step → Type 0
  Apart = All (λ s. s.ident ≢ i)

  one_apart :
      (s : Step)
      → is_retryable t ≡ false
      → (s.ident ≡ i → s ≡ t)
      → is_retryable s ≡ true
      → s.ident ≢ i
  one_apart s h same retried e = let p = ap is_retryable (same e) in cc (h, retried, p)

  retryable-Apart :
      (ss : List Step)
      → is_retryable t ≡ false
      → Only i t ss
      → Apart (filter (λ s. last_is is_system s.exceptions) (filter (λ s. is_failed s.status) ss))
  retryable-Apart [] h all = tt
  retryable-Apart (s ∷ ss) h all = elim (Bool-cases (is_failed s.status)) [
    | inl failed ↦ elim (Bool-cases (last_is is_system s.exceptions)) [
      | inl system ↦
          rw (failed, system)
            (one_apart s h all.0 (ground (arith, failed, system)), retryable-Apart ss h all.1)
      | inr other ↦ rw (failed, other) (retryable-Apart ss h all.1)
    ]
    | inr fine ↦ rw fine (retryable-Apart ss h all.1)
  ]

  Still-reset_to_pending :
      (ss : List Step) (tx : Transaction)
      → Apart ss
      → Still i t tx
      → Still i t (reset_to_pending ss tx)
  unfolding reset_to_pending
  Still-reset_to_pending [] tx apart still = still
  Still-reset_to_pending (s ∷ ss) tx apart still = Still-reset_to_pending ss _ apart.1 (
      Still-change_other i t s (λ u. record u { status = Status.pending }) tx apart.0 (λ u. refl)
        still)

  -- Resetting the retryable steps passes over a step that is none of them.
  pub Still-reset_retryable :
      (tx : Transaction)
      → is_retryable t ≡ false
      → Still i t tx
      → Still i t (reset_to_pending (retryable_failed_steps tx) tx)
  unfolding retryable_failed_steps
  Still-reset_retryable tx h still =
      Still-reset_to_pending (retryable_failed_steps tx) tx (retryable-Apart tx.steps h still.only)
        still

  ident_reset : (s : Step) → (reset_if_skipped s).ident ≡ s.ident
  ident_reset s = ground arith

  reset_same : is_skipped t.status ≡ false → reset_if_skipped t ≡ t
  reset_same h = rw h

  find-reset :
      (ss : List Step)
      → find (has_ident i) (map reset_if_skipped ss)
        ≡ Option.map reset_if_skipped (find (has_ident i) ss)
  find-reset [] = refl
  find-reset (s ∷ ss) = elim (Bool-cases (s.ident == i)) [
    | inl e ↦ rw (ident_reset s, e)
    | inr e ↦ rw (ident_reset s, e) (find-reset ss)
  ]

  Only-reset :
      (ss : List Step)
      → is_skipped t.status ≡ false
      → Only i t ss
      → Only i t (map reset_if_skipped ss)
  Only-reset [] h all = tt
  Only-reset (s ∷ ss) h all = (one, Only-reset ss h all.1)
    where
      one : (reset_if_skipped s).ident ≡ i → reset_if_skipped s ≡ t
      one e = let same = all.0 (sym (ident_reset s) ∙ e) in ap reset_if_skipped same ∙ reset_same h

  pub Still-reset_skipped :
      (tx : Transaction)
      → is_skipped t.status ≡ false
      → Still i t tx
      → Still i t (reset_skipped_steps tx)
  unfolding reset_skipped_steps
  Still-reset_skipped tx h still = go (just_resumed tx)
    where
      go :
          (b : Bool)
          → Still i t (if b then tx else record tx { steps = map reset_if_skipped tx.steps })
      go true = still
      go false = record {
        found =
            find-reset tx.steps
            ∙ ap (Option.map reset_if_skipped) still.found
            ∙ ap some (reset_same h);
        only = Only-reset tx.steps h still.only;
      }

  pub Still-steps : (tx tx' : Transaction) → tx'.steps ≡ tx.steps → Still i t tx → Still i t tx'
  Still-steps tx tx' e still = record {
    found = ap (find (has_ident i)) e ∙ still.found;
    only = subst (Only i t) (sym e) still.only;
  }

pub last_is_one :
    (es : List StepException) → last_is is_business es ≡ true → last_is is_system es ≡ false
last_is_one [] h = refl
last_is_one (e ∷ []) h = ground arith
last_is_one (e ∷ f ∷ es) h = last_is_one (f ∷ es) h

or_true : (b : Bool) → (b || true) ≡ true
or_true true = refl
or_true false = refl

-- A business-failed step is among those that a retry pass blocks.
ids_have :
    (i : ℕ) (t : Step) (ss : List Step)
    → t.status ≡ Status.failed
    → last_is is_business t.exceptions ≡ true
    → find (has_ident i) ss ≡ some t
    → any
        (λ j. i == j)
        (map
          (λ (s : Step). s.ident)
          (filter (λ s. last_is is_business s.exceptions) (filter (λ s. is_failed s.status) ss)))
      ≡ true
ids_have i t [] failed business found = cc
ids_have i t (s ∷ ss) failed business found = elim (Bool-cases (s.ident == i)) [
  | inl own ↦
      let same : s ≡ t = found_here own in
      let is_fail : is_failed s.status ≡ true = rw same (rw failed) in
      let is_bus : last_is is_business s.exceptions ≡ true = rw same business in
      let this : (i == s.ident) ≡ true = ground arith in rw (is_fail, is_bus, this)
  | inr other ↦ later (ids_have i t ss failed business (found_later other))
]
  where
    found_here : (s.ident == i) ≡ true → s ≡ t
    found_here own = ground arith

    found_later : (s.ident == i) ≡ false → find (has_ident i) ss ≡ some t
    found_later other = ground arith

    ids : List Step → List ℕ
    ids us =
        map (λ (u : Step). u.ident)
          (filter (λ u. last_is is_business u.exceptions) (filter (λ u. is_failed u.status) us))

    has_id : List ℕ → Bool
    has_id js = any (λ j. i == j) js

    later : has_id (ids ss) ≡ true → has_id (ids (s ∷ ss)) ≡ true
    later h = elim (Bool-cases (is_failed s.status)) [
      | inl a ↦ elim (Bool-cases (last_is is_business s.exceptions)) [
        | inl b ↦ rw (a, b, h) (or_true (i == s.ident))
        | inr b ↦ rw (a, b) h
      ]
      | inr a ↦ rw a h
    ]

pub blocked_now :
    (i : ℕ) (t : Step) (tx : Transaction)
    → t.status ≡ Status.failed
    → last_is is_business t.exceptions ≡ true
    → Still i t tx
    → is_blocked (some (business_failed_step_ids tx)) t ≡ true
unfolding business_failed_step_ids
blocked_now i t tx failed business still =
    ap (λ (j : ℕ). any (λ k. j == k) (business_failed_step_ids tx)) (ident-Still i t tx still)
    ∙ ids_have i t tx.steps failed business still.found
