-- ===== src/Queue/Attempts.antt =====
-- The audit of attempts: no transaction of the queue rewrites a closed attempt or drops one.
use rpacore.Base.{
  ℕ, ◌≡◌, refl, ap, ◌∙◌, inl, inr, String, false, List, [], ◌∷◌, ◌++◌, some, arith, Bool-cases,
  update_where, if◌then◌else◌,
}
use rpacore.Queue.Rows.{QueueAttemptOutcome, QueueAttempt, is_open, attempt_of}

-- The same attempt later: it may have been closed, but once.
pub record IsLater (a b : QueueAttempt) : Type 0 where
  pub item_id : b.item_id ≡ a.item_id
  pub claim_token : b.claim_token ≡ a.claim_token
  pub claimed_by : b.claimed_by ≡ a.claimed_by
  pub started_at : b.started_at ≡ a.started_at
  pub closed : is_open a ≡ false → b ≡ a

-- The second list is the first one later, with new attempts behind it.
abbrev pub Grows : List QueueAttempt → List QueueAttempt → Type 0
Grows [] bs = Unit
Grows (a ∷ as') [] = ⊥
Grows (a ∷ as') (b ∷ bs) = IsLater a b × Grows as' bs

IsLater-same : (a : QueueAttempt) → IsLater a a
IsLater-same a = record {
  item_id = refl;
  claim_token = refl;
  claimed_by = refl;
  started_at = refl;
  closed = λ h. refl;
}

IsLater-trans : (a b c : QueueAttempt) → IsLater a b → IsLater b c → IsLater a c
IsLater-trans a b c p q = record {
  item_id = q.item_id ∙ p.item_id;
  claim_token = q.claim_token ∙ p.claim_token;
  claimed_by = q.claimed_by ∙ p.claimed_by;
  started_at = q.started_at ∙ p.started_at;
  closed =
      λ h. let same = p.closed h in q.closed (ap (λ (x : QueueAttempt). is_open x) same ∙ h) ∙ same;
}

pub Grows-same : (as' : List QueueAttempt) → Grows as' as'
Grows-same [] = tt
Grows-same (a ∷ as') = (IsLater-same a, Grows-same as')

pub Grows-append : (as' bs cs : List QueueAttempt) → Grows as' bs → Grows as' (bs ++ cs)
Grows-append [] bs cs h = tt
Grows-append (a ∷ as') [] cs h = absurd h
Grows-append (a ∷ as') (b ∷ bs) cs h = (h.0, Grows-append as' bs cs h.1)

close-one :
    (i token : String) (outcome : QueueAttemptOutcome) (now : ℕ) (a : QueueAttempt)
    → IsLater a (
        if attempt_of i token a
        then record a { outcome = some outcome; finished_at = some now }
        else a)
close-one i token outcome now a = elim (Bool-cases (attempt_of i token a)) [
  | inl e ↦ rw e (record {
    item_id = refl;
    claim_token = refl;
    claimed_by = refl;
    started_at = refl;
    closed = λ h. absurd (ground (arith, e, h));
  })
  | inr e ↦ rw e (IsLater-same a)
]

pub Grows-close :
    (i token : String) (outcome : QueueAttemptOutcome) (now : ℕ) (as' bs : List QueueAttempt)
    → Grows as' bs
    → Grows as' (
        update_where
          (attempt_of i token)
          (λ a. record a { outcome = some outcome; finished_at = some now })
          bs)
Grows-close i token outcome now [] bs h = tt
Grows-close i token outcome now (a ∷ as') [] h = absurd h
Grows-close i token outcome now (a ∷ as') (b ∷ bs) h = (
  IsLater-trans a b _ h.0 (close-one i token outcome now b),
  Grows-close i token outcome now as' bs h.1,
)
