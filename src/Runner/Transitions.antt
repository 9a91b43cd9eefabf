-- ===== src/Runner/Transitions.antt =====
-- What the final transition of an item can raise: SQLite's errors and fatal ones.
use rpacore.Base.{
  ℕ, ◌+◌, String, ◌&&◌, leb, ◌≡◌, refl, sym, ap, ◌∙◌, subst, ◌⊎◌, inl, inr, Bool, true, false, some,
  arith, Bool-cases, if◌then◌else◌,
}
use rpacore.Exceptions.{Error, queue_lease_lost}
use rpacore.Exec.{Exec, Result, ok, err, pure, modify, ◌>>=◌, ◌>>◌}
use rpacore.Queue.Rows.{QueueItem, QueueAttemptOutcome, Store, close_attempt}
use rpacore.Queue.Claims.{
  update_owned, complete, fail, retry_outcome, retry_status, retry_count_of, released, due_if,
}
use rpacore.Queue.Retry.{QueuePolicy}
use rpacore.Runner.State.{
  Outside, RunState, WorkerState, Calls, is_fatal, is_lease_lost, on_run, count,
}
use rpacore.Runner.Retries.{
  attempts, attempt, complete_item, fail_item, attested, complete_with_retries, fail_with_retries,
  with_retries,
}
use rpacore.Runner.Policy.{wants_retry}
use rpacore.Runner.Attempts.{flat, IsLast, with_retries-IsLast, attempt-cases}
use rpacore.Runner.Progress.{Progress}
use rpacore.Runner.Settle.{settle, complete_result, fail_result, refused, add_lease_lost}

update_owned_raises :
    (i worker token : String) (f : QueueItem → QueueItem) (db : Store) {e : Error}
    → (update_owned i worker token f db).0 ≡ err e
    → e ≡ queue_lease_lost
unfolding update_owned
update_owned_raises i worker token f db h = ground (arith, h)

complete_raises :
    (now : ℕ) (i worker token : String) (db : Store) {e : Error}
    → (complete now i worker token db).0 ≡ err e
    → e ≡ queue_lease_lost
unfolding complete update_owned
complete_raises now i worker token db h = ground (arith, h)

-- `SqliteQueue.fail` reports one of two outcomes, or a lost lease.
IsFailResult : Result QueueAttemptOutcome → Type 0
IsFailResult (ok QueueAttemptOutcome.retry_scheduled) = Unit
IsFailResult (ok QueueAttemptOutcome.failed) = Unit
IsFailResult (ok _) = ⊥
IsFailResult (err e) = e ≡ queue_lease_lost

fail-IsFailResult :
    (policy : QueuePolicy) (now : ℕ) (i : String) (retry : Bool) (worker token : String)
    (db : Store)
    → IsFailResult (fail policy now i retry worker token db).0
unfolding fail IsFailResult
fail-IsFailResult policy now i retry worker token db =
    go
      (update_owned i worker token
        (released (retry_status again) count (if again then "" else worker)
          (due_if again now count policy))
        db)
      (λ e h.
        update_owned_raises i worker token
          (released (retry_status again) count (if again then "" else worker)
            (due_if again now count policy))
          db h)
  where
    count : ℕ
    count = retry_count_of i db + 1

    again : Bool
    again = retry && leb count policy.max_retries

    reported : (b : Bool) → IsFailResult (ok (retry_outcome b))
    reported true = tt
    reported false = tt

    go :
        (out : Result (Unit {0}) × Store)
        → ((e : Error) → out.0 ≡ err e → e ≡ queue_lease_lost)
        → IsFailResult
            (((λ (s : Store). out) >>= λ _.
                modify (close_attempt i token (retry_outcome again) now) >>= λ _.
                pure (retry_outcome again))
              db).0
    go (ok a, t) h = reported again
    go (err e, t) h = h e refl

module _ {W : Type 0} (calls : Calls W) where
  -- A fatal error, or one that SQLite has raised.
  abbrev pub IsSevere : Error → Type 0
  IsSevere e = (is_fatal e ≡ true) ⊎ ((o : Outside W) × ((calls.interrupted o).0 ≡ some e))

  -- The error of a statement that is tried again is one of SQLite's or of the statement.
  tried_raises :
      {A : Type 0} (m : Exec (RunState W) A) (out : Result (Result A) × RunState W) {e : Error}
      → IsLast calls (attempt calls m) out
      → ((u : RunState W) → (m u).0 ≡ err e → e ≡ queue_lease_lost)
      → out.0 ≡ ok (err e)
      → (e ≡ queue_lease_lost) ⊎ IsSevere e
  tried_raises {A = A} m out {e} last own h = elim (attempt-cases calls m last.before) [
    | inl (u, same) ↦ inl (own u (ap (λ (p : Result A × RunState W). p.0) (sym same) ∙ is_error))
    | inr (x, seen, raised) ↦
        inr (inr (last.before.outside, seen ∙ ap some (ap source (sym raised ∙ is_error))))
  ]
    where
      is_error : (attempt calls m last.before).0 ≡ err e
      is_error = ap (λ (p : Result A × RunState W). p.0) last.result ∙ ap flat h

      source : Result A → Error
      source (ok a) = e
      source (err x) = x

  refused_raises :
      (x : Error) (st : WorkerState W) {e : Error}
      → (x ≡ queue_lease_lost) ⊎ IsSevere x
      → (refused calls x st).0 ≡ err e
      → IsSevere e
  refused_raises x st {e} (inl same) h =
      absurd (lost (subst (λ y. (refused calls y st).0 ≡ err e) same h))
    where
      lost : (refused calls queue_lease_lost st).0 ≡ err e → ⊥
      lost k = cc
  refused_raises x st {e} (inr severe) h = elim (Bool-cases (is_lease_lost x)) [
    | inl lost ↦ absurd (contradiction h lost)
    | inr other ↦ subst IsSevere (same h other) severe
  ]
    where
      contradiction : (refused calls x st).0 ≡ err e → is_lease_lost x ≡ true → ⊥
      contradiction k lost = ground (arith, k, lost)

      same : (refused calls x st).0 ≡ err e → is_lease_lost x ≡ false → x ≡ e
      same k other = ground (arith, k, other)

  complete_raises-IsSevere :
      (item : QueueItem) (b : Bool) (out : Result (Result (Unit {0})) × RunState W)
      (st : WorkerState W) {e : Error}
      → IsLast calls (attempt calls (complete_item calls item)) out
      → ((on_run (λ (s : RunState W). out) >>= complete_result calls b) st).0 ≡ err e
      → IsSevere e
  complete_raises-IsSevere item b (ok (ok _), t) st last h = cc
  complete_raises-IsSevere item b (ok (err x), t) st {e} last h =
      refused_raises x (record st { run = t })
        (tried_raises (complete_item calls item) (ok (err x), t) last own refl) h
    where
      own : (u : RunState W) → (complete_item calls item u).0 ≡ err x → x ≡ queue_lease_lost
      own u k =
          let (now, o) = calls.environment.now u.outside in
          complete_raises now item.id item.claimed_by item.claim_token o.queue k
  complete_raises-IsSevere item b (err x, t) st {e} last h =
      inl (subst (λ y. is_fatal y ≡ true) (source h) last.fatal)
    where
      source :
          ((on_run (λ (s : RunState W). (err x, t)) >>= complete_result calls b) st).0 ≡ err e
          → x ≡ e
      source k = ground (arith, k)

  fail_raises-IsSevere :
      (item : QueueItem) (retry : Bool) (out : Result (Result QueueAttemptOutcome) × RunState W)
      (st : WorkerState W) {e : Error}
      → IsLast calls (attempt calls (fail_item calls item retry)) out
      → ((on_run ((λ (s : RunState W). out) >>= (λ r. pure (attested calls r)))
            >>= fail_result calls)
          st).0
        ≡ err e
      → IsSevere e
  unfolding IsFailResult
  fail_raises-IsSevere item retry (ok (ok o), t) st {e} last h =
      elim (attempt-cases calls (fail_item calls item retry) last.before) [
        | inl (u, same) ↦ absurd (impossible o (subst IsFailResult (reported u same) (own u)) h)
        | inr (x, seen, raised) ↦ absurd (
            clash
              (sym raised ∙ ap (λ (p : Result QueueAttemptOutcome × RunState W). p.0) last.result))
      ]
    where
      own : (u : RunState W) → IsFailResult (fail_item calls item retry u).0
      own u =
          let (now, db) = calls.environment.now u.outside in
          fail-IsFailResult calls.policy now item.id retry item.claimed_by item.claim_token db.queue

      reported :
          (u : RunState W)
          → attempt calls (fail_item calls item retry) last.before ≡ fail_item calls item retry u
          → (fail_item calls item retry u).0 ≡ ok o
      reported u same =
          ap (λ (p : Result QueueAttemptOutcome × RunState W). p.0) (sym same ∙ last.result)

      clash : {x : Error} → err x ≡ ok o → ⊥
      clash k = cc

      impossible :
          (p : QueueAttemptOutcome)
          → IsFailResult (ok p)
          → ((on_run ((λ (s : RunState W). (ok (ok p), t)) >>= (λ r. pure (attested calls r)))
                >>= fail_result calls)
              st).0
            ≡ err e
          → ⊥
      impossible QueueAttemptOutcome.retry_scheduled i k = cc
      impossible QueueAttemptOutcome.failed i k = cc
      impossible QueueAttemptOutcome.successful i k = i
      impossible QueueAttemptOutcome.lease_expired i k = i
      impossible QueueAttemptOutcome.admin_override i k = i
  fail_raises-IsSevere item retry (ok (err x), t) st {e} last h =
      refused_raises x (record st { run = t })
        (tried_raises (fail_item calls item retry) (ok (err x), t) last own refl) h
    where
      own : (u : RunState W) → (fail_item calls item retry u).0 ≡ err x → x ≡ queue_lease_lost
      own u k =
          let (now, db) = calls.environment.now u.outside in
          subst IsFailResult k (
            fail-IsFailResult calls.policy now item.id retry item.claimed_by item.claim_token
              db.queue)
  fail_raises-IsSevere item retry (err x, t) st {e} last h =
      inl (subst (λ y. is_fatal y ≡ true) (source h) last.fatal)
    where
      source :
          ((on_run ((λ (s : RunState W). (err x, t)) >>= (λ r. pure (attested calls r)))
                >>= fail_result calls)
              st).0
            ≡ err e
          → x ≡ e
      source k = ground (arith, k)

  pub settle_raises :
      (item : QueueItem) (p : Progress) (st : WorkerState W) {e : Error}
      → (settle calls item p st).0 ≡ err e
      → IsSevere e
  unfolding settle complete_with_retries fail_with_retries
  settle_raises item p st {e} h = go p.lease_lost p.intended_complete h
    where
      retry : Bool
      retry = wants_retry calls.retry_business_failures p.transaction p.outcome_error

      go :
          (lost done : Bool)
          → ((if lost
                then (count add_lease_lost >> pure false)
                else if done
                then (on_run (complete_with_retries calls item)
                    >>= complete_result calls p.callback_failed)
                else (on_run (fail_with_retries calls item retry) >>= fail_result calls))
              st).0
            ≡ err e
          → IsSevere e
      go true done k = cc
      go false true k =
          complete_raises-IsSevere item p.callback_failed (complete_with_retries calls item st.run)
            st (with_retries-IsLast calls 2 (attempt calls (complete_item calls item)) st.run) k
      go false false k =
          fail_raises-IsSevere item retry
            (with_retries calls attempts (attempt calls (fail_item calls item retry)) st.run) st
            (with_retries-IsLast calls 2 (attempt calls (fail_item calls item retry)) st.run) k
