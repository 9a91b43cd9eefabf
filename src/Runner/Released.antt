-- ===== src/Runner/Released.antt =====
-- A worker that goes on to the next item has given up the last one.
use rpacore.Base.{◌≡◌, refl, sym, ap, ◌∙◌, subst, inl, inr, String, Bool, true, false, Bool-cases}
use rpacore.Exceptions.{Error}
use rpacore.Exec.{Exec, Result, ok, err, pure, ◌>>=◌}
use rpacore.Exec.Keeps.{bind_from}
use rpacore.Queue.Rows.{QueueItem, QueueAttemptOutcome, Store, is_empty}
use rpacore.Queue.Steps.{Reaches}
use rpacore.Queue.Fencing.{Lacks}
use rpacore.Queue.Fenced.{Others, IsFenced, complete-Gone, fail-Gone, run-IsFenced}
use rpacore.Runner.State.{RunState, WorkerState, Calls, is_lease_lost, on_run}
use rpacore.Runner.Retries.{
  attempts, attempt, complete_item, fail_item, attested, complete_with_retries, fail_with_retries,
  with_retries,
}
use rpacore.Runner.Policy.{wants_retry}
use rpacore.Runner.Attempts.{flat, IsLast, with_retries-IsLast, attempt-cases}
use rpacore.Runner.Progress.{Progress}
use rpacore.Runner.Settle.{settle, complete_result, fail_result, refused}
use rpacore.Runner.Item.{process, check_heartbeat, report, call_after_item, run_claimed_item}

module _ {W : Type 0} (calls : Calls W) (item : QueueItem)
    (set : is_empty item.claim_token ≡ false) where
  -- The token of the claim stands no longer in its item.
  abbrev IsReleased : RunState W → Type 0
  IsReleased st = Lacks item.id item.claim_token st.outside.queue.items

  complete_item-IsReleased :
      (st : RunState W)
      → (complete_item calls item st).0 ≡ ok tt
      → IsReleased (complete_item calls item st).1
  complete_item-IsReleased st h =
      let (now, out) = calls.environment.now st.outside in
      complete-Gone calls.policy item.id item.claim_token set now item.claimed_by out.queue h

  fail_item-IsReleased :
      (retry : Bool) (st : RunState W) {outcome : QueueAttemptOutcome}
      → (fail_item calls item retry st).0 ≡ ok outcome
      → IsReleased (fail_item calls item retry st).1
  fail_item-IsReleased retry st h =
      let (now, out) = calls.environment.now st.outside in
      fail-Gone calls.policy item.id item.claim_token set now retry item.claimed_by out.queue h

  -- What the statement establishes when it returns, it does so when it is tried again.
  tried :
      {A : Type 0} (m : Exec (RunState W) A) (st : RunState W)
      (out : Result (Result A) × RunState W) {a : A}
      → ((u : RunState W) (b : A) → (m u).0 ≡ ok b → IsReleased (m u).1)
      → IsLast calls (attempt calls m) out
      → out.0 ≡ ok (ok a)
      → IsReleased (out.1)
  tried {A = A} m st out {a} does last e = elim (attempt-cases calls m last.before) [
    | inl (u, same) ↦
        let now : m u ≡ (ok a, out.1) =
          sym same ∙ last.result ∙ ap (λ (r : Result (Result A)). (flat r, out.1)) e in
        subst (λ (p : Result A × RunState W). IsReleased (p.1)) now
          (does u a (ap (λ (p : Result A × RunState W). p.0) now))
    | inr (x, seen, raised) ↦
        absurd
          (clash (sym raised ∙ ap (λ (p : Result A × RunState W). p.0) last.result ∙ ap flat e))
  ]
    where
      clash : {x : Error} → err x ≡ ok a → ⊥
      clash k = cc

  complete-IsReleased :
      (st : RunState W)
      → (complete_with_retries calls item st).0 ≡ ok (ok tt)
      → IsReleased (complete_with_retries calls item st).1
  unfolding complete_with_retries
  complete-IsReleased st h =
      tried (complete_item calls item) st (complete_with_retries calls item st)
        (λ u b e. complete_item-IsReleased u e)
        (with_retries-IsLast calls 2 (attempt calls (complete_item calls item)) st) h

  attested_ok :
      (r : Result QueueAttemptOutcome) {o : QueueAttemptOutcome}
      → attested calls r ≡ ok o
      → r ≡ ok o
  attested_ok (ok QueueAttemptOutcome.retry_scheduled) h = h
  attested_ok (ok QueueAttemptOutcome.failed) h = h
  attested_ok (ok QueueAttemptOutcome.successful) h = cc
  attested_ok (ok QueueAttemptOutcome.lease_expired) h = cc
  attested_ok (ok QueueAttemptOutcome.admin_override) h = cc
  attested_ok (err e) h = cc

  fail-IsReleased :
      (retry : Bool) (st : RunState W) {o : QueueAttemptOutcome}
      → (fail_with_retries calls item retry st).0 ≡ ok (ok o)
      → IsReleased (fail_with_retries calls item retry st).1
  unfolding fail_with_retries
  fail-IsReleased retry st {o} h =
      go (with_retries calls attempts (attempt calls (fail_item calls item retry)) st)
        (with_retries-IsLast calls 2 (attempt calls (fail_item calls item retry)) st) h
    where
      value : Result (Result QueueAttemptOutcome) → Result QueueAttemptOutcome
      value (ok r) = r
      value (err e) = err e

      go :
          (out : Result (Result QueueAttemptOutcome) × RunState W)
          → IsLast calls (attempt calls (fail_item calls item retry)) out
          → (((λ (s : RunState W). out) >>= (λ r. pure (attested calls r))) st).0 ≡ ok (ok o)
          → IsReleased (((λ (s : RunState W). out) >>= (λ r. pure (attested calls r))) st).1
      go (ok r, t) last e =
          tried (fail_item calls item retry) st (ok r, t) (λ u b k. fail_item-IsReleased retry u k)
            last (ap ok (attested_ok r (ap value e)))
      go (err x, t) last e = cc

  Released : Result Bool × WorkerState W → Type 0
  Released (ok true, st) = IsReleased st.run
  Released (ok false, st) = Unit
  Released (err e, st) = Unit

  refused-Released : (e : Error) (st : WorkerState W) → Released (refused calls e st)
  unfolding Released
  refused-Released e st = elim (Bool-cases (is_lease_lost e)) [
    | inl lost ↦ rw lost tt
    | inr other ↦ rw other tt
  ]

  settle-Released : (p : Progress) (st : WorkerState W) → Released (settle calls item p st)
  unfolding settle Released
  settle-Released p st = elim (Bool-cases p.lease_lost) [
    | inl lost ↦ rw lost tt
    | inr kept ↦ rw kept (elim (Bool-cases p.intended_complete) [
      | inl done ↦
          rw done (
            completed (complete_with_retries calls item st.run) (λ e. complete-IsReleased st.run e))
      | inr failed ↦ rw failed (
          ended (fail_with_retries calls item retry st.run) (λ o e. fail-IsReleased retry st.run e))
    ])
  ]
    where
      retry : Bool
      retry = wants_retry calls.retry_business_failures p.transaction p.outcome_error

      completed :
          (out : Result (Result (Unit {0})) × RunState W)
          → (out.0 ≡ ok (ok tt) → IsReleased (out.1))
          → Released
              ((on_run (λ (s : RunState W). out) >>= complete_result calls p.callback_failed) st)
      completed (ok (ok _), t) h = h refl
      completed (ok (err e), t) h = refused-Released e (record st { run = t })
      completed (err e, t) h = tt

      ended :
          (out : Result (Result QueueAttemptOutcome) × RunState W)
          → ((o : QueueAttemptOutcome) → out.0 ≡ ok (ok o) → IsReleased (out.1))
          → Released ((on_run (λ (s : RunState W). out) >>= fail_result calls) st)
      ended (ok (ok o), t) h = h o refl
      ended (ok (err e), t) h = refused-Released e (record st { run = t })
      ended (err e, t) h = tt

  run-Released : (st : WorkerState W) → Released (run_claimed_item calls item st)
  unfolding run_claimed_item Released
  run-Released st =
      bind_from Any Released (on_run (process calls item)) _ st tt
        (λ p st1 h1.
          bind_from Any Released (on_run (check_heartbeat calls p)) _ st1 tt
            (λ p1 st2 h2.
              bind_from Any Released (report calls p1) _ st2 tt
                (λ p2 st3 h3.
                  bind_from Any Released (on_run (call_after_item calls p2)) _ st3 tt
                    (λ p3 st4 h4.
                      bind_from Any Released (on_run (check_heartbeat calls p3)) _ st4 tt
                        (λ p4 st5 h5. settle-Released p4 st5) (λ e t i. tt))
                    (λ e t i. tt))
                (λ e t i. tt))
            (λ e t i. tt))
        (λ e t i. tt)
    where
      Any : WorkerState W → Type 0
      Any t = Unit

-- A worker goes on to the next item only after a final transition of the last one that returned:
-- where `_run_claimed_item` returns true, the claim token of the item gives no access to it any
-- more, to no worker and whatever the others do next. The token is not empty, and nobody draws it
-- again.
pub run_claimed_item-IsFenced :
    {W : Type 0} (calls : Calls W) (item : QueueItem) (st : WorkerState W) {db : Store}
    (later : String) (set : is_empty item.claim_token ≡ false)
    → (run_claimed_item calls item st).0 ≡ ok true
    → Reaches calls.policy
        (Others item.claim_token)
        (run_claimed_item calls item st).1.run.outside.queue
        db
    → IsFenced calls.policy item.id item.claim_token set later db
unfolding Released
run_claimed_item-IsFenced {W = W} calls item st later set h run =
    run-IsFenced calls.policy item.id item.claim_token set later
      (go (run_claimed_item calls item st) (run-Released calls item set st) h) run
  where
    go :
        (out : Result Bool × WorkerState W)
        → Released calls item set out
        → out.0 ≡ ok true
        → Lacks item.id item.claim_token out.1.run.outside.queue.items
    go (ok true, t) r e = r
    go (ok false, t) r e = cc
    go (err x, t) r e = cc
