-- ===== src/Engine/Retrying.antt =====
-- How often a run retries, and when it stops: the loop `while transaction.retry_count <
-- self.max_retries`.
use rpacore.Base.{
  ℕ, zero, suc, ◌+◌, ◌-◌, ◌≤◌, ◌≡◌, refl, sym, ap, ◌∙◌, ◌⊎◌, inl, inr, Bool, true, false, not, ◌||◌,
  List, [], ◌∷◌, Option, none, arith, ltb, Bool-cases, subst, if◌then◌else◌,
}
use rpacore.Status.{Status, HistoryEvent}
use rpacore.Exec.{Exec, Result, ok, pure, ◌>>=◌}
use rpacore.Exec.Keeps.{Preorder, Moves, Moves-bind, bind_ok}
use rpacore.Transaction.{Step, Transaction, append_history}
use rpacore.Engine.World.{
  Environment, World, Engine, get_transaction, modify_transaction, change_step,
}
use rpacore.Engine.Transitions.{append}
use rpacore.Engine.Failures.{checkpoint, retryable_failed_steps, reset_skipped_steps}
use rpacore.Engine.Pass.{execute_pass}
use rpacore.Engine.Run.{
  reset_to_pending, is_nil, pass_again, run_again, sleep_before_retry, retry_pass, retry_loop,
  run_passes,
}
use rpacore.Engine.Effects.{OnWorld, Tolerates, world_pre, append-Moves, checkpoint-Moves}
use rpacore.Engine.Rounds.{start_step-Moves}
use rpacore.Engine.Passes.{execute_pass-Moves}

abbrev pub SameCount : Transaction → Transaction → Type 0
SameCount tx tx' = tx'.retry_count ≡ tx.retry_count

pub SameCount-pre : Preorder SameCount
SameCount-pre = record { same = λ tx. refl; compose = λ tx tx' tx'' a b. b ∙ a }

pub append_history-count :
    (event : HistoryEvent) (step : Option Step) (now : ℕ) (tx : Transaction)
    → SameCount tx (append_history event step now tx)
unfolding append_history
append_history-count event step now tx = refl

change_step-count :
    (s : Step) (f : Step → Step) (tx : Transaction) → SameCount tx (change_step s f tx)
unfolding change_step
change_step-count s f tx = refl

reset_to_pending-count : (ss : List Step) (tx : Transaction) → SameCount tx (reset_to_pending ss tx)
unfolding reset_to_pending
reset_to_pending-count [] tx = refl
reset_to_pending-count (s ∷ ss) tx =
    reset_to_pending-count ss (change_step s (λ t. record t { status = Status.pending }) tx)
    ∙ change_step-count s (λ t. record t { status = Status.pending }) tx

SameCount-Tolerates : (s : Step) → Tolerates SameCount s
SameCount-Tolerates s = record {
  pre = SameCount-pre;
  add_history = append_history-count;
  set_data = λ state artifacts tx. refl;
  change_own = λ f tx k. change_step-count s f tx;
  skip_pending = λ u tx p. change_step-count u (λ t. record t { status = Status.skipped }) tx;
}

pub reset_skipped-count : (tx : Transaction) → SameCount tx (reset_skipped_steps tx)
unfolding reset_skipped_steps
reset_skipped-count tx = ground arith

module _ {W : Type 0} (env : Environment W) (engine : Engine) where
  execute_pass-count :
      (blocked : Option (List ℕ)) → Moves (OnWorld SameCount) (execute_pass env engine blocked)
  execute_pass-count blocked =
      execute_pass-Moves env engine blocked SameCount-pre
        (λ s w _ _. (start_step-Moves env engine s (SameCount-Tolerates s)).at w)

  abbrev pub count : World W → ℕ
  count w = w.transaction.retry_count

  pub log-count : (event : HistoryEvent) → Moves (OnWorld SameCount) (append env event none true)
  log-count event = append-Moves SameCount-pre env event none true (append_history-count event)

  pub save-count : Moves (OnWorld SameCount) (checkpoint env)
  save-count = checkpoint-Moves SameCount-pre env

  pub then_ :
      (m : Exec (World W) (Unit {0})) (f : Unit {0} → Exec (World W) (Unit {0}))
      → Moves (OnWorld SameCount) m
      → ((a : Unit {0}) → Moves (OnWorld SameCount) (f a))
      → Moves (OnWorld SameCount) (m >>= f)
  then_ m f = Moves-bind (world_pre SameCount-pre) m f

  pass_again-count : Moves (OnWorld SameCount) (pass_again env engine)
  unfolding pass_again
  pass_again-count = record { at = λ w. (execute_pass-count _).at w }

  -- All behind the counting of the pass.
  counted : Moves (OnWorld SameCount) (
      append env HistoryEvent.retry_scheduled none true >>= λ _.
      pass_again env engine >>= λ _. checkpoint env)
  counted =
      then_ (append env HistoryEvent.retry_scheduled none true)
        (λ _. pass_again env engine >>= λ _. checkpoint env)
        (log-count HistoryEvent.retry_scheduled)
        (λ _.
          then_ (pass_again env engine) (λ _. checkpoint env) pass_again-count (λ _. save-count))

  slept :
      (passes : ℕ) (w : World W)
      → (o : W) × (sleep_before_retry env engine passes w ≡ (ok tt, record w { outside = o }))
  unfolding sleep_before_retry
  slept passes w = elim (Bool-cases engine.delays_retries) [
    | inl e ↦ (env.sleep passes w.outside, rw e refl)
    | inr e ↦ (w.outside, rw e refl)
  ]

  -- A retry pass is counted once, whether it returns or raises.
  run_again-count :
      (passes : ℕ) (w : World W) → count (run_again env engine passes w).1 ≡ count w + 1
  unfolding run_again
  run_again-count passes w =
      let (o, e) = slept passes w in
      let later : Exec (World W) (Unit {0}) =
        append env HistoryEvent.retry_scheduled none true >>= λ _.
        pass_again env engine >>= λ _. checkpoint env in
      let counting : Exec (World W) (Unit {0}) =
        modify_transaction (λ t. record t { retry_count = t.retry_count + 1 }) >>= λ _. later in
      let v : World W = record {
        transaction = record w.transaction { retry_count = count w + 1 };
        outside = o;
      } in
      ap (λ (p : Result (Unit {0}) × World W). count (((λ (u : World W). p) >>= λ _. counting) w).1)
        e
      ∙ counted.at v

  retry_pass-count :
      (ss : List Step) (w : World W) → count (retry_pass env engine ss w).1 ≡ count w + 1
  unfolding retry_pass
  retry_pass-count ss w =
      run_again-count (count w) (record w { transaction = reset_to_pending ss w.transaction })
      ∙ ap (λ n. n + 1) (reset_to_pending-count ss w.transaction)

  -- The loop has nothing left to do: the retries are used up, or no failed step may be retried.
  abbrev pub IsExhausted : Transaction → Type 0
  IsExhausted tx = (engine.max_retries ≤ tx.retry_count) ⊎ (retryable_failed_steps tx ≡ [])

  unfoldable pub Stopped : World W → Type 0
  Stopped w = (count w ≤ engine.max_retries) × IsExhausted w.transaction

  is_nil_sound : (ss : List Step) → is_nil ss ≡ true → ss ≡ []
  is_nil_sound [] h = refl
  is_nil_sound (s ∷ ss) h = cc

  stop_sound :
      (tx : Transaction)
      → (not (ltb tx.retry_count engine.max_retries) || is_nil (retryable_failed_steps tx)) ≡ true
      → IsExhausted tx
  stop_sound tx h = elim (Bool-cases (is_nil (retryable_failed_steps tx))) [
    | inl e ↦ inr (is_nil_sound (retryable_failed_steps tx) e)
    | inr e ↦ inl (ground arith)
  ]

  unfoldable pub Ends : (m : Exec (World W) (Unit {0})) → World W → Type 0
  Ends m w = (m w).0 ≡ ok tt → Stopped (m w).1

  again-Ends :
      (fuel : ℕ) (w : World W)
      → ((v : World W) → count v ≡ count w + 1 → Ends (retry_loop env engine fuel) v)
      → Ends
          (retry_pass env engine (retryable_failed_steps w.transaction) >>= λ _.
            retry_loop env engine fuel)
          w
  unfolding Ends
  again-Ends fuel w rest h =
      let again = retry_pass env engine (retryable_failed_steps w.transaction) in
      let (_, _, e) = bind_ok again (λ _. retry_loop env engine fuel) w h in
      subst (λ (p : Result (Unit {0}) × World W). Stopped p.1) (sym e)
        (rest (again w).1 (retry_pass-count (retryable_failed_steps w.transaction) w)
          (sym (ap (λ (p : Result (Unit {0}) × World W). p.0) e) ∙ h))

  stop_or_again-Ends :
      (stops : Bool) (fuel : ℕ) (w : World W)
      → (not (ltb (count w) engine.max_retries) || is_nil (retryable_failed_steps w.transaction))
        ≡ stops
      → count w ≤ engine.max_retries
      → ((v : World W)
          → count v ≡ count w + 1
          → count v ≤ engine.max_retries
          → Ends (retry_loop env engine fuel) v)
      → Ends
          (if stops
            then pure tt
            else retry_pass env engine (retryable_failed_steps w.transaction) >>= λ _.
                retry_loop env engine fuel)
          w
  unfolding Ends Stopped
  stop_or_again-Ends true fuel w e bound rest h = (bound, stop_sound w.transaction e)
  stop_or_again-Ends false fuel w e bound rest h =
      again-Ends fuel w (λ v c. rest v c (ground (arith, c))) h

  -- With enough fuel, the loop stops only where it has nothing left to do.
  retry_loop-Ends :
      (fuel : ℕ) (w : World W)
      → engine.max_retries ≤ count w + fuel
      → count w ≤ engine.max_retries
      → Ends (retry_loop env engine fuel) w
  unfolding retry_loop Stopped Ends
  retry_loop-Ends zero w enough bound h = (bound, inl (omega arith))
  retry_loop-Ends (suc fuel) w enough bound h =
      stop_or_again-Ends
        (not (ltb (count w) engine.max_retries) || is_nil (retryable_failed_steps w.transaction))
        fuel w refl bound (λ v c b. retry_loop-Ends fuel v (omega (arith, c, enough)) b) h

  pub run_passes-Ends :
      (blocked : Option (List ℕ)) (w : World W)
      → count w ≤ engine.max_retries
      → Ends (run_passes env engine blocked) w
  unfolding run_passes Ends
  run_passes-Ends blocked w bound h =
      let first = execute_pass env engine blocked in
      let later : Unit {0} → Exec (World W) (Unit {0}) = λ _.
        get_transaction >>= λ tx. retry_loop env engine (engine.max_retries - tx.retry_count) in
      let (_, _, e) = bind_ok first later w h in
      let v = (first w).1 in
      let same = (execute_pass-count blocked).at w in
      subst (λ (p : Result (Unit {0}) × World W). Stopped p.1) (sym e)
        (retry_loop-Ends (engine.max_retries - count v) v (omega arith) (omega (arith, same, bound))
          (sym (ap (λ (p : Result (Unit {0}) × World W). p.0) e) ∙ h))
