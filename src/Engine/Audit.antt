-- ===== src/Engine/Audit.antt =====
-- What no run changes, on any path: the identity of the transaction and of its steps, and the
-- history so far.
use mathlib.Core.List.{append_assoc, append-nil}
use mathlib.Core.Path.{ap₂}
use rpacore.Base.{
  ℕ, suc, ◌+◌, ◌≤◌, ℤ, ◌≡◌, refl, sym, ap, ◌∙◌, String, Bool, List, [], ◌∷◌, ◌++◌, map, Option,
  some, arith, length, update_where, subst, true, false, if◌then◌else◌,
}
use rpacore.Exec.Keeps.{Moves, Preorder}
use rpacore.Status.{Status, HistoryEvent, is_skipped}
use rpacore.Transaction.{Step, Transaction, HistoryEntry, new_entry, append_history}
use rpacore.Engine.World.{Environment, World, Engine, has_ident, change_step}
use rpacore.Engine.Failures.{
  just_resumed, reset_if_skipped, reset_skipped_steps, retryable_failed_steps,
  business_failed_step_ids,
}
use rpacore.Engine.Pass.{execute_pass}
use rpacore.Engine.Run.{reset_to_pending, pass_again, run}
use rpacore.Engine.Effects.{OnWorld, KeepsWiring, KeepsWiring-status, Tolerates}
use rpacore.Engine.Rounds.{start_step-Moves}
use rpacore.Engine.Passes.{execute_pass-Moves}
use rpacore.Engine.Retries.{KeepsRecords}
use rpacore.Engine.Runs.{ToleratesRun, run-Moves}

-- What identifies a step: its object, its name and its order.
abbrev pub wiring : Step → ℕ × String × ℤ
wiring s = (s.ident, s.name, s.execution_order)

-- Entries carry consecutive numbers, the first of them `n`.
abbrev pub IsNumbered : ℕ → List HistoryEntry → Type 0
IsNumbered n [] = Unit
IsNumbered n (e ∷ es) = (e.sequence ≡ n) × IsNumbered (suc n) es

-- The second transaction is the first with more history: new entries stand behind the old ones,
-- numbered on, and the steps are the same objects in the same places.
pub record Extends (tx tx' : Transaction) : Type 0 where
  pub entries : List HistoryEntry
  pub history : tx'.history ≡ tx.history ++ entries
  pub numbered : IsNumbered 1 tx.history → IsNumbered 1 tx'.history
  pub steps : map wiring tx'.steps ≡ map wiring tx.steps
  pub id : tx'.id ≡ tx.id
  pub reference : tx'.reference ≡ tx.reference
  pub definition_identity : tx'.definition_identity ≡ tx.definition_identity
  pub retry_count : tx.retry_count ≤ tx'.retry_count

Extends-pre : Preorder Extends
Extends-pre = record {
  same = λ tx. record {
    entries = [];
    history = sym (append-nil tx.history);
    numbered = λ h. h;
    steps = refl;
    id = refl;
    reference = refl;
    definition_identity = refl;
    retry_count = omega arith;
  };
  compose = λ tx tx' tx'' a b. record {
    entries = a.entries ++ b.entries;
    history =
        b.history
        ∙ ap (λ es. es ++ b.entries) a.history
        ∙ append_assoc tx.history a.entries b.entries;
    numbered = λ h. b.numbered (a.numbered h);
    steps = b.steps ∙ a.steps;
    id = b.id ∙ a.id;
    reference = b.reference ∙ a.reference;
    definition_identity = b.definition_identity ∙ a.definition_identity;
    retry_count = omega (arith, a.retry_count, b.retry_count);
  };
}

-- `f` leaves all of a transaction's records alone, but for its steps.
Extends-steps :
    (tx : Transaction) (ss : List Step)
    → map wiring ss ≡ map wiring tx.steps
    → Extends tx (record tx { steps = ss })
Extends-steps tx ss h = record {
  entries = [];
  history = sym (append-nil tx.history);
  numbered = λ n. n;
  steps = h;
  id = refl;
  reference = refl;
  definition_identity = refl;
  retry_count = omega arith;
}

IsNumbered-snoc :
    (n : ℕ) (es : List HistoryEntry) (e : HistoryEntry)
    → IsNumbered n es
    → e.sequence ≡ length es + n
    → IsNumbered n (es ++ (e ∷ []))
IsNumbered-snoc n [] e h k = (omega arith, tt)
IsNumbered-snoc n (x ∷ es) e h k = (h.0, IsNumbered-snoc (suc n) es e h.1 (omega arith))

Extends-append_history :
    (event : HistoryEvent) (step : Option Step) (now : ℕ) (tx : Transaction)
    → Extends tx (append_history event step now tx)
unfolding append_history
Extends-append_history event step now tx = record {
  entries = new_entry event step now tx ∷ [];
  history = refl;
  numbered = λ h. IsNumbered-snoc 1 tx.history (new_entry event step now tx) h refl;
  steps = refl;
  id = refl;
  reference = refl;
  definition_identity = refl;
  retry_count = omega arith;
}

map-update_where :
    (p : Step → Bool) (f : Step → Step) (ss : List Step)
    → ((s : Step) → wiring (f s) ≡ wiring s)
    → map wiring (update_where p f ss) ≡ map wiring ss
map-update_where p f [] h = refl
map-update_where p f (s ∷ ss) h =
    ap₂ (λ (w : ℕ × String × ℤ) (ws : List (ℕ × String × ℤ)). w ∷ ws) (one (p s))
      (map-update_where p f ss h)
  where
    one : (b : Bool) → wiring (if b then f s else s) ≡ wiring s
    one true = h s
    one false = refl

Extends-change_step :
    (s : Step) (f : Step → Step) (tx : Transaction)
    → KeepsWiring f
    → Extends tx (change_step s f tx)
unfolding change_step
Extends-change_step s f tx k = Extends-steps tx (update_where (has_ident s.ident) f tx.steps) (
    map-update_where (has_ident s.ident) f tx.steps
      (λ t. λ i. (k.ident t i, k.name t i, k.execution_order t i)))

Extends-Tolerates : (s : Step) → Tolerates Extends s
Extends-Tolerates s = record {
  pre = Extends-pre;
  add_history = Extends-append_history;
  set_data = λ state artifacts tx. record {
    entries = [];
    history = sym (append-nil tx.history);
    numbered = λ n. n;
    steps = refl;
    id = refl;
    reference = refl;
    definition_identity = refl;
    retry_count = omega arith;
  };
  change_own = λ f tx k. Extends-change_step s f tx k;
  skip_pending = λ u tx _.
      Extends-change_step u (λ t. record t { status = Status.skipped }) tx
        (KeepsWiring-status Status.skipped);
}

Extends-write :
    (f : Transaction → Transaction) (tx : Transaction) → KeepsRecords f → Extends tx (f tx)
Extends-write f tx k = record {
  entries = [];
  history = k.history tx ∙ sym (append-nil tx.history);
  numbered = λ n. subst (IsNumbered 1) (sym (k.history tx)) n;
  steps = ap (map wiring) (k.steps tx);
  id = k.id tx;
  reference = k.reference tx;
  definition_identity = k.definition_identity tx;
  retry_count = k.retry_count tx;
}

Extends-reset_to_pending : (ss : List Step) (tx : Transaction) → Extends tx (reset_to_pending ss tx)
unfolding reset_to_pending
Extends-reset_to_pending [] tx = Extends-pre.same tx
Extends-reset_to_pending (s ∷ ss) tx =
    let pend = λ (t : Step). record t { status = Status.pending } in
    Extends-pre.compose tx (change_step s pend tx) _
      (Extends-change_step s pend tx (KeepsWiring-status Status.pending))
      (Extends-reset_to_pending ss (change_step s pend tx))

wiring-reset : (ss : List Step) → map wiring (map reset_if_skipped ss) ≡ map wiring ss
wiring-reset [] = refl
wiring-reset (s ∷ ss) =
    ap₂ (λ (w : ℕ × String × ℤ) (ws : List (ℕ × String × ℤ)). w ∷ ws) (one (is_skipped s.status))
      (wiring-reset ss)
  where
    one : (b : Bool) → wiring (if b then record s { status = Status.pending } else s) ≡ wiring s
    one true = refl
    one false = refl

Extends-reset_skipped : (tx : Transaction) → Extends tx (reset_skipped_steps tx)
unfolding reset_skipped_steps
Extends-reset_skipped tx = go (just_resumed tx)
  where
    go :
        (b : Bool)
        → Extends tx (if b then tx else record tx { steps = map reset_if_skipped tx.steps })
    go true = Extends-pre.same tx
    go false = Extends-steps tx (map reset_if_skipped tx.steps) (wiring-reset tx.steps)

module _ {W : Type 0} (env : Environment W) (engine : Engine) where
  Extends-pass :
      (blocked : Option (List ℕ)) → Moves (OnWorld Extends) (execute_pass env engine blocked)
  Extends-pass blocked =
      execute_pass-Moves env engine blocked Extends-pre
        (λ s w _ _. (start_step-Moves env engine s (Extends-Tolerates s)).at w)

  Extends-ToleratesRun : ToleratesRun env engine Extends
  Extends-ToleratesRun = record {
    retry = record {
      pre = Extends-pre;
      add_history = Extends-append_history;
      write = Extends-write;
      reset = λ tx. Extends-reset_to_pending (retryable_failed_steps tx) tx;
      again =
          unfold pass_again in
          record { at = λ w. (Extends-pass (some (business_failed_step_ids w.transaction))).at w };
    };
    reset_skipped = Extends-reset_skipped;
    pass = Extends-pass;
  }

  -- Whatever the steps, the checkpoints and the sink do, and whether the run returns or raises: the
  -- history only grows, its entries stay numbered from 1 if they were, the steps are the same
  -- objects with the same names and orders in the same places, the transaction keeps its id, its
  -- reference and its definition identity, and its retry count does not fall.
  pub run-Extends : (w : World W) → Extends w.transaction (run env engine w).1.transaction
  run-Extends w = (run-Moves env engine Extends-ToleratesRun).at w
