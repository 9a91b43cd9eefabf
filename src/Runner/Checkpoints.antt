-- ===== src/Runner/Checkpoints.antt =====
-- A checkpoint of the runner that returns has saved the snapshot, by the holder of the claim.
use rpacore.Base.{
  ℕ, ◌+◌, ◌≡◌, refl, sym, ap, ◌∙◌, subst, inl, inr, pos, true, false, Bool-cases, arith, Option,
}
use rpacore.Exceptions.{Error, checkpoint_failed}
use rpacore.Exec.{Exec, Result, ok, err, raise, ◌>>=◌}
use rpacore.Exec.Keeps.{bind_ok}
use rpacore.Transaction.{Transaction}
use rpacore.Queue.Rows.{QueueItem}
use rpacore.Checkpoint.{Stores, fence_of, save_queue_transaction_fenced}
use rpacore.Checkpoint.Guarded.{IsGuarded, IsGuardedOr, save_queue_transaction_fenced-IsGuardedOr}
use rpacore.Persistence.Revisions.{new_revision}
use rpacore.Runner.State.{
  RunState, Calls, is_fence_error, is_invalid, stores_of, put_stores, on_stores,
}
use rpacore.Runner.Retries.{attempt, claim_of, save_with_retries}
use rpacore.Runner.Attempts.{IsLast, with_retries-IsLast, attempt-cases}
use rpacore.Runner.Policy.{checkpoint_allows_retry}
use rpacore.Runner.Binding.{
  durable_snapshot, checkpoint_error, checkpoint_result, strict_checkpoint,
}

module _ {W : Type 0} (calls : Calls W) (item : QueueItem) (tx : Transaction) where
  -- What a checkpoint at a revision has left.
  pub record IsCheckpointed (revision : ℕ) (out : RunState W) : Type 0 where
    pub before : Stores
    pub guarded :
        IsGuarded tx (claim_of calls item) (pos revision) false before (stores_of out) out.revision
    pub next : out.revision ≡ revision + 1

  save : ℕ → Exec (RunState W) ℕ
  unfolding save_queue_transaction_fenced
  save revision =
      on_stores (save_queue_transaction_fenced tx (claim_of calls item) (pos revision) false)

  saved-IsCheckpointed :
      (revision n : ℕ) (u t : RunState W)
      → save revision u ≡ (ok n, t)
      → IsCheckpointed revision (record t { revision = n })
  unfolding save
  saved-IsCheckpointed revision n u t h =
      go (save_queue_transaction_fenced tx (claim_of calls item) (pos revision) false (stores_of u))
        (save_queue_transaction_fenced-IsGuardedOr tx (claim_of calls item) (pos revision) false
          (stores_of u))
        h
    where
      value : Result ℕ × RunState W → ℕ
      value (ok m, s) = m
      value (err e, s) = n

      go :
          (r : Result ℕ × Stores)
          → IsGuardedOr tx (claim_of calls item) (pos revision) false (stores_of u) r
          → on_stores (λ (s : Stores). r) u ≡ (ok n, t)
          → IsCheckpointed revision (record t { revision = n })
      go (ok m, s) g e =
          let same : m ≡ n = ap value e in
          let left : put_stores s u ≡ t = ap (λ (p : Result ℕ × RunState W). p.1) e in
          record {
            before = stores_of u;
            guarded =
                subst
                  (λ k.
                    IsGuarded tx (claim_of calls item) (pos revision) false (stores_of u)
                      (stores_of t) k)
                  same
                  (subst
                    (λ (v : RunState W).
                      IsGuarded tx (claim_of calls item) (pos revision) false (stores_of u)
                        (stores_of v) m)
                    left g);
            next =
                sym same
                ∙ new_revision tx (fence_of (claim_of calls item) (pos revision))
                    (stores_of u).database s.database g.saved;
          }
      go (err x, s) g e = cc

  decided : Option Transaction → Exec (RunState W) (Unit {0})
  decided durable = raise (checkpoint_failed (checkpoint_allows_retry tx durable))

  -- A save that failed makes the checkpoint raise.
  failed_raises :
      (x : Error) (t : RunState W) → (checkpoint_result calls tx (err x) t).0 ≡ ok tt → ⊥
  unfolding checkpoint_result checkpoint_error decided
  failed_raises x t h = elim (Bool-cases (is_fence_error x)) [
    | inl fence ↦ absurd (fenced fence h)
    | inr other ↦ elim (Bool-cases (is_invalid x)) [
      | inl invalid ↦ absurd (refused other invalid h)
      | inr valid ↦
          let (d, _, e) =
            bind_ok (durable_snapshot calls tx) decided
              (record t { persistence_errors = t.persistence_errors + 1 })
              (reached other valid h) in
          absurd
            (clash _ (ap (λ (p : Result (Unit {0}) × RunState W). p.0) e) (reached other valid h))
    ]
  ]
    where
      fenced : is_fence_error x ≡ true → (checkpoint_result calls tx (err x) t).0 ≡ ok tt → ⊥
      fenced f k = ground (arith, f, k)

      refused :
          is_fence_error x ≡ false
          → is_invalid x ≡ true
          → (checkpoint_result calls tx (err x) t).0 ≡ ok tt
          → ⊥
      refused f i k = ground (arith, f, i, k)

      reached :
          is_fence_error x ≡ false
          → is_invalid x ≡ false
          → (checkpoint_result calls tx (err x) t).0 ≡ ok tt
          → ((durable_snapshot calls tx >>= decided)
              (record t { persistence_errors = t.persistence_errors + 1 })).0
            ≡ ok tt
      reached f i k = ap (λ (p : Result (Unit {0}) × RunState W). p.0) (sym (pick f i)) ∙ k
        where
          pick :
              is_fence_error x ≡ false
              → is_invalid x ≡ false
              → checkpoint_result calls tx (err x) t
                ≡ (durable_snapshot calls tx >>= decided)
                    (record t { persistence_errors = t.persistence_errors + 1 })
          pick a b = rw (a, b) refl

      clash : {y : Error} (r : Result (Unit {0})) → r ≡ err y → r ≡ ok tt → ⊥
      clash r p q = cc

  -- A checkpoint of the runner that returns has saved the snapshot at the revision that the runner
  -- knew, which was the stored one, while the worker held the claim of the item; the runner then
  -- knows the next revision. What others did before its last attempt is in the databases that it
  -- found.
  pub strict_checkpoint-IsCheckpointed :
      (st : RunState W)
      → (strict_checkpoint calls item tx st).0 ≡ ok tt
      → IsCheckpointed st.revision (strict_checkpoint calls item tx st).1
  unfolding strict_checkpoint save_with_retries save
  strict_checkpoint-IsCheckpointed st h =
      go (save_with_retries calls item tx st.revision false st)
        (with_retries-IsLast calls 2 (attempt calls (save st.revision)) st) h
    where
      go :
          (out : Result (Result ℕ) × RunState W)
          → IsLast calls (attempt calls (save st.revision)) out
          → (((λ (s : RunState W). out) >>= checkpoint_result calls tx) st).0 ≡ ok tt
          → IsCheckpointed st.revision
              (((λ (s : RunState W). out) >>= checkpoint_result calls tx) st).1
      go (ok (ok n), t) last e = elim (attempt-cases calls (save st.revision) last.before) [
        | inl (u, same) ↦ saved-IsCheckpointed st.revision n u t (sym same ∙ last.result)
        | inr (x, seen, refused) ↦
            absurd (clash (sym refused ∙ ap (λ (p : Result ℕ × RunState W). p.0) last.result))
      ]
        where
          clash : {x : Error} → err x ≡ ok n → ⊥
          clash k = cc
      go (ok (err x), t) last e = absurd (failed_raises x t e)
      go (err x, t) last e = cc
