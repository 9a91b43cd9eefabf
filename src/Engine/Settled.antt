-- ===== src/Engine/Settled.antt =====
-- Steps that a pass or a run leaves exactly as they are.
use rpacore.Base.{
  ℕ, ◌≡◌, refl, sym, ap, ◌≢◌, ◌⊎◌, ◌∙◌, true, false, ◌||◌, List, [], ◌∷◌, Option, none, some, inl,
  inr, Bool-cases, arith, ◌==◌, ==_iff, All, any, find, find_sound, update_where, if◌then◌else◌,
}
use rpacore.Status.{Status, HistoryEvent, is_complete, is_pending}
use rpacore.Exec.Keeps.{Preorder}
use rpacore.Transaction.{Step, Transaction, append_history}
use rpacore.Engine.World.{Environment, World, Engine, has_ident, or_step, current_step, change_step}
use rpacore.Engine.Pass.{is_blocked, start_step, execute_pass}
use rpacore.Engine.Effects.{Tolerates}
use rpacore.Engine.Rounds.{start_step-Moves}
use rpacore.Engine.Passes.{execute_pass-Moves}

-- The transaction has the object `i`, and wherever it lists that object, the object is `t`.
pub record Still (i : ℕ) (t : Step) (tx : Transaction) : Type 0 where
  pub found : find (has_ident i) tx.steps ≡ some t
  pub only : All (λ s. s.ident ≡ i → s ≡ t) tx.steps

module _ (i : ℕ) (t : Step) where
  abbrev pub Only : List Step → Type 0
  Only = All (λ s. s.ident ≡ i → s ≡ t)

  find-update_other :
      (j : ℕ) (f : Step → Step) (ss : List Step)
      → j ≢ i
      → ((s : Step) → (f s).ident ≡ s.ident)
      → find (has_ident i) (update_where (has_ident j) f ss) ≡ find (has_ident i) ss
  find-update_other j f [] h k = refl
  find-update_other j f (s ∷ ss) h k = ground (arith, k s, find-update_other j f ss h k)

  Only-update_other :
      (j : ℕ) (f : Step → Step) (ss : List Step)
      → j ≢ i
      → ((s : Step) → (f s).ident ≡ s.ident)
      → Only ss
      → Only (update_where (has_ident j) f ss)
  Only-update_other j f [] h k all = tt
  Only-update_other j f (s ∷ ss) h k all =
      (one (Bool-cases (has_ident j s)), Only-update_other j f ss h k all.1)
    where
      one :
          (has_ident j s ≡ true) ⊎ (has_ident j s ≡ false)
          → (if has_ident j s then f s else s).ident ≡ i
          → (if has_ident j s then f s else s) ≡ t
      one (inl e) = rw e (λ q. absurd (ground (arith, k s, q)))
      one (inr e) = rw e all.0

  pub Still-change_other :
      (s : Step) (f : Step → Step) (tx : Transaction)
      → s.ident ≢ i
      → ((u : Step) → (f u).ident ≡ u.ident)
      → Still i t tx
      → Still i t (change_step s f tx)
  unfolding change_step
  Still-change_other s f tx h k still = record {
    found = find-update_other s.ident f tx.steps h k ∙ still.found;
    only = Only-update_other s.ident f tx.steps h k still.only;
  }

  -- A reference to the object reads `t`.
  current_step-Still :
      (s : Step) (tx : Transaction) → s.ident ≡ i → Still i t tx → current_step s tx ≡ t
  unfolding current_step
  current_step-Still s tx e still =
      ap (λ (j : ℕ). or_step (find (has_ident j) tx.steps) s) e ∙ ap (λ o. or_step o s) still.found

  pub ident-Still : (tx : Transaction) → Still i t tx → t.ident ≡ i
  ident-Still tx still = (==_iff t.ident i).0 (find_sound (has_ident i) tx.steps still.found)

  unfoldable pub Keeps : Transaction → Transaction → Type 0
  Keeps tx tx' = Still i t tx → Still i t tx'

  pub Keeps-pre : Preorder Keeps
  unfolding Keeps
  Keeps-pre = record { same = λ tx h. h; compose = λ tx tx' tx'' a b h. b (a h) }

  -- A step that is not pending is not skipped.
  Keeps-skip :
      (u : Step) (tx : Transaction)
      → is_pending t.status ≡ false
      → is_pending (current_step u tx).status ≡ true
      → Keeps tx (change_step u (λ s. record s { status = Status.skipped }) tx)
  unfolding Keeps
  Keeps-skip u tx busy pending still = elim (Bool-cases (u.ident == i)) [
    | inl e ↦
        let same = current_step-Still u tx ((==_iff u.ident i).0 e) still in
        absurd (contradiction (ap (λ (s : Step). is_pending s.status) same))
    | inr e ↦
        Still-change_other u (λ s. record s { status = Status.skipped }) tx (ground arith)
          (λ s. refl) still
  ]
    where
      contradiction : is_pending (current_step u tx).status ≡ is_pending t.status → ⊥
      contradiction e = cc (pending, busy, e)

  pub Keeps-append :
      (event : HistoryEvent) (step : Option Step) (now : ℕ) (tx : Transaction)
      → Keeps tx (append_history event step now tx)
  unfolding Keeps append_history
  Keeps-append event step now tx still = record { found = still.found; only = still.only }

  Keeps-Tolerates : (s : Step) → s.ident ≢ i → is_pending t.status ≡ false → Tolerates Keeps s
  Keeps-Tolerates s other busy = record {
    pre = Keeps-pre;
    add_history = Keeps-append;
    set_data = λ state artifacts tx.
        unfold Keeps in (λ still. record { found = still.found; only = still.only });
    change_own = λ f tx k. unfold Keeps in (Still-change_other s f tx other k.ident);
    skip_pending = λ u tx pending. Keeps-skip u tx busy pending;
  }

  is_blocked-ident :
      (blocked : Option (List ℕ)) (s : Step)
      → s.ident ≡ t.ident
      → is_blocked blocked s ≡ is_blocked blocked t
  is_blocked-ident none s e = refl
  is_blocked-ident (some ids) s e = ap (λ (j : ℕ). any (λ k. j == k) ids) e

  -- Where the round of a step starts, the step is not settled.
  pub Keeps-round :
      {W : Type 0} (env : Environment W) (engine : Engine) (blocked : Option (List ℕ))
      → is_pending t.status ≡ false
      → (is_complete t.status || is_blocked blocked t) ≡ true
      → (s : Step) (w : World W) → is_complete (current_step s w.transaction).status ≡ false
      → is_blocked blocked s ≡ false
      → Keeps w.transaction (start_step env engine s w).1.transaction
  unfolding Keeps
  Keeps-round env engine blocked busy settled s w open_ free still =
      elim (Bool-cases (s.ident == i)) [
        | inl e ↦
            let own = (==_iff s.ident i).0 e in
            let same =
              ap (λ (u : Step). is_complete u.status)
                (current_step-Still s w.transaction own still) in
            let blocks = is_blocked-ident blocked s (own ∙ sym (ident-Still w.transaction still)) in
            absurd (contradiction (sym same ∙ open_) (sym blocks ∙ free))
        | inr e ↦ (start_step-Moves env engine s (Keeps-Tolerates s (ground arith) busy)).at w still
      ]
    where
      contradiction : is_complete t.status ≡ false → is_blocked blocked t ≡ false → ⊥
      contradiction a b = ground (arith, settled)

  -- A pass leaves a completed step, and a blocked step that is not pending, exactly as it was:
  -- its status, its exceptions and its arguments, also where the pass raises.
  pub execute_pass-Still :
      {W : Type 0} (env : Environment W) (engine : Engine) (blocked : Option (List ℕ)) (w : World W)
      → is_pending t.status ≡ false
      → (is_complete t.status || is_blocked blocked t) ≡ true
      → Still i t w.transaction
      → Still i t (execute_pass env engine blocked w).1.transaction
  unfolding Keeps
  execute_pass-Still env engine blocked w busy settled still =
      (execute_pass-Moves env engine blocked Keeps-pre
          (Keeps-round env engine blocked busy settled)).at
        w still
