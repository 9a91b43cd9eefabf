-- ===== src/Transaction/Order.antt =====
-- `ordered_steps` lists the transaction's steps by their execution order.
use mathlib.Core.List.{Perm}
use mathlib.Core.List.Perm
use rpacore.Base.{◌≤ℤ◌, Bool-cases, inl, inr, leb_ℤ, List, [], ◌∷◌, arith, All}
use rpacore.Transaction.{Step, Transaction, insert_step, sort_steps, ordered_steps}

-- Each step's order is at most that of every later one.
abbrev pub IsOrdered : List Step → Type 0
IsOrdered [] = Unit
IsOrdered (s ∷ ss) = All (λ t. s.execution_order ≤ℤ t.execution_order) ss × IsOrdered ss

All-insert :
    (a s : Step) (ss : List Step)
    → a.execution_order ≤ℤ s.execution_order
    → All (λ t. a.execution_order ≤ℤ t.execution_order) ss
    → All (λ t. a.execution_order ≤ℤ t.execution_order) (insert_step s ss)
unfolding insert_step
All-insert a s [] h hs = (h, tt)
All-insert a s (t ∷ ts) h hs = ground (arith, All-insert a s ts h hs.1)

All-weaken :
    (a s : Step) (ss : List Step)
    → a.execution_order ≤ℤ s.execution_order
    → All (λ t. s.execution_order ≤ℤ t.execution_order) ss
    → All (λ t. a.execution_order ≤ℤ t.execution_order) ss
All-weaken a s [] h hs = tt
All-weaken a s (t ∷ ts) h hs = (omega arith, All-weaken a s ts h hs.1)

insert_step-IsOrdered : (s : Step) (ss : List Step) → IsOrdered ss → IsOrdered (insert_step s ss)
unfolding insert_step
insert_step-IsOrdered s [] h = (tt, tt)
insert_step-IsOrdered s (t ∷ ts) h =
    ground (arith, All-weaken s t ts, All-insert t s ts, insert_step-IsOrdered s ts h.1)

sort_steps-IsOrdered : (ss : List Step) → IsOrdered (sort_steps ss)
unfolding sort_steps
sort_steps-IsOrdered [] = tt
sort_steps-IsOrdered (s ∷ ss) = insert_step-IsOrdered s (sort_steps ss) (sort_steps-IsOrdered ss)

insert_step-perm : (s : Step) (ss : List Step) → Perm (insert_step s ss) (s ∷ ss)
unfolding insert_step
insert_step-perm s [] = Perm.refl (s ∷ [])
insert_step-perm s (t ∷ ts) = elim (Bool-cases (leb_ℤ s.execution_order t.execution_order)) [
  | inl before ↦ rw before (Perm.refl (s ∷ t ∷ ts))
  | inr after ↦ rw after (Perm.trans (Perm.cons t (insert_step-perm s ts)) (Perm.swap s t ts))
]

sort_steps-perm : (ss : List Step) → Perm (sort_steps ss) ss
unfolding sort_steps
sort_steps-perm [] = Perm.refl []
sort_steps-perm (s ∷ ss) =
    Perm.trans (insert_step-perm s (sort_steps ss)) (Perm.cons s (sort_steps-perm ss))

-- The steps come out by ascending execution order, and they are the transaction's steps, each as
-- often as it is listed there.
pub ordered_steps_lem :
    (tx : Transaction) → IsOrdered (ordered_steps tx) × Perm (ordered_steps tx) tx.steps
unfolding ordered_steps
ordered_steps_lem tx = (sort_steps-IsOrdered tx.steps, sort_steps-perm tx.steps)
