-- ===== src/Queue/Fencing.antt =====
-- Leases: a token that no longer stands in its item gives no access to it.
use rpacore.Base.{
  ◌≡◌, refl, sym, ◌∙◌, inl, inr, String, true, false, List, [], ◌∷◌, ◌++◌, Option, none, some,
  arith, Bool-cases, str_eq, str_eq_iff, find,
}
use rpacore.Queue.Rows.{QueueItem, is_empty, has_id, passes, matches, owned_by, set_row}
use rpacore.Queue.Agreement.{find-set_row}

-- The item has another token, or there is no such item.
unfoldable pub Lacks : String → String → List QueueItem → Type 0
Lacks i token items = matches i (λ r. str_eq r.claim_token token) items ≡ false

module _ (i token : String) where
  pub Lacks-set_row :
      (j : String) (f : QueueItem → QueueItem) (items : List QueueItem)
      → ((r : QueueItem) → (f r).id ≡ r.id)
      → ((r : QueueItem)
          → str_eq r.claim_token token ≡ false
          → str_eq (f r).claim_token token ≡ false)
      → Lacks i token items
      → Lacks i token (set_row j f items)
  unfolding Lacks matches set_row
  Lacks-set_row j f [] keeps tok h = refl
  Lacks-set_row j f (x ∷ xs) keeps tok h = elim (Bool-cases (has_id j x)) [
    | inl e ↦
        rw (e, keeps x)
          (elim (Bool-cases (has_id i x)) [
            | inl d ↦ rw d (tok x (ground (arith, h, d)))
            | inr d ↦ rw d (ground (arith, h, d))
          ])
    | inr e ↦ rw e (elim (Bool-cases (has_id i x)) [
      | inl d ↦ rw d (ground (arith, h, d))
      | inr d ↦ rw d (Lacks-set_row j f xs keeps tok (ground (arith, h, d)))
    ])
  ]

  -- An empty token is another one.
  empty-differs : (s : String) → is_empty token ≡ false → s ≡ "" → str_eq s token ≡ false
  empty-differs s set e = elim (Bool-cases (str_eq s token)) [
    | inl h ↦
        let same : token ≡ "" = sym ((str_eq_iff s token).0 h) ∙ e in
        absurd (contradiction ((str_eq_iff token "").1 same))
    | inr h ↦ h
  ]
    where
      contradiction : is_empty token ≡ true → ⊥
      contradiction e = cc (e, set)

  pub Lacks-clear :
      (j : String) (f : QueueItem → QueueItem) (items : List QueueItem)
      → is_empty token ≡ false
      → ((r : QueueItem) → (f r).id ≡ r.id)
      → ((r : QueueItem) → (f r).claim_token ≡ "")
      → Lacks i token items
      → Lacks i token (set_row j f items)
  Lacks-clear j f items set keeps cleared lacks =
      Lacks-set_row j f items keeps (λ r _. empty-differs (f r).claim_token set (cleared r)) lacks

  pub Lacks-append :
      (items : List QueueItem) (item : QueueItem)
      → is_empty token ≡ false
      → item.claim_token ≡ ""
      → Lacks i token items
      → Lacks i token (items ++ (item ∷ []))
  unfolding Lacks matches
  Lacks-append [] item set e h = elim (Bool-cases (has_id i item)) [
    | inl d ↦ rw d (empty-differs item.claim_token set e)
    | inr d ↦ rw d refl
  ]
  Lacks-append (x ∷ xs) item set e h = elim (Bool-cases (has_id i x)) [
    | inl d ↦ rw d (ground (arith, h, d))
    | inr d ↦ rw d (Lacks-append xs item set e (ground (arith, h, d)))
  ]

  -- An item that has just been cleared lacks every token.
  pub Lacks-cleared :
      (f : QueueItem → QueueItem) (items : List QueueItem) {r : QueueItem}
      → is_empty token ≡ false
      → ((r : QueueItem) → (f r).id ≡ r.id)
      → ((r : QueueItem) → (f r).claim_token ≡ "")
      → find (has_id i) items ≡ some r
      → Lacks i token (set_row i f items)
  unfolding Lacks matches
  Lacks-cleared f items {r} set keeps cleared found =
      rw (find-set_row i f keeps items found) (empty-differs (f r).claim_token set (cleared r))

  -- Without its token, no worker owns the item.
  pub Lacks-owned :
      (worker : String) (items : List QueueItem)
      → Lacks i token items
      → matches i (owned_by worker token) items ≡ false
  unfolding Lacks matches
  Lacks-owned worker items h = go (find (has_id i) items) h
    where
      go :
          (o : Option QueueItem)
          → passes (λ r. str_eq r.claim_token token) o ≡ false
          → passes (owned_by worker token) o ≡ false
      go none h = refl
      go (some r) h = ground (arith, h)
