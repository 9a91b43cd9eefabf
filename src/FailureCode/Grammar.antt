-- ===== src/FailureCode/Grammar.antt =====
-- The matcher of failure codes against its grammar: two or more segments, joined by dots.
use mathlib.Core.Path.{ap₂}
use rpacore.Base.{
  ℕ, ◌≡◌, refl, ap, ◌≢◌, ◌↔◌, ◌⊎◌, inl, inr, Bool, true, false, List, [], ◌∷◌, ◌++◌, arith, ◌==◌,
  All, Bool-cases,
}
use rpacore.FailureCode.{
  dot, is_lower, is_word, at_start, in_segment, matches_from, matches_failure_code,
}

abbrev AreWords : List ℕ → Type 0
AreWords = All (λ c. is_word c ≡ true)

-- A lowercase letter, then letters, digits and underscores.
abbrev pub IsSegment : List ℕ → Type 0
IsSegment [] = ⊥
IsSegment (c ∷ cs) = (is_lower c ≡ true) × AreWords cs

-- Each segment behind a dot.
abbrev pub dotted : List (List ℕ) → List ℕ
dotted [] = []
dotted (s ∷ ss) = dot ∷ (s ++ dotted ss)

-- A code: a segment, and at least one more behind a dot.
pub record IsFailureCode (cs : List ℕ) : Type 0 where
  pub head : List ℕ
  pub next : List ℕ
  pub more : List (List ℕ)
  pub head_valid : IsSegment head
  pub next_valid : IsSegment next
  pub more_valid : All IsSegment more
  pub spelled : cs ≡ head ++ dotted (next ∷ more)

words_then :
    (seen : Bool) (ws rest : List ℕ)
    → AreWords ws
    → matches_from (in_segment seen) (ws ++ rest) ≡ matches_from (in_segment seen) rest
unfolding matches_from
words_then seen [] rest h = refl
words_then seen (w ∷ ws) rest h = ground (arith, words_then seen ws rest h.1)

segment_then :
    (seen : Bool) (s rest : List ℕ)
    → IsSegment s
    → matches_from (at_start seen) (s ++ rest) ≡ matches_from (in_segment seen) rest
unfolding matches_from
segment_then seen [] rest h = absurd h
segment_then seen (c ∷ cs) rest h = ground (arith, words_then seen cs rest h.1)

dotted_matches :
    (ss : List (List ℕ)) → All IsSegment ss → matches_from (in_segment true) (dotted ss) ≡ true
unfolding matches_from
dotted_matches [] h = refl
dotted_matches (s ∷ ss) h =
    ground (arith, segment_then true s (dotted ss) h.0, dotted_matches ss h.1)

complete : (cs : List ℕ) → IsFailureCode cs → matches_failure_code cs ≡ true
unfolding matches_failure_code
complete cs c = ground (
  arith,
  c.spelled,
  segment_then false c.head (dotted (c.next ∷ c.more)) c.head_valid,
  segment_then true c.next (dotted c.more) c.next_valid,
  dotted_matches c.more c.more_valid,
)

-- What is left of a segment, and the segments after it.
record Rest (seen : Bool) (cs : List ℕ) : Type 0 where
  words : List ℕ
  later : List (List ℕ)
  words_valid : AreWords words
  later_valid : All IsSegment later
  enough : (seen ≡ true) ⊎ (later ≢ [])
  spelled : cs ≡ words ++ dotted later

after_word :
    (seen : Bool) (c : ℕ) (cs : List ℕ)
    → (c == dot) ≡ false
    → matches_from (in_segment seen) (c ∷ cs) ≡ true
    → (is_word c ≡ true) × (matches_from (in_segment seen) cs ≡ true)
unfolding matches_from
after_word seen c cs e h = ground arith

after_dot :
    (seen : Bool) (c d : ℕ) (cs : List ℕ)
    → (c == dot) ≡ true
    → matches_from (in_segment seen) (c ∷ d ∷ cs) ≡ true
    → (c ≡ dot) × (is_lower d ≡ true) × (matches_from (in_segment true) cs ≡ true)
unfolding matches_from
after_dot seen c d cs e h = ground arith

not_last_dot :
    (seen : Bool) (c : ℕ) → (c == dot) ≡ true → matches_from (in_segment seen) (c ∷ []) ≡ true → ⊥
unfolding matches_from
not_last_dot seen c e h = ground arith

extend : (seen : Bool) (c : ℕ) (cs : List ℕ) → is_word c ≡ true → Rest seen cs → Rest seen (c ∷ cs)
extend seen c cs w r = record {
  words = c ∷ r.words;
  later = r.later;
  words_valid = (w, r.words_valid);
  later_valid = r.later_valid;
  enough = r.enough;
  spelled = ap (λ t. c ∷ t) r.spelled;
}

open_segment :
    (seen : Bool) (c d : ℕ) (cs : List ℕ)
    → c ≡ dot
    → is_lower d ≡ true
    → Rest true cs
    → Rest seen (c ∷ d ∷ cs)
open_segment seen c d cs e l r = record {
  words = [];
  later = (d ∷ r.words) ∷ r.later;
  words_valid = tt;
  later_valid = ((l, r.words_valid), r.later_valid);
  enough = inr (λ p. cc);
  spelled = ap₂ (λ (a : ℕ) (t : List ℕ). a ∷ d ∷ t) e r.spelled;
}

no_words : (seen : Bool) → seen ≡ true → Rest seen []
no_words seen h = record {
  words = [];
  later = [];
  words_valid = tt;
  later_valid = tt;
  enough = inl h;
  spelled = refl;
}

matches_end : (seen : Bool) → matches_from (in_segment seen) [] ≡ true → seen ≡ true
unfolding matches_from
matches_end seen h = h

remaining : (seen : Bool) (cs : List ℕ) → matches_from (in_segment seen) cs ≡ true → Rest seen cs
remaining seen [] h = no_words seen (matches_end seen h)
remaining seen (c ∷ []) h = elim (Bool-cases (c == dot)) [
  | inl e ↦ absurd (not_last_dot seen c e h)
  | inr e ↦
      let (w, h') = after_word seen c [] e h in
      extend seen c [] w (no_words seen (matches_end seen h'))
]
remaining seen (c ∷ d ∷ cs) h = elim (Bool-cases (c == dot)) [
  | inl e ↦
      let (is_dot, l, h') = after_dot seen c d cs e h in
      open_segment seen c d cs is_dot l (remaining true cs h')
  | inr e ↦
      let (w, h') = after_word seen c (d ∷ cs) e h in
      extend seen c (d ∷ cs) w (remaining seen (d ∷ cs) h')
]

after_start :
    (c : ℕ) (cs : List ℕ)
    → matches_failure_code (c ∷ cs) ≡ true
    → (is_lower c ≡ true) × (matches_from (in_segment false) cs ≡ true)
unfolding matches_failure_code
after_start c cs h = ground arith

code_of : (c : ℕ) (cs : List ℕ) → is_lower c ≡ true → Rest false cs → IsFailureCode (c ∷ cs)
code_of c cs l r = go r.later r.later_valid r.enough r.spelled
  where
    go :
        (later : List (List ℕ))
        → All IsSegment later
        → (false ≡ true) ⊎ (later ≢ [])
        → cs ≡ r.words ++ dotted later
        → IsFailureCode (c ∷ cs)
    go [] valid (inl e) spelled = cc
    go [] valid (inr e) spelled = absurd (e refl)
    go (s ∷ ss) valid e spelled = record {
      head = c ∷ r.words;
      next = s;
      more = ss;
      head_valid = (l, r.words_valid);
      next_valid = valid.0;
      more_valid = valid.1;
      spelled = ap (λ t. c ∷ t) spelled;
    }

not_empty : matches_failure_code [] ≡ true → ⊥
unfolding matches_failure_code
not_empty h = cc

sound : (cs : List ℕ) → matches_failure_code cs ≡ true → IsFailureCode cs
sound [] h = absurd (not_empty h)
sound (c ∷ cs) h = let (l, h') = after_start c cs h in code_of c cs l (remaining false cs h')

-- The matcher accepts exactly the texts that are two or more segments joined by dots, where a
-- segment is a lowercase letter followed by lowercase letters, digits and underscores.
pub matches_failure_code_iff : (cs : List ℕ) → (matches_failure_code cs ≡ true) ↔ IsFailureCode cs
matches_failure_code_iff cs = (sound cs, complete cs)
