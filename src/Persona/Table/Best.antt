-- ===== src/Persona/Table/Best.antt =====
-- The rule that a table picks: it matches, and no matching rule has a higher priority.
use soul_llink.Base.{
  ◌≤◌, ◌≡◌, refl, true, false, List, [], ◌∷◌, none, some, arith, All, All-map, Member, Bool-cases,
  inl, inr,
}
use soul_llink.Base.Sorting.{
  sorted, insert_sorted, All-insert_sorted, Member-sorted, All-sorted_back,
}
use mathlib.Core.Path.{subst}
use native.Mathlib.Nat.{le_trans}
use soul_llink.Persona.Table.{TransitionRule, TableInput, matches, outranks, table_rules, decide}

-- Priorities fall along the list.
abbrev pub Descending : List TransitionRule → Type 0
Descending [] = Unit
Descending (r ∷ rules) = All (λ q. q.priority ≤ r.priority) rules × Descending rules

Descending-insert_sorted :
    (r : TransitionRule) (rules : List TransitionRule)
    → Descending rules
    → Descending (insert_sorted outranks r rules)
unfolding insert_sorted
Descending-insert_sorted r [] d = (tt, tt)
Descending-insert_sorted r (x ∷ rules) d = elim (Bool-cases (outranks x r)) [
  | inl e ↦ rw e (
    All-insert_sorted outranks (λ q. q.priority ≤ x.priority) r rules (ground arith) d.0,
    Descending-insert_sorted r rules d.1,
  )
  | inr e ↦ rw e ((ground arith, All-map _ _ (λ q h. le_trans h (ground arith)) rules d.0), d)
]

pub Descending-table_rules : (rules : List TransitionRule) → Descending (table_rules rules)
unfolding table_rules sorted
Descending-table_rules [] = tt
Descending-table_rules (r ∷ rules) =
    Descending-insert_sorted r (table_rules rules) (Descending-table_rules rules)

-- No rule that matches has a higher priority.
abbrev pub IsBestIn : TableInput → TransitionRule → List TransitionRule → Type 0
IsBestIn i r rules = All (λ q. matches q.condition i ≡ true → q.priority ≤ r.priority) rules

decide_best_sorted :
    (i : TableInput) (r : TransitionRule) (rules : List TransitionRule)
    → Descending rules
    → decide rules i ≡ some r
    → Member r rules × (matches r.condition i ≡ true) × IsBestIn i r rules
unfolding decide
decide_best_sorted i r [] d e = cc
decide_best_sorted i r (x ∷ rules) d e = elim (Bool-cases (matches x.condition i)) [
  | inl hit ↦
      let picked : some x ≡ some r = rw hit at e in
      let same : x ≡ r = cc in
      let below =
        All-map (λ q. q.priority ≤ x.priority)
          (λ q. matches q.condition i ≡ true → q.priority ≤ x.priority) (λ q le _. le) rules d.0 in
      subst (λ q. Member q (x ∷ rules) × (matches q.condition i ≡ true) × IsBestIn i q (x ∷ rules))
        same (inl refl, hit, ((λ _. omega arith), below))
  | inr miss ↦
      let (there, fits, best) = decide_best_sorted i r rules d.1 (rw miss at e) in
      (inr there, fits, ((λ h. cc), best))
]

-- The rule that the table picks is one of its rules and matches the input, and no rule that
-- matches the input has a higher priority.
pub decide_best :
    (rules : List TransitionRule) (i : TableInput) (r : TransitionRule)
    → decide (table_rules rules) i ≡ some r
    → Member r rules × (matches r.condition i ≡ true) × IsBestIn i r rules
unfolding table_rules
decide_best rules i r e =
    let sorted_rules = Descending-table_rules rules in
    let (there, fits, best) = decide_best_sorted i r (table_rules rules) sorted_rules e in
    (Member-sorted outranks r rules there, fits, All-sorted_back outranks _ rules best)

decide-none_sorted :
    (i : TableInput) (rules : List TransitionRule)
    → decide rules i ≡ none
    → All (λ q. matches q.condition i ≡ false) rules
unfolding decide
decide-none_sorted i [] e = tt
decide-none_sorted i (x ∷ rules) e = elim (Bool-cases (matches x.condition i)) [
  | inl hit ↦ let bad : some x ≡ none = rw hit at e in cc
  | inr miss ↦ (miss, decide-none_sorted i rules (rw miss at e))
]

-- If the table picks no rule then no rule matches.
pub decide-none :
    (rules : List TransitionRule) (i : TableInput)
    → decide (table_rules rules) i ≡ none
    → All (λ q. matches q.condition i ≡ false) rules
unfolding table_rules
decide-none rules i e =
    All-sorted_back outranks _ rules (decide-none_sorted i (table_rules rules) e)
