-- ===== src/Injection/Budget/Rounds.antt =====
-- What every round of the two selection loops keeps, and what the loops therefore do.
use soul_llink.Base.{
  Bool-cases, inl, inr, if-keeps, All-append, leb, ltb, ℕ, ◌+◌, ◌≤◌, ◌≡◌, refl, Bool, true, false,
  not, List, [], ◌∷◌, ◌++◌, String, arith, ◌==◌, All, if◌then◌else◌, filter_by, sum_by,
  sum_by-append,
}
use soul_llink.Base.Sorting.{sum_by-sorted, All-sorted}
use soul_llink.Injection.Candidate.{
  CandidateType, type_eq, InjectionCandidate, before_fixed, before_variable,
}
use soul_llink.Injection.Budget.{
  is_fixed_type, is_fixed, get_limit, Selection, select_fixed, select_variable, each,
  nothing_selected, fixed_candidates, variable_candidates, run_selection,
}

module _ {S A : Type 0} (step : S → A → S) where
  -- What every round keeps, given that its element is allowed, the loop keeps.
  each-keeps :
      (P : S → Type 0) (Q : A → Type 0)
      → ((s : S) (a : A) → Q a → P s → P (step s a))
      → (s : S) (xs : List A) → All Q xs
      → P s
      → P (each step s xs)
  unfolding each
  each-keeps P Q keep s [] q p = p
  each-keeps P Q keep s (x ∷ xs) q p = each-keeps P Q keep (step s x) xs q.1 (keep s x q.0 p)

  -- What every round adds, the loop adds up.
  each-adds :
      (measure : S → ℕ) (weight : A → ℕ)
      → ((s : S) (a : A) → measure (step s a) ≡ measure s + weight a)
      → (s : S) (xs : List A) → measure (each step s xs) ≡ measure s + sum_by weight xs
  unfolding each
  each-adds measure weight adds s [] = omega arith
  each-adds measure weight adds s (x ∷ xs) =
      omega (arith, each-adds measure weight adds (step s x) xs, adds s x)

module _ {A : Type 0} (p : A → Bool) where
  sum_by-filter_by :
      (f : A → ℕ) (xs : List A)
      → sum_by f (filter_by p xs) + sum_by f (filter_by (λ x. not (p x)) xs) ≡ sum_by f xs
  sum_by-filter_by f [] = refl
  sum_by-filter_by f (x ∷ xs) = ground (arith, sum_by-filter_by f xs)

  All-filter_by : (xs : List A) → All (λ x. p x ≡ true) (filter_by p xs)
  All-filter_by [] = tt
  All-filter_by (x ∷ xs) = ground (arith, All-filter_by xs)

All-kept :
    {A : Type 0} (p : A → Bool) (P : A → Type 0) (xs : List A) → All P xs → All P (filter_by p xs)
All-kept p P [] h = tt
All-kept p P (x ∷ xs) h = elim (Bool-cases (p x)) [
  | inl t ↦ rw (t) (h.0, All-kept p P xs h.1)
  | inr f ↦ rw (f) (All-kept p P xs h.1)
]

All-Unit : {A : Type 0} (xs : List A) → All {0, 0} (λ x. Unit) xs
All-Unit [] = tt
All-Unit (x ∷ xs) = (tt, All-Unit xs)

cost : InjectionCandidate → ℕ
cost c = c.token_cost

layer_cost : CandidateType → InjectionCandidate → ℕ
layer_cost t c = if c.type == t then c.token_cost else 0

-- The weight of the candidates that a selection has dealt with.
dealt : (InjectionCandidate → ℕ) → Selection → ℕ
dealt f s = sum_by f s.selected + sum_by (λ (c, reason). f c) s.rejected

dealt_nothing : (f : InjectionCandidate → ℕ) → dealt f nothing_selected ≡ 0
unfolding dealt
dealt_nothing f = refl

module _ (f : InjectionCandidate → ℕ) (total : ℕ) where
  dealt-select_fixed :
      (s : Selection) (c : InjectionCandidate) → dealt f (select_fixed total s c) ≡ dealt f s + f c
  unfolding dealt select_fixed
  dealt-select_fixed s c = ground (
    arith,
    sum_by-append f s.selected (c ∷ []),
    sum_by-append (λ (c, reason). f c) s.rejected ((c, "fixed-reserve-exceeds-total-budget") ∷ []),
  )

  refused-sum :
      (s : Selection) (c : InjectionCandidate) (reason : String)
      → sum_by (λ (c, reason). f c) (s.rejected ++ (c, reason) ∷ [])
        ≡ sum_by (λ (c, reason). f c) s.rejected + f c
  refused-sum s c reason =
      omega (arith, sum_by-append (λ (c, reason). f c) s.rejected ((c, reason) ∷ []))

  dealt-select_variable :
      (limits : List (CandidateType × ℕ)) (s : Selection) (c : InjectionCandidate)
      → dealt f (select_variable total limits s c) ≡ dealt f s + f c
  unfolding dealt select_variable
  dealt-select_variable limits s c = ground (
    arith,
    sum_by-append f s.selected (c ∷ []),
    refused-sum s c "no-budget-for-layer",
    refused-sum s c "layer-budget-exceeded",
    refused-sum s c "total-budget-exceeded",
  )

  dealt-run_selection :
      (limits : List (CandidateType × ℕ)) (cs : List InjectionCandidate)
      → dealt f (run_selection total limits cs) ≡ sum_by f cs
  unfolding run_selection
  dealt-run_selection limits cs =
      let first = each (select_fixed total) nothing_selected (fixed_candidates cs) in
      omega (
        arith,
        each-adds (select_variable total limits) (dealt f) f (dealt-select_variable limits) first
            (variable_candidates cs),
        each-adds (select_fixed total) (dealt f) f dealt-select_fixed nothing_selected
            (fixed_candidates cs),
        sum_by-sorted before_fixed f (filter_by is_fixed cs),
        sum_by-sorted before_variable f (filter_by (λ c. not (is_fixed c)) cs),
        dealt_nothing f,
        sum_by-filter_by is_fixed f cs,
      )

module _ (total : ℕ) where
  -- the running total is what the selected candidates cost, and within the budget
  pub IsWithin : Selection → Type 0
  IsWithin s = (s.running_total ≡ sum_by cost s.selected) × (s.running_total ≤ total)

  select_fixed-IsWithin :
      (s : Selection) (c : InjectionCandidate) → IsWithin s → IsWithin (select_fixed total s c)
  unfolding IsWithin select_fixed cost
  select_fixed-IsWithin s c h = ground (arith, sum_by-append cost s.selected (c ∷ []))

  select_variable-IsWithin :
      (limits : List (CandidateType × ℕ)) (s : Selection) (c : InjectionCandidate)
      → IsWithin s
      → IsWithin (select_variable total limits s c)
  unfolding IsWithin select_variable cost
  select_variable-IsWithin limits s c h = ground (arith, sum_by-append cost s.selected (c ∷ []))

module _ (total : ℕ) (limits : List (CandidateType × ℕ)) (t : CandidateType) where
  -- the used tokens of a layer are what its selected candidates cost, and within its limit
  pub IsLayered : Selection → Type 0
  IsLayered s = (s.used t ≡ sum_by (layer_cost t) s.selected) × (s.used t ≤ get_limit t limits)

  select_fixed-IsLayered :
      is_fixed_type t ≡ false
      → (s : Selection) (c : InjectionCandidate) → is_fixed c ≡ true
      → IsLayered s
      → IsLayered (select_fixed total s c)
  unfolding IsLayered select_fixed layer_cost
  select_fixed-IsLayered free s c fixed h =
      ground (arith, sum_by-append (layer_cost t) s.selected (c ∷ []))

  select_variable-IsLayered :
      (s : Selection) (c : InjectionCandidate)
      → IsLayered s
      → IsLayered (select_variable total limits s c)
  unfolding IsLayered select_variable layer_cost
  select_variable-IsLayered s c h =
      ground (arith, sum_by-append (layer_cost t) s.selected (c ∷ []), type_eq.beq_iff c.type t)

  pub run_selection-IsLayered :
      is_fixed_type t ≡ false
      → (cs : List InjectionCandidate) → IsLayered (run_selection total limits cs)
  unfolding IsLayered run_selection
  run_selection-IsLayered free cs =
      each-keeps (select_variable total limits) IsLayered (λ c. Unit)
        (λ s c u. select_variable-IsLayered s c) _ (variable_candidates cs)
        (All-Unit (variable_candidates cs))
        (each-keeps (select_fixed total) IsLayered (λ c. is_fixed c ≡ true)
          (select_fixed-IsLayered free) nothing_selected (fixed_candidates cs)
          (All-sorted before_fixed _ _ (All-filter_by is_fixed cs)) (refl, omega arith))

pub within_cost :
    (total : ℕ) (s : Selection)
    → IsWithin total s
    → (s.running_total ≡ sum_by (λ c. c.token_cost) s.selected) × (s.running_total ≤ total)
unfolding IsWithin cost
within_cost total s h = h

pub layered_cost :
    (total : ℕ) (limits : List (CandidateType × ℕ)) (t : CandidateType) (s : Selection)
    → IsLayered total limits t s
    → sum_by (λ c. if c.type == t then c.token_cost else 0) s.selected ≤ get_limit t limits
unfolding IsLayered layer_cost
layered_cost total limits t s h = omega (arith, h.0, h.1)

pub dealt_sum :
    (f : InjectionCandidate → ℕ) (total : ℕ) (limits : List (CandidateType × ℕ))
    (cs : List InjectionCandidate)
    → sum_by f (run_selection total limits cs).selected
        + sum_by (λ (c, reason). f c) (run_selection total limits cs).rejected
      ≡ sum_by f cs
unfolding dealt
dealt_sum f total limits cs = dealt-run_selection f total limits cs

pub run_selection-IsWithin :
    (total : ℕ) (limits : List (CandidateType × ℕ)) (cs : List InjectionCandidate)
    → IsWithin total (run_selection total limits cs)
unfolding IsWithin run_selection
run_selection-IsWithin total limits cs =
    each-keeps (select_variable total limits) (IsWithin total) (λ c. Unit)
      (λ s c u. select_variable-IsWithin total limits s c) _ (variable_candidates cs)
      (All-Unit (variable_candidates cs))
      (each-keeps (select_fixed total) (IsWithin total) (λ c. Unit)
        (λ s c u. select_fixed-IsWithin total s c) nothing_selected (fixed_candidates cs)
        (All-Unit (fixed_candidates cs)) (refl, omega arith))

-- What holds of every candidate holds of every selected one.
module _ (P : InjectionCandidate → Type 0) (total : ℕ) where
  AllSelected : Selection → Type 0
  AllSelected s = All P s.selected

  select_fixed-AllSelected :
      (s : Selection) (c : InjectionCandidate)
      → P c
      → AllSelected s
      → AllSelected (select_fixed total s c)
  unfolding AllSelected select_fixed
  select_fixed-AllSelected s c p h =
      if-keeps AllSelected _ _ _ h (All-append P s.selected _ h (p, tt))

  select_variable-AllSelected :
      (limits : List (CandidateType × ℕ)) (s : Selection) (c : InjectionCandidate)
      → P c
      → AllSelected s
      → AllSelected (select_variable total limits s c)
  unfolding AllSelected select_variable
  select_variable-AllSelected limits s c p h =
      if-keeps AllSelected (leb (get_limit c.type limits) 0) _ _ h (
        if-keeps AllSelected (ltb (get_limit c.type limits) (s.used c.type + c.token_cost)) _ _ h (
          if-keeps AllSelected (ltb total (s.running_total + c.token_cost)) _ _ h
            (All-append P s.selected _ h (p, tt))))

  pub run_selection-All :
      (limits : List (CandidateType × ℕ)) (cs : List InjectionCandidate)
      → All P cs
      → All P (run_selection total limits cs).selected
  unfolding AllSelected run_selection
  run_selection-All limits cs h =
      each-keeps (select_variable total limits) AllSelected P (select_variable-AllSelected limits) _
        _ (All-sorted before_variable P _ (All-kept (λ c. not (is_fixed c)) P cs h))
        (each-keeps (select_fixed total) AllSelected P select_fixed-AllSelected nothing_selected _
          (All-sorted before_fixed P _ (All-kept is_fixed P cs h)) tt)
