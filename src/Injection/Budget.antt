-- ===== src/Injection/Budget.antt =====
-- packages/pcltm/injection/budget_manager.py: token budgets per layer. The fractions are floats:
-- their type, `floor(available * fraction)` and `fraction > 0` are parameters, with a limit below
-- zero read as 0. Budgets are naturals, and the table of used tokens is a function.
pub mod Rounds
pub mod Limits
use soul_llink.Base.{
  ℕ, ◌+◌, ◌-◌, max, Bool, true, false, not, ◌&&◌, List, [], ◌∷◌, ◌++◌, String, map, ◌==◌,
  if◌then◌else◌, ltb, leb, filter_by, sum_by, Result, ok, raise, value_error,
}
use soul_llink.Base.Sorting.{sorted}
use soul_llink.Injection.Candidate.{
  CandidateType, system, core_identity, runtime_mode, type_eq, InjectionCandidate, before_fixed,
  before_variable,
}

-- `FIXED_RESERVE_TYPES`
abbrev pub is_fixed_type : CandidateType → Bool
is_fixed_type system = true
is_fixed_type core_identity = true
is_fixed_type runtime_mode = true
is_fixed_type _ = false

abbrev pub is_fixed : InjectionCandidate → Bool
is_fixed c = is_fixed_type c.type

pub record BudgetManager (F : Type 0) : Type 0 where
  pub total_budget : ℕ
  pub fractions : List (CandidateType × F)
  pub min_bucket_tokens : ℕ

-- `BudgetManager.__post_init__`
unfoldable pub make_budget : {F : Type 0} → BudgetManager F → Result (BudgetManager F)
make_budget b =
    if leb b.total_budget 0 then raise (value_error "total budget must be positive") else ok b

-- `limits.get(type, 0)`
unfoldable pub get_limit : CandidateType → List (CandidateType × ℕ) → ℕ
get_limit t [] = 0
get_limit t ((u, n) ∷ limits) = if u == t then n else get_limit t limits

-- `BudgetManager.fixed_reserve`
unfoldable pub fixed_reserve : List InjectionCandidate → ℕ
fixed_reserve cs = sum_by (λ c. c.token_cost) (filter_by is_fixed cs)

module _ {F : Type 0} (scale : ℕ → F → ℕ) (is_positive : F → Bool) where
  abbrev bucket_limit : ℕ → ℕ → F → ℕ
  bucket_limit available least fraction =
      if is_positive fraction && ltb 0 available
      then max least (scale available fraction)
      else scale available fraction

  -- `BudgetManager.bucket_limits`
  unfoldable pub bucket_limits : BudgetManager F → ℕ → List (CandidateType × ℕ)
  bucket_limits b reserve =
      map
        (λ (t, fraction). (t, bucket_limit (b.total_budget - reserve) b.min_bucket_tokens fraction))
        b.fractions

-- the local variables of the two loops
pub record Selection : Type 0 where
  pub selected : List InjectionCandidate
  pub rejected : List (InjectionCandidate × String)
  pub used : CandidateType → ℕ
  pub running_total : ℕ

abbrev pub refuse : Selection → InjectionCandidate → String → Selection
refuse s c reason = record s { rejected = s.rejected ++ (c, reason) ∷ [] }

abbrev pub add_used : CandidateType → ℕ → (CandidateType → ℕ) → CandidateType → ℕ
add_used t cost used u = if t == u then used u + cost else used u

-- one round of the loop over the fixed layers
unfoldable pub select_fixed : ℕ → Selection → InjectionCandidate → Selection
select_fixed total s c =
    if ltb total (s.running_total + c.token_cost)
    then refuse s c "fixed-reserve-exceeds-total-budget"
    else record s {
      selected = s.selected ++ c ∷ [];
      running_total = s.running_total + c.token_cost;
    }

-- one round of the loop over the other layers
unfoldable pub select_variable :
    ℕ → List (CandidateType × ℕ) → Selection → InjectionCandidate → Selection
select_variable total limits s c =
    if leb (get_limit c.type limits) 0
    then refuse s c "no-budget-for-layer"
    else if ltb (get_limit c.type limits) (s.used c.type + c.token_cost)
    then refuse s c "layer-budget-exceeded"
    else if ltb total (s.running_total + c.token_cost)
    then refuse s c "total-budget-exceeded"
    else record {
      selected = s.selected ++ c ∷ [];
      rejected = s.rejected;
      used = add_used c.type c.token_cost s.used;
      running_total = s.running_total + c.token_cost;
    }

-- a `for` loop
unfoldable pub each : {S A : Type 0} → (S → A → S) → S → List A → S
each step s [] = s
each step s (a ∷ rest) = each step (step s a) rest

pub record BudgetAllocation : Type 0 where
  pub total_budget : ℕ
  pub fixed_reserve : ℕ
  pub bucket_limits : List (CandidateType × ℕ)
  pub used_by_bucket : List (CandidateType × ℕ)
  pub remaining : ℕ

abbrev pub nothing_selected : Selection
nothing_selected = record { selected = []; rejected = []; used = λ t. 0; running_total = 0 }

abbrev pub fixed_candidates : List InjectionCandidate → List InjectionCandidate
fixed_candidates cs = sorted before_fixed (filter_by is_fixed cs)

abbrev pub variable_candidates : List InjectionCandidate → List InjectionCandidate
variable_candidates cs = sorted before_variable (filter_by (λ c. not (is_fixed c)) cs)

-- both loops
unfoldable pub run_selection : ℕ → List (CandidateType × ℕ) → List InjectionCandidate → Selection
run_selection total limits cs =
    each (select_variable total limits)
      (each (select_fixed total) nothing_selected (fixed_candidates cs)) (variable_candidates cs)

abbrev pub allocation_of :
    ℕ → ℕ → List (CandidateType × ℕ) → (CandidateType → ℕ) → ℕ → BudgetAllocation
allocation_of total reserve limits used running = record {
  total_budget = total;
  fixed_reserve = reserve;
  bucket_limits = limits;
  used_by_bucket = map (λ (t, n). (t, used t)) limits;
  remaining = total - running;
}

module _ {F : Type 0} (scale : ℕ → F → ℕ) (is_positive : F → Bool) where
  -- `BudgetManager.select_within_budgets`
  unfoldable pub select_within_budgets :
      BudgetManager F
      → List InjectionCandidate
      → List InjectionCandidate × BudgetAllocation × List (InjectionCandidate × String)
  select_within_budgets b cs =
      let reserve = fixed_reserve cs in
      let limits = bucket_limits scale is_positive b reserve in
      let s = run_selection b.total_budget limits cs in
      (s.selected, allocation_of b.total_budget reserve limits s.used s.running_total, s.rejected)
