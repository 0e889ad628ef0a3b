-- ===== src/Injection/Budget/Limits.antt =====
-- The totals of the selection: no budget is exceeded and no candidate is lost.
use soul_llink.Base.{All, ℕ, ◌+◌, ◌≤◌, ◌≡◌, Bool, false, List, arith, ◌==◌, if◌then◌else◌, sum_by}
use soul_llink.Injection.Candidate.{CandidateType, type_eq, InjectionCandidate}
use soul_llink.Injection.Budget.{
  is_fixed_type, BudgetManager, get_limit, bucket_limits, fixed_reserve, select_within_budgets,
}
use soul_llink.Injection.Budget.Rounds.{
  run_selection-All, within_cost, layered_cost, dealt_sum, run_selection-IsWithin,
  run_selection-IsLayered,
}

module _ {F : Type 0} (scale : ℕ → F → ℕ) (is_positive : F → Bool) (b : BudgetManager F)
    (cs : List InjectionCandidate) where
  -- The cost of the selected candidates and the remaining budget add up to the total budget, so the
  -- selection never costs more than the total.
  pub select_within_budgets_total :
      sum_by (λ c. c.token_cost) (select_within_budgets scale is_positive b cs).0
        + (select_within_budgets scale is_positive b cs).1.remaining
      ≡ b.total_budget
  unfolding select_within_budgets
  select_within_budgets_total =
      let limits = bucket_limits scale is_positive b (fixed_reserve cs) in
      let (spent, bound) =
        within_cost b.total_budget _ (run_selection-IsWithin b.total_budget limits cs) in
      omega (arith, spent, bound)

  -- In each layer that has no fixed reserve, the selected candidates cost at most the limit of the
  -- layer that the allocation reports; a layer without a limit has none selected that cost anything.
  pub select_within_budgets_layer :
      (t : CandidateType)
      → is_fixed_type t ≡ false
      → sum_by
          (λ c. if c.type == t then c.token_cost else 0)
          (select_within_budgets scale is_positive b cs).0
        ≤ get_limit t (select_within_budgets scale is_positive b cs).1.bucket_limits
  unfolding select_within_budgets
  select_within_budgets_layer t free =
      let limits = bucket_limits scale is_positive b (fixed_reserve cs) in
      layered_cost b.total_budget limits t _
        (run_selection-IsLayered b.total_budget limits t free cs)

  -- Every candidate is either selected or rejected, and only once: whatever each candidate weighs,
  -- the selected and the rejected ones together weigh what the candidates weigh.
  pub select_within_budgets_conserves :
      (weight : InjectionCandidate → ℕ)
      → sum_by weight (select_within_budgets scale is_positive b cs).0
          + sum_by (λ (c, reason). weight c) (select_within_budgets scale is_positive b cs).2
        ≡ sum_by weight cs
  unfolding select_within_budgets
  select_within_budgets_conserves weight =
      dealt_sum weight b.total_budget (bucket_limits scale is_positive b (fixed_reserve cs)) cs

  -- What holds of every candidate holds of every selected one.
  pub select_within_budgets-All :
      (P : InjectionCandidate → Type 0)
      → All P cs
      → All P (select_within_budgets scale is_positive b cs).0
  unfolding select_within_budgets
  select_within_budgets-All P h =
      run_selection-All P b.total_budget (bucket_limits scale is_positive b (fixed_reserve cs)) cs h
