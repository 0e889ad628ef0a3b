-- ===== src/Injection/Tests.antt =====
-- The theorems about injection on concrete candidates.
use soul_llink.Base.{
  ℕ, ◌+◌, ◌≡◌, ◌↔◌, ◌/◌, ◌*◌, Bool, true, false, List, [], ◌∷◌, sum_by, ltb, none,
}
use soul_llink.Base.Text.{codes}
use soul_llink.Injection.Candidate.{
  CandidateType, system, current_task, semantic_memory, type_eq, other_value, bool, Metadata,
  InjectionCandidate, conflicting_memory, RiskFlag,
}
use soul_llink.Injection.Conflict.{evaluate, is_rejected, seal_governed_memory_candidate}
use soul_llink.Injection.Conflict.Admission.{IsAdmissible, evaluate-IsAdmissible}
use soul_llink.Injection.Budget.{BudgetManager, select_within_budgets}
use soul_llink.Injection.Budget.Limits.{select_within_budgets_total}

abbrev receipt : Metadata
receipt =
    ("authority_verified", bool true)
    ∷ ("claim_id", other_value true)
    ∷ ("claim_version", other_value true)
    ∷ ("governance_id", other_value true)
    ∷ ("content_sha256", other_value true)
    ∷ ("policy_version", other_value true)
    ∷ ("source_refs", other_value true)
    ∷ []

abbrev candidate : CandidateType → ℕ → List RiskFlag → InjectionCandidate
candidate type cost flags = record {
  key = codes "k";
  content = codes "text";
  type = type;
  source = "store";
  confidence = none;
  freshness = 10000;
  relevance = 8000;
  priority = 4;
  risk_flags = flags;
  token_cost = cost;
  metadata = receipt;
}

abbrev claim : InjectionCandidate
claim = seal_governed_memory_candidate (candidate semantic_memory 30 (conflicting_memory ∷ []))

abbrev candidates : List InjectionCandidate
candidates =
    candidate system 40 []
    ∷ claim
    ∷ candidate current_task 20 []
    ∷ candidate current_task 10 []
    ∷ []

-- fractions in percent
abbrev percent_of : ℕ → ℕ → ℕ
percent_of n fraction = (n * fraction) / 100

abbrev is_positive : ℕ → Bool
is_positive fraction = ltb 0 fraction

abbrev manager : BudgetManager ℕ
manager = record {
  total_budget = 140;
  fractions = (current_task, 20) ∷ (semantic_memory, 15) ∷ [];
  min_bucket_tokens = 1;
}

evaluate-IsAdmissible_example :
    (is_rejected (evaluate true claim) ≡ false) ↔ IsAdmissible true claim
evaluate-IsAdmissible_example = evaluate-IsAdmissible true claim

select_within_budgets_total_example :
    sum_by (λ c. c.token_cost) (select_within_budgets percent_of is_positive manager candidates).0
      + (select_within_budgets percent_of is_positive manager candidates).1.remaining
    ≡ manager.total_budget
select_within_budgets_total_example =
    select_within_budgets_total percent_of is_positive manager candidates
