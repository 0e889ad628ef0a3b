-- ===== src/Injection/Arbitrator/Tests.antt =====
-- A turn with a duplicate and a text that does not fit.
use soul_llink.Base.{
  map, ℕ, ◌+◌, ◌*◌, ◌/◌, ◌≤◌, ◌≡◌, refl, ◌⊎◌, false, List, [], ◌∷◌, String, none, All, sum_by, ltb,
}
use soul_llink.Base.Text.{Text, codes, strip}
use soul_llink.Injection.Candidate.{
  CandidateType, current_task, active_dialogue, InjectionCandidate, estimate_token_cost,
}
use soul_llink.Injection.Conflict.Admission.{IsAdmitted}
use soul_llink.Base.Sorting.{sorted}
use soul_llink.Injection.Conflict.{evaluate, evaluate_unmarked}
use soul_llink.Injection.Budget.{
  BudgetManager, run_selection, each, select_variable, get_limit, bucket_limits, fixed_reserve,
}
use soul_llink.Injection.Packet.{ContextPacket, join, render_candidates}
use soul_llink.Injection.Arbitrator.{arbitrate_within, fingerprint}
use soul_llink.Injection.Arbitrator.Dedup.{with_fingerprint}
use soul_llink.Injection.Arbitrator.Packets.{
  arbitrate_within_conserves, arbitrate_within_fits, arbitrate_within_once,
  arbitrate_within-IsAdmitted,
}

abbrev entry : CandidateType → String → String → ℕ → InjectionCandidate
entry type key content cost = record {
  key = codes key;
  content = codes content;
  type = type;
  source = "store";
  confidence = none;
  freshness = 10000;
  relevance = 8000;
  priority = 4;
  risk_flags = [];
  token_cost = cost;
  metadata = [];
}

abbrev candidates : List InjectionCandidate
candidates =
    entry current_task "a" "fix  it" 2
    ∷ entry current_task "b" "fix it" 2
    ∷ entry active_dialogue "c" "hello there" 1
    ∷ []

abbrev manager : BudgetManager ℕ
manager = record {
  total_budget = 12;
  fractions = (current_task, 50) ∷ (active_dialogue, 50) ∷ [];
  min_bucket_tokens = 1;
}

abbrev percent_of : ℕ → ℕ → ℕ
percent_of available percent = available * percent / 100

-- the text stands for its own digest
abbrev digest : Text → Text
digest text = text

abbrev decimals : ℕ → Text
decimals n = codes "0.50"

abbrev packet : ContextPacket
packet =
    arbitrate_within percent_of (ltb 0) digest decimals estimate_token_cost false manager candidates

abbrev one : Text → ℕ
one key = 1

arbitrate_within_conserves_example :
    sum_by (λ c. one c.key) packet.injected + sum_by (λ (c, reason). one c.key) packet.rejected
    ≡ sum_by (λ c. one c.key) candidates
arbitrate_within_conserves_example =
    arbitrate_within_conserves percent_of (ltb 0) digest decimals estimate_token_cost false manager
      candidates one

arbitrate_within_fits_example :
    (packet.total_tokens ≡ estimate_token_cost (render_candidates decimals packet.injected))
    × ((packet.injected ≡ []) ⊎ (packet.total_tokens ≤ manager.total_budget))
arbitrate_within_fits_example =
    arbitrate_within_fits percent_of (ltb 0) digest decimals estimate_token_cost false manager
      candidates

abbrev task_fingerprint : Text
task_fingerprint = fingerprint digest (entry current_task "a" "fix  it" 2)

arbitrate_within_once_example :
    sum_by (with_fingerprint digest task_fingerprint) packet.injected ≤ 1
arbitrate_within_once_example =
    arbitrate_within_once percent_of (ltb 0) digest decimals estimate_token_cost false manager
      candidates task_fingerprint

arbitrate_within-IsAdmitted_example : All (IsAdmitted false candidates) packet.injected
arbitrate_within-IsAdmitted_example =
    arbitrate_within-IsAdmitted percent_of (ltb 0) digest decimals estimate_token_cost false manager
      candidates

-- the duplicate is rejected, and the rendered text of the other two is too long
reasons :
    map (λ (c, reason). reason) packet.rejected
    ≡ "duplicate-injection-fingerprint" ∷ "final-render-budget-exceeded" ∷ []
unfolding arbitrate_within run_selection each sorted evaluate evaluate_unmarked select_variable
    get_limit bucket_limits fixed_reserve estimate_token_cost strip join
reasons = refl
