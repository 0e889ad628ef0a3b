-- ===== src/Persona/Shadow.antt =====
-- transition_shadow.py of packages/persona_engine/persona_orchestrator: the comparator that counts
-- where the table and the legacy manager differ. Logging is left out.
mod Tests
pub mod Counts
use soul_llink.Base.{
  ℕ, suc, ◌+◌, ◌-◌, Bool, true, false, not, List, [], ◌∷◌, ◌++◌, String, Option, none, some, ◌==◌,
  string_eq, if◌then◌else◌, filter_by, nat_beq,
}
use soul_llink.Persona.Types.{Mode, mode_eq, TransitionDecision}

-- the fields of a rule that a comparison reads
pub record NewRule : Type 0 where
  pub active_mode : Mode
  pub transition_label : String
  pub reason : String
  pub rule_id : String

pub record TransitionComparison : Type 0 where
  pub previous_mode : Option Mode
  pub nominated_mode : Mode
  pub confidence : ℕ
  pub legacy_active_mode : Mode
  pub legacy_transition_label : String
  pub legacy_reason : String
  pub new_rule : Option NewRule
  pub agreement : Bool
  pub disagreement_type : Option String

pub record Comparator : Type 0 where
  pub comparisons : List TransitionComparison
  pub disagreement_count : ℕ
  pub total_count : ℕ

-- `TransitionShadowComparator.__init__`, and the state after `reset`
unfoldable pub new_comparator : Comparator
new_comparator = record { comparisons = []; disagreement_count = 0; total_count = 0 }

pub agrees : TransitionDecision → Option NewRule → Bool
agrees legacy none = false
agrees legacy (some rule) = legacy.active_mode == rule.active_mode

abbrev pub disagreement_type_of : Bool → Option NewRule → Option String
disagreement_type_of agreement none = some "no_match"
disagreement_type_of agreement (some _) = if agreement then none else some "mode"

unfoldable pub comparison_of :
    Option Mode → Mode → ℕ → TransitionDecision → Option NewRule → TransitionComparison
unfolding agrees
comparison_of previous nominated confidence legacy new_rule =
    let agreement = agrees legacy new_rule in
    record {
      previous_mode = previous;
      nominated_mode = nominated;
      confidence = confidence;
      legacy_active_mode = legacy.active_mode;
      legacy_transition_label = legacy.transition;
      legacy_reason = legacy.reason;
      new_rule = new_rule;
      agreement = agreement;
      disagreement_type = disagreement_type_of agreement new_rule;
    }

-- `compare`
unfoldable pub compare_decisions :
    Option Mode → Mode → ℕ → TransitionDecision → Option NewRule → Comparator → Comparator
compare_decisions previous nominated confidence legacy new_rule c =
    let comparison = comparison_of previous nominated confidence legacy new_rule in
    record {
      comparisons = c.comparisons ++ comparison ∷ [];
      disagreement_count =
          if comparison.agreement then c.disagreement_count else c.disagreement_count + 1;
      total_count = c.total_count + 1;
    }

abbrev pub disagreements : List TransitionComparison → List TransitionComparison
disagreements = filter_by (λ c. not c.agreement)

-- `get_disagreements`
unfoldable pub get_disagreements : Comparator → List TransitionComparison
get_disagreements c = disagreements c.comparisons

-- `get_agreement_rate`, as a fraction: the numerator and the denominator
unfoldable pub get_agreement_rate : Comparator → ℕ × ℕ
get_agreement_rate c =
    if nat_beq c.total_count 0
    then (1, 1)
    else (c.total_count - c.disagreement_count, c.total_count)

pub record Summary : Type 0 where
  pub total_decisions : ℕ
  pub agreements : ℕ
  pub disagreement_count : ℕ
  pub agreement_rate : ℕ × ℕ
  pub disagreement_by_type : List (String × ℕ)

-- `d[key] = d.get(key, 0) + 1`
unfoldable pub bump : String → List (String × ℕ) → List (String × ℕ)
bump key [] = (key, 1) ∷ []
bump key ((k, n) ∷ counts) = if k == key then (k, n + 1) ∷ counts else (k, n) ∷ bump key counts

abbrev pub type_or_unknown : Option String → String
type_or_unknown none = "unknown"
type_or_unknown (some t) = if t == "" then "unknown" else t

pub count_types : List TransitionComparison → List (String × ℕ) → List (String × ℕ)
count_types [] counts = counts
count_types (d ∷ ds) counts = count_types ds (bump (type_or_unknown d.disagreement_type) counts)

unfoldable pub get_summary : Comparator → Summary
get_summary c = record {
  total_decisions = c.total_count;
  agreements = c.total_count - c.disagreement_count;
  disagreement_count = c.disagreement_count;
  agreement_rate = get_agreement_rate c;
  disagreement_by_type = count_types (get_disagreements c) [];
}

-- `reset`
unfoldable pub reset : Comparator → Comparator
reset c = record c { comparisons = []; disagreement_count = 0; total_count = 0 }
