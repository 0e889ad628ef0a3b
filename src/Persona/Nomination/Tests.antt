-- ===== src/Persona/Nomination/Tests.antt =====
-- Evidence, its classes and the nomination that follows.
use soul_llink.Base.{◌≡◌, ◌↔◌, refl, true, false, List, [], ◌∷◌, none}
use soul_llink.Persona.Evidence.{
  classify_hard_event, classify_discourse, classify_task_evidence, classify_protected_evidence, sex,
  daily, work, hard_boundary, protected_progression, explicit_task, FeatureClass, MatchEvidence,
}
use soul_llink.Persona.Nomination.{nominate_mode}
use soul_llink.Persona.Nomination.Protected.{
  IsProtectedTurn, gate_of, nomination_of, nominate_mode-IsProtectedTurn,
}

abbrev evidence : FeatureClass → MatchEvidence
evidence c = record {
  rule_id = "rule";
  feature_class = c;
  candidate_mode = none;
  weight = 6500;
  priority = 650;
  clause_index = 0;
  quoted = false;
  negated = false;
  hypothetical = false;
  meta_context = false;
  requires_satisfied = true;
  forbids_triggered = false;
}

abbrev mixed : List MatchEvidence
mixed = evidence protected_progression ∷ evidence explicit_task ∷ []

nominate_mode-IsProtectedTurn_example :
    (((nomination_of mixed).nominated_mode ≡ sex) ↔ IsProtectedTurn mixed)
    × ((nomination_of mixed).required_gate ≡ gate_of (nomination_of mixed).nominated_mode)
nominate_mode-IsProtectedTurn_example = nominate_mode-IsProtectedTurn mixed

mixed_nominates_sex : (nomination_of mixed).nominated_mode ≡ sex
unfolding nominate_mode classify_hard_event classify_discourse classify_task_evidence
    classify_protected_evidence
mixed_nominates_sex = refl

boundary_wins : (nomination_of (evidence hard_boundary ∷ mixed)).nominated_mode ≡ daily
unfolding nominate_mode classify_hard_event
boundary_wins = refl

priority_makes_a_task :
    (nomination_of ((record (evidence explicit_task) { priority = 700 }) ∷ mixed)).nominated_mode
    ≡ work
unfolding nominate_mode classify_hard_event classify_discourse classify_task_evidence
priority_makes_a_task = refl
