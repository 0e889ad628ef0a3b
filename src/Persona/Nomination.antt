-- ===== src/Persona/Nomination.antt =====
-- `nominate_mode` of packages/persona_engine/persona_orchestrator/decision_tables.py.
mod Tests
pub mod Protected
use soul_llink.Base.{Bool, true, false, ◌&&◌, List, [], ◌∷◌, String, if◌then◌else◌}
use soul_llink.Persona.Evidence.{
  Mode, daily, work, sex, DiscourseMode, direct, meta, ConfidenceBand, low, high, HardEvent,
  no_event, boundary_exit, EvidenceStrength, weak, strong, explicit, ContinuationTarget, to_work,
  to_relationship,
}

-- The submode is empty everywhere, and the supporting evidence is left at its default.
pub record NominationDecision : Type 0 where
  pub nominated_mode : Mode
  pub nominated_submode : String
  pub force_event : HardEvent
  pub confidence_band : ConfidenceBand
  pub reason_codes : List String
  pub required_gate : String
  pub supporting_evidence : List String

-- The decision that most entries give, without a force event.
abbrev pub nominate : Mode → ConfidenceBand → String → NominationDecision
nominate mode band reason = record {
  nominated_mode = mode;
  nominated_submode = "";
  force_event = no_event;
  confidence_band = band;
  reason_codes = reason ∷ [];
  required_gate = "";
  supporting_evidence = [];
}

abbrev pub is_exit : HardEvent → Bool
is_exit boundary_exit = true
is_exit _ = false

abbrev pub is_meta : DiscourseMode → Bool
is_meta meta = true
is_meta _ = false

abbrev pub is_direct : DiscourseMode → Bool
is_direct direct = true
is_direct _ = false

abbrev pub is_explicit : EvidenceStrength → Bool
is_explicit explicit = true
is_explicit _ = false

-- `in (EvidenceStrength.STRONG, EvidenceStrength.EXPLICIT)`
abbrev pub is_strong : EvidenceStrength → Bool
is_strong strong = true
is_strong explicit = true
is_strong _ = false

abbrev pub is_weak_or_strong : EvidenceStrength → Bool
is_weak_or_strong weak = true
is_weak_or_strong strong = true
is_weak_or_strong _ = false

-- the entries of priority 8 and the default
abbrev pub nominate_weakly : EvidenceStrength → ConfidenceBand → NominationDecision
nominate_weakly relationship_evidence confidence =
    if is_weak_or_strong relationship_evidence
    then nominate daily confidence "relationship_evidence"
    else nominate daily low "default_daily"

-- the entries of priority 7
abbrev pub nominate_bound :
    EvidenceStrength → ContinuationTarget → ConfidenceBand → NominationDecision
nominate_bound relationship_evidence to_work confidence =
    nominate work confidence "continuation_work"
nominate_bound relationship_evidence to_relationship confidence =
    nominate daily confidence "continuation_relationship"
nominate_bound relationship_evidence _ confidence = nominate_weakly relationship_evidence confidence

unfoldable pub nominate_mode :
    HardEvent
    → EvidenceStrength
    → EvidenceStrength
    → EvidenceStrength
    → DiscourseMode
    → ContinuationTarget
    → ConfidenceBand
    → NominationDecision
nominate_mode hard_event task_evidence protected_evidence relationship_evidence discourse
      continuation confidence =
    if is_exit hard_event
    then record (nominate daily high "hard_boundary_exit") { force_event = boundary_exit }
    else if is_meta discourse
    then nominate work confidence "meta_discussion"
    else if is_explicit task_evidence && is_direct discourse
    then nominate work confidence "explicit_task"
    else if is_strong task_evidence
    then nominate work confidence "task_evidence"
    else if is_strong protected_evidence
    then record (nominate sex confidence "protected_progression") { required_gate = "desire_check" }
    else if is_explicit relationship_evidence
    then nominate daily confidence "explicit_relationship"
    else nominate_bound relationship_evidence continuation confidence
