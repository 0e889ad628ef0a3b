-- ===== src/Persona/Evidence.antt =====
-- rule_schema.py and the classifiers of decision_tables.py, of
-- packages/persona_engine/persona_orchestrator. A weight is a number of ten-thousandths, which is
-- only compared with thresholds; a priority is a number from 0 on, as compiled rules have it.
pub mod Counting
use soul_llink.Base.{
  ℕ, max, ◌≡◌, Bool, not, ◌&&◌, ◌||◌, List, [], ◌∷◌, String, Option, some, arith, Eq, eq_by, ◌==◌,
  leb, length, any, is_empty, filter_by, if◌then◌else◌,
}

pub data Mode : Type 0 where
  daily work sex : Mode

pub data FeatureClass : Type 0 where
  hard_boundary explicit_meta explicit_task protected_progression : FeatureClass
  relationship continuation_binding fallback : FeatureClass

abbrev pub feature_index : FeatureClass → ℕ
feature_index hard_boundary = 0
feature_index explicit_meta = 1
feature_index explicit_task = 2
feature_index protected_progression = 3
feature_index relationship = 4
feature_index continuation_binding = 5
feature_index fallback = 6

pub feature_index_injective : (a b : FeatureClass) → feature_index a ≡ feature_index b → a ≡ b
feature_index_injective a b h = ground arith

instance abbrev pub feature_eq : Eq FeatureClass
feature_eq = eq_by feature_index feature_index_injective

pub data DiscourseMode : Type 0 where
  direct quoted negated hypothetical meta : DiscourseMode

pub data ConfidenceBand : Type 0 where
  low medium high : ConfidenceBand

pub data HardEvent : Type 0 where
  no_event boundary_exit crisis credential permission : HardEvent

pub data EvidenceStrength : Type 0 where
  no_evidence weak strong explicit : EvidenceStrength

pub data ContinuationTarget : Type 0 where
  no_target to_work to_relationship ambiguous : ContinuationTarget

-- The spans and the matched term are placeholders that nothing reads.
pub record MatchEvidence : Type 0 where
  pub rule_id : String
  pub feature_class : FeatureClass
  pub candidate_mode : Option Mode
  pub weight : ℕ
  pub priority : ℕ
  pub clause_index : ℕ
  pub quoted : Bool
  pub negated : Bool
  pub hypothetical : Bool
  pub meta_context : Bool
  pub requires_satisfied : Bool
  pub forbids_triggered : Bool

abbrev pub is_valid : MatchEvidence → Bool
is_valid e = e.requires_satisfied && not e.forbids_triggered

-- `[e for e in evidences if e.feature_class == c and e.is_valid()]`
abbrev pub counting : FeatureClass → MatchEvidence → Bool
counting c e = e.feature_class == c && is_valid e

abbrev pub valid_of : FeatureClass → List MatchEvidence → List MatchEvidence
valid_of c evidences = filter_by (counting c) evidences

-- `max(f(e) for e in evidences)` where there are some
abbrev pub max_by : (MatchEvidence → ℕ) → List MatchEvidence → ℕ
max_by f [] = 0
max_by f (e ∷ es) = max (f e) (max_by f es)

abbrev pub max_weight : List MatchEvidence → ℕ
max_weight es = max_by (λ e. e.weight) es

abbrev pub max_priority : List MatchEvidence → ℕ
max_priority es = max_by (λ e. e.priority) es

unfoldable pub classify_hard_event : List MatchEvidence → HardEvent
classify_hard_event evidences =
    if is_empty (valid_of hard_boundary evidences) then no_event else boundary_exit

abbrev pub task_strength : List MatchEvidence → EvidenceStrength
task_strength [] = no_evidence
task_strength (e ∷ es) =
    let weight = max_weight (e ∷ es) in
    let priority = max_priority (e ∷ es) in
    if leb 8500 weight && leb 800 priority
    then explicit
    else if leb 7000 weight || leb 700 priority
    then strong
    else weak

unfoldable pub classify_task_evidence : List MatchEvidence → EvidenceStrength
classify_task_evidence evidences = task_strength (valid_of explicit_task evidences)

abbrev pub protected_strength : List MatchEvidence → EvidenceStrength
protected_strength [] = no_evidence
protected_strength (e ∷ es) =
    let weight = max_weight (e ∷ es) in
    if leb 8000 weight && leb 700 (max_priority (e ∷ es))
    then explicit
    else if leb 6000 weight
    then strong
    else weak

unfoldable pub classify_protected_evidence : List MatchEvidence → EvidenceStrength
classify_protected_evidence evidences =
    protected_strength (valid_of protected_progression evidences)

abbrev pub relationship_strength : List MatchEvidence → EvidenceStrength
relationship_strength [] = no_evidence
relationship_strength (e ∷ es) =
    let weight = max_weight (e ∷ es) in
    if leb 8000 weight && leb 600 (max_priority (e ∷ es))
    then explicit
    else if leb 6000 weight
    then strong
    else weak

unfoldable pub classify_relationship_evidence : List MatchEvidence → EvidenceStrength
classify_relationship_evidence evidences = relationship_strength (valid_of relationship evidences)

-- Without evidence every test is false, and the answer is `direct` as for the empty sequence.
unfoldable pub classify_discourse : List MatchEvidence → DiscourseMode
classify_discourse evidences =
    if any (λ e. e.meta_context) evidences
    then meta
    else if any (λ e. e.hypothetical) evidences
    then hypothetical
    else if any (λ e. e.quoted) evidences
    then quoted
    else if any (λ e. e.negated) evidences
    then negated
    else direct

abbrev pub names_work : MatchEvidence → Bool
names_work e = elim e.candidate_mode [ some work ↦ Bool.true | _ ↦ Bool.false ]

abbrev pub names_daily : MatchEvidence → Bool
names_daily e = elim e.candidate_mode [ some daily ↦ Bool.true | _ ↦ Bool.false ]

abbrev pub bound_target : List MatchEvidence → ContinuationTarget
bound_target [] = no_target
bound_target (e ∷ es) =
    let has_work = any names_work (e ∷ es) in
    let has_relationship = any names_daily (e ∷ es) in
    if has_work && has_relationship
    then ambiguous
    else if has_work
    then to_work
    else if has_relationship
    then to_relationship
    else ambiguous

unfoldable pub classify_continuation_target : List MatchEvidence → ContinuationTarget
classify_continuation_target evidences = bound_target (valid_of continuation_binding evidences)

abbrev pub confidence_of : List MatchEvidence → ConfidenceBand
confidence_of [] = low
confidence_of (e ∷ es) =
    let weight = max_weight (e ∷ es) in
    let priority = max_priority (e ∷ es) in
    let several = leb 2 (length (e ∷ es)) in
    if leb 8500 weight && leb 800 priority && several
    then high
    else if leb 8500 weight || (leb 700 priority && several)
    then high
    else if leb 7000 weight || leb 600 priority
    then medium
    else low

unfoldable pub classify_confidence : List MatchEvidence → ConfidenceBand
classify_confidence evidences = confidence_of (filter_by is_valid evidences)
