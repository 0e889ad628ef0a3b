-- ===== src/Injection/Conflict.antt =====
-- packages/pcltm/injection/conflict_filter.py: the hard rules before the budget.
pub mod Admission
use soul_llink.Base.{
  ℕ, max, Bool, true, false, not, ◌&&◌, ◌||◌, List, [], ◌∷◌, String, Option, none, some, ◌==◌,
  if◌then◌else◌, contains, any, all, is_some,
}
use soul_llink.Injection.Candidate.{
  CandidateType, semantic_memory, episodic_memory, procedural_skill, type_eq, RiskFlag,
  core_conflict, current_task_conflict, new_fact_conflict, emotion_fact_contamination,
  missing_source, permanent_episodic_claim, procedural_not_needed, conflicting_memory, flag_eq,
  Value, bool, authority, other_value, Metadata, get_value, without, InjectionCandidate,
  merge_risks, with_risk,
}

pub data ConflictAction : Type 0 where
  keep reject downrank : ConflictAction

pub record ConflictDecision : Type 0 where
  pub candidate : InjectionCandidate
  pub action : ConflictAction
  pub reason : String
  pub flags : List RiskFlag

abbrev pub decide_on : InjectionCandidate → ConflictAction → String → ConflictDecision
decide_on c action reason = record {
  candidate = c;
  action = action;
  reason = reason;
  flags = c.risk_flags;
}

-- the flags as `tuple(set(...))`, here in the order of the candidate's, each once
abbrev pub decide_on_set : InjectionCandidate → ConflictAction → String → ConflictDecision
decide_on_set c action reason = record (decide_on c action reason) {
  flags = merge_risks [] c.risk_flags;
}

abbrev pub marker_key : String
marker_key = "_governed_memory_authority"

-- `_seal_governed_memory_candidate`: `metadata[key] = _GOVERNED_MEMORY_AUTHORITY`
unfoldable pub seal_governed_memory_candidate : InjectionCandidate → InjectionCandidate
seal_governed_memory_candidate c = record c {
  metadata = (marker_key, authority) ∷ without marker_key c.metadata;
}

abbrev pub is_authority : Option Value → Bool
is_authority (some authority) = true
is_authority _ = false

-- `value is True`
abbrev pub is_true : Option Value → Bool
is_true (some (bool b)) = b
is_true _ = false

abbrev pub is_truthy : Value → Bool
is_truthy (bool b) = b
is_truthy authority = true
is_truthy (other_value b) = b

-- `first or second`
abbrev pub or_second : Option Value → Option Value → Option Value
or_second none second = second
or_second (some v) second = if is_truthy v then some v else second

-- `required_receipt`
abbrev pub required_receipt : List String
required_receipt =
    "authority_verified" ∷ "claim_id" ∷ "claim_version" ∷ "governance_id" ∷ "content_sha256"
    ∷ "policy_version" ∷ "source_refs" ∷ []

abbrev pub has_receipt : Metadata → Bool
has_receipt m = all (λ key. is_some (get_value key m)) required_receipt

-- the marker is there, and without it the receipt is complete and verified
unfoldable pub is_governed : Metadata → Bool
is_governed m =
    let rest = without marker_key m in
    is_authority (get_value marker_key m)
    && is_true (get_value "authority_verified" rest)
    && has_receipt rest

abbrev pub is_conflict_flag : RiskFlag → Bool
is_conflict_flag current_task_conflict = true
is_conflict_flag new_fact_conflict = true
is_conflict_flag conflicting_memory = true
is_conflict_flag _ = false

-- `flags.intersection(conflict_flags)`
abbrev pub has_conflict : InjectionCandidate → Bool
has_conflict c = any is_conflict_flag c.risk_flags

-- `candidate.metadata.get("event") or candidate.metadata.get("is_event")`
abbrev pub event_marker : InjectionCandidate → Option Value
event_marker c = or_second (get_value "event" c.metadata) (get_value "is_event" c.metadata)

-- the part of `evaluate` behind the semantic rule, where a governed candidate has lost its marker
unfoldable pub evaluate_unmarked : Bool → InjectionCandidate → ConflictDecision
evaluate_unmarked allow c =
    if c.type == episodic_memory && not (is_true (event_marker c))
    then decide_on (with_risk (permanent_episodic_claim ∷ []) c) reject
        "episodic-memory-must-be-event"
    else if c.type == procedural_skill && not (is_true (get_value "needed" c.metadata))
    then decide_on (with_risk (procedural_not_needed ∷ []) c) reject
        "procedural-memory-only-on-demand"
    else if has_conflict c && not allow
    then decide_on_set c reject "conflict-not-requested"
    else if has_conflict c
    then decide_on (record (with_risk c.risk_flags c) { priority = max c.priority 50 }) downrank
        "conflict-included-for-resolution"
    else decide_on c keep "accepted"

-- `ConflictFilter.evaluate`
unfoldable pub evaluate : Bool → InjectionCandidate → ConflictDecision
evaluate allow c =
    if contains c.risk_flags core_conflict
    then decide_on_set c reject "conflicts-with-core-soul"
    else if contains c.risk_flags emotion_fact_contamination
    then decide_on_set c reject "emotion-layer-cannot-write-facts"
    else if c.type == semantic_memory
    then (if not (is_governed c.metadata)
        then decide_on (with_risk (missing_source ∷ []) c) reject
            "semantic-memory-needs-governed-authority"
        else evaluate_unmarked allow (record c { metadata = without marker_key c.metadata }))
    else evaluate_unmarked allow c

abbrev pub is_rejected : ConflictDecision → Bool
is_rejected d = elim d.action [ reject ↦ true | keep ↦ false | downrank ↦ false ]

-- `ConflictFilter.filter`: the accepted candidates and all decisions
unfoldable pub filter_candidates :
    Bool → List InjectionCandidate → List InjectionCandidate × List ConflictDecision
filter_candidates allow [] = ([], [])
filter_candidates allow (c ∷ cs) =
    let d = evaluate allow c in
    let (accepted, decisions) = filter_candidates allow cs in
    (if is_rejected d then accepted else d.candidate ∷ accepted, d ∷ decisions)
