-- ===== src/Recall/Selection.antt =====
-- packages/pcltm/memory_selection.py: why a memory object may enter a prompt, or may not.
pub mod Eligible
use soul_llink.Base.{
  ℕ, Bool, true, false, not, ◌&&◌, Option, none, some, List, [], ◌∷◌, ◌++◌, String, if◌then◌else◌,
  ltb, ◌==◌, is_empty, contains, filter_by, string_eq,
}
use soul_llink.Base.Text.{Text}
use soul_llink.Recall.Object.{
  MemoryObjectStatus, pending, approved, quarantined, retired, InjectionPolicy, pinned, selective,
  evidence_only, never, status_eq, policy_eq, is_identity, MemoryObject, mode_in, axes_or,
  intersects, matches_state,
}

pub data PriorityClass : Type 0 where
  pinned_identity pinned_class selective_class evidence_class rejected_class : PriorityClass

pub record SelectionDecision : Type 0 where
  pub selected : Bool
  pub reason : String
  pub canonical_key : Text
  pub priority_class : PriorityClass
  pub budget_weight : ℕ
  pub matched_mode : Option String
  pub matched_emotion_axes : List String
  pub rejected_reason : Option String

-- `_priority_class`
unfoldable pub priority_of : MemoryObject → PriorityClass
priority_of m =
    if m.injection_policy == evidence_only
    then evidence_class
    else if m.injection_policy == pinned
    then (if is_identity m.object_type then pinned_identity else pinned_class)
    else if m.injection_policy == selective
    then selective_class
    else rejected_class

-- `_matched_mode`
unfoldable pub matched_mode_of : MemoryObject → Option String → Option String
matched_mode_of m mode =
    if is_empty m.state_affinity.modes
    then mode
    else if mode_in mode m.state_affinity.modes
    then mode
    else none

-- `_matched_emotion_axes`
unfoldable pub matched_axes_of : MemoryObject → Option (List String) → List String
matched_axes_of m axes =
    filter_by (λ axis. contains (axes_or axes) axis) m.state_affinity.emotion_axes

-- `_state_rejection_reason`
unfoldable pub state_rejection_reason : MemoryObject → Option String → Option (List String) → String
state_rejection_reason m mode axes =
    if not (is_empty m.state_affinity.modes) && not (mode_in mode m.state_affinity.modes)
    then "mode_mismatch"
    else if not (is_empty m.state_affinity.emotion_axes)
        && not (intersects (axes_or axes) m.state_affinity.emotion_axes)
    then "emotion_axes_mismatch"
    else "state_mismatch"

-- `_rejected`
abbrev pub rejected :
    MemoryObject → String → String → PriorityClass → Option String → List String → SelectionDecision
rejected m reason why class mode axes = record {
  selected = false;
  reason = reason;
  canonical_key = m.canonical_key;
  priority_class = class;
  budget_weight = m.budget_weight;
  matched_mode = mode;
  matched_emotion_axes = axes;
  rejected_reason = some why;
}

-- `f"status={memory.status.value}"`
abbrev pub status_reason : MemoryObjectStatus → String
status_reason pending = "status=pending"
status_reason approved = "status=approved"
status_reason quarantined = "status=quarantined"
status_reason retired = "status=retired"

-- `memory.budget_weight > budget_available`, where None is no limit; a budget is not negative
abbrev pub exceeds : ℕ → Option ℕ → Bool
exceeds weight none = false
exceeds weight (some available) = ltb available weight

abbrev pub selection_reason : MemoryObject → String
selection_reason m =
    if is_identity m.object_type && m.injection_policy == pinned
    then "pinned identity"
    else if m.injection_policy == pinned
    then "pinned memory"
    else "approved selective memory matched state"

abbrev pub accepted : MemoryObject → Option String → List String → SelectionDecision
accepted m mode axes = record {
  selected = true;
  reason = selection_reason m;
  canonical_key = m.canonical_key;
  priority_class = priority_of m;
  budget_weight = m.budget_weight;
  matched_mode = mode;
  matched_emotion_axes = axes;
  rejected_reason = none;
}

-- the part behind the tests of the status and the policy
unfoldable pub explain_state :
    MemoryObject → Option String → Option (List String) → Option ℕ → SelectionDecision
explain_state m mode axes budget =
    if not (matches_state m mode axes)
    then rejected m "state affinity mismatch" (state_rejection_reason m mode axes) rejected_class
        (matched_mode_of m mode) (matched_axes_of m axes)
    else if exceeds m.budget_weight budget
    then rejected m "insufficient budget" "budget_weight_exceeds_available" rejected_class
        (matched_mode_of m mode) (matched_axes_of m axes)
    else accepted m (matched_mode_of m mode) (matched_axes_of m axes)

unfoldable pub explain_memory_selection :
    MemoryObject → Option String → Option (List String) → Option ℕ → SelectionDecision
explain_memory_selection m mode axes budget =
    if not (m.status == approved)
    then rejected m "not eligible for injection" (status_reason m.status)
        (if m.status == quarantined && m.injection_policy == evidence_only
          then evidence_class
          else rejected_class)
        none []
    else if m.injection_policy == never
    then rejected m "not eligible for injection" "injection_policy=never" rejected_class none []
    else if m.injection_policy == evidence_only
    then rejected m "evidence-only memory" "injection_policy=evidence_only" evidence_class none []
    else explain_state m mode axes budget
