-- ===== src/Recall/Object.antt =====
-- packages/pcltm/memory_object.py: typed memory objects. make_memory_object is `__post_init__`.
-- A number between 0 and 1 is a natural in ten-thousandths, where one above 10,000 stands for any
-- that is out of range; a budget weight is one too, where 0 stands for any that is not positive.
use soul_llink.Base.{
  ℕ, ◌≡◌, Bool, true, false, not, ◌&&◌, Option, none, some, List, [], String, if◌then◌else◌, ltb,
  leb, arith, Eq, eq_by, ◌==◌, is_empty, contains, any, string_eq, Result, ok, value_error, require,
  ◌>>◌,
}
use soul_llink.Base.Text.{Text, strip}

pub data MemoryObjectType : Type 0 where
  identity relationship preference project procedural episodic : MemoryObjectType
  state_trace tool_evidence conflict retired_object : MemoryObjectType

pub data MemoryObjectScope : Type 0 where
  global user project_scope session runtime : MemoryObjectScope

pub data MemoryObjectStatus : Type 0 where
  pending approved quarantined retired : MemoryObjectStatus

pub data InjectionPolicy : Type 0 where
  pinned selective evidence_only never : InjectionPolicy

abbrev pub is_identity : MemoryObjectType → Bool
is_identity identity = true
is_identity _ = false

abbrev status_index : MemoryObjectStatus → ℕ
status_index pending = 0
status_index approved = 1
status_index quarantined = 2
status_index retired = 3

abbrev policy_index : InjectionPolicy → ℕ
policy_index pinned = 0
policy_index selective = 1
policy_index evidence_only = 2
policy_index never = 3

pub status_index-injective : (a b : MemoryObjectStatus) → status_index a ≡ status_index b → a ≡ b
status_index-injective a b h = ground arith

pub policy_index-injective : (a b : InjectionPolicy) → policy_index a ≡ policy_index b → a ≡ b
policy_index-injective a b h = ground arith

instance abbrev pub status_eq : Eq MemoryObjectStatus
status_eq = eq_by status_index status_index-injective

instance abbrev pub policy_eq : Eq InjectionPolicy
policy_eq = eq_by policy_index policy_index-injective

pub record StateAffinity : Type 0 where
  pub modes : List String
  pub emotion_axes : List String
  pub min_intensity : Option String

pub record MemoryObject : Type 0 where
  pub canonical_key : Text
  pub object_type : MemoryObjectType
  pub content : Text
  pub scope : MemoryObjectScope
  pub status : MemoryObjectStatus
  pub injection_policy : InjectionPolicy
  pub source : Option String
  pub confidence : ℕ
  pub stability : ℕ
  pub emotional_weight : ℕ
  pub budget_weight : ℕ
  pub state_affinity : StateAffinity
  pub tags : List String
  pub conflict_keys : List String
  pub metadata : List (String × String)

-- `_validate_unit_interval`
unfoldable pub validate_unit_interval : ℕ → String → Result (Unit {0})
validate_unit_interval value message = require (leb value 10000) (value_error message)

unfoldable pub make_memory_object : MemoryObject → Result MemoryObject
unfolding validate_unit_interval
make_memory_object m = do
  require (not (is_empty (strip m.canonical_key))) (value_error "canonical_key is required")
  require (not (is_empty (strip m.content))) (value_error "content is required")
  validate_unit_interval m.confidence "confidence must be between 0 and 1"
  validate_unit_interval m.stability "stability must be between 0 and 1"
  validate_unit_interval m.emotional_weight "emotional_weight must be between 0 and 1"
  require (ltb 0 m.budget_weight) (value_error "budget_weight must be positive")
  require
      (not (
        is_identity m.object_type
        && not (m.status == quarantined)
        && not (m.injection_policy == pinned)))
      (value_error "active identity memories must use pinned injection")
  require (not (m.status == retired && not (m.injection_policy == never)))
      (value_error "retired memories must not be injectable")
  require (not (m.status == quarantined && m.injection_policy == pinned))
      (value_error "quarantined memories cannot be pinned")
  ok m

-- `MemoryObject.injectable`
unfoldable pub injectable : MemoryObject → Bool
injectable m = m.status == approved && not (m.injection_policy == never)

-- `mode in modes`, where None is no mode
abbrev pub mode_in : Option String → List String → Bool
mode_in none modes = false
mode_in (some mode) modes = contains modes mode

-- `emotion_axes or set()`
abbrev pub axes_or : Option (List String) → List String
axes_or none = []
axes_or (some axes) = axes

-- `axes.intersection(others)`, as a truth value
abbrev pub intersects : List String → List String → Bool
intersects axes others = any (λ axis. contains others axis) axes

-- `MemoryObject.matches_state`
unfoldable pub matches_state : MemoryObject → Option String → Option (List String) → Bool
matches_state m mode axes =
    if not (is_empty m.state_affinity.modes) && not (mode_in mode m.state_affinity.modes)
    then false
    else if not (is_empty m.state_affinity.emotion_axes)
        && not (intersects (axes_or axes) m.state_affinity.emotion_axes)
    then false
    else true
