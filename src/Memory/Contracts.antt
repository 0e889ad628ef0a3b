-- ===== src/Memory/Contracts.antt =====
-- packages/pcltm/memory_contracts.py: the enumerations and the frozen records that the memory
-- policy decides on. The positive ints of the source are naturals here, and 0 stands for an int
-- that its checks refuse.
use soul_llink.Base.{
  ℕ, ◌≡◌, ◌↔◌, Bool, true, not, ◌&&◌, List, String, Option, none, some, arith, Eq, eq_by, ◌==◌,
  nat_eq, string_eq, nat_beq, ltb, leb, length, all, ◌||◌, Result, ok, ◌>>=◌, ◌>>◌, require,
  type_error, value_error,
}
use soul_llink.Base.Text.{codes, is_space}

pub data Sensitivity : Type 0 where
  normal private restricted secret : Sensitivity

-- `_SENSITIVITY_RANK`
abbrev pub sensitivity_rank : Sensitivity → ℕ
sensitivity_rank normal = 0
sensitivity_rank private = 1
sensitivity_rank restricted = 2
sensitivity_rank secret = 3

pub sensitivity_rank_injective :
    (a b : Sensitivity) → sensitivity_rank a ≡ sensitivity_rank b → a ≡ b
sensitivity_rank_injective a b h = ground arith

instance abbrev pub sensitivity_eq : Eq Sensitivity
sensitivity_eq = eq_by sensitivity_rank sensitivity_rank_injective

pub data LifecycleState : Type 0 where
  pending_review active superseded retired expired rejected quarantined : LifecycleState

abbrev pub lifecycle_index : LifecycleState → ℕ
lifecycle_index pending_review = 0
lifecycle_index active = 1
lifecycle_index superseded = 2
lifecycle_index retired = 3
lifecycle_index expired = 4
lifecycle_index rejected = 5
lifecycle_index quarantined = 6

pub lifecycle_index_injective :
    (a b : LifecycleState) → lifecycle_index a ≡ lifecycle_index b → a ≡ b
lifecycle_index_injective a b h = ground arith

instance abbrev pub lifecycle_eq : Eq LifecycleState
lifecycle_eq = eq_by lifecycle_index lifecycle_index_injective

pub data LineageKind : Type 0 where
  event_derived explicit_user_assertion system_governed_invariant : LineageKind
  legacy_governed transient_task_state : LineageKind

pub data AccessSurface : Type 0 where
  search open_record exact inject audit : AccessSurface

abbrev pub surface_index : AccessSurface → ℕ
surface_index search = 0
surface_index open_record = 1
surface_index exact = 2
surface_index inject = 3
surface_index audit = 4

pub surface_index_injective : (a b : AccessSurface) → surface_index a ≡ surface_index b → a ≡ b
surface_index_injective a b h = ground arith

instance abbrev pub surface_eq : Eq AccessSurface
surface_eq = eq_by surface_index surface_index_injective

pub data PersonaMode : Type 0 where
  daily work sex cron default_mode : PersonaMode

abbrev pub persona_index : PersonaMode → ℕ
persona_index daily = 0
persona_index work = 1
persona_index sex = 2
persona_index cron = 3
persona_index default_mode = 4

pub persona_index_injective : (a b : PersonaMode) → persona_index a ≡ persona_index b → a ≡ b
persona_index_injective a b h = ground arith

instance abbrev pub persona_eq : Eq PersonaMode
persona_eq = eq_by persona_index persona_index_injective

pub record AuthorityRef : Type 0 where
  pub authority_kind : String
  pub object_id : String
  pub object_version : ℕ
  pub payload_sha256 : String

pub authority_ref_beq : AuthorityRef → AuthorityRef → Bool
authority_ref_beq a b =
    a.authority_kind == b.authority_kind
    && (a.object_id == b.object_id
        && (a.object_version == b.object_version && a.payload_sha256 == b.payload_sha256))

-- `char in "0123456789abcdef"`
abbrev pub is_lower_hex : ℕ → Bool
is_lower_hex c = (leb b'0' c && leb c b'9') || (leb b'a' c && leb c b'f')

-- `AuthorityRef.__post_init__`
unfoldable pub check_authority_ref : AuthorityRef → Result AuthorityRef
check_authority_ref ref = do
  require (ltb 0 ref.object_version) type_error
  require (not (ref.authority_kind == "") && not (ref.object_id == ""))
      (value_error "authority reference identifiers are required")
  require
      (nat_beq (length (codes ref.payload_sha256)) 64
        && all is_lower_hex (codes ref.payload_sha256))
      (value_error "payload_sha256 must be 64 lowercase hexadecimal characters")
  ok ref

pub record AuthoritySnapshot : Type 0 where
  pub authority_kind : String
  pub object_id : String
  pub object_version : ℕ
  pub payload_sha256 : String
  pub governance_id : ℕ
  pub governance_state : LifecycleState
  pub sensitivity : Sensitivity
  pub lifecycle_state : LifecycleState
  pub source_refs : List AuthorityRef
  pub projection_generation : Option ℕ
  pub mode_scope : List PersonaMode
  pub injection_policy : String

-- the tuple of a snapshot that a reference has to match
abbrev pub snapshot_ref : AuthoritySnapshot → AuthorityRef
snapshot_ref s = record {
  authority_kind = s.authority_kind;
  object_id = s.object_id;
  object_version = s.object_version;
  payload_sha256 = s.payload_sha256;
}

abbrev pub positive_or_none : Option ℕ → Bool
positive_or_none none = true
positive_or_none (some n) = ltb 0 n

-- `AuthoritySnapshot.__post_init__`; the checks of a Python type hold by the types here
unfoldable pub check_authority_snapshot : AuthoritySnapshot → Result AuthoritySnapshot
unfolding check_authority_ref
check_authority_snapshot s = do
  require (ltb 0 s.object_version) type_error
  require (ltb 0 s.governance_id) type_error
  require (positive_or_none s.projection_generation)
      (value_error "projection_generation must be positive")
  require (not (all is_space (codes s.injection_policy)))
      (value_error "injection_policy is required")
  require (s.governance_state == s.lifecycle_state)
      (value_error "governance_state and lifecycle_state must agree")
  check_authority_ref (snapshot_ref s) >>= λ _. ok s

pub record AdmissionDecision : Type 0 where
  pub allowed : Bool
  pub action : String
  pub reason_code : String
  pub policy_version : String
  pub snapshot : Option AuthoritySnapshot
  pub effective_sensitivity : Option Sensitivity
  pub injectable_modes : List PersonaMode

pub record MemoryWriteReceipt : Type 0 where
  pub success : Bool
  pub status : String
  pub claim_id : Option ℕ
  pub claim_version : Option ℕ
  pub governance_id : Option ℕ
  pub persisted : Bool
  pub projection_status : String
  pub recall_ready : Bool
  pub reason_code : String

-- `MemoryWriteReceipt.__post_init__`
unfoldable pub check_receipt : MemoryWriteReceipt → Result MemoryWriteReceipt
check_receipt r = do
  require (positive_or_none r.claim_id) type_error
  require (positive_or_none r.claim_version) type_error
  require (positive_or_none r.governance_id) type_error
  require (not (r.status == "") && not (r.projection_status == "") && not (r.reason_code == ""))
      (value_error "receipt status and reason are required")
  ok r

pub record MemoryWriteCommand : Type 0 where
  pub lineage_kind : LineageKind
  pub sensitivity : Sensitivity
  pub mode_scope : List PersonaMode
  pub source_refs : List AuthorityRef
  pub requested_lifecycle : LifecycleState

pub record MemoryAccessRequest : Type 0 where
  pub surface : AccessSurface
  pub persona_mode : PersonaMode
  pub sensitivity_ceiling : Sensitivity

pub record MemoryTransitionCommand : Type 0 where
  pub action : String
  pub target_state : LifecycleState

-- `MemoryTransitionCommand.__post_init__`
unfoldable pub check_transition_command : MemoryTransitionCommand → Result MemoryTransitionCommand
check_transition_command c = do require (not (c.action == "")) type_error; ok c

pub authority_ref_beq_iff : (a b : AuthorityRef) → (authority_ref_beq a b ≡ true) ↔ (a ≡ b)
unfolding authority_ref_beq
authority_ref_beq_iff a b = ground (
  arith,
  string_eq.beq_iff a.authority_kind b.authority_kind,
  string_eq.beq_iff a.object_id b.object_id,
  string_eq.beq_iff a.payload_sha256 b.payload_sha256,
)

-- Two references are equal when their four fields are.
instance abbrev pub authority_ref_eq : Eq AuthorityRef
unfolding authority_ref_beq
authority_ref_eq = record { beq = authority_ref_beq; beq_iff = authority_ref_beq_iff }
