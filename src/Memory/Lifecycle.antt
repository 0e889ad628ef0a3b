-- ===== src/Memory/Lifecycle.antt =====
-- packages/pcltm/memory_transition_service.py: retiring and expiring a claim. `request_hash` stands
-- for the SHA-256 of the JSON text of the action, the claim, the expected version and the reason.
-- The ids of rows and the versions are positive; a key of a table that is looked up has one row.
mod Tests
pub mod Steps
pub mod Service
pub mod Commit
pub mod Outcomes
pub mod Invariant
pub mod Replay
pub mod Safety
pub mod Liveness
pub mod Success
use soul_llink.Base.{
  ℕ, Bool, true, false, not, ◌&&◌, ◌||◌, List, [], ◌∷◌, String, Option, none, some, ◌==◌, nat_eq,
  string_eq, if◌then◌else◌, find_by, map, nat_beq, ltb, all, contains, Result, ok, require,
  type_error, value_error,
}
use soul_llink.Base.{◌>>=◌ as ◌>>=ᵣ◌}
use soul_llink.Base.Text.{codes, is_space}
use soul_llink.Memory.Contracts.{
  LifecycleState, pending_review, active, superseded, retired, expired, rejected, quarantined,
  lifecycle_eq, MemoryWriteReceipt, MemoryTransitionCommand,
}
use soul_llink.Memory.Policy.{policy_version, resolve_transition, TransitionDecision}
use soul_llink.Memory.Ledger.{
  VersionRow, SourceRow, ClaimSource, event_source, legacy_source, system_source, GovernanceRow,
  CurrentRow, ReceiptRow, JobRow, Ledger, Tx, TxResult, done, refused, raised, ◌>>=◌, ◌>>◌, give,
  refuse, memory_aggregate, same_aggregate, insert_governance, update_current, insert_receipt,
  has_key,
}
use soul_llink.Memory.Outbox.{Commitment, memory_projections, enqueue_memory_projections}

-- the text of a state in the tables
abbrev pub lifecycle_value : LifecycleState → String
lifecycle_value pending_review = "pending_review"
lifecycle_value active = "active"
lifecycle_value superseded = "superseded"
lifecycle_value retired = "retired"
lifecycle_value expired = "expired"
lifecycle_value rejected = "rejected"
lifecycle_value quarantined = "quarantined"

pub record MemoryLifecycleRequest : Type 0 where
  pub idempotency_key : String
  pub claim_id : ℕ
  pub expected_current_version : ℕ
  pub reason_code : String

-- `not value.strip()`
abbrev pub is_blank : String → Bool
is_blank s = all is_space (codes s)

-- `MemoryLifecycleRequest.__post_init__`
unfoldable pub check_lifecycle_request : MemoryLifecycleRequest → Result MemoryLifecycleRequest
check_lifecycle_request r =
    if is_blank r.idempotency_key
    then Result.raise (value_error "idempotency_key is required")
    else if is_blank r.reason_code
    then Result.raise (value_error "reason_code is required")
    else if not (ltb 0 r.claim_id)
    then Result.raise type_error
    else if not (ltb 0 r.expected_current_version)
    then Result.raise type_error
    else ok r

-- `_failure`
abbrev pub failure : String → String → ℕ → MemoryWriteReceipt
failure status reason claim_id = record {
  success = false;
  status = status;
  claim_id = some claim_id;
  claim_version = none;
  governance_id = none;
  persisted = false;
  projection_status = "none";
  recall_ready = false;
  reason_code = reason;
}

abbrev pub success : LifecycleState → ℕ → ℕ → ℕ → String → MemoryWriteReceipt
success state claim_id version governance_id reason = record {
  success = true;
  status = lifecycle_value state;
  claim_id = some claim_id;
  claim_version = some version;
  governance_id = some governance_id;
  persisted = true;
  projection_status = "pending";
  recall_ready = false;
  reason_code = reason;
}

-- a row of the query on memory_current, its version and a source of it
pub record Authority : Type 0 where
  pub claim_version_id : ℕ
  pub version : ℕ
  pub content_sha256 : String
  pub lifecycle_state : LifecycleState
  pub source : ClaimSource

-- `current[0]`
unfoldable pub find_authority : ℕ → Ledger → Option Authority
find_authority claim_id l = elim (find_by (λ c. c.claim_id == claim_id) l.current) [
  | none ↦ none
  | some c ↦ elim (find_by (λ v. v.claim_version_id == c.claim_version_id) l.versions) [
    | none ↦ none
    | some v ↦ elim (find_by (λ s. s.claim_version_id == c.claim_version_id) l.sources) [
      | none ↦ none
      | some s ↦ some (record {
        claim_version_id = c.claim_version_id;
        version = v.version;
        content_sha256 = v.content_sha256;
        lifecycle_state = c.lifecycle_state;
        source = s.source;
      })
    ]
  ]
]

abbrev pub is_governance_row : ℕ → ℕ → String → GovernanceRow → Bool
is_governance_row governance_id claim_id action g =
    g.memory_governance_id == governance_id && g.claim_id == claim_id && g.action == action

-- the branch for a key that has a receipt
unfoldable pub replay :
    String → String → MemoryLifecycleRequest → ReceiptRow → Tx MemoryWriteReceipt
replay source_hash action request existing l =
    if not (existing.request_sha256 == source_hash)
      || not (existing.action == action)
      || not (existing.claim_id == request.claim_id)
    then refused (failure "conflict" "idempotency_conflict" request.claim_id)
    else elim (find_by (is_governance_row existing.memory_governance_id request.claim_id action)
        l.governance) [
          | none ↦ done (failure "conflict" "idempotency_conflict" request.claim_id) l
          | some g ↦
              done
                (success g.new_state request.claim_id existing.claim_version
                  existing.memory_governance_id "transition_allowed")
                l
        ]

-- `if switched.rowcount != 1`
abbrev pub require_switched : ℕ → ℕ → Tx (Unit {0})
require_switched claim_id count l =
    if count == 1 then done tt l else refused (failure "conflict" "stale_expected_version" claim_id)

abbrev pub commitment : MemoryLifecycleRequest → Authority → Option ℕ → String → ℕ → Commitment
commitment request authority event_id kind id = record {
  event_id = event_id;
  authority_kind = kind;
  authority_id = id;
  aggregate_id = memory_aggregate request.claim_id;
  aggregate_version = request.expected_current_version;
  payload_sha256 = authority.content_sha256;
}

-- the branches on `source_kind`, with the call that follows
unfoldable pub enqueue_source : MemoryLifecycleRequest → Authority → ClaimSource → Tx (Unit {0})
unfolding enqueue_memory_projections
enqueue_source request authority (event_source event_id) =
    enqueue_memory_projections (commitment request authority (some event_id) "event" event_id)
enqueue_source request authority (legacy_source record_id) =
    enqueue_memory_projections (commitment request authority none "legacy_record" record_id)
enqueue_source request authority system_source =
    refuse (failure "rejected" "source_snapshot_mismatch" request.claim_id)

abbrev pub is_memory_job : ℕ → ℕ → JobRow → Bool
is_memory_job claim_id version j =
    same_aggregate j.aggregate_id (memory_aggregate claim_id)
    && j.aggregate_version == version
    && contains memory_projections j.projection_kind

-- the update that opens the jobs of a version again
abbrev pub reopen_job : ℕ → ℕ → JobRow → JobRow
reopen_job claim_id version j =
    if is_memory_job claim_id version j
    then record j {
      status = "pending";
      lease_owner = none;
      lease_until = none;
      applied_at = none;
      next_retry_at = none;
      last_error = none;
    }
    else j

abbrev pub reopen_jobs : ℕ → ℕ → Tx (Unit {0})
reopen_jobs claim_id version l =
    done tt (record l { outbox = map (reopen_job claim_id version) l.outbox })
