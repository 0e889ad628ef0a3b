-- ===== src/Memory/Lifecycle/Service.antt =====
-- packages/pcltm/memory_transition_service.py: `_lifecycle` with its two callers. A transaction
-- that is refused or that raises leaves the tables as they were.
use soul_llink.Base.{ℕ, true, false, String, none, some, ◌==◌, nat_eq, string_eq, find_by}
use soul_llink.Memory.Contracts.{LifecycleState, active, retired, expired, MemoryWriteReceipt}
use soul_llink.Memory.Policy.{policy_version, resolve_transition}
use soul_llink.Memory.Ledger.{
  GovernanceRow, CurrentRow, ReceiptRow, Ledger, Tx, done, refused, raised, ◌>>=◌, ◌>>◌, give,
  insert_governance, update_current, insert_receipt, has_key,
}
use soul_llink.Memory.Lifecycle.{
  MemoryLifecycleRequest, Authority, failure, success, find_authority, replay, require_switched,
  enqueue_source, reopen_jobs,
}

abbrev pub governance_row :
    MemoryLifecycleRequest → String → LifecycleState → Authority → ℕ → GovernanceRow
governance_row request action target authority id = record {
  memory_governance_id = id;
  claim_id = request.claim_id;
  claim_version_id = authority.claim_version_id;
  action = action;
  previous_state = some active;
  new_state = target;
  actor = "memory_transition_service";
  reason_code = request.reason_code;
  policy_version = policy_version;
}

-- the row of memory_current after the update
abbrev pub switched_row : MemoryLifecycleRequest → LifecycleState → Authority → ℕ → CurrentRow
switched_row request target authority id = record {
  claim_id = request.claim_id;
  claim_version_id = authority.claim_version_id;
  memory_governance_id = id;
  lifecycle_state = target;
}

abbrev pub receipt_row : String → MemoryLifecycleRequest → String → ℕ → ReceiptRow
receipt_row source_hash request action id = record {
  idempotency_key = request.idempotency_key;
  request_sha256 = source_hash;
  claim_id = request.claim_id;
  claim_version = request.expected_current_version;
  action = action;
  memory_governance_id = id;
}

-- the statements after the checks
unfoldable pub write_transition :
    String
    → String
    → LifecycleState
    → MemoryLifecycleRequest
    → Authority
    → String
    → Tx MemoryWriteReceipt
write_transition source_hash action target request authority reason = do
  governance_id ← insert_governance (governance_row request action target authority)
  count ←
      update_current authority.claim_version_id
        (switched_row request target authority governance_id)
  require_switched request.claim_id count
  insert_receipt (receipt_row source_hash request action governance_id)
  enqueue_source request authority authority.source
  reopen_jobs request.claim_id request.expected_current_version
  give (success target request.claim_id request.expected_current_version governance_id reason)

-- the branch for a key that has no receipt
unfoldable pub transit :
    String → String → LifecycleState → MemoryLifecycleRequest → Tx MemoryWriteReceipt
transit source_hash action target request l = elim (find_authority request.claim_id l) [
  | none ↦ refused (failure "not_found" "claim_not_found" request.claim_id)
  | some authority ↦ elim (authority.version == request.expected_current_version) [
    | false ↦ refused (failure "conflict" "stale_expected_version" request.claim_id)
    | true ↦
        let decision =
          resolve_transition authority.lifecycle_state
            (record { action = action; target_state = target }) in
        elim decision.allowed [
          | false ↦ refused (failure "conflict" decision.reason_code request.claim_id)
          | true ↦
              write_transition source_hash action target request authority decision.reason_code l
        ]
  ]
]

-- what a call gives back: a receipt, or an exception that it raises again
pub data Reply : Type 0 where
  answered : MemoryWriteReceipt → Reply
  raising : String → Reply

-- from BEGIN IMMEDIATE to the commit or the rollback
unfoldable pub run_transaction : Tx MemoryWriteReceipt → Ledger → Reply × Ledger
run_transaction body l = elim (body l) [
  | done receipt after ↦ (answered receipt, after)
  | refused receipt ↦ (answered receipt, l)
  | raised e ↦ (raising e, l)
]

module _ (request_hash : String → ℕ → ℕ → String → String) where
  abbrev pub source_hash : String → MemoryLifecycleRequest → String
  source_hash action r = request_hash action r.claim_id r.expected_current_version r.reason_code

  -- the body of `_lifecycle` in its transaction
  unfoldable pub lifecycle_body :
      String → LifecycleState → MemoryLifecycleRequest → Tx MemoryWriteReceipt
  lifecycle_body action target request l =
      elim (find_by (has_key request.idempotency_key) l.receipts) [
        | none ↦ transit (source_hash action request) action target request l
        | some existing ↦ replay (source_hash action request) action request existing l
      ]

  -- `_lifecycle`
  unfoldable pub lifecycle :
      String → LifecycleState → MemoryLifecycleRequest → Ledger → Reply × Ledger
  lifecycle action target request = run_transaction (lifecycle_body action target request)

  unfoldable pub retire : MemoryLifecycleRequest → Ledger → Reply × Ledger
  unfolding lifecycle
  retire = lifecycle "retire" retired

  unfoldable pub expire : MemoryLifecycleRequest → Ledger → Reply × Ledger
  unfolding lifecycle
  expire = lifecycle "expire" expired
