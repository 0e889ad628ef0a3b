-- ===== src/Memory/Ledger.antt =====
-- The tables of packages/pcltm/memory_schema.py and the outbox of packages/pcltm/ledger_schema.py,
-- as lists of rows with the columns that the services read, and the statements that the services
-- run, with the triggers and the constraints that can refuse them. A transaction passes the tables
-- on; a refusal and an exception both stand for a rollback.
pub mod Facts
use soul_llink.Base.{
  ℕ, zero, suc, ◌+◌, Bool, true, false, not, ◌&&◌, ◌||◌, List, [], ◌∷◌, ◌++◌, map, String, Option,
  none, some, ◌==◌, nat_eq, string_eq, if◌then◌else◌, any, contains, length, filter_by, find_by,
  nat_beq,
}
use soul_llink.Memory.Contracts.{
  LifecycleState, pending_review, active, superseded, retired, expired, rejected, quarantined,
  lifecycle_eq, MemoryWriteReceipt, Sensitivity, PersonaMode, LineageKind,
}

pub record VersionRow : Type 0 where
  pub claim_version_id : ℕ
  pub claim_id : ℕ
  pub version : ℕ
  pub content_sha256 : String

-- what a claim version rests on
pub data ClaimSource : Type 0 where
  event_source : (event_id : ℕ) → ClaimSource
  legacy_source : (legacy_record_id : ℕ) → ClaimSource
  system_source : ClaimSource

pub record SourceRow : Type 0 where
  pub claim_version_id : ℕ
  pub source : ClaimSource

pub record GovernanceRow : Type 0 where
  pub memory_governance_id : ℕ
  pub claim_id : ℕ
  pub claim_version_id : ℕ
  pub action : String
  pub previous_state : Option LifecycleState
  pub new_state : LifecycleState
  pub actor : String
  pub reason_code : String
  pub policy_version : String

pub record CurrentRow : Type 0 where
  pub claim_id : ℕ
  pub claim_version_id : ℕ
  pub memory_governance_id : ℕ
  pub lifecycle_state : LifecycleState

pub record ReceiptRow : Type 0 where
  pub idempotency_key : String
  pub request_sha256 : String
  pub claim_id : ℕ
  pub claim_version : ℕ
  pub action : String
  pub memory_governance_id : ℕ

-- `memory:<claim_id>`, and the id of an event
pub data Aggregate : Type 0 where
  memory_aggregate : ℕ → Aggregate
  event_aggregate : ℕ → Aggregate

abbrev pub same_aggregate : Aggregate → Aggregate → Bool
same_aggregate (memory_aggregate m) (memory_aggregate n) = m == n
same_aggregate (event_aggregate m) (event_aggregate n) = m == n
same_aggregate _ _ = false

-- `authority_id` is the decimal text of a number.
pub record JobRow : Type 0 where
  pub event_seq : Option ℕ
  pub authority_kind : String
  pub authority_id : ℕ
  pub projection_kind : String
  pub aggregate_id : Aggregate
  pub aggregate_version : ℕ
  pub payload_sha256 : String
  pub status : String
  pub lease_owner : Option String
  pub lease_until : Option String
  pub next_retry_at : Option String
  pub last_error : Option String
  pub applied_at : Option String

-- `memory_projection_guards` by its key, and the next value of the AUTOINCREMENT key of
-- `memory_governance_events`.
pub record Ledger : Type 0 where
  pub versions : List VersionRow
  pub sources : List SourceRow
  pub governance : List GovernanceRow
  pub current : List CurrentRow
  pub receipts : List ReceiptRow
  pub outbox : List JobRow
  pub guards : List ℕ
  pub next_governance_id : ℕ

pub data TxResult (A : Type 0) : Type 0 where
  done : A → Ledger → TxResult A
  refused : MemoryWriteReceipt → TxResult A
  raised : String → TxResult A

abbrev pub Tx : Type 0 → Type 0
Tx A = Ledger → TxResult A

infixl 5 ◌>>=◌ ◌>>◌
unfoldable pub ◌>>=◌ : {A B : Type 0} → Tx A → (A → Tx B) → Tx B
◌>>=◌ m next l = elim (m l) [
  | done a after ↦ next a after
  | refused r ↦ refused r
  | raised e ↦ raised e
]

abbrev pub ◌>>◌ : {B : Type 0} → Tx (Unit {0}) → Tx B → Tx B
m >> next = m >>= λ _. next

abbrev pub give : {A : Type 0} → A → Tx A
give a l = done a l

-- `conn.rollback()` and a return
abbrev pub refuse : {A : Type 0} → MemoryWriteReceipt → Tx A
refuse r l = refused r

-- the trigger memory_governance_transition_valid
abbrev pub is_governance_edge : String → Option LifecycleState → LifecycleState → Bool
is_governance_edge action none new = action == "submit" && new == pending_review
is_governance_edge action (some old) new =
    action == "activate" && old == pending_review && new == active
    || action == "supersede" && old == active && new == superseded
    || action == "retire" && old == active && new == retired
    || action == "expire" && old == active && new == expired
    || action == "reject" && old == pending_review && new == rejected
    || action == "quarantine" && old == pending_review && new == quarantined

abbrev pub is_version_of : ℕ → ℕ → VersionRow → Bool
is_version_of claim_id claim_version_id v =
    v.claim_version_id == claim_version_id && v.claim_id == claim_id

-- what the triggers on an insertion into memory_governance_events abort with
unfoldable pub governance_abort : GovernanceRow → Ledger → Option String
governance_abort row l =
    if not (is_governance_edge row.action row.previous_state row.new_state)
    then some "invalid memory governance transition"
    else if row.new_state == active
        && not (any (λ s. s.claim_version_id == row.claim_version_id) l.sources)
    then some "active memory claim requires source"
    else if not (any (is_version_of row.claim_id row.claim_version_id) l.versions)
    then some "governance claim/version mismatch"
    else none

-- `INSERT INTO memory_governance_events`, with its key as the result. The CHECKs on blank texts and
-- the foreign keys are not among what it refuses: the service writes a fixed actor and
-- policy version and a reason that its request has checked, and the trigger asks for the version
-- that the foreign keys name.
unfoldable pub insert_governance : (ℕ → GovernanceRow) → Tx ℕ
unfolding governance_abort
insert_governance make_row l = elim (governance_abort (make_row l.next_governance_id) l) [
  | some e ↦ raised e
  | none ↦ done l.next_governance_id (record l {
    governance = l.governance ++ make_row l.next_governance_id ∷ [];
    next_governance_id = l.next_governance_id + 1;
  })
]

abbrev pub is_active_row : ℕ → ℕ → CurrentRow → Bool
is_active_row claim_id claim_version_id c =
    c.claim_id == claim_id && c.claim_version_id == claim_version_id && c.lifecycle_state == active

abbrev pub is_governance_of : CurrentRow → GovernanceRow → Bool
is_governance_of c g =
    g.memory_governance_id == c.memory_governance_id
    && g.claim_id == c.claim_id
    && g.claim_version_id == c.claim_version_id
    && g.new_state == c.lifecycle_state

-- what the triggers on an update of memory_current to a row abort with
unfoldable pub current_abort : CurrentRow → Ledger → Option String
current_abort row l =
    if contains l.guards row.claim_id
    then some "memory current projection guarded"
    else if not (any (is_version_of row.claim_id row.claim_version_id) l.versions)
    then some "current claim/version mismatch"
    else if not (any (is_governance_of row) l.governance)
    then some "current governance mismatch"
    else none

-- the rows of memory_current after the update
abbrev pub switch_row : ℕ → CurrentRow → CurrentRow → CurrentRow
switch_row old_version_id row c = if is_active_row row.claim_id old_version_id c then row else c

-- the update when it hits a number of rows; no trigger runs when it hits none
unfoldable pub set_current : ℕ → ℕ → CurrentRow → Tx ℕ
unfolding current_abort
set_current zero old_version_id row l = done 0 l
set_current (suc n) old_version_id row l = elim (current_abort row l) [
  | some e ↦ raised e
  | none ↦ done (suc n) (record l { current = map (switch_row old_version_id row) l.current })
]

-- `UPDATE memory_current SET ... WHERE claim_id = ? AND claim_version_id = ? AND lifecycle_state =
-- 'active'`, with the row count as the result. The row that is written is the same for all.
unfoldable pub update_current : ℕ → CurrentRow → Tx ℕ
unfolding set_current
update_current old_version_id row l =
    set_current (length (filter_by (is_active_row row.claim_id old_version_id) l.current))
      old_version_id row l

abbrev pub has_key : String → ReceiptRow → Bool
has_key key r = r.idempotency_key == key

-- what the constraints of memory_transition_receipts, a UNIQUE key and a CHECK on the action,
-- refuse an insertion with
unfoldable pub receipt_abort : ReceiptRow → Ledger → Option String
receipt_abort row l =
    if any (has_key row.idempotency_key) l.receipts
    then some "UNIQUE constraint failed: memory_transition_receipts.idempotency_key"
    else if not (row.action == "retire" || row.action == "expire")
    then some "CHECK constraint failed: action IN ('retire', 'expire')"
    else none

-- `INSERT INTO memory_transition_receipts`
unfoldable pub insert_receipt : ReceiptRow → Tx (Unit {0})
unfolding receipt_abort
insert_receipt row l = elim (receipt_abort row l) [
  | some e ↦ raised e
  | none ↦ done tt (record l { receipts = l.receipts ++ row ∷ [] })
]
