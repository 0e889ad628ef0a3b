-- ===== src/Memory/Outbox.antt =====
-- packages/pcltm/projection_outbox.py: the jobs that rebuild the projections. `_enqueue` runs in a
-- transaction that holds the write lock, so that its INSERT meets no row that its SELECT did not
-- see: the branch for a raced insertion is not modelled.
mod Tests
pub mod Jobs
use soul_llink.Base.{
  ℕ, Bool, true, false, ◌&&◌, List, [], ◌∷◌, ◌++◌, String, Option, none, some, ◌==◌, nat_eq,
  string_eq, if◌then◌else◌, find_by, map, any, nat_beq,
}
use soul_llink.Memory.Ledger.{
  Aggregate, event_aggregate, same_aggregate, JobRow, Ledger, Tx, TxResult, done, raised,
}

abbrev pub transcript_projections : List String
transcript_projections = "transcript_chunks" ∷ "transcript_fts" ∷ []

abbrev pub memory_projections : List String
memory_projections = "memory_fts" ∷ "memory_memfs" ∷ []

-- the arguments of `_enqueue` but the kinds
pub record Commitment : Type 0 where
  pub event_id : Option ℕ
  pub authority_kind : String
  pub authority_id : ℕ
  pub aggregate_id : Aggregate
  pub aggregate_version : ℕ
  pub payload_sha256 : String

-- the row that is inserted
abbrev pub pending_job : Commitment → String → JobRow
pending_job c kind = record {
  event_seq = c.event_id;
  authority_kind = c.authority_kind;
  authority_id = c.authority_id;
  projection_kind = kind;
  aggregate_id = c.aggregate_id;
  aggregate_version = c.aggregate_version;
  payload_sha256 = c.payload_sha256;
  status = "pending";
  lease_owner = none;
  lease_until = none;
  next_retry_at = none;
  last_error = none;
  applied_at = none;
}

-- the UNIQUE key of the outbox
abbrev pub is_job : String → Aggregate → ℕ → JobRow → Bool
is_job kind aggregate version j =
    j.projection_kind == kind
    && same_aggregate j.aggregate_id aggregate
    && j.aggregate_version == version

abbrev pub same_event : Option ℕ → Option ℕ → Bool
same_event none none = true
same_event (some m) (some n) = m == n
same_event _ _ = false

-- `persisted == commitment`
abbrev pub is_committed : Commitment → JobRow → Bool
is_committed c j =
    same_event j.event_seq c.event_id
    && j.authority_kind == c.authority_kind
    && j.authority_id == c.authority_id
    && j.payload_sha256 == c.payload_sha256

-- `_enqueue` on the rows of the outbox; none is its ValueError
unfoldable pub enqueue_rows : Commitment → List String → List JobRow → Option (List JobRow)
enqueue_rows c [] jobs = some jobs
enqueue_rows c (kind ∷ kinds) jobs =
    elim (find_by (is_job kind c.aggregate_id c.aggregate_version) jobs) [
      | none ↦ enqueue_rows c kinds (jobs ++ pending_job c kind ∷ [])
      | some j ↦ elim (is_committed c j) [ true ↦ enqueue_rows c kinds jobs | false ↦ none ]
    ]

-- `_enqueue`
unfoldable pub enqueue : Commitment → List String → Tx (Unit {0})
unfolding enqueue_rows
enqueue c kinds l = elim (enqueue_rows c kinds l.outbox) [
  | none ↦ raised "projection commitment conflict"
  | some jobs ↦ done tt (record l { outbox = jobs })
]

unfoldable pub enqueue_event_projections : ℕ → ℕ → String → Tx (Unit {0})
unfolding enqueue
enqueue_event_projections event_id version payload =
    enqueue
      (record {
        event_id = some event_id;
        authority_kind = "event";
        authority_id = event_id;
        aggregate_id = event_aggregate event_id;
        aggregate_version = version;
        payload_sha256 = payload;
      })
      transcript_projections

-- `enqueue_memory_projections`, for an `authority_id` that is not blank
unfoldable pub enqueue_memory_projections : Commitment → Tx (Unit {0})
unfolding enqueue
enqueue_memory_projections c = enqueue c memory_projections
