-- ===== src/Memory/Outbox/Tests.antt =====
-- Commitments that are enqueued once, again, and against another one.
use soul_llink.Base.{◌≡◌, refl, String, List, [], ◌∷◌, All, none, some}
use soul_llink.Memory.Ledger.{memory_aggregate, JobRow}
use soul_llink.Memory.Outbox.{Commitment, memory_projections, pending_job, enqueue_rows}
use soul_llink.Memory.Outbox.Jobs.{Extends, IsEnqueued, enqueue_rows-settles}

abbrev content : String → Commitment
content payload = record {
  event_id = some 5;
  authority_kind = "event";
  authority_id = 5;
  aggregate_id = memory_aggregate 7;
  aggregate_version = 1;
  payload_sha256 = payload;
}

abbrev outbox : List JobRow
outbox = pending_job (content "ab") "memory_fts" ∷ []

abbrev both : List JobRow
both = pending_job (content "ab") "memory_fts" ∷ pending_job (content "ab") "memory_memfs" ∷ []

half_there : enqueue_rows (content "ab") memory_projections outbox ≡ some both
unfolding enqueue_rows
half_there = refl

other_payload : enqueue_rows (content "cd") memory_projections outbox ≡ none
unfolding enqueue_rows
other_payload = refl

enqueue_rows-settles_example :
    Extends outbox both
    × All (IsEnqueued (content "ab") both) memory_projections
    × (enqueue_rows (content "ab") memory_projections both ≡ some both)
enqueue_rows-settles_example =
    enqueue_rows-settles (content "ab") memory_projections outbox both half_there
