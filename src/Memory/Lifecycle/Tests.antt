-- ===== src/Memory/Lifecycle/Tests.antt =====
-- A claim that is retired, and the theorems at its ledger.
use soul_llink.Base.{ℕ, ◌≡◌, refl, arith, String, List, [], ◌∷◌, ◌++◌, Option, none, some}
use soul_llink.Memory.Contracts.{LifecycleState, pending_review, active, retired, expired}
use soul_llink.Memory.Ledger.{
  event_source, GovernanceRow, JobRow, Ledger, memory_aggregate, ◌>>=◌, insert_governance,
  update_current, insert_receipt,
}
use soul_llink.Memory.Policy.{resolve_transition, action_target}
use soul_llink.Memory.Lifecycle.{
  MemoryLifecycleRequest, Authority, failure, success, find_authority, commitment, replay,
  enqueue_source,
}
use soul_llink.Memory.Lifecycle.Service.{
  answered, lifecycle, retire, expire, run_transaction, lifecycle_body, transit, write_transition,
}
use soul_llink.Memory.Lifecycle.Commit.{committed}
use soul_llink.Memory.Lifecycle.Outcomes.{Outcome, lifecycle-Outcome}
use soul_llink.Memory.Lifecycle.Invariant.{IsWellFormed, lifecycle-IsWellFormed}
use soul_llink.Memory.Lifecycle.Replay.{lifecycle_idempotent}
use soul_llink.Memory.Lifecycle.Safety.{
  IsFailure, RowsSwitched, lifecycle-IsFailure, lifecycle-RowsSwitched,
}
use soul_llink.Memory.Lifecycle.Steps.{IsEnqueuedSource}
use soul_llink.Memory.Outbox.{enqueue_rows}
use soul_llink.Memory.Lifecycle.Liveness.{IsReady}
use soul_llink.Memory.Lifecycle.Success.{retire-expire-IsReady}

abbrev event : ℕ → String → Option LifecycleState → LifecycleState → GovernanceRow
event id action old new = record {
  memory_governance_id = id;
  claim_id = 7;
  claim_version_id = 4;
  action = action;
  previous_state = old;
  new_state = new;
  actor = "memory_write_service";
  reason_code = "accepted";
  policy_version = "memory-policy-v1";
}

abbrev applied_job : JobRow
applied_job = record {
  event_seq = some 5;
  authority_kind = "event";
  authority_id = 5;
  projection_kind = "memory_fts";
  aggregate_id = memory_aggregate 7;
  aggregate_version = 1;
  payload_sha256 = "ab";
  status = "applied";
  lease_owner = none;
  lease_until = none;
  next_retry_at = none;
  last_error = none;
  applied_at = some "2026-01-01";
}

abbrev ledger : Ledger
ledger = record {
  versions = record { claim_version_id = 4; claim_id = 7; version = 1; content_sha256 = "ab" } ∷ [];
  sources = record { claim_version_id = 4; source = event_source 5 } ∷ [];
  governance =
      event 1 "submit" none pending_review ∷ event 2 "activate" (some pending_review) active ∷ [];
  current =
      record {
        claim_id = 7;
        claim_version_id = 4;
        memory_governance_id = 2;
        lifecycle_state = active;
      }
      ∷ [];
  receipts = [];
  outbox = applied_job ∷ [];
  guards = [];
  next_governance_id = 3;
}

abbrev request : MemoryLifecycleRequest
request = record {
  idempotency_key = "k1";
  claim_id = 7;
  expected_current_version = 1;
  reason_code = "user_request";
}

abbrev stale : MemoryLifecycleRequest
stale = record request { expected_current_version = 2 }

-- a hash that tells the actions apart
abbrev hash : String → ℕ → ℕ → String → String
hash action claim_id version reason = action

abbrev authority : Authority
authority = record {
  claim_version_id = 4;
  version = 1;
  content_sha256 = "ab";
  lifecycle_state = active;
  source = event_source 5;
}

abbrev pending : String → JobRow
pending kind = record applied_job { projection_kind = kind; status = "pending"; applied_at = none }

well_formed : IsWellFormed ledger
well_formed = record {
  ids_below = (omega arith, (omega arith, tt));
  current_versions = (refl, tt);
  current_events = (refl, tt);
  one_current = (refl, tt);
  receipt_events = tt;
  one_receipt = tt;
}

jobs_of_retired :
    (retire hash request ledger).1.outbox ≡ pending "memory_fts" ∷ pending "memory_memfs" ∷ []
unfolding retire run_transaction lifecycle_body transit find_authority resolve_transition
    action_target write_transition ◌>>=◌ insert_governance update_current insert_receipt
    enqueue_source
jobs_of_retired = refl

stale_version :
    retire hash stale ledger ≡ (answered (failure "conflict" "stale_expected_version" 7), ledger)
unfolding retire run_transaction lifecycle_body transit find_authority
stale_version = refl

retired_twice :
    (expire hash (record request { idempotency_key = "k2" }) (retire hash request ledger).1).0
    ≡ answered (failure "conflict" "invalid_transition" 7)
unfolding expire retire run_transaction lifecycle_body transit find_authority resolve_transition
    action_target write_transition ◌>>=◌ insert_governance update_current insert_receipt
    enqueue_source
retired_twice = refl

key_for_two_actions :
    (expire hash request (retire hash request ledger).1).0
    ≡ answered (failure "conflict" "idempotency_conflict" 7)
unfolding expire retire replay run_transaction lifecycle_body transit find_authority
    resolve_transition action_target write_transition ◌>>=◌ insert_governance update_current
    insert_receipt enqueue_source
key_for_two_actions = refl

abbrev two_jobs : List JobRow
two_jobs = applied_job ∷ pending "memory_memfs" ∷ []

ready : IsReady request ledger authority two_jobs
unfolding find_authority IsEnqueuedSource enqueue_rows
ready = record {
  fresh = refl;
  found = refl;
  at_version = refl;
  is_active = refl;
  unguarded = refl;
  enqueued = (commitment request authority (some 5) "event" 5, refl, refl);
}

lifecycle-Outcome_example :
    Outcome "retire" "retire" retired request ledger
      (lifecycle hash "retire" retired request ledger).0
      (lifecycle hash "retire" retired request ledger).1
lifecycle-Outcome_example = lifecycle-Outcome hash "retire" retired request ledger

lifecycle-IsWellFormed_example : IsWellFormed (lifecycle hash "retire" retired request ledger).1
lifecycle-IsWellFormed_example =
    lifecycle-IsWellFormed hash "retire" retired request ledger well_formed

lifecycle_idempotent_example :
    lifecycle hash "retire" retired request (lifecycle hash "retire" retired request ledger).1
    ≡ lifecycle hash "retire" retired request ledger
lifecycle_idempotent_example = lifecycle_idempotent hash "retire" retired request ledger well_formed

stale-IsFailure : IsFailure (lifecycle hash "retire" retired stale ledger).0
unfolding IsFailure lifecycle run_transaction lifecycle_body transit find_authority
stale-IsFailure = refl

lifecycle-IsFailure_example : (lifecycle hash "retire" retired stale ledger).1 ≡ ledger
lifecycle-IsFailure_example = lifecycle-IsFailure hash "retire" retired stale ledger stale-IsFailure

lifecycle-RowsSwitched_example :
    let l' = (lifecycle hash "expire" expired request ledger).1 in
    RowsSwitched 7 expired ledger.current l'.current
    × (l'.versions ≡ ledger.versions)
    × (l'.sources ≡ ledger.sources)
    × ((new : List GovernanceRow) × (l'.governance ≡ ledger.governance ++ new))
lifecycle-RowsSwitched_example = lifecycle-RowsSwitched hash "expire" expired request ledger

retire-expire-IsReady_example :
    (retire hash request ledger ≡ (
      answered (success retired 7 1 3 "transition_allowed"),
      committed "retire" "retire" retired request authority two_jobs ledger,
    ))
    × (expire hash request ledger ≡ (
      answered (success expired 7 1 3 "transition_allowed"),
      committed "expire" "expire" expired request authority two_jobs ledger,
    ))
retire-expire-IsReady_example =
    retire-expire-IsReady hash request ledger well_formed authority two_jobs ready
