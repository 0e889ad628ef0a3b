-- ===== src/Memory/Lifecycle/Success.antt =====
-- A call of `_lifecycle` that is ready goes through.
use soul_llink.Base.{
  ℕ, ◌+◌, ◌≡◌, refl, sym, ◌∙◌, ap, Bool, List, [], ◌∷◌, ◌++◌, map, none, some, ◌==◌, ==-refl,
  nat_eq, string_eq, String, length, filter_by,
}
use mathlib.Core.Path.{subst}
use soul_llink.Memory.Contracts.{LifecycleState, retired, expired, lifecycle_eq, MemoryWriteReceipt}
use soul_llink.Memory.Ledger.{
  CurrentRow, GovernanceRow, ReceiptRow, ClaimSource, event_source, legacy_source, system_source,
  JobRow, Ledger, TxResult, done, is_active_row, switch_row, is_governance_of, has_key,
  governance_abort, current_abort, receipt_abort, insert_governance, set_current, update_current,
  insert_receipt,
}
use soul_llink.Memory.Ledger.Facts.{done->>=}
use soul_llink.Base.Rows.{any-snoc, any-find_by}
use soul_llink.Memory.Outbox.{
  Commitment, memory_projections, enqueue_rows, enqueue, enqueue_memory_projections,
}
use soul_llink.Memory.Lifecycle.{MemoryLifecycleRequest, Authority, success, enqueue_source}
use soul_llink.Memory.Lifecycle.Service.{
  answered, governance_row, switched_row, receipt_row, write_transition, transit, lifecycle_body,
  lifecycle, source_hash, retire, expire,
}
use soul_llink.Memory.Lifecycle.Steps.{IsEnqueuedSource}
use soul_llink.Memory.Lifecycle.Commit.{committed}
use soul_llink.Memory.Lifecycle.Outcomes.{allows, allows-reason}
use soul_llink.Memory.Lifecycle.Invariant.{IsWellFormed, switched_row-HasEvent}
use soul_llink.Memory.Lifecycle.Replay.{run_transaction-done}
use soul_llink.Memory.Lifecycle.Liveness.{
  some_injective, Ends, retire-Ends, expire-Ends, IsReady, authority-HasVersion,
  authority-one_active,
}

insert_governance-goes :
    (make_row : ℕ → GovernanceRow) (l : Ledger)
    → governance_abort (make_row l.next_governance_id) l ≡ none
    → insert_governance make_row l
      ≡ done l.next_governance_id (record l {
        governance = l.governance ++ make_row l.next_governance_id ∷ [];
        next_governance_id = l.next_governance_id + 1;
      })
unfolding insert_governance
insert_governance-goes make_row l h = rw (insert_governance, h) refl

update_current-goes :
    (old : ℕ) (row : CurrentRow) (l : Ledger)
    → length (filter_by (is_active_row row.claim_id old) l.current) ≡ 1
    → current_abort row l ≡ none
    → update_current old row l ≡ done 1 (record l { current = map (switch_row old row) l.current })
unfolding update_current set_current
update_current-goes old row l n h = rw (update_current, n) (rw (set_current, h) refl)

insert_receipt-goes :
    (row : ReceiptRow) (l : Ledger)
    → receipt_abort row l ≡ none
    → insert_receipt row l ≡ done tt (record l { receipts = l.receipts ++ row ∷ [] })
unfolding insert_receipt
insert_receipt-goes row l h = rw (insert_receipt, h) refl

enqueue-goes :
    (c c' : Commitment) (jobs : List JobRow) (l : Ledger)
    → some c ≡ some c'
    → enqueue_rows c' memory_projections l.outbox ≡ some jobs
    → enqueue c memory_projections l ≡ done tt (record l { outbox = jobs })
unfolding enqueue
enqueue-goes c c' jobs l e h =
    let k =
      subst (λ x. enqueue_rows x memory_projections l.outbox ≡ some jobs) (sym (some_injective e))
        h in
    rw (enqueue, k) refl

enqueue_source-goes :
    (request : MemoryLifecycleRequest) (a : Authority) (source : ClaimSource) (jobs : List JobRow)
    (l : Ledger)
    → IsEnqueuedSource request a source l.outbox jobs
    → enqueue_source request a source l ≡ done tt (record l { outbox = jobs })
unfolding enqueue_source enqueue_memory_projections IsEnqueuedSource
enqueue_source-goes request a (event_source e) jobs l h = enqueue-goes _ h.0 jobs l h.1 h.2
enqueue_source-goes request a (legacy_source i) jobs l h = enqueue-goes _ h.0 jobs l h.1 h.2
enqueue_source-goes request a system_source jobs l h = absurd (let e = h.1 in cc)

module _ (hash action : String) (target : LifecycleState) (ends : Ends action target)
    (request : MemoryLifecycleRequest) (l : Ledger) (w : IsWellFormed l) (a : Authority)
    (jobs : List JobRow) (ready : IsReady request l a jobs) where
  governance_abort-ready :
      governance_abort (governance_row request action target a l.next_governance_id) l ≡ none
  unfolding governance_abort
  governance_abort-ready =
      rw (ends.edge, ends.inactive, authority-HasVersion request l w a ready.found) refl

  -- The ledger once the event stands in the governance log.
  governed : Ledger
  governed = record l {
    governance = l.governance ++ governance_row request action target a l.next_governance_id ∷ [];
    next_governance_id = l.next_governance_id + 1;
  }

  current_abort-ready :
      current_abort (switched_row request target a l.next_governance_id) governed ≡ none
  unfolding current_abort governed
  current_abort-ready =
      rw
        (
          ready.unguarded,
          authority-HasVersion request l w a ready.found,
          any-snoc (is_governance_of (switched_row request target a l.next_governance_id))
              l.governance (governance_row request action target a l.next_governance_id)
              (switched_row-HasEvent request action target a l.next_governance_id),
        )
        refl

  receipt_abort-ready :
      receipt_abort (receipt_row hash request action l.next_governance_id) l ≡ none
  unfolding receipt_abort
  receipt_abort-ready =
      rw (any-find_by (has_key request.idempotency_key) l.receipts ready.fresh, ends.received) refl

  write_transition-ready :
      (reason : String)
      → write_transition hash action target request a reason l
        ≡ done
            (success target request.claim_id request.expected_current_version l.next_governance_id
              reason)
            (committed hash action target request a jobs l)
  unfolding write_transition governed receipt_abort
  write_transition-ready reason =
      done->>= _ _ l _ _ (insert_governance-goes _ l governance_abort-ready)
      ∙ done->>= _ _ _ _ _ (
          update_current-goes _ _ _ (authority-one_active request l w a ready.found ready.is_active)
            current_abort-ready)
      ∙ done->>= _ _ _ _ _ refl
      ∙ done->>= _ _ _ _ _ (insert_receipt-goes _ _ receipt_abort-ready)
      ∙ done->>= _ _ _ _ _ (enqueue_source-goes request a a.source jobs _ ready.enqueued)
      ∙ done->>= _ _ _ _ _ refl

  transit-ready :
      transit hash action target request l
      ≡ done
          (success target request.claim_id request.expected_current_version l.next_governance_id
            "transition_allowed")
          (committed hash action target request a jobs l)
  unfolding transit
  transit-ready =
      let at =
        ap {B = Bool} (λ v. v == request.expected_current_version) ready.at_version
        ∙ ==-refl request.expected_current_version in
      let ok = ap {B = Bool} (allows action target) ready.is_active ∙ ends.allowed in
      rw (transit, ready.found, at, ok)
        (write_transition-ready _
          ∙ ap {B = TxResult MemoryWriteReceipt}
              (λ reason.
                done
                  (success target request.claim_id request.expected_current_version
                    l.next_governance_id reason)
                  (committed hash action target request a jobs l))
              (allows-reason action target a.lifecycle_state ok))

module _ (request_hash : String → ℕ → ℕ → String → String) where
  lifecycle-ready :
      (action : String) (target : LifecycleState) (ends : Ends action target)
      (request : MemoryLifecycleRequest) (l : Ledger) (w : IsWellFormed l) (a : Authority)
      (jobs : List JobRow)
      → IsReady request l a jobs
      → lifecycle request_hash action target request l ≡ (
        answered (
            success target request.claim_id request.expected_current_version l.next_governance_id
              "transition_allowed"),
        committed (source_hash request_hash action request) action target request a jobs l,
      )
  unfolding lifecycle lifecycle_body
  lifecycle-ready action target ends request l w a jobs ready = run_transaction-done _ l _ _ (
      rw (lifecycle_body, ready.fresh)
        (transit-ready (source_hash request_hash action request) action target ends request l w a
          jobs ready))

  -- In well-formed tables, where the key has no receipt, the claim's authority is active at the
  -- expected version and unguarded, and the jobs of its source do not conflict, both `retire` and
  -- `expire` succeed, with the transition committed as a whole.
  pub retire-expire-IsReady :
      (request : MemoryLifecycleRequest) (l : Ledger) (w : IsWellFormed l) (a : Authority)
      (jobs : List JobRow)
      → IsReady request l a jobs
      → (retire request_hash request l ≡ (
        answered (
            success retired request.claim_id request.expected_current_version l.next_governance_id
              "transition_allowed"),
        committed (source_hash request_hash "retire" request) "retire" retired request a jobs l,
      ))
        × (expire request_hash request l ≡ (
          answered (
              success expired request.claim_id request.expected_current_version l.next_governance_id
                "transition_allowed"),
          committed (source_hash request_hash "expire" request) "expire" expired request a jobs l,
        ))
  unfolding retire expire
  retire-expire-IsReady request l w a jobs ready = (
    lifecycle-ready "retire" retired retire-Ends request l w a jobs ready,
    lifecycle-ready "expire" expired expire-Ends request l w a jobs ready,
  )
