-- ===== src/Memory/Lifecycle/Replay.antt =====
-- Calls of `_lifecycle` with a key that has a receipt.
use soul_llink.Base.{
  ℕ, ◌<◌, ◌≡◌, refl, ◌∙◌, true, false, ◌&&◌, List, none, some, ◌==◌, ==-refl, nat_eq, string_eq,
  find_by, All, arith, String,
}
use soul_llink.Memory.Contracts.{LifecycleState, MemoryWriteReceipt}
use soul_llink.Memory.Ledger.{GovernanceRow, ReceiptRow, Tx, Ledger, done, refused, has_key}
use soul_llink.Base.Rows.{find_by-snoc, find_by-none}
use soul_llink.Memory.Lifecycle.{
  MemoryLifecycleRequest, Authority, failure, success, is_governance_row, replay,
}
use soul_llink.Memory.Lifecycle.Service.{
  Reply, answered, governance_row, receipt_row, lifecycle, lifecycle_body, run_transaction,
  source_hash,
}
use soul_llink.Memory.Lifecycle.Commit.{Commits, committed}
use soul_llink.Memory.Lifecycle.Outcomes.{Outcome, unchanged, transitioned, lifecycle-Outcome}
use soul_llink.Memory.Lifecycle.Invariant.{IsWellFormed, receipt_row-names}

-- A receipt of another request is refused.
pub replay-conflict :
    (hash action : String) (request : MemoryLifecycleRequest) (r : ReceiptRow) (l : Ledger)
    → (r.request_sha256 == hash && r.action == action && r.claim_id == request.claim_id) ≡ false
    → replay hash action request r l
      ≡ refused (failure "conflict" "idempotency_conflict" request.claim_id)
unfolding replay
replay-conflict hash action request r l h = ground arith

-- The receipt of the request gives its answer again.
pub replay-success :
    (hash action : String) (request : MemoryLifecycleRequest) (r : ReceiptRow) (l : Ledger)
    (g : GovernanceRow)
    → (r.request_sha256 == hash && r.action == action && r.claim_id == request.claim_id) ≡ true
    → find_by (is_governance_row r.memory_governance_id request.claim_id action) l.governance
      ≡ some g
    → replay hash action request r l
      ≡ done
          (success g.new_state request.claim_id r.claim_version r.memory_governance_id
            "transition_allowed")
          l
unfolding replay
replay-success hash action request r l g h e = rw (replay, e) (ground arith)

-- No event of the log has the next key.
pub fresh_event :
    (claim_id id : ℕ) (action : String) (gs : List GovernanceRow)
    → All (λ g. g.memory_governance_id < id) gs
    → find_by (is_governance_row id claim_id action) gs ≡ none
fresh_event claim_id id action gs h =
    find_by-none (λ g. g.memory_governance_id < id) _ (λ g b. ground (arith)) gs h

-- A transaction depends on what its body does with the tables it starts from.
pub run_transaction-done :
    (m : Tx MemoryWriteReceipt) (l l' : Ledger) (receipt : MemoryWriteReceipt)
    → m l ≡ done receipt l'
    → run_transaction m l ≡ (answered receipt, l')
unfolding run_transaction
run_transaction-done m l l' receipt h = rw (run_transaction, h) refl

pub run_transaction-refused :
    (m : Tx MemoryWriteReceipt) (l : Ledger) (receipt : MemoryWriteReceipt)
    → m l ≡ refused receipt
    → run_transaction m l ≡ (answered receipt, l)
unfolding run_transaction
run_transaction-refused m l receipt h = rw (run_transaction, h) refl

module _ (request_hash : String → ℕ → ℕ → String → String) where
  module _ (action : String) (target : LifecycleState) (request : MemoryLifecycleRequest) where
    lifecycle_body-replayed :
        (l : Ledger) (r : ReceiptRow)
        → find_by (has_key request.idempotency_key) l.receipts ≡ some r
        → lifecycle_body request_hash action target request l
          ≡ replay (source_hash request_hash action request) action request r l
    unfolding lifecycle_body
    lifecycle_body-replayed l r e = rw (lifecycle_body, e) refl

    -- The receipt that a transition left answers the same request, and only that.
    pub Commits-replayed :
        (a : Authority) (l : Ledger) (receipt : MemoryWriteReceipt) (l' : Ledger)
        → IsWellFormed l
        → find_by (has_key request.idempotency_key) l.receipts ≡ none
        → Commits
            (source_hash request_hash action request)
            action
            target
            request
            a
            "transition_allowed"
            l
            receipt
            l'
        → lifecycle request_hash action target request l' ≡ (answered receipt, l')
    unfolding lifecycle
    Commits-replayed a l receipt l' w fresh c =
        let hash = source_hash request_hash action request in
        let id = l.next_governance_id in
        let row = receipt_row hash request action id in
        let event = governance_row request action target a id in
        let found =
          find_by-snoc (has_key request.idempotency_key) l.receipts row fresh
            (==-refl request.idempotency_key) in
        let logged =
          find_by-snoc (is_governance_row id request.claim_id action) l.governance event
            (fresh_event request.claim_id id action l.governance w.ids_below)
            (receipt_row-names hash action target request a id) in
        rw (c.after, c.answer)
          (run_transaction-done _ _ _ _ (
            lifecycle_body-replayed (committed hash action target request a c.jobs l) row found
            ∙ replay-success hash action request row _ event
                (rw (==-refl hash, ==-refl action, ==-refl request.claim_id) refl) logged))

    Outcome-replayed :
        (l : Ledger) (reply : Reply) (l' : Ledger)
        → IsWellFormed l
        → Outcome (source_hash request_hash action request) action target request l reply l'
        → lifecycle request_hash action target request l ≡ (reply, l')
        → lifecycle request_hash action target request l' ≡ (reply, l')
    Outcome-replayed l reply l' w (unchanged _) h = h
    Outcome-replayed l reply l' w (transitioned a receipt _ fresh _ _ _ c) h =
        Commits-replayed a l receipt l' w fresh c

    -- In well-formed tables a call of `_lifecycle` that is made again gives the same answer, or the
    -- same exception, and changes nothing more.
    pub lifecycle_idempotent :
        (l : Ledger)
        → IsWellFormed l
        → lifecycle request_hash action target request
            (lifecycle request_hash action target request l).1
          ≡ lifecycle request_hash action target request l
    lifecycle_idempotent l w =
        Outcome-replayed l _ _ w (lifecycle-Outcome request_hash action target request l) refl

    -- A key that has a receipt of another request, by its hash, its action or its claim, is
    -- refused as a conflict, and nothing changes.
    pub lifecycle-reused_key :
        (l : Ledger) (r : ReceiptRow)
        → find_by (has_key request.idempotency_key) l.receipts ≡ some r
        → (r.request_sha256 == source_hash request_hash action request
            && r.action == action
            && r.claim_id == request.claim_id)
          ≡ false
        → lifecycle request_hash action target request l
          ≡ (answered (failure "conflict" "idempotency_conflict" request.claim_id), l)
    unfolding lifecycle
    lifecycle-reused_key l r e h =
        run_transaction-refused _ l _
          (lifecycle_body-replayed l r e ∙ replay-conflict _ action request r l h)
