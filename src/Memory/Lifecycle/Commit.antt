-- ===== src/Memory/Lifecycle/Commit.antt =====
-- The statements of a transition taken together: what holds when they commit, and the ledger that
-- they leave.
use soul_llink.Base.{
  ap, contains, ◌+◌, ◌≡◌, refl, sym, ◌∙◌, false, List, [], ◌∷◌, ◌++◌, String, none, nat_eq, map,
  length, filter_by,
}
use soul_llink.Memory.Contracts.{LifecycleState, MemoryWriteReceipt}
use soul_llink.Memory.Ledger.{
  JobRow, Ledger, done, governance_abort, receipt_abort, switch_row, is_active_row,
}
use soul_llink.Memory.Ledger.Facts.{
  done-injective, current_abort-none, >>=-done, >>=-run, insert_governance-done,
  insert_receipt-done,
}
use soul_llink.Memory.Lifecycle.{MemoryLifecycleRequest, Authority, success, reopen_job}
use soul_llink.Memory.Lifecycle.Service.{
  governance_row, switched_row, receipt_row, write_transition,
}
use soul_llink.Memory.Lifecycle.Steps.{IsEnqueuedSource, switch-done, enqueue_source-done}

-- The ledger after a transition: one edge more in the governance log, the claim's current row
-- replaced, one receipt more, and the jobs of the version open.
abbrev pub committed :
    String
    → String
    → LifecycleState
    → MemoryLifecycleRequest
    → Authority
    → List JobRow
    → Ledger
    → Ledger
committed source_hash action target request a jobs l = record l {
  governance = l.governance ++ governance_row request action target a l.next_governance_id ∷ [];
  current =
      map (switch_row a.claim_version_id (switched_row request target a l.next_governance_id))
        l.current;
  receipts = l.receipts ++ receipt_row source_hash request action l.next_governance_id ∷ [];
  outbox = map (reopen_job request.claim_id request.expected_current_version) jobs;
  next_governance_id = l.next_governance_id + 1;
}

-- The statements have committed.
pub record Commits (source_hash action : String) (target : LifecycleState)
    (request : MemoryLifecycleRequest) (a : Authority) (reason : String) (l : Ledger)
    (receipt : MemoryWriteReceipt) (l' : Ledger) : Type 0 where
  pub jobs : List JobRow
  pub after : l' ≡ committed source_hash action target request a jobs l
  pub answer :
      receipt
      ≡ success target request.claim_id request.expected_current_version l.next_governance_id reason
  pub governed :
      governance_abort (governance_row request action target a l.next_governance_id) l ≡ none
  pub one_row : length (filter_by (is_active_row request.claim_id a.claim_version_id) l.current) ≡ 1
  pub unguarded : contains l.guards request.claim_id ≡ false
  pub recorded :
      receipt_abort (receipt_row source_hash request action l.next_governance_id) l ≡ none
  pub enqueued : IsEnqueuedSource request a a.source l.outbox jobs

pub write_transition-Commits :
    (source_hash action : String) (target : LifecycleState) (request : MemoryLifecycleRequest)
    (a : Authority) (reason : String) (l : Ledger) (receipt : MemoryWriteReceipt) (l' : Ledger)
    → write_transition source_hash action target request a reason l ≡ done receipt l'
    → Commits source_hash action target request a reason l receipt l'
unfolding write_transition receipt_abort
write_transition-Commits source_hash action target request a reason l receipt l' h =
    let s1 = >>=-done _ _ l l' receipt h in
    let g = insert_governance-done _ l s1.0 s1.1 s1.2 in
    let h1 =
      >>=-run _ _ l l' receipt _ _ (λ x y e. let r = insert_governance-done _ l x y e in (r.0, r.1))
        h in
    let s2 = switch-done request.claim_id a.claim_version_id _ _ receipt _ l' h1 in
    let s3 = >>=-done _ _ _ l' receipt s2.2 in
    let i = insert_receipt-done _ s3.0 _ s3.1 s3.2 in
    let h3 =
      >>=-run _ _ _ l' receipt tt _ (λ x y e. (refl, (insert_receipt-done _ x _ y e).0)) s2.2 in
    let s4 = >>=-done _ _ _ l' receipt h3 in
    let q = enqueue_source-done request a a.source s4.0 _ s4.1 s4.2 in
    let s5 = >>=-done _ _ s4.1 l' receipt s4.3 in
    let r = done-injective _ _ _ _ s5.2 in
    let p = done-injective _ _ _ _ s5.3 in
    record {
      jobs = q.0;
      after =
          sym p.1
          ∙ sym r.1
          ∙ ap {B = Ledger}
              (λ x. record x {
                outbox =
                    map (reopen_job request.claim_id request.expected_current_version) x.outbox;
              })
              q.2;
      answer = sym p.0;
      governed = g.2;
      one_row = s2.1;
      unguarded = (current_abort-none _ _ s2.0).0;
      recorded = i.1;
      enqueued = q.1;
    }
