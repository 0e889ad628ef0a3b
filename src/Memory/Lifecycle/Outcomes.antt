-- ===== src/Memory/Lifecycle/Outcomes.antt =====
-- Every call of `_lifecycle` leaves the tables as they were, or commits one transition.
use soul_llink.Base.{
  arith, ℕ, ◌≡◌, refl, sym, Bool, true, false, String, Option, none, some, nat_eq, ◌==◌, find_by,
  ==→≡,
}
use soul_llink.Memory.Contracts.{LifecycleState, MemoryWriteReceipt}
use soul_llink.Memory.Policy.{resolve_transition}
use soul_llink.Memory.Ledger.{ReceiptRow, Ledger, TxResult, done, refused, raised, has_key}
use soul_llink.Memory.Lifecycle.{MemoryLifecycleRequest, Authority, find_authority, replay}
use soul_llink.Memory.Lifecycle.Service.{
  Reply, answered, raising, run_transaction, transit, lifecycle_body, lifecycle, source_hash,
}
use soul_llink.Memory.Lifecycle.Commit.{Commits, write_transition-Commits}

-- What a call of the service did: it left the tables alone, or it committed a transition of the
-- claim's authority to the target.
pub data Outcome (hash action : String) (target : LifecycleState) (request : MemoryLifecycleRequest)
    (l : Ledger) : Reply → Ledger → Type 0 where
  unchanged : (reply : Reply) → Outcome hash action target request l reply l
  transitioned :
      (a : Authority) (receipt : MemoryWriteReceipt) (l' : Ledger)
      → find_by (has_key request.idempotency_key) l.receipts ≡ none
      → find_authority request.claim_id l ≡ some a
      → a.version ≡ request.expected_current_version
      → (resolve_transition a.lifecycle_state
          (record { action = action; target_state = target })).allowed
        ≡ true
      → Commits hash action target request a "transition_allowed" l receipt l'
      → Outcome hash action target request l (answered receipt) l'

-- A replay writes nothing.
pub replay-unchanged :
    (hash action : String) (request : MemoryLifecycleRequest) (existing : ReceiptRow) (l : Ledger)
    (receipt : MemoryWriteReceipt) (l' : Ledger)
    → replay hash action request existing l ≡ done receipt l'
    → l' ≡ l
unfolding replay
replay-unchanged hash action request existing l receipt l' h = ground arith

-- The state of an authority allows the target.
abbrev pub allows : String → LifecycleState → LifecycleState → Bool
allows action target state =
    (resolve_transition state (record { action = action; target_state = target })).allowed

-- A query that has to find a row has found one.
pub found-done :
    {A B : Type 0} (o : Option A) (r : MemoryWriteReceipt) (next : A → TxResult B) (b : B)
    (l : Ledger)
    → elim o [ none ↦ refused r | some a ↦ next a ] ≡ done b l
    → (a : A) × (o ≡ some a) × (next a ≡ done b l)
found-done none r next b l h = absurd (cc)
found-done (some a) r next b l h = (a, refl, h)

pub passed-done :
    {B : Type 0} (t : Bool) (r : MemoryWriteReceipt) (next : TxResult B) (b : B) (l : Ledger)
    → elim t [ false ↦ refused r | true ↦ next ] ≡ done b l
    → (t ≡ true) × (next ≡ done b l)
passed-done false r next b l h = absurd (cc)
passed-done true r next b l h = (refl, h)

pub allows-reason :
    (action : String) (target state : LifecycleState)
    → allows action target state ≡ true
    → (resolve_transition state (record { action = action; target_state = target })).reason_code
      ≡ "transition_allowed"
unfolding resolve_transition
allows-reason action target state h = rw (h) refl

pub transit-Outcome :
    (hash action : String) (target : LifecycleState) (request : MemoryLifecycleRequest) (l : Ledger)
    (receipt : MemoryWriteReceipt) (l' : Ledger)
    → find_by (has_key request.idempotency_key) l.receipts ≡ none
    → transit hash action target request l ≡ done receipt l'
    → Outcome hash action target request l (answered receipt) l'
unfolding transit
transit-Outcome hash action target request l receipt l' fresh h =
    let f = found-done (find_authority request.claim_id l) _ _ receipt l' h in
    let a = f.0 in
    let v = passed-done (a.version == request.expected_current_version) _ _ receipt l' f.2 in
    let d = passed-done (allows action target a.lifecycle_state) _ _ receipt l' v.1 in
    let w = write_transition-Commits hash action target request a _ l receipt l' d.1 in
    transitioned a receipt l' fresh f.1 (==→≡ a.version request.expected_current_version v.0) d.0
      (rw (sym (allows-reason action target a.lifecycle_state d.0)) w)

module _ (request_hash : String → ℕ → ℕ → String → String) where
  pub lifecycle_body-Outcome :
      (action : String) (target : LifecycleState) (request : MemoryLifecycleRequest) (l : Ledger)
      (receipt : MemoryWriteReceipt) (l' : Ledger)
      → lifecycle_body request_hash action target request l ≡ done receipt l'
      → Outcome
          (source_hash request_hash action request)
          action
          target
          request
          l
          (answered receipt)
          l'
  unfolding lifecycle_body
  lifecycle_body-Outcome action target request l receipt l' h =
      go (find_by (has_key request.idempotency_key) l.receipts) refl h
    where
      go :
          (o : Option ReceiptRow)
          → find_by (has_key request.idempotency_key) l.receipts ≡ o
          → elim o [
            | none ↦ transit (source_hash request_hash action request) action target request l
            | some existing ↦
                replay (source_hash request_hash action request) action request existing l
          ]
            ≡ done receipt l'
          → Outcome
              (source_hash request_hash action request)
              action
              target
              request
              l
              (answered receipt)
              l'
      go none e k = transit-Outcome _ action target request l receipt l' e k
      go (some existing) e k =
          rw (replay-unchanged _ action request existing l receipt l' k)
            (unchanged (answered receipt))

  pub run_transaction-Outcome :
      (action : String) (target : LifecycleState) (request : MemoryLifecycleRequest) (l : Ledger)
      (r : TxResult MemoryWriteReceipt)
      → ((receipt : MemoryWriteReceipt) (l' : Ledger)
          → r ≡ done receipt l'
          → Outcome
              (source_hash request_hash action request)
              action
              target
              request
              l
              (answered receipt)
              l')
      → (after : Reply × Ledger)
      → elim r [
        | done receipt l' ↦ (answered receipt, l')
        | refused receipt ↦ (answered receipt, l)
        | raised e ↦ (raising e, l)
      ]
        ≡ after
      → Outcome (source_hash request_hash action request) action target request l after.0 after.1
  run_transaction-Outcome action target request l (done receipt l') body after e =
      rw (sym e) (body receipt l' refl)
  run_transaction-Outcome action target request l (refused receipt) body after e =
      rw (sym e) (unchanged (answered receipt))
  run_transaction-Outcome action target request l (raised x) body after e =
      rw (sym e) (unchanged (raising x))

  -- A call of `_lifecycle` either leaves every table as it was, whatever it answers or raises, or
  -- commits all of one transition of the authority that the claim had, at the expected version.
  pub lifecycle-Outcome :
      (action : String) (target : LifecycleState) (request : MemoryLifecycleRequest) (l : Ledger)
      → Outcome
          (source_hash request_hash action request)
          action
          target
          request
          l
          (lifecycle request_hash action target request l).0
          (lifecycle request_hash action target request l).1
  unfolding lifecycle run_transaction
  lifecycle-Outcome action target request l =
      run_transaction-Outcome action target request l
        (lifecycle_body request_hash action target request l)
        (lifecycle_body-Outcome action target request l) _ refl
