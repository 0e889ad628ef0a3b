-- ===== src/Memory/Lifecycle/Invariant.antt =====
-- The well-formedness of the tables, which `_lifecycle` keeps.
use soul_llink.Base.{
  if-keeps, ==_comm, ℕ, ◌+◌, ◌<◌, ◌≡◌, refl, ◌∙◌, ap, true, false, List, [], ◌∷◌, ◌++◌, map, none,
  ==-refl, nat_eq, string_eq, any, contains, All, All-append, All-map, Distinct, Distinct-snoc,
  arith, String,
}
use soul_llink.Memory.Contracts.{LifecycleState, lifecycle_eq, MemoryWriteReceipt}
use soul_llink.Memory.Ledger.{
  VersionRow, GovernanceRow, CurrentRow, ReceiptRow, Ledger, is_version_of, is_governance_of,
  is_active_row, switch_row, has_key, receipt_abort,
}
use soul_llink.Memory.Ledger.Facts.{governance_abort-none, abort-when}
use soul_llink.Base.Rows.{any-left, any-snoc, All-map_rows, map-same}
use soul_llink.Memory.Lifecycle.{MemoryLifecycleRequest, Authority, is_governance_row}
use soul_llink.Memory.Lifecycle.Service.{
  governance_row, switched_row, receipt_row, lifecycle, Reply,
}
use soul_llink.Memory.Lifecycle.Commit.{Commits}
use soul_llink.Memory.Lifecycle.Outcomes.{Outcome, unchanged, transitioned, lifecycle-Outcome}

-- The keys of the governance log are below the next one. A current row stands for a version of its
-- claim and for an event of the log, and no claim has two. A receipt names an event of its claim
-- and its action, and no two receipts have a key in common.
pub record IsWellFormed (l : Ledger) : Type 0 where
  pub ids_below : All (λ g. g.memory_governance_id < l.next_governance_id) l.governance
  pub current_versions :
      All (λ c. any (is_version_of c.claim_id c.claim_version_id) l.versions ≡ true) l.current
  pub current_events : All (λ c. any (is_governance_of c) l.governance ≡ true) l.current
  pub one_current : Distinct (map (λ c. c.claim_id) l.current)
  pub receipt_events :
      All
        (λ r.
          any (is_governance_row r.memory_governance_id r.claim_id r.action) l.governance ≡ true)
        l.receipts
  pub one_receipt : Distinct (map (λ r. r.idempotency_key) l.receipts)

pub switch_row-keeps :
    (P : CurrentRow → Type 0) (old : ℕ) (row c : CurrentRow)
    → P row
    → P c
    → P (switch_row old row c)
switch_row-keeps P old row c hr hc = if-keeps P (is_active_row row.claim_id old c) row c hr hc

pub switch_row-claim_id :
    (old : ℕ) (row c : CurrentRow) → (switch_row old row c).claim_id ≡ c.claim_id
switch_row-claim_id old row c = ground (arith)

-- No receipt has the key of a row that the table takes.
pub receipt_abort-none :
    (row : ReceiptRow) (l : Ledger)
    → receipt_abort row l ≡ none
    → any (has_key row.idempotency_key) l.receipts ≡ false
unfolding receipt_abort
receipt_abort-none row l h = (abort-when (any (has_key row.idempotency_key) l.receipts) _ _ h).0

pub contains-keys :
    (key : String) (rs : List ReceiptRow)
    → contains (map (λ r. r.idempotency_key) rs) key ≡ any (has_key key) rs
contains-keys key [] = refl
contains-keys key (r ∷ rs) = rw (contains-keys key rs, ==_comm key r.idempotency_key) refl

pub map-snoc :
    {A B : Type 0} (f : A → B) (xs : List A) (a : A) → map f (xs ++ a ∷ []) ≡ map f xs ++ f a ∷ []
map-snoc f [] a = refl
map-snoc f (x ∷ xs) a = ap {B = List _} (λ r. f x ∷ r) (map-snoc f xs a)

lt_step : (m n : ℕ) → m < n → m < n + 1
lt_step m n h = omega arith

lt_next : (n : ℕ) → n < n + 1
lt_next n = omega arith

unfoldable pub HasVersion : List VersionRow → CurrentRow → Type 0
HasVersion versions c = any (is_version_of c.claim_id c.claim_version_id) versions ≡ true

unfoldable pub HasEvent : List GovernanceRow → CurrentRow → Type 0
HasEvent governance c = any (is_governance_of c) governance ≡ true

-- The event of a transition is the one of the row that it writes.
pub switched_row-HasEvent :
    (request : MemoryLifecycleRequest) (action : String) (target : LifecycleState) (a : Authority)
    (id : ℕ)
    → is_governance_of
        (switched_row request target a id)
        (governance_row request action target a id)
      ≡ true
switched_row-HasEvent request action target a id =
    rw (==-refl id, ==-refl request.claim_id, ==-refl a.claim_version_id, ==-refl target) refl

pub receipt_row-names :
    (hash action : String) (target : LifecycleState) (request : MemoryLifecycleRequest)
    (a : Authority) (id : ℕ)
    → is_governance_row id request.claim_id action (governance_row request action target a id)
      ≡ true
receipt_row-names hash action target request a id =
    rw (==-refl id, ==-refl request.claim_id, ==-refl action) refl

module _ (hash action : String) (target : LifecycleState) (request : MemoryLifecycleRequest)
    (a : Authority) (reason : String) (l : Ledger) (receipt : MemoryWriteReceipt)
    (l' : Ledger) where
  pub Commits-IsWellFormed :
      Commits hash action target request a reason l receipt l' → IsWellFormed l → IsWellFormed l'
  unfolding HasVersion HasEvent
  Commits-IsWellFormed c w =
      let id = l.next_governance_id in
      let old = a.claim_version_id in
      let row = switched_row request target a id in
      let event = governance_row request action target a id in
      rw (c.after) (record {
        ids_below =
            All-append _ l.governance _
              (All-map _ _ (λ g h. lt_step g.memory_governance_id id h) l.governance w.ids_below)
              (lt_next id, tt);
        current_versions =
            All-map_rows (HasVersion l.versions) (HasVersion l.versions) (switch_row old row)
              (λ x h.
                switch_row-keeps (HasVersion l.versions) old row x
                  (governance_abort-none event l c.governed).1 h)
              l.current w.current_versions;
        current_events =
            All-map_rows (HasEvent l.governance) (HasEvent (l.governance ++ event ∷ []))
              (switch_row old row)
              (λ x h.
                switch_row-keeps (HasEvent (l.governance ++ event ∷ [])) old row x
                  (any-snoc _ l.governance event (switched_row-HasEvent request action target a id))
                  (any-left _ l.governance _ h))
              l.current w.current_events;
        one_current =
            rw
              (map-same (λ x. x.claim_id) (switch_row old row) (switch_row-claim_id old row)
                l.current)
              w.one_current;
        receipt_events =
            All-append _ l.receipts _
              (All-map _ _ (λ r h. any-left _ l.governance _ h) l.receipts w.receipt_events)
              (
                any-snoc _ l.governance event (receipt_row-names hash action target request a id),
                tt,
              );
        one_receipt =
            rw (map-snoc (λ r. r.idempotency_key) l.receipts (receipt_row hash request action id)) (
              Distinct-snoc _ request.idempotency_key w.one_receipt (
                contains-keys request.idempotency_key l.receipts
                ∙ receipt_abort-none _ l c.recorded));
      })

pub Outcome-IsWellFormed :
    (hash action : String) (target : LifecycleState) (request : MemoryLifecycleRequest) (l : Ledger)
    (reply : Reply) (l' : Ledger)
    → Outcome hash action target request l reply l'
    → IsWellFormed l
    → IsWellFormed l'
Outcome-IsWellFormed hash action target request l reply l' (unchanged _) w = w
Outcome-IsWellFormed hash action target request l reply l' (transitioned a receipt _ _ _ _ _ c) w =
    Commits-IsWellFormed hash action target request a _ l receipt l' c w

-- Every call of `_lifecycle` keeps well-formed tables well-formed.
pub lifecycle-IsWellFormed :
    (request_hash : String → ℕ → ℕ → String → String) (action : String) (target : LifecycleState)
    (request : MemoryLifecycleRequest) (l : Ledger)
    → IsWellFormed l
    → IsWellFormed (lifecycle request_hash action target request l).1
lifecycle-IsWellFormed request_hash action target request l w =
    Outcome-IsWellFormed _ action target request l _ _
      (lifecycle-Outcome request_hash action target request l) w
