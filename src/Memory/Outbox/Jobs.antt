-- ===== src/Memory/Outbox/Jobs.antt =====
-- What the outbox holds after `_enqueue`.
use soul_llink.Base.{
  ◌∙◌, ℕ, ◌≡◌, refl, sym, inl, inr, Bool, true, false, List, [], ◌∷◌, ◌++◌, String, Option, none,
  some, ==-refl, nat_eq, string_eq, find_by, Bool-cases, Option-cases, All,
}
use mathlib.Core.List.{append_assoc, append-nil}
use soul_llink.Base.Rows.{find_by-append, find_by-snoc}
use soul_llink.Memory.Ledger.{Aggregate, memory_aggregate, event_aggregate, same_aggregate, JobRow}
use soul_llink.Memory.Outbox.{
  Commitment, pending_job, is_job, same_event, is_committed, enqueue_rows,
}

-- A job of the kind stands in the outbox with the commitment.
unfoldable pub IsEnqueued : Commitment → List JobRow → String → Type 0
IsEnqueued c jobs kind =
    (j : JobRow) × (find_by (is_job kind c.aggregate_id c.aggregate_version) jobs ≡ some j)
    × (is_committed c j ≡ true)

-- The rows go on with further ones.
unfoldable pub Extends : List JobRow → List JobRow → Type 0
Extends jobs after = (new : List JobRow) × (after ≡ jobs ++ new)

pub same_aggregate_refl : (a : Aggregate) → same_aggregate a a ≡ true
same_aggregate_refl (memory_aggregate n) = ==-refl n
same_aggregate_refl (event_aggregate n) = ==-refl n

pub same_event_refl : (o : Option ℕ) → same_event o o ≡ true
same_event_refl none = refl
same_event_refl (some n) = ==-refl n

pub pending_job-is_job :
    (c : Commitment) (kind : String)
    → is_job kind c.aggregate_id c.aggregate_version (pending_job c kind) ≡ true
pending_job-is_job c kind =
    rw (==-refl kind, same_aggregate_refl c.aggregate_id, ==-refl c.aggregate_version) refl

pub pending_job-is_committed :
    (c : Commitment) (kind : String) → is_committed c (pending_job c kind) ≡ true
pending_job-is_committed c kind =
    rw
      (
        same_event_refl c.event_id,
        ==-refl c.authority_kind,
        ==-refl c.authority_id,
        ==-refl c.payload_sha256,
      )
      refl

pub find_by-Extends :
    (p : JobRow → Bool) (jobs after : List JobRow) (j : JobRow)
    → find_by p jobs ≡ some j
    → Extends jobs after
    → find_by p after ≡ some j
unfolding Extends
find_by-Extends p jobs after j e x = rw (x.1) (find_by-append p jobs x.0 j e)

pub Extends-trans :
    (jobs mid after : List JobRow) → Extends jobs mid → Extends mid after → Extends jobs after
unfolding Extends
Extends-trans jobs mid after x y = (x.0 ++ y.0, rw (y.1, x.1) (append_assoc jobs x.0 y.0))

pub IsEnqueued-Extends :
    (c : Commitment) (jobs after : List JobRow) (kind : String)
    → IsEnqueued c jobs kind
    → Extends jobs after
    → IsEnqueued c after kind
unfolding IsEnqueued
IsEnqueued-Extends c jobs after kind h x = (h.0, find_by-Extends _ jobs after h.0 h.1 x, h.2)

pub find_by-IsEnqueued :
    (c : Commitment) (jobs after : List JobRow) (kind : String) (j : JobRow)
    → find_by (is_job kind c.aggregate_id c.aggregate_version) jobs ≡ some j
    → is_committed c j ≡ true
    → Extends jobs after
    → IsEnqueued c after kind
unfolding IsEnqueued
find_by-IsEnqueued c jobs after kind j e t x = (j, find_by-Extends _ jobs after j e x, t)

pub IsEnqueued-pending_job :
    (c : Commitment) (jobs : List JobRow) (kind : String)
    → find_by (is_job kind c.aggregate_id c.aggregate_version) jobs ≡ none
    → IsEnqueued c (jobs ++ pending_job c kind ∷ []) kind
unfolding IsEnqueued
IsEnqueued-pending_job c jobs kind e = (
  pending_job c kind,
  find_by-snoc _ jobs (pending_job c kind) e (pending_job-is_job c kind),
  pending_job-is_committed c kind,
)

module _ (c : Commitment) (kind : String) (kinds : List String) (jobs : List JobRow) where
  enqueue_rows-absent :
      find_by (is_job kind c.aggregate_id c.aggregate_version) jobs ≡ none
      → enqueue_rows c (kind ∷ kinds) jobs ≡ enqueue_rows c kinds (jobs ++ pending_job c kind ∷ [])
  unfolding enqueue_rows
  enqueue_rows-absent e = rw (enqueue_rows, e) refl

  enqueue_rows-present :
      (j : JobRow)
      → find_by (is_job kind c.aggregate_id c.aggregate_version) jobs ≡ some j
      → is_committed c j ≡ true
      → enqueue_rows c (kind ∷ kinds) jobs ≡ enqueue_rows c kinds jobs
  unfolding enqueue_rows
  enqueue_rows-present j e t = rw (enqueue_rows, e, t) refl

  enqueue_rows-conflict :
      (j : JobRow)
      → find_by (is_job kind c.aggregate_id c.aggregate_version) jobs ≡ some j
      → is_committed c j ≡ false
      → enqueue_rows c (kind ∷ kinds) jobs ≡ none
  unfolding enqueue_rows
  enqueue_rows-conflict j e t = rw (enqueue_rows, e, t) refl

-- After `_enqueue` the old jobs stand as they were, and each kind has a job of the commitment.
pub enqueue_rows-IsEnqueued :
    (c : Commitment) (kinds : List String) (jobs after : List JobRow)
    → enqueue_rows c kinds jobs ≡ some after
    → Extends jobs after × All (IsEnqueued c after) kinds
unfolding enqueue_rows Extends
enqueue_rows-IsEnqueued c [] jobs after h = (([], cc (append-nil jobs)), tt)
enqueue_rows-IsEnqueued c (kind ∷ kinds) jobs after h =
    elim (Option-cases (find_by (is_job kind c.aggregate_id c.aggregate_version) jobs)) [
      | inl e ↦
          let r =
            enqueue_rows-IsEnqueued c kinds _ after
              (sym (enqueue_rows-absent c kind kinds jobs e) ∙ h) in
          (
            Extends-trans jobs _ after (pending_job c kind ∷ [], refl) r.0,
            (IsEnqueued-Extends c _ after kind (IsEnqueued-pending_job c jobs kind e) r.0, r.1),
          )
      | inr (j, e) ↦ elim (Bool-cases (is_committed c j)) [
        | inl t ↦
            let r =
              enqueue_rows-IsEnqueued c kinds jobs after
                (sym (enqueue_rows-present c kind kinds jobs j e t) ∙ h) in
            (r.0, (find_by-IsEnqueued c jobs after kind j e t r.0, r.1))
        | inr f ↦ absurd (let n = enqueue_rows-conflict c kind kinds jobs j e f in cc)
      ]
    ]

-- To enqueue what stands there changes nothing.
pub IsEnqueued-enqueue_rows :
    (c : Commitment) (kinds : List String) (jobs : List JobRow)
    → All (IsEnqueued c jobs) kinds
    → enqueue_rows c kinds jobs ≡ some jobs
unfolding enqueue_rows IsEnqueued
IsEnqueued-enqueue_rows c [] jobs h = refl
IsEnqueued-enqueue_rows c (kind ∷ kinds) jobs h =
    enqueue_rows-present c kind kinds jobs h.0.0 h.0.1 h.0.2
    ∙ IsEnqueued-enqueue_rows c kinds jobs h.1

-- When `_enqueue` accepts a commitment, the old jobs stand as they were, each kind has a job of the
-- commitment, and to enqueue it again is accepted and changes nothing.
pub enqueue_rows-settles :
    (c : Commitment) (kinds : List String) (jobs after : List JobRow)
    → enqueue_rows c kinds jobs ≡ some after
    → Extends jobs after
      × All (IsEnqueued c after) kinds
      × (enqueue_rows c kinds after ≡ some after)
enqueue_rows-settles c kinds jobs after h =
    let r = enqueue_rows-IsEnqueued c kinds jobs after h in
    (r.0, r.1, IsEnqueued-enqueue_rows c kinds after r.1)
