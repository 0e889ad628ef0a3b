-- ===== src/Memory/Lifecycle/Steps.antt =====
-- What the statements of a transition have done when they go through: the check of the row count
-- and the jobs of the source.
use soul_llink.Base.{
  ap, map, length, filter_by, ℕ, ◌≡◌, refl, sym, ◌∙◌, Bool, true, false, List, String, Option, none,
  some, nat_eq, ◌==◌, ==→≡, if◌then◌else◌,
}
use soul_llink.Memory.Contracts.{MemoryWriteReceipt}
use soul_llink.Memory.Ledger.{
  ClaimSource, event_source, legacy_source, system_source, JobRow, Ledger, Tx, TxResult, done,
  refused, raised, CurrentRow, current_abort, switch_row, is_active_row, update_current, ◌>>=◌,
  ◌>>◌,
}
use soul_llink.Memory.Ledger.Facts.{done-injective, >>=-done, update_current-done}
use soul_llink.Memory.Outbox.{
  Commitment, memory_projections, enqueue_rows, enqueue, enqueue_memory_projections,
}
use soul_llink.Memory.Lifecycle.{
  MemoryLifecycleRequest, Authority, require_switched, commitment, enqueue_source,
}

pub if-refused :
    {A : Type 0} (b : Bool) (r : MemoryWriteReceipt) (x : TxResult A) (a : A) (l : Ledger)
    → (if b then x else refused r) ≡ done a l
    → (b ≡ true) × (x ≡ done a l)
if-refused true r x a l h = (refl, h)
if-refused false r x a l h = absurd (cc)

pub require_switched-done :
    (claim_id count : ℕ) (u : Unit {0}) (l l' : Ledger)
    → require_switched claim_id count l ≡ done u l'
    → (count ≡ 1) × (l' ≡ l)
require_switched-done claim_id count u l l' h =
    let r = if-refused (count == 1) _ _ u l' h in
    let p = done-injective _ _ _ _ r.1 in (==→≡ count 1 r.0, sym p.1)

-- An update that passes the check of its row count has switched one row.
pub switch-done :
    {B : Type 0} (claim_id old_version_id : ℕ) (row : CurrentRow) (rest : Tx B) (b : B)
    (l l' : Ledger)
    → (update_current old_version_id row >>= λ count. require_switched claim_id count >> rest) l
      ≡ done b l'
    → (current_abort row l ≡ none)
      × (length (filter_by (is_active_row row.claim_id old_version_id) l.current) ≡ 1)
      × (rest (record l { current = map (switch_row old_version_id row) l.current }) ≡ done b l')
switch-done claim_id old_version_id row rest b l l' h =
    let s = >>=-done _ _ l l' b h in
    let t = >>=-done _ _ s.1 l' b s.3 in
    let n = require_switched-done claim_id s.0 t.0 s.1 t.1 t.2 in
    let u = update_current-done old_version_id row l s.1 (s.2 ∙ ap (λ (k : ℕ). done k s.1) n.0) in
    (u.1, u.2, rw (sym u.0, sym n.1) t.3)

-- The commitment that a source stands for; a system source has none.
abbrev pub source_commitment : MemoryLifecycleRequest → Authority → ClaimSource → Option Commitment
source_commitment request a (event_source event_id) =
    some (commitment request a (some event_id) "event" event_id)
source_commitment request a (legacy_source record_id) =
    some (commitment request a none "legacy_record" record_id)
source_commitment request a system_source = none

pub enqueue-done :
    (c : Commitment) (kinds : List String) (u : Unit {0}) (l l' : Ledger)
    → enqueue c kinds l ≡ done u l'
    → (jobs : List JobRow) × (enqueue_rows c kinds l.outbox ≡ some jobs)
      × (l' ≡ record l { outbox = jobs })
unfolding enqueue
enqueue-done c kinds u l l' h = go (enqueue_rows c kinds l.outbox) refl h
  where
    go :
        (o : Option (List JobRow))
        → enqueue_rows c kinds l.outbox ≡ o
        → elim o [
          | none ↦ raised "projection commitment conflict"
          | some jobs ↦ done tt (record l { outbox = jobs })
        ]
          ≡ done u l'
        → (jobs : List JobRow) × (enqueue_rows c kinds l.outbox ≡ some jobs)
          × (l' ≡ record l { outbox = jobs })
    go none e k = absurd (cc)
    go (some jobs) e k = let p = done-injective _ _ _ _ k in (jobs, e, sym p.1)

-- The jobs of a transition, and the commitment that they carry.
unfoldable pub IsEnqueuedSource :
    MemoryLifecycleRequest → Authority → ClaimSource → List JobRow → List JobRow → Type 0
IsEnqueuedSource request a source before jobs =
    (c : Commitment) × (source_commitment request a source ≡ some c)
    × (enqueue_rows c memory_projections before ≡ some jobs)

pub enqueue_source-done :
    (request : MemoryLifecycleRequest) (a : Authority) (source : ClaimSource) (u : Unit {0})
    (l l' : Ledger)
    → enqueue_source request a source l ≡ done u l'
    → (jobs : List JobRow) × IsEnqueuedSource request a source l.outbox jobs
      × (l' ≡ record l { outbox = jobs })
unfolding enqueue_source enqueue_memory_projections IsEnqueuedSource
enqueue_source-done request a (event_source e) u l l' h =
    let r = enqueue-done _ memory_projections u l l' h in (r.0, (_, refl, r.1), r.2)
enqueue_source-done request a (legacy_source i) u l l' h =
    let r = enqueue-done _ memory_projections u l l' h in (r.0, (_, refl, r.1), r.2)
enqueue_source-done request a system_source u l l' h = absurd (cc)
