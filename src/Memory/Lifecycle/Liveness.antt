-- ===== src/Memory/Lifecycle/Liveness.antt =====
-- What a call of `_lifecycle` needs to go through, and what it finds then.
use soul_llink.Base.{
  ==_comm, suc, ℕ, ◌≡◌, refl, sym, ◌∙◌, ap, inl, inr, Bool, true, false, ◌||◌, List, [], ◌∷◌, map,
  Option, none, some, ◌==◌, ==→≡, ==-refl, nat_eq, string_eq, arith, String, Bool-cases, find_by,
  any, contains, All, Distinct, length, filter_by,
}
use mathlib.Core.Path.{subst}
use soul_llink.Memory.Contracts.{LifecycleState, active, retired, expired, lifecycle_eq}
use soul_llink.Memory.Policy.{resolve_transition, action_target}
use soul_llink.Memory.Ledger.{
  CurrentRow, JobRow, Ledger, is_active_row, is_governance_edge, is_version_of, has_key,
}
use soul_llink.Base.Rows.{find_by-head, find_by-tail, find_by-passes}
use soul_llink.Memory.Lifecycle.{MemoryLifecycleRequest, Authority, find_authority}
use soul_llink.Memory.Lifecycle.Steps.{IsEnqueuedSource}
use soul_llink.Memory.Lifecycle.Outcomes.{allows}
use soul_llink.Memory.Lifecycle.Invariant.{IsWellFormed, HasVersion}

pub some_injective : {A : Type 0} {x y : A} → some x ≡ some y → x ≡ y
some_injective h = cc

All-find_by :
    {A : Type 0} (P : A → Type 0) (p : A → Bool) (xs : List A) (a : A)
    → find_by p xs ≡ some a
    → All P xs
    → P a
All-find_by P p [] a e h = absurd (cc)
All-find_by P p (x ∷ xs) a e h = elim (Bool-cases (p x)) [
  | inl t ↦ subst P (some_injective (sym (find_by-head p x xs t) ∙ e)) h.0
  | inr f ↦ All-find_by P p xs a (sym (find_by-tail p x xs f) ∙ e) h.1
]

no_active :
    (claim_id version_id : ℕ) (cs : List CurrentRow)
    → contains (map (λ c. c.claim_id) cs) claim_id ≡ false
    → length (filter_by (is_active_row claim_id version_id) cs) ≡ 0
no_active claim_id version_id [] h = refl
no_active claim_id version_id (c ∷ cs) h =
    ground (arith, no_active claim_id version_id cs, ==_comm c.claim_id claim_id)

-- The current row of a claim is the only one that the update hits, when it is active.
one_active :
    (claim_id : ℕ) (cs : List CurrentRow) (c : CurrentRow)
    → Distinct (map (λ x. x.claim_id) cs)
    → find_by (λ x. x.claim_id == claim_id) cs ≡ some c
    → c.lifecycle_state ≡ active
    → length (filter_by (is_active_row claim_id c.claim_version_id) cs) ≡ 1
one_active claim_id [] c d e s = absurd (cc)
one_active claim_id (x ∷ cs) c d e s = elim (Bool-cases (x.claim_id == claim_id)) [
  | inl t ↦
      let p : x ≡ c =
        some_injective (sym (find_by-head (λ r. r.claim_id == claim_id) x cs t) ∙ e) in
      let on : x.lifecycle_state ≡ active =
        ap {B = LifecycleState} (λ r. r.lifecycle_state) p ∙ s in
      let off = no_active claim_id x.claim_version_id cs (
        subst (λ i. contains (map (λ r. r.claim_id) cs) i ≡ false) (==→≡ x.claim_id claim_id t)
          d.0) in
      subst (λ r. length (filter_by (is_active_row claim_id r.claim_version_id) (x ∷ cs)) ≡ 1) p
        (rw (t, ==-refl x.claim_version_id, on) (ap {B = ℕ} (λ n. suc n) off))
  | inr f ↦ rw (f) (one_active claim_id cs c d.1 (sym (find_by-tail _ x cs f) ∙ e) s)
]

-- A lookup that goes on with what it finds has found it.
some-found :
    {A B : Type 0} (o : Option A) (next : A → Option B) (b : B)
    → elim o [ none ↦ none | some a ↦ next a ] ≡ some b
    → (a : A) × (o ≡ some a) × (next a ≡ some b)
some-found none next b h = absurd (cc)
some-found (some a) next b h = (a, refl, h)

-- The query on memory_current takes the version and the state of the claim's row.
pub find_authority-joined :
    (claim_id : ℕ) (l : Ledger) (a : Authority)
    → find_authority claim_id l ≡ some a
    → (c : CurrentRow) × (find_by (λ x. x.claim_id == claim_id) l.current ≡ some c)
      × (a.claim_version_id ≡ c.claim_version_id)
      × (a.lifecycle_state ≡ c.lifecycle_state)
unfolding find_authority
find_authority-joined claim_id l a h =
    let r1 = some-found (find_by (λ x. x.claim_id == claim_id) l.current) _ a h in
    let r2 =
      some-found (find_by (λ v. v.claim_version_id == r1.0.claim_version_id) l.versions) _ a r1.2 in
    let r3 =
      some-found (find_by (λ x. x.claim_version_id == r1.0.claim_version_id) l.sources) _ a r2.2 in
    let e = sym (some_injective r3.2) in
    (
      r1.0,
      r1.1,
      ap {B = ℕ} (λ x. x.claim_version_id) e,
      ap {B = LifecycleState} (λ x. x.lifecycle_state) e,
    )

module _ (request : MemoryLifecycleRequest) (l : Ledger) (w : IsWellFormed l) (a : Authority) where
  -- The authority of a claim is a version of it.
  pub authority-HasVersion :
      find_authority request.claim_id l ≡ some a
      → any (is_version_of request.claim_id a.claim_version_id) l.versions ≡ true
  unfolding HasVersion
  authority-HasVersion h =
      let j = find_authority-joined request.claim_id l a h in
      let v = All-find_by (HasVersion l.versions) _ l.current j.0 j.1 w.current_versions in
      let k = ==→≡ j.0.claim_id request.claim_id (find_by-passes _ l.current j.0 j.1) in
      rw (j.2, sym k) v

  pub authority-one_active :
      find_authority request.claim_id l ≡ some a
      → a.lifecycle_state ≡ active
      → length (filter_by (is_active_row request.claim_id a.claim_version_id) l.current) ≡ 1
  authority-one_active h s =
      let j = find_authority-joined request.claim_id l a h in
      rw (j.2) (one_active request.claim_id l.current j.0 w.one_current j.1 (sym j.3 ∙ s))

-- An action that the policy, the governance log and the receipts know, out of the active state.
pub record Ends (action : String) (target : LifecycleState) : Type 0 where
  pub allowed : allows action target active ≡ true
  pub edge : is_governance_edge action (some active) target ≡ true
  pub inactive : (target == active) ≡ false
  pub received : (action == "retire" || action == "expire") ≡ true

pub retire-Ends : Ends "retire" retired
unfolding resolve_transition action_target
retire-Ends = record { allowed = refl; edge = refl; inactive = refl; received = refl }

pub expire-Ends : Ends "expire" expired
unfolding resolve_transition action_target
expire-Ends = record { allowed = refl; edge = refl; inactive = refl; received = refl }

-- What a call needs to go through: a key without a receipt, an active authority at the expected
-- version, no guard, and jobs that do not conflict with those in the outbox.
pub record IsReady (request : MemoryLifecycleRequest) (l : Ledger) (a : Authority)
    (jobs : List JobRow) : Type 0 where
  pub fresh : find_by (has_key request.idempotency_key) l.receipts ≡ none
  pub found : find_authority request.claim_id l ≡ some a
  pub at_version : a.version ≡ request.expected_current_version
  pub is_active : a.lifecycle_state ≡ active
  pub unguarded : contains l.guards request.claim_id ≡ false
  pub enqueued : IsEnqueuedSource request a a.source l.outbox jobs
