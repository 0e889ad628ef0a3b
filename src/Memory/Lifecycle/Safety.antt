-- ===== src/Memory/Lifecycle/Safety.antt =====
-- What a call of `_lifecycle` can change at all: the current row of the claim, when it is active.
use soul_llink.Base.{
  ℕ, ◌≡◌, refl, sym, ap, ◌⊎◌, inl, inr, Bool, true, false, ◌&&◌, List, [], ◌∷◌, ◌++◌, map, ◌==◌,
  ==→≡, nat_eq, arith, String, Bool-cases,
}
use mathlib.Core.List.{append-nil}
use soul_llink.Memory.Contracts.{LifecycleState, active, lifecycle_eq}
use soul_llink.Memory.Ledger.{CurrentRow, GovernanceRow, Ledger, is_active_row, switch_row}
use soul_llink.Memory.Lifecycle.{MemoryLifecycleRequest, Authority}
use soul_llink.Memory.Lifecycle.Service.{Reply, answered, raising, switched_row, lifecycle}
use soul_llink.Memory.Lifecycle.Outcomes.{Outcome, unchanged, transitioned, lifecycle-Outcome}

-- The answer is a refusal or an exception.
unfoldable pub IsFailure : Reply → Type 0
IsFailure (answered receipt) = receipt.success ≡ false
IsFailure (raising e) = Unit

-- The row of one claim went from active to the target, at the same version.
pub record Switches (claim_id : ℕ) (target : LifecycleState) (c c' : CurrentRow) : Type 0 where
  pub of_claim : c.claim_id ≡ claim_id
  pub was_active : c.lifecycle_state ≡ active
  pub same_claim : c'.claim_id ≡ claim_id
  pub same_version : c'.claim_version_id ≡ c.claim_version_id
  pub to_target : c'.lifecycle_state ≡ target

-- Row for row the current table is as it was, but for rows of one claim that are switched.
pub RowsSwitched : ℕ → LifecycleState → List CurrentRow → List CurrentRow → Type 0
RowsSwitched claim_id target [] [] = Unit
RowsSwitched claim_id target (c ∷ cs) (c' ∷ cs') =
    ((c' ≡ c) ⊎ Switches claim_id target c c') × RowsSwitched claim_id target cs cs'
RowsSwitched claim_id target _ _ = ⊥

RowsSwitched-refl :
    (claim_id : ℕ) (target : LifecycleState) (cs : List CurrentRow)
    → RowsSwitched claim_id target cs cs
unfolding RowsSwitched
RowsSwitched-refl claim_id target [] = tt
RowsSwitched-refl claim_id target (c ∷ cs) = (inl refl, RowsSwitched-refl claim_id target cs)

-- What the three tests of the update say.
is_active_row-true :
    (claim_id version_id : ℕ) (c : CurrentRow)
    → is_active_row claim_id version_id c ≡ true
    → (c.claim_id ≡ claim_id) × (c.claim_version_id ≡ version_id) × (c.lifecycle_state ≡ active)
is_active_row-true claim_id version_id c h =
    let t =
      and_true (c.claim_id == claim_id) (c.claim_version_id == version_id)
        (c.lifecycle_state == active) h in
    (==→≡ _ _ t.0, ==→≡ _ _ t.1, ==→≡ _ _ t.2)
  where
    and_true : (p q r : Bool) → (p && q && r) ≡ true → (p ≡ true) × (q ≡ true) × (r ≡ true)
    and_true p q r h = ground arith

switch_row-Switches :
    (request : MemoryLifecycleRequest) (target : LifecycleState) (a : Authority) (id : ℕ)
    (c : CurrentRow)
    → (switch_row a.claim_version_id (switched_row request target a id) c ≡ c)
      ⊎ Switches request.claim_id target c
          (switch_row a.claim_version_id (switched_row request target a id) c)
switch_row-Switches request target a id c =
    elim (Bool-cases (is_active_row request.claim_id a.claim_version_id c)) [
      | inl t ↦
          let q = is_active_row-true request.claim_id a.claim_version_id c t in
          inr (
            rw (t) (record {
              of_claim = q.0;
              was_active = q.2;
              same_claim = refl;
              same_version = sym q.1;
              to_target = refl;
            }))
      | inr f ↦ inl (rw (f) refl)
    ]

map-RowsSwitched :
    (request : MemoryLifecycleRequest) (target : LifecycleState) (a : Authority) (id : ℕ)
    (cs : List CurrentRow)
    → RowsSwitched request.claim_id target cs
        (map (switch_row a.claim_version_id (switched_row request target a id)) cs)
unfolding RowsSwitched
map-RowsSwitched request target a id [] = tt
map-RowsSwitched request target a id (c ∷ cs) =
    (switch_row-Switches request target a id c, map-RowsSwitched request target a id cs)

module _ (hash action : String) (target : LifecycleState) (request : MemoryLifecycleRequest)
    (l : Ledger) where
  Outcome-failed :
      (reply : Reply) (l' : Ledger)
      → Outcome hash action target request l reply l'
      → IsFailure reply
      → l' ≡ l
  unfolding IsFailure
  Outcome-failed reply l' (unchanged _) h = refl
  Outcome-failed reply l' (transitioned a receipt _ _ _ _ _ c) h =
      absurd (let e = ap {B = Bool} (λ r. r.success) c.answer in cc)

  Outcome-RowsSwitched :
      (reply : Reply) (l' : Ledger)
      → Outcome hash action target request l reply l'
      → RowsSwitched request.claim_id target l.current l'.current
        × (l'.versions ≡ l.versions)
        × (l'.sources ≡ l.sources)
        × ((new : List GovernanceRow) × (l'.governance ≡ l.governance ++ new))
  Outcome-RowsSwitched reply l' (unchanged _) = (
    RowsSwitched-refl request.claim_id target l.current,
    refl,
    refl,
    ([], sym (append-nil l.governance)),
  )
  Outcome-RowsSwitched reply l' (transitioned a receipt _ _ _ _ _ c) =
      rw (c.after)
        (map-RowsSwitched request target a l.next_governance_id l.current, refl, refl, (_, refl))

module _ (request_hash : String → ℕ → ℕ → String → String) where
  -- A call that answers with a failure or raises has left every table as it was.
  pub lifecycle-IsFailure :
      (action : String) (target : LifecycleState) (request : MemoryLifecycleRequest) (l : Ledger)
      → IsFailure (lifecycle request_hash action target request l).0
      → (lifecycle request_hash action target request l).1 ≡ l
  lifecycle-IsFailure action target request l =
      Outcome-failed _ action target request l _ _
        (lifecycle-Outcome request_hash action target request l)

  -- A call changes memory_current at rows of its own claim only, which were active and get its
  -- target at the same version. The versions and the sources stay, and the governance log keeps
  -- its events.
  pub lifecycle-RowsSwitched :
      (action : String) (target : LifecycleState) (request : MemoryLifecycleRequest) (l : Ledger)
      → let l' = (lifecycle request_hash action target request l).1 in
        RowsSwitched request.claim_id target l.current l'.current
        × (l'.versions ≡ l.versions)
        × (l'.sources ≡ l.sources)
        × ((new : List GovernanceRow) × (l'.governance ≡ l.governance ++ new))
  lifecycle-RowsSwitched action target request l =
      Outcome-RowsSwitched _ action target request l _ _
        (lifecycle-Outcome request_hash action target request l)
