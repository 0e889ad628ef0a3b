-- ===== src/Recall/Selection/Eligible.antt =====
-- When packages/pcltm/memory_selection.py selects a memory object.
use soul_llink.Base.{
  ℕ, ◌≤◌, ◌≡◌, refl, ◌∙◌, ◌⊎◌, inl, inr, ◌↔◌, Bool, true, false, not, ◌&&◌, Option, none, some,
  List, String, arith, ◌==◌, is_empty, is_some, ==→≡, ok,
}
use soul_llink.Recall.Object.{
  approved, quarantined, InjectionPolicy, pinned, selective, evidence_only, never, status_eq,
  policy_eq, is_identity, MemoryObject, make_memory_object, mode_in, axes_or, intersects,
  matches_state, injectable,
}
use soul_llink.Recall.Selection.{
  pinned_identity, priority_of, exceeds, explain_state, explain_memory_selection,
}

-- The weight is within what is left, if there is a limit.
abbrev Within : ℕ → Option ℕ → Type 0
Within weight none = Unit {0}
Within weight (some available) = weight ≤ available

-- An approved object that may be injected into this state within the budget.
pub record IsEligible (m : MemoryObject) (mode : Option String) (axes : Option (List String))
    (budget : Option ℕ) : Type 0 where
  pub is_approved : m.status ≡ approved
  pub injected : (m.injection_policy ≡ pinned) ⊎ (m.injection_policy ≡ selective)
  pub fits_mode :
      (is_empty m.state_affinity.modes ≡ true) ⊎ (mode_in mode m.state_affinity.modes ≡ true)
  pub fits_axes :
      (is_empty m.state_affinity.emotion_axes ≡ true)
      ⊎ (intersects (axes_or axes) m.state_affinity.emotion_axes ≡ true)
  pub affordable : Within m.budget_weight budget

Within-exceeds :
    (weight : ℕ) (budget : Option ℕ) → exceeds weight budget ≡ false → Within weight budget
Within-exceeds weight none h = tt
Within-exceeds weight (some available) h = ground arith

exceeds-Within :
    (weight : ℕ) (budget : Option ℕ) → Within weight budget → exceeds weight budget ≡ false
exceeds-Within weight none h = refl
exceeds-Within weight (some available) h = ground arith

pinned_or_selective :
    (p : InjectionPolicy)
    → (p == never) ≡ false
    → (p == evidence_only) ≡ false
    → (p ≡ pinned) ⊎ (p ≡ selective)
pinned_or_selective pinned h k = inl refl
pinned_or_selective selective h k = inr refl
pinned_or_selective evidence_only h k = cc
pinned_or_selective never h k = cc

either : (a b : Bool) → (not a && not b) ≡ false → (a ≡ true) ⊎ (b ≡ true)
either true b h = inl refl
either false true h = inr refl
either false false h = cc

explain-IsEligible :
    (m : MemoryObject) (mode : Option String) (axes : Option (List String)) (budget : Option ℕ)
    → (explain_memory_selection m mode axes budget).selected ≡ true
    → IsEligible m mode axes budget
unfolding explain_memory_selection explain_state matches_state
explain-IsEligible m mode axes budget h = record {
  is_approved = ==→≡ m.status approved (ground arith);
  injected = pinned_or_selective m.injection_policy (ground arith) (ground arith);
  fits_mode = either (is_empty m.state_affinity.modes) _ (ground arith);
  fits_axes = either (is_empty m.state_affinity.emotion_axes) _ (ground arith);
  affordable = Within-exceeds m.budget_weight budget (ground arith);
}

not_refused :
    (p : InjectionPolicy)
    → (p ≡ pinned) ⊎ (p ≡ selective)
    → ((p == never) ≡ false) × ((p == evidence_only) ≡ false)
not_refused p (inl e) = rw e (refl, refl)
not_refused p (inr e) = rw e (refl, refl)

matches_state_lem :
    (m : MemoryObject) (mode : Option String) (axes : Option (List String))
    → (is_empty m.state_affinity.modes ≡ true) ⊎ (mode_in mode m.state_affinity.modes ≡ true)
    → (is_empty m.state_affinity.emotion_axes ≡ true)
      ⊎ (intersects (axes_or axes) m.state_affinity.emotion_axes ≡ true)
    → matches_state m mode axes ≡ true
unfolding matches_state
matches_state_lem m mode axes h k = ground arith

IsEligible-explain :
    (m : MemoryObject) (mode : Option String) (axes : Option (List String)) (budget : Option ℕ)
    → IsEligible m mode axes budget
    → (explain_memory_selection m mode axes budget).selected ≡ true
unfolding explain_memory_selection explain_state
IsEligible-explain m mode axes budget e =
    let approved_test : (m.status == approved) ≡ true = rw e.is_approved refl in
    let (never_test, evidence_test) = not_refused m.injection_policy e.injected in
    let affordable = exceeds-Within m.budget_weight budget e.affordable in
    let state_test = matches_state_lem m mode axes e.fits_mode e.fits_axes in
    rw (approved_test, never_test, evidence_test, state_test, affordable)

-- A memory object is selected exactly when it is approved, pinned or selective, fits the mode and
-- the emotions where it names any, and is within the budget where there is one; it has a reason of
-- rejection exactly when it is not selected.
pub explain_memory_selection-IsEligible :
    (m : MemoryObject) (mode : Option String) (axes : Option (List String)) (budget : Option ℕ)
    → (((explain_memory_selection m mode axes budget).selected ≡ true)
        ↔ IsEligible m mode axes budget)
      × (is_some (explain_memory_selection m mode axes budget).rejected_reason
          ≡ not (explain_memory_selection m mode axes budget).selected)
unfolding explain_memory_selection explain_state
explain_memory_selection-IsEligible m mode axes budget =
    ((explain-IsEligible m mode axes budget, IsEligible-explain m mode axes budget), ground arith)

-- An identity that the constructor accepts is quarantined or pinned.
made_identity :
    (m m' : MemoryObject)
    → make_memory_object m ≡ ok m'
    → is_identity m'.object_type ≡ true
    → (m'.status == quarantined) ≡ false
    → (m'.injection_policy == pinned) ≡ true
unfolding make_memory_object
made_identity m m' e i q = ground arith

priority_of-identity :
    (m : MemoryObject)
    → is_identity m.object_type ≡ true
    → (m.injection_policy == pinned) ≡ true
    → priority_of m ≡ pinned_identity
unfolding priority_of
priority_of-identity m i p = let e = ==→≡ m.injection_policy pinned p in rw (e, i)

explain-priority :
    (m : MemoryObject) (mode : Option String) (axes : Option (List String)) (budget : Option ℕ)
    → (explain_memory_selection m mode axes budget).selected ≡ true
    → (explain_memory_selection m mode axes budget).priority_class ≡ priority_of m
unfolding explain_memory_selection explain_state
explain-priority m mode axes budget h = ground arith

-- An object that the constructor accepts and that is selected is injectable, and an identity among
-- them is pinned as one.
pub selected_identity :
    (m m' : MemoryObject) (mode : Option String) (axes : Option (List String)) (budget : Option ℕ)
    → make_memory_object m ≡ ok m'
    → (explain_memory_selection m' mode axes budget).selected ≡ true
    → (injectable m' ≡ true)
      × (is_identity m'.object_type ≡ true
          → (explain_memory_selection m' mode axes budget).priority_class ≡ pinned_identity)
unfolding injectable
selected_identity m m' mode axes budget e h =
    let eligible = explain-IsEligible m' mode axes budget h in
    let approved_test : (m'.status == approved) ≡ true = rw eligible.is_approved refl in
    let open_test : (m'.status == quarantined) ≡ false = rw eligible.is_approved refl in
    let (never_test, _) = not_refused m'.injection_policy eligible.injected in
    (
      rw (approved_test, never_test),
      λ i.
          explain-priority m' mode axes budget h
          ∙ priority_of-identity m' i (made_identity m m' e i open_test),
    )
