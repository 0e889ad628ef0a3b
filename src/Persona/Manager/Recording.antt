-- ===== src/Persona/Manager/Recording.antt =====
-- What the manager records of a turn.
use soul_llink.Base.{
  ◌+◌, ◌≡◌, refl, Bool, true, false, ◌&&◌, List, String, Option, arith, is_some, inl, inr,
  Bool-cases, Option-cases, if◌then◌else◌, not,
}
use soul_llink.Persona.Types.{Mode, ModeDecision, TransitionDecision}
use soul_llink.Persona.Transition.{RoutingConfig, transition}
use soul_llink.Persona.Shadow.{compare_decisions, new_comparator}
use soul_llink.Persona.Shadow.Counts.{IsConsistent, compare-IsConsistent}
use soul_llink.Persona.Manager.{
  Manager, new_manager, effective_flags, tries_new_table, valid_new_result, manage, shadow_compare,
  record_comparison_from_results,
}

-- Bounded activation comes with the shadow table.
pub record IsReady (m : Manager) : Type 0 where
  pub shadowed : m.enable_bounded_activation ≡ true → m.enable_shadow ≡ true
  pub consistent : IsConsistent m.shadow_comparator

-- A new manager is ready, whatever the overrides and the environment say.
pub new_manager-IsReady :
    (shadow bounded : Option Bool) (env_shadow env_bounded : Bool)
    → IsReady (new_manager shadow bounded env_shadow env_bounded)
unfolding new_manager new_comparator
new_manager-IsReady shadow bounded env_shadow env_bounded = record {
  shadowed = ground arith;
  consistent = record { counted = refl; differing = refl };
}

-- ready, with the same switches
abbrev pub KeepsReady : Manager → Manager → Type 0
KeepsReady m after =
    IsReady after
    × (after.enable_shadow ≡ m.enable_shadow)
    × (after.enable_bounded_activation ≡ m.enable_bounded_activation)

if-KeepsReady :
    (m : Manager) (b : Bool) (x y : Manager)
    → KeepsReady m x
    → KeepsReady m y
    → KeepsReady m (if b then x else y)
if-KeepsReady m true x y p q = p
if-KeepsReady m false x y p q = q

module _ (cfg : RoutingConfig) where
  shadow_compare-KeepsReady :
      (previous : Option Mode) (d : ModeDecision) (r : TransitionDecision) (flags : List String)
      (tier : Option String) (enabled : Bool) (m : Manager)
      → IsReady m
      → KeepsReady m (shadow_compare cfg previous d r flags tier enabled m)
  unfolding shadow_compare
  shadow_compare-KeepsReady previous d r flags tier enabled m h = (
    record {
      shadowed = h.shadowed;
      consistent = compare-IsConsistent previous d.mode d.confidence r _ _ h.consistent;
    },
    refl,
    refl,
  )

  recorded-KeepsReady :
      (previous : Option Mode) (d : ModeDecision) (r r' : TransitionDecision) (m : Manager)
      → IsReady m
      → KeepsReady m (record_comparison_from_results cfg previous d r r' m)
  unfolding record_comparison_from_results
  recorded-KeepsReady previous d r r' m h = (
    record {
      shadowed = h.shadowed;
      consistent = compare-IsConsistent previous d.mode d.confidence r _ _ h.consistent;
    },
    refl,
    refl,
  )

  -- A turn keeps the manager ready and its switches as they were.
  pub manage-KeepsReady :
      (previous : Option Mode) (d : ModeDecision) (flags : List String) (tier : Option String)
      (enabled : Bool) (m : Manager)
      → IsReady m
      → KeepsReady m (manage cfg previous d flags tier enabled m).2
  unfolding manage
  manage-KeepsReady previous d flags tier enabled m h =
      let effective = effective_flags cfg d flags in
      let legacy_result = transition cfg previous d effective tier enabled in
      elim (Bool-cases (tries_new_table cfg previous d effective m && m.enable_shadow)) [
        | inl tried ↦ elim (Option-cases (valid_new_result cfg previous d effective tier enabled)) [
          | inl failed ↦ rw (tried, failed) (h, refl, refl)
          | inr (r, valid) ↦ rw (tried, valid) (recorded-KeepsReady previous d legacy_result r m h)
        ]
        | inr untried ↦ rw untried (
            if-KeepsReady m (tries_new_table cfg previous d effective m) m _ (h, refl, refl)
              (if-KeepsReady m m.enable_shadow _ m
                (shadow_compare-KeepsReady previous d legacy_result effective tier enabled m h)
                (h, refl, refl)))
      ]

  -- Of a ready manager a turn records one comparison when the shadow table is on, and none when it
  -- is off; but a turn that tries the table and gets no valid result records none either.
  pub manage_records :
      (previous : Option Mode) (d : ModeDecision) (flags : List String) (tier : Option String)
      (enabled : Bool) (m : Manager)
      → IsReady m
      → let effective = effective_flags cfg d flags in
        let failed =
          tries_new_table cfg previous d effective m
          && not (is_some (valid_new_result cfg previous d effective tier enabled)) in
        (manage cfg previous d flags tier enabled m).2.shadow_comparator.total_count
        ≡ m.shadow_comparator.total_count + (if m.enable_shadow && not failed then 1 else 0)
  unfolding manage shadow_compare record_comparison_from_results compare_decisions
  manage_records previous d flags tier enabled m h = ground (arith, h.shadowed)
