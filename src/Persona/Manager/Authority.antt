-- ===== src/Persona/Manager/Authority.antt =====
-- Which path decides, and that the table never reaches the protected mode.
use soul_llink.Base.{
  ◌≡◌, ◌≢◌, ◌⊎◌, refl, Bool, true, false, ◌||◌, List, String, Option, none, some, arith, contains,
  string_eq, inl, inr, Option-cases,
}
use soul_llink.Persona.Types.{Mode, daily, work, sex, mode_eq, ModeDecision, TransitionDecision}
use soul_llink.Persona.Transition.{RoutingConfig, transition}
use soul_llink.Persona.Transition.Flags.{contains-append_new}
use soul_llink.Persona.Transition.Gate.{EnteredByGate, transition-sex}
use soul_llink.Persona.Table.{TransitionRule, decide, apply_legacy_conditions}
use soul_llink.Persona.Table.Legacy.{legacy_table-sex, apply_legacy_conditions_active}
use soul_llink.Persona.Table.Rules.{build_legacy_transition_table}
use soul_llink.Persona.Manager.{
  legacy, new_table, Manager, should_use_new_table, table_input, message_facts, refined_rule,
  execute_new_table, valid_new_result, effective_flags, tries_new_table, manage,
}

module _ (cfg : RoutingConfig) where
  -- What the manager returns is the legacy decision, marked as such.
  pub IsLegacy : Option Mode → ModeDecision → List String → Option String → Bool → Manager → Type 0
  IsLegacy previous d flags tier enabled m =
      let (r, source, after) = manage cfg previous d flags tier enabled m in
      (r ≡ transition cfg previous d (effective_flags cfg d flags) tier enabled) × (source ≡ legacy)

  -- When the table is not tried the legacy decision is returned.
  not_tried-IsLegacy :
      (previous : Option Mode) (d : ModeDecision) (flags : List String) (tier : Option String)
      (enabled : Bool) (m : Manager)
      → tries_new_table cfg previous d (effective_flags cfg d flags) m ≡ false
      → IsLegacy previous d flags tier enabled m
  unfolding manage IsLegacy
  not_tried-IsLegacy previous d flags tier enabled m h = rw h (refl, refl)

  -- Without bounded activation the legacy decision is returned.
  pub manage_unbounded :
      (previous : Option Mode) (d : ModeDecision) (flags : List String) (tier : Option String)
      (enabled : Bool) (m : Manager)
      → m.enable_bounded_activation ≡ false
      → IsLegacy previous d flags tier enabled m
  manage_unbounded previous d flags tier enabled m h =
      not_tried-IsLegacy previous d flags tier enabled m (ground arith)

  -- Whatever is activated, the legacy decision is returned when sex mode is nominated or was the
  -- previous mode, when a crisis flag is raised by the decision or the caller, and when the
  -- previous mode is nominated again.
  pub manage_protected :
      (previous : Option Mode) (d : ModeDecision) (flags : List String) (tier : Option String)
      (enabled : Bool) (m : Manager)
      → (d.mode ≡ sex)
        ⊎ (previous ≡ some sex)
        ⊎ ((contains flags "crisis_guard" || contains d.safety_flags "crisis_guard") ≡ true)
        ⊎ (previous ≡ some d.mode)
      → IsLegacy previous d flags tier enabled m
  unfolding should_use_new_table
  manage_protected previous d flags tier enabled m h =
      not_tried-IsLegacy previous d flags tier enabled m (
        ground (
          arith,
          contains-append_new flags d.safety_flags "crisis_guard",
          mode_eq.beq_iff d.mode d.mode,
        ))

  -- the refined rule of a turn without sex mode does not activate it
  refined_rule-ne-sex :
      (previous : Option Mode) (d : ModeDecision) (flags : List String) (tier : Option String)
      (enabled : Bool) (r : TransitionRule)
      → previous ≢ some sex
      → d.mode ≢ sex
      → refined_rule cfg previous d flags tier enabled ≡ some r
      → r.active_mode ≢ sex
  unfolding refined_rule table_input
  refined_rule-ne-sex previous d flags tier enabled r p q e a =
      let i = table_input cfg previous d flags tier enabled in
      elim (Option-cases (decide build_legacy_transition_table i)) [
        | inl unmatched ↦ let bad : none ≡ some r = rw (unmatched, refined_rule) at e in cc
        | inr (rule, picked) ↦
            let refined : apply_legacy_conditions rule previous d.mode (message_facts cfg d)
                ≡ some r =
              rw (picked, refined_rule) at e in
            ground (
              arith,
              apply_legacy_conditions_active rule r previous d.mode (message_facts cfg d) refined,
              legacy_table-sex i rule picked,
            )
      ]

  valid_new_result-ne-sex :
      (previous : Option Mode) (d : ModeDecision) (flags : List String) (tier : Option String)
      (enabled : Bool) (r : TransitionDecision)
      → previous ≢ some sex
      → d.mode ≢ sex
      → valid_new_result cfg previous d flags tier enabled ≡ some r
      → (r.active_mode ≡ daily) ⊎ (r.active_mode ≡ work)
  unfolding valid_new_result execute_new_table
  valid_new_result-ne-sex previous d flags tier enabled r p q e =
      elim (Option-cases (refined_rule cfg previous d flags tier enabled)) [
        | inl unmatched ↦ ground arith
        | inr (rule, picked) ↦
            ground (arith, refined_rule-ne-sex previous d flags tier enabled rule p q picked)
      ]

  tried_unprotected :
      (previous : Option Mode) (d : ModeDecision) (flags : List String) (m : Manager)
      → tries_new_table cfg previous d flags m ≡ true
      → (previous ≢ some sex) × (d.mode ≢ sex)
  unfolding should_use_new_table
  tried_unprotected previous d flags m h = ground arith

  -- A decision of the table activates daily or work, never sex mode.
  pub manage-new_table :
      (previous : Option Mode) (d : ModeDecision) (flags : List String) (tier : Option String)
      (enabled : Bool) (m : Manager)
      → let (r, source, after) = manage cfg previous d flags tier enabled m in
        source ≡ new_table → (r.active_mode ≡ daily) ⊎ (r.active_mode ≡ work)
  unfolding manage
  manage-new_table previous d flags tier enabled m h =
      let effective = effective_flags cfg d flags in
      let tried = tried_unprotected previous d effective m in
      elim (Option-cases (valid_new_result cfg previous d effective tier enabled)) [
        | inl failed ↦ ground arith
        | inr (r, valid) ↦ ground (
          arith,
          tried,
          λ (p : previous ≢ some sex) (q : d.mode ≢ sex).
              valid_new_result-ne-sex previous d effective tier enabled r p q valid,
        )
      ]

  -- Of the whole manager: sex mode is active only without a crisis flag, and either it was the
  -- previous mode or the turn nominates it, it is enabled, and the desire tier is open.
  pub manage-sex :
      (previous : Option Mode) (d : ModeDecision) (flags : List String) (tier : Option String)
      (enabled : Bool) (m : Manager)
      → (manage cfg previous d flags tier enabled m).0.active_mode ≡ sex
      → EnteredByGate previous d flags tier enabled
  unfolding manage
  manage-sex previous d flags tier enabled m h =
      let effective = effective_flags cfg d flags in
      let gate = transition-sex cfg previous d effective tier enabled in
      let tried = tried_unprotected previous d effective m in
      let merged = contains-append_new flags d.safety_flags "crisis_guard" in
      elim (Option-cases (valid_new_result cfg previous d effective tier enabled)) [
        | inl failed ↦ ground (arith, gate, merged)
        | inr (r, valid) ↦ ground (
          arith,
          gate,
          merged,
          tried,
          λ (p : previous ≢ some sex) (q : d.mode ≢ sex).
              valid_new_result-ne-sex previous d effective tier enabled r p q valid,
        )
      ]
