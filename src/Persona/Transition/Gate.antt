-- ===== src/Persona/Transition/Gate.antt =====
-- The protected mode: who may enter it, and what the crisis guard does.
use soul_llink.Base.{
  ◌≡◌, ◌≢◌, refl, Bool, true, false, ◌||◌, ◌&&◌, List, String, Option, none, some, arith, ◌==◌, ◌⊎◌,
  string_eq, contains, inl, inr, ==→≡, ==-ne, Bool-cases, Option-cases, if◌then◌else◌,
}
use soul_llink.Persona.Transition.Flags.{contains-merge_flags}
use soul_llink.Persona.Types.{Mode, daily, work, sex, is_canonical, mode_eq, ModeDecision}
use soul_llink.Persona.Transition.{
  RoutingConfig, Turn, turn_of, decide_turn, transition, is_crisis, crisis_outcome, on_sex_request,
  leave_sex, hold_short_message, hold_work_continuation, enter_work, leave_work, hold_or_accept,
  from_previous, canonical_previous, canonical_request, has_explicit_request, is_open_tier,
  is_explicit_task_request,
}

-- no previous mode, or a public one
abbrev PreviousCanonical : Option Mode → Type 0
PreviousCanonical o = (o ≡ none) ⊎ ((p : Mode) × (o ≡ some p) × (is_canonical p ≡ true))

canonical_previous_cases : (o : Option Mode) → PreviousCanonical (canonical_previous o)
canonical_previous_cases none = inl refl
canonical_previous_cases (some p) = elim (Bool-cases (is_canonical p)) [
  | inl c ↦ inr (p, rw c, c)
  | inr c ↦ inl (rw c)
]

canonical_request_canonical : (m : Mode) → is_canonical (canonical_request m) ≡ true
canonical_request_canonical m = ground arith

-- No crisis flag, and either sex mode already or a nomination that passes the gate.
abbrev pub EnteredByGate : Option Mode → ModeDecision → List String → Option String → Bool → Type 0
EnteredByGate previous_mode d flags tier enabled =
    (contains d.safety_flags "crisis_guard" ≡ false)
    × (contains flags "crisis_guard" ≡ false)
    × ((previous_mode ≡ some sex)
        ⊎ ((d.mode ≡ sex) × (enabled ≡ true) × (is_open_tier tier ≡ true)))

module _ (cfg : RoutingConfig) where
  -- From a known mode other than sex no path but a sex request leads to sex.
  from_previous_canonical :
      (previous : Mode) (t : Turn)
      → t.previous ≡ some previous
      → is_canonical previous ≡ true
      → is_canonical t.requested ≡ true
      → is_canonical (from_previous cfg previous t).active_mode ≡ true
  unfolding from_previous leave_sex hold_short_message hold_work_continuation enter_work leave_work
      hold_or_accept
  from_previous_canonical previous t p c r = ground arith

  from_previous-ne-sex :
      (previous : Mode) (t : Turn)
      → t.previous ≡ some previous
      → previous ≢ sex
      → t.requested ≢ sex
      → (from_previous cfg previous t).active_mode ≢ sex
  unfolding from_previous leave_sex hold_short_message hold_work_continuation enter_work leave_work
      hold_or_accept
  from_previous-ne-sex previous t p c r e = ground arith

  on_sex_request_canonical :
      (t : Turn)
      → PreviousCanonical t.previous
      → is_canonical (on_sex_request cfg t).active_mode ≡ true
  unfolding on_sex_request
  on_sex_request_canonical t p = ground arith

  on_sex_request_gate :
      (t : Turn)
      → (on_sex_request cfg t).active_mode ≡ sex
      → (t.previous ≡ some sex)
        ⊎ ((t.enable_active_sex ≡ true) × (is_open_tier t.desire_tier ≡ true))
  unfolding on_sex_request
  on_sex_request_gate t e = ground arith

  -- The four ways through `transition`, for a property of the active mode.
  decide_turn_cases :
      (P : Mode → Type 0) (t : Turn)
      → (is_crisis t ≡ true → P daily)
      → (is_crisis t ≡ false → t.requested ≡ sex → P (on_sex_request cfg t).active_mode)
      → (is_crisis t ≡ false → t.requested ≢ sex → t.previous ≡ none → P t.requested)
      → ((p : Mode)
          → is_crisis t ≡ false
          → t.requested ≢ sex
          → t.previous ≡ some p
          → P (from_previous cfg p t).active_mode)
      → P (decide_turn cfg t).active_mode
  unfolding decide_turn crisis_outcome
  decide_turn_cases P t crisis asks start later = elim (Bool-cases (is_crisis t)) [
    | inl c ↦ rw c (crisis c)
    | inr calm ↦ elim (Bool-cases (t.requested == sex)) [
      | inl q ↦ rw (calm, q) (asks calm (==→≡ t.requested sex q))
      | inr n ↦ elim (Option-cases t.previous) [
        | inl e ↦ rw (calm, n, e) (start calm (==-ne t.requested sex n) e)
        | inr (p, e) ↦ rw (calm, n, e) (later p calm (==-ne t.requested sex n) e)
      ]
    ]
  ]

  previous_canonical :
      (o : Option Mode) (p : Mode)
      → canonical_previous o ≡ some p
      → (is_canonical p ≡ true) × (o ≡ some p)
  previous_canonical none p e = cc
  previous_canonical (some q) p e = ground arith

  -- Whatever text the previous and the nominated mode are, the active mode is daily, work or sex.
  pub transition_canonical :
      (previous_mode : Option Mode) (d : ModeDecision) (flags : List String) (tier : Option String)
      (enabled : Bool)
      → is_canonical (transition cfg previous_mode d flags tier enabled).active_mode ≡ true
  unfolding transition
  transition_canonical previous_mode d flags tier enabled =
      let t = turn_of previous_mode d flags tier enabled in
      let requested = canonical_request_canonical d.mode in
      decide_turn_cases (λ m. is_canonical m ≡ true) t (λ c. refl)
        (λ c q. on_sex_request_canonical t (canonical_previous_cases previous_mode))
        (λ c q e. requested)
        (λ p c q e.
          from_previous_canonical p t e (previous_canonical previous_mode p e).0 requested)

  crisis-explicit :
      (t : Turn)
      → is_crisis t ≡ true
      → (t.decision.mode == work && has_explicit_request t.decision) ≡ false
  unfolding is_crisis
  crisis-explicit t c = ground arith

  calm-explicit :
      (t : Turn)
      → is_crisis t ≡ false
      → (contains t.flags "crisis_guard" ≡ false)
        ⊎ (t.decision.mode ≡ work) × (has_explicit_request t.decision ≡ true)
  unfolding is_crisis
  calm-explicit t c = ground arith

  request-sex : (m : Mode) → canonical_request m ≡ sex → m ≡ sex
  request-sex m e = ground arith

  previous-sex : (o : Option Mode) → canonical_previous o ≡ some sex → o ≡ some sex
  previous-sex o e = (previous_canonical o sex e).1

  from_previous-sex :
      (p : Mode) (t : Turn)
      → t.previous ≡ some p
      → t.requested ≢ sex
      → (from_previous cfg p t).active_mode ≡ sex
      → p ≡ sex
  from_previous-sex p t before q e = elim (Bool-cases (p == sex)) [
    | inl same ↦ ==→≡ p sex same
    | inr differs ↦ absurd (from_previous-ne-sex p t before (==-ne p sex differs) q e)
  ]

  -- an explicit work request enters work from every mode
  from_previous_explicit :
      (p : Mode) (t : Turn)
      → t.previous ≡ some p
      → t.requested ≡ work
      → has_explicit_request t.decision ≡ true
      → (from_previous cfg p t).active_mode ≡ work
  unfolding from_previous leave_sex hold_short_message hold_work_continuation enter_work leave_work
      hold_or_accept is_explicit_task_request
  from_previous_explicit p t before q e = ground arith

  -- Sex mode is active only without a crisis flag, and either it was the previous mode or the
  -- turn nominates it, it is enabled, and the desire tier is ambivalent or uninhibited.
  pub transition-sex :
      (previous_mode : Option Mode) (d : ModeDecision) (flags : List String) (tier : Option String)
      (enabled : Bool)
      → (transition cfg previous_mode d flags tier enabled).active_mode ≡ sex
      → EnteredByGate previous_mode d flags tier enabled
  unfolding transition
  transition-sex previous_mode d flags tier enabled =
      let t = turn_of previous_mode d flags tier enabled in
      let merged = contains-merge_flags d.safety_flags flags "crisis_guard" in
      decide_turn_cases (λ m. m ≡ sex → EnteredByGate previous_mode d flags tier enabled) t
        (λ c e. cc)
        (λ c q e. ground (
          arith,
          merged,
          calm-explicit t c,
          on_sex_request_gate t,
          request-sex d.mode,
          previous-sex previous_mode,
        ))
        (λ c q none_before e. absurd (q e))
        (λ p c q before e.
          let was_sex = from_previous-sex p t before q e in
          ground (
            arith,
            merged,
            from_previous_explicit p t,
            previous_canonical previous_mode p before,
            calm-explicit t c,
            was_sex,
          ))

  -- A crisis flag, of the decision or of the caller, makes the active mode daily, unless the
  -- decision nominates work with an explicit request: then it is work.
  pub transition_crisis :
      (previous_mode : Option Mode) (d : ModeDecision) (flags : List String) (tier : Option String)
      (enabled : Bool)
      → (contains d.safety_flags "crisis_guard" || contains flags "crisis_guard") ≡ true
      → (transition cfg previous_mode d flags tier enabled).active_mode
        ≡ (if d.mode == work && has_explicit_request d then work else daily)
  unfolding transition
  transition_crisis previous_mode d flags tier enabled h =
      let t = turn_of previous_mode d flags tier enabled in
      let merged = contains-merge_flags d.safety_flags flags "crisis_guard" in
      decide_turn_cases
        (λ m. m ≡ (if d.mode == work && has_explicit_request d then work else daily)) t
        (λ c. ground (arith, merged, crisis-explicit t c))
        (λ c q. ground (arith, merged, calm-explicit t c, request-sex d.mode))
        (λ c q e. ground (arith, merged, calm-explicit t c))
        (λ p c q e. ground (arith, merged, calm-explicit t c, from_previous_explicit p t))
