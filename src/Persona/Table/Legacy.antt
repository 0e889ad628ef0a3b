-- ===== src/Persona/Table/Legacy.antt =====
-- What the legacy table decides: it always has a rule, never a unique one, and some of its rules
-- can never be picked.
use soul_llink.Base.{
  ◌≤◌, ◌≡◌, ◌≢◌, ◌⊎◌, refl, ap, true, false, some, none, Option, arith, length, Member, ℕ,
  get_elem?, Member-get_elem?, All, All-Member, length-filter_by-drop, Bool, if◌then◌else◌,
  string_eq,
}
use soul_llink.Persona.Types.{Mode, daily, work, sex, mode_eq}
use soul_llink.Persona.Table.{
  TransitionRule, TableInput, MessageFacts, matches, matching, decide, apply_legacy_conditions,
  refine_start, refine_short_hold, refine_context_action, refine_high_confidence, refine_closeness,
  refine_mid_confidence, refine_machine_status, refine_low_confidence, refine_default, previous_or,
}
use soul_llink.Persona.Table.Best.{decide_best, decide-none}
use soul_llink.Persona.Table.Rules.{
  legacy_rules, build_legacy_transition_table, antiflap_hold_low_confidence,
  default_accept_nomination, work_hold_machine_status, work_exit_to_daily,
  work_hold_without_release,
}

generic_matches : (i : TableInput) → matches antiflap_hold_low_confidence.condition i ≡ true
unfolding matches
generic_matches i = refl

-- the place of a rule in the source's list
rule_at : {r : TransitionRule} (n : ℕ) → get_elem? legacy_rules n ≡ some r → Member r legacy_rules
rule_at {r} n e = Member-get_elem? r legacy_rules n e

-- The legacy table has a rule for every input.
pub legacy_table_total : (i : TableInput) → decide build_legacy_transition_table i ≢ none
unfolding build_legacy_transition_table
legacy_table_total i e =
    let h =
      All-Member (λ q. matches q.condition i ≡ false) antiflap_hold_low_confidence legacy_rules
        (decide-none legacy_rules i e) (rule_at 20 refl) in
    cc (generic_matches i)

-- Nothing picks a rule that a matching one outranks.
outranked :
    (i : TableInput) (r q : TransitionRule)
    → decide build_legacy_transition_table i ≡ some r
    → Member q legacy_rules
    → matches q.condition i ≡ true
    → q.priority ≤ r.priority
unfolding build_legacy_transition_table
outranked i r q e m h =
    All-Member (λ p. matches p.condition i ≡ true → p.priority ≤ r.priority) q legacy_rules
      (decide_best legacy_rules i r e).2 m h

same_condition :
    (r : TransitionRule) (i : TableInput)
    → r ≡ work_hold_machine_status
    → matches r.condition i ≡ true
    → matches work_hold_without_release.condition i ≡ true
same_condition r i d h = rw d at h

same_condition' :
    (r : TransitionRule) (i : TableInput)
    → r ≡ work_exit_to_daily
    → matches r.condition i ≡ true
    → matches work_hold_without_release.condition i ≡ true
same_condition' r i d h = rw d at h

-- Three rules of the legacy table are never picked: the accepted nomination, behind the
-- low-confidence hold, which matches every input, and the two work rules behind the rule that
-- holds work without a release.
pub legacy_dead_rules :
    (i : TableInput) (r : TransitionRule)
    → decide build_legacy_transition_table i ≡ some r
    → (r ≢ default_accept_nomination) × (r ≢ work_hold_machine_status) × (r ≢ work_exit_to_daily)
unfolding build_legacy_transition_table
legacy_dead_rules i r e =
    let fits = (decide_best legacy_rules i r e).1 in
    let hold = outranked i r work_hold_without_release e (rule_at 14 refl) in
    (
      λ d. omega (
        arith,
        ap (λ q. q.priority) d,
        outranked i r antiflap_hold_low_confidence e (rule_at 20 refl) (generic_matches i),
      ),
      λ d. omega (arith, ap (λ q. q.priority) d, hold (same_condition r i d fits)),
      λ d. omega (arith, ap (λ q. q.priority) d, hold (same_condition' r i d fits)),
    )

-- At least two rules match every input, so no input has a unique rule.
pub legacy_never_unique : (i : TableInput) → 2 ≤ length (matching i legacy_rules)
unfolding matches
legacy_never_unique i =
    omega (arith, length-filter_by-drop (λ r. matches r.condition i) 20 legacy_rules)

-- a rule that activates sex only matches where sex is the previous or the nominated mode
abbrev GuardsSex : TableInput → TransitionRule → Type 0
GuardsSex i q =
    matches q.condition i ≡ true
    → q.active_mode ≡ sex
    → (i.previous ≡ some sex) ⊎ (i.nominated ≡ sex)

legacy_rules-GuardsSex : (i : TableInput) → All (GuardsSex i) legacy_rules
unfolding matches
legacy_rules-GuardsSex i = ground arith

-- The rule that the legacy table picks activates sex only where sex is the previous mode or the
-- nominated one.
pub legacy_table-sex :
    (i : TableInput) (r : TransitionRule)
    → decide build_legacy_transition_table i ≡ some r
    → r.active_mode ≡ sex
    → (i.previous ≡ some sex) ⊎ (i.nominated ≡ sex)
unfolding build_legacy_transition_table
legacy_table-sex i r e a =
    let (there, fits, best) = decide_best legacy_rules i r e in
    All-Member (GuardsSex i) r legacy_rules (legacy_rules-GuardsSex i) there fits a

-- the active mode of a rule that is there
abbrev active_of : Option TransitionRule → Option Mode
active_of none = none
active_of (some r) = some r.active_mode

-- Where the active mode of a refined rule comes from.
abbrev pub ActiveFrom : TransitionRule → Option Mode → Mode → Mode → Type 0
ActiveFrom r previous nominated m =
    (m ≡ r.active_mode) ⊎ (m ≡ nominated) ⊎ (m ≡ previous_or previous daily) ⊎ (m ≡ work)

module _ (r : TransitionRule) (previous : Option Mode) (nominated : Mode) (f : MessageFacts)
    (m : Mode) where
  From : Option TransitionRule → Type 0
  From o = active_of o ≡ some m → ActiveFrom r previous nominated m

  -- one branch at a time
  refine_start_active : From (refine_start r previous nominated f)
  unfolding refine_start From
  refine_start_active e = ground arith

  refine_short_hold_active : From (refine_short_hold r previous nominated f)
  unfolding refine_short_hold From
  refine_short_hold_active e = ground arith

  refine_context_action_active : From (refine_context_action r previous nominated f)
  unfolding refine_context_action From
  refine_context_action_active e = ground arith

  refine_high_confidence_active : From (refine_high_confidence r previous nominated f)
  unfolding refine_high_confidence From
  refine_high_confidence_active e = ground arith

  refine_closeness_active : From (refine_closeness r previous nominated f)
  unfolding refine_closeness From
  refine_closeness_active e = ground arith

  refine_mid_confidence_active : From (refine_mid_confidence r previous nominated f)
  unfolding refine_mid_confidence From
  refine_mid_confidence_active e = ground arith

  refine_machine_status_active : From (refine_machine_status r previous nominated f)
  unfolding refine_machine_status From
  refine_machine_status_active e = ground arith

  refine_low_confidence_active : From (refine_low_confidence r previous nominated f)
  unfolding refine_low_confidence From
  refine_low_confidence_active e = ground arith

  refine_default_active : From (refine_default r previous nominated f)
  unfolding refine_default From
  refine_default_active e = ground arith

  either : (b : Bool) (x y : Option TransitionRule) → From x → From y → From (if b then x else y)
  either true x y p q = p
  either false x y p q = q

  kept : From (some r)
  unfolding From
  kept e = ground arith

  apply_active : From (apply_legacy_conditions r previous nominated f)
  unfolding apply_legacy_conditions
  apply_active = either _ _ _ refine_start_active (
      either _ _ _ refine_short_hold_active (
        either _ _ _ refine_context_action_active (
          either _ _ _ refine_high_confidence_active (
            either _ _ _ refine_closeness_active (
              either _ _ _ refine_mid_confidence_active (
                either _ _ _ refine_machine_status_active (
                  either _ _ _ refine_low_confidence_active
                    (either _ _ _ refine_default_active kept))))))))

-- A refined rule has the active mode of its rule, the nominated mode, the previous mode or work.
pub apply_legacy_conditions_active :
    (r r' : TransitionRule) (previous : Option Mode) (nominated : Mode) (f : MessageFacts)
    → apply_legacy_conditions r previous nominated f ≡ some r'
    → ActiveFrom r previous nominated r'.active_mode
unfolding From
apply_legacy_conditions_active r r' previous nominated f e =
    apply_active r previous nominated f r'.active_mode (ap active_of e)
