-- ===== src/Persona/Transition.antt =====
-- transition_manager.py of packages/persona_engine/persona_orchestrator: the legacy manager. Each
-- run of early returns of `transition` is a function; `none` says that none of its tests passed.
mod Tests
pub mod Flags
pub mod Gate
pub mod Holds
use soul_llink.Base.{
  ℕ, Bool, true, false, not, ◌&&◌, ◌||◌, List, [], ◌∷◌, String, Option, none, some, ◌==◌, string_eq,
  ltb, leb, if◌then◌else◌, any, contains, is_empty, ◌++◌, is_some,
}
use soul_llink.Base.Text.{Text, occurs_in}
use soul_llink.Persona.Types.{
  Mode, daily, work, sex, mode_text, mode_eq, is_canonical, ModeDecision, TransitionDecision,
}
use Prim.Native.String.{◌++◌ as concat}

-- The class attributes and the term groups, which are read from config/routing_rules.yaml.
pub record RoutingConfig : Type 0 where
  pub anti_flap_confidence : ℕ
  pub work_override_confidence : ℕ
  pub work_exit_confidence : ℕ
  pub short_message_max_chars : ℕ
  pub machine_status_terms : List Text
  pub work_continuation_exit_terms : List Text
  pub context_continuation_terms : List Text
  pub context_question_terms : List Text
  pub context_action_terms : List Text

-- `for flag in flags: if flag not in merged: merged.append(flag)`
unfoldable pub append_new : List String → List String → List String
append_new merged [] = merged
append_new merged (flag ∷ flags) =
    append_new (if contains merged flag then merged else merged ++ flag ∷ []) flags

-- `_merge_flags` on two lists
unfoldable pub merge_flags : List String → List String → List String
unfolding append_new
merge_flags first second = append_new (append_new [] first) second

-- `_transition_label`
unfoldable pub transition_label : Option Mode → Mode → String
transition_label none active = concat "start:" (mode_text active)
transition_label (some previous) active =
    if previous == active
    then concat "stay:" (mode_text active)
    else concat (mode_text previous) (concat "->" (mode_text active))

abbrev pub mentions : List Text → Text → Bool
mentions terms text = any (λ term. occurs_in term text) terms

module _ (cfg : RoutingConfig) where
  unfoldable pub is_short_hold_message : ModeDecision → Bool
  is_short_hold_message d = elim d.signals.message_length [
    | none ↦ false
    | some n ↦ leb n cfg.short_message_max_chars
  ]

  unfoldable pub is_context_action_message : ModeDecision → Bool
  is_context_action_message d = mentions cfg.context_action_terms d.signals.normalized_text

  unfoldable pub is_context_question_message : ModeDecision → Bool
  is_context_question_message d = mentions cfg.context_question_terms d.signals.normalized_text

  -- `combined` drops repeated terms, which `any` does not notice
  unfoldable pub is_context_continuation_message : ModeDecision → Bool
  is_context_continuation_message d =
      let text = d.signals.normalized_text in
      not (is_empty text)
      && (mentions cfg.context_continuation_terms text
          || (mentions cfg.context_question_terms text || mentions cfg.context_action_terms text))

  unfoldable pub is_work_continuation_exit_message : ModeDecision → Bool
  is_work_continuation_exit_message d =
      let text = d.signals.normalized_text in
      not (is_empty text)
      && (mentions cfg.context_question_terms text
          || mentions cfg.work_continuation_exit_terms text)

  unfoldable pub is_machine_status_output : ModeDecision → Bool
  is_machine_status_output d =
      let text = d.signals.normalized_text in
      not (is_empty text) && mentions cfg.machine_status_terms text

abbrev pub has_explicit_request : ModeDecision → Bool
has_explicit_request d = d.signals.explicit_task_request || d.signals.explicit_system_request

-- the signals that release work at once, and those that release it at a high confidence
abbrev pub has_boundary_signal : ModeDecision → Bool
has_boundary_signal d =
    d.signals.sex_scene_close || d.signals.safety_stop || d.signals.aftercare_request

abbrev pub has_release_signal : ModeDecision → Bool
has_release_signal d =
    d.signals.aftercare_request
    || d.signals.sex_scene_close
    || d.signals.safety_stop
    || d.submode == "relationship_closeness"
    || d.submode == "relationship_rupture"
    || d.submode == "crisis"

-- `desire_tier in {"ambivalent", "uninhibited"}`
abbrev pub is_open_tier : Option String → Bool
is_open_tier none = false
is_open_tier (some tier) = tier == "ambivalent" || tier == "uninhibited"

abbrev pub is_restrained_tier : Option String → Bool
is_restrained_tier none = false
is_restrained_tier (some tier) = tier == "restrained"

abbrev pub is_mode : Option Mode → Mode → Bool
is_mode none m = false
is_mode (some p) m = p == m

-- `previous_mode if previous_mode in {...} else None`
abbrev pub canonical_previous : Option Mode → Option Mode
canonical_previous none = none
canonical_previous (some p) = if is_canonical p then some p else none

-- `decision.mode if decision.mode in {...} else MODE_DAILY`
abbrev pub canonical_request : Mode → Mode
canonical_request m = if is_canonical m then m else daily

abbrev pub or_daily : Option Mode → Mode
or_daily none = daily
or_daily (some p) = p

abbrev pub or_else {ℓ} : {A : Type ℓ} → Option A → A → A
or_else none a = a
or_else (some a) _ = a

-- What one call of `transition` has at hand after its first three lines.
pub record Turn : Type 0 where
  pub previous_mode : Option Mode
  pub previous : Option Mode
  pub requested : Mode
  pub flags : List String
  pub decision : ModeDecision
  pub desire_tier : Option String
  pub enable_active_sex : Bool

-- the first three lines of `transition`
abbrev pub turn_of : Option Mode → ModeDecision → List String → Option String → Bool → Turn
turn_of previous_mode d flags tier enabled = record {
  previous_mode = previous_mode;
  previous = canonical_previous previous_mode;
  requested = canonical_request d.mode;
  flags = merge_flags d.safety_flags flags;
  decision = d;
  desire_tier = tier;
  enable_active_sex = enabled;
}

abbrev pub outcome : Turn → Mode → String → String → List String → TransitionDecision
outcome t active label reason flags = record {
  previous_mode = t.previous_mode;
  requested_mode = t.requested;
  active_mode = active;
  transition = label;
  confidence = t.decision.confidence;
  reason = reason;
  safety_flags = flags;
}

-- the crisis guard, unless an explicit work request overrides it
unfoldable pub is_crisis : Turn → Bool
is_crisis t =
    contains t.flags "crisis_guard"
    && not (t.decision.mode == work && has_explicit_request t.decision)

pub crisis_outcome : Turn → TransitionDecision
crisis_outcome t =
    outcome t daily (transition_label t.previous daily)
      "crisis_guard keeps relationship response in daily mode" t.flags

module _ (cfg : RoutingConfig) where
  -- `if requested == MODE_SEX`
  unfoldable pub on_sex_request : Turn → TransitionDecision
  on_sex_request t =
      let is_hint = t.decision.submode == "hint_progression" in
      let continues = t.decision.signals.sex_scene_continue in
      let gate_flag =
        if is_restrained_tier t.desire_tier
        then "sex_desire_gate_restrained"
        else "sex_shadow_only" in
      if not (is_mode t.previous sex) && is_hint && not continues
      then outcome t (or_daily t.previous) "hold_sex_candidate"
          "sex hint requires explicit progression evidence before mode entry"
          (merge_flags t.flags ("sex_transition_confirmation_pending" ∷ []))
      else if is_mode t.previous work && is_hint && is_open_tier t.desire_tier
      then outcome t work "hold_context_action"
          "ambiguous sex hint cannot override an active work context without explicit progression"
          (merge_flags t.flags ("ambiguous_hint_held_by_work_context" ∷ []))
      else if is_mode t.previous sex
          && (continues || is_context_continuation_message cfg t.decision)
      then outcome t sex "hold_sex_continue" "sex_scene_continue signal holds existing sex mode"
          t.flags
      else if t.enable_active_sex && is_open_tier t.desire_tier
      then outcome t sex (transition_label t.previous sex) "sex mode accepted after desire gate"
          t.flags
      else outcome t daily (concat "blocked:" gate_flag)
          (concat "blocked:" (concat gate_flag "; sex request remains daily"))
          (merge_flags t.flags (gate_flag ∷ []))

  -- `_is_explicit_task_request`
  pub is_explicit_task_request : Turn → Bool
  is_explicit_task_request t =
      t.requested == work
      && (has_explicit_request t.decision || leb cfg.work_override_confidence t.decision.confidence)

  -- `if previous == MODE_SEX`
  pub leave_sex : Turn → Option TransitionDecision
  leave_sex t =
      let s = t.decision.signals in
      if not (is_mode t.previous sex)
      then none
      else if is_explicit_task_request t
      then some (
          outcome t work (transition_label t.previous work) "explicit work request exits sex mode"
            t.flags)
      else if t.requested == daily
          && not s.sex_scene_continue
          && is_work_continuation_exit_message cfg t.decision
      then some (
          outcome t work "sex->work_context_continuation"
            "work-context continuation exits sex mode after task handoff" t.flags)
      else if s.sex_scene_close && (s.aftercare_request || not s.sex_scene_continue)
      then some (
          outcome t daily (transition_label t.previous daily)
            "sex_scene_close signal exits sex mode" t.flags)
      else if t.requested == daily
      then some (
          outcome t sex "hold_sex_continuation"
            "sex mode held until explicit work request, work-context continuation, or close signal"
            t.flags)
      else none

  abbrev pub is_unsure : Turn → Bool
  is_unsure t = ltb t.decision.confidence cfg.anti_flap_confidence

  -- the short-message hold
  pub hold_short_message : Mode → Turn → Option TransitionDecision
  hold_short_message previous t =
      if t.requested == daily
        && is_unsure t
        && not (previous == sex)
        && is_short_hold_message cfg t.decision
        && not (previous == work && is_context_continuation_message cfg t.decision)
      then some (
          outcome t previous "hold_short_message"
            "short neutral continuation inherits previous mode" t.flags)
      else none

  -- the contextual continuation of work
  pub hold_work_continuation : Mode → Turn → Option TransitionDecision
  hold_work_continuation previous t =
      let label =
        if is_context_action_message cfg t.decision
        then "hold_context_action"
        else if is_context_question_message cfg t.decision
        then "hold_context_question"
        else "hold_short_message" in
      if t.requested == daily
        && previous == work
        && is_unsure t
        && is_context_continuation_message cfg t.decision
      then some (outcome t work label "contextual continuation inherits previous work mode" t.flags)
      else none

  -- `if requested == MODE_WORK and (...)`
  pub enter_work : Turn → Option TransitionDecision
  enter_work t =
      if t.requested == work
        && (has_explicit_request t.decision
            || leb cfg.work_override_confidence t.decision.confidence)
      then some (
          outcome t work (transition_label t.previous work)
            "high-confidence work mode overrides previous mode" t.flags)
      else none

  -- `if previous == MODE_WORK and requested == MODE_DAILY`, which always returns
  pub leave_work : Turn → TransitionDecision
  leave_work t =
      let d = t.decision in
      let release =
        λ (reason : String). outcome t daily (transition_label t.previous daily) reason t.flags in
      if d.signals.semantic_explicit_daily_intent
      then release "high-confidence semantic daily intent releases work context"
      else if d.signals.context_continuation_exhausted
      then release "bounded ambiguous work continuation expired"
      else if has_boundary_signal d
      then release "explicit boundary or aftercare signal exits work context immediately"
      else if is_machine_status_output cfg d
      then outcome t work "hold_low_confidence" "machine/status output inherits previous work mode"
          t.flags
      else if ltb d.confidence cfg.work_exit_confidence || not (has_release_signal d)
      then outcome t work "hold_work_context"
          "daily candidate below configured work-exit confidence; work context held" t.flags
      else release "work mode does not hold over relationship/daily mode"

  -- the low-confidence hold, and the accepted nomination
  pub hold_or_accept : Mode → Turn → TransitionDecision
  hold_or_accept previous t =
      if is_unsure t && not (previous == sex)
      then outcome t previous "hold_low_confidence"
          "confidence below 0.65; previous mode held to avoid flapping" t.flags
      else outcome t t.requested (transition_label t.previous t.requested) t.decision.reason t.flags

  -- the rest of `transition`, from a known previous mode
  pub from_previous : Mode → Turn → TransitionDecision
  from_previous previous t = or_else (leave_sex t) (
      or_else (hold_short_message previous t) (
        or_else (hold_work_continuation previous t) (
          or_else (enter_work t) (
            if previous == work && t.requested == daily
            then leave_work t
            else hold_or_accept previous t))))

  unfoldable pub decide_turn : Turn → TransitionDecision
  decide_turn t =
      if is_crisis t
      then crisis_outcome t
      else if t.requested == sex
      then on_sex_request t
      else elim t.previous [
        | none ↦
            outcome t t.requested (concat "start:" (mode_text t.requested)) t.decision.reason
              t.flags
        | some previous ↦ from_previous previous t
      ]

  unfoldable pub transition :
      Option Mode → ModeDecision → List String → Option String → Bool → TransitionDecision
  transition previous_mode decision safety_flags desire_tier enable_active_sex =
      decide_turn (turn_of previous_mode decision safety_flags desire_tier enable_active_sex)
