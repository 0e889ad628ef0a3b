-- ===== src/Persona/Manager.antt =====
-- transition_manager_v2.py of packages/persona_engine/persona_orchestrator: the manager that may
-- give low-risk pairs to the table and compares the two. Environment variables are arguments.
mod Tests
pub mod Authority
pub mod Recording
pub mod Session
use soul_llink.Base.{
  ℕ, Bool, true, false, not, ◌&&◌, ◌||◌, List, [], ◌∷◌, String, Option, none, some, ◌==◌, string_eq,
  leb, if◌then◌else◌, contains,
}
use soul_llink.Persona.Types.{
  Mode, daily, work, sex, mode_eq, is_canonical, ModeDecision, TransitionDecision,
}
use soul_llink.Persona.Transition.{
  RoutingConfig, transition, append_new, has_explicit_request, is_open_tier, is_mode,
  is_work_continuation_exit_message, is_context_continuation_message, is_context_action_message,
  is_context_question_message, is_machine_status_output,
}
use soul_llink.Persona.Table.{
  ForceEvent, no_event, crisis, explicit_task, explicit_progression, scene_close,
  ContinuationTarget, no_target, work_target, scene_target, ambiguous, GateResult, pass, fail,
  not_applicable, TableInput, TransitionRule, MessageFacts, decide, apply_legacy_conditions,
}
use soul_llink.Persona.Table.Rules.{build_legacy_transition_table}
use soul_llink.Persona.Shadow.{
  Comparator, NewRule, Summary, TransitionComparison, new_comparator, compare_decisions,
  get_summary, get_disagreements, reset,
}

pub data AuthoritySource : Type 0 where
  legacy new_table : AuthoritySource

pub record Manager : Type 0 where
  pub enable_shadow : Bool
  pub enable_bounded_activation : Bool
  pub shadow_comparator : Comparator

abbrev pub or_default : Option Bool → Bool → Bool
or_default none fallback = fallback
or_default (some b) _ = b

-- `__init__`: the two overrides, and the two environment variables as Booleans. The table and the
-- comparator exist exactly when `enable_shadow` holds in the end.
unfoldable pub new_manager : Option Bool → Option Bool → Bool → Bool → Manager
new_manager shadow bounded env_shadow env_bounded =
    let enable_bounded = or_default bounded env_bounded in
    let enable_shadow = or_default shadow env_shadow in
    record {
      enable_shadow = enable_shadow || enable_bounded;
      enable_bounded_activation = enable_bounded;
      shadow_comparator = new_comparator;
    }

-- `_should_use_new_table`
unfoldable pub should_use_new_table : Option Mode → Mode → List String → Bool
should_use_new_table previous nominated flags =
    if nominated == sex || is_mode previous sex
    then false
    else if contains flags "crisis_guard"
    then false
    else if is_mode previous nominated
    then false
    else elim previous [
      | none ↦ nominated == daily || nominated == work
      | some p ↦
          p == daily && nominated == work
          || p == work && nominated == daily
          || p == daily && nominated == daily
          || p == work && nominated == work
    ]

-- `_map_force_event`
unfoldable pub map_force_event : ModeDecision → List String → ForceEvent
map_force_event d flags =
    if contains flags "crisis_guard"
    then crisis
    else if has_explicit_request d
    then explicit_task
    else if d.submode == "explicit_progression"
    then explicit_progression
    else if d.signals.sex_scene_close
    then scene_close
    else no_event

-- `_map_gate_result`
unfoldable pub map_gate_result : ModeDecision → Option String → Bool → GateResult
map_gate_result d tier enabled =
    if not (d.mode == sex)
    then not_applicable
    else if enabled && is_open_tier tier
    then pass
    else fail

-- `_is_short_message`
unfoldable pub is_short_message : ModeDecision → Bool
is_short_message d = elim d.signals.message_length [ none ↦ false | some n ↦ leb n 4 ]

-- `_is_valid_result`, on a result that is there
abbrev pub is_valid_result : TransitionDecision → Bool
is_valid_result r = is_canonical r.active_mode

-- `get_shadow_summary`, `get_shadow_disagreements` and `reset_shadow_stats`
unfoldable pub get_shadow_summary : Manager → Option Summary
get_shadow_summary m = if m.enable_shadow then some (get_summary m.shadow_comparator) else none

unfoldable pub get_shadow_disagreements : Manager → List TransitionComparison
get_shadow_disagreements m = if m.enable_shadow then get_disagreements m.shadow_comparator else []

unfoldable pub reset_shadow_stats : Manager → Manager
reset_shadow_stats m = record m {
  shadow_comparator = if m.enable_shadow then reset m.shadow_comparator else m.shadow_comparator;
}

module _ (cfg : RoutingConfig) where
  -- `_map_continuation_target`
  unfoldable pub map_continuation_target : ModeDecision → ContinuationTarget
  map_continuation_target d =
      if d.signals.sex_scene_continue
      then scene_target
      else if is_work_continuation_exit_message cfg d
      then work_target
      else if is_context_continuation_message cfg d
      then (if is_context_action_message cfg d
          then work_target
          else if is_context_question_message cfg d
          then work_target
          else ambiguous)
      else no_target

  pub table_input : Option Mode → ModeDecision → List String → Option String → Bool → TableInput
  table_input previous d flags tier enabled = record {
    previous = previous;
    nominated = d.mode;
    force = map_force_event d flags;
    continuation = map_continuation_target d;
    gate = map_gate_result d tier enabled;
    submode = d.submode;
  }

  pub message_facts : ModeDecision → MessageFacts
  message_facts d = record {
    confidence = d.confidence;
    is_short_message = is_short_message d;
    is_machine_status = is_machine_status_output cfg d;
    is_context_continuation = is_context_continuation_message cfg d;
  }

  -- the rule of the table, refined; `_execute_new_table` and `_shadow_compare` both compute it
  pub refined_rule :
      Option Mode → ModeDecision → List String → Option String → Bool → Option TransitionRule
  refined_rule previous d flags tier enabled =
      elim (decide build_legacy_transition_table (table_input previous d flags tier enabled)) [
        | none ↦ none
        | some rule ↦ apply_legacy_conditions rule previous d.mode (message_facts d)
      ]

  -- `_execute_new_table`
  pub execute_new_table :
      Option Mode → ModeDecision → List String → Option String → Bool → Option TransitionDecision
  execute_new_table previous d flags tier enabled =
      elim (refined_rule previous d flags tier enabled) [
        | none ↦ none
        | some rule ↦ some (record {
          previous_mode = previous;
          requested_mode = d.mode;
          active_mode = rule.active_mode;
          transition = rule.transition_label;
          confidence = d.confidence;
          reason = rule.reason;
          safety_flags = flags;
        })
      ]

  abbrev pub as_new_rule : TransitionRule → NewRule
  as_new_rule r = record {
    active_mode = r.active_mode;
    transition_label = r.transition_label;
    reason = r.reason;
    rule_id = r.rule_id;
  }

  abbrev pub option_map {ℓ κ} : {A : Type ℓ} {B : Type κ} → (A → B) → Option A → Option B
  option_map f none = none
  option_map f (some a) = some (f a)

  -- `_record_comparison_from_results`
  pub record_comparison_from_results :
      Option Mode → ModeDecision → TransitionDecision → TransitionDecision → Manager → Manager
  record_comparison_from_results previous d legacy_result new_result m = record m {
    shadow_comparator =
        compare_decisions previous d.mode d.confidence legacy_result
          (some (record {
            active_mode = new_result.active_mode;
            transition_label = new_result.transition;
            reason = new_result.reason;
            rule_id = "bounded_runtime_result";
          }))
          m.shadow_comparator;
  }

  -- `_shadow_compare`
  pub shadow_compare :
      Option Mode
      → ModeDecision
      → TransitionDecision
      → List String
      → Option String
      → Bool
      → Manager
      → Manager
  shadow_compare previous d legacy_result flags tier enabled m = record m {
    shadow_comparator =
        compare_decisions previous d.mode d.confidence legacy_result
          (option_map as_new_rule (refined_rule previous d flags tier enabled)) m.shadow_comparator;
  }

  -- the flags of the caller, then those of the decision that are new
  abbrev pub effective_flags : ModeDecision → List String → List String
  effective_flags d flags = append_new flags d.safety_flags

  -- the pair goes to the table: it is low-risk, no semantic release is at hand, and the table is on
  abbrev pub tries_new_table : Option Mode → ModeDecision → List String → Manager → Bool
  tries_new_table previous d effective m =
      let use_new_table =
        should_use_new_table previous d.mode effective
        && not d.signals.semantic_explicit_daily_intent in
      use_new_table && m.enable_bounded_activation

  -- the result of the table, if it is there and valid
  pub valid_new_result :
      Option Mode → ModeDecision → List String → Option String → Bool → Option TransitionDecision
  valid_new_result previous d flags tier enabled =
      elim (execute_new_table previous d flags tier enabled) [
        | none ↦ none
        | some r ↦ if is_valid_result r then some r else none
      ]

  -- the last lines of `transition`, and its lines for a valid result of the table
  abbrev pub return_legacy :
      TransitionDecision → Manager → TransitionDecision × AuthoritySource × Manager
  return_legacy r m = (r, legacy, m)

  unfoldable pub manage :
      Option Mode
      → ModeDecision
      → List String
      → Option String
      → Bool
      → Manager
      → TransitionDecision × AuthoritySource × Manager
  manage previous d flags tier enabled m =
      let effective = effective_flags d flags in
      let legacy_result = transition cfg previous d effective tier enabled in
      let compared =
        if m.enable_shadow
        then shadow_compare previous d legacy_result effective tier enabled m
        else m in
      if tries_new_table previous d effective m && m.enable_shadow
      then elim (valid_new_result previous d effective tier enabled) [
        | none ↦ return_legacy legacy_result m
        | some r ↦ (r, new_table, record_comparison_from_results previous d legacy_result r m)
      ]
      else return_legacy legacy_result
          (if tries_new_table previous d effective m then m else compared)
