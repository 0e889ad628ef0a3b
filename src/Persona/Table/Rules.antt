-- ===== src/Persona/Table/Rules.antt =====
-- `build_legacy_transition_table` of transition_policy.py: its rules, in the order of the source.
use soul_llink.Base.{none, some, List, [], ◌∷◌}
use soul_llink.Persona.Types.{Mode, daily, work, sex, any_text, none_text}
use soul_llink.Persona.Table.{
  TransitionCondition, TransitionRule, no_event, crisis, explicit_task, scene_close, no_target,
  work_target, scene_target, no_gate, pass, fail, table_rules,
}

-- a condition that leaves everything but the two modes open
abbrev pub when_modes : Mode → Mode → TransitionCondition
when_modes previous nominated = record {
  previous_mode = previous;
  nominated_mode = nominated;
  force_event = no_event;
  continuation_target = no_target;
  gate_result = no_gate;
  submode = none;
}

abbrev pub hard_crisis_guard_force_daily : TransitionRule
hard_crisis_guard_force_daily = record {
  rule_id = "HARD.CRISIS_GUARD.FORCE_DAILY";
  condition = record (when_modes any_text any_text) { force_event = crisis };
  active_mode = daily;
  transition_label = "crisis->daily";
  reason = "crisis_guard keeps relationship response in daily mode";
  priority = 1000;
  max_stale_hold_turns = none;
}

abbrev pub hard_explicit_task_force_work : TransitionRule
hard_explicit_task_force_work = record {
  rule_id = "HARD.EXPLICIT_TASK.FORCE_WORK";
  condition = record (when_modes any_text work) { force_event = explicit_task };
  active_mode = work;
  transition_label = "any->work";
  reason = "explicit task request enters work immediately";
  priority = 650;
  max_stale_hold_turns = none;
}

abbrev pub sex_work_hold_ambiguous_hint : TransitionRule
sex_work_hold_ambiguous_hint = record {
  rule_id = "SEX.WORK_HOLD.AMBIGUOUS_HINT";
  condition = record (when_modes work sex) {
    submode = some "hint_progression";
    gate_result = pass;
  };
  active_mode = work;
  transition_label = "hold_context_action";
  reason = "ambiguous sex hint cannot override an active work context without explicit progression";
  priority = 900;
  max_stale_hold_turns = none;
}

abbrev pub sex_hold_ambiguous_hint : TransitionRule
sex_hold_ambiguous_hint = record {
  rule_id = "SEX.HOLD.AMBIGUOUS_HINT";
  condition = record (when_modes any_text sex) { submode = some "hint_progression" };
  active_mode = daily;
  transition_label = "hold_sex_candidate";
  reason = "sex hint requires explicit progression evidence before mode entry";
  priority = 900;
  max_stale_hold_turns = none;
}

abbrev pub sex_continue_from_sex : TransitionRule
sex_continue_from_sex = record {
  rule_id = "SEX.CONTINUE.FROM_SEX";
  condition = record (when_modes sex sex) { continuation_target = scene_target };
  active_mode = sex;
  transition_label = "hold_sex_continue";
  reason = "sex_scene_continue signal holds existing sex mode";
  priority = 900;
  max_stale_hold_turns = none;
}

abbrev pub sex_enter_gate_pass : TransitionRule
sex_enter_gate_pass = record {
  rule_id = "SEX.ENTER.GATE_PASS";
  condition = record (when_modes any_text sex) { gate_result = pass };
  active_mode = sex;
  transition_label = "any->sex";
  reason = "sex mode accepted after desire gate";
  priority = 900;
  max_stale_hold_turns = none;
}

abbrev pub sex_block_gate_fail : TransitionRule
sex_block_gate_fail = record {
  rule_id = "SEX.BLOCK.GATE_FAIL";
  condition = record (when_modes any_text sex) { gate_result = fail };
  active_mode = daily;
  transition_label = "blocked:sex_gate";
  reason = "blocked:sex_gate; sex request remains daily";
  priority = 900;
  max_stale_hold_turns = none;
}

abbrev pub start_any : TransitionRule
start_any = record {
  rule_id = "START.ANY";
  condition = when_modes none_text any_text;
  active_mode = daily;
  transition_label = "start:nominated";
  reason = "first turn accepts nomination";
  priority = 800;
  max_stale_hold_turns = none;
}

abbrev pub sex_exit_explicit_task : TransitionRule
sex_exit_explicit_task = record {
  rule_id = "SEX.EXIT.EXPLICIT_TASK";
  condition = record (when_modes sex any_text) { force_event = explicit_task };
  active_mode = work;
  transition_label = "sex->work";
  reason = "explicit work request exits sex mode";
  priority = 700;
  max_stale_hold_turns = none;
}

abbrev pub sex_exit_work_continuation : TransitionRule
sex_exit_work_continuation = record {
  rule_id = "SEX.EXIT.WORK_CONTINUATION";
  condition = record (when_modes sex daily) { continuation_target = work_target };
  active_mode = work;
  transition_label = "sex->work_context_continuation";
  reason = "work-context continuation exits sex mode after task handoff";
  priority = 700;
  max_stale_hold_turns = none;
}

abbrev pub sex_exit_scene_close : TransitionRule
sex_exit_scene_close = record {
  rule_id = "SEX.EXIT.SCENE_CLOSE";
  condition = record (when_modes sex daily) { force_event = scene_close };
  active_mode = daily;
  transition_label = "sex->daily";
  reason = "sex_scene_close signal exits sex mode";
  priority = 700;
  max_stale_hold_turns = none;
}

abbrev pub sex_hold_default : TransitionRule
sex_hold_default = record {
  rule_id = "SEX.HOLD.DEFAULT";
  condition = when_modes sex daily;
  active_mode = sex;
  transition_label = "hold_sex_continuation";
  reason = "sex mode held until explicit work request, work-context continuation, or close signal";
  priority = 700;
  max_stale_hold_turns = some 10;
}

abbrev pub work_hold_context_action : TransitionRule
work_hold_context_action = record {
  rule_id = "WORK.HOLD.CONTEXT_ACTION";
  condition = record (when_modes work daily) { continuation_target = work_target };
  active_mode = work;
  transition_label = "hold_context_action";
  reason = "contextual continuation inherits previous work mode";
  priority = 600;
  max_stale_hold_turns = some 5;
}

abbrev pub work_exit_relationship_closeness : TransitionRule
work_exit_relationship_closeness = record {
  rule_id = "WORK.EXIT.RELATIONSHIP_CLOSENESS";
  condition = record (when_modes work daily) { submode = some "relationship_closeness" };
  active_mode = daily;
  transition_label = "work->daily";
  reason = "qualified relationship release exits work";
  priority = 550;
  max_stale_hold_turns = none;
}

abbrev pub work_hold_without_release : TransitionRule
work_hold_without_release = record {
  rule_id = "WORK.HOLD.WITHOUT_RELEASE";
  condition = when_modes work daily;
  active_mode = work;
  transition_label = "hold_work_context";
  reason = "daily nomination without release evidence holds work context";
  priority = 540;
  max_stale_hold_turns = none;
}

abbrev pub daily_to_work_mid_confidence : TransitionRule
daily_to_work_mid_confidence = record {
  rule_id = "DAILY.TO_WORK.MID_CONFIDENCE";
  condition = when_modes daily work;
  active_mode = work;
  transition_label = "daily->work";
  reason = "mid-confidence work nomination accepted";
  priority = 550;
  max_stale_hold_turns = none;
}

abbrev pub antiflap_short_hold_not_sex : TransitionRule
antiflap_short_hold_not_sex = record {
  rule_id = "ANTIFLAP.SHORT_HOLD.NOT_SEX";
  condition = when_modes any_text daily;
  active_mode = work;
  transition_label = "hold_short_message";
  reason = "short neutral continuation inherits previous mode";
  priority = 500;
  max_stale_hold_turns = none;
}

abbrev pub work_enter_high_confidence : TransitionRule
work_enter_high_confidence = record {
  rule_id = "WORK.ENTER.HIGH_CONFIDENCE";
  condition = when_modes any_text work;
  active_mode = work;
  transition_label = "any->work";
  reason = "high-confidence work mode overrides previous mode";
  priority = 400;
  max_stale_hold_turns = none;
}

abbrev pub work_hold_machine_status : TransitionRule
work_hold_machine_status = record {
  rule_id = "WORK.HOLD.MACHINE_STATUS";
  condition = when_modes work daily;
  active_mode = work;
  transition_label = "hold_low_confidence";
  reason = "machine/status output inherits previous work mode";
  priority = 300;
  max_stale_hold_turns = some 5;
}

abbrev pub work_exit_to_daily : TransitionRule
work_exit_to_daily = record {
  rule_id = "WORK.EXIT.TO_DAILY";
  condition = when_modes work daily;
  active_mode = daily;
  transition_label = "work->daily";
  reason = "work mode does not hold over relationship/daily mode";
  priority = 200;
  max_stale_hold_turns = none;
}

abbrev pub antiflap_hold_low_confidence : TransitionRule
antiflap_hold_low_confidence = record {
  rule_id = "ANTIFLAP.HOLD.LOW_CONFIDENCE";
  condition = when_modes any_text any_text;
  active_mode = work;
  transition_label = "hold_low_confidence";
  reason = "confidence below threshold; previous mode held to avoid flapping";
  priority = 100;
  max_stale_hold_turns = some 5;
}

abbrev pub default_accept_nomination : TransitionRule
default_accept_nomination = record {
  rule_id = "DEFAULT.ACCEPT_NOMINATION";
  condition = when_modes any_text any_text;
  active_mode = daily;
  transition_label = "accept_nomination";
  reason = "nomination accepted";
  priority = 0;
  max_stale_hold_turns = none;
}

abbrev pub legacy_rules : List TransitionRule
legacy_rules =
    hard_crisis_guard_force_daily ∷ hard_explicit_task_force_work ∷ sex_work_hold_ambiguous_hint
    ∷ sex_hold_ambiguous_hint ∷ sex_continue_from_sex ∷ sex_enter_gate_pass ∷ sex_block_gate_fail
    ∷ start_any ∷ sex_exit_explicit_task ∷ sex_exit_work_continuation ∷ sex_exit_scene_close
    ∷ sex_hold_default ∷ work_hold_context_action ∷ work_exit_relationship_closeness
    ∷ work_hold_without_release ∷ daily_to_work_mid_confidence ∷ antiflap_short_hold_not_sex
    ∷ work_enter_high_confidence ∷ work_hold_machine_status ∷ work_exit_to_daily
    ∷ antiflap_hold_low_confidence ∷ default_accept_nomination ∷ []

unfoldable pub build_legacy_transition_table : List TransitionRule
build_legacy_transition_table = table_rules legacy_rules
