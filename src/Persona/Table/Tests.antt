-- ===== src/Persona/Table/Tests.antt =====
-- The theorems about the transition table on concrete inputs.
use soul_llink.Base.{◌≡◌, ◌≢◌, refl, false, true, List, [], ◌∷◌, some, none, Member}
use soul_llink.Base.Sorting.{sorted}
use soul_llink.Persona.Types.{daily, sex, mode_eq}
use soul_llink.Persona.Table.{
  TableInput, TransitionRule, MessageFacts, matches, decide, table_rules, no_event, no_target, pass,
}
use soul_llink.Persona.Table.Rules.{
  build_legacy_transition_table, default_accept_nomination, work_hold_machine_status,
  work_exit_to_daily, sex_enter_gate_pass, work_enter_high_confidence, start_any,
}
use soul_llink.Persona.Table.Best.{IsBestIn, decide_best}
use soul_llink.Persona.Table.Legacy.{legacy_table_total, legacy_dead_rules}

abbrev to_sex : TableInput
to_sex = record {
  previous = some daily;
  nominated = sex;
  force = no_event;
  continuation = no_target;
  gate = pass;
  submode = "general";
}

abbrev two_rules : List TransitionRule
two_rules = work_enter_high_confidence ∷ sex_enter_gate_pass ∷ []

decide_best_example :
    Member sex_enter_gate_pass two_rules
    × (matches sex_enter_gate_pass.condition to_sex ≡ true)
    × IsBestIn to_sex sex_enter_gate_pass two_rules
unfolding decide table_rules matches sorted
decide_best_example = decide_best two_rules to_sex sex_enter_gate_pass refl

legacy_table_total_example : decide build_legacy_transition_table to_sex ≢ none
legacy_table_total_example = legacy_table_total to_sex

legacy_dead_rules_example :
    (sex_enter_gate_pass ≢ default_accept_nomination)
    × (sex_enter_gate_pass ≢ work_hold_machine_status)
    × (sex_enter_gate_pass ≢ work_exit_to_daily)
unfolding decide build_legacy_transition_table table_rules matches sorted
legacy_dead_rules_example = legacy_dead_rules to_sex sex_enter_gate_pass refl

abbrev plain_facts : MessageFacts
plain_facts = record {
  confidence = 5000;
  is_short_message = false;
  is_machine_status = false;
  is_context_continuation = false;
}

-- a rule behind its refinement at the start
abbrev started : TransitionRule
started = record start_any {
  active_mode = sex;
  transition_label = "start:sex";
  max_stale_hold_turns = none;
}
