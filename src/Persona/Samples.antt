-- ===== src/Persona/Samples.antt =====
-- Concrete settings and turns for the tests.
use soul_llink.Base.{ℕ, false, List, [], ◌∷◌, String, Option, some}
use soul_llink.Base.Text.{codes}
use soul_llink.Persona.Types.{Mode, Signals, ModeDecision}
use soul_llink.Persona.Transition.{RoutingConfig}

-- the thresholds of the repository, with a term or two for each group
abbrev pub routing : RoutingConfig
routing = record {
  anti_flap_confidence = 6500;
  work_override_confidence = 7500;
  work_exit_confidence = 9000;
  short_message_max_chars = 4;
  machine_status_terms = codes "exit code" ∷ [];
  work_continuation_exit_terms = codes "fix it" ∷ [];
  context_continuation_terms = codes "go on" ∷ [];
  context_question_terms = codes "done?" ∷ [];
  context_action_terms = codes "run it" ∷ [];
}

abbrev pub silent : Signals
silent = record {
  explicit_task_request = false;
  explicit_system_request = false;
  sex_scene_continue = false;
  sex_scene_close = false;
  aftercare_request = false;
  safety_stop = false;
  semantic_explicit_daily_intent = false;
  context_continuation_exhausted = false;
  normalized_text = codes "and then";
  message_length = some 8;
}

abbrev pub nominate : Mode → ℕ → List String → ModeDecision
nominate mode confidence flags = record {
  mode = mode;
  submode = "general";
  confidence = confidence;
  reason = "";
  safety_flags = flags;
  signals = silent;
}

abbrev pub open_tier : Option String
open_tier = some "uninhibited"
