-- ===== src/Persona/Types.antt =====
-- types.py of packages/persona_engine/persona_orchestrator: modes, decisions and transitions.
use soul_llink.Base.{
  ℕ, ◌≡◌, ◌↔◌, Bool, true, false, List, String, Option, none, some, arith, Eq, ◌==◌, string_eq,
  if◌then◌else◌,
}
use soul_llink.Base.Text.{Text}

-- A mode as the text that the code passes: the three public modes, the three texts that the
-- transition table treats specially, and any other text.
pub data Mode : Type 0 where
  daily work sex : Mode
  any_text none_text empty_text : Mode
  other : String → Mode

abbrev pub mode_text : Mode → String
mode_text daily = "daily"
mode_text work = "work"
mode_text sex = "sex"
mode_text any_text = "any"
mode_text none_text = "none"
mode_text empty_text = ""
mode_text (other s) = s

abbrev pub mode_beq : Mode → Mode → Bool
mode_beq daily daily = true
mode_beq work work = true
mode_beq sex sex = true
mode_beq any_text any_text = true
mode_beq none_text none_text = true
mode_beq empty_text empty_text = true
mode_beq (other s) (other t) = s == t
mode_beq _ _ = false

pub mode_beq_iff : (a b : Mode) → (mode_beq a b ≡ true) ↔ (a ≡ b)
mode_beq_iff (other s) (other t) = ground (arith, string_eq.beq_iff s t)
mode_beq_iff a b = ground arith

instance abbrev pub mode_eq : Eq Mode
mode_eq = record { beq = mode_beq; beq_iff = mode_beq_iff }

-- `mode in {MODE_DAILY, MODE_WORK, MODE_SEX}`
abbrev pub is_canonical : Mode → Bool
is_canonical daily = true
is_canonical work = true
is_canonical sex = true
is_canonical _ = false

-- `LEGACY_MODE_ALIASES.get(name, MODE_DAILY)`
abbrev pub legacy_alias : String → Mode
legacy_alias s =
    if s == "intimacy"
    then daily
    else if s == "repair"
    then daily
    else if s == "conflict"
    then daily
    else if s == "system_maintenance"
    then work
    else if s == "creative"
    then work
    else if s == "sex_candidate"
    then sex
    else daily

unfoldable pub normalize_mode : Option Mode → Mode
normalize_mode none = daily
normalize_mode (some daily) = daily
normalize_mode (some work) = work
normalize_mode (some sex) = sex
normalize_mode (some (other s)) = legacy_alias s
normalize_mode (some _) = daily

-- The entries of `ModeDecision.signals` that transitions read: flags by their truth value, the
-- text as `str(... or "")`, the length where `int(...)` accepts it.
pub record Signals : Type 0 where
  pub explicit_task_request : Bool
  pub explicit_system_request : Bool
  pub sex_scene_continue : Bool
  pub sex_scene_close : Bool
  pub aftercare_request : Bool
  pub safety_stop : Bool
  pub semantic_explicit_daily_intent : Bool
  pub context_continuation_exhausted : Bool
  pub normalized_text : Text
  pub message_length : Option ℕ

-- A confidence is a number of ten-thousandths; the code only compares it with thresholds.
pub record ModeDecision : Type 0 where
  pub mode : Mode
  pub submode : String
  pub confidence : ℕ
  pub reason : String
  pub safety_flags : List String
  pub signals : Signals

pub record TransitionDecision : Type 0 where
  pub previous_mode : Option Mode
  pub requested_mode : Mode
  pub active_mode : Mode
  pub transition : String
  pub confidence : ℕ
  pub reason : String
  pub safety_flags : List String
