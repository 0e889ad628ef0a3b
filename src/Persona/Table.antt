-- ===== src/Persona/Table.antt =====
-- transition_policy.py of packages/persona_engine/persona_orchestrator: the transition rules as
-- data, and the table that picks one.
mod Tests
pub mod Rules
pub mod Best
pub mod Legacy
use soul_llink.Base.{
  ℕ, ◌≡◌, Bool, true, false, not, ◌&&◌, ◌||◌, List, [], ◌∷◌, String, Option, none, some, arith, Eq,
  eq_by, ◌==◌, string_eq, ltb, leb, if◌then◌else◌, filter_by, Result, ok, ◌>>=◌, ◌>>◌, require,
  value_error,
}
use soul_llink.Base.Sorting.{sorted}
use soul_llink.Persona.Types.{
  Mode, daily, work, sex, any_text, none_text, empty_text, mode_text, mode_eq, is_canonical,
}
use Prim.Native.String.{◌++◌ as concat}

pub data ForceEvent : Type 0 where
  no_event boundary_exit crisis explicit_task explicit_progression scene_close : ForceEvent

abbrev pub force_index : ForceEvent → ℕ
force_index no_event = 0
force_index boundary_exit = 1
force_index crisis = 2
force_index explicit_task = 3
force_index explicit_progression = 4
force_index scene_close = 5

pub force_index_injective : (a b : ForceEvent) → force_index a ≡ force_index b → a ≡ b
force_index_injective a b h = ground arith

instance abbrev pub force_eq : Eq ForceEvent
force_eq = eq_by force_index force_index_injective

pub data ContinuationTarget : Type 0 where
  no_target work_target relationship_target scene_target ambiguous : ContinuationTarget

abbrev pub target_index : ContinuationTarget → ℕ
target_index no_target = 0
target_index work_target = 1
target_index relationship_target = 2
target_index scene_target = 3
target_index ambiguous = 4

pub target_index_injective : (a b : ContinuationTarget) → target_index a ≡ target_index b → a ≡ b
target_index_injective a b h = ground arith

instance abbrev pub target_eq : Eq ContinuationTarget
target_eq = eq_by target_index target_index_injective

pub data GateResult : Type 0 where
  no_gate pass fail not_applicable : GateResult

abbrev pub gate_index : GateResult → ℕ
gate_index no_gate = 0
gate_index pass = 1
gate_index fail = 2
gate_index not_applicable = 3

pub gate_index_injective : (a b : GateResult) → gate_index a ≡ gate_index b → a ≡ b
gate_index_injective a b h = ground arith

instance abbrev pub gate_eq : Eq GateResult
gate_eq = eq_by gate_index gate_index_injective

pub record TransitionCondition : Type 0 where
  pub previous_mode : Mode
  pub nominated_mode : Mode
  pub force_event : ForceEvent
  pub continuation_target : ContinuationTarget
  pub gate_result : GateResult
  pub submode : Option String

-- the arguments of `matches` and of `decide`
pub record TableInput : Type 0 where
  pub previous : Option Mode
  pub nominated : Mode
  pub force : ForceEvent
  pub continuation : ContinuationTarget
  pub gate : GateResult
  pub submode : String

-- `previous or "none"`
abbrev pub or_none : Option Mode → Mode
or_none none = none_text
or_none (some empty_text) = none_text
or_none (some m) = m

abbrev pub submode_fits : Option String → String → Bool
submode_fits none s = true
submode_fits (some t) s = t == s

unfoldable pub matches : TransitionCondition → TableInput → Bool
matches c i =
    if not (c.previous_mode == any_text) && not (c.previous_mode == or_none i.previous)
    then false
    else if not (c.nominated_mode == any_text) && not (c.nominated_mode == i.nominated)
    then false
    else if not (c.force_event == no_event) && not (c.force_event == i.force)
    then false
    else if not (c.continuation_target == no_target)
        && not (c.continuation_target == i.continuation)
    then false
    else if not (c.gate_result == no_gate) && not (c.gate_result == i.gate)
    then false
    else submode_fits c.submode i.submode

pub record TransitionRule : Type 0 where
  pub rule_id : String
  pub condition : TransitionCondition
  pub active_mode : Mode
  pub transition_label : String
  pub reason : String
  pub priority : ℕ
  pub max_stale_hold_turns : Option ℕ

abbrev pub positive_hold : Option ℕ → Bool
positive_hold none = true
positive_hold (some n) = leb 1 n

-- `TransitionRule.__post_init__`; a priority is a natural, so its first check holds
unfoldable pub check_rule : TransitionRule → Result TransitionRule
check_rule r = do
  require (is_canonical r.active_mode) (value_error "active_mode must be daily/work/sex")
  require (positive_hold r.max_stale_hold_turns)
      (value_error "max_stale_hold_turns must be positive")
  ok r

-- `sorted(rules, key=priority, reverse=True)`, which keeps the order of equals
abbrev pub outranks : TransitionRule → TransitionRule → Bool
outranks a b = ltb b.priority a.priority

-- `TransitionTable.__init__`; `_validate_unique_coverage` changes nothing and never fails
unfoldable pub table_rules : List TransitionRule → List TransitionRule
table_rules rules = sorted outranks rules

abbrev pub first {ℓ} : {A : Type ℓ} → List A → Option A
first [] = none
first (x ∷ xs) = some x

abbrev pub matching : TableInput → List TransitionRule → List TransitionRule
matching i = filter_by (λ r. matches r.condition i)

-- `TransitionTable.decide`, on the sorted rules
unfoldable pub decide : List TransitionRule → TableInput → Option TransitionRule
decide rules i = first (matching i rules)

-- what `apply_legacy_conditions` is told of the message
pub record MessageFacts : Type 0 where
  pub confidence : ℕ
  pub is_short_message : Bool
  pub is_machine_status : Bool
  pub is_context_continuation : Bool

-- `previous_mode or word`: both `None` and the empty text are false
abbrev pub previous_or : Option Mode → Mode → Mode
previous_or none m = m
previous_or (some empty_text) m = m
previous_or (some p) m = p

abbrev pub previous_is_sex : Option Mode → Bool
previous_is_sex none = false
previous_is_sex (some p) = p == sex

-- `f"{previous_mode or 'start'}->{nominated_mode}"`
abbrev pub nomination_label : Option Mode → Mode → String
nomination_label none m = concat "start->" (mode_text m)
nomination_label (some empty_text) m = concat "start->" (mode_text m)
nomination_label (some p) m = concat (mode_text p) (concat "->" (mode_text m))

-- The branches of `apply_legacy_conditions`, each for the rules that it is named for.
module _ (r : TransitionRule) (previous : Option Mode) (nominated : Mode) (f : MessageFacts) where
  pub refine_start : Option TransitionRule
  refine_start = some (record r {
    active_mode = nominated;
    transition_label = concat "start:" (mode_text nominated);
    max_stale_hold_turns = none;
  })

  pub refine_short_hold : Option TransitionRule
  refine_short_hold =
      if not f.is_short_message || leb 6500 f.confidence || previous_is_sex previous
      then none
      else some (record r {
        active_mode = previous_or previous daily;
        transition_label = "hold_short_message";
        max_stale_hold_turns = none;
      })

  pub refine_context_action : Option TransitionRule
  refine_context_action =
      if leb 6500 f.confidence || not f.is_context_continuation then none else some r

  pub refine_high_confidence : Option TransitionRule
  refine_high_confidence = if ltb f.confidence 7500 then none else some r

  pub refine_closeness : Option TransitionRule
  refine_closeness =
      if ltb f.confidence 9000
      then some (record {
        rule_id = "WORK.HOLD.RELEASE_BELOW_THRESHOLD";
        condition = r.condition;
        active_mode = work;
        transition_label = "hold_work_context";
        reason = "relationship release below work-exit confidence holds work context";
        priority = r.priority;
        max_stale_hold_turns = none;
      })
      else some r

  unfoldable pub refine_mid_confidence : Option TransitionRule
  refine_mid_confidence = if ltb f.confidence 6500 then none else some r

  pub refine_machine_status : Option TransitionRule
  refine_machine_status = if not f.is_machine_status then none else some r

  pub refine_low_confidence : Option TransitionRule
  refine_low_confidence =
      if leb 6500 f.confidence || previous_is_sex previous
      then none
      else some (record r {
        active_mode = previous_or previous daily;
        transition_label = "hold_low_confidence";
      })

  pub refine_default : Option TransitionRule
  refine_default = some (record r {
    active_mode = nominated;
    transition_label = nomination_label previous nominated;
    max_stale_hold_turns = none;
  })

  unfoldable pub apply_legacy_conditions : Option TransitionRule
  apply_legacy_conditions =
      if r.rule_id == "START.ANY"
      then refine_start
      else if r.rule_id == "ANTIFLAP.SHORT_HOLD.NOT_SEX"
      then refine_short_hold
      else if r.rule_id == "WORK.HOLD.CONTEXT_ACTION"
      then refine_context_action
      else if r.rule_id == "WORK.ENTER.HIGH_CONFIDENCE"
      then refine_high_confidence
      else if r.rule_id == "WORK.EXIT.RELATIONSHIP_CLOSENESS"
      then refine_closeness
      else if r.rule_id == "DAILY.TO_WORK.MID_CONFIDENCE"
      then refine_mid_confidence
      else if r.rule_id == "WORK.HOLD.MACHINE_STATUS"
      then refine_machine_status
      else if r.rule_id == "ANTIFLAP.HOLD.LOW_CONFIDENCE"
      then refine_low_confidence
      else if r.rule_id == "DEFAULT.ACCEPT_NOMINATION"
      then refine_default
      else some r
