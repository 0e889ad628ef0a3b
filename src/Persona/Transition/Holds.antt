-- ===== src/Persona/Transition/Holds.antt =====
-- When a mode is held and when it is released.
use soul_llink.Base.{
  ◌≡◌, ◌↔◌, ◌<◌, Bool, false, not, ◌||◌, ◌&&◌, List, String, Option, some, arith, ◌==◌, ◌⊎◌,
  string_eq, contains, ltb, leb, if◌then◌else◌,
}
use soul_llink.Persona.Types.{Mode, daily, work, sex, mode_eq, ModeDecision}
use soul_llink.Persona.Transition.Flags.{contains-merge_flags}
use soul_llink.Persona.Transition.{
  RoutingConfig, Turn, turn_of, decide_turn, transition, is_crisis, leave_sex, hold_short_message,
  hold_work_continuation, enter_work, leave_work, hold_or_accept, from_previous,
  has_explicit_request, is_explicit_task_request, is_short_hold_message,
  is_context_continuation_message, is_work_continuation_exit_message, is_machine_status_output,
  has_boundary_signal,
}

module _ (cfg : RoutingConfig) where
  -- The two ways out of sex mode that a daily nomination has.
  abbrev pub exits_sex : ModeDecision → Bool
  exits_sex d =
      not d.signals.sex_scene_continue && is_work_continuation_exit_message cfg d
      || d.signals.sex_scene_close
        && (d.signals.aftercare_request || not d.signals.sex_scene_continue)

  -- In sex mode, without a crisis flag, a daily nomination keeps sex mode exactly when neither exit
  -- is open.
  pub transition-sex_hold :
      (d : ModeDecision) (flags : List String) (tier : Option String) (enabled : Bool)
      → contains d.safety_flags "crisis_guard" ≡ false
      → contains flags "crisis_guard" ≡ false
      → d.mode ≡ daily
      → ((transition cfg (some sex) d flags tier enabled).active_mode ≡ sex) ↔ (exits_sex d ≡ false)
  unfolding transition decide_turn is_crisis from_previous leave_sex is_explicit_task_request
  transition-sex_hold d flags tier enabled calm calm' m =
      ground (arith, contains-merge_flags d.safety_flags flags "crisis_guard")

  -- In sex mode a work nomination leads to work, at any confidence and with no explicit request,
  -- unless a crisis flag or a closing signal makes the mode daily.
  pub transition-sex_to_work :
      (d : ModeDecision) (flags : List String) (tier : Option String) (enabled : Bool)
      → contains d.safety_flags "crisis_guard" ≡ false
      → contains flags "crisis_guard" ≡ false
      → d.mode ≡ work
      → d.signals.sex_scene_close ≡ false
      → (transition cfg (some sex) d flags tier enabled).active_mode ≡ work
  unfolding transition decide_turn is_crisis from_previous leave_sex is_explicit_task_request
      hold_short_message hold_work_continuation enter_work hold_or_accept
  transition-sex_to_work d flags tier enabled calm calm' m close =
      ground (arith, contains-merge_flags d.safety_flags flags "crisis_guard")

  -- A daily nomination is held by an unsure turn that is short or continues the context.
  abbrev pub is_held : ModeDecision → Bool
  is_held d =
      ltb d.confidence cfg.anti_flap_confidence
      && (is_short_hold_message cfg d || is_context_continuation_message cfg d)

  -- Work is released by a semantic intent, an expired continuation, a boundary signal, or a sure
  -- decision about closeness, rupture or crisis that is no machine output.
  abbrev pub releases_work : ModeDecision → Bool
  releases_work d =
      d.signals.semantic_explicit_daily_intent
      || d.signals.context_continuation_exhausted
      || has_boundary_signal d
      || not (is_machine_status_output cfg d)
        && leb cfg.work_exit_confidence d.confidence
        && (d.submode == "relationship_closeness"
            || d.submode == "relationship_rupture"
            || d.submode == "crisis")

  -- In work mode, without a crisis flag, a daily nomination leads to daily exactly when it is not
  -- held and releases work; otherwise work stays.
  pub transition-work_release :
      (d : ModeDecision) (flags : List String) (tier : Option String) (enabled : Bool)
      → contains d.safety_flags "crisis_guard" ≡ false
      → contains flags "crisis_guard" ≡ false
      → d.mode ≡ daily
      → (transition cfg (some work) d flags tier enabled).active_mode
        ≡ (if not (is_held d) && releases_work d then daily else work)
  unfolding transition decide_turn is_crisis from_previous leave_sex is_explicit_task_request
      hold_short_message hold_work_continuation enter_work leave_work
  transition-work_release d flags tier enabled calm calm' m =
      ground (arith, contains-merge_flags d.safety_flags flags "crisis_guard")

  from_daily_daily :
      (t : Turn)
      → t.previous ≡ some daily
      → t.requested ≡ daily
      → (from_previous cfg daily t).active_mode ≡ daily
  unfolding from_previous leave_sex hold_short_message hold_work_continuation enter_work
      hold_or_accept
  from_daily_daily t p q = ground arith

  from_daily_work :
      (t : Turn)
      → t.previous ≡ some daily
      → t.requested ≡ work
      → t.decision.confidence < cfg.anti_flap_confidence
      → t.decision.confidence < cfg.work_override_confidence
      → has_explicit_request t.decision ≡ false
      → (from_previous cfg daily t).active_mode ≡ daily
  unfolding from_previous leave_sex hold_short_message hold_work_continuation enter_work
      hold_or_accept
  from_daily_work t p q unsure below silent = ground arith

  from_work_work :
      (t : Turn)
      → t.previous ≡ some work
      → t.requested ≡ work
      → (from_previous cfg work t).active_mode ≡ work
  unfolding from_previous leave_sex hold_short_message hold_work_continuation enter_work
      hold_or_accept
  from_work_work t p q = ground arith

  -- In daily or work mode, a daily or work nomination below the anti-flap and the work-override
  -- confidence, with no explicit request, no releasing signal and no crisis flag, changes nothing.
  pub transition_anti_flap :
      (p : Mode) (d : ModeDecision) (flags : List String) (tier : Option String) (enabled : Bool)
      → (p ≡ daily) ⊎ (p ≡ work)
      → (d.mode ≡ daily) ⊎ (d.mode ≡ work)
      → contains d.safety_flags "crisis_guard" ≡ false
      → contains flags "crisis_guard" ≡ false
      → d.confidence < cfg.anti_flap_confidence
      → d.confidence < cfg.work_override_confidence
      → has_explicit_request d ≡ false
      → releases_work d ≡ false
      → (transition cfg (some p) d flags tier enabled).active_mode ≡ p
  unfolding transition decide_turn is_crisis
  transition_anti_flap p d flags tier enabled known asked calm calm' unsure below silent kept =
      let t = turn_of (some p) d flags tier enabled in
      ground (
        arith,
        contains-merge_flags d.safety_flags flags "crisis_guard",
        from_daily_daily t,
        from_daily_work t,
        from_work_work t,
        transition-work_release d flags tier enabled calm calm',
      )
