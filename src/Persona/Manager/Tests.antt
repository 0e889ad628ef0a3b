-- ===== src/Persona/Manager/Tests.antt =====
-- The theorems about the manager of both tables on concrete turns.
use soul_llink.Base.{
  ◌+◌, ◌≤◌, ◌<◌, ◌≡◌, refl, inl, inr, true, false, List, [], ◌∷◌, some, none, is_some,
}
use soul_llink.Persona.Types.{daily, work, sex, mode_eq, ModeDecision}
use soul_llink.Persona.Transition.{transition, decide_turn, is_crisis, on_sex_request, merge_flags}
use soul_llink.Persona.Transition.Gate.{EnteredByGate}
use soul_llink.Persona.Samples.{routing, nominate, open_tier}
use soul_llink.Persona.Manager.{
  Manager, new_manager, manage, should_use_new_table, get_shadow_summary,
}
use soul_llink.Persona.Manager.Authority.{IsLegacy, manage_protected, manage-sex}
use soul_llink.Persona.Shadow.{Summary}
use soul_llink.Persona.Shadow.Counts.{tally}
use soul_llink.Persona.Manager.Session.{
  HostCall, turn_call, reset_call, run_session, run_session-summary,
}
use soul_llink.Persona.Manager.Recording.{IsReady, new_manager-IsReady}

abbrev bounded_manager : Manager
bounded_manager = new_manager none (some true) false false

abbrev shadow_manager : Manager
shadow_manager = new_manager (some true) none false false

abbrev work_turn : ModeDecision
work_turn = nominate work 8000 []

bounded-IsReady : IsReady bounded_manager
bounded-IsReady = new_manager-IsReady none (some true) false false

manage_protected_example : IsLegacy routing (some sex) work_turn [] none false bounded_manager
manage_protected_example =
    manage_protected routing (some sex) work_turn [] none false bounded_manager (inr (inl refl))

manage-sex_example : EnteredByGate (some daily) (nominate sex 9000 []) [] open_tier true
unfolding manage new_manager should_use_new_table transition decide_turn is_crisis on_sex_request
    merge_flags
manage-sex_example =
    manage-sex routing (some daily) (nominate sex 9000 []) [] open_tier true bounded_manager refl

abbrev calls : List HostCall
calls =
    turn_call (some daily) work_turn [] none false
    ∷ reset_call
    ∷ turn_call (some sex) work_turn [] none false
    ∷ []

run_session-summary_example :
    let report = get_shadow_summary (run_session routing calls bounded_manager) in
    (is_some report ≡ bounded_manager.enable_shadow)
    × ((s : Summary)
        → report ≡ some s
        → (s.agreements + s.disagreement_count ≡ s.total_decisions)
          × (tally s.disagreement_by_type ≡ s.disagreement_count)
          × (s.agreement_rate.0 ≤ s.agreement_rate.1)
          × (0 < s.agreement_rate.1))
run_session-summary_example = run_session-summary routing calls bounded_manager bounded-IsReady
