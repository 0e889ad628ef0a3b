-- ===== src/Persona/Shadow/Tests.antt =====
-- The theorems about the comparator on concrete comparisons.
use soul_llink.Base.{refl, List, [], ◌∷◌, some, none}
use soul_llink.Persona.Types.{daily, work, mode_eq, TransitionDecision}
use soul_llink.Persona.Shadow.{NewRule, Comparator, new_comparator}
use soul_llink.Persona.Shadow.Counts.{
  IsConsistent, Request, compare_request, reset_request, serve_all, serve_all-IsConsistent,
}

abbrev to_work : TransitionDecision
to_work = record {
  previous_mode = some daily;
  requested_mode = work;
  active_mode = work;
  transition = "daily->work";
  confidence = 8000;
  reason = "";
  safety_flags = [];
}

abbrev stay : NewRule
stay = record { active_mode = daily; transition_label = "stay"; reason = ""; rule_id = "X" }

abbrev requests : List Request
requests =
    compare_request (some daily) work 8000 to_work none
    ∷ reset_request
    ∷ compare_request (some daily) work 8000 to_work (some stay)
    ∷ compare_request (some daily) work 8000 to_work none
    ∷ []

abbrev served : Comparator
served = serve_all requests new_comparator

new-IsConsistent : IsConsistent new_comparator
unfolding new_comparator
new-IsConsistent = record { counted = refl; differing = refl }

served-IsConsistent : IsConsistent served
served-IsConsistent = serve_all-IsConsistent requests new_comparator new-IsConsistent
