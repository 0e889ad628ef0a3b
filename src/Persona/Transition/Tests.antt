-- ===== src/Persona/Transition/Tests.antt =====
-- The theorems about the mode transitions of the legacy manager on concrete turns.
use soul_llink.Base.{
  ◌≡◌, refl, true, false, ◌||◌, [], ◌∷◌, String, some, none, contains, string_eq, Distinct,
}
use soul_llink.Persona.Types.{daily, work, sex, mode_eq}
use soul_llink.Persona.Transition.{transition, decide_turn, is_crisis, on_sex_request, merge_flags}
use soul_llink.Persona.Samples.{routing, nominate, open_tier}
use soul_llink.Persona.Transition.Flags.{transition-flags}
use soul_llink.Persona.Transition.Gate.{EnteredByGate, transition-sex}

transition-flags_example :
    let result =
      transition routing (some daily) (nominate work 8000 ("a" ∷ [])) ("b" ∷ "a" ∷ []) none false in
    Distinct result.safety_flags
    × ((f : String)
        → (contains ("a" ∷ []) f || contains ("b" ∷ "a" ∷ []) f) ≡ true
        → contains result.safety_flags f ≡ true)
transition-flags_example =
    transition-flags routing (some daily) (nominate work 8000 ("a" ∷ [])) ("b" ∷ "a" ∷ []) none
      false

transition-sex_example : EnteredByGate (some daily) (nominate sex 9000 []) [] open_tier true
unfolding transition decide_turn is_crisis on_sex_request merge_flags
transition-sex_example =
    transition-sex routing (some daily) (nominate sex 9000 []) [] open_tier true refl
