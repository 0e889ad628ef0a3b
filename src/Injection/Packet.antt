-- ===== src/Injection/Packet.antt =====
-- packages/pcltm/injection/context_packet.py: the packet that goes into a prompt. An entry of the
-- audit is the candidate with its reason; the dictionaries made of them are not modelled, nor are
-- the caller's metadata. `two_decimals` stands for the format `.2f` of a confidence.
pub mod Trimming
pub mod Sections
use soul_llink.Base.{
  ℕ, Bool, true, false, List, [], ◌∷◌, ◌++◌, String, Option, none, some, ◌==◌, ltb, if◌then◌else◌,
  is_empty, sum_by, map, nat_eq,
}
use soul_llink.Base.Sorting.{sorted}
use soul_llink.Base.Text.{Text, codes, strip}
use mathlib.Core.List.{reverse}
use soul_llink.Injection.Candidate.{
  CandidateType, system, core_identity, runtime_mode, active_dialogue, current_task,
  persona_emotion, session_spine, episodic_memory, semantic_memory, procedural_skill,
  background_context, type_eq, injection_priority, InjectionCandidate, before_fixed,
}
use soul_llink.Injection.Conflict.{ConflictDecision}
use soul_llink.Injection.Budget.{BudgetAllocation}

-- `SECTION_TITLES`
abbrev pub section_title : CandidateType → String
section_title system = "System / Safety / Tool Discipline"
section_title core_identity = "Core SOUL Identity Anchor"
section_title runtime_mode = "Runtime Mode Layer"
section_title active_dialogue = "Active Dialogue State"
section_title current_task = "Current Task State"
section_title persona_emotion = "Emotional / Persona State"
section_title session_spine = "Session Summary Spine"
section_title episodic_memory = "Relevant Episodic Memories (events)"
section_title semantic_memory = "Relevant Semantic Memories (sourced facts)"
section_title procedural_skill = "Procedural Skills"
section_title background_context = "Optional Background Context"

-- a dictionary from types to lists, in the order of insertion
abbrev pub SectionTable : Type 0
SectionTable = List (CandidateType × List InjectionCandidate)

-- `sections.setdefault(candidate.type, []).append(candidate)`
unfoldable pub add_section : SectionTable → InjectionCandidate → SectionTable
add_section [] c = (c.type, c ∷ []) ∷ []
add_section ((t, cs) ∷ rest) c =
    let later = add_section rest c in
    if t == c.type then (t, cs ++ c ∷ []) ∷ rest else (t, cs) ∷ later

unfoldable pub add_sections : SectionTable → List InjectionCandidate → SectionTable
unfolding add_section
add_sections sections [] = sections
add_sections sections (c ∷ cs) = add_sections (add_section sections c) cs

-- the sections of `sorted(candidates, key=lambda item: (item.priority, item.key))`
unfoldable pub make_sections : List InjectionCandidate → SectionTable
unfolding add_sections
make_sections cs = add_sections [] (sorted before_fixed cs)

abbrev pub before_section :
    CandidateType × List InjectionCandidate → CandidateType × List InjectionCandidate → Bool
before_section a b = ltb (injection_priority a.0) (injection_priority b.0)

-- `separator.join(parts)`
unfoldable pub join : Text → List Text → Text
join separator [] = []
join separator (x ∷ []) = x
join separator (x ∷ y ∷ rest) = x ++ separator ++ join separator (y ∷ rest)

abbrev pub newline : Text
newline = 10 ∷ []

module _ (two_decimals : ℕ → Text) where
  -- `_candidate_label`
  unfoldable pub candidate_label : InjectionCandidate → Text
  candidate_label c = elim c.type [
    | episodic_memory ↦ codes "event:" ++ c.key
    | semantic_memory ↦
        codes "fact:"
        ++ c.key
        ++ codes "; source="
        ++ codes c.source
        ++ codes "; confidence="
        ++ elim c.confidence [ none ↦ codes "unknown" | some n ↦ two_decimals n ]
    | procedural_skill ↦ codes "skill:" ++ c.key
    | _ ↦ c.key
  ]

  abbrev candidate_line : InjectionCandidate → Text
  candidate_line c = codes "- [" ++ candidate_label c ++ codes "] " ++ strip c.content

  -- the lines of one section, with the empty line behind it
  abbrev section_lines : CandidateType × List InjectionCandidate → List Text
  section_lines (t, cs) =
      (codes "## " ++ codes (section_title t)) ∷ (map candidate_line cs ++ [] ∷ [])

  abbrev all_lines : SectionTable → List Text
  all_lines [] = []
  all_lines (s ∷ rest) = section_lines s ++ all_lines rest

  -- `_render_candidates`
  unfoldable pub render_candidates : List InjectionCandidate → Text
  unfolding make_sections candidate_label
  render_candidates cs = strip (join newline (all_lines (sorted before_section (make_sections cs))))

  abbrev filled_lines : SectionTable → List Text
  filled_lines [] = []
  filled_lines ((t, cs) ∷ rest) =
      if is_empty cs then filled_lines rest else section_lines (t, cs) ++ filled_lines rest

  -- `ContextPacket.render` on the sections
  unfoldable pub render : SectionTable → Text
  unfolding candidate_label
  render sections = strip (join newline (filled_lines (sorted before_section sections)))

abbrev pub Rejection : Type 0
Rejection = InjectionCandidate × String

-- the loop that pops candidates; the selection comes last element first
unfoldable pub pop_while :
    (List InjectionCandidate → Bool)
    → List InjectionCandidate
    → List Rejection
    → List InjectionCandidate × List Rejection
pop_while is_over [] rejected = ([], rejected)
pop_while is_over (c ∷ before) rejected = elim (is_over (reverse (c ∷ before))) [
  | true ↦ pop_while is_over before (rejected ++ (c, "final-render-budget-exceeded") ∷ [])
  | false ↦ (reverse (c ∷ before), rejected)
]

pub record ContextPacket : Type 0 where
  pub sections : SectionTable
  pub injected : List InjectionCandidate
  pub rejected : List Rejection
  pub conflict_decisions : List ConflictDecision
  pub budget : BudgetAllocation
  pub total_tokens : ℕ

module _ (two_decimals : ℕ → Text) where
  -- the selection and the rejections after the loop
  unfoldable pub trim_selection :
      Option (Text → ℕ)
      → ℕ
      → List InjectionCandidate
      → List Rejection
      → List InjectionCandidate × List Rejection
  unfolding pop_while render_candidates
  trim_selection none total selected rejected = (selected, rejected)
  trim_selection (some counter) total selected rejected =
      pop_while (λ cs. ltb total (counter (render_candidates two_decimals cs))) (reverse selected)
        rejected

  abbrev count_tokens : Option (Text → ℕ) → List InjectionCandidate → ℕ
  count_tokens none cs = sum_by (λ c. c.token_cost) cs
  count_tokens (some counter) cs = counter (render_candidates two_decimals cs)

  unfoldable pub build_context_packet :
      List InjectionCandidate
      → List Rejection
      → List ConflictDecision
      → BudgetAllocation
      → Option (Text → ℕ)
      → ContextPacket
  unfolding trim_selection make_sections
  build_context_packet selected rejected decisions budget counter =
      let (final_selected, final_rejected) =
        trim_selection counter budget.total_budget selected rejected in
      record {
        sections = make_sections final_selected;
        injected = final_selected;
        rejected = final_rejected;
        conflict_decisions = decisions;
        budget = budget;
        total_tokens = count_tokens counter final_selected;
      }
