-- ===== src/Recall/Tests.antt =====
-- The theorems on recall at concrete objects, windows and rows, and runs of the code.
use soul_llink.Base.{
  ℕ, ◌≤◌, ◌≡◌, refl, ◌↔◌, Bool, true, not, none, some, List, [], ◌∷◌, String, arith, length, All,
  is_some, ok,
}
use soul_llink.Base.Text.{codes, strip}
use soul_llink.Recall.Object.{
  MemoryObject, identity, user, approved, pinned, make_memory_object, matches_state,
}
use soul_llink.Recall.Selection.{explain_memory_selection, explain_state}
use soul_llink.Recall.Selection.Eligible.{IsEligible, explain_memory_selection-IsEligible}
use soul_llink.Recall.Budget.{
  ContextBudgetReport, WindowContents, ratios_or, total_ratio, get_ratio, estimate_context_budget,
}
use soul_llink.Recall.Budget.Shares.{IsAccounted, estimate_context_budget-IsAccounted}
use soul_llink.Recall.Policy.{
  EventRow, row_mode, limit_or, retrieve, decision_for, decide_for, allowed, mode_of_categories,
  legacy_mode,
}
use soul_llink.Recall.Policy.Safe.{
  IsPermitted, effective_mode, sensitivity_of, retrieve-IsPermitted,
}

-- An approved identity that is pinned for the work mode.
abbrev who : MemoryObject
who = record {
  canonical_key = codes "who";
  object_type = identity;
  content = codes "an agent";
  scope = user;
  status = approved;
  injection_policy = pinned;
  source = none;
  confidence = 10000;
  stability = 5000;
  emotional_weight = 0;
  budget_weight = 10000;
  state_affinity = record { modes = "work" ∷ []; emotion_axes = []; min_intensity = none };
  tags = [];
  conflict_keys = [];
  metadata = [];
}

who_made : make_memory_object who ≡ ok who
unfolding make_memory_object strip
who_made = refl

who_selected : (explain_memory_selection who (some "work") none (some 10000)).selected ≡ true
unfolding explain_memory_selection explain_state matches_state
who_selected = refl

explain_memory_selection-IsEligible_example :
    (((explain_memory_selection who (some "work") none (some 10000)).selected ≡ true)
      ↔ IsEligible who (some "work") none (some 10000))
    × (is_some (explain_memory_selection who (some "work") none (some 10000)).rejected_reason
        ≡ not (explain_memory_selection who (some "work") none (some 10000)).selected)
explain_memory_selection-IsEligible_example =
    explain_memory_selection-IsEligible who (some "work") none (some 10000)

abbrev small_window : WindowContents
small_window = record {
  frame = codes "frame";
  pinned_memories = who ∷ [];
  selection_decisions = explain_memory_selection who (some "work") none none ∷ [];
  memory_objects = who ∷ [];
  transcript_messages =
      record { role = codes "user"; content = codes "hello"; tool_call_id = [] } ∷ [];
  tool_messages = [];
  reference_items = [];
}

default_total : total_ratio (ratios_or none) ≡ 100
unfolding total_ratio get_ratio
default_total = refl

estimate_context_budget-IsAccounted_example :
    (r : ContextBudgetReport) × (estimate_context_budget 1000 small_window none ≡ ok r)
    × IsAccounted 1000 small_window r
estimate_context_budget-IsAccounted_example =
    estimate_context_budget-IsAccounted 1000 small_window none (omega arith)
      (omega (arith, default_total))

abbrev row_of : ℕ → String → String → EventRow
row_of event_id category sensitivity = record {
  event_id = event_id;
  subcategory = none;
  category = some category;
  sensitivity = some sensitivity;
}

-- A store with a public row of work, a secret one, and one of the relationship.
abbrev three_rows : String → ℕ → Bool → List EventRow
three_rows token limit sensitive =
    row_of 1 "work" "normal" ∷ row_of 2 "work" "secret" ∷ row_of 3 "daily" "normal" ∷ []

abbrev as_is : String → String
as_is text = text

only_public_work :
    retrieve as_is three_rows "work" "q" ("q" ∷ []) true none ≡ row_of 1 "work" "normal" ∷ []
unfolding retrieve decision_for decide_for allowed row_mode mode_of_categories legacy_mode
only_public_work = refl

retrieve-IsPermitted_example :
    All
      (λ row.
        IsPermitted (effective_mode as_is "work") (row_mode as_is row) (sensitivity_of as_is row))
      (retrieve as_is three_rows "work" "q" ("q" ∷ []) true none)
    × (length (retrieve as_is three_rows "work" "q" ("q" ∷ []) true none) ≤ limit_or none 20)
retrieve-IsPermitted_example = retrieve-IsPermitted as_is three_rows "work" "q" ("q" ∷ []) true none
