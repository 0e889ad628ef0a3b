-- ===== src/Session/Dialogue.antt =====
-- packages/pcltm/state/active_dialogue_state.py: the short-term state of a conversation.
-- make_state is `__post_init__`. A dictionary is the record DialogueDict of its optional entries,
-- each of them text or a list of texts; of `with_updates` the keyword arguments are a function on
-- it. `str.replace` is a parameter.
pub mod Stable
pub mod Sealing
use soul_llink.Base.{
  ℕ, ◌≤◌, Bool, true, false, not, ◌&&◌, ◌||◌, Option, none, some, List, [], ◌∷◌, ◌++◌, map, String,
  if◌then◌else◌, leb, ltb, ◌==◌, length, is_empty, contains,
}
use soul_llink.Base.Sorting.{sorted}
use soul_llink.Base.Text.{Text, codes, starts_with, text_eq}
use soul_llink.Session.Turn.{clean_text}
use mathlib.Core.List.{reverse}

-- the loop of `_clean_list`, with the items that are kept so far
unfoldable pub clean_items : ℕ → ℕ → List Text → List Text → List Text
clean_items max_items max_chars cleaned [] = cleaned
clean_items max_items max_chars cleaned (value ∷ values) =
    let item = clean_text max_chars value in
    let next =
      if not (is_empty item) && not (contains cleaned item)
      then cleaned ++ item ∷ []
      else cleaned in
    let rest = clean_items max_items max_chars next values in
    if leb max_items (length next) then next else rest

-- `_clean_list`
unfoldable pub clean_list : List Text → List Text
clean_list values = clean_items 4 180 [] values

pub record ActiveDialogueState : Type 0 where
  pub conversation_goal : Text
  pub current_task : Text
  pub last_user_intent : Text
  pub last_assistant_commitment : Text
  pub open_threads : List Text
  pub pending_questions : List Text
  pub local_constraints : List Text
  pub response_mode : Text
  pub continuation_hint : Text

-- `text or default`
abbrev pub or_default : Text → Text → Text
or_default text default = if is_empty text then default else text

unfoldable pub make_state : ActiveDialogueState → ActiveDialogueState
make_state s = record {
  conversation_goal = clean_text 280 s.conversation_goal;
  current_task = clean_text 280 s.current_task;
  last_user_intent = clean_text 280 s.last_user_intent;
  last_assistant_commitment = clean_text 280 s.last_assistant_commitment;
  open_threads = clean_list s.open_threads;
  pending_questions = clean_list s.pending_questions;
  local_constraints = clean_list s.local_constraints;
  response_mode = or_default (clean_text 40 s.response_mode) (codes "work");
  continuation_hint = clean_text 280 s.continuation_hint;
}

-- `ActiveDialogueState(response_mode=...)`
unfoldable pub blank_state : Text → ActiveDialogueState
blank_state mode = make_state (record {
  conversation_goal = [];
  current_task = [];
  last_user_intent = [];
  last_assistant_commitment = [];
  open_threads = [];
  pending_questions = [];
  local_constraints = [];
  response_mode = mode;
  continuation_hint = [];
})

-- `ActiveDialogueState.is_empty`
unfoldable pub is_empty_state : ActiveDialogueState → Bool
is_empty_state s =
    is_empty s.conversation_goal
    && is_empty s.current_task
    && is_empty s.last_user_intent
    && is_empty s.last_assistant_commitment
    && is_empty s.open_threads
    && is_empty s.pending_questions
    && is_empty s.local_constraints
    && is_empty s.continuation_hint

pub record DialogueDict : Type 0 where
  pub goal_entry : Option Text
  pub task_entry : Option Text
  pub intent_entry : Option Text
  pub commitment_entry : Option Text
  pub threads_entry : Option (List Text)
  pub questions_entry : Option (List Text)
  pub constraints_entry : Option (List Text)
  pub mode_entry : Option Text
  pub hint_entry : Option Text

unfoldable pub to_dict : ActiveDialogueState → DialogueDict
to_dict s = record {
  goal_entry = some s.conversation_goal;
  task_entry = some s.current_task;
  intent_entry = some s.last_user_intent;
  commitment_entry = some s.last_assistant_commitment;
  threads_entry = some s.open_threads;
  questions_entry = some s.pending_questions;
  constraints_entry = some s.local_constraints;
  mode_entry = some s.response_mode;
  hint_entry = some s.continuation_hint;
}

-- `value.get(key, default)`
abbrev pub get_text : Option Text → Text → Text
get_text none default = default
get_text (some text) default = text

-- `_clean_list(value.get(key))`
abbrev pub get_list : Option (List Text) → List Text
get_list none = []
get_list (some values) = clean_list values

unfoldable pub from_dict : DialogueDict → ActiveDialogueState
from_dict d = make_state (record {
  conversation_goal = get_text d.goal_entry [];
  current_task = get_text d.task_entry [];
  last_user_intent = get_text d.intent_entry [];
  last_assistant_commitment = get_text d.commitment_entry [];
  open_threads = get_list d.threads_entry;
  pending_questions = get_list d.questions_entry;
  local_constraints = get_list d.constraints_entry;
  response_mode = get_text d.mode_entry (codes "work");
  continuation_hint = get_text d.hint_entry [];
})

unfoldable pub with_updates :
    (DialogueDict → DialogueDict) → ActiveDialogueState → ActiveDialogueState
with_updates updates s = from_dict (updates (to_dict s))

-- `"...".join(parts)`
abbrev pub join_with : Text → List Text → Text
join_with separator [] = []
join_with separator (part ∷ parts) =
    let rest = join_with separator parts in
    if is_empty parts then part else part ++ separator ++ rest

module _ (replace : Text → Text → Text → Text) where
  -- the loop of `redact`, with the references in order
  unfoldable pub redact_all : List (Text × Text) → Text → Text
  redact_all [] rendered = rendered
  redact_all ((raw, marker) ∷ references) rendered =
      redact_all references (if is_empty raw then rendered else replace rendered raw marker)

  unfoldable pub redact : List (Text × Text) → Text → Text
  redact references value =
      redact_all (sorted (λ a b. ltb (length b.0) (length a.0)) references) value

  unfoldable pub sealed_value : List (Text × Text) → String → Text → Text
  sealed_value references field value =
      let rendered = redact references value in
      if not (rendered == value)
        && starts_with (codes "<") rendered
        && starts_with (codes ">") (reverse rendered)
      then rendered
      else codes "<sealed_active_dialogue_" ++ codes field ++ codes ">"

  unfoldable pub sealed_list : List (Text × Text) → String → List Text → Text
  sealed_list references field values =
      join_with (codes " | ") (map (sealed_value references field) values)

  -- `if value: lines.append(f"  field: {sealed_value(field, value)}")`
  unfoldable pub value_line : List (Text × Text) → String → Text → List Text
  value_line references field value =
      if is_empty value
      then []
      else (codes "  " ++ codes field ++ codes ": " ++ sealed_value references field value) ∷ []

  unfoldable pub list_line : List (Text × Text) → String → List Text → List Text
  list_line references field values =
      if is_empty values
      then []
      else (codes "  " ++ codes field ++ codes ": " ++ sealed_list references field values) ∷ []

  abbrev pub header_lines : List String
  header_lines =
      "【active_dialogue_state】" ∷ "  scope: sealed_runtime_short_term_only"
      ∷ "  priority: before_durable_memory" ∷ "  active_turn: false" ∷ "  pending_answer: false"
      ∷ "  executable: false" ∷ "  policy: state_summary_not_chat_transcript_no_task_resurrection"
      ∷ []

  unfoldable pub render_sealed : List (Text × Text) → ActiveDialogueState → Text
  render_sealed references s = join_with (codes "\n") (
      map codes header_lines
      ++ value_line references "conversation_goal" s.conversation_goal
      ++ value_line references "current_task" s.current_task
      ++ value_line references "last_user_intent" s.last_user_intent
      ++ value_line references "last_assistant_commitment" s.last_assistant_commitment
      ++ list_line references "open_threads" s.open_threads
      ++ list_line references "pending_questions" s.pending_questions
      ++ list_line references "local_constraints" s.local_constraints
      ++ value_line references "continuation_hint" s.continuation_hint)

  -- `ActiveDialogueState.render`
  unfoldable pub render : ActiveDialogueState → Text
  render s = render_sealed [] s
