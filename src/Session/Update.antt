-- ===== src/Session/Update.antt =====
-- packages/pcltm/state/update_active_dialogue.py: the next dialogue state after a turn.
-- settle_task is the choice of the task, the goal and the threads in `update_active_dialogue`.
-- `str.lower` and `str.replace` are parameters.
pub mod Keeping
use soul_llink.Base.{
  ℕ, ◌-◌, Bool, not, ◌&&◌, Option, none, some, List, [], ◌∷◌, ◌++◌, String, if◌then◌else◌, length,
  is_empty, contains, any, take, drop,
}
use soul_llink.Base.Text.{Text, codes, occurs_in, text_eq}
use soul_llink.Session.Turn.{DialogueTurn, clean_text, words_of, contains_any}
use soul_llink.Session.Dialogue.{
  ActiveDialogueState, DialogueDict, or_default, make_state, blank_state, with_updates,
  is_empty_state, render,
}

abbrev pub continuation_markers : List String
continuation_markers =
    "继续" ∷ "接着" ∷ "刚才" ∷ "刚刚" ∷ "那个" ∷ "这个" ∷ "上面" ∷ "上述" ∷ "按上面的做" ∷ "照这个做" ∷ "do it" ∷ "continue"
    ∷ "go on" ∷ "that one" ∷ "the above" ∷ []

abbrev pub interruption_markers : List String
interruption_markers = "顺便" ∷ "插一句" ∷ "先问个" ∷ "先打断" ∷ "另一个问题" ∷ "off-topic" ∷ "by the way" ∷ []

abbrev pub constraint_markers : List String
constraint_markers =
    "不要" ∷ "禁止" ∷ "必须" ∷ "先" ∷ "只" ∷ "不能" ∷ "直接" ∷ "完成后" ∷ "do not" ∷ "must" ∷ "only" ∷ []

abbrev pub question_markers : List String
question_markers = "?" ∷ "？" ∷ "确认" ∷ "要不要" ∷ "是否" ∷ "吗" ∷ "么" ∷ []

abbrev pub commitment_markers : List String
commitment_markers =
    "我会" ∷ "我先" ∷ "接下来" ∷ "我将" ∷ "我来" ∷ "会先" ∷ "完成后" ∷ "will" ∷ "I'll" ∷ "I will" ∷ []

abbrev pub scope_correction_markers : List String
scope_correction_markers = "撤销" ∷ "回滚" ∷ "取消" ∷ "不要" ∷ "别继续" ∷ "revert" ∷ "cancel" ∷ []

-- `any(marker in text for marker in markers)`
unfoldable pub has_marker : Text → List String → Bool
has_marker text markers = any (λ marker. occurs_in (codes marker) text) markers

-- `xs[-n:]`
abbrev pub last_items {ℓ} : {A : Type ℓ} → ℕ → List A → List A
last_items n xs = drop (length xs - n) xs

-- `_first_sentence` and its use in `_append_unique`
unfoldable pub add_item : List Text → Text → List Text
add_item out value =
    let item = clean_text 180 value in
    if not (is_empty item) && not (contains out item) then out ++ item ∷ [] else out

unfoldable pub add_items : List Text → List Text → List Text
add_items out [] = out
add_items out (value ∷ values) = add_items (add_item out value) values

-- `_append_unique` with `max_items=4`
unfoldable pub append_unique : List Text → Text → List Text
append_unique values value = last_items 4 (add_item (add_items [] values) value)

unfoldable pub extract_pending_questions : Text → Text → List Text → List Text
extract_pending_questions user_text assistant_text previous =
    let asked =
      if has_marker user_text question_markers
      then append_unique previous user_text
      else previous in
    last_items 4 (
      if has_marker assistant_text question_markers
      then append_unique asked assistant_text
      else if not (is_empty user_text) && not (is_empty asked)
      then last_items 2 asked
      else asked)

-- the task, the goal and the threads
pub record Focus : Type 0 where
  pub goal : Text
  pub task : Text
  pub threads : List Text

abbrev pub focus_of : ActiveDialogueState → Focus
focus_of s = record { goal = s.conversation_goal; task = s.current_task; threads = s.open_threads }

module _ (lower : Text → Text) where
  unfoldable pub is_continuation_request : Text → Bool
  is_continuation_request text =
      not (is_empty (lower (words_of text)))
      && contains_any lower (words_of text) continuation_markers

  unfoldable pub is_side_interruption : Text → Bool
  is_side_interruption text = contains_any lower (words_of text) interruption_markers

  unfoldable pub is_scope_correction : Text → Bool
  is_scope_correction user_text =
      is_continuation_request user_text && contains_any lower user_text scope_correction_markers

  unfoldable pub extract_constraints : Text → List Text → List Text
  extract_constraints text previous =
      if contains_any lower text constraint_markers then append_unique previous text else previous

  unfoldable pub extract_commitment : Text → Text
  extract_commitment assistant_text =
      let text = clean_text 220 assistant_text in
      if contains_any lower text commitment_markers then text else take 220 text

  -- `if user_text: ...`
  unfoldable pub settle_task : Focus → Text → Focus
  settle_task f user_text =
      if is_empty user_text
      then f
      else if is_continuation_request user_text
          && not (is_empty f.task)
          && not (is_scope_correction user_text)
      then f
      else if is_side_interruption user_text && not (is_empty f.task)
      then record f { threads = append_unique f.threads user_text }
      else record {
        goal = or_default f.goal user_text;
        task = user_text;
        threads = append_unique f.threads user_text;
      }

  unfoldable pub hint_for : Text → Text → Text
  hint_for task user_text =
      if is_empty task
      then codes "等待用户给出当前任务。"
      else if is_continuation_request user_text
      then codes "将“" ++ user_text ++ codes "”解析为继续当前任务：" ++ task
      else codes "继续围绕当前任务推进：" ++ task

  -- the rest of `update_active_dialogue`, where a text is not empty
  unfoldable pub next_state : ActiveDialogueState → Text → Text → Text → ActiveDialogueState
  next_state s user_text assistant_text mode =
      let focus = settle_task (focus_of s) user_text in
      make_state (record {
        conversation_goal = focus.goal;
        current_task = focus.task;
        last_user_intent = or_default user_text s.last_user_intent;
        last_assistant_commitment =
            or_default (extract_commitment assistant_text) s.last_assistant_commitment;
        open_threads = focus.threads;
        pending_questions = extract_pending_questions user_text assistant_text s.pending_questions;
        local_constraints = extract_constraints user_text s.local_constraints;
        response_mode = mode;
        continuation_hint = hint_for focus.task user_text;
      })

  -- `state.with_updates(response_mode=mode)`
  abbrev pub set_mode : Text → DialogueDict → DialogueDict
  set_mode mode d = record d { mode_entry = some mode }

  -- with the mode and the state in place of None
  unfoldable pub update_state : ActiveDialogueState → DialogueTurn → Text → ActiveDialogueState
  update_state s turn mode =
      let user_text = clean_text 220 turn.user in
      let assistant_text = clean_text 220 turn.assistant in
      if is_empty user_text && is_empty assistant_text
      then with_updates (set_mode mode) s
      else next_state s user_text assistant_text mode

  -- `response_mode or default`
  abbrev pub mode_or : Option Text → Text → Text
  mode_or none default = default
  mode_or (some mode) default = or_default mode default

  unfoldable pub update_active_dialogue :
      Option ActiveDialogueState → DialogueTurn → Option Text → ActiveDialogueState
  update_active_dialogue none turn mode =
      let s = blank_state (mode_or mode (codes "work")) in
      update_state s turn (mode_or mode s.response_mode)
  update_active_dialogue (some s) turn mode = update_state s turn (mode_or mode s.response_mode)

  -- the loop of `update_from_turns`
  unfoldable pub update_turns : ActiveDialogueState → List DialogueTurn → Text → ActiveDialogueState
  update_turns s [] mode = s
  update_turns s (turn ∷ turns) mode =
      update_turns (update_active_dialogue (some s) turn (some mode)) turns mode

  unfoldable pub update_from_turns :
      List DialogueTurn → Option ActiveDialogueState → Text → ActiveDialogueState
  update_from_turns turns none mode = update_turns (blank_state mode) turns mode
  update_from_turns turns (some s) mode = update_turns s turns mode

module _ (replace : Text → Text → Text → Text) where
  unfoldable pub inject_active_dialogue_state : Text → Option ActiveDialogueState → Text
  inject_active_dialogue_state prompt none = prompt
  inject_active_dialogue_state prompt (some s) =
      if is_empty_state s
      then prompt
      else if is_empty prompt
      then render replace s
      else render replace s ++ codes "\n" ++ prompt
