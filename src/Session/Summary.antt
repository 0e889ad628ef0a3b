-- ===== src/Session/Summary.antt =====
-- packages/pcltm/session/session_summary_chain.py: the summary of one segment. The local variables of the loop of `summarize_segment` are the record Summary,
-- and the three functions that take a step with it are the parts of its body in order.
use soul_llink.Base.{
  ℕ, ◌+◌, Bool, not, ◌&&◌, ◌||◌, List, [], ◌∷◌, ◌++◌, String, if◌then◌else◌, ◌==◌, length, is_empty,
  contains, any, filter_by, Result,
}
use soul_llink.Base.Text.{Text, codes, occurs_in, text_eq}
use soul_llink.Session.Turn.{DialogueTurn, clean_text, turn_text, contains_any}
use soul_llink.Session.Segments.{turn_refs}
use soul_llink.Session.SegmentRecord.{SessionSegment, make_segment}
use soul_llink.Session.Dialogue.{or_default}
use soul_llink.Session.Update.{last_items}

-- `[v for v in values if v]`
abbrev pub non_empty : List Text → List Text
non_empty values = filter_by (λ v. not (is_empty v)) values

-- `_append_unique`
unfoldable pub append_unique : ℕ → List Text → Text → List Text
append_unique max_items values value =
    let cleaned = clean_text 220 value in
    let output = non_empty values in
    last_items max_items (
      if not (is_empty cleaned) && not (contains output cleaned)
      then output ++ cleaned ∷ []
      else output)

-- `tuple(x for x in xs if x != item)`
abbrev pub without_item : Text → List Text → List Text
without_item item xs = filter_by (λ x. not (x == item)) xs

abbrev pub done_markers : List String
done_markers = "完成" ∷ "完工" ∷ "done" ∷ "passed" ∷ "提交" ∷ "committed" ∷ "已解决" ∷ []

abbrev pub pause_markers : List String
pause_markers = "暂停" ∷ "先停" ∷ "停停" ∷ "pause" ∷ "blocked" ∷ "等待" ∷ []

abbrev pub revoke_markers : List String
revoke_markers = "撤销" ∷ "回滚" ∷ "取消" ∷ "别继续" ∷ "revert" ∷ "cancel" ∷ []

abbrev pub decision_markers : List String
decision_markers = "决定" ∷ "采用" ∷ "不采用" ∷ "边界" ∷ "必须" ∷ "不能" ∷ "优先" ∷ "注意" ∷ []

abbrev pub commitment_markers : List String
commitment_markers = "我会" ∷ "完成" ∷ "提交" ∷ "验证" ∷ "测试" ∷ "will" ∷ "done" ∷ "passed" ∷ []

abbrev pub memory_markers : List String
memory_markers = "记住" ∷ "偏好" ∷ "以后" ∷ "用户不喜欢" ∷ "preference" ∷ "remember" ∷ []

abbrev pub verification_markers : List String
verification_markers = "passed" ∷ "通过" ∷ "验证" ∷ "测试" ∷ []

abbrev pub constraint_markers : List String
constraint_markers = "不能" ∷ "必须" ∷ "不要" ∷ "优先" ∷ "边界" ∷ []

pub record Summary : Type 0 where
  pub task : Text
  pub intent : Text
  pub decided : List Text
  pub committed : List Text
  pub unresolved : List Text
  pub completed : List Text
  pub paused : List Text
  pub revoked : List Text
  pub remembered : List Text
  pub verified : List Text
  pub asked : List Text
  pub constrained : List Text

-- `if test: xs = _append_unique(xs, value, max_items=n)`
abbrev pub note : Bool → ℕ → Text → List Text → List Text
note test max_items value xs = if test then append_unique max_items xs value else xs

module _ (lower : Text → Text) where
  -- `if turn.user: ...`
  unfoldable pub read_user : DialogueTurn → Summary → Summary
  read_user turn s = if is_empty turn.user then s else record s {
    intent = clean_text 240 turn.user;
    task = clean_text 240 turn.user;
    unresolved = append_unique 8 s.unresolved turn.user;
    asked =
        note (occurs_in (codes "?") turn.user || occurs_in (codes "？") turn.user) 4 turn.user
          s.asked;
    decided = note (contains_any lower turn.user decision_markers) 8 turn.user s.decided;
    remembered = note (contains_any lower turn.user memory_markers) 4 turn.user s.remembered;
  }

  -- `if turn.assistant: ...`
  unfoldable pub read_assistant : DialogueTurn → Summary → Summary
  read_assistant turn s = if is_empty turn.assistant then s else record s {
    committed =
        note (contains_any lower turn.assistant commitment_markers) 4 turn.assistant s.committed;
    verified =
        note (contains_any lower turn.assistant verification_markers) 4 turn.assistant s.verified;
  }

  -- `if _contains_any(text, _DONE_MARKERS): ...`
  unfoldable pub settle_done : Text → Summary → Summary
  settle_done text s =
      if contains_any lower text done_markers
      then record s {
        completed = append_unique 6 s.completed (or_default s.task text);
        unresolved = without_item (or_default s.task text) s.unresolved;
      }
      else s

  -- `revoked_task`
  unfoldable pub revoked_task : DialogueTurn → Text → Summary → Text
  revoked_task turn previous_task s =
      if not (is_empty turn.user)
        && contains_any lower turn.user revoke_markers
        && not (is_empty previous_task)
      then previous_task
      else or_default s.task (turn_text turn)

  -- `if _contains_any(text, _EXPLICIT_REVOKE_MARKERS): ...`
  unfoldable pub settle_revoked : DialogueTurn → Text → Summary → Summary
  settle_revoked turn previous_task s =
      if contains_any lower (turn_text turn) revoke_markers
      then record s {
        revoked = append_unique 6 s.revoked (revoked_task turn previous_task s);
        unresolved = without_item (revoked_task turn previous_task s) s.unresolved;
      }
      else s

  -- `if _contains_any(text, _PAUSE_MARKERS): ...`
  unfoldable pub settle_paused : Text → Summary → Summary
  settle_paused text s = record s {
    paused = note (contains_any lower text pause_markers) 6 (or_default s.task text) s.paused;
  }

  unfoldable pub note_constraints : Text → Summary → Summary
  note_constraints text s = record s {
    constrained = note (contains_any lower text constraint_markers) 4 text s.constrained;
  }

  -- one round of the loop
  unfoldable pub read_turn : Summary → DialogueTurn → Summary
  read_turn s turn =
      let text = turn_text turn in
      let settled =
        settle_paused text (settle_done text (read_assistant turn (read_user turn s))) in
      note_constraints text (settle_revoked turn s.task settled)

  unfoldable pub read_turns : Summary → List DialogueTurn → Summary
  read_turns s [] = s
  read_turns s (turn ∷ turns) = read_turns (read_turn s turn) turns

  abbrev pub nothing_read : Text → Summary
  nothing_read prior_task = record {
    task = clean_text 240 prior_task;
    intent = [];
    decided = [];
    committed = [];
    unresolved = [];
    completed = [];
    paused = [];
    revoked = [];
    remembered = [];
    verified = [];
    asked = [];
    constrained = [];
  }

  -- `turns and _turn_text(turns[-1])`
  unfoldable pub last_text : List DialogueTurn → Text
  last_text [] = []
  last_text (turn ∷ []) = turn_text turn
  last_text (_ ∷ next ∷ turns) = last_text (next ∷ turns)

  abbrev pub pressure : List DialogueTurn → Text
  pressure turns =
      if any (λ turn. occurs_in (codes "用户") (turn_text turn)) turns
      then codes "work-mode continuity pressure present"
      else []

  module _ (show : ℕ → Text) where
    unfoldable pub segment_of : Summary → List DialogueTurn → ℕ → ℕ → SessionSegment
    segment_of s turns segment_id start_turn =
        let refs = turn_refs lower show start_turn (start_turn + length turns) in
        record {
          segment_id = segment_id;
          start_turn = start_turn;
          end_turn = start_turn + length turns;
          raw_message_refs = refs;
          local_summary = or_default s.task (or_default s.intent (last_text turns));
          decisions = s.decided;
          commitments = s.committed;
          unresolved_items = s.unresolved;
          emotional_delta = pressure turns;
          memory_candidates = s.remembered;
          verification_notes = s.verified;
          completed_items = s.completed;
          paused_items = s.paused;
          revoked_items = s.revoked;
          current_task = s.task;
          last_user_intent = s.intent;
          open_threads = s.unresolved;
          pending_questions = s.asked;
          local_constraints = s.constrained;
          evidence = if is_empty s.verified then refs else s.verified;
        }

    unfoldable pub summarize_segment : List DialogueTurn → ℕ → ℕ → Text → Result SessionSegment
    summarize_segment turns segment_id start_turn prior_task =
        make_segment lower show
          (segment_of (read_turns (nothing_read prior_task) turns) turns segment_id start_turn)
