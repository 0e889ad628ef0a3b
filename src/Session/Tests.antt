-- ===== src/Session/Tests.antt =====
-- The session theorems at concrete turns, and runs of the code.
use soul_llink.Base.{
  ℕ, ◌+◌, ◌≤◌, ◌≡◌, refl, ◌⊎◌, true, false, ◌&&◌, none, some, List, [], ◌∷◌, map, String, arith,
  leb, length, contains, if◌then◌else◌, any, is_empty, ok,
}
use soul_llink.Base.Text.{Text, codes, strip, rstrip, join_words, occurs_in, starts_with, text_eq}
use soul_llink.Session.Turn.{
  DialogueTurn, words_of, clean_text, contains_any, turn_text, join_parts,
}
use soul_llink.Session.Segments.{
  SegmentBoundary, segment_turns, cut_all, cut_turns, cut_turn, close_segment, close_tail,
  append_boundary, make_boundary, turn_refs, rough_token_count, looks_like_event_boundary, is_over,
}
use soul_llink.Session.Segments.Cutting.{IsSegmented, too_long}
use soul_llink.Session.Turn.Cleaning.{clean_text_again}
use soul_llink.Session.Dialogue.{ActiveDialogueState, make_state, from_dict, to_dict, render}
use soul_llink.Session.Dialogue.Stable.{make_state_again, from_dict-to_dict_state}
use soul_llink.Session.Dialogue.Sealing.{LooksLike, render-hides}
use soul_llink.Session.Update.{update_active_dialogue, update_turns}
use soul_llink.Session.Update.Keeping.{
  IsMade, keeps_task, update_active_dialogue-task, update_turns-goal,
}
use soul_llink.Session.Summary.{
  Summary, read_turns, nothing_read, read_turn, read_user, read_assistant, settle_done,
  settle_paused, settle_revoked, revoked_task, note_constraints, append_unique,
}
use soul_llink.Session.Chain.{SessionSummaryChain, build_session_summary_chain}
use soul_llink.Session.Chain.Promises.{IsPromised, build_session_summary_chain_total}
use soul_llink.Session.Segments.Totality.{segment_turns-IsSegmented}

abbrev ascii_lower : Text → Text
ascii_lower text = map (λ c. if leb b'A' c && leb c b'Z' then c + 32 else c) text

abbrev one_digit : ℕ → Text
one_digit n = (n + 48) ∷ []

abbrev says : String → String → DialogueTurn
says user assistant = record { user = codes user; assistant = codes assistant }

abbrev three_turns : List DialogueTurn
three_turns = says "a" "b" ∷ says "NEXT" "" ∷ says "c" "" ∷ []

-- The event in the second turn ends the first segment, and the last turn is the tail.
two_segments :
    segment_turns ascii_lower one_digit 8 (some 50) true three_turns
    ≡ ok (
        record {
          segment_id = 1;
          start_turn = 0;
          end_turn = 2;
          reason = "event_boundary";
          raw_message_refs = codes "turn:0" ∷ codes "turn:1" ∷ [];
        }
        ∷ record {
          segment_id = 2;
          start_turn = 2;
          end_turn = 3;
          reason = "tail";
          raw_message_refs = codes "turn:2" ∷ [];
        }
        ∷ [])
unfolding segment_turns cut_all cut_turns cut_turn close_segment close_tail append_boundary
    make_boundary turn_refs rough_token_count looks_like_event_boundary contains_any occurs_in
    starts_with turn_text join_parts
two_segments = refl

segment_turns-IsSegmented_example :
    ((bs : List SegmentBoundary) × (segment_turns ascii_lower one_digit 8 (some 50) true three_turns
        ≡ ok bs)
      × IsSegmented ascii_lower one_digit 8 (some 50) true 1 0 three_turns bs)
    ⊎ ((segment_turns ascii_lower one_digit 8 (some 50) true three_turns ≡ too_long)
        × (any (λ t. is_over (some 50) (rough_token_count t)) three_turns ≡ true))
segment_turns-IsSegmented_example =
    segment_turns-IsSegmented ascii_lower one_digit 8 (some 50) true three_turns (omega arith) refl

-- Blanks are joined, and a long text is cut.
cleaned : clean_text 6 (codes " one  two ") ≡ codes "one t…"
unfolding clean_text words_of strip rstrip join_words
cleaned = refl

clean_text_again_example :
    (length (clean_text 6 (codes " one  two ")) ≤ 6)
    × (clean_text 9 (clean_text 6 (codes " one  two ")) ≡ clean_text 6 (codes " one  two "))
clean_text_again_example = clean_text_again 6 9 (codes " one  two ") (omega arith) (omega arith)

abbrev about : String → String → ActiveDialogueState
about goal task = record {
  conversation_goal = codes goal;
  current_task = codes task;
  last_user_intent = codes task;
  last_assistant_commitment = [];
  open_threads = codes task ∷ [];
  pending_questions = [];
  local_constraints = [];
  response_mode = codes "work";
  continuation_hint = [];
}

from_dict-to_dict_state_example :
    (from_dict (to_dict (make_state (about " fix  it" "run tests")))
      ≡ make_state (about " fix  it" "run tests"))
    × (make_state (make_state (about " fix  it" "run tests"))
        ≡ make_state (about " fix  it" "run tests"))
from_dict-to_dict_state_example = from_dict-to_dict_state (about " fix  it" "run tests")

-- Any function stands for `str.replace`.
abbrev keep_text : Text → Text → Text → Text
keep_text text raw marker = text

abbrev alike : LooksLike (about "fix it" "run tests") (about "ship it" "write docs")
alike = record {
  same_goal = refl;
  same_task = refl;
  same_intent = refl;
  same_commitment = refl;
  same_threads = refl;
  same_questions = refl;
  same_constraints = refl;
  same_hint = refl;
}

render-hides_example :
    render keep_text (about "fix it" "run tests") ≡ render keep_text (about "ship it" "write docs")
render-hides_example =
    render-hides keep_text (about "fix it" "run tests") (about "ship it" "write docs") alike

abbrev working : ActiveDialogueState
working = make_state (about "fix it" "run tests")

update_active_dialogue-task_example :
    IsMade (update_active_dialogue ascii_lower (some working) (says "go on" "") none)
    × ((update_active_dialogue ascii_lower (some working) (says "go on" "") none).current_task ≡ (
        if keeps_task ascii_lower working (clean_text 220 (codes "go on"))
        then working.current_task
        else clean_text 220 (codes "go on")))
update_active_dialogue-task_example =
    update_active_dialogue-task ascii_lower working (says "go on" "") none
      (make_state_again (about "fix it" "run tests"))

-- "go on" keeps the task, and "write docs" is a new one.
kept_task : keeps_task ascii_lower working (codes "go on") ≡ true
unfolding keeps_task make_state clean_text words_of strip join_words
    soul_llink.Session.Update.is_continuation_request soul_llink.Session.Update.is_scope_correction
    contains_any occurs_in starts_with
kept_task = refl

working_goal : is_empty working.conversation_goal ≡ false
unfolding make_state clean_text words_of strip join_words
working_goal = refl

update_turns-goal_example :
    IsMade (
      update_turns ascii_lower working
        (says "write docs" "" ∷ says "go on" "ok" ∷ [])
        (codes "work"))
    × ((update_turns ascii_lower working
          (says "write docs" "" ∷ says "go on" "ok" ∷ [])
          (codes "work")).conversation_goal
        ≡ working.conversation_goal)
update_turns-goal_example =
    update_turns-goal ascii_lower working (says "write docs" "" ∷ says "go on" "ok" ∷ [])
      (codes "work") (make_state_again (about "fix it" "run tests")) working_goal

-- No turn is above fifty tokens.
short_turns : any (λ t. is_over (some 50) (rough_token_count t)) three_turns ≡ false
unfolding rough_token_count turn_text join_parts
short_turns = refl

build_session_summary_chain_total_example :
    (c : SessionSummaryChain) × (build_session_summary_chain ascii_lower one_digit three_turns none
        (codes "current")
        8
        12
        (some 50)
      ≡ ok c)
    × IsPromised 3 12 c
build_session_summary_chain_total_example =
    build_session_summary_chain_total ascii_lower one_digit three_turns none (codes "current") 8 12
      (some 50) (omega arith) (omega arith) refl short_turns

abbrev long_turn : DialogueTurn
long_turn =
    says
      "done aaaaaaaaaaaaaaaaaaaaaaaaaaaaaaaaaaaaaaaaaaaaaaaaaaaaaaaaaaaaaaaaaaaaaaaaaaaaaaaaaaaaaaaaaaaaaaaaaaaaaaaaaaaaaaaaaaaaaaaaaaaaaaaaaaaaaaaaaaaaaaaaaaaaaaaaaaaaaaaaaaaaaaaaaaaaaaaaaaaaaaaaaaaaaaaaaaaaaaaaaaaaaaaaaaaaaaaaaaaaaaaaa"
      ""

abbrev long_summary : Summary
long_summary = read_turns ascii_lower (nothing_read ascii_lower []) (long_turn ∷ [])

-- A task of more than 220 characters that is done is listed as completed, and stays unresolved.
done_and_unresolved : any (contains long_summary.completed) long_summary.unresolved ≡ true
unfolding read_turns read_turn read_user read_assistant settle_done settle_paused settle_revoked
    revoked_task note_constraints append_unique clean_text words_of strip rstrip join_words
    contains_any occurs_in starts_with turn_text join_parts
done_and_unresolved = refl
