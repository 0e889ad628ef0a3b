-- ===== src/Session/SegmentRecord.antt =====
-- packages/pcltm/session/session_summary_chain.py: the summary of a segment as a record.
-- make_segment is `__post_init__`; its two times are `time_range`.
use soul_llink.Base.{
  ℕ, List, [], ◌∷◌, if◌then◌else◌, leb, is_empty, Result, ok, value_error, require, ◌>>◌,
}
use soul_llink.Base.Text.{Text}
use soul_llink.Session.Turn.{clean_text}
use soul_llink.Session.Segments.{turn_refs}

pub record SessionSegment : Type 0 where
  pub segment_id : ℕ
  pub start_turn : ℕ
  pub end_turn : ℕ
  pub raw_message_refs : List Text
  pub local_summary : Text
  pub decisions : List Text
  pub commitments : List Text
  pub unresolved_items : List Text
  pub emotional_delta : Text
  pub memory_candidates : List Text
  pub verification_notes : List Text
  pub completed_items : List Text
  pub paused_items : List Text
  pub revoked_items : List Text
  pub current_task : Text
  pub last_user_intent : Text
  pub open_threads : List Text
  pub pending_questions : List Text
  pub local_constraints : List Text
  pub evidence : List Text

-- `tuple(_clean_text(x, max_chars=220) for x in xs if _clean_text(x))`
unfoldable pub clean_all : List Text → List Text
clean_all [] = []
clean_all (x ∷ xs) =
    let rest = clean_all xs in if is_empty (clean_text 240 x) then rest else clean_text 220 x ∷ rest

module _ (lower : Text → Text) (show : ℕ → Text) where
  unfoldable pub make_segment : SessionSegment → Result SessionSegment
  make_segment s = do
    require (leb s.start_turn s.end_turn)
        (value_error "time_range must be a non-negative inclusive-exclusive range")
    ok (record {
      segment_id = s.segment_id;
      start_turn = s.start_turn;
      end_turn = s.end_turn;
      raw_message_refs =
          if is_empty s.raw_message_refs
          then turn_refs lower show s.start_turn s.end_turn
          else s.raw_message_refs;
      local_summary = clean_text 360 s.local_summary;
      decisions = clean_all s.decisions;
      commitments = clean_all s.commitments;
      unresolved_items = clean_all s.unresolved_items;
      emotional_delta = clean_text 360 s.emotional_delta;
      memory_candidates = clean_all s.memory_candidates;
      verification_notes = clean_all s.verification_notes;
      completed_items = clean_all s.completed_items;
      paused_items = clean_all s.paused_items;
      revoked_items = clean_all s.revoked_items;
      current_task = clean_text 360 s.current_task;
      last_user_intent = clean_text 360 s.last_user_intent;
      open_threads = clean_all s.open_threads;
      pending_questions = clean_all s.pending_questions;
      local_constraints = clean_all s.local_constraints;
      evidence = clean_all s.evidence;
    })
