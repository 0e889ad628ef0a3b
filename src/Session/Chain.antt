-- ===== src/Session/Chain.antt =====
-- packages/pcltm/session/session_summary_chain.py: the chain of the segments of a session,.
-- make_chain is
-- `__post_init__`; the loops of `_chain_from_segments` are functions of the record Indexes. A
-- limit or size is a natural, where 0 stands for any int that is not positive.
pub mod Settled
pub mod Promises
use soul_llink.Base.{
  ℕ, zero, suc, ◌+◌, ◌-◌, Bool, true, not, ◌&&◌, ◌||◌, Option, none, some, List, [], ◌∷◌, ◌++◌, map,
  String, if◌then◌else◌, ltb, leb, length, is_empty, contains, take, drop, filter_by, Result, ok,
  raise, value_error, require, ◌>>=◌, ◌>>◌,
}
use soul_llink.Base.Text.{Text, codes, strip, text_eq, starts_with}
use soul_llink.Session.Turn.{DialogueTurn, clean_text}
use soul_llink.Session.Segments.{SegmentBoundary, segment_turns}
use soul_llink.Session.Dialogue.{ActiveDialogueState, or_default, join_with}
use soul_llink.Session.Update.{last_items, update_from_turns}
use soul_llink.Session.SegmentRecord.{SessionSegment, clean_all}
use soul_llink.Session.Summary.{append_unique, without_item, summarize_segment}
use mathlib.Core.List.{reverse}

pub record SessionSummaryChain : Type 0 where
  pub session_id : Text
  pub segments : List SessionSegment
  pub current_spine : Text
  pub unresolved_index : List Text
  pub decision_index : List Text
  pub commitment_index : List Text
  pub completed_index : List Text
  pub paused_index : List Text
  pub revoked_index : List Text
  pub active_dialogue_state : Option ActiveDialogueState
  pub source_turn_count : ℕ
  pub segment_size : ℕ
  pub max_segments : ℕ

-- `f(segments[-1]) if segments else ""`
unfoldable pub of_last : (SessionSegment → Text) → List SessionSegment → Text
of_last f [] = []
of_last f (s ∷ []) = f s
of_last f (_ ∷ s ∷ segments) = of_last f (s ∷ segments)

-- `state.current_task`, empty without a state
abbrev pub task_of : Option ActiveDialogueState → Text
task_of none = []
task_of (some s) = s.current_task

-- `SessionSummaryChain.current_task`
unfoldable pub chain_task : SessionSummaryChain → Text
chain_task c =
    or_default c.current_spine
      (or_default (task_of c.active_dialogue_state) (of_last (λ s. s.current_task) c.segments))

unfoldable pub make_chain : SessionSummaryChain → SessionSummaryChain
make_chain c =
    let kept = record c {
      segments = if ltb 0 c.max_segments then last_items c.max_segments c.segments else c.segments;
    } in
    record kept {
      current_spine = or_default kept.current_spine (chain_task kept);
      unresolved_index = clean_all c.unresolved_index;
      decision_index = clean_all c.decision_index;
      commitment_index = clean_all c.commitment_index;
      completed_index = clean_all c.completed_index;
      paused_index = clean_all c.paused_index;
      revoked_index = clean_all c.revoked_index;
    }

-- the local variables of `_chain_from_segments`
pub record Indexes : Type 0 where
  pub unresolved : List Text
  pub decisions : List Text
  pub commitments : List Text
  pub completed : List Text
  pub paused : List Text
  pub revoked : List Text

unfoldable pub complete_item : Indexes → Text → Indexes
complete_item i item = record i {
  completed = append_unique 8 i.completed item;
  unresolved = without_item item i.unresolved;
}

unfoldable pub revoke_item : Indexes → Text → Indexes
revoke_item i item = record i {
  revoked = append_unique 8 i.revoked item;
  unresolved = without_item item i.unresolved;
}

unfoldable pub pause_item : Indexes → Text → Indexes
pause_item i item = record i {
  paused = append_unique 8 i.paused item;
  unresolved = without_item item i.unresolved;
}

-- `item in completed or item in paused or item in revoked`
abbrev pub is_settled : Indexes → Text → Bool
is_settled i item = contains i.completed item || contains i.paused item || contains i.revoked item

unfoldable pub open_item : Indexes → Text → Indexes
open_item i item =
    if is_settled i item then i else record i { unresolved = append_unique 8 i.unresolved item }

unfoldable pub decide_item : Indexes → Text → Indexes
decide_item i item = record i { decisions = append_unique 8 i.decisions item }

unfoldable pub commit_item : Indexes → Text → Indexes
commit_item i item = record i { commitments = append_unique 8 i.commitments item }

-- `for item in items: ...`
unfoldable pub each_item : (Indexes → Text → Indexes) → Indexes → List Text → Indexes
each_item step i [] = i
each_item step i (item ∷ items) = each_item step (step i item) items

-- one round of the loop over the segments
unfoldable pub index_segment : Indexes → SessionSegment → Indexes
index_segment i s =
    let completed = each_item complete_item i s.completed_items in
    let revoked = each_item revoke_item completed s.revoked_items in
    let paused = each_item pause_item revoked s.paused_items in
    let opened = each_item open_item paused s.unresolved_items in
    let decided = each_item decide_item opened s.decisions in
    each_item commit_item decided s.commitments

unfoldable pub index_segments : Indexes → List SessionSegment → Indexes
index_segments i [] = i
index_segments i (s ∷ segments) = index_segments (index_segment i s) segments

abbrev pub no_items : Indexes
no_items = record {
  unresolved = [];
  decisions = [];
  commitments = [];
  completed = [];
  paused = [];
  revoked = [];
}

-- `_chain_from_segments`
unfoldable pub chain_from_segments :
    List SessionSegment → Text → Option ActiveDialogueState → ℕ → ℕ → ℕ → SessionSummaryChain
chain_from_segments segments session_id state source_turn_count segment_size max_segments =
    let i = index_segments no_items segments in
    make_chain (record {
      session_id = session_id;
      segments = segments;
      current_spine = or_default (task_of state) (
          or_default (of_last (λ s. s.current_task) segments)
            (of_last (λ s. s.local_summary) segments));
      unresolved_index = i.unresolved;
      decision_index = i.decisions;
      commitment_index = i.commitments;
      completed_index = i.completed;
      paused_index = i.paused;
      revoked_index = i.revoked;
      active_dialogue_state = state;
      source_turn_count = source_turn_count;
      segment_size = segment_size;
      max_segments = max_segments;
    })

-- `SessionSummaryChain(session_id=..., ...)` for a session without turns
unfoldable pub empty_chain : Text → Option ActiveDialogueState → ℕ → ℕ → SessionSummaryChain
empty_chain session_id state segment_size max_segments = make_chain (record {
  session_id = session_id;
  segments = [];
  current_spine = [];
  unresolved_index = [];
  decision_index = [];
  commitment_index = [];
  completed_index = [];
  paused_index = [];
  revoked_index = [];
  active_dialogue_state = state;
  source_turn_count = 0;
  segment_size = segment_size;
  max_segments = max_segments;
})

-- `turns[start:end]`
abbrev pub slice : ℕ → ℕ → List DialogueTurn → List DialogueTurn
slice start end turns = take (end - start) (drop start turns)

module _ (lower : Text → Text) (show : ℕ → Text) where
  -- the loop over the boundaries
  unfoldable pub build_segments :
      List DialogueTurn → Text → List SegmentBoundary → Result (List SessionSegment)
  build_segments turns prior_task [] = ok []
  build_segments turns prior_task (b ∷ bs) =
      summarize_segment lower show (slice b.start_turn b.end_turn turns) b.segment_id b.start_turn
        prior_task
      >>= λ s. build_segments turns (or_default s.current_task prior_task) bs >>= λ segments.
          ok (s ∷ segments)

  -- `active_dialogue_state or update_from_turns(turns)`
  unfoldable pub state_or : Option ActiveDialogueState → List DialogueTurn → ActiveDialogueState
  state_or none turns = update_from_turns lower turns none (codes "work")
  state_or (some s) turns = s

  -- the rest of `build_session_summary_chain`, where there are turns
  unfoldable pub build_chain :
      List DialogueTurn
      → Option ActiveDialogueState
      → Text
      → ℕ
      → ℕ
      → Option ℕ
      → Result SessionSummaryChain
  build_chain turns state session_id segment_size max_segments max_tokens = do
    boundaries ← segment_turns lower show segment_size max_tokens true turns
    segments ← build_segments turns [] boundaries
    ok (
        chain_from_segments
          (if ltb max_segments (length segments)
            then last_items max_segments segments
            else segments)
          session_id (some (state_or state turns)) (length turns) segment_size max_segments)

  unfoldable pub build_session_summary_chain :
      List DialogueTurn
      → Option ActiveDialogueState
      → Text
      → ℕ
      → ℕ
      → Option ℕ
      → Result SessionSummaryChain
  build_session_summary_chain turns state session_id segment_size max_segments max_tokens = do
    require (ltb 0 segment_size) (value_error "segment_size must be positive")
    require (ltb 0 max_segments) (value_error "max_segments must be positive")
    (if is_empty turns
        then ok (empty_chain session_id state segment_size max_segments)
        else build_chain turns state session_id segment_size max_segments max_tokens)

  -- `value or default` on an optional size, where 0 is false
  abbrev pub size_or : Option ℕ → ℕ → ℕ
  size_or none default = default
  size_or (some zero) default = default
  size_or (some (suc n)) default = suc n

  -- `active_dialogue_state or (existing.active_dialogue_state if existing else None)`
  abbrev pub first_state :
      Option ActiveDialogueState → Option ActiveDialogueState → Option ActiveDialogueState
  first_state none second = second
  first_state (some s) second = some s

  unfoldable pub append_turns_to_chain :
      Option SessionSummaryChain
      → List DialogueTurn
      → Option ActiveDialogueState
      → Option ℕ
      → Option ℕ
      → Result SessionSummaryChain
  append_turns_to_chain none turns state segment_size max_segments =
      build_session_summary_chain turns state (codes "current") (size_or segment_size 8)
        (size_or max_segments 12) none
  append_turns_to_chain (some c) turns state segment_size max_segments =
      build_session_summary_chain turns (first_state state c.active_dialogue_state) c.session_id
        (size_or segment_size c.segment_size) (size_or max_segments c.max_segments) none

  unfoldable pub is_summary_continuation_only : DialogueTurn → Bool
  is_summary_continuation_only turn =
      let lowered = lower (clean_text 240 turn.user) in
      contains (codes "继续" ∷ codes "继续任务" ∷ codes "continue" ∷ []) lowered
      || starts_with (codes "继续 ") lowered
