-- ===== src/Session/Segments.antt =====
-- packages/pcltm/session/segmenter.py: cutting the turns of a session into segments. The loop of
-- `segment_turns` is `cut_turns` over its local variables, the record Cut. `str.lower` and the text
-- of an int are parameters; the counts in the message of an exception are left out.
pub mod Cutting
pub mod Totality
use soul_llink.Base.{
  ℕ, zero, suc, ◌+◌, ◌-◌, ◌/◌, max, Bool, true, false, not, ◌&&◌, ◌||◌, Option, none, some, List,
  [], ◌∷◌, ◌++◌, String, map, if◌then◌else◌, ltb, leb, length, is_empty, any, Result, ok, raise,
  value_error, require, ◌>>=◌, ◌>>◌,
}
use soul_llink.Base.Text.{Text, codes, occurs_in}
use soul_llink.Session.Turn.{DialogueTurn, turn_text}

pub record SegmentBoundary : Type 0 where
  pub segment_id : ℕ
  pub start_turn : ℕ
  pub end_turn : ℕ
  pub reason : String
  pub raw_message_refs : List Text

-- the numbers of `range(start, start + count)`
abbrev pub range_from : ℕ → ℕ → List ℕ
range_from start zero = []
range_from start (suc count) = start ∷ range_from (suc start) count

unfoldable pub rough_token_count : DialogueTurn → ℕ
rough_token_count turn = max 1 (length (turn_text turn) / 4)

abbrev pub event_markers : List String
event_markers =
    "阶段" ∷ "phase" ∷ "下一步" ∷ "next" ∷ "停" ∷ "暂停" ∷ "撤销" ∷ "回滚" ∷ "完成后提交" ∷ "commit" ∷ "验收"
    ∷ "acceptance" ∷ []

-- the local variables of the loop; `index` is that of the next turn
pub record Cut : Type 0 where
  pub boundaries : List SegmentBoundary
  pub start : ℕ
  pub token_count : ℕ
  pub index : ℕ

abbrev pub next_segment : Cut → List SegmentBoundary → Cut
next_segment s boundaries = record {
  boundaries = boundaries;
  start = s.index + 1;
  token_count = 0;
  index = s.index + 1;
}

-- `max_tokens_per_segment is not None and count > max_tokens_per_segment`
abbrev pub is_over : Option ℕ → ℕ → Bool
is_over none count = false
is_over (some n) count = ltb n count

-- `max_tokens_per_segment is not None and token_count >= max_tokens_per_segment`
abbrev pub is_full : Option ℕ → ℕ → Bool
is_full none count = false
is_full (some n) count = leb n count

-- `max_tokens_per_segment is None or max_tokens_per_segment > 0`
abbrev pub is_valid_limit : Option ℕ → Bool
is_valid_limit none = true
is_valid_limit (some n) = ltb 0 n

module _ (lower : Text → Text) (show : ℕ → Text) where
  -- `tuple(f"turn:{i}" for i in range(start_turn, end_turn))`
  unfoldable pub turn_refs : ℕ → ℕ → List Text
  turn_refs start_turn end_turn =
      map (λ i. codes "turn:" ++ show i) (range_from start_turn (end_turn - start_turn))

  -- `SegmentBoundary(...)` without references, with `__post_init__`
  unfoldable pub make_boundary : ℕ → ℕ → ℕ → String → Result SegmentBoundary
  make_boundary segment_id start_turn end_turn reason = do
    require (leb start_turn end_turn) (value_error "end_turn must be >= start_turn")
    ok (record {
      segment_id = segment_id;
      start_turn = start_turn;
      end_turn = end_turn;
      reason = reason;
      raw_message_refs = turn_refs start_turn end_turn;
    })

  -- `boundaries.append(SegmentBoundary(segment_id=len(boundaries) + 1, ...))`
  unfoldable pub append_boundary :
      List SegmentBoundary → ℕ → ℕ → String → Result (List SegmentBoundary)
  append_boundary boundaries start_turn end_turn reason = do
    boundary ← make_boundary (length boundaries + 1) start_turn end_turn reason
    ok (boundaries ++ boundary ∷ [])

  unfoldable pub looks_like_event_boundary : DialogueTurn → Bool
  looks_like_event_boundary turn =
      any
        (λ marker.
          occurs_in (codes marker) (lower turn.user)
          || occurs_in (codes marker) (lower turn.assistant))
        event_markers

  module _ (max_turns : ℕ) (max_tokens : Option ℕ) (event_boundaries : Bool) where
    abbrev pub event_hit : Cut → DialogueTurn → Bool
    event_hit s turn = event_boundaries && ltb s.start s.index && looks_like_event_boundary turn

    -- `"event_boundary" if event_hit else "token_boundary"`
    abbrev pub reason_of : Cut → DialogueTurn → String
    reason_of s turn = if event_hit s turn then "event_boundary" else "token_boundary"

    -- `if turn_limit_hit or token_limit_hit or event_hit`, with the tokens of the turn counted
    unfoldable pub close_segment : Cut → DialogueTurn → ℕ → Result Cut
    close_segment s turn tokens =
        if leb max_turns (s.index + 1 - s.start) || is_full max_tokens tokens || event_hit s turn
        then (append_boundary s.boundaries s.start (s.index + 1) (reason_of s turn)
            >>= λ boundaries. ok (next_segment s boundaries))
        else ok (record s { token_count = tokens; index = s.index + 1 })

    -- one round of the loop
    unfoldable pub cut_turn : Cut → DialogueTurn → Result Cut
    cut_turn s turn = do
      require (not (is_over max_tokens (rough_token_count turn)))
          (value_error "single turn exceeds max_tokens_per_segment")
      close_segment s turn (s.token_count + rough_token_count turn)

    unfoldable pub cut_turns : Cut → List DialogueTurn → Result Cut
    cut_turns s [] = ok s
    cut_turns s (turn ∷ turns) = cut_turn s turn >>= λ s'. cut_turns s' turns

    -- `if start < len(turns)`
    unfoldable pub close_tail : ℕ → Cut → Result (List SegmentBoundary)
    close_tail count s =
        if ltb s.start count
        then append_boundary s.boundaries s.start count "tail"
        else ok s.boundaries

    -- the loop, and what follows it
    unfoldable pub cut_all : List DialogueTurn → Result (List SegmentBoundary)
    cut_all turns = do
      s ← cut_turns (record { boundaries = []; start = 0; token_count = 0; index = 0 }) turns
      close_tail (length turns) s

    unfoldable pub segment_turns : List DialogueTurn → Result (List SegmentBoundary)
    segment_turns turns = do
      require (ltb 0 max_turns) (value_error "max_turns_per_segment must be positive")
      require (is_valid_limit max_tokens) (value_error "max_tokens_per_segment must be positive")
      if is_empty turns then ok [] else cut_all turns
