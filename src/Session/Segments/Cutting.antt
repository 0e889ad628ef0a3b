-- ===== src/Session/Segments/Cutting.antt =====
-- What the segments are: an independent description of the cut, and the proof that
-- `segment_turns` of packages/pcltm/session/segmenter.py computes one.
use soul_llink.Base.{
  ℕ, suc, ◌+◌, ◌≤◌, ◌<◌, ◌≡◌, refl, ◌⊎◌, inl, inr, Bool, true, false, Option, none, some, List, [],
  ◌∷◌, ◌++◌, String, arith, length, All, any, sum_by, length-append, sum_by-append, Result, ok,
  raise, value_error, All-init, lt→ltb, le→leb,
}
use soul_llink.Base.Text.{Text}
use mathlib.Core.List.{append-nil}
use soul_llink.Session.Turn.{DialogueTurn}
use soul_llink.Session.Segments.{
  SegmentBoundary, rough_token_count, Cut, is_over, is_full, is_valid_limit, turn_refs,
  make_boundary, append_boundary, looks_like_event_boundary, close_tail,
}

abbrev pub tokens_of : List DialogueTurn → ℕ
tokens_of turns = sum_by rough_token_count turns

abbrev pub behind_first : List DialogueTurn → List DialogueTurn
behind_first [] = []
behind_first (_ ∷ turns) = turns

abbrev pub too_long : Result (List SegmentBoundary)
too_long = raise (value_error "single turn exceeds max_tokens_per_segment")

is_full_le :
    (limit : Option ℕ) (m n : ℕ) → m ≤ n → is_full limit n ≡ false → is_full limit m ≡ false
is_full_le none m n h f = refl
is_full_le (some k) m n h f = ground arith

pub is_full_zero : (limit : Option ℕ) → is_valid_limit limit ≡ true → is_full limit 0 ≡ false
is_full_zero none v = refl
is_full_zero (some k) v = ground arith

All-behind_init :
    (P : DialogueTurn → Type 0) (turns : List DialogueTurn) (last : DialogueTurn)
    → All P (behind_first (turns ++ last ∷ []))
    → All P (behind_first turns)
All-behind_init P [] last h = tt
All-behind_init P (turn ∷ turns) last h = All-init P turns (last ∷ []) h

module _ (lower : Text → Text) (show : ℕ → Text) (max_turns : ℕ) (max_tokens : Option ℕ)
    (event_boundaries : Bool) where
  -- Turns of a segment that is not complete: fewer than the limits, and no event behind the first.
  pub record IsUnfinished (open_turns : List DialogueTurn) : Type 0 where
    pub few_turns : length open_turns < max_turns
    pub few_tokens : is_full max_tokens (tokens_of open_turns) ≡ false
    pub no_event :
        event_boundaries ≡ true
        → All (λ t. looks_like_event_boundary lower show t ≡ false) (behind_first open_turns)

  -- Why a segment ends at its last turn, with the reason that is recorded.
  abbrev pub IsClosedBy : List DialogueTurn → DialogueTurn → List DialogueTurn → String → Type 0
  IsClosedBy open_turns last rest reason =
      ((reason ≡ "event_boundary")
        × (event_boundaries ≡ true)
        × (0 < length open_turns)
        × (looks_like_event_boundary lower show last ≡ true))
      ⊎ ((reason ≡ "token_boundary")
          × ((max_turns ≤ length open_turns + 1)
              ⊎ (is_full max_tokens (tokens_of open_turns + rough_token_count last) ≡ true)))
      ⊎ ((reason ≡ "tail") × (rest ≡ []))

  pub record IsSegment (segment_id start_turn : ℕ) (open_turns : List DialogueTurn)
      (last : DialogueTurn) (rest : List DialogueTurn) (b : SegmentBoundary) : Type 0 where
    pub numbered : b.segment_id ≡ segment_id
    pub starts : b.start_turn ≡ start_turn
    pub ends : b.end_turn ≡ start_turn + length open_turns + 1
    pub refers : b.raw_message_refs ≡ turn_refs lower show start_turn b.end_turn
    pub unfinished : IsUnfinished open_turns
    pub closed : IsClosedBy open_turns last rest b.reason

  -- The turns from a number on are cut into segments with ascending ids, without gap or overlap.
  pub data IsSegmented : ℕ → ℕ → List DialogueTurn → List SegmentBoundary → Type 0 where
    finished : {segment_id start_turn : ℕ} → IsSegmented segment_id start_turn [] []
    segment :
        {segment_id start_turn end_turn : ℕ} {turns : List DialogueTurn} {b : SegmentBoundary}
        {bs : List SegmentBoundary} (open_turns : List DialogueTurn) (last : DialogueTurn)
        (rest : List DialogueTurn)
        → turns ≡ open_turns ++ last ∷ rest
        → IsSegment segment_id start_turn open_turns last rest b
        → end_turn ≡ start_turn + length open_turns + 1
        → IsSegmented (suc segment_id) end_turn rest bs
        → IsSegmented segment_id start_turn turns (b ∷ bs)

  abbrev pub boundary_of : ℕ → ℕ → ℕ → String → SegmentBoundary
  boundary_of segment_id start_turn end_turn reason = record {
    segment_id = segment_id;
    start_turn = start_turn;
    end_turn = end_turn;
    reason = reason;
    raw_message_refs = turn_refs lower show start_turn end_turn;
  }

  -- The loop's variables, with the turns of the open segment.
  pub record IsOpen (s : Cut) (open_turns : List DialogueTurn) : Type 0 where
    pub counted : s.index ≡ s.start + length open_turns
    pub tallied : s.token_count ≡ tokens_of open_turns
    pub unfinished : IsUnfinished open_turns

  -- A segment that is not complete was not complete before.
  pub IsUnfinished-init :
      (open_turns : List DialogueTurn) (last : DialogueTurn)
      → IsUnfinished (open_turns ++ last ∷ [])
      → IsUnfinished open_turns
  IsUnfinished-init open_turns last u = record {
    few_turns = omega (arith, u.few_turns, length-append {0} open_turns (last ∷ []));
    few_tokens =
        is_full_le max_tokens _ _
          (omega (arith, sum_by-append {0} rough_token_count open_turns (last ∷ []))) u.few_tokens;
    no_event = λ e. All-behind_init _ open_turns last (u.no_event e);
  }

  make_boundary_lem :
      (segment_id start_turn end_turn : ℕ) (reason : String)
      → start_turn ≤ end_turn
      → make_boundary lower show segment_id start_turn end_turn reason
        ≡ ok (boundary_of segment_id start_turn end_turn reason)
  unfolding make_boundary
  make_boundary_lem i m n reason h = rw (le→leb m n h)

  pub append_boundary_lem :
      (bs : List SegmentBoundary) (start_turn end_turn : ℕ) (reason : String)
      → start_turn ≤ end_turn
      → append_boundary lower show bs start_turn end_turn reason
        ≡ ok (bs ++ boundary_of (length bs + 1) start_turn end_turn reason ∷ [])
  unfolding append_boundary
  append_boundary_lem bs m n reason h = rw (make_boundary_lem (length bs + 1) m n reason h)

  -- What the rest of the loop makes of the turns that are left.
  abbrev pub Outcome :
      Cut → List DialogueTurn → List DialogueTurn → Result (List SegmentBoundary) → Type 0
  Outcome s open_turns turns result =
      ((bs : List SegmentBoundary) × (result ≡ ok (s.boundaries ++ bs))
        × IsSegmented (length s.boundaries + 1) s.start (open_turns ++ turns) bs)
      ⊎ ((result ≡ too_long) × (any (λ t. is_over max_tokens (rough_token_count t)) turns ≡ true))

  -- A segment that is cut off stands first, and the rest follows.
  pub IsSegment-of :
      (s : Cut) (open_turns : List DialogueTurn) (last : DialogueTurn) (rest : List DialogueTurn)
      (end_turn : ℕ) (reason : String)
      → end_turn ≡ s.start + length open_turns + 1
      → IsUnfinished open_turns
      → IsClosedBy open_turns last rest reason
      → IsSegment
          (length s.boundaries + 1)
          s.start
          open_turns
          last
          rest
          (boundary_of (length s.boundaries + 1) s.start end_turn reason)
  IsSegment-of s open_turns last rest end_turn reason e u c = record {
    numbered = refl;
    starts = refl;
    ends = e;
    refers = refl;
    unfinished = u;
    closed = c;
  }

  pub close_tail-empty :
      (s : Cut) (count : ℕ)
      → count ≡ s.start
      → close_tail lower show max_turns max_tokens event_boundaries count s ≡ ok s.boundaries
  unfolding close_tail
  close_tail-empty s count h = ground arith

  pub close_tail-open :
      (s : Cut) (open_turns : List DialogueTurn) (last : DialogueTurn) (count : ℕ)
      → count ≡ s.start + length open_turns + 1
      → IsUnfinished open_turns
      → Outcome s
          (open_turns ++ last ∷ [])
          []
          (close_tail lower show max_turns max_tokens event_boundaries count s)
  unfolding close_tail
  close_tail-open s open_turns last count h u = rw (lt→ltb s.start count (omega arith)) (
      inl (
        _,
        append_boundary_lem s.boundaries s.start count "tail" (omega arith),
        segment open_turns last [] (append-nil _)
            (IsSegment-of s open_turns last [] count "tail" h u (inr (inr (refl, refl)))) h
            finished,
      ))
