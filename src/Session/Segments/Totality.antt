-- ===== src/Session/Segments/Totality.antt =====
-- The loop of `segment_turns` in packages/pcltm/session/segmenter.py: it cuts all turns into
-- segments, or meets a turn that is too long.
use soul_llink.Base.{
  ℕ, ◌+◌, ◌-◌, ◌≤◌, ◌<◌, ◌≡◌, refl, sym, ap, ◌∙◌, ◌⊎◌, inl, inr, Bool, true, false, ◌||◌, Option,
  List, [], ◌∷◌, ◌++◌, arith, leb, lt→ltb, length, All, any, length-append, sum_by-append,
  Bool-cases, Result, ok, ◌>>=◌, All-append,
}
use soul_llink.Base.Text.{Text}
use mathlib.Core.Path.{subst}
use mathlib.Core.List.{append_assoc, append-nil}
use soul_llink.Session.Turn.{DialogueTurn}
use soul_llink.Session.Segments.{
  SegmentBoundary, rough_token_count, Cut, is_over, is_full, is_valid_limit,
  looks_like_event_boundary, event_hit, reason_of, next_segment, close_segment, cut_turn, cut_turns,
  close_tail, cut_all, segment_turns,
}
use soul_llink.Session.Segments.Cutting.{
  tokens_of, behind_first, too_long, is_full_zero, IsUnfinished, IsClosedBy, IsSegmented, finished,
  segment, boundary_of, IsOpen, IsUnfinished-init, append_boundary_lem, Outcome, IsSegment-of,
  close_tail-empty, close_tail-open,
}

split_last :
    (turn : DialogueTurn) (turns : List DialogueTurn)
    → (first : List DialogueTurn) × (last : DialogueTurn) × (turn ∷ turns ≡ first ++ last ∷ [])
split_last turn [] = ([], turn, refl)
split_last turn (next ∷ turns) =
    let (first, last, e) = split_last next turns in (turn ∷ first, last, ap (λ l. turn ∷ l) e)

length-snoc :
    (turns : List DialogueTurn) (t : DialogueTurn) → length (turns ++ t ∷ []) ≡ length turns + 1
length-snoc turns t = length-append turns (t ∷ [])

tokens_of-snoc :
    (turns : List DialogueTurn) (t : DialogueTurn)
    → tokens_of (turns ++ t ∷ []) ≡ tokens_of turns + rough_token_count t
tokens_of-snoc turns t = omega (arith, sum_by-append {0} rough_token_count turns (t ∷ []))

module _ (lower : Text → Text) (show : ℕ → Text) (max_turns : ℕ) (max_tokens : Option ℕ)
    (event_boundaries : Bool) where
  abbrev closes : Cut → DialogueTurn → Bool
  closes s t =
      leb max_turns (s.index + 1 - s.start)
      || is_full max_tokens (s.token_count + rough_token_count t)
      || event_hit lower show max_turns max_tokens event_boundaries s t

  -- The segment that a turn closes, and the variables behind it.
  abbrev segment_at : Cut → DialogueTurn → SegmentBoundary
  segment_at s t =
      boundary_of lower show max_turns max_tokens event_boundaries (length s.boundaries + 1) s.start
        (s.index + 1) (reason_of lower show max_turns max_tokens event_boundaries s t)

  abbrev cut_off : Cut → DialogueTurn → Cut
  cut_off s t = next_segment s (s.boundaries ++ segment_at s t ∷ [])

  abbrev added : Cut → DialogueTurn → Cut
  added s t = record s { token_count = s.token_count + rough_token_count t; index = s.index + 1 }

  -- The rest of the call, from the turns that are left.
  abbrev finish : ℕ → Cut → List DialogueTurn → Result (List SegmentBoundary)
  finish count s turns =
      cut_turns lower show max_turns max_tokens event_boundaries s turns
      >>= close_tail lower show max_turns max_tokens event_boundaries count

  abbrev After :
      Cut → List DialogueTurn → List DialogueTurn → Result (List SegmentBoundary) → Type 0
  After = Outcome lower show max_turns max_tokens event_boundaries

  finish-over :
      (count : ℕ) (s : Cut) (t : DialogueTurn) (turns : List DialogueTurn)
      → is_over max_tokens (rough_token_count t) ≡ true
      → finish count s (t ∷ turns) ≡ too_long
  unfolding cut_turns cut_turn
  finish-over count s t turns h = rw h

  finish-closed :
      (count : ℕ) (s : Cut) (t : DialogueTurn) (turns : List DialogueTurn)
      → is_over max_tokens (rough_token_count t) ≡ false
      → closes s t ≡ true
      → s.start ≤ s.index
      → finish count s (t ∷ turns) ≡ finish count (cut_off s t) turns
  unfolding cut_turns cut_turn close_segment
  finish-closed count s t turns h c le = rw (
    h,
    c,
    append_boundary_lem lower show max_turns max_tokens event_boundaries s.boundaries s.start
        (s.index + 1) (reason_of lower show max_turns max_tokens event_boundaries s t)
        (omega (arith, le)),
  )

  finish-added :
      (count : ℕ) (s : Cut) (t : DialogueTurn) (turns : List DialogueTurn)
      → is_over max_tokens (rough_token_count t) ≡ false
      → closes s t ≡ false
      → finish count s (t ∷ turns) ≡ finish count (added s t) turns
  unfolding cut_turns cut_turn close_segment
  finish-added count s t turns h c = rw (h, c)

  abbrev Open : Cut → List DialogueTurn → Type 0
  Open = IsOpen lower show max_turns max_tokens event_boundaries

  no_event_added :
      (s : Cut) (open_turns : List DialogueTurn) (t : DialogueTurn)
      → closes s t ≡ false
      → Open s open_turns
      → event_boundaries ≡ true
      → All
          (λ u. looks_like_event_boundary lower show u ≡ false)
          (behind_first (open_turns ++ t ∷ []))
  no_event_added s [] t c o e = tt
  no_event_added s (turn ∷ turns) t c o e =
      All-append _ turns (t ∷ []) (o.unfinished.no_event e) (ground (arith, o.counted), tt)

  -- The open segment is still unfinished with a turn that does not close it.
  Open-added :
      (s : Cut) (open_turns : List DialogueTurn) (t : DialogueTurn)
      → closes s t ≡ false
      → Open s open_turns
      → Open (added s t) (open_turns ++ t ∷ [])
  Open-added s open_turns t c o = record {
    counted = omega (arith, o.counted, length-snoc open_turns t);
    tallied = omega (arith, o.tallied, tokens_of-snoc open_turns t);
    unfinished = record {
      few_turns = ground (arith, length-snoc open_turns t, o.counted);
      few_tokens = rw (tokens_of-snoc open_turns t, ← o.tallied) (ground arith);
      no_event = no_event_added s open_turns t c o;
    };
  }

  limit_met :
      (s : Cut) (open_turns : List DialogueTurn) (t : DialogueTurn)
      → closes s t ≡ true
      → event_hit lower show max_turns max_tokens event_boundaries s t ≡ false
      → Open s open_turns
      → (max_turns ≤ length open_turns + 1)
        ⊎ (is_full max_tokens (tokens_of open_turns + rough_token_count t) ≡ true)
  limit_met s open_turns t c e o = elim (Bool-cases (leb max_turns (s.index + 1 - s.start))) [
    | inl p ↦ inl (ground (arith, o.counted))
    | inr q ↦ inr (rw (← o.tallied) (ground arith))
  ]

  -- What closes a segment is recorded as its reason.
  IsClosedBy-closes :
      (s : Cut) (open_turns : List DialogueTurn) (t : DialogueTurn) (rest : List DialogueTurn)
      → closes s t ≡ true
      → Open s open_turns
      → IsClosedBy lower show max_turns max_tokens event_boundaries open_turns t rest
          (reason_of lower show max_turns max_tokens event_boundaries s t)
  IsClosedBy-closes s open_turns t rest c o =
      elim (Bool-cases (event_hit lower show max_turns max_tokens event_boundaries s t)) [
        | inl e ↦ rw e (inl (refl, ground arith, ground (arith, o.counted), ground arith))
        | inr e ↦ rw e (inr (inl (refl, limit_met s open_turns t c e o)))
      ]

  -- A segment is cut off, and the rest of the turns has its outcome.
  After-closed :
      (s : Cut) (open_turns : List DialogueTurn) (t : DialogueTurn) (turns : List DialogueTurn)
      {r : Result (List SegmentBoundary)}
      → closes s t ≡ true
      → Open s open_turns
      → After (cut_off s t) [] turns r
      → After s open_turns (t ∷ turns) r
  After-closed s open_turns t turns c o (inl (bs, e, rest)) = inl (
    _,
    e ∙ ap ok (append_assoc s.boundaries _ bs),
    segment open_turns t turns refl
        (IsSegment-of lower show max_turns max_tokens event_boundaries s open_turns t turns
          (s.index + 1) _ (omega (arith, o.counted)) o.unfinished
          (IsClosedBy-closes s open_turns t turns c o))
        (omega (arith, o.counted))
        (subst
          (λ n.
            IsSegmented lower show max_turns max_tokens event_boundaries n (s.index + 1) turns bs)
          (omega (arith, length-append {0} s.boundaries (segment_at s t ∷ []))) rest),
  )
  After-closed s open_turns t turns c o (inr (e, h)) = inr (e, ground arith)

  After-added :
      (s : Cut) (open_turns : List DialogueTurn) (t : DialogueTurn) (turns : List DialogueTurn)
      {r : Result (List SegmentBoundary)}
      → After (added s t) (open_turns ++ t ∷ []) turns r
      → After s open_turns (t ∷ turns) r
  After-added s open_turns t turns (inl (bs, e, rest)) = inl (
    bs,
    e,
    subst
        (λ ts.
          IsSegmented lower show max_turns max_tokens event_boundaries (length s.boundaries + 1)
            s.start ts bs)
        (append_assoc open_turns (t ∷ []) turns) rest,
  )
  After-added s open_turns t turns (inr (e, h)) = inr (e, ground arith)

  close_tail-After :
      (s : Cut) (open_turns : List DialogueTurn) (count : ℕ)
      → count ≡ s.index
      → Open s open_turns
      → After s open_turns [] (close_tail lower show max_turns max_tokens event_boundaries count s)
  close_tail-After s [] count h o = inl (
    [],
    close_tail-empty lower show max_turns max_tokens event_boundaries s count
          (omega (arith, o.counted))
        ∙ ap ok (sym (append-nil s.boundaries)),
    finished,
  )
  close_tail-After s (turn ∷ turns) count h o =
      let (first, last, e) = split_last turn turns in
      subst
        (λ ts. After s ts [] (close_tail lower show max_turns max_tokens event_boundaries count s))
        (sym e)
        (close_tail-open lower show max_turns max_tokens event_boundaries s first last count
          (omega (arith, h, o.counted, ap length e, length-snoc first last))
          (IsUnfinished-init lower show max_turns max_tokens event_boundaries first last
            (subst (IsUnfinished lower show max_turns max_tokens event_boundaries) e o.unfinished)))

  finish-After :
      (s : Cut) (open_turns turns : List DialogueTurn) (count : ℕ)
      → count ≡ s.index + length turns
      → IsUnfinished lower show max_turns max_tokens event_boundaries []
      → Open s open_turns
      → After s open_turns turns (finish count s turns)
  finish-After s open_turns [] count h u o =
      unfold cut_turns in close_tail-After s open_turns count (omega (arith, h)) o
  finish-After s open_turns (t ∷ turns) count h u o =
      elim (Bool-cases (is_over max_tokens (rough_token_count t))) [
        | inl over ↦ inr (finish-over count s t turns over, rw over)
        | inr fits ↦ elim (Bool-cases (closes s t)) [
          | inl c ↦ rw (finish-closed count s t turns fits c (omega (arith, o.counted))) (
              After-closed s open_turns t turns c o (
                finish-After (cut_off s t) [] turns count (omega (arith, h)) u
                  (record { counted = omega arith; tallied = refl; unfinished = u })))
          | inr n ↦ rw (finish-added count s t turns fits n) (
              After-added s open_turns t turns (
                finish-After (added s t) (open_turns ++ t ∷ []) turns count (omega (arith, h)) u
                  (Open-added s open_turns t n o)))
        ]
      ]

  -- With positive limits, `segment_turns` either cuts all turns into segments, numbered from 1,
  -- each below the limits before its last turn and closed for the reason that it records, or some
  -- turn alone is above the token limit and it raises the exception that says so.
  pub segment_turns-IsSegmented :
      (turns : List DialogueTurn)
      → 0 < max_turns
      → is_valid_limit max_tokens ≡ true
      → ((bs : List SegmentBoundary) × (segment_turns lower show max_turns max_tokens
              event_boundaries turns
            ≡ ok bs)
          × IsSegmented lower show max_turns max_tokens event_boundaries 1 0 turns bs)
        ⊎ ((segment_turns lower show max_turns max_tokens event_boundaries turns ≡ too_long)
            × (any (λ t. is_over max_tokens (rough_token_count t)) turns ≡ true))
  unfolding segment_turns cut_all
  segment_turns-IsSegmented [] positive valid =
      rw (lt→ltb 0 max_turns positive, valid) (inl ([], refl, finished))
  segment_turns-IsSegmented (t ∷ turns) positive valid =
      rw (lt→ltb 0 max_turns positive, valid)
        (finish-After (record { boundaries = []; start = 0; token_count = 0; index = 0 }) []
          (t ∷ turns) _ (omega arith)
          (record {
            few_turns = positive;
            few_tokens = is_full_zero max_tokens valid;
            no_event = λ e. tt;
          })
          (record {
            counted = omega arith;
            tallied = refl;
            unfinished = record {
              few_turns = positive;
              few_tokens = is_full_zero max_tokens valid;
              no_event = λ e. tt;
            };
          }))
