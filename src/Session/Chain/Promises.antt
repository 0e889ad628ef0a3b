-- ===== src/Session/Chain/Promises.antt =====
-- What `build_session_summary_chain` of packages/pcltm/session/session_summary_chain.py promises:
-- it gives a chain when the limits allow it, and the chain is bounded and says nothing twice.
use soul_llink.Base.{
  ℕ, zero, suc, ◌+◌, ◌-◌, ◌≤◌, ◌<◌, ◌≡◌, refl, inl, inr, Bool, true, false, not, ◌||◌, Option, some,
  List, [], ◌∷◌, arith, ltb, leb, lt→ltb, le→leb, length, is_empty, if◌then◌else◌, if-keeps, any,
  All, All-drop, All-filter_by, ◌==◌, contains, drop, ok, Exception, require, ◌>>=◌,
}
use soul_llink.Base.Text.{Text, text_eq}
use soul_llink.Session.Turn.{DialogueTurn}
use soul_llink.Session.Segments.{
  SegmentBoundary, segment_turns, rough_token_count, is_over, is_valid_limit,
}
use soul_llink.Session.Segments.Totality.{segment_turns-IsSegmented}
use soul_llink.Session.Dialogue.{ActiveDialogueState, or_default}
use soul_llink.Session.Update.{last_items}
use soul_llink.Session.SegmentRecord.{SessionSegment, clean_all, make_segment}
use soul_llink.Session.Summary.{non_empty, segment_of, summarize_segment}
use soul_llink.Session.Chain.{
  SessionSummaryChain, make_chain, Indexes, is_settled, index_segments, no_items,
  chain_from_segments, empty_chain, slice, build_segments, state_or, build_chain,
  build_session_summary_chain,
}
use soul_llink.Session.Chain.Settled.{
  IsClean, clean_all-IsClean, IsCleanSegment, not_contains, differs, index_segments-IsSettledIndex,
  clean_all-clean,
}

-- No unresolved item of a chain is listed as completed, paused or revoked.
abbrev pub IsApart : SessionSummaryChain → Type 0
IsApart c =
    All
      (λ x.
        (contains c.completed_index x || contains c.paused_index x || contains c.revoked_index x)
        ≡ false)
      c.unresolved_index

-- The chain of so many turns, with at most so many segments.
pub record IsPromised (count max_segments : ℕ) (c : SessionSummaryChain) : Type 0 where
  pub apart : IsApart c
  pub bounded : length c.segments ≤ max_segments
  pub counted : c.source_turn_count ≡ count

length-drop : {A : Type 0} (n : ℕ) (xs : List A) → length (drop n xs) ≡ length xs - n
length-drop zero xs = omega arith
length-drop (suc n) [] = omega arith
length-drop (suc n) (x ∷ xs) = omega (arith, length-drop n xs)

length-last_items : {A : Type 0} (n : ℕ) (xs : List A) → length (last_items n xs) ≤ n
length-last_items n xs = omega (arith, length-drop (length xs - n) xs)

contains-non_empty :
    (xs : List Text) (x : Text) → contains xs x ≡ false → contains (non_empty xs) x ≡ false
contains-non_empty xs x h =
    not_contains (non_empty xs) x
      (All-filter_by (λ y. (x == y) ≡ false) (λ v. not (is_empty v)) xs (differs xs x h))

contains-clean_all :
    (xs : List Text) (x : Text)
    → All IsClean xs
    → contains xs x ≡ false
    → contains (clean_all xs) x ≡ false
contains-clean_all xs x c h = rw (clean_all-clean xs c) (contains-non_empty xs x h)

-- The constructor keeps the unresolved items apart.
still_apart :
    (i : Indexes) (xs : List Text)
    → All IsClean i.completed
    → All IsClean i.paused
    → All IsClean i.revoked
    → All (λ x. is_settled i x ≡ false) xs
    → All
        (λ x.
          (contains (clean_all i.completed) x
            || contains (clean_all i.paused) x
            || contains (clean_all i.revoked) x)
          ≡ false)
        xs
still_apart i [] p q r h = tt
still_apart i (x ∷ xs) p q r h = (
  ground (
    arith,
    contains-clean_all i.completed x,
    contains-clean_all i.paused x,
    contains-clean_all i.revoked x,
  ),
  still_apart i xs p q r h.1,
)

chain_from_segments-IsPromised :
    (segments : List SessionSegment) (session_id : Text) (state : Option ActiveDialogueState)
    (count segment_size max_segments : ℕ)
    → 0 < max_segments
    → All IsCleanSegment segments
    → IsPromised count max_segments
        (chain_from_segments segments session_id state count segment_size max_segments)
unfolding chain_from_segments make_chain
chain_from_segments-IsPromised segments session_id state count segment_size max_segments h c =
    let s =
      index_segments-IsSettledIndex segments no_items c
        (record { apart = tt; clean = (tt, tt, tt, tt) }) in
    record {
      apart = rw (clean_all-clean (index_segments no_items segments).unresolved s.clean.0) (
          All-filter_by _ _ _ (
            still_apart (index_segments no_items segments) _ s.clean.1 s.clean.2 s.clean.3
              s.apart));
      bounded = rw (lt→ltb 0 max_segments h) (length-last_items max_segments segments);
      counted = refl;
    }

empty_chain-IsPromised :
    (session_id : Text) (state : Option ActiveDialogueState) (segment_size max_segments : ℕ)
    → IsPromised 0 max_segments (empty_chain session_id state segment_size max_segments)
unfolding empty_chain make_chain clean_all
empty_chain-IsPromised session_id state segment_size max_segments = record {
  apart = tt;
  bounded =
      if-keeps (λ (l : List SessionSegment). length l ≤ max_segments) (ltb 0 max_segments) _ _
        (omega (arith, length-last_items {A = SessionSegment} max_segments [])) (omega arith);
  counted = refl;
}

-- A check that passes leaves what follows it.
require_passes :
    {A : Type 0} (P : A → Type 0) (b : Bool) (e : Exception) (r : A)
    → b ≡ true
    → P r
    → (s : A) × ((require b e >>= λ _. ok r) ≡ ok s) × P s
require_passes P true e r h p = (r, refl, p)
require_passes P false e r h p = cc

module _ (lower : Text → Text) (show : ℕ → Text) where
  -- A segment of at least no turns is made.
  summarize_segment_total :
      (turns : List DialogueTurn) (segment_id start_turn : ℕ) (prior_task : Text)
      → (s : SessionSegment) × (summarize_segment lower show turns segment_id start_turn prior_task
          ≡ ok s)
        × IsCleanSegment s
  unfolding summarize_segment make_segment segment_of
  summarize_segment_total turns segment_id start_turn prior_task =
      require_passes IsCleanSegment (leb start_turn (start_turn + length turns)) _ _
        (le→leb start_turn (start_turn + length turns) (omega arith))
        (record {
          clean_completed = clean_all-IsClean _;
          clean_revoked = clean_all-IsClean _;
          clean_paused = clean_all-IsClean _;
          clean_unresolved = clean_all-IsClean _;
        })

  build_segments_total :
      (turns : List DialogueTurn) (bs : List SegmentBoundary) (prior_task : Text)
      → (segments : List SessionSegment) × (build_segments lower show turns prior_task bs
          ≡ ok segments)
        × All IsCleanSegment segments
  unfolding build_segments
  build_segments_total turns [] prior_task = ([], refl, tt)
  build_segments_total turns (b ∷ bs) prior_task =
      let (s, e, c) =
        summarize_segment_total (slice b.start_turn b.end_turn turns) b.segment_id b.start_turn
          prior_task in
      let (segments, e', c') =
        build_segments_total turns bs (or_default s.current_task prior_task) in
      (s ∷ segments, rw (e, e'), (c, c'))

  build_chain_total :
      (turns : List DialogueTurn) (state : Option ActiveDialogueState) (session_id : Text)
      (segment_size max_segments : ℕ) (max_tokens : Option ℕ) (bs : List SegmentBoundary)
      → 0 < max_segments
      → segment_turns lower show segment_size max_tokens true turns ≡ ok bs
      → (c : SessionSummaryChain) × (build_chain lower show turns state session_id segment_size
            max_segments max_tokens
          ≡ ok c)
        × IsPromised (length turns) max_segments c
  unfolding build_chain
  build_chain_total turns state session_id segment_size max_segments max_tokens bs h e =
      let (segments, e', c) = build_segments_total turns bs [] in
      (
        chain_from_segments
            (if ltb max_segments (length segments)
              then last_items max_segments segments
              else segments)
            session_id (some (state_or lower show state turns)) (length turns) segment_size
            max_segments,
        rw (e, e'),
        chain_from_segments-IsPromised _ session_id _ (length turns) segment_size max_segments h (
            if-keeps (All IsCleanSegment) (ltb max_segments (length segments)) _ _
              (All-drop IsCleanSegment _ segments c) c),
      )

  -- With positive limits and no turn above the token limit, building the chain gives one of at
  -- most so many segments that counts the turns, and no item that it lists as unresolved is listed
  -- as completed, paused or revoked.
  pub build_session_summary_chain_total :
      (turns : List DialogueTurn) (state : Option ActiveDialogueState) (session_id : Text)
      (segment_size max_segments : ℕ) (max_tokens : Option ℕ)
      → 0 < segment_size
      → 0 < max_segments
      → is_valid_limit max_tokens ≡ true
      → any (λ t. is_over max_tokens (rough_token_count t)) turns ≡ false
      → (c : SessionSummaryChain) × (build_session_summary_chain lower show turns state session_id
            segment_size max_segments max_tokens
          ≡ ok c)
        × IsPromised (length turns) max_segments c
  unfolding build_session_summary_chain
  build_session_summary_chain_total [] state session_id size most tokens h k v f = (
    empty_chain session_id state size most,
    rw (lt→ltb 0 size h, lt→ltb 0 most k),
    empty_chain-IsPromised session_id state size most,
  )
  build_session_summary_chain_total (t ∷ turns) state session_id size most tokens h k v f =
      elim (segment_turns-IsSegmented lower show size tokens true (t ∷ turns) h v) [
        | inl (bs, e, _) ↦
            rw (lt→ltb 0 size h, lt→ltb 0 most k)
              (build_chain_total (t ∷ turns) state session_id size most tokens bs k e)
        | inr (_, over) ↦ cc
      ]
