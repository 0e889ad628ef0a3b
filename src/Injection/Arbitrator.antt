-- ===== src/Injection/Arbitrator.antt =====
-- packages/pcltm/injection/arbitrator.py: from the candidates of a turn to its packet. `sha256`
-- stands for the digest of the UTF-8 text. A candidate can come as the arguments of its
-- constructor; an argument that is missing there, a TypeError, is not modelled.
mod Tests
pub mod Dedup
pub mod Packets
use soul_llink.Base.{
  ℕ, zero, suc, Bool, true, false, List, [], ◌∷◌, ◌++◌, String, Option, none, some, if◌then◌else◌,
  contains, map, Result, ok, ◌>>=◌, filter_by,
}
use soul_llink.Base.Text.{Text, codes, join_words, text_eq}
use soul_llink.Injection.Candidate.{
  CandidateType, system, core_identity, runtime_mode, active_dialogue, current_task,
  persona_emotion, session_spine, episodic_memory, semantic_memory, procedural_skill,
  background_context, InjectionCandidate, CandidateArguments, make_candidate,
}
use soul_llink.Injection.Conflict.{ConflictDecision, is_rejected, filter_candidates}
use soul_llink.Injection.Budget.{BudgetManager, make_budget, select_within_budgets}
use soul_llink.Injection.Packet.{Rejection, ContextPacket, build_context_packet}

pub data CandidateInput : Type 0 where
  candidate : InjectionCandidate → CandidateInput
  mapping : CandidateArguments → CandidateInput

-- `normalize_candidate`
unfoldable pub normalize_candidate : CandidateInput → Result InjectionCandidate
unfolding make_candidate
normalize_candidate (candidate c) = ok c
normalize_candidate (mapping a) = make_candidate a

unfoldable pub normalize_candidates : List CandidateInput → Result (List InjectionCandidate)
unfolding normalize_candidate
normalize_candidates [] = ok []
normalize_candidates (x ∷ xs) = do
  c ← normalize_candidate x
  cs ← normalize_candidates xs
  ok (c ∷ cs)

-- the value of the enumeration
abbrev pub type_value : CandidateType → String
type_value system = "system"
type_value core_identity = "core_identity"
type_value runtime_mode = "runtime_mode"
type_value active_dialogue = "active_dialogue"
type_value current_task = "current_task"
type_value persona_emotion = "persona_emotion"
type_value session_spine = "session_spine"
type_value episodic_memory = "episodic_memory"
type_value semantic_memory = "semantic_memory"
type_value procedural_skill = "procedural_skill"
type_value background_context = "background_context"

pub record InjectionArbitrator (F : Type 0) : Type 0 where
  pub total_budget : ℕ
  pub budget_fractions : List (CandidateType × F)
  pub allow_conflict_resolution : Bool
  pub token_counter : Text → ℕ

-- the options of a call
pub record ArbitrationOptions : Type 0 where
  pub total_budget : Option ℕ
  pub allow_conflict_resolution : Option Bool

-- the arguments of a recorded call
pub record ArbitrationInput : Type 0 where
  pub candidates : List CandidateInput
  pub total_budget : ℕ
  pub allow_conflict_resolution : Bool

module _ (sha256 : Text → Text) where
  -- `_candidate_injection_fingerprint`
  unfoldable pub fingerprint : InjectionCandidate → Text
  unfolding join_words
  fingerprint c = sha256 (codes (type_value c.type) ++ 0 ∷ join_words [] c.content)

  -- the loop of `_deduplicate_candidates`
  unfoldable pub deduplicate :
      List Text → List InjectionCandidate → List InjectionCandidate × List Rejection
  unfolding fingerprint
  deduplicate seen [] = ([], [])
  deduplicate seen (c ∷ cs) =
      let skipped = deduplicate seen cs in
      let kept = deduplicate (fingerprint c ∷ seen) cs in
      if contains seen (fingerprint c)
      then (skipped.0, (c, "duplicate-injection-fingerprint") ∷ skipped.1)
      else (c ∷ kept.0, kept.1)

-- `total_budget or self.total_budget`
abbrev pub or_budget : Option ℕ → ℕ → ℕ
or_budget none n = n
or_budget (some zero) n = n
or_budget (some (suc m)) n = suc m

abbrev pub or_allow : Option Bool → Bool → Bool
or_allow none allow = allow
or_allow (some allow) _ = allow

abbrev pub conflict_rejections : List ConflictDecision → List Rejection
conflict_rejections ds = map (λ d. (d.candidate, d.reason)) (filter_by is_rejected ds)

module _ {F : Type 0} (scale : ℕ → F → ℕ) (is_positive : F → Bool) (sha256 : Text → Text)
    (two_decimals : ℕ → Text) where
  -- the body of `arbitrate` behind the checks
  unfoldable pub arbitrate_within :
      (Text → ℕ) → Bool → BudgetManager F → List InjectionCandidate → ContextPacket
  unfolding filter_candidates deduplicate select_within_budgets build_context_packet
  arbitrate_within counter allow manager normalized =
      let (accepted, decisions) = filter_candidates allow normalized in
      let (deduped, duplicates) = deduplicate sha256 [] accepted in
      let (selected, allocation, over_budget) =
        select_within_budgets scale is_positive manager deduped in
      build_context_packet two_decimals selected
        (conflict_rejections decisions ++ duplicates ++ over_budget) decisions allocation
        (some counter)

  -- `InjectionArbitrator.arbitrate`
  unfoldable pub arbitrate :
      InjectionArbitrator F → ArbitrationOptions → List CandidateInput → Result ContextPacket
  unfolding normalize_candidates make_budget arbitrate_within
  arbitrate arbitrator options candidates = do
    normalized ← normalize_candidates candidates
    manager ← make_budget (record {
      total_budget = or_budget options.total_budget arbitrator.total_budget;
      fractions = arbitrator.budget_fractions;
      min_bucket_tokens = 1;
    })
    ok (
        arbitrate_within arbitrator.token_counter
          (or_allow options.allow_conflict_resolution arbitrator.allow_conflict_resolution) manager
          normalized)

  -- `InjectionArbitrator.replay`
  unfoldable pub replay : InjectionArbitrator F → ArbitrationInput → Result ContextPacket
  unfolding arbitrate
  replay arbitrator input =
      arbitrate arbitrator
        (record {
          total_budget = some input.total_budget;
          allow_conflict_resolution = some input.allow_conflict_resolution;
        })
        input.candidates

  -- `arbitrate_injection`, with the default fractions of the class
  unfoldable pub arbitrate_injection :
      List (CandidateType × F) → (Text → ℕ) → ArbitrationInput → Result ContextPacket
  unfolding arbitrate
  arbitrate_injection fractions counter input =
      arbitrate
        (record {
          total_budget = input.total_budget;
          budget_fractions = fractions;
          allow_conflict_resolution = false;
          token_counter = counter;
        })
        (record {
          total_budget = none;
          allow_conflict_resolution = some input.allow_conflict_resolution;
        })
        input.candidates
