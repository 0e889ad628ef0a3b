-- ===== src/Injection/Arbitrator/Packets.antt =====
-- What the packet of a turn holds, from the candidates to the rendered text.
use soul_llink.Base.{
  ℕ, ◌+◌, ◌≤◌, ◌≡◌, refl, ap, ◌⊎◌, inl, inr, Bool, List, [], ◌∷◌, ◌++◌, some, arith, All, sum_by,
  sum_by-append, Bool-cases,
}
use soul_llink.Base.Text.{Text, text_eq}
use soul_llink.Injection.Candidate.{InjectionCandidate}
use soul_llink.Injection.Conflict.{evaluate, is_rejected, filter_candidates}
use soul_llink.Injection.Conflict.Admission.{IsAdmitted, filter_candidates-IsAdmitted, evaluate-key}
use soul_llink.Injection.Budget.{BudgetManager, select_within_budgets}
use soul_llink.Injection.Budget.Limits.{select_within_budgets_conserves, select_within_budgets-All}
use soul_llink.Injection.Packet.{Rejection, build_context_packet, render_candidates}
use soul_llink.Injection.Packet.Trimming.{
  trim_selection_conserves, trim_selection_shrinks, trim_selection-All, trim_selection_fits,
}
use soul_llink.Injection.Arbitrator.{deduplicate, conflict_rejections, arbitrate_within}
use soul_llink.Injection.Arbitrator.Dedup.{
  with_fingerprint, deduplicate_conserves, deduplicate-All, deduplicate_once,
}

-- what a candidate weighs by its key, which no rule changes
abbrev key_weight : (Text → ℕ) → InjectionCandidate → ℕ
key_weight weight c = weight c.key

abbrev rejected_weight : (InjectionCandidate → ℕ) → List Rejection → ℕ
rejected_weight weight rs = sum_by (λ (c, reason). weight c) rs

-- Every candidate is accepted or stands in a rejecting decision.
filter_candidates_conserves :
    (weight : Text → ℕ) (allow : Bool) (cs : List InjectionCandidate)
    → sum_by (key_weight weight) (filter_candidates allow cs).0
        + rejected_weight (key_weight weight) (conflict_rejections (filter_candidates allow cs).1)
      ≡ sum_by (key_weight weight) cs
unfolding filter_candidates
filter_candidates_conserves weight allow [] = refl
filter_candidates_conserves weight allow (c ∷ cs) =
    elim (Bool-cases (is_rejected (evaluate allow c))) [
      | inl t ↦ rw (t) (
          omega (
            arith,
            filter_candidates_conserves weight allow cs,
            ap {B = ℕ} weight (evaluate-key allow c),
          ))
      | inr f ↦ rw (f) (
          omega (
            arith,
            filter_candidates_conserves weight allow cs,
            ap {B = ℕ} weight (evaluate-key allow c),
          ))
    ]

module _ {F : Type 0} (scale : ℕ → F → ℕ) (is_positive : F → Bool) (sha256 : Text → Text)
    (two_decimals : ℕ → Text) (counter : Text → ℕ) (allow : Bool) (manager : BudgetManager F)
    (cs : List InjectionCandidate) where
  -- Every candidate is injected or rejected with a reason, and only once: by any weight on keys,
  -- the injected and the rejected ones together weigh what the candidates weigh.
  pub arbitrate_within_conserves :
      (weight : Text → ℕ)
      → let packet =
          arbitrate_within scale is_positive sha256 two_decimals counter allow manager cs in
        sum_by (λ c. weight c.key) packet.injected
          + sum_by (λ (c, reason). weight c.key) packet.rejected
        ≡ sum_by (λ c. weight c.key) cs
  unfolding arbitrate_within build_context_packet
  arbitrate_within_conserves weight =
      let filtered = filter_candidates allow cs in
      let deduped = deduplicate sha256 [] filtered.0 in
      let chosen = select_within_budgets scale is_positive manager deduped.0 in
      let refused = conflict_rejections filtered.1 ++ deduped.1 ++ chosen.2 in
      let w = key_weight weight in
      omega (
        arith,
        trim_selection_conserves two_decimals (some counter) chosen.1.total_budget chosen.0 refused
            w,
        sum_by-append (λ (c, reason). w c) (conflict_rejections filtered.1 ++ deduped.1) chosen.2,
        sum_by-append (λ (c, reason). w c) (conflict_rejections filtered.1) deduped.1,
        select_within_budgets_conserves scale is_positive manager deduped.0 w,
        deduplicate_conserves sha256 w [] filtered.0,
        filter_candidates_conserves weight allow cs,
      )

  -- The packet reports the tokens of the text that its candidates render to. They are within the
  -- budget, unless nothing is injected.
  pub arbitrate_within_fits :
      let packet =
        arbitrate_within scale is_positive sha256 two_decimals counter allow manager cs in
      (packet.total_tokens ≡ counter (render_candidates two_decimals packet.injected))
      × ((packet.injected ≡ []) ⊎ (packet.total_tokens ≤ manager.total_budget))
  unfolding arbitrate_within build_context_packet select_within_budgets
  arbitrate_within_fits =
      let filtered = filter_candidates allow cs in
      let deduped = deduplicate sha256 [] filtered.0 in
      let chosen = select_within_budgets scale is_positive manager deduped.0 in
      let refused = conflict_rejections filtered.1 ++ deduped.1 ++ chosen.2 in
      (refl, trim_selection_fits two_decimals counter manager.total_budget chosen.0 refused)

  -- No two injected candidates have the same fingerprint: each one is injected at most once.
  pub arbitrate_within_once :
      (x : Text)
      → let packet =
          arbitrate_within scale is_positive sha256 two_decimals counter allow manager cs in
        sum_by (with_fingerprint sha256 x) packet.injected ≤ 1
  unfolding arbitrate_within build_context_packet
  arbitrate_within_once x =
      let filtered = filter_candidates allow cs in
      let deduped = deduplicate sha256 [] filtered.0 in
      let chosen = select_within_budgets scale is_positive manager deduped.0 in
      let refused = conflict_rejections filtered.1 ++ deduped.1 ++ chosen.2 in
      let w = with_fingerprint sha256 x in
      omega (
        arith,
        trim_selection_shrinks two_decimals (some counter) chosen.1.total_budget chosen.0 refused w,
        select_within_budgets_conserves scale is_positive manager deduped.0 w,
        deduplicate_once sha256 x [] filtered.0,
      )

  -- Every injected candidate comes from a candidate that was offered and passes the hard rules: it
  -- carries neither a conflict with the core identity nor emotion presented as fact, is governed if
  -- it is semantic, an event if it is episodic, needed if it is a procedure, and in no conflict
  -- unless conflicts are asked for. Key, content and type are the ones offered; the metadata is too,
  -- but without the authority marker if it is semantic. If the injected candidate stands in a
  -- conflict, its priority number is at least 50.
  pub arbitrate_within-IsAdmitted :
      All
        (IsAdmitted allow cs)
        (arbitrate_within scale is_positive sha256 two_decimals counter allow manager cs).injected
  unfolding arbitrate_within build_context_packet
  arbitrate_within-IsAdmitted =
      trim_selection-All two_decimals (IsAdmitted allow cs) (some counter) _ _ _ (
        select_within_budgets-All scale is_positive manager _ (IsAdmitted allow cs) (
          deduplicate-All sha256 (IsAdmitted allow cs) [] _
            (filter_candidates-IsAdmitted allow cs)))
