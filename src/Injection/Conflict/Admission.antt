-- ===== src/Injection/Conflict/Admission.antt =====
-- What it takes for a candidate to pass the hard rules, and what the filter hands on.
use soul_llink.Base.{
  ◌≤◌, ◌≡◌, refl, ◌↔◌, inl, inr, Bool, true, false, List, [], ◌∷◌, arith, contains, none, String,
  ◌==◌, string_eq, Bool-cases, All, All-map, Member, if◌then◌else◌, not,
}
use soul_llink.Injection.Candidate.{
  semantic_memory, episodic_memory, procedural_skill, core_conflict, emotion_fact_contamination,
  get_value, without, InjectionCandidate, Metadata, with_risk, type_eq, flag_eq,
}
use soul_llink.Injection.Conflict.{
  ConflictDecision, marker_key, is_true, event_marker, is_governed, has_conflict, evaluate,
  evaluate_unmarked, filter_candidates, is_rejected,
}

-- The conditions of admission, with no order among them.
pub record IsAdmissible (allow : Bool) (c : InjectionCandidate) : Type 0 where
  pub core_safe : contains c.risk_flags core_conflict ≡ false
  pub fact_safe : contains c.risk_flags emotion_fact_contamination ≡ false
  pub governed : c.type ≡ semantic_memory → is_governed c.metadata ≡ true
  pub event : c.type ≡ episodic_memory → is_true (event_marker c) ≡ true
  pub needed : c.type ≡ procedural_skill → is_true (get_value "needed" c.metadata) ≡ true
  pub resolvable : has_conflict c ≡ true → allow ≡ true

-- A candidate passes the hard rules, kept or downranked, exactly when it carries neither a conflict
-- with the core identity nor emotion presented as fact, is governed if it is semantic, an event if
-- it is episodic, needed if it is a procedure, and in no conflict unless conflicts are asked for.
pub evaluate-IsAdmissible :
    (allow : Bool) (c : InjectionCandidate)
    → (is_rejected (evaluate allow c) ≡ false) ↔ IsAdmissible allow c
unfolding evaluate evaluate_unmarked
evaluate-IsAdmissible allow c = ground arith

-- What the filter changes: the marker is gone, and conflicts are downranked.
pub record IsClean (allow : Bool) (c : InjectionCandidate) : Type 0 where
  pub unmarked : c.type ≡ semantic_memory → get_value marker_key c.metadata ≡ none
  pub requested : has_conflict c ≡ true → allow ≡ true
  pub downranked : has_conflict c ≡ true → 50 ≤ c.priority

get_value-without : (key : String) (m : Metadata) → get_value key (without key m) ≡ none
unfolding get_value without
get_value-without key [] = refl
get_value-without key ((k, v) ∷ m) = elim (Bool-cases (k == key)) [
  | inl e ↦ rw (e, get_value-without key m)
  | inr e ↦ rw (e, e, get_value-without key m)
]

evaluate_unmarked-IsClean :
    (allow : Bool) (c : InjectionCandidate)
    → (c.type ≡ semantic_memory → get_value marker_key c.metadata ≡ none)
    → is_rejected (evaluate_unmarked allow c) ≡ false
    → IsClean allow (evaluate_unmarked allow c).candidate
unfolding evaluate_unmarked with_risk
evaluate_unmarked-IsClean allow c unmarked h = ground arith

-- A test that rejects leaves the rest to show.
IsClean-unless :
    (allow b : Bool) (d e : ConflictDecision)
    → is_rejected d ≡ true
    → (is_rejected e ≡ false → IsClean allow e.candidate)
    → is_rejected (if b then d else e) ≡ false
    → IsClean allow (if b then d else e).candidate
IsClean-unless allow true d e r clean h = ground arith
IsClean-unless allow false d e r clean h = clean h

evaluate-IsClean :
    (allow : Bool) (c : InjectionCandidate)
    → is_rejected (evaluate allow c) ≡ false
    → IsClean allow (evaluate allow c).candidate
unfolding evaluate
evaluate-IsClean allow c = IsClean-unless allow (contains c.risk_flags core_conflict) _ _ refl (
    IsClean-unless allow (contains c.risk_flags emotion_fact_contamination) _ _ refl
      (elim (Bool-cases (c.type == semantic_memory)) [
        | inl e ↦ rw e (
            IsClean-unless allow (not (is_governed c.metadata)) _ _ refl
              (evaluate_unmarked-IsClean allow _ (λ q. get_value-without marker_key c.metadata)))
        | inr e ↦ rw e (
            evaluate_unmarked-IsClean allow c
              (λ q. ground (arith, type_eq.beq_iff c.type semantic_memory)))
      ]))

evaluate_unmarked-key :
    (allow : Bool) (c : InjectionCandidate) → (evaluate_unmarked allow c).candidate.key ≡ c.key
unfolding evaluate_unmarked with_risk
evaluate_unmarked-key allow c = ground arith

-- No rule changes the key of a candidate.
pub evaluate-key :
    (allow : Bool) (c : InjectionCandidate) → (evaluate allow c).candidate.key ≡ c.key
unfolding evaluate with_risk
evaluate-key allow c = ground (
  arith,
  evaluate_unmarked-key allow c,
  evaluate_unmarked-key allow (record c { metadata = without marker_key c.metadata }),
)

-- the metadata that a candidate which passes is handed on with
abbrev pub handed_on : InjectionCandidate → Metadata
handed_on c = if c.type == semantic_memory then without marker_key c.metadata else c.metadata

evaluate_unmarked-same :
    (allow : Bool) (c : InjectionCandidate)
    → ((evaluate_unmarked allow c).candidate.content ≡ c.content)
      × ((evaluate_unmarked allow c).candidate.type ≡ c.type)
      × ((evaluate_unmarked allow c).candidate.metadata ≡ c.metadata)
unfolding evaluate_unmarked with_risk
evaluate_unmarked-same allow c = ground arith

evaluate-same :
    (allow : Bool) (c : InjectionCandidate)
    → is_rejected (evaluate allow c) ≡ false
    → ((evaluate allow c).candidate.content ≡ c.content)
      × ((evaluate allow c).candidate.type ≡ c.type)
      × ((evaluate allow c).candidate.metadata ≡ handed_on c)
unfolding evaluate
evaluate-same allow c h = ground (
  arith,
  evaluate_unmarked-same allow c,
  evaluate_unmarked-same allow (record c { metadata = without marker_key c.metadata }),
)

-- A candidate is what the filter makes of one that was offered and passes the hard rules: the same
-- but for the marker, the risk flags and the priority.
pub record IsAdmitted (allow : Bool) (offered : List InjectionCandidate) (c : InjectionCandidate)
    : Type 0 where
  pub original : InjectionCandidate
  pub is_offered : Member original offered
  pub admissible : IsAdmissible allow original
  pub same_key : c.key ≡ original.key
  pub same_content : c.content ≡ original.content
  pub same_type : c.type ≡ original.type
  pub same_metadata : c.metadata ≡ handed_on original
  pub clean : IsClean allow c

IsAdmitted-weaken :
    (allow : Bool) (x : InjectionCandidate) (cs : List InjectionCandidate) (c : InjectionCandidate)
    → IsAdmitted allow cs c
    → IsAdmitted allow (x ∷ cs) c
IsAdmitted-weaken allow x cs c h = record {
  original = h.original;
  is_offered = inr h.is_offered;
  admissible = h.admissible;
  same_key = h.same_key;
  same_content = h.same_content;
  same_type = h.same_type;
  same_metadata = h.same_metadata;
  clean = h.clean;
}

evaluate-IsAdmitted :
    (allow : Bool) (c : InjectionCandidate) (cs : List InjectionCandidate)
    → is_rejected (evaluate allow c) ≡ false
    → IsAdmitted allow (c ∷ cs) (evaluate allow c).candidate
evaluate-IsAdmitted allow c cs h =
    let same = evaluate-same allow c h in
    record {
      original = c;
      is_offered = inl refl;
      admissible = (evaluate-IsAdmissible allow c).0 h;
      same_key = evaluate-key allow c;
      same_content = same.0;
      same_type = same.1;
      same_metadata = same.2;
      clean = evaluate-IsClean allow c h;
    }

-- Every candidate that the filter hands on comes from one that passes the hard rules.
pub filter_candidates-IsAdmitted :
    (allow : Bool) (cs : List InjectionCandidate)
    → All (IsAdmitted allow cs) (filter_candidates allow cs).0
unfolding filter_candidates
filter_candidates-IsAdmitted allow [] = tt
filter_candidates-IsAdmitted allow (c ∷ cs) =
    let rest =
      All-map _ _ (IsAdmitted-weaken allow c cs) _ (filter_candidates-IsAdmitted allow cs) in
    elim (Bool-cases (is_rejected (evaluate allow c))) [
      | inl e ↦ rw e rest
      | inr e ↦ rw e (evaluate-IsAdmitted allow c cs e, rest)
    ]
