-- ===== src/Persona/Nomination/Protected.antt =====
-- When the decision table nominates the protected mode.
use soul_llink.Base.{
  ◌≤◌, ◌<◌, ◌≡◌, ◌≢◌, refl, sym, ◌∙◌, ◌↔◌, Bool, true, false, ◌&&◌, List, [], ◌∷◌, String, arith,
  ◌||◌, any, leb, Member, le→leb,
}
use soul_llink.Persona.Evidence.{
  Mode, sex, hard_boundary, explicit_task, protected_progression, feature_eq, DiscourseMode,
  ConfidenceBand, HardEvent, EvidenceStrength, ContinuationTarget, MatchEvidence, counting,
  valid_of, max_by, classify_hard_event, task_strength, classify_task_evidence, protected_strength,
  classify_protected_evidence, classify_relationship_evidence, classify_discourse,
  classify_continuation_target, classify_confidence,
}
use soul_llink.Persona.Nomination.{
  NominationDecision, nominate_mode, nominate_bound, is_exit, is_meta, is_strong,
}
use soul_llink.Persona.Evidence.Counting.{
  Counts, counting-Counts, Counts-counting, Counts-never, never-Counts, below, below-leb,
  any-Member, Member-any, any-none, any-some, leb-max_by, is_empty-filter_by,
}

-- No boundary, no discussion of the conversation, no task of some strength, and evidence for the
-- protected mode of weight 0.6 at least.
pub record IsProtectedTurn (es : List MatchEvidence) : Type 0 where
  pub no_boundary : (e : MatchEvidence) → Member e es → ¬ Counts hard_boundary e
  pub no_meta : (e : MatchEvidence) → Member e es → e.meta_context ≡ false
  pub no_task :
      (e : MatchEvidence)
      → Member e es
      → Counts explicit_task e
      → (e.weight < 7000) × (e.priority < 700)
  pub progression :
      (e : MatchEvidence) × Member e es × Counts protected_progression e × (6000 ≤ e.weight)

-- Every part of the table is a test, and sex mode is one entry of it.
nominate_bound-ne-sex :
    (r : EvidenceStrength) (c : ContinuationTarget) (b : ConfidenceBand)
    → (nominate_bound r c b).nominated_mode ≢ sex
nominate_bound-ne-sex r c b h = ground arith

nominate_mode-sex_cases :
    (h : HardEvent) (t p r : EvidenceStrength) (d : DiscourseMode) (c : ContinuationTarget)
    (b : ConfidenceBand)
    → (nominate_mode h t p r d c b).nominated_mode ≡ sex
    → (is_exit h ≡ false) × (is_meta d ≡ false) × (is_strong t ≡ false) × (is_strong p ≡ true)
unfolding nominate_mode
nominate_mode-sex_cases h t p r d c b e = ground (arith, nominate_bound-ne-sex r c b)

nominate_mode-sex_entry :
    (h : HardEvent) (t p r : EvidenceStrength) (d : DiscourseMode) (c : ContinuationTarget)
    (b : ConfidenceBand)
    → is_exit h ≡ false
    → is_meta d ≡ false
    → is_strong t ≡ false
    → is_strong p ≡ true
    → (nominate_mode h t p r d c b).nominated_mode ≡ sex
unfolding nominate_mode
nominate_mode-sex_entry h t p r d c b x m s y = ground arith

-- The four tests of the table, on the evidence itself.
is_exit-any :
    (es : List MatchEvidence) → is_exit (classify_hard_event es) ≡ any (counting hard_boundary) es
unfolding classify_hard_event
is_exit-any es = let empty = is_empty-filter_by (counting hard_boundary) es in ground arith

is_meta-any :
    (es : List MatchEvidence) → is_meta (classify_discourse es) ≡ any (λ e. e.meta_context) es
unfolding classify_discourse
is_meta-any es = ground arith

task_strength-is_strong :
    (es : List MatchEvidence)
    → is_strong (task_strength es)
      ≡ (leb 7000 (max_by (λ e. e.weight) es) || leb 700 (max_by (λ e. e.priority) es))
task_strength-is_strong [] = refl
task_strength-is_strong (e ∷ es) = ground arith

protected_strength-is_strong :
    (es : List MatchEvidence)
    → is_strong (protected_strength es) ≡ leb 6000 (max_by (λ e. e.weight) es)
protected_strength-is_strong [] = refl
protected_strength-is_strong (e ∷ es) = ground arith

-- valid task evidence of weight 0.7, and of priority 700
abbrev is_heavy_task : MatchEvidence → Bool
is_heavy_task e = counting explicit_task e && leb 7000 e.weight

abbrev is_urgent_task : MatchEvidence → Bool
is_urgent_task e = counting explicit_task e && leb 700 e.priority

is_strong_task :
    (es : List MatchEvidence)
    → is_strong (classify_task_evidence es) ≡ (any is_heavy_task es || any is_urgent_task es)
unfolding classify_task_evidence
is_strong_task es =
    rw
      (
        task_strength-is_strong (valid_of explicit_task es),
        leb-max_by (λ e. e.weight) (counting explicit_task) 6999 es,
        leb-max_by (λ e. e.priority) (counting explicit_task) 699 es,
      )
      refl

is_strong_protected :
    (es : List MatchEvidence)
    → is_strong (classify_protected_evidence es)
      ≡ any (λ e. counting protected_progression e && leb 6000 e.weight) es
unfolding classify_protected_evidence
is_strong_protected es =
    rw
      (
        protected_strength-is_strong (valid_of protected_progression es),
        leb-max_by (λ e. e.weight) (counting protected_progression) 5999 es,
      )
      refl

-- The table on the classes of one collection of evidence.
abbrev pub nomination_of : List MatchEvidence → NominationDecision
nomination_of es =
    nominate_mode (classify_hard_event es) (classify_task_evidence es)
      (classify_protected_evidence es) (classify_relationship_evidence es) (classify_discourse es)
      (classify_continuation_target es) (classify_confidence es)

or_split : (a b : Bool) → (a || b) ≡ false → (a ≡ false) × (b ≡ false)
or_split a b h = ground arith

sex-IsProtectedTurn :
    (es : List MatchEvidence) → (nomination_of es).nominated_mode ≡ sex → IsProtectedTurn es
sex-IsProtectedTurn es h =
    let tests = nominate_mode-sex_cases _ _ _ _ _ _ _ h in
    let found = any-Member _ es (sym (is_strong_protected es) ∙ tests.3) in
    let quiet =
      or_split (any is_heavy_task es) (any is_urgent_task es) (sym (is_strong_task es) ∙ tests.2) in
    record {
      no_boundary = λ e m.
          Counts-never hard_boundary e (Member-any _ e es (sym (is_exit-any es) ∙ tests.0) m);
      no_meta = λ e m. Member-any (λ e. e.meta_context) e es (sym (is_meta-any es) ∙ tests.1) m;
      no_task = λ e m c. (
        below explicit_task e 7000 e.weight c (Member-any is_heavy_task e es quiet.0 m),
        below explicit_task e 700 e.priority c (Member-any is_urgent_task e es quiet.1 m),
      );
      progression = (
        found.0,
        found.1,
        counting-Counts protected_progression found.0 (ground arith),
        ground arith,
      );
    }

IsProtectedTurn-sex :
    (es : List MatchEvidence) → IsProtectedTurn es → (nomination_of es).nominated_mode ≡ sex
IsProtectedTurn-sex es t =
    let p = t.progression in
    nominate_mode-sex_entry _ _ _ _ _ _ _
      (is_exit-any es ∙ any-none _ es (λ e m. never-Counts hard_boundary e (t.no_boundary e m)))
      (is_meta-any es ∙ any-none _ es t.no_meta)
      (is_strong_task es
        ∙ rw
            (
              any-none _ es
                  (λ e m. below-leb explicit_task e 7000 e.weight (λ c. (t.no_task e m c).0)),
              any-none _ es
                  (λ e m. below-leb explicit_task e 700 e.priority (λ c. (t.no_task e m c).1)),
            )
            refl)
      (is_strong_protected es
        ∙ any-some _ p.0 es p.1
            (rw (Counts-counting protected_progression p.0 p.2) (le→leb 6000 p.0.weight p.3)))

-- the gate that each mode asks for
abbrev pub gate_of : Mode → String
gate_of sex = "desire_check"
gate_of _ = ""

nominate_bound-gate :
    (r : EvidenceStrength) (c : ContinuationTarget) (b : ConfidenceBand)
    → (nominate_bound r c b).required_gate ≡ gate_of (nominate_bound r c b).nominated_mode
nominate_bound-gate r c b = ground arith

nominate_mode-gate :
    (h : HardEvent) (t p r : EvidenceStrength) (d : DiscourseMode) (c : ContinuationTarget)
    (b : ConfidenceBand)
    → (nominate_mode h t p r d c b).required_gate
      ≡ gate_of (nominate_mode h t p r d c b).nominated_mode
unfolding nominate_mode
nominate_mode-gate h t p r d c b = ground (arith, nominate_bound-gate r c b)

-- The decision table, on the classes of any evidence, nominates sex mode exactly when no valid
-- evidence is a hard boundary, no evidence discusses the conversation, all valid task evidence
-- has a weight below 0.7 and a priority below 700, and some valid evidence for the protected mode
-- has a weight of 0.6 at least. It asks for the desire gate exactly in that mode.
pub nominate_mode-IsProtectedTurn :
    (es : List MatchEvidence)
    → (((nomination_of es).nominated_mode ≡ sex) ↔ IsProtectedTurn es)
      × ((nomination_of es).required_gate ≡ gate_of (nomination_of es).nominated_mode)
nominate_mode-IsProtectedTurn es =
    ((sex-IsProtectedTurn es, IsProtectedTurn-sex es), nominate_mode-gate _ _ _ _ _ _ _)
