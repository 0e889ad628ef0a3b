-- ===== src/Persona/Shadow/Counts.antt =====
-- The counters of the comparator agree with its records, whatever is compared and reset.
use soul_llink.Base.{
  ℕ, ◌+◌, ◌≤◌, ◌≡◌, refl, not, List, [], ◌∷◌, ◌++◌, Option, String, arith, length, length-append,
  length-filter_by, sum_by, ◌<◌, ◌∙◌, if◌then◌else◌,
}
use soul_llink.Persona.Types.{Mode, TransitionDecision}
use soul_llink.Persona.Shadow.{
  TransitionComparison, NewRule, Comparator, comparison_of, compare_decisions, disagreements,
  get_disagreements, get_summary, get_agreement_rate, type_or_unknown, count_types, bump, reset,
}

pub record IsConsistent (c : Comparator) : Type 0 where
  pub counted : c.total_count ≡ length c.comparisons
  pub differing : c.disagreement_count ≡ length (disagreements c.comparisons)

-- What the comparator is asked to do.
pub data Request : Type 0 where
  compare_request : Option Mode → Mode → ℕ → TransitionDecision → Option NewRule → Request
  reset_request : Request

abbrev pub serve : Request → Comparator → Comparator
serve (compare_request previous nominated confidence legacy rule) c =
    compare_decisions previous nominated confidence legacy rule c
serve reset_request c = reset c

abbrev pub serve_all : List Request → Comparator → Comparator
serve_all [] c = c
serve_all (q ∷ qs) c = serve_all qs (serve q c)

disagreements-snoc :
    (xs : List TransitionComparison) (x : TransitionComparison)
    → length (disagreements (xs ++ x ∷ []))
      ≡ length (disagreements xs) + (if x.agreement then 0 else 1)
disagreements-snoc [] x = ground arith
disagreements-snoc (y ∷ xs) x = ground (arith, disagreements-snoc xs x)

pub compare-IsConsistent :
    (previous : Option Mode) (nominated : Mode) (confidence : ℕ) (legacy : TransitionDecision)
    (rule : Option NewRule) (c : Comparator)
    → IsConsistent c
    → IsConsistent (compare_decisions previous nominated confidence legacy rule c)
unfolding compare_decisions
compare-IsConsistent previous nominated confidence legacy rule c h =
    let comparison = comparison_of previous nominated confidence legacy rule in
    record {
      counted = omega (arith, h.counted, length-append {0} c.comparisons (comparison ∷ []));
      differing = ground (arith, h.differing, disagreements-snoc c.comparisons comparison);
    }

-- After any comparisons and resets, the total counts the records and the disagreement count the
-- records that disagree.
pub serve_all-IsConsistent :
    (qs : List Request) (c : Comparator) → IsConsistent c → IsConsistent (serve_all qs c)
unfolding reset
serve_all-IsConsistent [] c h = h
serve_all-IsConsistent (compare_request p n k l r ∷ qs) c h =
    serve_all-IsConsistent qs _ (compare-IsConsistent p n k l r c h)
serve_all-IsConsistent (reset_request ∷ qs) c h =
    serve_all-IsConsistent qs _ (record { counted = refl; differing = refl })

pub tally : List (String × ℕ) → ℕ
tally = sum_by (λ e. e.1)

tally-bump :
    (key : String) (counts : List (String × ℕ)) → tally (bump key counts) ≡ tally counts + 1
unfolding tally bump
tally-bump key [] = refl
tally-bump key ((k, n) ∷ counts) = ground (arith, tally-bump key counts)

tally-count_types :
    (ds : List TransitionComparison) (counts : List (String × ℕ))
    → tally (count_types ds counts) ≡ tally counts + length ds
unfolding count_types
tally-count_types [] counts = omega arith
tally-count_types (d ∷ ds) counts =
    let key = type_or_unknown d.disagreement_type in
    omega (arith, tally-count_types ds (bump key counts), tally-bump key counts)

-- The summary of a consistent comparator adds up: agreements and disagreements make the total, the
-- counts by type make the disagreements, and the agreement rate is a fraction of at most one whose
-- denominator is not zero.
pub get_summary_adds_up :
    (c : Comparator)
    → IsConsistent c
    → let s = get_summary c in
      (s.agreements + s.disagreement_count ≡ s.total_decisions)
      × (tally s.disagreement_by_type ≡ s.disagreement_count)
      × (s.agreement_rate.0 ≤ s.agreement_rate.1)
      × (0 < s.agreement_rate.1)
unfolding get_summary get_disagreements get_agreement_rate tally
get_summary_adds_up c h =
    let fewer = length-filter_by (λ (d : TransitionComparison). not d.agreement) c.comparisons in
    (
      omega (arith, h.counted, h.differing, fewer),
      tally-count_types (disagreements c.comparisons) [] ∙ omega (arith, h.differing),
      ground (arith, h.counted, h.differing, fewer),
      ground (arith, h.counted, h.differing, fewer),
    )
